-- ===== src/Bnc/Bouncer/RoundRobin.antt =====
-- New clients are led to the sites in turn.
use cbbncd.Base.{
  ℕ, zero, suc, ◌+◌, ◌%◌, ◌<◌, ◌≡◌, refl, true, List, [], ◌∷◌, ◌++◌, some, length, get_elem?, arith,
  ap, sym, subst, ◌∙◌,
}
use native.Mathlib.Nat.{mod-lt, suc-mod, mod-eq_of_lt}
use cbbncd.Base.Int.{pos}
use cbbncd.Traffic.World.{
  World, IoCall, register_tcp_server_client_socket, register_tcp_client_socket,
}
use cbbncd.Bnc.Client.{Outcome, done, ◌>>=◌}
use cbbncd.Bnc.Session.{BncSession, Accepted}
use cbbncd.Address.{Address}
use cbbncd.Bnc.Bouncer.{Bnc, next_site, free_session, fd_new}
use cbbncd.Bnc.Bouncer.Beginning.{
  IsMatched, AllMatched, AllMatched-append, free_session-Around, activate-Begins,
}

get_elem?-some :
    {A : Type 0} (xs : List A) (i : ℕ) → i < length xs → (x : A) × (get_elem? xs i ≡ some x)
get_elem?-some [] i h = absurd (omega arith)
get_elem?-some (x ∷ xs) zero h = (x, refl)
get_elem?-some (x ∷ xs) (suc i) h = get_elem?-some xs i (omega arith)

-- A new client: what the IOManager answers about it, its socket, and a session to be used if no
-- other is free.
abbrev pub Arrival : Type 0
Arrival = Accepted × ℕ × BncSession

-- New clients, one after the other.
abbrev pub accept_all : List Arrival → Bnc → World → Outcome (Bnc × World)
accept_all [] b w = done (b, w)
accept_all ((a, newsockid, fresh) ∷ arrivals) b w =
    fd_new a newsockid fresh b w >>= (λ r. accept_all arrivals r.0 r.1)

-- The calls that are made for the clients: for each one its socket is registered, and then a
-- connection to the site that stands at the place `from` of the list, taken round, which is
-- followed by the place `from + 1` for the next one.
abbrev pub InTurn : List Address → ℕ → List Arrival → List IoCall → List IoCall → Type 0
InTurn siteaddrs from [] calls calls' = calls' ≡ calls
InTurn siteaddrs from ((a, newsockid, fresh) ∷ arrivals) calls calls' =
    (site : Address) × (rest : List IoCall) × (get_elem? siteaddrs (from % length siteaddrs)
      ≡ some site)
    × InTurn siteaddrs (from + 1) arrivals
        (calls
          ++ register_tcp_server_client_socket newsockid true
            ∷ register_tcp_client_socket site.host (pos site.port) site.addrfam
            ∷ rest)
        calls'

-- Also the sessions that are used if no other is free.
abbrev pub ArrivalsMatched : List Arrival → Type 0
ArrivalsMatched [] = Unit {0}
ArrivalsMatched ((a, newsockid, fresh) ∷ arrivals) = IsMatched fresh × ArrivalsMatched arrivals

module _ (siteaddrs : List Address) where
  -- The state in which the next site is the one at the place `from`, taken round.
  abbrev at_turn : ℕ → List BncSession → Bnc
  at_turn from sessions = record {
    siteaddrs = siteaddrs;
    nextsiteaddr = from % length siteaddrs;
    sessions = sessions;
  }

  next_place :
      (from : ℕ) → (from % length siteaddrs + 1) % length siteaddrs ≡ (from + 1) % length siteaddrs
  next_place from =
      let s : from % length siteaddrs + 1 ≡ suc (from % length siteaddrs) = omega arith in
      let t : from + 1 ≡ suc from = omega arith in rw (s, t) (sym (suc-mod from (length siteaddrs)))

  next_site-at_turn :
      (from : ℕ) (sessions : List BncSession)
      → 0 < length siteaddrs
      → (site : Address) × (get_elem? siteaddrs (from % length siteaddrs) ≡ some site)
        × (next_site (at_turn from sessions) ≡ some (site, at_turn (from + 1) sessions))
  unfolding next_site
  next_site-at_turn from sessions h =
      let (site, e) = get_elem?-some siteaddrs (from % length siteaddrs) (mod-lt from h) in
      (site, e, rw (e, next_place from) refl)

  -- One client.
  fd_new-at_turn :
      (from : ℕ) (sessions : List BncSession) (a : Accepted) (newsockid : ℕ) (fresh : BncSession)
      (w : World)
      → 0 < length siteaddrs
      → AllMatched sessions
      → IsMatched fresh
      → (site : Address) × (ss : List BncSession) × (w' : World) × (rest : List IoCall) × (get_elem?
            siteaddrs
            (from % length siteaddrs)
          ≡ some site)
        × AllMatched ss
        × (fd_new a newsockid fresh (at_turn from sessions) w ≡ done (at_turn (from + 1) ss, w'))
        × (w'.calls
            ≡ w.calls
              ++ register_tcp_server_client_socket newsockid true
                ∷ register_tcp_client_socket site.host (pos site.port) site.addrfam
                ∷ rest)
  unfolding fd_new
  fd_new-at_turn from sessions a newsockid fresh w h all new =
      let (site, e, next) = next_site-at_turn from sessions h in
      let (before, used, behind) = free_session-Around fresh sessions new all in
      let (s', w', rest, ends, same, calls) =
        activate-Begins a newsockid site (free_session fresh sessions).1 w used in
      (
        site,
        (free_session fresh sessions).0 ++ s' ∷ (free_session fresh sessions).2,
        w',
        rest,
        e,
        AllMatched-append (free_session fresh sessions).0 (s' ∷ (free_session fresh sessions).2)
            before (same, behind),
        rw (next, ends) refl,
        calls,
      )

  all-InTurn :
      (arrivals : List Arrival) (from : ℕ) (sessions : List BncSession) (w : World)
      → 0 < length siteaddrs
      → AllMatched sessions
      → ArrivalsMatched arrivals
      → (ss : List BncSession) × (w' : World) × (accept_all arrivals (at_turn from sessions) w
          ≡ done (at_turn (from + length arrivals) ss, w'))
        × InTurn siteaddrs from arrivals w.calls w'.calls
  all-InTurn [] from sessions w h all new =
      let e : from + 0 ≡ from = omega arith in (sessions, w, rw e refl, refl)
  all-InTurn ((a, newsockid, fresh) ∷ arrivals) from sessions w h all (new, more) =
      let (site, ss, w1, rest, e, all', ends, calls) =
        fd_new-at_turn from sessions a newsockid fresh w h all new in
      let (ss', w', ends', turn) = all-InTurn arrivals (from + 1) ss w1 h all' more in
      let p : from + 1 + length arrivals ≡ from + suc (length arrivals) = omega arith in
      (
        ss',
        w',
        rw ends (ends' ∙ ap (λ n. done (at_turn n ss', w')) p),
        (site, rest, e, subst (λ c. InTurn siteaddrs (from + 1) arrivals c w'.calls) calls turn),
      )

-- However many new clients come, `FDNew` returns for each of them, and leads them to the sites that
-- stand in the list from the next place on, one after the other and from the start again behind the
-- last one: for each client its socket is registered and a connection to its site is asked for. The
-- next place is then as much later as there were clients. At the start it is a place of the list, and
-- each session agrees with its connection to the site on whether the site gets IDNT.
pub accept_all-InTurn :
    (siteaddrs : List Address) (sessions : List BncSession) (arrivals : List Arrival) (from : ℕ)
    (w : World)
    → from < length siteaddrs
    → AllMatched sessions
    → ArrivalsMatched arrivals
    → (b' : Bnc) × (w' : World) × (accept_all arrivals
          (record { siteaddrs = siteaddrs; nextsiteaddr = from; sessions = sessions })
          w
        ≡ done (b', w'))
      × (b'.siteaddrs ≡ siteaddrs)
      × (b'.nextsiteaddr ≡ (from + length arrivals) % length siteaddrs)
      × InTurn siteaddrs from arrivals w.calls w'.calls
accept_all-InTurn siteaddrs sessions arrivals from w h all new =
    let (ss, w', ends, turn) =
      all-InTurn siteaddrs arrivals from sessions w (omega arith) all new in
    let e : from % length siteaddrs ≡ from = mod-eq_of_lt h in
    (
      at_turn siteaddrs (from + length arrivals) ss,
      w',
      subst
          (λ place.
            accept_all arrivals
              (record { siteaddrs = siteaddrs; nextsiteaddr = place; sessions = sessions }) w
            ≡ done (at_turn siteaddrs (from + length arrivals) ss, w'))
          e ends,
      refl,
      refl,
      turn,
    )
