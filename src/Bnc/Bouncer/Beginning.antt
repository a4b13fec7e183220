-- ===== src/Bnc/Bouncer/Beginning.antt =====
-- What a new client makes of the session that it gets: it begins, and the site is asked for.
use cbbncd.Base.{
  ℕ, ◌≡◌, refl, inl, inr, true, List, [], ◌∷◌, ◌++◌, Option, none, some, Bool-cases, sym, ◌∙◌, ◌&&◌,
  append_assoc, append-nil, by_test,
}
use cbbncd.Base.Int.{pos}
use cbbncd.Base.Text.{codes}
use cbbncd.Traffic.World.{
  World, IoCall, register_tcp_server_client_socket, register_tcp_client_socket,
}
use cbbncd.Bnc.Client.{BncSessionClient, Outcome, done, ◌>>=◌, check_send_ident}
use cbbncd.Bnc.Client
use cbbncd.Bnc.Ident.{Ident}
use cbbncd.Bnc.Ident
use cbbncd.Bnc.Session.{BncSession, Accepted, established, active, ident_of, begun, activate}
use cbbncd.Address.{Address}
use cbbncd.Bnc.Bouncer.{free_session}

-- The session and its connection to the site agree on whether the site gets IDNT.
abbrev pub IsMatched : BncSession → Type 0
IsMatched s = s.noidnt ≡ s.sessionclient.noidnt

abbrev pub AllMatched : List BncSession → Type 0
AllMatched [] = Unit {0}
AllMatched (s ∷ ss) = IsMatched s × AllMatched ss

pub AllMatched-append :
    (xs ys : List BncSession) → AllMatched xs → AllMatched ys → AllMatched (xs ++ ys)
AllMatched-append [] ys h k = k
AllMatched-append (x ∷ xs) ys (e, h) k = (e, AllMatched-append xs ys h k)

-- The session that is used, and those around it.
abbrev pub Around : List BncSession × BncSession × List BncSession → Type 0
Around (before, s, behind) = AllMatched before × IsMatched s × AllMatched behind

pub free_session-Around :
    (fresh : BncSession) (sessions : List BncSession)
    → IsMatched fresh
    → AllMatched sessions
    → Around (free_session fresh sessions)
unfolding free_session
free_session-Around fresh [] f h = (tt, f, tt)
free_session-Around fresh (s ∷ ss) f (e, h) =
    let (before, used, behind) = free_session-Around fresh ss f h in
    by_test Around (active s) _ ([], s, ss) (λ _. ((e, before), used, behind)) (λ _. (tt, e, h))

-- The operation returns, with more calls behind the given ones.
abbrev pub Begins : List IoCall → Outcome (BncSession × World) → Type 0
Begins calls r =
    (s' : BncSession) × (w' : World) × (rest : List IoCall) × (r ≡ done (s', w'))
    × IsMatched s'
    × (w'.calls ≡ calls ++ rest)

pub said :
    (c : BncSessionClient) (w : World)
    → (rest : List IoCall) × ((check_send_ident c w).calls ≡ w.calls ++ rest)
unfolding check_send_ident
said c w =
    by_test (λ (w' : World). (rest : List IoCall) × (w'.calls ≡ w.calls ++ rest))
      (c.identreceived && c.connected) _ w (λ _. (_, refl)) (λ _. ([], sym (append-nil w.calls)))

pub begun-Begins :
    (a : Accepted) (i : Option Ident) (s : BncSession) (w : World)
    → IsMatched s
    → Begins w.calls (begun a i s w)
unfolding Client.ident Ident.activate
begun-Begins a (some i) s w h = (_, _, _, refl, h, append_assoc w.calls (_ ∷ []) (_ ∷ []))
begun-Begins a none s w h = elim (Bool-cases s.noidnt) [
  | inl none_wanted ↦
      (record s { state = established }, w, [], rw none_wanted refl, h, sym (append-nil w.calls))
  | inr wanted ↦
      let c : BncSessionClient = record (s.sessionclient) {
        identstr = ident_of (codes "*") s.srcaddr;
        identreceived = true;
      } in
      let s' : BncSession = record s { state = established; sessionclient = c } in
      let (rest, calls) = said c w in
      (s', check_send_ident c w, rest, rw (wanted, sym h ∙ wanted) refl, h, calls)
]

pub activate-Begins :
    (a : Accepted) (newsockid : ℕ) (site : Address) (s : BncSession) (w : World)
    → IsMatched s
    → (s' : BncSession) × (w' : World) × (rest : List IoCall) × (activate a newsockid site.addrfam
          site.host
          (pos site.port)
          s
          w
        ≡ done (s', w'))
      × IsMatched s'
      × (w'.calls
          ≡ w.calls
            ++ register_tcp_server_client_socket newsockid true
              ∷ register_tcp_client_socket site.host (pos site.port) site.addrfam
              ∷ rest)
unfolding activate Client.activate
activate-Begins a newsockid site s w h =
    let (s', w', rest, ends, same, calls) = begun-Begins a s.identp _ _ h in
    (
      s',
      w',
      rest,
      ends,
      same,
      calls
          ∙ (append_assoc (w.calls ++ register_tcp_server_client_socket newsockid true ∷ [])
                (_ ∷ []) rest
              ∙ append_assoc w.calls (_ ∷ []) (_ ∷ rest)),
    )
