-- ===== src/Bnc/Session/Queue.antt =====
-- What a client sent while its ident was not known reaches the site in its order.
use cbbncd.Base.{
  ℕ, ◌≡◌, refl, ◌⊎◌, inl, inr, Bool, true, false, ◌||◌, List, [], ◌∷◌, ◌++◌, append_assoc,
  append-nil, some, length, Bool-cases, ap, sym, ◌∙◌,
}
use cbbncd.Base.Text.{Bytes, codes}
use cbbncd.Traffic.World.{World, IoCall, calling, send_data, pause}
use cbbncd.Bnc.Client.{BncSessionClient, Outside, Outcome, done, ◌>>=◌, crlf}
use cbbncd.Bnc.Client
use cbbncd.Bnc.Client.Commands.{send_command}
use cbbncd.Bnc.Client.Ledger.{chosen, unchosen}
use cbbncd.Bnc.Session.{
  ident_state, established, BncSession, ident_of, drain, send_queued_data, ident,
}

abbrev pub sends : ℕ → List Bytes → List IoCall
sends sockid [] = []
sends sockid (chunk ∷ queue) = send_data (some sockid) chunk ∷ sends sockid queue

abbrev pub pauses : ℕ → Bool → List IoCall
pauses sockid true = pause (some sockid) ∷ []
pauses sockid false = []

-- A first part of the queue is sent, in its order; what is left is all of the rest, and nothing is
-- left unless the site does not keep up, in which case the client is paused.
abbrev pub Drained :
    ℕ
    → List Bytes
    → BncSessionClient
    → World
    → Outcome (List Bytes × Bool × BncSessionClient × World)
    → Type 0
Drained sockid queue c w r =
    (sent : List Bytes) × (left : List Bytes) × (stop : Bool) × (w' : World) × (r
      ≡ done (left, stop, c, w'))
    × (sent ++ left ≡ queue)
    × ((stop ≡ true) ⊎ (left ≡ []))
    × (w'.calls ≡ w.calls ++ (sends c.sockid sent ++ pauses sockid stop))

-- A client of a session that only forwards.
abbrev pub IsForwarding : BncSessionClient → Type 0
IsForwarding c = (c.traffic ≡ false) × ((c.identreceived || c.noidnt) ≡ true)

send_command_through :
    (o : Outside) (chunk : Bytes) (c : BncSessionClient) (w : World)
    → IsForwarding c
    → send_command o chunk c w ≡ done (o.sent, c, calling (send_data (some c.sockid) chunk) w)
unfolding send_command
send_command_through o chunk c w (bounced, known) =
    let Through : Outcome (Bool × BncSessionClient × World) → Type 0 =
      λ r. r ≡ done (o.sent, c, calling (send_data (some c.sockid) chunk) w) in
    chosen Through (c.identreceived || c.noidnt) _ _ known
      (unchosen Through c.traffic _ _ bounced refl)

drain-Drained :
    (outside : ℕ → Outside) (sockid : ℕ) (queue : List Bytes) (c : BncSessionClient) (w : World)
    → IsForwarding c
    → Drained sockid queue c w (drain outside sockid queue false c w)
unfolding drain
drain-Drained outside sockid [] c w f =
    ([], [], false, w, refl, refl, inr refl, sym (append-nil w.calls))
drain-Drained outside sockid (chunk ∷ queue) c w f =
    let through = send_command_through (outside (length queue)) chunk c w f in
    let next = calling (send_data (some c.sockid) chunk) w in
    elim (Bool-cases (outside (length queue)).sent) [
      | inl kept ↦
          let (sent, left, stop, w', e, parts, ends, calls) =
            drain-Drained outside sockid queue c next f in
          let all = calls ∙ append_assoc w.calls (send_data (some c.sockid) chunk ∷ []) _ in
          (chunk ∷ sent, left, stop, w', rw (through, kept) e, ap (◌∷◌ chunk) parts, ends, all)
      | inr slow ↦
          let all = append_assoc w.calls (send_data (some c.sockid) chunk ∷ []) _ in
          (
            chunk ∷ [],
            queue,
            true,
            calling (pause (some sockid)) next,
            rw (through, slow) refl,
            refl,
            inl refl,
            all,
          )
    ]

-- The IDNT line, and then a first part of what the client sent, in its order; what is left is all of
-- the rest, and nothing is left unless the site does not keep up.
abbrev pub Announced : Bytes → BncSession → World → Outcome (BncSession × World) → Type 0
Announced user s w r =
    (sent : List Bytes) × (s' : BncSession) × (w' : World) × (r ≡ done (s', w'))
    × (s'.state ≡ established)
    × (sent ++ s'.sendqueue ≡ s.sendqueue)
    × ((s'.paused ≡ true) ⊎ (s'.sendqueue ≡ []))
    × (w'.calls
        ≡ w.calls
          ++ (send_data (some s.sessionclient.sockid)
                (codes "IDNT " ++ (ident_of user s.srcaddr ++ crlf))
              ∷ (sends s.sessionclient.sockid sent ++ pauses s.sockid s'.paused)))

-- A session that waits for its ident, is not paused, is connected to the site and bounces no
-- traffic.
abbrev pub awaiting_ident : BncSession → BncSession
awaiting_ident s = record s {
  state = ident_state;
  paused = false;
  sessionclient = record (s.sessionclient) { noidnt = false; connected = true; traffic = false };
}

-- When the ident becomes known of a session that waits for it, is not paused and bounces no
-- traffic, that is connected to the site already and whose site wants IDNT, the site gets the IDNT
-- line first, and then what the client sent before, each chunk once and in its order; a rest is left
-- only where the site does not keep up, and then the client is paused. The session is established.
pub ident-Announced :
    (outside : ℕ → Outside) (user : Bytes) (s : BncSession) (w : World)
    → Announced user (awaiting_ident s) w (ident outside user (awaiting_ident s) w)
unfolding ident send_queued_data Client.ident
ident-Announced outside user s w =
    let c = record ((awaiting_ident s).sessionclient) {
      identstr = ident_of user s.srcaddr;
      identreceived = true;
    } in
    let line = codes "IDNT " ++ (ident_of user s.srcaddr ++ crlf) in
    let w1 = calling (send_data (some c.sockid) line) w in
    let (sent, left, stop, w', e, parts, ends, calls) =
      drain-Drained outside s.sockid s.sendqueue c w1 (refl, refl) in
    let all = calls ∙ append_assoc w.calls (send_data (some c.sockid) line ∷ []) _ in
    let s' = record s { state = established; sendqueue = left; paused = stop; sessionclient = c } in
    (sent, s', w', rw e refl, refl, parts, ends, all)
