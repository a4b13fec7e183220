-- ===== src/Bnc/Session/Events.antt =====
-- bnc/bncsession.cpp: the events of a session; those of its ident and of its connection to the site
-- (bnc/ident.cpp, bnc/bncsessionclient.cpp) that reach it are among them. Log lines are left out.
use cbbncd.Base.{ℕ, Bool, true, false, not, ◌&&◌, [], ◌∷◌, ◌++◌, Option, none, some, if◌then◌else◌}
use cbbncd.Base.Text.{Bytes}
use cbbncd.Traffic.World.{World, calling, close_socket, pause, resume}
use cbbncd.Bnc.Client.{Outside, Outcome, done, undefined, ◌>>=◌, drop_transfers}
use cbbncd.Bnc.Client
use cbbncd.Bnc.Client.Commands.{send_command}
use cbbncd.Bnc.Ident.{Ident, told, told_inactive, told_late, deactivate, close}
use cbbncd.Bnc.Session.{
  State, disconnected, ident_state, established, BncSession, send_queued_data, tell,
}

-- `identp->close()`, for a pointer that may be null.
abbrev pub close_ident : Option Ident → World → Outcome (Option Ident × World)
close_ident none w = undefined
close_ident (some i) w = let (i', w') = close i w in done (some i', w')

-- `if (state == State::IDENT) identp->close()`.
abbrev pub close_in_ident : State → Option Ident → World → Outcome (Option Ident × World)
close_in_ident ident_state i w = close_ident i w
close_in_ident _ i w = done (i, w)

unfoldable pub fd_disconnected : BncSession → World → Outcome (BncSession × World)
unfolding close Client.disconnect
fd_disconnected s w = do
  (i, w1) ← close_in_ident s.state s.identp w
  let (c, w2) = Client.disconnect s.sessionclient w1
  done (record s { identp = i; sessionclient = c; sendqueue = []; state = disconnected }, w2)

-- The end of `FDData` in the state ESTABLISHED, on what the client's `sendData` returned.
abbrev pub passed_on : BncSession → Bool × Client.BncSessionClient × World → BncSession × World
passed_on s (sent, c, w) =
    let s' = record s { sessionclient = c } in
    if not sent && not s.paused
    then (record s' { paused = true }, calling (pause (some s.sockid)) w)
    else (s', w)

unfoldable pub fd_data : Outside → Bytes → BncSession → World → Outcome (BncSession × World)
unfolding send_command
fd_data o data_bytes s w = elim s.state [
  | disconnected ↦ done (s, w)
  | ident_state ↦ done (record s { sendqueue = s.sendqueue ++ data_bytes ∷ [] }, w)
  | established ↦ send_command o data_bytes s.sessionclient w >>= (λ r. done (passed_on s r))
]

unfoldable pub target_send_complete :
    (ℕ → Outside) → BncSession → World → Outcome (BncSession × World)
unfolding send_queued_data
target_send_complete outside s w =
    if s.paused
    then send_queued_data outside (record s { paused = false }) (calling (resume (some s.sockid)) w)
    else done (s, w)

unfoldable pub fd_send_complete : BncSession → World → BncSession × World
unfolding Client.send_complete
fd_send_complete s w =
    let (c, w') = Client.send_complete s.sessionclient w in (record s { sessionclient = c }, w')

unfoldable pub fd_ssl_success : Bytes → BncSession → BncSession
fd_ssl_success cipher s = record s {
  sessionclient = Client.parent_tls_success cipher s.sessionclient;
}

unfoldable pub target_disconnected : BncSession → World → Outcome (BncSession × World)
unfolding close
target_disconnected s w = do
  (i, w1) ← close_in_ident s.state s.identp w
  done (
    record s { identp = i; sendqueue = []; state = disconnected },
    calling (close_socket s.sockid) w1,
  )

-- `BncSessionClient::FDDisconnected`.
unfoldable pub site_disconnected : BncSession → World → Outcome (BncSession × World)
unfolding target_disconnected
site_disconnected s w = do
  let c = record (s.sessionclient) { connected = false }
  (s', w1) ← target_disconnected (record s { sessionclient = c }) w
  let (c', w2) = drop_transfers s'.sessionclient w1
  done (record s' { sessionclient = c' }, w2)

-- `Ident::FDData`: the session is told, then the socket is closed and the ident deactivated.
unfoldable pub ident_data :
    (ℕ → Outside) → Bytes → Ident → BncSession → World → Outcome (BncSession × World)
unfolding told
ident_data outside buf i s w = do
  (s', w1) ← tell outside (told buf) s w
  let (i', w2) = deactivate i (calling (close_socket i.sockid) w1)
  done (record s' { identp = some i' }, w2)

-- `Ident::FDDisconnected` and `Ident::FDFail`.
unfoldable pub ident_lost :
    (ℕ → Outside) → Ident → BncSession → World → Outcome (BncSession × World)
ident_lost outside i s w = do
  (s', w1) ← tell outside (told_inactive i) s w
  let (i', w2) = deactivate i w1
  done (if i.active then (record s' { identp = some i' }, w2) else (s', w1))

-- `Ident::tick`.
unfoldable pub ident_tick :
    (ℕ → Outside) → ℕ → Ident → BncSession → World → Outcome (BncSession × World)
ident_tick outside sockid i s w = do
  (s', w1) ← tell outside (told_late sockid i) s w
  let (i', w2) = deactivate i w1
  done (record s' { identp = some i' }, w2)
