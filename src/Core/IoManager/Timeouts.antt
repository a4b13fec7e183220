-- ===== src/Core/IoManager/Timeouts.antt =====
-- IOManager::tick, which closes the sockets that do not connect in time.
use cbbncd.Base.{
  ℕ, zero, suc, ◌+◌, List, [], ◌∷◌, length, not, Option, none, some, leb, if◌then◌else◌,
}
use cbbncd.Base.Text.{Bytes, codes}
use cbbncd.Core.SocketInfo.{SocketInfo}
use cbbncd.Core.Event.{normal}
use cbbncd.Core.WorkManager.{dispatch_event_fail}
use cbbncd.Core.IoManager.{IoManager, working, close_socket_intern}

abbrev pub elapsed : Option ℕ → ℕ
elapsed none = 99
elapsed (some time) = time + 100

-- An entry after the first loop.
abbrev pub aged : ℕ → Option ℕ
aged time = if leb 5000 time then none else some time

abbrev pub age : List (ℕ × Option ℕ) → List (ℕ × Option ℕ)
age [] = []
age ((sockid, time) ∷ times) = (sockid, aged (elapsed time)) ∷ age times

abbrev pub first_expired : List (ℕ × Option ℕ) → Option ℕ
first_expired [] = none
first_expired ((sockid, none) ∷ times) = some sockid
first_expired ((sockid, some time) ∷ times) = first_expired times

abbrev pub timeout_text : Bytes
timeout_text = codes "Connection timeout"

abbrev pub tell_timeout : ℕ → Option SocketInfo → IoManager → IoManager
tell_timeout sockid none m = m
tell_timeout sockid (some s) m =
    if not s.closing
    then working (dispatch_event_fail s.receiver sockid timeout_text normal m.workmanager) m
    else m

-- A round of the second loop: it ends, or closes a socket and goes on.
abbrev pub expire_round : (IoManager → Option IoManager) → IoManager → Option ℕ → Option IoManager
expire_round go_on m none = some m
expire_round go_on m (some sockid) =
    go_on (close_socket_intern sockid (tell_timeout sockid (m.socketinfomap sockid) m))

-- The loop, on fuel. None: it does not end.
unfoldable pub expire : ℕ → IoManager → Option IoManager
expire zero m = none
expire (suc fuel) m = expire_round (expire fuel) m (first_expired m.connecttimemap)

unfoldable pub tick : IoManager → Option IoManager
unfolding expire
tick m =
    let m' = record m { connecttimemap = age m.connecttimemap } in
    expire (suc (length m.connecttimemap)) m'
