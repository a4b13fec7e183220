-- ===== src/Core/IoManager/Waking.antt =====
-- A socket that an overload has paused is polled again once the worker is ready.
use cbbncd.Base.{
  ℕ, ◌≡◌, ◌≢◌, refl, sym, ap, ◌∙◌, subst, ◌⊎◌, inl, inr, List, [], ◌∷◌, Bool, true, false, not,
  ◌||◌, Option, none, some, ◌==◌, if◌then◌else◌, by_test, Bool-cases, ==_iff, arith,
}
use cbbncd.Core.Polling.{FdMap, Interest, or_in, or_out}
use cbbncd.Core.SocketInfo.{SocketInfo, Direction, dir_in, dir_out}
use cbbncd.Core.IoManager.{IoManager, has, add_for, repolled, wake_found, wake_all, worker_ready}
use cbbncd.Core.IoManager.Pauses.{some_inj, OwnFds, ==_ne}
use cbbncd.Core.IoManager.Marking.{IsOrderly, never_true}
use cbbncd.Core.IoManager.Pausing.{
  Waking, first-Waking, wake_found-Waking, repolled-Touches, worker_ready-IsOrderly,
}

-- What `poll` is to be asked for a socket: just its direction, with its number.
abbrev pub wanted : Direction → ℕ → Interest
wanted dir_in sockid = record { pollin = true; pollout = false; userdata = some sockid }
wanted dir_out sockid = record { pollin = false; pollout = true; userdata = some sockid }

-- `poll` is asked just that of the descriptor.
abbrev pub IsPolled : Direction → ℕ → ℕ → FdMap → Type 0
IsPolled d sockid fd polls = polls (some fd) ≡ some (wanted d sockid)

-- It is asked just that, or nothing yet.
abbrev IsFree : Direction → ℕ → ℕ → FdMap → Type 0
IsFree d sockid fd polls = (polls (some fd) ≡ none) ⊎ IsPolled d sockid fd polls

same_self : (fd : ℕ) → (fd == fd) ≡ true
same_self fd = ground arith

add_for-IsPolled :
    (d : Direction) (fd sockid : ℕ) (polls : FdMap)
    → IsFree d sockid fd polls
    → IsPolled d sockid fd (add_for d (some fd) sockid polls)
add_for-IsPolled dir_in fd sockid polls (inl e) =
    ap (λ b. if b then some (or_in (some sockid) (polls (some fd))) else polls (some fd))
      (same_self fd)
    ∙ ap (λ o. some (or_in (some sockid) o)) e
add_for-IsPolled dir_in fd sockid polls (inr e) =
    ap (λ b. if b then some (or_in (some sockid) (polls (some fd))) else polls (some fd))
      (same_self fd)
    ∙ ap (λ o. some (or_in (some sockid) o)) e
add_for-IsPolled dir_out fd sockid polls (inl e) =
    ap (λ b. if b then some (or_out (some sockid) (polls (some fd))) else polls (some fd))
      (same_self fd)
    ∙ ap (λ o. some (or_out (some sockid) o)) e
add_for-IsPolled dir_out fd sockid polls (inr e) =
    ap (λ b. if b then some (or_out (some sockid) (polls (some fd))) else polls (some fd))
      (same_self fd)
    ∙ ap (λ o. some (or_out (some sockid) o)) e

-- The socket with its descriptor, its receiver and its direction, not paused by hand.
abbrev Waits : Direction → ℕ → ℕ → IoManager → Type 0
Waits d sockid fd m =
    (s : SocketInfo) × (er : ℕ) × (m.socketinfomap sockid ≡ some s)
    × (s.fd ≡ some fd)
    × (s.receiver ≡ some er)
    × (s.direction ≡ d)
    × (has sockid m.manuallypaused ≡ false)

same_entry :
    (k sockid : ℕ) (s t : SocketInfo) (m : IoManager)
    → m.socketinfomap k ≡ some s
    → m.socketinfomap sockid ≡ some t
    → (k == sockid) ≡ true
    → s ≡ t
same_entry k sockid s t m e there h =
    some_inj (sym e ∙ (ap m.socketinfomap ((==_iff k sockid).0 h) ∙ there))

-- A round for a socket leaves all that wait.
wake_found-Waits :
    (d : Direction) (k sockid fd : ℕ) (found : Option SocketInfo) (m : IoManager)
    → m.socketinfomap k ≡ found
    → Waits d sockid fd m
    → Waits d sockid fd (wake_found k found m)
wake_found-Waits d k sockid fd none m e w = w
wake_found-Waits d k sockid fd (some s) m e (t, er, there, own, told, same, free) =
    by_test (Waits d sockid fd) (not (has k m.manuallypaused)) _ m
      (λ _. elim (Bool-cases (k == sockid)) [
        | inl h ↦ (
          record s { paused = false },
          er,
          ap (λ b. if b then some (record s { paused = false }) else m.socketinfomap sockid) h,
          ap (λ (r : SocketInfo). r.fd) (same_entry k sockid s t m e there h) ∙ own,
          ap (λ (r : SocketInfo). r.receiver) (same_entry k sockid s t m e there h) ∙ told,
          ap (λ (r : SocketInfo). r.direction) (same_entry k sockid s t m e there h) ∙ same,
          free,
        )
        | inr h ↦ (
          t,
          er,
          ap (λ b. if b then some (record s { paused = false }) else m.socketinfomap sockid) h
              ∙ there,
          own,
          told,
          same,
          free,
        )
      ])
      (λ _. (t, er, there, own, told, same, free))

-- In its own round the socket is polled.
repolled-IsPolled :
    (d : Direction) (k sockid fd er : ℕ) (s : SocketInfo) (polls : FdMap)
    → k ≡ sockid
    → s.fd ≡ some fd
    → s.direction ≡ d
    → IsFree d sockid fd polls
    → IsPolled d sockid fd (repolled k s (some er) polls)
repolled-IsPolled d k sockid fd er s polls own fds dirs free =
    rw (own, fds, dirs) (add_for-IsPolled d fd sockid polls free)

held_free : (b : Bool) → not b ≡ false → b ≡ false → ⊥
held_free true h e = never_true (sym e)
held_free false h e = never_true (sym h)

own-IsPolled :
    (d : Direction) (k sockid fd : ℕ) (m : IoManager)
    → k ≡ sockid
    → Waits d sockid fd m
    → IsFree d sockid fd m.polling
    → IsPolled d sockid fd (wake_found k (m.socketinfomap k) m).polling
own-IsPolled d k sockid fd m own (s, er, there, fds, told, dirs, free) before =
    subst (λ f. IsPolled d sockid fd (wake_found k f m).polling)
      (sym (ap m.socketinfomap own ∙ there))
      (by_test (λ (m' : IoManager). IsPolled d sockid fd m'.polling) (not (has k m.manuallypaused))
        _ m
        (λ _.
          subst (λ r. IsPolled d sockid fd (repolled k s r m.polling)) (sym told)
            (repolled-IsPolled d k sockid fd er s m.polling own fds dirs before))
        (λ held. absurd (
          held_free (has k m.manuallypaused) held
            (subst (λ j. has j m.manuallypaused ≡ false) (sym own) free))))

-- The round of another socket does not touch the descriptor.
other-Touches :
    (d : Direction) (k sockid fd : ℕ) (found : Option SocketInfo) (m : IoManager)
    → m.socketinfomap k ≡ found
    → k ≢ sockid
    → OwnFds m
    → Waits d sockid fd m
    → (wake_found k found m).polling (some fd) ≡ m.polling (some fd)
other-Touches d k sockid fd none m e ne own w = refl
other-Touches d k sockid fd (some s) m e ne own (t, er, there, fds, told, dirs, free) =
    by_test (λ (m' : IoManager). m'.polling (some fd) ≡ m.polling (some fd))
      (not (has k m.manuallypaused)) _ m
      (λ _.
        repolled-Touches k s s.receiver m.polling fd (λ f. ne (own k sockid fd s t e there f fds)))
      (λ _. refl)

abbrev Later : Direction → ℕ → ℕ → List ℕ → FdMap → Type 0
Later d sockid fd sockids polls =
    IsPolled d sockid fd polls ⊎ ((has sockid sockids ≡ true) × (polls (some fd) ≡ none))

Later-IsFree :
    (d : Direction) (sockid fd : ℕ) (sockids : List ℕ) (polls : FdMap)
    → Later d sockid fd sockids polls
    → IsFree d sockid fd polls
Later-IsFree d sockid fd sockids polls (inl e) = inr e
Later-IsFree d sockid fd sockids polls (inr h) = inl h.1

skipped :
    (d : Direction) (k sockid fd : ℕ) (sockids : List ℕ) (polls polls' : FdMap)
    → (k == sockid) ≡ false
    → polls' (some fd) ≡ polls (some fd)
    → Later d sockid fd (k ∷ sockids) polls
    → Later d sockid fd sockids polls'
skipped d k sockid fd sockids polls polls' ne same (inl e) = inl (same ∙ e)
skipped d k sockid fd sockids polls polls' ne same (inr (h, e)) =
    inr (ground (arith, h, ne), same ∙ e)

wake_all-IsPolled :
    (d : Direction) (sockids : List ℕ) (sockid fd : ℕ) (m : IoManager)
    → Waking sockids m
    → Waits d sockid fd m
    → Later d sockid fd sockids m.polling
    → IsPolled d sockid fd (wake_all sockids m).polling
wake_all-IsPolled d [] sockid fd m calm w (inl e) = e
wake_all-IsPolled d [] sockid fd m calm w (inr h) = absurd (never_true h.0)
wake_all-IsPolled d (k ∷ sockids) sockid fd m calm w later =
    wake_all-IsPolled d sockids sockid fd (wake_found k (m.socketinfomap k) m)
      (wake_found-Waking k sockids (m.socketinfomap k) m refl calm)
      (wake_found-Waits d k sockid fd (m.socketinfomap k) m refl w)
      (elim (Bool-cases (k == sockid)) [
        | inl same ↦ inl (
            own-IsPolled d k sockid fd m ((==_iff k sockid).0 same) w
              (Later-IsFree d sockid fd (k ∷ sockids) m.polling later))
        | inr ne ↦
            skipped d k sockid fd sockids m.polling (wake_found k (m.socketinfomap k) m).polling ne
              (other-Touches d k sockid fd (m.socketinfomap k) m refl (==_ne k sockid ne) calm.1.0
                w)
              later
      ])

wake_all-Waits :
    (d : Direction) (sockids : List ℕ) (sockid fd : ℕ) (m : IoManager)
    → Waits d sockid fd m
    → Waits d sockid fd (wake_all sockids m)
wake_all-Waits d [] sockid fd m w = w
wake_all-Waits d (k ∷ sockids) sockid fd m w =
    wake_all-Waits d sockids sockid fd (wake_found k (m.socketinfomap k) m)
      (wake_found-Waits d k sockid fd (m.socketinfomap k) m refl w)

-- In an orderly state (IsOrderly), a socket with a descriptor and a receiver that was paused because
-- the worker did not keep up, and not by hand, is not paused any more after `workerReady`. It keeps its
-- direction, and `poll` is asked for just that direction of its descriptor, with its number, whatever
-- other sockets are woken with it.
pub worker_ready-Wakes :
    (sockid fd er : ℕ) (s : SocketInfo) (m : IoManager)
    → IsOrderly m
    → m.socketinfomap sockid ≡ some s
    → s.fd ≡ some fd
    → s.receiver ≡ some er
    → has sockid m.autopaused ≡ true
    → has sockid m.manuallypaused ≡ false
    → (t : SocketInfo) × ((worker_ready m).socketinfomap sockid ≡ some t)
      × (t.paused ≡ false)
      × (t.direction ≡ s.direction)
      × IsPolled s.direction sockid fd (worker_ready m).polling
worker_ready-Wakes sockid fd er s m o there own told auto free =
    let w : Waits s.direction sockid fd m = (s, er, there, own, told, refl, free) in
    let (t, er', found, own', told', same, free') =
      wake_all-Waits s.direction m.autopaused sockid fd m w in
    let paused : s.paused ≡ true =
      o.0 sockid s there ∙ ap (λ b. b || has sockid m.manuallypaused) auto in
    (
      t,
      found,
      (worker_ready-IsOrderly m o).0 sockid t found ∙ free',
      same,
      wake_all-IsPolled s.direction m.autopaused sockid fd m (first-Waking m o) w
          (inr (auto, o.1.1 sockid fd s there paused own)),
    )
