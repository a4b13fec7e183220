-- ===== src/Core/IoManager/Holding.antt =====
-- Which calls have paused a socket, in any order of the calls.
use cbbncd.Base.{
  ℕ, ◌≡◌, refl, sym, ap, ap₂, ◌∙◌, subst, inl, inr, List, [], ◌∷◌, length, Bool, true, false, not,
  ◌||◌, Option, none, some, ◌==◌, leb, if◌then◌else◌, by_test, Bool-cases, ==_iff, Option-cases,
}
use cbbncd.Core.DataBlockPool.{DataBlockPool}
use cbbncd.Core.SocketInfo.{SocketInfo, dir_out}
use cbbncd.Core.IoManager.{
  IoManager, put, has, insert, erase, close_found, close_or_wait, pause_found, resume_found,
  wake_found, wake_all, has_nothing,
}
use cbbncd.Core.IoManager.Sending.{Queue, is_sending, sent_queue, send_found, send_data}
use cbbncd.Core.IoManager.Closing.{put_self}
use cbbncd.Core.IoManager.Pauses.{put_cases, stayed, no_entry, ==_ne}
use cbbncd.Core.IoManager.Marking.{
  IsOrderly, has-insert_self, has-insert_other, has-erase_self, has-erase_other, is_true,
}
use cbbncd.Core.IoManager.Pausing.{
  Step, pauses, resumes, overloads, readies, closes, closes_when_sent, sends, auto_found, sent_or,
  stepped, steps, steps-IsOrderly,
}

-- Whether a socket is paused by hand after a call, if it was so before or not.
abbrev pub hand_after : ℕ → Step → Bool → Bool
hand_after id (pauses sockid) was = if sockid == id then true else was
hand_after id (resumes sockid) was = if sockid == id then false else was
hand_after id _ was = was

-- The same for an overload: it lets all sockets go on when the worker is ready.
abbrev pub load_after : ℕ → Step → Bool → Bool
load_after id (overloads sockid) was = if sockid == id then true else was
load_after id readies was = false
load_after id _ was = was

abbrev pub by_hand : ℕ → List Step → Bool → Bool
by_hand id [] was = was
by_hand id (step ∷ calls) was = by_hand id calls (hand_after id step was)

abbrev pub by_load : ℕ → List Step → Bool → Bool
by_load id [] was = was
by_load id (step ∷ calls) was = by_load id calls (load_after id step was)

has-insert : (n k : ℕ) (s : List ℕ) → has k (insert n s) ≡ (if n == k then true else has k s)
has-insert n k s = elim (Bool-cases (n == k)) [
  | inl e ↦ rw e (subst (λ j. has j (insert n s) ≡ true) ((==_iff n k).0 e) (has-insert_self n s))
  | inr e ↦ rw e (has-insert_other n k s (==_ne n k e))
]

has-erase : (n k : ℕ) (s : List ℕ) → has k (erase n s) ≡ (if n == k then false else has k s)
has-erase n k s = elim (Bool-cases (n == k)) [
  | inl e ↦ rw e (subst (λ j. has j (erase n s) ≡ false) ((==_iff n k).0 e) (has-erase_self n s))
  | inr e ↦ rw e (has-erase_other n k s (==_ne n k e))
]

-- A socket that is open after a call was so before, and the sets hold it as told.
abbrev Traced : ℕ → (Bool → Bool) → (Bool → Bool) → IoManager → IoManager → Type 0
Traced id hand load m m' =
    (t : SocketInfo)
    → m'.socketinfomap id ≡ some t
    → ((s : SocketInfo) × (m.socketinfomap id ≡ some s))
      × (has id m'.manuallypaused ≡ hand (has id m.manuallypaused))
      × (has id m'.autopaused ≡ load (has id m.autopaused))

abbrev kept : Bool → Bool
kept b = b

put_there :
    (k id : ℕ) (s s' t : SocketInfo) (m : IoManager)
    → m.socketinfomap k ≡ some s
    → (put k (some s') m).socketinfomap id ≡ some t
    → (s0 : SocketInfo) × (m.socketinfomap id ≡ some s0)
put_there k id s s' t m found e = elim (put_cases k id s' t m e) [
  | inl h ↦ (s, subst (λ j. m.socketinfomap j ≡ some s) h.0 found)
  | inr h ↦ (t, h.1)
]

-- A call about a socket that is not there.
missing :
    (k id : ℕ) (b c : Bool) (t : SocketInfo) (m : IoManager)
    → m.socketinfomap k ≡ none
    → m.socketinfomap id ≡ some t
    → c ≡ (if k == id then b else c)
missing k id b c t m gone e = elim (Bool-cases (k == id)) [
  | inl same ↦ absurd (no_entry (sym gone ∙ (ap m.socketinfomap ((==_iff k id).0 same) ∙ e)))
  | inr other ↦ rw other refl
]

-- A call that finds it in the set already.
already : (k id : ℕ) (s : List ℕ) → has k s ≡ true → has id s ≡ (if k == id then true else has id s)
already k id s h = elim (Bool-cases (k == id)) [
  | inl same ↦ rw same (subst (λ j. has j s ≡ true) ((==_iff k id).0 same) h)
  | inr other ↦ rw other refl
]

on_entry :
    (k : ℕ) (P : IoManager → Type 0) (act : Option SocketInfo → IoManager) (m : IoManager)
    → (m.socketinfomap k ≡ none → P (act none))
    → ((s : SocketInfo) → m.socketinfomap k ≡ some s → P (act (some s)))
    → P (act (m.socketinfomap k))
on_entry k P act m nothing there = elim (Option-cases (m.socketinfomap k)) [
  | inl e ↦ subst (λ f. P (act f)) (sym e) (nothing e)
  | inr h ↦ subst (λ f. P (act f)) (sym h.1) (there h.0 h.1)
]

pause-Traced :
    (k id : ℕ) (m : IoManager)
    → Traced id (hand_after id (pauses k)) kept m (pause_found k (m.socketinfomap k) m)
pause-Traced k id m =
    on_entry k (Traced id (hand_after id (pauses k)) kept m) (λ f. pause_found k f m) m
      (λ e t h. ((t, h), missing k id true _ t m e h, refl))
      (λ s e.
        by_test (Traced id (hand_after id (pauses k)) kept m) (not (has k m.manuallypaused)) _ m
          (λ _ t h. (
            put_there k id s (record s { paused = true }) t m e h,
            has-insert k id m.manuallypaused,
            refl,
          ))
          (λ held t h. ((t, h), already k id m.manuallypaused (is_true held), refl)))

resume-Traced :
    (k id : ℕ) (m : IoManager)
    → Traced id (hand_after id (resumes k)) kept m (resume_found k (m.socketinfomap k) m)
resume-Traced k id m =
    on_entry k (Traced id (hand_after id (resumes k)) kept m) (λ f. resume_found k f m) m
      (λ e t h. ((t, h), missing k id false _ t m e h, refl))
      (λ s e.
        by_test (Traced id (hand_after id (resumes k)) kept m) (not (has k m.autopaused)) _ _
          (λ _ t h. (
            put_there k id s (record s { paused = false }) t m e h,
            has-erase k id m.manuallypaused,
            refl,
          ))
          (λ _ t h. ((t, h), has-erase k id m.manuallypaused, refl)))

overload-Traced :
    (k id : ℕ) (m : IoManager)
    → Traced id kept (load_after id (overloads k)) m (auto_found k (m.socketinfomap k) m)
overload-Traced k id m =
    on_entry k (Traced id kept (load_after id (overloads k)) m) (λ f. auto_found k f m) m
      (λ e t h. ((t, h), refl, missing k id true _ t m e h))
      (λ s e t h.
        (put_there k id s (record s { paused = true }) t m e h, refl, has-insert k id m.autopaused))

close-Traced :
    (k id : ℕ) (m : IoManager) → Traced id kept kept m (close_found k (m.socketinfomap k) m)
close-Traced k id m =
    on_entry k (Traced id kept kept m) (λ f. close_found k f m) m (λ e t h. ((t, h), refl, refl))
      (λ s e t h.
        let (other, there) = stayed k id t m h in
        (
          (t, there),
          has-erase_other k id m.manuallypaused other,
          has-erase_other k id m.autopaused other,
        ))

close_socket-Traced :
    (k id : ℕ) (m : IoManager) → Traced id kept kept m (close_or_wait k (m.socketinfomap k) m)
close_socket-Traced k id m =
    on_entry k (Traced id kept kept m) (λ f. close_or_wait k f m) m (λ e t h. ((t, h), refl, refl))
      (λ s e.
        by_test (Traced id kept kept m) (not (has_nothing s.sendqueue)) _ _
          (λ _ t h. (put_there k id s (record s { closing = true }) t m e h, refl, refl))
          (λ _. close-Traced k id m))

wake-Traced :
    (k id : ℕ) (m : IoManager) → Traced id kept kept m (wake_found k (m.socketinfomap k) m)
wake-Traced k id m =
    on_entry k (Traced id kept kept m) (λ f. wake_found k f m) m (λ e t h. ((t, h), refl, refl))
      (λ s e.
        by_test (Traced id kept kept m) (not (has k m.manuallypaused)) _ m
          (λ _ t h. (put_there k id s (record s { paused = false }) t m e h, refl, refl))
          (λ _ t h. ((t, h), refl, refl)))

wake_all-Traced :
    (sockids : List ℕ) (id : ℕ) (m : IoManager) → Traced id kept kept m (wake_all sockids m)
wake_all-Traced [] id m t h = ((t, h), refl, refl)
wake_all-Traced (k ∷ sockids) id m t h =
    let m1 = wake_found k (m.socketinfomap k) m in
    let ((s1, there), hand, load) = wake_all-Traced sockids id m1 t h in
    let (first, hand1, load1) = wake-Traced k id m s1 there in (first, hand ∙ hand1, load ∙ load1)

sent_queue-Traced :
    (k id : ℕ) (s : SocketInfo) (m : IoManager) (q : Queue × DataBlockPool)
    → m.socketinfomap k ≡ some s
    → Traced id kept kept m (sent_queue k s m q).1
sent_queue-Traced k id s m (queue, pool) e =
    let s' = record s { sendqueue = queue } in
    let m' = put k (some s') (record m { sendblockpool = pool }) in
    let s'' = record s' { direction = dir_out } in
    let back : (t : SocketInfo)
        → (put k (some s'') m').socketinfomap id ≡ some t
        → (s0 : SocketInfo) × (m.socketinfomap id ≡ some s0) =
      λ t h.
        let (s1, there) =
          put_there k id s' s'' t m' (put_self k (some s') (record m { sendblockpool = pool })) h in
        put_there k id s s' s1 m e there in
    by_test (Traced id kept kept m) (is_sending s.type) _ m'
      (λ _.
        by_test (Traced id kept kept m) (not s.paused) _ (put k (some s'') m')
          (λ _ t h. (back t h, refl, refl)) (λ _ t h. (back t h, refl, refl)))
      (λ _ t h. (put_there k id s s' t m e h, refl, refl))

stepped-Traced :
    (step : Step) (id : ℕ) (m : IoManager)
    → Traced id (hand_after id step) (load_after id step) m (stepped step m)
unfolding send_data
stepped-Traced (pauses k) id m = pause-Traced k id m
stepped-Traced (resumes k) id m = resume-Traced k id m
stepped-Traced (overloads k) id m = overload-Traced k id m
stepped-Traced readies id m =
    λ t h. let (there, hand, load) = wake_all-Traced m.autopaused id m t h in (there, hand, refl)
stepped-Traced (closes k) id m = close-Traced k id m
stepped-Traced (closes_when_sent k) id m = close_socket-Traced k id m
stepped-Traced (sends malloc k bytes) id m =
    by_test (λ (r : Option (Bool × IoManager)). Traced id kept kept m (sent_or m r))
      (leb (length bytes) 1048576) _ none
      (λ _.
        on_entry k (Traced id kept kept m) (λ f. (send_found malloc k bytes f m).1) m
          (λ e t h. ((t, h), refl, refl)) (λ s e. sent_queue-Traced k id s m _ e))
      (λ _ t h. ((t, h), refl, refl))

steps-Traced :
    (calls : List Step) (id : ℕ) (m : IoManager)
    → Traced id (by_hand id calls) (by_load id calls) m (steps calls m)
steps-Traced [] id m t h = ((t, h), refl, refl)
steps-Traced (step ∷ calls) id m t h =
    let ((s1, there), hand, load) = steps-Traced calls id (stepped step m) t h in
    let (first, hand1, load1) = stepped-Traced step id m s1 there in
    (first, hand ∙ ap (by_hand id calls) hand1, load ∙ ap (by_load id calls) load1)

-- In every sequence of calls of `pause`, `resume`, `autoPause`, `workerReady`, `closeSocket`,
-- `closeSocketIntern` and `sendData` from a state that is orderly, a socket that is still open is
-- paused exactly if `pause` was the last of the calls of `pause` and `resume` for it, or `autoPause`
-- was called for it and `workerReady` not since; where there was no such call, whether it was paused
-- by hand or for an overload at the start decides. The state after them is orderly again: a socket is
-- paused exactly if one of the two sets has it, no descriptor of a paused socket is polled, and open
-- sockets have their own descriptors.
pub steps-Holds :
    (calls : List Step) (m : IoManager)
    → IsOrderly m
    → IsOrderly (steps calls m)
      × ((id : ℕ) (t : SocketInfo)
          → (steps calls m).socketinfomap id ≡ some t
          → t.paused ≡ (
              by_load id calls (has id m.autopaused) || by_hand id calls (has id m.manuallypaused)))
steps-Holds calls m o =
    let after = steps-IsOrderly calls m o in
    (
      after,
      λ id t h.
          let (there, hand, load) = steps-Traced calls id m t h in
          after.0 id t h ∙ ap₂ (λ x y. x || y) load hand,
    )
