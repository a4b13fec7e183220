-- ===== src/Core/IoManager/Marking.antt =====
-- The calls that pause a socket or let it go on keep its marks.
use cbbncd.Base.{
  ℕ, ◌≡◌, ◌≢◌, refl, sym, ap, ap₂, ◌∙◌, subst, ◌⊎◌, inl, inr, List, [], ◌∷◌, Bool, true, false, not,
  ◌||◌, none, some, ◌==◌, by_test, Bool-cases, ==_iff, arith,
}
use cbbncd.Core.Polling.{Fd, FdMap, remove_fd, set_fd_out}
use cbbncd.Core.SocketInfo.{SocketInfo, Direction, dir_in, dir_out}
use cbbncd.Core.IoManager.{
  IoManager, put, has, insert, erase, close_found, close_or_wait, auto_pause, pause_found, add_for,
  resume_found, has_nothing, set_poll_write,
}
use cbbncd.Core.IoManager.Pauses.{
  Marks, IsCalm, put_cases, stayed, Touches, assign_fd-Touches, remove_fd_off, put-IsCalm,
  removed-IsCalm, ==_ne, ne_==,
}

abbrev pub IsOrderly : IoManager → Type 0
IsOrderly m = Marks m × IsCalm m

pub has-insert_self : (n : ℕ) (s : List ℕ) → has n (insert n s) ≡ true
has-insert_self n s =
    by_test (λ (t : List ℕ). has n t ≡ true) (has n s) s (n ∷ s) (λ e. e) (λ e. ground arith)

pub has-insert_other : (n k : ℕ) (s : List ℕ) → n ≢ k → has k (insert n s) ≡ has k s
has-insert_other n k s h =
    by_test (λ (t : List ℕ). has k t ≡ has k s) (has n s) s (n ∷ s) (λ e. refl)
      (λ e. ap (λ b. b || has k s) (ne_== k n (λ f. h (sym f))))

pub has-erase_self : (n : ℕ) (s : List ℕ) → has n (erase n s) ≡ false
has-erase_self n [] = refl
has-erase_self n (k ∷ s) = ground (arith, has-erase_self n s)

pub has-erase_other : (n k : ℕ) (s : List ℕ) → n ≢ k → has k (erase n s) ≡ has k s
has-erase_other n k [] h = refl
has-erase_other n k (j ∷ s) h = ground (arith, has-erase_other n k s h, h)

-- A socket with new marks, and the other ones as they were.
put-Marks :
    (sockid : ℕ) (s' : SocketInfo) (auto manual : List ℕ) (m : IoManager)
    → s'.paused ≡ (has sockid auto || has sockid manual)
    → ((id : ℕ) → sockid ≢ id → has id auto ≡ has id m.autopaused)
    → ((id : ℕ) → sockid ≢ id → has id manual ≡ has id m.manuallypaused)
    → Marks m
    → Marks (record (put sockid (some s') m) { autopaused = auto; manuallypaused = manual })
put-Marks sockid s' auto manual m new a b marks id t e = elim (put_cases sockid id s' t m e) [
  | inl h ↦
      sym (ap (λ (r : SocketInfo). r.paused) h.1) ∙ (new ∙ ap (λ k. has k auto || has k manual) h.0)
  | inr h ↦ marks id t h.1 ∙ sym (ap₂ (λ x y. x || y) (a id h.0) (b id h.0))
]

-- A socket that changes in nothing of this.
pub keep-IsOrderly :
    (sockid : ℕ) (s s' : SocketInfo) (m : IoManager)
    → m.socketinfomap sockid ≡ some s
    → s'.fd ≡ s.fd
    → s'.paused ≡ s.paused
    → IsOrderly m
    → IsOrderly (put sockid (some s') m)
keep-IsOrderly sockid s s' m found fd paused (marks, calm) = (
  put-Marks sockid s' m.autopaused m.manuallypaused m (paused ∙ marks sockid s found) (λ id h. refl)
      (λ id h. refl) marks,
  put-IsCalm sockid s s' m.polling m found fd (λ other h. refl)
      (λ p n e. calm.1 sockid n s found (sym paused ∙ p) e) calm,
)

off_fd : (fd : Fd) (polls : FdMap) (n : ℕ) → fd ≡ some n → remove_fd fd polls (some n) ≡ none
off_fd fd polls n e = subst (λ f. remove_fd f polls (some n) ≡ none) (sym e) (remove_fd_off n polls)

both_true : (x y z : Bool) → x ≡ true → (x || y) ≡ (x || z)
both_true true y z e = refl
both_true false y z e = cc

pub is_true : {b : Bool} → not b ≡ false → b ≡ true
is_true {b = true} e = refl
is_true {b = false} e = sym e

pub never_true : false ≡ true → ⊥
never_true e = cc

pub add_for-Touches :
    (d : Direction) (fd : Fd) (sockid : ℕ) (polls : FdMap)
    → Touches fd polls (add_for d fd sockid polls)
add_for-Touches dir_in fd sockid polls = assign_fd-Touches fd _ polls
add_for-Touches dir_out fd sockid polls = assign_fd-Touches fd _ polls

module _ (sockid : ℕ) (s : SocketInfo) (m : IoManager) (e : m.socketinfomap sockid ≡ some s)
    (o : IsOrderly m) where
  pub pause_found-IsOrderly : IsOrderly (pause_found sockid (some s) m)
  pause_found-IsOrderly =
      by_test IsOrderly (not (has sockid m.manuallypaused)) _ m
        (λ _. (
          put-Marks sockid (record s { paused = true }) m.autopaused
              (insert sockid m.manuallypaused) m
              (ground (arith, has-insert_self sockid m.manuallypaused)) (λ id h. refl)
              (λ id h. has-insert_other sockid id m.manuallypaused h) o.0,
          put-IsCalm sockid s (record s { paused = true }) (remove_fd s.fd m.polling) m e refl
              (assign_fd-Touches s.fd none m.polling) (λ p n f. off_fd s.fd m.polling n f) o.1,
        ))
        (λ _. o)

  pub auto_pause-IsOrderly : IsOrderly (auto_pause sockid s m)
  auto_pause-IsOrderly = (
    put-Marks sockid (record s { paused = true }) (insert sockid m.autopaused) m.manuallypaused m
        (ground (arith, has-insert_self sockid m.autopaused))
        (λ id h. has-insert_other sockid id m.autopaused h) (λ id h. refl) o.0,
    put-IsCalm sockid s (record s { paused = true }) (remove_fd s.fd m.polling) m e refl
        (assign_fd-Touches s.fd none m.polling) (λ p n f. off_fd s.fd m.polling n f) o.1,
  )

  pub resume_found-IsOrderly : IsOrderly (resume_found sockid (some s) m)
  resume_found-IsOrderly =
      by_test IsOrderly (not (has sockid m.autopaused)) _ _
        (λ a. (
          put-Marks sockid (record s { paused = false }) m.autopaused
              (erase sockid m.manuallypaused) m
              (ground (arith, a, has-erase_self sockid m.manuallypaused)) (λ id h. refl)
              (λ id h. has-erase_other sockid id m.manuallypaused h) o.0,
          put-IsCalm sockid s (record s { paused = false })
              (add_for s.direction s.fd sockid m.polling) m e refl
              (add_for-Touches s.direction s.fd sockid m.polling) (λ p n f. absurd (never_true p))
              o.1,
        ))
        (λ a. (
          (λ id t f. elim (Bool-cases (sockid == id)) [
            | inl h ↦
                let same = (==_iff sockid id).0 h in
                o.0 id t f
                ∙ both_true _ _ _ (subst (λ k. has k m.autopaused ≡ true) same (is_true a))
            | inr h ↦
                o.0 id t f
                ∙ ap (λ b. has id m.autopaused || b)
                    (sym (has-erase_other sockid id m.manuallypaused (==_ne sockid id h)))
          ]),
          o.1,
        ))

  pub close_found-IsOrderly : IsOrderly (close_found sockid (some s) m)
  close_found-IsOrderly = (
    (λ id t f.
        let (other, there) = stayed sockid id t m f in
        o.0 id t there
        ∙ sym (
            ap₂ (λ x y. x || y) (has-erase_other sockid id m.autopaused other)
              (has-erase_other sockid id m.manuallypaused other))),
    removed-IsCalm sockid s m e o.1,
  )

  pub close_or_wait-IsOrderly : IsOrderly (close_or_wait sockid (some s) m)
  close_or_wait-IsOrderly =
      by_test IsOrderly (not (has_nothing s.sendqueue)) _ _
        (λ _. keep-IsOrderly sockid s (record s { closing = true }) m e refl refl o)
        (λ _. subst (λ f. IsOrderly (close_found sockid f m)) (sym e) close_found-IsOrderly)

pub is_false : {b : Bool} → not b ≡ true → b ≡ false
is_false {b = true} e = sym e
is_false {b = false} e = refl

pub left_out : (a b : Bool) → (a ≡ false) ⊎ (b ≡ true) → (a || b) ≡ b
left_out a b (inl e) = ground (arith, e)
left_out a b (inr e) = ground (arith, e)

pub set_poll_write-IsOrderly :
    (sockid : ℕ) (s : SocketInfo) (m : IoManager)
    → m.socketinfomap sockid ≡ some s
    → IsOrderly m
    → IsOrderly (set_poll_write sockid s m)
set_poll_write-IsOrderly sockid s m e o =
    let s' = record s { direction = dir_out } in
    by_test IsOrderly (not s.paused) _ (put sockid (some s') m)
      (λ running. (
        put-Marks sockid s' m.autopaused m.manuallypaused m (o.0 sockid s e) (λ id h. refl)
            (λ id h. refl) o.0,
        put-IsCalm sockid s s' (set_fd_out s.fd s.id m.polling) m e refl
            (assign_fd-Touches s.fd _ m.polling)
            (λ p n f. absurd (never_true (sym (is_false running) ∙ p))) o.1,
      ))
      (λ _. keep-IsOrderly sockid s s' m e refl refl o)
