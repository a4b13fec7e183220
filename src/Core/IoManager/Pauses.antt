-- ===== src/Core/IoManager/Pauses.antt =====
-- A paused socket is not polled, whoever paused it.
use cbbncd.Base.{
  ℕ, ◌≡◌, ◌≢◌, refl, sym, ap, ◌∙◌, subst, ◌⊎◌, inl, inr, Bool, true, false, ◌||◌, Option, none,
  some, ◌==◌, if◌then◌else◌, ==_iff, arith,
}
use cbbncd.Core.Polling.{Fd, FdMap, Interest, assign_fd, remove_fd}
use cbbncd.Core.SocketInfo.{SocketInfo}
use cbbncd.Core.IoManager.{IoManager, put, polled, has}

-- The socket is paused exactly if it is in one of the two sets.
abbrev pub Marks : IoManager → Type 0
Marks m =
    (id : ℕ) (s : SocketInfo)
    → m.socketinfomap id ≡ some s
    → s.paused ≡ (has id m.autopaused || has id m.manuallypaused)

-- Open sockets have their own descriptors.
abbrev pub OwnFds : IoManager → Type 0
OwnFds m =
    (a b fd : ℕ) (s t : SocketInfo)
    → m.socketinfomap a ≡ some s
    → m.socketinfomap b ≡ some t
    → s.fd ≡ some fd
    → t.fd ≡ some fd
    → a ≡ b

-- No descriptor of a paused socket is polled.
abbrev pub Unpolled : IoManager → Type 0
Unpolled m =
    (id fd : ℕ) (s : SocketInfo)
    → m.socketinfomap id ≡ some s
    → s.paused ≡ true
    → s.fd ≡ some fd
    → m.polling (some fd) ≡ none

abbrev pub IsCalm : IoManager → Type 0
IsCalm m = OwnFds m × Unpolled m

pub some_inj {ℓ} : {A : Type ℓ} {a b : A} → some a ≡ some b → a ≡ b
some_inj e = cc

either_entry :
    (b : Bool) (x y z : Option SocketInfo)
    → (if b then x else y) ≡ z
    → ((b ≡ true) × (x ≡ z)) ⊎ ((b ≡ false) × (y ≡ z))
either_entry true x y z e = inl (refl, e)
either_entry false x y z e = inr (refl, e)

pub ==_ne : (a b : ℕ) → (a == b) ≡ false → a ≢ b
==_ne a b h e = ground (arith, h, e)

pub ne_== : (a b : ℕ) → a ≢ b → (a == b) ≡ false
ne_== a b h = ground (arith, h)

pub no_entry : {s : SocketInfo} → none ≡ some s → ⊥
no_entry e = cc

-- An entry after `put` is the new one, or another that was there.
pub put_cases :
    (sockid id : ℕ) (s' t : SocketInfo) (m : IoManager)
    → (put sockid (some s') m).socketinfomap id ≡ some t
    → ((sockid ≡ id) × (s' ≡ t)) ⊎ ((sockid ≢ id) × (m.socketinfomap id ≡ some t))
put_cases sockid id s' t m e =
    elim (either_entry (sockid == id) (some s') (m.socketinfomap id) (some t) e) [
      | inl h ↦ inl ((==_iff sockid id).0 h.0, some_inj h.1)
      | inr h ↦ inr (==_ne sockid id h.0, h.1)
    ]

-- What is polled changes for one descriptor at most.
abbrev pub Touches : Fd → FdMap → FdMap → Type 0
Touches fd polls polls' = (other : ℕ) → fd ≢ some other → polls' (some other) ≡ polls (some other)

-- Whatever else is added to the map for the descriptor.
pub assign_fd-Touches :
    (fd : Fd) (i : Option Interest) (polls : FdMap) → Touches fd polls (assign_fd fd i polls)
assign_fd-Touches none i polls other h = refl
assign_fd-Touches (some fd) i polls other h =
    ap (λ b. if b then i else polls (some other)) (ne_== fd other (λ e. h (ap some e)))

pub remove_fd_off : (fd : ℕ) (polls : FdMap) → remove_fd (some fd) polls (some fd) ≡ none
remove_fd_off fd polls = ground arith

-- The entry that stands behind another, with its descriptor.
put_origin :
    (sockid id : ℕ) (s s' t : SocketInfo) (m : IoManager)
    → m.socketinfomap sockid ≡ some s
    → s'.fd ≡ s.fd
    → (put sockid (some s') m).socketinfomap id ≡ some t
    → (s0 : SocketInfo) × (m.socketinfomap id ≡ some s0) × (s0.fd ≡ t.fd)
put_origin sockid id s s' t m found same e = elim (put_cases sockid id s' t m e) [
  | inl h ↦ (
    s,
    subst (λ k. m.socketinfomap k ≡ some s) h.0 found,
    sym same ∙ ap (λ (r : SocketInfo). r.fd) h.1,
  )
  | inr h ↦ (t, h.1, refl)
]

pub put-IsCalm :
    (sockid : ℕ) (s s' : SocketInfo) (polls : FdMap) (m : IoManager)
    → m.socketinfomap sockid ≡ some s
    → s'.fd ≡ s.fd
    → Touches s.fd m.polling polls
    → (s'.paused ≡ true → (fd : ℕ) → s.fd ≡ some fd → polls (some fd) ≡ none)
    → IsCalm m
    → IsCalm (put sockid (some s') (polled polls m))
put-IsCalm sockid s s' polls m found same touches off (own, unpolled) = (
  (λ a b fd t u ea eb ft fu.
      let (t0, et, sa) = put_origin sockid a s s' t m found same ea in
      let (u0, eu, sb) = put_origin sockid b s s' u m found same eb in
      own a b fd t0 u0 et eu (sa ∙ ft) (sb ∙ fu)),
  (λ id fd t et paused ft. elim (put_cases sockid id s' t m et) [
    | inl h ↦
        off (ap (λ (r : SocketInfo). r.paused) h.1 ∙ paused) fd
          (sym same ∙ (ap (λ (r : SocketInfo). r.fd) h.1 ∙ ft))
    | inr h ↦
        touches fd (λ e. h.0 (own sockid id fd s t found h.1 e ft)) ∙ unpolled id fd t h.1 paused ft
  ]),
)

-- A socket that is gone.
pub stayed :
    (sockid id : ℕ) (t : SocketInfo) (m : IoManager)
    → (put sockid none m).socketinfomap id ≡ some t
    → (sockid ≢ id) × (m.socketinfomap id ≡ some t)
stayed sockid id t m e = elim (either_entry (sockid == id) none (m.socketinfomap id) (some t) e) [
  | inl h ↦ absurd (no_entry h.1)
  | inr h ↦ (==_ne sockid id h.0, h.1)
]

pub removed-IsCalm :
    (sockid : ℕ) (s : SocketInfo) (m : IoManager)
    → m.socketinfomap sockid ≡ some s
    → IsCalm m
    → IsCalm (put sockid none (polled (remove_fd s.fd m.polling) m))
removed-IsCalm sockid s m found (own, unpolled) = (
  (λ a b fd t u ea eb ft fu.
      own a b fd t u (stayed sockid a t m ea).1 (stayed sockid b u m eb).1 ft fu),
  (λ id fd t et paused ft.
      let (other, there) = stayed sockid id t m et in
      assign_fd-Touches s.fd none m.polling fd (λ e. other (own sockid id fd s t found there e ft))
      ∙ unpolled id fd t there paused ft),
)
