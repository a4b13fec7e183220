-- ===== src/ListenPortManager/Search.antt =====
-- The circular search of `acquirePort`: it ends within one round, and misses no port.
use native.Mathlib.Nat.{mod_self, mod-eq_of_lt}
use cbbncd.Base.{
  ℕ, zero, suc, ◌+◌, ◌-◌, ◌%◌, ◌<◌, ◌≡◌, ◌⊎◌, inl, inr, Bool, true, false, ◌&&◌, ◌||◌, List, arith,
  ltb, leb, ◌==◌, if◌then◌else◌, Bool-cases, length, get_or,
}
use cbbncd.ListenPortManager.{Scan, found, exhausted, out_of_fuel, scan}

-- Position `i` lies on the way from `start` round to `pos`.
abbrev visited : ℕ → ℕ → ℕ → Bool
visited start pos i = if leb start pos then leb start i && ltb i pos else leb start i || ltb i pos

-- The positions that are not yet visited.
abbrev left_over : ℕ → ℕ → ℕ → ℕ
left_over size start pos = if leb start pos then size - (pos - start) else start - pos

abbrev pub Answers : List Bool → Scan → Type 0
Answers ports (found pos) = (pos < length ports) × (get_or ports pos false ≡ true)
Answers ports exhausted = (i : ℕ) → i < length ports → get_or ports i false ≡ false
Answers ports out_of_fuel = ⊥

next_cases :
    (pos size : ℕ)
    → pos < size
    → ((suc pos ≡ size) × ((pos + 1) % size ≡ 0))
      ⊎ ((suc pos < size) × ((pos + 1) % size ≡ suc pos))
next_cases pos size h = elim (Bool-cases (suc pos == size)) [
  | inl last ↦ let e : pos + 1 ≡ size = ground arith in inl (omega arith, rw e (mod_self size))
  | inr inner ↦
      let e : pos + 1 ≡ suc pos = omega arith in
      let l : suc pos < size = ground arith in inr (l, rw e (mod-eq_of_lt l))
]

step_visited :
    (size start pos next i : ℕ)
    → pos < size
    → start < size
    → i < size
    → ((suc pos ≡ size) × (next ≡ 0)) ⊎ ((suc pos < size) × (next ≡ suc pos))
    → (next == start) ≡ false
    → visited start next i ≡ true
    → (visited start pos i ≡ true) ⊎ (i ≡ pos)
step_visited size start pos next i p s h n d v = ground arith

all_visited :
    (size start pos next i : ℕ)
    → pos < size
    → start < size
    → i < size
    → ((suc pos ≡ size) × (next ≡ 0)) ⊎ ((suc pos < size) × (next ≡ suc pos))
    → (next == start) ≡ true
    → (visited start pos i ≡ true) ⊎ (i ≡ pos)
all_visited size start pos next i p s h n d = ground arith

step_left :
    (size start pos next fuel : ℕ)
    → pos < size
    → start < size
    → ((suc pos ≡ size) × (next ≡ 0)) ⊎ ((suc pos < size) × (next ≡ suc pos))
    → (next == start) ≡ false
    → left_over size start pos ≡ suc fuel
    → left_over size start next ≡ fuel
step_left size start pos next fuel p s n d e = ground arith

step_lt :
    (size pos next : ℕ)
    → ((suc pos ≡ size) × (next ≡ 0)) ⊎ ((suc pos < size) × (next ≡ suc pos))
    → next < size
step_lt size pos next n = ground arith

pub scan-Answers :
    (fuel pos start : ℕ) (ports : List Bool)
    → pos < length ports
    → start < length ports
    → left_over (length ports) start pos ≡ fuel
    → ((i : ℕ) → i < length ports → visited start pos i ≡ true → get_or ports i false ≡ false)
    → Answers ports (scan fuel pos start ports)
unfolding scan
scan-Answers zero pos start ports p s e seen = ground arith
scan-Answers (suc fuel) pos start ports p s e seen = elim (Bool-cases (get_or ports pos false)) [
  | inl free ↦ rw free (p, free)
  | inr taken ↦ elim (Bool-cases (((pos + 1) % length ports) == start)) [
    | inl back ↦
        rw (taken, back)
          (λ i h. elim (all_visited (length ports) start pos _ i p s h (next_cases pos _ p) back) [
            | inl v ↦ seen i h v
            | inr e ↦ rw e taken
          ])
    | inr on ↦
        rw (taken, on)
          (scan-Answers fuel ((pos + 1) % length ports) start ports
            (step_lt _ _ _ (next_cases pos _ p)) s
            (step_left _ start pos _ fuel p s (next_cases pos _ p) on e)
            (λ i h v. elim (step_visited _ start pos _ i p s h (next_cases pos _ p) on v) [
              | inl w ↦ seen i h w
              | inr e ↦ rw e taken
            ]))
  ]
]
