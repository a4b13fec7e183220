-- ===== src/Ftp/Buffer/Contents.antt =====
-- The buffer grows until the data fits, and holds all that was appended, in order.
use native.Mathlib.Nat.{mod-eq_of_lt, pow-suc}
use cbbncd.Base.{
  ℕ, zero, suc, ◌+◌, ◌*◌, ◌%◌, ◌^◌, ◌<◌, ◌≤◌, ◌≡◌, refl, ap, ◌∙◌, sym, ◌⊎◌, inl, inr, false, Option,
  none, some, ◌++◌, ltb, take, drop, length, length-append, length-take, length-drop, append_assoc,
  arith, Bool-cases,
}
use cbbncd.Base.Text.{Bytes}
use cbbncd.Base.Text.Find.{take_at}
use cbbncd.Ftp.Buffer.{Buffer, grow, copy, moved, stored, append, contents}

-- The new length holds the data, and is the old one or less than twice what is needed.
abbrev Grown : ℕ → ℕ → ℕ → Type 0
Grown need len n = (need ≤ n) × ((n ≡ len) ⊎ (n < 2 * need))

abbrev GrowsTo : ℕ → ℕ → Option ℕ → Type 0
GrowsTo need len none = ⊥
GrowsTo need len (some n) = Grown need len n

from_twice :
    (need len : ℕ) (o : Option ℕ) → len < need → GrowsTo need (len * 2) o → GrowsTo need len o
from_twice need len none h g = g
from_twice need len (some n) h g = (g.0, ground arith)

grow-GrowsTo :
    (fuel need len : ℕ)
    → 0 < len
    → need ≤ 2 ^ 31
    → need ≤ len * 2 ^ fuel
    → GrowsTo need len (grow (suc fuel) need len)
unfolding grow
grow-GrowsTo zero need len pos small enough =
    let long : ltb len need ≡ false = ground arith in rw long (omega arith, inl refl)
grow-GrowsTo (suc fuel) need len pos small enough = elim (Bool-cases (ltb len need)) [
  | inl short ↦
      let doubled : len * 2 % 2 ^ 32 ≡ len * 2 = mod-eq_of_lt (ground arith) in
      let twice = ap (λ (t : ℕ). len * t) (pow-suc 2 fuel) in
      rw (short, doubled)
        (from_twice need len (grow (suc fuel) need (len * 2)) (ground arith)
          (grow-GrowsTo fuel need (len * 2) (omega arith) small (omega (arith, twice))))
  | inr long ↦ rw long (ground arith, inl refl)
]

-- The block is as long as the length says, and what is stored lies within it.
pub record IsValid (b : Buffer) : Type 0 where
  pub block : length b.databuf ≡ b.databuflen
  pub within : b.databufpos ≤ b.databuflen
  pub some_room : 0 < b.databuflen

length-copy :
    (to from : Bytes) (at : ℕ) → at + length from ≤ length to → length (copy to at from) ≡ length to
length-copy to from at h = omega (
  arith,
  length-append (take at to) (from ++ drop (at + length from) to),
  length-append from (drop (at + length from) to),
  length-take at to,
  length-drop (at + length from) to,
)

-- Up to the end of what was copied the block holds the old bytes, and then the new ones.
take-copy :
    (to from : Bytes) (at : ℕ)
    → at ≤ length to
    → take (at + length from) (copy to at from) ≡ take at to ++ from
take-copy to from at h =
    take_at (at + length from) (copy to at from) (take at to ++ from) (drop (at + length from) to)
      (sym (append_assoc (take at to) from (drop (at + length from) to)))
      (omega (arith, length-append (take at to) from, length-take at to))

-- The buffer after a call that went well: `newdata` stands behind what was there.
abbrev pub Appended : Buffer → Bytes → Option Buffer → Type 0
Appended b newdata none = ⊥
Appended b newdata (some b') =
    IsValid b'
    × (b'.databufpos ≡ b.databufpos + length newdata)
    × (contents b' ≡ contents b ++ newdata)

stored-Appended :
    (b : Buffer) (newdata : Bytes)
    → IsValid b
    → b.databufpos + length newdata ≤ b.databuflen
    → Appended b newdata (stored newdata (some b))
stored-Appended b newdata v h = (
  record {
    block = length-copy b.databuf newdata b.databufpos (omega (arith, v.block)) ∙ v.block;
    within = h;
    some_room = v.some_room;
  },
  refl,
  take-copy b.databuf newdata b.databufpos (omega (arith, v.block, v.within)),
)

module _ (malloc : ℕ → Bytes) (malloc_length : (n : ℕ) → length (malloc n) ≡ n) where
  moved_lem :
      (b : Buffer) (n : ℕ)
      → IsValid b
      → b.databuflen ≤ n
      → let b' = record b {
        databuflen = n;
        databuf = copy (malloc n) 0 (take b.databufpos b.databuf);
      } in
        IsValid b' × (contents b' ≡ contents b)
  moved_lem b n v h =
      let kept = length-take b.databufpos b.databuf in
      let size = malloc_length n in
      (
        record {
          block =
              length-copy (malloc n) (take b.databufpos b.databuf) 0
                (omega (arith, kept, size, v.block, v.within))
              ∙ size;
          within = omega (arith, v.within);
          some_room = omega (arith, v.some_room);
        },
        take_at b.databufpos _ (take b.databufpos b.databuf) _ refl
            (omega (arith, kept, v.block, v.within)),
      )

  moved-Appended :
      (b : Buffer) (newdata : Bytes) (o : Option ℕ)
      → IsValid b
      → b.databuflen < b.databufpos + length newdata
      → GrowsTo (b.databufpos + length newdata) b.databuflen o
      → Appended b newdata (stored newdata (moved malloc b o))
  moved-Appended b newdata none v short g = g
  moved-Appended b newdata (some n) v short g =
      let (v', same) = moved_lem b n v (omega arith) in
      let (w, at, text) = stored-Appended _ newdata v' g.0 in
      (w, at, text ∙ ap (λ s. s ++ newdata) same)

  -- Data is stored behind what the buffer holds, and the loop that makes room ends, as long as it
  -- all fits in two gigabytes; what stands in a fresh block does not matter.
  pub append-Appended :
      (b : Buffer) (newdata : Bytes)
      → IsValid b
      → b.databufpos + length newdata ≤ 2 ^ 31
      → Appended b newdata (append malloc b newdata)
  unfolding append
  append-Appended b newdata v small =
      elim (Bool-cases (ltb b.databuflen (b.databufpos + length newdata))) [
        | inl short ↦ rw short (
            moved-Appended b newdata _ v (ground arith)
              (grow-GrowsTo 32 _ b.databuflen v.some_room small (omega (arith, v.some_room))))
        | inr fits ↦ rw fits (stored-Appended b newdata v (ground arith))
      ]
