-- ===== src/Ftp/CommandParser/Trim.antt =====
-- The trimmed command in capitals.
use cbbncd.Base.{
  ℕ, zero, suc, ◌-◌, ◌<◌, ◌≤◌, ◌≡◌, refl, ap, true, false, ◌⊎◌, [], ◌∷◌, map, ◌==◌, length, arith,
  take, get_or, Bool-cases, inl, inr,
}
use cbbncd.Base.Text.{Bytes}
use cbbncd.Ftp.Buffer.{contents}
use cbbncd.Ftp.CommandParser.{
  CommandParser, is_line_end, to_upper, cut_length, upper_first, get_command_trimmed_upper,
}

-- The command is cut behind byte `n`: all that follows are line ends, and `n` follows none.
pub record CutsAt (command : Bytes) (size n : ℕ) : Type 0 where
  pub within : n ≤ size
  pub line_ends : (i : ℕ) → n ≤ i → i < size → is_line_end (get_or command i 0) ≡ true
  pub kept : (n ≡ 0) ⊎ (is_line_end (get_or command (n - 1) 0) ≡ false)

cut_length-CutsAt : (command : Bytes) (size : ℕ) → CutsAt command size (cut_length command size)
unfolding cut_length
cut_length-CutsAt command zero = record {
  within = omega arith;
  line_ends = λ i h k. absurd (omega arith);
  kept = inl refl;
}
cut_length-CutsAt command (suc n) = elim (Bool-cases (is_line_end (get_or command n 0))) [
  | inl cut ↦
      let shorter = cut_length-CutsAt command n in
      rw cut (record {
        within = omega (arith, shorter.within);
        line_ends = λ i h k. elim (Bool-cases (i == n)) [
          | inl same ↦ let e : i ≡ n = ground arith in rw e cut
          | inr other ↦ shorter.line_ends i h (ground arith)
        ];
        kept = shorter.kept;
      })
  | inr stop ↦ rw stop (record {
    within = omega arith;
    line_ends = λ i h k. absurd (omega arith);
    kept = let e : suc n - 1 ≡ n = omega arith in rw e (inr stop);
  })
]

take-upper_first : (n : ℕ) (s : Bytes) → take n (upper_first n s) ≡ map to_upper (take n s)
unfolding upper_first
take-upper_first zero s = refl
take-upper_first (suc n) [] = refl
take-upper_first (suc n) (c ∷ s) = ap (◌∷◌ (to_upper c)) (take-upper_first n s)

-- The trimmed command is the stored one up to its last byte that is no line end, in capitals.
pub get_command_trimmed_upper_lem :
    (p : CommandParser)
    → let command = contents p.buffer in
      (n : ℕ) × CutsAt command (length command) n
      × (get_command_trimmed_upper p ≡ map to_upper (take n command))
unfolding get_command_trimmed_upper
get_command_trimmed_upper_lem p =
    let command = contents p.buffer in
    (
      cut_length command (length command),
      cut_length-CutsAt command (length command),
      take-upper_first _ command,
    )
