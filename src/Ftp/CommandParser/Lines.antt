-- ===== src/Ftp/CommandParser/Lines.antt =====
-- Feeding a command in chunks.
use cbbncd.Base.{
  ℕ, ◌+◌, ◌^◌, ◌≤◌, ◌≡◌, refl, Bool, ◌||◌, ◌∷◌, ◌++◌, Option, none, some, ◌==◌, length, arith,
}
use cbbncd.Base.Text.{Bytes}
use cbbncd.Base.Text.Last.{last_or, last_stored}
use cbbncd.Ftp.Buffer.{Buffer, contents}
use cbbncd.Ftp.Buffer.Contents.{IsValid, Appended, append-Appended}
use cbbncd.Ftp.CommandParser.{CommandParser, completed, parse}

-- After a chunk: it is stored, and the parser reports a command exactly when this chunk ended in a
-- line end or an earlier one had since the last reset.
abbrev pub Gathers : CommandParser → ℕ → Bytes → Option (Bool × CommandParser) → Type 0
Gathers p x chunk none = ⊥
Gathers p x chunk (some (done, p')) =
    IsValid p'.buffer
    × (contents p'.buffer ≡ contents p.buffer ++ x ∷ chunk)
    × (done ≡ (last_or x chunk == b'\n' || p.complete))
    × (p'.complete ≡ done)

completed-Gathers :
    (p : CommandParser) (x : ℕ) (chunk : Bytes) (o : Option Buffer)
    → Appended p.buffer (x ∷ chunk) o
    → Gathers p x chunk (completed p o)
completed-Gathers p x chunk none a = a
completed-Gathers p x chunk (some b) (v, at, text) =
    let last =
      last_stored b.databufpos b.databuf _ x chunk text (omega (arith, v.within, v.block)) in
    (v, text, rw last (ground arith), refl)

module _ (malloc : ℕ → Bytes) (malloc_length : (n : ℕ) → length (malloc n) ≡ n) where
  -- A chunk that is not empty is stored whole, whatever its size up to two gigabytes; the parser
  -- reports a command exactly if this chunk or an earlier one since the reset ended in a line end.
  pub parse-Gathers :
      (p : CommandParser) (x : ℕ) (chunk : Bytes)
      → IsValid p.buffer
      → p.databufpos + length (x ∷ chunk) ≤ 2 ^ 31
      → Gathers p x chunk (parse malloc p (x ∷ chunk))
  unfolding parse
  parse-Gathers p x chunk v small =
      completed-Gathers p x chunk _
        (append-Appended malloc malloc_length p.buffer (x ∷ chunk) v small)
