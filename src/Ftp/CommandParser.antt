-- ===== src/Ftp/CommandParser.antt =====
-- ftp/commandparser.h and ftp/commandparser.cpp: the commands of a client, gathered up to a line end.
pub mod Lines
pub mod Trim
use cbbncd.Base.{
  ℕ, zero, suc, ◌+◌, ◌-◌, Bool, true, false, ◌&&◌, ◌||◌, List, [], ◌∷◌, Option, none, some, leb,
  ◌==◌, if◌then◌else◌, length, get_or, take,
}
use cbbncd.Base.Text.{Bytes}
use cbbncd.Ftp.Buffer.{Buffer, append, contents}

pub record CommandParser : Type 0 where
  pub buffer : Buffer
  pub open buffer use *
  pub complete : Bool

-- The last byte that is stored; read with something stored.
abbrev pub last_byte : Buffer → ℕ
last_byte b = get_or b.databuf (b.databufpos - 1) 0

abbrev pub completed : CommandParser → Option Buffer → Option (Bool × CommandParser)
completed p none = none
completed p (some b) =
    let done = if last_byte b == b'\n' then true else p.complete in
    some (done, record { buffer = b; complete = done })

-- What `parse` returns, and the parser after it; `none` where making room for the data does not end.
unfoldable pub parse : (ℕ → Bytes) → CommandParser → Bytes → Option (Bool × CommandParser)
parse malloc p newdata = completed p (append malloc p.buffer newdata)

unfoldable pub reset : CommandParser → CommandParser
reset p = record p { buffer = record (p.buffer) { databufpos = 0 }; complete = false }

abbrev pub is_line_end : ℕ → Bool
is_line_end c = c == b'\n' || c == b'\r'

-- `std::toupper` in the C locale.
abbrev pub to_upper : ℕ → ℕ
to_upper c = if leb b'a' c && leb c b'z' then c - 32 else c

-- `cutafterpos + 1` when the first loop of `getCommandTrimmedUpper` ends.
pub cut_length : Bytes → ℕ → ℕ
cut_length command zero = zero
cut_length command (suc n) =
    let shorter = cut_length command n in
    if is_line_end (get_or command n 0) then shorter else suc n

-- The second loop, over the first `n` bytes.
pub upper_first : ℕ → Bytes → Bytes
upper_first zero command = command
upper_first (suc n) [] = []
upper_first (suc n) (c ∷ command) = to_upper c ∷ upper_first n command

unfoldable pub get_command_trimmed_upper : CommandParser → Bytes
unfolding cut_length upper_first
get_command_trimmed_upper p =
    let command = contents p.buffer in
    let n = cut_length command (length command) in take n (upper_first n command)
