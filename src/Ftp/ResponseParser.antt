-- ===== src/Ftp/ResponseParser.antt =====
-- ftp/responseparser.h and ftp/responseparser.cpp: the responses of a server, gathered up to the
-- line that ends one.
pub mod Status
pub mod StatusLine
use cbbncd.Base.{
  ℕ, zero, suc, ◌+◌, ◌-◌, ◌*◌, Bool, true, false, not, ◌&&◌, ◌||◌, List, [], ◌∷◌, Option, none,
  some, leb, ◌==◌, if◌then◌else◌, length, get_or,
}
use cbbncd.Base.Text.{Bytes, is_digit}
use cbbncd.Ftp.Buffer.{Buffer, append}

pub record ResponseParser : Type 0 where
  pub buffer : Buffer
  pub open buffer use *
  pub databufcode : ℕ
  pub complete : Bool

-- `databuf[i]`, for a place in the block.
abbrev pub byte : Buffer → ℕ → ℕ
byte b i = get_or b.databuf i 0

-- Three digits at `loc`, with a space or a line end behind them and a line end or nothing before.
pub is_status : Buffer → ℕ → Bool
is_status b loc =
    (is_digit (byte b loc) && is_digit (byte b (loc + 1)) && is_digit (byte b (loc + 2)))
    && ((byte b (loc + 3) == b' ' || byte b (loc + 3) == b'\n')
        && (loc == 0 || byte b (loc - 1) == b'\n'))

-- The loop `while (loc >= databuf)` over the places below `n`, from the last one down.
pub find_status : Buffer → ℕ → Option ℕ
unfolding is_status
find_status b zero = none
find_status b (suc loc) =
    let earlier = find_status b loc in if is_status b loc then some loc else earlier

-- The status line of a text that ends in a line end; `loc` starts at `databufpos - 5`.
pub find_last : Buffer → Option ℕ
unfolding find_status
find_last b = if byte b (b.databufpos - 1) == b'\n' then find_status b (b.databufpos - 4) else none

-- `atoi` of three digits.
abbrev pub code_at : Buffer → ℕ → ℕ
code_at b loc =
    (byte b loc - b'0') * 100 + (byte b (loc + 1) - b'0') * 10 + (byte b (loc + 2) - b'0')

-- "Unable to load your own user file!"
abbrev pub is_user_file : Buffer → ℕ → Bool
is_user_file b loc =
    byte b (loc + 4) == b'U'
    && byte b (loc + 5) == b'n'
    && byte b (loc + 28) == b'u'
    && byte b (loc + 33) == b'f'

-- The chunk is all there is, and does not begin with three digits.
abbrev pub is_junk : Buffer → ℕ → Bool
is_junk b newdatalen =
    newdatalen == b.databufpos
    && (leb 3 newdatalen
        && (not (is_digit (byte b 0)) || not (is_digit (byte b 1)) || not (is_digit (byte b 2))))

-- The rest of `parse`, behind the search.
pub judge : ResponseParser → ℕ → Option ℕ → Bool × ResponseParser
judge p newdatalen (some loc) =
    let code = code_at p.buffer loc in
    let coded = record p { databufcode = code } in
    if code == 550
    then if is_user_file p.buffer loc
      then (false, record coded { buffer = record (p.buffer) { databufpos = 0 }; complete = false })
      else (true, coded)
    else (true, record coded { complete = true })
judge p newdatalen none =
    if is_junk p.buffer newdatalen then (true, record p { databufcode = 0 }) else (false, p)

abbrev pub judged : ResponseParser → ℕ → Option Buffer → Option (Bool × ResponseParser)
judged p newdatalen none = none
judged p newdatalen (some b) = some (judge (record p { buffer = b }) newdatalen (find_last b))

-- What `parse` returns, and the parser after it; `none` where making room for the data does not end.
unfoldable pub parse : (ℕ → Bytes) → ResponseParser → Bytes → Option (Bool × ResponseParser)
unfolding judge find_last
parse malloc p newdata = judged p (length newdata) (append malloc p.buffer newdata)

unfoldable pub reset : ResponseParser → ResponseParser
reset p = record p { buffer = record (p.buffer) { databufpos = 0 }; complete = false }
