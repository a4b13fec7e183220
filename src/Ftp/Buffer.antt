-- ===== src/Ftp/Buffer.antt =====
-- The growing byte buffer of ftp/commandparser.cpp and ftp/responseparser.cpp: the members
-- `databuflen`, `databuf` and `databufpos`, and the code with which both `parse` functions begin.
-- `malloc` is a parameter: what a fresh block holds is not known, only its size.
pub mod Contents
use cbbncd.Base.{
  ℕ, zero, suc, ◌+◌, ◌*◌, ◌%◌, ◌^◌, Bool, Option, none, some, ◌++◌, ltb, if◌then◌else◌, take, drop,
  length,
}
use cbbncd.Base.Text.{Bytes}

pub record Buffer : Type 0 where
  pub databuflen : ℕ
  pub databuf : Bytes
  pub databufpos : ℕ

-- `while (need > len) len *= 2`, in `unsigned int`; `none` is a loop cut off by its fuel.
pub grow : ℕ → ℕ → ℕ → Option ℕ
grow zero need len = none
grow (suc fuel) need len =
    let rest = grow fuel need (len * 2 % 2 ^ 32) in if ltb len need then rest else some len

-- `memcpy(to + at, from, from_length)`.
abbrev pub copy : Bytes → ℕ → Bytes → Bytes
copy to at from = take at to ++ (from ++ drop (at + length from) to)

-- The block moves to one of the new length; its old bytes are copied.
abbrev pub moved : (ℕ → Bytes) → Buffer → Option ℕ → Option Buffer
moved malloc b none = none
moved malloc b (some len) =
    some
      (record b { databuflen = len; databuf = copy (malloc len) 0 (take b.databufpos b.databuf) })

abbrev pub stored : Bytes → Option Buffer → Option Buffer
stored newdata none = none
stored newdata (some b) = some (record b {
  databuf = copy b.databuf b.databufpos newdata;
  databufpos = b.databufpos + length newdata;
})

-- The fuel is the width of `unsigned int`.
unfoldable pub append : (ℕ → Bytes) → Buffer → Bytes → Option Buffer
append malloc b newdata =
    let need = b.databufpos + length newdata in
    stored newdata
      (if ltb b.databuflen need then moved malloc b (grow 33 need b.databuflen) else some b)

-- What was stored since the buffer was last emptied.
abbrev pub contents : Buffer → Bytes
contents b = take b.databufpos b.databuf
