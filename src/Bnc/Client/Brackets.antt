-- ===== src/Bnc/Client/Brackets.antt =====
-- bnc/bncsessionclient.cpp: the text between the brackets of a response, cut out and replaced.
use cbbncd.Base.{
  ℕ, ◌+◌, ◌-◌, ◌&&◌, [], ◌∷◌, ◌++◌, Option, none, some, ltb, ◌==◌, if◌then◌else◌, drop, map,
}
use cbbncd.Base.Text.{Bytes, codes, same, find_from, substr}
use cbbncd.Bnc.Client.{Outcome, done, escapes}

-- `response.find('(') + 1`; `npos + 1` is 0.
unfoldable pub text_start : Bytes → ℕ
text_start response = elim (find_from b'(' response 0) [ none ↦ 0 | some i ↦ i + 1 ]

abbrev pub text_end : Bytes → Option ℕ
text_end response = find_from b')' response 0

-- `response.substr(start, end - start)`; an end that is missing or comes earlier makes the count
-- larger than any text.
abbrev pub between : Bytes → ℕ → Option ℕ → Bytes
between response start none = drop start response
between response start (some end) =
    if ltb end start then drop start response else substr response start (end - start)

-- `response.substr(end)`, which throws where `end` is `npos`.
abbrev pub behind : Bytes → Option ℕ → Outcome Bytes
behind response none = escapes
behind response (some end) = done (drop end response)

unfoldable pub comma_count : Bytes → ℕ
comma_count [] = 0
comma_count (c ∷ s) = let rest = comma_count s in if c == b',' then rest + 1 else rest

abbrev pub dot_to_comma : ℕ → ℕ
dot_to_comma c = if c == b'.' then b',' else c

-- Some sites leave out the host: `1,major,minor`.
unfoldable pub with_host : Bytes → Bytes → Bytes
unfolding comma_count
with_host sitehost pasvstring =
    if comma_count pasvstring == 2 && same (substr pasvstring 0 2) (codes "1,")
    then map dot_to_comma sitehost ++ (codes "," ++ drop 2 pasvstring)
    else pasvstring
