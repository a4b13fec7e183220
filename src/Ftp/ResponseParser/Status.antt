-- ===== src/Ftp/ResponseParser/Status.antt =====
-- When a response is complete.
use cbbncd.Base.{
  ℕ, zero, suc, ◌+◌, ◌-◌, ◌^◌, ◌<◌, ◌≤◌, ◌≡◌, refl, subst, Bool, true, false, [], ◌∷◌, ◌++◌, Option,
  none, some, ◌==◌, ==_iff, length, arith, Bool-cases, ◌⊎◌, inl, inr,
}
use cbbncd.Base.Text.{Bytes}
use cbbncd.Base.Text.Last.{last_or, last_stored}
use cbbncd.Ftp.Buffer.{Buffer, contents}
use cbbncd.Ftp.Buffer.Contents.{IsValid, Appended, append-Appended}
use cbbncd.Ftp.ResponseParser.{
  ResponseParser, byte, is_status, find_status, find_last, code_at, is_user_file, is_junk, judge,
  judged, parse,
}
use cbbncd.Ftp.ResponseParser.StatusLine.{
  IsStatus, IsStray, IsJunk, is_status-IsStatus, is_status_back, is_user_file_iff, is_junk-IsJunk,
  is_junk_back,
}

some_inj : {a b : ℕ} → some a ≡ some b → a ≡ b
some_inj e = cc

-- The last place below `n` that passes the test, if there is one.
abbrev pub IsLast : Buffer → ℕ → Option ℕ → Type 0
IsLast b n none = (loc : ℕ) → loc < n → is_status b loc ≡ false
IsLast b n (some loc) =
    (loc < n)
    × (is_status b loc ≡ true)
    × ((later : ℕ) → loc < later → later < n → is_status b later ≡ false)

extended :
    (b : Buffer) (n : ℕ) (o : Option ℕ) → is_status b n ≡ false → IsLast b n o → IsLast b (suc n) o
extended b n none h l = λ loc k. elim (Bool-cases (loc == n)) [
  | inl same ↦ let e : loc ≡ n = ground arith in rw e h
  | inr other ↦ l loc (ground arith)
]
extended b n (some place) h (lt, s, l) = (
  omega arith,
  s,
  λ loc p k. elim (Bool-cases (loc == n)) [
    | inl same ↦ let e : loc ≡ n = ground arith in rw e h
    | inr other ↦ l loc p (ground arith)
  ],
)

find_status-IsLast : (b : Buffer) (n : ℕ) → IsLast b n (find_status b n)
unfolding find_status
find_status-IsLast b zero = λ loc h. absurd (omega arith)
find_status-IsLast b (suc n) = elim (Bool-cases (is_status b n)) [
  | inl here ↦ rw here (omega arith, here, λ later p k. absurd (omega arith))
  | inr none_here ↦ rw none_here (extended b n _ none_here (find_status-IsLast b n))
]

-- What the search of `parse` finds: the last status line of a text that ends in a line end, and
-- nothing if there is none. It looks at the places of which five bytes stand in the text.
abbrev pub Finds : Buffer → ℕ → Option ℕ → Type 0
Finds b last none = last ≡ b'\n' → (loc code : ℕ) → loc < b.databufpos - 4 → IsStatus b loc code → ⊥
Finds b last (some loc) =
    (last ≡ b'\n')
    × (loc < b.databufpos - 4)
    × ((later code : ℕ) → loc < later → later < b.databufpos - 4 → IsStatus b later code → ⊥)

-- How a response is judged by the status line found in it. With one, the response is complete and
-- has the code of that line, but for the stray 550 line, which is dropped with all the text. With
-- none, only junk is passed on at once, with code 0.
abbrev pub Outcome : ResponseParser → Buffer → ℕ → Option ℕ → Bool × ResponseParser → Type 0
Outcome p b size none (done, p') =
    (p'.buffer ≡ b)
    × ((IsJunk b size × (done ≡ true) × (p'.databufcode ≡ 0))
        ⊎ ((IsJunk b size → ⊥) × (done ≡ false) × (p'.databufcode ≡ p.databufcode)))
Outcome p b size (some loc) (done, p') =
    (code : ℕ) × IsStatus b loc code
    × ((IsStray b loc code × (done ≡ false) × (contents p'.buffer ≡ []))
        ⊎ ((IsStray b loc code → ⊥) × (done ≡ true) × (p'.buffer ≡ b) × (p'.databufcode ≡ code)))

contradiction : {x : Bool} → x ≡ false → x ≡ true → ⊥
contradiction e f = cc

judge-Outcome :
    (p : ResponseParser) (b : Buffer) (size : ℕ) (o : Option ℕ)
    → ((loc : ℕ) → o ≡ some loc → is_status b loc ≡ true)
    → Outcome p b size o (judge (record p { buffer = b }) size o)
unfolding judge
judge-Outcome p b size none s = elim (Bool-cases (is_junk b size)) [
  | inl junk ↦ rw junk (refl, inl (is_junk-IsJunk b size junk, refl, refl))
  | inr wait ↦ rw wait (refl, inr ((λ h. contradiction wait (is_junk_back b size h)), refl, refl))
]
judge-Outcome p b size (some loc) s = elim (Bool-cases (code_at b loc == 550)) [
  | inl code ↦ elim (Bool-cases (is_user_file b loc)) [
    | inl stray ↦
        rw (code, stray)
          (
            _,
            is_status-IsStatus b loc (s loc refl),
            inl (((==_iff _ _).0 code, (is_user_file_iff b loc).0 stray), refl, refl),
          )
    | inr other ↦
        rw (code, other)
          (
            _,
            is_status-IsStatus b loc (s loc refl),
            inr ((λ h. contradiction other ((is_user_file_iff b loc).1 h.1)), refl, refl, refl),
          )
  ]
  | inr code ↦ rw code (
    _,
    is_status-IsStatus b loc (s loc refl),
    inr ((λ h. contradiction code ((==_iff _ _).1 h.0)), refl, refl, refl),
  )
]

IsLast-Finds :
    (b : Buffer) (last : ℕ) (o : Option ℕ)
    → last ≡ b'\n'
    → IsLast b (b.databufpos - 4) o
    → Finds b last o × ((loc : ℕ) → o ≡ some loc → is_status b loc ≡ true)
IsLast-Finds b last none e l =
    (λ e' loc code h s. contradiction (l loc h) (is_status_back b loc code s).0, λ loc f. cc)
IsLast-Finds b last (some place) e (lt, here, l) = (
  (e, lt, λ later code h k s. contradiction (l later h k) (is_status_back b later code s).0),
  λ loc f. subst (λ k. is_status b k ≡ true) (some_inj f) here,
)

find_last-Finds :
    (b : Buffer) (last : ℕ)
    → byte b (b.databufpos - 1) ≡ last
    → Finds b last (find_last b) × ((loc : ℕ) → find_last b ≡ some loc → is_status b loc ≡ true)
unfolding find_last
find_last-Finds b last e = elim (Bool-cases (last == b'\n')) [
  | inl ended ↦
      rw (e, ended)
        (IsLast-Finds b last _ ((==_iff _ _).0 ended) (find_status-IsLast b (b.databufpos - 4)))
  | inr open_text ↦
      rw (e, open_text)
        ((λ h loc code k s. contradiction open_text ((==_iff last b'\n').1 h)), (λ loc f. cc))
]

-- The call stores the chunk, searches the text and judges it by what it finds.
abbrev pub Judges : ResponseParser → ℕ → Bytes → Option (Bool × ResponseParser) → Type 0
Judges p x chunk none = ⊥
Judges p x chunk (some r) =
    (b : Buffer) × (o : Option ℕ) × IsValid b
    × (contents b ≡ contents p.buffer ++ x ∷ chunk)
    × Finds b (last_or x chunk) o
    × Outcome p b (suc (length chunk)) o r

judged-Judges :
    (p : ResponseParser) (x : ℕ) (chunk : Bytes) (o : Option Buffer)
    → Appended p.buffer (x ∷ chunk) o
    → Judges p x chunk (judged p (suc (length chunk)) o)
judged-Judges p x chunk none a = a
judged-Judges p x chunk (some b) (v, at, text) =
    let last =
      last_stored b.databufpos b.databuf _ x chunk text (omega (arith, v.within, v.block)) in
    let (finds, here) = find_last-Finds b _ last in
    (b, find_last b, v, text, finds, judge-Outcome p b _ (find_last b) here)

module _ (malloc : ℕ → Bytes) (malloc_length : (n : ℕ) → length (malloc n) ≡ n) where
  pub parse-Judges :
      (p : ResponseParser) (x : ℕ) (chunk : Bytes)
      → IsValid p.buffer
      → p.databufpos + length (x ∷ chunk) ≤ 2 ^ 31
      → Judges p x chunk (parse malloc p (x ∷ chunk))
  unfolding parse
  parse-Judges p x chunk v small =
      judged-Judges p x chunk _ (append-Appended malloc malloc_length p.buffer (x ∷ chunk) v small)
