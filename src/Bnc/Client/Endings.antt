-- ===== src/Bnc/Client/Endings.antt =====
-- What it is for an operation to come to an end, whatever it answers.
use cbbncd.Base.{ℕ, ◌≢◌, Bool, true, false, List, Option, none, some, if◌then◌else◌, arith}
use cbbncd.Base.Text.{Bytes, codes}
use cbbncd.Util.{split}
use cbbncd.Util.Split.{Joins, split-Joins}
use cbbncd.Ftp.PasvString.{Parsed, parsed, refused, throws, overflows, to_pasv_string}
use cbbncd.Bnc.Client.{
  Outcome, done, aborts, escapes, undefined, endless, ◌>>=◌, or_endless, or_undefined, tried,
}
use cbbncd.Bnc.Client.Brackets.{behind}
use cbbncd.Bnc.Client.Bracketed.{to_pasv_string-some}

-- The call comes to an end, of whatever kind.
abbrev pub Ends {ℓ} : {A : Type ℓ} → Outcome A → Type 0
Ends endless = ⊥
Ends _ = Unit {0}

pub Ends-bind {ℓ κ} :
    {A : Type ℓ} {B : Type κ} (m : Outcome A) (f : A → Outcome B)
    → Ends m
    → ((a : A) → Ends (f a))
    → Ends (m >>= f)
Ends-bind (done a) f h k = k a
Ends-bind aborts f h k = tt
Ends-bind escapes f h k = tt
Ends-bind undefined f h k = tt
Ends-bind endless f h k = absurd h

pub Ends-if {ℓ} :
    {A : Type ℓ} (b : Bool) (m n : Outcome A) → Ends m → Ends n → Ends (if b then m else n)
Ends-if true m n h k = h
Ends-if false m n h k = k

pub Ends-ne {ℓ} : {A : Type ℓ} (m : Outcome A) → Ends m → m ≢ endless
Ends-ne (done a) h e = cc
Ends-ne aborts h e = cc
Ends-ne escapes h e = cc
Ends-ne undefined h e = cc
Ends-ne endless h e = absurd h

pub tried-Ends {ℓ} : {A : Type ℓ} (p : Parsed A) → Ends (tried p)
tried-Ends (parsed a) = tt
tried-Ends refused = tt
tried-Ends throws = tt
tried-Ends overflows = tt

pub or_undefined-Ends {ℓ} : {A : Type ℓ} (o : Option A) → Ends (or_undefined o)
or_undefined-Ends none = tt
or_undefined-Ends (some a) = tt

pub behind-Ends : (response : Bytes) (end : Option ℕ) → Ends (behind response end)
behind-Ends response none = tt
behind-Ends response (some end) = tt

pub printed-Ends : (addr : Bytes) (port : ℕ) → Ends (or_endless (to_pasv_string addr port))
printed-Ends addr port = let (pasv, e) = to_pasv_string-some addr port in rw e tt

pub words-Ends : (text : Bytes) → Ends (or_endless (split text (codes " ")))
words-Ends text = some_Ends (split text (codes " ")) (split-Joins text (codes " ") (omega arith))
  where
    some_Ends : (o : Option (List Bytes)) → Joins (codes " ") text o → Ends (or_endless o)
    some_Ends none j = j
    some_Ends (some words) j = tt
