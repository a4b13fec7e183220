-- ===== src/Bnc/Client/Ledger.antt =====
-- The ports of a client whose commands and responses are rewritten.
use cbbncd.Base.{
  ℕ, ◌≡◌, ◌≤◌, Bool, true, false, List, ◌++◌, Option, none, some, length, if◌then◌else◌, arith,
}
use cbbncd.Base.Int.{ℤ}
use cbbncd.Base.Text.{Bytes}
use cbbncd.Types.{AddressFamily}
use cbbncd.ListenPortManager.Ledger.{Accounted}
use cbbncd.Traffic.World.{World}
use cbbncd.Traffic.Session.{TrafficBncSession}
use cbbncd.Traffic.Sessions.{activate_any}
use cbbncd.Traffic.Sessions.Ports.{awaited, to_list, activate_any-Balanced}
use cbbncd.Bnc.Client.{
  BncSessionClient, Outside, Outcome, done, aborts, escapes, undefined, endless, ◌>>=◌,
}

-- What is returned, if the call returns.
abbrev pub Returns {ℓ} : {A : Type ℓ} → (A → Type 0) → Outcome A → Type 0
Returns P (done a) = P a
Returns P aborts = Unit {0}
Returns P escapes = Unit {0}
Returns P undefined = Unit {0}
Returns P endless = Unit {0}

pub Returns-bind {ℓ κ} :
    {A : Type ℓ} {B : Type κ} (P : A → Type 0) (Q : B → Type 0) (m : Outcome A) (f : A → Outcome B)
    → Returns P m
    → ((a : A) → P a → Returns Q (f a))
    → Returns Q (m >>= f)
Returns-bind P Q (done a) f h k = k a h
Returns-bind P Q aborts f h k = tt
Returns-bind P Q escapes f h k = tt
Returns-bind P Q undefined f h k = tt
Returns-bind P Q endless f h k = tt

-- For a step of which nothing is to be known.
pub Returns-then {ℓ κ} :
    {A : Type ℓ} {B : Type κ} (Q : B → Type 0) (m : Outcome A) (f : A → Outcome B)
    → ((a : A) → Returns Q (f a))
    → Returns Q (m >>= f)
Returns-then Q (done a) f k = k a
Returns-then Q aborts f k = tt
Returns-then Q escapes f k = tt
Returns-then Q undefined f k = tt
Returns-then Q endless f k = tt

pub Returns-if {ℓ} :
    {A : Type ℓ} (P : A → Type 0) (b : Bool) (m n : Outcome A)
    → Returns P m
    → Returns P n
    → Returns P (if b then m else n)
Returns-if P true m n h k = h
Returns-if P false m n h k = k

-- A test that is known to hold.
pub chosen {ℓ} :
    {A : Type ℓ} (P : A → Type 0) (b : Bool) (m n : A) → b ≡ true → P m → P (if b then m else n)
chosen P true m n e h = h
chosen P false m n e h = cc

pub unchosen {ℓ} :
    {A : Type ℓ} (P : A → Type 0) (b : Bool) (m n : A) → b ≡ false → P n → P (if b then m else n)
unchosen P true m n e h = cc
unchosen P false m n e h = h

-- The client listens on one port at most, and the ledger has it and those of the others.
abbrev pub Listens : List ℕ → List TrafficBncSession → World → Type 0
Listens others ss w = Accounted (awaited ss ++ others) w.ports × (length (awaited ss) ≤ 1)

abbrev pub Holds : List ℕ → BncSessionClient → World → Type 0
Holds others c w = Listens others c.tbncsessions w

pub length-to_list : (o : Option ℕ) → length (to_list o) ≤ 1
length-to_list none = omega arith
length-to_list (some port) = omega arith

abbrev pub Activates : List ℕ → Option ℕ × List TrafficBncSession × World → Type 0
Activates others (port, ss, w) = Listens others ss w

module _ (others : List ℕ) where
  pub activate_any-Activates :
      (o : Outside) (family usefam : AddressFamily) (addr : Bytes) (port : ℤ) (c : BncSessionClient)
      (w : World)
      → Holds others c w
      → Activates others (activate_any o.answers family usefam addr port c.tbncsessions w)
  activate_any-Activates o family usefam addr port c w (v, one) =
      let (v', e) =
        activate_any-Balanced o.answers family usefam addr port c.tbncsessions others w v in
      (v', rw e (length-to_list _))
