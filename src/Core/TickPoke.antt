-- ===== src/Core/TickPoke.antt =====
-- core/tickpoke.cpp and tickpoketarget.cpp: the timers. A receiver is a number. Descriptions, which
-- nothing reads, are left out, and so is the loop of the ticker thread with its corrections of the
-- time that it sleeps.
pub mod Pokes
use cbbncd.Base.{
  ℕ, ◌+◌, ◌-◌, List, [], ◌∷◌, ◌++◌, Bool, true, false, ◌&&◌, ◌==◌, leb, if◌then◌else◌,
}

pub record TickPokeTarget : Type 0 where
  pub pokee : ℕ
  pub interval : ℕ
  pub currentval : ℕ
  pub message : ℕ

-- `TickPokeTarget::tick`.
abbrev pub tick_target : ℕ → TickPokeTarget → Bool × TickPokeTarget
tick_target msecs t =
    let val = t.currentval + msecs in
    if leb t.interval val
    then (true, record t { currentval = val - t.interval })
    else (false, record t { currentval = val })

pub record TickPoke : Type 0 where
  pub targets : List TickPokeTarget
  pub forever : Bool

abbrev pub with_call :
    TickPokeTarget
    → Bool × TickPokeTarget
    → List (ℕ × ℕ) × List TickPokeTarget
    → List (ℕ × ℕ) × List TickPokeTarget
with_call t (true, t') (calls, targets) = ((t.pokee, t.message) ∷ calls, t' ∷ targets)
with_call t (false, t') (calls, targets) = (calls, t' ∷ targets)

-- The loop that collects the calls: the receiver and the message of each.
unfoldable pub tick_targets : ℕ → List TickPokeTarget → List (ℕ × ℕ) × List TickPokeTarget
tick_targets interval [] = ([], [])
tick_targets interval (t ∷ targets) =
    with_call t (tick_target interval t) (tick_targets interval targets)

abbrev pub ticked : TickPoke → List (ℕ × ℕ) × List TickPokeTarget → List (ℕ × ℕ) × TickPoke
ticked p (calls, targets) = (calls, record p { targets = targets })

-- `TickPoke::tick`. What the receivers do when they are called is not followed; the calls were
-- collected before.
unfoldable pub poke : ℕ → TickPoke → List (ℕ × ℕ) × TickPoke
unfolding tick_targets
poke interval p = if p.forever then ticked p (tick_targets interval p.targets) else ([], p)

abbrev pub start_poke : ℕ → ℕ → ℕ → TickPoke → TickPoke
start_poke pokee interval message p = record p {
  targets =
      p.targets
      ++ (record { pokee = pokee; interval = interval; currentval = 0; message = message }) ∷ [];
}

abbrev pub is_target : ℕ → ℕ → TickPokeTarget → Bool
is_target pokee message t = t.pokee == pokee && t.message == message

-- The loop of `stopPoke`.
abbrev pub erase_target : ℕ → ℕ → List TickPokeTarget → List TickPokeTarget
erase_target pokee message [] = []
erase_target pokee message (t ∷ targets) =
    let rest = erase_target pokee message targets in
    if is_target pokee message t then targets else t ∷ rest

abbrev pub stop_poke : ℕ → ℕ → TickPoke → TickPoke
stop_poke pokee message p = record p { targets = erase_target pokee message p.targets }

abbrev pub break_loop : TickPoke → TickPoke
break_loop p = record p { forever = false }
