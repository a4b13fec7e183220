-- ===== src/Bnc/Bouncer/FreeSession.antt =====
-- A new client never disturbs a session.
use cbbncd.Base.{◌≡◌, refl, ◌⊎◌, inl, inr, true, false, List, [], ◌∷◌, ◌++◌, Bool-cases, ap}
use cbbncd.Bnc.Session.{BncSession, active}
use cbbncd.Bnc.Bouncer.{free_session}

abbrev pub AllActive : List BncSession → Type 0
AllActive [] = Unit {0}
AllActive (s ∷ ss) = (active s ≡ true) × AllActive ss

-- The session that is used is the first one that is not active, or the fresh one if all are.
abbrev pub Picks :
    BncSession → List BncSession → List BncSession × BncSession × List BncSession → Type 0
Picks fresh sessions (before, s, behind) =
    AllActive before
    × (((active s ≡ false) × (before ++ s ∷ behind ≡ sessions))
        ⊎ ((s ≡ fresh) × (behind ≡ []) × (before ≡ sessions)))

-- A new client never gets a session that is in use: it gets the first one that is not active, or a
-- new one behind all the others, and the sessions around it are as they were.
pub free_session-Picks :
    (fresh : BncSession) (sessions : List BncSession)
    → Picks fresh sessions (free_session fresh sessions)
unfolding free_session
free_session-Picks fresh [] = (tt, inr (refl, refl, refl))
free_session-Picks fresh (s ∷ ss) = elim (Bool-cases (active s)) [
  | inl busy ↦ rw busy (also_Picks busy (free_session-Picks fresh ss))
  | inr free ↦ rw free (tt, inl (free, refl))
]
  where
    also_Picks :
        {r : List BncSession × BncSession × List BncSession}
        → active s ≡ true
        → Picks fresh ss r
        → Picks fresh (s ∷ ss) (s ∷ r.0, r.1, r.2)
    also_Picks busy (all, inl (free, same)) = ((busy, all), inl (free, ap (◌∷◌ s) same))
    also_Picks busy (all, inr (new, last, same)) = ((busy, all), inr (new, last, ap (◌∷◌ s) same))
