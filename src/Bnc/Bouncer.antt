-- ===== src/Bnc/Bouncer.antt =====
-- bnc/bnc.h and bnc/bnc.cpp: the sessions of a listening port, and the site that each new client
-- is led to.
pub mod RoundRobin
pub mod FreeSession
pub mod Beginning
use cbbncd.Base.{
  ℕ, zero, suc, ◌+◌, ◌%◌, Bool, true, false, not, ◌&&◌, List, [], ◌∷◌, ◌++◌, Option, none, some,
  if◌then◌else◌, length, get_elem?,
}
use cbbncd.Base.Int.{pos}
use cbbncd.Base.Text.{Bytes}
use cbbncd.Address.{Address}
use cbbncd.Traffic.World.{World}
use cbbncd.Bnc.Client.{Outcome, done, ◌>>=◌, or_escape}
use cbbncd.Bnc.Session.{BncSession, Accepted, active, activate}

pub record Bnc : Type 0 where
  pub siteaddrs : List Address
  pub nextsiteaddr : ℕ
  pub sessions : List BncSession

-- `siteaddrs.at(nextsiteaddr)`, and the next one. Past the end, `at` throws.
unfoldable pub next_site : Bnc → Option (Address × Bnc)
next_site b = elim (get_elem? b.siteaddrs b.nextsiteaddr) [
  | none ↦ none
  | some site ↦ some (site, record b { nextsiteaddr = (b.nextsiteaddr + 1) % length b.siteaddrs })
]

-- The session that is used and those around it: the first that is not active, or `fresh` behind
-- all of them.
unfoldable pub free_session :
    BncSession → List BncSession → List BncSession × BncSession × List BncSession
free_session fresh [] = ([], fresh, [])
free_session fresh (s ∷ ss) =
    let (before, t, behind) = free_session fresh ss in
    if active s then (s ∷ before, t, behind) else ([], s, ss)

-- `fresh` is `new BncSession(...)`.
unfoldable pub fd_new : Accepted → ℕ → BncSession → Bnc → World → Outcome (Bnc × World)
unfolding next_site free_session
fd_new a newsockid fresh b w = do
  (site, b') ← or_escape (next_site b)
  let (before, t, behind) = free_session fresh b'.sessions
  (t', w') ← activate a newsockid site.addrfam site.host (pos site.port) t w
  done (record b' { sessions = before ++ t' ∷ behind }, w')
