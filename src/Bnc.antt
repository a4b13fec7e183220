-- ===== src/Bnc.antt =====
-- bnc/: the sessions that stand between a client and the site.
pub mod Client
pub mod Ident
pub mod Session
pub mod Bouncer
