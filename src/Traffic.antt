-- ===== src/Traffic.antt =====
-- bnc/: the traffic bouncing half, from the listener of one transfer to all transfers of a client.
pub mod World
pub mod Conns
pub mod Session
pub mod Sessions
