-- ===== src/Core.antt =====
-- core/: the parts on which the bouncer runs.
pub mod DataBlockPool
pub mod BlockingQueue
pub mod SignalEvents
pub mod Event
pub mod WorkManager
pub mod Polling
pub mod SocketInfo
pub mod IoManager
pub mod TickPoke
