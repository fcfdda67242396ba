-- ===== src/Resp.antt =====
-- internal/resp: the codec and the session of the Redis-compatible listener.
pub mod Protocol
pub mod Session
pub mod Dispatch
pub mod Traffic
pub mod Gate
pub mod Sweeper
