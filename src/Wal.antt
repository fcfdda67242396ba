-- ===== src/Wal.antt =====
-- internal/persistence: the write-ahead log of a shard (persistence.go).
pub mod Format
pub mod Handle
pub mod Dump
pub mod Replay
pub mod Sealed
pub mod Snapshot
pub mod Migration
