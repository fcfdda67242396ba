-- ===== src/Tests.antt =====
-- Runs of the development on concrete inputs, by the part of the program.
mod Storage
mod Access
mod Commands
mod Wire
mod Keys
mod Resp
mod Shard
mod Wal
mod Snapshots
