-- ===== src/Memory.antt =====
-- core/store/sharded_memory.go
pub mod State
pub mod Ops
pub mod Commit
pub mod Scan
pub mod View
pub mod Reads
pub mod Counters
pub mod Blocks
pub mod Unblocks
pub mod Trace
pub mod Fresh
