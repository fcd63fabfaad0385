-- ===== src/Attack.antt =====
-- core/attackmode/attackmode.go: the attack posture.
pub mod State
pub mod Signals
pub mod Machine
pub mod Share
pub mod Bits
pub mod Publish
pub mod Evaluate
pub mod Posture
pub mod Fleet
pub mod Dwell
pub mod Vote
pub mod Shards
