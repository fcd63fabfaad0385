-- ===== src/Pow.antt =====
-- core/pow: the proof-of-work challenges, and the encodings that they share.
pub mod Words
pub mod Proof
pub mod Record
pub mod TokenCache
pub mod Escalation
pub mod Manager
pub mod Issue
pub mod Redeem
pub mod Stateless
pub mod Dispatch
