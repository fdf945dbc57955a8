-- ===== src/Chunker.antt =====
-- The chunker, workers/chunker: a Go program that stands between the two Python workers.
pub mod Words
pub mod Split
pub mod Accepted
pub mod Config
pub mod Envelope
pub mod Db
pub mod Handle
pub mod Worker
pub mod Settled
pub mod Verdict
pub mod Success
pub mod Handover
pub mod Delivered
pub mod Run
