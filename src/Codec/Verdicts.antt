-- ===== src/Codec/Verdicts.antt =====
-- `Codec::decode` on every buffer: what it consumes, and what it refuses.
pub mod Fields
pub mod Consumption
pub mod Refusal
pub mod Corruption
pub mod Resync
