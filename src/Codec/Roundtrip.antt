-- ===== src/Codec/Roundtrip.antt =====
-- Encoding a packet and then decoding it.
pub mod Header
pub mod Packet
pub mod Request
pub mod Response
pub mod Heartbeats
