-- ===== src/Codec.antt =====
-- src/codec: the packet format.
pub mod Crc
pub mod Words
pub mod Message
pub mod Encode
pub mod Cursor
pub mod Decode
pub mod Roundtrip
pub mod Verdicts
