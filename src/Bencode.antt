-- ===== src/Bencode.antt =====
-- internal/bencode: values, their encoding and their decoding.
pub mod Value
pub mod Decimal
pub mod Encode
pub mod Decode
pub mod RoundTrip
pub mod Tests
