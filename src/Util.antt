-- ===== src/Util.antt =====
-- shared/src/util: byte arrays, padding, TLV buffers.
pub mod Array
pub mod Padding
pub mod Tlv
pub mod Asn1
pub mod Hex
pub mod Tests
