-- ===== src/Util/Padding.antt =====
-- The paddings of shared/src/util/util.cpp: PKCS#1 block type 1, and ISO 7816-4.
pub mod BlockType1
pub mod DigestInfo
pub mod Iso
