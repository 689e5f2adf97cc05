-- ===== src/Words.antt =====
-- Binary digits of words, the shifts and masks of C on them, and little-endian bytes.
pub mod Bits
pub mod Step
pub mod Bytes
