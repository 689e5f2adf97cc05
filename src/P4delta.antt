-- ===== src/P4delta.antt =====
-- p4delta/p4delta.{h,cpp}: the free functions `p4d_compress` and `p4d_uncompress` and their parts.
pub mod Unpack
pub mod Delta
pub mod Switch
pub mod Varint
pub mod Block
