-- ===== src/IndexCompression.antt =====
-- p4delta/IndexCompression.{h,cpp}: the class, with each method that changes it.
pub mod Unpack
pub mod Delta
pub mod BitSize
pub mod Class
