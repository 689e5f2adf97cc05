-- ===== src/P4delta/Unpack.antt =====
-- The 32 unrolled unpacking functions.
pub mod Width1
pub mod Width5
pub mod Width9
pub mod Width13
pub mod Width17
pub mod Width21
pub mod Width25
pub mod Width29
