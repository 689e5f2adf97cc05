-- ===== src/Unpack.antt =====
-- The unrolled unpacking loops of p4delta/p4delta.cpp and p4delta/IndexCompression.cpp. A loop's
-- body is 32 assignments to `output[j+0]` ... `output[j+31]`, each of one of three forms; a table
-- lists the right sides in order.
pub mod Stream
pub mod Table
pub mod Rounds
