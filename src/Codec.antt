-- ===== src/Codec.antt =====
-- What IndexCompression.cpp and p4delta.cpp do alike: a field is written with `|=` into the words
-- behind `encode`, the value loop of the encoder, and the loop that puts the exceptions back.
pub mod Writeto
pub mod Encoder
pub mod Patch
pub mod Codes
pub mod Block
