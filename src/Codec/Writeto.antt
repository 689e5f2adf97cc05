-- ===== src/Codec/Writeto.antt =====
-- `writeto` (IndexCompression.cpp, and `p4d_writeto` of p4delta.cpp): `data` into field `i` of the
-- words that start at byte `base`.
pub mod Bits
pub mod Fields
use sample_code.Common.{ℕ, ◌+◌, ◌-◌, ◌*◌, ◌/◌, ◌%◌, ◌^◌, bit_or, ◌==◌, if◌then◌else◌}
use sample_code.Words.Bytes.{Memory, load32, store32}

-- `encode[k] |= v`, where `encode` starts at byte `base`.
unfoldable pub or_word : Memory → ℕ → ℕ → ℕ → Memory
or_word m base k v = store32 m (base + 4 * k) (bit_or (load32 m (base + 4 * k)) v)

unfoldable pub writeto : ℕ → Memory → ℕ → ℕ → ℕ → Memory
writeto data' m base width i =
    let b = i * width in
    let e = b + width - 1 in
    let first = b / 2 ^ 5 in
    let last = e / 2 ^ 5 in
    let ls = b - first * 2 ^ 5 in
    let m' = or_word m base first (data' * 2 ^ ls % 2 ^ 32) in
    if last == first then m' else or_word m' base last (data' / 2 ^ (32 - ls))
