-- ===== src/Unpack/Stream.antt =====
-- What unpacking means: the input words are one stream of bits, lowest first, and the field of
-- width `w` at place `i` is the number that stands in bits `i * w` to `i * w + w - 1`.
use sample_code.Common.{ℕ, ◌+◌, ◌*◌, ◌/◌, ◌%◌, ◌^◌, ◌<◌, ◌≡◌, arith}
use sample_code.Words.Bits.{bit, gather, gather_ext}

abbrev pub Words : Type 0
Words = ℕ → ℕ

abbrev pub Array : Type 0
Array = ℕ → ℕ

abbrev pub IsWords : Words → Type 0
IsWords e = (k : ℕ) → e k < 2 ^ 32

unfoldable pub stream_bit : Words → ℕ → ℕ
stream_bit e p = bit (e (p / 32)) (p % 32)

unfoldable pub field : Words → ℕ → ℕ → ℕ
field e w i = gather w (λ t. stream_bit e (i * w + t))

-- The pointer `encode + w`.
abbrev pub shift_words : Words → ℕ → Words
shift_words e w k = e (w + k)

-- Advancing by `w` words is advancing by 32 fields.
pub field-shift_words : (e : Words) (w i : ℕ) → field (shift_words e w) w i ≡ field e w (32 + i)
unfolding field stream_bit
field-shift_words e w i = gather_ext w _ _ λ t h.
    let q : w + (i * w + t) / 32 ≡ ((32 + i) * w + t) / 32 = omega arith in
    let r : (i * w + t) % 32 ≡ ((32 + i) * w + t) % 32 = omega arith in ground (arith, q, r)
