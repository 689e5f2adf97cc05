-- ===== src/Unpack/Table.antt =====
-- The three forms of an assignment's right side, what they compute, and a test of a table that
-- compares only its numbers.
use native.Mathlib.Decide.{dec_lt}
use sample_code.Common.{
  ℕ, suc, ◌+◌, ◌-◌, ◌*◌, ◌/◌, ◌%◌, ◌^◌, ◌<◌, max, bit_and, bit_or, ◌≡◌, ap, ◌∙◌, sym, arith, ltb,
  leb, ◌==◌, ◌&&◌, Bool, true, if◌then◌else◌, List, [], ◌∷◌,
}
use sample_code.Words.Bits.{
  bit, gather, gather_ext, gather-bit, bit-bit_or, bit-shr, bit-shl, bit-mod, bit_beyond,
  bit_and_mask,
}
use sample_code.Unpack.Stream.{Words, IsWords, stream_bit, field}

pub data Slot : Type 0 where
  -- `encode[k] & mask`
  word : ℕ → ℕ → Slot
  -- `(encode[k] >> s) & mask`
  high : ℕ → ℕ → ℕ → Slot
  -- `((encode[k] >> s) | (encode[l] << t)) & mask`
  join : ℕ → ℕ → ℕ → ℕ → ℕ → Slot

unfoldable pub eval : Words → Slot → ℕ
eval e (word k mask) = bit_and (e k) mask
eval e (high k s mask) = bit_and (e k / 2 ^ s) mask
eval e (join k s l t mask) = bit_and (bit_or (e k / 2 ^ s) (e l * 2 ^ t % 2 ^ 32)) mask

-- Row `i` reads the `w` bits from bit `i * w` on.
unfoldable pub reads : ℕ → ℕ → Slot → Bool
reads w i (word k mask) = 32 * k == i * w && leb w 32 && mask == 2 ^ w - 1
reads w i (high k s mask) = 32 * k + s == i * w && leb (s + w) 32 && mask == 2 ^ w - 1
reads w i (join k s l t mask) =
    32 * k + s == i * w && l == k + 1 && s + t == 32 && ltb 0 t && leb w 32 && mask == 2 ^ w - 1

unfoldable pub reads_from : ℕ → ℕ → List Slot → Bool
unfolding reads
reads_from w i [] = i == 32
reads_from w i (s ∷ ss) = reads w i s && reads_from w (suc i) ss

-- What the mask leaves of `y` is determined by the low digits of `y`.
masked :
    (w y mask : ℕ) (f : ℕ → ℕ)
    → mask ≡ 2 ^ w - 1
    → ((t : ℕ) → t < w → bit y t ≡ f t)
    → bit_and y mask ≡ gather w f
masked w y mask f m h =
    ap (λ (n : ℕ). bit_and y n) m
    ∙ bit_and_mask w y
    ∙ sym (gather-bit w y)
    ∙ gather_ext w (bit y) f h

word_bit :
    (e : Words) (w i k t : ℕ) → 32 * k ≡ i * w → t < 32 → bit (e k) t ≡ stream_bit e (i * w + t)
unfolding stream_bit
word_bit e w i k t p h =
    let q : (i * w + t) / 32 ≡ k = omega arith in
    let r : (i * w + t) % 32 ≡ t = omega arith in cc (q, r)

high_bit :
    (e : Words) (w i k s t : ℕ)
    → 32 * k + s ≡ i * w
    → s + t < 32
    → bit (e k / 2 ^ s) t ≡ stream_bit e (i * w + t)
unfolding stream_bit
high_bit e w i k s t p h =
    let q : (i * w + t) / 32 ≡ k = omega arith in
    let r : (i * w + t) % 32 ≡ s + t = omega arith in cc (q, r, bit-shr (e k) s t)

join_bit :
    (e : Words) (w i k s u t : ℕ)
    → IsWords e
    → 32 * k + s ≡ i * w
    → s + u ≡ 32
    → 0 < u
    → t < 32
    → bit (bit_or (e k / 2 ^ s) (e (k + 1) * 2 ^ u % 2 ^ 32)) t ≡ stream_bit e (i * w + t)
unfolding stream_bit
join_bit e w i k s u t h p su pos tl = elim (dec_lt (s + t) 32) [
  | yes near ↦
      let q : (i * w + t) / 32 ≡ k = omega arith in
      let r : (i * w + t) % 32 ≡ s + t = omega arith in
      ground (arith, q, r, ors, low, high_part, cut)
  | no far ↦
      let q : (i * w + t) / 32 ≡ k + 1 = omega arith in
      let r : (i * w + t) % 32 ≡ t - u = omega arith in
      ground (arith, q, r, ors, low, high_part, cut, bit_beyond (e k) 32 (s + t) (h k))
]
  where
    ors :
        bit (bit_or (e k / 2 ^ s) (e (k + 1) * 2 ^ u % 2 ^ 32)) t
        ≡ max (bit (e k / 2 ^ s) t) (bit (e (k + 1) * 2 ^ u % 2 ^ 32) t)
    ors = bit-bit_or (e k / 2 ^ s) (e (k + 1) * 2 ^ u % 2 ^ 32) t

    low : bit (e k / 2 ^ s) t ≡ bit (e k) (s + t)
    low = bit-shr (e k) s t

    cut : bit (e (k + 1) * 2 ^ u % 2 ^ 32) t ≡ (if ltb t 32 then bit (e (k + 1) * 2 ^ u) t else 0)
    cut = bit-mod (e (k + 1) * 2 ^ u) 32 t

    high_part : bit (e (k + 1) * 2 ^ u) t ≡ (if ltb t u then 0 else bit (e (k + 1)) (t - u))
    high_part = bit-shl (e (k + 1)) u t

-- A row that passes the test computes the field of its place.
pub eval-field :
    (e : Words) (w i : ℕ) (s : Slot) → IsWords e → reads w i s ≡ true → eval e s ≡ field e w i
unfolding eval reads field
eval-field e w i (word k mask) h c =
    masked w (e k) mask _ (ground arith) λ t lt. word_bit e w i k t (ground arith) (ground arith)
eval-field e w i (high k s mask) h c =
    masked w (e k / 2 ^ s) mask _ (ground arith)
      λ t lt. high_bit e w i k s t (ground arith) (ground arith)
eval-field e w i (join k s l u mask) h c =
    let next : l ≡ k + 1 = ground arith in
    rw next (
      masked w _ mask _ (ground arith) λ t lt.
        join_bit e w i k s u t h (ground arith) (ground arith) (ground arith) (ground arith))
