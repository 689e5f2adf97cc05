-- ===== src/Codec/Writeto/Fields.antt =====
-- The fields of memory: what a write into one of them does to that one and to the others.
use sample_code.Common.{ℕ, ◌+◌, ◌-◌, ◌*◌, ◌^◌, ◌≤◌, ◌<◌, ◌≡◌, ◌≢◌, ◌∙◌, ap, arith}
use native.Mathlib.Decide.{dec_lt}
use native.Mathlib.Nat.{mod-eq_of_lt}
use sample_code.Words.Bits.{bit, bit_beyond, gather, gather_ext, gather-bit, gather-lt}
use sample_code.Words.Bytes.{Memory, memory_bit, memory_bit-le}
use sample_code.Codec.Writeto.Bits.{Ors}

-- Field `k` of width `w` in the bits from byte `base` on.
unfoldable pub code_field : Memory → ℕ → ℕ → ℕ → ℕ
code_field m base w k = gather w (λ t. memory_bit m (8 * base + k * w + t))

-- No bit of field `k` is set.
abbrev pub Clear : Memory → ℕ → ℕ → ℕ → Type 0
Clear m base w k = (t : ℕ) → t < w → memory_bit m (8 * base + k * w + t) ≡ 0

-- The two memories have the same field `k`.
abbrev pub SameField : Memory → Memory → ℕ → ℕ → ℕ → Type 0
SameField m m' base w k =
    (t : ℕ) → t < w → memory_bit m' (8 * base + k * w + t) ≡ memory_bit m (8 * base + k * w + t)

pub code_field-SameField :
    (m m' : Memory) (base w k : ℕ)
    → SameField m m' base w k
    → code_field m' base w k ≡ code_field m base w k
unfolding code_field
code_field-SameField m m' base w k h = gather_ext w _ _ h

pub fields_apart : (i k w : ℕ) → k < i → k * w + w ≤ i * w
fields_apart i k w h = grind arith

module _ (m m' : Memory) (base w i v : ℕ) (small : v < 2 ^ w)
    (o : Ors m m' (8 * base + i * w) v) where
  -- The field written holds the value, if no bit of it was set.
  pub code_field_written : Clear m base w i → code_field m' base w i ≡ v
  unfolding code_field
  code_field_written clear =
      gather_ext w _ (bit v) (λ t h. ground (arith, o (8 * base + i * w + t), clear t h, place t))
      ∙ gather-bit w v
      ∙ mod-eq_of_lt small
    where
      place : (t : ℕ) → bit v (8 * base + i * w + t - (8 * base + i * w)) ≡ bit v t
      place t = ap (bit v) (omega arith)

  pub written_before : (p : ℕ) → p < 8 * base + i * w → memory_bit m' p ≡ memory_bit m p
  written_before p h = ground (arith, o p)

  pub written_behind : (p : ℕ) → 8 * base + i * w + w ≤ p → memory_bit m' p ≡ memory_bit m p
  written_behind p h =
      ground (arith, o p, bit_beyond v w (p - (8 * base + i * w)) small (omega arith))

  pub written_other : (k : ℕ) → k ≢ i → SameField m m' base w k
  written_other k ne t h = elim (dec_lt k i) [
    | yes p ↦ written_before _ (omega (arith, fields_apart i k w p))
    | no p ↦ written_behind _ (omega (arith, fields_apart k i w (omega arith)))
  ]

pub code_field-lt : (m : Memory) (base w k : ℕ) → code_field m base w k < 2 ^ w
unfolding code_field
code_field-lt m base w k = gather-lt w _ (λ t. memory_bit-le m (8 * base + k * w + t))
