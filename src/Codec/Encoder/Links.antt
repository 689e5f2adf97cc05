-- ===== src/Codec/Encoder/Links.antt =====
-- The fields that link one exception to the next.
use native.Mathlib.Decide.{dec_le}
use native.Mathlib.Nat.{pow-le-pow_right}
use sample_code.Common.{
  ℕ, ◌+◌, ◌-◌, ◌*◌, ◌/◌, ◌%◌, ◌^◌, ◌≤◌, ◌<◌, bit_or, ◌≡◌, ap, arith, Option, none, some, update,
}
use sample_code.Words.Bits.{bit, bit-bit_or, bit_beyond, bit_or-lt}
use sample_code.Words.Bytes.{Memory, IsBytes, memory_bit}
use sample_code.Codec.Writeto.{or_word, writeto}
use sample_code.Codec.Writeto.Bits.{Ors, or_word-IsBytes, writeto-IsBytes, writeto-Ors}
use sample_code.Codec.Encoder.{ExceptionOps, distance, link, close}

-- The field that waits for the distance to the next exception.
abbrev pub place : Option ℕ → ℕ
place none = 0
place (some l) = l

-- The field of the next exception, when `v` stands in the waiting field.
abbrev pub jump : Option ℕ → ℕ → ℕ
jump none v = v
jump (some l) v = l + (v + 1)

abbrev pub end_mark : ℕ → Option ℕ → ℕ
end_mark maxentry none = maxentry % 2 ^ 8
end_mark maxentry (some l) = maxentry

-- A write into word 0 is a write into field 0.
or_word-writeto :
    (v : ℕ) (m : Memory) (base w : ℕ)
    → 1 ≤ w
    → w ≤ 32
    → v < 2 ^ 32
    → or_word m base 0 v ≡ writeto v m base w 0
unfolding writeto
or_word-writeto v m base w pos wide small =
    let b : 0 * w ≡ 0 = omega arith in
    let e : (0 + w - 1) / 2 ^ 5 ≡ 0 = omega arith in
    let s : v * 2 ^ 0 % 2 ^ 32 ≡ v = omega arith in rw (b, e, s)

-- The bits of a store of one byte.
or_byte-Ors :
    (v : ℕ) (m : Memory) (base : ℕ)
    → v < 2 ^ 8
    → Ors m (update m base (bit_or (m base) v)) (8 * base) v
unfolding memory_bit
or_byte-Ors v m base small p =
    ground (
      arith,
      bit-bit_or (m base) v (p % 8),
      bit_beyond v 8 (p - 8 * base) small,
      place_of,
      same_byte,
    )
  where
    place_of : p / 8 ≡ base → bit v (p - 8 * base) ≡ bit v (p % 8)
    place_of q = ap (bit v) (omega arith)

    same_byte : p / 8 ≡ base → bit (m (p / 8)) (p % 8) ≡ bit (m base) (p % 8)
    same_byte q = ap (λ (a : ℕ). bit (m a) (p % 8)) q

or_byte-IsBytes :
    (v : ℕ) (m : Memory) (base : ℕ)
    → v < 2 ^ 8
    → IsBytes m
    → IsBytes (update m base (bit_or (m base) v))
or_byte-IsBytes v m base small h a = ground (arith, h a, bit_or-lt 8 (m base) v (h base) small)

module _ (ops : ExceptionOps) (base w e : ℕ) (pos : 1 ≤ w) (wide : w ≤ 32) where
  pub link-IsBytes :
      (last : Option ℕ) (idx : ℕ) (m : Memory) → IsBytes m → IsBytes (link ops base w e last idx m)
  unfolding link
  link-IsBytes none idx m h = or_word-IsBytes m base 0 _ h
  link-IsBytes (some l) idx m h = writeto-IsBytes _ m base w l h

  pub link-Ors :
      (last : Option ℕ) (idx : ℕ) (m : Memory)
      → IsBytes m
      → idx + 1 < 2 ^ 32
      → distance last idx < 2 ^ w
      → Ors m (link ops base w e last idx m) (8 * base + place last * w) (distance last idx)
  unfolding link
  link-Ors none idx m h i d =
      let same : (idx + 1) % 2 ^ 32 ≡ idx + 1 = omega arith in
      rw (or_word-writeto (idx + 1) m base w pos wide i, same)
        (writeto-Ors (idx + 1) m base w 0 h pos wide (rw same at d))
  link-Ors (some l) idx m h i d = writeto-Ors _ m base w l h pos wide d

  pub close-IsBytes :
      (last : Option ℕ) (m : Memory) → IsBytes m → IsBytes (close ops base w e last m)
  unfolding close
  close-IsBytes none m h = or_byte-IsBytes (e % 2 ^ 8) m base (omega arith) h
  close-IsBytes (some l) m h = writeto-IsBytes e m base w l h

  pub close-Ors :
      (last : Option ℕ) (m : Memory)
      → IsBytes m
      → e < 2 ^ w
      → Ors m (close ops base w e last m) (8 * base + place last * w) (end_mark e last)
  unfolding close
  close-Ors none m h small =
      let start : 8 * base + 0 * w ≡ 8 * base = omega arith in
      rw start (or_byte-Ors (e % 2 ^ 8) m base (omega arith))
  close-Ors (some l) m h small = writeto-Ors e m base w l h pos wide small

  pub end_mark-lt : (last : Option ℕ) → e < 2 ^ w → end_mark e last < 2 ^ w
  end_mark-lt none small = elim (dec_le w 8) [
    | yes short ↦ omega (arith, pow-le-pow_right {n = 2} (omega arith) short)
    | no long ↦
        let more : 8 ≤ w = omega arith in omega (arith, pow-le-pow_right {n = 2} (omega arith) more)
  ]
  end_mark-lt (some l) small = small
