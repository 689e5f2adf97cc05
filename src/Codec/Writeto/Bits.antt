-- ===== src/Codec/Writeto/Bits.antt =====
-- The bits of memory after a write with `|=`.
use native.Mathlib.Decide.{dec_lt}
use sample_code.Common.{
  ℕ, ◌+◌, ◌-◌, ◌*◌, ◌/◌, ◌%◌, ◌^◌, ◌≤◌, ◌<◌, max, bit_or, ◌≡◌, ap, arith, ltb, leb, ◌&&◌, ◌==◌,
  if◌then◌else◌, Bool-cases, inl, inr,
}
use sample_code.Words.Bits.{bit, bit-bit_or, bit-shr, bit-shl, bit-mod, bit_beyond}
use sample_code.Words.Bytes.{
  Memory, IsBytes, load32, memory_bit, bit-load32, memory_bit-store32, store32-IsBytes,
}
use sample_code.Codec.Writeto.{or_word, writeto}

-- Memory `m'` is `m` with the digits of `v` joined in from bit `pos` on.
abbrev pub Ors : Memory → Memory → ℕ → ℕ → Type 0
Ors m m' pos v =
    (p : ℕ) → memory_bit m' p ≡ max (memory_bit m p) (if leb pos p then bit v (p - pos) else 0)

pub or_word-IsBytes : (m : Memory) (base k v : ℕ) → IsBytes m → IsBytes (or_word m base k v)
unfolding or_word
or_word-IsBytes m base k v h = store32-IsBytes m _ _ h

or_word-bit :
    (m : Memory) (base k v p : ℕ)
    → IsBytes m
    → memory_bit (or_word m base k v) p ≡ (
        if leb (8 * (base + 4 * k)) p && ltb p (8 * (base + 4 * k) + 32)
        then max (memory_bit m p) (bit v (p - 8 * (base + 4 * k)))
        else memory_bit m p)
unfolding or_word
or_word-bit m base k v p h =
    let a = base + 4 * k in
    ground (
      arith,
      memory_bit-store32 m a (bit_or (load32 m a) v) p,
      bit-bit_or (load32 m a) v (p - 8 * a),
      bit-load32 m a (p - 8 * a) h,
      same_bit a,
    )
  where
    same_bit : (a : ℕ) → 8 * a ≤ p → memory_bit m (8 * a + (p - 8 * a)) ≡ memory_bit m p
    same_bit a q = ap (memory_bit m) (omega arith)

-- Shifted left into its word: the digits that stay below bit 32.
shifted_left :
    (v ls k : ℕ)
    → bit (v * 2 ^ ls % 2 ^ 32) k ≡ (if ltb k 32 then if ltb k ls then 0 else bit v (k - ls) else 0)
shifted_left v ls k = ground (arith, bit-mod (v * 2 ^ ls) 32 k, bit-shl v ls k)

module _ (v : ℕ) (m : Memory) (base width k ls : ℕ) (h : IsBytes m) (small : v < 2 ^ width) where
  -- A field that starts at bit `ls` of word `k` and ends in it.
  one_word-Ors :
      ls + width ≤ 32 → Ors m (or_word m base k (v * 2 ^ ls % 2 ^ 32)) (8 * base + (32 * k + ls)) v
  one_word-Ors fits p = ground (
    arith,
    or_word-bit m base k (v * 2 ^ ls % 2 ^ 32) p h,
    shifted_left v ls (p - 8 * (base + 4 * k)),
    beyond,
    place,
  )
    where
      place :
          8 * base + (32 * k + ls) ≤ p
          → bit v (p - 8 * (base + 4 * k) - ls) ≡ bit v (p - (8 * base + (32 * k + ls)))
      place q = ap (bit v) (omega arith)

      beyond : 8 * (base + 4 * k) + 32 ≤ p → bit v (p - (8 * base + (32 * k + ls))) ≡ 0
      beyond q = bit_beyond v width _ small (omega arith)

  -- A field that runs over into the next word.
  two_words-Ors :
      32 < ls + width
      → ls < 32
      → width ≤ 32
      → Ors m
          (or_word (or_word m base k (v * 2 ^ ls % 2 ^ 32)) base (k + 1) (v / 2 ^ (32 - ls)))
          (8 * base + (32 * k + ls))
          v
  two_words-Ors over low wide p = ground (
    arith,
    or_word-bit m base k (v * 2 ^ ls % 2 ^ 32) p h,
    or_word-bit (or_word m base k (v * 2 ^ ls % 2 ^ 32)) base (k + 1) (v / 2 ^ (32 - ls)) p
        (or_word-IsBytes m base k _ h),
    shifted_left v ls (p - 8 * (base + 4 * k)),
    bit-shr v (32 - ls) (p - 8 * (base + 4 * (k + 1))),
    place,
    place_next,
    beyond,
  )
    where
      place :
          8 * base + (32 * k + ls) ≤ p
          → bit v (p - 8 * (base + 4 * k) - ls) ≡ bit v (p - (8 * base + (32 * k + ls)))
      place q = ap (bit v) (omega arith)

      place_next :
          8 * (base + 4 * (k + 1)) ≤ p
          → bit v (32 - ls + (p - 8 * (base + 4 * (k + 1))))
            ≡ bit v (p - (8 * base + (32 * k + ls)))
      place_next q = ap (bit v) (omega arith)

      beyond : 8 * (base + 4 * (k + 1)) + 32 ≤ p → bit v (p - (8 * base + (32 * k + ls))) ≡ 0
      beyond q = bit_beyond v width _ small (omega arith)

module _ (v : ℕ) (m : Memory) (base width i : ℕ) (h : IsBytes m) where
  pub writeto-IsBytes : IsBytes (writeto v m base width i)
  unfolding writeto
  writeto-IsBytes =
      let k = i * width / 2 ^ 5 in
      let last = (i * width + width - 1) / 2 ^ 5 in
      let first_done = or_word-IsBytes m base k (v * 2 ^ (i * width - k * 2 ^ 5) % 2 ^ 32) h in
      elim (Bool-cases (last == k)) [
        | inl e ↦ rw e first_done
        | inr e ↦ rw e (or_word-IsBytes _ base last _ first_done)
      ]

  -- For a width from 1 to 32 and a value that fits it, `writeto` on memory of bytes joins the digits
  -- of the value, by or, into the bits from `i * width` on, counted from byte `base`, and leaves
  -- every other bit of the memory, also where the field crosses from one word to the next.
  pub writeto-Ors :
      1 ≤ width
      → width ≤ 32
      → v < 2 ^ width
      → Ors m (writeto v m base width i) (8 * base + i * width) v
  unfolding writeto
  writeto-Ors pos wide small p =
      let k = i * width / 2 ^ 5 in
      let ls = i * width - k * 2 ^ 5 in
      let place : 8 * base + i * width ≡ 8 * base + (32 * k + ls) = omega arith in
      rw place (elim (dec_lt 32 (ls + width)) [
        | yes over ↦
            let next : (i * width + width - 1) / 2 ^ 5 ≡ k + 1 = omega arith in
            rw next
              (ground (arith, two_words-Ors v m base width k ls h small over (omega arith) wide p))
        | no near ↦
            let same : (i * width + width - 1) / 2 ^ 5 ≡ k = omega arith in
            rw same (ground (arith, one_word-Ors v m base width k ls h small (omega arith) p))
      ])
