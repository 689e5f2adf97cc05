-- ===== src/IndexCompression/BitSize/Bound.antt =====
-- `getBitSize` ends inside its table, with a width that the widest value bounds.
use native.Mathlib.Nat.{pow-le-pow_right, le_refl}
use native.Mathlib.Numerals.{add-one}
use native.Mathlib.Decide.{dec_lt}
use sample_code.Common.{
  ℕ, zero, suc, ◌+◌, ◌-◌, ◌%◌, ◌^◌, ◌≤◌, ◌<◌, ◌≡◌, ◌≢◌, ap, refl, arith, ltb, ◌==◌, Bool-cases, inl,
  inr, All, List, [], ◌∷◌, length, update,
}
use sample_code.Unpack.Stream.{Array}
use sample_code.Common.Outcome.{done}
use sample_code.IndexCompression.BitSize.{get_bits, count_bits, size_loop, bound, get_bit_size}

-- The documented result of `bsrl`, for a 32-bit operand that is not 0.
abbrev pub IsBsr : (ℕ → ℕ) → Type 0
IsBsr bsr = (v : ℕ) → 0 < v → v < 2 ^ 32 → (2 ^ bsr v ≤ v) × (v < 2 ^ (bsr v + 1))

abbrev pub sum_below : ℕ → Array → ℕ
sum_below zero a = 0
sum_below (suc n) a = sum_below n a + a n

sum_below_ext :
    (n : ℕ) (a b : Array) → ((k : ℕ) → k < n → a k ≡ b k) → sum_below n a ≡ sum_below n b
sum_below_ext zero a b h = refl
sum_below_ext (suc n) a b h =
    omega (arith, sum_below_ext n a b (λ k p. h k (omega arith)), h n (omega arith))

pub sum_below-update :
    (n : ℕ) (a : Array) (k v : ℕ) → k < n → sum_below n (update a k v) + a k ≡ sum_below n a + v
sum_below-update zero a k v h = absurd (omega arith)
sum_below-update (suc n) a k v h = elim (dec_lt k n) [
  | yes p ↦ ground (arith, sum_below-update n a k v p)
  | no p ↦
      let same : sum_below n (update a k v) ≡ sum_below n a =
        sum_below_ext n (update a k v) a (λ i q. ground arith) in
      let here : k ≡ n = omega arith in ground (arith, same, here)
]

pub entry-le-sum : (n : ℕ) (a : Array) (k : ℕ) → k < n → a k ≤ sum_below n a
entry-le-sum zero a k h = absurd (omega arith)
entry-le-sum (suc n) a k h = elim (dec_lt k n) [
  | yes p ↦ omega (arith, entry-le-sum n a k p)
  | no p ↦ let here : k ≡ n = omega arith in ground (arith, here)
]

sum_below_next : (n : ℕ) (a : Array) → sum_below (n + 1) a ≡ sum_below n a + a n
sum_below_next n a = rw add-one

sum_below_mono : (m n : ℕ) (a : Array) → m ≤ n → sum_below m a ≤ sum_below n a
sum_below_mono m zero a h = let e : m ≡ 0 = omega arith in rw e (le_refl _)
sum_below_mono m (suc n) a h = elim (dec_lt m (suc n)) [
  | yes p ↦ omega (arith, sum_below_mono m n a (omega arith))
  | no p ↦ let e : m ≡ suc n = omega arith in rw e (le_refl _)
]

module _ (bsr : ℕ → ℕ) (law : IsBsr bsr) where
  -- A value below 2 ^ b has at most b bits.
  get_bits-le : (b v : ℕ) → 1 ≤ b → b ≤ 32 → v < 2 ^ b → get_bits bsr v ≤ b
  unfolding get_bits
  get_bits-le b v pos narrow h = elim (dec_lt b (bsr v + 1)) [
    | yes wide ↦ elim (Bool-cases (v == 0)) [
      | inl z ↦ ground arith
      | inr nz ↦
          let top : 2 ^ b ≤ 2 ^ 32 = pow-le-pow_right {n = 2} (omega arith) narrow in
          absurd (
            omega (
              arith,
              (law v (ground arith) (omega arith)).0,
              pow-le-pow_right {n = 2} (omega arith) {i = b} {j = bsr v} (omega arith),
            ))
    ]
    | no narrow_enough ↦ ground arith
  ]

  get_bits-pos : (v : ℕ) → 1 ≤ get_bits bsr v
  unfolding get_bits
  get_bits-pos v = ground arith

  -- Every value is counted once, below its bound; the counters do not wrap.
  pub sum-count_bits :
      (b : ℕ) (ds : List ℕ) (a : Array)
      → 1 ≤ b
      → b ≤ 32
      → All (λ d. d < 2 ^ b) ds
      → sum_below b a + length ds < 256
      → sum_below b (count_bits bsr ds a) ≡ sum_below b a + length ds
  unfolding count_bits
  sum-count_bits b [] a pos narrow h small = omega arith
  sum-count_bits b (d ∷ ds) a pos narrow (hd, hds) small =
      let k = get_bits bsr d - 1 in
      let below : k < b = omega (arith, get_bits-le b d pos narrow hd, get_bits-pos d) in
      let wrap : (a k + 1) % 2 ^ 8 ≡ a k + 1 = omega (arith, entry-le-sum b a k below) in
      let one = sum_below-update b a k (a k + 1) below in
      rw wrap (
        omega (
          arith,
          one,
          sum-count_bits b ds (update a k (a k + 1)) pos narrow hds (omega (arith, one)),
        ))

-- The loop ends before it passes the counters.
pub size_loop-done :
    (b left size offset : ℕ) (a : Array)
    → b ≤ size + left
    → size ≤ b
    → offset + sum_below size a ≤ sum_below b a
    → (r : ℕ) × (size_loop left size offset a ≡ done r)
      × (r ≤ b)
      × (size ≤ r)
      × (0 < offset → size < r)
unfolding size_loop
size_loop-done b zero size offset a h le sum =
    let e : size ≡ b = omega arith in
    let z : offset ≡ 0 = omega (arith, ap (λ (t : ℕ). sum_below t a) e) in
    (size, ground arith, le, le_refl _, λ p. absurd (omega arith))
size_loop-done b (suc left) size offset a h le sum = elim (Bool-cases (ltb 0 offset)) [
  | inl more ↦
      let apart : size ≢ b = λ e. absurd (ground (arith, ap (λ (t : ℕ). sum_below t a) e)) in
      let below : size < b = omega arith in
      let (r, ends, r_le, size_le, _) =
        size_loop-done b left (size + 1) (offset - a size) a (omega arith) (omega arith)
          (omega (arith, sum_below_next size a, sum_below_mono (size + 1) b a (omega arith))) in
      (r, rw more ends, r_le, omega arith, λ p. omega arith)
  | inr over ↦ (size, rw over, le, le_refl _, λ p. absurd (ground arith))
]

pub sum_below_zero : (n : ℕ) → sum_below n (λ k. 0) ≡ 0
sum_below_zero zero = refl
sum_below_zero (suc n) = omega (arith, sum_below_zero n)

-- For a block of 1 to 127 differences below 2 ^ b, `getBitSize` ends within its table of 32
-- counters and gives a width from 1 to b.
pub get_bit_size-done :
    (bsr : ℕ → ℕ)
    → IsBsr bsr
    → (b : ℕ) (ds : List ℕ) → 1 ≤ b
    → b ≤ 32
    → 1 ≤ length ds
    → length ds ≤ 127
    → All (λ d. d < 2 ^ b) ds
    → (r : ℕ) × (get_bit_size bsr ds ≡ done r) × (1 ≤ r) × (r ≤ b)
unfolding get_bit_size
get_bit_size-done bsr law b ds pos wide some few h =
    let counted =
      sum-count_bits bsr law b ds (λ k. 0) pos wide h (omega (arith, sum_below_zero b)) in
    let start : 0 < bound (length ds) = ground arith in
    let within : bound (length ds) ≤ length ds = ground arith in
    let (r, ends, r_le, _, moved) =
      size_loop-done b 32 0 (bound (length ds)) (count_bits bsr ds (λ k. 0)) (omega arith)
        (omega arith) (omega (arith, counted, sum_below_zero b, within)) in
    (r, ends, moved start, r_le)
