-- ===== src/P4delta/Block/Compress.antt =====
-- `p4d_compress` makes a block of the differences of its array, and restores the array.
use native.Mathlib.Nat.{pow-le-pow_right}
use mathlib.Core.Path.{subst}
use native.Mathlib.Decide.{dec_lt}
use sample_code.Common.{
  ℕ, zero, suc, ◌+◌, ◌-◌, ◌*◌, ◌/◌, ◌%◌, ◌^◌, ◌≤◌, ◌<◌, ◌≡◌, ◌∙◌, refl, sym, ap, arith, All, List,
  [], ◌∷◌, length, update, ltb, leb, ◌&&◌, if◌then◌else◌, true,
}
use sample_code.Words.Bytes.{Memory, IsBytes, store32}
use sample_code.Unpack.Stream.{Array}
use sample_code.Common.Outcome.{done, value_or}
use sample_code.Codec.Block.{IsBlock, encoded-IsBlock}
use sample_code.IndexCompression.Delta.{get_delta_list}
use sample_code.IndexCompression.Delta.RoundTrip.{length-get_delta_list, get_delta_list-words}
use sample_code.IndexCompression.BitSize.{bound}
use sample_code.IndexCompression.BitSize.Bound.{
  IsBsr, sum_below, sum_below-update, entry-le-sum, size_loop-done, sum_below_zero,
}
use sample_code.IndexCompression.Class.Compression.{narrow-IsCodable}
use sample_code.P4delta.Delta.{p4d_delta, p4d_de_delta}
use sample_code.P4delta.Delta.Laws.{p4d_delta-get_delta_list, p4d_de_delta-p4d_delta}
use sample_code.P4delta.Varint.{IsVarint, varint_exceptions, varint_exceptions-IsExceptionStore}
use sample_code.P4delta.Block.{
  Platform, Compressed, p4d_count, p4d_get_bit_size, zero_words, exc_min_of, p4d_encode,
  p4d_compress,
}

-- `align_int( x, a )` is the least multiple of `a` that is not below `x`.
abbrev pub IsAlign : (ℕ → ℕ → ℕ) → Type 0
IsAlign align_int = (x a : ℕ) → 0 < a → align_int x a ≡ (x + (a - 1)) / a * a

-- What is documented of the parts that the repository does not hold.
pub record IsPlatform (platform : Platform) : Type 0 where
  pub bsr_law : IsBsr platform.bsr
  pub align_law : IsAlign platform.align_int
  pub varint_law : IsVarint platform.varint

-- A difference that is not 0, and has at most `b` bits.
abbrev pub IsStep : ℕ → ℕ → Type 0
IsStep b d = (0 < d) × (d < 2 ^ b)

bsr-lt : (bsr : ℕ → ℕ) → IsBsr bsr → (b d : ℕ) → b ≤ 32 → IsStep b d → bsr d < b
bsr-lt bsr law b d narrow (pos, h) = elim (dec_lt (bsr d) b) [
  | yes p ↦ p
  | no p ↦
      let top : 2 ^ b ≤ 2 ^ 32 = pow-le-pow_right {n = 2} (omega arith) narrow in
      absurd (
        omega (
          arith,
          (law d pos (omega arith)).0,
          pow-le-pow_right {n = 2} (omega arith) {i = b} {j = bsr d} (omega arith),
        ))
]

-- Every value is counted once, in an entry of the table.
p4d_count-done :
    (bsr : ℕ → ℕ)
    → IsBsr bsr
    → (b : ℕ) (ds : List ℕ) (list : Array) → b ≤ 32
    → All (IsStep b) ds
    → sum_below b list + length ds < 256
    → (r : Array) × (p4d_count bsr ds list ≡ done r)
      × (sum_below b r ≡ sum_below b list + length ds)
unfolding p4d_count
p4d_count-done bsr law b [] list narrow h small = (list, refl, omega arith)
p4d_count-done bsr law b (d ∷ ds) list narrow (hd, hds) small =
    let k = bsr d in
    let below : k < b = bsr-lt bsr law b d narrow hd in
    let wrap : (list k + 1) % 2 ^ 8 ≡ list k + 1 = omega (arith, entry-le-sum b list k below) in
    let v = (list k + 1) % 2 ^ 8 in
    let one = sum_below-update b list k v below in
    let (r, ends, sum) =
      p4d_count-done bsr law b ds (update list k v) narrow hds (omega (arith, one, wrap)) in
    let inside : ltb k 32 ≡ true = ground arith in
    (r, rw inside ends, omega (arith, one, sum, wrap))

-- For 1 to 127 differences that are not 0 and are below 2 ^ b, p4d_getBitSize stays inside its
-- table and gives a width from 1 to b.
pub p4d_get_bit_size-done :
    (bsr : ℕ → ℕ)
    → IsBsr bsr
    → (b : ℕ) (ds : List ℕ) → b ≤ 32
    → 1 ≤ length ds
    → length ds ≤ 127
    → All (IsStep b) ds
    → (r : ℕ) × (p4d_get_bit_size bsr ds ≡ done r) × (1 ≤ r) × (r ≤ b)
unfolding p4d_get_bit_size
p4d_get_bit_size-done bsr law b ds narrow filled few h =
    let (list, counted, sum) =
      p4d_count-done bsr law b ds (λ k. 0) narrow h (omega (arith, sum_below_zero b)) in
    let start : 0 < bound (length ds) = ground arith in
    let within : bound (length ds) ≤ length ds = ground arith in
    let (r, ends, r_le, _, moved) =
      size_loop-done b 32 0 (bound (length ds)) list (omega arith) (omega arith)
        (omega (arith, sum, sum_below_zero b, within)) in
    (r, rw counted ends, moved start, r_le)

store32_zero :
    (m : Memory) (p a : ℕ) → store32 m p 0 a ≡ (if leb p a && ltb a (p + 4) then 0 else m a)
unfolding store32
store32_zero m p a = ground arith

zero_words_at :
    (n i : ℕ) (m : Memory) (a : ℕ)
    → zero_words n i m a ≡ (if leb (1 + 4 * i) a && ltb a (1 + 4 * (i + n)) then 0 else m a)
unfolding zero_words
zero_words_at zero i m a = ground arith
zero_words_at (suc n) i m a =
    ground
      (arith, zero_words_at n (i + 1) (store32 m (1 + 4 * i) 0) a, store32_zero m (1 + 4 * i) a)

module _ (platform : Platform) (law : IsPlatform platform) where
  open platform use {bsr, wide, align_int, varint}

  pub p4d_encode-IsBlock :
      (ds : List ℕ) (w : ℕ) (buf : Memory)
      → IsBytes buf
      → 1 ≤ w
      → w ≤ 30
      → 1 ≤ length ds
      → length ds ≤ 127
      → All (λ d. d < 2 ^ 32) ds
      → let r = p4d_encode platform ds w buf in
        IsBlock (varint_exceptions varint) r.buf w (1 + (w * (length ds + 1) + 7) / 8) r.size ds
  unfolding p4d_encode
  p4d_encode-IsBlock ds w buf h pos narrow filled few words =
      let n = length ds in
      let ceil = (w * (n + 1) + 7) / 8 in
      let fields : align_int (w * (n + 1)) 8 / 2 ^ 3 ≡ ceil =
        rw (law.align_law (w * (n + 1)) 8 (omega arith)) (omega arith) in
      let ec_num = (ceil + 3) / 4 in
      let cells : align_int ceil 4 / 2 ^ 2 ≡ ec_num =
        rw (law.align_law ceil 4 (omega arith)) (omega arith) in
      let first = update buf 0 (w % 2 ^ 8) in
      let m = zero_words ec_num 0 first in
      let cleared : (a : ℕ) → m a ≡ (if leb 1 a && ltb a (1 + 4 * ec_num) then 0 else first a) =
        λ a. zero_words_at ec_num 0 first a ∙ ground arith in
      let small : w * (n + 1) ≤ 30 * 128 = grind arith in
      let room : 8 + (n + 1) * w ≤ 8 * (1 + ceil) = omega arith in
      rw (fields, cells)
        (encoded-IsBlock (varint_exceptions varint)
          (varint_exceptions-IsExceptionStore varint law.varint_law) w (exc_min_of wide w) n
          (narrow-IsCodable wide w n pos narrow filled few) m (λ a. ground (arith, cleared a, h a))
          (1 + ceil) ds refl words (ground (arith, cleared 0))
          (λ a lo hi. ground (arith, cleared a)) room)

  -- If the differences of 1 to 127 ids are not 0, and p4d_getBitSize chooses a width up to 30 for
  -- them, p4d_compress makes a block of that width that represents the differences, and leaves the
  -- array as it was.
  pub p4d_compress-IsBlock :
      (docs : List ℕ) (buf : Memory) (w : ℕ)
      → IsBytes buf
      → 1 ≤ length docs
      → length docs ≤ 127
      → All (λ d. d < 2 ^ 32) docs
      → All (IsStep 32) (get_delta_list 0 docs).0
      → p4d_get_bit_size bsr (get_delta_list 0 docs).0 ≡ done w
      → w ≤ 30
      → (r : Compressed) × (p4d_compress platform docs buf ≡ done r)
        × (r.in_arr ≡ docs)
        × IsBlock
            (varint_exceptions varint)
            r.buf
            w
            (1 + (w * (length docs + 1) + 7) / 8)
            r.size
            (get_delta_list 0 docs).0
  unfolding p4d_compress p4d_encode
  p4d_compress-IsBlock docs buf w h filled few words small sized narrow =
      let ds = (get_delta_list 0 docs).0 in
      let len : length ds ≡ length docs = length-get_delta_list 0 docs in
      let deltas : p4d_delta docs ≡ ds = p4d_delta-get_delta_list docs in
      let (v, found, least, _) =
        p4d_get_bit_size-done bsr law.bsr_law 32 ds (omega arith) (omega arith) (omega arith)
          small in
      let same : v ≡ w = ap (value_or 0) (sym found ∙ sized) in
      let pos : 1 ≤ w = omega (arith, same, least) in
      let result =
        p4d_encode-IsBlock ds w buf h pos narrow (omega arith) (omega arith)
          (get_delta_list-words 0 docs) in
      let r = p4d_encode platform ds w buf in
      let back : p4d_de_delta ds ≡ docs =
        ap p4d_de_delta (sym deltas) ∙ p4d_de_delta-p4d_delta docs words in
      (
        r,
        rw (deltas, sized) refl,
        back,
        subst
            (λ k. IsBlock (varint_exceptions varint) r.buf w (1 + (w * (k + 1) + 7) / 8) r.size ds)
            len result,
      )
