-- ===== src/P4delta/Block.antt =====
-- `p4d_getBitSize`, `p4d_compress` and `p4d_uncompress`. `bsr` is the instruction `bsrl`, `wide`
-- is what `1u << 32` gives, which C++ leaves undefined, and `align_int` rounds up to a multiple
-- (util/common.h, not in the repository).
pub mod Compress
pub mod Uncompress
use sample_code.Common.{
  ℕ, zero, suc, ◌+◌, ◌-◌, ◌*◌, ◌/◌, ◌%◌, ◌^◌, ◌≡◌, ◌<◌, ltb, if◌then◌else◌, Option, none, some,
  List, [], ◌∷◌, length, update,
}
use sample_code.Words.Bytes.{Memory, store32}
use sample_code.Unpack.Stream.{Array}
use sample_code.Common.Outcome.{Outcome, done, fault, stuck, ◌>>=◌}
use sample_code.Codec.Encoder.{encode_values, close}
use sample_code.Codec.Patch.{patch}
use sample_code.Codec.Codes.{codes}
use sample_code.IndexCompression.BitSize.{size_loop, bound}
use sample_code.P4delta.Delta.{p4d_delta, p4d_de_delta, shift_rounds}
use sample_code.P4delta.Switch.{switch_unpack}
use sample_code.P4delta.Varint.{Varint, varint_exceptions}

-- What util/common.h and the machine provide.
pub record Platform : Type 0 where
  pub bsr : ℕ → ℕ
  pub wide : ℕ
  pub align_int : ℕ → ℕ → ℕ
  pub varint : Varint

-- `list[ bits ] ++` for each value, with `bits` from `bsrl`; the table has 32 entries of a byte.
unfoldable pub p4d_count : (ℕ → ℕ) → List ℕ → Array → Outcome Array
p4d_count bsr [] list = done list
p4d_count bsr (d ∷ ds) list =
    let b = bsr d in
    let rest = p4d_count bsr ds (update list b ((list b + 1) % 2 ^ 8)) in
    if ltb b 32 then rest else fault

-- The table is walked as in `getBitSize` of IndexCompression.cpp.
unfoldable pub p4d_get_bit_size : (ℕ → ℕ) → List ℕ → Outcome ℕ
p4d_get_bit_size bsr ds = do
  list ← p4d_count bsr ds (λ k. 0)
  size_loop 32 0 (bound (length ds)) list

-- `encode[ i ] = 0` for `n` words from word `i` on.
unfoldable pub zero_words : ℕ → ℕ → Memory → Memory
zero_words zero i m = m
zero_words (suc n) i m = zero_words n (i + 1) (store32 m (1 + 4 * i) 0)

abbrev pub exc_min_of : ℕ → ℕ → ℕ
exc_min_of wide bit_size =
    if ltb bit_size 32 then 2 ^ bit_size - 1 else (wide + 2 ^ 32 - 1) % 2 ^ 32

-- What `p4d_compress` writes and returns.
pub record Compressed : Type 0 where
  pub buf : Memory
  pub in_arr : List ℕ
  pub size : ℕ

module _ (platform : Platform) where
  open platform use {bsr, wide, align_int, varint}

  unfoldable pub p4d_encode : List ℕ → ℕ → Memory → Compressed
  p4d_encode ds bit_size buf =
      let exc_min = exc_min_of wide bit_size in
      let exc_oft = align_int (bit_size * (length ds + 1)) 8 / 2 ^ 3 in
      let ec_num = align_int exc_oft 4 / 2 ^ 2 in
      let ops = varint_exceptions varint in
      let cleared = zero_words ec_num 0 (update buf 0 (bit_size % 2 ^ 8)) in
      let run =
        encode_values ops 1 bit_size exc_min ds
          (record { buf = cleared; excepts = 1 + exc_oft; last = none; idx = 0 }) in
      record {
        buf = close ops 1 bit_size exc_min run.last run.buf;
        in_arr = p4d_de_delta ds;
        size = run.excepts;
      }

  unfoldable pub p4d_compress : List ℕ → Memory → Outcome Compressed
  p4d_compress in_arr buf = do
    let ds = p4d_delta in_arr
    bit_size ← p4d_get_bit_size bsr ds
    done (p4d_encode ds bit_size buf)

  -- The output array and the place behind the block.
  unfoldable pub p4d_uncompress : Memory → ℕ → Array → Outcome (Array × ℕ)
  p4d_uncompress cmp_data num out_arr = do
    let bit_size = cmp_data 0
    let exc_oft = align_int (bit_size * (num + 1)) 8 / 2 ^ 3
    let out = switch_unpack bit_size out_arr (codes cmp_data 1) (align_int num 32)
    (out', excepts) ← patch (varint.decode cmp_data) (num + 1) num (out 0) (1 + exc_oft) out
    done (shift_rounds (num / 4) (num % 4) 0 0 out', excepts)
