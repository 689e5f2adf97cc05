-- ===== src/IndexCompression/BitSize.antt =====
-- `getBits` and `getBitSize`: the width that nine tenths of the differences fit. `bsr` is the
-- machine instruction `bsrl`, the place of the highest bit that is set.
pub mod Bound
use sample_code.Common.{
  ℕ, zero, suc, ◌+◌, ◌-◌, ◌*◌, ◌/◌, ◌%◌, ◌^◌, ltb, ◌==◌, if◌then◌else◌, List, [], ◌∷◌, length,
  update,
}
use sample_code.Unpack.Stream.{Array}
use sample_code.Common.Outcome.{Outcome, done, fault}

module _ (bsr : ℕ → ℕ) where
  unfoldable pub get_bits : ℕ → ℕ
  get_bits value = if value == 0 then 1 else bsr value + 1

  -- `m_bitsList[bits-1] ++` for each value; an entry is a byte.
  unfoldable pub count_bits : List ℕ → Array → Array
  count_bits [] bits_list = bits_list
  count_bits (d ∷ ds) bits_list =
      let b = get_bits d - 1 in count_bits ds (update bits_list b ((bits_list b + 1) % 2 ^ 8))

-- `while(offset > 0) offset -= m_bitsList[bitSize++];` with `left` entries behind `bitSize`.
-- `offset` is an int, and one below 0 ends the loop as 0 does.
unfoldable pub size_loop : ℕ → ℕ → ℕ → Array → Outcome ℕ
size_loop zero bit_size offset bits_list = if ltb 0 offset then fault else done bit_size
size_loop (suc left) bit_size offset bits_list =
    let rest = size_loop left (bit_size + 1) (offset - bits_list bit_size) bits_list in
    if ltb 0 offset then rest else done bit_size

-- `(int)((size > 1)?(size * BOUND_RATIO ) : 1)`, with 0.9 for BOUND_RATIO: the product in double
-- is cut to `size * 9 / 10` at every size of a block.
abbrev pub bound : ℕ → ℕ
bound size = if ltb 1 size then size * 9 / 10 else 1

unfoldable pub get_bit_size : (ℕ → ℕ) → List ℕ → Outcome ℕ
unfolding count_bits get_bits size_loop
get_bit_size bsr ds = size_loop 32 0 (bound (length ds)) (count_bits bsr ds (λ k. 0))
