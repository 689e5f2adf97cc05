-- ===== src/IndexCompression/Class/Compression.antt =====
-- `compression` makes a block of the differences of its list.
use native.Mathlib.Nat.{pow-le-pow_right, one-le-pow}
use mathlib.Core.Path.{subst, ap, sym, ◌∙◌}
use sample_code.Common.{
  ℕ, ◌+◌, ◌-◌, ◌*◌, ◌%◌, ◌^◌, ◌≤◌, ◌<◌, ◌≡◌, refl, arith, All, none, List, [], ◌∷◌, length, update,
  leb, ◌==◌, ◌||◌, true, all_below, all_below_sound,
}
use sample_code.Words.Bytes.{IsBytes}
use sample_code.Common.Outcome.{done, value_or}
use sample_code.Codec.Encoder.{EncodeState, encode_values, encode_one}
use sample_code.Codec.Encoder.Invariant.{IsCodable}
use sample_code.Codec.Block.{IsBlock, encoded-IsBlock}
use sample_code.IndexCompression.Delta.{get_delta_list}
use sample_code.IndexCompression.Delta.RoundTrip.{length-get_delta_list, get_delta_list-words}
use sample_code.IndexCompression.BitSize.{get_bit_size}
use sample_code.IndexCompression.BitSize.Bound.{IsBsr, get_bit_size-done}
use sample_code.IndexCompression.Class.{
  IndexCompression, maxentry_of, ceil_offset, memset, encode, compression,
}
use sample_code.IndexCompression.Class.Exceptions.{
  Tail, addexcept, index_exceptions, index_exceptions-IsExceptionStore,
}

-- The low byte of `2 ^ w - 1` is the number itself, or all ones.
low_byte_table : all_below 31 (λ w. leb (2 ^ w - 1) 255 || (2 ^ w - 1) % 2 ^ 8 == 255) ≡ true
unfolding all_below
low_byte_table = refl

-- Up to width 30 the encoder's bounds hold for every block of 1 to 127 values.
pub narrow-IsCodable :
    (wide w n : ℕ) → 1 ≤ w → w ≤ 30 → 1 ≤ n → n ≤ 127 → IsCodable w (maxentry_of wide w) n
narrow-IsCodable wide w n pos narrow filled few =
    let top : 2 ^ w ≤ 2 ^ 30 = pow-le-pow_right {n = 2} (omega arith) narrow in
    let bottom : 1 ≤ 2 ^ w = one-le-pow w 2 (omega arith) in
    let entry : maxentry_of wide w ≡ 2 ^ w - 1 = ground arith in
    let byte = all_below_sound _ low_byte_table w (omega arith) in
    rw entry (record {
      pos = pos;
      wide = omega arith;
      fits = omega arith;
      some_values = filled;
      marked = λ h. ground (arith, byte);
      in_range = omega arith;
    })

module _ (ops_bytes base w e : ℕ) where
  -- `m_offset` moves with the exceptions' pointer.
  offsets_agree :
      (ds : List ℕ) (s : EncodeState Tail)
      → s.excepts.m_offset ≡ s.excepts.excepts
      → let r = encode_values (index_exceptions ops_bytes) base w e ds s in
        r.excepts.m_offset ≡ r.excepts.excepts
  unfolding encode_values encode_one addexcept
  offsets_agree [] s h = h
  offsets_agree (d ∷ ds) s h =
      offsets_agree ds (encode_one (index_exceptions ops_bytes) base w e d s) (ground arith)

module _ (bsr : ℕ → ℕ) (law : IsBsr bsr) (wide : ℕ) where
  -- `encode` on memory that was cleared.
  pub encode-IsBlock :
      (s : IndexCompression) (ds : List ℕ) (w : ℕ)
      → IsBytes s.m_buf
      → s.m_offset ≡ 0
      → ((a : ℕ) → a < 1024 → s.m_buf a ≡ 0)
      → 1 ≤ w
      → w ≤ 30
      → 1 ≤ length ds
      → length ds ≤ 127
      → All (λ d. d < 2 ^ 32) ds
      → let r = encode bsr wide ds w 4 s in
        IsBlock (index_exceptions 4) r.m_buf w (1 + ceil_offset w (length ds)) r.m_offset ds
  unfolding encode
  encode-IsBlock s ds w h start zeros pos narrow filled few words =
      let n = length ds in
      let e = maxentry_of wide w in
      let ops = index_exceptions 4 in
      let c = narrow-IsCodable wide w n pos narrow filled few in
      let m = update s.m_buf 0 (w % 2 ^ 8) in
      let x : Tail = record {
        excepts = 1 + ceil_offset w n;
        m_offset = s.m_offset + 1 + ceil_offset w n;
      } in
      let agree =
        offsets_agree 4 1 w e ds (record { buf = m; excepts = x; last = none; idx = 0 })
          (omega arith) in
      let room : 8 + (n + 1) * w ≤ 8 * (1 + ceil_offset w n) = omega arith in
      let small : (n + 1) * w ≤ 128 * 30 = grind arith in
      rw agree (
        encoded-IsBlock ops index_exceptions-IsExceptionStore w e n c m (λ a. ground (arith, h a)) x
          ds refl words (ground arith) (λ a lo hi. ground (arith, zeros a)) room)

  -- If getBitSize chooses a width up to 30 for the differences of 1 to 127 ids, compression makes a
  -- block of that width that represents the differences, and getCompSize is the size of the block.
  pub compression-IsBlock :
      (s : IndexCompression) (docs : List ℕ) (w : ℕ)
      → IsBytes s.m_buf
      → 1 ≤ length docs
      → length docs ≤ 127
      → get_bit_size bsr (get_delta_list 0 docs).0 ≡ done w
      → w ≤ 30
      → (r : IndexCompression) × (compression bsr wide s docs 4
          ≡ done (r, (get_delta_list 0 docs).0))
        × IsBlock
            (index_exceptions 4)
            r.m_buf
            w
            (1 + ceil_offset w (length docs))
            r.m_offset
            (get_delta_list 0 docs).0
  unfolding compression
  compression-IsBlock s docs w h filled few sized narrow =
      let ds = (get_delta_list 0 docs).0 in
      let len : length ds ≡ length docs = length-get_delta_list 0 docs in
      let (v, found, least, _) =
        get_bit_size-done bsr law 32 ds (omega arith) (omega arith) (omega arith) (omega arith)
          (get_delta_list-words 0 docs) in
      let same : v ≡ w = ap (value_or 0) (sym found ∙ sized) in
      let pos : 1 ≤ w = omega (arith, same, least) in
      let s' = record s {
        m_offset = 0;
        m_buf = memset 1024 s.m_buf;
        m_last_encode = (get_delta_list 0 docs).1;
      } in
      let result =
        encode-IsBlock s' ds w (λ a. unfold memset in ground (arith, h a)) refl
          (λ a lt. unfold memset in ground arith) pos narrow (omega arith) (omega arith)
          (get_delta_list-words 0 docs) in
      let r = encode bsr wide ds w 4 s' in
      (
        r,
        rw sized,
        subst (λ k. IsBlock (index_exceptions 4) r.m_buf w (1 + ceil_offset w k) r.m_offset ds) len
            result,
      )
