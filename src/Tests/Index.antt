-- ===== src/Tests/Index.antt =====
-- The class IndexCompression at small lists.
use sample_code.Common.{
  ℕ, ◌+◌, ◌-◌, ◌*◌, ◌^◌, ◌≤◌, ◌<◌, ◌≡◌, refl, arith, ap, ltb, leb, max, if◌then◌else◌, All, some,
  List, [], ◌∷◌, get_or, slice_from,
}
use sample_code.Words.Bits.{bit}
use sample_code.Words.Bytes.{Memory, IsBytes, memory_bit}
use sample_code.Unpack.Stream.{Array}
use sample_code.Unpack.Rounds.{IsUnpacker}
use sample_code.Common.Outcome.{done, fault}
use sample_code.Codec.Writeto.{writeto}
use sample_code.Codec.Writeto.Bits.{writeto-Ors}
use sample_code.Codec.Block.{IsBlock}
use sample_code.Codec.Patch.{patch}
use sample_code.IndexCompression.Delta.{get_delta_list, de_delta}
use sample_code.IndexCompression.Delta.RoundTrip.{de_delta-get_delta_list}
use sample_code.IndexCompression.BitSize.{get_bit_size, size_loop, count_bits, get_bits}
use sample_code.IndexCompression.BitSize.Bound.{get_bit_size-done}
use sample_code.IndexCompression.Class.{
  IndexCompression, get_comp_size, clear_decode, ceil_offset, encode, compression, decompression,
  restore,
}
use sample_code.IndexCompression.Class.Table.{Unpacker, entry, unpacktable, unpacktable-IsUnpacker}
use sample_code.IndexCompression.Class.Exceptions.{index_exceptions}
use sample_code.IndexCompression.Class.Compression.{compression-IsBlock, encode-IsBlock}
use sample_code.IndexCompression.Class.Decompression.{decompression-block, restore-eq-patch}
use sample_code.IndexCompression.Class.RoundTrip.{decompression-compression, restore_wide_mark}
use sample_code.IndexCompression.Class.Room.{compression_room}
use sample_code.IndexCompression.Class.Carry.{moved, decompression-moved}
use sample_code.Tests.Machine.{high_bit, bsr, bsr-IsBsr}

abbrev empty : Memory
empty a = 0

empty-IsBytes : IsBytes empty
empty-IsBytes a = omega arith

abbrev fresh : IndexCompression
fresh = record {
  m_buf = empty;
  m_unpack_buf = empty;
  m_offset = 0;
  m_result_list = λ k. 0;
  m_last_encode = 0;
  m_last_decode = 0;
}

-- Three small differences, and one that does not fit their width.
abbrev docs : List ℕ
docs = 3 ∷ 10 ∷ 11 ∷ 3000000000 ∷ []

abbrev diffs : List ℕ
diffs = 3 ∷ 7 ∷ 1 ∷ 2999999989 ∷ []

diffs-get_delta_list : (get_delta_list 0 docs).0 ≡ diffs
unfolding get_delta_list
diffs-get_delta_list = refl

docs_words : All (λ d. d < 2 ^ 32) docs
docs_words = (omega arith, (omega arith, (omega arith, (omega arith, tt))))

diffs_words : All (λ d. d < 2 ^ 32) (get_delta_list 0 docs).0
unfolding get_delta_list
diffs_words = (omega arith, (omega arith, (omega arith, (omega arith, tt))))

diffs_size : get_bit_size bsr (get_delta_list 0 docs).0 ≡ done 3
unfolding get_delta_list get_bit_size size_loop count_bits get_bits high_bit
diffs_size = refl

decompression-compression_example :
    (c : IndexCompression) × (r : IndexCompression) × (compression bsr 1 fresh docs 4
      ≡ done (c, (get_delta_list 0 docs).0))
    × (decompression fresh c.m_buf 4 4 ≡ done r)
    × (slice_from r.m_result_list 1 4 ≡ docs)
decompression-compression_example =
    decompression-compression bsr 1 fresh fresh docs 3 bsr-IsBsr empty-IsBytes empty-IsBytes refl
      (omega arith) (omega arith) docs_words diffs_size (omega arith)

compression-IsBlock_example :
    (r : IndexCompression) × (compression bsr 1 fresh docs 4 ≡ done (r, (get_delta_list 0 docs).0))
    × IsBlock
        (index_exceptions 4)
        r.m_buf
        3
        (1 + ceil_offset 3 4)
        r.m_offset
        (get_delta_list 0 docs).0
compression-IsBlock_example =
    compression-IsBlock bsr bsr-IsBsr 1 fresh docs 3 empty-IsBytes (omega arith) (omega arith)
      diffs_size (omega arith)

-- The block of the differences with three bits to a field.
abbrev three_bits : IndexCompression
three_bits = encode bsr 1 (get_delta_list 0 docs).0 3 4 fresh

three_bits-IsBlock :
    IsBlock
      (index_exceptions 4)
      three_bits.m_buf
      3
      (1 + ceil_offset 3 4)
      three_bits.m_offset
      (get_delta_list 0 docs).0
unfolding get_delta_list
three_bits-IsBlock =
    encode-IsBlock bsr bsr-IsBsr 1 fresh (get_delta_list 0 docs).0 3 empty-IsBytes refl
      (λ a lt. refl) (omega arith) (omega arith) (omega arith) (omega arith) diffs_words

decompression-block_example :
    (r : IndexCompression) × (decompression fresh three_bits.m_buf 4 4 ≡ done r)
    × (slice_from r.m_result_list 1 4 ≡ docs)
    × (r.m_last_decode ≡ (get_delta_list 0 docs).1)
decompression-block_example =
    decompression-block fresh three_bits.m_buf 3 three_bits.m_offset docs empty-IsBytes
      (omega arith) docs_words (omega arith) three_bits-IsBlock

unpacktable-IsUnpacker_example : (f : Unpacker) × (entry unpacktable 7 ≡ some f) × IsUnpacker 7 f
unpacktable-IsUnpacker_example = unpacktable-IsUnpacker 7 (omega arith) (omega arith)

get_bit_size-done_example :
    (r : ℕ) × (get_bit_size bsr (get_delta_list 0 docs).0 ≡ done r) × (1 ≤ r) × (r ≤ 32)
unfolding get_delta_list
get_bit_size-done_example =
    get_bit_size-done bsr bsr-IsBsr 32 (get_delta_list 0 docs).0 (omega arith) (omega arith)
      (omega arith) (omega arith) diffs_words

compression_room_example :
    (r : IndexCompression) × (compression bsr 1 fresh docs 4 ≡ done (r, (get_delta_list 0 docs).0))
    × (get_comp_size r ≤ (4 + 1) * 8)
    × ((a : ℕ) → (4 + 1) * 8 ≤ a → r.m_buf a ≡ (if ltb a 1024 then 0 else empty a))
compression_room_example = compression_room bsr 1 fresh docs bsr-IsBsr (omega arith) (omega arith)

abbrev second : IndexCompression
second = record fresh { m_last_decode = 5000 }

decompression-moved_example :
    ((r : IndexCompression) × (decompression second three_bits.m_buf 4 4 ≡ done r)
      × (slice_from r.m_result_list 1 4 ≡ moved 5000 docs))
    × ((r : IndexCompression) × (decompression (clear_decode second) three_bits.m_buf 4 4 ≡ done r)
        × (slice_from r.m_result_list 1 4 ≡ docs))
decompression-moved_example =
    decompression-moved second three_bits.m_buf 3 three_bits.m_offset docs empty-IsBytes
      (omega arith) docs_words (omega arith) three_bits-IsBlock

-- Field 6 of five bits stands in bits 30 to 34, across two words.
writeto-Ors_example :
    memory_bit (writeto 21 empty 1 5 6) 42
    ≡ max (memory_bit empty 42) (if leb 38 42 then bit 21 (42 - 38) else 0)
writeto-Ors_example =
    writeto-Ors 21 empty 1 5 6 empty-IsBytes (omega arith) (omega arith) (omega arith) 42

abbrev unpacked_diffs : Array
unpacked_diffs k = get_or (get_delta_list 0 docs).0 (k - 1) 0

unpacked_diffs_at : (t : ℕ) → t < 4 → unpacked_diffs (1 + t) ≡ get_or (get_delta_list 0 docs).0 t 0
unpacked_diffs_at t lt =
    let back : 1 + t - 1 ≡ t = omega arith in
    ap (λ (k : ℕ). get_or (get_delta_list 0 docs).0 k 0) back

de_delta-get_delta_list_example : slice_from (de_delta 4 1 0 unpacked_diffs).0 1 4 ≡ docs
de_delta-get_delta_list_example =
    de_delta-get_delta_list docs 1 0 unpacked_diffs (omega arith) docs_words unpacked_diffs_at

restore_wide_mark_example : restore (λ p. (7, p + 4)) 2 2 0 1 1 9 (λ k. 2 ^ 31 - 1) ≡ fault
restore_wide_mark_example =
    restore_wide_mark (λ p. (7, p + 4)) 0 2 0 1 9 (λ k. 2 ^ 31 - 1) (omega arith) (omega arith)
      (omega arith) refl

restore-eq-patch_example :
    restore (λ p. (7, p + 4)) 3 2 0 1 1 9 (λ k. 0) ≡ patch (λ p. (7, p + 4)) 3 2 1 9 (λ k. 0)
restore-eq-patch_example =
    restore-eq-patch (λ p. (7, p + 4)) 3 2 0 1 1 9 (λ k. 0) (omega arith) refl
