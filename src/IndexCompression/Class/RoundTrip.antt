-- ===== src/IndexCompression/Class/RoundTrip.antt =====
-- Compression and decompression together, the size of a block, and where the chain breaks.
use sample_code.Common.{
  ℕ, suc, ◌+◌, ◌-◌, ◌*◌, ◌%◌, ◌^◌, ◌≤◌, ◌<◌, ◌≡◌, arith, All, List, [], ◌∷◌, length, slice_from,
}
use sample_code.Words.Bytes.{IsBytes}
use sample_code.Unpack.Stream.{Array}
use sample_code.Common.Outcome.{done, fault}
use sample_code.Codec.Encoder.{EncodeState, encode_values, encode_one}
use sample_code.IndexCompression.Delta.{get_delta_list}
use sample_code.IndexCompression.BitSize.{get_bit_size}
use sample_code.IndexCompression.BitSize.Bound.{IsBsr}
use sample_code.IndexCompression.Class.{
  IndexCompression, maxentry_of, encode, compression, decompression, restore,
}
use sample_code.IndexCompression.Class.Compression.{compression-IsBlock}
use sample_code.IndexCompression.Class.Decompression.{decompression-block}
use sample_code.IndexCompression.Class.Exceptions.{Tail, addexcept, index_exceptions}

-- An object whose m_lastDecode is 0 gets back the list of 1 to 127 ids that any object compressed
-- with four bytes to an exception, if each id is a uint32_t and getBitSize chooses a width up to
-- 30 for the differences, some of which may need more bits: both methods return, and m_resultList
-- holds the ids from index 1 on.
pub decompression-compression :
    (bsr : ℕ → ℕ) (wide : ℕ) (s s' : IndexCompression) (docs : List ℕ) (w : ℕ)
    → IsBsr bsr
    → IsBytes s.m_buf
    → IsBytes s'.m_unpack_buf
    → s'.m_last_decode ≡ 0
    → 1 ≤ length docs
    → length docs ≤ 127
    → All (λ d. d < 2 ^ 32) docs
    → get_bit_size bsr (get_delta_list 0 docs).0 ≡ done w
    → w ≤ 30
    → (c : IndexCompression) × (r : IndexCompression) × (compression bsr wide s docs 4
        ≡ done (c, (get_delta_list 0 docs).0))
      × (decompression s' c.m_buf (length docs) 4 ≡ done r)
      × (slice_from r.m_result_list 1 (length docs) ≡ docs)
decompression-compression bsr wide s s' docs w law h h' start filled few words sized narrow =
    let (c, compressed, block) =
      compression-IsBlock bsr law wide s docs w h filled few sized narrow in
    let (r, returns, ids, _) =
      decompression-block s' c.m_buf w c.m_offset docs h' (omega arith) words few
        (rw start block) in
    (c, r, compressed, returns, ids)

module _ (base w e : ℕ) where
  -- Each value adds at most one exception of four bytes.
  offset_grows :
      (ds : List ℕ) (s : EncodeState Tail)
      → (encode_values (index_exceptions 4) base w e ds s).excepts.m_offset
        ≤ s.excepts.m_offset + 4 * length ds
  unfolding encode_values encode_one addexcept
  offset_grows [] s = omega arith
  offset_grows (d ∷ ds) s =
      ground (arith, offset_grows ds (encode_one (index_exceptions 4) base w e d s))

-- Whatever the values are, a block of `n` of them, encoded with a width up to 32, takes at most
-- `(n + 1) * 8` bytes, the room that m_buf has for 127.
pub encode_size :
    (bsr : ℕ → ℕ) (wide : ℕ) (s : IndexCompression) (ds : List ℕ) (w : ℕ)
    → s.m_offset ≡ 0
    → w ≤ 32
    → (encode bsr wide ds w 4 s).m_offset ≤ (length ds + 1) * 8
unfolding encode
encode_size bsr wide s ds w start narrow =
    let product : w * (length ds + 1) ≤ 32 * (length ds + 1) = grind arith in
    omega (arith, product, offset_grows 1 w (maxentry_of wide w) ds _)

-- The mark 2 ^ 31 - 1, which ends the chain of exceptions of a block of width 31, makes the int
-- `shift` negative: from an exception at place 1 or later that holds it, the loop goes on and reads
-- outside m_resultList.
pub restore_wide_mark :
    (next : ℕ → ℕ × ℕ) (fuel n i nx ptr : ℕ) (res : Array)
    → n ≤ 127
    → 1 ≤ i + nx
    → i + nx ≤ n
    → res (i + nx) ≡ 2 ^ 31 - 1
    → restore next (suc (suc fuel)) n i nx (i + nx) ptr res ≡ fault
unfolding restore
restore_wide_mark next fuel n i nx ptr res few pos le mark =
    let here : (i + nx) % 2 ^ 32 ≡ i + nx = omega arith in rw (here, mark) (ground arith)
