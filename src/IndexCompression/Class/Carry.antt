-- ===== src/IndexCompression/Class/Carry.antt =====
-- What `m_lastDecode`, left by the block before, does to the ids of a block.
use sample_code.Common.{
  ℕ, suc, ◌+◌, ◌%◌, ◌^◌, ◌≤◌, ◌<◌, ◌≡◌, ◌∙◌, refl, sym, ap, ap₂, arith, All, List, [], ◌∷◌, length,
  slice_from,
}
use mathlib.Core.Path.{subst}
use sample_code.Words.Bytes.{Memory, IsBytes}
use sample_code.Common.Outcome.{done}
use sample_code.Codec.Block.{IsBlock}
use sample_code.IndexCompression.Delta.{get_delta_list}
use sample_code.IndexCompression.Class.{IndexCompression, ceil_offset, clear_decode, decompression}
use sample_code.IndexCompression.Class.Exceptions.{index_exceptions}
use sample_code.IndexCompression.Class.Decompression.{decompression-block}

-- Each id with `by` added, as uint32_t.
abbrev pub moved : ℕ → List ℕ → List ℕ
moved by [] = []
moved by (x ∷ xs) = (x + by) % 2 ^ 32 ∷ moved by xs

length-moved : (by : ℕ) (xs : List ℕ) → length (moved by xs) ≡ length xs
length-moved by [] = refl
length-moved by (x ∷ xs) = ap (λ (k : ℕ). suc k) (length-moved by xs)

moved-words : (by : ℕ) (xs : List ℕ) → All (λ d. d < 2 ^ 32) (moved by xs)
moved-words by [] = tt
moved-words by (x ∷ xs) = (omega arith, moved-words by xs)

-- The differences of the ids do not change, when the start moves with them.
get_delta_list-moved :
    (by : ℕ) (xs : List ℕ) (last : ℕ)
    → last < 2 ^ 32
    → All (λ d. d < 2 ^ 32) xs
    → (get_delta_list ((last + by) % 2 ^ 32) (moved by xs)).0 ≡ (get_delta_list last xs).0
unfolding get_delta_list
get_delta_list-moved by [] last small words = refl
get_delta_list-moved by (x ∷ xs) last small (hx, hxs) =
    ap₂ ◌∷◌ (omega arith) (get_delta_list-moved by xs x hx hxs)

-- An object decompresses the block of the differences of up to 127 ids, which start from 0, to the
-- ids with its m_lastDecode added to each, modulo 2 ^ 32; after clearDecode it gives the ids.
pub decompression-moved :
    (s : IndexCompression) (block : Memory) (w stop : ℕ) (docs : List ℕ)
    → IsBytes s.m_unpack_buf
    → s.m_last_decode < 2 ^ 32
    → All (λ d. d < 2 ^ 32) docs
    → length docs ≤ 127
    → IsBlock
        (index_exceptions 4)
        block
        w
        (1 + ceil_offset w (length docs))
        stop
        (get_delta_list 0 docs).0
    → ((r : IndexCompression) × (decompression s block (length docs) 4 ≡ done r)
        × (slice_from r.m_result_list 1 (length docs) ≡ moved s.m_last_decode docs))
      × ((r : IndexCompression) × (decompression (clear_decode s) block (length docs) 4 ≡ done r)
          × (slice_from r.m_result_list 1 (length docs) ≡ docs))
unfolding clear_decode
decompression-moved s block w stop docs h last words few b =
    let by = s.m_last_decode in
    let len = length-moved by docs in
    let start : (0 + by) % 2 ^ 32 ≡ by = omega arith in
    let same : (get_delta_list by (moved by docs)).0 ≡ (get_delta_list 0 docs).0 =
      ap (λ (l : ℕ). (get_delta_list l (moved by docs)).0) (sym start)
      ∙ get_delta_list-moved by docs 0 (omega arith) words in
    let b' : IsBlock (index_exceptions 4) block w (1 + ceil_offset w (length (moved by docs))) stop
        (get_delta_list by (moved by docs)).0 =
      rw (same, len) b in
    let (r, returns, ids, _) =
      decompression-block s block w stop (moved by docs) h last (moved-words by docs)
        (omega (arith, len)) b' in
    let (c, returns', ids', _) =
      decompression-block (record s { m_last_decode = 0 }) block w stop docs h (omega arith) words
        few b in
    (
      (
        r,
        subst (λ (k : ℕ). decompression s block k 4 ≡ done r) len returns,
        subst (λ (k : ℕ). slice_from r.m_result_list 1 k ≡ moved by docs) len ids,
      ),
      (c, returns', ids'),
    )
