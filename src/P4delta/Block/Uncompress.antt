-- ===== src/P4delta/Block/Uncompress.antt =====
-- `p4d_uncompress` of a block, the two functions together, and the counts at which the last value
-- is not unpacked.
use sample_code.Common.{
  ℕ, suc, ◌+◌, ◌-◌, ◌*◌, ◌/◌, ◌%◌, ◌^◌, ◌≤◌, ◌<◌, ◌≡◌, ◌≢◌, ◌∙◌, refl, ap, arith, All, List, length,
  get_or, slice_from, ltb, false,
}
use native.Mathlib.Decide.{dec_le}
use sample_code.Words.Bytes.{Memory, IsBytes}
use sample_code.Unpack.Stream.{Array}
use sample_code.Common.Outcome.{done}
use sample_code.Codec.Writeto.Fields.{code_field}
use sample_code.Codec.Patch.{patch, patch_ends, patch-IsPatched}
use sample_code.Codec.Codes.{codes, codes-IsWords, unpacked}
use sample_code.Codec.Block.{IsBlock}
use sample_code.IndexCompression.Delta.{get_delta_list}
use sample_code.IndexCompression.Delta.RoundTrip.{length-get_delta_list}
use sample_code.P4delta.Delta.{shift_rounds}
use sample_code.P4delta.Delta.Laws.{shift_rounds-get_delta_list}
use sample_code.P4delta.Switch.{switch_unpack, switch_unpack-IsUnpacker}
use sample_code.P4delta.Varint.{varint_exceptions}
use sample_code.P4delta.Block.{Platform, Compressed, p4d_get_bit_size, p4d_compress, p4d_uncompress}
use sample_code.P4delta.Block.Compress.{IsPlatform, IsStep, p4d_compress-IsBlock}

module _ (platform : Platform) (law : IsPlatform platform) where
  open platform use {bsr, align_int, varint}

  align_words : (n : ℕ) → align_int n 32 ≡ (n + 31) / 32 * 32
  align_words n = law.align_law n 32 (omega arith)

  -- `p4d_uncompress` of the block of the differences of up to 127 ids gives the ids, and the place
  -- behind the block, if the number of ids is no multiple of 32.
  pub p4d_uncompress-block :
      (block : Memory) (w stop : ℕ) (docs : List ℕ) (out_arr : Array)
      → All (λ d. d < 2 ^ 32) docs
      → length docs ≤ 127
      → length docs % 32 ≢ 0
      → IsBlock
          (varint_exceptions varint)
          block
          w
          (1 + (w * (length docs + 1) + 7) / 8)
          stop
          (get_delta_list 0 docs).0
      → (out : Array) × (p4d_uncompress platform block (length docs) out_arr ≡ done (out, stop))
        × (slice_from out 0 (length docs) ≡ docs)
  unfolding p4d_uncompress
  p4d_uncompress-block block w stop docs out_arr words few odd b =
      let n = length docs in
      let ds = (get_delta_list 0 docs).0 in
      let len : length ds ≡ n = length-get_delta_list 0 docs in
      let ceil = (w * (n + 1) + 7) / 8 in
      let tail : align_int (w * (n + 1)) 8 / 2 ^ 3 ≡ ceil =
        rw (law.align_law (w * (n + 1)) 8 (omega arith)) (omega arith) in
      let num = align_int n 32 in
      let res = switch_unpack w out_arr (codes block 1) num in
      let agree : (k : ℕ) → k ≤ n → res k ≡ code_field block 1 w k = λ k le.
        unpacked (switch_unpack w) w block 1 num k out_arr (switch_unpack-IsUnpacker w b.pos b.wide)
          b.bytes (omega (arith, align_words n)) in
      let start : res 0 ≡ code_field block 1 w 0 = agree 0 (omega arith) in
      let p =
        patch-IsPatched (code_field block 1 w) (varint.decode block) n stop (omega arith) (n + 1)
          res (rw len at b.coded) (omega arith) (omega arith) (λ k lo hi. agree k hi) in
      let at : (t : ℕ) → t < n → p.array (1 + t) ≡ get_or ds t 0 = λ t lt.
        let back : 1 + t - (0 + 1) ≡ t = omega arith in
        p.values (1 + t) (omega arith) (omega arith) ∙ ap (λ (k : ℕ). get_or ds k 0) back in
      (
        shift_rounds (n / 4) (n % 4) 0 0 p.array,
        rw (b.width, tail) (rw (start, p.returns) refl),
        shift_rounds-get_delta_list docs p.array words at,
      )

  -- For 1 to 127 ids that are uint32_t, whose differences of neighbours, the first id included, are
  -- not 0, when p4d_getBitSize chooses a width up to 30 for the differences and the number of ids
  -- is no multiple of 32: p4d_compress returns, its array is as before, and p4d_uncompress of what
  -- it wrote gives the ids and the end of the block.
  pub p4d_uncompress-p4d_compress :
      (docs : List ℕ) (buf : Memory) (out_arr : Array) (w : ℕ)
      → IsBytes buf
      → 1 ≤ length docs
      → length docs ≤ 127
      → length docs % 32 ≢ 0
      → All (λ d. d < 2 ^ 32) docs
      → All (IsStep 32) (get_delta_list 0 docs).0
      → p4d_get_bit_size bsr (get_delta_list 0 docs).0 ≡ done w
      → w ≤ 30
      → (r : Compressed) × (out : Array) × (p4d_compress platform docs buf ≡ done r)
        × (r.in_arr ≡ docs)
        × (p4d_uncompress platform r.buf (length docs) out_arr ≡ done (out, r.size))
        × (slice_from out 0 (length docs) ≡ docs)
  p4d_uncompress-p4d_compress docs buf out_arr w h filled few odd words steps sized narrow =
      let (r, compressed, kept, block) =
        p4d_compress-IsBlock platform law docs buf w h filled few words steps sized narrow in
      let (out, returns, ids) =
        p4d_uncompress-block r.buf w r.size docs out_arr words few odd block in
      (r, out, compressed, kept, returns, ids)

  -- For 1 to 127 ids that are uint32_t, their number n a multiple of 32, and a block of a width from 1
  -- to 32 whose field 0 says that there is no exception and whose fields before field n hold the
  -- differences of the ids before the last: p4d_uncompress gives the ids and the place behind the
  -- fields when entry n of the output array held the last difference before the call, whatever field
  -- n of the block holds.
  pub last_not_unpacked :
      (block : Memory) (w : ℕ) (docs : List ℕ) (out_arr : Array)
      → IsBytes block
      → block 0 ≡ w
      → 1 ≤ w
      → w ≤ 32
      → All (λ d. d < 2 ^ 32) docs
      → 1 ≤ length docs
      → length docs ≤ 127
      → length docs % 32 ≡ 0
      → length docs < code_field block 1 w 0
      → code_field block 1 w 0 < 2 ^ 31
      → ((k : ℕ)
          → 1 ≤ k
          → k < length docs
          → code_field block 1 w k ≡ get_or (get_delta_list 0 docs).0 (k - 1) 0)
      → out_arr (length docs) ≡ get_or (get_delta_list 0 docs).0 (length docs - 1) 0
      → (out : Array) × (p4d_uncompress platform block (length docs) out_arr
          ≡ done (out, 1 + (w * (length docs + 1) + 7) / 8))
        × (slice_from out 0 (length docs) ≡ docs)
  unfolding p4d_uncompress
  last_not_unpacked block w docs out_arr h width pos wide words filled few even beyond range fields
        last =
      let n = length docs in
      let ds = (get_delta_list 0 docs).0 in
      let ceil = (w * (n + 1) + 7) / 8 in
      let tail : align_int (w * (n + 1)) 8 / 2 ^ 3 ≡ ceil =
        rw (law.align_law (w * (n + 1)) 8 (omega arith)) (omega arith) in
      let num = align_int n 32 in
      let res = switch_unpack w out_arr (codes block 1) num in
      let u = switch_unpack-IsUnpacker w pos wide in
      let agree : (k : ℕ) → k < n → res k ≡ code_field block 1 w k = λ k lt.
        unpacked (switch_unpack w) w block 1 num k out_arr u h (omega (arith, align_words n)) in
      let reach : ltb n (num / 32 * 32) ≡ false = ground (arith, align_words n) in
      let kept : res n ≡ out_arr n =
        u out_arr (codes block 1) num n (codes-IsWords block 1 h) ∙ rw reach refl in
      let stops : patch (varint.decode block) (n + 1) n (res 0) (1 + ceil) res
          ≡ done (res, 1 + ceil) =
        let more : n + 1 ≡ suc n = omega arith in
        rw (agree 0 filled) (
          ap (λ (m : ℕ). patch (varint.decode block) m n (code_field block 1 w 0) (1 + ceil) res)
            more
          ∙ patch_ends (varint.decode block) n n (code_field block 1 w 0) (1 + ceil) res beyond
              range) in
      let at : (t : ℕ) → t < n → res (1 + t) ≡ get_or ds t 0 = λ t lt. elim (dec_le n (1 + t)) [
        | yes top ↦
            let here : 1 + t ≡ n = omega arith in
            let back : n - 1 ≡ t = omega arith in
            ap res here ∙ kept ∙ last ∙ ap (λ (k : ℕ). get_or ds k 0) back
        | no below ↦
            agree (1 + t) (omega arith)
            ∙ fields (1 + t) (omega arith) (omega arith)
            ∙ ap (λ (k : ℕ). get_or ds k 0) (omega arith)
      ] in
      (
        shift_rounds (n / 4) (n % 4) 0 0 res,
        rw (width, tail) (rw stops refl),
        shift_rounds-get_delta_list docs res words at,
      )
