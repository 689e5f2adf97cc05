-- ===== src/IndexCompression/Class/Decompression.antt =====
-- `decompression` of a block gives the running sums of the block's values.
use native.Mathlib.Nat.{pow-le-pow_right}
use sample_code.Common.{
  ℕ, zero, suc, ◌+◌, ◌-◌, ◌*◌, ◌/◌, ◌%◌, ◌^◌, ◌≤◌, ◌<◌, ◌≡◌, ◌∙◌, refl, ap, arith, All, List,
  length, get_or, update, slice_from, ltb, ◌&&◌, false, if◌then◌else◌, Bool-cases, inl, inr,
}
use sample_code.Words.Bytes.{Memory, IsBytes, memory_bit}
use sample_code.Words.Bits.{gather_ext}
use sample_code.Unpack.Stream.{Array, Words}
use sample_code.Unpack.Rounds.{IsUnpacker}
use sample_code.Common.Outcome.{done}
use sample_code.Codec.Writeto.Fields.{code_field, code_field-lt, fields_apart}
use sample_code.Codec.Patch.{patch, IsPatched, patch-IsPatched}
use sample_code.Codec.Codes.{codes, unpacked}
use sample_code.Codec.Block.{IsBlock}
use sample_code.IndexCompression.Delta.{get_delta_list, de_delta}
use sample_code.IndexCompression.Delta.RoundTrip.{
  length-get_delta_list, de_delta-get_delta_list, de_delta-last,
}
use sample_code.IndexCompression.Class.{
  IndexCompression, ceil_offset, copy_codes, restore, unpack_codes, decompression,
}
use sample_code.IndexCompression.Class.Table.{unpacktable-IsUnpacker}
use sample_code.IndexCompression.Class.Exceptions.{nextexcept, index_exceptions}

-- Where the place `i + next` is the one that `shift` has, as at the start of the loop, the loop of
-- `decompression` over the exceptions gives the outcome of the loop of `p4d_uncompress`, on the
-- same array and exceptions, for a block of up to 127 values.
pub restore-eq-patch :
    (next : ℕ → ℕ × ℕ) (fuel n i nx shift ptr : ℕ) (res : Array)
    → n ≤ 127
    → (i + nx) % 2 ^ 32 ≡ shift
    → restore next fuel n i nx shift ptr res ≡ patch next fuel n shift ptr res
unfolding restore patch
restore-eq-patch next zero n i nx shift ptr res few same = refl
restore-eq-patch next (suc fuel) n i nx shift ptr res few same =
    let tmp = (res shift + 1) % 2 ^ 32 in
    let (v, ptr') = next ptr in
    rw same (
      ground (
        arith,
        restore-eq-patch next fuel n shift tmp ((shift + tmp) % 2 ^ 32) ptr' (update res shift v)
            few refl,
      ))

module _ (old block : Memory) (h : IsBytes block) (o : IsBytes old) (ceil : ℕ) where
  copy_codes-IsBytes : IsBytes (copy_codes block ceil old)
  unfolding copy_codes
  copy_codes-IsBytes a = ground (arith, h (a + 1), o a)

  -- The copy holds the fields, from its first byte on.
  copy_codes-field :
      (w k : ℕ)
      → k * w + w ≤ 8 * ceil
      → code_field (copy_codes block ceil old) 0 w k ≡ code_field block 1 w k
  unfolding copy_codes code_field memory_bit
  copy_codes-field w k le = gather_ext w _ _ λ t p.
      let q : (8 * 1 + k * w + t) / 8 ≡ (8 * 0 + k * w + t) / 8 + 1 = omega arith in
      let r : (8 * 1 + k * w + t) % 8 ≡ (8 * 0 + k * w + t) % 8 = omega arith in
      ground (arith, q, r)

module _ (block : Memory) (w stop n : ℕ) (ds : List ℕ) (len : length ds ≡ n) (few : n ≤ 127)
    (b : IsBlock (index_exceptions 4) block w (1 + ceil_offset w n) stop ds) where
  -- The loop over the exceptions, on unpacked fields.
  patched :
      (res : Array)
      → ((k : ℕ) → k ≤ n → res k ≡ code_field block 1 w k)
      → IsPatched n 0 ds stop res
          (restore (nextexcept 4 block) (n + 1) n 0 (res 0) (res 0) (1 + ceil_offset w n) res)
  patched res agree =
      let start : res 0 ≡ code_field block 1 w 0 = agree 0 (omega arith) in
      let top : 2 ^ w ≤ 2 ^ 32 = pow-le-pow_right {n = 2} (omega arith) b.wide in
      let small : (0 + res 0) % 2 ^ 32 ≡ res 0 = omega (arith, code_field-lt block 1 w 0) in
      rw
        (
          restore-eq-patch (nextexcept 4 block) (n + 1) n 0 (res 0) (res 0) (1 + ceil_offset w n)
              res few small,
          start,
        )
        (patch-IsPatched (code_field block 1 w) (nextexcept 4 block) n stop (omega arith) (n + 1)
          res (rw len at b.coded) (omega arith) (omega arith) (λ k lo hi. agree k hi))

  unpack_buf : Memory → Memory
  unpack_buf old = if ltb n 127 then copy_codes block (ceil_offset w n) old else old

  -- The words that are unpacked hold the block's fields, copied or not.
  words_field :
      (old : Memory) (k num : ℕ) (f : Array → Words → ℕ → Array) (out : Array)
      → IsBytes old
      → IsUnpacker w f
      → k ≤ n
      → k < num / 32 * 32
      → f out (if ltb n 127 then codes (unpack_buf old) 0 else codes block 1) num k
        ≡ code_field block 1 w k
  unfolding unpack_buf
  words_field old k num f out h u le reach = elim (Bool-cases (ltb n 127)) [
    | inl short ↦ rw short (
        unpacked f w (copy_codes block ceil old) 0 num k out u
          (copy_codes-IsBytes old block b.bytes h ceil) reach
        ∙ copy_codes-field old block b.bytes h ceil w k
            (omega (arith, fields_apart (n + 1) k w (omega arith))))
    | inr full ↦ rw full (unpacked f w block 1 num k out u b.bytes reach)
  ]
    where
      ceil : ℕ
      ceil = ceil_offset w n

bounded_product : (w n : ℕ) → w ≤ 32 → n ≤ 127 → w * (n + 1) ≤ 32 * 128
bounded_product w n p q = grind arith

-- `decompression` of any block that represents, with exceptions of four bytes, the differences of
-- up to 127 ids that are uint32_t, the first one taken from the object's m_lastDecode, returns:
-- m_resultList holds the ids from index 1 on, and m_lastDecode is the last of them.
pub decompression-block :
    (s : IndexCompression) (block : Memory) (w stop : ℕ) (docs : List ℕ)
    → IsBytes s.m_unpack_buf
    → s.m_last_decode < 2 ^ 32
    → All (λ d. d < 2 ^ 32) docs
    → length docs ≤ 127
    → IsBlock
        (index_exceptions 4)
        block
        w
        (1 + ceil_offset w (length docs))
        stop
        (get_delta_list s.m_last_decode docs).0
    → (r : IndexCompression) × (decompression s block (length docs) 4 ≡ done r)
      × (slice_from r.m_result_list 1 (length docs) ≡ docs)
      × (r.m_last_decode ≡ (get_delta_list s.m_last_decode docs).1)
unfolding decompression unpack_codes unpack_buf
decompression-block s block w stop docs h last small few b =
    let n = length docs in
    let ceil = ceil_offset w n in
    let ds = (get_delta_list s.m_last_decode docs).0 in
    let len : length ds ≡ n = length-get_delta_list s.m_last_decode docs in
    let (f, found, u) = unpacktable-IsUnpacker w b.pos b.wide in
    let num = (n / 32 + 1) * 32 in
    let buf = unpack_buf block w stop n ds len few b s.m_unpack_buf in
    let words = if ltb n 127 then codes buf 0 else codes block 1 in
    let res : Array = f s.m_result_list words num in
    let p = patched block w stop n ds len few b res (λ k le.
      words_field block w stop n ds len few b s.m_unpack_buf k num f s.m_result_list h u le
        (omega arith)) in
    let product : w * (n + 1) ≤ 32 * 128 = bounded_product w n b.wide few in
    let fits : (ltb n 127 && ltb 512 ceil) ≡ false = ground arith in
    let table : ltb 128 num ≡ false = ground arith in
    let sums = de_delta n 1 s.m_last_decode p.array in
    let at : (t : ℕ) → t < n → p.array (1 + t) ≡ get_or ds t 0 = λ t lt.
      let back : 1 + t - (0 + 1) ≡ t = omega arith in
      p.values (1 + t) (omega arith) (omega arith) ∙ ap (λ (k : ℕ). get_or ds k 0) back in
    (
      record s { m_unpack_buf = buf; m_result_list = sums.0; m_last_decode = sums.1 },
      rw (b.width, found) (rw (fits, table, p.returns)),
      de_delta-get_delta_list docs 1 s.m_last_decode p.array last small at,
      de_delta-last docs 1 s.m_last_decode p.array last small at,
    )
