-- ===== src/Tests/P4.antt =====
-- p4delta.cpp at small lists.
use sample_code.Common.{
  ℕ, ◌+◌, ◌-◌, ◌*◌, ◌/◌, ◌%◌, ◌^◌, ◌≤◌, ◌<◌, ◌≡◌, refl, arith, ap, ltb, ◌==◌, ◌&&◌, ◌||◌, Bool,
  true, if◌then◌else◌, All, some, all_below, all_below_sound, List, [], ◌∷◌, get_or, slice_from,
}
use sample_code.Words.Bits.{bit, gather}
use sample_code.Words.Bytes.{Memory, IsBytes, memory_bit}
use sample_code.Unpack.Stream.{Array, Words, IsWords, field}
use sample_code.Common.Outcome.{done}
use sample_code.Codec.Writeto.Fields.{code_field}
use sample_code.Codec.Block.{IsBlock}
use sample_code.IndexCompression.Delta.{get_delta_list}
use sample_code.IndexCompression.BitSize.{size_loop}
use sample_code.IndexCompression.Class.Table.{Unpacker, entry, unpacktable}
use sample_code.P4delta.Delta.{p4d_delta, p4d_de_delta, shift_rounds}
use sample_code.P4delta.Delta.Laws.{
  p4d_delta-get_delta_list, p4d_de_delta-p4d_delta, shift_rounds-get_delta_list,
}
use sample_code.P4delta.Switch.{switch_unpack, switch_unpack-IsUnpacker}
use sample_code.P4delta.Switch.SameTable.{switch_unpack-unpacktable}
use sample_code.P4delta.Varint.{varint_exceptions}
use sample_code.P4delta.Block.{
  Compressed, p4d_count, p4d_get_bit_size, p4d_encode, p4d_compress, p4d_uncompress,
}
use sample_code.P4delta.Block.Compress.{
  IsStep, p4d_get_bit_size-done, p4d_encode-IsBlock, p4d_compress-IsBlock,
}
use sample_code.P4delta.Block.Uncompress.{
  p4d_uncompress-block, p4d_uncompress-p4d_compress, last_not_unpacked,
}
use sample_code.Tests.Machine.{high_bit, bsr, bsr-IsBsr, four_bytes, machine, machine-IsPlatform}

abbrev ids : List ℕ
ids = 3 ∷ 10 ∷ 11 ∷ 3000000000 ∷ 3000000001 ∷ []

ids_words : All (λ d. d < 2 ^ 32) ids
ids_words = (omega arith, (omega arith, (omega arith, (omega arith, (omega arith, tt)))))

steps_words : All (λ d. d < 2 ^ 32) (get_delta_list 0 ids).0
unfolding get_delta_list
steps_words = (omega arith, (omega arith, (omega arith, (omega arith, (omega arith, tt)))))

steps : All (IsStep 32) (get_delta_list 0 ids).0
unfolding get_delta_list
steps = (
  (omega arith, omega arith),
  (
    (omega arith, omega arith),
    ((omega arith, omega arith), ((omega arith, omega arith), ((omega arith, omega arith), tt))),
  ),
)

abbrev empty : Memory
empty a = 0

empty-IsBytes : IsBytes empty
empty-IsBytes a = omega arith

abbrev zeros : Array
zeros k = 0

steps_size : p4d_get_bit_size bsr (get_delta_list 0 ids).0 ≡ done 3
unfolding get_delta_list p4d_get_bit_size size_loop p4d_count high_bit
steps_size = refl

p4d_uncompress-p4d_compress_example :
    (r : Compressed) × (out : Array) × (p4d_compress machine ids empty ≡ done r)
    × (r.in_arr ≡ ids)
    × (p4d_uncompress machine r.buf 5 zeros ≡ done (out, r.size))
    × (slice_from out 0 5 ≡ ids)
p4d_uncompress-p4d_compress_example =
    p4d_uncompress-p4d_compress machine machine-IsPlatform ids empty zeros 3 empty-IsBytes
      (omega arith) (omega arith) (omega arith) ids_words steps steps_size (omega arith)

p4d_compress-IsBlock_example :
    (r : Compressed) × (p4d_compress machine ids empty ≡ done r)
    × (r.in_arr ≡ ids)
    × IsBlock
        (varint_exceptions four_bytes)
        r.buf
        3
        (1 + (3 * (5 + 1) + 7) / 8)
        r.size
        (get_delta_list 0 ids).0
p4d_compress-IsBlock_example =
    p4d_compress-IsBlock machine machine-IsPlatform ids empty 3 empty-IsBytes (omega arith)
      (omega arith) ids_words steps steps_size (omega arith)

-- The block of the differences with three bits to a field.
abbrev three_bits : Compressed
three_bits = p4d_encode machine (get_delta_list 0 ids).0 3 empty

three_bits-IsBlock :
    IsBlock
      (varint_exceptions four_bytes)
      three_bits.buf
      3
      (1 + (3 * (5 + 1) + 7) / 8)
      three_bits.size
      (get_delta_list 0 ids).0
unfolding get_delta_list
three_bits-IsBlock =
    p4d_encode-IsBlock machine machine-IsPlatform (get_delta_list 0 ids).0 3 empty empty-IsBytes
      (omega arith) (omega arith) (omega arith) (omega arith) steps_words

p4d_uncompress-block_example :
    (out : Array) × (p4d_uncompress machine three_bits.buf 5 zeros ≡ done (out, three_bits.size))
    × (slice_from out 0 5 ≡ ids)
p4d_uncompress-block_example =
    p4d_uncompress-block machine machine-IsPlatform three_bits.buf 3 three_bits.size ids zeros
      ids_words (omega arith) (omega arith) three_bits-IsBlock

abbrev some_words : Words
some_words k = 305419896

some_words-IsWords : IsWords some_words
some_words-IsWords k = omega arith

switch_unpack-IsUnpacker_example :
    switch_unpack 7 zeros some_words 32 3
    ≡ (if ltb 3 (32 / 32 * 32) then field some_words 7 3 else zeros 3)
switch_unpack-IsUnpacker_example =
    switch_unpack-IsUnpacker 7 (omega arith) (omega arith) zeros some_words 32 3 some_words-IsWords

switch_unpack-unpacktable_example :
    (f : Unpacker) × (entry unpacktable 7 ≡ some f)
    × ((output : Array) (encode : Words) (num i : ℕ)
        → IsWords encode
        → switch_unpack 7 output encode num i ≡ f output encode num i)
switch_unpack-unpacktable_example = switch_unpack-unpacktable 7 (omega arith) (omega arith)

p4d_get_bit_size-done_example :
    (r : ℕ) × (p4d_get_bit_size bsr (get_delta_list 0 ids).0 ≡ done r) × (1 ≤ r) × (r ≤ 32)
unfolding get_delta_list
p4d_get_bit_size-done_example =
    p4d_get_bit_size-done bsr bsr-IsBsr 32 (get_delta_list 0 ids).0 (omega arith) (omega arith)
      (omega arith) steps

p4d_delta-get_delta_list_example : p4d_delta ids ≡ (get_delta_list 0 ids).0
p4d_delta-get_delta_list_example = p4d_delta-get_delta_list ids

p4d_de_delta-p4d_delta_example : p4d_de_delta (p4d_delta ids) ≡ ids
p4d_de_delta-p4d_delta_example = p4d_de_delta-p4d_delta ids ids_words

abbrev unpacked_steps : Array
unpacked_steps k = get_or (get_delta_list 0 ids).0 (k - 1) 0

unpacked_steps_at : (t : ℕ) → t < 5 → unpacked_steps (1 + t) ≡ get_or (get_delta_list 0 ids).0 t 0
unpacked_steps_at t lt =
    let back : 1 + t - 1 ≡ t = omega arith in
    ap (λ (k : ℕ). get_or (get_delta_list 0 ids).0 k 0) back

shift_rounds-get_delta_list_example :
    slice_from (shift_rounds (5 / 4) (5 % 4) 0 0 unpacked_steps) 0 5 ≡ ids
shift_rounds-get_delta_list_example =
    shift_rounds-get_delta_list ids unpacked_steps ids_words unpacked_steps_at

abbrev words_below : List ℕ → Bool
words_below [] = true
words_below (d ∷ ds) = ltb d (2 ^ 32) && words_below ds

words_below_sound : (ds : List ℕ) → words_below ds ≡ true → All (λ d. d < 2 ^ 32) ds
words_below_sound [] h = tt
words_below_sound (d ∷ ds) h = (ground (arith, h), words_below_sound ds (ground (arith, h)))

-- 32 ids, 40 apart but for the last, which is 7 behind the one before.
abbrev last_seven : List ℕ
last_seven =
    40 ∷ 80 ∷ 120 ∷ 160 ∷ 200 ∷ 240 ∷ 280 ∷ 320 ∷ 360 ∷ 400 ∷ 440 ∷ 480 ∷ 520 ∷ 560 ∷ 600 ∷ 640
    ∷ 680 ∷ 720 ∷ 760 ∷ 800 ∷ 840 ∷ 880 ∷ 920 ∷ 960 ∷ 1000 ∷ 1040 ∷ 1080 ∷ 1120 ∷ 1160 ∷ 1200 ∷ 1240
    ∷ 1247 ∷ []

-- Fields of eight bits, each of them 40.
abbrev forties : Memory
forties a = if a == 0 then 8 else 40

-- What the output array holds before the call.
abbrev sevens : Array
sevens k = 7

forties-IsBytes : IsBytes forties
forties-IsBytes a = ground arith

last_seven_words : All (λ d. d < 2 ^ 32) last_seven
last_seven_words = words_below_sound last_seven refl

forties_fields :
    all_below 32
      (λ k. k == 0 || code_field forties 1 8 k == get_or (get_delta_list 0 last_seven).0 (k - 1) 0)
    ≡ true
unfolding get_delta_list all_below code_field gather memory_bit bit
forties_fields = refl

forties_field :
    (k : ℕ)
    → 1 ≤ k
    → k < 32
    → code_field forties 1 8 k ≡ get_or (get_delta_list 0 last_seven).0 (k - 1) 0
forties_field k lo hi = let same = all_below_sound _ forties_fields k hi in ground (arith, same)

forties_first : code_field forties 1 8 0 ≡ 40
unfolding code_field gather memory_bit bit
forties_first = refl

last_step : 7 ≡ get_or (get_delta_list 0 last_seven).0 31 0
unfolding get_delta_list
last_step = refl

last_not_unpacked_example :
    (out : Array) × (p4d_uncompress machine forties 32 sevens
      ≡ done (out, 1 + (8 * (32 + 1) + 7) / 8))
    × (slice_from out 0 32 ≡ last_seven)
last_not_unpacked_example =
    last_not_unpacked machine machine-IsPlatform forties 8 last_seven sevens forties-IsBytes refl
      (omega arith) (omega arith) last_seven_words (omega arith) (omega arith) refl
      (omega (arith, forties_first)) (omega (arith, forties_first)) forties_field last_step
