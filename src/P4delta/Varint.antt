-- ===== src/P4delta/Varint.antt =====
-- The exceptions of p4delta.cpp are variable-length integers, read and written by
-- `varint_encode_uint32` and `varint_decode_uint32` of util/varint.h, which is not in the
-- repository: they are a parameter, with what the codec relies on as a hypothesis.
use sample_code.Common.{
  ℕ, ◌+◌, ◌*◌, ◌/◌, ◌%◌, ◌^◌, ◌<◌, ◌≡◌, ◌∙◌, refl, ap, arith, All, List, [], ◌∷◌, length, update,
}
use sample_code.Words.Bits.{bit}
use sample_code.Words.Bytes.{Memory, IsBytes, memory_bit}
use sample_code.Codec.Codes.{byte_of_bits}
use sample_code.Codec.Encoder.{ExceptionOps}
use sample_code.Codec.Encoder.Laws.{IsExceptionStore, SameBytes}

-- `encode v` is the bytes that `varint_encode_uint32( v, p )` writes from `p` on; it returns the
-- place behind them. `decode m p` is the value that `varint_decode_uint32` reads at `p`, and the
-- place that it returns.
pub record Varint : Type 0 where
  pub encode : ℕ → List ℕ
  pub decode : Memory → ℕ → ℕ × ℕ

-- The bytes stand in memory from `p` on.
abbrev pub HoldsBytes : Memory → ℕ → List ℕ → Type 0
HoldsBytes m p [] = Unit
HoldsBytes m p (b ∷ bs) = (m p ≡ b) × HoldsBytes m (p + 1) bs

-- What was encoded is bytes, and is decoded wherever it stands.
pub record IsVarint (varint : Varint) : Type 0 where
  pub bytes : (v : ℕ) → v < 2 ^ 32 → All (λ b. b < 256) (varint.encode v)
  pub decodes :
      (v p : ℕ) (m : Memory)
      → v < 2 ^ 32
      → HoldsBytes m p (varint.encode v)
      → varint.decode m p ≡ (v, p + length (varint.encode v))

unfoldable pub write_bytes : List ℕ → ℕ → Memory → Memory
write_bytes [] p m = m
write_bytes (b ∷ bs) p m = write_bytes bs (p + 1) (update m p b)

-- The cursor is the pointer `excepts`.
abbrev pub varint_exceptions : Varint → ExceptionOps
varint_exceptions varint = record {
  Cursor = ℕ;
  address = λ p. p;
  add = λ v m p. (write_bytes (varint.encode v) p m, p + length (varint.encode v));
  next = varint.decode;
}

write_bytes-IsBytes :
    (bs : List ℕ) (p : ℕ) (m : Memory)
    → All (λ b. b < 256) bs
    → IsBytes m
    → IsBytes (write_bytes bs p m)
unfolding write_bytes
write_bytes-IsBytes [] p m w h = h
write_bytes-IsBytes (b ∷ bs) p m (hb, hbs) h =
    write_bytes-IsBytes bs (p + 1) (update m p b) hbs (λ a. ground (arith, h a))

write_bytes_before : (bs : List ℕ) (p : ℕ) (m : Memory) (a : ℕ) → a < p → write_bytes bs p m a ≡ m a
unfolding write_bytes
write_bytes_before [] p m a h = refl
write_bytes_before (b ∷ bs) p m a h =
    write_bytes_before bs (p + 1) (update m p b) a (omega arith) ∙ ground arith

-- Memory that agrees bit by bit with what was written holds the bytes.
HoldsBytes-write_bytes :
    (bs : List ℕ) (p : ℕ) (m m' : Memory)
    → All (λ b. b < 256) bs
    → IsBytes m'
    → SameBytes (write_bytes bs p m) m' p (p + length bs)
    → HoldsBytes m' p bs
unfolding write_bytes
HoldsBytes-write_bytes [] p m m' w h same = tt
HoldsBytes-write_bytes (b ∷ bs) p m m' (hb, hbs) h same = (
  byte_of_bits m' p b h hb (λ k lt. same (8 * p + k) (omega arith) (omega arith) ∙ written k lt),
  HoldsBytes-write_bytes bs (p + 1) (update m p b) m' hbs h
      (λ q lo hi. same q (omega arith) (omega arith)),
)
  where
    written :
        (k : ℕ) → k < 8 → memory_bit (write_bytes bs (p + 1) (update m p b)) (8 * p + k) ≡ bit b k
    written k lt =
        unfold memory_bit in
        let q : (8 * p + k) / 8 ≡ p = omega arith in
        let r : (8 * p + k) % 8 ≡ k = omega arith in
        let keep = write_bytes_before bs (p + 1) (update m p b) p (omega arith) in
        ground (arith, q, r, keep)

pub varint_exceptions-IsExceptionStore :
    (varint : Varint) → IsVarint varint → IsExceptionStore (varint_exceptions varint)
varint_exceptions-IsExceptionStore varint law = record {
  grows = λ v m x. omega arith;
  bytes = λ v m x small h. write_bytes-IsBytes (varint.encode v) x m (law.bytes v small) h;
  keeps = λ v m x p lo hi.
      unfold memory_bit in
      ap (λ (t : ℕ). bit t (p % 8))
        (write_bytes_before (varint.encode v) x m (p / 8) (omega arith));
  reads_back = λ v m m' x small h h' same.
      law.decodes v x m' small
        (HoldsBytes-write_bytes (varint.encode v) x m m' (law.bytes v small) h' same);
}
