-- ===== src/IndexCompression/Class/Exceptions.antt =====
-- `addexcept` and `nextexcept`: an exception is a 32-bit word, and the next one stands `bytes`
-- behind it.
use sample_code.Common.{ℕ, ◌+◌, ◌-◌, ◌*◌, ◌<◌, ◌^◌, ◌≡◌, ◌∙◌, sym, ap, arith}
use native.Mathlib.Nat.{mod-eq_of_lt}
use sample_code.Words.Bits.{bit, gather_ext, gather-bit}
use sample_code.Words.Bytes.{
  Memory, IsBytes, load32, store32, memory_bit, bit-load32, load32-lt, memory_bit-store32,
  store32-IsBytes,
}
use sample_code.Codec.Encoder.{ExceptionOps}
use sample_code.Codec.Encoder.Laws.{IsExceptionStore}

-- The pointer `excepts` and the member `m_offset`, which grow together.
pub record Tail : Type 0 where
  pub excepts : ℕ
  pub m_offset : ℕ

unfoldable pub addexcept : ℕ → ℕ → Memory → Tail → Memory × Tail
addexcept bytes d m t =
    (store32 m t.excepts d, record { excepts = t.excepts + bytes; m_offset = t.m_offset + bytes })

unfoldable pub nextexcept : ℕ → Memory → ℕ → ℕ × ℕ
nextexcept bytes m excepts = (load32 m excepts, excepts + bytes)

abbrev pub index_exceptions : ℕ → ExceptionOps
index_exceptions bytes = record {
  Cursor = Tail;
  address = λ t. t.excepts;
  add = addexcept bytes;
  next = nextexcept bytes;
}

-- A word whose 32 bits are those of `v` is `v`.
load32_of_bits :
    (m : Memory) (a v : ℕ)
    → IsBytes m
    → v < 2 ^ 32
    → ((k : ℕ) → k < 32 → memory_bit m (8 * a + k) ≡ bit v k)
    → load32 m a ≡ v
load32_of_bits m a v h small bits =
    sym (mod-eq_of_lt (load32-lt m a h))
    ∙ sym (gather-bit 32 (load32 m a))
    ∙ gather_ext 32 (bit (load32 m a)) (bit v) (λ k p. bit-load32 m a k h p ∙ bits k p)
    ∙ gather-bit 32 v
    ∙ mod-eq_of_lt small

-- With four bytes to an exception, the default `EXCEPTION_BYTE`, exceptions are read back.
pub index_exceptions-IsExceptionStore : IsExceptionStore (index_exceptions 4)
unfolding addexcept nextexcept
index_exceptions-IsExceptionStore = record {
  grows = λ v m x. omega arith;
  bytes = λ v m x small h. store32-IsBytes m x.excepts v h;
  keeps = λ v m x p lo hi. ground (arith, memory_bit-store32 m x.excepts v p);
  reads_back = λ v m m' x small h h' same.
      let read : load32 m' x.excepts ≡ v =
        load32_of_bits m' x.excepts v h' small (λ k p.
          same (8 * x.excepts + k) (omega arith) (omega arith) ∙ stored m x.excepts v k p) in
      ap (λ (t : ℕ). (t, x.excepts + 4)) read;
}
  where
    stored : (m : Memory) (a v k : ℕ) → k < 32 → memory_bit (store32 m a v) (8 * a + k) ≡ bit v k
    stored m a v k p =
        let off : 8 * a + k - 8 * a ≡ k = omega arith in
        ground (arith, memory_bit-store32 m a v (8 * a + k), off)
