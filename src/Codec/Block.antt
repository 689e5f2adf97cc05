-- ===== src/Codec/Block.antt =====
-- A compressed block: the width in byte 0, the fields from byte 1 on, and the exceptions behind
-- them. What the encoder makes of cleared memory is such a block.
use sample_code.Common.{
  ℕ, ◌+◌, ◌*◌, ◌/◌, ◌%◌, ◌^◌, ◌≤◌, ◌<◌, ◌≡◌, ◌∙◌, ap, arith, All, none, List, length,
}
use sample_code.Words.Bits.{bit, bit-zero}
use sample_code.Words.Bytes.{Memory, IsBytes, memory_bit}
use sample_code.Codec.Writeto.Fields.{Clear, code_field, fields_apart}
use sample_code.Codec.Encoder.{ExceptionOps, EncodeState, encode_values, close}
use sample_code.Codec.Encoder.Laws.{IsExceptionStore, Coded}
use sample_code.Codec.Encoder.Invariant.{IsCodable, IsReady, IsEncoded}
use sample_code.Codec.Encoder.Steps.{encode_values-IsEncoded}
use sample_code.Codec.Codes.{byte_of_bits}

-- `block` represents the values `ds` with fields of width `w`; `tail` is the place of the first
-- exception, and `stop` the place behind the last.
pub record IsBlock (ops : ExceptionOps) (block : Memory) (w tail stop : ℕ) (ds : List ℕ)
    : Type 0 where
  pub bytes : IsBytes block
  pub width : block 0 ≡ w
  pub pos : 1 ≤ w
  pub wide : w ≤ 32
  pub behind : tail ≤ stop
  pub room : 8 + (length ds + 1) * w ≤ 8 * tail
  pub coded : Coded (code_field block 1 w) (ops.next block) (length ds) stop 0 none tail ds

module _ (ops : ExceptionOps) (laws : IsExceptionStore ops) (w e n : ℕ) (c : IsCodable w e n)
    (m : Memory) (h : IsBytes m) where
  open ops use {Cursor, address}

  cleared : ((a : ℕ) → 1 ≤ a → 8 * a < 8 + (n + 1) * w → m a ≡ 0) → (k : ℕ) → k ≤ n → Clear m 1 w k
  unfolding memory_bit
  cleared zeros k le t lt =
      let p = 8 * 1 + k * w + t in
      let inside : 8 * (p / 8) < 8 + (n + 1) * w =
        omega (arith, fields_apart (n + 1) k w (omega arith)) in
      ap (λ (v : ℕ). bit v (p % 8)) (zeros (p / 8) (omega arith) inside) ∙ bit-zero (p % 8)

  -- The encoder, started on memory that is 0 where the fields stand.
  pub encoded-IsBlock :
      (x : Cursor) (ds : List ℕ)
      → length ds ≡ n
      → All (λ d. d < 2 ^ 32) ds
      → m 0 ≡ w
      → ((a : ℕ) → 1 ≤ a → 8 * a < 8 + (n + 1) * w → m a ≡ 0)
      → 8 + (n + 1) * w ≤ 8 * address x
      → let s =
          encode_values ops 1 w e ds (record { buf = m; excepts = x; last = none; idx = 0 }) in
        IsBlock ops (close ops 1 w e s.last s.buf) w (address x) (address s.excepts) ds
  encoded-IsBlock x ds len words first zeros room = record {
    bytes = run.bytes;
    width =
        byte_of_bits _ 0 w run.bytes (omega (arith, c.wide))
          (λ k p. run.before (8 * 0 + k) (omega arith) ∙ head k p);
    pos = c.pos;
    wide = c.wide;
    behind = run.ahead;
    room = rw len room;
    coded = rw len run.coded;
  }
    where
      ready : IsReady ops laws 1 w e n c m x none 0
      ready = record {
        bytes = h;
        ahead = λ k p q. cleared zeros k q;
        waiting = cleared zeros 0 (omega arith);
        room = room;
        near = omega arith;
        behind = omega arith;
      }

      s : EncodeState Cursor
      s = encode_values ops 1 w e ds (record { buf = m; excepts = x; last = none; idx = 0 })

      run :
          IsEncoded ops laws 1 w e n c m x none 0 ds
            (close ops 1 w e s.last s.buf)
            (address s.excepts)
      run = encode_values-IsEncoded ops laws 1 w e n c ds m x none 0 ready (omega arith) words

      head : (k : ℕ) → k < 8 → memory_bit m (8 * 0 + k) ≡ bit w k
      head k p =
          unfold memory_bit in
          let q : (8 * 0 + k) / 8 ≡ 0 = omega arith in
          let r : (8 * 0 + k) % 8 ≡ k = omega arith in ground (arith, q, r, first)
