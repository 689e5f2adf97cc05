-- ===== src/Codec/Codes.antt =====
-- The words of a `uint32_t *` into memory, as the unpacking functions read them.
use native.Mathlib.Nat.{mod-eq_of_lt}
use sample_code.Common.{ℕ, ◌+◌, ◌*◌, ◌/◌, ◌%◌, ◌<◌, ◌≡◌, ◌∙◌, sym, ap, arith}
use sample_code.Words.Bits.{bit, gather_ext, gather-bit}
use sample_code.Words.Bytes.{Memory, IsBytes, load32, memory_bit, bit-load32, load32-lt}
use sample_code.Unpack.Stream.{Words, IsWords, Array, stream_bit, field}
use sample_code.Unpack.Rounds.{IsUnpacker}
use sample_code.Codec.Writeto.Fields.{code_field}

-- `(uint32_t *)(m + base)`
unfoldable pub codes : Memory → ℕ → Words
codes m base k = load32 m (base + 4 * k)

pub codes-IsWords : (m : Memory) (base : ℕ) → IsBytes m → IsWords (codes m base)
unfolding codes
codes-IsWords m base h k = load32-lt m (base + 4 * k) h

stream_bit-codes :
    (m : Memory) (base p : ℕ)
    → IsBytes m
    → stream_bit (codes m base) p ≡ memory_bit m (8 * base + p)
unfolding codes stream_bit
stream_bit-codes m base p h =
    bit-load32 m (base + 4 * (p / 32)) (p % 32) h (omega arith) ∙ ap (memory_bit m) (omega arith)

-- The fields of the words are the fields of the memory.
pub field-codes :
    (m : Memory) (base w i : ℕ) → IsBytes m → field (codes m base) w i ≡ code_field m base w i
unfolding field code_field
field-codes m base w i h =
    gather_ext w _ _ λ t p. stream_bit-codes m base (i * w + t) h ∙ ap (memory_bit m) (omega arith)

-- What an unpacking function leaves at a place that it reaches.
pub unpacked :
    (f : Array → Words → ℕ → Array) (w : ℕ) (m : Memory) (base num i : ℕ) (out : Array)
    → IsUnpacker w f
    → IsBytes m
    → i < num / 32 * 32
    → f out (codes m base) num i ≡ code_field m base w i
unpacked f w m base num i out u h p =
    ground (arith, u out (codes m base) num i (codes-IsWords m base h), field-codes m base w i h)

-- A byte is determined by its eight bits.
pub byte_of_bits :
    (m : Memory) (a v : ℕ)
    → IsBytes m
    → v < 256
    → ((k : ℕ) → k < 8 → memory_bit m (8 * a + k) ≡ bit v k)
    → m a ≡ v
unfolding memory_bit
byte_of_bits m a v h small bits =
    sym (mod-eq_of_lt (h a))
    ∙ sym (gather-bit 8 (m a))
    ∙ gather_ext 8 (bit (m a)) (bit v) (λ k p.
      let q : (8 * a + k) / 8 ≡ a = omega arith in
      let r : (8 * a + k) % 8 ≡ k = omega arith in ground (arith, q, r, bits k p))
    ∙ gather-bit 8 v
    ∙ mod-eq_of_lt small
