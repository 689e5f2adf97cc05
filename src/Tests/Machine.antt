-- ===== src/Tests/Machine.antt =====
-- Concrete functions for what the repository does not hold: the instruction `bsrl`, a store of
-- integers in four bytes, and rounding up.
use sample_code.Common.{
  ℕ, zero, suc, ◌+◌, ◌-◌, ◌*◌, ◌/◌, ◌%◌, ◌^◌, ◌≤◌, ◌<◌, ◌≡◌, refl, arith, leb, Bool-cases, inl, inr,
  if◌then◌else◌, [], ◌∷◌, length,
}
use sample_code.Words.Bytes.{Memory}
use sample_code.IndexCompression.BitSize.Bound.{IsBsr}
use sample_code.P4delta.Varint.{Varint, IsVarint, HoldsBytes}
use sample_code.P4delta.Block.{Platform}
use sample_code.P4delta.Block.Compress.{IsPlatform}

-- The highest bit that is set, looked for from bit `k` down.
unfoldable pub high_bit : ℕ → ℕ → ℕ
high_bit zero v = 0
high_bit (suc k) v = if leb (2 ^ suc k) v then suc k else high_bit k v

high_bit-bounds :
    (k v : ℕ) → 0 < v → v < 2 ^ suc k → (2 ^ high_bit k v ≤ v) × (v < 2 ^ (high_bit k v + 1))
unfolding high_bit
high_bit-bounds zero v pos small = (omega arith, omega arith)
high_bit-bounds (suc k) v pos small = elim (Bool-cases (leb (2 ^ suc k) v)) [
  | inl e ↦ rw e (ground arith, ground arith)
  | inr e ↦ rw e (high_bit-bounds k v pos (ground arith))
]

abbrev pub bsr : ℕ → ℕ
bsr v = high_bit 31 v

pub bsr-IsBsr : IsBsr bsr
bsr-IsBsr v pos small = high_bit-bounds 31 v pos small

abbrev pub four_bytes : Varint
four_bytes = record {
  encode = λ v. v % 256 ∷ v / 256 % 256 ∷ v / 65536 % 256 ∷ v / 16777216 % 256 ∷ [];
  decode = λ m p. (m p + m (p + 1) * 256 + m (p + 2) * 65536 + m (p + 3) * 16777216, p + 4);
}

four_bytes-decodes :
    (v p : ℕ) (m : Memory)
    → v < 2 ^ 32
    → HoldsBytes m p (four_bytes.encode v)
    → four_bytes.decode m p ≡ (v, p + length (four_bytes.encode v))
four_bytes-decodes v p m small (b0, (b1, (b2, (b3, end)))) =
    let p2 : p + 1 + 1 ≡ p + 2 = omega arith in
    let p3 : p + 1 + 1 + 1 ≡ p + 3 = omega arith in
    let value : m p + m (p + 1) * 256 + m (p + 2) * 65536 + m (p + 3) * 16777216 ≡ v =
      omega (arith, b0, b1, rw p2 at b2, rw p3 at b3) in
    rw value refl

pub four_bytes-IsVarint : IsVarint four_bytes
four_bytes-IsVarint = record {
  bytes = λ v small. (omega arith, (omega arith, (omega arith, (omega arith, tt))));
  decodes = four_bytes-decodes;
}

abbrev pub machine : Platform
machine = record {
  bsr = bsr;
  wide = 1;
  align_int = λ x a. (x + (a - 1)) / a * a;
  varint = four_bytes;
}

pub machine-IsPlatform : IsPlatform machine
machine-IsPlatform = record {
  bsr_law = bsr-IsBsr;
  align_law = λ x a pos. refl;
  varint_law = four_bytes-IsVarint;
}
