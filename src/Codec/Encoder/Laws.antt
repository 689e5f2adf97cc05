-- ===== src/Codec/Encoder/Laws.antt =====
-- What the encoder needs of the exceptions' storage, and the format that it produces.
use sample_code.Common.{ℕ, ◌+◌, ◌*◌, ◌^◌, ◌≤◌, ◌<◌, ◌≡◌, Option, some, List, [], ◌∷◌}
use sample_code.Words.Bytes.{Memory, IsBytes, memory_bit}
use sample_code.Codec.Encoder.{ExceptionOps}
use sample_code.Codec.Encoder.Links.{place, jump}

-- Memory `m'` has the bits of `m` from byte `a` up to byte `b`.
abbrev pub SameBytes : Memory → Memory → ℕ → ℕ → Type 0
SameBytes m m' a b = (p : ℕ) → 8 * a ≤ p → p < 8 * b → memory_bit m' p ≡ memory_bit m p

-- Appending goes forward and keeps what stands before; what was appended is read back.
pub record IsExceptionStore (ops : ExceptionOps) : Type 1 where
  pub grows : (v : ℕ) (m : Memory) (x : ops.Cursor) → ops.address x ≤ ops.address (ops.add v m x).1
  pub bytes :
      (v : ℕ) (m : Memory) (x : ops.Cursor) → v < 2 ^ 32 → IsBytes m → IsBytes (ops.add v m x).0
  pub keeps :
      (v : ℕ) (m : Memory) (x : ops.Cursor) → SameBytes m (ops.add v m x).0 0 (ops.address x)
  pub reads_back :
      (v : ℕ) (m m' : Memory) (x : ops.Cursor)
      → v < 2 ^ 32
      → IsBytes m
      → IsBytes m'
      → SameBytes (ops.add v m x).0 m' (ops.address x) (ops.address (ops.add v m x).1)
      → ops.next m' (ops.address x) ≡ (v, ops.address (ops.add v m x).1)

-- `Coded field next n stop j last ptr ds`: the fields behind `j` and the exceptions from `ptr` to
-- `stop` represent the values `ds`, with `n` the last field; the field of `last` leads to the next
-- exception.
pub data Coded (field : ℕ → ℕ) (next : ℕ → ℕ × ℕ) (n stop : ℕ)
    : ℕ → Option ℕ → ℕ → List ℕ → Type 0 where
  ends :
      {j : ℕ} {last : Option ℕ} {ptr : ℕ}
      → n < jump last (field (place last))
      → jump last (field (place last)) < 2 ^ 31
      → ptr ≡ stop
      → Coded field next n stop j last ptr []
  exception :
      {j : ℕ} {last : Option ℕ} {ptr d ptr' : ℕ} {ds : List ℕ}
      → jump last (field (place last)) ≡ j + 1
      → next ptr ≡ (d, ptr')
      → Coded field next n stop (j + 1) (some (j + 1)) ptr' ds
      → Coded field next n stop j last ptr (d ∷ ds)
  normal :
      {j : ℕ} {last : Option ℕ} {ptr d : ℕ} {ds : List ℕ}
      → field (j + 1) ≡ d
      → Coded field next n stop (j + 1) last ptr ds
      → Coded field next n stop j last ptr (d ∷ ds)
