-- ===== src/Codec/Encoder.antt =====
-- The value loop of `IndexCompression::encode` and of `p4d_compress`: a value that fits goes into
-- its field; any other is an exception, which is appended behind the fields, while its own field
-- holds the distance to the next exception.
pub mod Links
pub mod Laws
pub mod Invariant
pub mod Steps
use sample_code.Common.{
  ℕ, ◌+◌, ◌-◌, ◌*◌, ◌%◌, ◌^◌, bit_or, Bool, ◌||◌, ltb, leb, if◌then◌else◌, Option, none, some, List,
  [], ◌∷◌, update,
}
use sample_code.Words.Bytes.{Memory}
use sample_code.Codec.Writeto.{or_word, writeto}

-- How exceptions are stored: the one thing in which the two encoders differ. `Cursor` is what the
-- encoder keeps to append the next one, `address` its place in memory.
pub record ExceptionOps : Type 1 where
  pub Cursor : Type 0
  pub address : Cursor → ℕ
  pub add : ℕ → Memory → Cursor → Memory × Cursor
  pub next : Memory → ℕ → ℕ × ℕ

-- The variables of the loop. `last` is `lastexcept` (`last_idx`), with `none` for -1.
pub record EncodeState (X : Type 0) : Type 0 where
  pub buf : Memory
  pub excepts : X
  pub last : Option ℕ
  pub idx : ℕ

-- `(uint32_t)(i - lastexcept)`
abbrev pub distance : Option ℕ → ℕ → ℕ
distance none i = (i + 1) % 2 ^ 32
distance (some l) i = (i + 2 ^ 32 - l) % 2 ^ 32

-- The encoder's test for an exception.
abbrev pub is_exception : ℕ → ℕ → Option ℕ → ℕ → Bool
is_exception maxentry d last idx = ltb maxentry d || leb maxentry (distance last idx)

module _ (ops : ExceptionOps) (base bit_size maxentry : ℕ) where
  open ops use {Cursor, add}

  -- The distance goes into the field of the exception before, or into field 0.
  unfoldable pub link : Option ℕ → ℕ → Memory → Memory
  link none idx m = or_word m base 0 (idx + 1)
  link (some l) idx m = writeto (distance (some l) idx) m base bit_size l

  unfoldable pub encode_one : ℕ → EncodeState Cursor → EncodeState Cursor
  encode_one d s =
      let (m, x) = add d (link s.last s.idx s.buf) s.excepts in
      if is_exception maxentry d s.last s.idx
      then record { buf = m; excepts = x; last = some (s.idx + 1); idx = s.idx + 1 }
      else record s { buf = writeto d s.buf base bit_size (s.idx + 1); idx = s.idx + 1 }

  unfoldable pub encode_values : List ℕ → EncodeState Cursor → EncodeState Cursor
  encode_values [] s = s
  encode_values (d ∷ ds) s = encode_values ds (encode_one d s)

  -- The chain of exceptions is ended by `maxentry`; without one, by its low byte in field 0.
  unfoldable pub close : Option ℕ → Memory → Memory
  close none m = update m base (bit_or (m base) (maxentry % 2 ^ 8))
  close (some l) m = writeto maxentry m base bit_size l
