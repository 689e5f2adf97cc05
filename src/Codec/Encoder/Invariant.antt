-- ===== src/Codec/Encoder/Invariant.antt =====
-- The encoder's loop produces the format, from any state between two values.
use native.Mathlib.Nat.{le_refl, pow-le-pow_right}
use sample_code.Common.{
  ℕ, ◌+◌, ◌*◌, ◌%◌, ◌^◌, ◌≤◌, ◌<◌, max, ◌≡◌, ◌≢◌, refl, arith, false, Option, none, some, List, [],
}
use sample_code.Words.Bytes.{Memory, IsBytes, memory_bit}
use sample_code.Codec.Writeto.Bits.{Ors}
use sample_code.Codec.Writeto.Fields.{
  Clear, SameField, code_field, code_field_written, written_before, written_behind, written_other,
  fields_apart,
}
use sample_code.Codec.Encoder.{ExceptionOps, distance, is_exception, close}
use sample_code.Codec.Encoder.Links.{place, jump, end_mark, close-IsBytes, close-Ors, end_mark-lt}
use sample_code.Codec.Encoder.Laws.{IsExceptionStore, Coded, ends}

-- The distance that is still open stays within what a field can hold.
abbrev pub IsNear : ℕ → Option ℕ → ℕ → Type 0
IsNear maxentry none j = j + 1 ≤ max maxentry 1
IsNear maxentry (some l) j = (l ≤ j) × (j ≤ l + maxentry)

-- The bounds under which a block of `n` values can be coded with width `w`.
pub record IsCodable (w maxentry n : ℕ) : Type 0 where
  pub pos : 1 ≤ w
  pub wide : w ≤ 32
  pub fits : maxentry < 2 ^ w
  pub some_values : 1 ≤ n
  pub marked : n < maxentry → n < maxentry % 2 ^ 8
  pub in_range : n + maxentry + 1 < 2 ^ 31

module _ (ops : ExceptionOps) (laws : IsExceptionStore ops) (base w e n : ℕ)
    (c : IsCodable w e n) where
  open ops use {Cursor, address, add, next}

  pub record IsReady (m : Memory) (x : Cursor) (last : Option ℕ) (j : ℕ) : Type 0 where
    pub bytes : IsBytes m
    pub ahead : (k : ℕ) → j < k → k ≤ n → Clear m base w k
    pub waiting : Clear m base w (place last)
    pub room : 8 * base + (n + 1) * w ≤ 8 * address x
    pub near : IsNear e last j
    pub behind : place last ≤ j

  -- `m'` is what the rest of the encoder, for the values `ds`, makes of `m`.
  pub record IsEncoded (m : Memory) (x : Cursor) (last : Option ℕ) (j : ℕ) (ds : List ℕ)
      (m' : Memory) (stop : ℕ) : Type 0 where
    pub bytes : IsBytes m'
    pub kept : (k : ℕ) → k ≤ j → k ≢ place last → SameField m m' base w k
    pub before : (p : ℕ) → p < 8 * base → memory_bit m' p ≡ memory_bit m p
    pub stored :
        (p : ℕ) → 8 * base + (n + 1) * w ≤ p → p < 8 * address x → memory_bit m' p ≡ memory_bit m p
    pub ahead : address x ≤ stop
    pub coded : Coded (code_field m' base w) (next m') n stop j last (address x) ds

  pub one_fits : 1 < 2 ^ w
  one_fits = omega (arith, pow-le-pow_right {n = 2} (omega arith) c.pos)

  pub distance_fits :
      (last : Option ℕ) (j : ℕ)
      → IsNear e last j
      → j < n
      → (distance last j < 2 ^ w) × (jump last (distance last j) ≡ j + 1)
  distance_fits none j near lt = ground (arith, one_fits, c.in_range, c.fits)
  distance_fits (some l) j near lt = ground (arith, c.in_range, c.fits)

  pub next-IsNear :
      (last : Option ℕ) (j d : ℕ)
      → IsNear e last j
      → j < n
      → is_exception e d last j ≡ false
      → (d ≤ e) × IsNear e last (j + 1)
  next-IsNear none j d near lt t = ground (arith, c.in_range)
  next-IsNear (some l) j d near lt t = ground (arith, c.in_range)

  pub end_jump :
      (last : Option ℕ)
      → IsNear e last n
      → (n < jump last (end_mark e last)) × (jump last (end_mark e last) < 2 ^ 31)
  end_jump none near = ground (arith, c.some_values, c.marked)
  end_jump (some l) near = ground (arith, c.in_range)

  pub below_room : (k t : ℕ) → k ≤ n → t < w → 8 * base + k * w + t < 8 * base + (n + 1) * w
  below_room k t h u = omega (arith, fields_apart (n + 1) k w (omega arith))

  pub encode_end :
      (m : Memory) (x : Cursor) (last : Option ℕ)
      → IsReady m x last n
      → IsEncoded m x last n [] (close ops base w e last m) (address x)
  encode_end m x last r = record {
    bytes = close-IsBytes ops base w e c.pos c.wide last m r.bytes;
    kept = λ k h ne. written_other m m' base w (place last) v small o k ne;
    before = λ p h. written_before m m' base w (place last) v small o p (omega arith);
    stored = λ p h u.
        written_behind m m' base w (place last) v small o p
          (omega (arith, fields_apart (n + 1) (place last) w (omega (arith, r.behind))));
    ahead = le_refl (address x);
    coded = ends (rw written jumps.0) (rw written jumps.1) refl;
  }
    where
      m' : Memory
      m' = close ops base w e last m

      v : ℕ
      v = end_mark e last

      small : v < 2 ^ w
      small = end_mark-lt ops base w e c.pos c.wide last c.fits

      o : Ors m m' (8 * base + place last * w) v
      o = close-Ors ops base w e c.pos c.wide last m r.bytes c.fits

      written : code_field m' base w (place last) ≡ v
      written = code_field_written m m' base w (place last) v small o r.waiting

      jumps : (n < jump last v) × (jump last v < 2 ^ 31)
      jumps = end_jump last r.near
