-- ===== src/Codec/Encoder/Steps.antt =====
-- One value of the encoder's loop, and then the loop.
use sample_code.Common.{
  ℕ, ◌+◌, ◌*◌, ◌^◌, ◌≤◌, ◌<◌, ◌≡◌, ◌≢◌, ◌∙◌, sym, ap, arith, true, false, All, Bool-cases, inl, inr,
  Option, some, List, [], ◌∷◌, length,
}
use native.Mathlib.Nat.{le_refl}
use sample_code.Words.Bytes.{Memory, IsBytes, memory_bit}
use sample_code.Codec.Writeto.{writeto}
use sample_code.Codec.Writeto.Bits.{Ors, writeto-IsBytes, writeto-Ors}
use sample_code.Codec.Writeto.Fields.{
  SameField, code_field, code_field-SameField, code_field_written, written_before, written_behind,
  written_other, fields_apart,
}
use sample_code.Codec.Encoder.{
  ExceptionOps, distance, is_exception, link, encode_one, encode_values, close,
}
use sample_code.Codec.Encoder.Links.{place, jump, link-IsBytes, link-Ors}
use sample_code.Codec.Encoder.Laws.{IsExceptionStore, exception, normal}
use sample_code.Codec.Encoder.Invariant.{
  IsNear, IsCodable, IsReady, IsEncoded, distance_fits, next-IsNear, encode_end, below_room,
}

module _ (ops : ExceptionOps) (laws : IsExceptionStore ops) (base w e n : ℕ)
    (c : IsCodable w e n) where
  open ops use {Cursor, address, add, next}

  module _ (d j : ℕ) (m : Memory) (x : Cursor) (last : Option ℕ)
      (r : IsReady ops laws base w e n c m x last j) (lt : j < n) where
    -- A value that fits.
    module _ (small : d ≤ e) (near : IsNear e last (j + 1)) where
      put : Memory
      put = writeto d m base w (j + 1)

      fits : d < 2 ^ w
      fits = omega (arith, c.fits)

      put-Ors : Ors m put (8 * base + (j + 1) * w) d
      unfolding put
      put-Ors = writeto-Ors d m base w (j + 1) r.bytes c.pos c.wide fits

      put_other : (k : ℕ) → k ≢ j + 1 → SameField m put base w k
      put_other k ne = written_other m put base w (j + 1) d fits put-Ors k ne

      place_apart : place last ≢ j + 1
      place_apart = omega (arith, r.behind)

      put-IsReady : IsReady ops laws base w e n c put x last (j + 1)
      put-IsReady = record {
        bytes = unfold put in writeto-IsBytes d m base w (j + 1) r.bytes;
        ahead = λ k p q t u. put_other k (omega arith) t u ∙ r.ahead k (omega arith) q t u;
        waiting = λ t u. put_other (place last) place_apart t u ∙ r.waiting t u;
        room = r.room;
        near = near;
        behind = omega (arith, r.behind);
      }

      put-IsEncoded :
          {ds : List ℕ} {m' : Memory} {stop : ℕ}
          → IsEncoded ops laws base w e n c put x last (j + 1) ds m' stop
          → IsEncoded ops laws base w e n c m x last j (d ∷ ds) m' stop
      put-IsEncoded {m' = m'} s = record {
        bytes = s.bytes;
        kept = λ k h ne t u. s.kept k (omega arith) ne t u ∙ put_other k (omega arith) t u;
        before = λ p h.
            s.before p h ∙ written_before m put base w (j + 1) d fits put-Ors p (omega arith);
        stored = λ p h u.
            s.stored p h u
            ∙ written_behind m put base w (j + 1) d fits put-Ors p (omega (arith, below_end));
        ahead = s.ahead;
        coded = normal (held ∙ written) s.coded;
      }
        where
          below_end : (j + 1) * w + w ≤ (n + 1) * w
          below_end = fields_apart (n + 1) (j + 1) w (omega arith)

          held : code_field m' base w (j + 1) ≡ code_field put base w (j + 1)
          held =
              code_field-SameField put m' base w (j + 1)
                (s.kept (j + 1) (le_refl _) (λ q. place_apart (sym q)))

          written : code_field put base w (j + 1) ≡ d
          written =
              code_field_written m put base w (j + 1) d fits put-Ors
                (r.ahead (j + 1) (omega arith) (omega arith))

      encode_one-put :
          is_exception e d last j ≡ false
          → encode_one ops base w e d (record { buf = m; excepts = x; last = last; idx = j })
            ≡ record { buf = put; excepts = x; last = last; idx = j + 1 }
      unfolding encode_one put
      encode_one-put t = rw t

    -- An exception.
    module _ (word : d < 2 ^ 32) where
      linked : Memory
      linked = link ops base w e last j m

      put_exception : Memory
      put_exception = (add d linked x).0

      cursor : Cursor
      cursor = (add d linked x).1

      near_end : (distance last j < 2 ^ w) × (jump last (distance last j) ≡ j + 1)
      near_end = distance_fits ops laws base w e n c last j r.near lt

      linked-IsBytes : IsBytes linked
      unfolding linked
      linked-IsBytes = link-IsBytes ops base w e c.pos c.wide last j m r.bytes

      linked-Ors : Ors m linked (8 * base + place last * w) (distance last j)
      unfolding linked
      linked-Ors =
          link-Ors ops base w e c.pos c.wide last j m r.bytes (omega (arith, c.in_range)) near_end.0

      behind_place : place last * w + w ≤ (n + 1) * w
      behind_place = fields_apart (n + 1) (place last) w (omega (arith, r.behind))

      -- Appending the exception keeps every field.
      added_field : (k : ℕ) → k ≤ n → SameField linked put_exception base w k
      unfolding put_exception
      added_field k h t u =
          laws.keeps d linked x _ (omega arith)
            (omega (arith, r.room, below_room ops laws base w e n c k t h u))

      other_field : (k : ℕ) → k ≤ n → k ≢ place last → SameField m put_exception base w k
      other_field k h ne t u =
          added_field k h t u
          ∙ written_other m linked base w (place last) (distance last j) near_end.0 linked-Ors k ne
              t u

      exception-IsReady : IsReady ops laws base w e n c put_exception cursor (some (j + 1)) (j + 1)
      exception-IsReady = record {
        bytes = unfold put_exception in laws.bytes d linked x word linked-IsBytes;
        ahead = λ k p q t u.
            other_field k q (omega (arith, r.behind)) t u ∙ r.ahead k (omega arith) q t u;
        waiting = λ t u.
            other_field (j + 1) (omega arith) (omega (arith, r.behind)) t u
            ∙ r.ahead (j + 1) (omega arith) (omega arith) t u;
        room = unfold cursor in omega (arith, r.room, laws.grows d linked x);
        near = omega arith;
        behind = le_refl _;
      }

      exception-IsEncoded :
          {ds : List ℕ} {m' : Memory} {stop : ℕ}
          → IsEncoded ops laws base w e n c put_exception cursor (some (j + 1)) (j + 1) ds m' stop
          → IsEncoded ops laws base w e n c m x last j (d ∷ ds) m' stop
      exception-IsEncoded {m' = m'} s = record {
        bytes = s.bytes;
        kept = λ k h ne t u.
            s.kept k (omega arith) (omega arith) t u ∙ other_field k (omega arith) ne t u;
        before = λ p h.
            s.before p h
            ∙ added_bits p (omega (arith, r.room))
            ∙ written_before m linked base w (place last) (distance last j) near_end.0 linked-Ors p
                (omega arith);
        stored = λ p h u.
            s.stored p h (omega (arith, further))
            ∙ added_bits p u
            ∙ written_behind m linked base w (place last) (distance last j) near_end.0 linked-Ors p
                (omega (arith, behind_place));
        ahead = omega (arith, further, s.ahead);
        coded = exception (ap (jump last) (held ∙ written) ∙ near_end.1) appended s.coded;
      }
        where
          further : address x ≤ address cursor
          further = unfold cursor in laws.grows d linked x

          added_bits :
              (p : ℕ) → p < 8 * address x → memory_bit put_exception p ≡ memory_bit linked p
          added_bits p h = unfold put_exception in laws.keeps d linked x p (omega arith) h

          held : code_field m' base w (place last) ≡ code_field linked base w (place last)
          held =
              code_field-SameField put_exception m' base w (place last)
                (s.kept (place last) (omega (arith, r.behind)) (omega (arith, r.behind)))
              ∙ code_field-SameField linked put_exception base w (place last)
                  (added_field (place last) (omega (arith, r.behind)))

          written : code_field linked base w (place last) ≡ distance last j
          written =
              code_field_written m linked base w (place last) (distance last j) near_end.0
                linked-Ors r.waiting

          appended : next m' (address x) ≡ (d, address cursor)
          appended =
              unfold put_exception cursor in
              laws.reads_back d linked m' x word linked-IsBytes s.bytes
                (λ p h u. s.stored p (omega (arith, r.room)) u)

      encode_one_exception :
          is_exception e d last j ≡ true
          → encode_one ops base w e d (record { buf = m; excepts = x; last = last; idx = j })
            ≡ record { buf = put_exception; excepts = cursor; last = some (j + 1); idx = j + 1 }
      unfolding encode_one put_exception cursor linked
      encode_one_exception t = rw t

  -- The rest of the loop and its end code the rest of the values.
  pub encode_values-IsEncoded :
      (ds : List ℕ) (m : Memory) (x : Cursor) (last : Option ℕ) (j : ℕ)
      → IsReady ops laws base w e n c m x last j
      → j + length ds ≡ n
      → All (λ d. d < 2 ^ 32) ds
      → let s =
          encode_values ops base w e ds (record { buf = m; excepts = x; last = last; idx = j }) in
        IsEncoded ops laws base w e n c m x last j ds
          (close ops base w e s.last s.buf)
          (address s.excepts)
  unfolding encode_values
  encode_values-IsEncoded [] m x last j r q h =
      let p : j ≡ n = omega arith in rw p (encode_end ops laws base w e n c m x last (rw p at r))
  encode_values-IsEncoded (d ∷ ds) m x last j r q (word, words) =
      let lt : j < n = omega arith in
      let q' : j + 1 + length ds ≡ n = omega arith in
      elim (Bool-cases (is_exception e d last j)) [
        | inl t ↦
            rw (encode_one_exception d j m x last r lt word t, encode_values)
              (exception-IsEncoded d j m x last r lt word (
                encode_values-IsEncoded ds _ _ (some (j + 1)) (j + 1)
                  (exception-IsReady d j m x last r lt word) q' words))
        | inr t ↦
            let (small, near) = next-IsNear ops laws base w e n c last j d r.near lt t in
            rw (encode_one-put d j m x last r lt small near t, encode_values)
              (put-IsEncoded d j m x last r lt small near (
                encode_values-IsEncoded ds _ x last (j + 1)
                  (put-IsReady d j m x last r lt small near) q' words))
      ]
