-- ===== src/IndexCompression/Class/Room.antt =====
-- `compression` keeps inside `m_buf`: where its stores go, and the size that it reports.
use sample_code.Common.{
  ℕ, ◌+◌, ◌-◌, ◌*◌, ◌/◌, ◌%◌, ◌^◌, ◌≤◌, ◌≡◌, ◌∙◌, refl, arith, Option, none, some, List, [], ◌∷◌,
  length, update, ltb, ◌==◌, Bool-cases, inl, inr, if◌then◌else◌,
}
use sample_code.Words.Bytes.{Memory, store32}
use sample_code.Common.Outcome.{done}
use sample_code.Codec.Writeto.{or_word, writeto}
use sample_code.Codec.Writeto.Fields.{fields_apart}
use sample_code.Codec.Encoder.{
  EncodeState, distance, is_exception, link, encode_one, encode_values, close,
}
use sample_code.Codec.Encoder.Links.{place}
use sample_code.IndexCompression.Delta.{get_delta_list}
use sample_code.IndexCompression.Delta.RoundTrip.{length-get_delta_list, get_delta_list-words}
use sample_code.IndexCompression.BitSize.Bound.{IsBsr, get_bit_size-done}
use sample_code.IndexCompression.Class.{
  IndexCompression, get_comp_size, maxentry_of, ceil_offset, memset, encode, compression,
}
use sample_code.IndexCompression.Class.Exceptions.{Tail, addexcept, index_exceptions}
use sample_code.IndexCompression.Class.RoundTrip.{encode_size}

or_word_beyond : (m : Memory) (k v a : ℕ) → 1 + 4 * k + 4 ≤ a → or_word m 1 k v a ≡ m a
unfolding or_word store32
or_word_beyond m k v a h = ground arith

-- `a` is behind the words that hold the fields 0 to `n`.
module _ (w n a : ℕ) (pos : 1 ≤ w) (behind : 1 + 4 * (((n + 1) * w - 1) / 32) + 4 ≤ a) where
  writeto_beyond : (v i : ℕ) (m : Memory) → i ≤ n → writeto v m 1 w i a ≡ m a
  unfolding writeto
  writeto_beyond v i m le =
      let inside : i * w + w ≤ (n + 1) * w = fields_apart (n + 1) i w (omega arith) in
      let first =
        or_word_beyond m (i * w / 2 ^ 5) (v * 2 ^ (i * w - i * w / 2 ^ 5 * 2 ^ 5) % 2 ^ 32) a
          (omega arith) in
      elim (Bool-cases ((i * w + w - 1) / 2 ^ 5 == i * w / 2 ^ 5)) [
        | inl e ↦ rw e first
        | inr e ↦ rw e (or_word_beyond _ ((i * w + w - 1) / 2 ^ 5) _ a (omega arith) ∙ first)
      ]

  module _ (e : ℕ) where
    link_beyond :
        (last : Option ℕ) (i : ℕ) (m : Memory)
        → place last ≤ n
        → link (index_exceptions 4) 1 w e last i m a ≡ m a
    unfolding link
    link_beyond none i m le = or_word_beyond m 0 (i + 1) a (omega arith)
    link_beyond (some l) i m le = writeto_beyond (distance (some l) i) l m le

    close_beyond :
        (last : Option ℕ) (m : Memory)
        → place last ≤ n
        → close (index_exceptions 4) 1 w e last m a ≡ m a
    unfolding close
    close_beyond none m le = ground arith
    close_beyond (some l) m le = writeto_beyond e l m le

    -- The exception that is appended stands in front of `a`, too.
    append_beyond :
        (d i x : ℕ) (last : Option ℕ) (m : Memory)
        → place last ≤ n
        → x + 4 ≤ a
        → store32 (link (index_exceptions 4) 1 w e last i m) x d a ≡ m a
    unfolding store32
    append_beyond d i x last m le room = ground (arith, link_beyond last i m le)

    -- One turn of the loop stores in front of `a`, and its last exception is one of the fields.
    encode_one_beyond :
        (d : ℕ) (s : EncodeState Tail)
        → s.idx + 1 ≤ n
        → place s.last ≤ n
        → s.excepts.excepts + 4 ≤ a
        → let r = encode_one (index_exceptions 4) 1 w e d s in
          (r.buf a ≡ s.buf a)
          × (place r.last ≤ n)
          × (r.idx ≡ s.idx + 1)
          × (r.excepts.excepts ≤ s.excepts.excepts + 4)
    unfolding encode_one addexcept
    encode_one_beyond d s count le room = elim (Bool-cases (is_exception e d s.last s.idx)) [
      | inl x ↦ rw x (
        append_beyond d s.idx s.excepts.excepts s.last s.buf le room,
        omega arith,
        refl,
        omega arith,
      )
      | inr x ↦ rw x (writeto_beyond d (s.idx + 1) s.buf (omega arith), le, refl, omega arith)
    ]

    encode_values_beyond :
        (ds : List ℕ) (s : EncodeState Tail)
        → s.idx + length ds ≤ n
        → place s.last ≤ n
        → s.excepts.excepts + 4 * length ds ≤ a
        → let r = encode_values (index_exceptions 4) 1 w e ds s in
          (r.buf a ≡ s.buf a) × (place r.last ≤ n)
    unfolding encode_values
    encode_values_beyond [] s count le room = (refl, le)
    encode_values_beyond (d ∷ ds) s count le room =
        let (kept, le', idx, grown) = encode_one_beyond d s (omega arith) le (omega arith) in
        let rest =
          encode_values_beyond ds (encode_one (index_exceptions 4) 1 w e d s) (omega (arith, idx))
            le' (omega (arith, grown)) in
        (rest.0 ∙ kept, rest.1)

-- Whatever the values are, encode of at least one value, with a width from 1 to 32 and four bytes
-- to an exception, changes no byte of m_buf from (n + 1) * 8 on, where n is their number.
pub encode_room :
    (bsr : ℕ → ℕ) (wide : ℕ) (s : IndexCompression) (ds : List ℕ) (w a : ℕ)
    → 1 ≤ length ds
    → 1 ≤ w
    → w ≤ 32
    → (length ds + 1) * 8 ≤ a
    → (encode bsr wide ds w 4 s).m_buf a ≡ s.m_buf a
unfolding encode
encode_room bsr wide s ds w a filled pos narrow le =
    let n = length ds in
    let e = maxentry_of wide w in
    let product : (n + 1) * w ≤ 32 * (n + 1) = grind arith in
    let behind : 1 + 4 * (((n + 1) * w - 1) / 32) + 4 ≤ a = omega (arith, product) in
    let start : EncodeState Tail = record {
      buf = update s.m_buf 0 (w % 2 ^ 8);
      excepts = record {
        excepts = 1 + ceil_offset w n;
        m_offset = s.m_offset + 1 + ceil_offset w n;
      };
      last = none;
      idx = 0;
    } in
    let run =
      encode_values_beyond w n a pos behind e ds start (omega arith) (omega arith)
        (omega (arith, product)) in
    close_beyond w n a pos behind e _ _ run.1 ∙ run.0 ∙ ground arith

-- `compression` of 1 to 127 ids returns, whatever width they need, with four bytes to an exception:
-- for n ids getCompSize is then at most (n + 1) * 8, and from byte (n + 1) * 8 on m_buf is 0 inside
-- the 1024 bytes that it has, and unchanged behind them.
pub compression_room :
    (bsr : ℕ → ℕ) (wide : ℕ) (s : IndexCompression) (docs : List ℕ)
    → IsBsr bsr
    → 1 ≤ length docs
    → length docs ≤ 127
    → (r : IndexCompression) × (compression bsr wide s docs 4 ≡ done (r, (get_delta_list 0 docs).0))
      × (get_comp_size r ≤ (length docs + 1) * 8)
      × ((a : ℕ) → (length docs + 1) * 8 ≤ a → r.m_buf a ≡ (if ltb a 1024 then 0 else s.m_buf a))
unfolding compression get_comp_size
compression_room bsr wide s docs law filled few =
    let ds = (get_delta_list 0 docs).0 in
    let len : length ds ≡ length docs = length-get_delta_list 0 docs in
    let (w, sized, pos, narrow) =
      get_bit_size-done bsr law 32 ds (omega arith) (omega arith) (omega arith) (omega arith)
        (get_delta_list-words 0 docs) in
    let s' = record s {
      m_offset = 0;
      m_buf = memset 1024 s.m_buf;
      m_last_encode = (get_delta_list 0 docs).1;
    } in
    (
      encode bsr wide ds w 4 s',
      rw sized refl,
      omega (arith, len, encode_size bsr wide s' ds w refl narrow),
      λ a le.
          encode_room bsr wide s' ds w a (omega arith) pos narrow (omega (arith, len))
          ∙ (unfold memset in refl),
    )
