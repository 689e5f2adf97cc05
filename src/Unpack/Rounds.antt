-- ===== src/Unpack/Rounds.antt =====
-- The loops around the 32 assignments, and the law that they share: whole blocks of 32 fields are
-- unpacked, and the rest of the output is left alone.
use sample_code.Common.{
  ℕ, zero, suc, ◌+◌, ◌-◌, ◌*◌, ◌/◌, ◌≤◌, ◌≡◌, ap, ◌∙◌, arith, ltb, leb, ◌&&◌, true, Bool-cases, inl,
  inr, if◌then◌else◌, List, [], ◌∷◌, update,
}
use sample_code.Unpack.Stream.{Words, IsWords, Array, field, shift_words, field-shift_words}
use sample_code.Unpack.Table.{Slot, eval, reads, reads_from, eval-field}

-- The assignments of a loop's body, from `output[j]` on.
unfoldable pub store_rows : Words → List Slot → ℕ → Array → Array
store_rows e [] j out = out
store_rows e (s ∷ ss) j out = store_rows e ss (suc j) (update out j (eval e s))

-- `for ( ; num >= 32; num -= 32 ) { rows; encode += w; j += 32; }` of p4delta.cpp
unfoldable pub unpack_rounds : ℕ → ℕ → List Slot → ℕ → Words → ℕ → Array → Array
unpack_rounds zero w rows num e j out = out
unpack_rounds (suc fuel) w rows num e j out =
    let rest =
      unpack_rounds fuel w rows (num - 32) (shift_words e w) (j + 32) (store_rows e rows j out) in
    if leb 32 num then rest else out

-- `for(int i = 32; i <= n; i+=32){ rows; encode += w; j += 32; }` of IndexCompression.cpp
unfoldable pub unpack_upto : ℕ → ℕ → List Slot → ℕ → ℕ → Words → ℕ → Array → Array
unpack_upto zero w rows i n e j out = out
unpack_upto (suc fuel) w rows i n e j out =
    let rest =
      unpack_upto fuel w rows (i + 32) n (shift_words e w) (j + 32) (store_rows e rows j out) in
    if leb i n then rest else out

-- `f` unpacks `num / 32` blocks of 32 fields of width `w`.
abbrev pub IsUnpacker : ℕ → (Array → Words → ℕ → Array) → Type 0
IsUnpacker w f =
    (output : Array) (encode : Words) (num i : ℕ)
    → IsWords encode
    → f output encode num i ≡ (if ltb i (num / 32 * 32) then field encode w i else output i)

place-le : (w i : ℕ) (rows : List Slot) → reads_from w i rows ≡ true → i ≤ 32
unfolding reads_from
place-le w i [] c = ground arith
place-le w i (s ∷ ss) c = ground (arith, place-le w (suc i) ss)

store_rows_at :
    (e : Words) (w : ℕ) (rows : List Slot) (i j : ℕ) (out : Array) (p : ℕ)
    → IsWords e
    → reads_from w i rows ≡ true
    → store_rows e rows (j + i) out p
      ≡ (if leb (j + i) p && ltb p (j + 32) then field e w (p - j) else out p)
unfolding store_rows
store_rows_at e w [] i j out p h c = unfold reads_from in ground arith
store_rows_at e w (s ∷ ss) i j out p h c =
    let (first, later) = split c in
    let next : suc (j + i) ≡ j + suc i = omega arith in
    rw next (
      ground (
        arith,
        store_rows_at e w ss (suc i) j (update out (j + i) (eval e s)) p h later,
        eval-field e w i s h first,
        place-le w (suc i) ss later,
        at_place,
      ))
  where
    split : reads_from w i (s ∷ ss) ≡ true → (reads w i s ≡ true) × (reads_from w (suc i) ss ≡ true)
    split d = unfold reads_from in ground arith

    at_place : (p ≡ j + i) → field e w (p - j) ≡ field e w i
    at_place q = ap (field e w) (omega arith)

module _ (w : ℕ) (rows : List Slot) (c : reads_from w 0 rows ≡ true) where
  -- One turn of either loop: the block at `j`, and then what the later turns do.
  block_at :
      (e : Words) (j : ℕ) (out : Array) (p : ℕ)
      → IsWords e
      → store_rows e rows j out p ≡ (if leb j p && ltb p (j + 32) then field e w (p - j) else out p)
  block_at e j out p h =
      let at : j + 0 ≡ j = omega arith in rw at at (store_rows_at e w rows 0 j out p h c)

  later_field :
      (e : Words) (j p : ℕ)
      → j + 32 ≤ p
      → field (shift_words e w) w (p - (j + 32)) ≡ field e w (p - j)
  later_field e j p h = field-shift_words e w (p - (j + 32)) ∙ ap (field e w) (omega arith)

  -- `rest` is what the later turns, started behind the block at `j`, make of the output.
  later_at :
      (num : ℕ) (e : Words) (j : ℕ) (out : Array) (p : ℕ) (rest : ℕ)
      → IsWords e
      → 32 ≤ num
      → rest ≡ (
          if leb (j + 32) p && ltb p (j + 32 + (num - 32) / 32 * 32)
          then field (shift_words e w) w (p - (j + 32))
          else store_rows e rows j out p)
      → rest ≡ (if leb j p && ltb p (j + num / 32 * 32) then field e w (p - j) else out p)
  later_at num e j out p rest h more r = ground (arith, block_at e j out p h, later_field e j p)

  unpack_rounds_at :
      (fuel num : ℕ) (e : Words) (j : ℕ) (out : Array) (p : ℕ)
      → IsWords e
      → num / 32 ≤ fuel
      → unpack_rounds fuel w rows num e j out p
        ≡ (if leb j p && ltb p (j + num / 32 * 32) then field e w (p - j) else out p)
  unfolding unpack_rounds
  unpack_rounds_at zero num e j out p h f = ground arith
  unpack_rounds_at (suc fuel) num e j out p h f =
      let later =
        unpack_rounds_at fuel (num - 32) (shift_words e w) (j + 32) (store_rows e rows j out) p
          (λ k. h (w + k)) (omega arith) in
      elim (Bool-cases (leb 32 num)) [
        | inl more ↦ rw more (later_at num e j out p _ h (ground arith) later)
        | inr done ↦ rw done (ground arith)
      ]

  unpack_upto_at :
      (fuel i n : ℕ) (e : Words) (j : ℕ) (out : Array) (p : ℕ)
      → IsWords e
      → (n + 32 - i) / 32 ≤ fuel
      → i ≤ n + 32
      → unpack_upto fuel w rows i n e j out p
        ≡ (if leb j p && ltb p (j + (n + 32 - i) / 32 * 32) then field e w (p - j) else out p)
  unfolding unpack_upto
  unpack_upto_at zero i n e j out p h f b = ground arith
  unpack_upto_at (suc fuel) i n e j out p h f b = ground (
    arith,
    unpack_upto_at fuel (i + 32) n (shift_words e w) (j + 32) (store_rows e rows j out) p
        (λ k. h (w + k)),
    block_at e j out p h,
    later_field e j p,
  )

  -- `num` rounds are enough for both loops.
  pub unpack_rounds-IsUnpacker :
      IsUnpacker w (λ output encode num. unpack_rounds num w rows num encode 0 output)
  unpack_rounds-IsUnpacker output encode num i h =
      ground (arith, unpack_rounds_at num num encode 0 output i h)

  pub unpack_upto-IsUnpacker :
      IsUnpacker w (λ output encode n. unpack_upto n w rows 32 n encode 0 output)
  unpack_upto-IsUnpacker output encode n i h =
      ground (arith, unpack_upto_at n 32 n encode 0 output i h)
