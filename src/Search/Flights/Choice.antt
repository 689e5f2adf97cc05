-- ===== src/Search/Flights/Choice.antt =====
-- The laws of the lookups that choose by distance.
use Prim.Native.String.{String}
use text.Mathlib.Text.{◌==◌}
use text.Mathlib.TextEquality.{eq_iff}
use mathlib.Core.List.{Memᴰ}
use mathlib.Core.List.Memᴰ
use sample_code.Common.{
  ℕ, zero, suc, ◌+◌, ◌≡◌, ◌⊎◌, inl, inr, refl, sym, arith, Bool, true, false, ◌&&◌, not, Bool-cases,
  Option-cases, Option, none, some, List, [], ◌∷◌,
}
use sample_code.Search.Flights.{FlightInfo, used, mark_at, pick, choose}
use sample_code.Search.Flights.Marks.{Marks, Marks-head, Marks-cons}

-- The flight that stands at a position.
data At (f : FlightInfo) : ℕ → List FlightInfo → Type 0 where
  first : {fl : List FlightInfo} {x : FlightInfo} → f ≡ x → At f zero (x ∷ fl)
  next : {i : ℕ} {x : FlightInfo} {fl : List FlightInfo} → At f i fl → At f (suc i) (x ∷ fl)

mark_at-At :
    (f : FlightInfo) (k : ℕ) (fl : List FlightInfo)
    → At f k fl
    → f.skip ≡ false
    → (fl' : List FlightInfo) × (mark_at k fl ≡ some (f, fl')) × Marks f fl fl'
unfolding mark_at
mark_at-At f zero (x ∷ fl) (first e) free = rw (sym e) (used f ∷ fl, refl, Marks-head f fl free)
mark_at-At f zero [] at free = elim at [ ]
mark_at-At f (suc k) [] at free = elim at [ ]
mark_at-At f (suc k) (x ∷ fl) (next at) free =
    let (fl', e, marks) = mark_at-At f k fl at free in
    (x ∷ fl', rw e refl, Marks-cons x f fl fl' marks)

module _ (better : ℕ → ℕ → Bool) (from : String) where
  -- The flight at a position that the loop finds from index `i` on.
  record Chosen (fl : List FlightInfo) (i p : ℕ) : Type 0 where
    chosen : FlightInfo
    offset : ℕ
    at : At chosen offset fl
    index : p ≡ i + offset
    leaves : chosen.from ≡ from
    free : chosen.skip ≡ false

  choose-some :
      (fl : List FlightInfo) (i : ℕ) (pos : Option ℕ) (dist p : ℕ)
      → choose better from fl i pos dist ≡ some p
      → (pos ≡ some p) ⊎ Chosen fl i p
  unfolding choose
  choose-some [] i pos dist p e = inl e
  choose-some (x ∷ fl) i pos dist p e = elim (choose-some fl (suc i) _ _ p e) [
    | inr c ↦ inr (record {
      chosen = c.chosen;
      offset = suc c.offset;
      at = next c.at;
      index = omega (arith, c.index);
      leaves = c.leaves;
      free = c.free;
    })
    | inl now ↦ elim (Bool-cases (x.from == from && (not x.skip && better x.distance dist))) [
      | inl t ↦ inr (record {
        chosen = x;
        offset = 0;
        at = first refl;
        index = ground (arith, t, now);
        leaves = ground (arith, t, eq_iff x.from from);
        free = ground (arith, t);
      })
      | inr t ↦ inl (rw t at now)
    ]
  ]

  choose-none :
      (fl : List FlightInfo) (i : ℕ) (pos : Option ℕ) (dist : ℕ)
      → choose better from fl i pos dist ≡ none
      → (pos ≡ none)
        × ((g : FlightInfo)
            → Memᴰ g fl
            → g.from ≡ from
            → better g.distance dist ≡ true
            → g.skip ≡ true)
  unfolding choose
  choose-none [] i pos dist e = (e, λ g m. absurd (Memᴰ.not-nil m))
  choose-none (x ∷ fl) i pos dist e =
      elim (Bool-cases (x.from == from && (not x.skip && better x.distance dist))) [
        | inl t ↦
            let (n, _) = choose-none fl (suc i) (some i) x.distance (rw t at e) in
            absurd (ground arith)
        | inr t ↦
            let (n, rest) = choose-none fl (suc i) pos dist (rw t at e) in
            (
              n,
              λ g m p q. elim (Memᴰ.cases_cons m) [
                | inl h ↦
                    let b : better x.distance dist ≡ true = rw h at q in
                    let l : x.from ≡ from = rw h at p in
                    rw h (ground (arith, t, eq_iff x.from from))
                | inr later ↦ rest g later p q
              ],
            )
      ]

  module _ (dist : ℕ) (fl : List FlightInfo) where
    -- The position that the loop finds holds an open flight.
    marked :
        (p : ℕ)
        → choose better from fl 0 none dist ≡ some p
        → (g : FlightInfo) × (rest : List FlightInfo) × (mark_at p fl ≡ some (g, rest))
          × Marks g fl rest
          × (g.from ≡ from)
    marked p chose = elim (choose-some fl 0 none dist p chose) [
      | inl n ↦ absurd (ground arith)
      | inr c ↦
          let (rest, m, marks) = mark_at-At c.chosen c.offset fl c.at c.free in
          let here : p ≡ c.offset = omega (arith, c.index) in
          (c.chosen, rest, rw here m, marks, c.leaves)
    ]

    pub pick-Marks :
        (f : FlightInfo) (fl' : List FlightInfo)
        → pick better dist from fl ≡ some (f, fl')
        → Marks f fl fl' × (f.from ≡ from)
    unfolding pick
    pick-Marks f fl' e = elim (Option-cases (choose better from fl 0 none dist)) [
      | inl n ↦ absurd (ground arith)
      | inr (p, chose) ↦
          let (g, rest, m, marks, leaves) = marked p chose in
          let same : f ≡ g = ground arith in
          let left : fl' ≡ rest = ground arith in rw (same, left) (marks, leaves)
    ]

    pub pick-none :
        pick better dist from fl ≡ none
        → (g : FlightInfo) → Memᴰ g fl
        → g.from ≡ from
        → better g.distance dist ≡ true
        → g.skip ≡ true
    unfolding pick
    pick-none e = elim (Option-cases (choose better from fl 0 none dist)) [
      | inl n ↦ (choose-none fl 0 none dist n).1
      | inr (p, chose) ↦ let (g, rest, m, marks, leaves) = marked p chose in absurd (ground arith)
    ]
