-- ===== src/Search/Flights/Marks.antt =====
-- What it means that one open flight was found and marked, and the laws of the lookups.
use mathlib.Core.List.{Memᴰ}
use mathlib.Core.List.Memᴰ
use sample_code.Common.{
  ℕ, suc, ◌≡◌, ◌⊎◌, inl, inr, refl, ap, arith, Bool, true, false, if◌then◌else◌, Bool-cases,
  Option-cases, none, some, List, [], ◌∷◌,
}
use sample_code.Search.Flights.{FlightInfo, used, reset_all_skip, take_first}

-- The flights that a search may still take.
abbrev pub open_flights : List FlightInfo → ℕ
open_flights [] = 0
open_flights (x ∷ fl) = if x.skip then open_flights fl else suc (open_flights fl)

-- `f` stood open among `fl`, and is marked in `fl'`; nothing else differs.
pub record Marks (f : FlightInfo) (fl fl' : List FlightInfo) : Type 0 where
  pub found : Memᴰ f fl
  pub free : f.skip ≡ false
  pub fewer : suc (open_flights fl') ≡ open_flights fl
  pub same : reset_all_skip fl' ≡ reset_all_skip fl
  pub kept : (g : FlightInfo) → Memᴰ g fl' → Memᴰ g fl ⊎ (g ≡ used f)
  pub old : (g : FlightInfo) → Memᴰ g fl → Memᴰ g fl' ⊎ (g ≡ f) × Memᴰ (used f) fl'

pub Marks-head :
    (f : FlightInfo) (fl : List FlightInfo) → f.skip ≡ false → Marks f (f ∷ fl) (used f ∷ fl)
unfolding reset_all_skip
Marks-head f fl free = record {
  found = Memᴰ.head refl;
  free = free;
  fewer = rw free refl;
  same = refl;
  kept = λ g m. elim (Memᴰ.cases_cons m) [ inl e ↦ inr e | inr t ↦ inl (Memᴰ.tail t) ];
  old = λ g m. elim (Memᴰ.cases_cons m) [
    | inl e ↦ inr (e, Memᴰ.head refl)
    | inr t ↦ inl (Memᴰ.tail t)
  ];
}

pub Marks-cons :
    (x f : FlightInfo) (fl fl' : List FlightInfo) → Marks f fl fl' → Marks f (x ∷ fl) (x ∷ fl')
unfolding reset_all_skip
Marks-cons x f fl fl' h = record {
  found = Memᴰ.tail h.found;
  free = h.free;
  fewer = ground (arith, h.fewer);
  same = ap (λ (l : List FlightInfo). record x { skip = false } ∷ l) h.same;
  kept = λ g m. elim (Memᴰ.cases_cons m) [
    | inl e ↦ inl (Memᴰ.head e)
    | inr t ↦ elim (h.kept g t) [ inl o ↦ inl (Memᴰ.tail o) | inr e ↦ inr e ]
  ];
  old = λ g m. elim (Memᴰ.cases_cons m) [
    | inl e ↦ inl (Memᴰ.head e)
    | inr t ↦ elim (h.old g t) [ inl o ↦ inl (Memᴰ.tail o) | inr (e, u) ↦ inr (e, Memᴰ.tail u) ]
  ];
}

-- The loop marks the first flight that passes, if its test asks for an open one, and finds one
-- whenever there is one.
module _ (test : FlightInfo → Bool) where
  pub take_first-Marks :
      (fl : List FlightInfo) (f : FlightInfo) (fl' : List FlightInfo)
      → ((x : FlightInfo) → test x ≡ true → x.skip ≡ false)
      → take_first test fl ≡ some (f, fl')
      → Marks f fl fl' × (test f ≡ true)
  unfolding take_first
  take_first-Marks [] f fl' free e = cc
  take_first-Marks (x ∷ fl) f fl' free e = elim (Bool-cases (test x)) [
    | inl t ↦
        let here : some (x, used x ∷ fl) ≡ some (f, fl') = rw t at e in
        let p : f ≡ x = cc in
        let q : fl' ≡ used x ∷ fl = cc in rw (p, q) (Marks-head x fl (free x t), t)
    | inr t ↦ elim (Option-cases (take_first test fl)) [
      | inl n ↦ absurd (ground arith)
      | inr ((g, rest), found) ↦
          let p : f ≡ g = ground arith in
          let q : fl' ≡ x ∷ rest = ground arith in
          let later = take_first-Marks fl g rest free found in
          rw (p, q) (Marks-cons x g fl rest later.0, later.1)
    ]
  ]

  pub take_first-none :
      (fl : List FlightInfo)
      → take_first test fl ≡ none
      → (g : FlightInfo) → Memᴰ g fl
      → test g ≡ false
  unfolding take_first
  take_first-none [] e g m = absurd (Memᴰ.not-nil m)
  take_first-none (x ∷ fl) e g m = elim (Memᴰ.cases_cons m) [
    | inl h ↦ rw h (ground arith)
    | inr later ↦ take_first-none fl (ground arith) g later
  ]
