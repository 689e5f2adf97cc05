-- ===== src/Search/BreadthFirst/Restored.antt =====
-- What the resets leave of the marks, where no two flights are between the same places.
use Prim.Native.String.{String}
use text.Mathlib.Text.{◌==◌}
use text.Mathlib.TextEquality.{eq_iff}
use mathlib.Core.Path.{ap₂}
use sample_code.Common.{
  ◌≡◌, inl, inr, refl, sym, ap, arith, true, false, Bool-cases, Option-cases, Bool, ◌&&◌, not, some,
  List, [], ◌∷◌, All,
}
use sample_code.Search.Flights.{FlightInfo, used, find, take_first}
use sample_code.Search.BreadthFirst.{reset_skip}

-- `y` is between other places than `x`.
abbrev pub IsApart : FlightInfo → FlightInfo → Type 0
IsApart x y = (y.from == x.from && y.to == x.to) ≡ false

abbrev pub IsSingle : List FlightInfo → Type 0
IsSingle [] = Unit
IsSingle (x ∷ fl) = All (IsApart x) fl × IsSingle fl

reset_skip_apart :
    (f : FlightInfo) (fl : List FlightInfo) → All (IsApart f) fl → reset_skip f fl ≡ fl
unfolding reset_skip
reset_skip_apart f [] h = refl
reset_skip_apart f (x ∷ fl) (a, h) = rw (a, reset_skip_apart f fl h) refl

IsApart-sym : (x y : FlightInfo) → IsApart x y → IsApart y x
IsApart-sym x y h =
    ground
      (arith, h, eq_iff x.from y.from, eq_iff y.from x.from, eq_iff x.to y.to, eq_iff y.to x.to)

-- A flight that is found and reset is as it was.
pub reset-find :
    (from : String) (fl : List FlightInfo) (f : FlightInfo) (fl' : List FlightInfo)
    → IsSingle fl
    → find from fl ≡ some (f, fl')
    → (reset_skip f fl' ≡ fl) × ((y : FlightInfo) → All (IsApart y) fl → IsApart y f)
unfolding find take_first reset_skip
reset-find from [] f fl' h e = cc e
reset-find from (x ∷ fl) f fl' (a, h) e = elim (Bool-cases (x.from == from && not x.skip)) [
  | inl t ↦
      let p : f ≡ x = ground (arith, e, t) in
      let q : fl' ≡ used x ∷ fl = ground (arith, e, t) in
      let free : x.skip ≡ false = ground (arith, t) in
      let here : (x.from == x.from && x.to == x.to) ≡ true =
        ground (arith, eq_iff x.from x.from, eq_iff x.to x.to) in
      let back : record x { skip = false } ≡ x =
        ap (λ (b : Bool). record x { skip = b }) (sym free) in
      rw (p, q)
        (
          rw here (
              ap₂ (λ (y : FlightInfo) (l : List FlightInfo). y ∷ l) back (reset_skip_apart x fl a)),
          λ y b. b.0,
        )
  | inr t ↦ elim (Option-cases (find from fl)) [
    | inl n ↦ absurd (ground (arith, e, t, n))
    | inr ((g, rest), found) ↦
        let p : f ≡ g = ground (arith, e, t, found) in
        let q : fl' ≡ x ∷ rest = ground (arith, e, t, found) in
        let (restored, apart) = reset-find from fl g rest h found in
        let other : (x.from == g.from && x.to == g.to) ≡ false = IsApart-sym x g (apart x a) in
        rw (p, q) (rw (other, restored) refl, λ y b. apart y b.1)
  ]
]

-- A mark leaves the flights apart.
pub IsSingle-find :
    (from : String) (fl : List FlightInfo) (f : FlightInfo) (fl' : List FlightInfo)
    → IsSingle fl
    → find from fl ≡ some (f, fl')
    → IsSingle fl' × ((y : FlightInfo) → All (IsApart y) fl → All (IsApart y) fl')
unfolding find take_first
IsSingle-find from [] f fl' h e = cc e
IsSingle-find from (x ∷ fl) f fl' (a, h) e = elim (Bool-cases (x.from == from && not x.skip)) [
  | inl t ↦ let q : fl' ≡ used x ∷ fl = ground (arith, e, t) in rw q ((a, h), λ y b. b)
  | inr t ↦ elim (Option-cases (find from fl)) [
    | inl n ↦ absurd (ground (arith, e, t, n))
    | inr ((g, rest), found) ↦
        let q : fl' ≡ x ∷ rest = ground (arith, e, t, found) in
        let (single, apart) = IsSingle-find from fl g rest h found in
        rw q ((apart x a, single), λ y b. (b.0, apart y b.1))
  ]
]
