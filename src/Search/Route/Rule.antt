-- ===== src/Search/Route/Rule.antt =====
-- The invariant rule of `findroute`, and its end: every turn marks a flight or takes one off the
-- stack, so twice the open flights and the stack's height are fuel enough.
use Prim.Native.String.{String}
use sample_code.Common.{
  ℕ, zero, suc, ◌<◌, ◌≡◌, refl, ap, arith, Option-cases, List-cases, inl, inr, none, some, List, [],
  ◌∷◌, length,
}
use sample_code.Common.Outcome.{done}
use sample_code.Search.Flights.{FlightInfo, flight, match}
use sample_code.Search.Finders.{Finder}
use sample_code.Search.Route.{Search, work, find_route}

-- The state after a flight was found on the way to `to`.
abbrev pub pushed : String → String → FlightInfo → List FlightInfo → Search → Search
pushed from to f fl s = record { flights = fl; bt_stack = flight from to f.distance ∷ s.bt_stack }

module _ {ℓ κ} (finder : Finder) (to : String) (P : String → Search → Type ℓ)
    (Q : Search → Type κ) where
  open finder use {lookup, finds}

  -- What each of the four ways of a call keeps.
  pub record Keeps : Type (ℓ ⊔ κ) where
    pub hit :
        (from : String) (s : Search) (f : FlightInfo) (fl : List FlightInfo)
        → P from s
        → match from to s.flights ≡ some (f, fl)
        → Q (pushed from to f fl s)
    pub go :
        (from : String) (s : Search) (f : FlightInfo) (fl : List FlightInfo)
        → P from s
        → match from to s.flights ≡ none
        → lookup from s.flights ≡ some (f, fl)
        → P f.to (pushed from to f fl s)
    pub back :
        (from : String) (s : Search) (f : FlightInfo) (rest : List FlightInfo)
        → P from s
        → match from to s.flights ≡ none
        → lookup from s.flights ≡ none
        → s.bt_stack ≡ f ∷ rest
        → (f.to ≡ to) × P f.from (record { flights = s.flights; bt_stack = rest })
    pub stop :
        (from : String) (s : Search)
        → P from s
        → match from to s.flights ≡ none
        → lookup from s.flights ≡ none
        → s.bt_stack ≡ []
        → Q s

  pub find_route_rule :
      Keeps
      → (fuel : ℕ) (from : String) (s : Search) → work s < fuel
      → P from s
      → (r : Search) × (find_route lookup fuel from to s ≡ done r) × Q r
  unfolding find_route
  find_route_rule keeps zero from s h p = absurd (omega arith)
  find_route_rule keeps (suc fuel) from s h p = elim (Option-cases (match from to s.flights)) [
    | inr ((f, fl), e) ↦ (pushed from to f fl s, rw (e, find_route) refl, keeps.hit from s f fl p e)
    | inl none_direct ↦ elim (Option-cases (lookup from s.flights)) [
      | inr ((f, fl), e) ↦
          let marks = (finds from s.flights f fl e).0 in
          let (r, ends, q) =
            find_route_rule keeps fuel f.to (pushed from to f fl s) (omega (arith, marks.fewer))
              (keeps.go from s f fl p none_direct e) in
          (r, rw (none_direct, e, find_route) ends, q)
      | inl none_left ↦ elim (List-cases s.bt_stack) [
        | inl empty ↦ (
          s,
          simp (none_direct, none_left, empty, find_route),
          keeps.stop from s p none_direct none_left empty,
        )
        | inr (f, rest, top) ↦
            let (same, p') = keeps.back from s f rest p none_direct none_left top in
            let (r, ends, q) =
              find_route_rule keeps fuel f.from (record { flights = s.flights; bt_stack = rest })
                (omega (arith, ap length top)) p' in
            (r, rw (none_direct, none_left, top, find_route) (rw same ends), q)
      ]
    ]
  ]
