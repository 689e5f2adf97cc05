-- ===== src/Search/BreadthFirst/Decides.antt =====
-- `findroute` of breadth_first.cpp, where no two flights are between the same places.
use Prim.Native.String.{String}
use mathlib.Core.List.{Memᴰ}
use mathlib.Core.Path.{subst}
use sample_code.Common.{
  ℕ, zero, suc, ◌+◌, ◌<◌, ◌≡◌, ◌∙◌, ◌⊎◌, inl, inr, refl, sym, ap, arith, true, false, Option-cases,
  List-cases, List, [], ◌∷◌, length,
}
use sample_code.Common.Outcome.{done}
use sample_code.Search.Flights.{FlightInfo, flight, match, find}
use sample_code.Search.Flights.Marks.{open_flights}
use sample_code.Search.Flights.Lookup.{find-Marks}
use sample_code.Search.Finders.{first_found}
use sample_code.Search.Route.{Search, work, routefound, total}
use sample_code.Search.Route.Rule.{pushed}
use sample_code.Search.Route.Trail.{Leg, MoreMarked, MoreMarked-refl, Trail, Way, one, more}
use sample_code.Search.Route.Sound.{OnTrail, HasRoute, Trail-Way}
use sample_code.Search.Route.Complete.{HasNone, TakesAll, Searched, keeps, start-Searched}
use sample_code.Search.LeastCost.Shortest.{MoreMarked-trans}
use sample_code.Search.BreadthFirst.{reset_stack, find_breadth}
use sample_code.Search.BreadthFirst.Restored.{IsSingle, IsSingle-find}
use sample_code.Search.BreadthFirst.Connect.{Linked, connect-ends}
use sample_code.Search.BreadthFirst.Turns.{
  breadth_hit, breadth_linked, breadth_go, breadth_back, breadth_stop,
}

-- A stack of the search, from `from` to `to`: the stack of a way over flights of the database, or such
-- a stack with the two flights of a connection on it, the second one on top.
pub data BreadthTrail (db : List FlightInfo) (from to : String) : List FlightInfo → Type 0 where
  direct : {st : List FlightInfo} → Trail db from to to st → BreadthTrail db from to st
  linked :
      {st : List FlightInfo} (at between : String) (near far : ℕ)
      → Trail db from to at st
      → Leg db at near between
      → Leg db between far to
      → BreadthTrail db from to (flight between to far ∷ (flight at between near ∷ st))

-- How a search that found a route ends.
pub record Reaches (db : List FlightInfo) (from to : String) (r : Search) : Type 0 where
  pub found : routefound r ≡ true
  pub trail : BreadthTrail db from to r.bt_stack
  pub way : Way db from to (total r.bt_stack)
  pub legs : MoreMarked r.flights db

module _ (db : List FlightInfo) (origin to : String) (takes : TakesAll first_found db) where
  abbrev End : Search → Type 0
  End r = HasNone db origin to r ⊎ Reaches db origin to r

  HasRoute-Reaches : (r : Search) → HasRoute db origin to r → Reaches db origin to r
  HasRoute-Reaches r h = record {
    found = h.found;
    trail = direct h.trail;
    way = h.way;
    legs = h.legs;
  }

  two_more :
      (from between : String) (near far : ℕ) (st : List FlightInfo)
      → Trail db origin to from st
      → Leg db from near between
      → Leg db between far to
      → Way db origin to (total (flight between to far ∷ (flight from between near ∷ st)))
  two_more from between near far st t first second = elim (Trail-Way db origin to t) [
    | inl (here, empty) ↦
        let sum : near + far ≡ total st + near + far = omega (arith, ap total empty) in
        subst (Way db origin to) sum
          (more (one (subst (λ (a : String). Leg db a near between) (sym here) first)) second)
    | inr w ↦ more (more w first) second
  ]

  Linked-Reaches :
      (from : String) (s r : Search)
      → OnTrail db origin to from s
      → Linked s.flights from to s.bt_stack r
      → Reaches db origin to r
  unfolding routefound
  Linked-Reaches from s r t l =
      let first = t.legs.into from l.near l.between l.first in
      let second = t.legs.into l.between l.far to l.second in
      record {
        found = rw (l.stack, routefound) refl;
        trail =
            subst (BreadthTrail db origin to) (sym l.stack)
              (linked from l.between l.near l.far t.trail first second);
        way =
            subst (λ (st : List FlightInfo). Way db origin to (total st)) (sym l.stack)
              (two_more from l.between l.near l.far s.bt_stack t.trail first second);
        legs = MoreMarked-trans r.flights s.flights db l.legs t.legs;
      }

  breadth-End :
      (fuel : ℕ) (from : String) (s : Search)
      → work s < fuel
      → IsSingle s.flights
      → Searched first_found db origin to takes from s
      → (r : Search) × (find_breadth fuel from to s ≡ done r) × End r
  unfolding reset_stack
  breadth-End zero from s h u p = absurd (omega arith)
  breadth-End (suc fuel) from s h u p =
      let k = keeps first_found db origin to takes in
      elim (Option-cases (match from to s.flights)) [
        | inr ((f, fl), e) ↦ (
          pushed from to f fl s,
          breadth_hit fuel from to s f fl e,
          ends_of (pushed from to f fl s) (k.hit from s f fl p e),
        )
        | inl none_direct ↦
            elim (connect-ends s.flights from to (suc (open_flights s.flights)) s [] (omega arith) u
              (MoreMarked-refl s.flights)) [
                | inl (r, e, l) ↦ (
                  r,
                  breadth_linked fuel from to s none_direct r e,
                  inr (Linked-Reaches from s r p.trail l),
                )
                | inr (fl, rs, e, back) ↦
                    let back' = back ∙ reset_nil s.flights in
                    elim (Option-cases (find from s.flights)) [
                      | inr ((f, fl'), found) ↦
                          let marks = (find-Marks from s.flights f fl' found).0 in
                          let (r, ends, q) =
                            breadth-End fuel f.to (pushed from to f fl' s)
                              (omega (arith, marks.fewer))
                              (IsSingle-find from s.flights f fl' u found).0
                              (k.go from s f fl' p none_direct found) in
                          (
                            r,
                            breadth_go fuel from to s none_direct fl rs e back' f fl' found ∙ ends,
                            q,
                          )
                      | inl missing ↦ elim (List-cases s.bt_stack) [
                        | inl empty ↦ (
                          s,
                          breadth_stop fuel from to s none_direct fl rs e back' missing empty,
                          ends_of s (k.stop from s p none_direct missing empty),
                        )
                        | inr (f, rest, top) ↦
                            let (goal, p') = k.back from s f rest p none_direct missing top in
                            let (r, ends, q) =
                              breadth-End fuel f.from
                                (record { flights = s.flights; bt_stack = rest })
                                (omega (arith, ap length top)) u p' in
                            (
                              r,
                              breadth_back fuel from to s none_direct fl rs e back' f rest missing
                                    top
                                  ∙ ap
                                      (λ (g : String).
                                        find_breadth fuel f.from g
                                          (record { flights = s.flights; bt_stack = rest }))
                                      goal
                                  ∙ ends,
                              q,
                            )
                      ]
                    ]
              ]
      ]
    where
      ends_of : (r : Search) → HasNone db origin to r ⊎ HasRoute db origin to r → End r
      ends_of r (inl n) = inl n
      ends_of r (inr h) = inr (HasRoute-Reaches r h)

      reset_nil : (fl : List FlightInfo) → reset_stack [] fl ≡ fl
      reset_nil fl = refl

-- From an empty stack and flights none of which is marked, no two between the same places, findroute
-- of breadth_first.cpp ends. Either routefound() is true and the stack is a way from one place to the
-- other: each entry has the place that a flight of the database leaves and its distance, the flight
-- arrives at the place that the entry above it has, or at the destination, and the distances sum to
-- the length of the way. Or the stack is empty, and there is no way over one flight or more.
pub find_breadth-decides :
    (from to : String) (s : Search)
    → s.bt_stack ≡ []
    → ((g : FlightInfo) → Memᴰ g s.flights → g.skip ≡ false)
    → IsSingle s.flights
    → (r : Search) × (find_breadth (suc (work s)) from to s ≡ done r)
      × (HasNone s.flights from to r ⊎ Reaches s.flights from to r)
find_breadth-decides from to s empty fresh single =
    breadth-End s.flights from to (λ a d b l. tt) (suc (work s)) from s (omega arith) single
      (start-Searched first_found from to s (λ a d b l. tt) empty fresh)
