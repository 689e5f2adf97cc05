-- ===== src/Search/Flights.antt =====
-- The flights and the two lookups that every search has. Distances are numbers from 0 up; the
-- source's are int.
pub mod Marks
pub mod Lookup
pub mod Choice
use Prim.Native.String.{String}
use text.Mathlib.Text.{◌==◌}
use sample_code.Common.{
  ℕ, zero, suc, ltb, Bool, true, false, ◌&&◌, not, if◌then◌else◌, Option, none, some, List, [], ◌∷◌,
}
use mathlib.Core.Option

-- `to` is the destination that a search looks for, in an entry of its stack.
pub record FlightInfo : Type 0 where
  pub from : String
  pub to : String
  pub distance : ℕ
  pub skip : Bool

-- `FlightInfo(f, t, d)`
abbrev pub flight : String → String → ℕ → FlightInfo
flight f t d = record { from = f; to = t; distance = d; skip = false }

-- `flights[i].skip = true`
abbrev pub used : FlightInfo → FlightInfo
used f = record f { skip = true }

-- `resetAllSkip` of node_removed.cpp
unfoldable pub reset_all_skip : List FlightInfo → List FlightInfo
reset_all_skip [] = []
reset_all_skip (x ∷ flights) = record x { skip = false } ∷ reset_all_skip flights

-- `for(unsigned i=0; i < flights.size(); i++)` with a return at the first flight that passes a
-- test: a copy of that flight, and the flights with its `skip` set.
unfoldable pub take_first :
    (FlightInfo → Bool) → List FlightInfo → Option (FlightInfo × List FlightInfo)
take_first test [] = none
take_first test (x ∷ flights) =
    let rest = Option.map (λ (f, fl). (f, x ∷ fl)) (take_first test flights) in
    if test x then some (x, used x ∷ flights) else rest

-- The flight found gives `dist`.
unfoldable pub match : String → String → List FlightInfo → Option (FlightInfo × List FlightInfo)
match from to = take_first (λ x. x.from == from && (x.to == to && not x.skip))

unfoldable pub find : String → List FlightInfo → Option (FlightInfo × List FlightInfo)
find from = take_first (λ x. x.from == from && not x.skip)

unfoldable pub addflight : String → String → ℕ → List FlightInfo → List FlightInfo
addflight from to dist [] = flight from to dist ∷ []
addflight from to dist (x ∷ flights) = x ∷ addflight from to dist flights

-- `f = flights[pos]; flights[pos].skip = true;`
unfoldable pub mark_at : ℕ → List FlightInfo → Option (FlightInfo × List FlightInfo)
mark_at pos [] = none
mark_at zero (x ∷ flights) = some (x, used x ∷ flights)
mark_at (suc pos) (x ∷ flights) = Option.map (λ (f, fl). (f, x ∷ fl)) (mark_at pos flights)

-- The loop of `find` in hill_climbing.cpp and least_cost.cpp from index `i` on, with `none` for a
-- `pos` of -1; `better` is the comparison of a flight's distance with `dist`.
unfoldable pub choose : (ℕ → ℕ → Bool) → String → List FlightInfo → ℕ → Option ℕ → ℕ → Option ℕ
choose better from [] i pos dist = pos
choose better from (x ∷ flights) i pos dist =
    let found = x.from == from && (not x.skip && better x.distance dist) in
    choose better from flights (suc i) (if found then some i else pos)
      (if found then x.distance else dist)

-- `if(pos != -1) { ... }`
unfoldable pub pick :
    (ℕ → ℕ → Bool) → ℕ → String → List FlightInfo → Option (FlightInfo × List FlightInfo)
unfolding choose mark_at
pick better dist from flights = elim (choose better from flights 0 none dist) [
  | none ↦ none
  | some pos ↦ mark_at pos flights
]

-- The farthest flight, from `dist = 0` on.
unfoldable pub find_farthest : String → List FlightInfo → Option (FlightInfo × List FlightInfo)
find_farthest = pick (λ d dist. ltb dist d) 0

-- The closest flight, from `dist = MAXDIST` on.
abbrev pub max_dist : ℕ
max_dist = 100000

unfoldable pub find_closest : String → List FlightInfo → Option (FlightInfo × List FlightInfo)
find_closest = pick (λ d dist. ltb d dist) max_dist
