-- ===== src/Search/Route.antt =====
-- `findroute` of deep_first.cpp, hill_climbing.cpp, least_cost.cpp and node_removed.cpp, with
-- fuel for its recursion, and the class's other methods.
pub mod Rule
pub mod Trail
pub mod Journey
pub mod Sound
pub mod Complete
use Prim.Native.String.{String}
use sample_code.Common.{
  ℕ, zero, suc, ◌+◌, ◌*◌, length, Bool, true, false, Option, none, some, List, [], ◌∷◌,
}
use sample_code.Common.Outcome.{Outcome, done, stuck}
use sample_code.Search.Flights.{FlightInfo, flight, match}
use sample_code.Search.Flights.Marks.{open_flights}

pub record Search : Type 0 where
  pub flights : List FlightInfo
  pub bt_stack : List FlightInfo

-- The turns that `findroute` can take from a state: each marks a flight, or takes one off the stack.
abbrev pub work : Search → ℕ
work s = 2 * open_flights s.flights + length s.bt_stack

-- `lookup` is `find`.
unfoldable pub find_route :
    (String → List FlightInfo → Option (FlightInfo × List FlightInfo))
    → ℕ
    → String
    → String
    → Search
    → Outcome Search
find_route lookup zero from to s = stuck
find_route lookup (suc fuel) from to s = elim (match from to s.flights) [
  | some (f, flights) ↦
      done (record { flights = flights; bt_stack = flight from to f.distance ∷ s.bt_stack })
  | none ↦ elim (lookup from s.flights) [
    | some (f, flights) ↦
        find_route lookup fuel f.to to
          (record { flights = flights; bt_stack = flight from to f.distance ∷ s.bt_stack })
    | none ↦ elim s.bt_stack [
      | f ∷ rest ↦
          find_route lookup fuel f.from f.to (record { flights = s.flights; bt_stack = rest })
      | [] ↦ done s
    ]
  ]
]

-- The call of `findroute` by `main`, with fuel for every turn that it can take.
unfoldable pub findroute :
    (String → List FlightInfo → Option (FlightInfo × List FlightInfo))
    → String
    → String
    → Search
    → Outcome Search
findroute lookup from to s = find_route lookup (suc (work s)) from to s

unfoldable pub routefound : Search → Bool
routefound s = elim s.bt_stack [ [] ↦ false | f ∷ rest ↦ true ]

-- The sum that `route` shows: the stack's distances, from the bottom up.
abbrev pub total : List FlightInfo → ℕ
total [] = 0
total (f ∷ fs) = total fs + f.distance
