-- ===== src/Search/BreadthFirst.antt =====
-- breadth_first.cpp: before `findroute` goes on to a flight, it looks for one that connects directly
-- to the destination.
pub mod Restored
pub mod Connect
pub mod Turns
pub mod Decides
use Prim.Native.String.{String}
use text.Mathlib.Text.{◌==◌}
use sample_code.Common.{
  ℕ, zero, suc, ◌+◌, Bool, true, false, ◌&&◌, if◌then◌else◌, Option, none, some, List, [], ◌∷◌, ◌⊎◌,
  inl, inr,
}
use sample_code.Common.Outcome.{Outcome, done, fault, stuck, ◌>>=◌}
use sample_code.Search.Flights.{FlightInfo, flight, match, find}
use sample_code.Search.Flights.Marks.{open_flights}
use sample_code.Search.Route.{Search, work}

-- `resetSkip`
unfoldable pub reset_skip : FlightInfo → List FlightInfo → List FlightInfo
reset_skip f [] = []
reset_skip f (x ∷ flights) =
    (if x.from == f.from && x.to == f.to then record x { skip = false } else x)
    ∷ reset_skip f flights

-- `while(!resetStck.empty()) { resetSkip(resetStck.top()); resetStck.pop(); }`
unfoldable pub reset_stack : List FlightInfo → List FlightInfo → List FlightInfo
reset_stack [] flights = flights
reset_stack (f ∷ reset) flights = reset_stack reset (reset_skip f flights)

-- `while(find(from, f))`, with the state at its return, or the flights and resetStck at its end.
unfoldable pub connect :
    ℕ
    → String
    → String
    → Search
    → List FlightInfo
    → Outcome (Search ⊎ List FlightInfo × List FlightInfo)
connect zero from to s reset = stuck
connect (suc fuel) from to s reset = elim (find from s.flights) [
  | none ↦ done (inr (s.flights, reset))
  | some (f, flights) ↦ elim (match f.to to flights) [
    | some (g, flights') ↦ done (
        inl (record {
          flights = flights';
          bt_stack = flight f.to to g.distance ∷ (flight from f.to f.distance ∷ s.bt_stack);
        }))
    | none ↦ connect fuel from to (record s { flights = flights }) (f ∷ reset)
  ]
]

-- `findroute`, with fuel for its recursion.
unfoldable pub find_breadth : ℕ → String → String → Search → Outcome Search
find_breadth zero from to s = stuck
find_breadth (suc fuel) from to s = elim (match from to s.flights) [
  | some (f, flights) ↦
      done (record { flights = flights; bt_stack = flight from to f.distance ∷ s.bt_stack })
  | none ↦ connect (suc (open_flights s.flights)) from to s [] >>= λ c. elim c [
    | inl r ↦ done r
    | inr (flights, reset) ↦
        let restored = reset_stack reset flights in
        elim (find from restored) [
          | some (f, flights') ↦
              find_breadth fuel f.to to
                (record { flights = flights'; bt_stack = flight from to f.distance ∷ s.bt_stack })
          | none ↦ elim s.bt_stack [
            | f ∷ rest ↦
                find_breadth fuel f.from f.to (record { flights = restored; bt_stack = rest })
            | [] ↦ done (record s { flights = restored })
          ]
        ]
  ]
]
