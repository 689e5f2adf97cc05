-- ===== src/Search/NodeRemoval.antt =====
-- node_removed.cpp: the loop of `main` shows a route, takes the last flight of it out of the
-- database, and starts over.
pub mod Removed
pub mod Left
pub mod Routes
use Prim.Native.String.{String}
use text.Mathlib.Text.{◌==◌}
use mathlib.Core.List.{map}
use sample_code.Common.{ℕ, zero, suc, false, ◌&&◌, if◌then◌else◌, List, [], ◌∷◌}
use sample_code.Common.Outcome.{Outcome, done, fault, stuck, ◌>>=◌}
use sample_code.Search.Flights.{FlightInfo, find, reset_all_skip}
use sample_code.Search.Route.{Search, findroute}

-- `if(flights[i].from == f.from && flights[i].to == f.to) flights[i].from = "";`
unfoldable pub blank : FlightInfo → FlightInfo → FlightInfo
blank f x = if x.from == f.from && x.to == f.to then record x { from = "" } else x

unfoldable pub remove : FlightInfo → List FlightInfo → List FlightInfo
remove f flights = map (blank f) flights

-- The routes that are shown, each as the stack it is read from, and the last state. `route` leaves
-- the stack empty.
unfoldable pub remove_routes :
    ℕ → String → String → Search → Outcome (List (List FlightInfo) × Search)
remove_routes zero from to s = stuck
remove_routes (suc fuel) from to s = do
  r ← findroute find from to s
  elim r.bt_stack [
    | [] ↦ done ([], r)
    | f ∷ rest ↦
        remove_routes fuel from to
          (record { flights = remove f (reset_all_skip r.flights); bt_stack = [] })
        >>= λ (shown, last). done ((f ∷ rest) ∷ shown, last)
  ]
