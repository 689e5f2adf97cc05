-- ===== src/Search/LeastCost.antt =====
-- least_cost.cpp: the loop of `main` asks for one route after another, with the flights of the
-- routes before still marked, and `route` keeps the shortest.
pub mod Shortest
use Prim.Native.String.{String}
use mathlib.Core.List.{reverse}
use sample_code.Common.{ℕ, zero, suc, ◌+◌, ltb, if◌then◌else◌, true, false, List, [], ◌∷◌}
use sample_code.Common.Outcome.{Outcome, done, fault, stuck, ◌>>=◌}
use sample_code.Search.Flights.{FlightInfo, find_closest, max_dist}
use sample_code.Search.Route.{Search, findroute, routefound, total}

pub record Optimal : Type 0 where
  pub search : Search
  pub optimal : List FlightInfo
  pub min_dist : ℕ

-- The constructor, behind the calls of `addflight`.
unfoldable pub construct : List FlightInfo → Optimal
construct flights = record {
  search = record { flights = flights; bt_stack = [] };
  optimal = [];
  min_dist = max_dist;
}

-- The first loop of `route` leaves `btStack` empty, and `optTemp` the other way round.
unfoldable pub route : Optimal → Optimal
route o =
    let dist = total o.search.bt_stack in
    let shorter = ltb dist o.min_dist in
    record {
      search = record { flights = o.search.flights; bt_stack = [] };
      optimal = if shorter then reverse o.search.bt_stack else o.optimal;
      min_dist = if shorter then dist else o.min_dist;
    }

-- `for(;;) { ob.findroute(from, to); if(!ob.routefound()) break; ob.route(); }`
unfoldable pub find_all : ℕ → String → String → Optimal → Outcome Optimal
find_all zero from to o = stuck
find_all (suc fuel) from to o = do
  s ← findroute find_closest from to o.search
  let o' = record o { search = s }
  elim (routefound s) [ true ↦ find_all fuel from to (route o') | false ↦ done o' ]
