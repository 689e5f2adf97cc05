-- ===== src/Tests/Routes.antt =====
-- The searches over two flights.
use mathlib.Core.List.{Memᴰ}
use mathlib.Core.List.Memᴰ
use sample_code.Common.{
  suc, ◌≡◌, ◌≢◌, ◌∙◌, ◌⊎◌, inl, inr, refl, sym, ap, arith, false, List, [], ◌∷◌,
}
use sample_code.Common.Outcome.{done}
use sample_code.Search.Flights.{FlightInfo, flight, find, find_farthest}
use sample_code.Search.Finders.{first_found, farthest}
use sample_code.Search.Route.{Search, work, findroute, routefound}
use sample_code.Search.Route.Trail.{MoreMarked}
use sample_code.Search.Route.Sound.{HasRoute, findroute-HasRoute}
use sample_code.Search.Route.Complete.{HasNone, TakesAll, findroute-decides}
use sample_code.Search.LeastCost.{Optimal, construct, find_all}
use sample_code.Search.LeastCost.Shortest.{Kept, find_all-construct}
use sample_code.Search.BreadthFirst.{find_breadth}
use sample_code.Search.BreadthFirst.Decides.{Reaches, find_breadth-decides}
use sample_code.Search.NodeRemoval.{remove_routes}
use sample_code.Search.NodeRemoval.Left.{Left}
use sample_code.Search.NodeRemoval.Routes.{AllShown, remove_routes-AllShown}

abbrev two_flights : List FlightInfo
two_flights = flight "New York" "Chicago" 900 ∷ flight "Chicago" "Denver" 1000 ∷ []

abbrev at_first : Search
at_first = record { flights = two_flights; bt_stack = [] }

two_flights-fresh : (g : FlightInfo) → Memᴰ g two_flights → g.skip ≡ false
two_flights-fresh g m = elim (Memᴰ.cases_cons m) [
  | inl e ↦ ap (λ (f : FlightInfo). f.skip) e
  | inr t ↦ elim (Memᴰ.cases_cons t) [
    | inl e ↦ ap (λ (f : FlightInfo). f.skip) e
    | inr u ↦ absurd (Memᴰ.not-nil u)
  ]
]

two_flights-far : TakesAll farthest two_flights
two_flights-far a d b l = elim (Memᴰ.cases_cons l.listed) [
  | inl e ↦ omega (arith, sym l.length ∙ ap (λ (f : FlightInfo). f.distance) e)
  | inr t ↦ elim (Memᴰ.cases_cons t) [
    | inl e ↦ omega (arith, sym l.length ∙ ap (λ (f : FlightInfo). f.distance) e)
    | inr u ↦ absurd (Memᴰ.not-nil u)
  ]
]

two_flights-arrivals : (g : FlightInfo) → Memᴰ g two_flights → g.to ≢ ""
two_flights-arrivals g m h = elim (Memᴰ.cases_cons m) [
  | inl e ↦ absurd (cc (sym h ∙ ap (λ (f : FlightInfo). f.to) e))
  | inr t ↦ elim (Memᴰ.cases_cons t) [
    | inl e ↦ absurd (cc (sym h ∙ ap (λ (f : FlightInfo). f.to) e))
    | inr u ↦ absurd (Memᴰ.not-nil u)
  ]
]

findroute-HasRoute_example :
    (r : Search) × (findroute find "New York" "Denver" at_first ≡ done r)
    × MoreMarked r.flights two_flights
    × ((routefound r ≡ false) × (r.bt_stack ≡ []) ⊎ HasRoute two_flights "New York" "Denver" r)
findroute-HasRoute_example = findroute-HasRoute first_found "New York" "Denver" at_first refl

findroute-decides_example :
    (r : Search) × (findroute find_farthest "New York" "Denver" at_first ≡ done r)
    × (HasNone two_flights "New York" "Denver" r ⊎ HasRoute two_flights "New York" "Denver" r)
findroute-decides_example =
    findroute-decides farthest "New York" "Denver" at_first refl two_flights-fresh two_flights-far

find_all-construct_example :
    (r : Optimal) × (find_all 3 "New York" "Denver" (construct two_flights) ≡ done r)
    × Kept two_flights "New York" "Denver" (construct two_flights) r
find_all-construct_example = find_all-construct 3 "New York" "Denver" two_flights (omega arith)

remove_routes-AllShown_example :
    (shown : List (List FlightInfo)) × (last : Search) × (remove_routes 3 "New York" "Denver"
        at_first
      ≡ done (shown, last))
    × AllShown two_flights "New York" "Denver" shown last
    × Left two_flights shown last
remove_routes-AllShown_example =
    remove_routes-AllShown "New York" "Denver" at_first 3 (λ e. cc e)
      (record { fresh = two_flights-fresh; arrivals = two_flights-arrivals }) refl (omega arith)

find_breadth-decides_example :
    (r : Search) × (find_breadth (suc (work at_first)) "New York" "Denver" at_first ≡ done r)
    × (HasNone two_flights "New York" "Denver" r ⊎ Reaches two_flights "New York" "Denver" r)
find_breadth-decides_example =
    find_breadth-decides "New York" "Denver" at_first refl two_flights-fresh ((refl, tt), (tt, tt))
