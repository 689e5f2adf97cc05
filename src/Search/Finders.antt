-- ===== src/Search/Finders.antt =====
-- What `findroute` needs of `find`, and the three programs' versions of it.
use Prim.Native.String.{String}
use mathlib.Core.List.{Memᴰ}
use sample_code.Common.{ℕ, ◌<◌, ◌≡◌, arith, ltb, true, Option, none, some, List}
use sample_code.Search.Flights.{FlightInfo, find, find_farthest, find_closest, max_dist}
use sample_code.Search.Flights.Marks.{Marks}
use sample_code.Search.Flights.Lookup.{find-Marks, find-none}
use sample_code.Search.Flights.Choice.{pick-Marks, pick-none}

-- `Takes` are the distances of the flights that `lookup` does not overlook.
pub record Finder : Type 1 where
  pub lookup : String → List FlightInfo → Option (FlightInfo × List FlightInfo)
  pub Takes : ℕ → Type 0
  pub finds :
      (from : String) (fl : List FlightInfo) (f : FlightInfo) (fl' : List FlightInfo)
      → lookup from fl ≡ some (f, fl')
      → Marks f fl fl' × (f.from ≡ from)
  pub stops :
      (from : String) (fl : List FlightInfo)
      → lookup from fl ≡ none
      → (g : FlightInfo) → Memᴰ g fl
      → g.from ≡ from
      → Takes g.distance
      → g.skip ≡ true

-- deep_first.cpp, breadth_first.cpp and node_removed.cpp
abbrev pub first_found : Finder
first_found = record {
  lookup = find;
  Takes = λ d. Unit {0};
  finds = find-Marks;
  stops = λ from fl e g m p takes. find-none from fl e g m p;
}

pub farthest-Marks :
    (from : String) (fl : List FlightInfo) (f : FlightInfo) (fl' : List FlightInfo)
    → find_farthest from fl ≡ some (f, fl')
    → Marks f fl fl' × (f.from ≡ from)
unfolding find_farthest
farthest-Marks from fl f fl' e = pick-Marks (λ d dist. ltb dist d) from 0 fl f fl' e

pub farthest-none :
    (from : String) (fl : List FlightInfo)
    → find_farthest from fl ≡ none
    → (g : FlightInfo) → Memᴰ g fl
    → g.from ≡ from
    → 0 < g.distance
    → g.skip ≡ true
unfolding find_farthest
farthest-none from fl e g m p takes =
    pick-none (λ d dist. ltb dist d) from 0 fl e g m p (ground arith)

-- hill_climbing.cpp, which overlooks flights of distance 0
abbrev pub farthest : Finder
farthest = record {
  lookup = find_farthest;
  Takes = λ d. 0 < d;
  finds = farthest-Marks;
  stops = farthest-none;
}

pub closest-Marks :
    (from : String) (fl : List FlightInfo) (f : FlightInfo) (fl' : List FlightInfo)
    → find_closest from fl ≡ some (f, fl')
    → Marks f fl fl' × (f.from ≡ from)
unfolding find_closest
closest-Marks from fl f fl' e = pick-Marks (λ d dist. ltb d dist) from max_dist fl f fl' e

pub closest-none :
    (from : String) (fl : List FlightInfo)
    → find_closest from fl ≡ none
    → (g : FlightInfo) → Memᴰ g fl
    → g.from ≡ from
    → g.distance < max_dist
    → g.skip ≡ true
unfolding find_closest
closest-none from fl e g m p takes =
    pick-none (λ d dist. ltb d dist) from max_dist fl e g m p (ground arith)

-- least_cost.cpp, which overlooks flights of MAXDIST and more
abbrev pub closest : Finder
closest = record {
  lookup = find_closest;
  Takes = λ d. d < max_dist;
  finds = closest-Marks;
  stops = closest-none;
}
