-- ===== src/Search/Flights/Lookup.antt =====
-- The laws of `match`, of the plain `find`, and of the two that choose by distance.
use Prim.Native.String.{String}
use text.Mathlib.Text.{◌==◌}
use text.Mathlib.TextEquality.{eq_iff}
use mathlib.Core.List.{Memᴰ}
use sample_code.Common.{◌≡◌, arith, true, ◌&&◌, not, none, some, List}
use sample_code.Search.Flights.{FlightInfo, match, find}
use sample_code.Search.Flights.Marks.{Marks, take_first-Marks, take_first-none}

-- `match` marks an open flight between the two places.
pub match-Marks :
    (from to : String) (fl : List FlightInfo) (f : FlightInfo) (fl' : List FlightInfo)
    → match from to fl ≡ some (f, fl')
    → Marks f fl fl' × (f.from ≡ from) × (f.to ≡ to)
unfolding match
match-Marks from to fl f fl' e =
    let (marks, test) =
      take_first-Marks (λ x. x.from == from && (x.to == to && not x.skip)) fl f fl'
        (λ x t. ground arith) e in
    (marks, ground (arith, eq_iff f.from from), ground (arith, eq_iff f.to to))

-- Without one, every flight between the two is marked.
pub match-none :
    (from to : String) (fl : List FlightInfo)
    → match from to fl ≡ none
    → (g : FlightInfo) → Memᴰ g fl
    → g.from ≡ from
    → g.to ≡ to
    → g.skip ≡ true
unfolding match
match-none from to fl e g m p q =
    let t = take_first-none (λ x. x.from == from && (x.to == to && not x.skip)) fl e g m in
    ground (arith, eq_iff g.from from, eq_iff g.to to)

pub find-Marks :
    (from : String) (fl : List FlightInfo) (f : FlightInfo) (fl' : List FlightInfo)
    → find from fl ≡ some (f, fl')
    → Marks f fl fl' × (f.from ≡ from)
unfolding find
find-Marks from fl f fl' e =
    let (marks, test) =
      take_first-Marks (λ x. x.from == from && not x.skip) fl f fl' (λ x t. ground arith) e in
    (marks, ground (arith, eq_iff f.from from))

pub find-none :
    (from : String) (fl : List FlightInfo)
    → find from fl ≡ none
    → (g : FlightInfo) → Memᴰ g fl
    → g.from ≡ from
    → g.skip ≡ true
unfolding find
find-none from fl e g m p =
    let t = take_first-none (λ x. x.from == from && not x.skip) fl e g m in
    ground (arith, eq_iff g.from from)
