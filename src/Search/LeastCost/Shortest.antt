-- ===== src/Search/LeastCost/Shortest.antt =====
-- The loop of `main` of least_cost.cpp, and the routes that it goes through.
use Prim.Native.String.{String}
use mathlib.Core.List.{reverse, reverse-cons}
use mathlib.Core.List.{Memᴰ}
use mathlib.Core.Path.{subst}
use sample_code.Common.{
  ℕ, zero, suc, ◌+◌, ◌<◌, ◌≡◌, ◌∙◌, ◌⊎◌, inl, inr, refl, sym, ap, arith, ltb, min, Bool-cases, true,
  false, All, List, [], ◌∷◌, ◌++◌,
}
use sample_code.Common.Outcome.{done, ◌>>=◌}
use sample_code.Search.Flights.{FlightInfo, find_closest}
use sample_code.Search.Flights.Marks.{open_flights}
use sample_code.Search.Finders.{closest}
use sample_code.Search.Route.{Search, findroute, routefound, total}
use sample_code.Search.Route.Journey.{Journey, Trail-Journey, Trail-MoreMarked}
use sample_code.Search.Route.Trail.{Trail, MoreMarked, MoreMarked-refl, Way, one, more}
use sample_code.Search.Route.Sound.{findroute-HasRoute}
use sample_code.Search.LeastCost.{Optimal, construct, route, find_all}

-- `sts` are the stacks of the routes that calls of `findroute` find, one after another, until there
-- is none; each call has the marks of those before, and an empty stack.
pub data Found (from to : String) : Search → List (List FlightInfo) → Type 0 where
  over :
      {s r : Search}
      → findroute find_closest from to s ≡ done r
      → routefound r ≡ false
      → Found from to s []
  another :
      {s r : Search} {sts : List (List FlightInfo)}
      → findroute find_closest from to s ≡ done r
      → routefound r ≡ true
      → Found from to (record { flights = r.flights; bt_stack = [] }) sts
      → Found from to s (r.bt_stack ∷ sts)

-- The least of `m` and the lengths of the routes.
abbrev pub minimum : ℕ → List (List FlightInfo) → ℕ
minimum m [] = m
minimum m (st ∷ sts) = minimum (min m (total st)) sts

pub MoreMarked-trans : (a b c : List FlightInfo) → MoreMarked a b → MoreMarked b c → MoreMarked a c
MoreMarked-trans a b c p q = record {
  into = λ x d y l. q.into x d y (p.into x d y l);
  from = λ x d y l. p.from x d y (q.from x d y l);
  fewer = omega (arith, p.fewer, q.fewer);
  same = p.same ∙ q.same;
}

pub Way-MoreMarked :
    (fl db : List FlightInfo) (a : String) {b : String} {n : ℕ}
    → MoreMarked fl db
    → Way fl a b n
    → Way db a b n
Way-MoreMarked fl db a m (one {b} {d} l) = one (m.into a d b l)
Way-MoreMarked fl db a m (more {b} {c} {n} {d} w l) =
    more (Way-MoreMarked fl db a m w) (m.into b d c l)

-- The route that is kept is one of those found, in the order of its flights.
pub record Best (db : List FlightInfo) (from to : String) (sts : List (List FlightInfo))
    (r : Optimal) : Type 0 where
  pub stack : List FlightInfo
  pub among : Memᴰ stack sts
  pub order : r.optimal ≡ reverse stack
  pub journey : Journey db to from to r.optimal
  pub length : total r.optimal ≡ r.min_dist

-- What the loop leaves: the length that it keeps is the least of those found and of the one before,
-- each is the length of a way, and the route that is kept is the one before or has that length.
pub record Kept (db : List FlightInfo) (from to : String) (o r : Optimal) : Type 0 where
  pub stacks : List (List FlightInfo)
  pub found : Found from to o.search stacks
  pub least : r.min_dist ≡ minimum o.min_dist stacks
  pub ways : All (λ st. Way db from to (total st)) stacks
  pub trails : All (λ st. Trail db from to to st) stacks
  pub shown : (r.min_dist ≡ o.min_dist) × (r.optimal ≡ o.optimal) ⊎ Best db from to stacks r

route-min : (o : Optimal) → (route o).min_dist ≡ min o.min_dist (total o.search.bt_stack)
unfolding route
route-min o = ground arith

total-append : (xs ys : List FlightInfo) → total (xs ++ ys) ≡ total xs + total ys
total-append [] ys = omega arith
total-append (x ∷ xs) ys = omega (arith, total-append xs ys)

total-reverse : (xs : List FlightInfo) → total (reverse xs) ≡ total xs
total-reverse [] = refl
total-reverse (x ∷ xs) =
    ap total (reverse-cons x xs)
    ∙ omega (arith, total-append (reverse xs) (x ∷ []), total-reverse xs)

route_shown :
    (db : List FlightInfo) (from to : String) (o : Optimal)
    → Trail db from to to o.search.bt_stack
    → ((route o).min_dist ≡ o.min_dist) × ((route o).optimal ≡ o.optimal)
      ⊎ ((route o).optimal ≡ reverse o.search.bt_stack)
        × Journey db to from to (route o).optimal
        × (total (route o).optimal ≡ (route o).min_dist)
unfolding route
route_shown db from to o t = elim (Bool-cases (ltb (total o.search.bt_stack) o.min_dist)) [
  | inl shorter ↦
      inr (rw shorter (refl, Trail-Journey db from to t, total-reverse o.search.bt_stack))
  | inr longer ↦ inl (rw longer refl, rw longer refl)
]

shown_after :
    (db : List FlightInfo) (from to : String) (o r : Optimal) (sts : List (List FlightInfo))
    → Trail db from to to o.search.bt_stack
    → (r.min_dist ≡ (route o).min_dist) × (r.optimal ≡ (route o).optimal) ⊎ Best db from to sts r
    → (r.min_dist ≡ o.min_dist) × (r.optimal ≡ o.optimal)
      ⊎ Best db from to (o.search.bt_stack ∷ sts) r
shown_after db from to o r sts t (inr b) = inr (record {
  stack = b.stack;
  among = Memᴰ.tail b.among;
  order = b.order;
  journey = b.journey;
  length = b.length;
})
shown_after db from to o r sts t (inl (d, p)) = elim (route_shown db from to o t) [
  | inl (d', p') ↦ inl (d ∙ d', p ∙ p')
  | inr (order, journey, sum) ↦ inr (record {
    stack = o.search.bt_stack;
    among = Memᴰ.head refl;
    order = p ∙ order;
    journey = subst (Journey db to from to) (sym p) journey;
    length = ap total p ∙ sum ∙ sym d;
  })
]

find_all-Kept :
    (db : List FlightInfo) (fuel : ℕ) (from to : String) (o : Optimal)
    → open_flights o.search.flights < fuel
    → o.search.bt_stack ≡ []
    → MoreMarked o.search.flights db
    → (r : Optimal) × (find_all fuel from to o ≡ done r) × Kept db from to o r
unfolding find_all route
find_all-Kept db zero from to o h empty m = absurd (omega arith)
find_all-Kept db (suc fuel) from to o h empty m =
    let (s, ends, legs, result) = findroute-HasRoute closest from to o.search empty in
    elim result [
      | inl (missing, _) ↦ (
        record o { search = s },
        rw (ends, ◌>>=◌) (rw missing refl),
        record {
          stacks = [];
          found = over ends missing;
          least = refl;
          ways = tt;
          trails = tt;
          shown = inl (refl, refl);
        },
      )
      | inr way ↦
          let o' = record o { search = s } in
          let t = Trail-MoreMarked o.search.flights db from to m way.trail in
          let (r, stops, kept) =
            find_all-Kept db fuel from to (route o') (omega (arith, way.spent)) refl
              (MoreMarked-trans s.flights o.search.flights db legs m) in
          (
            r,
            rw (ends, ◌>>=◌) (rw (way.found) stops),
            record {
              stacks = s.bt_stack ∷ kept.stacks;
              found = another ends way.found kept.found;
              least = kept.least ∙ ap (λ (k : ℕ). minimum k kept.stacks) (route-min o');
              ways = (Way-MoreMarked o.search.flights db from m way.way, kept.ways);
              trails = (t, kept.trails);
              shown = shown_after db from to o' r kept.stacks t kept.shown;
            },
          )
    ]

-- With more fuel than flights that are not marked the loop of `main` ends. The length that it keeps,
-- 100000 at first, is the least of that and the lengths of the routes that its calls of findroute
-- find, each of which is a way from one place to the other, flight by flight. Either the length is
-- still 100000 and no route is kept; or the route that is kept is one of these, from the one place to
-- the other in the order of its flights, and has that length.
pub find_all-construct :
    (fuel : ℕ) (from to : String) (flights : List FlightInfo)
    → open_flights flights < fuel
    → (r : Optimal) × (find_all fuel from to (construct flights) ≡ done r)
      × Kept flights from to (construct flights) r
unfolding construct
find_all-construct fuel from to flights h =
    find_all-Kept flights fuel from to (construct flights) h refl (MoreMarked-refl flights)
