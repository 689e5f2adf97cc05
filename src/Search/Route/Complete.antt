-- ===== src/Search/Route/Complete.antt =====
-- `findroute` where it gives up: the places that the marked flights lead to.
use Prim.Native.String.{String}
use mathlib.Core.List.{Memᴰ}
use mathlib.Core.List.Memᴰ
use mathlib.Core.Path.{subst}
use sample_code.Common.{
  ℕ, suc, ◌≡◌, ◌≢◌, ◌∙◌, ◌⊎◌, inl, inr, refl, sym, ap, arith, true, false, none, List, [], ◌∷◌,
}
use sample_code.Common.Outcome.{done}
use sample_code.Search.Flights.{FlightInfo, match}
use sample_code.Search.Flights.Marks.{Marks}
use sample_code.Search.Flights.Lookup.{match-none}
use sample_code.Search.Finders.{Finder}
use sample_code.Search.Route.{Search, work, findroute, routefound}
use sample_code.Search.Route.Rule.{pushed, Keeps, find_route_rule}
use sample_code.Search.Route.Trail.{Leg, MoreMarked, MoreMarked-refl, Trail, start, Way, one, more}
use sample_code.Search.Route.Sound.{
  OnTrail, HasRoute, pushed-OnTrail, popped-OnTrail, hit-HasRoute, Trail-nil,
}

-- How a search that gives up ends: there is no way, of whatever length.
pub record HasNone (db : List FlightInfo) (from to : String) (r : Search) : Type 0 where
  pub missing : r.bt_stack ≡ []
  pub legs : MoreMarked r.flights db
  pub no_way : (n : ℕ) → ¬ Way db from to n

module _ (finder : Finder) where
  open finder use {lookup, Takes, finds, stops}

  -- Every flight from `c` that the search would take is marked.
  abbrev Exhausted : List FlightInfo → String → Type 0
  Exhausted fl c = (g : FlightInfo) → Memᴰ g fl → g.from ≡ c → Takes g.distance → g.skip ≡ true

  -- A place on the stack, which the search will come back to.
  record OnStack (st : List FlightInfo) (c : String) : Type 0 where
    entry : FlightInfo
    listed : Memᴰ entry st
    place : entry.from ≡ c

  -- A place that the search has been to.
  data Visited (from : String) (s : Search) (c : String) : Type 0 where
    here : c ≡ from → Visited from s c
    waiting : OnStack s.bt_stack c → Visited from s c
    finished : Exhausted s.flights c → Visited from s c

  -- A marked flight does not arrive at the goal, but where the search has been.
  abbrev AllMarked : String → String → Search → Type 0
  AllMarked to from s =
      (g : FlightInfo) → Memᴰ g s.flights → g.skip ≡ true → (g.to ≢ to) × Visited from s g.to

  Exhausted-Marks :
      (f : FlightInfo) (fl fl' : List FlightInfo) (c : String)
      → Marks f fl fl'
      → Exhausted fl c
      → Exhausted fl' c
  Exhausted-Marks f fl fl' c m h g listed leaves takes = elim (m.kept g listed) [
    | inl o ↦ h g o leaves takes
    | inr e ↦ ap (λ (x : FlightInfo). x.skip) e
  ]

  module _ (to : String) where
    Visited-pushed :
        (from : String) (s : Search) (f : FlightInfo) (fl : List FlightInfo) (c : String)
        → Marks f s.flights fl
        → Visited from s c
        → Visited f.to (pushed from to f fl s) c
    Visited-pushed from s f fl c m (here e) =
        waiting (record { entry = _; listed = Memᴰ.head refl; place = sym e })
    Visited-pushed from s f fl c m (waiting w) =
        waiting (record { entry = w.entry; listed = Memᴰ.tail w.listed; place = w.place })
    Visited-pushed from s f fl c m (finished h) = finished (Exhausted-Marks f s.flights fl c m h)

    AllMarked-pushed :
        (from : String) (s : Search) (f : FlightInfo) (fl : List FlightInfo)
        → AllMarked to from s
        → match from to s.flights ≡ none
        → Marks f s.flights fl
        → f.from ≡ from
        → AllMarked to f.to (pushed from to f fl s)
    AllMarked-pushed from s f fl h none_direct m leaves g listed marked = elim (m.kept g listed) [
      | inl o ↦
          let (misses, seen) = h g o marked in (misses, Visited-pushed from s f fl g.to m seen)
      | inr e ↦
          let arrives : g.to ≡ f.to = ap (λ (x : FlightInfo). x.to) e in
          (
            λ hits.
                let direct =
                  match-none from to s.flights none_direct f m.found leaves (sym arrives ∙ hits) in
                cc (direct, m.free),
            here arrives,
          )
    ]

    Visited-popped :
        (from : String) (s : Search) (f : FlightInfo) (rest : List FlightInfo) (c : String)
        → Exhausted s.flights from
        → s.bt_stack ≡ f ∷ rest
        → Visited from s c
        → Visited f.from (record { flights = s.flights; bt_stack = rest }) c
    Visited-popped from s f rest c x top (here e) = finished (rw e x)
    Visited-popped from s f rest c x top (waiting w) =
        elim (Memᴰ.cases_cons (subst (Memᴰ w.entry) top w.listed)) [
          | inl e ↦ here (sym w.place ∙ ap (λ (g : FlightInfo). g.from) e)
          | inr later ↦ waiting (record { entry = w.entry; listed = later; place = w.place })
        ]
    Visited-popped from s f rest c x top (finished h) = finished h

    Visited-nil :
        (from : String) (s : Search) (c : String)
        → Exhausted s.flights from
        → s.bt_stack ≡ []
        → Visited from s c
        → Exhausted s.flights c
    Visited-nil from s c x empty (here e) = rw e x
    Visited-nil from s c x empty (waiting w) =
        absurd (Memᴰ.not-nil (subst (Memᴰ w.entry) empty w.listed))
    Visited-nil from s c x empty (finished h) = h

  -- The flights are such that the search overlooks none by its distance.
  abbrev pub TakesAll : List FlightInfo → Type 0
  TakesAll db = (a : String) (d : ℕ) (b : String) → Leg db a d b → Takes d

  -- Where every marked flight leads to an exhausted place and not to the goal, ways from an
  -- exhausted place do not lead to it either.
  Way-Exhausted :
      (fl db : List FlightInfo) (origin to : String)
      → MoreMarked fl db
      → TakesAll db
      → Exhausted fl origin
      → ((g : FlightInfo) → Memᴰ g fl → g.skip ≡ true → (g.to ≢ to) × Exhausted fl g.to)
      → {c : String} {n : ℕ} → Way db origin c n
      → (c ≢ to) × Exhausted fl c
  Way-Exhausted fl db origin to same takes x closed (one {b} {d} l) =
      let k = same.from origin d b l in
      let fits : Takes k.leg.distance = subst Takes (sym k.length) (takes origin d b l) in
      subst (λ (c : String). (c ≢ to) × Exhausted fl c) k.arrives
        (closed k.leg k.listed (x k.leg k.listed k.leaves fits))
  Way-Exhausted fl db origin to same takes x closed (more {b} {c} {n} {d} w l) =
      let k = same.from b d c l in
      let fits : Takes k.leg.distance = subst Takes (sym k.length) (takes b d c l) in
      let y = (Way-Exhausted fl db origin to same takes x closed w).1 in
      subst (λ (c : String). (c ≢ to) × Exhausted fl c) k.arrives
        (closed k.leg k.listed (y k.leg k.listed k.leaves fits))

  module _ (db : List FlightInfo) (origin to : String) (takes : TakesAll db) where
    pub record Searched (from : String) (s : Search) : Type 0 where
      pub trail : OnTrail db origin to from s
      closed : AllMarked to from s

    abbrev pub Ends : Search → Type 0
    Ends r = HasNone db origin to r ⊎ HasRoute db origin to r

    pub keeps : Keeps finder to Searched Ends
    unfolding routefound
    keeps = record {
      hit = λ from s f fl p e. inr (hit-HasRoute db origin to from s f fl p.trail e).0;
      go = λ from s f fl p none_direct e.
          let (m, leaves) = finds from s.flights f fl e in
          record {
            trail = pushed-OnTrail db origin to from s f fl p.trail m leaves;
            closed = AllMarked-pushed to from s f fl p.closed none_direct m leaves;
          };
      back = λ from s f rest p none_direct none_left top.
          let (goal, trail) = popped-OnTrail db origin to from s f rest p.trail top in
          (
            goal,
            record {
              trail = trail;
              closed = λ g listed marked.
                  let (misses, seen) = p.closed g listed marked in
                  (
                    misses,
                    Visited-popped to from s f rest g.to (stops from s.flights none_left) top seen,
                  );
            },
          );
      stop = λ from s p none_direct none_left empty.
          let x = stops from s.flights none_left in
          let start : origin ≡ from = Trail-nil db origin to p.trail.trail empty in
          inl (record {
            missing = empty;
            legs = p.trail.legs;
            no_way = λ n w.
                (Way-Exhausted s.flights db origin to p.trail.legs takes
                    (subst (Exhausted s.flights) (sym start) x)
                    (λ g listed marked.
                      let (misses, seen) = p.closed g listed marked in
                      (misses, Visited-nil to from s g.to x empty seen))
                    w).0
                  refl;
          });
    }

pub start-Searched :
    (finder : Finder) (from to : String) (s : Search) (takes : TakesAll finder s.flights)
    → s.bt_stack ≡ []
    → ((g : FlightInfo) → Memᴰ g s.flights → g.skip ≡ false)
    → Searched finder s.flights from to takes from s
start-Searched finder from to s takes empty fresh = record {
  trail = record {
    legs = MoreMarked-refl s.flights;
    trail = subst (Trail s.flights from to from) (sym empty) start;
  };
  closed = λ g listed marked. absurd (cc (fresh g listed, marked));
}

-- From an empty stack and flights none of which is marked or overlooked by its distance, `findroute`
-- ends: either routefound() is true and the stack is a way from one place to the other, as long as
-- the sum of its distances; or the stack is empty, and there is no way over one flight or more.
pub findroute-decides :
    (finder : Finder) (from to : String) (s : Search)
    → s.bt_stack ≡ []
    → ((g : FlightInfo) → Memᴰ g s.flights → g.skip ≡ false)
    → TakesAll finder s.flights
    → (r : Search) × (findroute finder.lookup from to s ≡ done r)
      × (HasNone s.flights from to r ⊎ HasRoute s.flights from to r)
unfolding findroute
findroute-decides finder from to s empty fresh takes =
    find_route_rule finder to (Searched finder s.flights from to takes)
      (Ends finder s.flights from to takes) (keeps finder s.flights from to takes) (suc (work s))
      from s (omega arith) (start-Searched finder from to s takes empty fresh)
