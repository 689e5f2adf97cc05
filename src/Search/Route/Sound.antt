-- ===== src/Search/Route/Sound.antt =====
-- `findroute` turn by turn: the trail that its stack stands for.
use Prim.Native.String.{String}
use sample_code.Common.{
  suc, ◌<◌, ◌≡◌, ◌⊎◌, inl, inr, refl, sym, arith, true, false, some, List, [], ◌∷◌,
}
use mathlib.Core.Path.{subst}
use sample_code.Common.Outcome.{done}
use sample_code.Search.Flights.{FlightInfo, match}
use sample_code.Search.Flights.Marks.{Marks, open_flights}
use sample_code.Search.Flights.Lookup.{match-Marks}
use sample_code.Search.Finders.{Finder}
use sample_code.Search.Route.{Search, work, findroute, routefound, total}
use sample_code.Search.Route.Rule.{pushed, Keeps, find_route_rule}
use sample_code.Search.Route.Trail.{
  Leg, MoreMarked, MoreMarked-refl, MoreMarked-Marks, Trail, start, leg, Way, one, more,
}

module _ (db : List FlightInfo) (origin to : String) where
  -- What holds at every turn of a search that is at `from`.
  pub record OnTrail (from : String) (s : Search) : Type 0 where
    pub legs : MoreMarked s.flights db
    pub trail : Trail db origin to from s.bt_stack

  marked-Leg :
      (f : FlightInfo) (fl fl' : List FlightInfo) (from : String)
      → Marks f fl fl'
      → f.from ≡ from
      → MoreMarked fl db
      → Leg db from f.distance f.to
  marked-Leg f fl fl' from m e same =
      same.into from f.distance f.to
        (record { leg = f; listed = m.found; leaves = e; length = refl; arrives = refl })

  -- A flight that is found lengthens the trail.
  pub pushed-OnTrail :
      (from : String) (s : Search) (f : FlightInfo) (fl : List FlightInfo)
      → OnTrail from s
      → Marks f s.flights fl
      → f.from ≡ from
      → OnTrail f.to (pushed from to f fl s)
  pushed-OnTrail from s f fl t m e = record {
    legs = MoreMarked-Marks f s.flights fl db m t.legs;
    trail = leg _ refl t.trail (marked-Leg f s.flights fl from m e t.legs);
  }

  -- The top of the stack is where the search was before.
  Trail-uncons :
      {at : String} {st : List FlightInfo} (f : FlightInfo) (rest : List FlightInfo)
      → Trail db origin to at st
      → st ≡ f ∷ rest
      → (f.to ≡ to) × Trail db origin to f.from rest
  Trail-uncons f rest start e = cc
  Trail-uncons f rest (leg {st} g goal t l) e =
      let same : g ≡ f = cc in let tail : st ≡ rest = cc in rw (sym same, sym tail) (goal, t)

  pub popped-OnTrail :
      (from : String) (s : Search) (f : FlightInfo) (rest : List FlightInfo)
      → OnTrail from s
      → s.bt_stack ≡ f ∷ rest
      → (f.to ≡ to) × OnTrail f.from (record { flights = s.flights; bt_stack = rest })
  popped-OnTrail from s f rest t top =
      let (goal, trail) = Trail-uncons f rest t.trail top in
      (goal, record { legs = t.legs; trail = trail })

  -- A trail of one flight or more is a way, as long as the sum that `route` shows.
  pub Trail-Way :
      {at : String} {st : List FlightInfo}
      → Trail db origin to at st
      → (origin ≡ at) × (st ≡ []) ⊎ Way db origin at (total st)
  Trail-Way start = inl (refl, refl)
  Trail-Way (leg {at} e goal t l) = elim (Trail-Way t) [
    | inl (here, empty) ↦
        let sum : e.distance ≡ total (e ∷ []) = omega arith in
        let way = one (subst (λ (a : String). Leg db a e.distance at) (sym here) l) in
        inr (rw empty (subst (Way db origin at) sum way))
    | inr w ↦ inr (more w l)
  ]

  pub Trail-nil :
      {at : String} {st : List FlightInfo} → Trail db origin to at st → st ≡ [] → origin ≡ at
  Trail-nil start e = refl
  Trail-nil (leg g goal t l) e = cc

  -- How a search that found a route ends.
  pub record HasRoute (r : Search) : Type 0 where
    pub found : routefound r ≡ true
    pub way : Way db origin to (total r.bt_stack)
    pub spent : open_flights r.flights < open_flights db
    pub trail : Trail db origin to to r.bt_stack
    pub legs : MoreMarked r.flights db

  pub hit-HasRoute :
      (from : String) (s : Search) (f : FlightInfo) (fl : List FlightInfo)
      → OnTrail from s
      → match from to s.flights ≡ some (f, fl)
      → HasRoute (pushed from to f fl s) × MoreMarked fl db
  unfolding routefound
  hit-HasRoute from s f fl t e =
      let (marks, leaves, arrives) = match-Marks from to s.flights f fl e in
      let t' = pushed-OnTrail from s f fl t marks leaves in
      (
        record {
          found = refl;
          way = elim (Trail-Way t'.trail) [
            | inl (here, empty) ↦ absurd (cc)
            | inr w ↦
                subst (λ (c : String). Way db origin c (total (pushed from to f fl s).bt_stack))
                  arrives w
          ];
          spent = omega (arith, marks.fewer, t.legs.fewer);
          trail =
              subst (λ (c : String). Trail db origin to c (pushed from to f fl s).bt_stack) arrives
                t'.trail;
          legs = t'.legs;
        },
        t'.legs,
      )

-- From an empty stack and any flights, marked or not, `findroute` ends, and changes the flights in
-- their marks only. Then routefound() is false and the stack is empty, or routefound() is true and
-- the stack is a way over flights of the database from one place to the other, whose length is the
-- sum of the distances in the stack, and fewer flights are open.
pub findroute-HasRoute :
    (finder : Finder) (from to : String) (s : Search)
    → s.bt_stack ≡ []
    → (r : Search) × (findroute finder.lookup from to s ≡ done r)
      × MoreMarked r.flights s.flights
      × ((routefound r ≡ false) × (r.bt_stack ≡ []) ⊎ HasRoute s.flights from to r)
unfolding routefound findroute
findroute-HasRoute finder from to s empty =
    let (r, ends, q) =
      find_route_rule finder to (OnTrail s.flights from to)
        (λ r.
          MoreMarked r.flights s.flights
          × ((routefound r ≡ false) × (r.bt_stack ≡ []) ⊎ HasRoute s.flights from to r))
        keeps (suc (work s)) from s (omega arith)
        (record {
          legs = MoreMarked-refl s.flights;
          trail = subst (Trail s.flights from to from) (sym empty) start;
        }) in
    (r, ends, q.0, q.1)
  where
    keeps : Keeps finder to (OnTrail s.flights from to) (λ r.
        MoreMarked r.flights s.flights
        × ((routefound r ≡ false) × (r.bt_stack ≡ []) ⊎ HasRoute s.flights from to r))
    keeps = record {
      hit = λ at t f fl p e.
          let (route, legs) = hit-HasRoute s.flights from to at t f fl p e in (legs, inr route);
      go = λ at t f fl p none_direct e.
          let (marks, leaves) = finder.finds at t.flights f fl e in
          pushed-OnTrail s.flights from to at t f fl p marks leaves;
      back = λ at t f rest p none_direct none_left top.
          popped-OnTrail s.flights from to at t f rest p top;
      stop = λ at t p none_direct none_left e. (p.legs, inl (rw (e, routefound) refl, e));
    }
