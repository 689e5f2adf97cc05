-- ===== src/Search/BreadthFirst/Connect.antt =====
-- The loop of `findroute` over the flights of a place.
use Prim.Native.String.{String}
use sample_code.Common.{
  ℕ, zero, suc, ◌<◌, ◌≡◌, ◌∙◌, ◌⊎◌, inl, inr, refl, ap, arith, Option-cases, List, ◌∷◌,
}
use sample_code.Common.Outcome.{done}
use sample_code.Search.Flights.{FlightInfo, flight, match, find}
use sample_code.Search.Flights.Marks.{Marks, open_flights}
use sample_code.Search.Flights.Lookup.{find-Marks, match-Marks}
use sample_code.Search.Route.{Search}
use sample_code.Search.Route.Trail.{Leg, MoreMarked, MoreMarked-Marks}
use sample_code.Search.BreadthFirst.{reset_stack, connect}
use sample_code.Search.BreadthFirst.Restored.{IsSingle, reset-find, IsSingle-find}

-- The loop found two flights that lead from `from` to `to`.
pub record Linked (db : List FlightInfo) (from to : String) (st : List FlightInfo) (r : Search)
    : Type 0 where
  pub between : String
  pub near : ℕ
  pub far : ℕ
  pub first : Leg db from near between
  pub second : Leg db between far to
  pub stack : r.bt_stack ≡ flight between to far ∷ (flight from between near ∷ st)
  pub legs : MoreMarked r.flights db

-- A flight of a database with more marks.
leg_of :
    (fl db : List FlightInfo) (f : FlightInfo) (fl' : List FlightInfo) (from to : String)
    → MoreMarked fl db
    → Marks f fl fl'
    → f.from ≡ from
    → f.to ≡ to
    → Leg db from f.distance to
leg_of fl db f fl' from to same m p q =
    same.into from f.distance to
      (record { leg = f; listed = m.found; leaves = p; length = refl; arrives = q })

pub connect-ends :
    (db : List FlightInfo) (from to : String) (fuel : ℕ) (s : Search) (reset : List FlightInfo)
    → open_flights s.flights < fuel
    → IsSingle s.flights
    → MoreMarked s.flights db
    → ((r : Search) × (connect fuel from to s reset ≡ done (inl r))
        × Linked db from to s.bt_stack r)
      ⊎ (fl : List FlightInfo) × (rs : List FlightInfo) × (connect fuel from to s reset
          ≡ done (inr (fl, rs)))
        × (reset_stack rs fl ≡ reset_stack reset s.flights)
unfolding connect reset_stack
connect-ends db from to zero s reset h u same = absurd (omega arith)
connect-ends db from to (suc fuel) s reset h u same = elim (Option-cases (find from s.flights)) [
  | inl e ↦ inr (s.flights, reset, rw (e, connect) refl, refl)
  | inr ((f, fl), e) ↦
      let (m, leaves) = find-Marks from s.flights f fl e in
      let same' = MoreMarked-Marks f s.flights fl db m same in
      let first = leg_of s.flights db f fl from f.to same m leaves refl in
      elim (Option-cases (match f.to to fl)) [
        | inr ((g, fl'), e') ↦
            let (m', leaves', arrives) = match-Marks f.to to fl g fl' e' in
            inl (
              record {
                flights = fl';
                bt_stack = flight f.to to g.distance ∷ (flight from f.to f.distance ∷ s.bt_stack);
              },
              rw (e, connect) (rw e' refl),
              record {
                between = f.to;
                near = f.distance;
                far = g.distance;
                first = first;
                second = leg_of fl db g fl' f.to to same' m' leaves' arrives;
                stack = refl;
                legs = MoreMarked-Marks g fl fl' db m' same';
              },
            )
        | inl e' ↦
            let step : connect (suc fuel) from to s reset
                ≡ connect fuel from to (record s { flights = fl }) (f ∷ reset) =
              rw (e, connect) (rw e' refl) in
            elim (connect-ends db from to fuel (record s { flights = fl }) (f ∷ reset)
              (omega (arith, m.fewer)) (IsSingle-find from s.flights f fl u e).0 same') [
                | inl (r, ends, l) ↦ inl (r, step ∙ ends, l)
                | inr (fl', rs, ends, back) ↦ inr (
                  fl',
                  rs,
                  step ∙ ends,
                  back ∙ ap (reset_stack reset) (reset-find from s.flights f fl u e).0,
                )
              ]
      ]
]
