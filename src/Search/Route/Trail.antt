-- ===== src/Search/Route/Trail.antt =====
-- What the stack of a search stands for: a chain of flights from the origin to the place where the
-- search is.
use Prim.Native.String.{String}
use mathlib.Core.List.{Memᴰ}
use sample_code.Common.{ℕ, ◌+◌, ◌≤◌, arith, ◌≡◌, ◌∙◌, refl, sym, ap, List, [], ◌∷◌, inl, inr}
use sample_code.Search.Flights.{FlightInfo, used, reset_all_skip}
use sample_code.Search.Flights.Marks.{Marks, open_flights}

-- The database has a flight from `a` to `b` of distance `d`, marked or not.
pub record Leg (fl : List FlightInfo) (a : String) (d : ℕ) (b : String) : Type 0 where
  pub leg : FlightInfo
  pub listed : Memᴰ leg fl
  pub leaves : leg.from ≡ a
  pub length : leg.distance ≡ d
  pub arrives : leg.to ≡ b

-- Both databases have the same flights, and `fl` has no more that are open.
pub record MoreMarked (fl db : List FlightInfo) : Type 0 where
  pub into : (a : String) (d : ℕ) (b : String) → Leg fl a d b → Leg db a d b
  pub from : (a : String) (d : ℕ) (b : String) → Leg db a d b → Leg fl a d b
  pub fewer : open_flights fl ≤ open_flights db
  pub same : reset_all_skip fl ≡ reset_all_skip db

pub MoreMarked-refl : (fl : List FlightInfo) → MoreMarked fl fl
MoreMarked-refl fl = record {
  into = λ a d b l. l;
  from = λ a d b l. l;
  fewer = omega arith;
  same = refl;
}

-- A flight that is marked is still there.
pub MoreMarked-Marks :
    (f : FlightInfo) (fl fl' db : List FlightInfo)
    → Marks f fl fl'
    → MoreMarked fl db
    → MoreMarked fl' db
MoreMarked-Marks f fl fl' db m same = record {
  into = λ a d b l. same.into a d b (elim (m.kept l.leg l.listed) [
    | inl o ↦ record {
      leg = l.leg;
      listed = o;
      leaves = l.leaves;
      length = l.length;
      arrives = l.arrives;
    }
    | inr e ↦ record {
      leg = f;
      listed = m.found;
      leaves = ap (λ (g : FlightInfo). g.from) (sym e) ∙ l.leaves;
      length = ap (λ (g : FlightInfo). g.distance) (sym e) ∙ l.length;
      arrives = ap (λ (g : FlightInfo). g.to) (sym e) ∙ l.arrives;
    }
  ]);
  from = λ a d b k.
      let l = same.from a d b k in
      elim (m.old l.leg l.listed) [
        | inl o ↦ record {
          leg = l.leg;
          listed = o;
          leaves = l.leaves;
          length = l.length;
          arrives = l.arrives;
        }
        | inr (e, o) ↦ record {
          leg = used f;
          listed = o;
          leaves = ap (λ (g : FlightInfo). g.from) (sym e) ∙ l.leaves;
          length = ap (λ (g : FlightInfo). g.distance) (sym e) ∙ l.length;
          arrives = ap (λ (g : FlightInfo). g.to) (sym e) ∙ l.arrives;
        }
      ];
  fewer = omega (arith, m.fewer, same.fewer);
  same = m.same ∙ same.same;
}

-- The stack `st` leads from `origin` to `at`: each entry is the place that was left, the distance
-- of the flight that was taken there, and the destination `goal`.
pub data Trail (db : List FlightInfo) (origin goal : String)
    : String → List FlightInfo → Type 0 where
  start : Trail db origin goal origin []
  leg :
      {at : String} {st : List FlightInfo} (e : FlightInfo)
      → e.to ≡ goal
      → Trail db origin goal e.from st
      → Leg db e.from e.distance at
      → Trail db origin goal at (e ∷ st)

-- A way from `a` over one flight or more, and its length.
pub data Way (db : List FlightInfo) (a : String) : String → ℕ → Type 0 where
  one : {b : String} {d : ℕ} → Leg db a d b → Way db a b d
  more : {b c : String} {n d : ℕ} → Way db a b n → Leg db b d c → Way db a c (n + d)
