-- ===== src/Search/Route/Journey.antt =====
-- A route in the order of its flights, as `route` shows it: the stack of `findroute` turned round.
use Prim.Native.String.{String}
use mathlib.Core.List.{reverse, reverse-cons}
use mathlib.Core.Path.{subst}
use sample_code.Common.{◌≡◌, refl, sym, List, [], ◌∷◌, ◌++◌}
use sample_code.Search.Flights.{FlightInfo}
use sample_code.Search.Route.Trail.{Leg, MoreMarked, Trail, start, leg}

-- From `a` to `b`, an entry for each flight: the place that it leaves, its distance, and the
-- destination `goal`.
pub data Journey (db : List FlightInfo) (goal : String)
    : String → String → List FlightInfo → Type 0 where
  stay : (a : String) → Journey db goal a a []
  fly :
      {b c : String} {es : List FlightInfo} (e : FlightInfo)
      → e.to ≡ goal
      → Leg db e.from e.distance b
      → Journey db goal b c es
      → Journey db goal e.from c (e ∷ es)

module _ (db : List FlightInfo) (origin goal : String) where
  Journey-append :
      {a c : String} {es : List FlightInfo} (e : FlightInfo) (b : String)
      → Journey db goal a c es
      → c ≡ e.from
      → e.to ≡ goal
      → Leg db e.from e.distance b
      → Journey db goal a b (es ++ e ∷ [])
  Journey-append e b (stay a) here p l =
      subst (λ (x : String). Journey db goal x b (e ∷ [])) (sym here) (fly e p l (stay b))
  Journey-append e b (fly x q k j) here p l = fly x q k (Journey-append e b j here p l)

  pub Trail-Journey :
      {at : String} {st : List FlightInfo}
      → Trail db origin goal at st
      → Journey db goal origin at (reverse st)
  Trail-Journey start = stay origin
  Trail-Journey (leg {at} {st} e p t l) =
      subst (Journey db goal origin at) (sym (reverse-cons e st))
        (Journey-append e at (Trail-Journey t) refl p l)

pub Trail-MoreMarked :
    (fl db : List FlightInfo) (origin goal : String) {at : String} {st : List FlightInfo}
    → MoreMarked fl db
    → Trail fl origin goal at st
    → Trail db origin goal at st
Trail-MoreMarked fl db origin goal m start = start
Trail-MoreMarked fl db origin goal m (leg {at} e p t l) =
    leg e p (Trail-MoreMarked fl db origin goal m t) (m.into e.from e.distance at l)
