-- ===== src/Search/NodeRemoval/Routes.antt =====
-- The loop of `main` of node_removed.cpp, and the routes that it shows.
use Prim.Native.String.{String}
use mathlib.Core.List.{Memᴰ}
use mathlib.Core.List.Memᴰ
use mathlib.Core.Path.{subst}
use sample_code.Common.{
  ℕ, zero, suc, ◌<◌, ◌≡◌, ◌≢◌, ◌∙◌, inl, inr, refl, sym, ap, arith, true, All, List-cases, List, [],
  ◌∷◌,
}
use sample_code.Common.Outcome.{done, ◌>>=◌}
use sample_code.Search.Flights.{FlightInfo, reset_all_skip}
use sample_code.Search.Finders.{first_found}
use sample_code.Search.Route.{Search, routefound, total}
use sample_code.Search.Route.Trail.{Trail, start, leg, Way}
use sample_code.Search.LeastCost.Shortest.{Way-MoreMarked}
use sample_code.Search.Route.Complete.{findroute-decides}
use sample_code.Search.NodeRemoval.{remove, remove_routes}
use sample_code.Search.NodeRemoval.Left.{Left, Left-cons}
use sample_code.Search.NodeRemoval.Removed.{
  named, IsReset, Within, IsReset-removed, Within-removed, named-remove, Way-Within,
}

-- The place where a trail is has a name.
Trail-named :
    (db : List FlightInfo) (origin goal : String)
    → origin ≢ ""
    → ((g : FlightInfo) → Memᴰ g db → g.to ≢ "")
    → {at : String} {st : List FlightInfo} → Trail db origin goal at st
    → at ≢ ""
Trail-named db origin goal name arrivals start = name
Trail-named db origin goal name arrivals (leg e g t l) =
    λ h. arrivals l.leg l.listed (l.arrives ∙ h)

-- The flight at the top of a trail is in the database, and leaves from a place with a name.
record LastLeg (db : List FlightInfo) (f : FlightInfo) : Type 0 where
  last : FlightInfo
  listed : Memᴰ last db
  leaves : last.from ≡ f.from
  arrives : last.to ≡ f.to
  name : f.from ≢ ""

Trail-LastLeg :
    (db : List FlightInfo) (origin to : String) (f : FlightInfo)
    → origin ≢ ""
    → ((g : FlightInfo) → Memᴰ g db → g.to ≢ "")
    → {at : String} {st rest : List FlightInfo} → Trail db origin to at st
    → at ≡ to
    → st ≡ f ∷ rest
    → LastLeg db f
Trail-LastLeg db origin to f name arrivals start here e = cc
Trail-LastLeg db origin to f name arrivals (leg {at} g goal t l) here e =
    let same : g ≡ f = cc in
    record {
      last = l.leg;
      listed = l.listed;
      leaves = l.leaves ∙ ap (λ (x : FlightInfo). x.from) same;
      arrives = l.arrives ∙ here ∙ sym goal ∙ ap (λ (x : FlightInfo). x.to) same;
      name =
          subst (λ (x : FlightInfo). x.from ≢ "") same (Trail-named db origin to name arrivals t);
    }

-- Over the flights that the old database had as well, a trail is one of the old database.
Trail-Within :
    (fl db : List FlightInfo) (origin goal : String)
    → origin ≢ ""
    → ((g : FlightInfo) → Memᴰ g fl → g.to ≢ "")
    → Within fl db
    → {at : String} {st : List FlightInfo} → Trail fl origin goal at st
    → Trail db origin goal at st
Trail-Within fl db origin goal name arrivals h start = start
Trail-Within fl db origin goal name arrivals h (leg {at} e p t l) =
    leg e p (Trail-Within fl db origin goal name arrivals h t)
      (h e.from e.distance at (Trail-named fl origin goal name arrivals t) l)

-- How the loop ends: each stack that is shown is the stack of a way of the database that `main` began
-- with, and the database that is left has none.
pub record AllShown (db : List FlightInfo) (from to : String) (shown : List (List FlightInfo))
    (last : Search) : Type 0 where
  pub trails : All (λ st. Trail db from to to st) shown
  pub ways : All (λ st. Way db from to (total st)) shown
  pub none_left : (n : ℕ) → ¬ Way last.flights from to n

found-nonempty : (s : Search) → routefound s ≡ true → s.bt_stack ≢ []
unfolding routefound
found-nonempty s h e = ground (arith, h, e)

module _ (db : List FlightInfo) (from to : String) (name : from ≢ "") where
  remove_routes-rec :
      (fuel : ℕ) (s : Search)
      → named s.flights < fuel
      → s.bt_stack ≡ []
      → IsReset s.flights
      → Within s.flights db
      → (shown : List (List FlightInfo)) × (last : Search) × (remove_routes fuel from to s
          ≡ done (shown, last))
        × AllShown db from to shown last
        × Left s.flights shown last
  unfolding remove_routes
  remove_routes-rec zero s h empty r w = absurd (omega arith)
  remove_routes-rec (suc fuel) s h empty r w =
      let (t, ends, result) =
        findroute-decides first_found from to s empty r.fresh (λ a d b l. tt) in
      elim result [
        | inl none ↦ (
          [],
          t,
          rw (ends, ◌>>=◌) (rw (none.missing) refl),
          record {
            trails = tt;
            ways = tt;
            none_left = λ n x. none.no_way n (Way-MoreMarked t.flights s.flights from none.legs x);
          },
          record {
            within = λ a d b n l. none.legs.into a d b l;
            left = λ a d b n l. inl (none.legs.from a d b l);
            gone = λ a d b n i l. Memᴰ.not-nil i.listed;
          },
        )
        | inr route ↦ elim (List-cases t.bt_stack) [
          | inl e ↦ absurd (found-nonempty t (route.found) e)
          | inr (f, rest, e) ↦
              let top = Trail-LastLeg s.flights from to f name r.arrivals route.trail refl e in
              let fl = remove f (reset_all_skip s.flights) in
              let same : remove f (reset_all_skip t.flights) ≡ fl = ap (remove f) route.legs.same in
              let (shown, last, stops, ok, k) =
                remove_routes-rec fuel (record { flights = fl; bt_stack = [] })
                  (omega (
                    arith,
                    named-remove f s.flights top.last top.listed top.leaves top.arrives top.name,
                  ))
                  refl (IsReset-removed f s.flights r.arrivals) (Within-removed f s.flights db w) in
              (
                (f ∷ rest) ∷ shown,
                last,
                rw (ends, ◌>>=◌) (rw (e, same, stops) refl),
                record {
                  trails = (
                    subst (Trail db from to to) e
                        (Trail-Within s.flights db from to name r.arrivals w route.trail),
                    ok.trails,
                  );
                  ways = (
                    subst (λ st. Way db from to (total st)) e
                        (Way-Within s.flights db from name r.arrivals w route.way).0,
                    ok.ways,
                  );
                  none_left = ok.none_left;
                },
                Left-cons s.flights f rest shown last top.name k,
              )
        ]
      ]

-- For a place `from` with a name, unmarked flights that arrive at places with names, an empty stack
-- and more fuel than flights, the loop of `main` ends. Each stack that it shows is the stack of a way
-- from one place to the other over the flights that it began with, an entry for each flight and the
-- last flight on top, as long as the sum of its distances. Of the flights between places with names,
-- those are left that the loop began with, but for each flight from and to the places of an entry
-- that was on top; and over the flights that are left there is no way any more.
pub remove_routes-AllShown :
    (from to : String) (s : Search) (fuel : ℕ)
    → from ≢ ""
    → IsReset s.flights
    → s.bt_stack ≡ []
    → named s.flights < fuel
    → (shown : List (List FlightInfo)) × (last : Search) × (remove_routes fuel from to s
        ≡ done (shown, last))
      × AllShown s.flights from to shown last
      × Left s.flights shown last
remove_routes-AllShown from to s fuel name reset empty h =
    remove_routes-rec s.flights from to name fuel s h empty reset (λ a d b n l. l)
