-- ===== src/Search/BreadthFirst/Turns.antt =====
-- One call of `findroute` of breadth_first.cpp, where the resets leave the flights as they were.
use Prim.Native.String.{String}
use mathlib.Core.Path.{ap₂}
use sample_code.Common.{ℕ, suc, ◌≡◌, ◌∙◌, inl, inr, refl, ap, none, some, List, [], ◌∷◌}
use sample_code.Common.Outcome.{done, ◌>>=◌}
use sample_code.Search.Flights.{FlightInfo, match, find}
use sample_code.Search.Flights.Marks.{open_flights}
use sample_code.Search.Route.{Search}
use sample_code.Search.Route.Rule.{pushed}
use sample_code.Search.BreadthFirst.{reset_stack, connect, find_breadth}

module _ (fuel : ℕ) (from to : String) (s : Search) where
  pub breadth_hit :
      (f : FlightInfo) (fl : List FlightInfo)
      → match from to s.flights ≡ some (f, fl)
      → find_breadth (suc fuel) from to s ≡ done (pushed from to f fl s)
  unfolding find_breadth
  breadth_hit f fl e = rw (e, find_breadth) refl

  module _ (none_direct : match from to s.flights ≡ none) where
    pub breadth_linked :
        (r : Search)
        → connect (suc (open_flights s.flights)) from to s [] ≡ done (inl r)
        → find_breadth (suc fuel) from to s ≡ done r
    unfolding find_breadth
    breadth_linked r e = rw (none_direct, find_breadth) (rw (e, ◌>>=◌) refl)

    module _ (fl rs : List FlightInfo)
        (e : connect (suc (open_flights s.flights)) from to s [] ≡ done (inr (fl, rs)))
        (back : reset_stack rs fl ≡ s.flights) where
      pub breadth_go :
          (f : FlightInfo) (fl' : List FlightInfo)
          → find from s.flights ≡ some (f, fl')
          → find_breadth (suc fuel) from to s ≡ find_breadth fuel f.to to (pushed from to f fl' s)
      unfolding find_breadth
      breadth_go f fl' found =
          rw (none_direct, find_breadth) (rw (e, ◌>>=◌) (rw (back) (rw found refl)))

      pub breadth_back :
          (f : FlightInfo) (rest : List FlightInfo)
          → find from s.flights ≡ none
          → s.bt_stack ≡ f ∷ rest
          → find_breadth (suc fuel) from to s
            ≡ find_breadth fuel f.from f.to (record { flights = s.flights; bt_stack = rest })
      unfolding find_breadth
      breadth_back f rest missing top =
          let missing' : find from (reset_stack rs fl) ≡ none = ap (find from) back ∙ missing in
          rw (none_direct, find_breadth)
            (rw (e, ◌>>=◌)
              (rw (missing', top)
                (ap
                  (λ (l : List FlightInfo).
                    find_breadth fuel f.from f.to (record { flights = l; bt_stack = rest }))
                  back)))

      pub breadth_stop :
          find from s.flights ≡ none → s.bt_stack ≡ [] → find_breadth (suc fuel) from to s ≡ done s
      unfolding find_breadth
      breadth_stop missing empty =
          let missing' : find from (reset_stack rs fl) ≡ none = ap (find from) back ∙ missing in
          rw (none_direct, find_breadth)
            (rw (e, ◌>>=◌)
              (rw (missing', empty)
                (ap₂ (λ (l t : List FlightInfo). done (record { flights = l; bt_stack = t })) back
                  empty)))
