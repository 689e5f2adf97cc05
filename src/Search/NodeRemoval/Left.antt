-- ===== src/Search/NodeRemoval/Left.antt =====
-- Which flights the loop of `main` of node_removed.cpp leaves in the database.
use Prim.Native.String.{String}
use text.Mathlib.Text.{◌==◌}
use text.Mathlib.TextEquality.{eq_iff}
use mathlib.Core.List.{Memᴰ}
use mathlib.Core.List.Memᴰ
use sample_code.Common.{
  ℕ, ◌≡◌, ◌≢◌, ◌∙◌, ◌⊎◌, ◌&&◌, Bool-cases, inl, inr, refl, sym, ap, arith, List, ◌∷◌,
}
use sample_code.Search.Flights.{FlightInfo, reset_all_skip}
use sample_code.Search.Route.{Search}
use sample_code.Search.Route.Trail.{Leg}
use sample_code.Search.NodeRemoval.{remove}
use sample_code.Search.NodeRemoval.Removed.{Within, Within-removed, Leg-left, Leg-gone}

-- A route that is shown has a flight from `a` to `b` as its last one: on top of its stack.
pub record IsLast (shown : List (List FlightInfo)) (a b : String) : Type 0 where
  pub top : FlightInfo
  pub rest : List FlightInfo
  pub listed : Memᴰ (top ∷ rest) shown
  pub leaves : top.from ≡ a
  pub arrives : top.to ≡ b

-- Which flights between places with names are left: those of `db`, but for the flights from and to
-- the places of the last flight of a route.
pub record Left (db : List FlightInfo) (shown : List (List FlightInfo)) (last : Search)
    : Type 0 where
  pub within : Within last.flights db
  pub left :
      (a : String) (d : ℕ) (b : String)
      → a ≢ ""
      → Leg db a d b
      → Leg last.flights a d b ⊎ IsLast shown a b
  pub gone :
      (a : String) (d : ℕ) (b : String) → a ≢ "" → IsLast shown a b → ¬ Leg last.flights a d b

-- One more turn before the others.
pub Left-cons :
    (fl : List FlightInfo) (f : FlightInfo) (rest : List FlightInfo)
    (shown : List (List FlightInfo)) (last : Search)
    → f.from ≢ ""
    → Left (remove f (reset_all_skip fl)) shown last
    → Left fl ((f ∷ rest) ∷ shown) last
Left-cons fl f rest shown last name k = record {
  within = λ a d b n l. Within-removed f fl fl (λ a d b n l. l) a d b n (k.within a d b n l);
  left = λ a d b n l. elim (Bool-cases (a == f.from && b == f.to)) [
    | inl t ↦ inr (record {
      top = f;
      rest = rest;
      listed = Memᴰ.head refl;
      leaves = ground (arith, t, eq_iff a f.from);
      arrives = ground (arith, t, eq_iff b f.to);
    })
    | inr t ↦ elim (k.left a d b n (Leg-left f fl a d b t l)) [
      | inl there ↦ inl there
      | inr i ↦ inr (record {
        top = i.top;
        rest = i.rest;
        listed = Memᴰ.tail i.listed;
        leaves = i.leaves;
        arrives = i.arrives;
      })
    ]
  ];
  gone = λ a d b n i l. elim (Memᴰ.cases_cons i.listed) [
    | inl e ↦
        let same : i.top ≡ f = cc in
        let p : f.from ≡ a = ap (λ (x : FlightInfo). x.from) (sym same) ∙ i.leaves in
        let q : f.to ≡ b = ap (λ (x : FlightInfo). x.to) (sym same) ∙ i.arrives in
        let there = k.within a d b n l in
        Leg-gone f fl d name (record {
          leg = there.leg;
          listed = there.listed;
          leaves = there.leaves ∙ sym p;
          length = there.length;
          arrives = there.arrives ∙ sym q;
        })
    | inr t ↦
        k.gone a d b n
          (record {
            top = i.top;
            rest = i.rest;
            listed = t;
            leaves = i.leaves;
            arrives = i.arrives;
          })
          l
  ];
}
