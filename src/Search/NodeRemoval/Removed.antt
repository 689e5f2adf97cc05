-- ===== src/Search/NodeRemoval/Removed.antt =====
-- What `resetAllSkip` and `remove` leave of the database. A flight is taken out by an empty name,
-- so the places that are searched must have names.
use Prim.Native.String.{String}
use text.Mathlib.Text.{◌==◌}
use text.Mathlib.TextEquality.{eq_iff}
use mathlib.Core.List.{Memᴰ, map}
use mathlib.Core.List.Memᴰ
use mathlib.Core.Path.{subst, ap₂}
use sample_code.Common.{
  ℕ, suc, ◌≤◌, ◌<◌, ◌≡◌, ◌≢◌, ◌∙◌, inl, inr, refl, sym, ap, arith, true, false, ◌&&◌, if◌then◌else◌,
  Bool-cases, List, [], ◌∷◌,
}
use sample_code.Search.Flights.{FlightInfo, reset_all_skip}
use sample_code.Search.Route.Trail.{Leg, Way, one, more}
use sample_code.Search.NodeRemoval.{blank, remove}

-- The flights that are still in the database.
abbrev pub named : List FlightInfo → ℕ
named [] = 0
named (x ∷ fl) = if x.from == "" then named fl else suc (named fl)

-- No flight is marked, and each arrives at a place with a name.
pub record IsReset (fl : List FlightInfo) : Type 0 where
  pub fresh : (g : FlightInfo) → Memᴰ g fl → g.skip ≡ false
  pub arrivals : (g : FlightInfo) → Memᴰ g fl → g.to ≢ ""

-- The flights of `fl` that leave from a place with a name are flights of `db`.
abbrev pub Within : List FlightInfo → List FlightInfo → Type 0
Within fl db = (a : String) (d : ℕ) (b : String) → a ≢ "" → Leg fl a d b → Leg db a d b

module _ (f : FlightInfo) where
  -- The flight that an entry of the new database was.
  reset-mem :
      (fl : List FlightInfo) (g : FlightInfo)
      → Memᴰ g (reset_all_skip fl)
      → (y : FlightInfo) × Memᴰ y fl × (record y { skip = false } ≡ g)
  unfolding reset_all_skip
  reset-mem [] g m = absurd (Memᴰ.not-nil m)
  reset-mem (x ∷ fl) g m = elim (Memᴰ.cases_cons m) [
    | inl e ↦ (x, Memᴰ.head refl, sym e)
    | inr t ↦ let (y, listed, e) = reset-mem fl g t in (y, Memᴰ.tail listed, e)
  ]

  record Was (fl : List FlightInfo) (g : FlightInfo) : Type 0 where
    old : FlightInfo
    listed : Memᴰ old fl
    free : g.skip ≡ false
    arrives : g.to ≡ old.to
    length : g.distance ≡ old.distance
    leaves : g.from ≢ "" → g.from ≡ old.from

  removed-Was :
      (fl : List FlightInfo) (g : FlightInfo) → Memᴰ g (remove f (reset_all_skip fl)) → Was fl g
  unfolding remove reset_all_skip blank map
  removed-Was fl g m =
      let (x, listed, e) = Memᴰ.of_map (blank f) _ m in
      let (y, listed', e') = reset-mem fl x listed in
      elim (Bool-cases (x.from == f.from && x.to == f.to)) [
        | inl t ↦ record {
          old = y;
          listed = listed';
          free = ground (arith, e, e', t);
          arrives = ground (arith, e, e', t);
          length = ground (arith, e, e', t);
          leaves = λ h. absurd (h (ground (arith, e, t)));
        }
        | inr t ↦ record {
          old = y;
          listed = listed';
          free = ground (arith, e, e', t);
          arrives = ground (arith, e, e', t);
          length = ground (arith, e, e', t);
          leaves = λ h. ground (arith, e, e', t);
        }
      ]

  pub IsReset-removed :
      (fl : List FlightInfo)
      → ((g : FlightInfo) → Memᴰ g fl → g.to ≢ "")
      → IsReset (remove f (reset_all_skip fl))
  IsReset-removed fl h = record {
    fresh = λ g m. (removed-Was fl g m).free;
    arrivals = λ g m e. let w = removed-Was fl g m in h w.old w.listed (sym w.arrives ∙ e);
  }

  pub Within-removed :
      (fl db : List FlightInfo) → Within fl db → Within (remove f (reset_all_skip fl)) db
  Within-removed fl db h a d b name l =
      let w = removed-Was fl l.leg l.listed in
      let same = w.leaves (λ e. name (sym l.leaves ∙ e)) in
      h a d b name (record {
        leg = w.old;
        listed = w.listed;
        leaves = sym same ∙ l.leaves;
        length = sym w.length ∙ l.length;
        arrives = sym w.arrives ∙ l.arrives;
      })

  reset-listed :
      (fl : List FlightInfo) (g : FlightInfo)
      → Memᴰ g fl
      → Memᴰ (record g { skip = false }) (reset_all_skip fl)
  unfolding reset_all_skip
  reset-listed [] g m = absurd (Memᴰ.not-nil m)
  reset-listed (x ∷ fl) g m = elim (Memᴰ.cases_cons m) [
    | inl e ↦ Memᴰ.head (ap (λ (h : FlightInfo). record h { skip = false }) e)
    | inr t ↦ Memᴰ.tail (reset-listed fl g t)
  ]

  -- A flight between other places is still there.
  pub Leg-left :
      (fl : List FlightInfo) (a : String) (d : ℕ) (b : String)
      → (a == f.from && b == f.to) ≡ false
      → Leg fl a d b
      → Leg (remove f (reset_all_skip fl)) a d b
  unfolding remove blank
  Leg-left fl a d b other l =
      let g = record l.leg { skip = false } in
      let apart : (l.leg.from == f.from && l.leg.to == f.to) ≡ false =
        ap₂ (λ (x y : String). x == f.from && y == f.to) l.leaves l.arrives ∙ other in
      record {
        leg = g;
        listed =
            subst (λ (h : FlightInfo). Memᴰ h (map (blank f) (reset_all_skip fl))) (rw apart refl)
              (Memᴰ.map (blank f) (reset-listed fl l.leg l.listed));
        leaves = l.leaves;
        length = l.length;
        arrives = l.arrives;
      }

  -- No flight between the places of `f` is.
  pub Leg-gone :
      (fl : List FlightInfo) (d : ℕ)
      → f.from ≢ ""
      → ¬ Leg (remove f (reset_all_skip fl)) f.from d f.to
  unfolding remove blank
  Leg-gone fl d name l =
      let (x, listed, e) = Memᴰ.of_map (blank f) _ l.listed in
      elim (Bool-cases (x.from == f.from && x.to == f.to)) [
        | inl t ↦ name (ground (arith, e, t, l.leaves))
        | inr t ↦
            let back : x ≡ l.leg = ground (arith, e, t) in
            let p : x.from ≡ f.from = ap (λ (g : FlightInfo). g.from) back ∙ l.leaves in
            let q : x.to ≡ f.to = ap (λ (g : FlightInfo). g.to) back ∙ l.arrives in
            ground (arith, t, p, q, eq_iff x.from f.from, eq_iff x.to f.to)
      ]

  named-remove-le : (fl : List FlightInfo) → named (remove f (reset_all_skip fl)) ≤ named fl
  unfolding remove reset_all_skip blank map
  named-remove-le [] = omega arith
  named-remove-le (x ∷ fl) = elim (Bool-cases (x.from == f.from && x.to == f.to)) [
    | inl t ↦ rw t (ground (arith, named-remove-le fl))
    | inr t ↦ rw t (ground (arith, named-remove-le fl))
  ]

  -- A flight with a name that is there is taken out.
  pub named-remove :
      (fl : List FlightInfo) (g : FlightInfo)
      → Memᴰ g fl
      → g.from ≡ f.from
      → g.to ≡ f.to
      → f.from ≢ ""
      → named (remove f (reset_all_skip fl)) < named fl
  unfolding remove reset_all_skip blank map
  named-remove [] g m p q name = absurd (Memᴰ.not-nil m)
  named-remove (x ∷ fl) g m p q name = elim (Memᴰ.cases_cons m) [
    | inl e ↦
        let p' : x.from ≡ f.from = ap (λ (h : FlightInfo). h.from) (sym e) ∙ p in
        let q' : x.to ≡ f.to = ap (λ (h : FlightInfo). h.to) (sym e) ∙ q in
        let t : (x.from == f.from && x.to == f.to) ≡ true =
          ground (arith, eq_iff x.from f.from, eq_iff x.to f.to) in
        let named_here : (x.from == "") ≡ false = ground (arith, eq_iff x.from "") in
        rw t (rw named_here (omega (arith, named-remove-le fl)))
    | inr later ↦
        let rest = named-remove fl g later p q name in
        elim (Bool-cases (x.from == f.from && x.to == f.to)) [
          | inl t ↦ rw t (ground (arith, rest))
          | inr t ↦ rw t (ground (arith, rest))
        ]
  ]

-- Ways from a place with a name lead to such places, and over flights of the old database.
pub Way-Within :
    (fl db : List FlightInfo) (a : String)
    → a ≢ ""
    → ((g : FlightInfo) → Memᴰ g fl → g.to ≢ "")
    → Within fl db
    → {b : String} {n : ℕ} → Way fl a b n
    → Way db a b n × (b ≢ "")
Way-Within fl db a name arrivals h (one {b} {d} l) =
    (one (h a d b name l), λ e. arrivals l.leg l.listed (l.arrives ∙ e))
Way-Within fl db a name arrivals h (more {b} {c} {n} {d} w l) =
    let (w', name') = Way-Within fl db a name arrivals h w in
    (more w' (h b d c name' l), λ e. arrivals l.leg l.listed (l.arrives ∙ e))
