-- ===== src/ConsistentHash/Fill.antt =====
-- The second loop of `flush`.
use Prim.Native.String.{String}
use text.Mathlib.TextEquality.{eq_iff}
use sample_code.Common.{
  ℕ, zero, suc, ◌+◌, ◌-◌, ◌*◌, ◌≤◌, ◌<◌, ◌≡◌, ◌≢◌, ◌∙◌, inl, inr, refl, sym, ap, arith,
}
use sample_code.Common.Outcome.{done}
use sample_code.ConsistentHash.{magic, vnode_size, vnode_num, next, assign, fill}
use sample_code.ConsistentHash.Slots.{at, back, at-inj, at-next, at-le, back-at}
use sample_code.ConsistentHash.Owner.{Owner, text_cases, cases_lt_suc}

module _ (fuel first tmp v : ℕ) (m : ℕ → String) (low : v ≤ magic) where
  fill_over : v ≡ first → fill (suc fuel) first tmp v m ≡ done m
  unfolding fill
  fill_over h = ground arith

  fill_owned : v ≢ first → m v ≢ "" → fill (suc fuel) first tmp v m ≡ fill fuel first v (next v) m
  unfolding fill
  fill_owned n h = ground (arith, eq_iff (m v) "")

  fill_free :
      v ≢ first
      → m v ≡ ""
      → fill (suc fuel) first tmp v m ≡ fill fuel first tmp (next v) (assign m v (m tmp))
  unfolding fill
  fill_free n h = ground (arith, eq_iff (m v) "")

assign_self : (m : ℕ → String) (v : ℕ) (x : String) → assign m v x v ≡ x
assign_self m v x = ground arith

assign_other : (m : ℕ → String) (v w : ℕ) (x : String) → w ≢ v → assign m v x w ≡ m w
assign_other m v w x h = ground arith

module _ (m : ℕ → String) (f : ℕ) (below : f < vnode_num) where
  -- The second loop before its turn at place `j` behind the first virtual node with an owner.
  pub record Filled (j tmp : ℕ) (m' : ℕ → String) : Type 0 where
    pub owned : (i : ℕ) → i < j → Owner m (at f i) (m' (at f i))
    pub rest : (i : ℕ) → j ≤ i → i < vnode_num → m' (at f i) ≡ m (at f i)
    pub last : ℕ
    pub before : last < j
    pub place : tmp ≡ at f last
    pub same : m' tmp ≡ m tmp
    pub named : m tmp ≢ ""
    pub gap : (i : ℕ) → last < i → i < j → m (at f i) ≡ ""

  pub self_Owner : (v : ℕ) (node : String) → v ≤ magic → m v ≡ node → node ≢ "" → Owner m v node
  self_Owner v node low e n = record {
    distance = 0;
    near = omega arith;
    found = let p : back v 0 ≡ v = omega arith in ap m p ∙ e;
    named = n;
    gap = λ e l. absurd (omega arith);
  }

  Filled-owned :
      (j tmp : ℕ) (m' : ℕ → String)
      → j < vnode_num
      → Filled j tmp m'
      → m' (at f j) ≢ ""
      → Filled (suc j) (at f j) m'
  Filled-owned j tmp m' h p n =
      let keep = p.rest j (omega arith) h in
      record {
        owned = λ i l. elim (cases_lt_suc i j l) [
          | inl b ↦ p.owned i b
          | inr q ↦ rw q (self_Owner (at f j) (m' (at f j)) (at-le f j) (sym keep) n)
        ];
        rest = λ i l b. p.rest i (omega arith) b;
        last = j;
        before = omega arith;
        place = refl;
        same = keep;
        named = λ e. n (keep ∙ e);
        gap = λ i l b. absurd (omega arith);
      }

  Filled-free :
      (j tmp : ℕ) (m' : ℕ → String)
      → j < vnode_num
      → Filled j tmp m'
      → m' (at f j) ≡ ""
      → Filled (suc j) tmp (assign m' (at f j) (m' tmp))
  Filled-free j tmp m' h p e =
      let v = at f j in
      let node = m' tmp in
      let free : m v ≡ "" = sym (p.rest j (omega arith) h) ∙ e in
      let upto : (i : ℕ) → p.last < i → i < suc j → m (at f i) ≡ "" = λ i l b.
        elim (cases_lt_suc i j b) [
          | inl b' ↦ p.gap i l b'
          | inr q ↦ ap (λ (k : ℕ). m (at f k)) q ∙ free
        ] in
      let other : (i : ℕ) → i < vnode_num → i ≢ j → assign m' v node (at f i) ≡ m' (at f i) =
        λ i b n. assign_other m' v (at f i) node (λ q. n (at-inj f i j below b h q)) in
      record {
        owned = λ i l. elim (cases_lt_suc i j l) [
          | inl b ↦ rw (other i (omega arith) (omega arith)) (p.owned i b)
          | inr q ↦
              rw (q, assign_self m' v node)
                (record {
                  distance = j - p.last;
                  near = omega arith;
                  found =
                      ap m (back-at f j p.last (omega (arith, p.before)) h below ∙ sym p.place)
                      ∙ sym p.same;
                  named = λ x. p.named (sym p.same ∙ x);
                  gap = λ d l.
                      let e' : back v d ≡ at f (j - d) = omega (arith, l, h) in
                      ap m e' ∙ upto (j - d) (omega (arith, l)) (omega arith);
                })
        ];
        rest = λ i l b. other i b (omega arith) ∙ p.rest i (omega arith) b;
        last = p.last;
        before = omega (arith, p.before);
        place = p.place;
        same = ground (arith, p.same);
        named = p.named;
        gap = upto;
      }

  pub fill-Filled :
      (fuel j tmp : ℕ) (m' : ℕ → String)
      → 1 ≤ j
      → j ≤ vnode_num
      → vnode_num < fuel + j
      → Filled j tmp m'
      → (r : ℕ → String) × (fill fuel (f * vnode_size) tmp (at f j) m' ≡ done r)
        × ((i : ℕ) → i < vnode_num → Owner m (at f i) (r (at f i)))
  fill-Filled zero j tmp m' one up h p = absurd (omega arith)
  fill-Filled (suc fuel) j tmp m' one up h p =
      let first = f * vnode_size in
      let low = at-le f j in
      elim (cases_lt_suc j vnode_num (omega arith)) [
        | inr q ↦ (
          m',
          fill_over fuel first tmp (at f j) m' low (omega (arith, q, below)),
          λ i l. p.owned i (omega (arith, q, l)),
        )
        | inl b ↦
            let apart : at f j ≢ first = λ e. omega (arith, at-inj f j 0 below b (omega arith)) in
            elim (text_cases (m' (at f j)) "") [
              | inr other ↦
                  rw (fill_owned fuel first tmp (at f j) m' low apart other, at-next f j)
                    (fill-Filled fuel (suc j) (at f j) m' (omega arith) (omega arith) (omega arith)
                      (Filled-owned j tmp m' b p other))
              | inl here ↦
                  rw (fill_free fuel first tmp (at f j) m' low apart here, at-next f j)
                    (fill-Filled fuel (suc j) tmp _ (omega arith) (omega arith) (omega arith)
                      (Filled-free j tmp m' b p here))
            ]
      ]
