-- ===== src/ConsistentHash/Owner.antt =====
-- The owners of virtual nodes around the ring.
use Prim.Native.String.{String}
use text.Mathlib.Text.{◌==◌ as same_text}
use text.Mathlib.TextEquality.{eq_iff}
use sample_code.Common.{
  ℕ, suc, ◌+◌, ◌-◌, ◌%◌, ◌<◌, Bool-cases, ◌≡◌, ◌≢◌, ◌∙◌, ◌⊎◌, inl, inr, refl, sym, ap, arith,
}
use sample_code.ConsistentHash.{vnode_num}
use sample_code.ConsistentHash.Slots.{IsSlot, back}

-- `node` has a virtual node at `v` or before it, with empty ones only between the two.
pub record Owner (m : ℕ → String) (v : ℕ) (node : String) : Type 0 where
  pub distance : ℕ
  pub near : distance < vnode_num
  pub found : m (back v distance) ≡ node
  pub named : node ≢ ""
  pub gap : (e : ℕ) → e < distance → m (back v e) ≡ ""

abbrev pub IsFull : (ℕ → String) → Type 0
IsFull m = (v : ℕ) → IsSlot v → m v ≢ ""

abbrev pub IsEmpty : (ℕ → String) → Type 0
IsEmpty m = (v : ℕ) → IsSlot v → m v ≡ ""

pub text_cases : (a b : String) → (a ≡ b) ⊎ (a ≢ b)
text_cases a b = elim (Bool-cases (same_text a b)) [
  | inl t ↦ inl (ground (arith, eq_iff a b))
  | inr t ↦ inr (ground (arith, eq_iff a b))
]

pub cases_lt_suc : (j k : ℕ) → j < suc k → (j < k) ⊎ (j ≡ k)
cases_lt_suc j k h = ground arith

-- Every virtual node of `m'` has the owner that `m` has nearest before it.
abbrev pub Owners : (ℕ → String) → (ℕ → String) → Type 0
Owners m m' = (v : ℕ) → IsSlot v → Owner m v (m' v)

-- A virtual node that has an owner keeps it.
pub Owner-kept :
    (m : ℕ → String) (v : ℕ) (node : String) → IsSlot v → Owner m v node → m v ≢ "" → node ≡ m v
Owner-kept m v node s o n = elim (Nat-zero-cases o.distance) [
  | inl e ↦ sym o.found ∙ ap m (here v s o.distance e)
  | inr l ↦ absurd (n (ap m (sym (here v s 0 refl)) ∙ o.gap 0 l))
]
  where
    here : (w : ℕ) → IsSlot w → (d : ℕ) → d ≡ 0 → back w d ≡ w
    here w s d e = let p = s.place in omega (arith, p, s.below, e)

    Nat-zero-cases : (d : ℕ) → (d ≡ 0) ⊎ (0 < d)
    Nat-zero-cases d = ground arith

pub back-IsSlot : (v d : ℕ) → IsSlot v → d < vnode_num → IsSlot (back v d)
back-IsSlot v d s l =
    let p = s.place in
    let b = s.below in
    record {
      index = (s.index + (vnode_num - d)) % vnode_num;
      below = omega arith;
      place = omega (arith, p, b, l);
    }
