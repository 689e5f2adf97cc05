-- ===== src/ConsistentHash/Loops.antt =====
-- The loops of `addServerLL` and `removeServerLL`.
use Prim.Native.String.{String}
use text.Mathlib.Text.{◌==◌ as same_text}
use text.Mathlib.TextEquality.{eq_iff}
use sample_code.Common.{
  ℕ, zero, suc, ◌+◌, ◌-◌, ◌*◌, ◌≤◌, ◌<◌, ◌≡◌, ◌≢◌, ◌∙◌, ◌⊎◌, inl, inr, refl, sym, ap, arith,
  if◌then◌else◌,
}
use sample_code.Common.Outcome.{done}
use sample_code.ConsistentHash.{
  Lbase, magic, vnode_size, vnode_num, next, assign, vnode_of, store, clean,
}
use sample_code.ConsistentHash.Slots.{IsSlot}
use sample_code.ConsistentHash.Owner.{text_cases, cases_lt_suc}

number_cases : (a b : ℕ) → (a ≡ b) ⊎ (a ≢ b)
number_cases a b = ground arith

module _ (lbase : Lbase) (node : String) where
  -- One of the virtual nodes of `node` from number `i` on, `n` of them.
  abbrev pub IsOwn : ℕ → ℕ → ℕ → Type 0
  IsOwn i n v = (j : ℕ) × (i ≤ j) × (j < i + n) × (v ≡ vnode_of lbase node j)

  -- What a loop over the virtual nodes of `node` makes of one.
  pub store-cases :
      (value : String) (n i : ℕ) (m : ℕ → String) (v : ℕ)
      → IsOwn i n v × (store lbase n i node value m v ≡ value)
        ⊎ ¬ IsOwn i n v × (store lbase n i node value m v ≡ m v)
  unfolding store
  store-cases value zero i m v = inr (λ (j, l, b, e). omega (arith, l, b), refl)
  store-cases value (suc n) i m v =
      let here = vnode_of lbase node i in
      elim (store-cases value n (i + 1) (assign m here value) v) [
        | inl ((j, l, b, e), q) ↦ inl ((j, omega (arith, l), omega (arith, b), e), q)
        | inr (other, q) ↦ elim (number_cases v here) [
          | inl e ↦ inl ((i, omega arith, omega arith, e), q ∙ ground (arith, e))
          | inr n' ↦ inr (
            λ (j, l, b, e). elim (number_cases j i) [
              | inl same ↦ n' (e ∙ ap (vnode_of lbase node) same)
              | inr later ↦ other (j, omega (arith, l, later), omega (arith, b), e)
            ],
            q ∙ ground (arith, n'),
          )
        ]
      ]

-- The turn of the last loop of `removeServerLL` at `v`.
abbrev pub Cleaned : String → ℕ → (ℕ → String) → (ℕ → String) → Type 0
Cleaned node v m m' = (m v ≡ node) × (m' v ≡ "") ⊎ (m v ≢ node) × (m' v ≡ m v)

Cleaned-via :
    (node : String) (v : ℕ) (m m' n n' : ℕ → String)
    → m v ≡ n v
    → m' v ≡ n' v
    → Cleaned node v n n'
    → Cleaned node v m m'
Cleaned-via node v m m' n n' p q (inl (e, e')) = inl (p ∙ e, q ∙ e')
Cleaned-via node v m m' n n' p q (inr (e, e')) = inr (λ h. e (sym p ∙ h), q ∙ e' ∙ sym p)

module _ (node : String) where
  clean_turn : (ℕ → String) → ℕ → ℕ → String
  clean_turn m v = if same_text (m v) node then assign m v "" else m

  turn_Cleaned : (m : ℕ → String) (v : ℕ) → Cleaned node v m (clean_turn m v)
  unfolding clean_turn
  turn_Cleaned m v = elim (text_cases (m v) node) [
    | inl e ↦ inl (e, ground (arith, e, eq_iff (m v) node))
    | inr n ↦ inr (n, ground (arith, n, eq_iff (m v) node))
  ]

  turn_other : (m : ℕ → String) (v w : ℕ) → w ≢ v → clean_turn m v w ≡ m w
  unfolding clean_turn
  turn_other m v w h = ground arith

  module _ (fuel v : ℕ) (m : ℕ → String) (low : v ≤ magic) where
    clean_last : v ≡ magic → clean (suc fuel) v node m ≡ done (clean_turn m v)
    unfolding clean clean_turn
    clean_last e = ground arith

    clean_next : v ≢ magic → clean (suc fuel) v node m ≡ clean fuel (next v) node (clean_turn m v)
    unfolding clean clean_turn
    clean_next e = ground arith

  clean-from :
      (fuel k : ℕ) (m : ℕ → String)
      → k < vnode_num
      → vnode_num ≤ fuel + k
      → (r : ℕ → String) × (clean fuel (k * vnode_size) node m ≡ done r)
        × ((i : ℕ) → i < k → r (i * vnode_size) ≡ m (i * vnode_size))
        × ((i : ℕ) → k ≤ i → i < vnode_num → Cleaned node (i * vnode_size) m r)
  clean-from zero k m h l = absurd (omega arith)
  clean-from (suc fuel) k m h l =
      let v = k * vnode_size in
      let low : v ≤ magic = omega arith in
      elim (cases_lt_suc k (vnode_num - 1) (omega arith)) [
        | inr q ↦ (
          clean_turn m v,
          clean_last fuel v m low (omega (arith, q)),
          λ i b. turn_other m v (i * vnode_size) (omega (arith, b)),
          λ i a b. let e : i ≡ k = omega (arith, a, b, q) in rw e (turn_Cleaned m v),
        )
        | inl b ↦
            let step : next v ≡ suc k * vnode_size = omega arith in
            let (r, ends, before, after) =
              clean-from fuel (suc k) (clean_turn m v) (omega arith) (omega arith) in
            (
              r,
              clean_next fuel v m low (omega arith)
                  ∙ ap (λ (u : ℕ). clean fuel u node (clean_turn m v)) step
                  ∙ ends,
              λ i b. before i (omega arith) ∙ turn_other m v (i * vnode_size) (omega (arith, b)),
              λ i a b'.
                  let w = i * vnode_size in
                  elim (number_cases i k) [
                    | inl e ↦ rw e (
                        Cleaned-via node v m r m (clean_turn m v) refl (before k (omega arith))
                          (turn_Cleaned m v))
                    | inr n ↦
                        Cleaned-via node w m r (clean_turn m v) r
                          (sym (turn_other m v w (omega (arith, n)))) refl
                          (after i (omega (arith, n)) b')
                  ],
            )
      ]

  -- The loop ends, and takes `node` out of every virtual node.
  pub clean-slots :
      (m : ℕ → String)
      → (r : ℕ → String) × (clean vnode_num 0 node m ≡ done r)
        × ((v : ℕ) → IsSlot v → Cleaned node v m r)
  clean-slots m =
      let (r, ends, before, after) = clean-from vnode_num 0 m (omega arith) (omega arith) in
      (r, ends, λ v s. rw (s.place) (after s.index (omega arith) s.below))
