-- ===== src/ConsistentHash/Flush.antt =====
-- `flush`, and the first of its loops.
use Prim.Native.String.{String}
use text.Mathlib.Text.{◌==◌ as same_text}
use text.Mathlib.TextEquality.{eq_iff}
use mathlib.Core.Path.{subst}
use sample_code.Common.{
  ℕ, zero, suc, ◌+◌, ◌-◌, ◌*◌, ◌≤◌, ◌<◌, ◌≡◌, ◌≢◌, ◌∙◌, ◌⊎◌, inl, inr, refl, ap, arith, false,
}
use sample_code.Common.Outcome.{done, ◌>>=◌}
use sample_code.ConsistentHash.{
  errok, err_conf, Hash, magic, vnode_size, vnode_num, next, find_first, flush,
}
use sample_code.ConsistentHash.Slots.{IsSlot, at, at-le, at-surj}
use sample_code.ConsistentHash.Owner.{Owner, IsEmpty, Owners, text_cases, cases_lt_suc}
use sample_code.ConsistentHash.Fill.{fill-Filled, self_Owner}

module _ (fuel v : ℕ) (m : ℕ → String) (low : v ≤ magic) where
  first_found : m v ≢ "" → find_first (suc fuel) v m ≡ done v
  unfolding find_first
  first_found h = ground (arith, eq_iff (m v) "")

  first_last : m v ≡ "" → v ≡ magic → find_first (suc fuel) v m ≡ done 0
  unfolding find_first
  first_last h e = ground (arith, eq_iff (m v) "")

  first_next : m v ≡ "" → v ≢ magic → find_first (suc fuel) v m ≡ find_first fuel (next v) m
  unfolding find_first
  first_next h e = ground (arith, eq_iff (m v) "")

find_first-slot :
    (m : ℕ → String) (fuel k : ℕ)
    → k < vnode_num
    → vnode_num ≤ fuel + k
    → ((j : ℕ) → j < k → m (j * vnode_size) ≡ "")
    → (find_first fuel (k * vnode_size) m ≡ done 0) × IsEmpty m
      ⊎ (f : ℕ) × (f < vnode_num)
        × (find_first fuel (k * vnode_size) m ≡ done (f * vnode_size))
        × (m (f * vnode_size) ≢ "")
find_first-slot m zero k h l e = absurd (omega arith)
find_first-slot m (suc fuel) k h l e =
    let v = k * vnode_size in
    let low : v ≤ magic = omega arith in
    elim (text_cases (m v) "") [
      | inr other ↦ inr (k, h, first_found fuel v m low other, other)
      | inl here ↦
          let upto : (j : ℕ) → j < suc k → m (j * vnode_size) ≡ "" = λ j l.
            elim (cases_lt_suc j k l) [
              | inl b ↦ e j b
              | inr q ↦ ap (λ (i : ℕ). m (i * vnode_size)) q ∙ here
            ] in
          elim (cases_lt_suc k (vnode_num - 1) (omega arith)) [
            | inr q ↦ inl (
              first_last fuel v m low here (omega (arith, q)),
              λ w s. ap m s.place ∙ upto s.index (omega (arith, s.below, q)),
            )
            | inl b ↦
                let step : next v ≡ suc k * vnode_size = omega arith in
                rw (first_next fuel v m low here (omega arith), step)
                  (find_first-slot m fuel (suc k) (omega arith) (omega arith) upto)
          ]
    ]

-- `flush` ends. Without an owner of any virtual node it reports ERR_CONF and changes nothing;
-- otherwise it reports ERROK, and each virtual node gets the owner nearest before it around the
-- ring, its own if it has one.
pub flush-Owners :
    (s : Hash)
    → IsEmpty s.vnodelist × (flush s ≡ done (err_conf, s))
      ⊎ (m : ℕ → String) × (flush s ≡ done (errok, record s { vnodelist = m }))
        × Owners s.vnodelist m
unfolding flush
flush-Owners s =
    let m = s.vnodelist in
    elim (find_first-slot m vnode_num 0 (omega arith) (omega arith) (λ j l. absurd (omega arith))) [
      | inl (e, empty) ↦
          let zero_slot : IsSlot 0 = record { index = 0; below = omega arith; place = refl } in
          inl (empty, rw (e, ◌>>=◌) (rw (empty 0 zero_slot) refl))
      | inr (f, below, e, n) ↦
          let first = f * vnode_size in
          let start : first ≡ at f 0 = omega (arith, below) in
          let second : next first ≡ at f 1 = omega arith in
          let (r, ends, owned) =
            fill-Filled m f below vnode_num 1 first m (omega arith) (omega arith) (omega arith)
              (record {
                owned = λ i l.
                    let q : i ≡ 0 = omega arith in
                    rw q (
                      self_Owner m f below (at f 0) (m (at f 0)) (at-le f 0) refl
                        (λ x. n (ap m start ∙ x)));
                rest = λ i l b. refl;
                last = 0;
                before = omega arith;
                place = start;
                same = refl;
                named = n;
                gap = λ i l b. absurd (omega arith);
              }) in
          let other : same_text (m first) "" ≡ false = ground (arith, eq_iff (m first) "") in
          inr (
            r,
            rw (e, ◌>>=◌) (rw (other, second, ends) refl),
            λ v slot.
                let (i, b, q) = at-surj f v below slot in
                subst (λ (w : ℕ). Owner m w (r w)) q (owned i b),
          )
    ]
