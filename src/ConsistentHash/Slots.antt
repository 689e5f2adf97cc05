-- ===== src/ConsistentHash/Slots.antt =====
-- The numbers of the virtual nodes: the multiples of 2^18 below 2^32.
use sample_code.Common.{
  ℕ, zero, suc, ◌+◌, ◌-◌, ◌*◌, ◌/◌, ◌%◌, ◌^◌, ◌≤◌, ◌<◌, ◌≡◌, ◌∙◌, ap, arith, bit_and,
}
use sample_code.Words.Step.{bit_and_lowest}
use sample_code.Words.Bits.{bit_and_mask, half_shr, double_shl}
use sample_code.ConsistentHash.{magic, vnode_size, vnode_num, next}

pub record IsSlot (v : ℕ) : Type 0 where
  pub index : ℕ
  pub below : index < vnode_num
  pub place : v ≡ index * vnode_size

-- The virtual node `j` places behind number `f`, around the ring.
abbrev pub at : ℕ → ℕ → ℕ
at f j = (f * vnode_size + j * vnode_size) % 2 ^ 32

-- The virtual node `d` places before `v`, around the ring.
abbrev pub back : ℕ → ℕ → ℕ
back v d = (v + (2 ^ 32 - d * vnode_size)) % 2 ^ 32

pub at-inj : (f i j : ℕ) → f < vnode_num → i < vnode_num → j < vnode_num → at f i ≡ at f j → i ≡ j
at-inj f i j hf hi hj e = omega arith

pub at-last : (f : ℕ) → f < vnode_num → at f vnode_num ≡ f * vnode_size
at-last f h = omega arith

pub at-next : (f j : ℕ) → next (at f j) ≡ at f (suc j)
at-next f j = omega arith

pub at-le : (f j : ℕ) → at f j ≤ magic
at-le f j = omega arith

pub back-at : (f j t : ℕ) → t ≤ j → j < vnode_num → f < vnode_num → back (at f j) (j - t) ≡ at f t
back-at f j t h hj hf = omega arith

pub at-surj : (f v : ℕ) → f < vnode_num → IsSlot v → (j : ℕ) × (j < vnode_num) × (at f j ≡ v)
at-surj f v h s =
    let r = s.below in
    let p = s.place in
    ((s.index + (vnode_num - f)) % vnode_num, omega (arith, r), omega (arith, r, p))

bit_and-even : (x m : ℕ) → bit_and x (2 * m) ≡ 2 * bit_and (x / 2) m
bit_and-even x m =
    let p : 2 * m / 2 ≡ m = omega arith in
    let q : 2 * m % 2 ≡ 0 = omega arith in
    omega (arith, bit_and_lowest x (2 * m), ap (bit_and (x / 2)) p)

bit_and-shl : (s x m : ℕ) → bit_and x (m * 2 ^ s) ≡ bit_and (x / 2 ^ s) m * 2 ^ s
bit_and-shl zero x m =
    let p : x / 2 ^ 0 ≡ x = omega arith in
    let q : m * 2 ^ 0 ≡ m = omega arith in rw (p, q) (omega arith)
bit_and-shl (suc s) x m =
    rw (double_shl m s, half_shr x s, double_shl (bit_and (x / 2 / 2 ^ s) m) s)
      (bit_and-even x (m * 2 ^ s) ∙ ap (λ (t : ℕ). 2 * t) (bit_and-shl s (x / 2) m))

-- The mask keeps the number of a virtual node.
pub bit_and-IsSlot : (h : ℕ) → IsSlot (bit_and h magic)
bit_and-IsSlot h =
    let e : bit_and h magic ≡ h / 2 ^ 18 % 2 ^ 14 * 2 ^ 18 =
      bit_and-shl 18 h (2 ^ 14 - 1) ∙ ap (λ (t : ℕ). t * 2 ^ 18) (bit_and_mask 14 (h / 2 ^ 18)) in
    record { index = h / 2 ^ 18 % 2 ^ 14; below = omega arith; place = omega (arith, e) }
