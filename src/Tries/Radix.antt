-- ===== src/Tries/Radix.antt =====
-- radix_tree.cpp. An index is a number from 0 up, and the -1 of `radix_find` is `none`; a call that
-- reaches the end of `radix_find` without a return is a fault.
pub mod Laws
pub mod Destroy
use mathlib.Core.Path.{subst, ap₂}
use sample_code.Common.{
  ℕ, zero, suc, ◌+◌, ◌<◌, ◌==◌, ltb, ◌≡◌, ◌≢◌, ◌∙◌, ◌⊎◌, inl, inr, refl, sym, ap, arith, Bool, true,
  false, Bool-cases, if◌then◌else◌, All, Option, none, some, List, [], ◌∷◌, ◌++◌,
}
use sample_code.Common.Outcome.{Outcome, done, fault, stuck, ◌>>=◌}
use sample_code.Tries.Words.{Text, IsAscii}

-- `struct radix_node_t`, in the order p, index, is_final, and the null pointer.
pub data RadixNode : Type 0 where
  null : RadixNode
  node : (ℕ → RadixNode) → ℕ → Bool → RadixNode

-- What `radix_init` makes, and `memset(new_radix, 0, sizeof(radix_node_t))`.
abbrev pub new_radix : RadixNode
new_radix = node (λ i. null) 0 false

-- `if(radix_iter->p[*ptr] == NULL) { ... }`
abbrev pub or_new : RadixNode → RadixNode
or_new null = new_radix
or_new (node p index is_final) = node p index is_final

abbrev pub set_p : (ℕ → RadixNode) → ℕ → RadixNode → ℕ → RadixNode
set_p p c t i = if i == c then t else p i

unfoldable pub radix_insert : RadixNode → Text → ℕ → Outcome RadixNode
radix_insert null str index = fault
radix_insert (node p i is_final) [] index = done (node p index true)
radix_insert (node p i is_final) (c ∷ str) index =
    let rest = radix_insert (or_new (p c)) str index in
    if ltb c 128 then (rest >>= λ t. done (node (set_p p c t) i is_final)) else fault

unfoldable pub radix_find : RadixNode → Text → Outcome (Option ℕ)
radix_find null str = fault
radix_find (node p index is_final) [] = if is_final then done (some index) else fault
radix_find (node p index is_final) (c ∷ str) =
    let rest = radix_find (p c) str in
    if ltb c 128 then (elim (p c) [ null ↦ done none | node p' i f ↦ rest ]) else fault
