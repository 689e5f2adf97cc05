-- ===== src/Tries/Radix/Destroy.antt =====
-- `radix_destroy`, by the number of nodes that it deletes.
use sample_code.Common.{ℕ, zero, suc, ◌+◌, ◌≡◌, refl, ap, arith, true, false, if◌then◌else◌}
use sample_code.Tries.Radix.{RadixNode, null, node}

-- `for(int i=0; i<RADIX_NUM; ++i)`
unfoldable pub sum : ℕ → (ℕ → ℕ) → ℕ
sum zero f = 0
sum (suc n) f = sum n f + f n

-- The turn of the loop for a child, `below` being what a call for it deletes.
abbrev pub delete_child : RadixNode → ℕ → ℕ
delete_child null below = 0
delete_child (node p index is_final) below = if is_final then 1 else below

unfoldable pub radix_destroy : RadixNode → ℕ
radix_destroy null = 0
radix_destroy (node p index is_final) =
    sum 256 (λ i. let below = radix_destroy (p i) in delete_child (p i) below) + 1

-- The nodes of a trie.
unfoldable pub nodes : RadixNode → ℕ
nodes null = 0
nodes (node p index is_final) = sum 256 (λ i. nodes (p i)) + 1

-- Below a node that ends a text no text goes on.
abbrev pub IsEnd : RadixNode → Type 0
IsEnd null = Unit
IsEnd (node p index true) = (i : ℕ) → p i ≡ null
IsEnd (node p index false) = Unit

abbrev pub IsPrefixFree : RadixNode → Type 0
IsPrefixFree null = Unit
IsPrefixFree (node p index is_final) = (i : ℕ) → IsEnd (p i) × IsPrefixFree (p i)

sum_ext : (n : ℕ) (f g : ℕ → ℕ) → ((i : ℕ) → f i ≡ g i) → sum n f ≡ sum n g
unfolding sum
sum_ext zero f g h = refl
sum_ext (suc n) f g h = omega (arith, sum_ext n f g h, h n)

sum_zero : (n : ℕ) (f : ℕ → ℕ) → ((i : ℕ) → f i ≡ 0) → sum n f ≡ 0
unfolding sum
sum_zero zero f h = refl
sum_zero (suc n) f h = omega (arith, sum_zero n f h, h n)

nodes_null : (t : RadixNode) → t ≡ null → nodes t ≡ 0
unfolding nodes
nodes_null t e = ap nodes e

child_nodes :
    (t : RadixNode)
    → IsEnd t
    → radix_destroy t ≡ nodes t
    → delete_child t (radix_destroy t) ≡ nodes t
unfolding nodes
child_nodes null h e = refl
child_nodes (node p index true) h e =
    omega (arith, sum_zero 256 (λ i. nodes (p i)) (λ i. nodes_null (p i) (h i)))
child_nodes (node p index false) h e = e

-- When no text in the trie goes on behind another but the empty one, radix_destroy deletes as many
-- nodes as there are.
pub radix_destroy-nodes : (t : RadixNode) → IsPrefixFree t → radix_destroy t ≡ nodes t
unfolding radix_destroy nodes
radix_destroy-nodes null h = refl
radix_destroy-nodes (node p index is_final) h =
    ap (λ (k : ℕ). k + 1)
      (sum_ext 256 (λ i. delete_child (p i) (radix_destroy (p i))) (λ i. nodes (p i))
        (λ i. child_nodes (p i) (h i).0 (radix_destroy-nodes (p i) (h i).1)))
