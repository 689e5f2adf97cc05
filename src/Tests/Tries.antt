-- ===== src/Tests/Tries.antt =====
-- The tries with short words: 97 is `a`, 98 is `b`, 99 is `c`.
use sample_code.Common.{ℕ, ◌+◌, ◌≡◌, ◌≢◌, ap, get_or, arith, All, some, List, [], ◌∷◌}
use sample_code.Common.Outcome.{done, fault}
use sample_code.Tries.Words.{Text, IsAscii, occurrences, extensions}
use sample_code.Tries.Array.{
  ArrayNode, new_node, insert_all, count_at, pass_at, insert_all-occurrences,
}
use sample_code.Tries.Siblings
use sample_code.Tries.Siblings.{root, count_of, pass_of}
use sample_code.Tries.Agree.{insert_all-agree}
use sample_code.Tries.Radix.{RadixNode, null, new_radix, radix_insert, radix_find}
use sample_code.Tries.Radix.Laws.{Kept, radix_find-radix_insert, radix_find_prefix}

abbrev short : List Text
short = (97 ∷ 98 ∷ []) ∷ (97 ∷ []) ∷ (97 ∷ 98 ∷ []) ∷ []

short-IsAscii : All IsAscii short
short-IsAscii =
    ((omega arith, (omega arith, tt)), ((omega arith, tt), ((omega arith, (omega arith, tt)), tt)))

insert_all-occurrences_example :
    (r : ArrayNode) × (insert_all short new_node ≡ done r)
    × ((c : ℕ) (q : Text)
        → count_at (c ∷ q) r ≡ count_at (c ∷ q) new_node + occurrences (c ∷ q) short)
    × ((q : Text) → pass_at q r ≡ pass_at q new_node + extensions q short)
insert_all-occurrences_example = insert_all-occurrences short new_node short-IsAscii (λ e. cc e)

insert_all-agree_example :
    (r : ArrayNode) × (insert_all short new_node ≡ done r)
    × ((c : ℕ) (q : Text)
        → (count_at (c ∷ q) r ≡ count_of c q (Siblings.insert_all short root))
          × (pass_at (c ∷ q) r ≡ pass_of c q (Siblings.insert_all short root)))
insert_all-agree_example = insert_all-agree short short-IsAscii

radix_find-radix_insert_example :
    (r : RadixNode) × (radix_insert new_radix (97 ∷ 98 ∷ []) 5 ≡ done r)
    × (r ≢ null)
    × (radix_find r (97 ∷ 98 ∷ []) ≡ done (some 5))
    × Kept new_radix r (97 ∷ 99 ∷ [])
radix_find-radix_insert_example =
    radix_find-radix_insert new_radix (97 ∷ 98 ∷ []) 5 (97 ∷ 99 ∷ []) (λ e. cc e)
      (omega arith, (omega arith, tt)) (λ e. omega (arith, ap (λ (q : Text). get_or q 1 0) e))

new_missing : (k : ℕ) → radix_find new_radix (97 ∷ []) ≢ done (some k)
unfolding radix_find
new_missing k e = cc e

radix_find_prefix_example :
    (r : RadixNode) × (radix_insert new_radix (97 ∷ 98 ∷ []) 5 ≡ done r)
    × (radix_find r (97 ∷ []) ≡ fault)
radix_find_prefix_example =
    radix_find_prefix new_radix (97 ∷ []) 98 [] 5 (λ e. cc e) (omega arith, (omega arith, tt))
      new_missing
