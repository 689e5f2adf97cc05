-- ===== src/Tries/Agree.antt =====
-- The tries of array_struct_trie.cpp and list_struct_trie.cpp side by side.
use sample_code.Common.{ℕ, ◌≡◌, arith, All, List, [], ◌∷◌}
use sample_code.Common.Outcome.{done}
use sample_code.Tries.Words.{Text, IsAscii}
use sample_code.Tries.Array.{
  ArrayNode, new_node, insert_all, count_at, pass_at, insert_all-occurrences,
}
use sample_code.Tries.Siblings
use sample_code.Tries.Siblings.{ListNode, root, count_of, pass_of, insert_all-occurrences_list}

root_count : (c : ℕ) (q : Text) → count_of c q root ≡ 0
root_count c [] = ground arith
root_count c (b ∷ q) = ground arith

root_pass : (c : ℕ) (q : Text) → pass_of c q root ≡ 0
root_pass c [] = ground arith
root_pass c (b ∷ q) = ground arith

-- After the same words of bytes below 128 the two tries have the same count and the same pass for
-- every text of one byte or more.
pub insert_all-agree :
    (words : List Text)
    → All IsAscii words
    → (r : ArrayNode) × (insert_all words new_node ≡ done r)
      × ((c : ℕ) (q : Text)
          → (count_at (c ∷ q) r ≡ count_of c q (Siblings.insert_all words root))
            × (pass_at (c ∷ q) r ≡ pass_of c q (Siblings.insert_all words root)))
insert_all-agree words h =
    let (r, ends, counts, passes) = insert_all-occurrences words new_node h (λ e. cc e) in
    (
      r,
      ends,
      λ c q.
          let (counts', passes') = insert_all-occurrences_list words root c q in
          (
            omega (arith, counts c q, counts', root_count c q),
            omega (arith, passes (c ∷ q), passes', root_pass c q),
          ),
    )
