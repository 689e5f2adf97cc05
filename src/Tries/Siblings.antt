-- ===== src/Tries/Siblings.antt =====
-- list_struct_trie.cpp: the children of a node are a list of siblings.
use sample_code.Common.{ℕ, ◌+◌, ◌==◌, ◌≡◌, arith, if◌then◌else◌, List, [], ◌∷◌}
use sample_code.Tries.Words.{Text, same, extends, one, occurrences, extensions}

-- `struct trie_node_t`, in the order arc, count, pass, child, sibling, and the null pointer.
pub data ListNode : Type 0 where
  null : ListNode
  node : ℕ → ℕ → ℕ → ListNode → ListNode → ListNode

-- The root, whose `arc` is the 0 that no text has.
abbrev pub root : ListNode
root = node 0 0 0 null null

-- The loop of `insert` from `current` on, at a byte and the bytes behind it. A list of siblings that
-- ends without the byte gets a new node, and so does an empty one.
unfoldable pub insert_at : ℕ → Text → ListNode → ListNode
insert_at c [] null = node c 1 0 null null
insert_at c (b ∷ word) null = node c 0 1 (insert_at b word null) null
insert_at c [] (node arc count pass child sibling) =
    let rest = insert_at c [] sibling in
    if arc == c then node arc (count + 1) pass child sibling else node arc count pass child rest
insert_at c (b ∷ word) (node arc count pass child sibling) =
    let below = insert_at b word child in
    let rest = insert_at c (b ∷ word) sibling in
    if arc == c then node arc count (pass + 1) below sibling else node arc count pass child rest

unfoldable pub insert : Text → ListNode → ListNode
insert [] t = t
insert (c ∷ word) t = insert_at c word t

-- The loop of `main` over the words.
unfoldable pub insert_all : List Text → ListNode → ListNode
insert_all [] t = t
insert_all (word ∷ words) t = insert_all words (insert word t)

-- The node of a text has `count` and `pass`, 0 where there is none.
abbrev pub count_of : ℕ → Text → ListNode → ℕ
count_of c q null = 0
count_of c [] (node arc count pass child sibling) =
    let rest = count_of c [] sibling in if arc == c then count else rest
count_of c (b ∷ q) (node arc count pass child sibling) =
    let below = count_of b q child in
    let rest = count_of c (b ∷ q) sibling in if arc == c then below else rest

abbrev pub pass_of : ℕ → Text → ListNode → ℕ
pass_of c q null = 0
pass_of c [] (node arc count pass child sibling) =
    let rest = pass_of c [] sibling in if arc == c then pass else rest
pass_of c (b ∷ q) (node arc count pass child sibling) =
    let below = pass_of b q child in
    let rest = pass_of c (b ∷ q) sibling in if arc == c then below else rest

insert_at-count :
    (c : ℕ) (word : Text) (t : ListNode) (a : ℕ) (q : Text)
    → count_of a q (insert_at c word t) ≡ count_of a q t + one (same (c ∷ word) (a ∷ q))
unfolding insert_at same
insert_at-count c [] null a [] = ground arith
insert_at-count c [] null a (b ∷ q) = ground arith
insert_at-count c (d ∷ word) null a [] = ground arith
insert_at-count c (d ∷ word) null a (b ∷ q) = ground (arith, insert_at-count d word null b q)
insert_at-count c [] (node arc count pass child sibling) a [] =
    ground (arith, insert_at-count c [] sibling a [])
insert_at-count c [] (node arc count pass child sibling) a (b ∷ q) =
    ground (arith, insert_at-count c [] sibling a (b ∷ q))
insert_at-count c (d ∷ word) (node arc count pass child sibling) a [] =
    ground (arith, insert_at-count c (d ∷ word) sibling a [])
insert_at-count c (d ∷ word) (node arc count pass child sibling) a (b ∷ q) =
    ground (arith, insert_at-count d word child b q, insert_at-count c (d ∷ word) sibling a (b ∷ q))

insert_at-pass :
    (c : ℕ) (word : Text) (t : ListNode) (a : ℕ) (q : Text)
    → pass_of a q (insert_at c word t) ≡ pass_of a q t + one (extends (a ∷ q) (c ∷ word))
unfolding insert_at extends
insert_at-pass c [] null a [] = ground arith
insert_at-pass c [] null a (b ∷ q) = ground arith
insert_at-pass c (d ∷ word) null a [] = ground arith
insert_at-pass c (d ∷ word) null a (b ∷ q) = ground (arith, insert_at-pass d word null b q)
insert_at-pass c [] (node arc count pass child sibling) a [] =
    ground (arith, insert_at-pass c [] sibling a [])
insert_at-pass c [] (node arc count pass child sibling) a (b ∷ q) =
    ground (arith, insert_at-pass c [] sibling a (b ∷ q))
insert_at-pass c (d ∷ word) (node arc count pass child sibling) a [] =
    ground (arith, insert_at-pass c (d ∷ word) sibling a [])
insert_at-pass c (d ∷ word) (node arc count pass child sibling) a (b ∷ q) =
    ground (arith, insert_at-pass d word child b q, insert_at-pass c (d ∷ word) sibling a (b ∷ q))

-- `insert` of a list of words: the count of a text of one byte or more grows by the number of times
-- that it is among the words, and its pass by the number of words that go on behind it.
pub insert_all-occurrences_list :
    (words : List Text) (t : ListNode) (c : ℕ) (q : Text)
    → (count_of c q (insert_all words t) ≡ count_of c q t + occurrences (c ∷ q) words)
      × (pass_of c q (insert_all words t) ≡ pass_of c q t + extensions (c ∷ q) words)
unfolding insert_all insert occurrences extensions same extends
insert_all-occurrences_list [] t c q = (omega arith, omega arith)
insert_all-occurrences_list ([] ∷ words) t c q =
    let (counts, passes) = insert_all-occurrences_list words t c q in
    (omega (arith, counts), omega (arith, passes))
insert_all-occurrences_list ((a ∷ word) ∷ words) t c q =
    let (counts, passes) = insert_all-occurrences_list words (insert_at a word t) c q in
    (
      omega (arith, counts, insert_at-count a word t c q),
      omega (arith, passes, insert_at-pass a word t c q),
    )
