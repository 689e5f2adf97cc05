-- ===== src/Tries/Array.antt =====
-- array_struct_trie.cpp.
use sample_code.Common.{
  ℕ, ◌+◌, ◌==◌, ltb, ◌≡◌, ◌≢◌, inl, inr, refl, arith, true, Bool-cases, if◌then◌else◌, All, List,
  [], ◌∷◌,
}
use sample_code.Common.Outcome.{Outcome, done, fault, ◌>>=◌}
use sample_code.Tries.Words.{Text, IsAscii, same, extends, one, occurrences, extensions}

-- `struct trie_node_t`, and the null pointer.
pub data ArrayNode : Type 0 where
  null : ArrayNode
  node : ℕ → ℕ → (ℕ → ArrayNode) → ArrayNode

-- `memset(new_node, 0, sizeof(struct trie_node_t))`
abbrev pub new_node : ArrayNode
new_node = node 0 0 (λ i. null)

-- `if(current->next[word[i]] == NULL) { ... }`
abbrev pub or_new : ArrayNode → ArrayNode
or_new null = new_node
or_new (node count pass next) = node count pass next

abbrev pub set_next : (ℕ → ArrayNode) → ℕ → ArrayNode → ℕ → ArrayNode
set_next next c t i = if i == c then t else next i

-- The loop of `insert` from `current` on, and the count at its end.
unfoldable pub insert_from : Text → ArrayNode → Outcome ArrayNode
insert_from word null = fault
insert_from [] (node count pass next) = done (node (count + 1) pass next)
insert_from (c ∷ word) (node count pass next) =
    let rest = insert_from word (or_new (next c)) in
    if ltb c 128 then (rest >>= λ t. done (node count (pass + 1) (set_next next c t))) else fault

unfoldable pub insert : Text → ArrayNode → Outcome ArrayNode
insert [] root = done root
insert (c ∷ word) root = insert_from (c ∷ word) root

-- The loop of `main` over the words.
unfoldable pub insert_all : List Text → ArrayNode → Outcome ArrayNode
insert_all [] root = done root
insert_all (word ∷ words) root = insert word root >>= insert_all words

-- The node of a text has `count` and `pass`, 0 where there is none.
abbrev pub count_at : Text → ArrayNode → ℕ
count_at word null = 0
count_at [] (node count pass next) = count
count_at (c ∷ word) (node count pass next) = count_at word (next c)

abbrev pub pass_at : Text → ArrayNode → ℕ
pass_at word null = 0
pass_at [] (node count pass next) = pass
pass_at (c ∷ word) (node count pass next) = pass_at word (next c)

-- What an insertion of `word` makes of `t`.
record Inserted (word : Text) (t r : ArrayNode) : Type 0 where
  there : r ≢ null
  counts : (q : Text) → count_at q r ≡ count_at q t + one (same word q)
  passes : (q : Text) → pass_at q r ≡ pass_at q t + one (extends q word)

count_new : (q : Text) (t : ArrayNode) → count_at q (or_new t) ≡ count_at q t
count_new [] null = refl
count_new (c ∷ q) null = refl
count_new q (node count pass next) = refl

pass_new : (q : Text) (t : ArrayNode) → pass_at q (or_new t) ≡ pass_at q t
pass_new [] null = refl
pass_new (c ∷ q) null = refl
pass_new q (node count pass next) = refl

or_new-there : (t : ArrayNode) → or_new t ≢ null
or_new-there null e = cc e
or_new-there (node count pass next) e = cc e

module _ (count pass : ℕ) (next : ℕ → ArrayNode) where
  end_counts :
      (q : Text)
      → count_at q (node (count + 1) pass next)
        ≡ count_at q (node count pass next) + one (same [] q)
  unfolding same
  end_counts [] = omega arith
  end_counts (c ∷ q) = omega arith

  end_passes :
      (q : Text)
      → pass_at q (node (count + 1) pass next)
        ≡ pass_at q (node count pass next) + one (extends q [])
  unfolding extends
  end_passes [] = omega arith
  end_passes (c ∷ q) = omega arith

  module _ (c : ℕ) (word : Text) (t : ArrayNode) (i : Inserted word (or_new (next c)) t) where
    step_counts :
        (q : Text)
        → count_at q (node count (pass + 1) (set_next next c t))
          ≡ count_at q (node count pass next) + one (same (c ∷ word) q)
    unfolding same
    step_counts [] = omega arith
    step_counts (b ∷ q) = elim (Bool-cases (b == c)) [
      | inl e ↦
          let e' : b ≡ c = ground arith in rw e' (ground (arith, i.counts q, count_new q (next c)))
      | inr e ↦ ground arith
    ]

    step_passes :
        (q : Text)
        → pass_at q (node count (pass + 1) (set_next next c t))
          ≡ pass_at q (node count pass next) + one (extends q (c ∷ word))
    unfolding extends
    step_passes [] = omega arith
    step_passes (b ∷ q) = elim (Bool-cases (b == c)) [
      | inl e ↦
          let e' : b ≡ c = ground arith in rw e' (ground (arith, i.passes q, pass_new q (next c)))
      | inr e ↦ ground arith
    ]

insert_from-Inserted :
    (word : Text) (t : ArrayNode)
    → IsAscii word
    → t ≢ null
    → (r : ArrayNode) × (insert_from word t ≡ done r) × Inserted word t r
unfolding insert_from
insert_from-Inserted word null h n = absurd (n refl)
insert_from-Inserted [] (node count pass next) h n = (
  node (count + 1) pass next,
  refl,
  record {
    there = λ e. cc e;
    counts = end_counts count pass next;
    passes = end_passes count pass next;
  },
)
insert_from-Inserted (c ∷ word) (node count pass next) (b, h) n =
    let (t, ends, i) = insert_from-Inserted word (or_new (next c)) h (or_new-there (next c)) in
    let low : ltb c 128 ≡ true = ground arith in
    (
      node count (pass + 1) (set_next next c t),
      rw (low, ends) refl,
      record {
        there = λ e. cc e;
        counts = step_counts count pass next c word t i;
        passes = step_passes count pass next c word t i;
      },
    )

no_count : (c : ℕ) (q : Text) → one (same [] (c ∷ q)) ≡ 0
unfolding same
no_count c q = refl

no_pass : (q : Text) → one (extends q []) ≡ 0
unfolding extends
no_pass [] = refl
no_pass (c ∷ q) = refl

-- `insert` of a list of words of bytes below 128 ends. The count of a text of one byte or more has
-- grown by the number of times that it is among the words, and the pass of every text by the number
-- of words that go on behind it.
pub insert_all-occurrences :
    (words : List Text) (t : ArrayNode)
    → All IsAscii words
    → t ≢ null
    → (r : ArrayNode) × (insert_all words t ≡ done r)
      × ((c : ℕ) (q : Text) → count_at (c ∷ q) r ≡ count_at (c ∷ q) t + occurrences (c ∷ q) words)
      × ((q : Text) → pass_at q r ≡ pass_at q t + extensions q words)
unfolding insert_all insert occurrences extensions
insert_all-occurrences [] t h n = (t, refl, λ c q. omega arith, λ q. omega arith)
insert_all-occurrences ([] ∷ words) t (b, h) n =
    let (r, ends, counts, passes) = insert_all-occurrences words t h n in
    (
      r,
      ends,
      λ c q. omega (arith, counts c q, no_count c q),
      λ q. omega (arith, passes q, no_pass q),
    )
insert_all-occurrences ((a ∷ word) ∷ words) t (b, h) n =
    let (u, ends, i) = insert_from-Inserted (a ∷ word) t b n in
    let (r, ends', counts, passes) = insert_all-occurrences words u h i.there in
    (
      r,
      rw (ends, ◌>>=◌) ends',
      λ c q. omega (arith, counts c q, i.counts (c ∷ q)),
      λ q. omega (arith, passes q, i.passes q),
    )
