-- ===== src/Tries/Radix/Laws.antt =====
-- `radix_insert` and `radix_find`.
use mathlib.Core.Path.{subst, ap₂}
use sample_code.Common.{
  ℕ, ◌<◌, ◌==◌, ltb, ◌≡◌, ◌≢◌, ◌∙◌, ◌⊎◌, inl, inr, refl, sym, ap, arith, Bool, true, false,
  Bool-cases, if◌then◌else◌, none, some, [], ◌∷◌, ◌++◌,
}
use sample_code.Common.Outcome.{done, fault}
use sample_code.Tries.Words.{Text, IsAscii}
use sample_code.Tries.Radix.{
  RadixNode, null, node, new_radix, or_new, set_p, radix_insert, radix_find,
}

-- What a call for another text makes of an insertion.
abbrev pub Kept : RadixNode → RadixNode → Text → Type 0
Kept t r q =
    (radix_find r q ≡ radix_find t q) ⊎ (radix_find t q ≡ done none) × (radix_find r q ≡ fault)

record Inserted (str : Text) (index : ℕ) (t r : RadixNode) : Type 0 where
  there : r ≢ null
  found : radix_find r str ≡ done (some index)
  kept : (q : Text) → q ≢ str → Kept t r q

RadixNode-cases : (t : RadixNode) → (t ≡ null) ⊎ (t ≢ null) × (or_new t ≡ t)
RadixNode-cases null = inl refl
RadixNode-cases (node p index is_final) = inr (λ e. cc e, refl)

or_new-there : (t : RadixNode) → or_new t ≢ null
or_new-there null e = cc e
or_new-there (node p index is_final) e = cc e

find_new : (q : Text) → (radix_find new_radix q ≡ done none) ⊎ (radix_find new_radix q ≡ fault)
unfolding radix_find
find_new [] = inr refl
find_new (c ∷ q) = ground arith

module _ (p : ℕ → RadixNode) (index : ℕ) (is_final : Bool) (c : ℕ) (low : c < 128) (q : Text) where
  find_null : p c ≡ null → radix_find (node p index is_final) (c ∷ q) ≡ done none
  unfolding radix_find
  find_null e = ground (arith, e)

  find_next : p c ≢ null → radix_find (node p index is_final) (c ∷ q) ≡ radix_find (p c) q
  unfolding radix_find
  find_next n = elim (RadixNode-split (p c)) [
    | inl e ↦ absurd (n e)
    | inr (p', i, f, e) ↦ ground (arith, e)
  ]
    where
      RadixNode-split :
          (t : RadixNode)
          → (t ≡ null) ⊎ (p' : ℕ → RadixNode) × (i : ℕ) × (f : Bool) × (t ≡ node p' i f)
      RadixNode-split null = inl refl
      RadixNode-split (node p' i f) = inr (p', i, f, refl)

module _ (p : ℕ → RadixNode) (i : ℕ) (is_final : Bool) (c : ℕ) (low : c < 128) (t : RadixNode) where
  find_set :
      (q : Text) → t ≢ null → radix_find (node (set_p p c t) i is_final) (c ∷ q) ≡ radix_find t q
  find_set q n =
      let here : set_p p c t c ≡ t = ground arith in
      find_next (set_p p c t) i is_final c low q (λ e. n (sym here ∙ e))
      ∙ ap (λ (u : RadixNode). radix_find u q) here

  find_other :
      (b : ℕ) (q : Text)
      → b ≢ c
      → radix_find (node (set_p p c t) i is_final) (b ∷ q) ≡ radix_find (node p i is_final) (b ∷ q)
  unfolding radix_find
  find_other b q n =
      let same : set_p p c t b ≡ p b = ground arith in
      ap
        (λ (u : RadixNode).
          let rest = radix_find u q in
          if ltb b 128 then (elim u [ null ↦ done none | node p' i' f ↦ rest ]) else fault)
        same

  step-same :
      (str q : Text) (index : ℕ)
      → Inserted str index (or_new (p c)) t
      → q ≢ str
      → Kept (node p i is_final) (node (set_p p c t) i is_final) (c ∷ q)
  step-same str q index h n =
      let set = find_set q h.there in
      elim (RadixNode-cases (p c)) [
        | inr (there, same) ↦
            let next = find_next p i is_final c low q there in
            elim (subst (λ (u : RadixNode). Kept u t q) same (h.kept q n)) [
              | inl e ↦ inl (set ∙ e ∙ sym next)
              | inr (e, e') ↦ inr (next ∙ e, set ∙ e')
            ]
        | inl e ↦
            let missing = find_null p i is_final c low q e in
            elim (subst (λ (u : RadixNode). Kept (or_new u) t q) e (h.kept q n)) [
              | inl e' ↦ elim (find_new q) [
                | inl e'' ↦ inl (set ∙ e' ∙ e'' ∙ sym missing)
                | inr e'' ↦ inr (missing, set ∙ e' ∙ e'')
              ]
              | inr (_, e') ↦ inr (missing, set ∙ e')
            ]
      ]

  step_end : radix_find (node (set_p p c t) i is_final) [] ≡ radix_find (node p i is_final) []
  unfolding radix_find
  step_end = refl

  step-Kept :
      (str : Text) (index : ℕ)
      → Inserted str index (or_new (p c)) t
      → (q : Text) → q ≢ c ∷ str
      → Kept (node p i is_final) (node (set_p p c t) i is_final) q
  step-Kept str index h [] n = inl step_end
  step-Kept str index h (b ∷ q) n = elim (Bool-cases (b == c)) [
    | inl e ↦
        let e' : b ≡ c = ground arith in
        subst (λ (a : ℕ). Kept (node p i is_final) (node (set_p p c t) i is_final) (a ∷ q)) (sym e')
          (step-same str q index h (λ x. n (ap₂ (λ (a : ℕ) (y : Text). a ∷ y) e' x)))
    | inr e ↦ inl (find_other b q (ground arith))
  ]

end-Kept :
    (p : ℕ → RadixNode) (i index : ℕ) (is_final : Bool) (q : Text)
    → q ≢ []
    → Kept (node p i is_final) (node p index true) q
unfolding radix_find
end-Kept p i index is_final [] n = absurd (n refl)
end-Kept p i index is_final (c ∷ q) n = inl refl

insert-Inserted :
    (t : RadixNode) (str : Text) (index : ℕ)
    → t ≢ null
    → IsAscii str
    → (r : RadixNode) × (radix_insert t str index ≡ done r) × Inserted str index t r
unfolding radix_insert radix_find
insert-Inserted null str index n h = absurd (n refl)
insert-Inserted (node p i is_final) [] index n h = (
  node p index true,
  refl,
  record { there = λ e. cc e; found = refl; kept = end-Kept p i index is_final },
)
insert-Inserted (node p i is_final) (c ∷ str) index n (b, h) =
    let (t, ends, inserted) = insert-Inserted (or_new (p c)) str index (or_new-there (p c)) h in
    let low : ltb c 128 ≡ true = ground arith in
    (
      node (set_p p c t) i is_final,
      rw (low, ends) refl,
      record {
        there = λ e. cc e;
        found = find_set p i is_final c b t str inserted.there ∙ inserted.found;
        kept = step-Kept p i is_final c b t str index inserted;
      },
    )

-- `radix_insert` of a text of bytes below 128 into a trie ends, and radix_find of that text then gives
-- its index. For another text radix_find does what it did before, unless it gave -1, where it may reach
-- its end without a return.
pub radix_find-radix_insert :
    (t : RadixNode) (str : Text) (index : ℕ) (q : Text)
    → t ≢ null
    → IsAscii str
    → q ≢ str
    → (r : RadixNode) × (radix_insert t str index ≡ done r)
      × (r ≢ null)
      × (radix_find r str ≡ done (some index))
      × Kept t r q
radix_find-radix_insert t str index q n h other =
    let (r, ends, i) = insert-Inserted t str index n h in
    (r, ends, i.there, i.found, i.kept q other)

new_missing :
    (p : ℕ → RadixNode) (i : ℕ) (is_final : Bool) (c : ℕ) (str : Text)
    → c < 128
    → ((k : ℕ) → radix_find (node p i is_final) (c ∷ str) ≢ done (some k))
    → (k : ℕ) → radix_find (or_new (p c)) str ≢ done (some k)
new_missing p i is_final c str low h k e = elim (RadixNode-cases (p c)) [
  | inr (there, same) ↦ h k (
      find_next p i is_final c low str there
      ∙ ap (λ (u : RadixNode). radix_find u str) (sym same)
      ∙ e)
  | inl none_there ↦
      let e' : radix_find new_radix str ≡ done (some k) =
        subst (λ (u : RadixNode). radix_find (or_new u) str ≡ done (some k)) none_there e in
      elim (find_new str) [ inl q ↦ cc (q, e') | inr q ↦ cc (q, e') ]
]

not_final :
    (b : Bool) (i : ℕ)
    → ((k : ℕ) → radix_find (node (λ c. null) i b) [] ≢ done (some k))
    → b ≡ false
unfolding radix_find
not_final true i h = absurd (h i refl)
not_final false i h = refl

-- After radix_insert of a text of bytes below 128, radix_find of the text up to a byte of it reaches its
-- end without a return, if it gave no index before.
pub radix_find_prefix :
    (t : RadixNode) (str : Text) (c : ℕ) (rest : Text) (index : ℕ)
    → t ≢ null
    → IsAscii (str ++ c ∷ rest)
    → ((k : ℕ) → radix_find t str ≢ done (some k))
    → (r : RadixNode) × (radix_insert t (str ++ c ∷ rest) index ≡ done r)
      × (radix_find r str ≡ fault)
unfolding radix_insert radix_find
radix_find_prefix null str c rest index n h missing = absurd (n refl)
radix_find_prefix (node p i is_final) [] c rest index n (b, h) missing =
    let (t, ends, inserted) = insert-Inserted (or_new (p c)) rest index (or_new-there (p c)) h in
    let low : ltb c 128 ≡ true = ground arith in
    (node (set_p p c t) i is_final, rw (low, ends) refl, rw (not_final is_final i missing) refl)
radix_find_prefix (node p i is_final) (a ∷ str) c rest index n (b, h) missing =
    let (t, ends, e) =
      radix_find_prefix (or_new (p a)) str c rest index (or_new-there (p a)) h
        (new_missing p i is_final a str b missing) in
    let low : ltb a 128 ≡ true = ground arith in
    let (t', ends', i') =
      insert-Inserted (or_new (p a)) (str ++ c ∷ rest) index (or_new-there (p a)) h in
    let same : t' ≡ t = cc (ends, ends') in
    (
      node (set_p p a t) i is_final,
      rw (low, ends) refl,
      find_set p i is_final a b t str (λ x. i'.there (same ∙ x)) ∙ e,
    )
