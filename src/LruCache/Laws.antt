-- ===== src/LruCache/Laws.antt =====
-- `find_in_cache` and `add_to_cache` on the order of the entries.
use Prim.Native.String.{String}
use text.Mathlib.TextEquality.{eq_iff}
use mathlib.Core.Path.{subst}
use sample_code.Common.{
  ℕ, ◌+◌, ◌≤◌, ◌<◌, ◌≡◌, ◌∙◌, ◌⊎◌, inl, inr, refl, sym, ap, arith, leb, length, true, false,
  Option-cases, List-cases, Option, none, some, List, [], ◌∷◌, ◌++◌,
}
use sample_code.LruCache.{
  CacheEntry, lookup, without, head?, IsUnique, UtHash, max_cache_size, find_in_cache, add_to_cache,
}
use sample_code.LruCache.Order.{
  lookup-key, lookup-without, without-IsUnique, append-IsUnique, length-append, length-without,
  without-head, lookup_tail, lookup_last,
}

room : (n : ℕ) → n < max_cache_size → (n + 1 < max_cache_size) ⊎ (n + 1 ≡ max_cache_size)
room n h = ground arith

module _ (uthash : UtHash) where
  open uthash use {
    Table, entries, hash_find, hash_delete, hash_add, hash_count, first, find_law, delete_law,
    add_law, count_law, first_law,
  }

  -- The table between two calls.
  pub record IsCache (t : Table) : Type 0 where
    pub unique : IsUnique (entries t)
    pub bounded : length (entries t) < max_cache_size

  find_missing :
      (key : String) (t : Table) → hash_find key t ≡ none → find_in_cache uthash key t ≡ (none, t)
  unfolding find_in_cache
  find_missing key t e = ground (arith, e)

  find_there :
      (key : String) (t : Table) (entry : CacheEntry)
      → hash_find key t ≡ some entry
      → find_in_cache uthash key t ≡ (some entry.value, hash_add entry (hash_delete entry t))
  unfolding find_in_cache
  find_there key t entry e = ground (arith, e)

  -- How a call of `find_in_cache` ends.
  abbrev pub Answer : String → Table → Option String × Table → Type 0
  Answer key t r =
      IsCache r.1
      × ((lookup key (entries t) ≡ none) × (r ≡ (none, t))
          ⊎ (e : CacheEntry) × (lookup key (entries t) ≡ some e)
            × (r.0 ≡ some e.value)
            × (entries r.1 ≡ without key (entries t) ++ e ∷ []))

  -- `find_in_cache` of a table without a key twice and with fewer than 100000 entries keeps it so. It
  -- gives NULL for a key that is not there, and leaves the table; otherwise it gives the value of the
  -- key's entry, which becomes the last, behind the others in their order.
  pub find_in_cache-last :
      (key : String) (t : Table) → IsCache t → Answer key t (find_in_cache uthash key t)
  find_in_cache-last key t h =
      let found = find_law key t h.unique in
      elim (Option-cases (lookup key (entries t))) [
        | inl e ↦ subst (Answer key t) (sym (find_missing key t (found ∙ e))) (h, inl (e, refl))
        | inr (entry, e) ↦
            let same = lookup-key key (entries t) entry e in
            let there : lookup entry.key (entries t) ≡ some entry =
              ap (λ (k : String). lookup k (entries t)) same ∙ e in
            let left : entries (hash_delete entry t) ≡ without key (entries t) =
              delete_law entry t h.unique there ∙ ap (λ (k : String). without k (entries t)) same in
            let gone : lookup entry.key (without key (entries t)) ≡ none =
              ap (λ (k : String). lookup k (without key (entries t))) same
              ∙ lookup-without key (entries t) in
            let whole : entries (hash_add entry (hash_delete entry t))
                ≡ without key (entries t) ++ entry ∷ [] =
              add_law entry (hash_delete entry t) (ap (lookup entry.key) left ∙ gone)
              ∙ ap (λ (es : List CacheEntry). es ++ entry ∷ []) left in
            let kept : IsCache (hash_add entry (hash_delete entry t)) = record {
              unique = subst IsUnique (sym whole) (
                  append-IsUnique (without key (entries t)) entry
                    (without-IsUnique key (entries t) h.unique) gone);
              bounded = omega (
                arith,
                ap length whole,
                length-append (without key (entries t)) entry,
                length-without key (entries t) entry h.unique e,
                h.bounded,
              );
            } in
            subst (Answer key t) (sym (find_there key t entry (found ∙ e)))
              (kept, inr (entry, e, refl, whole))
      ]

  -- The entry of an addition.
  abbrev pub entry_of : String → String → CacheEntry
  entry_of key value = record { key = key; value = value }

  module _ (key value : String) (t : Table) (h : IsCache t)
      (new : lookup key (entries t) ≡ none) where
    longer : Table
    longer = hash_add (entry_of key value) t

    longer_entries : entries longer ≡ entries t ++ entry_of key value ∷ []
    unfolding longer
    longer_entries = add_law (entry_of key value) t new

    longer_count : hash_count longer ≡ length (entries t) + 1
    longer_count =
        count_law longer ∙ ap length longer_entries ∙ length-append (entries t) (entry_of key value)

    longer-IsUnique : IsUnique (entries longer)
    longer-IsUnique =
        subst IsUnique (sym longer_entries)
          (append-IsUnique (entries t) (entry_of key value) h.unique new)

    -- The oldest entry goes.
    pruned :
        (x : CacheEntry) (es : List CacheEntry)
        → entries t ≡ x ∷ es
        → (first longer ≡ some x) × (entries (hash_delete x longer) ≡ es ++ entry_of key value ∷ [])
    pruned x es e =
        let whole : entries longer ≡ x ∷ (es ++ entry_of key value ∷ []) =
          longer_entries ∙ ap (λ (l : List CacheEntry). l ++ entry_of key value ∷ []) e in
        let unique = subst IsUnique whole longer-IsUnique in
        let there : lookup x.key (entries longer) ≡ some x =
          ap (lookup x.key) whole ∙ ground (arith, eq_iff x.key x.key) in
        (
          first_law longer ∙ ap head? whole,
          delete_law x longer longer-IsUnique there
              ∙ ap (without x.key) whole
              ∙ without-head x (es ++ entry_of key value ∷ []) unique,
        )

    add_short : length (entries t) + 1 < max_cache_size → add_to_cache uthash key value t ≡ longer
    unfolding add_to_cache longer
    add_short l =
        let low : leb max_cache_size (hash_count longer) ≡ false = ground (arith, longer_count) in
        ground (arith, low)

    add_full :
        (x : CacheEntry)
        → max_cache_size ≤ length (entries t) + 1
        → first longer ≡ some x
        → add_to_cache uthash key value t ≡ hash_delete x longer
    unfolding add_to_cache longer
    add_full x l e =
        let high : leb max_cache_size (hash_count longer) ≡ true = ground (arith, longer_count) in
        ground (arith, high, e)

  -- What a call of `add_to_cache` makes of the entries.
  abbrev pub Added : String → String → Table → Table → Type 0
  Added key value t r =
      IsCache r
      × (lookup key (entries r) ≡ some (entry_of key value))
      × ((length (entries t) + 1 < max_cache_size)
            × (entries r ≡ entries t ++ entry_of key value ∷ [])
          ⊎ (length (entries t) + 1 ≡ max_cache_size)
            × ((oldest : CacheEntry) × (rest : List CacheEntry) × (entries t ≡ oldest ∷ rest)
                × (entries r ≡ rest ++ entry_of key value ∷ [])))

  short-Added :
      (key value : String) (t : Table)
      → IsCache t
      → lookup key (entries t) ≡ none
      → length (entries t) + 1 < max_cache_size
      → Added key value t (add_to_cache uthash key value t)
  short-Added key value t h new l =
      let whole = longer_entries key value t h new in
      let kept : IsCache (longer key value t h new) = record {
        unique = longer-IsUnique key value t h new;
        bounded = omega (arith, ap length whole, length-append (entries t) (entry_of key value));
      } in
      subst (Added key value t) (sym (add_short key value t h new l)) (
        kept,
        ap (lookup key) whole ∙ lookup_last (entries t) (entry_of key value) new,
        inl (l, whole),
      )

  full-Added :
      (key value : String) (t : Table) (x : CacheEntry) (es : List CacheEntry)
      → IsCache t
      → lookup key (entries t) ≡ none
      → entries t ≡ x ∷ es
      → length (entries t) + 1 ≡ max_cache_size
      → Added key value t (add_to_cache uthash key value t)
  full-Added key value t x es h new e l =
      let (oldest, left) = pruned key value t h new x es e in
      let new' : lookup key es ≡ none = lookup_tail key x es (ap (lookup key) (sym e) ∙ new) in
      let kept : IsCache (hash_delete x (longer key value t h new)) = record {
        unique =
            subst IsUnique (sym left)
              (append-IsUnique es (entry_of key value) (subst IsUnique e h.unique).1 new');
        bounded =
            omega (arith, ap length left, length-append es (entry_of key value), ap length e, l);
      } in
      subst (Added key value t) (sym (add_full key value t h new x (omega (arith, l)) oldest)) (
        kept,
        ap (lookup key) left ∙ lookup_last es (entry_of key value) new',
        inr (l, (x, es, e, left)),
      )

  -- `add_to_cache` of a new key to a table without a key twice and with fewer than 100000 entries keeps
  -- it so, and the key is found. The entry becomes the last, and the first goes when there were 99999.
  pub add_to_cache-last :
      (key value : String) (t : Table)
      → IsCache t
      → lookup key (entries t) ≡ none
      → Added key value t (add_to_cache uthash key value t)
  add_to_cache-last key value t h new = elim (List-cases (entries t)) [
    | inl e ↦ short-Added key value t h new (omega (arith, ap length e))
    | inr (x, es, e) ↦ elim (room (length (entries t)) h.bounded) [
      | inl l ↦ short-Added key value t h new l
      | inr l ↦ full-Added key value t x es h new e l
    ]
  ]
