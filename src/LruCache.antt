-- ===== src/LruCache.antt =====
-- lru_cache.cpp. The hash table of uthash.h is a parameter.
pub mod Order
pub mod Laws
use Prim.Native.String.{String}
use text.Mathlib.Text.{◌==◌}
use sample_code.Common.{
  ℕ, zero, suc, ◌+◌, ◌≤◌, ◌<◌, ◌≡◌, leb, length, Bool, true, false, if◌then◌else◌, Option, none,
  some, List, [], ◌∷◌, ◌++◌,
}

-- `struct CacheEntry`
pub record CacheEntry : Type 0 where
  pub key : String
  pub value : String

-- The entry of a key in a list, and the list without it.
abbrev pub lookup : String → List CacheEntry → Option CacheEntry
lookup key [] = none
lookup key (e ∷ es) = let rest = lookup key es in if e.key == key then some e else rest

abbrev pub without : String → List CacheEntry → List CacheEntry
without key [] = []
without key (e ∷ es) = let rest = without key es in if e.key == key then rest else e ∷ rest

abbrev pub head? : List CacheEntry → Option CacheEntry
head? [] = none
head? (e ∷ es) = some e

-- No key is there twice.
abbrev pub IsUnique : List CacheEntry → Type 0
IsUnique [] = Unit
IsUnique (e ∷ es) = (lookup e.key es ≡ none) × IsUnique es

-- What is documented of uthash: a table keeps its entries in the order in which they were added,
-- as long as no key is there twice. `first` is the entry that HASH_ITER begins with.
pub record UtHash : Type 1 where
  pub Table : Type 0
  pub entries : Table → List CacheEntry
  pub hash_find : String → Table → Option CacheEntry
  pub hash_delete : CacheEntry → Table → Table
  pub hash_add : CacheEntry → Table → Table
  pub hash_count : Table → ℕ
  pub first : Table → Option CacheEntry
  pub find_law :
      (key : String) (t : Table) → IsUnique (entries t) → hash_find key t ≡ lookup key (entries t)
  pub delete_law :
      (e : CacheEntry) (t : Table)
      → IsUnique (entries t)
      → lookup e.key (entries t) ≡ some e
      → entries (hash_delete e t) ≡ without e.key (entries t)
  pub add_law :
      (e : CacheEntry) (t : Table)
      → lookup e.key (entries t) ≡ none
      → entries (hash_add e t) ≡ entries t ++ e ∷ []
  pub count_law : (t : Table) → hash_count t ≡ length (entries t)
  pub first_law : (t : Table) → first t ≡ head? (entries t)

abbrev pub max_cache_size : ℕ
max_cache_size = 100000

module _ (uthash : UtHash) where
  open uthash use {Table, hash_find, hash_delete, hash_add, hash_count, first}

  unfoldable pub find_in_cache : String → Table → Option String × Table
  find_in_cache key cache = elim (hash_find key cache) [
    | some entry ↦ (some entry.value, hash_add entry (hash_delete entry cache))
    | none ↦ (none, cache)
  ]

  unfoldable pub add_to_cache : String → String → Table → Table
  add_to_cache key value cache =
      let cache' = hash_add (record { key = key; value = value }) cache in
      elim (leb max_cache_size (hash_count cache')) [
        | true ↦ elim (first cache') [ some entry ↦ hash_delete entry cache' | none ↦ cache' ]
        | false ↦ cache'
      ]
