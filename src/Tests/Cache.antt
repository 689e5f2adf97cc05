-- ===== src/Tests/Cache.antt =====
-- lru_cache.cpp over a table that is the list of its entries.
use sample_code.Common.{refl, arith, List, [], ◌∷◌, ◌++◌, length}
use sample_code.LruCache.{CacheEntry, lookup, without, head?, UtHash, find_in_cache, add_to_cache}
use sample_code.LruCache.Laws.{IsCache, Answer, find_in_cache-last, Added, add_to_cache-last}

abbrev listed : UtHash
listed = record {
  Table = List CacheEntry;
  entries = λ t. t;
  hash_find = lookup;
  hash_delete = λ e t. without e.key t;
  hash_add = λ e t. t ++ e ∷ [];
  hash_count = length;
  first = head?;
  find_law = λ key t u. refl;
  delete_law = λ e t u l. refl;
  add_law = λ e t n. refl;
  count_law = λ t. refl;
  first_law = λ t. refl;
}

abbrev two_entries : List CacheEntry
two_entries =
    record { key = "tiechou"; value = "wanglifeng" }
    ∷ record { key = "jianhao"; value = "liwei" }
    ∷ []

two_entries-IsCache : IsCache listed two_entries
two_entries-IsCache = record { unique = (refl, (refl, tt)); bounded = omega arith }

find_in_cache-last_example :
    Answer listed "tiechou" two_entries (find_in_cache listed "tiechou" two_entries)
find_in_cache-last_example = find_in_cache-last listed "tiechou" two_entries two_entries-IsCache

add_to_cache-last_example :
    Added listed "key" "value" two_entries (add_to_cache listed "key" "value" two_entries)
add_to_cache-last_example =
    add_to_cache-last listed "key" "value" two_entries two_entries-IsCache refl
