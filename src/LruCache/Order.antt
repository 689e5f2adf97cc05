-- ===== src/LruCache/Order.antt =====
-- Lists of entries without a key twice.
use Prim.Native.String.{String}
use text.Mathlib.Text.{◌==◌}
use text.Mathlib.TextEquality.{eq_iff}
use sample_code.Common.{
  ◌+◌, ◌≡◌, ◌≢◌, ◌∙◌, inl, inr, refl, sym, ap, arith, length, Bool-cases, if◌then◌else◌, none, some,
  List, [], ◌∷◌, ◌++◌,
}
use sample_code.LruCache.{CacheEntry, lookup, without, IsUnique}

pub lookup-key :
    (key : String) (es : List CacheEntry) (e : CacheEntry) → lookup key es ≡ some e → e.key ≡ key
lookup-key key [] e h = cc h
lookup-key key (x ∷ es) e h = elim (Bool-cases (x.key == key)) [
  | inl t ↦ ground (arith, h, t, eq_iff x.key key)
  | inr t ↦ lookup-key key es e (ground (arith, h, t))
]

pub lookup-without : (key : String) (es : List CacheEntry) → lookup key (without key es) ≡ none
lookup-without key [] = refl
lookup-without key (x ∷ es) = ground (arith, lookup-without key es)

pub lookup_other :
    (key other : String) (es : List CacheEntry)
    → other ≢ key
    → lookup other (without key es) ≡ lookup other es
lookup_other key other [] n = refl
lookup_other key other (x ∷ es) n =
    ground (arith, lookup_other key other es n, eq_iff x.key key, eq_iff x.key other, n)

pub lookup-append :
    (key : String) (es : List CacheEntry) (e : CacheEntry)
    → lookup key es ≡ none
    → lookup key (es ++ e ∷ []) ≡ (if e.key == key then some e else none)
lookup-append key [] e h = refl
lookup-append key (x ∷ es) e h = ground (arith, h, lookup-append key es e)

lookup-without-none :
    (key other : String) (es : List CacheEntry)
    → lookup other es ≡ none
    → lookup other (without key es) ≡ none
lookup-without-none key other [] h = refl
lookup-without-none key other (x ∷ es) h = ground (arith, h, lookup-without-none key other es)

pub without-IsUnique :
    (key : String) (es : List CacheEntry) → IsUnique es → IsUnique (without key es)
without-IsUnique key [] h = tt
without-IsUnique key (x ∷ es) (n, h) = elim (Bool-cases (x.key == key)) [
  | inl t ↦ rw t (without-IsUnique key es h)
  | inr t ↦ rw t (lookup-without-none key x.key es n, without-IsUnique key es h)
]

pub append-IsUnique :
    (es : List CacheEntry) (e : CacheEntry)
    → IsUnique es
    → lookup e.key es ≡ none
    → IsUnique (es ++ e ∷ [])
append-IsUnique [] e h n = (refl, tt)
append-IsUnique (x ∷ es) e (m, h) n = elim (Bool-cases (x.key == e.key)) [
  | inl t ↦ absurd (ground (arith, n, t))
  | inr t ↦ (
    lookup-append x.key es e m ∙ ground (arith, t, eq_iff x.key e.key, eq_iff e.key x.key),
    append-IsUnique es e h (ground (arith, n, t)),
  )
]

pub length-append : (es : List CacheEntry) (e : CacheEntry) → length (es ++ e ∷ []) ≡ length es + 1
length-append [] e = omega arith
length-append (x ∷ es) e = omega (arith, length-append es e)

without-same : (key : String) (es : List CacheEntry) → lookup key es ≡ none → without key es ≡ es
without-same key [] h = refl
without-same key (x ∷ es) h = ground (arith, h, without-same key es)

pub length-without :
    (key : String) (es : List CacheEntry) (e : CacheEntry)
    → IsUnique es
    → lookup key es ≡ some e
    → length (without key es) + 1 ≡ length es
length-without key [] e u h = cc h
length-without key (x ∷ es) e (n, u) h = elim (Bool-cases (x.key == key)) [
  | inl t ↦
      let same : x.key ≡ key = ground (arith, t, eq_iff x.key key) in
      rw t (
        omega (
          arith,
          ap length (without-same key es (ap (λ (k : String). lookup k es) (sym same) ∙ n)),
        ))
  | inr t ↦ rw t (omega (arith, length-without key es e u (ground (arith, h, t))))
]

-- The first entry is the only one of its key.
pub without-head :
    (x : CacheEntry) (es : List CacheEntry) → IsUnique (x ∷ es) → without x.key (x ∷ es) ≡ es
without-head x es (n, u) = ground (arith, eq_iff x.key x.key, without-same x.key es n)

pub lookup_tail :
    (key : String) (x : CacheEntry) (es : List CacheEntry)
    → lookup key (x ∷ es) ≡ none
    → lookup key es ≡ none
lookup_tail key x es h = ground (arith, h)

pub lookup_last :
    (es : List CacheEntry) (e : CacheEntry)
    → lookup e.key es ≡ none
    → lookup e.key (es ++ e ∷ []) ≡ some e
lookup_last es e h = lookup-append e.key es e h ∙ ground (arith, eq_iff e.key e.key)
