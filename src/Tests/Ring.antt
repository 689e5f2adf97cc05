-- ===== src/Tests/Ring.antt =====
-- chash.cpp with a hash that is the length of a text, in virtual nodes.
use Prim.Native.Char.{code}
use Prim.Native.String.{String, len}
use text.Mathlib.Text.{◌==◌ as same_text}
use sample_code.Common.{
  ℕ, ◌*◌, ◌==◌, ◌≡◌, ◌≢◌, ◌⊎◌, inl, inr, refl, arith, Bool, true, false, if◌then◌else◌, some, [],
  ◌∷◌, length, ◌||◌,
}
use sample_code.Common.Outcome.{done}
use sample_code.ConsistentHash.{
  ErrorCode, errok, err_conf, Lbase, Hash, vnode_size, node2vnode, vnode_of, server_lines, flush,
  construct, add_server, remove_server, location,
}
use sample_code.ConsistentHash.Owner.{IsEmpty, IsFull, Owners}
use sample_code.ConsistentHash.Flush.{flush-Owners}
use sample_code.ConsistentHash.Loops.{IsOwn}
use sample_code.ConsistentHash.Addition.{Added, add_server-Added}
use sample_code.ConsistentHash.Removal.{Removed, remove_server-Removed}
use sample_code.ConsistentHash.Consistent.{IsConsistent}
use sample_code.ConsistentHash.Reached.{
  Reached, constructed, Constructed, construct-IsConsistent, Reached-IsConsistent,
}
use sample_code.ConsistentHash.Location.{
  vnode_of_key, Answer, location-listed, location-add_server, location-remove_server,
}

abbrev one_server : Lbase
one_server = record {
  crc32 = λ s. len s * vnode_size;
  to_string = λ i. "0";
  exist = λ s. true;
  load_file = λ s. some "a:1";
  split_string = λ s c. if code c == code ":" then "a" ∷ "1" ∷ [] else s ∷ [];
  atoi = λ s. 1;
}

-- The ring of the server "a:1".
abbrev ring : Hash
ring = record {
  path = "/etc/server.list";
  ok = true;
  nodelist = λ x. same_text x "a:1";
  vnodelist = λ v. "a:1";
}

ring-IsFull : IsFull ring.vnodelist
ring-IsFull v slot e = cc e

flush-Owners_example :
    IsEmpty ring.vnodelist × (flush ring ≡ done (err_conf, ring))
    ⊎ (m : ℕ → String) × (flush ring ≡ done (errok, record ring { vnodelist = m }))
      × Owners ring.vnodelist m
flush-Owners_example = flush-Owners ring

add_server-Added_example :
    (t : Hash) × (add_server one_server "b:22" ring ≡ done (errok, t))
    × Added one_server "b:22" ring t
add_server-Added_example = add_server-Added one_server "b:22" ring (λ e. cc e) refl

remove_server-Removed_example :
    (rc : ErrorCode) × (t : Hash) × (remove_server one_server "a:1" ring ≡ done (rc, t))
    × Removed one_server "a:1" ring rc t
remove_server-Removed_example = remove_server-Removed one_server "a:1" ring (λ e. cc e) refl

construct-IsConsistent_example :
    (t : Hash) × (construct one_server "list" ≡ done t)
    × IsConsistent t
    × (t.path ≡ "list")
    × Constructed one_server "list" t
construct-IsConsistent_example = construct-IsConsistent one_server "list"

-- What the constructor makes of the file.
abbrev built : Hash
built = (construct-IsConsistent one_server "list").0

built-Reached : Reached one_server built
built-Reached = constructed "list" (construct-IsConsistent one_server "list").1

built_ok : (built.ok ≡ true) × IsFull built.vnodelist
unfolding server_lines
built_ok = elim (construct-IsConsistent one_server "list").4 [
  | inl (none_named, _, _) ↦ absurd (cc none_named)
  | inr (named, ok, full) ↦ (ok, full)
]

Reached-IsConsistent_example : IsConsistent built
Reached-IsConsistent_example = Reached-IsConsistent one_server built-Reached

location-listed_example :
    (built.nodelist (built.vnodelist (vnode_of_key one_server "key")) ≡ true)
    × (Answer one_server "key"
          (built.vnodelist (vnode_of_key one_server "key"))
          (location one_server "key" built)
        ⊎ (length (one_server.split_string (built.vnodelist (vnode_of_key one_server "key")) ":")
            ≢ 2)
          × (location one_server "key" built ≡ inl err_conf))
location-listed_example =
    location-listed one_server "key" built built-Reached built_ok.0 refl built_ok.1

-- The key "three" falls on a virtual node of its own length, and the servers' on the lengths of
-- their names and one more.
three_apart : ¬ IsOwn one_server "b" 0 node2vnode (vnode_of_key one_server "three")
unfolding vnode_of
three_apart (j, l, b, e) = omega (arith, e)

location-add_server_example :
    (t : Hash) × (add_server one_server "b" ring ≡ done (errok, t))
    × (location one_server "three" t ≡ location one_server "three" ring)
location-add_server_example =
    location-add_server one_server "three" "b" ring (λ e. cc e) refl ring-IsFull three_apart

-- Two servers, "b" with one virtual node.
abbrev shared : Hash
shared = record {
  path = "list";
  ok = true;
  nodelist = λ x. same_text x "a:1" || same_text x "b";
  vnodelist = λ v. if v == 2 * vnode_size then "b" else "a:1";
}

named : (b : Bool) → (if◌then◌else◌ {A = String} b "b" "a:1") ≢ ""
named true e = cc e
named false e = cc e

shared-IsFull : IsFull shared.vnodelist
shared-IsFull v slot = named (v == 2 * vnode_size)

location-remove_server_example :
    (rc : ErrorCode) × (t : Hash) × (remove_server one_server "b" shared ≡ done (rc, t))
    × (location one_server "three" t ≡ location one_server "three" shared)
location-remove_server_example =
    location-remove_server one_server "three" "b" shared (λ e. cc e) refl shared-IsFull three_apart
      (λ e. cc e)
