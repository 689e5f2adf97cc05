-- ===== src/ConsistentHash/Location.antt =====
-- `location`.
use Prim.Native.String.{String}
use text.Mathlib.TextEquality.{eq_iff}
use sample_code.Common.{
  ℕ, ◌≡◌, ◌≢◌, ◌⊎◌, inl, inr, refl, arith, bit_and, true, false, List, [], ◌∷◌, length,
}
use sample_code.Common.Outcome.{done}
use sample_code.ConsistentHash.{
  ErrorCode, errok, err_conf, Lbase, Hash, magic, node2vnode, add_server, remove_server, location,
}
use sample_code.ConsistentHash.Slots.{bit_and-IsSlot}
use sample_code.ConsistentHash.Owner.{IsFull}
use sample_code.ConsistentHash.Loops.{IsOwn}
use sample_code.ConsistentHash.Addition.{add_server-Added}
use sample_code.ConsistentHash.Removal.{remove_server-Removed}
use sample_code.ConsistentHash.Reached.{Reached, Reached-IsConsistent}

module _ (lbase : Lbase) (key : String) where
  -- The virtual node of `key`.
  abbrev pub vnode_of_key : ℕ
  vnode_of_key = bit_and (lbase.crc32 key) magic

  -- `location` finds the address in the name of a server.
  pub record Answer (node : String) (a : ErrorCode ⊎ String × ℕ) : Type 0 where
    pub ip : String
    pub port : String
    pub split : lbase.split_string node ":" ≡ ip ∷ port ∷ []
    pub answer : a ≡ inr (ip, lbase.atoi port)

  location-split :
      (s : Hash)
      → s.ok ≡ true
      → lbase.exist s.path ≡ true
      → s.vnodelist vnode_of_key ≢ ""
      → (v : List String) → lbase.split_string (s.vnodelist vnode_of_key) ":" ≡ v
      → Answer (s.vnodelist vnode_of_key) (location lbase key s)
        ⊎ (length v ≢ 2) × (location lbase key s ≡ inl err_conf)
  unfolding location
  location-split s o x n [] e =
      inr (ground arith, ground (arith, eq_iff (s.vnodelist vnode_of_key) ""))
  location-split s o x n (ip ∷ []) e =
      inr (omega arith, ground (arith, eq_iff (s.vnodelist vnode_of_key) ""))
  location-split s o x n (ip ∷ port ∷ []) e = inl (record {
    ip = ip;
    port = port;
    split = e;
    answer = ground (arith, eq_iff (s.vnodelist vnode_of_key) "");
  })
  location-split s o x n (ip ∷ port ∷ other ∷ v) e =
      inr (omega arith, ground (arith, eq_iff (s.vnodelist vnode_of_key) ""))

  -- In a state that the constructor and calls of addServer and removeServer lead to, with _OK set, the
  -- file there, and no virtual node without an owner: the owner of the key's virtual node is a server
  -- of the list, and `location` gives the address in that server's name, or reports ERR_CONF when the
  -- name does not split in two at a colon.
  pub location-listed :
      (s : Hash)
      → Reached lbase s
      → s.ok ≡ true
      → lbase.exist s.path ≡ true
      → IsFull s.vnodelist
      → (s.nodelist (s.vnodelist vnode_of_key) ≡ true)
        × (Answer (s.vnodelist vnode_of_key) (location lbase key s)
            ⊎ (length (lbase.split_string (s.vnodelist vnode_of_key) ":") ≢ 2)
              × (location lbase key s ≡ inl err_conf))
  location-listed s r o x full =
      let slot = bit_and-IsSlot (lbase.crc32 key) in
      let n = full vnode_of_key slot in
      ((Reached-IsConsistent lbase r).listed vnode_of_key slot n, location-split s o x n _ refl)

  location-same :
      (s t : Hash)
      → t.path ≡ s.path
      → t.ok ≡ s.ok
      → t.vnodelist vnode_of_key ≡ s.vnodelist vnode_of_key
      → location lbase key t ≡ location lbase key s
  unfolding location
  location-same s t p o e = rw (p, o, e) refl

  -- When every virtual node has an owner, addServer of a server that has a name and is not in the
  -- list reports ERROK, and location answers as before for each key that does not fall on one of
  -- the 64 virtual nodes of the server.
  pub location-add_server :
      (node : String) (s : Hash)
      → node ≢ ""
      → s.nodelist node ≡ false
      → IsFull s.vnodelist
      → ¬ IsOwn lbase node 0 node2vnode vnode_of_key
      → (t : Hash) × (add_server lbase node s ≡ done (errok, t))
        × (location lbase key t ≡ location lbase key s)
  location-add_server node s n h full other =
      let (t, ends, a) = add_server-Added lbase node s n h in
      let slot = bit_and-IsSlot (lbase.crc32 key) in
      (
        t,
        ends,
        location-same s t a.path a.ok (a.kept vnode_of_key slot other (full vnode_of_key slot)),
      )

  -- When every virtual node has an owner, removeServer of a server that has a name and is in the
  -- list ends, and location answers as before for each key that was another server's and does not
  -- fall on one of the 64 virtual nodes of the server.
  pub location-remove_server :
      (node : String) (s : Hash)
      → node ≢ ""
      → s.nodelist node ≡ true
      → IsFull s.vnodelist
      → ¬ IsOwn lbase node 0 node2vnode vnode_of_key
      → s.vnodelist vnode_of_key ≢ node
      → (rc : ErrorCode) × (t : Hash) × (remove_server lbase node s ≡ done (rc, t))
        × (location lbase key t ≡ location lbase key s)
  location-remove_server node s n h full other differs =
      let (rc, t, ends, a) = remove_server-Removed lbase node s n h in
      let slot = bit_and-IsSlot (lbase.crc32 key) in
      (
        rc,
        t,
        ends,
        location-same s t a.path a.ok
            (a.kept vnode_of_key slot other differs (full vnode_of_key slot)),
      )
