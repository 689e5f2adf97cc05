-- ===== src/ConsistentHash/Addition.antt =====
-- `addServer`.
use Prim.Native.String.{String, ◌++◌}
use text.Mathlib.Text.{◌==◌ as same_text}
use text.Mathlib.TextEquality.{eq_iff}
use sample_code.Common.{ℕ, ◌≡◌, ◌≢◌, ◌∙◌, ◌⊎◌, inl, inr, refl, sym, arith, true, false, Bool-cases}
use sample_code.Common.Outcome.{done}
use sample_code.ConsistentHash.{
  errok, err_notok, err_exist, Lbase, Hash, node2vnode, set_listed, vnode_of, store, flush,
  flush_after, add_server_ll, add_server,
}
use sample_code.ConsistentHash.Slots.{IsSlot, bit_and-IsSlot}
use sample_code.ConsistentHash.Owner.{Owner-kept, IsFull, Owners, text_cases}
use sample_code.ConsistentHash.Flush.{flush-Owners}
use sample_code.ConsistentHash.Loops.{IsOwn, store-cases}

module _ (lbase : Lbase) (node : String) (s : Hash) where
  -- One of the 64 virtual nodes of `node`.
  abbrev Own : ℕ → Type 0
  Own = IsOwn lbase node 0 node2vnode

  -- What `addServer` makes of `s`: the 64 virtual nodes of `node` are its own, the others that had an
  -- owner keep it, and the rest get the owner nearest before them.
  pub record Added (t : Hash) : Type 0 where
    pub path : t.path ≡ s.path
    pub ok : t.ok ≡ s.ok
    pub listed : t.nodelist ≡ set_listed s.nodelist node true
    pub own : (v : ℕ) → IsSlot v → Own v → t.vnodelist v ≡ node
    pub kept : (v : ℕ) → IsSlot v → ¬ Own v → s.vnodelist v ≢ "" → t.vnodelist v ≡ s.vnodelist v
    pub full : IsFull t.vnodelist
    pub nearest : Owners (store lbase node2vnode 0 node node s.vnodelist) t.vnodelist

  add_ok :
      node ≢ ""
      → s.nodelist node ≡ false
      → add_server lbase node s
        ≡ flush (record s {
          nodelist = set_listed s.nodelist node true;
          vnodelist = store lbase node2vnode 0 node node s.vnodelist;
        })
  unfolding add_server add_server_ll flush_after
  add_ok n h =
      let e : same_text node "" ≡ false = ground (arith, eq_iff node "", n) in rw (e, h) refl

  -- `node` has a virtual node, whatever its hash.
  pub own-IsSlot : IsSlot (vnode_of lbase node 0)
  unfolding vnode_of
  own-IsSlot = bit_and-IsSlot (lbase.crc32 (node ++ lbase.to_string 0))

  pub own_stored :
      (value : String) (m : ℕ → String)
      → store lbase node2vnode 0 node value m (vnode_of lbase node 0) ≡ value
  own_stored value m = elim (store-cases lbase node value node2vnode 0 m (vnode_of lbase node 0)) [
    | inl (o, e) ↦ e
    | inr (n, e) ↦ absurd (n (0, omega arith, omega arith, refl))
  ]

  -- addServer of a server that has a name and is not in the list reports ERROK and puts it into the
  -- list. Its 64 virtual nodes are its own, every other one that had an owner keeps it, and the
  -- rest get the owner nearest before them, so that none is left without.
  pub add_server-Added :
      node ≢ ""
      → s.nodelist node ≡ false
      → (t : Hash) × (add_server lbase node s ≡ done (errok, t)) × Added t
  add_server-Added n h =
      let m = store lbase node2vnode 0 node node s.vnodelist in
      elim (flush-Owners (record s { nodelist = set_listed s.nodelist node true; vnodelist = m })) [
        | inl (empty, ends) ↦
            absurd
              (n (sym (own_stored node s.vnodelist) ∙ empty (vnode_of lbase node 0) own-IsSlot))
        | inr (r, ends, owners) ↦ (
          record s { nodelist = set_listed s.nodelist node true; vnodelist = r },
          add_ok n h ∙ ends,
          record {
            path = refl;
            ok = refl;
            listed = refl;
            own = λ v slot o. elim (store-cases lbase node node node2vnode 0 s.vnodelist v) [
              | inl (o', e) ↦ Owner-kept m v (r v) slot (owners v slot) (λ x. n (sym e ∙ x)) ∙ e
              | inr (other, e) ↦ absurd (other o)
            ];
            kept = λ v slot other some_owner.
                elim (store-cases lbase node node node2vnode 0 s.vnodelist v) [
                  | inl (o', e) ↦ absurd (other o')
                  | inr (other', e) ↦
                      Owner-kept m v (r v) slot (owners v slot) (λ x. some_owner (sym e ∙ x)) ∙ e
                ];
            full = λ v slot. (owners v slot).named;
            nearest = owners;
          },
        )
      ]

  pub add_server_refused :
      (node ≡ "") × (add_server lbase node s ≡ done (err_notok, s))
      ⊎ (node ≢ "")
        × ((s.nodelist node ≡ true) × (add_server lbase node s ≡ done (err_exist, s))
            ⊎ (s.nodelist node ≡ false))
  unfolding add_server add_server_ll flush_after
  add_server_refused = elim (text_cases node "") [
    | inl e ↦ inl (e, ground (arith, e, eq_iff node ""))
    | inr n ↦ inr (
      n,
      elim (Bool-cases (s.nodelist node)) [
        | inl h ↦ inl (h, ground (arith, n, h, eq_iff node ""))
        | inr h ↦ inr h
      ],
    )
  ]
