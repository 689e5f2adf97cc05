-- ===== src/ConsistentHash/Reached.antt =====
-- The constructor, and the states that calls of the public methods lead to.
use Prim.Native.Char.{code}
use Prim.Native.String.{String, [] as empty, ◌∷◌ as character}
use mathlib.Core.Path.{subst}
use text.Mathlib.Text.{◌==◌ as same_text}
use text.Mathlib.TextEquality.{eq_iff}
use sample_code.Common.{
  none, some, ℕ, ◌==◌, ◌≡◌, ◌≢◌, ◌∙◌, ◌⊎◌, inl, inr, refl, sym, ap, arith, true, false, Bool-cases,
  All, List, [], ◌∷◌, Option-cases, List-cases,
}
use sample_code.Common.Outcome.{done}
use sample_code.ConsistentHash.{
  ErrorCode, Lbase, Hash, node2vnode, set_listed, vnode_of, store, add_server_ll, add_server,
  remove_server, server_lines, add_all, construct,
}
use sample_code.ConsistentHash.Slots.{IsSlot}
use sample_code.ConsistentHash.Owner.{IsEmpty, IsFull}
use sample_code.ConsistentHash.Flush.{flush-Owners}
use sample_code.ConsistentHash.Addition.{own_stored, own-IsSlot}
use sample_code.ConsistentHash.Consistent.{
  IsConsistent, listed_other, AllListed-store, AllListed-Owners, add_server-IsConsistent,
  remove_server-IsConsistent,
}

record HasOwner (m : ℕ → String) : Type 0 where
  vnode : ℕ
  slot : IsSlot vnode
  named : m vnode ≢ ""

unread : String → Hash
unread path = record { path = path; ok = false; nodelist = λ x. false; vnodelist = λ v. "" }

server_lines-named : (v : List String) → All (λ line. line ≢ "") (server_lines v)
unfolding server_lines
server_lines-named [] = tt
server_lines-named (empty ∷ v) = server_lines-named v
server_lines-named (character c line ∷ v) = elim (Bool-cases (code c == code "#")) [
  | inl e ↦ rw e (server_lines-named v)
  | inr e ↦ rw e ((λ h. cc h), server_lines-named v)
]

module _ (lbase : Lbase) where
  -- `addServerLL` of a server that is not in the list.
  entered : String → Hash → Hash
  entered node s = record s {
    nodelist = set_listed s.nodelist node true;
    vnodelist = store lbase node2vnode 0 node node s.vnodelist;
  }

  ll-cases :
      (node : String) (s : Hash)
      → node ≢ ""
      → (s.nodelist node ≡ true) × ((add_server_ll lbase node s).1 ≡ s)
        ⊎ (s.nodelist node ≡ false) × ((add_server_ll lbase node s).1 ≡ entered node s)
  unfolding add_server_ll entered
  ll-cases node s n = elim (Bool-cases (s.nodelist node)) [
    | inl h ↦ inl (h, ground (arith, n, h, eq_iff node ""))
    | inr h ↦
        inr (
          h,
          let e : same_text node "" ≡ false = ground (arith, eq_iff node "", n) in rw (e, h) refl,
        )
  ]

  entered-IsConsistent :
      (node : String) (s : Hash) → node ≢ "" → IsConsistent s → IsConsistent (entered node s)
  unfolding entered
  entered-IsConsistent node s n c = record {
    listed = AllListed-store lbase node s.nodelist s.vnodelist c.listed;
    unnamed = listed_other s.nodelist node "" true (λ e. n (sym e)) ∙ c.unnamed;
  }

  entered-HasOwner : (node : String) (s : Hash) → node ≢ "" → HasOwner (entered node s).vnodelist
  unfolding entered
  entered-HasOwner node s n = record {
    vnode = vnode_of lbase node 0;
    slot = own-IsSlot lbase node s;
    named = λ e. n (sym (own_stored lbase node s node s.vnodelist) ∙ e);
  }

  add_all-IsConsistent :
      (nodes : List String) (s : Hash)
      → All (λ line. line ≢ "") nodes
      → IsConsistent s
      → HasOwner s.vnodelist
      → IsConsistent (add_all lbase nodes s) × HasOwner (add_all lbase nodes s).vnodelist
  unfolding add_all
  add_all-IsConsistent [] s h c o = (c, o)
  add_all-IsConsistent (node ∷ nodes) s (n, h) c o = elim (ll-cases node s n) [
    | inl (known, e) ↦ subst Kept (sym e) (add_all-IsConsistent nodes s h c o)
    | inr (new, e) ↦ subst Kept (sym e) (
        add_all-IsConsistent nodes (entered node s) h (entered-IsConsistent node s n c)
          (entered-HasOwner node s n))
  ]
    where
      Kept : Hash → Type 0
      Kept t = IsConsistent (add_all lbase nodes t) × HasOwner (add_all lbase nodes t).vnodelist

  -- The servers that the file names.
  abbrev pub servers : String → List String
  servers path = elim (lbase.load_file path) [
    | none ↦ []
    | some text ↦ server_lines (lbase.split_string text "\n")
  ]

  -- The constructor without a server in its file, and with one.
  abbrev pub Constructed : String → Hash → Type 0
  Constructed path t =
      (servers path ≡ []) × (t.ok ≡ false) × IsEmpty t.vnodelist
      ⊎ (servers path ≢ []) × (t.ok ≡ true) × IsFull t.vnodelist

  IsConsistent-unread : (path : String) → IsConsistent (unread path)
  unfolding unread
  IsConsistent-unread path = record { listed = λ v slot n. absurd (n refl); unnamed = refl }

  add_all-path : (nodes : List String) (s : Hash) → (add_all lbase nodes s).path ≡ s.path
  unfolding add_all add_server_ll
  add_all-path [] s = refl
  add_all-path (node ∷ nodes) s = add_all-path nodes (add_server_ll lbase node s).1 ∙ ground arith

  ll_blank :
      (node path : String)
      → node ≢ ""
      → (add_server_ll lbase node (unread path)).1 ≡ entered node (unread path)
  unfolding unread
  ll_blank node path n = elim (ll-cases node (unread path) n) [
    | inl (listed, e) ↦ absurd (cc listed)
    | inr (new, e) ↦ e
  ]

  -- The constructor ends, and the owners are listed servers. Either the file cannot be read or names
  -- no server, _OK is false and no virtual node has an owner; or the file names one, _OK is true and
  -- each virtual node has an owner.
  pub construct-IsConsistent :
      (path : String)
      → (t : Hash) × (construct lbase path ≡ done t)
        × IsConsistent t
        × (t.path ≡ path)
        × Constructed path t
  unfolding construct unread add_all
  construct-IsConsistent path = elim (Option-cases (lbase.load_file path)) [
    | inl e ↦ (
      unread path,
      ground (arith, e),
      IsConsistent-unread path,
      refl,
      inl (ground (arith, e), refl, λ v slot. refl),
    )
    | inr (text, e) ↦ elim (List-cases (server_lines (lbase.split_string text "\n"))) [
      | inl none_left ↦ (
        unread path,
        ground (arith, e, none_left),
        IsConsistent-unread path,
        refl,
        inl (ground (arith, e, none_left), refl, λ v slot. refl),
      )
      | inr (node, nodes, lines) ↦
          let (n, h) =
            subst (All (λ line. line ≢ "")) lines
              (server_lines-named (lbase.split_string text "\n")) in
          let (c, o) =
            subst
              (λ (v : Hash).
                IsConsistent (add_all lbase nodes v) × HasOwner (add_all lbase nodes v).vnodelist)
              (sym (ll_blank node path n))
              (add_all-IsConsistent nodes (entered node (unread path)) h
                (entered-IsConsistent node (unread path) n (IsConsistent-unread path))
                (entered-HasOwner node (unread path) n)) in
          let u = add_all lbase (node ∷ nodes) (unread path) in
          elim (flush-Owners u) [
            | inl (none_owned, ends) ↦ absurd (o.named (none_owned o.vnode o.slot))
            | inr (r, ends, owners) ↦ (
              record u { vnodelist = r; ok = true },
              ground (arith, e, lines, ends),
              record {
                listed = AllListed-Owners u.nodelist u.vnodelist r c.listed owners;
                unnamed = c.unnamed;
              },
              add_all-path (node ∷ nodes) (unread path),
              inr (ground (arith, e, lines), refl, λ v slot. (owners v slot).named),
            )
          ]
    ]
  ]

  -- The states that the constructor and calls of addServer and removeServer lead to.
  pub data Reached : Hash → Type 0 where
    constructed : (path : String) {t : Hash} → construct lbase path ≡ done t → Reached t
    added :
        (node : String) {s t : Hash} {rc : ErrorCode}
        → Reached s
        → add_server lbase node s ≡ done (rc, t)
        → Reached t
    removed :
        (node : String) {s t : Hash} {rc : ErrorCode}
        → Reached s
        → remove_server lbase node s ≡ done (rc, t)
        → Reached t

  done-inj : {A : Type 0} (a b : A) → done a ≡ done b → a ≡ b
  done-inj a b e = cc e

  -- After the constructor and any calls of addServer and removeServer every owner of a virtual node is
  -- a server in the list, and the empty name is not in it.
  pub Reached-IsConsistent : {s : Hash} → Reached s → IsConsistent s
  Reached-IsConsistent (constructed path {t} e) =
      let (t', ends, c, _, _) = construct-IsConsistent path in
      subst IsConsistent (done-inj t' t (sym ends ∙ e)) c
  Reached-IsConsistent (added node {s} {t} {rc} r e) =
      let (rc', t', ends, c) = add_server-IsConsistent lbase node s (Reached-IsConsistent r) in
      subst IsConsistent
        (ap (λ (p : ErrorCode × Hash). p.1) (done-inj (rc', t') (rc, t) (sym ends ∙ e))) c
  Reached-IsConsistent (removed node {s} {t} {rc} r e) =
      let (rc', t', ends, c) = remove_server-IsConsistent lbase node s (Reached-IsConsistent r) in
      subst IsConsistent
        (ap (λ (p : ErrorCode × Hash). p.1) (done-inj (rc', t') (rc, t) (sym ends ∙ e))) c
