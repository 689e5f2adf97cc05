-- ===== src/ConsistentHash/Removal.antt =====
-- `removeServer`.
use Prim.Native.String.{String}
use text.Mathlib.TextEquality.{eq_iff}
use sample_code.Common.{ℕ, ◌≡◌, ◌≢◌, ◌∙◌, ◌⊎◌, inl, inr, refl, sym, arith, true, false, Bool-cases}
use sample_code.Common.Outcome.{done, ◌>>=◌}
use sample_code.ConsistentHash.{
  ErrorCode, errok, err_notok, err_conf, err_notexist, Lbase, Hash, vnode_num, node2vnode,
  set_listed, store, clean, flush_after, remove_server_ll, remove_server,
}
use sample_code.ConsistentHash.Slots.{IsSlot, back}
use sample_code.ConsistentHash.Owner.{Owner-kept, back-IsSlot, IsEmpty, IsFull, text_cases}
use sample_code.ConsistentHash.Flush.{flush-Owners}
use sample_code.ConsistentHash.Loops.{IsOwn, store-cases, Cleaned, clean-slots}

module _ (lbase : Lbase) (node : String) (s : Hash) where
  abbrev Own : ℕ → Type 0
  Own = IsOwn lbase node 0 node2vnode

  -- What `removeServer` makes of `s`: the virtual nodes that `node` had are empty like its own 64, and
  -- each gets the owner nearest before it, if there is any.
  pub record Removed (rc : ErrorCode) (t : Hash) : Type 0 where
    pub path : t.path ≡ s.path
    pub ok : t.ok ≡ s.ok
    pub listed : t.nodelist ≡ set_listed s.nodelist node false
    pub gone : (v : ℕ) → IsSlot v → t.vnodelist v ≢ node
    pub kept :
        (v : ℕ)
        → IsSlot v
        → ¬ Own v
        → s.vnodelist v ≢ node
        → s.vnodelist v ≢ ""
        → t.vnodelist v ≡ s.vnodelist v
    pub heirs :
        (v : ℕ)
        → IsSlot v
        → t.vnodelist v ≢ ""
        → (w : ℕ) × IsSlot w × (s.vnodelist w ≡ t.vnodelist v)
    pub ends : (rc ≡ err_conf) × IsEmpty t.vnodelist ⊎ (rc ≡ errok) × IsFull t.vnodelist

  remove_ok :
      (m : ℕ → String)
      → node ≢ ""
      → s.nodelist node ≡ true
      → clean vnode_num 0 node (store lbase node2vnode 0 node "" s.vnodelist) ≡ done m
      → remove_server_ll lbase node s
        ≡ done (errok, record s { nodelist = set_listed s.nodelist node false; vnodelist = m })
  unfolding remove_server_ll
  remove_ok m n h e = ground (arith, eq_iff node "", n, h, e)

  -- The virtual nodes without `node`.
  abbrev Without : (ℕ → String) → Type 0
  Without r =
      (v : ℕ)
      → IsSlot v
      → (r v ≡ "") × (Own v ⊎ (s.vnodelist v ≡ node))
        ⊎ ¬ Own v × (s.vnodelist v ≢ node) × (r v ≡ s.vnodelist v)

  clean-Without :
      (r : ℕ → String)
      → ((v : ℕ) → IsSlot v → Cleaned node v (store lbase node2vnode 0 node "" s.vnodelist) r)
      → Without r
  clean-Without r h v slot = elim (store-cases lbase node "" node2vnode 0 s.vnodelist v) [
    | inl (o, e) ↦ inl (elim (h v slot) [ inl (p, q) ↦ q | inr (p, q) ↦ q ∙ e ], inl o)
    | inr (other, e) ↦ elim (h v slot) [
      | inl (p, q) ↦ inl (q, inr (sym e ∙ p))
      | inr (p, q) ↦ inr (other, λ x. p (e ∙ x), q ∙ e)
    ]
  ]

  Without-gone : (r : ℕ → String) → node ≢ "" → Without r → (v : ℕ) → IsSlot v → r v ≢ node
  Without-gone r n w v slot e = elim (w v slot) [
    | inl (empty, o) ↦ n (sym e ∙ empty)
    | inr (other, differs, same) ↦ differs (sym same ∙ e)
  ]

  Without-named : (r : ℕ → String) → Without r → (v : ℕ) → IsSlot v → r v ≢ "" → s.vnodelist v ≡ r v
  Without-named r w v slot named = elim (w v slot) [
    | inl (empty, o) ↦ absurd (named empty)
    | inr (other, differs, same) ↦ sym same
  ]

  Without-kept :
      (r : ℕ → String)
      → Without r
      → (v : ℕ) → IsSlot v
      → ¬ Own v
      → s.vnodelist v ≢ node
      → r v ≡ s.vnodelist v
  Without-kept r w v slot other differs = elim (w v slot) [
    | inl (empty, inl o) ↦ absurd (other o)
    | inl (empty, inr e) ↦ absurd (differs e)
    | inr (_, _, same) ↦ same
  ]

  -- removeServer of a server that has a name and is in the list takes it out of the list and out of
  -- every virtual node. Each virtual node that another server had keeps it, but for the 64 of the
  -- server, and an owner that is there afterwards was one before. It reports ERROK and leaves no
  -- virtual node without an owner, or ERR_CONF when no owner is left.
  pub remove_server-Removed :
      node ≢ ""
      → s.nodelist node ≡ true
      → (rc : ErrorCode) × (t : Hash) × (remove_server lbase node s ≡ done (rc, t)) × Removed rc t
  unfolding remove_server flush_after
  remove_server-Removed n h =
      let (r, ends, cleaned) = clean-slots node (store lbase node2vnode 0 node "" s.vnodelist) in
      let w = clean-Without r cleaned in
      let s' : Hash = record s { nodelist = set_listed s.nodelist node false; vnodelist = r } in
      elim (flush-Owners s') [
        | inl (empty, flushed) ↦ (
          err_conf,
          s',
          rw (remove_ok r n h ends, ◌>>=◌) flushed,
          record {
            path = refl;
            ok = refl;
            listed = refl;
            gone = Without-gone r n w;
            kept = λ v slot other differs named. Without-kept r w v slot other differs;
            heirs = λ v slot named. absurd (named (empty v slot));
            ends = inl (refl, empty);
          },
        )
        | inr (r', flushed, owners) ↦ (
          errok,
          record s' { vnodelist = r' },
          rw (remove_ok r n h ends, ◌>>=◌) flushed,
          record {
            path = refl;
            ok = refl;
            listed = refl;
            gone = λ v slot e.
                let o = owners v slot in
                Without-gone r n w (back v o.distance) (back-IsSlot v o.distance slot o.near)
                  (o.found ∙ e);
            kept = λ v slot other differs named.
                let same = Without-kept r w v slot other differs in
                Owner-kept r v (r' v) slot (owners v slot) (λ x. named (sym same ∙ x)) ∙ same;
            heirs = λ v slot named.
                let o = owners v slot in
                let there = back-IsSlot v o.distance slot o.near in
                (
                  back v o.distance,
                  there,
                  Without-named r w (back v o.distance) there (λ x. o.named (sym o.found ∙ x))
                      ∙ o.found,
                );
            ends = inr (refl, λ v slot. (owners v slot).named);
          },
        )
      ]

  pub remove_server_refused :
      (node ≡ "") × (remove_server lbase node s ≡ done (err_notok, s))
      ⊎ (node ≢ "")
        × ((s.nodelist node ≡ false) × (remove_server lbase node s ≡ done (err_notexist, s))
            ⊎ (s.nodelist node ≡ true))
  unfolding remove_server remove_server_ll flush_after
  remove_server_refused = elim (text_cases node "") [
    | inl e ↦ inl (e, ground (arith, e, eq_iff node ""))
    | inr n ↦ inr (
      n,
      elim (Bool-cases (s.nodelist node)) [
        | inl h ↦ inr h
        | inr h ↦ inl (h, ground (arith, n, h, eq_iff node ""))
      ],
    )
  ]
