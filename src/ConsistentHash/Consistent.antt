-- ===== src/ConsistentHash/Consistent.antt =====
-- The states that the class can get into, and what `addServer`, `removeServer` and the constructor keep.
use Prim.Native.String.{String}
use text.Mathlib.TextEquality.{eq_iff}
use mathlib.Core.Path.{subst}
use sample_code.Common.{ℕ, ◌≡◌, ◌≢◌, ◌∙◌, inl, inr, sym, ap, arith, Bool, true, false}
use sample_code.Common.Outcome.{done}
use sample_code.ConsistentHash.{
  ErrorCode, Lbase, Hash, node2vnode, set_listed, store, add_server, remove_server,
}
use sample_code.ConsistentHash.Slots.{IsSlot, back}
use sample_code.ConsistentHash.Owner.{Owners, back-IsSlot}
use sample_code.ConsistentHash.Loops.{store-cases}
use sample_code.ConsistentHash.Addition.{Added, add_server-Added, add_server_refused}
use sample_code.ConsistentHash.Removal.{Removed, remove_server-Removed, remove_server_refused}

abbrev AllListed : (String → Bool) → (ℕ → String) → Type 0
AllListed l m = (v : ℕ) → IsSlot v → m v ≢ "" → l (m v) ≡ true

-- Every owner of a virtual node is a server in the list.
pub record IsConsistent (s : Hash) : Type 0 where
  pub listed : AllListed s.nodelist s.vnodelist
  pub unnamed : s.nodelist "" ≡ false

listed_self : (l : String → Bool) (node : String) (b : Bool) → set_listed l node b node ≡ b
listed_self l node b = ground (arith, eq_iff node node)

pub listed_other :
    (l : String → Bool) (node x : String) (b : Bool) → x ≢ node → set_listed l node b x ≡ l x
listed_other l node x b n = ground (arith, eq_iff x node)

pub listed_more :
    (l : String → Bool) (node x : String) → l x ≡ true → set_listed l node true x ≡ true
listed_more l node x h = ground (arith, h)

pub AllListed-Owners :
    (l : String → Bool) (m m' : ℕ → String) → AllListed l m → Owners m m' → AllListed l m'
AllListed-Owners l m m' h owners v slot n =
    let o = owners v slot in
    ap l (sym o.found)
    ∙ h (back v o.distance) (back-IsSlot v o.distance slot o.near) (λ x. o.named (sym o.found ∙ x))

module _ (lbase : Lbase) where
  pub AllListed-store :
      (node : String) (l : String → Bool) (m : ℕ → String)
      → AllListed l m
      → AllListed (set_listed l node true) (store lbase node2vnode 0 node node m)
  AllListed-store node l m h v slot n = elim (store-cases lbase node node node2vnode 0 m v) [
    | inl (o, e) ↦ ap (set_listed l node true) e ∙ listed_self l node true
    | inr (other, e) ↦
        ap (set_listed l node true) e ∙ listed_more l node (m v) (h v slot (λ x. n (e ∙ x)))
  ]

  Added-IsConsistent :
      (node : String) (s t : Hash)
      → node ≢ ""
      → IsConsistent s
      → Added lbase node s t
      → IsConsistent t
  Added-IsConsistent node s t n c a = record {
    listed =
        subst (λ (l : String → Bool). AllListed l t.vnodelist) (sym a.listed)
          (AllListed-Owners (set_listed s.nodelist node true) _ t.vnodelist
            (AllListed-store node s.nodelist s.vnodelist c.listed) a.nearest);
    unnamed =
        ap (λ (l : String → Bool). l "") a.listed
        ∙ listed_other s.nodelist node "" true (λ e. n (sym e))
        ∙ c.unnamed;
  }

  Removed-IsConsistent :
      (node : String) (s : Hash) (rc : ErrorCode) (t : Hash)
      → node ≢ ""
      → IsConsistent s
      → Removed lbase node s rc t
      → IsConsistent t
  Removed-IsConsistent node s rc t n c r = record {
    listed = λ v slot named.
        let (w, there, e) = r.heirs v slot named in
        ap (λ (l : String → Bool). l (t.vnodelist v)) r.listed
        ∙ listed_other s.nodelist node (t.vnodelist v) false (r.gone v slot)
        ∙ ap s.nodelist (sym e)
        ∙ c.listed w there (λ x. named (sym e ∙ x));
    unnamed =
        ap (λ (l : String → Bool). l "") r.listed
        ∙ listed_other s.nodelist node "" false (λ e. n (sym e))
        ∙ c.unnamed;
  }

  -- A call of `addServer` or `removeServer` ends, whatever it reports, and the owners are listed servers.
  pub add_server-IsConsistent :
      (node : String) (s : Hash)
      → IsConsistent s
      → (rc : ErrorCode) × (t : Hash) × (add_server lbase node s ≡ done (rc, t)) × IsConsistent t
  add_server-IsConsistent node s c = elim (add_server_refused lbase node s) [
    | inl (e, ends) ↦ (_, s, ends, c)
    | inr (n, inl (h, ends)) ↦ (_, s, ends, c)
    | inr (n, inr h) ↦
        let (t, ends, a) = add_server-Added lbase node s n h in
        (_, t, ends, Added-IsConsistent node s t n c a)
  ]

  pub remove_server-IsConsistent :
      (node : String) (s : Hash)
      → IsConsistent s
      → (rc : ErrorCode) × (t : Hash) × (remove_server lbase node s ≡ done (rc, t)) × IsConsistent t
  remove_server-IsConsistent node s c = elim (remove_server_refused lbase node s) [
    | inl (e, ends) ↦ (_, s, ends, c)
    | inr (n, inl (h, ends)) ↦ (_, s, ends, c)
    | inr (n, inr h) ↦
        let (rc, t, ends, a) = remove_server-Removed lbase node s n h in
        (rc, t, ends, Removed-IsConsistent node s rc t n c a)
  ]
