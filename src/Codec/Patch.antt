-- ===== src/Codec/Patch.antt =====
-- The loop of `p4d_uncompress` that puts the exceptions back, and the laws of its result.
use sample_code.Common.{
  ℕ, zero, suc, ◌+◌, ◌-◌, ◌%◌, ◌^◌, ◌≤◌, ◌<◌, ◌≡◌, ◌≢◌, ◌∙◌, refl, sym, ap, arith, ltb, leb,
  if◌then◌else◌, Option, some, List, ◌∷◌, length, get_or, update,
}
use native.Mathlib.Decide.{dec_le}
use sample_code.Common.Outcome.{Outcome, done, fault, stuck}
use sample_code.Codec.Encoder.Links.{place, jump}
use sample_code.Codec.Encoder.Laws.{Coded, ends, exception, normal}

-- `while ( exc_oft <= num )`: `off` is the bit pattern of the int `exc_oft`. A negative one passes
-- the test, and then the array is read in front of its start.
unfoldable pub patch : (ℕ → ℕ × ℕ) → ℕ → ℕ → ℕ → ℕ → (ℕ → ℕ) → Outcome ((ℕ → ℕ) × ℕ)
patch next zero num off ptr out = stuck
patch next (suc fuel) num off ptr out =
    let gap = (out off + 1) % 2 ^ 32 in
    let (v, ptr') = next ptr in
    let rest = patch next fuel num ((off + gap) % 2 ^ 32) ptr' (update out off v) in
    if ltb off (2 ^ 31) then (if leb off num then rest else done (out, ptr)) else fault

-- The loop ends at `stop` with the values `ds` behind place `j`, and with the rest of the array.
pub record IsPatched (n j : ℕ) (ds : List ℕ) (stop : ℕ) (out : ℕ → ℕ)
    (result : Outcome ((ℕ → ℕ) × ℕ)) : Type 0 where
  pub array : ℕ → ℕ
  pub returns : result ≡ done (array, stop)
  pub values : (k : ℕ) → j < k → k ≤ n → array k ≡ get_or ds (k - (j + 1)) 0
  pub others : (k : ℕ) → k ≤ j → array k ≡ out k

get_or-cons :
    (d : ℕ) (ds : List ℕ) (j k : ℕ)
    → j + 1 < k
    → get_or (d ∷ ds) (k - (j + 1)) 0 ≡ get_or ds (k - (j + 1 + 1)) 0
get_or-cons d ds j k h = let q : k - (j + 1) ≡ suc (k - (j + 1 + 1)) = omega arith in rw q

get_or_first : (d : ℕ) (ds : List ℕ) (j k : ℕ) → k ≡ j + 1 → get_or (d ∷ ds) (k - (j + 1)) 0 ≡ d
get_or_first d ds j k h = let q : k - (j + 1) ≡ 0 = omega arith in rw q

update_self : (out : ℕ → ℕ) (a v k : ℕ) → k ≡ a → update out a v k ≡ v
update_self out a v k h = ground arith

update_other : (out : ℕ → ℕ) (a v k : ℕ) → k ≢ a → update out a v k ≡ out k
update_other out a v k h = ground arith

-- One turn of the loop, where the next place does not wrap.
patch_step :
    (next : ℕ → ℕ × ℕ) (fuel n off ptr v ptr' gap : ℕ) (out : ℕ → ℕ)
    → off ≤ n
    → n < 2 ^ 30
    → next ptr ≡ (v, ptr')
    → out off ≡ gap
    → off + (gap + 1) < 2 ^ 31
    → patch next (suc fuel) n off ptr out
      ≡ patch next fuel n (off + (gap + 1)) ptr' (update out off v)
unfolding patch
patch_step next fuel n off ptr v ptr' gap out le small read at range =
    let sum : (off + (gap + 1) % 2 ^ 32) % 2 ^ 32 ≡ off + (gap + 1) = omega arith in
    rw (read, at, sum) (ground arith)

pub patch_ends :
    (next : ℕ → ℕ × ℕ) (fuel n off ptr : ℕ) (out : ℕ → ℕ)
    → n < off
    → off < 2 ^ 31
    → patch next (suc fuel) n off ptr out ≡ done (out, ptr)
unfolding patch
patch_ends next fuel n off ptr out le range = ground arith

module _ (field : ℕ → ℕ) (next : ℕ → ℕ × ℕ) (n stop : ℕ) (small : n < 2 ^ 30) where
  jump_range :
      {j : ℕ} {last : Option ℕ} {ptr : ℕ} {ds : List ℕ}
      → Coded field next n stop j last ptr ds
      → j + length ds ≡ n
      → jump last (field (place last)) < 2 ^ 31
  jump_range (ends beyond range e) q = range
  jump_range (exception to read rest) q = omega arith
  jump_range (normal e rest) q = jump_range rest (omega arith)

  -- From the loop behind an exception to the loop at it.
  at_exception :
      (j d : ℕ) (ds : List ℕ) (out : ℕ → ℕ) (result later : Outcome ((ℕ → ℕ) × ℕ))
      → result ≡ later
      → IsPatched n (j + 1) ds stop (update out (j + 1) d) later
      → IsPatched n j (d ∷ ds) stop out result
  at_exception j d ds out result later step r = record {
    array = r.array;
    returns = step ∙ r.returns;
    values = λ k lo hi. elim (dec_le k (j + 1)) [
      | yes first ↦
          r.others k first
          ∙ update_self out (j + 1) d k (omega arith)
          ∙ sym (get_or_first d ds j k (omega arith))
      | no later_field ↦ r.values k (omega arith) hi ∙ sym (get_or-cons d ds j k (omega arith))
    ];
    others = λ k lo. r.others k (omega arith) ∙ update_other out (j + 1) d k (omega arith);
  }

  -- A field that holds its value is left as it is.
  at_value :
      (j d : ℕ) (ds : List ℕ) (out : ℕ → ℕ) (result : Outcome ((ℕ → ℕ) × ℕ))
      → out (j + 1) ≡ d
      → IsPatched n (j + 1) ds stop out result
      → IsPatched n j (d ∷ ds) stop out result
  at_value j d ds out result held r = record {
    array = r.array;
    returns = r.returns;
    values = λ k lo hi. elim (dec_le k (j + 1)) [
      | yes first ↦
          let here : k ≡ j + 1 = omega arith in
          r.others k first ∙ ap out here ∙ held ∙ sym (get_or_first d ds j k here)
      | no later_field ↦ r.values k (omega arith) hi ∙ sym (get_or-cons d ds j k (omega arith))
    ];
    others = λ k lo. r.others k (omega arith);
  }

  -- With more fuel than values the loop puts every exception back, and stops behind the last.
  pub patch-IsPatched :
      {j : ℕ} {last : Option ℕ} {ptr : ℕ} {ds : List ℕ} (fuel : ℕ) (out : ℕ → ℕ)
      → Coded field next n stop j last ptr ds
      → j + length ds ≡ n
      → length ds < fuel
      → ((k : ℕ) → j < k → k ≤ n → out k ≡ field k)
      → IsPatched n j ds stop out (patch next fuel n (jump last (field (place last))) ptr out)
  patch-IsPatched zero out code q f agree = absurd (omega arith)
  patch-IsPatched {ptr = ptr} (suc fuel) out (ends beyond range e) q f agree = record {
    array = out;
    returns = patch_ends next fuel n _ ptr out beyond range ∙ ap (λ (t : ℕ). done (out, t)) e;
    values = λ k lo hi. absurd (omega arith);
    others = λ k lo. refl;
  }
  patch-IsPatched {j} {ptr = ptr} {ds = d ∷ ds} (suc fuel) out
        (exception {ptr' = ptr'} to read rest) q f agree =
      let at : out (j + 1) ≡ field (j + 1) = agree (j + 1) (omega arith) (omega arith) in
      let step =
        patch_step next fuel n (j + 1) ptr d ptr' (field (j + 1)) out (omega arith) small read at
          (jump_range rest (omega arith)) in
      let r =
        patch-IsPatched {j = j + 1} {last = some (j + 1)} {ptr = ptr'} {ds = ds} fuel
          (update out (j + 1) d) rest (omega arith) (omega arith)
          (λ k lo hi. update_other out (j + 1) d k (omega arith) ∙ agree k (omega arith) hi) in
      rw to (at_exception j d ds out _ _ step r)
  patch-IsPatched {j} {last} {ptr} {ds = d ∷ ds} (suc fuel) out (normal e rest) q f agree =
      at_value j d ds out _ (agree (j + 1) (omega arith) (omega arith) ∙ e) (
        patch-IsPatched {j = j + 1} {last = last} {ptr = ptr} {ds = ds} (suc fuel) out rest
          (omega arith) (omega arith) (λ k lo hi. agree k (omega arith) hi))
