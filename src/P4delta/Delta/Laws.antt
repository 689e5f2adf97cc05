-- ===== src/P4delta/Delta/Laws.antt =====
-- The unrolled loops agree with the plain ones, and undo each other.
use sample_code.Common.{
  ℕ, zero, suc, ◌+◌, ◌-◌, ◌*◌, ◌/◌, ◌%◌, ◌^◌, ◌<◌, ◌≡◌, ◌∙◌, refl, sym, ap, ap₂, arith, ltb,
  Bool-cases, inl, inr, All, List, [], ◌∷◌, length, get_or, update, slice_from,
}
use sample_code.Unpack.Stream.{Array}
use sample_code.P4delta.Delta.{
  sub32, add32, delta_rest, delta_rounds, p4d_delta, sums_rest, sums_rounds, p4d_de_delta,
  shift_rest, shift_rounds,
}
use sample_code.IndexCompression.Delta.{get_delta_list}

delta_rounds-eq : (r last : ℕ) (xs : List ℕ) → delta_rounds r last xs ≡ delta_rest last xs
unfolding delta_rounds
delta_rounds-eq zero last xs = refl
delta_rounds-eq (suc r) last [] = refl
delta_rounds-eq (suc r) last (a ∷ []) = refl
delta_rounds-eq (suc r) last (a ∷ b ∷ []) = refl
delta_rounds-eq (suc r) last (a ∷ b ∷ c ∷ []) = refl
delta_rounds-eq (suc r) last (a ∷ b ∷ c ∷ d ∷ xs) = rw (delta_rounds-eq r d xs)

delta_rest-eq : (last : ℕ) (xs : List ℕ) → delta_rest last xs ≡ (get_delta_list last xs).0
unfolding delta_rest get_delta_list
delta_rest-eq last [] = refl
delta_rest-eq last (x ∷ xs) = rw (delta_rest-eq x xs)

-- `p4d_delta`, four differences in a round, computes the list that `getDeltaList` of
-- IndexCompression.cpp computes one by one.
pub p4d_delta-get_delta_list : (xs : List ℕ) → p4d_delta xs ≡ (get_delta_list 0 xs).0
unfolding p4d_delta
p4d_delta-get_delta_list xs = delta_rounds-eq (length xs / 4) 0 xs ∙ delta_rest-eq 0 xs

-- With the total in `prev`, rounds of four are the plain running sums.
sums_rounds-eq :
    (r total : ℕ) (xs : List ℕ) → total < 2 ^ 32 → sums_rounds r total total xs ≡ sums_rest total xs
unfolding sums_rounds
sums_rounds-eq zero total xs h = refl
sums_rounds-eq (suc r) total [] h = refl
sums_rounds-eq (suc r) total (a ∷ []) h = refl
sums_rounds-eq (suc r) total (a ∷ b ∷ []) h = refl
sums_rounds-eq (suc r) total (a ∷ b ∷ c ∷ []) h = refl
sums_rounds-eq (suc r) total (a ∷ b ∷ c ∷ d ∷ xs) h =
    let s1 = add32 a total in
    let s2 = add32 b s1 in
    let s3 = add32 c s2 in
    let s4 = add32 d s3 in
    let e2 : add32 b (add32 total a) ≡ s2 = omega arith in
    let e3 : add32 c (add32 total (add32 a b)) ≡ s3 = omega arith in
    let e4 : add32 d (add32 (add32 total (add32 a b)) c) ≡ s4 = omega arith in
    let t4 : add32 total (add32 (add32 a b) (add32 c d)) ≡ s4 = omega arith in
    let ih = sums_rounds-eq r s4 xs (omega arith) in cc (e2, e3, e4, t4, ih)

sums_rest-delta_rest :
    (last : ℕ) (xs : List ℕ)
    → last < 2 ^ 32
    → All (λ x. x < 2 ^ 32) xs
    → sums_rest last (delta_rest last xs) ≡ xs
unfolding sums_rest delta_rest
sums_rest-delta_rest last [] h w = refl
sums_rest-delta_rest last (x ∷ xs) h (hx, hxs) =
    let back : add32 (sub32 x last) last ≡ x = omega arith in
    rw back (rw (sums_rest-delta_rest x xs hx hxs))

p4d_de_delta-sums_rest : (ds : List ℕ) → All (λ d. d < 2 ^ 32) ds → p4d_de_delta ds ≡ sums_rest 0 ds
unfolding p4d_de_delta
p4d_de_delta-sums_rest [] w = refl
p4d_de_delta-sums_rest (d ∷ ds) (hd, hds) = elim (Bool-cases (ltb 0 (length (d ∷ ds) / 4))) [
  | inl many ↦ rw many (sums_rounds-eq (length (d ∷ ds) / 4) 0 (d ∷ ds) (omega arith))
  | inr few ↦ let first : add32 d 0 ≡ d = omega arith in rw few (rw first)
]

delta_rest-words : (last : ℕ) (xs : List ℕ) → All (λ d. d < 2 ^ 32) (delta_rest last xs)
unfolding delta_rest
delta_rest-words last [] = tt
delta_rest-words last (x ∷ xs) = (omega arith, delta_rest-words x xs)

-- p4d_deDelta gives back every list of uint32_t that p4d_delta was given.
pub p4d_de_delta-p4d_delta :
    (xs : List ℕ) → All (λ x. x < 2 ^ 32) xs → p4d_de_delta (p4d_delta xs) ≡ xs
unfolding p4d_delta
p4d_de_delta-p4d_delta xs w =
    ap p4d_de_delta (delta_rounds-eq (length xs / 4) 0 xs)
    ∙ p4d_de_delta-sums_rest (delta_rest 0 xs) (delta_rest-words 0 xs)
    ∙ sums_rest-delta_rest 0 xs (omega arith) w

shift_step :
    (n i j total v : ℕ) (out : Array)
    → i + 1 ≡ j
    → add32 total (out j) ≡ v
    → shift_rest (suc n) i total out ≡ shift_rest n j v (update out i v)
unfolding shift_rest
shift_step n i j total v out p q = rw (p, q)

-- Rounds of four are single rounds.
shift_rounds-eq :
    (r left i total : ℕ) (out : Array)
    → shift_rounds r left i total out ≡ shift_rest (4 * r + left) i total out
unfolding shift_rounds
shift_rounds-eq zero left i total out = let e : 4 * 0 + left ≡ left = omega arith in rw e
shift_rounds-eq (suc r) left i total out =
    let count : 4 * suc r + left ≡ suc (suc (suc (suc (4 * r + left)))) = omega arith in
    let n = 4 * r + left in
    let half1 = add32 (out (i + 1)) (out (i + 2)) in
    let half2 = add32 (out (i + 3)) (out (i + 4)) in
    let v0 = add32 total (out (i + 1)) in
    let v1 = add32 total half1 in
    let v2 = add32 v1 (out (i + 3)) in
    let v3 = add32 v1 half2 in
    let out0 = update out i v0 in
    let out1 = update out0 (i + 1) v1 in
    let out2 = update out1 (i + 2) v2 in
    let total4 : add32 total (add32 half1 half2) ≡ v3 = omega arith in
    rw count (
      rw total4 (shift_rounds-eq r left (i + 4) v3 (update out2 (i + 3) v3))
      ∙ sym (
          shift_step (suc (suc (suc n))) i (i + 1) total v0 out refl refl
          ∙ shift_step (suc (suc n)) (i + 1) (i + 2) v0 v1 out0 (omega arith) (ground arith)
          ∙ shift_step (suc n) (i + 2) (i + 3) v1 v2 out1 (omega arith) (ground arith)
          ∙ shift_step n (i + 3) (i + 4) v2 v3 out2 (omega arith) (ground arith)))

shift_before : (n i total : ℕ) (out : Array) (k : ℕ) → k < i → shift_rest n i total out k ≡ out k
unfolding shift_rest
shift_before zero i total out k h = refl
shift_before (suc n) i total out k h =
    let v = add32 total (out (i + 1)) in
    shift_before n (i + 1) v (update out i v) k (omega arith) ∙ ground arith

shift_rest-delta :
    (xs : List ℕ) (i last : ℕ) (out : Array)
    → last < 2 ^ 32
    → All (λ x. x < 2 ^ 32) xs
    → ((t : ℕ) → t < length xs → out (i + 1 + t) ≡ get_or (get_delta_list last xs).0 t 0)
    → slice_from (shift_rest (length xs) i last out) i (length xs) ≡ xs
unfolding get_delta_list
shift_rest-delta [] i last out h w agree = refl
shift_rest-delta (x ∷ xs) i last out h (hx, hxs) agree =
    let at : i + 1 + 0 ≡ i + 1 = omega arith in
    let next : suc i ≡ i + 1 = omega arith in
    let start : out (i + 1) ≡ (x + 2 ^ 32 - last) % 2 ^ 32 = rw at at (agree 0 (omega arith)) in
    let restored : add32 last (out (i + 1)) ≡ x = omega arith in
    let out' : Array = update out i x in
    let here : out' i ≡ x = ground arith in
    let later = shift_rest-delta xs (i + 1) x out' hx hxs (λ t lt.
      let step : i + 1 + suc t ≡ i + 1 + 1 + t = omega arith in
      ground (arith, step, agree (suc t) (omega arith))) in
    ap (λ (f : Array). slice_from f i (suc (length xs)))
      (shift_step (length xs) i (i + 1) last x out refl restored)
    ∙ rw next (ap₂ ◌∷◌ (shift_before (length xs) (i + 1) x out' i (omega arith) ∙ here) later)

-- Where entries 1 to n hold the differences of `n` ids, the last loop of p4d_uncompress, in rounds
-- of four and single steps, leaves the ids in entries 0 to n - 1.
pub shift_rounds-get_delta_list :
    (xs : List ℕ) (out : Array)
    → All (λ x. x < 2 ^ 32) xs
    → ((t : ℕ) → t < length xs → out (1 + t) ≡ get_or (get_delta_list 0 xs).0 t 0)
    → slice_from (shift_rounds (length xs / 4) (length xs % 4) 0 0 out) 0 (length xs) ≡ xs
shift_rounds-get_delta_list xs out w agree =
    let count : 4 * (length xs / 4) + length xs % 4 ≡ length xs = omega arith in
    let same = shift_rounds-eq (length xs / 4) (length xs % 4) 0 0 out in
    ap (λ (f : Array). slice_from f 0 (length xs))
      (same ∙ ap (λ (k : ℕ). shift_rest k 0 0 out) count)
    ∙ shift_rest-delta xs 0 0 out (omega arith) w
        (λ t lt. let step : 0 + 1 + t ≡ 1 + t = omega arith in rw step (agree t lt))
