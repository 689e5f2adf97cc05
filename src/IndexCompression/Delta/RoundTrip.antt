-- ===== src/IndexCompression/Delta/RoundTrip.antt =====
-- `deDelta` gives back what `getDeltaList` was given.
use mathlib.Core.Path.{ap₂}
use sample_code.Common.{
  ℕ, zero, suc, ◌+◌, ◌-◌, ◌%◌, ◌^◌, ◌<◌, ◌≡◌, ◌∙◌, ap, refl, arith, All, List, [], ◌∷◌, length,
  get_or, update, slice_from,
}
use sample_code.Unpack.Stream.{Array}
use sample_code.IndexCompression.Delta.{get_delta_list, de_delta}

pub length-get_delta_list : (last : ℕ) (xs : List ℕ) → length (get_delta_list last xs).0 ≡ length xs
unfolding get_delta_list
length-get_delta_list last [] = refl
length-get_delta_list last (x ∷ xs) = omega (arith, length-get_delta_list x xs)

pub get_delta_list-words :
    (last : ℕ) (xs : List ℕ) → All (λ d. d < 2 ^ 32) (get_delta_list last xs).0
unfolding get_delta_list
get_delta_list-words last [] = tt
get_delta_list-words last (x ∷ xs) = (omega arith, get_delta_list-words x xs)

de_delta_before : (n i last : ℕ) (a : Array) (k : ℕ) → k < i → (de_delta n i last a).0 k ≡ a k
unfolding de_delta
de_delta_before zero i last a k h = refl
de_delta_before (suc n) i last a k h = ground (
  arith,
  de_delta_before n (i + 1) ((a i + last) % 2 ^ 32) (update a i ((a i + last) % 2 ^ 32)) k,
)

de_delta_step :
    (n i last v : ℕ) (a : Array)
    → (a i + last) % 2 ^ 32 ≡ v
    → de_delta (suc n) i last a ≡ de_delta n (i + 1) v (update a i v)
unfolding de_delta
de_delta_step n i last v a h = rw h

-- Where the array holds, from index `i` on, the differences that getDeltaList makes of a list of
-- uint32_t, starting from `last`, the loop of deDelta with `last` for m_lastDecode puts the list in
-- their place.
pub de_delta-get_delta_list :
    (xs : List ℕ) (i last : ℕ) (a : Array)
    → last < 2 ^ 32
    → All (λ x. x < 2 ^ 32) xs
    → ((t : ℕ) → t < length xs → a (i + t) ≡ get_or (get_delta_list last xs).0 t 0)
    → slice_from (de_delta (length xs) i last a).0 i (length xs) ≡ xs
unfolding get_delta_list
de_delta-get_delta_list [] i last a small h agree = refl
de_delta-get_delta_list (x ∷ xs) i last a small (hx, hxs) agree =
    let at : i + 0 ≡ i = omega arith in
    let next : suc i ≡ i + 1 = omega arith in
    let start : a i ≡ (x + 2 ^ 32 - last) % 2 ^ 32 = rw at at (agree 0 (omega arith)) in
    let restored : (a i + last) % 2 ^ 32 ≡ x = omega arith in
    let a' : Array = update a i x in
    let here : a' i ≡ x = ground arith in
    let later = de_delta-get_delta_list xs (i + 1) x a' hx hxs (λ t h.
      let step : i + suc t ≡ i + 1 + t = omega arith in
      ground (arith, step, agree (suc t) (omega arith))) in
    let step = de_delta_step (length xs) i last x a restored in
    ap (λ (r : Array × ℕ). slice_from r.0 i (suc (length xs))) step
    ∙ rw next (ap₂ ◌∷◌ (de_delta_before (length xs) (i + 1) x a' i (omega arith) ∙ here) later)

-- The loop's last value is the last of the list.
pub de_delta-last :
    (xs : List ℕ) (i last : ℕ) (a : Array)
    → last < 2 ^ 32
    → All (λ x. x < 2 ^ 32) xs
    → ((t : ℕ) → t < length xs → a (i + t) ≡ get_or (get_delta_list last xs).0 t 0)
    → (de_delta (length xs) i last a).1 ≡ (get_delta_list last xs).1
unfolding get_delta_list
de_delta-last [] i last a small h agree = unfold de_delta in refl
de_delta-last (x ∷ xs) i last a small (hx, hxs) agree =
    let at : i + 0 ≡ i = omega arith in
    let start : a i ≡ (x + 2 ^ 32 - last) % 2 ^ 32 = rw at at (agree 0 (omega arith)) in
    let restored : (a i + last) % 2 ^ 32 ≡ x = omega arith in
    ap (λ (r : Array × ℕ). r.1) (de_delta_step (length xs) i last x a restored)
    ∙ de_delta-last xs (i + 1) x (update a i x) hx hxs (λ t h.
      let step : i + suc t ≡ i + 1 + t = omega arith in
      ground (arith, step, agree (suc t) (omega arith)))
