-- ===== src/P4delta/Delta.antt =====
-- `p4d_delta`, `p4d_deDelta` and the last loop of `p4d_uncompress`: differences and running sums,
-- four entries in a round and the rest one by one. `num & 0xFFFFFFFC` is four times `num / 4`.
pub mod Laws
use sample_code.Common.{
  ℕ, zero, suc, ◌+◌, ◌-◌, ◌*◌, ◌/◌, ◌%◌, ◌^◌, ltb, if◌then◌else◌, List, [], ◌∷◌, length, update,
}
use sample_code.Unpack.Stream.{Array}

-- uint32_t `a - b` and `a + b`
abbrev pub sub32 : ℕ → ℕ → ℕ
sub32 a b = (a + 2 ^ 32 - b) % 2 ^ 32

abbrev pub add32 : ℕ → ℕ → ℕ
add32 a b = (a + b) % 2 ^ 32

-- `for ( int i = align_num; i < num; ++i )`
unfoldable pub delta_rest : ℕ → List ℕ → List ℕ
delta_rest last [] = []
delta_rest last (x ∷ xs) = sub32 x last ∷ delta_rest x xs

unfoldable pub delta_rounds : ℕ → ℕ → List ℕ → List ℕ
unfolding delta_rest
delta_rounds zero last xs = delta_rest last xs
delta_rounds (suc r) last (arr0 ∷ arr1 ∷ arr2 ∷ arr3 ∷ xs) =
    sub32 arr0 last ∷ sub32 arr1 arr0 ∷ sub32 arr2 arr1 ∷ sub32 arr3 arr2 ∷ delta_rounds r arr3 xs
delta_rounds (suc r) last xs = delta_rest last xs

unfoldable pub p4d_delta : List ℕ → List ℕ
unfolding delta_rounds
p4d_delta arr = delta_rounds (length arr / 4) 0 arr

-- `arr[ i ] += arr[ i - 1 ]`, with `prev` for the entry before.
unfoldable pub sums_rest : ℕ → List ℕ → List ℕ
sums_rest prev [] = []
sums_rest prev (x ∷ xs) = let v = add32 x prev in v ∷ sums_rest v xs

unfoldable pub sums_rounds : ℕ → ℕ → ℕ → List ℕ → List ℕ
unfolding sums_rest
sums_rounds zero total prev xs = sums_rest prev xs
sums_rounds (suc r) total prev (arr0 ∷ arr1 ∷ arr2 ∷ arr3 ∷ xs) =
    let half1 = add32 arr0 arr1 in
    let half2 = add32 arr2 arr3 in
    let v3 = add32 arr3 (add32 (add32 total half1) arr2) in
    add32 arr0 total
    ∷ add32 arr1 (add32 total arr0)
    ∷ add32 arr2 (add32 total half1)
    ∷ v3
    ∷ sums_rounds r (add32 total (add32 half1 half2)) v3 xs
sums_rounds (suc r) total prev xs = sums_rest prev xs

-- With no whole round the loop starts at index 1.
unfoldable pub sums_from_one : List ℕ → List ℕ
unfolding sums_rest
sums_from_one [] = []
sums_from_one (x ∷ xs) = x ∷ sums_rest x xs

unfoldable pub p4d_de_delta : List ℕ → List ℕ
unfolding sums_rounds sums_from_one
p4d_de_delta arr =
    if ltb 0 (length arr / 4) then sums_rounds (length arr / 4) 0 0 arr else sums_from_one arr

-- The last loop of `p4d_uncompress`, where entry `i` gets the sum up to entry `i + 1`.
unfoldable pub shift_rest : ℕ → ℕ → ℕ → Array → Array
shift_rest zero i total out = out
shift_rest (suc left) i total out =
    let arr0 = out (i + 1) in
    shift_rest left (i + 1) (add32 total arr0) (update out i (add32 total arr0))

-- `r` rounds of four from index `i` on, and then `left` single ones.
unfoldable pub shift_rounds : ℕ → ℕ → ℕ → ℕ → Array → Array
unfolding shift_rest
shift_rounds zero left i total out = shift_rest left i total out
shift_rounds (suc r) left i total out =
    let arr0 = out (i + 1) in
    let arr1 = out (i + 2) in
    let arr2 = out (i + 3) in
    let arr3 = out (i + 4) in
    let half1 = add32 arr0 arr1 in
    let half2 = add32 arr2 arr3 in
    let out0 = update out i (add32 total arr0) in
    let out1 = update out0 (i + 1) (add32 total half1) in
    let out2 = update out1 (i + 2) (add32 (add32 total half1) arr2) in
    let out3 = update out2 (i + 3) (add32 (add32 total half1) half2) in
    shift_rounds r left (i + 4) (add32 total (add32 half1 half2)) out3
