-- ===== src/Words/Step.antt =====
-- The lowest digit of `|` and `&`, from the recursion on digits that the native operations mean.
use Prim.Native.Nat.{digits, bitwise, bit_and-bitwise, bit_or-bitwise}
use native.Mathlib.Nat.{le_refl}
use sample_code.Common.{
  ℕ, zero, suc, ◌+◌, ◌*◌, ◌/◌, ◌%◌, ◌≤◌, max, min, bit_and, bit_or, ◌≡◌, refl, arith,
}

module _ (edge : ℕ → ℕ) (op : ℕ → ℕ → ℕ) where
  -- More fuel than digits changes nothing.
  digits_more :
      (x y fuel more : ℕ) → x ≤ fuel → x ≤ more → digits edge op fuel x y ≡ digits edge op more x y
  digits_more zero y zero zero le le' = refl
  digits_more zero y zero (suc more) le le' = refl
  digits_more zero y (suc fuel) zero le le' = refl
  digits_more zero y (suc fuel) (suc more) le le' = refl
  digits_more (suc x) y zero more le le' = absurd (omega arith)
  digits_more (suc x) y (suc fuel) zero le le' = absurd (omega arith)
  digits_more (suc x) y (suc fuel) (suc more) le le' =
      rw (digits_more (suc x / 2) (y / 2) fuel more (omega arith) (omega arith))

  bitwise_lowest :
      (a b : ℕ)
      → bitwise edge op (suc a) b ≡ bitwise edge op (suc a / 2) (b / 2) * 2 + op (suc a % 2) (b % 2)
  bitwise_lowest a b =
      omega (arith, digits_more (suc a / 2) (b / 2) a (suc a / 2) (omega arith) (le_refl _))

pub bit_or_lowest : (a b : ℕ) → bit_or a b ≡ bit_or (a / 2) (b / 2) * 2 + max (a % 2) (b % 2)
bit_or_lowest zero b = simp bit_or-bitwise (omega arith)
bit_or_lowest (suc a) b = simp bit_or-bitwise (bitwise_lowest (λ y. y) max a b)

pub bit_and_lowest : (a b : ℕ) → bit_and a b ≡ bit_and (a / 2) (b / 2) * 2 + min (a % 2) (b % 2)
bit_and_lowest zero b = simp bit_and-bitwise (omega arith)
bit_and_lowest (suc a) b = simp bit_and-bitwise (bitwise_lowest (λ y. 0) min a b)
