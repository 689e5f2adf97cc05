-- ===== src/Common/Outcome.antt =====
-- How a run of C++ code ends. `fault` is an access outside an array, or the end of a function without
-- its return; `stuck` is no outcome of the program, and says that a loop's fuel ran out.
pub data Outcome {ℓ} (A : Type ℓ) : Type ℓ where
  done : A → Outcome A
  fault : Outcome A
  stuck : Outcome A

-- The value of a run that ends, or `other`.
abbrev pub value_or {ℓ} : {A : Type ℓ} → A → Outcome A → A
value_or other (done a) = a
value_or other r = other

infixl 5 ◌>>=◌
abbrev pub ◌>>=◌ {ℓ κ} : {A : Type ℓ} {B : Type κ} → Outcome A → (A → Outcome B) → Outcome B
done a >>= f = f a
fault >>= f = fault
stuck >>= f = stuck
