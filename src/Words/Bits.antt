-- ===== src/Words/Bits.antt =====
-- The binary digits of a number, and what shifts, masks and `|` do to them.
use native.Mathlib.Nat.{div-div-eq-div-mul, pow-succ', one-le-pow, div-add-mod, mod-lt}
use native.Mathlib.Nat.{mul-add-mod_self_left, mod-eq_of_lt}
use sample_code.Common.{
  ℕ, zero, suc, ◌+◌, ◌-◌, ◌*◌, ◌/◌, ◌%◌, ◌^◌, ◌≤◌, ◌<◌, max, bit_and, bit_or, ◌≡◌, refl, sym, ap,
  ◌∙◌, arith, ltb, if◌then◌else◌,
}
use sample_code.Words.Step.{bit_or_lowest, bit_and_lowest}

-- Digit `k` of `x`, from the lowest.
unfoldable pub bit : ℕ → ℕ → ℕ
bit x zero = x % 2
bit x (suc k) = bit (x / 2) k

-- The number whose `w` digits are `f 0`, `f 1`, ..., lowest first.
unfoldable pub gather : ℕ → (ℕ → ℕ) → ℕ
gather zero f = 0
gather (suc w) f = f 0 + 2 * gather w (λ k. f (suc k))

pub bit-le : (x k : ℕ) → bit x k ≤ 1
unfolding bit
bit-le x zero = omega arith
bit-le x (suc k) = bit-le (x / 2) k

pub bit-zero : (k : ℕ) → bit 0 k ≡ 0
unfolding bit
bit-zero zero = refl
bit-zero (suc k) = bit-zero k

pub bit-bit_or : (a b k : ℕ) → bit (bit_or a b) k ≡ max (bit a k) (bit b k)
unfolding bit
bit-bit_or a b zero = omega (arith, bit_or_lowest a b)
bit-bit_or a b (suc k) =
    ap (λ (t : ℕ). bit t k) (omega (arith, bit_or_lowest a b)) ∙ bit-bit_or (a / 2) (b / 2) k

bit_and-zero_below : (n x : ℕ) → x ≤ n → bit_and x 0 ≡ 0
bit_and-zero_below n zero h = refl
bit_and-zero_below zero (suc x) h = absurd (omega arith)
bit_and-zero_below (suc n) (suc x) h =
    omega (arith, bit_and_lowest (suc x) 0, bit_and-zero_below n (suc x / 2) (omega arith))

bit_and-zero : (x : ℕ) → bit_and x 0 ≡ 0
bit_and-zero x = bit_and-zero_below x x (omega arith)

two_pow_suc : (s : ℕ) → 2 ^ suc s ≡ 2 * 2 ^ s
two_pow_suc s = pow-succ' 2 s

pub half_shr : (x s : ℕ) → x / 2 ^ suc s ≡ x / 2 / 2 ^ s
half_shr x s = rw two_pow_suc (sym (div-div-eq-div-mul x 2 (2 ^ s)))

pub bit-shr : (x s k : ℕ) → bit (x / 2 ^ s) k ≡ bit x (s + k)
unfolding bit
bit-shr x zero k =
    let p : x / 2 ^ 0 ≡ x = omega arith in let q : 0 + k ≡ k = omega arith in cc (p, q)
bit-shr x (suc s) k =
    let q : suc s + k ≡ suc (s + k) = omega arith in rw (half_shr, q) (bit-shr (x / 2) s k)

pub double_shl : (x s : ℕ) → x * 2 ^ suc s ≡ 2 * (x * 2 ^ s)
double_shl x s = omega (arith, ap (λ (t : ℕ). x * t) (two_pow_suc s))

pub bit-shl : (x s k : ℕ) → bit (x * 2 ^ s) k ≡ (if ltb k s then 0 else bit x (k - s))
unfolding bit
bit-shl x zero k =
    let p : x * 2 ^ 0 ≡ x = omega arith in let q : k - 0 ≡ k = omega arith in ground (arith, p, q)
bit-shl x (suc s) zero = ground (arith, double_shl x s)
bit-shl x (suc s) (suc k) =
    let p : x * 2 ^ suc s / 2 ≡ x * 2 ^ s = omega (arith, double_shl x s) in
    let q : suc k - suc s ≡ k - s = omega arith in rw (p, q) (ground (arith, bit-shl x s k))

mod_pow_suc : (x n : ℕ) → x % 2 ^ suc n ≡ x % 2 + 2 * (x / 2 % 2 ^ n)
mod_pow_suc x n =
    let q = x / 2 / 2 ^ n in
    let r = x / 2 % 2 ^ n in
    let low : r < 2 ^ n = mod-lt (x / 2) (one-le-pow n 2 (omega arith)) in
    let split : 2 ^ n * q + r ≡ x / 2 = div-add-mod (x / 2) (2 ^ n) in
    let whole : x ≡ 2 ^ suc n * q + (x % 2 + 2 * r) =
      omega (arith, split, ap (λ (t : ℕ). t * q) (two_pow_suc n)) in
    ap (λ (t : ℕ). t % 2 ^ suc n) whole
    ∙ mul-add-mod_self_left (2 ^ suc n) q (x % 2 + 2 * r)
    ∙ mod-eq_of_lt (omega (arith, two_pow_suc n, low))

pub bit-mod : (x n k : ℕ) → bit (x % 2 ^ n) k ≡ (if ltb k n then bit x k else 0)
unfolding bit
bit-mod x zero k = let p : x % 2 ^ 0 ≡ 0 = omega arith in ground (arith, p, bit-zero k)
bit-mod x (suc n) zero = ground (arith, mod_pow_suc x n)
bit-mod x (suc n) (suc k) =
    let p : x % 2 ^ suc n / 2 ≡ x / 2 % 2 ^ n = omega (arith, mod_pow_suc x n) in
    rw p (ground (arith, bit-mod (x / 2) n k))

-- A mask of `n` low bits is the remainder by `2 ^ n`.
pub bit_and_mask : (n x : ℕ) → bit_and x (2 ^ n - 1) ≡ x % 2 ^ n
bit_and_mask zero x = omega (arith, bit_and-zero x)
bit_and_mask (suc n) x =
    let half : (2 ^ suc n - 1) / 2 ≡ 2 ^ n - 1 = omega (arith, two_pow_suc n, one-le-pow n 2) in
    let odd : (2 ^ suc n - 1) % 2 ≡ 1 = omega (arith, two_pow_suc n, one-le-pow n 2) in
    let ih : bit_and (x / 2) ((2 ^ suc n - 1) / 2) ≡ x / 2 % 2 ^ n =
      rw half (bit_and_mask n (x / 2)) in
    omega (arith, bit_and_lowest x (2 ^ suc n - 1), mod_pow_suc x n, ih, odd)

pub gather_ext : (w : ℕ) (f g : ℕ → ℕ) → ((k : ℕ) → k < w → f k ≡ g k) → gather w f ≡ gather w g
unfolding gather
gather_ext zero f g h = refl
gather_ext (suc w) f g h =
    let rest = gather_ext w (λ k. f (suc k)) (λ k. g (suc k)) (λ k p. h (suc k) (omega arith)) in
    omega (arith, h 0 (omega arith), rest)

-- A number is the sum of its digits, up to the width.
pub gather-bit : (w x : ℕ) → gather w (bit x) ≡ x % 2 ^ w
unfolding gather bit
gather-bit zero x = omega arith
gather-bit (suc w) x = omega (arith, gather-bit w (x / 2), mod_pow_suc x w)

pub gather-lt : (w : ℕ) (f : ℕ → ℕ) → ((k : ℕ) → f k ≤ 1) → gather w f < 2 ^ w
unfolding gather
gather-lt zero f h = omega arith
gather-lt (suc w) f h =
    omega (arith, h 0, gather-lt w (λ k. f (suc k)) (λ k. h (suc k)), two_pow_suc w)

-- Above its width a number has no digit.
pub bit_beyond : (x w k : ℕ) → x < 2 ^ w → w ≤ k → bit x k ≡ 0
bit_beyond x w k h p = ground (arith, bit-mod x w k, mod-eq_of_lt h)

pub bit_or-lt : (n a b : ℕ) → a < 2 ^ n → b < 2 ^ n → bit_or a b < 2 ^ n
bit_or-lt zero a b h k =
    let p : a ≡ 0 = omega arith in let q : b ≡ 0 = omega arith in rw (p, q) (omega arith)
bit_or-lt (suc n) a b h k = omega (
  arith,
  bit_or_lowest a b,
  bit_or-lt n (a / 2) (b / 2) (omega (arith, two_pow_suc n)) (omega (arith, two_pow_suc n)),
  two_pow_suc n,
)
