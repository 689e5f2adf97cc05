-- ===== src/Words/Bytes.antt =====
-- Byte-addressed memory: a `uint8_t *` with `uint32_t *` views of it, lowest byte first as on the
-- x86 machines that the source's `bsrl` is written for. Bits are numbered through all bytes.
use native.Mathlib.Decide.{dec_lt}
use sample_code.Common.{
  ℕ, ◌+◌, ◌-◌, ◌*◌, ◌/◌, ◌%◌, ◌^◌, ◌≤◌, ◌<◌, ◌≡◌, sym, ap, ◌∙◌, arith, ltb, leb, ◌==◌, ◌&&◌,
  if◌then◌else◌,
}
use sample_code.Words.Bits.{bit, bit-le, bit-shr, bit-mod}

abbrev pub Memory : Type 0
Memory = ℕ → ℕ

abbrev pub IsBytes : Memory → Type 0
IsBytes m = (a : ℕ) → m a < 256

-- `*(uint32_t *)(m + a)`
unfoldable pub load32 : Memory → ℕ → ℕ
load32 m a = m a + 256 * (m (a + 1) + 256 * (m (a + 2) + 256 * m (a + 3)))

-- `*(uint32_t *)(m + a) = v`
unfoldable pub store32 : Memory → ℕ → ℕ → Memory
store32 m a v i =
    if i == a
    then v % 2 ^ 8
    else if i == a + 1
    then v / 2 ^ 8 % 2 ^ 8
    else if i == a + 2
    then v / 2 ^ 16 % 2 ^ 8
    else if i == a + 3
    then v / 2 ^ 24 % 2 ^ 8
    else m i

-- Bit `p`, counted from the lowest bit of byte 0.
unfoldable pub memory_bit : Memory → ℕ → ℕ
memory_bit m p = bit (m (p / 8)) (p % 8)

pub memory_bit-le : (m : Memory) (p : ℕ) → memory_bit m p ≤ 1
unfolding memory_bit
memory_bit-le m p = bit-le (m (p / 8)) (p % 8)

low_byte : (lo hi k : ℕ) → lo < 256 → k < 8 → bit (lo + 256 * hi) k ≡ bit lo k
low_byte lo hi k h p =
    let e : (lo + 256 * hi) % 2 ^ 8 ≡ lo = omega arith in
    ground (arith, bit-mod (lo + 256 * hi) 8 k, e)

high_bytes : (lo hi k : ℕ) → lo < 256 → bit (lo + 256 * hi) (8 + k) ≡ bit hi k
high_bytes lo hi k h =
    let e : (lo + 256 * hi) / 2 ^ 8 ≡ hi = omega arith in
    sym (bit-shr (lo + 256 * hi) 8 k) ∙ ap (λ (t : ℕ). bit t k) e

byte_of_sum :
    (lo hi k : ℕ)
    → lo < 256
    → bit (lo + 256 * hi) k ≡ (if ltb k 8 then bit lo k else bit hi (k - 8))
byte_of_sum lo hi k h = ground (arith, low_byte lo hi k, high_bytes lo hi (k - 8))

bit-load32_bytes :
    (m : Memory) (a k : ℕ)
    → IsBytes m
    → bit (load32 m a) k ≡ (
        if ltb k 8
        then bit (m a) k
        else if ltb k 16
        then bit (m (a + 1)) (k - 8)
        else if ltb k 24
        then bit (m (a + 2)) (k - 16)
        else bit (m (a + 3)) (k - 24))
unfolding load32
bit-load32_bytes m a k h = ground (
  arith,
  byte_of_sum (m a) (m (a + 1) + 256 * (m (a + 2) + 256 * m (a + 3))) k (h a),
  byte_of_sum (m (a + 1)) (m (a + 2) + 256 * m (a + 3)) (k - 8) (h (a + 1)),
  byte_of_sum (m (a + 2)) (m (a + 3)) (k - 16) (h (a + 2)),
)

-- A word read at `a` holds the 32 bits from bit `8 * a` on.
pub bit-load32 :
    (m : Memory) (a k : ℕ) → IsBytes m → k < 32 → bit (load32 m a) k ≡ memory_bit m (8 * a + k)
unfolding memory_bit
bit-load32 m a k h p = ground (arith, bit-load32_bytes m a k h)

pub load32-lt : (m : Memory) (a : ℕ) → IsBytes m → load32 m a < 2 ^ 32
unfolding load32
load32-lt m a h = omega (arith, h a, h (a + 1), h (a + 2), h (a + 3))

pub store32-IsBytes : (m : Memory) (a v : ℕ) → IsBytes m → IsBytes (store32 m a v)
unfolding store32
store32-IsBytes m a v h i = ground (arith, h i)

byte_of_word : (v s r : ℕ) → r < 8 → bit (v / 2 ^ s % 2 ^ 8) r ≡ bit v (s + r)
byte_of_word v s r h = ground (arith, bit-mod (v / 2 ^ s) 8 r, bit-shr v s r)

-- Which byte of the word at `a` an address is.
data Offset (a : ℕ) : ℕ → Type 0 where
  byte0 : {i : ℕ} → i ≡ a → Offset a i
  byte1 : {i : ℕ} → i ≡ a + 1 → Offset a i
  byte2 : {i : ℕ} → i ≡ a + 2 → Offset a i
  byte3 : {i : ℕ} → i ≡ a + 3 → Offset a i
  before : {i : ℕ} → i < a → Offset a i
  behind : {i : ℕ} → a + 4 ≤ i → Offset a i

offset : (a i : ℕ) → Offset a i
offset a i = elim (dec_lt i a) [
  | yes p ↦ before p
  | no p ↦ elim (dec_lt i (a + 1)) [
    | yes q ↦ byte0 (omega arith)
    | no q ↦ elim (dec_lt i (a + 2)) [
      | yes r ↦ byte1 (omega arith)
      | no r ↦ elim (dec_lt i (a + 3)) [
        | yes s ↦ byte2 (omega arith)
        | no s ↦ elim (dec_lt i (a + 4)) [
          | yes t ↦ byte3 (omega arith)
          | no t ↦ behind (omega arith)
        ]
      ]
    ]
  ]
]

module _ (m : Memory) (a v : ℕ) where
  -- What byte `i` of the memory is after the store.
  stored : {i : ℕ} → Offset a i → ℕ
  stored (byte0 _) = v % 2 ^ 8
  stored (byte1 _) = v / 2 ^ 8 % 2 ^ 8
  stored (byte2 _) = v / 2 ^ 16 % 2 ^ 8
  stored (byte3 _) = v / 2 ^ 24 % 2 ^ 8
  stored {i} (before _) = m i
  stored {i} (behind _) = m i

  store32-stored : {i : ℕ} (o : Offset a i) → store32 m a v i ≡ stored o
  unfolding store32 stored
  store32-stored (byte0 e) = ground arith
  store32-stored (byte1 e) = ground arith
  store32-stored (byte2 e) = ground arith
  store32-stored (byte3 e) = ground arith
  store32-stored (before h) = ground arith
  store32-stored (behind h) = ground arith

  bit-stored :
      {i : ℕ} (o : Offset a i) (r : ℕ)
      → r < 8
      → bit (stored o) r
        ≡ (if leb a i && ltb i (a + 4) then bit v (8 * (i - a) + r) else bit (m i) r)
  unfolding stored
  bit-stored (byte0 e) r h = ground (arith, bit-mod v 8 r)
  bit-stored (byte1 e) r h = ground (arith, byte_of_word v 8 r)
  bit-stored (byte2 e) r h = ground (arith, byte_of_word v 16 r)
  bit-stored (byte3 e) r h = ground (arith, byte_of_word v 24 r)
  bit-stored (before p) r h = ground arith
  bit-stored (behind p) r h = ground arith

-- A word stored at `a` sets the 32 bits from bit `8 * a` on, and no other.
pub memory_bit-store32 :
    (m : Memory) (a v p : ℕ)
    → memory_bit (store32 m a v) p
      ≡ (if leb (8 * a) p && ltb p (8 * a + 32) then bit v (p - 8 * a) else memory_bit m p)
unfolding memory_bit
memory_bit-store32 m a v p =
    let o = offset a (p / 8) in ground (arith, store32-stored m a v o, bit-stored m a v o (p % 8))
