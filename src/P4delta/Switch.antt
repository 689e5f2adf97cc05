-- ===== src/P4delta/Switch.antt =====
-- The `switch ( bit_size )` of `p4d_uncompress`.
pub mod SameTable
use sample_code.Common.{
  ℕ, ◌+◌, ◌≤◌, ◌<◌, ◌≡◌, refl, sym, ap, arith, ◌==◌, ltb, ◌||◌, ◌&&◌, if◌then◌else◌, Bool, true,
  false, Bool-cases, inl, inr, List, [], ◌∷◌, all_below, all_below_sound,
}
use mathlib.Core.Path.{subst}
use sample_code.Unpack.Stream.{Words, Array}
use sample_code.Unpack.Rounds.{IsUnpacker}
use sample_code.P4delta.Unpack.Width1.{
  p4d_unpack_1, p4d_unpack_1-IsUnpacker, p4d_unpack_2, p4d_unpack_2-IsUnpacker, p4d_unpack_3,
  p4d_unpack_3-IsUnpacker, p4d_unpack_4, p4d_unpack_4-IsUnpacker,
}
use sample_code.P4delta.Unpack.Width5.{
  p4d_unpack_5, p4d_unpack_5-IsUnpacker, p4d_unpack_6, p4d_unpack_6-IsUnpacker, p4d_unpack_7,
  p4d_unpack_7-IsUnpacker, p4d_unpack_8, p4d_unpack_8-IsUnpacker,
}
use sample_code.P4delta.Unpack.Width9.{
  p4d_unpack_9, p4d_unpack_9-IsUnpacker, p4d_unpack_10, p4d_unpack_10-IsUnpacker, p4d_unpack_11,
  p4d_unpack_11-IsUnpacker, p4d_unpack_12, p4d_unpack_12-IsUnpacker,
}
use sample_code.P4delta.Unpack.Width13.{
  p4d_unpack_13, p4d_unpack_13-IsUnpacker, p4d_unpack_14, p4d_unpack_14-IsUnpacker, p4d_unpack_15,
  p4d_unpack_15-IsUnpacker, p4d_unpack_16, p4d_unpack_16-IsUnpacker,
}
use sample_code.P4delta.Unpack.Width17.{
  p4d_unpack_17, p4d_unpack_17-IsUnpacker, p4d_unpack_18, p4d_unpack_18-IsUnpacker, p4d_unpack_19,
  p4d_unpack_19-IsUnpacker, p4d_unpack_20, p4d_unpack_20-IsUnpacker,
}
use sample_code.P4delta.Unpack.Width21.{
  p4d_unpack_21, p4d_unpack_21-IsUnpacker, p4d_unpack_22, p4d_unpack_22-IsUnpacker, p4d_unpack_23,
  p4d_unpack_23-IsUnpacker, p4d_unpack_24, p4d_unpack_24-IsUnpacker,
}
use sample_code.P4delta.Unpack.Width25.{
  p4d_unpack_25, p4d_unpack_25-IsUnpacker, p4d_unpack_26, p4d_unpack_26-IsUnpacker, p4d_unpack_27,
  p4d_unpack_27-IsUnpacker, p4d_unpack_28, p4d_unpack_28-IsUnpacker,
}
use sample_code.P4delta.Unpack.Width29.{
  p4d_unpack_29, p4d_unpack_29-IsUnpacker, p4d_unpack_30, p4d_unpack_30-IsUnpacker, p4d_unpack_31,
  p4d_unpack_31-IsUnpacker, p4d_unpack_32, p4d_unpack_32-IsUnpacker,
}

abbrev pub Unpacker : Type 0
Unpacker = Array → Words → ℕ → Array

-- The cases in the order of the source.
abbrev cases : List (ℕ × Unpacker)
cases =
    (4, p4d_unpack_4)
    ∷ (5, p4d_unpack_5)
    ∷ (6, p4d_unpack_6)
    ∷ (7, p4d_unpack_7)
    ∷ (8, p4d_unpack_8)
    ∷ (9, p4d_unpack_9)
    ∷ (10, p4d_unpack_10)
    ∷ (11, p4d_unpack_11)
    ∷ (12, p4d_unpack_12)
    ∷ (13, p4d_unpack_13)
    ∷ (14, p4d_unpack_14)
    ∷ (15, p4d_unpack_15)
    ∷ (16, p4d_unpack_16)
    ∷ (17, p4d_unpack_17)
    ∷ (18, p4d_unpack_18)
    ∷ (19, p4d_unpack_19)
    ∷ (1, p4d_unpack_1)
    ∷ (2, p4d_unpack_2)
    ∷ (3, p4d_unpack_3)
    ∷ (20, p4d_unpack_20)
    ∷ (21, p4d_unpack_21)
    ∷ (22, p4d_unpack_22)
    ∷ (23, p4d_unpack_23)
    ∷ (24, p4d_unpack_24)
    ∷ (25, p4d_unpack_25)
    ∷ (26, p4d_unpack_26)
    ∷ (27, p4d_unpack_27)
    ∷ (28, p4d_unpack_28)
    ∷ (29, p4d_unpack_29)
    ∷ (30, p4d_unpack_30)
    ∷ (31, p4d_unpack_31)
    ∷ []

-- The function of the first case that fits, or that of `default:`.
select : ℕ → List (ℕ × Unpacker) → Unpacker → Unpacker
select bit_size [] other = other
select bit_size ((k, f) ∷ rest) other = if k == bit_size then f else select bit_size rest other

unfoldable pub switch_unpack : ℕ → Unpacker
unfolding select
switch_unpack bit_size = select bit_size cases p4d_unpack_32

has_case : ℕ → List (ℕ × Unpacker) → Bool
has_case bit_size [] = false
has_case bit_size ((k, f) ∷ rest) = k == bit_size || has_case bit_size rest

abbrev AllUnpack : List (ℕ × Unpacker) → Type 0
AllUnpack [] = Unit
AllUnpack ((k, f) ∷ rest) = IsUnpacker k f × AllUnpack rest

select-IsUnpacker :
    (w : ℕ) (cs : List (ℕ × Unpacker)) (other : Unpacker)
    → AllUnpack cs
    → (has_case w cs ≡ false → IsUnpacker w other)
    → IsUnpacker w (select w cs other)
unfolding select has_case
select-IsUnpacker w [] other h d = d refl
select-IsUnpacker w ((k, f) ∷ rest) other (here, later) d = elim (Bool-cases (k == w)) [
  | inl e ↦ let same : k ≡ w = ground arith in rw e (subst (λ v. IsUnpacker v f) same here)
  | inr e ↦ rw e (select-IsUnpacker w rest other later (λ q. d (ground arith)))
]

all_cases : AllUnpack cases
all_cases = (
  p4d_unpack_4-IsUnpacker,
  (
    p4d_unpack_5-IsUnpacker,
    (
      p4d_unpack_6-IsUnpacker,
      (
        p4d_unpack_7-IsUnpacker,
        (
          p4d_unpack_8-IsUnpacker,
          (
            p4d_unpack_9-IsUnpacker,
            (
              p4d_unpack_10-IsUnpacker,
              (
                p4d_unpack_11-IsUnpacker,
                (
                  p4d_unpack_12-IsUnpacker,
                  (
                    p4d_unpack_13-IsUnpacker,
                    (
                      p4d_unpack_14-IsUnpacker,
                      (
                        p4d_unpack_15-IsUnpacker,
                        (
                          p4d_unpack_16-IsUnpacker,
                          (
                            p4d_unpack_17-IsUnpacker,
                            (
                              p4d_unpack_18-IsUnpacker,
                              (
                                p4d_unpack_19-IsUnpacker,
                                (
                                  p4d_unpack_1-IsUnpacker,
                                  (
                                    p4d_unpack_2-IsUnpacker,
                                    (
                                      p4d_unpack_3-IsUnpacker,
                                      (
                                        p4d_unpack_20-IsUnpacker,
                                        (
                                          p4d_unpack_21-IsUnpacker,
                                          (
                                            p4d_unpack_22-IsUnpacker,
                                            (
                                              p4d_unpack_23-IsUnpacker,
                                              (
                                                p4d_unpack_24-IsUnpacker,
                                                (
                                                  p4d_unpack_25-IsUnpacker,
                                                  (
                                                    p4d_unpack_26-IsUnpacker,
                                                    (
                                                      p4d_unpack_27-IsUnpacker,
                                                      (
                                                        p4d_unpack_28-IsUnpacker,
                                                        (
                                                          p4d_unpack_29-IsUnpacker,
                                                          (
                                                            p4d_unpack_30-IsUnpacker,
                                                            (p4d_unpack_31-IsUnpacker, tt),
                                                          ),
                                                        ),
                                                      ),
                                                    ),
                                                  ),
                                                ),
                                              ),
                                            ),
                                          ),
                                        ),
                                      ),
                                    ),
                                  ),
                                ),
                              ),
                            ),
                          ),
                        ),
                      ),
                    ),
                  ),
                ),
              ),
            ),
          ),
        ),
      ),
    ),
  ),
)

-- Every width from 1 to 31 has a case.
every_case : all_below 32 (λ w. w == 0 || has_case w cases) ≡ true
unfolding all_below has_case
every_case = refl

-- For each width from 1 to 32 the switch of p4d_uncompress calls a function that unpacks whole
-- blocks of 32 fields of that width, as many as fit in the count it is given, and leaves the rest
-- of the output alone.
pub switch_unpack-IsUnpacker : (w : ℕ) → 1 ≤ w → w ≤ 32 → IsUnpacker w (switch_unpack w)
unfolding switch_unpack
switch_unpack-IsUnpacker w pos wide = select-IsUnpacker w cases p4d_unpack_32 all_cases λ none_fits.
    let known = λ (h : w < 32). all_below_sound (λ v. v == 0 || has_case v cases) every_case w h in
    let last : w ≡ 32 = elim (Bool-cases (ltb w 32)) [
      | inl below ↦ absurd (ground (arith, known (ground arith), none_fits))
      | inr above ↦ ground arith
    ] in
    subst (λ v. IsUnpacker v p4d_unpack_32) (sym last) p4d_unpack_32-IsUnpacker
