-- ===== src/IndexCompression/Class/Table.antt =====
-- `unpacktable`: the unpacking functions by width, from 1.
use sample_code.Common.{
  ℕ, zero, suc, ◌+◌, ◌-◌, ◌≤◌, ◌<◌, ◌≡◌, refl, arith, Option, none, some, List, [], ◌∷◌, length,
}
use sample_code.Unpack.Stream.{Words, Array}
use sample_code.Unpack.Rounds.{IsUnpacker}
use sample_code.IndexCompression.Unpack.Width1.{
  unpack_1, unpack_1-IsUnpacker, unpack_2, unpack_2-IsUnpacker, unpack_3, unpack_3-IsUnpacker,
  unpack_4, unpack_4-IsUnpacker,
}
use sample_code.IndexCompression.Unpack.Width5.{
  unpack_5, unpack_5-IsUnpacker, unpack_6, unpack_6-IsUnpacker, unpack_7, unpack_7-IsUnpacker,
  unpack_8, unpack_8-IsUnpacker,
}
use sample_code.IndexCompression.Unpack.Width9.{
  unpack_9, unpack_9-IsUnpacker, unpack_10, unpack_10-IsUnpacker, unpack_11, unpack_11-IsUnpacker,
  unpack_12, unpack_12-IsUnpacker,
}
use sample_code.IndexCompression.Unpack.Width13.{
  unpack_13, unpack_13-IsUnpacker, unpack_14, unpack_14-IsUnpacker, unpack_15, unpack_15-IsUnpacker,
  unpack_16, unpack_16-IsUnpacker,
}
use sample_code.IndexCompression.Unpack.Width17.{
  unpack_17, unpack_17-IsUnpacker, unpack_18, unpack_18-IsUnpacker, unpack_19, unpack_19-IsUnpacker,
  unpack_20, unpack_20-IsUnpacker,
}
use sample_code.IndexCompression.Unpack.Width21.{
  unpack_21, unpack_21-IsUnpacker, unpack_22, unpack_22-IsUnpacker, unpack_23, unpack_23-IsUnpacker,
  unpack_24, unpack_24-IsUnpacker,
}
use sample_code.IndexCompression.Unpack.Width25.{
  unpack_25, unpack_25-IsUnpacker, unpack_26, unpack_26-IsUnpacker, unpack_27, unpack_27-IsUnpacker,
  unpack_28, unpack_28-IsUnpacker,
}
use sample_code.IndexCompression.Unpack.Width29.{
  unpack_29, unpack_29-IsUnpacker, unpack_30, unpack_30-IsUnpacker, unpack_31, unpack_31-IsUnpacker,
  unpack_32, unpack_32-IsUnpacker,
}

abbrev pub Unpacker : Type 0
Unpacker = Array → Words → ℕ → Array

unfoldable pub unpacktable : List Unpacker
unpacktable =
    unpack_1 ∷ unpack_2 ∷ unpack_3 ∷ unpack_4 ∷ unpack_5 ∷ unpack_6 ∷ unpack_7 ∷ unpack_8 ∷ unpack_9
    ∷ unpack_10 ∷ unpack_11 ∷ unpack_12 ∷ unpack_13 ∷ unpack_14 ∷ unpack_15 ∷ unpack_16 ∷ unpack_17
    ∷ unpack_18 ∷ unpack_19 ∷ unpack_20 ∷ unpack_21 ∷ unpack_22 ∷ unpack_23 ∷ unpack_24 ∷ unpack_25
    ∷ unpack_26 ∷ unpack_27 ∷ unpack_28 ∷ unpack_29 ∷ unpack_30 ∷ unpack_31 ∷ unpack_32 ∷ []

-- `unpacktable[bitSize-1]`, with `none` for an index out of range.
unfoldable pub entry : List Unpacker → ℕ → Option Unpacker
entry fs zero = none
entry [] (suc k) = none
entry (f ∷ fs) (suc zero) = some f
entry (f ∷ fs) (suc (suc k)) = entry fs (suc k)

-- The functions of the list unpack the widths `w`, `w + 1`, ...
abbrev Unpackers : ℕ → List Unpacker → Type 0
Unpackers w [] = Unit
Unpackers w (f ∷ fs) = IsUnpacker w f × Unpackers (suc w) fs

entry-IsUnpacker :
    (fs : List Unpacker) (w k : ℕ)
    → Unpackers (suc w) fs
    → k < length fs
    → (f : Unpacker) × (entry fs (suc k) ≡ some f) × IsUnpacker (suc w + k) f
unfolding entry
entry-IsUnpacker [] w k h lt = absurd (omega arith)
entry-IsUnpacker (f ∷ fs) w zero (here, rest) lt =
    let e : suc w ≡ suc w + 0 = omega arith in (f, refl, rw e at here)
entry-IsUnpacker (f ∷ fs) w (suc k) (here, rest) lt =
    let e : suc w + suc k ≡ suc (suc w) + k = omega arith in
    rw e (entry-IsUnpacker fs (suc w) k rest (omega arith))

-- For each width from 1 to 32 the table has, at the index that decompression uses, a function that
-- unpacks whole blocks of 32 fields of that width, as many as fit in the count it is given, and
-- leaves the rest of the output alone.
pub unpacktable-IsUnpacker :
    (w : ℕ) → 1 ≤ w → w ≤ 32 → (f : Unpacker) × (entry unpacktable w ≡ some f) × IsUnpacker w f
unfolding unpacktable
unpacktable-IsUnpacker w pos wide =
    let e : w ≡ suc (w - 1) = omega arith in
    let s : suc 0 + (w - 1) ≡ suc (w - 1) = omega arith in
    rw e (rw s at (entry-IsUnpacker unpacktable 0 (w - 1) all (omega arith)))
  where
    all : Unpackers 1 unpacktable
    all = (
      unpack_1-IsUnpacker,
      (
        unpack_2-IsUnpacker,
        (
          unpack_3-IsUnpacker,
          (
            unpack_4-IsUnpacker,
            (
              unpack_5-IsUnpacker,
              (
                unpack_6-IsUnpacker,
                (
                  unpack_7-IsUnpacker,
                  (
                    unpack_8-IsUnpacker,
                    (
                      unpack_9-IsUnpacker,
                      (
                        unpack_10-IsUnpacker,
                        (
                          unpack_11-IsUnpacker,
                          (
                            unpack_12-IsUnpacker,
                            (
                              unpack_13-IsUnpacker,
                              (
                                unpack_14-IsUnpacker,
                                (
                                  unpack_15-IsUnpacker,
                                  (
                                    unpack_16-IsUnpacker,
                                    (
                                      unpack_17-IsUnpacker,
                                      (
                                        unpack_18-IsUnpacker,
                                        (
                                          unpack_19-IsUnpacker,
                                          (
                                            unpack_20-IsUnpacker,
                                            (
                                              unpack_21-IsUnpacker,
                                              (
                                                unpack_22-IsUnpacker,
                                                (
                                                  unpack_23-IsUnpacker,
                                                  (
                                                    unpack_24-IsUnpacker,
                                                    (
                                                      unpack_25-IsUnpacker,
                                                      (
                                                        unpack_26-IsUnpacker,
                                                        (
                                                          unpack_27-IsUnpacker,
                                                          (
                                                            unpack_28-IsUnpacker,
                                                            (
                                                            unpack_29-IsUnpacker,
                                                            (
                                                            unpack_30-IsUnpacker,
                                                            (
                                                            unpack_31-IsUnpacker,
                                                            (unpack_32-IsUnpacker, tt),
                                                            ),
                                                            ),
                                                            ),
                                                          ),
                                                        ),
                                                      ),
                                                    ),
                                                  ),
                                                ),
                                              ),
                                            ),
                                          ),
                                        ),
                                      ),
                                    ),
                                  ),
                                ),
                              ),
                            ),
                          ),
                        ),
                      ),
                    ),
                  ),
                ),
              ),
            ),
          ),
        ),
      ),
    )
