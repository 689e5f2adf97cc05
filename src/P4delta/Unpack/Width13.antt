-- ===== src/P4delta/Unpack/Width13.antt =====
-- `p4d_unpack_13` to `p4d_unpack_16` of p4delta/p4delta.cpp, each with the law that its table passes.
use sample_code.Common.{ℕ, [], ◌∷◌, refl}
use sample_code.Unpack.Stream.{Words, Array}
use sample_code.Unpack.Table.{word, high, join, reads_from}
use sample_code.Unpack.Rounds.{IsUnpacker, unpack_rounds, unpack_rounds-IsUnpacker}

pub p4d_unpack_13 : Array → Words → ℕ → Array
p4d_unpack_13 output encode num =
    unpack_rounds num 13
      (word 0 0x1FFF
        ∷ high 0 13 0x1FFF
        ∷ join 0 26 1 6 0x1FFF
        ∷ high 1 7 0x1FFF
        ∷ join 1 20 2 12 0x1FFF
        ∷ high 2 1 0x1FFF
        ∷ high 2 14 0x1FFF
        ∷ join 2 27 3 5 0x1FFF
        ∷ high 3 8 0x1FFF
        ∷ join 3 21 4 11 0x1FFF
        ∷ high 4 2 0x1FFF
        ∷ high 4 15 0x1FFF
        ∷ join 4 28 5 4 0x1FFF
        ∷ high 5 9 0x1FFF
        ∷ join 5 22 6 10 0x1FFF
        ∷ high 6 3 0x1FFF
        ∷ high 6 16 0x1FFF
        ∷ join 6 29 7 3 0x1FFF
        ∷ high 7 10 0x1FFF
        ∷ join 7 23 8 9 0x1FFF
        ∷ high 8 4 0x1FFF
        ∷ high 8 17 0x1FFF
        ∷ join 8 30 9 2 0x1FFF
        ∷ high 9 11 0x1FFF
        ∷ join 9 24 10 8 0x1FFF
        ∷ high 10 5 0x1FFF
        ∷ high 10 18 0x1FFF
        ∷ join 10 31 11 1 0x1FFF
        ∷ high 11 12 0x1FFF
        ∷ join 11 25 12 7 0x1FFF
        ∷ high 12 6 0x1FFF
        ∷ high 12 19 0x1FFF
        ∷ [])
      num encode 0 output

pub p4d_unpack_13-IsUnpacker : IsUnpacker 13 p4d_unpack_13
unfolding p4d_unpack_13 reads_from
p4d_unpack_13-IsUnpacker = unpack_rounds-IsUnpacker 13 _ refl

pub p4d_unpack_14 : Array → Words → ℕ → Array
p4d_unpack_14 output encode num =
    unpack_rounds num 14
      (word 0 0x3FFF
        ∷ high 0 14 0x3FFF
        ∷ join 0 28 1 4 0x3FFF
        ∷ high 1 10 0x3FFF
        ∷ join 1 24 2 8 0x3FFF
        ∷ high 2 6 0x3FFF
        ∷ join 2 20 3 12 0x3FFF
        ∷ high 3 2 0x3FFF
        ∷ high 3 16 0x3FFF
        ∷ join 3 30 4 2 0x3FFF
        ∷ high 4 12 0x3FFF
        ∷ join 4 26 5 6 0x3FFF
        ∷ high 5 8 0x3FFF
        ∷ join 5 22 6 10 0x3FFF
        ∷ high 6 4 0x3FFF
        ∷ high 6 18 0x3FFF
        ∷ word 7 0x3FFF
        ∷ high 7 14 0x3FFF
        ∷ join 7 28 8 4 0x3FFF
        ∷ high 8 10 0x3FFF
        ∷ join 8 24 9 8 0x3FFF
        ∷ high 9 6 0x3FFF
        ∷ join 9 20 10 12 0x3FFF
        ∷ high 10 2 0x3FFF
        ∷ high 10 16 0x3FFF
        ∷ join 10 30 11 2 0x3FFF
        ∷ high 11 12 0x3FFF
        ∷ join 11 26 12 6 0x3FFF
        ∷ high 12 8 0x3FFF
        ∷ join 12 22 13 10 0x3FFF
        ∷ high 13 4 0x3FFF
        ∷ high 13 18 0x3FFF
        ∷ [])
      num encode 0 output

pub p4d_unpack_14-IsUnpacker : IsUnpacker 14 p4d_unpack_14
unfolding p4d_unpack_14 reads_from
p4d_unpack_14-IsUnpacker = unpack_rounds-IsUnpacker 14 _ refl

pub p4d_unpack_15 : Array → Words → ℕ → Array
p4d_unpack_15 output encode num =
    unpack_rounds num 15
      (word 0 0x7FFF
        ∷ high 0 15 0x7FFF
        ∷ join 0 30 1 2 0x7FFF
        ∷ high 1 13 0x7FFF
        ∷ join 1 28 2 4 0x7FFF
        ∷ high 2 11 0x7FFF
        ∷ join 2 26 3 6 0x7FFF
        ∷ high 3 9 0x7FFF
        ∷ join 3 24 4 8 0x7FFF
        ∷ high 4 7 0x7FFF
        ∷ join 4 22 5 10 0x7FFF
        ∷ high 5 5 0x7FFF
        ∷ join 5 20 6 12 0x7FFF
        ∷ high 6 3 0x7FFF
        ∷ join 6 18 7 14 0x7FFF
        ∷ high 7 1 0x7FFF
        ∷ high 7 16 0x7FFF
        ∷ join 7 31 8 1 0x7FFF
        ∷ high 8 14 0x7FFF
        ∷ join 8 29 9 3 0x7FFF
        ∷ high 9 12 0x7FFF
        ∷ join 9 27 10 5 0x7FFF
        ∷ high 10 10 0x7FFF
        ∷ join 10 25 11 7 0x7FFF
        ∷ high 11 8 0x7FFF
        ∷ join 11 23 12 9 0x7FFF
        ∷ high 12 6 0x7FFF
        ∷ join 12 21 13 11 0x7FFF
        ∷ high 13 4 0x7FFF
        ∷ join 13 19 14 13 0x7FFF
        ∷ high 14 2 0x7FFF
        ∷ high 14 17 0x7FFF
        ∷ [])
      num encode 0 output

pub p4d_unpack_15-IsUnpacker : IsUnpacker 15 p4d_unpack_15
unfolding p4d_unpack_15 reads_from
p4d_unpack_15-IsUnpacker = unpack_rounds-IsUnpacker 15 _ refl

pub p4d_unpack_16 : Array → Words → ℕ → Array
p4d_unpack_16 output encode num =
    unpack_rounds num 16
      (word 0 0xFFFF
        ∷ high 0 16 0xFFFF
        ∷ word 1 0xFFFF
        ∷ high 1 16 0xFFFF
        ∷ word 2 0xFFFF
        ∷ high 2 16 0xFFFF
        ∷ word 3 0xFFFF
        ∷ high 3 16 0xFFFF
        ∷ word 4 0xFFFF
        ∷ high 4 16 0xFFFF
        ∷ word 5 0xFFFF
        ∷ high 5 16 0xFFFF
        ∷ word 6 0xFFFF
        ∷ high 6 16 0xFFFF
        ∷ word 7 0xFFFF
        ∷ high 7 16 0xFFFF
        ∷ word 8 0xFFFF
        ∷ high 8 16 0xFFFF
        ∷ word 9 0xFFFF
        ∷ high 9 16 0xFFFF
        ∷ word 10 0xFFFF
        ∷ high 10 16 0xFFFF
        ∷ word 11 0xFFFF
        ∷ high 11 16 0xFFFF
        ∷ word 12 0xFFFF
        ∷ high 12 16 0xFFFF
        ∷ word 13 0xFFFF
        ∷ high 13 16 0xFFFF
        ∷ word 14 0xFFFF
        ∷ high 14 16 0xFFFF
        ∷ word 15 0xFFFF
        ∷ high 15 16 0xFFFF
        ∷ [])
      num encode 0 output

pub p4d_unpack_16-IsUnpacker : IsUnpacker 16 p4d_unpack_16
unfolding p4d_unpack_16 reads_from
p4d_unpack_16-IsUnpacker = unpack_rounds-IsUnpacker 16 _ refl
