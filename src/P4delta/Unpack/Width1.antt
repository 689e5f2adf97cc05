-- ===== src/P4delta/Unpack/Width1.antt =====
-- `p4d_unpack_1` to `p4d_unpack_4` of p4delta/p4delta.cpp, each with the law that its table passes.
use sample_code.Common.{ℕ, [], ◌∷◌, refl}
use sample_code.Unpack.Stream.{Words, Array}
use sample_code.Unpack.Table.{word, high, join, reads_from}
use sample_code.Unpack.Rounds.{IsUnpacker, unpack_rounds, unpack_rounds-IsUnpacker}

pub p4d_unpack_1 : Array → Words → ℕ → Array
p4d_unpack_1 output encode num =
    unpack_rounds num 1
      (word 0 0x1
        ∷ high 0 1 0x1
        ∷ high 0 2 0x1
        ∷ high 0 3 0x1
        ∷ high 0 4 0x1
        ∷ high 0 5 0x1
        ∷ high 0 6 0x1
        ∷ high 0 7 0x1
        ∷ high 0 8 0x1
        ∷ high 0 9 0x1
        ∷ high 0 10 0x1
        ∷ high 0 11 0x1
        ∷ high 0 12 0x1
        ∷ high 0 13 0x1
        ∷ high 0 14 0x1
        ∷ high 0 15 0x1
        ∷ high 0 16 0x1
        ∷ high 0 17 0x1
        ∷ high 0 18 0x1
        ∷ high 0 19 0x1
        ∷ high 0 20 0x1
        ∷ high 0 21 0x1
        ∷ high 0 22 0x1
        ∷ high 0 23 0x1
        ∷ high 0 24 0x1
        ∷ high 0 25 0x1
        ∷ high 0 26 0x1
        ∷ high 0 27 0x1
        ∷ high 0 28 0x1
        ∷ high 0 29 0x1
        ∷ high 0 30 0x1
        ∷ high 0 31 0x1
        ∷ [])
      num encode 0 output

pub p4d_unpack_1-IsUnpacker : IsUnpacker 1 p4d_unpack_1
unfolding p4d_unpack_1 reads_from
p4d_unpack_1-IsUnpacker = unpack_rounds-IsUnpacker 1 _ refl

pub p4d_unpack_2 : Array → Words → ℕ → Array
p4d_unpack_2 output encode num =
    unpack_rounds num 2
      (word 0 0x3
        ∷ high 0 2 0x3
        ∷ high 0 4 0x3
        ∷ high 0 6 0x3
        ∷ high 0 8 0x3
        ∷ high 0 10 0x3
        ∷ high 0 12 0x3
        ∷ high 0 14 0x3
        ∷ high 0 16 0x3
        ∷ high 0 18 0x3
        ∷ high 0 20 0x3
        ∷ high 0 22 0x3
        ∷ high 0 24 0x3
        ∷ high 0 26 0x3
        ∷ high 0 28 0x3
        ∷ high 0 30 0x3
        ∷ word 1 0x3
        ∷ high 1 2 0x3
        ∷ high 1 4 0x3
        ∷ high 1 6 0x3
        ∷ high 1 8 0x3
        ∷ high 1 10 0x3
        ∷ high 1 12 0x3
        ∷ high 1 14 0x3
        ∷ high 1 16 0x3
        ∷ high 1 18 0x3
        ∷ high 1 20 0x3
        ∷ high 1 22 0x3
        ∷ high 1 24 0x3
        ∷ high 1 26 0x3
        ∷ high 1 28 0x3
        ∷ high 1 30 0x3
        ∷ [])
      num encode 0 output

pub p4d_unpack_2-IsUnpacker : IsUnpacker 2 p4d_unpack_2
unfolding p4d_unpack_2 reads_from
p4d_unpack_2-IsUnpacker = unpack_rounds-IsUnpacker 2 _ refl

pub p4d_unpack_3 : Array → Words → ℕ → Array
p4d_unpack_3 output encode num =
    unpack_rounds num 3
      (word 0 0x7
        ∷ high 0 3 0x7
        ∷ high 0 6 0x7
        ∷ high 0 9 0x7
        ∷ high 0 12 0x7
        ∷ high 0 15 0x7
        ∷ high 0 18 0x7
        ∷ high 0 21 0x7
        ∷ high 0 24 0x7
        ∷ high 0 27 0x7
        ∷ join 0 30 1 2 0x7
        ∷ high 1 1 0x7
        ∷ high 1 4 0x7
        ∷ high 1 7 0x7
        ∷ high 1 10 0x7
        ∷ high 1 13 0x7
        ∷ high 1 16 0x7
        ∷ high 1 19 0x7
        ∷ high 1 22 0x7
        ∷ high 1 25 0x7
        ∷ high 1 28 0x7
        ∷ join 1 31 2 1 0x7
        ∷ high 2 2 0x7
        ∷ high 2 5 0x7
        ∷ high 2 8 0x7
        ∷ high 2 11 0x7
        ∷ high 2 14 0x7
        ∷ high 2 17 0x7
        ∷ high 2 20 0x7
        ∷ high 2 23 0x7
        ∷ high 2 26 0x7
        ∷ high 2 29 0x7
        ∷ [])
      num encode 0 output

pub p4d_unpack_3-IsUnpacker : IsUnpacker 3 p4d_unpack_3
unfolding p4d_unpack_3 reads_from
p4d_unpack_3-IsUnpacker = unpack_rounds-IsUnpacker 3 _ refl

pub p4d_unpack_4 : Array → Words → ℕ → Array
p4d_unpack_4 output encode num =
    unpack_rounds num 4
      (word 0 0xF
        ∷ high 0 4 0xF
        ∷ high 0 8 0xF
        ∷ high 0 12 0xF
        ∷ high 0 16 0xF
        ∷ high 0 20 0xF
        ∷ high 0 24 0xF
        ∷ high 0 28 0xF
        ∷ word 1 0xF
        ∷ high 1 4 0xF
        ∷ high 1 8 0xF
        ∷ high 1 12 0xF
        ∷ high 1 16 0xF
        ∷ high 1 20 0xF
        ∷ high 1 24 0xF
        ∷ high 1 28 0xF
        ∷ word 2 0xF
        ∷ high 2 4 0xF
        ∷ high 2 8 0xF
        ∷ high 2 12 0xF
        ∷ high 2 16 0xF
        ∷ high 2 20 0xF
        ∷ high 2 24 0xF
        ∷ high 2 28 0xF
        ∷ word 3 0xF
        ∷ high 3 4 0xF
        ∷ high 3 8 0xF
        ∷ high 3 12 0xF
        ∷ high 3 16 0xF
        ∷ high 3 20 0xF
        ∷ high 3 24 0xF
        ∷ high 3 28 0xF
        ∷ [])
      num encode 0 output

pub p4d_unpack_4-IsUnpacker : IsUnpacker 4 p4d_unpack_4
unfolding p4d_unpack_4 reads_from
p4d_unpack_4-IsUnpacker = unpack_rounds-IsUnpacker 4 _ refl
