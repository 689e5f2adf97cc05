-- ===== src/P4delta/Unpack/Width5.antt =====
-- `p4d_unpack_5` to `p4d_unpack_8` of p4delta/p4delta.cpp, each with the law that its table passes.
use sample_code.Common.{ℕ, [], ◌∷◌, refl}
use sample_code.Unpack.Stream.{Words, Array}
use sample_code.Unpack.Table.{word, high, join, reads_from}
use sample_code.Unpack.Rounds.{IsUnpacker, unpack_rounds, unpack_rounds-IsUnpacker}

pub p4d_unpack_5 : Array → Words → ℕ → Array
p4d_unpack_5 output encode num =
    unpack_rounds num 5
      (word 0 0x1F
        ∷ high 0 5 0x1F
        ∷ high 0 10 0x1F
        ∷ high 0 15 0x1F
        ∷ high 0 20 0x1F
        ∷ high 0 25 0x1F
        ∷ join 0 30 1 2 0x1F
        ∷ high 1 3 0x1F
        ∷ high 1 8 0x1F
        ∷ high 1 13 0x1F
        ∷ high 1 18 0x1F
        ∷ high 1 23 0x1F
        ∷ join 1 28 2 4 0x1F
        ∷ high 2 1 0x1F
        ∷ high 2 6 0x1F
        ∷ high 2 11 0x1F
        ∷ high 2 16 0x1F
        ∷ high 2 21 0x1F
        ∷ high 2 26 0x1F
        ∷ join 2 31 3 1 0x1F
        ∷ high 3 4 0x1F
        ∷ high 3 9 0x1F
        ∷ high 3 14 0x1F
        ∷ high 3 19 0x1F
        ∷ high 3 24 0x1F
        ∷ join 3 29 4 3 0x1F
        ∷ high 4 2 0x1F
        ∷ high 4 7 0x1F
        ∷ high 4 12 0x1F
        ∷ high 4 17 0x1F
        ∷ high 4 22 0x1F
        ∷ high 4 27 0x1F
        ∷ [])
      num encode 0 output

pub p4d_unpack_5-IsUnpacker : IsUnpacker 5 p4d_unpack_5
unfolding p4d_unpack_5 reads_from
p4d_unpack_5-IsUnpacker = unpack_rounds-IsUnpacker 5 _ refl

pub p4d_unpack_6 : Array → Words → ℕ → Array
p4d_unpack_6 output encode num =
    unpack_rounds num 6
      (word 0 0x3F
        ∷ high 0 6 0x3F
        ∷ high 0 12 0x3F
        ∷ high 0 18 0x3F
        ∷ high 0 24 0x3F
        ∷ join 0 30 1 2 0x3F
        ∷ high 1 4 0x3F
        ∷ high 1 10 0x3F
        ∷ high 1 16 0x3F
        ∷ high 1 22 0x3F
        ∷ join 1 28 2 4 0x3F
        ∷ high 2 2 0x3F
        ∷ high 2 8 0x3F
        ∷ high 2 14 0x3F
        ∷ high 2 20 0x3F
        ∷ high 2 26 0x3F
        ∷ word 3 0x3F
        ∷ high 3 6 0x3F
        ∷ high 3 12 0x3F
        ∷ high 3 18 0x3F
        ∷ high 3 24 0x3F
        ∷ join 3 30 4 2 0x3F
        ∷ high 4 4 0x3F
        ∷ high 4 10 0x3F
        ∷ high 4 16 0x3F
        ∷ high 4 22 0x3F
        ∷ join 4 28 5 4 0x3F
        ∷ high 5 2 0x3F
        ∷ high 5 8 0x3F
        ∷ high 5 14 0x3F
        ∷ high 5 20 0x3F
        ∷ high 5 26 0x3F
        ∷ [])
      num encode 0 output

pub p4d_unpack_6-IsUnpacker : IsUnpacker 6 p4d_unpack_6
unfolding p4d_unpack_6 reads_from
p4d_unpack_6-IsUnpacker = unpack_rounds-IsUnpacker 6 _ refl

pub p4d_unpack_7 : Array → Words → ℕ → Array
p4d_unpack_7 output encode num =
    unpack_rounds num 7
      (word 0 0x7F
        ∷ high 0 7 0x7F
        ∷ high 0 14 0x7F
        ∷ high 0 21 0x7F
        ∷ join 0 28 1 4 0x7F
        ∷ high 1 3 0x7F
        ∷ high 1 10 0x7F
        ∷ high 1 17 0x7F
        ∷ high 1 24 0x7F
        ∷ join 1 31 2 1 0x7F
        ∷ high 2 6 0x7F
        ∷ high 2 13 0x7F
        ∷ high 2 20 0x7F
        ∷ join 2 27 3 5 0x7F
        ∷ high 3 2 0x7F
        ∷ high 3 9 0x7F
        ∷ high 3 16 0x7F
        ∷ high 3 23 0x7F
        ∷ join 3 30 4 2 0x7F
        ∷ high 4 5 0x7F
        ∷ high 4 12 0x7F
        ∷ high 4 19 0x7F
        ∷ join 4 26 5 6 0x7F
        ∷ high 5 1 0x7F
        ∷ high 5 8 0x7F
        ∷ high 5 15 0x7F
        ∷ high 5 22 0x7F
        ∷ join 5 29 6 3 0x7F
        ∷ high 6 4 0x7F
        ∷ high 6 11 0x7F
        ∷ high 6 18 0x7F
        ∷ high 6 25 0x7F
        ∷ [])
      num encode 0 output

pub p4d_unpack_7-IsUnpacker : IsUnpacker 7 p4d_unpack_7
unfolding p4d_unpack_7 reads_from
p4d_unpack_7-IsUnpacker = unpack_rounds-IsUnpacker 7 _ refl

pub p4d_unpack_8 : Array → Words → ℕ → Array
p4d_unpack_8 output encode num =
    unpack_rounds num 8
      (word 0 0xFF
        ∷ high 0 8 0xFF
        ∷ high 0 16 0xFF
        ∷ high 0 24 0xFF
        ∷ word 1 0xFF
        ∷ high 1 8 0xFF
        ∷ high 1 16 0xFF
        ∷ high 1 24 0xFF
        ∷ word 2 0xFF
        ∷ high 2 8 0xFF
        ∷ high 2 16 0xFF
        ∷ high 2 24 0xFF
        ∷ word 3 0xFF
        ∷ high 3 8 0xFF
        ∷ high 3 16 0xFF
        ∷ high 3 24 0xFF
        ∷ word 4 0xFF
        ∷ high 4 8 0xFF
        ∷ high 4 16 0xFF
        ∷ high 4 24 0xFF
        ∷ word 5 0xFF
        ∷ high 5 8 0xFF
        ∷ high 5 16 0xFF
        ∷ high 5 24 0xFF
        ∷ word 6 0xFF
        ∷ high 6 8 0xFF
        ∷ high 6 16 0xFF
        ∷ high 6 24 0xFF
        ∷ word 7 0xFF
        ∷ high 7 8 0xFF
        ∷ high 7 16 0xFF
        ∷ high 7 24 0xFF
        ∷ [])
      num encode 0 output

pub p4d_unpack_8-IsUnpacker : IsUnpacker 8 p4d_unpack_8
unfolding p4d_unpack_8 reads_from
p4d_unpack_8-IsUnpacker = unpack_rounds-IsUnpacker 8 _ refl
