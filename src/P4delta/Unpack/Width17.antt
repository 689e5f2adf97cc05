-- ===== src/P4delta/Unpack/Width17.antt =====
-- `p4d_unpack_17` to `p4d_unpack_20` of p4delta/p4delta.cpp, each with the law that its table passes.
use sample_code.Common.{ℕ, [], ◌∷◌, refl}
use sample_code.Unpack.Stream.{Words, Array}
use sample_code.Unpack.Table.{word, high, join, reads_from}
use sample_code.Unpack.Rounds.{IsUnpacker, unpack_rounds, unpack_rounds-IsUnpacker}

pub p4d_unpack_17 : Array → Words → ℕ → Array
p4d_unpack_17 output encode num =
    unpack_rounds num 17
      (word 0 0x1FFFF
        ∷ join 0 17 1 15 0x1FFFF
        ∷ high 1 2 0x1FFFF
        ∷ join 1 19 2 13 0x1FFFF
        ∷ high 2 4 0x1FFFF
        ∷ join 2 21 3 11 0x1FFFF
        ∷ high 3 6 0x1FFFF
        ∷ join 3 23 4 9 0x1FFFF
        ∷ high 4 8 0x1FFFF
        ∷ join 4 25 5 7 0x1FFFF
        ∷ high 5 10 0x1FFFF
        ∷ join 5 27 6 5 0x1FFFF
        ∷ high 6 12 0x1FFFF
        ∷ join 6 29 7 3 0x1FFFF
        ∷ high 7 14 0x1FFFF
        ∷ join 7 31 8 1 0x1FFFF
        ∷ join 8 16 9 16 0x1FFFF
        ∷ high 9 1 0x1FFFF
        ∷ join 9 18 10 14 0x1FFFF
        ∷ high 10 3 0x1FFFF
        ∷ join 10 20 11 12 0x1FFFF
        ∷ high 11 5 0x1FFFF
        ∷ join 11 22 12 10 0x1FFFF
        ∷ high 12 7 0x1FFFF
        ∷ join 12 24 13 8 0x1FFFF
        ∷ high 13 9 0x1FFFF
        ∷ join 13 26 14 6 0x1FFFF
        ∷ high 14 11 0x1FFFF
        ∷ join 14 28 15 4 0x1FFFF
        ∷ high 15 13 0x1FFFF
        ∷ join 15 30 16 2 0x1FFFF
        ∷ high 16 15 0x1FFFF
        ∷ [])
      num encode 0 output

pub p4d_unpack_17-IsUnpacker : IsUnpacker 17 p4d_unpack_17
unfolding p4d_unpack_17 reads_from
p4d_unpack_17-IsUnpacker = unpack_rounds-IsUnpacker 17 _ refl

pub p4d_unpack_18 : Array → Words → ℕ → Array
p4d_unpack_18 output encode num =
    unpack_rounds num 18
      (word 0 0x3FFFF
        ∷ join 0 18 1 14 0x3FFFF
        ∷ high 1 4 0x3FFFF
        ∷ join 1 22 2 10 0x3FFFF
        ∷ high 2 8 0x3FFFF
        ∷ join 2 26 3 6 0x3FFFF
        ∷ high 3 12 0x3FFFF
        ∷ join 3 30 4 2 0x3FFFF
        ∷ join 4 16 5 16 0x3FFFF
        ∷ high 5 2 0x3FFFF
        ∷ join 5 20 6 12 0x3FFFF
        ∷ high 6 6 0x3FFFF
        ∷ join 6 24 7 8 0x3FFFF
        ∷ high 7 10 0x3FFFF
        ∷ join 7 28 8 4 0x3FFFF
        ∷ high 8 14 0x3FFFF
        ∷ word 9 0x3FFFF
        ∷ join 9 18 10 14 0x3FFFF
        ∷ high 10 4 0x3FFFF
        ∷ join 10 22 11 10 0x3FFFF
        ∷ high 11 8 0x3FFFF
        ∷ join 11 26 12 6 0x3FFFF
        ∷ high 12 12 0x3FFFF
        ∷ join 12 30 13 2 0x3FFFF
        ∷ join 13 16 14 16 0x3FFFF
        ∷ high 14 2 0x3FFFF
        ∷ join 14 20 15 12 0x3FFFF
        ∷ high 15 6 0x3FFFF
        ∷ join 15 24 16 8 0x3FFFF
        ∷ high 16 10 0x3FFFF
        ∷ join 16 28 17 4 0x3FFFF
        ∷ high 17 14 0x3FFFF
        ∷ [])
      num encode 0 output

pub p4d_unpack_18-IsUnpacker : IsUnpacker 18 p4d_unpack_18
unfolding p4d_unpack_18 reads_from
p4d_unpack_18-IsUnpacker = unpack_rounds-IsUnpacker 18 _ refl

pub p4d_unpack_19 : Array → Words → ℕ → Array
p4d_unpack_19 output encode num =
    unpack_rounds num 19
      (word 0 0x7FFFF
        ∷ join 0 19 1 13 0x7FFFF
        ∷ high 1 6 0x7FFFF
        ∷ join 1 25 2 7 0x7FFFF
        ∷ high 2 12 0x7FFFF
        ∷ join 2 31 3 1 0x7FFFF
        ∷ join 3 18 4 14 0x7FFFF
        ∷ high 4 5 0x7FFFF
        ∷ join 4 24 5 8 0x7FFFF
        ∷ high 5 11 0x7FFFF
        ∷ join 5 30 6 2 0x7FFFF
        ∷ join 6 17 7 15 0x7FFFF
        ∷ high 7 4 0x7FFFF
        ∷ join 7 23 8 9 0x7FFFF
        ∷ high 8 10 0x7FFFF
        ∷ join 8 29 9 3 0x7FFFF
        ∷ join 9 16 10 16 0x7FFFF
        ∷ high 10 3 0x7FFFF
        ∷ join 10 22 11 10 0x7FFFF
        ∷ high 11 9 0x7FFFF
        ∷ join 11 28 12 4 0x7FFFF
        ∷ join 12 15 13 17 0x7FFFF
        ∷ high 13 2 0x7FFFF
        ∷ join 13 21 14 11 0x7FFFF
        ∷ high 14 8 0x7FFFF
        ∷ join 14 27 15 5 0x7FFFF
        ∷ join 15 14 16 18 0x7FFFF
        ∷ high 16 1 0x7FFFF
        ∷ join 16 20 17 12 0x7FFFF
        ∷ high 17 7 0x7FFFF
        ∷ join 17 26 18 6 0x7FFFF
        ∷ high 18 13 0x7FFFF
        ∷ [])
      num encode 0 output

pub p4d_unpack_19-IsUnpacker : IsUnpacker 19 p4d_unpack_19
unfolding p4d_unpack_19 reads_from
p4d_unpack_19-IsUnpacker = unpack_rounds-IsUnpacker 19 _ refl

pub p4d_unpack_20 : Array → Words → ℕ → Array
p4d_unpack_20 output encode num =
    unpack_rounds num 20
      (word 0 0xFFFFF
        ∷ join 0 20 1 12 0xFFFFF
        ∷ high 1 8 0xFFFFF
        ∷ join 1 28 2 4 0xFFFFF
        ∷ join 2 16 3 16 0xFFFFF
        ∷ high 3 4 0xFFFFF
        ∷ join 3 24 4 8 0xFFFFF
        ∷ high 4 12 0xFFFFF
        ∷ word 5 0xFFFFF
        ∷ join 5 20 6 12 0xFFFFF
        ∷ high 6 8 0xFFFFF
        ∷ join 6 28 7 4 0xFFFFF
        ∷ join 7 16 8 16 0xFFFFF
        ∷ high 8 4 0xFFFFF
        ∷ join 8 24 9 8 0xFFFFF
        ∷ high 9 12 0xFFFFF
        ∷ word 10 0xFFFFF
        ∷ join 10 20 11 12 0xFFFFF
        ∷ high 11 8 0xFFFFF
        ∷ join 11 28 12 4 0xFFFFF
        ∷ join 12 16 13 16 0xFFFFF
        ∷ high 13 4 0xFFFFF
        ∷ join 13 24 14 8 0xFFFFF
        ∷ high 14 12 0xFFFFF
        ∷ word 15 0xFFFFF
        ∷ join 15 20 16 12 0xFFFFF
        ∷ high 16 8 0xFFFFF
        ∷ join 16 28 17 4 0xFFFFF
        ∷ join 17 16 18 16 0xFFFFF
        ∷ high 18 4 0xFFFFF
        ∷ join 18 24 19 8 0xFFFFF
        ∷ high 19 12 0xFFFFF
        ∷ [])
      num encode 0 output

pub p4d_unpack_20-IsUnpacker : IsUnpacker 20 p4d_unpack_20
unfolding p4d_unpack_20 reads_from
p4d_unpack_20-IsUnpacker = unpack_rounds-IsUnpacker 20 _ refl
