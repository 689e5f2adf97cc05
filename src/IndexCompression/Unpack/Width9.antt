-- ===== src/IndexCompression/Unpack/Width9.antt =====
-- `unpack_9` to `unpack_12` of p4delta/IndexCompression.cpp, each with the law that its table passes.
use sample_code.Common.{ℕ, [], ◌∷◌, refl}
use sample_code.Unpack.Stream.{Words, Array}
use sample_code.Unpack.Table.{word, high, join, reads_from}
use sample_code.Unpack.Rounds.{IsUnpacker, unpack_upto, unpack_upto-IsUnpacker}

pub unpack_9 : Array → Words → ℕ → Array
unpack_9 output encode n =
    unpack_upto n 9
      (word 0 0x1FF
        ∷ high 0 9 0x1FF
        ∷ high 0 18 0x1FF
        ∷ join 0 27 1 5 0x1FF
        ∷ high 1 4 0x1FF
        ∷ high 1 13 0x1FF
        ∷ high 1 22 0x1FF
        ∷ join 1 31 2 1 0x1FF
        ∷ high 2 8 0x1FF
        ∷ high 2 17 0x1FF
        ∷ join 2 26 3 6 0x1FF
        ∷ high 3 3 0x1FF
        ∷ high 3 12 0x1FF
        ∷ high 3 21 0x1FF
        ∷ join 3 30 4 2 0x1FF
        ∷ high 4 7 0x1FF
        ∷ high 4 16 0x1FF
        ∷ join 4 25 5 7 0x1FF
        ∷ high 5 2 0x1FF
        ∷ high 5 11 0x1FF
        ∷ high 5 20 0x1FF
        ∷ join 5 29 6 3 0x1FF
        ∷ high 6 6 0x1FF
        ∷ high 6 15 0x1FF
        ∷ join 6 24 7 8 0x1FF
        ∷ high 7 1 0x1FF
        ∷ high 7 10 0x1FF
        ∷ high 7 19 0x1FF
        ∷ join 7 28 8 4 0x1FF
        ∷ high 8 5 0x1FF
        ∷ high 8 14 0x1FF
        ∷ high 8 23 0x1FF
        ∷ [])
      32 n encode 0 output

pub unpack_9-IsUnpacker : IsUnpacker 9 unpack_9
unfolding unpack_9 reads_from
unpack_9-IsUnpacker = unpack_upto-IsUnpacker 9 _ refl

pub unpack_10 : Array → Words → ℕ → Array
unpack_10 output encode n =
    unpack_upto n 10
      (word 0 0x3FF
        ∷ high 0 10 0x3FF
        ∷ high 0 20 0x3FF
        ∷ join 0 30 1 2 0x3FF
        ∷ high 1 8 0x3FF
        ∷ high 1 18 0x3FF
        ∷ join 1 28 2 4 0x3FF
        ∷ high 2 6 0x3FF
        ∷ high 2 16 0x3FF
        ∷ join 2 26 3 6 0x3FF
        ∷ high 3 4 0x3FF
        ∷ high 3 14 0x3FF
        ∷ join 3 24 4 8 0x3FF
        ∷ high 4 2 0x3FF
        ∷ high 4 12 0x3FF
        ∷ high 4 22 0x3FF
        ∷ word 5 0x3FF
        ∷ high 5 10 0x3FF
        ∷ high 5 20 0x3FF
        ∷ join 5 30 6 2 0x3FF
        ∷ high 6 8 0x3FF
        ∷ high 6 18 0x3FF
        ∷ join 6 28 7 4 0x3FF
        ∷ high 7 6 0x3FF
        ∷ high 7 16 0x3FF
        ∷ join 7 26 8 6 0x3FF
        ∷ high 8 4 0x3FF
        ∷ high 8 14 0x3FF
        ∷ join 8 24 9 8 0x3FF
        ∷ high 9 2 0x3FF
        ∷ high 9 12 0x3FF
        ∷ high 9 22 0x3FF
        ∷ [])
      32 n encode 0 output

pub unpack_10-IsUnpacker : IsUnpacker 10 unpack_10
unfolding unpack_10 reads_from
unpack_10-IsUnpacker = unpack_upto-IsUnpacker 10 _ refl

pub unpack_11 : Array → Words → ℕ → Array
unpack_11 output encode n =
    unpack_upto n 11
      (word 0 0x7FF
        ∷ high 0 11 0x7FF
        ∷ join 0 22 1 10 0x7FF
        ∷ high 1 1 0x7FF
        ∷ high 1 12 0x7FF
        ∷ join 1 23 2 9 0x7FF
        ∷ high 2 2 0x7FF
        ∷ high 2 13 0x7FF
        ∷ join 2 24 3 8 0x7FF
        ∷ high 3 3 0x7FF
        ∷ high 3 14 0x7FF
        ∷ join 3 25 4 7 0x7FF
        ∷ high 4 4 0x7FF
        ∷ high 4 15 0x7FF
        ∷ join 4 26 5 6 0x7FF
        ∷ high 5 5 0x7FF
        ∷ high 5 16 0x7FF
        ∷ join 5 27 6 5 0x7FF
        ∷ high 6 6 0x7FF
        ∷ high 6 17 0x7FF
        ∷ join 6 28 7 4 0x7FF
        ∷ high 7 7 0x7FF
        ∷ high 7 18 0x7FF
        ∷ join 7 29 8 3 0x7FF
        ∷ high 8 8 0x7FF
        ∷ high 8 19 0x7FF
        ∷ join 8 30 9 2 0x7FF
        ∷ high 9 9 0x7FF
        ∷ high 9 20 0x7FF
        ∷ join 9 31 10 1 0x7FF
        ∷ high 10 10 0x7FF
        ∷ high 10 21 0x7FF
        ∷ [])
      32 n encode 0 output

pub unpack_11-IsUnpacker : IsUnpacker 11 unpack_11
unfolding unpack_11 reads_from
unpack_11-IsUnpacker = unpack_upto-IsUnpacker 11 _ refl

pub unpack_12 : Array → Words → ℕ → Array
unpack_12 output encode n =
    unpack_upto n 12
      (word 0 0xFFF
        ∷ high 0 12 0xFFF
        ∷ join 0 24 1 8 0xFFF
        ∷ high 1 4 0xFFF
        ∷ high 1 16 0xFFF
        ∷ join 1 28 2 4 0xFFF
        ∷ high 2 8 0xFFF
        ∷ high 2 20 0xFFF
        ∷ word 3 0xFFF
        ∷ high 3 12 0xFFF
        ∷ join 3 24 4 8 0xFFF
        ∷ high 4 4 0xFFF
        ∷ high 4 16 0xFFF
        ∷ join 4 28 5 4 0xFFF
        ∷ high 5 8 0xFFF
        ∷ high 5 20 0xFFF
        ∷ word 6 0xFFF
        ∷ high 6 12 0xFFF
        ∷ join 6 24 7 8 0xFFF
        ∷ high 7 4 0xFFF
        ∷ high 7 16 0xFFF
        ∷ join 7 28 8 4 0xFFF
        ∷ high 8 8 0xFFF
        ∷ high 8 20 0xFFF
        ∷ word 9 0xFFF
        ∷ high 9 12 0xFFF
        ∷ join 9 24 10 8 0xFFF
        ∷ high 10 4 0xFFF
        ∷ high 10 16 0xFFF
        ∷ join 10 28 11 4 0xFFF
        ∷ high 11 8 0xFFF
        ∷ high 11 20 0xFFF
        ∷ [])
      32 n encode 0 output

pub unpack_12-IsUnpacker : IsUnpacker 12 unpack_12
unfolding unpack_12 reads_from
unpack_12-IsUnpacker = unpack_upto-IsUnpacker 12 _ refl
