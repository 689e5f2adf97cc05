-- ===== src/IndexCompression/Unpack/Width29.antt =====
-- `unpack_29` to `unpack_32` of p4delta/IndexCompression.cpp, each with the law that its table passes.
use sample_code.Common.{ℕ, [], ◌∷◌, refl}
use sample_code.Unpack.Stream.{Words, Array}
use sample_code.Unpack.Table.{word, high, join, reads_from}
use sample_code.Unpack.Rounds.{IsUnpacker, unpack_upto, unpack_upto-IsUnpacker}

pub unpack_29 : Array → Words → ℕ → Array
unpack_29 output encode n =
    unpack_upto n 29
      (word 0 0x1FFFFFFF
        ∷ join 0 29 1 3 0x1FFFFFFF
        ∷ join 1 26 2 6 0x1FFFFFFF
        ∷ join 2 23 3 9 0x1FFFFFFF
        ∷ join 3 20 4 12 0x1FFFFFFF
        ∷ join 4 17 5 15 0x1FFFFFFF
        ∷ join 5 14 6 18 0x1FFFFFFF
        ∷ join 6 11 7 21 0x1FFFFFFF
        ∷ join 7 8 8 24 0x1FFFFFFF
        ∷ join 8 5 9 27 0x1FFFFFFF
        ∷ high 9 2 0x1FFFFFFF
        ∷ join 9 31 10 1 0x1FFFFFFF
        ∷ join 10 28 11 4 0x1FFFFFFF
        ∷ join 11 25 12 7 0x1FFFFFFF
        ∷ join 12 22 13 10 0x1FFFFFFF
        ∷ join 13 19 14 13 0x1FFFFFFF
        ∷ join 14 16 15 16 0x1FFFFFFF
        ∷ join 15 13 16 19 0x1FFFFFFF
        ∷ join 16 10 17 22 0x1FFFFFFF
        ∷ join 17 7 18 25 0x1FFFFFFF
        ∷ join 18 4 19 28 0x1FFFFFFF
        ∷ high 19 1 0x1FFFFFFF
        ∷ join 19 30 20 2 0x1FFFFFFF
        ∷ join 20 27 21 5 0x1FFFFFFF
        ∷ join 21 24 22 8 0x1FFFFFFF
        ∷ join 22 21 23 11 0x1FFFFFFF
        ∷ join 23 18 24 14 0x1FFFFFFF
        ∷ join 24 15 25 17 0x1FFFFFFF
        ∷ join 25 12 26 20 0x1FFFFFFF
        ∷ join 26 9 27 23 0x1FFFFFFF
        ∷ join 27 6 28 26 0x1FFFFFFF
        ∷ high 28 3 0x1FFFFFFF
        ∷ [])
      32 n encode 0 output

pub unpack_29-IsUnpacker : IsUnpacker 29 unpack_29
unfolding unpack_29 reads_from
unpack_29-IsUnpacker = unpack_upto-IsUnpacker 29 _ refl

pub unpack_30 : Array → Words → ℕ → Array
unpack_30 output encode n =
    unpack_upto n 30
      (word 0 0x3FFFFFFF
        ∷ join 0 30 1 2 0x3FFFFFFF
        ∷ join 1 28 2 4 0x3FFFFFFF
        ∷ join 2 26 3 6 0x3FFFFFFF
        ∷ join 3 24 4 8 0x3FFFFFFF
        ∷ join 4 22 5 10 0x3FFFFFFF
        ∷ join 5 20 6 12 0x3FFFFFFF
        ∷ join 6 18 7 14 0x3FFFFFFF
        ∷ join 7 16 8 16 0x3FFFFFFF
        ∷ join 8 14 9 18 0x3FFFFFFF
        ∷ join 9 12 10 20 0x3FFFFFFF
        ∷ join 10 10 11 22 0x3FFFFFFF
        ∷ join 11 8 12 24 0x3FFFFFFF
        ∷ join 12 6 13 26 0x3FFFFFFF
        ∷ join 13 4 14 28 0x3FFFFFFF
        ∷ high 14 2 0x3FFFFFFF
        ∷ word 15 0x3FFFFFFF
        ∷ join 15 30 16 2 0x3FFFFFFF
        ∷ join 16 28 17 4 0x3FFFFFFF
        ∷ join 17 26 18 6 0x3FFFFFFF
        ∷ join 18 24 19 8 0x3FFFFFFF
        ∷ join 19 22 20 10 0x3FFFFFFF
        ∷ join 20 20 21 12 0x3FFFFFFF
        ∷ join 21 18 22 14 0x3FFFFFFF
        ∷ join 22 16 23 16 0x3FFFFFFF
        ∷ join 23 14 24 18 0x3FFFFFFF
        ∷ join 24 12 25 20 0x3FFFFFFF
        ∷ join 25 10 26 22 0x3FFFFFFF
        ∷ join 26 8 27 24 0x3FFFFFFF
        ∷ join 27 6 28 26 0x3FFFFFFF
        ∷ join 28 4 29 28 0x3FFFFFFF
        ∷ high 29 2 0x3FFFFFFF
        ∷ [])
      32 n encode 0 output

pub unpack_30-IsUnpacker : IsUnpacker 30 unpack_30
unfolding unpack_30 reads_from
unpack_30-IsUnpacker = unpack_upto-IsUnpacker 30 _ refl

pub unpack_31 : Array → Words → ℕ → Array
unpack_31 output encode n =
    unpack_upto n 31
      (word 0 0x7FFFFFFF
        ∷ join 0 31 1 1 0x7FFFFFFF
        ∷ join 1 30 2 2 0x7FFFFFFF
        ∷ join 2 29 3 3 0x7FFFFFFF
        ∷ join 3 28 4 4 0x7FFFFFFF
        ∷ join 4 27 5 5 0x7FFFFFFF
        ∷ join 5 26 6 6 0x7FFFFFFF
        ∷ join 6 25 7 7 0x7FFFFFFF
        ∷ join 7 24 8 8 0x7FFFFFFF
        ∷ join 8 23 9 9 0x7FFFFFFF
        ∷ join 9 22 10 10 0x7FFFFFFF
        ∷ join 10 21 11 11 0x7FFFFFFF
        ∷ join 11 20 12 12 0x7FFFFFFF
        ∷ join 12 19 13 13 0x7FFFFFFF
        ∷ join 13 18 14 14 0x7FFFFFFF
        ∷ join 14 17 15 15 0x7FFFFFFF
        ∷ join 15 16 16 16 0x7FFFFFFF
        ∷ join 16 15 17 17 0x7FFFFFFF
        ∷ join 17 14 18 18 0x7FFFFFFF
        ∷ join 18 13 19 19 0x7FFFFFFF
        ∷ join 19 12 20 20 0x7FFFFFFF
        ∷ join 20 11 21 21 0x7FFFFFFF
        ∷ join 21 10 22 22 0x7FFFFFFF
        ∷ join 22 9 23 23 0x7FFFFFFF
        ∷ join 23 8 24 24 0x7FFFFFFF
        ∷ join 24 7 25 25 0x7FFFFFFF
        ∷ join 25 6 26 26 0x7FFFFFFF
        ∷ join 26 5 27 27 0x7FFFFFFF
        ∷ join 27 4 28 28 0x7FFFFFFF
        ∷ join 28 3 29 29 0x7FFFFFFF
        ∷ join 29 2 30 30 0x7FFFFFFF
        ∷ high 30 1 0x7FFFFFFF
        ∷ [])
      32 n encode 0 output

pub unpack_31-IsUnpacker : IsUnpacker 31 unpack_31
unfolding unpack_31 reads_from
unpack_31-IsUnpacker = unpack_upto-IsUnpacker 31 _ refl

pub unpack_32 : Array → Words → ℕ → Array
unpack_32 output encode n =
    unpack_upto n 32
      (word 0 0xFFFFFFFF
        ∷ word 1 0xFFFFFFFF
        ∷ word 2 0xFFFFFFFF
        ∷ word 3 0xFFFFFFFF
        ∷ word 4 0xFFFFFFFF
        ∷ word 5 0xFFFFFFFF
        ∷ word 6 0xFFFFFFFF
        ∷ word 7 0xFFFFFFFF
        ∷ word 8 0xFFFFFFFF
        ∷ word 9 0xFFFFFFFF
        ∷ word 10 0xFFFFFFFF
        ∷ word 11 0xFFFFFFFF
        ∷ word 12 0xFFFFFFFF
        ∷ word 13 0xFFFFFFFF
        ∷ word 14 0xFFFFFFFF
        ∷ word 15 0xFFFFFFFF
        ∷ word 16 0xFFFFFFFF
        ∷ word 17 0xFFFFFFFF
        ∷ word 18 0xFFFFFFFF
        ∷ word 19 0xFFFFFFFF
        ∷ word 20 0xFFFFFFFF
        ∷ word 21 0xFFFFFFFF
        ∷ word 22 0xFFFFFFFF
        ∷ word 23 0xFFFFFFFF
        ∷ word 24 0xFFFFFFFF
        ∷ word 25 0xFFFFFFFF
        ∷ word 26 0xFFFFFFFF
        ∷ word 27 0xFFFFFFFF
        ∷ word 28 0xFFFFFFFF
        ∷ word 29 0xFFFFFFFF
        ∷ word 30 0xFFFFFFFF
        ∷ word 31 0xFFFFFFFF
        ∷ [])
      32 n encode 0 output

pub unpack_32-IsUnpacker : IsUnpacker 32 unpack_32
unfolding unpack_32 reads_from
unpack_32-IsUnpacker = unpack_upto-IsUnpacker 32 _ refl
