-- ===== src/IndexCompression/Unpack/Width21.antt =====
-- `unpack_21` to `unpack_24` of p4delta/IndexCompression.cpp, each with the law that its table passes.
use sample_code.Common.{ℕ, [], ◌∷◌, refl}
use sample_code.Unpack.Stream.{Words, Array}
use sample_code.Unpack.Table.{word, high, join, reads_from}
use sample_code.Unpack.Rounds.{IsUnpacker, unpack_upto, unpack_upto-IsUnpacker}

pub unpack_21 : Array → Words → ℕ → Array
unpack_21 output encode n =
    unpack_upto n 21
      (word 0 0x1FFFFF
        ∷ join 0 21 1 11 0x1FFFFF
        ∷ high 1 10 0x1FFFFF
        ∷ join 1 31 2 1 0x1FFFFF
        ∷ join 2 20 3 12 0x1FFFFF
        ∷ high 3 9 0x1FFFFF
        ∷ join 3 30 4 2 0x1FFFFF
        ∷ join 4 19 5 13 0x1FFFFF
        ∷ high 5 8 0x1FFFFF
        ∷ join 5 29 6 3 0x1FFFFF
        ∷ join 6 18 7 14 0x1FFFFF
        ∷ high 7 7 0x1FFFFF
        ∷ join 7 28 8 4 0x1FFFFF
        ∷ join 8 17 9 15 0x1FFFFF
        ∷ high 9 6 0x1FFFFF
        ∷ join 9 27 10 5 0x1FFFFF
        ∷ join 10 16 11 16 0x1FFFFF
        ∷ high 11 5 0x1FFFFF
        ∷ join 11 26 12 6 0x1FFFFF
        ∷ join 12 15 13 17 0x1FFFFF
        ∷ high 13 4 0x1FFFFF
        ∷ join 13 25 14 7 0x1FFFFF
        ∷ join 14 14 15 18 0x1FFFFF
        ∷ high 15 3 0x1FFFFF
        ∷ join 15 24 16 8 0x1FFFFF
        ∷ join 16 13 17 19 0x1FFFFF
        ∷ high 17 2 0x1FFFFF
        ∷ join 17 23 18 9 0x1FFFFF
        ∷ join 18 12 19 20 0x1FFFFF
        ∷ high 19 1 0x1FFFFF
        ∷ join 19 22 20 10 0x1FFFFF
        ∷ high 20 11 0x1FFFFF
        ∷ [])
      32 n encode 0 output

pub unpack_21-IsUnpacker : IsUnpacker 21 unpack_21
unfolding unpack_21 reads_from
unpack_21-IsUnpacker = unpack_upto-IsUnpacker 21 _ refl

pub unpack_22 : Array → Words → ℕ → Array
unpack_22 output encode n =
    unpack_upto n 22
      (word 0 0x3FFFFF
        ∷ join 0 22 1 10 0x3FFFFF
        ∷ join 1 12 2 20 0x3FFFFF
        ∷ high 2 2 0x3FFFFF
        ∷ join 2 24 3 8 0x3FFFFF
        ∷ join 3 14 4 18 0x3FFFFF
        ∷ high 4 4 0x3FFFFF
        ∷ join 4 26 5 6 0x3FFFFF
        ∷ join 5 16 6 16 0x3FFFFF
        ∷ high 6 6 0x3FFFFF
        ∷ join 6 28 7 4 0x3FFFFF
        ∷ join 7 18 8 14 0x3FFFFF
        ∷ high 8 8 0x3FFFFF
        ∷ join 8 30 9 2 0x3FFFFF
        ∷ join 9 20 10 12 0x3FFFFF
        ∷ high 10 10 0x3FFFFF
        ∷ word 11 0x3FFFFF
        ∷ join 11 22 12 10 0x3FFFFF
        ∷ join 12 12 13 20 0x3FFFFF
        ∷ high 13 2 0x3FFFFF
        ∷ join 13 24 14 8 0x3FFFFF
        ∷ join 14 14 15 18 0x3FFFFF
        ∷ high 15 4 0x3FFFFF
        ∷ join 15 26 16 6 0x3FFFFF
        ∷ join 16 16 17 16 0x3FFFFF
        ∷ high 17 6 0x3FFFFF
        ∷ join 17 28 18 4 0x3FFFFF
        ∷ join 18 18 19 14 0x3FFFFF
        ∷ high 19 8 0x3FFFFF
        ∷ join 19 30 20 2 0x3FFFFF
        ∷ join 20 20 21 12 0x3FFFFF
        ∷ high 21 10 0x3FFFFF
        ∷ [])
      32 n encode 0 output

pub unpack_22-IsUnpacker : IsUnpacker 22 unpack_22
unfolding unpack_22 reads_from
unpack_22-IsUnpacker = unpack_upto-IsUnpacker 22 _ refl

pub unpack_23 : Array → Words → ℕ → Array
unpack_23 output encode n =
    unpack_upto n 23
      (word 0 0x7FFFFF
        ∷ join 0 23 1 9 0x7FFFFF
        ∷ join 1 14 2 18 0x7FFFFF
        ∷ high 2 5 0x7FFFFF
        ∷ join 2 28 3 4 0x7FFFFF
        ∷ join 3 19 4 13 0x7FFFFF
        ∷ join 4 10 5 22 0x7FFFFF
        ∷ high 5 1 0x7FFFFF
        ∷ join 5 24 6 8 0x7FFFFF
        ∷ join 6 15 7 17 0x7FFFFF
        ∷ high 7 6 0x7FFFFF
        ∷ join 7 29 8 3 0x7FFFFF
        ∷ join 8 20 9 12 0x7FFFFF
        ∷ join 9 11 10 21 0x7FFFFF
        ∷ high 10 2 0x7FFFFF
        ∷ join 10 25 11 7 0x7FFFFF
        ∷ join 11 16 12 16 0x7FFFFF
        ∷ high 12 7 0x7FFFFF
        ∷ join 12 30 13 2 0x7FFFFF
        ∷ join 13 21 14 11 0x7FFFFF
        ∷ join 14 12 15 20 0x7FFFFF
        ∷ high 15 3 0x7FFFFF
        ∷ join 15 26 16 6 0x7FFFFF
        ∷ join 16 17 17 15 0x7FFFFF
        ∷ high 17 8 0x7FFFFF
        ∷ join 17 31 18 1 0x7FFFFF
        ∷ join 18 22 19 10 0x7FFFFF
        ∷ join 19 13 20 19 0x7FFFFF
        ∷ high 20 4 0x7FFFFF
        ∷ join 20 27 21 5 0x7FFFFF
        ∷ join 21 18 22 14 0x7FFFFF
        ∷ high 22 9 0x7FFFFF
        ∷ [])
      32 n encode 0 output

pub unpack_23-IsUnpacker : IsUnpacker 23 unpack_23
unfolding unpack_23 reads_from
unpack_23-IsUnpacker = unpack_upto-IsUnpacker 23 _ refl

pub unpack_24 : Array → Words → ℕ → Array
unpack_24 output encode n =
    unpack_upto n 24
      (word 0 0xFFFFFF
        ∷ join 0 24 1 8 0xFFFFFF
        ∷ join 1 16 2 16 0xFFFFFF
        ∷ high 2 8 0xFFFFFF
        ∷ word 3 0xFFFFFF
        ∷ join 3 24 4 8 0xFFFFFF
        ∷ join 4 16 5 16 0xFFFFFF
        ∷ high 5 8 0xFFFFFF
        ∷ word 6 0xFFFFFF
        ∷ join 6 24 7 8 0xFFFFFF
        ∷ join 7 16 8 16 0xFFFFFF
        ∷ high 8 8 0xFFFFFF
        ∷ word 9 0xFFFFFF
        ∷ join 9 24 10 8 0xFFFFFF
        ∷ join 10 16 11 16 0xFFFFFF
        ∷ high 11 8 0xFFFFFF
        ∷ word 12 0xFFFFFF
        ∷ join 12 24 13 8 0xFFFFFF
        ∷ join 13 16 14 16 0xFFFFFF
        ∷ high 14 8 0xFFFFFF
        ∷ word 15 0xFFFFFF
        ∷ join 15 24 16 8 0xFFFFFF
        ∷ join 16 16 17 16 0xFFFFFF
        ∷ high 17 8 0xFFFFFF
        ∷ word 18 0xFFFFFF
        ∷ join 18 24 19 8 0xFFFFFF
        ∷ join 19 16 20 16 0xFFFFFF
        ∷ high 20 8 0xFFFFFF
        ∷ word 21 0xFFFFFF
        ∷ join 21 24 22 8 0xFFFFFF
        ∷ join 22 16 23 16 0xFFFFFF
        ∷ high 23 8 0xFFFFFF
        ∷ [])
      32 n encode 0 output

pub unpack_24-IsUnpacker : IsUnpacker 24 unpack_24
unfolding unpack_24 reads_from
unpack_24-IsUnpacker = unpack_upto-IsUnpacker 24 _ refl
