-- ===== src/IndexCompression/Unpack/Width25.antt =====
-- `unpack_25` to `unpack_28` of p4delta/IndexCompression.cpp, each with the law that its table passes.
use sample_code.Common.{ℕ, [], ◌∷◌, refl}
use sample_code.Unpack.Stream.{Words, Array}
use sample_code.Unpack.Table.{word, high, join, reads_from}
use sample_code.Unpack.Rounds.{IsUnpacker, unpack_upto, unpack_upto-IsUnpacker}

pub unpack_25 : Array → Words → ℕ → Array
unpack_25 output encode n =
    unpack_upto n 25
      (word 0 0x1FFFFFF
        ∷ join 0 25 1 7 0x1FFFFFF
        ∷ join 1 18 2 14 0x1FFFFFF
        ∷ join 2 11 3 21 0x1FFFFFF
        ∷ high 3 4 0x1FFFFFF
        ∷ join 3 29 4 3 0x1FFFFFF
        ∷ join 4 22 5 10 0x1FFFFFF
        ∷ join 5 15 6 17 0x1FFFFFF
        ∷ join 6 8 7 24 0x1FFFFFF
        ∷ high 7 1 0x1FFFFFF
        ∷ join 7 26 8 6 0x1FFFFFF
        ∷ join 8 19 9 13 0x1FFFFFF
        ∷ join 9 12 10 20 0x1FFFFFF
        ∷ high 10 5 0x1FFFFFF
        ∷ join 10 30 11 2 0x1FFFFFF
        ∷ join 11 23 12 9 0x1FFFFFF
        ∷ join 12 16 13 16 0x1FFFFFF
        ∷ join 13 9 14 23 0x1FFFFFF
        ∷ high 14 2 0x1FFFFFF
        ∷ join 14 27 15 5 0x1FFFFFF
        ∷ join 15 20 16 12 0x1FFFFFF
        ∷ join 16 13 17 19 0x1FFFFFF
        ∷ high 17 6 0x1FFFFFF
        ∷ join 17 31 18 1 0x1FFFFFF
        ∷ join 18 24 19 8 0x1FFFFFF
        ∷ join 19 17 20 15 0x1FFFFFF
        ∷ join 20 10 21 22 0x1FFFFFF
        ∷ high 21 3 0x1FFFFFF
        ∷ join 21 28 22 4 0x1FFFFFF
        ∷ join 22 21 23 11 0x1FFFFFF
        ∷ join 23 14 24 18 0x1FFFFFF
        ∷ high 24 7 0x1FFFFFF
        ∷ [])
      32 n encode 0 output

pub unpack_25-IsUnpacker : IsUnpacker 25 unpack_25
unfolding unpack_25 reads_from
unpack_25-IsUnpacker = unpack_upto-IsUnpacker 25 _ refl

pub unpack_26 : Array → Words → ℕ → Array
unpack_26 output encode n =
    unpack_upto n 26
      (word 0 0x3FFFFFF
        ∷ join 0 26 1 6 0x3FFFFFF
        ∷ join 1 20 2 12 0x3FFFFFF
        ∷ join 2 14 3 18 0x3FFFFFF
        ∷ join 3 8 4 24 0x3FFFFFF
        ∷ high 4 2 0x3FFFFFF
        ∷ join 4 28 5 4 0x3FFFFFF
        ∷ join 5 22 6 10 0x3FFFFFF
        ∷ join 6 16 7 16 0x3FFFFFF
        ∷ join 7 10 8 22 0x3FFFFFF
        ∷ high 8 4 0x3FFFFFF
        ∷ join 8 30 9 2 0x3FFFFFF
        ∷ join 9 24 10 8 0x3FFFFFF
        ∷ join 10 18 11 14 0x3FFFFFF
        ∷ join 11 12 12 20 0x3FFFFFF
        ∷ high 12 6 0x3FFFFFF
        ∷ word 13 0x3FFFFFF
        ∷ join 13 26 14 6 0x3FFFFFF
        ∷ join 14 20 15 12 0x3FFFFFF
        ∷ join 15 14 16 18 0x3FFFFFF
        ∷ join 16 8 17 24 0x3FFFFFF
        ∷ high 17 2 0x3FFFFFF
        ∷ join 17 28 18 4 0x3FFFFFF
        ∷ join 18 22 19 10 0x3FFFFFF
        ∷ join 19 16 20 16 0x3FFFFFF
        ∷ join 20 10 21 22 0x3FFFFFF
        ∷ high 21 4 0x3FFFFFF
        ∷ join 21 30 22 2 0x3FFFFFF
        ∷ join 22 24 23 8 0x3FFFFFF
        ∷ join 23 18 24 14 0x3FFFFFF
        ∷ join 24 12 25 20 0x3FFFFFF
        ∷ high 25 6 0x3FFFFFF
        ∷ [])
      32 n encode 0 output

pub unpack_26-IsUnpacker : IsUnpacker 26 unpack_26
unfolding unpack_26 reads_from
unpack_26-IsUnpacker = unpack_upto-IsUnpacker 26 _ refl

pub unpack_27 : Array → Words → ℕ → Array
unpack_27 output encode n =
    unpack_upto n 27
      (word 0 0x7FFFFFF
        ∷ join 0 27 1 5 0x7FFFFFF
        ∷ join 1 22 2 10 0x7FFFFFF
        ∷ join 2 17 3 15 0x7FFFFFF
        ∷ join 3 12 4 20 0x7FFFFFF
        ∷ join 4 7 5 25 0x7FFFFFF
        ∷ high 5 2 0x7FFFFFF
        ∷ join 5 29 6 3 0x7FFFFFF
        ∷ join 6 24 7 8 0x7FFFFFF
        ∷ join 7 19 8 13 0x7FFFFFF
        ∷ join 8 14 9 18 0x7FFFFFF
        ∷ join 9 9 10 23 0x7FFFFFF
        ∷ high 10 4 0x7FFFFFF
        ∷ join 10 31 11 1 0x7FFFFFF
        ∷ join 11 26 12 6 0x7FFFFFF
        ∷ join 12 21 13 11 0x7FFFFFF
        ∷ join 13 16 14 16 0x7FFFFFF
        ∷ join 14 11 15 21 0x7FFFFFF
        ∷ join 15 6 16 26 0x7FFFFFF
        ∷ high 16 1 0x7FFFFFF
        ∷ join 16 28 17 4 0x7FFFFFF
        ∷ join 17 23 18 9 0x7FFFFFF
        ∷ join 18 18 19 14 0x7FFFFFF
        ∷ join 19 13 20 19 0x7FFFFFF
        ∷ join 20 8 21 24 0x7FFFFFF
        ∷ high 21 3 0x7FFFFFF
        ∷ join 21 30 22 2 0x7FFFFFF
        ∷ join 22 25 23 7 0x7FFFFFF
        ∷ join 23 20 24 12 0x7FFFFFF
        ∷ join 24 15 25 17 0x7FFFFFF
        ∷ join 25 10 26 22 0x7FFFFFF
        ∷ high 26 5 0x7FFFFFF
        ∷ [])
      32 n encode 0 output

pub unpack_27-IsUnpacker : IsUnpacker 27 unpack_27
unfolding unpack_27 reads_from
unpack_27-IsUnpacker = unpack_upto-IsUnpacker 27 _ refl

pub unpack_28 : Array → Words → ℕ → Array
unpack_28 output encode n =
    unpack_upto n 28
      (word 0 0xFFFFFFF
        ∷ join 0 28 1 4 0xFFFFFFF
        ∷ join 1 24 2 8 0xFFFFFFF
        ∷ join 2 20 3 12 0xFFFFFFF
        ∷ join 3 16 4 16 0xFFFFFFF
        ∷ join 4 12 5 20 0xFFFFFFF
        ∷ join 5 8 6 24 0xFFFFFFF
        ∷ high 6 4 0xFFFFFFF
        ∷ word 7 0xFFFFFFF
        ∷ join 7 28 8 4 0xFFFFFFF
        ∷ join 8 24 9 8 0xFFFFFFF
        ∷ join 9 20 10 12 0xFFFFFFF
        ∷ join 10 16 11 16 0xFFFFFFF
        ∷ join 11 12 12 20 0xFFFFFFF
        ∷ join 12 8 13 24 0xFFFFFFF
        ∷ high 13 4 0xFFFFFFF
        ∷ word 14 0xFFFFFFF
        ∷ join 14 28 15 4 0xFFFFFFF
        ∷ join 15 24 16 8 0xFFFFFFF
        ∷ join 16 20 17 12 0xFFFFFFF
        ∷ join 17 16 18 16 0xFFFFFFF
        ∷ join 18 12 19 20 0xFFFFFFF
        ∷ join 19 8 20 24 0xFFFFFFF
        ∷ high 20 4 0xFFFFFFF
        ∷ word 21 0xFFFFFFF
        ∷ join 21 28 22 4 0xFFFFFFF
        ∷ join 22 24 23 8 0xFFFFFFF
        ∷ join 23 20 24 12 0xFFFFFFF
        ∷ join 24 16 25 16 0xFFFFFFF
        ∷ join 25 12 26 20 0xFFFFFFF
        ∷ join 26 8 27 24 0xFFFFFFF
        ∷ high 27 4 0xFFFFFFF
        ∷ [])
      32 n encode 0 output

pub unpack_28-IsUnpacker : IsUnpacker 28 unpack_28
unfolding unpack_28 reads_from
unpack_28-IsUnpacker = unpack_upto-IsUnpacker 28 _ refl
