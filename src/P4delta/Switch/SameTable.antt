-- ===== src/P4delta/Switch/SameTable.antt =====
-- The two sets of unpacking functions, of p4delta.cpp and of IndexCompression.cpp.
use sample_code.Common.{ℕ, ◌≤◌, ◌≡◌, sym, ◌∙◌, some}
use sample_code.Unpack.Stream.{Array, Words, IsWords}
use sample_code.IndexCompression.Class.Table.{Unpacker, entry, unpacktable, unpacktable-IsUnpacker}
use sample_code.P4delta.Switch.{switch_unpack, switch_unpack-IsUnpacker}

-- For each width from 1 to 32, unpacktable of IndexCompression.cpp has a function that gives the
-- same output as the function that the switch of p4d_uncompress calls, from the same output
-- array, words of 32 bits and count.
pub switch_unpack-unpacktable :
    (w : ℕ)
    → 1 ≤ w
    → w ≤ 32
    → (f : Unpacker) × (entry unpacktable w ≡ some f)
      × ((output : Array) (encode : Words) (num i : ℕ)
          → IsWords encode
          → switch_unpack w output encode num i ≡ f output encode num i)
switch_unpack-unpacktable w pos wide =
    let (f, found, u) = unpacktable-IsUnpacker w pos wide in
    (
      f,
      found,
      λ output encode num i h.
          switch_unpack-IsUnpacker w pos wide output encode num i h ∙ sym (u output encode num i h),
    )
