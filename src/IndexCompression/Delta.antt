-- ===== src/IndexCompression/Delta.antt =====
-- `getDeltaList` and `deDelta`: document ids to differences and back.
pub mod RoundTrip
use sample_code.Common.{ℕ, zero, suc, ◌+◌, ◌-◌, ◌%◌, ◌^◌, List, [], ◌∷◌, update}
use sample_code.Unpack.Stream.{Array}

-- The list in place of the differences, and `m_lastEncode` after the loop.
unfoldable pub get_delta_list : ℕ → List ℕ → List ℕ × ℕ
get_delta_list last_encode [] = ([], last_encode)
get_delta_list last_encode (x ∷ xs) =
    let (ys, last) = get_delta_list x xs in ((x + 2 ^ 32 - last_encode) % 2 ^ 32 ∷ ys, last)

-- `left` rounds from index `i` on; the result has `m_lastDecode`.
unfoldable pub de_delta : ℕ → ℕ → ℕ → Array → Array × ℕ
de_delta zero i last_decode a = (a, last_decode)
de_delta (suc left) i last_decode a =
    let v = (a i + last_decode) % 2 ^ 32 in de_delta left (i + 1) v (update a i v)
