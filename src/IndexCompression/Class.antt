-- ===== src/IndexCompression/Class.antt =====
-- The class `IndexCompression`: its members and its public methods. `bsr` is the instruction
-- `bsrl`; `wide` is what `1u << 32` gives, which C++ leaves undefined. The scratch member
-- `m_bitsList`, which `getBitSize` clears on each call, is local to it here.
pub mod Table
pub mod Exceptions
pub mod Compression
pub mod Decompression
pub mod RoundTrip
pub mod Room
pub mod Carry
use sample_code.Common.{
  ℕ, zero, suc, ◌+◌, ◌-◌, ◌*◌, ◌/◌, ◌%◌, ◌^◌, ltb, leb, ◌||◌, ◌&&◌, if◌then◌else◌, Option, none,
  some, List, length, update,
}
use sample_code.Words.Bytes.{Memory}
use sample_code.Unpack.Stream.{Array, Words}
use sample_code.Common.Outcome.{Outcome, done, fault, stuck, ◌>>=◌}
use sample_code.Codec.Encoder.{encode_values, close}
use sample_code.Codec.Codes.{codes}
use sample_code.IndexCompression.Delta.{get_delta_list, de_delta}
use sample_code.IndexCompression.BitSize.{get_bit_size}
use sample_code.IndexCompression.Class.Table.{Unpacker, entry, unpacktable}
use sample_code.IndexCompression.Class.Exceptions.{Tail, index_exceptions, nextexcept}

pub record IndexCompression : Type 0 where
  pub m_buf : Memory
  pub m_unpack_buf : Memory
  pub m_offset : ℕ
  pub m_result_list : Array
  pub m_last_encode : ℕ
  pub m_last_decode : ℕ

-- The constructor. It leaves the arrays as they are found.
unfoldable pub construct : Memory → Memory → Array → IndexCompression
construct buf unpack_buf result_list = record {
  m_buf = buf;
  m_unpack_buf = unpack_buf;
  m_offset = 0;
  m_result_list = result_list;
  m_last_encode = 0;
  m_last_decode = 0;
}

unfoldable pub get_comp_size : IndexCompression → ℕ
get_comp_size s = s.m_offset

-- `(1u << bitSize) - 1`
abbrev pub maxentry_of : ℕ → ℕ → ℕ
maxentry_of wide bit_size =
    if ltb bit_size 32 then 2 ^ bit_size - 1 else (wide + 2 ^ 32 - 1) % 2 ^ 32

-- `int(ceil(float(bitSize * (size + 1)) / 8.0))`; the product is below 2 ^ 24, so the float is exact.
abbrev pub ceil_offset : ℕ → ℕ → ℕ
ceil_offset bit_size size = (bit_size * (size + 1) + 7) / 8

unfoldable pub clear_encode : IndexCompression → IndexCompression
clear_encode s = record s { m_last_encode = 0 }

unfoldable pub clear_decode : IndexCompression → IndexCompression
clear_decode s = record s { m_last_decode = 0 }

-- `memset(m, 0, size)`
unfoldable pub memset : ℕ → Memory → Memory
memset size m a = if ltb a size then 0 else m a

module _ (bsr : ℕ → ℕ) (wide : ℕ) where
  unfoldable pub encode : List ℕ → ℕ → ℕ → IndexCompression → IndexCompression
  encode delta_list bit_size ex_byte s =
      let maxentry = maxentry_of wide bit_size in
      let ceil = ceil_offset bit_size (length delta_list) in
      let ops = index_exceptions ex_byte in
      let run = encode_values ops 1 bit_size maxentry delta_list (record {
        buf = update s.m_buf 0 (bit_size % 2 ^ 8);
        excepts = record { excepts = 1 + ceil; m_offset = s.m_offset + 1 + ceil };
        last = none;
        idx = 0;
      }) in
      record s {
        m_buf = close ops 1 bit_size maxentry run.last run.buf;
        m_offset = run.excepts.m_offset;
      }

  -- The object and the caller's list, which now holds the differences.
  unfoldable pub compression : IndexCompression → List ℕ → ℕ → Outcome (IndexCompression × List ℕ)
  compression s doc_list ex_byte = do
    let (delta_list, last) = get_delta_list 0 doc_list
    let s' = record s { m_offset = 0; m_buf = memset 1024 s.m_buf; m_last_encode = last }
    bit_size ← get_bit_size bsr delta_list
    done (encode delta_list bit_size ex_byte s', delta_list)

-- The exceptions' loop of `decompression`, over the bit patterns of the ints `i` and `shift`. A
-- negative `shift` passes the test, and a place outside `m_resultList` is a fault.
unfoldable pub restore : (ℕ → ℕ × ℕ) → ℕ → ℕ → ℕ → ℕ → ℕ → ℕ → Array → Outcome (Array × ℕ)
restore next zero block_size i nx shift ptr res = stuck
restore next (suc fuel) block_size i nx shift ptr res =
    let i' = (i + nx) % 2 ^ 32 in
    let tmp = (res i' + 1) % 2 ^ 32 in
    let (v, ptr') = next ptr in
    let rest =
      restore next fuel block_size i' tmp ((shift + tmp) % 2 ^ 32) ptr' (update res i' v) in
    if leb (2 ^ 31) shift || leb shift block_size
    then (if ltb i' 128 then rest else fault)
    else done (res, ptr)

-- `m_unpackBuf` after its `memset` and the copy of the fields.
unfoldable pub copy_codes : Memory → ℕ → Memory → Memory
unfolding memset
copy_codes com_buf ceil m_unpack_buf a =
    if ltb a ceil then com_buf (a + 1) else memset 512 m_unpack_buf a

-- `unpacktable[bitSize-1](m_resultList,codes,unpackNum)`
unfoldable pub unpack_codes : Option Unpacker → Array → Words → ℕ → Outcome Array
unpack_codes none res words unpack_num = fault
unpack_codes (some f) res words unpack_num =
    if ltb 128 unpack_num then fault else done (f res words unpack_num)

-- The object, whose result is `m_resultList + 1`.
unfoldable pub decompression : IndexCompression → Memory → ℕ → ℕ → Outcome IndexCompression
decompression s com_buf block_size ex_byte = do
  let bit_size = com_buf 0
  let ceil = ceil_offset bit_size block_size
  let short = ltb block_size 127
  let unpack_num = (block_size / 32 + 1) * 32
  let unpack_buf = if short then copy_codes com_buf ceil s.m_unpack_buf else s.m_unpack_buf
  let words = if short then codes unpack_buf 0 else codes com_buf 1
  res ←
      if short && ltb 512 ceil
      then fault
      else unpack_codes (entry unpacktable bit_size) s.m_result_list words unpack_num
  (res', ptr) ←
      restore (nextexcept ex_byte com_buf) (block_size + 1) block_size 0 (res 0) (res 0) (1 + ceil)
        res
  let (result, last) = de_delta block_size 1 s.m_last_decode res'
  done (record s { m_unpack_buf = unpack_buf; m_result_list = result; m_last_decode = last })
