-- ===== src/Lib.antt =====
-- Verification of the sample programs in this repository: the block codec of p4delta/, the consistent
-- hash of consistent_hash/, the searches of the_art_of_c++/, the tries, and the cache
-- of lru_cache.cpp.
--
-- The block codec.
-- The codec packs up to 127 ascending document ids into bytes. The ids become differences of
-- neighbours; a width is chosen that nine tenths of the differences fit; byte 0 of the block is the
-- width, and from byte 1 on there is one field of that width for each difference, after a field 0.
-- A difference that does not fit is an exception: it is appended behind the fields, and its own field
-- holds the distance to the next exception. Field 0 is the distance to the first one, and the
-- largest number of the width ends the chain. There are two versions:
--
--   p4delta/IndexCompression.h, .cpp: the class IndexCompression, with its buffers as members and
--     exceptions of `exByte` bytes. Modules IndexCompression and its children: Delta
--     (getDeltaList, deDelta), BitSize (getBits, getBitSize), Unpack (unpack_1 to unpack_32),
--     Class (the members, the public methods, encode), Class/Table (unpacktable),
--     Class/Exceptions (addexcept, nextexcept). The proofs are in Class/Compression,
--     Class/Decompression, Class/RoundTrip, Class/Room and Class/Carry.
--   p4delta/p4delta.h, .cpp: functions on the caller's arrays, with exceptions as variable-length
--     integers. Modules P4delta and its children: Delta (p4d_delta, p4d_deDelta, the last loop of
--     p4d_uncompress), Unpack (p4d_unpack_1 to p4d_unpack_32), Switch (the switch of
--     p4d_uncompress), Varint (the exceptions), Block (p4d_getBitSize, p4d_compress,
--     p4d_uncompress).
--
-- What the two have in common is in Codec: Writeto (writeto, p4d_writeto), Encoder (the loop of
-- encode and of p4d_compress, for any store of exceptions), Patch (the loop of p4d_uncompress over
-- the exceptions), Codes (the cast of the bytes to words), and Block, which says what a block is.
-- Encoder/Laws states what the encoder needs of a store of exceptions; both versions fill it in.
-- Words is memory: bytes by address, words of 32 bits in little-endian order, and the bits of a
-- number. Unpack has the loops of the unpacking functions, whose 32 assignments are a table of the
-- right sides, word for word as the source has them. Common has the shared names and lists.
-- Tests has concrete machines and inputs.
--
-- The consistent hash.
-- consistent_hash/chash.h and chash.cpp: the class hash keeps a list of servers and a ring of 16384
-- virtual nodes, the multiples of 2^18 on uint32. A server gets the 64 virtual nodes that the hashes of
-- its name and a number fall on; flush gives each of the others the owner nearest before it; location
-- looks up the owner of a key's virtual node. Module ConsistentHash has the class; its children have
-- Slots (the arithmetic of the ring), Owner (what flush is to compute), Flush and Fill (its two loops),
-- Loops (the loops of addServerLL and removeServerLL), Addition (addServer), Removal
-- (removeServer), Consistent and Reached (what every state keeps, and the constructor), Location
-- (location). The record Lbase holds what is called of lbase, with the conversion of the port.
-- The fuel of each loop around the ring is the number of virtual nodes; a turn uses one unit.
--
-- The searches.
-- the_art_of_c++/deep_first.cpp, hill_climbing.cpp, least_cost.cpp, node_removed.cpp and
-- breadth_first.cpp look for flights from one place to another, and are copies of each other but
-- for find and for the loop around findroute. Module Search: Flights (the database, match, and the
-- three versions of find), Finders (what findroute needs of find, as a record that each version
-- fills in), Route (findroute and its stack), LeastCost (the class Optimal and its loop),
-- NodeRemoval (resetAllSkip, remove and the loop of node_removed.cpp), BreadthFirst (findroute and
-- resetSkip of breadth_first.cpp). Route/Rule is the induction on the turns of findroute, and
-- Route/Trail says what a stack stands for, and Route/Journey what a route in the order of its flights. findroute gets as much fuel as its measure, twice the
-- flights that are not marked and the entries on the stack: each turn marks a flight and adds an
-- entry, or takes one off. The loops around it get any fuel above the number of flights that are
-- not marked, or not taken out. Distances are natural numbers, and the sums do not wrap. A stack is
-- a list with its top first.
--
-- The tries.
-- radix_tree.cpp, array_struct_trie.cpp and list_struct_trie.cpp keep texts in trees: the first with an
-- index for each text, the others with the number of times that it was inserted (count) and the number
-- of insertions that went on behind it (pass). Module Tries: Words (what the counts are to be),
-- Array (array_struct_trie.cpp), Siblings (list_struct_trie.cpp), Agree (both), Radix
-- (radix_init, radix_insert, radix_find) and Radix/Destroy (radix_destroy, by the number of nodes
-- that it deletes). A text is the list of its bytes, a node that is changed is a new node, since no
-- two pointers lead to the same one, and a null pointer is a constructor. The loops of main get the
-- list of the words: their splitting by strsep, in a buffer of 128 bytes, is left out. The recursion is on
-- the text or the trie, without fuel. The counts are natural numbers and do not wrap.
--
-- The cache.
-- lru_cache.cpp keeps a bounded table whose entries stand in the order of their last use. Module
-- LruCache: the record UtHash is the hash table of uthash.h, with its documented laws; Order has
-- lists of entries without a key twice, and Laws the two operations.
--
-- Numbers are natural numbers; uint32_t keeps its wrap-around as `% 2 ^ 32`, and an entry of the
-- table of getBitSize as `% 2 ^ 8`. An int that may become negative is kept as its bit pattern in
-- the loops over the exceptions. Memory and arrays are functions of the index, and an Outcome says
-- that a run ends (done), leaves an array or lacks a return (fault) or ran out of fuel (stuck). The
-- fuel of the unpacking loops is the count that they are given, that of the walk over the bit sizes
-- is the 32 entries of its table, and that of the loops over the exceptions is the number of values
-- and one more. Each turn of a loop uses one unit, and passes at least one value, entry or block,
-- but for a turn of the loops over the exceptions at a value 2^32 - 1: the distance behind it wraps to
-- 0, the loop stays where it is, and the model may run out of fuel. No block of IsBlock has that value
-- at an exception's field. The index into the table of getBits and getBitSize is not tested in
-- count_bits, as it is below the table's size for every bsr of IsBsr; p4d_count tests it.
--
-- Parameters, for what is not in the repository: the instruction bsrl, the value of `1u << 32`,
-- align_int of util/common.h, varint_encode_uint32 and varint_decode_uint32 of util/varint.h. What
-- is relied on is stated by IsBsr, IsAlign and IsVarint. lbase is the record Lbase, uthash.h the
-- record UtHash. The product `size * BOUND_RATIO` is `size * 9 / 10`, and `ceil` of the float
-- offset is exact at the sizes of a block.
--
-- Not modelled: the other samples. The sockets, epoll, dlopen, mmap and profiling samples are calls
-- of the system; sigsegv/ is another project's crash handler. cache_master.cpp, the range array,
-- the reference counts and the package handling have logic of their own, which is outside this
-- library. What the programs print is left out, with do_travel of the tries.
pub mod Common
pub mod Words
pub mod Unpack
pub mod P4delta
pub mod IndexCompression
pub mod Codec
pub mod Search
pub mod ConsistentHash
pub mod Tries
pub mod LruCache
pub mod Tests
