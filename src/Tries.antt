-- ===== src/Tries.antt =====
-- radix_tree.cpp, array_struct_trie.cpp and list_struct_trie.cpp: three tries. A text is the list of
-- its bytes before the 0. `char` is signed, so a byte of 128 or more indexes outside an array of 256.
pub mod Words
pub mod Array
pub mod Siblings
pub mod Agree
pub mod Radix
