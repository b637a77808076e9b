-- ===== src/Qpack.antt =====
-- pkgs/microdoh3/src/qpack.rs: the QPACK encoder and decoder of a client that allows no dynamic table.
-- A position in a buffer is the list of the bytes from there on.
pub mod HuffmanTable
pub mod StaticTable
pub mod Error
pub mod PrefixInt
pub mod Huffman
pub mod Section
