-- ===== src/WriteOnce.antt =====
-- The write-once table of src/table-backend-writeonce.cc: blocks of sorted entries, an index of the
-- blocks, a builder that writes them to a file, and a reader that moves over them.
pub mod Codec
pub mod File
pub mod Block
pub mod Index
pub mod Builder
pub mod Cursor
pub mod Sorting
pub mod Reader
pub mod Table
pub mod Older
