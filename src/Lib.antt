-- ===== src/Lib.antt =====
-- Verification of cantera-table, a C++ library that stores sorted tables of keys and time series and
-- answers queries over them.
--
-- The program's parts. A value of a table is an array of `ca_offset_score` records. src/format.cc
-- writes such arrays and src/parse.cc reads them; both use the integer codec and the run-length codec
-- (src/rle.c). src/table-backend-writeonce.cc keeps keys and values in blocks with an index, and sorts
-- rows that come in any order; src/merge.cc merges sorted tables by a heap. src/query.cc looks up the
-- arrays of index tables and combines them by set operations.
--
-- The files, and what they model:
--   Shared      names, Boolean tests, lists, 64-bit words and single bytes that all parts use.
--   Result      how a routine ends: a value, a failed KJ_REQUIRE, a read past the buffer, a null pointer.
--               Progress is about routines that read forwards and end.
--   Integer     src/format.cc ca_format_integer, src/parse.cc ca_parse_integer.
--   Rle         src/rle.c CA_rle_put and CA_rle_flush, src/parse.cc InitRLE and ReadRLEByte. The state is
--               the context: the pending value and its run for a writer, the last byte for a reader.
--   Score       src/ca-table.h ca_offset_score; floats are bit patterns, compared by IEEE 754.
--   Prediction  src/format.cc EncodeOffsetScoreWithPrediction, src/parse.cc ParseOffsetScoreWithPrediction,
--               CountOffsetScoreWithPrediction and GetMaxOffsetWithPrediction. Size is about the number of
--               bytes that are written. Mask is the bit mask of records with percentiles, Steps the table
--               of distinct differences, a std::set by its sorted list.
--   Formats     src/parse.cc: the other formats (Flexi, Delta, Single) with their parsers and counting readers,
--               and the dispatch by the type byte, ca_offset_score_parse and ca_offset_score_count. Max is
--               ca_offset_score_max_offset with GetMaxOffsetOroch. Oroch holds
--               the third-party codecs and the conversions between integers and floats, as parameters.
--               Encode is ca_format_offset_score of src/format.cc with the encoders of Delta and Single.
--   Query       src/query.cc ProcessSubQuery and ProcessQuery. Sets are UnionOffsets, IntersectOffsets and
--               SubtractOffsets, Duplicates is RemoveDuplicates and the operators MAX and MIN, Lookup is
--               LookupIndexKey and src/util.h DecodeURIComponent. Tables are functions from keys to arrays.
--   WriteOnce   src/table-backend-writeonce.cc. Block is WriteOnceBlock: sizes and joined data of its entries.
--               Index is WriteOnceIndex, File is CA_wo_header and FileIO: a file is the list of its bytes.
--               Builder is WriteOnceBuilder, whose state is the index, the open block and the file so far;
--               its child modules give the state as the blocks of rows that were closed and the open one.
--               Sorting is WriteOnceSortingBuilder, whose temporary file is a list of bytes too.
--               Older is WriteOnceReader_v3. Table is WriteOnceTable over the builders and the reader; its child module States has its calls
--               as a step relation.
--               Reader is WriteOnceReader_v4 and the opening of a table; its child modules give the state
--               as the rows that the reader stands before. Cursor is WriteOnceReader_v4::Skip on the
--               numbers of entries that the index holds. Codec holds the third-party oroch varint codec and
--               zstd, parameters with the laws that the table relies on. The theorems on whole tables are
--               about rows that take less than 2 ^ 30 bytes together, with 20 bytes for the sizes of each,
--               so that the 32-bit sizes of the blocks do not overflow.
--   Merge       src/merge.cc. Heap is the heap over the next rows of the tables, Tables the first ca_table_merge
--               and the second, whose callback is in Merge itself. A table is an interface, IsSorted and ReadRow
--               with the law `ReadsRows`, which Tables/Files fills with the reader of WriteOnce.
--   Util        src/util.h ToJSON and HasPrefix, src/output.cc CA_output_json_string, src/format.cc Escape.
--               RoundTrip has readers of what they write: of JSON strings (RFC 8259) and of escaped text.
--   Examples    the theorems at concrete inputs; Codecs stands in for the third-party code.
--
-- A pointer into a buffer is the list of the bytes from it on; a read past the end is the fault
-- `overrun`, where C++ leaves the behaviour undefined. Integers keep their widths by `% 2 ^ w`. Loops
-- recurse on a list or on a count that the source computes first, and take no fuel,
-- except the loops of the heap, whose rounds are the size of the heap, the loop that merges tables, which takes a
-- round for each row, the search of Older, which has one for each place of the index, and the loops over the arrays of one value in Formats: their number of rounds is the number of
-- bytes, and each round takes the type byte at least, but for the counting loop, which a size that wraps
-- can send back to bytes that it has read; Progress in each module is about what is left of
-- a buffer, and `out_of_rounds` is the fault of a loop that was given too few rounds.
--
-- Not modelled: the file system, the mapping of files into memory, the LevelDB backend,
-- the command-line tools, the query grammar (generated by flex and bison), threads, and the third-party
-- libraries oroch and gtest. Of the query processor, `in-` tokens, which read the table of contents, and
-- the printing of results are left out.
mod Shared
pub mod Result
pub mod Integer
pub mod Rle
pub mod Score
pub mod Prediction
pub mod Query
pub mod WriteOnce
pub mod Formats
pub mod Util
pub mod Merge
mod Examples
