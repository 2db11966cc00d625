-- ===== src/Lib.antt =====
-- bitmap-comp-framework, compressed bitmap indexes in C++: a model of its bitmap representations and of
-- the archive that they are saved in.
--
-- A raw bitmap is a vector of 64-bit words; position b is digit b % 64 of word b / 64. A backend takes a
-- whole dataset of raw bitmaps, keeps each in its own representation, answers AND and OR queries on the
-- stored form, and is saved to and loaded from one archive of bytes.
--
-- Correspondence, by file of this library and file of the repository:
--   Bits           common/bits.hpp: words_for_bits, popcount64, ctz64, test_bit, set_bit, mask_tail,
--                  cardinality. The branch without compiler intrinsics is the one translated.
--   Binary         common/binary.hpp: put_le and ByteReader. The reader keeps the bytes that are left and
--                  its position. Binary.Words has the loops over 64-bit words of the two word backends.
--   Archive        backends/archive.cpp: format_id, pack_archive, unpack_archive, validate_inputs,
--                  validate_ids.
--   Statistics     common/statistics.hpp.
--   Backend        the loop that query_and and query_or of the WAH, Roaring and codec backends share, over
--                  the merge of a stored form. Representation is for the proofs: a merge with the law that
--                  it keeps what a stored form stands for, which each of these backends proves of its own.
--   RawBackend     backends/raw_backend.cpp.
--   Wah            backends/wah_backend.cpp up to merge: the code words, Builder (append), Reader (load,
--                  advance), encode, decode, merge. Wah.Backend has WahResult and WahBackend.
--   Roaring        backends/roaring_bitmap.cpp: containers; Roaring.Operations their AND and OR;
--                  Roaring.Bitmap the chunks; Roaring.Portable the portable format.
--   RoaringBackend backends/roaring_backend.cpp.
--   Codecs         backends/codecs.hpp, backends/codec_internal.hpp and backends/codecs.cpp: Coding is the
--                  interface of the virtual classes Cursor and Writer and their factories. Codecs.Operations
--                  has validate, encode_bitmap, decode_bitmap and load_encoding, Codecs.Combining
--                  AlignedCursor, combine_bitmaps and sbh_combine. Codecs.Reads has the contract of a
--                  codec, CodecLaws: its cursor reads the groups that its writer took.
--   WordCodecs     backends/word_codecs.cpp: WordCursor and WordWriter, and word_coding, which is Coding
--                  for EWAH, CONCISE, PLWAH and VAL. WordCodecs.Concise.Laws, WordCodecs.Plwah.Laws and
--                  WordCodecs.Ewah.Laws have the contract for the three codecs of fills.
--   StreamBackend  backends/stream_backend.cpp, over any Coding.
--   Verify         the backends side by side, as --verify=1 of benchmarks/bitmap_bench.cpp compares them.
--   Prelude        lists and numbers; Prelude.Faults has one error for each message that the code throws.
--   Tests          concrete runs.
--
-- Modelling. An unsigned integer is a natural number, and arithmetic that can wrap is taken modulo 2 ^ 64
-- where the source computes it; sizes and offsets of vectors in memory are not reduced. `std::runtime_error`
-- is the constructor throw of Outcome. An operation that changes a backend returns the new one, and on an
-- error none, as the source assigns its members after the last check. A Container is one of three
-- constructors instead of a kind and three vectors, of which only the matching one is populated. Loops over
-- two vectors pass on the parts that are left instead of two indices. `Cursor::next` returns the span and
-- the cursor behind it, or the cursor at the end. A Coding carries a bound `left` on the spans that a cursor
-- can still return, and the law that each span makes it smaller.
--
-- Fuel. Loops that are not over one vector recurse on fuel: popcount64 and ctz64 on 64 rounds, decode on one
-- round for each code word, merge on one for each code word of both operands, the container and chunk merges
-- on one for each element of both operands, the conversions of a bitset on one for each of its positions,
-- the readers of a payload on one for each word. The loops over a cursor take `left + 1` rounds, and those of
-- `WordWriter` as many as groups are appended, since each takes one at least. The results below hold of the
-- functions with that fuel, so it is enough. The relations Bits.Count.Popcounts and Codecs.Yields.Yields
-- are loops of the source without fuel.
--
-- Not modelled: the cursors and writers of SBH and BBC (backends/byte_codecs.cpp), which are one more Coding;
-- backends/factory.cpp; query and bitmap files, options, timing, the benchmark driver and the tools, which are
-- mostly input and output. For VAL only the end of its cursor on any bytes is proved, not that it reads
-- back what its writer wrote. Allocation failures are not modelled.
pub mod Prelude
pub mod Bits
pub mod Binary
pub mod Archive
pub mod Statistics
pub mod Backend
pub mod Codecs
pub mod WordCodecs
pub mod StreamBackend
pub mod Wah
pub mod RawBackend
pub mod Roaring
pub mod RoaringBackend
pub mod Verify
mod Tests
