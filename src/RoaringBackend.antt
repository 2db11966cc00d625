-- ===== src/RoaringBackend.antt =====
-- backends/roaring_backend.cpp.
pub mod Query
use bitmap_comp_framework.Prelude.{
  ℕ, zero, suc, ◌+◌, ◌-◌, ◌*◌, ◌/◌, ◌%◌, ◌^◌, bit_and, Bool, true, false, not, ◌&&◌, ◌||◌, List, [],
  ◌∷◌, ◌++◌, length, get_or, map, ltb, leb, ◌==◌, if◌then◌else◌, Outcome, ok, ◌>>=◌, ◌>>◌, require,
  roaring_universe, roaring_beyond, roaring_padding,
}
use bitmap_comp_framework.Binary.{low_mask}
use bitmap_comp_framework.Statistics.{RepresentationStats, no_units, add_stats}
use bitmap_comp_framework.Archive.{
  DatasetArchive, format_id, pack_archive, unpack_archive, validate_inputs,
}
use bitmap_comp_framework.Backend
use bitmap_comp_framework.Roaring.{
  Kind, array_kind, bitset_kind, run_kind, kind, chunk_bits, complement, to_bitset,
}
use bitmap_comp_framework.Roaring.Bitmap.{Chunk, Bitmap, from_words, bitmap_and, bitmap_or}
use bitmap_comp_framework.Roaring.Bitmap
use bitmap_comp_framework.Roaring.Portable

abbrev pub count_kind : RepresentationStats → Kind → RepresentationStats
count_kind s array_kind = record s { array_containers = (s.array_containers + 1) % 2 ^ 64 }
count_kind s bitset_kind = record s { bitmap_containers = (s.bitmap_containers + 1) % 2 ^ 64 }
count_kind s run_kind = record s { run_containers = (s.run_containers + 1) % 2 ^ 64 }

unfoldable pub count_chunks : RepresentationStats → List Chunk → RepresentationStats
count_chunks s [] = s
count_chunks s (c ∷ cs) = count_chunks (count_kind s (kind c.container)) cs

unfoldable pub stats_for : Bitmap → RepresentationStats
stats_for b = count_chunks no_units b.chunks

pub record RoaringResult : Type 0 where
  pub bitmap : Bitmap
  pub num_bits : ℕ

unfoldable pub result_cardinality : RoaringResult → ℕ
result_cardinality r = Bitmap.cardinality r.bitmap

unfoldable pub to_words : RoaringResult → List ℕ
to_words r = Bitmap.to_words r.bitmap r.num_bits

unfoldable pub result_bytes : RoaringResult → ℕ
result_bytes r = Bitmap.serialized_bytes r.bitmap

unfoldable pub result_statistics : RoaringResult → RepresentationStats
result_statistics r = stats_for r.bitmap

pub record RoaringBackend : Type 0 where
  pub bitmaps : List Bitmap
  pub num_bits : ℕ

unfoldable pub from_all : ℕ → List (List ℕ) → List Bitmap
from_all num_bits [] = []
from_all num_bits (raw ∷ raws) = from_words raw num_bits ∷ from_all num_bits raws

unfoldable pub build : List (List ℕ) → ℕ → Outcome RoaringBackend
build bitmaps num_bits = do
  validate_inputs bitmaps num_bits
  require (leb num_bits (2 ^ 32)) roaring_universe
  ok (record { bitmaps = from_all num_bits bitmaps; num_bits = num_bits })

-- `bitmap_and` in `query_and`, `bitmap_or` in `query_or`.
abbrev pub merge : Bool → Bitmap → Bitmap → Bitmap
merge is_and a b = if is_and then bitmap_and a b else bitmap_or a b

abbrev pub no_bitmap : Bitmap
no_bitmap = record { chunks = [] }

unfoldable pub query : Bool → RoaringBackend → List ℕ → Outcome RoaringResult
query is_and w ids = do
  acc ← Backend.query no_bitmap (λ a b. ok (merge is_and a b)) w.bitmaps ids
  ok (record { bitmap = acc; num_bits = w.num_bits })

unfoldable pub query_and : RoaringBackend → List ℕ → Outcome RoaringResult
unfolding query
query_and = query true

unfoldable pub query_or : RoaringBackend → List ℕ → Outcome RoaringResult
unfolding query
query_or = query false

unfoldable pub sum_bytes : ℕ → List Bitmap → ℕ
sum_bytes bytes [] = bytes
sum_bytes bytes (b ∷ bs) = sum_bytes (bytes + Bitmap.serialized_bytes b) bs

unfoldable pub serialized_bytes : RoaringBackend → ℕ
serialized_bytes w = sum_bytes (32 + 8 * length w.bitmaps) w.bitmaps

unfoldable pub payload_bytes : RoaringBackend → ℕ
payload_bytes w = sum_bytes 0 w.bitmaps

unfoldable pub sum_stats : RepresentationStats → List Bitmap → RepresentationStats
sum_stats s [] = s
sum_stats s (b ∷ bs) = sum_stats (add_stats s (stats_for b)) bs

unfoldable pub statistics : RoaringBackend → RepresentationStats
statistics w = sum_stats no_units w.bitmaps

unfoldable pub serialize : RoaringBackend → Outcome (List ℕ)
serialize w = do
  format ← format_id "roaring"
  ok (
      pack_archive (record {
        format = format;
        num_bits = w.num_bits;
        payloads = map Portable.serialize w.bitmaps;
      }))

-- The loop over the words of the last chunk, from word `i` on: only the positions below `local` may be
-- set.
unfoldable pub check_words : ℕ → ℕ → List ℕ → Outcome (Unit {0})
check_words local i [] = ok tt
check_words local i (w ∷ ws) = do
  require
      (not (leb (local / 64) i)
        || (bit_and w (
              complement
                (if (i == local / 64) && not (local % 64 == 0) then low_mask (local % 64) else 0))
            == 0))
      roaring_padding
  check_words local (i + 1) ws

unfoldable pub check_chunk : ℕ → Chunk → Outcome (Unit {0})
check_chunk num_bits c = do
  require (ltb (c.key * chunk_bits) num_bits) roaring_beyond
  (if ltb (num_bits - c.key * chunk_bits) chunk_bits
      then check_words (num_bits - c.key * chunk_bits) 0 (to_bitset c.container)
      else ok tt)

unfoldable pub check_chunks : ℕ → List Chunk → Outcome (Unit {0})
check_chunks num_bits [] = ok tt
check_chunks num_bits (c ∷ cs) = do check_chunk num_bits c; check_chunks num_bits cs

unfoldable pub load_bitmaps : ℕ → List (List ℕ) → Outcome (List Bitmap)
load_bitmaps num_bits [] = ok []
load_bitmaps num_bits (p ∷ ps) = do
  b ← Portable.deserialize p
  check_chunks num_bits b.chunks
  bs ← load_bitmaps num_bits ps
  ok (b ∷ bs)

unfoldable pub deserialize : List ℕ → Outcome RoaringBackend
deserialize bytes = do
  format ← format_id "roaring"
  a ← unpack_archive bytes format
  next ← load_bitmaps a.num_bits a.payloads
  ok (record { bitmaps = next; num_bits = a.num_bits })
