-- ===== src/Tests/Roaring.antt =====
-- backends/roaring_bitmap.cpp and backends/roaring_backend.cpp, and the backends side by side.
use bitmap_comp_framework.Prelude.{
  ℕ, ◌+◌, ◌*◌, ◌/◌, ◌%◌, ◌^◌, ◌≤◌, ◌<◌, min, max, ◌≡◌, refl, ap, true, List, [], ◌∷◌, length, arith,
  ok,
}
use bitmap_comp_framework.Bits
use bitmap_comp_framework.Bits.{words_for_bits}
use bitmap_comp_framework.Bits.Raw.{bit_at, IsRaw}
use bitmap_comp_framework.Archive.{validate_input, validate_each, validate_inputs}
use bitmap_comp_framework.Backend.Query.{answer}
use bitmap_comp_framework.Roaring.{Container, array, run, optimize}
use bitmap_comp_framework.Roaring.Sets.{member, IsContainer, Ascending, Disjoint}
use bitmap_comp_framework.Roaring.Operations.{
  container_and, container_or, run_or_run, run_or_loop, coalesce, push_runs,
}
use bitmap_comp_framework.Bits.Total.{total}
use bitmap_comp_framework.Roaring
use bitmap_comp_framework.Roaring.Count.{cardinality-member}
use bitmap_comp_framework.Roaring.Convert.{Holds}
use bitmap_comp_framework.Roaring.Combine.{container_and_or-Holds, optimize-Holds}
use bitmap_comp_framework.Roaring.Bitmap.{Bitmap, from_words, bitmap_and, bitmap_or}
use bitmap_comp_framework.Roaring.Bitmap
use bitmap_comp_framework.Roaring.Bitmap.Merge.{in_chunks, Chunked}
use bitmap_comp_framework.Roaring.Bitmap.Union.{bitmap_and_or-in_chunks}
use bitmap_comp_framework.Roaring.Bitmap.Words.{from_words-in_chunks}
use bitmap_comp_framework.Roaring.Bitmap.Decode.{to_words-in_chunks}
use bitmap_comp_framework.RawBackend
use bitmap_comp_framework.RawBackend.{RawBackend, RawResult}
use bitmap_comp_framework.Wah.Backend
use bitmap_comp_framework.Wah.Backend.{WahBackend, WahResult, encode_all}
use bitmap_comp_framework.RoaringBackend
use bitmap_comp_framework.RoaringBackend
use bitmap_comp_framework.RoaringBackend.{
  RoaringBackend, RoaringResult, from_all, build, query, to_words,
}
use bitmap_comp_framework.RoaringBackend.Query.{to_words-from_words, roaring_query-build}
use bitmap_comp_framework.Verify.{raw_query, query-agree}
use bitmap_comp_framework.Tests.Samples.{
  first_raw, second_raw, raws, raws-IsWord, first-IsRaw, second-IsRaw,
}

small : 100 ≤ 2 ^ 32
small = omega arith

-- Intervals that touch become one.
coalesce_run :
    run_or_run
      (record { start = 1; last = 3 } ∷ record { start = 9; last = 9 } ∷ [])
      (record { start = 4; last = 6 } ∷ [])
    ≡ run (record { start = 1; last = 6 } ∷ record { start = 9; last = 9 } ∷ [])
unfolding run_or_run run_or_loop coalesce push_runs
coalesce_run = refl

abbrev some_values : Container
some_values = array (1 ∷ 5 ∷ [])

abbrev some_runs : Container
some_runs = run (record { start = 3; last = 9 } ∷ [])

some_values-IsContainer : IsContainer some_values
unfolding IsContainer Ascending
some_values-IsContainer = omega arith

some_runs-IsContainer : IsContainer some_runs
unfolding IsContainer Disjoint
some_runs-IsContainer = omega arith

container_and_or-Holds_example :
    Holds
      (container_and some_values some_runs)
      (λ v. min (member some_values v) (member some_runs v))
    × Holds
        (container_or some_values some_runs)
        (λ v. max (member some_values v) (member some_runs v))
container_and_or-Holds_example =
    container_and_or-Holds some_values some_runs some_values-IsContainer some_runs-IsContainer

optimize-Holds_example : Holds (optimize some_runs) (member some_runs)
optimize-Holds_example = optimize-Holds some_runs some_runs-IsContainer

abbrev first_bitmap : Bitmap
first_bitmap = from_words first_raw 100

abbrev second_bitmap : Bitmap
second_bitmap = from_words second_raw 100

first_bitmap-Chunked : Chunked 0 first_bitmap.chunks
first_bitmap-Chunked = (from_words-in_chunks first_raw 100 first-IsRaw small).0

second_bitmap-Chunked : Chunked 0 second_bitmap.chunks
second_bitmap-Chunked = (from_words-in_chunks second_raw 100 second-IsRaw small).0

from_words-in_chunks_example :
    Chunked 0 first_bitmap.chunks
    × ((k v : ℕ)
        → v < 2 ^ 16
        → in_chunks first_bitmap.chunks k v ≡ bit_at first_raw (k * 2 ^ 16 + v))
from_words-in_chunks_example = from_words-in_chunks first_raw 100 first-IsRaw small

to_words-in_chunks_example :
    IsRaw 100 (Bitmap.to_words first_bitmap 100)
    × ((b : ℕ)
        → b < 100
        → bit_at (Bitmap.to_words first_bitmap 100) b
          ≡ in_chunks first_bitmap.chunks (b / 2 ^ 16) (b % 2 ^ 16))
to_words-in_chunks_example = to_words-in_chunks first_bitmap 100 first_bitmap-Chunked small

bitmap_and_or-in_chunks_example :
    (Chunked 0 (bitmap_and first_bitmap second_bitmap).chunks
      × Chunked 0 (bitmap_or first_bitmap second_bitmap).chunks)
    × ((k v : ℕ)
        → (in_chunks (bitmap_and first_bitmap second_bitmap).chunks k v
            ≡ min (in_chunks first_bitmap.chunks k v) (in_chunks second_bitmap.chunks k v))
          × (in_chunks (bitmap_or first_bitmap second_bitmap).chunks k v
              ≡ max (in_chunks first_bitmap.chunks k v) (in_chunks second_bitmap.chunks k v)))
bitmap_and_or-in_chunks_example =
    bitmap_and_or-in_chunks first_bitmap second_bitmap first_bitmap-Chunked second_bitmap-Chunked

to_words-from_words_example : Bitmap.to_words (from_words first_raw 100) 100 ≡ first_raw
to_words-from_words_example = to_words-from_words 100 first_raw small first-IsRaw

abbrev built_raw : RawBackend
built_raw = record { bitmaps = raws; num_bits = 100; num_words = 2 }

abbrev built_wah : WahBackend
built_wah = record { compressed = encode_all 100 raws; num_bits = 100 }

abbrev built : RoaringBackend
built = record { bitmaps = from_all 100 raws; num_bits = 100 }

raw_run : RawBackend.build raws 100 ≡ ok built_raw
unfolding RawBackend.build validate_inputs validate_each validate_input words_for_bits
raw_run = refl

wah_run : Backend.build raws 100 ≡ ok built_wah
unfolding Backend.build validate_inputs validate_each validate_input words_for_bits
wah_run = refl

build_run : build raws 100 ≡ ok built
unfolding build validate_inputs validate_each validate_input words_for_bits
build_run = refl

abbrev ids : List ℕ
ids = 0 ∷ 1 ∷ []

roaring_query-build_example :
    (r : RoaringResult) × (query true built ids ≡ ok r)
    × (to_words r ≡ answer true raws ids)
    × (RoaringBackend.result_cardinality r ≡ Bits.cardinality (answer true raws ids))
roaring_query-build_example =
    roaring_query-build raws 100 built true ids raws-IsWord build_run
      (λ e. omega (arith, ap length e)) (omega arith)

query-agree_example :
    (r : RawResult) × (s : WahResult) × (t : RoaringResult) × (raw_query true built_raw ids ≡ ok r)
    × (Backend.query true built_wah ids ≡ ok s)
    × (query true built ids ≡ ok t)
    × (Backend.to_words s ≡ RawBackend.to_words r)
    × (to_words t ≡ RawBackend.to_words r)
    × (Backend.result_cardinality s ≡ RawBackend.result_cardinality r)
    × (RoaringBackend.result_cardinality t ≡ RawBackend.result_cardinality r)
query-agree_example =
    query-agree raws 100 built_raw built_wah built true ids raws-IsWord raw_run wah_run build_run
      (λ e. omega (arith, ap length e)) (omega arith)

cardinality-member_example : Roaring.cardinality some_runs ≡ total 65536 (member some_runs)
cardinality-member_example = cardinality-member some_runs some_runs-IsContainer
