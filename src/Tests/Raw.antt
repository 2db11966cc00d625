-- ===== src/Tests/Raw.antt =====
-- backends/raw_backend.cpp.
use bitmap_comp_framework.Prelude.{ℕ, ◌≡◌, refl, ap, true, false, List, [], ◌∷◌, length, arith, ok}
use bitmap_comp_framework.Bits.{words_for_bits}
use bitmap_comp_framework.Archive.{validate_input, validate_each, validate_inputs}
use bitmap_comp_framework.Backend.Query.{answer}
use bitmap_comp_framework.RawBackend.{
  RawBackend, build, query_and, query_or, serialize, serialized_bytes, deserialize,
}
use bitmap_comp_framework.RawBackend.Query.{query-answer}
use bitmap_comp_framework.RawBackend.Storage.{deserialize-serialize_raw}
use bitmap_comp_framework.Tests.Samples.{raws, raws-IsWord}

abbrev built : RawBackend
built = record { bitmaps = raws; num_bits = 100; num_words = 2 }

build_run : build raws 100 ≡ ok built
unfolding build validate_inputs validate_each validate_input words_for_bits
build_run = refl

abbrev ids : List ℕ
ids = 0 ∷ 1 ∷ []

query-answer_example :
    (query_and built ids ≡ ok (record { words = answer true raws ids }))
    × (query_or built ids ≡ ok (record { words = answer false raws ids }))
query-answer_example =
    query-answer raws 100 built ids raws-IsWord build_run (λ e. omega (arith, ap length e))
      (omega arith)

deserialize-serialize_raw_example :
    (bytes : List ℕ) × (serialize built ≡ ok bytes)
    × (length bytes ≡ serialized_bytes built)
    × (deserialize bytes ≡ ok built)
deserialize-serialize_raw_example =
    deserialize-serialize_raw raws 100 built raws-IsWord (omega arith) build_run
