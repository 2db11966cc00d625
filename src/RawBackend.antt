-- ===== src/RawBackend.antt =====
-- backends/raw_backend.cpp: bitmaps kept as they are. `RawResult` is its vector of words.
pub mod Query
pub mod Storage
use bitmap_comp_framework.Prelude.{
  ℕ, zero, suc, ◌+◌, ◌*◌, ◌/◌, Bool, true, false, List, [], ◌∷◌, length, map, get_or, set,
  replicate, ◌==◌, Outcome, ok, ◌>>=◌, ◌>>◌, require, raw_size,
}
use bitmap_comp_framework.Bits
use bitmap_comp_framework.Bits.{words_for_bits, mask_tail}
use bitmap_comp_framework.Bits.Combine.{combine}
use bitmap_comp_framework.Binary.{reader}
use bitmap_comp_framework.Binary.Words.{put_words, get_words}
use bitmap_comp_framework.Archive.{
  DatasetArchive, format_id, pack_archive, unpack_archive, validate_inputs, validate_ids,
}
use bitmap_comp_framework.Backend.{first_operand, other_operands}

pub record RawResult : Type 0 where
  pub words : List ℕ

unfoldable pub result_cardinality : RawResult → ℕ
result_cardinality r = Bits.cardinality r.words

unfoldable pub to_words : RawResult → List ℕ
to_words r = r.words

unfoldable pub result_bytes : RawResult → ℕ
result_bytes r = length r.words * 8

pub record RawBackend : Type 0 where
  pub bitmaps : List (List ℕ)
  pub num_bits : ℕ
  pub num_words : ℕ

unfoldable pub build : List (List ℕ) → ℕ → Outcome RawBackend
build bitmaps num_bits = do
  validate_inputs bitmaps num_bits
  ok (record { bitmaps = bitmaps; num_bits = num_bits; num_words = words_for_bits num_bits })

-- The inner loop of both queries: `n` words from index `i` on.
unfoldable pub combine_each : Bool → ℕ → ℕ → List ℕ → List ℕ → List ℕ
combine_each is_and zero i result b = result
combine_each is_and (suc n) i result b =
    combine_each is_and n (i + 1) (set result i (combine is_and (get_or result i 0) (get_or b i 0)))
      b

-- The outer loop over the operands.
unfoldable pub combine_all : Bool → RawBackend → List ℕ → List ℕ → List ℕ
combine_all is_and w result [] = result
combine_all is_and w result (id ∷ ids) =
    combine_all is_and w (combine_each is_and w.num_words 0 result (get_or w.bitmaps id [])) ids

unfoldable pub query_and : RawBackend → List ℕ → Outcome RawResult
query_and w ids = do
  validate_ids ids (length w.bitmaps)
  ok (record {
    words =
        mask_tail (combine_all true w (first_operand [] w.bitmaps ids) (other_operands ids))
          w.num_bits;
  })

unfoldable pub query_or : RawBackend → List ℕ → Outcome RawResult
query_or w ids = do
  validate_ids ids (length w.bitmaps)
  ok (record { words = mask_tail (combine_all false w (replicate w.num_words 0) ids) w.num_bits })

unfoldable pub serialized_bytes : RawBackend → ℕ
serialized_bytes w = 32 + length w.bitmaps * (8 + w.num_words * 8)

unfoldable pub payload_bytes : RawBackend → ℕ
payload_bytes w = length w.bitmaps * w.num_words * 8

unfoldable pub serialize : RawBackend → Outcome (List ℕ)
serialize w = do
  format ← format_id "raw"
  ok (
      pack_archive (record {
        format = format;
        num_bits = w.num_bits;
        payloads = map (put_words []) w.bitmaps;
      }))

-- One payload of the saved dataset; its size is checked, so `words` rounds read it.
unfoldable pub load_bitmap : ℕ → List ℕ → Outcome (List ℕ)
load_bitmap words p = do require (length p == words * 8) raw_size; get_words words (reader p)

unfoldable pub load_bitmaps : ℕ → List (List ℕ) → Outcome (List (List ℕ))
load_bitmaps words [] = ok []
load_bitmaps words (p ∷ ps) = do b ← load_bitmap words p; bs ← load_bitmaps words ps; ok (b ∷ bs)

unfoldable pub deserialize : List ℕ → Outcome RawBackend
deserialize bytes = do
  format ← format_id "raw"
  a ← unpack_archive bytes format
  next ← load_bitmaps (words_for_bits a.num_bits) a.payloads
  build next a.num_bits
