-- ===== src/StreamBackend.antt =====
-- `StreamBackend` and `EncodedResult` of backends/stream_backend.cpp, over any coding.
pub mod Query
pub mod Storage
pub mod Words
use bitmap_comp_framework.Prelude.{
  ℕ, zero, suc, ◌+◌, ◌*◌, Bool, true, false, List, [], ◌∷◌, length, map, Outcome, ok, ◌>>=◌, ◌>>◌,
}
use bitmap_comp_framework.Statistics.{RepresentationStats, no_units, add_stats}
use bitmap_comp_framework.Archive.{
  DatasetArchive, format_id, pack_archive, unpack_archive, validate_inputs,
}
use bitmap_comp_framework.Backend
use bitmap_comp_framework.Codecs.{Codec, codec_name, CodecOptions, Encoding, Coding}
use bitmap_comp_framework.Codecs.Operations.{
  no_encoding, encode_bitmap, decode_bitmap, encoding_cardinality, encoding_statistics,
  load_encoding,
}
use bitmap_comp_framework.Codecs.Combining.{combine_bitmaps}

pub record StreamBackend : Type 0 where
  pub codec : Codec
  pub options : CodecOptions
  pub num_bits : ℕ
  pub bitmaps : List Encoding

pub record EncodedResult : Type 0 where
  pub value : Encoding

abbrev pub new_backend : Codec → CodecOptions → StreamBackend
new_backend c options = record { codec = c; options = options; num_bits = 0; bitmaps = [] }

unfoldable pub sum_bytes : ℕ → List Encoding → ℕ
sum_bytes size [] = size
sum_bytes size (e ∷ es) = sum_bytes (size + length e.bytes) es

unfoldable pub serialized_bytes : StreamBackend → ℕ
serialized_bytes w = sum_bytes (32 + 8 * length w.bitmaps) w.bitmaps

unfoldable pub payload_bytes : StreamBackend → ℕ
payload_bytes w = sum_bytes 0 w.bitmaps

unfoldable pub result_bytes : EncodedResult → ℕ
result_bytes r = length r.value.bytes

abbrev pub payload_of : Encoding → List ℕ
payload_of e = e.bytes

unfoldable pub serialize : StreamBackend → Outcome (List ℕ)
serialize w = do
  format ← format_id (codec_name w.codec)
  ok (
      pack_archive
        (record { format = format; num_bits = w.num_bits; payloads = map payload_of w.bitmaps }))

module _ (K : Coding) where
  unfoldable pub result_cardinality : EncodedResult → Outcome ℕ
  result_cardinality r = encoding_cardinality K r.value

  unfoldable pub to_words : EncodedResult → Outcome (List ℕ)
  to_words r = decode_bitmap K r.value

  unfoldable pub result_statistics : EncodedResult → Outcome RepresentationStats
  result_statistics r = encoding_statistics K r.value

  unfoldable pub encode_all : Codec → CodecOptions → ℕ → List (List ℕ) → Outcome (List Encoding)
  encode_all c options n [] = ok []
  encode_all c options n (b ∷ bs) = do
    e ← encode_bitmap K c b n options
    es ← encode_all c options n bs
    ok (e ∷ es)

  -- `build` leaves the codec and its options as they are.
  unfoldable pub build : StreamBackend → List (List ℕ) → ℕ → Outcome StreamBackend
  build w data_ n = do
    validate_inputs data_ n
    next ← encode_all w.codec w.options n data_
    ok (record w { num_bits = n; bitmaps = next })

  unfoldable pub query : Bool → StreamBackend → List ℕ → Outcome EncodedResult
  query is_and w ids = do
    acc ← Backend.query (no_encoding w.codec) (λ a b. combine_bitmaps K a b is_and) w.bitmaps ids
    ok (record { value = acc })

  unfoldable pub query_and : StreamBackend → List ℕ → Outcome EncodedResult
  unfolding query
  query_and = query true

  unfoldable pub query_or : StreamBackend → List ℕ → Outcome EncodedResult
  unfolding query
  query_or = query false

  unfoldable pub all_units : RepresentationStats → List Encoding → Outcome RepresentationStats
  all_units s [] = ok s
  all_units s (e ∷ es) = encoding_statistics K e >>= λ t. all_units (add_stats s t) es

  unfoldable pub statistics : StreamBackend → Outcome RepresentationStats
  unfolding all_units
  statistics w = all_units no_units w.bitmaps

  unfoldable pub load_all : Codec → ℕ → List (List ℕ) → Outcome (List Encoding)
  load_all c n [] = ok []
  load_all c n (p ∷ ps) = do e ← load_encoding K c n p; es ← load_all c n ps; ok (e ∷ es)

  unfoldable pub deserialize : StreamBackend → List ℕ → Outcome StreamBackend
  deserialize w bytes = do
    format ← format_id (codec_name w.codec)
    a ← unpack_archive bytes format
    next ← load_all w.codec a.num_bits a.payloads
    ok (record w { num_bits = a.num_bits; bitmaps = next })
