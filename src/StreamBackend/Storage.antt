-- ===== src/StreamBackend/Storage.antt =====
-- `StreamBackend::serialize` and then `deserialize` (backends/stream_backend.cpp).
use bitmap_comp_framework.Prelude.{
  ℕ, suc, ◌+◌, ◌*◌, ◌^◌, ◌≤◌, ◌<◌, ◌≡◌, refl, ap, sym, List, [], ◌∷◌, length, map, All, arith, ok,
}
use bitmap_comp_framework.Bits.Raw.{IsRaw}
use bitmap_comp_framework.Archive.{DatasetArchive, format_id, find_name, pack_archive}
use bitmap_comp_framework.Archive.RoundTrip.{
  IsArchive, unpack_archive-pack_archive, length-pack_archive, total_payload,
}
use bitmap_comp_framework.Codecs.{
  Codec, ewah, concise, plwah, val, sbh, bbc, codec_name, CodecOptions, Encoding, Coding,
}
use bitmap_comp_framework.Codecs.Encode.{Stands}
use bitmap_comp_framework.Codecs.Validate.{load_encoding-Stands}
use bitmap_comp_framework.StreamBackend.{
  StreamBackend, sum_bytes, serialized_bytes, payload_of, serialize, load_all, deserialize,
}
use bitmap_comp_framework.StreamBackend.Query.{Streamed, w, wide, narrow}

-- The identifiers of the codecs in an archive.
abbrev codec_format : Codec → ℕ
codec_format ewah = 4
codec_format concise = 5
codec_format plwah = 6
codec_format val = 7
codec_format sbh = 8
codec_format bbc = 9

format_id-codec_name : (c : Codec) → format_id (codec_name c) ≡ ok (codec_format c)
unfolding format_id find_name codec_name
format_id-codec_name ewah = refl
format_id-codec_name concise = refl
format_id-codec_name plwah = refl
format_id-codec_name val = refl
format_id-codec_name sbh = refl
format_id-codec_name bbc = refl

codec_format-lt : (c : Codec) → codec_format c < 2 ^ 32
codec_format-lt ewah = omega arith
codec_format-lt concise = omega arith
codec_format-lt plwah = omega arith
codec_format-lt val = omega arith
codec_format-lt sbh = omega arith
codec_format-lt bbc = omega arith

module _ (K : Coding) (c : Codec) (options : CodecOptions) (S : Streamed K c options) where
  -- An encoding of a bitmap that fits the length field of the archive.
  pub record IsStored (n : ℕ) (e : Encoding) : Type 0 where
    pub raw : List ℕ
    pub raw_shape : IsRaw n raw
    pub stands : Stands K c (w K c options S) n e raw
    pub fits : length e.bytes < 2 ^ 64

  -- A backend within the bounds of the archive.
  pub record IsBackend (b : StreamBackend) : Type 0 where
    pub codec_is : b.codec ≡ c
    pub universe_fits : b.num_bits ≤ 2 ^ 32
    pub stored : All (IsStored b.num_bits) b.bitmaps
    pub count_fits : length b.bitmaps < 2 ^ 61

  load_all-payloads :
      (n : ℕ) (es : List Encoding)
      → n ≤ 2 ^ 32
      → All (IsStored n) es
      → load_all K c n (map payload_of es) ≡ ok es
  unfolding load_all
  load_all-payloads n [] small good = refl
  load_all-payloads n (e ∷ es) small good =
      let here =
        load_encoding-Stands K c (w K c options S) n (wide K c options S) (narrow K c options S)
          small e good.0.raw good.0.raw_shape good.0.stands in
      rw (here, load_all-payloads n es small good.1)

  payloads_fit :
      (n : ℕ) (es : List Encoding)
      → All (IsStored n) es
      → All (λ p. length p < 2 ^ 64) (map payload_of es)
  payloads_fit n [] good = tt
  payloads_fit n (e ∷ es) good = (good.0.fits, payloads_fit n es good.1)

length-payloads : (es : List Encoding) → length (map payload_of es) ≡ length es
length-payloads [] = refl
length-payloads (e ∷ es) = ap suc (length-payloads es)

abbrev archive_of : StreamBackend → DatasetArchive
archive_of b = record {
  format = codec_format b.codec;
  num_bits = b.num_bits;
  payloads = map payload_of b.bitmaps;
}

sum_bytes-total :
    (size : ℕ) (es : List Encoding) → sum_bytes size es ≡ size + total_payload (map payload_of es)
unfolding sum_bytes total_payload
sum_bytes-total size [] = omega arith
sum_bytes-total size (e ∷ es) = omega (arith, sum_bytes-total (size + length e.bytes) es)

serialized_bytes-length :
    (b : StreamBackend) → serialized_bytes b ≡ length (pack_archive (archive_of b))
unfolding serialized_bytes
serialized_bytes-length b = omega (
  arith,
  sum_bytes-total (32 + 8 * length b.bitmaps) b.bitmaps,
  length-pack_archive (archive_of b),
  length-payloads b.bitmaps,
)

-- For a codec that keeps its contract: on a backend whose encodings stand for raw bitmaps and which is
-- within the bounds of the archive, `serialize` succeeds, its result has `serialized_bytes` bytes, and
-- `deserialize` of it into any backend of the codec gives back the same universe and encodings.
pub deserialize-serialize_stream :
    (K : Coding) (c : Codec) (options : CodecOptions) (S : Streamed K c options) (b : StreamBackend)
    → IsBackend K c options S b
    → (start : StreamBackend) → start.codec ≡ c
    → (bytes : List ℕ) × (serialize b ≡ ok bytes)
      × (length bytes ≡ serialized_bytes b)
      × (deserialize K start bytes
          ≡ ok (record start { num_bits = b.num_bits; bitmaps = b.bitmaps }))
unfolding serialize deserialize
deserialize-serialize_stream K c options S b good start same =
    let archived : IsArchive (archive_of b) = record {
      format_fits = codec_format-lt b.codec;
      universe_fits = good.universe_fits;
      count_fits = omega (arith, good.count_fits, length-payloads b.bitmaps);
      lengths_fit = payloads_fit K c options S b.num_bits b.bitmaps good.stored;
    } in
    let unpacked = unpack_archive-pack_archive (archive_of b) archived in
    (
      pack_archive (archive_of b),
      rw (format_id-codec_name b.codec),
      sym (serialized_bytes-length b),
      rw (same, format_id-codec_name c, ← good.codec_is)
          (rw (
            unpacked,
            good.codec_is,
            load_all-payloads K c options S b.num_bits b.bitmaps good.universe_fits good.stored,
          )),
    )
