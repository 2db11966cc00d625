-- ===== src/StreamBackend/Words.antt =====
-- backends/stream_backend.cpp and backends/codecs.cpp over the codecs of backends/word_codecs.cpp that
-- write runs of groups as fills: EWAH, CONCISE and PLWAH.
use bitmap_comp_framework.Prelude.{
  ℕ, ◌^◌, ◌≤◌, ◌<◌, ◌≡◌, ◌≢◌, refl, Bool, List, [], length, All, ok, arith,
}
use bitmap_comp_framework.Bits
use bitmap_comp_framework.Bits.Raw.{IsWord, IsRaw}
use bitmap_comp_framework.Bits.Combine.{combine_words, combine_words-IsRaw}
use bitmap_comp_framework.Archive.{validate_inputs}
use bitmap_comp_framework.Backend.Query.{answer}
use bitmap_comp_framework.Codecs.{Codec, ewah, concise, plwah, same_codec, CodecOptions, Encoding}
use bitmap_comp_framework.Codecs.Operations.{
  width_for, encode_bitmap, decode_bitmap, encoding_cardinality, load_encoding,
}
use bitmap_comp_framework.Codecs.Combining.{combine_bitmaps}
use bitmap_comp_framework.Codecs.Encode.{Stands, chosen_width, encode_bitmap-Stands}
use bitmap_comp_framework.Codecs.Count.{decode_bitmap-Stands, encoding_cardinality-Stands}
use bitmap_comp_framework.Codecs.Validate.{load_encoding-Stands}
use bitmap_comp_framework.StreamBackend.{
  StreamBackend, EncodedResult, result_cardinality, to_words, build, query,
}
use bitmap_comp_framework.StreamBackend.Query.{
  Streamed, stream_query-build, wide, narrow, merge-Stands,
}
use bitmap_comp_framework.WordCodecs.Words.{word_coding}
use bitmap_comp_framework.WordCodecs.Ewah.Laws.{ewah_laws}
use bitmap_comp_framework.WordCodecs.Concise.Laws.{concise_laws}
use bitmap_comp_framework.WordCodecs.Plwah.Laws.{plwah_laws}

-- The codecs of words that mark runs by fills.
pub data IsFillCodec : Codec → Type 0 where
  ewah_fills : IsFillCodec ewah
  concise_fills : IsFillCodec concise
  plwah_fills : IsFillCodec plwah

pub fill_codec-Streamed :
    (c : Codec) (options : CodecOptions) → IsFillCodec c → Streamed word_coding c options
unfolding same_codec width_for
fill_codec-Streamed c options ewah_fills = record {
  laws = ewah_laws;
  streams = refl;
  segment = λ h. ground arith;
}
fill_codec-Streamed c options concise_fills = record {
  laws = concise_laws;
  streams = refl;
  segment = λ h. ground arith;
}
fill_codec-Streamed c options plwah_fills = record {
  laws = plwah_laws;
  streams = refl;
  segment = λ h. ground arith;
}

-- For EWAH, CONCISE and PLWAH: on bitmaps of 64-bit words that `validate_inputs` accepts, `build`
-- succeeds, and then `query_and` and `query_or` on a nonempty list of valid indices succeed: the
-- result decodes to the AND or OR of the raw bitmaps named, word for word, and its cardinality is that
-- of this raw bitmap.
pub fill_query-build :
    (start : StreamBackend) (raws : List (List ℕ)) (n : ℕ) (is_and : Bool) (ids : List ℕ)
    → IsFillCodec start.codec
    → All (All IsWord) raws
    → validate_inputs raws n ≡ ok tt
    → ids ≢ []
    → All (λ id. id < length raws) ids
    → (b : StreamBackend) × (r : EncodedResult) × (build word_coding start raws n ≡ ok b)
      × (query word_coding is_and b ids ≡ ok r)
      × (to_words word_coding r ≡ ok (answer is_and raws ids))
      × (result_cardinality word_coding r ≡ ok (Bits.cardinality (answer is_and raws ids)))
fill_query-build start raws n is_and ids fills words valid ne h =
    stream_query-build word_coding start.codec start.options
      (fill_codec-Streamed start.codec start.options fills) raws n start is_and ids refl refl words
      valid ne h

module _ (c : Codec) (options : CodecOptions) (fills : IsFillCodec c) (n : ℕ)
    (small : n ≤ 2 ^ 32) where
  abbrev streamed : Streamed word_coding c options
  streamed = fill_codec-Streamed c options fills

  pub fill_encode-Stands :
      (raw : List ℕ)
      → IsRaw n raw
      → (e : Encoding) × (encode_bitmap word_coding c raw n options ≡ ok e)
        × Stands word_coding c (chosen_width c options) n e raw
  fill_encode-Stands raw good =
      encode_bitmap-Stands word_coding c options streamed.segment (streamed.laws options.sbh_groups)
        n raw small good

  -- For EWAH, CONCISE and PLWAH and a raw bitmap of at most 2 ^ 32 positions: `encode_bitmap` succeeds,
  -- `decode_bitmap` gives the raw bitmap back, `encoding_cardinality` is its cardinality, and
  -- `load_encoding` takes the bytes and gives the encoding back.
  pub decode-encode_fill :
      (raw : List ℕ)
      → IsRaw n raw
      → (e : Encoding) × (encode_bitmap word_coding c raw n options ≡ ok e)
        × (decode_bitmap word_coding e ≡ ok raw)
        × (encoding_cardinality word_coding e ≡ ok (Bits.cardinality raw))
        × (load_encoding word_coding c n e.bytes ≡ ok e)
  decode-encode_fill raw good =
      let (e, runs, stands) = fill_encode-Stands raw good in
      let width = chosen_width c options in
      let pos = wide word_coding c options streamed in
      let fits = narrow word_coding c options streamed in
      (
        e,
        runs,
        decode_bitmap-Stands word_coding c width n pos fits small e raw good stands,
        encoding_cardinality-Stands word_coding c width n pos fits small e raw good stands,
        load_encoding-Stands word_coding c width n pos fits small e raw good stands,
      )

  -- For EWAH, CONCISE and PLWAH and two raw bitmaps of at most 2 ^ 32 positions: both are encoded,
  -- `combine_bitmaps` of the encodings succeeds, and its result decodes to the AND or OR of the raw
  -- bitmaps, word for word, and is read back by `load_encoding`.
  pub combine-encode_fill :
      (xs ys : List ℕ) (is_and : Bool)
      → IsRaw n xs
      → IsRaw n ys
      → (a : Encoding) × (b : Encoding) × (e : Encoding) × (encode_bitmap word_coding c xs n options
          ≡ ok a)
        × (encode_bitmap word_coding c ys n options ≡ ok b)
        × (combine_bitmaps word_coding a b is_and ≡ ok e)
        × (decode_bitmap word_coding e ≡ ok (combine_words is_and xs ys))
        × (load_encoding word_coding c n e.bytes ≡ ok e)
  combine-encode_fill xs ys is_and gx gy =
      let (a, runs_a, stands_a) = fill_encode-Stands xs gx in
      let (b, runs_b, stands_b) = fill_encode-Stands ys gy in
      let (e, run, stands) =
        merge-Stands word_coding c options streamed n is_and a b xs ys small gx gy stands_a
          stands_b in
      let width = chosen_width c options in
      let pos = wide word_coding c options streamed in
      let fits = narrow word_coding c options streamed in
      let right = combine_words-IsRaw is_and n xs ys gx gy in
      (
        a,
        b,
        e,
        runs_a,
        runs_b,
        run,
        decode_bitmap-Stands word_coding c width n pos fits small e (combine_words is_and xs ys)
            right stands,
        load_encoding-Stands word_coding c width n pos fits small e (combine_words is_and xs ys)
            right stands,
      )
