-- ===== src/StreamBackend/Query.antt =====
-- Queries of `StreamBackend` of backends/stream_backend.cpp against the raw bitmaps that it was built
-- from, for any codec that keeps its contract.
use bitmap_comp_framework.Prelude.{
  ℕ, ◌*◌, ◌^◌, ◌≤◌, ◌<◌, ◌≡◌, refl, ◌≢◌, true, false, Bool, List, [], ◌∷◌, length, All, arith, ok,
}
use bitmap_comp_framework.Bits
use bitmap_comp_framework.Bits.Raw.{IsWord, IsRaw}
use bitmap_comp_framework.Bits.Combine.{combine_words}
use bitmap_comp_framework.Archive.{validate_inputs}
use bitmap_comp_framework.Archive.Inputs.{validate_inputs-IsRaw}
use bitmap_comp_framework.Backend.{Representation}
use bitmap_comp_framework.Backend.Query.{RepresentsAll, query-Represents, answer, answer-IsRaw}
use bitmap_comp_framework.Codecs.{Codec, sbh, val, same_codec, CodecOptions, Encoding, Coding}
use bitmap_comp_framework.Codecs.Operations.{no_encoding, is_segment}
use bitmap_comp_framework.Codecs.Combining.{combine_bitmaps}
use bitmap_comp_framework.Codecs.Reads.{CodecLaws}
use bitmap_comp_framework.Codecs.Encode.{Stands, chosen_width, encode_bitmap-Stands}
use bitmap_comp_framework.Codecs.Count.{decode_bitmap-Stands, encoding_cardinality-Stands}
use bitmap_comp_framework.Codecs.Merge.{combine_bitmaps-Stands}
use bitmap_comp_framework.StreamBackend.{
  StreamBackend, EncodedResult, result_cardinality, to_words, encode_all, build, query,
}

-- A codec under its options, with the contract at the width that it works at.
pub record Streamed (K : Coding) (c : Codec) (options : CodecOptions) : Type 1 where
  pub laws : (region : ℕ) → CodecLaws K c (chosen_width c options) region
  pub streams : same_codec c sbh ≡ false
  pub segment : same_codec c val ≡ true → is_segment options.val_segment_bits ≡ true

module _ (K : Coding) (c : Codec) (options : CodecOptions) (S : Streamed K c options) where
  abbrev pub w : ℕ
  w = chosen_width c options

  pub wide : 0 < w
  wide = (S.laws 0).wide

  pub narrow : w ≤ 64
  narrow = (S.laws 0).narrow

  pub merge-Stands :
      (n : ℕ) (is_and : Bool) (a b : Encoding) (xs ys : List ℕ)
      → n ≤ 2 ^ 32
      → IsRaw n xs
      → IsRaw n ys
      → Stands K c w n a xs
      → Stands K c w n b ys
      → (e : Encoding) × (combine_bitmaps K a b is_and ≡ ok e)
        × Stands K c w n e (combine_words is_and xs ys)
  merge-Stands n is_and a b xs ys small gx gy ra rb =
      let once : 1 * w ≡ w = omega arith in
      combine_bitmaps-Stands K c n w 1 1 wide (omega arith) (omega arith) (rw once narrow)
        (rw once narrow) (rw once (omega arith)) S.streams S.laws small a b xs ys gx gy (rw once ra)
        (rw once rb) is_and

  -- The codec as a representation for the query loops.
  abbrev pub streamed : Representation
  streamed = record {
    Stored = Encoding;
    missing = no_encoding c;
    Represents = Stands K c w;
    merge = λ is_and a b. combine_bitmaps K a b is_and;
    merge_sound = merge-Stands;
  }

  module _ (n : ℕ) (small : n ≤ 2 ^ 32) where
    pub encode_all-RepresentsAll :
        (raws : List (List ℕ))
        → All (IsRaw n) raws
        → (es : List Encoding) × (encode_all K c options n raws ≡ ok es)
          × RepresentsAll streamed n small es raws
    unfolding encode_all
    encode_all-RepresentsAll [] good = ([], refl, tt)
    encode_all-RepresentsAll (raw ∷ raws) good =
        let (e, run, stands) =
          encode_bitmap-Stands K c options S.segment (S.laws options.sbh_groups) n raw small
            good.0 in
        let (es, runs, all) = encode_all-RepresentsAll raws good.1 in
        (e ∷ es, rw (run, runs), (stands, all))

  -- For a codec that keeps its contract, with options that `encode_bitmap` accepts: on bitmaps of
  -- 64-bit words that `validate_inputs` accepts, `build` succeeds, and then `query_and` and `query_or`
  -- on a nonempty list of valid indices succeed: the result decodes to the AND or OR of the raw
  -- bitmaps named, word for word, and its cardinality is that of this raw bitmap.
  pub stream_query-build :
      (raws : List (List ℕ)) (n : ℕ) (start : StreamBackend) (is_and : Bool) (ids : List ℕ)
      → start.codec ≡ c
      → start.options ≡ options
      → All (All IsWord) raws
      → validate_inputs raws n ≡ ok tt
      → ids ≢ []
      → All (λ id. id < length raws) ids
      → (b : StreamBackend) × (r : EncodedResult) × (build K start raws n ≡ ok b)
        × (query K is_and b ids ≡ ok r)
        × (to_words K r ≡ ok (answer is_and raws ids))
        × (result_cardinality K r ≡ ok (Bits.cardinality (answer is_and raws ids)))
  unfolding build query to_words result_cardinality
  stream_query-build raws n start is_and ids is_codec is_options words valid ne h =
      let (small, good) = (validate_inputs-IsRaw raws n words).0 valid in
      let (es, runs, all) = encode_all-RepresentsAll n small raws good in
      let (e, found, stands) = query-Represents streamed n small is_and es raws all good ids ne h in
      let right = answer-IsRaw n is_and raws ids good ne h in
      (
        record start { num_bits = n; bitmaps = es },
        record { value = e },
        rw (valid, is_codec, is_options, runs),
        rw (is_codec, found),
        decode_bitmap-Stands K c w n wide narrow small e (answer is_and raws ids) right stands,
        encoding_cardinality-Stands K c w n wide narrow small e (answer is_and raws ids) right
            stands,
      )
