-- ===== src/Codecs/Operations.antt =====
-- The functions of backends/codecs.cpp over the cursor and the writer of a coding. A loop over a
-- cursor takes as fuel more than the cursor's bound on the spans that it can still return.
use bitmap_comp_framework.Prelude.{
  ℕ, zero, suc, ◌+◌, ◌-◌, ◌*◌, ◌%◌, ◌^◌, bit_and, Bool, not, ◌&&◌, ◌||◌, List, [], ◌∷◌, ◌++◌,
  length, get_or, replicate, ltb, leb, ◌==◌, if◌then◌else◌, Outcome, ok, ◌>>=◌, ◌>>◌, require,
  group_count_mismatch, wide_literal, encoded_padding, encoded_short, codec_universe,
  codec_word_count, codec_padding, val_segment, load_universe, missing_selector, invalid_segment,
}
use bitmap_comp_framework.Bits.{◌>>>◌, words_for_bits, popcount64, mask_tail}
use bitmap_comp_framework.Binary.{low_mask, reader, get}
use bitmap_comp_framework.Statistics.{RepresentationStats}
use bitmap_comp_framework.Archive.{back}
use bitmap_comp_framework.Codecs.{
  Codec, ewah, concise, plwah, val, sbh, bbc, same_codec, CodecOptions, Encoding, Span, stop, got,
  Coding, group_count, read_group, write_group,
}

unfoldable pub width_for : Codec → ℕ
width_for ewah = 64
width_for concise = 31
width_for plwah = 31
width_for val = 15
width_for sbh = 7
width_for bbc = 8

-- The inner loop of `decode_bitmap`: `n` copies of one value from group `g` on.
unfoldable pub write_span : ℕ → ℕ → ℕ → ℕ → List ℕ → List ℕ
write_span width zero g value result = result
write_span width (suc n) g value result =
    write_span width n ((g + 1) % 2 ^ 64) value
      (write_group result (g * width % 2 ^ 64) width value)

unfoldable pub check_raw : List ℕ → ℕ → Outcome (Unit {0})
check_raw raw n = do
  require (leb n (2 ^ 32)) codec_universe
  require (length raw == words_for_bits n) codec_word_count
  require ((n % 64 == 0) || (length raw == 0) || (back raw >>> (n % 64) == 0)) codec_padding

unfoldable pub is_segment : ℕ → Bool
is_segment width = (width == 15) || (width == 30) || (width == 60)

abbrev pub no_encoding : Codec → Encoding
no_encoding c = record { codec = c; num_bits = 0; width = 0; sbh_groups = 128; bytes = [] }

-- The width that the selector of a VAL payload gives, and the groups that open an SBH payload.
unfoldable pub selected_width : Codec → List ℕ → Outcome ℕ
selected_width c payload =
    if same_codec c val
    then (require (not (length payload == 0)) missing_selector
        >> (require (is_segment (15 * (get_or payload 0 0 >>> 4))) invalid_segment
            >> ok (15 * (get_or payload 0 0 >>> 4))))
    else ok (width_for c)

unfoldable pub stored_groups : Codec → List ℕ → Outcome ℕ
stored_groups c payload =
    if same_codec c sbh then (get (reader payload) 4 >>= λ g. ok (g.0 % 2 ^ 32)) else ok 128

module _ (K : Coding) where
  open K use {Cursor, cursor, next, stats, left, Writer, writer, append, finish}

  -- `validate`: what is required of one span, and the loop.
  module _ (e : Encoding) (groups : ℕ) where
    unfoldable pub check_span : ℕ → Span → Outcome ℕ
    check_span seen s = do
      require (not (s.count == 0) && leb s.count (groups - seen)) group_count_mismatch
      require (bit_and s.value (2 ^ 64 - 1 - low_mask e.width) == 0) wide_literal
      require
          (not (
            (seen + s.count == groups)
            && not (e.num_bits % e.width == 0)
            && not (s.value >>> (e.num_bits % e.width) == 0)))
          encoded_padding
      ok (seen + s.count)

    unfoldable pub validate_loop : ℕ → Cursor → ℕ → Outcome ℕ
    validate_loop zero r seen = ok seen
    validate_loop (suc fuel) r seen = next r >>= λ f. elim f [
      | stop r' ↦ ok seen
      | got s r' ↦ check_span seen s >>= λ seen'. validate_loop fuel r' seen'
    ]

  unfoldable pub validate : Encoding → Outcome (Unit {0})
  validate e = do
    r ← cursor e
    let groups = group_count e.num_bits e.width
    seen ← validate_loop e groups (suc (left r)) r 0
    require (seen == groups) encoded_short

  unfoldable pub decode_loop : ℕ → ℕ → Cursor → ℕ → List ℕ → Outcome (List ℕ)
  decode_loop width zero r start result = ok result
  decode_loop width (suc fuel) r start result = next r >>= λ f. elim f [
    | stop r' ↦ ok result
    | got s r' ↦
        decode_loop width fuel r' ((start + s.count) % 2 ^ 64)
          (if s.value == 0 then result else write_span width s.count start s.value result)
  ]

  unfoldable pub decode_bitmap : Encoding → Outcome (List ℕ)
  decode_bitmap e = do
    r ← cursor e
    result ← decode_loop e.width (suc (left r)) r 0 (replicate (words_for_bits e.num_bits) 0)
    ok (mask_tail result e.num_bits)

  unfoldable pub count_loop : ℕ → Cursor → ℕ → Outcome ℕ
  count_loop zero r result = ok result
  count_loop (suc fuel) r result = next r >>= λ f. elim f [
    | stop r' ↦ ok result
    | got s r' ↦ count_loop fuel r' ((result + popcount64 s.value * s.count) % 2 ^ 64)
  ]

  unfoldable pub encoding_cardinality : Encoding → Outcome ℕ
  encoding_cardinality e = do r ← cursor e; count_loop (suc (left r)) r 0

  unfoldable pub statistics_loop : ℕ → Cursor → Outcome RepresentationStats
  statistics_loop zero r = ok (stats r)
  statistics_loop (suc fuel) r =
      next r >>= λ f. elim f [ stop r' ↦ ok (stats r') | got s r' ↦ statistics_loop fuel r' ]

  unfoldable pub encoding_statistics : Encoding → Outcome RepresentationStats
  encoding_statistics e = do r ← cursor e; statistics_loop (suc (left r)) r

  unfoldable pub spans_loop : ℕ → Cursor → List Span → Outcome (List Span)
  spans_loop zero r result = ok result
  spans_loop (suc fuel) r result = next r >>= λ f. elim f [
    | stop r' ↦ ok result
    | got s r' ↦ spans_loop fuel r' (result ++ (s ∷ []))
  ]

  unfoldable pub inspect_spans : Encoding → Outcome (List Span)
  inspect_spans e = do r ← cursor e; spans_loop (suc (left r)) r []

  -- `n` groups of `encode_bitmap` from group `i` on.
  unfoldable pub append_groups : List ℕ → ℕ → ℕ → ℕ → Writer → Outcome Writer
  append_groups raw width zero i out = ok out
  append_groups raw width (suc n) i out =
      append out (read_group raw (i * width) width) 1 >>= λ out'.
      append_groups raw width n (i + 1) out'

  -- The end of `encode_bitmap`, once the width is known.
  unfoldable pub encode_width : Codec → List ℕ → ℕ → ℕ → ℕ → Outcome Encoding
  encode_width c raw n width groups = do
    start ← writer c n width groups
    out ← append_groups raw width (group_count n width) 0 start
    finish out

  -- `encode_bitmap` where the VAL segment size is not left to it.
  unfoldable pub encode_fixed : Codec → List ℕ → ℕ → CodecOptions → Outcome Encoding
  encode_fixed c raw n options = do
    check_raw raw n
    if same_codec c val
        then (require (is_segment options.val_segment_bits) val_segment
            >> encode_width c raw n options.val_segment_bits options.sbh_groups)
        else encode_width c raw n (width_for c) options.sbh_groups

  -- The loop over the segment sizes; the first of the smallest results is kept.
  unfoldable pub smallest : Codec → List ℕ → ℕ → CodecOptions → Encoding → List ℕ → Outcome Encoding
  smallest c raw n options best [] = ok best
  smallest c raw n options best (w ∷ ws) =
      encode_fixed c raw n (record options { val_segment_bits = w }) >>= λ e.
      smallest c raw n (record options { val_segment_bits = w })
        (if (length best.bytes == 0) || ltb (length e.bytes) (length best.bytes) then e else best)
        ws

  unfoldable pub encode_bitmap : Codec → List ℕ → ℕ → CodecOptions → Outcome Encoding
  encode_bitmap c raw n options =
      if same_codec c val && (options.val_segment_bits == 0)
      then (check_raw raw n >> smallest c raw n options (no_encoding c) (15 ∷ 30 ∷ 60 ∷ []))
      else encode_fixed c raw n options

  unfoldable pub load_encoding : Codec → ℕ → List ℕ → Outcome Encoding
  load_encoding c n payload = do
    require (leb n (2 ^ 32)) load_universe
    width ← selected_width c payload
    groups ← stored_groups c payload
    let e : Encoding = record {
      codec = c;
      num_bits = n;
      width = width;
      sbh_groups = groups;
      bytes = payload;
    }
    validate e
    ok e
