-- ===== src/Tests/Codecs.antt =====
-- backends/codecs.cpp, backends/word_codecs.cpp and backends/stream_backend.cpp.
use bitmap_comp_framework.Prelude.{
  ℕ, ◌^◌, ◌≤◌, ◌≡◌, refl, ◌∙◌, sym, true, false, List, [], ◌∷◌, length, arith, ok, ◌↔◌, ◌<◌, ◌-◌,
  ◌+◌, ◌*◌,
}
use mathlib.Core.Path.{subst}
use bitmap_comp_framework.Bits
use bitmap_comp_framework.Bits.Combine.{combine_words}
use bitmap_comp_framework.Backend.Query.{answer}
use bitmap_comp_framework.Binary.{get, get_loop, low_mask, put_le, put_le_loop}
use bitmap_comp_framework.Bits.{words_for_bits, popcount64, popcount_loop, ctz64, ctz_loop}
use bitmap_comp_framework.Codecs.{
  ewah, concise, plwah, val, default_options, Encoding, same_codec, group_count, read_group,
  uniform, Span, got,
}
use bitmap_comp_framework.Codecs.Operations.{
  encode_bitmap, decode_bitmap, encoding_cardinality, load_encoding, encode_fixed, check_raw,
  is_segment, width_for, encode_width, append_groups, inspect_spans, spans_loop,
}
use bitmap_comp_framework.Codecs.Combining.{combine_bitmaps}
use bitmap_comp_framework.Codecs.Encode.{Stands}
use bitmap_comp_framework.StreamBackend.{
  StreamBackend, EncodedResult, new_backend, serialize, serialized_bytes, deserialize,
  result_cardinality, to_words, build, query,
}
use bitmap_comp_framework.StreamBackend.Words.{
  concise_fills, ewah_fills, plwah_fills, fill_codec-Streamed, fill_encode-Stands, fill_query-build,
  decode-encode_fill, combine-encode_fill,
}
use bitmap_comp_framework.WordCodecs.Words.{word_coding}
use bitmap_comp_framework.WordCodecs.Cursor.{
  WordCursor, fresh_cursor, open_cursor, next, next_pending, next_span, next_word, fill_spans,
  next_val, val_end, load_val, next_slot,
}
use bitmap_comp_framework.WordCodecs.Writer.{
  new_writer, append, append_concise, concise_fill, concise_round, concise_literals,
  concise_literal, push32, finish,
}
use bitmap_comp_framework.WordCodecs.Bound.{left, next-Shrinks}
use bitmap_comp_framework.WordCodecs.Concise.Laws.{concise_laws}
use bitmap_comp_framework.Codecs.Yields.{Yields}
use bitmap_comp_framework.WordCodecs.Spans.{inspect_spans-Yields}
use bitmap_comp_framework.Statistics.{no_units}
use bitmap_comp_framework.Codecs.Merge.{combine_bitmaps-Stands}
use bitmap_comp_framework.StreamBackend.Query.{Streamed}
use bitmap_comp_framework.StreamBackend.Storage.{IsStored, IsBackend, deserialize-serialize_stream}
use bitmap_comp_framework.Tests.Samples.{
  first_raw, second_raw, raws, raws-IsWord, raws_valid, first-IsRaw, second-IsRaw,
}

small : 100 ≤ 2 ^ 32
small = omega arith

abbrev ids : List ℕ
ids = 0 ∷ 1 ∷ []

abbrev start : StreamBackend
start = new_backend plwah default_options

fill_query-build_example :
    (b : StreamBackend) × (r : EncodedResult) × (build word_coding start raws 100 ≡ ok b)
    × (query word_coding true b ids ≡ ok r)
    × (to_words word_coding r ≡ ok (answer true raws ids))
    × (result_cardinality word_coding r ≡ ok (Bits.cardinality (answer true raws ids)))
fill_query-build_example =
    fill_query-build start raws 100 true ids plwah_fills raws-IsWord raws_valid (λ e. cc)
      (omega arith)

decode-encode_fill_example :
    (e : Encoding) × (encode_bitmap word_coding ewah first_raw 100 default_options ≡ ok e)
    × (decode_bitmap word_coding e ≡ ok first_raw)
    × (encoding_cardinality word_coding e ≡ ok (Bits.cardinality first_raw))
    × (load_encoding word_coding ewah 100 e.bytes ≡ ok e)
decode-encode_fill_example =
    decode-encode_fill ewah default_options ewah_fills 100 small first_raw first-IsRaw

combine-encode_fill_example :
    (a : Encoding) × (b : Encoding) × (e : Encoding) × (encode_bitmap word_coding plwah first_raw
        100 default_options
      ≡ ok a)
    × (encode_bitmap word_coding plwah second_raw 100 default_options ≡ ok b)
    × (combine_bitmaps word_coding a b false ≡ ok e)
    × (decode_bitmap word_coding e ≡ ok (combine_words false first_raw second_raw))
    × (load_encoding word_coding plwah 100 e.bytes ≡ ok e)
combine-encode_fill_example =
    combine-encode_fill plwah default_options plwah_fills 100 small first_raw second_raw false
      first-IsRaw second-IsRaw

abbrev concise_first : Encoding
concise_first = record {
  codec = concise;
  num_bits = 100;
  width = 31;
  sbh_groups = 128;
  bytes = 1 ∷ 0 ∷ 0 ∷ 64 ∷ 23 ∷ 0 ∷ 0 ∷ 128 ∷ 0 ∷ 0 ∷ 0 ∷ 0 ∷ [];
}

concise_run : encode_bitmap word_coding concise first_raw 100 default_options ≡ ok concise_first
concise_run =
    unfold encode_bitmap encode_fixed same_codec check_raw is_segment words_for_bits width_for
      encode_width append_groups group_count read_group low_mask new_writer append append_concise
      uniform concise_fill concise_round concise_literals concise_literal push32 put_le put_le_loop
      finish popcount64 popcount_loop ctz64 ctz_loop in
    refl

-- What an encoder's run stands for.
concise_Stands :
    (e : Encoding)
    → encode_bitmap word_coding concise first_raw 100 default_options ≡ ok e
    → Stands word_coding concise 31 100 e first_raw
unfolding width_for same_codec
concise_Stands e run =
    let (e', run', stands) =
      fill_encode-Stands concise default_options concise_fills 100 small first_raw first-IsRaw in
    subst (λ e. Stands word_coding concise 31 100 e first_raw) (same e' e (sym run' ∙ run)) stands
  where
    same : (e' e : Encoding) → ok e' ≡ ok e → e' ≡ e
    same e' e h = cc

abbrev stored : StreamBackend
stored = record {
  codec = concise;
  options = default_options;
  num_bits = 100;
  bitmaps = concise_first ∷ concise_first ∷ [];
}

concise_Streamed : Streamed word_coding concise default_options
concise_Streamed = fill_codec-Streamed concise default_options concise_fills

stored-IsBackend : IsBackend word_coding concise default_options concise_Streamed stored
unfolding width_for same_codec
stored-IsBackend =
    let one : IsStored word_coding concise default_options concise_Streamed 100 concise_first =
      record {
        raw = first_raw;
        raw_shape = first-IsRaw;
        stands = concise_Stands concise_first concise_run;
        fits = omega arith;
      } in
    record {
      codec_is = refl;
      universe_fits = small;
      stored = (one, (one, tt));
      count_fits = omega arith;
    }

deserialize-serialize_stream_example :
    (bytes : List ℕ) × (serialize stored ≡ ok bytes)
    × (length bytes ≡ serialized_bytes stored)
    × (deserialize word_coding (new_backend concise default_options) bytes ≡ ok stored)
deserialize-serialize_stream_example =
    deserialize-serialize_stream word_coding concise default_options concise_Streamed stored
      stored-IsBackend (new_backend concise default_options) refl

-- A VAL stream of one word whose first slot is a fill of three groups of ones.
abbrev val_encoding : Encoding
val_encoding = record {
  codec = val;
  num_bits = 100;
  width = 15;
  sbh_groups = 128;
  bytes = 17 ∷ 0 ∷ 0 ∷ 0 ∷ 0 ∷ 0 ∷ 96 ∷ 0 ∷ 136 ∷ [];
}

abbrev val_cursor : WordCursor
val_cursor =
    fresh_cursor val_encoding (record { pos = 1; rest = 0 ∷ 0 ∷ 0 ∷ 0 ∷ 0 ∷ 96 ∷ 0 ∷ 136 ∷ [] })

-- The cursor behind the fill.
abbrev val_cursor_next : WordCursor
val_cursor_next = record val_cursor {
  input = record { pos = 9; rest = [] };
  word = 0x8800600000000000;
  val_groups = 3;
  slot = 1;
  slots = 4;
  stats = record no_units { control_units = 1; fill_units = 1 };
}

next_run : next val_cursor ≡ ok (got (record { value = 2 ^ 15 - 1; count = 3 }) val_cursor_next)
next_run =
    unfold next next_pending next_span same_codec next_val val_end load_val next_slot group_count
      get get_loop low_mask in
    refl

-- The spans left go from 23 at most to 4 at most.
next-Shrinks_example :
    (val_cursor_next.val_groups ≤ group_count 100 15) × (left val_cursor_next < left val_cursor)
unfolding next next_pending next_span same_codec next_val val_end load_val next_slot group_count get
    get_loop low_mask
next-Shrinks_example = next-Shrinks val_cursor (omega arith)

abbrev concise_spans : List Span
concise_spans =
    record { value = 2 ^ 31 - 1; count = 2 }
    ∷ record { value = 23; count = 1 }
    ∷ record { value = 0; count = 1 }
    ∷ []

inspect_run : inspect_spans word_coding concise_first ≡ ok concise_spans
inspect_run =
    unfold inspect_spans spans_loop open_cursor next next_pending next_span same_codec next_word
      fill_spans group_count get get_loop low_mask in
    refl

inspect_spans-Yields_example :
    ((inspect_spans word_coding concise_first ≡ ok concise_spans)
      ↔ ((r : WordCursor) × (open_cursor concise_first ≡ ok r) × Yields next r concise_spans))
    × (inspect_spans word_coding concise_first ≡ ok concise_spans
        → length concise_spans ≤ 2 * length concise_first.bytes + group_count 100 31)
inspect_spans-Yields_example = inspect_spans-Yields concise_first concise_spans

combine_bitmaps-Stands_example :
    (e : Encoding) × (combine_bitmaps word_coding concise_first concise_first true ≡ ok e)
    × Stands word_coding concise 31 100 e (combine_words true first_raw first_raw)
unfolding same_codec
combine_bitmaps-Stands_example =
    combine_bitmaps-Stands word_coding concise 100 31 1 1 (omega arith) (omega arith) (omega arith)
      (omega arith) (omega arith) refl refl concise_laws small concise_first concise_first first_raw
      first_raw first-IsRaw first-IsRaw (concise_Stands concise_first concise_run)
      (concise_Stands concise_first concise_run) true
