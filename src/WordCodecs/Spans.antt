-- ===== src/WordCodecs/Spans.antt =====
-- `inspect_spans` of backends/codecs.cpp over the cursors of backends/word_codecs.cpp.
use bitmap_comp_framework.Prelude.{
  ◌+◌, ◌*◌, ◌≤◌, ◌≡◌, ok, ◌↔◌, List, length, arith, Ensures, Ensures-eq, Ensures->>=,
  Ensures-require, if-cases, invalid_selector,
}
use bitmap_comp_framework.Binary.{reader, get}
use bitmap_comp_framework.Codecs.{Encoding, Span, group_count, val, same_codec}
use bitmap_comp_framework.Codecs.Operations.{inspect_spans}
use bitmap_comp_framework.Codecs.Yields.{Yields, inspect_spans-yielded, yielded-inspect_spans}
use bitmap_comp_framework.WordCodecs.Cursor.{WordCursor, fresh_cursor, open_cursor, next}
use bitmap_comp_framework.WordCodecs.Bound.{left, get-length}
use bitmap_comp_framework.WordCodecs.Words.{word_coding}

-- Where a cursor opens, its bound is that of the encoding.
open_cursor-left :
    (e : Encoding)
    → Ensures (λ r. left r ≤ 2 * length e.bytes + group_count e.num_bits e.width) (open_cursor e)
unfolding open_cursor
open_cursor-left e =
    if-cases (Ensures small) (same_codec e.codec val) _ _
      (λ _. Ensures->>= small (get (reader e.bytes) 1) _ λ got h.
        let took = Ensures-eq _ (get (reader e.bytes) 1) got (get-length (reader e.bytes) 1) h in
        Ensures-require small _ invalid_selector (ok (fresh_cursor e got.1)) λ _. omega arith)
      (λ _. omega arith)
  where
    small : WordCursor → Type 0
    small r = left r ≤ 2 * length e.bytes + group_count e.num_bits e.width

-- On an encoding of EWAH, CONCISE, PLWAH or VAL with any bytes: `inspect_spans` returns spans exactly
-- if the cursor opens and its calls of `next` return these spans, one after the other, and then
-- `false`; and then there are at most two for each byte and one for each group of the universe.
pub inspect_spans-Yields :
    (e : Encoding) (spans : List Span)
    → ((inspect_spans word_coding e ≡ ok spans)
        ↔ ((r : WordCursor) × (open_cursor e ≡ ok r) × Yields next r spans))
      × (inspect_spans word_coding e ≡ ok spans
          → length spans ≤ 2 * length e.bytes + group_count e.num_bits e.width)
inspect_spans-Yields e spans = (
  (
    λ run.
        let (r, opened, all, few) = inspect_spans-yielded word_coding e spans run in
        (r, opened, all),
    λ there. yielded-inspect_spans word_coding e spans there.0 there.1 there.2,
  ),
  λ run.
      let (r, opened, all, few) = inspect_spans-yielded word_coding e spans run in
      let bound = Ensures-eq _ (open_cursor e) r (open_cursor-left e) opened in omega arith,
)
