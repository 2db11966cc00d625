-- ===== src/WordCodecs/Words.antt =====
-- `word_cursor` and `word_writer` of backends/word_codecs.cpp as a coding.
use bitmap_comp_framework.Prelude.{ok, Ensures-eq}
use bitmap_comp_framework.Codecs.{Coding, got}
use bitmap_comp_framework.WordCodecs.Cursor
use bitmap_comp_framework.WordCodecs.Writer
use bitmap_comp_framework.WordCodecs.Bound.{
  IsCursor, left, open_cursor-IsCursor, Shrinks, next-Shrinks,
}

abbrev pub word_coding : Coding
word_coding = record {
  Cursor = Cursor.WordCursor;
  cursor = Cursor.open_cursor;
  next = Cursor.next;
  stats = λ c. c.stats;
  left = left;
  IsCursor = IsCursor;
  cursor-IsCursor =
      λ e c h. Ensures-eq IsCursor (Cursor.open_cursor e) c (open_cursor-IsCursor e) h;
  next-IsCursor =
      λ c s c' is h. Ensures-eq (Shrinks c) (Cursor.next c) (got s c') (next-Shrinks c is) h;
  Writer = Writer.WordWriter;
  writer = λ c n width groups. ok (Writer.new_writer c n width);
  append = Writer.append;
  finish = Writer.finish;
}
