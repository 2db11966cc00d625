-- ===== src/WordCodecs/Bound.antt =====
-- The spans that `WordCursor::next` of backends/word_codecs.cpp can still return are bounded, on any
-- bytes at all.
use bitmap_comp_framework.Prelude.{
  ℕ, zero, suc, ◌+◌, ◌-◌, ◌*◌, ◌/◌, ◌^◌, ◌≤◌, ◌<◌, bit_and, ◌≡◌, refl, ap, not, List, [], ◌∷◌,
  length, arith, Outcome, ok, throw, ◌==◌, ltb, leb, length-append, Ensures, Ensures->>=,
  Ensures-require, Ensures-eq, if-cases, ◌||◌, truncated_data, invalid_selector, zero_counter,
  truncated_literals, empty_marker, truncated_word, reserved_flags, fill_counter, extra_words,
  if◌then◌else◌,
}
use bitmap_comp_framework.Binary.{ByteReader, remaining, get_loop, get, reader, low_mask}
use bitmap_comp_framework.Bits.{◌>>>◌}
use bitmap_comp_framework.Codecs.{
  plwah, ewah, Codec, Encoding, Span, Fetch, stop, got, group_count, same_codec, val,
}
use bitmap_comp_framework.WordCodecs.Cursor.{
  WordCursor, fresh_cursor, open_cursor, fill_spans, exception_span, next_word, next_ewah_literal,
  next_ewah_marker, next_ewah, load_val, next_slot, val_end, next_val, next_span, next_pending,
  next, count_control, is_literal, fill_position, fill_counter_of, fill_base,
}

get_loop-length :
    (k i v pos : ℕ) (rest : List ℕ)
    → k ≤ length rest
    → length (get_loop k i v pos rest).1.rest + k ≡ length rest
unfolding get_loop
get_loop-length zero i v pos rest h = omega arith
get_loop-length (suc k) i v pos [] h = absurd (omega arith)
get_loop-length (suc k) i v pos (b ∷ rest) h =
    omega (arith, get_loop-length k (i + 1) _ (pos + 1) rest (omega arith))

-- A read that succeeds takes as many bytes as it was asked for.
pub get-length :
    (r : ByteReader) (k : ℕ)
    → Ensures (λ (got : ℕ × ByteReader). remaining got.1 + k ≡ remaining r) (get r k)
unfolding get
get-length r k =
    let P = λ (got : ℕ × ByteReader). remaining got.1 + k ≡ remaining r in
    if-cases (Ensures P) (ltb 8 k || ltb (remaining r) k) (throw truncated_data)
      (ok (get_loop k 0 0 r.pos r.rest)) (λ e. tt)
      (λ e. get_loop-length k 0 0 r.pos r.rest (ground arith))

-- The groups of a VAL stream that are read do not pass its end.
abbrev pub target : WordCursor → ℕ
target c = group_count c.source.num_bits c.source.width

abbrev pub IsCursor : WordCursor → Type 0
IsCursor c = c.val_groups ≤ target c

abbrev pub left : WordCursor → ℕ
left c = 2 * remaining c.input + length c.pending + (target c - c.val_groups)

-- What `next` may do to a cursor.
abbrev pub Shrinks : WordCursor → Fetch WordCursor → Type 0
Shrinks c (stop c') = Unit
Shrinks c (got s c') = IsCursor c' × (left c' < left c)

abbrev Good : WordCursor → Outcome (Fetch WordCursor) → Type 0
Good c = Ensures (Shrinks c)

pub open_cursor-IsCursor : (e : Encoding) → Ensures IsCursor (open_cursor e)
unfolding open_cursor
open_cursor-IsCursor e =
    if-cases (Ensures IsCursor) (same_codec e.codec val) _ _
      (λ _. Ensures->>= IsCursor (get (reader e.bytes) 1) _ λ got _.
        Ensures-require IsCursor _ invalid_selector (ok (fresh_cursor e got.1)) λ _. omega arith)
      (λ _. omega arith)

module _ (c : WordCursor) (is : IsCursor c) where
  fill_spans-few :
      (codec : Codec) (p count base : ℕ)
      → Ensures (λ (r : Span × List Span). length r.1 ≤ 1) (fill_spans codec p count base)
  unfolding fill_spans
  fill_spans-few codec p count base =
      if-cases (Ensures few) (same_codec codec plwah) _ _
        (λ _.
          Ensures-require few _ zero_counter
            (ok (
              record { value = base; count = count },
              if p == 0 then [] else (exception_span base p ∷ []),
            ))
            λ _.
              if-cases (λ (l : List Span). length l ≤ 1) (p == 0) _ _ (λ _. omega arith)
                (λ _. omega arith))
        λ _.
          if-cases (Ensures few) (p == 0) _ _ (λ _. omega arith)
            λ _.
              if-cases (λ (l : List Span). length l ≤ 1) (count == 0) _ _ (λ _. omega arith)
                (λ _. omega arith)
    where
      few : Span × List Span → Type 0
      few r = length r.1 ≤ 1

  next_ewah_literal-Shrinks :
      (c' : WordCursor)
      → IsCursor c'
      → left c' ≤ left c
      → Ensures (Shrinks c) (next_ewah_literal c')
  unfolding next_ewah_literal
  next_ewah_literal-Shrinks c' is' le =
      Ensures->>= (Shrinks c) (get c'.input 8) _ λ (word, input) e.
        let took = Ensures-eq _ (get c'.input 8) (word, input) (get-length c'.input 8) e in
        (is', omega arith)

  next_ewah-Shrinks : Good c (next_ewah c)
  unfolding next_ewah next_ewah_marker
  next_ewah-Shrinks =
      if-cases (Good c) (c.literals == 0) _ _
        (λ _.
          if-cases (Good c) (remaining c.input == 0) _ _ (λ _. tt)
            λ _. Ensures->>= (Shrinks c) (get c.input 8) _ λ (marker, input) e.
              let took = Ensures-eq _ (get c.input 8) (marker, input) (get-length c.input 8) e in
              let c' : WordCursor = record c {
                input = input;
                literals = marker >>> 33;
                stats = count_control c.stats;
              } in
              Ensures-require (Shrinks c) (leb (marker >>> 33) (remaining input / 8))
                truncated_literals _
                λ _.
                  if-cases (Good c) (not (bit_and (marker >>> 1) (2 ^ 32 - 1) == 0)) _ _
                    (λ _. (is, omega arith))
                    λ _.
                      if-cases (Good c) (marker >>> 33 == 0) _ _
                        (λ _. Ensures-require (Shrinks c) _ empty_marker (ok (stop c')) λ _. tt)
                        λ _. next_ewah_literal-Shrinks c' is (omega arith))
        (λ _. next_ewah_literal-Shrinks c is (omega arith))

  -- Loading a word of VAL reads nothing off the groups.
  abbrev Loaded : WordCursor → Type 0
  Loaded c' =
      (c'.source ≡ c.source)
      × (c'.val_groups ≡ c.val_groups)
      × (c'.pending ≡ c.pending)
      × (remaining c'.input ≤ remaining c.input)

  load_val-Loaded : Ensures Loaded (load_val c)
  unfolding load_val
  load_val-Loaded =
      if-cases (Ensures Loaded) (not (c.slot == c.slots)) _ _ (λ _. (refl, refl, refl, omega arith))
        λ _. Ensures-require Loaded (leb 8 (remaining c.input)) truncated_word _ λ _.
          Ensures->>= Loaded (get c.input 8) _ λ (word, input) e.
            let took = Ensures-eq _ (get c.input 8) (word, input) (get-length c.input 8) e in
            Ensures-require Loaded (bit_and (word >>> 60) (low_mask (4 - 60 / c.source.width)) == 0)
              reserved_flags (ok _) λ _. (refl, refl, refl, omega arith)

  next_slot-Shrinks :
      (c' : WordCursor) → Loaded c' → c.val_groups < target c → Good c (next_slot c' (target c))
  unfolding next_slot
  next_slot-Shrinks c' (source, groups, pending, less) more =
      let same : target c' ≡ target c =
        ap (λ (e : Encoding). group_count e.num_bits e.width) source in
      let waiting = ap (length {A = Span}) pending in
      if-cases (Good c) (bit_and (c'.word >>> (63 - c'.slot)) 1 == 0) _ _
        (λ _. (omega arith, omega arith))
        λ _.
          Ensures-require (Shrinks c) _ fill_counter (ok _)
            λ h. (ground (arith, h), ground (arith, h))

  next_val-Shrinks : Good c (next_val c)
  unfolding next_val
  next_val-Shrinks =
      if-cases (Good c) (c.val_groups == target c) _ _
        (λ _.
          Ensures->>= (Shrinks c) (val_end c) _
            λ _ _. Ensures-require (Shrinks c) _ extra_words (ok (stop c)) λ _. tt)
        λ ne. Ensures->>= (Shrinks c) (load_val c) _ λ c' e.
          next_slot-Shrinks c' (Ensures-eq Loaded (load_val c) c' load_val-Loaded e)
            (ground (arith, is))

  next_word-Shrinks : Good c (next_word c)
  unfolding next_word
  next_word-Shrinks =
      if-cases (Good c) (remaining c.input == 0) _ _ (λ _. tt)
        λ _. Ensures->>= (Shrinks c) (get c.input 4) _ λ (word, input) e.
          let took = Ensures-eq _ (get c.input 4) (word, input) (get-length c.input 4) e in
          if-cases (Good c) (is_literal c.source.codec word) _ _ (λ _. (is, omega arith))
            λ _.
              Ensures->>= (Shrinks c)
                (fill_spans c.source.codec (fill_position word) (fill_counter_of word)
                  (fill_base word))
                _
                λ (s, more) e'.
                  let few =
                    Ensures-eq _
                      (fill_spans c.source.codec (fill_position word) (fill_counter_of word)
                        (fill_base word))
                      (s, more)
                      (fill_spans-few c.source.codec (fill_position word) (fill_counter_of word)
                        (fill_base word))
                      e' in
                  (is, omega (arith, length-append c.pending more))

  next_span-Shrinks : Good c (next_span c)
  unfolding next_span
  next_span-Shrinks =
      if-cases (Good c) (same_codec c.source.codec ewah) _ _ (λ _. next_ewah-Shrinks)
        λ _.
          if-cases (Good c) (same_codec c.source.codec val) _ _ (λ _. next_val-Shrinks)
            (λ _. next_word-Shrinks)

-- On any bytes, from a cursor of EWAH, CONCISE, PLWAH or VAL that has read no more groups than its
-- universe has: after a span that `next` returns the same holds again, and `left`, which is twice the
-- bytes left, the pending spans and the groups not yet read, is smaller.
pub next-Shrinks : (c : WordCursor) → IsCursor c → Ensures (Shrinks c) (next c)
unfolding next
next-Shrinks c is = next_pending-Shrinks c.pending refl
  where
    next_pending-Shrinks :
        (ss : List Span) → c.pending ≡ ss → Ensures (Shrinks c) (next_pending c ss)
    next_pending-Shrinks [] e = unfold next_pending in next_span-Shrinks c is
    next_pending-Shrinks (s ∷ more) e =
        unfold next_pending in (is, omega (arith, ap (length {A = Span}) e))
