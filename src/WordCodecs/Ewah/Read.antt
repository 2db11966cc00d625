-- ===== src/WordCodecs/Ewah/Read.antt =====
-- `WordCursor::ewah` of backends/word_codecs.cpp on the bytes of segments.
use bitmap_comp_framework.Prelude.{
  ℕ, suc, ◌+◌, ◌-◌, ◌/◌, ◌^◌, ◌<◌, ◌≡◌, refl, ◌∙◌, ap, sym, true, false, inl, inr, Bool, List, [],
  ◌∷◌, ◌++◌, length, replicate, All, arith, ok, ◌==◌, leb, Bool-cases, length-append, if◌then◌else◌,
  append_assoc, append-nil, ==→eq,
}
use mathlib.Core.Path.{subst}
use bitmap_comp_framework.Binary.{low_mask, get}
use bitmap_comp_framework.Binary.RoundTrip.{le_bytes, length-le_bytes, get-le_bytes}
use bitmap_comp_framework.Binary.Words.{word_bytes, length-word_bytes}
use bitmap_comp_framework.Codecs.{ewah, same_codec, stop, got, uniform}
use bitmap_comp_framework.Codecs.Reads.{Reads, ends, reads, IsSpan, Reads-same}
use bitmap_comp_framework.Statistics.{RepresentationStats}
use bitmap_comp_framework.WordCodecs.Cursor.{
  WordCursor, next_ewah_literal, next_ewah_marker, next_ewah, next_span, next_pending, next,
  count_literal, count_fill, count_control,
}
use bitmap_comp_framework.WordCodecs.Ewah.{
  Segment, IsSegment, word_of, digit_of, marker, segments_bytes, segments_groups, marker_value,
  marker_fills, marker_literals, marker_digit,
}

run-IsSpan :
    (b : Bool) (count : ℕ) → 0 < count → IsSpan 64 (record { value = word_of b; count = count })
unfolding uniform low_mask
run-IsSpan true count pos = record { some = pos; fits = omega arith; single = λ e. cc }
run-IsSpan false count pos = record { some = pos; fits = omega arith; single = λ e. cc }

module _ (cur : WordCursor) (of : cur.source.codec ≡ ewah) where
  -- The cursor before given bytes, with literals of the last marker still to come.
  abbrev pub before : ℕ → List ℕ → ℕ → RepresentationStats → WordCursor
  before pos rest literals stats = record cur {
    input = record { pos = pos; rest = rest };
    pending = [];
    literals = literals;
    stats = stats;
  }

  next_is :
      (pos : ℕ) (rest : List ℕ) (l : ℕ) (st : RepresentationStats)
      → next (before pos rest l st) ≡ next_ewah (before pos rest l st)
  unfolding next next_pending next_span same_codec
  next_is pos rest l st = rw of

  literals-Reads :
      (vs rest gs : List ℕ) (pos : ℕ) (st : RepresentationStats)
      → All (λ v. v < 2 ^ 64) vs
      → ((pos' : ℕ) (st' : RepresentationStats) → Reads next 64 (before pos' rest 0 st') gs)
      → Reads next 64 (before pos (word_bytes vs ++ rest) (length vs) st) (vs ++ gs)
  unfolding word_bytes
  literals-Reads [] rest gs pos st h more = more pos st
  literals-Reads (v ∷ vs) rest gs pos st h more =
      reads (record { value = v; count = 1 })
        (before (pos + 8) (word_bytes vs ++ rest) (length vs) (count_literal st)) (vs ++ gs) step
        (record { some = omega arith; fits = h.0; single = λ e. refl }) refl
        (literals-Reads vs rest gs (pos + 8) (count_literal st) h.1 more)
    where
      step :
          next (before pos ((le_bytes 8 v ++ word_bytes vs) ++ rest) (suc (length vs)) st)
          ≡ ok (
              got
                (record { value = v; count = 1 })
                (before (pos + 8) (word_bytes vs ++ rest) (length vs) (count_literal st)))
      step =
          let some : (suc (length vs) == 0) ≡ false = ground arith in
          let fewer : suc (length vs) - 1 ≡ length vs = omega arith in
          next_is pos ((le_bytes 8 v ++ word_bytes vs) ++ rest) (suc (length vs)) st
          ∙ (unfold next_ewah next_ewah_literal in
              rw (
                some,
                append_assoc (le_bytes 8 v) (word_bytes vs) rest,
                get-le_bytes v 8 pos (word_bytes vs ++ rest) (omega arith) h.0,
                fewer,
              ))

  module _ (s : Segment) (is : IsSegment s) (rest : List ℕ) (pos : ℕ)
      (st : RepresentationStats) where
    abbrev m : ℕ
    m = marker s.ones s.fills (length s.literals)

    abbrev after : List ℕ
    after = word_bytes s.literals ++ rest

    there : (length (le_bytes 8 m ++ after) == 0) ≡ false
    there = ground (arith, length-append (le_bytes 8 m) after, length-le_bytes 8 m)

    got_marker :
        get (record { pos = pos; rest = le_bytes 8 m ++ after }) 8
        ≡ ok (m, record { pos = pos + 8; rest = after })
    got_marker =
        get-le_bytes m 8 pos after (omega arith)
          (marker_value s.ones s.fills (length s.literals) is.fills_fit is.count_fits).1

    enough : leb (length s.literals) (length after / 8) ≡ true
    enough =
        ground (arith, length-append (word_bytes s.literals) rest, length-word_bytes s.literals)

    segment_fill :
        (s.fills == 0) ≡ false
        → next (before pos (le_bytes 8 m ++ after) 0 st)
          ≡ ok (
              got
                (record { value = word_of s.ones; count = s.fills })
                (before (pos + 8) after (length s.literals) (count_fill (count_control st))))
    segment_fill some =
        next_is pos (le_bytes 8 m ++ after) 0 st
        ∙ (unfold next_ewah next_ewah_marker in
            rw
              (
                there,
                got_marker,
                marker_literals s.ones s.fills (length s.literals) is.fills_fit is.count_fits,
                marker_fills s.ones s.fills (length s.literals) is.fills_fit is.count_fits,
                marker_digit s.ones s.fills (length s.literals) is.fills_fit is.count_fits,
                enough,
                some,
              )
              (value s.ones))
      where
        value :
            (b : Bool)
            → ok (
                got
                  (record { value = if digit_of b == 0 then 0 else 2 ^ 64 - 1; count = s.fills })
                  (before (pos + 8) after (length s.literals) (count_fill (count_control st))))
              ≡ ok (
                  got
                    (record { value = word_of b; count = s.fills })
                    (before (pos + 8) after (length s.literals) (count_fill (count_control st))))
        value true = refl
        value false = refl

    marker_literal :
        (s.fills == 0) ≡ true
        → next_ewah (before pos (le_bytes 8 m ++ after) 0 st)
          ≡ next_ewah (before (pos + 8) after (length s.literals) (count_control st))
    unfolding next_ewah next_ewah_marker
    marker_literal none = rw (
      there,
      got_marker,
      marker_literals s.ones s.fills (length s.literals) is.fills_fit is.count_fits,
      marker_fills s.ones s.fills (length s.literals) is.fills_fit is.count_fits,
      enough,
      none,
      more none,
    )
      where
        more : (s.fills == 0) ≡ true → (length s.literals == 0) ≡ false
        more none = ground (arith, is.some)

    segment_literal :
        (s.fills == 0) ≡ true
        → next (before pos (le_bytes 8 m ++ after) 0 st)
          ≡ next (before (pos + 8) after (length s.literals) (count_control st))
    segment_literal none =
        next_is pos (le_bytes 8 m ++ after) 0 st
        ∙ marker_literal none
        ∙ sym (next_is (pos + 8) after (length s.literals) (count_control st))

    -- What is read from a segment on, given what is read after it.
    segment-Reads :
        (gs : List ℕ)
        → ((pos' : ℕ) (st' : RepresentationStats) → Reads next 64 (before pos' rest 0 st') gs)
        → Reads next 64
            (before pos (le_bytes 8 m ++ after) 0 st)
            (replicate s.fills (word_of s.ones) ++ (s.literals ++ gs))
    segment-Reads gs more = elim (Bool-cases (s.fills == 0)) [
      | inl none ↦
          let zero : s.fills ≡ 0 = ==→eq s.fills 0 none in
          let same : s.literals ++ gs ≡ replicate s.fills (word_of s.ones) ++ (s.literals ++ gs) =
            ap (λ n. replicate n (word_of s.ones) ++ (s.literals ++ gs)) (sym zero) in
          subst (Reads next 64 (before pos (le_bytes 8 m ++ after) 0 st)) same (
            Reads-same next 64 (segment_literal none)
              (literals-Reads s.literals rest gs (pos + 8) (count_control st) is.words more))
      | inr some ↦
          reads (record { value = word_of s.ones; count = s.fills })
            (before (pos + 8) after (length s.literals) (count_fill (count_control st)))
            (s.literals ++ gs) (segment_fill some) (run-IsSpan s.ones s.fills (ground arith)) refl
            (literals-Reads s.literals rest gs (pos + 8) (count_fill (count_control st)) is.words
              more)
    ]

  -- From segments the cursor reads their groups.
  pub segments-Reads :
      (ss : List Segment) (pos : ℕ) (st : RepresentationStats)
      → All IsSegment ss
      → Reads next 64 (before pos (segments_bytes ss) 0 st) (segments_groups ss)
  unfolding segments_bytes segments_groups
  segments-Reads [] pos st h =
      ends (before pos [] 0 st) (next_is pos [] 0 st ∙ (unfold next_ewah next_ewah_marker in refl))
        refl
  segments-Reads (s ∷ ss) pos st h =
      segment-Reads s h.0 (segments_bytes ss) pos st (segments_groups ss)
        λ pos' st'. segments-Reads ss pos' st' h.1

  zero_marker :
      (pos : ℕ)
      → get (record { pos = pos; rest = le_bytes 8 0 }) 8
        ≡ ok (0, record { pos = pos + 8; rest = [] })
  zero_marker pos =
      subst
        (λ bs.
          get (record { pos = pos; rest = bs }) 8 ≡ ok (0, record { pos = pos + 8; rest = [] }))
        (append-nil (le_bytes 8 0)) (get-le_bytes 0 8 pos [] (omega arith) (omega arith))

  empty_stops :
      (pos : ℕ) (st : RepresentationStats)
      → cur.source.num_bits ≡ 0
      → next_ewah (before pos (le_bytes 8 0) 0 st)
        ≡ ok (stop (before (pos + 8) [] 0 (count_control st)))
  unfolding next_ewah next_ewah_marker le_bytes
  empty_stops pos st none = rw (zero_marker pos, none) refl

  -- The marker of an empty universe ends the stream.
  pub empty-Reads :
      (pos : ℕ) (st : RepresentationStats)
      → cur.source.num_bits ≡ 0
      → Reads next 64 (before pos (le_bytes 8 0) 0 st) []
  empty-Reads pos st none =
      ends (before (pos + 8) [] 0 (count_control st))
        (next_is pos (le_bytes 8 0) 0 st ∙ empty_stops pos st none) refl
