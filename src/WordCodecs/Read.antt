-- ===== src/WordCodecs/Read.antt =====
-- `WordCursor::next` of backends/word_codecs.cpp on the bytes of CONCISE and PLWAH words.
use bitmap_comp_framework.Prelude.{
  ℕ, ◌+◌, ◌*◌, ◌^◌, ◌≤◌, ◌<◌, ◌≡◌, refl, ◌∙◌, ap, sym, true, false, inl, inr, Bool, List, [], ◌∷◌,
  ◌++◌, length, replicate, All, arith, ok, ◌==◌, Bool-cases, append-nil, append_assoc,
  length-append, if◌then◌else◌, bit_and,
}
use mathlib.Core.Path.{subst}
use bitmap_comp_framework.Binary.{low_mask}
use bitmap_comp_framework.Binary.RoundTrip.{le_bytes, length-le_bytes, get-le_bytes}
use bitmap_comp_framework.Prelude.Masks.{bit_and_mask}
use bitmap_comp_framework.Codecs.{Codec, ewah, plwah, val, sbh, same_codec, Span, got, uniform}
use bitmap_comp_framework.Codecs.Operations.{width_for}
use bitmap_comp_framework.Statistics.{RepresentationStats}
use bitmap_comp_framework.Codecs.Reads.{Reads, ends, reads, IsSpan}
use bitmap_comp_framework.WordCodecs.Cursor.{
  WordCursor, mask31, is_literal, fill_position, fill_counter_of, fill_base, exception_span,
  fill_spans, next_word, next_span, next_pending, next, count_literal, count_fill, count_exception,
}
use bitmap_comp_framework.WordCodecs.Fills.{
  IsCode, word_groups, fill_groups, exception-lt, base_of, ones_fill, fill_base_value,
  fill_position_value,
}

-- The bytes of words of four bytes, and the groups of words.
unfoldable pub bytes32 : List ℕ → List ℕ
bytes32 [] = []
bytes32 (w ∷ ws) = le_bytes 4 w ++ bytes32 ws

unfoldable pub words_groups : Codec → List ℕ → List ℕ
words_groups c [] = []
words_groups c (w ∷ ws) = word_groups c w ++ words_groups c ws

-- The spans of a fill word: one, or two.
data FillRead (c : Codec) (p count base : ℕ) : Type 0 where
  one :
      (s : Span)
      → fill_spans c p count base ≡ ok (s, [])
      → IsSpan 31 s
      → fill_groups c p count base ≡ replicate s.count s.value
      → FillRead c p count base
  two :
      (s t : Span)
      → fill_spans c p count base ≡ ok (s, t ∷ [])
      → IsSpan 31 s
      → IsSpan 31 t
      → fill_groups c p count base ≡ replicate s.count s.value ++ replicate t.count t.value
      → FillRead c p count base

run-IsSpan :
    (b : Bool) (count : ℕ) → 0 < count → IsSpan 31 (record { value = base_of b; count = count })
unfolding uniform low_mask
run-IsSpan true count pos = record { some = pos; fits = omega arith; single = λ e. cc }
run-IsSpan false count pos = record { some = pos; fits = omega arith; single = λ e. cc }

exception-IsSpan : (b : Bool) (p : ℕ) → p ≤ 31 → IsSpan 31 (exception_span (base_of b) p)
exception-IsSpan b p hp = record {
  some = omega arith;
  fits = exception-lt (base_of b) p (low b) hp;
  single = λ e. refl;
}
  where
    low : (b : Bool) → base_of b < 2 ^ 31
    low true = omega arith
    low false = omega arith

fill_spans-FillRead :
    (c : Codec) (p count : ℕ) (b : Bool)
    → p ≤ 31
    → (same_codec c plwah ≡ true → 0 < count)
    → FillRead c p count (base_of b)
unfolding fill_spans fill_groups
fill_spans-FillRead c p count b hp counted = elim (Bool-cases (same_codec c plwah)) [
  | inl is_plwah ↦
      let some : (count == 0) ≡ false = ground (arith, counted is_plwah) in
      elim (Bool-cases (p == 0)) [
        | inl none ↦
            one (record { value = base_of b; count = count }) (rw (is_plwah, some, none))
              (run-IsSpan b count (counted is_plwah))
              (rw (is_plwah, none) (append-nil (replicate count (base_of b))))
        | inr position ↦
            two (record { value = base_of b; count = count }) (exception_span (base_of b) p)
              (rw (is_plwah, some, position)) (run-IsSpan b count (counted is_plwah))
              (exception-IsSpan b p hp) (rw (is_plwah, position))
      ]
  | inr is_concise ↦ elim (Bool-cases (p == 0)) [
    | inl none ↦
        one (record { value = base_of b; count = count + 1 }) (rw (is_concise, none))
          (run-IsSpan b (count + 1) (omega arith)) (rw (is_concise, none))
    | inr position ↦ elim (Bool-cases (count == 0)) [
      | inl z ↦
          let zero : count ≡ 0 = ground arith in
          one (exception_span (base_of b) p) (rw (is_concise, position, z))
            (exception-IsSpan b p hp) (rw (is_concise, position, zero))
      | inr nz ↦
          two (exception_span (base_of b) p) (record { value = base_of b; count = count })
            (rw (is_concise, position, nz)) (exception-IsSpan b p hp)
            (run-IsSpan b count (ground arith)) (rw (is_concise, position))
    ]
  ]
]

pub length-bytes32 : (ws : List ℕ) → length (bytes32 ws) ≡ 4 * length ws
unfolding bytes32
length-bytes32 [] = refl
length-bytes32 (w ∷ ws) =
    omega (arith, length-append (le_bytes 4 w) (bytes32 ws), length-le_bytes 4 w, length-bytes32 ws)

-- The two codecs of 32-bit words.
pub record Is32 (c : Codec) : Type 0 where
  pub not_ewah : same_codec c ewah ≡ false
  pub not_val : same_codec c val ≡ false
  pub not_sbh : same_codec c sbh ≡ false
  pub width_31 : width_for c ≡ 31

module _ (c : Codec) (kind : Is32 c) (cur : WordCursor) (of : cur.source.codec ≡ c) where
  -- The cursor before given bytes.
  abbrev pub before : ℕ → List ℕ → List Span → RepresentationStats → WordCursor
  before pos rest pending stats = record cur {
    input = record { pos = pos; rest = rest };
    pending = pending;
    stats = stats;
  }

  next_plain :
      (pos : ℕ) (rest : List ℕ) (st : RepresentationStats)
      → next (before pos rest [] st) ≡ next_word (before pos rest [] st)
  unfolding next next_pending next_span
  next_plain pos rest st =
      let no_ewah : same_codec cur.source.codec ewah ≡ false = rw of kind.not_ewah in
      let no_val : same_codec cur.source.codec val ≡ false = rw of kind.not_val in
      rw (no_ewah, no_val)

  next_waiting :
      (pos : ℕ) (rest : List ℕ) (t : Span) (st : RepresentationStats)
      → next (before pos rest (t ∷ []) st) ≡ ok (got t (before pos rest [] st))
  unfolding next next_pending
  next_waiting pos rest t st = refl

  module _ (pos w : ℕ) (more : List ℕ) (st : RepresentationStats) (fits : w < 2 ^ 32) where
    there : (length (le_bytes 4 w ++ more) == 0) ≡ false
    there = ground (arith, length-append (le_bytes 4 w) more, length-le_bytes 4 w)

    next_literal :
        is_literal c w ≡ true
        → next (before pos (le_bytes 4 w ++ more) [] st)
          ≡ ok (
              got
                (record { value = bit_and w mask31; count = 1 })
                (before (pos + 4) more [] (count_literal st)))
    next_literal lit =
        let lit' : is_literal cur.source.codec w ≡ true = rw of lit in
        next_plain pos (le_bytes 4 w ++ more) st
        ∙ (unfold next_word in rw (there, get-le_bytes w 4 pos more (omega arith) fits, lit'))

    fill_stats : RepresentationStats
    fill_stats = if fill_position w == 0 then count_fill st else count_exception (count_fill st)

    next_fill :
        (s : Span) (spans : List Span)
        → is_literal c w ≡ false
        → fill_spans c (fill_position w) (fill_counter_of w) (fill_base w) ≡ ok (s, spans)
        → next (before pos (le_bytes 4 w ++ more) [] st)
          ≡ ok (got s (before (pos + 4) more spans fill_stats))
    unfolding fill_stats
    next_fill s spans lit e =
        let lit' : is_literal cur.source.codec w ≡ false = rw of lit in
        let e' : fill_spans cur.source.codec (fill_position w) (fill_counter_of w) (fill_base w)
            ≡ ok (s, spans) =
          rw of e in
        next_plain pos (le_bytes 4 w ++ more) st
        ∙ (unfold next_word in rw (there, get-le_bytes w 4 pos more (omega arith) fits, lit', e'))

    -- What is read from a word on, given what is read after it.
    word-Reads :
        (gs : List ℕ)
        → IsCode c w
        → ((st' : RepresentationStats) → Reads next 31 (before (pos + 4) more [] st') gs)
        → Reads next 31 (before pos (le_bytes 4 w ++ more) [] st) (word_groups c w ++ gs)
    unfolding word_groups
    word-Reads gs is rest = elim (Bool-cases (is_literal c w)) [
      | inl lit ↦
          reads (record { value = bit_and w mask31; count = 1 })
            (before (pos + 4) more [] (count_literal st)) gs (next_literal lit)
            (record {
              some = omega arith;
              fits = rw (bit_and_mask 31) (omega arith);
              single = λ e. refl;
            })
            (rw lit) (rest (count_literal st))
      | inr fill ↦ rw fill (
          filled fill (
            subst (FillRead c (fill_position w) (fill_counter_of w)) (sym (fill_base_value w)) (
              fill_spans-FillRead c (fill_position w) (fill_counter_of w) (ones_fill w)
                (omega (arith, fill_position_value w)) (λ p. is.counted p fill))))
    ]
      where
        filled :
            is_literal c w ≡ false
            → FillRead c (fill_position w) (fill_counter_of w) (fill_base w)
            → Reads next 31
                (before pos (le_bytes 4 w ++ more) [] st)
                (fill_groups c (fill_position w) (fill_counter_of w) (fill_base w) ++ gs)
        filled fill (one s e is_s z) =
            reads s (before (pos + 4) more [] fill_stats) gs (next_fill s [] fill e) is_s
              (ap (λ (t : List ℕ). t ++ gs) z) (rest fill_stats)
        filled fill (two s t e is_s is_t z) =
            reads s (before (pos + 4) more (t ∷ []) fill_stats) (replicate t.count t.value ++ gs)
              (next_fill s (t ∷ []) fill e) is_s
              (ap (λ (l : List ℕ). l ++ gs) z
                ∙ append_assoc (replicate s.count s.value) (replicate t.count t.value) gs)
              (reads t (before (pos + 4) more [] fill_stats) gs
                (next_waiting (pos + 4) more t fill_stats) is_t refl (rest fill_stats))

  -- From code words the cursor reads their groups.
  pub words-Reads :
      (ws : List ℕ) (pos : ℕ) (st : RepresentationStats)
      → All (IsCode c) ws
      → Reads next 31 (before pos (bytes32 ws) [] st) (words_groups c ws)
  unfolding bytes32 words_groups
  words-Reads [] pos st h =
      ends (before pos [] [] st) (next_plain pos [] st ∙ (unfold next_word in refl)) refl
  words-Reads (w ∷ ws) pos st h =
      word-Reads pos w (bytes32 ws) st h.0.fits (words_groups c ws) h.0
        λ st'. words-Reads ws (pos + 4) st' h.1
