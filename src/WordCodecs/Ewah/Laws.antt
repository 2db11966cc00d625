-- ===== src/WordCodecs/Ewah/Laws.antt =====
-- The contract of a codec for EWAH, with `append` and `finish` of `WordWriter` of
-- backends/word_codecs.cpp.
use bitmap_comp_framework.Prelude.{
  ℕ, ◌-◌, ◌^◌, ◌<◌, ◌≡◌, refl, ◌∙◌, ap, sym, true, false, not, List, [], ◌∷◌, ◌++◌, length,
  replicate, All, arith, ok, Bool-cases, append-nil, if◌then◌else◌, inl, inr, ◌==◌, ==→eq,
  length-append, bit_and, ◌>>=◌, length-replicate,
}
use mathlib.Core.Path.{subst}
use native.Mathlib.Nat.{mod-eq_of_lt}
use bitmap_comp_framework.Binary.{reader, low_mask}
use bitmap_comp_framework.Binary.RoundTrip.{le_bytes}
use bitmap_comp_framework.Binary.Words.{word_bytes}
use bitmap_comp_framework.Statistics.{no_units}
use bitmap_comp_framework.Codecs.{ewah, val, same_codec, Encoding, uniform, group_count}
use bitmap_comp_framework.Codecs.Groups.{low_mask_value, bit_and-low_mask}
use bitmap_comp_framework.Codecs.Aligned.{uniform-inv}
use bitmap_comp_framework.Codecs.Groups.{group_count-covers}
use bitmap_comp_framework.Codecs.Operations.{selected_width, stored_groups, width_for}
use bitmap_comp_framework.Codecs.Reads.{Reads, IsEncoding, CodecLaws}
use bitmap_comp_framework.WordCodecs.Words.{word_coding}
use bitmap_comp_framework.WordCodecs.Cursor.{fresh_cursor, open_cursor, next}
use bitmap_comp_framework.WordCodecs.Writer.{
  WordWriter, with_bytes, marker_for, start_marker, update_marker, append_ewah, append, finish,
  new_writer,
}
use bitmap_comp_framework.WordCodecs.Ewah.{
  Segment, IsSegment, word_of, segments_bytes, segments_groups,
}
use bitmap_comp_framework.WordCodecs.Ewah.Read.{segments-Reads, empty-Reads}
use bitmap_comp_framework.WordCodecs.Ewah.Marker.{
  Kept, Stage, fresh, open_marker, Written, Begun, start_marker-Begun, update_marker-closed,
  closed_bytes, closed_segments, closed_groups, closed_all, current, on,
}
use bitmap_comp_framework.WordCodecs.Ewah.Fill.{empty_list, ewah_fill-Written}
use bitmap_comp_framework.WordCodecs.Ewah.Literal.{ewah_literals-Written}

append_ewah-Written :
    (n v count : ℕ) (w : WordWriter) (gs : List ℕ)
    → Written n w gs
    → v < 2 ^ 64
    → (w' : WordWriter) × (append_ewah v count w ≡ ok w') × Written n w' (gs ++ replicate count v)
unfolding append_ewah
append_ewah-Written n v count w gs done low = elim (Bool-cases (uniform v 64)) [
  | inl u ↦ elim (Bool-cases (v == 0)) [
    | inl z ↦
        let zero : 0 ≡ v = sym (==→eq v 0 z) in
        let (w', run, written) =
          ewah_fill-Written count n false count w gs (omega arith) done.kept done.stage in
        (w', rw (u, z) run, subst (λ t. Written n w' (gs ++ replicate count t)) zero written)
    | inr nz ↦
        let full : 2 ^ 64 - 1 ≡ v = sym (uniform-inv v 64 u nz ∙ low_mask_value 64 (omega arith)) in
        let (w', run, written) =
          ewah_fill-Written count n true count w gs (omega arith) done.kept done.stage in
        (w', rw (u, nz) run, subst (λ t. Written n w' (gs ++ replicate count t)) full written)
  ]
  | inr u ↦
      let (w', run, written) = ewah_literals-Written count n v w gs low done.kept done.stage in
      (w', rw u run, written)
]

append-Written :
    (n : ℕ) (w : WordWriter) (gs : List ℕ) (v count : ℕ)
    → Written n w gs
    → v < 2 ^ 64
    → 0 < count
    → (w' : WordWriter) × (append w v count ≡ ok w') × Written n w' (gs ++ replicate count v)
unfolding append same_codec
append-Written n w gs v count done low pos =
    let some : (count == 0) ≡ false = ground arith in
    let is_ewah : same_codec w.target.codec ewah ≡ true =
      ap (λ c. same_codec c ewah) done.kept.codec_is in
    let cut : bit_and v (low_mask w.target.width) ≡ v =
      ap (λ (t : ℕ). bit_and v (low_mask t)) done.kept.width_is
      ∙ bit_and-low_mask 64 v (omega arith)
      ∙ mod-eq_of_lt low in
    let (w', run, written) = append_ewah-Written n v count w gs done low in
    (w', rw (some, is_ewah, cut) run, written)

new_writer-Written : (n : ℕ) → Written n (new_writer ewah n 64) []
unfolding new_writer same_codec
new_writer-Written n = record {
  kept = record { codec_is = refl; width_is = refl; bits_is = refl; region_is = refl };
  stage = fresh refl refl refl;
}

-- An encoding of EWAH whose cursor reads the groups.
ended :
    (n : ℕ) (w : WordWriter) (gs bytes : List ℕ)
    → Kept n w
    → length gs ≡ group_count n 64
    → ((e : Encoding)
        → e.codec ≡ ewah
        → e.num_bits ≡ n
        → Reads next 64 (fresh_cursor e (reader bytes)) gs)
    → IsEncoding word_coding ewah 64 n (with_bytes w.target bytes) gs
unfolding open_cursor selected_width stored_groups width_for same_codec
ended n w gs bytes kept total contents = record {
  codec_is = kept.codec_is;
  width_is = kept.width_is;
  bits_is = kept.bits_is;
  width_stored = refl;
  groups_stored = ap ok (sym kept.region_is);
  group_total = total;
  start = fresh_cursor (with_bytes w.target bytes) (reader bytes);
  opened = rw kept.codec_is;
  contents = contents (with_bytes w.target bytes) kept.codec_is kept.bits_is;
}

finish_is :
    (n : ℕ) (w : WordWriter)
    → Kept n w
    → finish w
      ≡ (marker_for (not w.have_marker) w >>= λ w'. update_marker w' >>= λ w''. ok w''.target)
unfolding finish same_codec
finish_is n w kept =
    let no_val : same_codec w.target.codec val ≡ false = ap (λ c. same_codec c val) kept.codec_is in
    let is_ewah : same_codec w.target.codec ewah ≡ true =
      ap (λ c. same_codec c ewah) kept.codec_is in
    rw (no_val, is_ewah)

-- No groups, no segments.
no_segments : (ss : List Segment) → All IsSegment ss → length (segments_groups ss) ≡ 0 → ss ≡ []
unfolding segments_groups
no_segments [] is h = refl
no_segments (s ∷ ss) is h =
    let fills = replicate s.fills (word_of s.ones) in
    absurd (
      omega (
        arith,
        is.0.some,
        h,
        length-append fills (s.literals ++ segments_groups ss),
        length-append s.literals (segments_groups ss),
        length-replicate s.fills (word_of s.ones),
      ))

-- The marker of an empty universe.
empty_bytes :
    (n : ℕ) (w : WordWriter) (begun : Begun n w []) → closed_bytes w [] begun.held ≡ le_bytes 8 0
unfolding segments_bytes word_bytes
empty_bytes n w begun =
    let m = begun.held in
    let fills = replicate w.fill_count (word_of w.fill_bit) in
    let size : 0 ≡ length (segments_groups m.past ++ (fills ++ m.literals)) = ap length m.groups in
    let past_none =
      no_segments m.past m.past_is
        (omega (arith, size, length-append (segments_groups m.past) (fills ++ m.literals))) in
    let literals_none = empty_list m.literals (omega (arith, m.count_is, begun.no_literal)) in
    rw (past_none, literals_none, begun.no_fill, begun.clear) (append-nil (le_bytes 8 0))

finish-IsEncoding :
    (n : ℕ) (w : WordWriter) (gs : List ℕ)
    → Kept n w
    → Stage w gs
    → length gs ≡ group_count n 64
    → (e : Encoding) × (finish w ≡ ok e) × IsEncoding word_coding ewah 64 n e gs
unfolding marker_for
finish-IsEncoding n w gs kept (fresh none bytes empty) total =
    let (w', run, begun) = start_marker-Begun n w [] kept (fresh none bytes refl) in
    let zero : n ≡ 0 =
      omega (arith, total, ap length empty, group_count-covers n 64 (omega arith)) in
    (
      with_bytes w'.target (le_bytes 8 0),
      finish_is n w kept
          ∙ rw (
            on (not w.have_marker) (start_marker w) (ok w) (ap not none),
            run,
            update_marker-closed w' [] begun.held,
            empty_bytes n w' begun,
          ),
      ended n w' gs (le_bytes 8 0) begun.kept total λ e is_codec is_bits.
          subst (Reads next 64 (fresh_cursor e (reader (le_bytes 8 0)))) (sym empty) (
            empty-Reads (fresh_cursor e (reader (le_bytes 8 0))) is_codec 0 no_units
              (is_bits ∙ zero)),
    )
finish-IsEncoding n w gs kept (open_marker m some) total =
    let ss = m.past ++ (current w gs m ∷ []) in
    let going : (if not w.have_marker then start_marker w else ok w) ≡ ok w = rw m.marked in
    (
      with_bytes w.target (closed_bytes w gs m),
      finish_is n w kept ∙ rw (going, update_marker-closed w gs m),
      ended n w gs (closed_bytes w gs m) kept total λ e is_codec is_bits.
          subst (λ bs. Reads next 64 (fresh_cursor e (reader bs)) gs) (sym (closed_segments w gs m))
            (subst (Reads next 64 (fresh_cursor e (reader (segments_bytes ss))))
              (sym (closed_groups w gs m))
              (segments-Reads (fresh_cursor e (reader (segments_bytes ss))) is_codec ss 0 no_units
                (closed_all w gs m some))),
    )

-- EWAH keeps the contract of a codec of 64 bits: its writer takes any groups, and its cursor reads
-- them back.
pub ewah_laws : (region : ℕ) → CodecLaws word_coding ewah 64 region
ewah_laws region = record {
  wide = omega arith;
  narrow = omega arith;
  Holds = Written;
  writer-Holds = λ n small. (new_writer ewah n 64, refl, new_writer-Written n);
  append-Holds = λ n w gs v count done low pos room. append-Written n w gs v count done low pos;
  finish-Holds = λ n w gs small done total. finish-IsEncoding n w gs done.kept done.stage total;
}
