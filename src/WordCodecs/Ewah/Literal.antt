-- ===== src/WordCodecs/Ewah/Literal.antt =====
-- The literals that `WordWriter::ewah` of backends/word_codecs.cpp writes.
use bitmap_comp_framework.Prelude.{
  ℕ, zero, suc, ◌+◌, ◌-◌, ◌^◌, ◌<◌, ◌≡◌, refl, ◌∙◌, ap, sym, not, ◌||◌, List, [], ◌∷◌, ◌++◌,
  replicate, arith, ok, Bool-cases, append-nil, append_assoc, All-append, inl, inr, ◌==◌,
  length-append,
}
use mathlib.Core.Path.{subst}
use bitmap_comp_framework.Binary.{put_le}
use bitmap_comp_framework.Binary.RoundTrip.{le_bytes, put_le-le_bytes}
use bitmap_comp_framework.Binary.Words.{word_bytes}
use bitmap_comp_framework.WordCodecs.Writer.{WordWriter, with_bytes, marker_for, ewah_literals}
use bitmap_comp_framework.WordCodecs.Ewah.{word_of, segments_bytes, segments_groups}
use bitmap_comp_framework.WordCodecs.Ewah.Marker.{
  Kept, Marked, Stage, fresh, open_marker, Written, start_marker-Begun,
}

-- A marker that takes another literal.
record LiteralReady (n : ℕ) (w : WordWriter) (gs : List ℕ) : Type 0 where
  kept : Kept n w
  held : Marked w gs
  room : w.literal_count < 2 ^ 31 - 1

literal_ready :
    (n : ℕ) (w : WordWriter) (gs : List ℕ)
    → Kept n w
    → Stage w gs
    → (w' : WordWriter) × (marker_for (not w.have_marker || (w.literal_count == 2 ^ 31 - 1)) w
        ≡ ok w')
      × LiteralReady n w' gs
unfolding marker_for
literal_ready n w gs kept stage =
    elim (Bool-cases (not w.have_marker || (w.literal_count == 2 ^ 31 - 1))) [
      | inl needed ↦
          let (w', run, begun) = start_marker-Begun n w gs kept stage in
          (
            w',
            rw needed run,
            record { kept = begun.kept; held = begun.held; room = omega (arith, begun.no_literal) },
          )
      | inr free ↦ (
        w,
        rw free,
        elim stage [
          | fresh none bytes empty ↦ ground arith
          | open_marker m some ↦ record {
            kept = kept;
            held = m;
            room = ground (arith, m.count_is, m.count_fits);
          }
        ],
      )
    ]

word_bytes-append :
    (xs : List ℕ) (v : ℕ) → word_bytes (xs ++ (v ∷ [])) ≡ word_bytes xs ++ le_bytes 8 v
unfolding word_bytes
word_bytes-append [] v = append-nil (le_bytes 8 v)
word_bytes-append (x ∷ xs) v =
    rw (word_bytes-append xs v) (sym (append_assoc (le_bytes 8 x) (word_bytes xs) (le_bytes 8 v)))

-- A literal goes behind those of the open marker.
noted :
    (n v : ℕ) (w : WordWriter) (gs : List ℕ)
    → LiteralReady n w gs
    → v < 2 ^ 64
    → Marked
        (record w {
          target = with_bytes w.target (put_le w.target.bytes v 8);
          literal_count = w.literal_count + 1;
        })
        (gs ++ (v ∷ []))
noted n v w gs r low =
    let m = r.held in
    let longer = length-append m.literals (v ∷ []) in
    record {
      past = m.past;
      literals = m.literals ++ (v ∷ []);
      hole = m.hole;
      marked = m.marked;
      past_is = m.past_is;
      bytes_are =
          put_le-le_bytes w.target.bytes v 8
          ∙ rw (
            m.bytes_are,
            word_bytes-append m.literals v,
            append_assoc (segments_bytes m.past) (m.hole ++ word_bytes m.literals) (le_bytes 8 v),
            append_assoc m.hole (word_bytes m.literals) (le_bytes 8 v),
          );
      hole_size = m.hole_size;
      pos_is = m.pos_is;
      count_is = omega (arith, longer, m.count_is);
      fills_fit = m.fills_fit;
      count_fits = omega (arith, longer, m.count_is, r.room);
      words = All-append (λ v. v < 2 ^ 64) m.literals (v ∷ []) m.words (low, tt);
      groups =
          let fills = replicate w.fill_count (word_of w.fill_bit) in
          ap (λ (t : List ℕ). t ++ (v ∷ [])) m.groups
          ∙ append_assoc (segments_groups m.past) (fills ++ m.literals) (v ∷ [])
          ∙ ap (◌++◌ (segments_groups m.past)) (append_assoc fills m.literals (v ∷ []));
    }

pub ewah_literals-Written :
    (count n v : ℕ) (w : WordWriter) (gs : List ℕ)
    → v < 2 ^ 64
    → Kept n w
    → Stage w gs
    → (w' : WordWriter) × (ewah_literals count v w ≡ ok w') × Written n w' (gs ++ replicate count v)
unfolding ewah_literals
ewah_literals-Written zero n v w gs low kept stage =
    (w, refl, record { kept = kept; stage = subst (Stage w) (sym (append-nil gs)) stage })
ewah_literals-Written (suc count) n v w gs low kept stage =
    let (w', run, ready) = literal_ready n w gs kept stage in
    let noted' = record w' {
      target = with_bytes w'.target (put_le w'.target.bytes v 8);
      literal_count = w'.literal_count + 1;
    } in
    let next_kept : Kept n noted' = record {
      codec_is = ready.kept.codec_is;
      width_is = ready.kept.width_is;
      bits_is = ready.kept.bits_is;
      region_is = ready.kept.region_is;
    } in
    let (last, runs, written) =
      ewah_literals-Written count n v noted' (gs ++ (v ∷ [])) low next_kept
        (open_marker (noted n v w' gs ready low) (omega arith)) in
    (
      last,
      rw run runs,
      subst (Written n last) (append_assoc gs (v ∷ []) (replicate count v)) written,
    )
