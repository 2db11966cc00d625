-- ===== src/WordCodecs/Ewah/Fill.antt =====
-- The fills that `WordWriter::ewah` of backends/word_codecs.cpp writes.
use bitmap_comp_framework.Prelude.{
  ℕ, zero, suc, ◌+◌, ◌-◌, ◌^◌, ◌≤◌, ◌<◌, min, ◌≡◌, refl, ◌∙◌, ap, sym, true, false, Bool, not, ◌||◌,
  List, [], ◌∷◌, ◌++◌, length, replicate, arith, ok, Bool-cases, append-nil, append_assoc, inl, inr,
  ◌==◌, ==→eq, ◌&&◌,
}
use mathlib.Core.Path.{subst}
use bitmap_comp_framework.Wah.Builder.{replicate-add}
use bitmap_comp_framework.WordCodecs.Writer.{WordWriter, same_bit, marker_for, ewah_fill}
use bitmap_comp_framework.WordCodecs.Ewah.{word_of, segments_groups}
use bitmap_comp_framework.WordCodecs.Ewah.Marker.{
  Kept, Marked, Stage, fresh, open_marker, Written, start_marker-Begun,
}

-- The condition under which a fill starts a marker.
abbrev fill_needs : Bool → WordWriter → Bool
fill_needs bit w =
    not w.have_marker
    || not (w.literal_count == 0)
    || (not (w.fill_count == 0) && not (same_bit w.fill_bit bit))
    || (w.fill_count == 2 ^ 32 - 1)

-- A marker that takes another fill.
record FillReady (n : ℕ) (bit : Bool) (w : WordWriter) (gs : List ℕ) : Type 0 where
  kept : Kept n w
  held : Marked w gs
  room : w.fill_count < 2 ^ 32 - 1
  no_literal : w.literal_count ≡ 0
  alike : replicate w.fill_count (word_of w.fill_bit) ≡ replicate w.fill_count (word_of bit)

alike_bits :
    (f : ℕ) (a bit : Bool)
    → (not (f == 0) && not (same_bit a bit)) ≡ false
    → replicate f (word_of a) ≡ replicate f (word_of bit)
alike_bits zero a bit h = refl
alike_bits (suc f) true true h = refl
alike_bits (suc f) true false h = ground arith
alike_bits (suc f) false true h = ground arith
alike_bits (suc f) false false h = refl

fill_ready :
    (n : ℕ) (bit : Bool) (w : WordWriter) (gs : List ℕ)
    → Kept n w
    → Stage w gs
    → (w' : WordWriter) × (marker_for (fill_needs bit w) w ≡ ok w') × FillReady n bit w' gs
unfolding marker_for
fill_ready n bit w gs kept stage = elim (Bool-cases (fill_needs bit w)) [
  | inl needed ↦
      let (w', run, begun) = start_marker-Begun n w gs kept stage in
      (
        w',
        rw needed run,
        record {
          kept = begun.kept;
          held = begun.held;
          room = omega (arith, begun.no_fill);
          no_literal = begun.no_literal;
          alike = rw begun.no_fill;
        },
      )
  | inr free ↦ (
    w,
    rw free,
    elim stage [
      | fresh none bytes empty ↦ ground arith
      | open_marker m some ↦ record {
        kept = kept;
        held = m;
        room = ground arith;
        no_literal = ground arith;
        alike = alike_bits w.fill_count w.fill_bit bit (ground arith);
      }
    ],
  )
]

pub empty_list : (xs : List ℕ) → length xs ≡ 0 → xs ≡ []
empty_list [] h = refl
empty_list (x ∷ xs) h = absurd (omega arith)

filled_groups :
    (f taken v : ℕ) (gs past lits : List ℕ)
    → gs ≡ past ++ (replicate f v ++ lits)
    → lits ≡ []
    → gs ++ replicate taken v ≡ past ++ (replicate (f + taken) v ++ lits)
filled_groups f taken v gs past lits e none = rw (
  e,
  none,
  append-nil (replicate f v),
  append-nil (replicate (f + taken) v),
  append_assoc past (replicate f v) (replicate taken v),
  replicate-add f taken v,
)

-- Fills go into the open marker.
filled :
    (n taken : ℕ) (bit : Bool) (w : WordWriter) (gs : List ℕ)
    → FillReady n bit w gs
    → w.fill_count + taken < 2 ^ 32
    → Marked
        (record w { fill_bit = bit; fill_count = w.fill_count + taken })
        (gs ++ replicate taken (word_of bit))
filled n taken bit w gs r fits =
    let m = r.held in
    record {
      past = m.past;
      literals = m.literals;
      hole = m.hole;
      marked = m.marked;
      past_is = m.past_is;
      bytes_are = m.bytes_are;
      hole_size = m.hole_size;
      pos_is = m.pos_is;
      count_is = m.count_is;
      fills_fit = fits;
      count_fits = m.count_fits;
      words = m.words;
      groups =
          filled_groups w.fill_count taken (word_of bit) gs (segments_groups m.past) m.literals
            (m.groups ∙ ap (◌++◌ (segments_groups m.past)) (ap (λ t. t ++ m.literals) r.alike))
            (empty_list m.literals (omega (arith, m.count_is, r.no_literal)));
    }

-- As many rounds as groups are enough for a fill.
pub ewah_fill-Written :
    (fuel n : ℕ) (bit : Bool) (count : ℕ) (w : WordWriter) (gs : List ℕ)
    → count ≤ fuel
    → Kept n w
    → Stage w gs
    → (w' : WordWriter) × (ewah_fill fuel bit count w ≡ ok w')
      × Written n w' (gs ++ replicate count (word_of bit))
unfolding ewah_fill
ewah_fill-Written zero n bit count w gs enough kept stage =
    let none : count ≡ 0 = omega arith in
    let same : gs ≡ gs ++ replicate count (word_of bit) = rw none (sym (append-nil gs)) in
    (w, refl, record { kept = kept; stage = subst (Stage w) same stage })
ewah_fill-Written (suc fuel) n bit count w gs enough kept stage = elim (Bool-cases (count == 0)) [
  | inl done ↦
      let none : count ≡ 0 = ==→eq count 0 done in
      let same : gs ≡ gs ++ replicate count (word_of bit) = rw none (sym (append-nil gs)) in
      (w, rw done, record { kept = kept; stage = subst (Stage w) same stage })
  | inr more ↦
      let (w', run, ready) = fill_ready n bit w gs kept stage in
      let taken = min count (2 ^ 32 - 1 - w'.fill_count) in
      let some : 0 < taken = ground (arith, ready.room, more) in
      let fits : w'.fill_count + taken < 2 ^ 32 = ground (arith, ready.room) in
      let held = filled n taken bit w' gs ready fits in
      let next_kept : Kept n (record w' { fill_bit = bit; fill_count = w'.fill_count + taken }) =
        record {
          codec_is = ready.kept.codec_is;
          width_is = ready.kept.width_is;
          bits_is = ready.kept.bits_is;
          region_is = ready.kept.region_is;
        } in
      let (last, runs, written) =
        ewah_fill-Written fuel n bit (count - taken)
          (record w' { fill_bit = bit; fill_count = w'.fill_count + taken })
          (gs ++ replicate taken (word_of bit)) (ground arith) next_kept
          (open_marker held (omega arith)) in
      let parts : count ≡ taken + (count - taken) = ground arith in
      let all : (gs ++ replicate taken (word_of bit)) ++ replicate (count - taken) (word_of bit)
          ≡ gs ++ replicate count (word_of bit) =
        append_assoc gs (replicate taken (word_of bit)) (replicate (count - taken) (word_of bit))
        ∙ ap (◌++◌ gs) (
            sym (
              ap (λ (t : ℕ). replicate t (word_of bit)) parts
              ∙ replicate-add taken (count - taken) (word_of bit))) in
      (last, rw (more, run) runs, subst (Written n last) all written)
]
