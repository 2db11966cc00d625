-- ===== src/WordCodecs/Ewah/Marker.antt =====
-- `start_marker` and `update_marker` of backends/word_codecs.cpp: what `WordWriter` has written of an
-- EWAH stream, with the bytes of the last marker still open.
use bitmap_comp_framework.Prelude.{
  ℕ, ◌+◌, ◌^◌, ◌<◌, ◌≡◌, refl, ◌∙◌, ap, sym, true, false, Bool, List, [], ◌∷◌, ◌++◌, length,
  replicate, All, arith, ok, append-nil, All-append, if◌then◌else◌, Outcome,
}
use bitmap_comp_framework.Binary.{put_le}
use bitmap_comp_framework.Binary.RoundTrip.{le_bytes, put_le-le_bytes, length-le_bytes}
use bitmap_comp_framework.Binary.Words.{word_bytes}
use bitmap_comp_framework.Codecs.{ewah}
use bitmap_comp_framework.WordCodecs.Writer.{WordWriter, with_bytes, update_marker, start_marker}
use bitmap_comp_framework.WordCodecs.Ewah.{
  Segment, IsSegment, word_of, marker, segments_bytes, segments_groups, segments_bytes-append,
  segments_groups-append, marker_value,
}
use bitmap_comp_framework.WordCodecs.Ewah.Target.{set_le-le_bytes}

-- The parameters of the encoding under way.
pub record Kept (n : ℕ) (w : WordWriter) : Type 0 where
  pub codec_is : w.target.codec ≡ ewah
  pub width_is : w.target.width ≡ 64
  pub bits_is : w.target.num_bits ≡ n
  pub region_is : w.target.sbh_groups ≡ 128

-- A marker is open: segments, eight bytes for the marker, and its literals.
pub record Marked (w : WordWriter) (gs : List ℕ) : Type 0 where
  pub past : List Segment
  pub literals : List ℕ
  pub hole : List ℕ
  pub marked : w.have_marker ≡ true
  pub past_is : All IsSegment past
  pub bytes_are : w.target.bytes ≡ segments_bytes past ++ (hole ++ word_bytes literals)
  pub hole_size : length hole ≡ 8
  pub pos_is : w.marker_pos ≡ length (segments_bytes past)
  pub count_is : w.literal_count ≡ length literals
  pub fills_fit : w.fill_count < 2 ^ 32
  pub count_fits : length literals < 2 ^ 31
  pub words : All (λ v. v < 2 ^ 64) literals
  pub groups :
      gs ≡ segments_groups past ++ (replicate w.fill_count (word_of w.fill_bit) ++ literals)

-- Between two calls: nothing is written, or a marker is open and has something to mark.
pub data Stage (w : WordWriter) (gs : List ℕ) : Type 0 where
  fresh : w.have_marker ≡ false → w.target.bytes ≡ [] → gs ≡ [] → Stage w gs
  open_marker : Marked w gs → 0 < w.fill_count + w.literal_count → Stage w gs

pub record Written (n : ℕ) (w : WordWriter) (gs : List ℕ) : Type 0 where
  pub kept : Kept n w
  pub stage : Stage w gs

module _ (w : WordWriter) (gs : List ℕ) (m : Marked w gs) where
  abbrev pub current : Segment
  current = record { ones = w.fill_bit; fills = w.fill_count; literals = m.literals }

  abbrev pub closed_bytes : List ℕ
  closed_bytes =
      segments_bytes m.past
      ++ (le_bytes 8 (marker w.fill_bit w.fill_count (length m.literals)) ++ word_bytes m.literals)

  -- The open marker is written.
  pub update_marker-closed :
      update_marker w ≡ ok (record w { target = with_bytes w.target closed_bytes })
  unfolding update_marker
  update_marker-closed =
      let value =
        (marker_value w.fill_bit w.fill_count (length m.literals) m.fills_fit m.count_fits).0 in
      let put =
        set_le-le_bytes (segments_bytes m.past) m.hole (word_bytes m.literals)
          (marker w.fill_bit w.fill_count (length m.literals)) m.hole_size in
      rw (m.count_is, value, m.pos_is, m.bytes_are, put)

  pub closed_segments : closed_bytes ≡ segments_bytes (m.past ++ (current ∷ []))
  closed_segments =
      let last : segments_bytes (current ∷ [])
          ≡ le_bytes 8 (marker w.fill_bit w.fill_count (length m.literals))
            ++ word_bytes m.literals =
        unfold segments_bytes in rw (append-nil (word_bytes m.literals)) in
      ap (◌++◌ (segments_bytes m.past)) (sym last)
      ∙ sym (segments_bytes-append m.past (current ∷ []))

  pub closed_groups : gs ≡ segments_groups (m.past ++ (current ∷ []))
  closed_groups =
      let last : segments_groups (current ∷ [])
          ≡ replicate w.fill_count (word_of w.fill_bit) ++ m.literals =
        unfold segments_groups in rw (append-nil m.literals) in
      m.groups
      ∙ ap (◌++◌ (segments_groups m.past)) (sym last)
      ∙ sym (segments_groups-append m.past (current ∷ []))

  pub closed_all : 0 < w.fill_count + w.literal_count → All IsSegment (m.past ++ (current ∷ []))
  closed_all some = All-append IsSegment m.past (current ∷ []) m.past_is (
    record {
      fills_fit = m.fills_fit;
      count_fits = m.count_fits;
      words = m.words;
      some = omega (arith, some, m.count_is);
    },
    tt,
  )

-- A marker that has just been started behind given segments.
begin :
    (w : WordWriter) (past : List Segment) (gs : List ℕ)
    → All IsSegment past
    → w.target.bytes ≡ segments_bytes past
    → gs ≡ segments_groups past
    → Marked
        (record w {
          marker_pos = length w.target.bytes;
          target = with_bytes w.target (put_le w.target.bytes 0 8);
          have_marker = true;
          fill_bit = false;
          fill_count = 0;
          literal_count = 0;
        })
        gs
unfolding word_bytes
begin w past gs is bytes groups = record {
  past = past;
  literals = [];
  hole = le_bytes 8 0;
  marked = refl;
  past_is = is;
  bytes_are = put_le-le_bytes w.target.bytes 0 8 ∙ rw (bytes, append-nil (le_bytes 8 0));
  hole_size = length-le_bytes 8 0;
  pos_is = ap length bytes;
  count_is = refl;
  fills_fit = omega arith;
  count_fits = omega arith;
  words = tt;
  groups = groups ∙ sym (append-nil (segments_groups past));
}

pub on : (b : Bool) (x y : Outcome WordWriter) → b ≡ true → (if b then x else y) ≡ x
on true x y e = refl
on false x y e = ground arith

-- A writer with a marker that marks nothing yet.
pub record Begun (n : ℕ) (w : WordWriter) (gs : List ℕ) : Type 0 where
  pub kept : Kept n w
  pub held : Marked w gs
  pub no_fill : w.fill_count ≡ 0
  pub no_literal : w.literal_count ≡ 0
  pub clear : w.fill_bit ≡ false

-- `start_marker` closes the marker that is open.
pub start_marker-Begun :
    (n : ℕ) (w : WordWriter) (gs : List ℕ)
    → Kept n w
    → Stage w gs
    → (w' : WordWriter) × (start_marker w ≡ ok w') × Begun n w' gs
unfolding start_marker
start_marker-Begun n w gs kept (fresh none bytes empty) = (
  _,
  rw none,
  record {
    kept = record {
      codec_is = kept.codec_is;
      width_is = kept.width_is;
      bits_is = kept.bits_is;
      region_is = kept.region_is;
    };
    held = begin w [] gs tt (unfold segments_bytes in bytes) (unfold segments_groups in empty);
    no_fill = refl;
    no_literal = refl;
    clear = refl;
  },
)
start_marker-Begun n w gs kept (open_marker m some) =
    let closed = record w { target = with_bytes w.target (closed_bytes w gs m) } in
    (
      _,
      rw (on w.have_marker (update_marker w) (ok w) m.marked, update_marker-closed w gs m) refl,
      record {
        kept = record {
          codec_is = kept.codec_is;
          width_is = kept.width_is;
          bits_is = kept.bits_is;
          region_is = kept.region_is;
        };
        held =
            begin closed (m.past ++ (current w gs m ∷ [])) gs (closed_all w gs m some)
              (closed_segments w gs m) (closed_groups w gs m);
        no_fill = refl;
        no_literal = refl;
        clear = refl;
      },
    )
