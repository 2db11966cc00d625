-- ===== src/Codecs/Combining.antt =====
-- `AlignedCursor`, `sbh_combine` and `combine_bitmaps` of backends/codecs.cpp over the cursor and the
-- writer of a coding.
use bitmap_comp_framework.Prelude.{
  ℕ, zero, suc, ◌+◌, ◌-◌, ◌*◌, ◌/◌, ◌%◌, ◌^◌, min, bit_and, Bool, not, ◌&&◌, List, [], ◌∷◌,
  replicate, leb, ◌==◌, if◌then◌else◌, Outcome, ok, throw, ◌>>=◌, ◌>>◌, require,
  incompatible_segments, operand_ended, invalid_repeat, incompatible_operands, incompatible_lengths,
  truncated_sbh,
}
use bitmap_comp_framework.Bits.{◌>>>◌, words_for_bits}
use bitmap_comp_framework.Bits.Combine.{combine}
use bitmap_comp_framework.Binary.{low_mask}
use bitmap_comp_framework.Codecs.{
  sbh, same_codec, Encoding, Span, no_span, Fetch, stop, got, Coding, group_count, uniform,
}
use bitmap_comp_framework.Codecs.Operations.{write_span, append_groups}

-- The spans of the output are cut where the groups that are left end.
abbrev pub clip : Span → ℕ → Span
clip s left = record s { count = min s.count left }

module _ (K : Coding) where
  open K use {Cursor, cursor, next, Writer, writer, append, finish}

  -- `AlignedCursor`; `input_` is the cursor, and `pieces` is `piece_left_`.
  pub record AlignedCursor : Type 0 where
    pub input : Cursor
    pub native : ℕ
    pub width : ℕ
    pub pieces : ℕ
    pub left_groups : ℕ
    pub piece : ℕ

  unfoldable pub aligned_cursor : Encoding → ℕ → Outcome AlignedCursor
  aligned_cursor e width = do
    input ← cursor e
    require (e.width % width == 0) incompatible_segments
    ok (record {
      input = input;
      native = e.width;
      width = width;
      pieces = 0;
      left_groups = group_count e.num_bits width;
      piece = 0;
    })

  -- The end of `next`, and the branch that hands out a piece of a literal.
  unfoldable pub hand_out : AlignedCursor → Span → Fetch AlignedCursor
  hand_out a s =
      got (clip s a.left_groups)
        (record a { left_groups = a.left_groups - min s.count a.left_groups })

  unfoldable pub next_piece : AlignedCursor → Fetch AlignedCursor
  next_piece a =
      hand_out (record a { piece = a.piece >>> a.width; pieces = a.pieces - 1 })
        (record { value = bit_and a.piece (low_mask a.width); count = 1 })

  -- A span of the input. The call of `next` by itself finds a literal that was just split, and hands
  -- out its first piece.
  unfoldable pub next_span : AlignedCursor → Span → Outcome (Fetch AlignedCursor)
  next_span a s =
      if a.native == a.width
      then ok (hand_out a s)
      else if uniform s.value a.native
      then ok (
          hand_out a (record {
            value = if s.value == 0 then 0 else low_mask a.width;
            count = s.count * (a.native / a.width) % 2 ^ 64;
          }))
      else (require (s.count == 1) invalid_repeat
          >> ok (next_piece (record a { piece = s.value; pieces = a.native / a.width })))

  unfoldable pub aligned_next : AlignedCursor → Outcome (Fetch AlignedCursor)
  aligned_next a =
      if a.left_groups == 0
      then ok (stop a)
      else if not (a.pieces == 0)
      then ok (next_piece a)
      else (next a.input >>= λ f. elim f [
        | stop input' ↦ throw operand_ended
        | got s input' ↦ next_span (record a { input = input' }) s
      ])

  -- The loop of `combine_bitmaps`. A span that is not used up is kept; each round uses up one group
  -- at least, so one round more than there are groups is enough.
  module _ {C : Type 0} (next_of : C → Outcome (Fetch C)) where
    unfoldable pub refill : C → Span → Outcome (Fetch C)
    refill r s = if s.count == 0 then next_of r else ok (got s r)

  abbrev pub rest_of : Span → ℕ → Span
  rest_of s taken = record s { count = s.count - taken }

  unfoldable pub combine_loop :
      Bool → ℕ → AlignedCursor → AlignedCursor → Span → Span → Writer → Outcome Writer
  combine_loop is_and zero ra rb sa sb out = ok out
  combine_loop is_and (suc fuel) ra rb sa sb out = refill aligned_next ra sa >>= λ f. elim f [
    | stop ra' ↦ ok out
    | got s ra' ↦ refill aligned_next rb sb >>= λ g. elim g [
      | stop rb' ↦ throw incompatible_lengths
      | got t rb' ↦ append out (combine is_and s.value t.value) (min s.count t.count) >>= λ out'.
          combine_loop is_and fuel ra' rb' (rest_of s (min s.count t.count))
            (rest_of t (min s.count t.count)) out'
    ]
  ]

  -- `sbh_combine`: `expand` fills the words of one region; each round of it takes one group at least
  -- from a span that holds any.
  unfoldable pub expand_loop : ℕ → Cursor → Span → ℕ → ℕ → List ℕ → Outcome (List ℕ × Cursor × Span)
  expand_loop zero r pending at groups words = ok (words, r, pending)
  expand_loop (suc fuel) r pending at groups words =
      let filled = λ (p : Span).
        if p.value == 0 then words else write_span 7 (min (groups - at) p.count) at p.value words in
      if leb groups at
      then ok (words, r, pending)
      else (refill next r pending >>= λ f. elim f [
        | stop r' ↦ throw truncated_sbh
        | got p r' ↦
            expand_loop fuel r' (rest_of p (min (groups - at) p.count))
              (at + min (groups - at) p.count) groups (filled p)
      ])

  unfoldable pub expand : Cursor → Span → ℕ → Outcome (List ℕ × Cursor × Span)
  expand r pending groups =
      expand_loop groups r pending 0 groups (replicate (words_for_bits (groups * 7)) 0)

  unfoldable pub combine_each : Bool → List ℕ → List ℕ → List ℕ
  combine_each is_and [] wb = []
  combine_each is_and (x ∷ wa) [] = combine is_and x 0 ∷ combine_each is_and wa []
  combine_each is_and (x ∷ wa) (y ∷ wb) = combine is_and x y ∷ combine_each is_and wa wb

  unfoldable pub sbh_loop :
      Bool → ℕ → ℕ → ℕ → Cursor → Cursor → Span → Span → Writer → Outcome Writer
  sbh_loop is_and region zero remaining ra rb sa sb out = ok out
  sbh_loop is_and region (suc fuel) remaining ra rb sa sb out =
      if remaining == 0 then ok out else (do
        let groups = min remaining region
        (wa, ra', sa') ← expand ra sa groups
        (wb, rb', sb') ← expand rb sb groups
        out' ← append_groups K (combine_each is_and wa wb) 7 groups 0 out
        sbh_loop is_and region fuel (remaining - groups) ra' rb' sa' sb' out')

  unfoldable pub sbh_combine : Encoding → Encoding → Bool → Outcome Encoding
  sbh_combine a b is_and = do
    ra ← cursor a
    rb ← cursor b
    let region = min a.sbh_groups b.sbh_groups
    start ← writer sbh a.num_bits 7 region
    let groups = group_count a.num_bits 7
    out ← sbh_loop is_and region groups groups ra rb no_span no_span start
    finish out

  unfoldable pub combine_streams : Encoding → Encoding → Bool → ℕ → Outcome Encoding
  combine_streams a b is_and w = do
    ra ← aligned_cursor a w
    rb ← aligned_cursor b w
    start ← writer a.codec a.num_bits w a.sbh_groups
    out ← combine_loop is_and (suc (group_count a.num_bits w)) ra rb no_span no_span start
    finish out

  unfoldable pub combine_bitmaps : Encoding → Encoding → Bool → Outcome Encoding
  combine_bitmaps a b is_and = do
    require (same_codec a.codec b.codec && (a.num_bits == b.num_bits)) incompatible_operands
    if same_codec a.codec sbh
        then sbh_combine a b is_and
        else combine_streams a b is_and (min a.width b.width)
