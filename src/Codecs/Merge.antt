-- ===== src/Codecs/Merge.antt =====
-- `combine_bitmaps` of backends/codecs.cpp on encodings that stand for raw bitmaps.
use bitmap_comp_framework.Prelude.{
  ℕ, suc, ◌+◌, ◌*◌, ◌/◌, ◌%◌, ◌^◌, ◌≤◌, ◌<◌, min, ◌≡◌, refl, ◌∙◌, ap, ap₂, sym, ◌&&◌, true, false,
  inl, inr, Bool, List, [], length, take, get_or, arith, ok, ◌==◌, lt_or_ge, length-take,
  get_or-take, get_or_past, eq→==,
}
use bitmap_comp_framework.Prelude.Digits.{bit-zero}
use bitmap_comp_framework.Prelude.Masks.{pow-pos}
use bitmap_comp_framework.Bits.Raw.{bit_at, IsRaw}
use bitmap_comp_framework.Bits.Combine.{
  combine, combine_bit, bit-combine, combine_zeros, zip_with, length-zip_with, get_or-zip_with,
  combine_words, bit_at-combine_words,
}
use bitmap_comp_framework.Codecs.{
  Codec, ewah, concise, plwah, val, sbh, bbc, same_codec, Encoding, no_span, Coding, group_count,
}
use bitmap_comp_framework.Codecs.Combining.{
  AlignedCursor, aligned_cursor, aligned_next, combine_streams, combine_bitmaps,
}
use bitmap_comp_framework.Codecs.Reads.{Reads, CodecLaws}
use bitmap_comp_framework.Codecs.Decode.{group_bit}
use bitmap_comp_framework.Codecs.Encode.{Stands}
use bitmap_comp_framework.Codecs.Groups.{group_count-covers, group_count-le}
use bitmap_comp_framework.Codecs.Split.{split, length-split, group_bit-split}
use bitmap_comp_framework.Codecs.Aligned.{at_input, aligned_next-Reads}
use bitmap_comp_framework.Codecs.Combine.{combine_loop-Holds}
use native.Mathlib.Nat.{
  mod-eq_of_lt, add-mul-mod_self_right, div-add-mod', mul-le-mul_right, mul-le-mul_left,
}

pub same_codec_refl : (c : Codec) → same_codec c c ≡ true
unfolding same_codec
same_codec_refl ewah = refl
same_codec_refl concise = refl
same_codec_refl plwah = refl
same_codec_refl val = refl
same_codec_refl sbh = refl
same_codec_refl bbc = refl

-- Groups that cover a universe are not fewer than those that it takes.
group_count-least : (n w m : ℕ) → 0 < w → n ≤ m * w → group_count n w ≤ m
unfolding group_count
group_count-least n w m wide covers = elim (lt_or_ge m (n / w)) [
  | inl p ↦ absurd (omega (arith, div-add-mod' n w, mul-le-mul_right w p, whole p))
  | inr p ↦ elim (lt_or_ge (n / w) m) [
    | inl less ↦ ground arith
    | inr le ↦
        let all : n / w ≡ m = omega arith in
        let exact : n / w * w ≡ m * w = ap (λ (t : ℕ). t * w) all in
        let none : n % w ≡ 0 = omega (arith, div-add-mod' n w) in ground arith
  ]
]
  where
    whole : m < n / w → (m + 1) * w ≤ n / w * w
    whole p = mul-le-mul_right w (omega arith)

-- As many groups as a universe takes at the smaller width are there.
group_count-split : (n w k : ℕ) → 0 < w → 0 < k → group_count n w ≤ k * group_count n (k * w)
group_count-split n w k wide pos = group_count-least n w (k * group_count n (k * w)) wide (
    omega (
      arith,
      group_count-covers n (k * w) (omega (arith, mul-le-mul_right w pos)),
      regroup k (group_count n (k * w)) w,
    ))
  where
    regroup : (k g w : ℕ) → g * (k * w) ≡ k * g * w
    regroup k g w = omega arith

module _ (K : Coding) (c : Codec) (n w k : ℕ) (wide : 0 < w) (pos : 0 < k) (narrow : k * w ≤ 64)
    (small : n ≤ 2 ^ 32) (e : Encoding) (raw : List ℕ) (good : IsRaw n raw)
    (stands : Stands K c (k * w) n e raw) where
  -- The groups of the operand at the width of the result.
  abbrev aligned : List ℕ
  aligned = take (group_count n w) (split w wide k stands.groups)

  enough : group_count n w ≤ length (split w wide k stands.groups)
  enough = omega (
    arith,
    length-split w wide k stands.groups,
    ap (◌*◌ k) stands.encoding.group_total,
    group_count-split n w k wide pos,
  )

  length-aligned : length aligned ≡ group_count n w
  length-aligned =
      length-take (group_count n w) (split w wide k stands.groups) ∙ omega (arith, enough)

  bounded : length (split w wide k stands.groups) < 2 ^ 64
  bounded =
      let few : length stands.groups ≤ n = omega (
        arith,
        stands.encoding.group_total,
        group_count-le n (k * w) (omega (arith, mul-le-mul_right w pos)),
      ) in
      let narrow_k : k ≤ 64 = omega (arith, mul-le-mul_left k wide) in
      omega (
        arith,
        length-split w wide k stands.groups,
        mul-le-mul_right (length stands.groups) narrow_k,
      )

  -- `AlignedCursor` opens on the operand, and reads these groups.
  opened :
      (r : AlignedCursor K) × (aligned_cursor K e w ≡ ok r) × Reads (aligned_next K) w r aligned
  unfolding aligned_cursor
  opened =
      let divides : (k * w % w == 0) ≡ true = ground (arith, multiple) in
      (
        at_input K w k wide pos narrow stands.encoding.start 0 (group_count n w) 0,
        rw (stands.encoding.opened, stands.encoding.width_is, stands.encoding.bits_is, divides),
        aligned_next-Reads K w k wide pos narrow stands.encoding.contents (group_count n w) 0 enough
            bounded,
      )
    where
      multiple : k * w % w ≡ 0
      multiple =
          ap (λ (t : ℕ). t % w) (omega arith) ∙ add-mul-mod_self_right 0 k w ∙ mod-eq_of_lt wide

  aligned_bits : (b : ℕ) → group_bit w aligned b ≡ bit_at raw b
  aligned_bits b = elim (lt_or_ge (b / w) (group_count n w)) [
    | inl p ↦
        let kept : group_bit w aligned b ≡ group_bit w (split w wide k stands.groups) b =
          unfold group_bit in
          rw (get_or-take (group_count n w) (split w wide k stands.groups) (b / w) p) in
        kept ∙ group_bit-split w wide k stands.groups b pos ∙ stands.bits b
    | inr p ↦
        let past : n ≤ b =
          omega (arith, group_count-covers n w wide, div-add-mod' b w, mul-le-mul_right w p) in
        let none : get_or aligned (b / w) 0 ≡ 0 =
          get_or_past aligned (b / w) 0 (omega (arith, length-aligned)) in
        let zero : group_bit w aligned b ≡ 0 = unfold group_bit in rw none (bit-zero (b % w)) in
        zero ∙ sym (good.padding b past)
  ]

module _ (K : Coding) (c : Codec) (n w ka kb : ℕ) (wide : 0 < w) (pos_a : 0 < ka) (pos_b : 0 < kb)
    (narrow_a : ka * w ≤ 64) (narrow_b : kb * w ≤ 64) (smaller : min (ka * w) (kb * w) ≡ w)
    (streams : same_codec c sbh ≡ false) (L : (region : ℕ) → CodecLaws K c w region)
    (small : n ≤ 2 ^ 32) (a b : Encoding) (xs ys : List ℕ) (gx : IsRaw n xs) (gy : IsRaw n ys)
    (sa : Stands K c (ka * w) n a xs) (sb : Stands K c (kb * w) n b ys) (is_and : Bool) where
  abbrev ga : List ℕ
  ga = aligned K c n w ka wide pos_a narrow_a small a xs gx sa

  abbrev gb : List ℕ
  gb = aligned K c n w kb wide pos_b narrow_b small b ys gy sb

  la : length ga ≡ group_count n w
  la = length-aligned K c n w ka wide pos_a narrow_a small a xs gx sa

  lb : length gb ≡ group_count n w
  lb = length-aligned K c n w kb wide pos_b narrow_b small b ys gy sb

  combined_bits :
      (i : ℕ)
      → group_bit w (zip_with (combine is_and) ga gb) i ≡ bit_at (combine_words is_and xs ys) i
  combined_bits i =
      let op = combine is_and in
      let both : group_bit w (zip_with op ga gb) i
          ≡ combine_bit is_and (group_bit w ga i) (group_bit w gb i) =
        unfold group_bit in
        rw (get_or-zip_with op ga gb (i / w) (la ∙ sym lb) (combine_zeros is_and))
          (bit-combine is_and (get_or ga (i / w) 0) (get_or gb (i / w) 0) (i % w)) in
      both
      ∙ rw
          (
            aligned_bits K c n w ka wide pos_a narrow_a small a xs gx sa i,
            aligned_bits K c n w kb wide pos_b narrow_b small b ys gy sb i,
          )
          (sym (bit_at-combine_words is_and xs ys i (gx.size ∙ sym gy.size)))

  combine_streams-Stands :
      (e : Encoding) × (combine_streams K a b is_and w ≡ ok e)
      × Stands K c w n e (combine_words is_and xs ys)
  unfolding combine_streams
  combine_streams-Stands =
      let (ra, open_a, reads_a) = opened K c n w ka wide pos_a narrow_a small a xs gx sa in
      let (rb, open_b, reads_b) = opened K c n w kb wide pos_b narrow_b small b ys gy sb in
      let laws = L a.sbh_groups in
      let (out, started, held) = laws.writer-Holds n small in
      let (out', looped, held') =
        combine_loop-Holds K c w a.sbh_groups laws is_and n (suc (group_count n w)) ra rb no_span
          no_span out ga gb [] reads_a reads_b (pow-pos w) (pow-pos w) (la ∙ sym lb)
          (omega (arith, la)) (omega (arith, la, group_count-le n w wide)) held in
      let groups = zip_with (combine is_and) ga gb in
      let (e, finished, enc) =
        laws.finish-Holds n out' groups small held' (length-zip_with _ ga gb (la ∙ sym lb) ∙ la) in
      (
        e,
        rw (open_a, open_b, sa.encoding.codec_is, sa.encoding.bits_is, started, looped, finished),
        record { groups = groups; encoding = enc; bits = combined_bits },
      )

  -- For a codec other than SBH that keeps its contract at groups of `w` bits, at most 2 ^ 32 positions,
  -- and encodings of two raw bitmaps at widths that are multiples of `w`, at most 64, of which `w` is
  -- the smaller: `combine_bitmaps` succeeds, and its result is an encoding of width `w` that stands for
  -- the AND or OR of the raw bitmaps.
  pub combine_bitmaps-Stands :
      (e : Encoding) × (combine_bitmaps K a b is_and ≡ ok e)
      × Stands K c w n e (combine_words is_and xs ys)
  unfolding combine_bitmaps
  combine_bitmaps-Stands =
      let (e, runs, stands) = combine_streams-Stands in
      (e, rw (compatible, stream, widths) runs, stands)
    where
      compatible : (same_codec a.codec b.codec && (a.num_bits == b.num_bits)) ≡ true
      compatible =
          let bits : a.num_bits ≡ b.num_bits = sa.encoding.bits_is ∙ sym sb.encoding.bits_is in
          let codecs : same_codec a.codec b.codec ≡ true =
            ap₂ same_codec sa.encoding.codec_is sb.encoding.codec_is ∙ same_codec_refl c in
          rw (codecs, eq→== a.num_bits b.num_bits bits)

      stream : same_codec a.codec sbh ≡ false
      stream = ap (λ (t : Codec). same_codec t sbh) sa.encoding.codec_is ∙ streams

      widths : min a.width b.width ≡ w
      widths = ap₂ min sa.encoding.width_is sb.encoding.width_is ∙ smaller
