-- ===== src/Codecs/Count.antt =====
-- `encoding_cardinality` of backends/codecs.cpp, which counts off the spans, and what an encoding that
-- stands for a raw bitmap decodes to.
use bitmap_comp_framework.Prelude.{
  ℕ, zero, suc, ◌+◌, ◌-◌, ◌*◌, ◌%◌, ◌^◌, ◌≤◌, ◌<◌, ◌≡◌, ◌∙◌, ap, sym, inl, inr, List, [], ◌∷◌,
  length, replicate, arith, ok, lt_or_ge,
}
use bitmap_comp_framework.Bits
use bitmap_comp_framework.Bits.{popcount64}
use bitmap_comp_framework.Bits.Raw.{bit_at, IsRaw, bit_at_ext}
use bitmap_comp_framework.Bits.Count.{ones, ones-le, popcount64-ones}
use bitmap_comp_framework.Bits.Total.{
  ones_small, group_ones, group_ones-append, group_ones-replicate, group_ones-total, total,
  total_ext, total_padded, cardinality-IsRaw,
}
use bitmap_comp_framework.Codecs.{Codec, Encoding, Coding}
use bitmap_comp_framework.Codecs.Groups.{pow-le_word}
use bitmap_comp_framework.Codecs.Operations.{count_loop, encoding_cardinality, decode_bitmap}
use bitmap_comp_framework.Codecs.Reads.{Reads, ends, reads}
use bitmap_comp_framework.Codecs.Decode.{group_bit, decode_bitmap-Decodes}
use bitmap_comp_framework.Codecs.Encode.{Stands}
use bitmap_comp_framework.Codecs.Groups.{group_count-covers, group_count-le}
use native.Mathlib.Nat.{mul-le-mul_left, mul-le-mul_right, pow-le-pow_right}

-- Digits past the width of a group are all 0, so counting in a wider window changes nothing.
ones_wide : (extra w v : ℕ) → v < 2 ^ w → ones (extra + w) v ≡ ones w v
ones_wide zero w v h = let same : 0 + w ≡ w = omega arith in rw same
ones_wide (suc extra) w v h =
    let next : suc extra + w ≡ suc (extra + w) = omega arith in
    rw next (ones_small (extra + w) v (omega (arith, wider)) ∙ ones_wide extra w v h)
  where
    wider : 2 ^ w ≤ 2 ^ (extra + w)
    wider = pow-le-pow_right {n = 2} (omega arith) {i = w} {j = extra + w} (omega arith)

module _ (width : ℕ) (wide : 0 < width) (narrow : width ≤ 64) where
  abbrev set_in : List ℕ → ℕ
  set_in gs = group_ones width wide gs

  popcount64-width : (v : ℕ) → v < 2 ^ width → popcount64 v ≡ ones width v
  popcount64-width v h =
      let split : 64 ≡ (64 - width) + width = omega arith in
      popcount64-ones v (omega (arith, pow-le_word width narrow))
      ∙ (ap (λ (t : ℕ). ones t v) split ∙ ones_wide (64 - width) width v h)

  set_in-le : (gs : List ℕ) → set_in gs ≤ width * length gs
  unfolding group_ones
  set_in-le [] = omega arith
  set_in-le (v ∷ gs) = omega (arith, ones-le width v, set_in-le gs)

  module _ (K : Coding) where
    count_loop-set_in :
        (fuel result : ℕ) {c : K.Cursor} {gs : List ℕ}
        → Reads K.next width c gs
        → K.IsCursor c
        → K.left c < fuel
        → result + set_in gs < 2 ^ 64
        → count_loop K fuel c result ≡ ok (result + set_in gs)
    unfolding count_loop
    count_loop-set_in zero result r ic enough fits = absurd (omega arith)
    count_loop-set_in (suc fuel) result (ends c' e z) ic enough fits =
        let none : result + set_in [] ≡ result = unfold group_ones in omega arith in rw (e, z, none)
    count_loop-set_in (suc fuel) result {c} {gs} (reads s c' rest e is z r) ic enough fits =
        let here : popcount64 s.value * s.count ≡ s.count * ones width s.value =
          ap (λ (t : ℕ). t * s.count) (popcount64-width s.value is.fits) ∙ omega arith in
        let parts : set_in gs ≡ s.count * ones width s.value + set_in rest =
          ap set_in z
          ∙ group_ones-append width wide (replicate s.count s.value) rest
          ∙ ap (λ (t : ℕ). t + set_in rest) (group_ones-replicate width wide s.count s.value) in
        let result' = result + s.count * ones width s.value in
        let small : (result + s.count * ones width s.value) % 2 ^ 64 ≡ result' = omega arith in
        let all : result' + set_in rest ≡ result + set_in gs = omega arith in
        let (ic', less) = K.next-IsCursor c s c' ic e in
        rw (e, here, small)
          (count_loop-set_in fuel result' r ic' (omega arith) (omega arith) ∙ ap ok all)

module _ (K : Coding) (c : Codec) (width n : ℕ) (wide : 0 < width) (narrow : width ≤ 64)
    (small : n ≤ 2 ^ 32) (e : Encoding) (raw : List ℕ) (good : IsRaw n raw)
    (stands : Stands K c width n e raw) where
  -- An encoding that stands for a raw bitmap decodes to it.
  pub decode_bitmap-Stands : decode_bitmap K e ≡ ok raw
  decode_bitmap-Stands =
      let (out, runs, decodes) =
        decode_bitmap-Decodes K c width n wide narrow small e stands.groups stands.encoding in
      let same : out ≡ raw =
        bit_at_ext out raw (decodes.raw_shape.size ∙ sym good.size) decodes.raw_shape.words
          good.words
          λ b. elim (lt_or_ge b n) [
            | inl p ↦ decodes.bits b p ∙ stands.bits b
            | inr p ↦ decodes.raw_shape.padding b p ∙ sym (good.padding b p)
          ] in
      runs ∙ ap ok same

  -- Its cardinality is that of the raw bitmap.
  pub encoding_cardinality-Stands : encoding_cardinality K e ≡ ok (Bits.cardinality raw)
  unfolding encoding_cardinality
  encoding_cardinality-Stands =
      let gs = stands.groups in
      let enc = stands.encoding in
      let counted =
        count_loop-set_in width wide narrow K (suc (K.left enc.start)) 0 enc.contents
          (K.cursor-IsCursor e enc.start enc.opened) (omega arith) bounded in
      rw (enc.opened, counted) (ap ok (total_of ∙ sym (cardinality-IsRaw n raw small good)))
    where
      bounded : 0 + set_in width wide narrow stands.groups < 2 ^ 64
      bounded =
          let few : length stands.groups ≤ n =
            omega (arith, stands.encoding.group_total, group_count-le n width wide) in
          omega (
            arith,
            set_in-le width wide narrow stands.groups,
            mul-le-mul_left width few,
            mul-le-mul_right n narrow,
          )

      total_of : 0 + set_in width wide narrow stands.groups ≡ total n (bit_at raw)
      total_of =
          let gs = stands.groups in
          let whole : group_ones width wide gs ≡ total (width * length gs) (group_bit width gs) =
            unfold group_bit in group_ones-total width wide gs in
          let cut : total (width * length gs) (group_bit width gs) ≡ total n (group_bit width gs) =
            total_padded n (width * length gs) (group_bit width gs)
              (rw stands.encoding.group_total (omega (arith, group_count-covers n width wide)))
              (λ b h. stands.bits b ∙ good.padding b h) in
          let each : total n (group_bit width gs) ≡ total n (bit_at raw) =
            total_ext n (group_bit width gs) (bit_at raw) (λ b h. stands.bits b) in
          omega arith
