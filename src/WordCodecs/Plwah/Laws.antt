-- ===== src/WordCodecs/Plwah/Laws.antt =====
-- The contract of a codec for PLWAH, with `append` of `WordWriter` of backends/word_codecs.cpp.
use bitmap_comp_framework.Prelude.{
  ℕ, zero, suc, ◌^◌, ◌≤◌, ◌<◌, bit_and, ◌≡◌, refl, ◌∙◌, ok, true, false, inl, inr, Bool, List, [],
  ◌∷◌, ◌++◌, replicate, arith, ◌==◌, Bool-cases, append-nil, append_assoc, ==→eq,
}
use mathlib.Core.Path.{subst}
use native.Mathlib.Nat.{mod-eq_of_lt}
use bitmap_comp_framework.Codecs.Aligned.{uniform-inv}
use bitmap_comp_framework.Binary.{low_mask}
use bitmap_comp_framework.Codecs.{plwah, same_codec, uniform}
use bitmap_comp_framework.Codecs.Groups.{low_mask_value, bit_and-low_mask}
use bitmap_comp_framework.Codecs.Operations.{width_for}
use bitmap_comp_framework.Codecs.Reads.{CodecLaws}
use bitmap_comp_framework.WordCodecs.Words.{word_coding}
use bitmap_comp_framework.WordCodecs.Read.{Is32}
use bitmap_comp_framework.WordCodecs.Cursor.{mask31}
use bitmap_comp_framework.WordCodecs.Writer.{
  WordWriter, plwah_round, plwah_fill, plwah_literal, plwah_literals, append_plwah, append,
  new_writer,
}
use bitmap_comp_framework.WordCodecs.Fills.{base_of}
use bitmap_comp_framework.WordCodecs.Write.{Written, joined, finish-IsEncoding, new_writer-Written}
use bitmap_comp_framework.WordCodecs.Plwah.{top_of, plwah_round-Round, plwah_literal-Written}

module _ (n : ℕ) where
  plwah_fill-Written :
      (fuel : ℕ) (b : Bool) (count : ℕ) (w : WordWriter) (gs : List ℕ)
      → Written plwah n w gs
      → count ≤ fuel
      → Written plwah n (plwah_fill fuel (top_of b) count w) (gs ++ replicate count (base_of b))
  unfolding plwah_fill
  plwah_fill-Written zero b count w gs done enough =
      let none : count ≡ 0 = omega arith in rw (none, append-nil gs) done
  plwah_fill-Written (suc fuel) b count w gs done enough = elim (Bool-cases (count == 0)) [
    | inl z ↦ let none : count ≡ 0 = ==→eq count 0 z in rw z (rw (none, append-nil gs) done)
    | inr nz ↦
        let r = plwah_round-Round n w gs done b count (ground arith) in
        let next = plwah_round (top_of b) count w in
        let rest =
          plwah_fill-Written fuel b next.1 next.0 (gs ++ replicate r.taken (base_of b)) r.written
            (omega (arith, r.others, r.some, r.enough)) in
        rw nz (
          subst (Written plwah n (plwah_fill fuel (top_of b) next.1 next.0))
            (joined plwah n gs count (base_of b) next r) rest)
  ]

  plwah_literals-Written :
      (count v : ℕ) (w : WordWriter) (gs : List ℕ)
      → Written plwah n w gs
      → v < 2 ^ 31
      → Written plwah n (plwah_literals count v w) (gs ++ replicate count v)
  unfolding plwah_literals
  plwah_literals-Written zero v w gs done low = rw (append-nil gs) done
  plwah_literals-Written (suc count) v w gs done low =
      rw (append_assoc gs (v ∷ []) (replicate count v)) at (
        plwah_literals-Written count v (plwah_literal v w) (gs ++ (v ∷ []))
          (plwah_literal-Written n w gs done v low) low)

  append_plwah-Written :
      (v count : ℕ) (w : WordWriter) (gs : List ℕ)
      → Written plwah n w gs
      → v < 2 ^ 31
      → Written plwah n (append_plwah v count w) (gs ++ replicate count v)
  unfolding append_plwah
  append_plwah-Written v count w gs done low = elim (Bool-cases (uniform v 31)) [
    | inl u ↦ elim (Bool-cases (v == 0)) [
      | inl z ↦
          let zero : v ≡ 0 = ==→eq v 0 z in
          rw (u, z) (rw zero (plwah_fill-Written count false count w gs done (omega arith)))
      | inr nz ↦
          let full : v ≡ mask31 = uniform-inv v 31 u nz ∙ low_mask_value 31 (omega arith) in
          rw (u, nz) (rw full (plwah_fill-Written count true count w gs done (omega arith)))
    ]
    | inr u ↦ rw u (plwah_literals-Written count v w gs done low)
  ]

plwah_kind : Is32 plwah
plwah_kind = record {
  not_ewah = unfold same_codec in refl;
  not_val = unfold same_codec in refl;
  not_sbh = unfold same_codec in refl;
  width_31 = unfold width_for in refl;
}

append-Written :
    (n : ℕ) (w : WordWriter) (gs : List ℕ) (v count : ℕ)
    → Written plwah n w gs
    → v < 2 ^ 31
    → 0 < count
    → (w' : WordWriter) × (append w v count ≡ ok w') × Written plwah n w' (gs ++ replicate count v)
unfolding append same_codec
append-Written n w gs v count done low pos =
    let some : (count == 0) ≡ false = ground arith in
    let cut : bit_and v (low_mask 31) ≡ v =
      bit_and-low_mask 31 v (omega arith) ∙ mod-eq_of_lt low in
    (
      append_plwah v count w,
      rw (some, done.codec_is, done.width_is, cut),
      append_plwah-Written n v count w gs done low,
    )

-- PLWAH keeps the contract of a codec of 31 bits: its writer takes any groups, and its cursor reads
-- them back.
pub plwah_laws : (region : ℕ) → CodecLaws word_coding plwah 31 region
plwah_laws region = record {
  wide = omega arith;
  narrow = omega arith;
  Holds = Written plwah;
  writer-Holds = λ n small. (new_writer plwah n 31, refl, new_writer-Written plwah n plwah_kind);
  append-Holds = λ n w gs v count done low pos room. append-Written n w gs v count done low pos;
  finish-Holds = λ n w gs small done total. finish-IsEncoding plwah n w gs done plwah_kind total;
}
