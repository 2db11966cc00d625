-- ===== src/WordCodecs/Concise/Laws.antt =====
-- The contract of a codec for CONCISE, with `append` of `WordWriter` of backends/word_codecs.cpp.
use bitmap_comp_framework.Prelude.{
  ℕ, zero, suc, ◌+◌, ◌^◌, ◌≤◌, ◌<◌, bit_and, bit_or, ◌≡◌, refl, ◌∙◌, ok, true, false, inl, inr,
  Bool, List, [], ◌∷◌, ◌++◌, replicate, arith, ◌==◌, Bool-cases, append-nil, append_assoc, ==→eq,
}
use Prim.Native.Nat.{bit_xor}
use mathlib.Core.Path.{subst}
use native.Mathlib.Nat.{mod-eq_of_lt}
use bitmap_comp_framework.Bits.{popcount64, ctz64}
use bitmap_comp_framework.Prelude.Xor.{bit_xor-zero}
use bitmap_comp_framework.Codecs.Aligned.{uniform-inv}
use bitmap_comp_framework.Binary.{low_mask}
use bitmap_comp_framework.Codecs.{concise, same_codec, uniform}
use bitmap_comp_framework.Codecs.Groups.{low_mask_value, bit_and-low_mask}
use bitmap_comp_framework.Codecs.Operations.{width_for}
use bitmap_comp_framework.Codecs.Reads.{CodecLaws}
use bitmap_comp_framework.WordCodecs.Words.{word_coding}
use bitmap_comp_framework.WordCodecs.Read.{Is32}
use bitmap_comp_framework.WordCodecs.Cursor.{mask31, exception_span}
use bitmap_comp_framework.WordCodecs.Writer.{
  WordWriter, push32, bit31, concise_round, concise_fill, concise_literal, concise_literals,
  append_concise, append, new_writer,
}
use bitmap_comp_framework.WordCodecs.Fills.{
  word_groups, fill_groups, base_of, head_of, fields, concise_fill_word, exception_of,
  concise_literal_word,
}
use bitmap_comp_framework.WordCodecs.Write.{
  Written, joined, push32-Written, finish-IsEncoding, new_writer-Written,
}
use bitmap_comp_framework.WordCodecs.Concise.{word-IsCode, pushed, concise_round-Round}

module _ (n : ℕ) where
  concise_fill-Written :
      (fuel : ℕ) (b : Bool) (count : ℕ) (w : WordWriter) (gs : List ℕ)
      → Written concise n w gs
      → count ≤ fuel
      → Written concise n (concise_fill fuel b count 0 w) (gs ++ replicate count (base_of b))
  unfolding concise_fill
  concise_fill-Written zero b count w gs done enough =
      let none : count ≡ 0 = omega arith in rw (none, append-nil gs) done
  concise_fill-Written (suc fuel) b count w gs done enough = elim (Bool-cases (count == 0)) [
    | inl z ↦ let none : count ≡ 0 = ==→eq count 0 z in rw z (rw (none, append-nil gs) done)
    | inr nz ↦
        let r = concise_round-Round n w gs done b count (ground arith) in
        let next = concise_round b count 0 w in
        let rest =
          concise_fill-Written fuel b next.1 next.0 (gs ++ replicate r.taken (base_of b)) r.written
            (omega (arith, r.others, r.some, r.enough)) in
        rw nz (
          subst (Written concise n (concise_fill fuel b next.1 0 next.0))
            (joined concise n gs count (base_of b) next r) rest)
  ]

  -- A group that differs from a fill in one position is one word.
  exception_word :
      (b : Bool) (v : ℕ) (w : WordWriter) (gs : List ℕ)
      → Written concise n w gs
      → v < 2 ^ 31
      → popcount64 (bit_xor v (base_of b)) ≡ 1
      → Written concise n
          (concise_fill 1 b 1 (ctz64 (bit_xor v (base_of b)) + 1) w)
          (gs ++ (v ∷ []))
  exception_word b v w gs done low one =
      let (place, value) = exception_of b v low one in
      let p = ctz64 (bit_xor v (base_of b)) + 1 in
      rw (one_round b p w (omega arith) place) (
        rw (groups b p (omega arith) place, value) at
          (push32-Written concise n w gs done (fields (head_of b) p 0)
            (word-IsCode _ (small b p place))))
    where
      one_round :
          (b : Bool) (p : ℕ) (w : WordWriter)
          → 0 < p
          → p ≤ 31
          → concise_fill 1 b 1 p w ≡ push32 (fields (head_of b) p 0) w
      one_round b p w pos hp =
          let position : (p == 0) ≡ false = ground arith in
          unfold concise_fill concise_round in rw (position, pushed b p 0 hp (omega arith))

      groups :
          (b : Bool) (p : ℕ)
          → 0 < p
          → p ≤ 31
          → word_groups concise (fields (head_of b) p 0) ≡ (exception_span (base_of b) p).value ∷ []
      groups b p pos hp =
          let position : (p == 0) ≡ false = ground arith in
          concise_fill_word p 0 hp (omega arith) b ∙ (unfold fill_groups same_codec in rw position)

      small : (b : Bool) (p : ℕ) → p ≤ 31 → fields (head_of b) p 0 < 2 ^ 32
      small true p hp = omega arith
      small false p hp = omega arith

  concise_literal-Written :
      (v : ℕ) (w : WordWriter) (gs : List ℕ)
      → Written concise n w gs
      → v < 2 ^ 31
      → Written concise n (concise_literal v w) (gs ++ (v ∷ []))
  unfolding concise_literal
  concise_literal-Written v w gs done low = elim (Bool-cases (popcount64 v == 1)) [
    | inl e ↦ rw e (
        rw (bit_xor-zero v) at
          (exception_word false v w gs done low (rw (bit_xor-zero v) (==→eq _ 1 e))))
    | inr ne ↦ elim (Bool-cases (popcount64 (bit_xor v mask31) == 1)) [
      | inl e' ↦ rw (ne, e') (exception_word true v w gs done low (==→eq _ 1 e'))
      | inr ne' ↦
          let (fits, groups) = concise_literal_word v low in
          rw (ne, ne')
            (rw groups at
              (push32-Written concise n w gs done (bit_or bit31 v) (word-IsCode _ fits)))
    ]
  ]

  concise_literals-Written :
      (count v : ℕ) (w : WordWriter) (gs : List ℕ)
      → Written concise n w gs
      → v < 2 ^ 31
      → Written concise n (concise_literals count v w) (gs ++ replicate count v)
  unfolding concise_literals
  concise_literals-Written zero v w gs done low = rw (append-nil gs) done
  concise_literals-Written (suc count) v w gs done low =
      rw (append_assoc gs (v ∷ []) (replicate count v)) at (
        concise_literals-Written count v (concise_literal v w) (gs ++ (v ∷ []))
          (concise_literal-Written v w gs done low) low)

  -- The writer appends `count` groups.
  pub append_concise-Written :
      (v count : ℕ) (w : WordWriter) (gs : List ℕ)
      → Written concise n w gs
      → v < 2 ^ 31
      → Written concise n (append_concise v count w) (gs ++ replicate count v)
  unfolding append_concise
  append_concise-Written v count w gs done low = elim (Bool-cases (uniform v 31)) [
    | inl u ↦ elim (Bool-cases (v == 0)) [
      | inl z ↦
          let zero : v ≡ 0 = ==→eq v 0 z in
          rw (u, z) (rw zero (concise_fill-Written count false count w gs done (omega arith)))
      | inr nz ↦
          let full : v ≡ mask31 = uniform-inv v 31 u nz ∙ low_mask_value 31 (omega arith) in
          rw (u, nz) (rw full (concise_fill-Written count true count w gs done (omega arith)))
    ]
    | inr u ↦ rw u (concise_literals-Written count v w gs done low)
  ]

concise_kind : Is32 concise
concise_kind = record {
  not_ewah = unfold same_codec in refl;
  not_val = unfold same_codec in refl;
  not_sbh = unfold same_codec in refl;
  width_31 = unfold width_for in refl;
}

append-Written :
    (n : ℕ) (w : WordWriter) (gs : List ℕ) (v count : ℕ)
    → Written concise n w gs
    → v < 2 ^ 31
    → 0 < count
    → (w' : WordWriter) × (append w v count ≡ ok w')
      × Written concise n w' (gs ++ replicate count v)
unfolding append same_codec
append-Written n w gs v count done low pos =
    let some : (count == 0) ≡ false = ground arith in
    let cut : bit_and v (low_mask 31) ≡ v =
      bit_and-low_mask 31 v (omega arith) ∙ mod-eq_of_lt low in
    (
      append_concise v count w,
      rw (some, done.codec_is, done.width_is, cut),
      append_concise-Written n v count w gs done low,
    )

-- CONCISE keeps the contract of a codec of 31 bits: its writer takes any groups, and its cursor reads
-- them back.
pub concise_laws : (region : ℕ) → CodecLaws word_coding concise 31 region
concise_laws region = record {
  wide = omega arith;
  narrow = omega arith;
  Holds = Written concise;
  writer-Holds =
      λ n small. (new_writer concise n 31, refl, new_writer-Written concise n concise_kind);
  append-Holds = λ n w gs v count done low pos room. append-Written n w gs v count done low pos;
  finish-Holds =
      λ n w gs small done total. finish-IsEncoding concise n w gs done concise_kind total;
}
