-- ===== src/WordCodecs/Concise.antt =====
-- The fills that `WordWriter::concise_fill` of backends/word_codecs.cpp writes.
pub mod Laws
use bitmap_comp_framework.Prelude.{
  ℕ, zero, suc, ◌+◌, ◌-◌, ◌*◌, ◌/◌, ◌%◌, ◌^◌, ◌≤◌, ◌<◌, min, bit_and, bit_or, ◌≡◌, refl, ◌∙◌, ap,
  sym, ok, true, false, inl, inr, Bool, not, ◌&&◌, List, [], ◌∷◌, ◌++◌, replicate, arith, ◌==◌,
  Bool-cases, append-nil, append_assoc, if◌then◌else◌, ==→eq,
}
use Prim.Native.Nat.{bit_xor}
use mathlib.Core.Path.{subst}
use native.Mathlib.Nat.{mod-eq_of_lt}
use bitmap_comp_framework.Bits.{◌>>>◌, popcount64, ctz64}
use bitmap_comp_framework.Prelude.Masks.{bit_and_mask}
use bitmap_comp_framework.Prelude.Xor.{bit_xor-zero}
use bitmap_comp_framework.Codecs.Aligned.{uniform-inv}
use bitmap_comp_framework.Wah.Builder.{replicate-add}
use bitmap_comp_framework.Binary.{low_mask}
use bitmap_comp_framework.Codecs.{concise, same_codec, uniform}
use bitmap_comp_framework.Codecs.Groups.{low_mask_value, bit_and-low_mask}
use bitmap_comp_framework.Codecs.Operations.{width_for}
use bitmap_comp_framework.Codecs.Reads.{CodecLaws}
use bitmap_comp_framework.WordCodecs.Words.{word_coding}
use bitmap_comp_framework.WordCodecs.Read.{Is32}
use bitmap_comp_framework.WordCodecs.Cursor.{mask31, exception_span}
use bitmap_comp_framework.WordCodecs.Writer.{
  WordWriter, push32, same_bit, count_mask, bit30, bit31, concise_round, concise_fill,
  concise_literal, concise_literals, append_concise, append, new_writer,
}
use bitmap_comp_framework.WordCodecs.Fills.{
  IsCode, word_groups, fill_groups, base_of, head_of, fields, fields-bit_or, fields-all,
  concise_fill_word, bit30_at, exception_of, concise_literal_word,
}
use bitmap_comp_framework.WordCodecs.Write.{
  Written, Round, joined, push32-Written, replace-Written, finish-IsEncoding, new_writer-Written,
}

pub word-IsCode : (w : ℕ) → w < 2 ^ 32 → IsCode concise w
word-IsCode w h = record { fits = h; counted = λ e _. unfold same_codec in cc }

-- A longer counter stands for more groups at the end of the fill.
longer_fill :
    (p t add base : ℕ)
    → fill_groups concise p (t + add) base ≡ fill_groups concise p t base ++ replicate add base
unfolding fill_groups same_codec
longer_fill p t add base = elim (Bool-cases (p == 0)) [
  | inl e ↦
      let more : t + add + 1 ≡ t + 1 + add = omega arith in
      rw (e, more, replicate-add (t + 1) add base)
  | inr e ↦ rw (e, replicate-add t add base)
]

-- A fill word of CONCISE that is extended in place.
extended :
    (b : Bool) (w add : ℕ)
    → w / 2 ^ 30 ≡ head_of b
    → w % 2 ^ 25 + add < 2 ^ 25
    → ((w + add) % 2 ^ 32 < 2 ^ 32)
      × (word_groups concise ((w + add) % 2 ^ 32)
          ≡ word_groups concise w ++ replicate add (base_of b))
extended b w add top room = (
  omega arith,
  rw (after b top) (
      concise_fill_word (w / 2 ^ 25 % 32) (w % 2 ^ 25 + add) (omega arith) room b
      ∙ longer_fill (w / 2 ^ 25 % 32) (w % 2 ^ 25) add (base_of b)
      ∙ ap (λ (t : List ℕ). t ++ replicate add (base_of b)) (sym here)),
)
  where
    after :
        (b : Bool)
        → w / 2 ^ 30 ≡ head_of b
        → (w + add) % 2 ^ 32 ≡ fields (head_of b) (w / 2 ^ 25 % 32) (w % 2 ^ 25 + add)
    after true e = omega arith
    after false e = omega arith

    here : word_groups concise w ≡ fill_groups concise (w / 2 ^ 25 % 32) (w % 2 ^ 25) (base_of b)
    here =
        ap (word_groups concise)
          (fields-all w ∙ ap (λ (h : ℕ). fields h (w / 2 ^ 25 % 32) (w % 2 ^ 25)) top)
        ∙ concise_fill_word (w / 2 ^ 25 % 32) (w % 2 ^ 25) (omega arith) (omega arith) b

pub pushed :
    (b : Bool) (p t : ℕ)
    → p ≤ 31
    → t < 2 ^ 25
    → bit_or (bit_or (if b then bit30 else 0) (p * 2 ^ 25 % 2 ^ 32)) (t % 2 ^ 32)
      ≡ fields (head_of b) p t
pushed true p t hp ht = fields-bit_or 1 p t hp ht
pushed false p t hp ht = fields-bit_or 0 p t hp ht

-- The test for a fill of the same bit.
abbrev same_fill : Bool → ℕ → Bool
same_fill b last = (last >>> 31 == 0) && same_bit (not (bit_and last bit30 == 0)) b

same_fill_top : (b : Bool) (last : ℕ) → same_fill b last ≡ true → last / 2 ^ 30 ≡ head_of b
same_fill_top true last h = ground (arith, bit30_at last)
same_fill_top false last h = ground (arith, bit30_at last)

module _ (n : ℕ) (w : WordWriter) (gs : List ℕ) (done : Written concise n w gs) where
  pub concise_round-Round :
      (b : Bool) (count : ℕ)
      → 0 < count
      → Round concise n gs count (base_of b) (concise_round b count 0 w)
  unfolding concise_round
  concise_round-Round b count pos =
      let add = min count (count_mask - bit_and w.last count_mask) in
      elim (Bool-cases (
        ((0 == 0)
          && w.have_word
          && (w.last >>> 31 == 0)
          && same_bit (not (bit_and w.last bit30 == 0)) b)
        && not (add == 0))) [
          | inl more ↦
              let top : w.last / 2 ^ 30 ≡ head_of b = same_fill_top b w.last (ground arith) in
              let (fits, longer) =
                extended b w.last add top (ground (arith, bit_and_mask 25 w.last)) in
              rw more (record {
                taken = add;
                some = ground arith;
                enough = omega arith;
                others = refl;
                written =
                    replace-Written concise n w gs done ((w.last + add) % 2 ^ 32)
                      (replicate add (base_of b)) (ground arith) (word-IsCode _ fits) longer;
              })
          | inr new ↦ rw new (record {
            taken = min count (2 ^ 25);
            some = omega arith;
            enough = omega arith;
            others = refl;
            written = rw (pushed b 0 (min count (2 ^ 25) - 1) (omega arith) (omega arith)) (
                rw (new_fill b (min count (2 ^ 25)) (omega arith) (omega arith)) at (
                  push32-Written concise n w gs done (fields (head_of b) 0 (min count (2 ^ 25) - 1))
                    (word-IsCode _ (small b (min count (2 ^ 25)) (omega arith)))));
          })
        ]
    where
      new_fill :
          (b : Bool) (taken : ℕ)
          → 0 < taken
          → taken ≤ 2 ^ 25
          → word_groups concise (fields (head_of b) 0 (taken - 1)) ≡ replicate taken (base_of b)
      new_fill b taken some few =
          let all : taken - 1 + 1 ≡ taken = omega arith in
          concise_fill_word 0 (taken - 1) (omega arith) (omega arith) b
          ∙ (unfold fill_groups same_codec in rw all)

      small : (b : Bool) (taken : ℕ) → taken ≤ 2 ^ 25 → fields (head_of b) 0 (taken - 1) < 2 ^ 32
      small true taken few = omega arith
      small false taken few = omega arith
