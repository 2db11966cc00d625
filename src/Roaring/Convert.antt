-- ===== src/Roaring/Convert.antt =====
-- The conversions of `Container::optimize` and `bitset_op` of backends/roaring_bitmap.cpp.
use bitmap_comp_framework.Prelude.{
  ℕ, zero, suc, ◌+◌, ◌<◌, ◌≡◌, refl, ◌∙◌, ap, ap₂, sym, Bool, List, arith, length, get_or,
  get_or_ext,
}
use native.Mathlib.Nat.{add-zero}
use bitmap_comp_framework.Bits.Raw.{bit_at}
use bitmap_comp_framework.Bits.Combine.{
  combine, combine_bit, combine_words, bit_at-combine_words, length-zip_with, get_or-zip_with,
  combine_zeros, zip_with-IsWord,
}
use bitmap_comp_framework.Roaring.{
  Kind, array_kind, bitset_kind, run_kind, Container, chunk_words, convert,
}
use bitmap_comp_framework.Roaring.Sets.{member, IsContainer}
use bitmap_comp_framework.Roaring.Operations.{bitset_words, bitset_op}
use bitmap_comp_framework.Roaring.Expand.{IsChunk}
use bitmap_comp_framework.Roaring.ToArray.{bitset_to_array-bit_at, bitset_to_array-Ascending}
use bitmap_comp_framework.Roaring.ToRuns.{bitset_to_runs-bit_at, bitset_to_runs-Disjoint}

-- A well-formed container with the members that `f` tells.
pub record Holds (c : Container) (f : ℕ → ℕ) : Type 0 where
  pub shape : IsContainer c
  pub members : (v : ℕ) → member c v ≡ f v

pub convert-Holds :
    (k : Kind) (bits : List ℕ) (f : ℕ → ℕ) → IsChunk bits f → Holds (convert k bits) f
unfolding convert member IsContainer
convert-Holds array_kind bits f h = record {
  shape = bitset_to_array-Ascending bits (omega (arith, h.size)) h.words;
  members = λ v. bitset_to_array-bit_at bits v (omega (arith, h.size)) h.words ∙ h.members v;
}
convert-Holds run_kind bits f h = record {
  shape = bitset_to_runs-Disjoint bits (omega (arith, h.size));
  members = λ v. bitset_to_runs-bit_at bits v (omega (arith, h.size)) ∙ h.members v;
}
convert-Holds bitset_kind bits f h = record { shape = (h.size, h.words); members = h.members }

-- `bitset_op` is AND or OR of the words.
bitset_words-get_or :
    (is_and : Bool) (n i : ℕ) (a b : List ℕ) (j : ℕ)
    → j < n
    → get_or (bitset_words is_and n i a b) j 0
      ≡ combine is_and (get_or a (i + j) 0) (get_or b (i + j) 0)
unfolding bitset_words
bitset_words-get_or is_and zero i a b j h = absurd (omega arith)
bitset_words-get_or is_and (suc n) i a b zero h = rw (add-zero i)
bitset_words-get_or is_and (suc n) i a b (suc j) h =
    let next : i + 1 + j ≡ i + suc j = omega arith in
    rw (← next) (bitset_words-get_or is_and n (i + 1) a b j (omega arith))

length-bitset_words :
    (is_and : Bool) (n i : ℕ) (a b : List ℕ) → length (bitset_words is_and n i a b) ≡ n
unfolding bitset_words
length-bitset_words is_and zero i a b = refl
length-bitset_words is_and (suc n) i a b = ap suc (length-bitset_words is_and n (i + 1) a b)

bitset_words-combine_words :
    (is_and : Bool) (n : ℕ) (a b : List ℕ)
    → length a ≡ n
    → length b ≡ n
    → bitset_words is_and n 0 a b ≡ combine_words is_and a b
bitset_words-combine_words is_and n a b ea eb =
    get_or_ext 0 _ _
      (length-bitset_words is_and n 0 a b
        ∙ sym ea
        ∙ sym (length-zip_with (combine is_and) a b (ea ∙ sym eb)))
      λ j p.
        let at : 0 + j ≡ j = omega arith in
        rw at at
          (bitset_words-get_or is_and n 0 a b j (omega (arith, length-bitset_words is_and n 0 a b)))
        ∙ sym (get_or-zip_with (combine is_and) a b j (ea ∙ sym eb) (combine_zeros is_and))

pub bitset_op-Holds :
    (is_and : Bool) (a b : List ℕ) (f g : ℕ → ℕ)
    → IsChunk a f
    → IsChunk b g
    → Holds (bitset_op a b is_and) (λ v. combine_bit is_and (f v) (g v))
unfolding bitset_op member IsContainer
bitset_op-Holds is_and a b f g ha hb =
    let words = bitset_words-combine_words is_and chunk_words a b ha.size hb.size in
    record {
      shape = (
        length-bitset_words is_and chunk_words 0 a b,
        rw words (zip_with-IsWord is_and a b ha.words hb.words),
      );
      members = λ v.
          ap (λ (t : List ℕ). bit_at t v) words
          ∙ bit_at-combine_words is_and a b v (ha.size ∙ sym hb.size)
          ∙ ap₂ (combine_bit is_and) (ha.members v) (hb.members v);
    }
