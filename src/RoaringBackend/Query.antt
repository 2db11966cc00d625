-- ===== src/RoaringBackend/Query.antt =====
-- Queries of backends/roaring_backend.cpp against the raw bitmaps that it was built from.
use bitmap_comp_framework.Prelude.{
  ℕ, ◌+◌, ◌*◌, ◌/◌, ◌%◌, ◌^◌, ◌≤◌, ◌<◌, ◌≡◌, refl, ◌∙◌, ap, sym, ◌≢◌, inl, inr, Bool, true, false,
  List, [], ◌∷◌, length, All, arith, ok, require, leb, lt_or_ge, >>=-eq-ok, roaring_universe,
}
use bitmap_comp_framework.Bits
use bitmap_comp_framework.Bits.Total.{total_ext, cardinality-IsRaw}
use bitmap_comp_framework.Roaring.Bitmap.Count.{in_universe, cardinality-in_universe}
use bitmap_comp_framework.Bits.Raw.{bit_at, IsWord, IsRaw, bit_at_ext}
use bitmap_comp_framework.Bits.Combine.{combine_words, bit_at-combine_words}
use bitmap_comp_framework.Archive.{validate_inputs}
use bitmap_comp_framework.Archive.Inputs.{validate_inputs-IsRaw}
use bitmap_comp_framework.Backend.{Representation}
use bitmap_comp_framework.Backend.Query.{answer, answer-IsRaw, RepresentsAll, query-Represents}
use bitmap_comp_framework.Roaring.Bitmap.{Bitmap, from_words, bitmap_and, bitmap_or}
use bitmap_comp_framework.Roaring.Bitmap
use bitmap_comp_framework.Roaring.Bitmap.Merge.{in_chunks, Chunked}
use bitmap_comp_framework.Roaring.Bitmap.Union.{bitmap_and_or-in_chunks}
use bitmap_comp_framework.Roaring.Bitmap.Words.{from_words-in_chunks}
use bitmap_comp_framework.Roaring.Bitmap.Decode.{to_words-in_chunks}
use bitmap_comp_framework.RoaringBackend.{
  RoaringBackend, RoaringResult, from_all, build, merge, no_bitmap, query, to_words,
  result_cardinality,
}

-- A bitmap stands for a raw one.
pub record StandsFor (n : ℕ) (bm : Bitmap) (raw : List ℕ) : Type 0 where
  pub shape : Chunked 0 bm.chunks
  pub bits : (b : ℕ) → in_chunks bm.chunks (b / 2 ^ 16) (b % 2 ^ 16) ≡ bit_at raw b

from_words-StandsFor :
    (n : ℕ) (raw : List ℕ) → n ≤ 2 ^ 32 → IsRaw n raw → StandsFor n (from_words raw n) raw
from_words-StandsFor n raw small good =
    let (shape, bits) = from_words-in_chunks raw n good small in
    record {
      shape = shape;
      bits = λ b.
          let whole : b / 2 ^ 16 * 2 ^ 16 + b % 2 ^ 16 ≡ b = omega arith in
          bits (b / 2 ^ 16) (b % 2 ^ 16) (omega arith) ∙ ap (bit_at raw) whole;
    }

merge-StandsFor :
    (n : ℕ) (is_and : Bool) (a b : Bitmap) (xs ys : List ℕ)
    → IsRaw n xs
    → IsRaw n ys
    → StandsFor n a xs
    → StandsFor n b ys
    → StandsFor n (merge is_and a b) (combine_words is_and xs ys)
merge-StandsFor n true a b xs ys gx gy ra rb =
    let ((shape, _), members) = bitmap_and_or-in_chunks a b ra.shape rb.shape in
    record {
      shape = shape;
      bits = λ i.
          (members (i / 2 ^ 16) (i % 2 ^ 16)).0
          ∙ rw (ra.bits i, rb.bits i)
              (sym (bit_at-combine_words true xs ys i (gx.size ∙ sym gy.size)));
    }
merge-StandsFor n false a b xs ys gx gy ra rb =
    let ((_, shape), members) = bitmap_and_or-in_chunks a b ra.shape rb.shape in
    record {
      shape = shape;
      bits = λ i.
          (members (i / 2 ^ 16) (i % 2 ^ 16)).1
          ∙ rw (ra.bits i, rb.bits i)
              (sym (bit_at-combine_words false xs ys i (gx.size ∙ sym gy.size)));
    }

-- Roaring as a representation for the query loops.
abbrev roaring : Representation
roaring = record {
  Stored = Bitmap;
  missing = no_bitmap;
  Represents = StandsFor;
  merge = λ is_and a b. ok (merge is_and a b);
  merge_sound = λ n is_and a b xs ys small gx gy ra rb.
      (merge is_and a b, refl, merge-StandsFor n is_and a b xs ys gx gy ra rb);
}

-- What stands for a raw bitmap decodes to it.
to_words-StandsFor :
    (n : ℕ) (bm : Bitmap) (raw : List ℕ)
    → n ≤ 2 ^ 32
    → IsRaw n raw
    → StandsFor n bm raw
    → Bitmap.to_words bm n ≡ raw
to_words-StandsFor n bm raw small good r =
    let (out, bits) = to_words-in_chunks bm n r.shape small in
    bit_at_ext _ raw (out.size ∙ sym good.size) out.words good.words λ b. elim (lt_or_ge b n) [
      | inl p ↦ bits b p ∙ r.bits b
      | inr p ↦ out.padding b p ∙ sym (good.padding b p)
    ]

-- The cardinality of what stands for a raw bitmap is that of the raw bitmap.
cardinality-StandsFor :
    (n : ℕ) (bm : Bitmap) (raw : List ℕ)
    → n ≤ 2 ^ 32
    → IsRaw n raw
    → StandsFor n bm raw
    → Bitmap.cardinality bm ≡ Bits.cardinality raw
cardinality-StandsFor n bm raw small good r =
    cardinality-in_universe n bm (omega arith) r.shape (λ b p. r.bits b ∙ good.padding b p)
    ∙ total_ext n (in_universe bm.chunks) (bit_at raw) (λ b p. r.bits b)
    ∙ sym (cardinality-IsRaw n raw small good)

-- `to_words` gives back every raw bitmap of at most 2 ^ 32 positions that `from_words` compressed.
pub to_words-from_words :
    (n : ℕ) (raw : List ℕ) → n ≤ 2 ^ 32 → IsRaw n raw → Bitmap.to_words (from_words raw n) n ≡ raw
to_words-from_words n raw small good =
    to_words-StandsFor n (from_words raw n) raw small good (from_words-StandsFor n raw small good)

from_all-RepresentsAll :
    (n : ℕ) (small : n ≤ 2 ^ 32) (raws : List (List ℕ))
    → All (IsRaw n) raws
    → RepresentsAll roaring n small (from_all n raws) raws
unfolding from_all
from_all-RepresentsAll n small [] good = tt
from_all-RepresentsAll n small (raw ∷ raws) good =
    (from_words-StandsFor n raw small good.0, from_all-RepresentsAll n small raws good.1)

roaring_build_inv :
    (raws : List (List ℕ)) (n : ℕ) (w : RoaringBackend)
    → All (All IsWord) raws
    → build raws n ≡ ok w
    → (n ≤ 2 ^ 32) × All (IsRaw n) raws × (w ≡ record { bitmaps = from_all n raws; num_bits = n })
unfolding build
roaring_build_inv raws n w words h =
    let (_, valid, k) = >>=-eq-ok (validate_inputs raws n) _ h in
    let (_, _, e) = >>=-eq-ok (require (leb n (2 ^ 32)) roaring_universe) _ k in
    let (small, good) = (validate_inputs-IsRaw raws n words).0 valid in (small, good, cc)

-- After a successful `build`, `query_and` and `query_or` on a nonempty list of valid indices
-- succeed: the result decodes to the AND or OR of the raw bitmaps named, word for word, and its
-- cardinality is that of this raw bitmap.
pub roaring_query-build :
    (raws : List (List ℕ)) (n : ℕ) (w : RoaringBackend) (is_and : Bool) (ids : List ℕ)
    → All (All IsWord) raws
    → build raws n ≡ ok w
    → ids ≢ []
    → All (λ id. id < length raws) ids
    → (r : RoaringResult) × (query is_and w ids ≡ ok r)
      × (to_words r ≡ answer is_and raws ids)
      × (result_cardinality r ≡ Bits.cardinality (answer is_and raws ids))
unfolding query to_words result_cardinality
roaring_query-build raws n w is_and ids words built ne h =
    let (small, good, made) = roaring_build_inv raws n w words built in
    let (bm, runs, stands) =
      query-Represents roaring n small is_and (from_all n raws) raws
        (from_all-RepresentsAll n small raws good) good ids ne h in
    (
      record { bitmap = bm; num_bits = n },
      rw (made, runs),
      to_words-StandsFor n bm (answer is_and raws ids) small
          (answer-IsRaw n is_and raws ids good ne h) stands,
      cardinality-StandsFor n bm (answer is_and raws ids) small
          (answer-IsRaw n is_and raws ids good ne h) stands,
    )
