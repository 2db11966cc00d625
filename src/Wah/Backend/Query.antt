-- ===== src/Wah/Backend/Query.antt =====
-- Queries of `WahBackend` against the raw bitmaps that it was built from.
use bitmap_comp_framework.Prelude.{
  ℕ, ◌^◌, ◌≤◌, ◌<◌, ◌≡◌, refl, ◌∙◌, sym, ◌≢◌, inl, inr, Bool, List, [], ◌∷◌, length, All, ok,
  lt_or_ge, >>=-eq-ok,
}
use bitmap_comp_framework.Bits
use bitmap_comp_framework.Bits.Raw.{bit_at, IsWord, IsRaw, bit_at_ext}
use bitmap_comp_framework.Bits.Total.{total_ext, cardinality-IsRaw}
use bitmap_comp_framework.Bits.Combine.{combine_words, bit_at-combine_words}
use bitmap_comp_framework.Archive.{validate_inputs}
use bitmap_comp_framework.Archive.Inputs.{validate_inputs-IsRaw}
use bitmap_comp_framework.Backend.{Representation}
use bitmap_comp_framework.Backend.Query.{RepresentsAll, query-Represents, answer, answer-IsRaw}
use bitmap_comp_framework.Wah.{encode, decode, merge, cardinality}
use bitmap_comp_framework.Wah.Decode.{
  IsStream, stream_bit, decode-IsRaw, bit_at-decode, IsStream-room,
}
use bitmap_comp_framework.Wah.RoundTrip.{encode-IsStream, stream_bit-encode}
use bitmap_comp_framework.Wah.Merge.{merge-IsStream, stream_bit-merge}
use bitmap_comp_framework.Wah.Count.{cardinality-total}
use bitmap_comp_framework.Wah.Backend.{
  WahBackend, WahResult, result_cardinality, to_words, encode_all, build, query,
}

-- A stream stands for a raw bitmap.
pub record StandsFor (n : ℕ) (ws raw : List ℕ) : Type 0 where
  pub stream : IsStream n ws
  pub bits : (b : ℕ) → stream_bit ws b ≡ bit_at raw b

encode-StandsFor :
    (n : ℕ) (raw : List ℕ) → n ≤ 2 ^ 32 → IsRaw n raw → StandsFor n (encode raw n) raw
encode-StandsFor n raw small good = record {
  stream = encode-IsStream raw n good small;
  bits = stream_bit-encode raw n good small;
}

pub merge-StandsFor :
    (n : ℕ) (is_and : Bool) (a b xs ys : List ℕ)
    → n ≤ 2 ^ 32
    → IsRaw n xs
    → IsRaw n ys
    → StandsFor n a xs
    → StandsFor n b ys
    → StandsFor n (merge a b is_and) (combine_words is_and xs ys)
merge-StandsFor n is_and a b xs ys small gx gy ra rb = record {
  stream = merge-IsStream a b n is_and ra.stream rb.stream small;
  bits = λ i.
      stream_bit-merge a b n is_and ra.stream rb.stream small i
      ∙ rw (ra.bits i, rb.bits i)
          (sym (bit_at-combine_words is_and xs ys i (gx.size ∙ sym gy.size)));
}

-- WAH as a representation for the query loops.
abbrev pub wah : Representation
wah = record {
  Stored = List ℕ;
  missing = [];
  Represents = StandsFor;
  merge = λ is_and a b. ok (merge a b is_and);
  merge_sound = λ n is_and a b xs ys small gx gy ra rb.
      (merge a b is_and, refl, merge-StandsFor n is_and a b xs ys small gx gy ra rb);
}

-- What stands for a raw bitmap decodes to it.
decode-StandsFor :
    (n : ℕ) (ws raw : List ℕ) → n ≤ 2 ^ 32 → IsRaw n raw → StandsFor n ws raw → decode ws n ≡ raw
decode-StandsFor n ws raw small good r =
    let out = decode-IsRaw ws n r.stream.codes small in
    bit_at_ext _ raw (out.size ∙ sym good.size) out.words good.words λ b. elim (lt_or_ge b n) [
      | inl p ↦
          bit_at-decode ws n r.stream.codes small (IsStream-room n ws small r.stream) b p ∙ r.bits b
      | inr p ↦ out.padding b p ∙ sym (good.padding b p)
    ]

-- The count taken off the code words is that of the raw bitmap.
cardinality-StandsFor :
    (n : ℕ) (ws raw : List ℕ)
    → n ≤ 2 ^ 32
    → IsRaw n raw
    → StandsFor n ws raw
    → cardinality ws ≡ Bits.cardinality raw
cardinality-StandsFor n ws raw small good r =
    cardinality-total n ws r.stream small (λ b h. r.bits b ∙ good.padding b h)
    ∙ total_ext n (stream_bit ws) (bit_at raw) (λ b h. r.bits b)
    ∙ sym (cardinality-IsRaw n raw small good)

pub encode_all-RepresentsAll :
    (n : ℕ) (small : n ≤ 2 ^ 32) (raws : List (List ℕ))
    → All (IsRaw n) raws
    → RepresentsAll wah n small (encode_all n raws) raws
unfolding encode_all
encode_all-RepresentsAll n small [] good = tt
encode_all-RepresentsAll n small (raw ∷ raws) good =
    (encode-StandsFor n raw small good.0, encode_all-RepresentsAll n small raws good.1)

-- What `build` accepts, and what it makes of it.
pub build_inv :
    (raws : List (List ℕ)) (n : ℕ) (w : WahBackend)
    → All (All IsWord) raws
    → build raws n ≡ ok w
    → (n ≤ 2 ^ 32)
      × All (IsRaw n) raws
      × (w ≡ record { compressed = encode_all n raws; num_bits = n })
unfolding build
build_inv raws n w words h =
    let (_, valid, e) = >>=-eq-ok (validate_inputs raws n) _ h in
    let (small, good) = (validate_inputs-IsRaw raws n words).0 valid in (small, good, cc)

-- After a successful `build`, `query_and` and `query_or` on a nonempty list of valid indices
-- succeed: the result decodes to the AND or OR of the raw bitmaps named, word for word, and its
-- cardinality is that of this raw bitmap.
pub query-build :
    (raws : List (List ℕ)) (n : ℕ) (w : WahBackend) (is_and : Bool) (ids : List ℕ)
    → All (All IsWord) raws
    → build raws n ≡ ok w
    → ids ≢ []
    → All (λ id. id < length raws) ids
    → (r : WahResult) × (query is_and w ids ≡ ok r)
      × (to_words r ≡ answer is_and raws ids)
      × (result_cardinality r ≡ Bits.cardinality (answer is_and raws ids))
unfolding query to_words result_cardinality
query-build raws n w is_and ids words built ne h =
    let (small, good, made) = build_inv raws n w words built in
    let (c, runs, stands) =
      query-Represents wah n small is_and (encode_all n raws) raws
        (encode_all-RepresentsAll n small raws good) good ids ne h in
    let right = answer-IsRaw n is_and raws ids good ne h in
    (
      record { compressed = c; num_bits = n },
      rw (made, runs),
      decode-StandsFor n c (answer is_and raws ids) small right stands,
      cardinality-StandsFor n c (answer is_and raws ids) small right stands,
    )
