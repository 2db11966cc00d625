-- ===== src/Roaring/Bitmap/Words.antt =====
-- `Bitmap::from_words` of backends/roaring_bitmap.cpp, chunk by chunk.
use bitmap_comp_framework.Prelude.{
  ℕ, zero, suc, ◌+◌, ◌-◌, ◌*◌, ◌/◌, ◌%◌, ◌^◌, ◌≤◌, ◌<◌, min, max, ◌≡◌, refl, ◌∙◌, ap, ap₂, sym, inl,
  inr, ◌&&◌, List, All, arith, ltb, leb, ◌==◌, length, get_or, take, drop, if◌then◌else◌, lt_or_ge,
  get_or_past, length-take, get_or-drop, get_or-take, All-take, All-drop, sized, length-sized,
  sized-All, get_or-sized,
}
use native.Mathlib.Decide.{ℕ_discrete}
use bitmap_comp_framework.Bits.{words_for_bits}
use bitmap_comp_framework.Bits.Raw.{bit_at, bit_at_past, IsWord, IsRaw}
use bitmap_comp_framework.Roaring.{bitset, chunk_words, from_bitset}
use bitmap_comp_framework.Roaring.Sets.{member, IsContainer}
use bitmap_comp_framework.Roaring.Convert.{Holds}
use bitmap_comp_framework.Roaring.Combine.{optimize-Holds}
use bitmap_comp_framework.Roaring.Bitmap.{chunk_at, chunk_loop, from_words}
use bitmap_comp_framework.Roaring.Bitmap.Merge.{
  in_chunk, in_chunks, in_chunks-append, Chunked, kept-in_chunk, kept-Chunked,
}

from_bitset-Holds :
    (words : List ℕ)
    → All IsWord words
    → Holds (from_bitset words) (bit_at (sized chunk_words words))
unfolding from_bitset
from_bitset-Holds words h =
    let o = optimize-Holds (bitset (sized chunk_words words)) shape in
    record { shape = o.shape; members = λ v. o.members v ∙ same v }
  where
    shape : IsContainer (bitset (sized chunk_words words))
    shape = unfold IsContainer in (length-sized chunk_words words, sized-All chunk_words words h)

    same :
        (v : ℕ) → member (bitset (sized chunk_words words)) v ≡ bit_at (sized chunk_words words) v
    same v = unfold member in refl

module _ (raw : List ℕ) (num_words : ℕ) (size : length raw ≡ num_words) (words : All IsWord raw)
    (small : num_words ≤ 2 ^ 26) where
  -- The words of chunk `c`.
  abbrev part : ℕ → List ℕ
  part c =
      take (min (c * chunk_words + chunk_words) num_words - c * chunk_words)
        (drop (c * chunk_words) raw)

  get_or-part :
      (c i : ℕ) → i < chunk_words → get_or (part c) i 0 ≡ get_or raw (c * chunk_words + i) 0
  get_or-part c i h =
      elim (lt_or_ge i (min (c * chunk_words + chunk_words) num_words - c * chunk_words)) [
        | inl p ↦
            get_or-take _ (drop (c * chunk_words) raw) i p ∙ get_or-drop (c * chunk_words) raw i
        | inr p ↦
            get_or_past (part c) i 0 (
              omega (
                arith,
                length-take (min (c * chunk_words + chunk_words) num_words - c * chunk_words)
                    (drop (c * chunk_words) raw),
              ))
            ∙ sym (get_or_past raw (c * chunk_words + i) 0 (omega arith))
      ]

  bit_at-part :
      (c v : ℕ) → v < 2 ^ 16 → bit_at (sized chunk_words (part c)) v ≡ bit_at raw (c * 2 ^ 16 + v)
  unfolding bit_at
  bit_at-part c v h =
      let index : (c * 2 ^ 16 + v) / 64 ≡ c * chunk_words + v / 64 = omega arith in
      let place : (c * 2 ^ 16 + v) % 64 ≡ v % 64 = omega arith in
      rw (
        index,
        place,
        get_or-sized chunk_words (part c) (v / 64) (omega arith),
        get_or-part c (v / 64) (omega arith),
      )

  chunk_at-in_chunks :
      (c k v : ℕ)
      → c < 2 ^ 16
      → v < 2 ^ 16
      → in_chunks (chunk_at num_words raw c) k v
        ≡ (if c == k then bit_at raw (k * 2 ^ 16 + v) else 0)
  unfolding in_chunks in_chunk
  chunk_at-in_chunks c k v p h =
      let key : c % 2 ^ 16 ≡ c = omega arith in
      let holds =
        from_bitset-Holds (part c) (All-take _ _ (All-drop (c * chunk_words) raw words)) in
      let here = holds.members v ∙ bit_at-part c v h in
      kept-in_chunk (c % 2 ^ 16) (from_bitset (part c)) k v holds.shape
      ∙ rw key (elim (ℕ_discrete c k) [
        | yes e ↦
            let there : bit_at raw (c * 2 ^ 16 + v) ≡ bit_at raw (k * 2 ^ 16 + v) =
              ap (λ (t : ℕ). bit_at raw (t * 2 ^ 16 + v)) e in
            ground arith
        | no ne ↦ ground arith
      ])

  -- The chunks from `c` on, as many as `n`.
  chunk_loop-in_chunks :
      (n c k v : ℕ)
      → c + n ≤ 2 ^ 16
      → v < 2 ^ 16
      → in_chunks (chunk_loop num_words n raw c) k v
        ≡ (if leb c k && ltb k (c + n) then bit_at raw (k * 2 ^ 16 + v) else 0)
  unfolding chunk_loop in_chunks
  chunk_loop-in_chunks zero c k v fits h = ground arith
  chunk_loop-in_chunks (suc n) c k v fits h =
      let here = chunk_at-in_chunks c k v (omega arith) h in
      let rest = chunk_loop-in_chunks n (c + 1) k v (omega arith) h in
      in_chunks-append (chunk_at num_words raw c) (chunk_loop num_words n raw (c + 1)) k v
      ∙ ap₂ max here rest
      ∙ ranges
    where
      ranges :
          max
            (if c == k then bit_at raw (k * 2 ^ 16 + v) else 0)
            (if leb (c + 1) k && ltb k (c + 1 + n) then bit_at raw (k * 2 ^ 16 + v) else 0)
          ≡ (if leb c k && ltb k (c + suc n) then bit_at raw (k * 2 ^ 16 + v) else 0)
      ranges = ground arith

  chunk_loop-Chunked : (n c : ℕ) → c + n ≤ 2 ^ 16 → Chunked c (chunk_loop num_words n raw c)
  unfolding chunk_loop Chunked
  chunk_loop-Chunked zero c fits = tt
  chunk_loop-Chunked (suc n) c fits =
      let key : c % 2 ^ 16 ≡ c = omega arith in
      let holds =
        from_bitset-Holds (part c) (All-take _ _ (All-drop (c * chunk_words) raw words)) in
      kept-Chunked c (c % 2 ^ 16) (from_bitset (part c)) _ (omega arith) holds.shape
        (rw key (chunk_loop-Chunked n (c + 1) (omega arith)))

-- `from_words` of a raw bitmap of at most 2 ^ 32 positions has well-formed containers under ascending
-- keys, and offset `v` of chunk `k` is in it exactly when position `k * 2 ^ 16 + v` is set.
pub from_words-in_chunks :
    (raw : List ℕ) (n : ℕ)
    → IsRaw n raw
    → n ≤ 2 ^ 32
    → Chunked 0 (from_words raw n).chunks
      × ((k v : ℕ)
          → v < 2 ^ 16
          → in_chunks (from_words raw n).chunks k v ≡ bit_at raw (k * 2 ^ 16 + v))
unfolding from_words
from_words-in_chunks raw n good small =
    let few = words_small n small in
    let count = (words_for_bits n + chunk_words - 1) / chunk_words in
    (
      chunk_loop-Chunked raw (words_for_bits n) good.size good.words few count 0 (omega arith),
      λ k v h.
          chunk_loop-in_chunks raw (words_for_bits n) good.size good.words few count 0 k v
            (omega arith) h
          ∙ elim (lt_or_ge k count) [
            | inl p ↦ ground arith
            | inr p ↦ ground (arith, bit_at_past raw (k * 2 ^ 16 + v) (omega (arith, good.size)))
          ],
    )
  where
    words_small : (n : ℕ) → n ≤ 2 ^ 32 → words_for_bits n ≤ 2 ^ 26
    words_small n h = unfold words_for_bits in omega arith
