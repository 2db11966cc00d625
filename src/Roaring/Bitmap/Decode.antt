-- ===== src/Roaring/Bitmap/Decode.antt =====
-- `Bitmap::to_words` of backends/roaring_bitmap.cpp, position by position.
use bitmap_comp_framework.Prelude.{
  ℕ, zero, suc, ◌+◌, ◌-◌, ◌*◌, ◌/◌, ◌%◌, ◌^◌, ◌≤◌, ◌<◌, max, ◌≡◌, refl, ◌∙◌, ap, sym, inl, inr,
  ◌&&◌, List, [], ◌∷◌, All, arith, ltb, leb, ◌==◌, length, get_or, set, replicate, if◌then◌else◌,
  Bool-cases, lt_or_ge, length-set, get_or-set_self, get_or-set_ne, All-set, length-replicate,
  All-replicate,
}
use native.Mathlib.Decide.{ℕ_discrete}
use bitmap_comp_framework.Bits.{words_for_bits}
use bitmap_comp_framework.Bits.Raw.{
  bit_at, bit_at_past, IsWord, IsRaw, get_or-IsWord, bit_at-mask_tail, length-mask_tail,
  mask_tail-IsWord,
}
use bitmap_comp_framework.Roaring.{to_bitset, chunk_words}
use bitmap_comp_framework.Roaring.Expand.{to_bitset-IsChunk, bit_at_zeros}
use bitmap_comp_framework.Roaring.Bitmap.{Chunk, Bitmap, write_words, write_chunks, to_words}
use bitmap_comp_framework.Roaring.Bitmap.Merge.{in_chunk, in_chunks, in_chunks_below, Chunked}

-- The vector after the loop: same length, 64-bit words, and these words changed.
record Copied (n base i : ℕ) (bits raw out : List ℕ) : Type 0 where
  pub same_length : length out ≡ length raw
  pub words : All IsWord out
  pub entries :
      (j : ℕ)
      → j < length raw
      → get_or out j 0 ≡ (
          if leb (base + i) j && ltb j (base + i + n)
          then get_or bits (j - base) 0
          else get_or raw j 0)

write_words-Copied :
    (n base i : ℕ) (bits raw : List ℕ)
    → All IsWord bits
    → All IsWord raw
    → Copied n base i bits raw (write_words n base i bits raw)
unfolding write_words
write_words-Copied zero base i bits raw hb hr = record {
  same_length = refl;
  words = hr;
  entries = λ j h. ground arith;
}
write_words-Copied (suc n) base i bits raw hb hr = elim (Bool-cases (ltb (base + i) (length raw))) [
  | inr p ↦ rw p (record { same_length = refl; words = hr; entries = λ j h. ground arith })
  | inl p ↦
      let raw' = set raw (base + i) (get_or bits i 0) in
      let longer = length-set raw (base + i) (get_or bits i 0) in
      let rest =
        write_words-Copied n base (i + 1) bits raw' hb
          (All-set IsWord raw (base + i) (get_or bits i 0) hr (get_or-IsWord bits i hb)) in
      rw p (record {
        same_length = rest.same_length ∙ longer;
        words = rest.words;
        entries = λ j h. rest.entries j (rw longer h) ∙ elim (ℕ_discrete (base + i) j) [
          | yes e ↦
              let here : get_or raw' j 0 ≡ get_or bits (j - base) 0 =
                ap (λ (t : ℕ). get_or raw' t 0) (sym e)
                ∙ get_or-set_self raw (base + i) (get_or bits i 0) 0 (ground arith)
                ∙ ap (λ (t : ℕ). get_or bits t 0) (omega arith) in
              ground arith
          | no ne ↦
              let there = get_or-set_ne raw (base + i) j (get_or bits i 0) 0 ne in ground arith
        ];
      })
]

-- A whole chunk: the positions under its key are its members, the others stay.
copied_chunk :
    (key : ℕ) (bits raw : List ℕ) (b : ℕ)
    → All IsWord bits
    → All IsWord raw
    → b < 64 * length raw
    → bit_at (write_words chunk_words (key * chunk_words) 0 bits raw) b
      ≡ (if b / 2 ^ 16 == key then bit_at bits (b % 2 ^ 16) else bit_at raw b)
unfolding bit_at
copied_chunk key bits raw b hb hr h =
    let c = write_words-Copied chunk_words (key * chunk_words) 0 bits raw hb hr in
    let word = c.entries (b / 64) (omega arith) in
    elim (ℕ_discrete (b / 2 ^ 16) key) [
      | yes e ↦
          let index : b / 64 - key * chunk_words ≡ b % 2 ^ 16 / 64 = omega arith in
          let place : b % 2 ^ 16 % 64 ≡ b % 64 = omega arith in
          let here : get_or (write_words chunk_words (key * chunk_words) 0 bits raw) (b / 64) 0
              ≡ get_or bits (b % 2 ^ 16 / 64) 0 =
            word ∙ ground arith ∙ ap (λ (t : ℕ). get_or bits t 0) index in
          rw (here, place) (ground arith)
      | no ne ↦
          let there : get_or (write_words chunk_words (key * chunk_words) 0 bits raw) (b / 64) 0
              ≡ get_or raw (b / 64) 0 =
            word ∙ ground arith in
          rw there (ground arith)
    ]

-- All chunks, into a bitmap with nothing under their keys so far.
write_chunks-in_chunks :
    (lo : ℕ) (raw : List ℕ) (cs : List Chunk)
    → Chunked lo cs
    → All IsWord raw
    → ((b : ℕ) → lo * 2 ^ 16 ≤ b → bit_at raw b ≡ 0)
    → (length (write_chunks raw cs) ≡ length raw)
      × All IsWord (write_chunks raw cs)
      × ((b : ℕ)
          → b < 64 * length raw
          → bit_at (write_chunks raw cs) b
            ≡ max (bit_at raw b) (in_chunks cs (b / 2 ^ 16) (b % 2 ^ 16)))
unfolding write_chunks in_chunks in_chunk Chunked
write_chunks-in_chunks lo raw [] h hr zeros = (refl, hr, λ b p. omega arith)
write_chunks-in_chunks lo raw (c ∷ cs) h hr zeros =
    let chunk = to_bitset-IsChunk c.container h.1 in
    let copy =
      write_words-Copied chunk_words (c.key * chunk_words) 0 (to_bitset c.container) raw chunk.words
        hr in
    let raw' = write_words chunk_words (c.key * chunk_words) 0 (to_bitset c.container) raw in
    let low = h.0 in
    let bits = λ (b : ℕ) (p : b < 64 * length raw).
      copied_chunk c.key (to_bitset c.container) raw b chunk.words hr p in
    let (longer, words, rest) = write_chunks-in_chunks (c.key + 1) raw' cs h.2 copy.words (λ b p.
      elim (lt_or_ge b (64 * length raw)) [
        | inl q ↦ let at = bits b q in let none = zeros b (omega arith) in at ∙ ground arith
        | inr q ↦ bit_at_past raw' b (omega (arith, copy.same_length))
      ]) in
    (
      longer ∙ copy.same_length,
      words,
      λ b p. elim (ℕ_discrete (b / 2 ^ 16) c.key) [
        | yes e ↦
            let at = bits b p in
            let none = zeros b (omega arith) in
            let others =
              in_chunks_below (c.key + 1) cs (b / 2 ^ 16) (b % 2 ^ 16) h.2 (omega arith) in
            let here = chunk.members (b % 2 ^ 16) in
            let later = rest b (omega (arith, copy.same_length)) in ground arith
        | no ne ↦
            let at = bits b p in
            let later = rest b (omega (arith, copy.same_length)) in ground arith
      ],
    )

-- On well-formed containers under ascending keys, `to_words` of at most 2 ^ 32 positions is a raw
-- bitmap, and each position is in it exactly when its offset is in the chunk of its key.
pub to_words-in_chunks :
    (bm : Bitmap) (n : ℕ)
    → Chunked 0 bm.chunks
    → n ≤ 2 ^ 32
    → IsRaw n (to_words bm n)
      × ((b : ℕ) → b < n → bit_at (to_words bm n) b ≡ in_chunks bm.chunks (b / 2 ^ 16) (b % 2 ^ 16))
unfolding to_words
to_words-in_chunks bm n h small =
    let zeros = replicate (words_for_bits n) 0 in
    let (longer, words, bits) =
      write_chunks-in_chunks 0 zeros bm.chunks h
        (All-replicate IsWord (words_for_bits n) 0 (omega arith))
        (λ b p. bit_at_zeros (words_for_bits n) b) in
    let size = longer ∙ length-replicate {A = ℕ} (words_for_bits n) 0 in
    (
      record {
        size = length-mask_tail _ n ∙ size;
        words = mask_tail-IsWord _ n words;
        padding = λ b p. (bit_at-mask_tail n (write_chunks zeros bm.chunks) small size b).1 p;
      },
      λ b p.
          (bit_at-mask_tail n (write_chunks zeros bm.chunks) small size b).0 p
          ∙ bits b (rw length-replicate (inside b p))
          ∙ (let none = bit_at_zeros (words_for_bits n) b in omega arith),
    )
  where
    inside : (b : ℕ) → b < n → b < 64 * words_for_bits n
    inside b p = unfold words_for_bits in omega arith
