-- ===== src/Roaring/Bitmap/Count.antt =====
-- `Bitmap::cardinality` of backends/roaring_bitmap.cpp against the members.
use bitmap_comp_framework.Prelude.{
  ℕ, zero, suc, ◌+◌, ◌*◌, ◌/◌, ◌%◌, ◌^◌, ◌≤◌, ◌<◌, max, ◌≡◌, refl, ◌∙◌, ◌⊎◌, List, [], ◌∷◌, All,
  arith,
}
use bitmap_comp_framework.Bits.Raw.{bit_at-le}
use bitmap_comp_framework.Bits.Total.{total, total_ext, total_zeros, total_padded}
use bitmap_comp_framework.Roaring
use bitmap_comp_framework.Roaring.{Container, array, bitset, run, chunk_bits}
use bitmap_comp_framework.Roaring.Sets.{member, in_array-le, in_runs-le}
use bitmap_comp_framework.Roaring.Count.{total-max, total_window, cardinality-member}
use bitmap_comp_framework.Roaring.Bitmap.{Chunk, Bitmap, sum_cardinality, cardinality}
use bitmap_comp_framework.Roaring.Bitmap.Merge.{in_chunk, in_chunks, apart, Chunked}

-- Whether a position of the universe is in the chunks.
abbrev pub in_universe : List Chunk → ℕ → ℕ
in_universe cs b = in_chunks cs (b / 2 ^ 16) (b % 2 ^ 16)

member-le : (c : Container) (v : ℕ) → member c v ≤ 1
unfolding member
member-le (array values) v = in_array-le values v
member-le (bitset bits) v = bit_at-le bits v
member-le (run runs) v = in_runs-le runs v

in_chunks-le : (cs : List Chunk) (k v : ℕ) → in_chunks cs k v ≤ 1
unfolding in_chunks in_chunk
in_chunks-le [] k v = omega arith
in_chunks-le (c ∷ cs) k v =
    let digit = member-le c.container v in let others = in_chunks-le cs k v in ground arith

total-le : (n : ℕ) (f : ℕ → ℕ) → ((i : ℕ) → f i ≤ 1) → total n f ≤ n
unfolding total
total-le zero f h = omega arith
total-le (suc n) f h = omega (arith, h 0, total-le n (λ i. f (suc i)) (λ i. h (suc i)))

total-in_chunk :
    (n : ℕ) (c : Chunk)
    → c.key * 2 ^ 16 + 2 ^ 16 ≤ n
    → total n (λ b. in_chunk c (b / 2 ^ 16) (b % 2 ^ 16)) ≡ total chunk_bits (member c.container)
total-in_chunk n c fits =
    total_window n (c.key * 2 ^ 16) chunk_bits (λ b. in_chunk c (b / 2 ^ 16) (b % 2 ^ 16)) fits
      (λ i p. outside i (omega arith)) (λ i p. outside i (omega arith))
    ∙ total_ext chunk_bits _ (member c.container) (λ i p. inside i p)
  where
    outside :
        (i : ℕ)
        → (i < c.key * 2 ^ 16) ⊎ (c.key * 2 ^ 16 + 2 ^ 16 ≤ i)
        → in_chunk c (i / 2 ^ 16) (i % 2 ^ 16) ≡ 0
    outside i p = unfold in_chunk in ground arith

    inside :
        (i : ℕ)
        → i < 2 ^ 16
        → in_chunk c ((c.key * 2 ^ 16 + i) / 2 ^ 16) ((c.key * 2 ^ 16 + i) % 2 ^ 16)
          ≡ member c.container i
    inside i p =
        let index : (c.key * 2 ^ 16 + i) / 2 ^ 16 ≡ c.key = omega arith in
        let place : (c.key * 2 ^ 16 + i) % 2 ^ 16 ≡ i = omega arith in
        rw (index, place) (unfold in_chunk in ground arith)

sum_cardinality-total :
    (n lo c : ℕ) (cs : List Chunk)
    → Chunked lo cs
    → All (λ chunk. chunk.key * 2 ^ 16 + 2 ^ 16 ≤ n) cs
    → c + total n (in_universe cs) < 2 ^ 64
    → sum_cardinality c cs ≡ c + total n (in_universe cs)
unfolding sum_cardinality in_chunks Chunked
sum_cardinality-total n lo c [] h fits room = omega (arith, total_zeros n (λ b. 0) (λ i p. refl))
sum_cardinality-total n lo c (chunk ∷ cs) h fits room =
    let here = total-in_chunk n chunk fits.0 in
    let count = cardinality-member chunk.container h.1 in
    let split : total n (in_universe (chunk ∷ cs))
        ≡ total n (λ b. in_chunk chunk (b / 2 ^ 16) (b % 2 ^ 16)) + total n (in_universe cs) =
      total-max n (λ b. in_chunk chunk (b / 2 ^ 16) (b % 2 ^ 16)) (in_universe cs)
        (λ b p. apart chunk (chunk.key + 1) cs (b / 2 ^ 16) (b % 2 ^ 16) (omega arith) h.2) in
    let wraps : (c + Roaring.cardinality chunk.container) % 2 ^ 64
        ≡ c + Roaring.cardinality chunk.container =
      omega arith in
    rw wraps (
      sum_cardinality-total n (chunk.key + 1) (c + Roaring.cardinality chunk.container) cs h.2
        fits.1 (omega arith)
      ∙ omega arith)

-- A number of positions that all chunks lie below.
enough_positions :
    (n : ℕ) (cs : List Chunk)
    → (m : ℕ) × (n ≤ m) × All (λ chunk. chunk.key * 2 ^ 16 + 2 ^ 16 ≤ m) cs
enough_positions n [] = (n, omega arith, tt)
enough_positions n (c ∷ cs) =
    enough_positions_cons (enough_positions (max n (c.key * 2 ^ 16 + 2 ^ 16)) cs)
  where
    enough_positions_cons :
        (m : ℕ) × (max n (c.key * 2 ^ 16 + 2 ^ 16) ≤ m)
          × All (λ chunk. chunk.key * 2 ^ 16 + 2 ^ 16 ≤ m) cs
        → (m : ℕ) × (n ≤ m) × All (λ chunk. chunk.key * 2 ^ 16 + 2 ^ 16 ≤ m) (c ∷ cs)
    enough_positions_cons (m, le, rest) = (m, omega arith, (omega arith, rest))

-- On well-formed containers under ascending keys, with no member from `n` on, the cardinality is the
-- number of positions below `n` that are in the bitmap; `n` is below 2 ^ 64.
pub cardinality-in_universe :
    (n : ℕ) (bm : Bitmap)
    → n < 2 ^ 64
    → Chunked 0 bm.chunks
    → ((b : ℕ) → n ≤ b → in_universe bm.chunks b ≡ 0)
    → cardinality bm ≡ total n (in_universe bm.chunks)
unfolding cardinality
cardinality-in_universe n bm small h none =
    let (m, le, fits) = enough_positions n bm.chunks in
    let cut : total m (in_universe bm.chunks) ≡ total n (in_universe bm.chunks) =
      total_padded n m (in_universe bm.chunks) le none in
    let bound =
      total-le n (in_universe bm.chunks) (λ b. in_chunks-le bm.chunks (b / 2 ^ 16) (b % 2 ^ 16)) in
    omega (arith, sum_cardinality-total m 0 0 bm.chunks h fits (omega arith), cut)
