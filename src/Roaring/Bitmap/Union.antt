-- ===== src/Roaring/Bitmap/Union.antt =====
-- `bitmap_or` of backends/roaring_bitmap.cpp on the members.
use bitmap_comp_framework.Prelude.{
  ℕ, zero, suc, ◌+◌, ◌≤◌, min, max, ◌≡◌, inl, inr, List, [], ◌∷◌, arith, ltb, length, Bool-cases,
}
use bitmap_comp_framework.Roaring.Sets.{IsContainer}
use bitmap_comp_framework.Roaring.Operations.{container_or}
use bitmap_comp_framework.Roaring.Combine.{container_and_or-Holds}
use bitmap_comp_framework.Roaring.Bitmap.{Chunk, Bitmap, or_loop, bitmap_and, bitmap_or}
use bitmap_comp_framework.Roaring.Bitmap.Merge.{
  in_chunk, in_chunks, Chunked, Chunked-le, and_loop-in_chunks, and_loop-Chunked,
}

united-in_chunk :
    (a b : Chunk) (k v : ℕ)
    → a.key ≡ b.key
    → IsContainer a.container
    → IsContainer b.container
    → in_chunk (record { key = a.key; container = container_or a.container b.container }) k v
      ≡ max (in_chunk a k v) (in_chunk b k v)
unfolding in_chunk
united-in_chunk a b k v e ha hb =
    let either = (container_and_or-Holds a.container b.container ha hb).1 in
    let members = either.members v in rw (← e) (ground arith)

or_loop-in_chunks :
    (fuel lo mo : ℕ) (xs ys : List Chunk) (k v : ℕ)
    → length xs + length ys ≤ fuel
    → Chunked lo xs
    → Chunked mo ys
    → in_chunks (or_loop fuel xs ys) k v ≡ max (in_chunks xs k v) (in_chunks ys k v)
unfolding or_loop in_chunks Chunked
or_loop-in_chunks zero lo mo [] [] k v enough hx hy = omega arith
or_loop-in_chunks zero lo mo [] (b ∷ ys) k v enough hx hy = absurd (omega arith)
or_loop-in_chunks zero lo mo (a ∷ xs) ys k v enough hx hy = absurd (omega arith)
or_loop-in_chunks (suc fuel) lo mo [] [] k v enough hx hy =
    or_loop-in_chunks fuel lo mo [] [] k v (omega arith) hx hy
or_loop-in_chunks (suc fuel) lo mo [] (b ∷ ys) k v enough hx hy =
    omega (arith, or_loop-in_chunks fuel lo (b.key + 1) [] ys k v (omega arith) hx hy.2)
or_loop-in_chunks (suc fuel) lo mo (a ∷ xs) [] k v enough hx hy =
    omega (arith, or_loop-in_chunks fuel (a.key + 1) mo xs [] k v (omega arith) hx.2 hy)
or_loop-in_chunks (suc fuel) lo mo (a ∷ xs) (b ∷ ys) k v enough hx hy =
    elim (Bool-cases (ltb a.key b.key)) [
      | inl p ↦
          let left = or_loop-in_chunks fuel (a.key + 1) mo xs (b ∷ ys) k v (omega arith) hx.2 hy in
          rw p (omega (arith, left))
      | inr p ↦ rw p (elim (Bool-cases (ltb b.key a.key)) [
        | inl q ↦
            let right =
              or_loop-in_chunks fuel lo (b.key + 1) (a ∷ xs) ys k v (omega arith) hx hy.2 in
            rw q (omega (arith, right))
        | inr q ↦
            let both =
              or_loop-in_chunks fuel (a.key + 1) (b.key + 1) xs ys k v (omega arith) hx.2 hy.2 in
            let here = united-in_chunk a b k v (ground arith) hx.1 hy.1 in
            rw q (omega (arith, both, here))
      ])
    ]

or_loop-Chunked :
    (fuel lo : ℕ) (xs ys : List Chunk)
    → Chunked lo xs
    → Chunked lo ys
    → Chunked lo (or_loop fuel xs ys)
unfolding or_loop Chunked
or_loop-Chunked zero lo xs ys hx hy = tt
or_loop-Chunked (suc fuel) lo [] [] hx hy = or_loop-Chunked fuel lo [] [] hx hy
or_loop-Chunked (suc fuel) lo [] (b ∷ ys) hx hy =
    (hy.0, hy.1, or_loop-Chunked fuel (b.key + 1) [] ys tt hy.2)
or_loop-Chunked (suc fuel) lo (a ∷ xs) [] hx hy =
    (hx.0, hx.1, or_loop-Chunked fuel (a.key + 1) xs [] hx.2 tt)
or_loop-Chunked (suc fuel) lo (a ∷ xs) (b ∷ ys) hx hy = elim (Bool-cases (ltb a.key b.key)) [
  | inl p ↦
      rw p
        (hx.0, hx.1, or_loop-Chunked fuel (a.key + 1) xs (b ∷ ys) hx.2 (ground arith, hy.1, hy.2))
  | inr p ↦ rw p (elim (Bool-cases (ltb b.key a.key)) [
    | inl q ↦
        rw q
          (hy.0, hy.1, or_loop-Chunked fuel (b.key + 1) (a ∷ xs) ys (ground arith, hx.1, hx.2) hy.2)
    | inr q ↦ rw q (
      hx.0,
      (container_and_or-Holds a.container b.container hx.1 hy.1).1.shape,
      or_loop-Chunked fuel (a.key + 1) xs ys hx.2
          (Chunked-le (b.key + 1) (a.key + 1) ys (ground arith) hy.2),
    )
  ])
]

-- On bitmaps of well-formed containers under ascending keys, `bitmap_and` and `bitmap_or` return such
-- bitmaps, and an offset of a chunk is in them exactly when it is in both and in either operand.
pub bitmap_and_or-in_chunks :
    (a b : Bitmap)
    → Chunked 0 a.chunks
    → Chunked 0 b.chunks
    → (Chunked 0 (bitmap_and a b).chunks × Chunked 0 (bitmap_or a b).chunks)
      × ((k v : ℕ)
          → (in_chunks (bitmap_and a b).chunks k v
              ≡ min (in_chunks a.chunks k v) (in_chunks b.chunks k v))
            × (in_chunks (bitmap_or a b).chunks k v
                ≡ max (in_chunks a.chunks k v) (in_chunks b.chunks k v)))
unfolding bitmap_and bitmap_or
bitmap_and_or-in_chunks a b ha hb =
    let fuel = length a.chunks + length b.chunks in
    (
      (
        and_loop-Chunked fuel 0 a.chunks b.chunks ha hb,
        or_loop-Chunked fuel 0 a.chunks b.chunks ha hb,
      ),
      λ k v. (
        and_loop-in_chunks fuel 0 0 a.chunks b.chunks k v (omega arith) ha hb,
        or_loop-in_chunks fuel 0 0 a.chunks b.chunks k v (omega arith) ha hb,
      ),
    )
