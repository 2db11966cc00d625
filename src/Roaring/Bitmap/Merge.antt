-- ===== src/Roaring/Bitmap/Merge.antt =====
-- `bitmap_and` and `bitmap_or` of backends/roaring_bitmap.cpp on the members.
use bitmap_comp_framework.Prelude.{
  ℕ, zero, suc, ◌+◌, ◌≤◌, ◌<◌, min, max, ◌≡◌, refl, inl, inr, true, List, [], ◌∷◌, ◌++◌, arith, ltb,
  ◌==◌, length, if◌then◌else◌, Bool-cases, not, ◌⊎◌,
}
use native.Mathlib.Decide.{ℕ_discrete}
use bitmap_comp_framework.Roaring.{Container, array, bitset, run, empty, cardinality, sum_runs}
use bitmap_comp_framework.Roaring.Sets.{member, IsContainer}
use bitmap_comp_framework.Roaring.Operations.{container_and}
use bitmap_comp_framework.Roaring.Combine.{container_and_or-Holds, member_none}
use bitmap_comp_framework.Roaring.Bitmap.{Chunk, and_loop}

-- Whether offset `v` of chunk `k` is in a bitmap.
unfoldable pub in_chunk : Chunk → ℕ → ℕ → ℕ
in_chunk c k v = if c.key == k then member c.container v else 0

unfoldable pub in_chunks : List Chunk → ℕ → ℕ → ℕ
in_chunks [] k v = 0
in_chunks (c ∷ cs) k v = max (in_chunk c k v) (in_chunks cs k v)

-- Well-formed containers under keys that ascend from `lo` on.
unfoldable pub Chunked : ℕ → List Chunk → Type 0
Chunked lo [] = Unit
Chunked lo (c ∷ cs) = (lo ≤ c.key) × IsContainer c.container × Chunked (c.key + 1) cs

pub in_chunks_below :
    (lo : ℕ) (cs : List Chunk) (k v : ℕ) → Chunked lo cs → k < lo → in_chunks cs k v ≡ 0
unfolding in_chunks in_chunk Chunked
in_chunks_below lo [] k v h p = refl
in_chunks_below lo (c ∷ cs) k v h p =
    let rest = in_chunks_below (c.key + 1) cs k v h.2 (omega (arith, h.0)) in
    let low = h.0 in ground arith

pub Chunked-le : (lo lo' : ℕ) (cs : List Chunk) → lo' ≤ lo → Chunked lo cs → Chunked lo' cs
unfolding Chunked
Chunked-le lo lo' [] p h = tt
Chunked-le lo lo' (c ∷ cs) p h = (omega (arith, h.0), h.1, h.2)

-- An empty container has no members.
empty_none : (c : Container) (v : ℕ) → IsContainer c → empty c ≡ true → member c v ≡ 0
unfolding empty
empty_none (array values) v h e =
    member_none (array values) v h (unfold cardinality in ground arith)
empty_none (bitset bits) v h e = member_none (bitset bits) v h (ground arith)
empty_none (run []) v h e = member_none (run []) v h (unfold cardinality sum_runs in refl)
empty_none (run (r ∷ rs)) v h e = absurd (ground arith)

-- A chunk below the keys of other chunks has no member in common with them.
pub apart :
    (a : Chunk) (lo : ℕ) (ys : List Chunk) (k v : ℕ)
    → a.key < lo
    → Chunked lo ys
    → (in_chunk a k v ≡ 0) ⊎ (in_chunks ys k v ≡ 0)
unfolding in_chunk
apart a lo ys k v p h = elim (ℕ_discrete a.key k) [
  | yes e ↦ inr (in_chunks_below lo ys k v h (omega arith))
  | no ne ↦ inl (ground arith)
]

pub in_chunks-append :
    (xs ys : List Chunk) (k v : ℕ)
    → in_chunks (xs ++ ys) k v ≡ max (in_chunks xs k v) (in_chunks ys k v)
unfolding in_chunks
in_chunks-append [] ys k v = omega arith
in_chunks-append (x ∷ xs) ys k v = omega (arith, in_chunks-append xs ys k v)

-- What the AND of two chunks of one key pushes.
abbrev kept : ℕ → Container → List Chunk
kept key c = if not (empty c) then record { key = key; container = c } ∷ [] else []

-- Leaving out an empty container leaves out no member.
pub kept-in_chunk :
    (key : ℕ) (c : Container) (k v : ℕ)
    → IsContainer c
    → in_chunks (kept key c) k v ≡ (if key == k then member c v else 0)
unfolding in_chunks in_chunk
kept-in_chunk key c k v h = elim (Bool-cases (empty c)) [
  | inl p ↦ let none = empty_none c v h p in rw p (ground arith)
  | inr p ↦ rw p (ground arith)
]

kept-in_chunks :
    (a b : Chunk) (k v : ℕ)
    → a.key ≡ b.key
    → IsContainer a.container
    → IsContainer b.container
    → in_chunks (kept a.key (container_and a.container b.container)) k v
      ≡ min (in_chunk a k v) (in_chunk b k v)
unfolding in_chunks in_chunk
kept-in_chunks a b k v e ha hb =
    let both = (container_and_or-Holds a.container b.container ha hb).0 in
    let c = container_and a.container b.container in
    let members = both.members v in
    rw (← e) (elim (Bool-cases (empty c)) [
      | inl p ↦ let none = empty_none c v both.shape p in rw p (ground arith)
      | inr p ↦ rw p (ground arith)
    ])

pub kept-Chunked :
    (lo : ℕ) (key : ℕ) (c : Container) (rest : List Chunk)
    → lo ≤ key
    → IsContainer c
    → Chunked (key + 1) rest
    → Chunked lo (kept key c ++ rest)
unfolding Chunked
kept-Chunked lo key c rest p h r = elim (Bool-cases (empty c)) [
  | inl e ↦ rw e (Chunked-le (key + 1) lo rest (omega arith) r)
  | inr e ↦ rw e (p, h, r)
]

pub and_loop-in_chunks :
    (fuel lo mo : ℕ) (xs ys : List Chunk) (k v : ℕ)
    → length xs + length ys ≤ fuel
    → Chunked lo xs
    → Chunked mo ys
    → in_chunks (and_loop fuel xs ys) k v ≡ min (in_chunks xs k v) (in_chunks ys k v)
unfolding and_loop in_chunks Chunked
and_loop-in_chunks zero lo mo [] ys k v enough hx hy = omega arith
and_loop-in_chunks zero lo mo (a ∷ xs) ys k v enough hx hy = absurd (omega arith)
and_loop-in_chunks (suc fuel) lo mo [] ys k v enough hx hy = omega arith
and_loop-in_chunks (suc fuel) lo mo (a ∷ xs) [] k v enough hx hy = omega arith
and_loop-in_chunks (suc fuel) lo mo (a ∷ xs) (b ∷ ys) k v enough hx hy =
    elim (Bool-cases (ltb a.key b.key)) [
      | inl p ↦
          let left = and_loop-in_chunks fuel (a.key + 1) mo xs (b ∷ ys) k v (omega arith) hx.2 hy in
          let none = apart a b.key (b ∷ ys) k v (ground arith) (omega arith, hy.1, hy.2) in
          rw p (omega (arith, left, none))
      | inr p ↦ rw p (elim (Bool-cases (ltb b.key a.key)) [
        | inl q ↦
            let right =
              and_loop-in_chunks fuel lo (b.key + 1) (a ∷ xs) ys k v (omega arith) hx hy.2 in
            let none = apart b a.key (a ∷ xs) k v (ground arith) (omega arith, hx.1, hx.2) in
            rw q (omega (arith, right, none))
        | inr q ↦
            let equal : a.key ≡ b.key = ground arith in
            let both =
              and_loop-in_chunks fuel (a.key + 1) (b.key + 1) xs ys k v (omega arith) hx.2 hy.2 in
            let here = kept-in_chunks a b k v equal hx.1 hy.1 in
            let none_a = apart a (b.key + 1) ys k v (omega arith) hy.2 in
            let none_b = apart b (a.key + 1) xs k v (omega arith) hx.2 in
            rw (q, in_chunks-append) (omega (arith, both, here, none_a, none_b))
      ])
    ]

pub and_loop-Chunked :
    (fuel lo : ℕ) (xs ys : List Chunk)
    → Chunked lo xs
    → Chunked lo ys
    → Chunked lo (and_loop fuel xs ys)
unfolding and_loop Chunked
and_loop-Chunked zero lo xs ys hx hy = tt
and_loop-Chunked (suc fuel) lo [] ys hx hy = tt
and_loop-Chunked (suc fuel) lo (a ∷ xs) [] hx hy = tt
and_loop-Chunked (suc fuel) lo (a ∷ xs) (b ∷ ys) hx hy = elim (Bool-cases (ltb a.key b.key)) [
  | inl p ↦ rw p (
      and_loop-Chunked fuel lo xs (b ∷ ys) (Chunked-le (a.key + 1) lo xs (omega (arith, hx.0)) hx.2)
        hy)
  | inr p ↦ rw p (elim (Bool-cases (ltb b.key a.key)) [
    | inl q ↦ rw q (
        and_loop-Chunked fuel lo (a ∷ xs) ys hx
          (Chunked-le (b.key + 1) lo ys (omega (arith, hy.0)) hy.2))
    | inr q ↦ rw q (
        kept-Chunked lo a.key (container_and a.container b.container) (and_loop fuel xs ys) hx.0
          (container_and_or-Holds a.container b.container hx.1 hy.1).0.shape
          (and_loop-Chunked fuel (a.key + 1) xs ys hx.2
            (Chunked-le (b.key + 1) (a.key + 1) ys (ground arith) hy.2)))
  ])
]
