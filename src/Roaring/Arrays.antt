-- ===== src/Roaring/Arrays.antt =====
-- AND and OR of arrays in backends/roaring_bitmap.cpp.
use bitmap_comp_framework.Prelude.{
  ℕ, zero, suc, ◌+◌, ◌≤◌, ◌<◌, min, max, ◌≡◌, inl, inr, List, [], ◌∷◌, All, arith, ltb, length,
  Bool-cases, All-append,
}
use native.Mathlib.Decide.{ℕ_discrete}
use bitmap_comp_framework.Bits.{test_bit}
use bitmap_comp_framework.Bits.Raw.{bit_at, bit_at-le, test_bit-bit_at}
use bitmap_comp_framework.Roaring.Sets.{
  in_array, in_array-le, in_array_below, Ascending, Ascending-le,
}
use bitmap_comp_framework.Roaring.Operations.{and_loop, or_loop, filter_values}

-- The rounds of a merge, by the order of the two elements in front.
pub and_loop-in_array :
    (fuel lo mo : ℕ) (xs ys : List ℕ) (v : ℕ)
    → length xs + length ys ≤ fuel
    → Ascending lo xs
    → Ascending mo ys
    → in_array (and_loop fuel xs ys) v ≡ min (in_array xs v) (in_array ys v)
unfolding and_loop in_array Ascending
and_loop-in_array zero lo mo [] ys v enough hx hy = omega arith
and_loop-in_array zero lo mo (x ∷ xs) ys v enough hx hy = absurd (omega arith)
and_loop-in_array (suc fuel) lo mo [] ys v enough hx hy = omega arith
and_loop-in_array (suc fuel) lo mo (x ∷ xs) [] v enough hx hy = omega arith
and_loop-in_array (suc fuel) lo mo (x ∷ xs) (y ∷ ys) v enough hx hy =
    let low_x = λ (p : v < x + 1). in_array_below (x + 1) xs v hx.1 p in
    let low_y = λ (p : v < y + 1). in_array_below (y + 1) ys v hy.1 p in
    let left = and_loop-in_array fuel (x + 1) mo xs (y ∷ ys) v (omega arith) hx.1 hy in
    let right = and_loop-in_array fuel lo (y + 1) (x ∷ xs) ys v (omega arith) hx hy.1 in
    let both = and_loop-in_array fuel (x + 1) (y + 1) xs ys v (omega arith) hx.1 hy.1 in
    elim (Bool-cases (ltb x y)) [
      | inl p ↦ rw p (ground arith)
      | inr p ↦ rw p (elim (Bool-cases (ltb y x)) [
        | inl q ↦ rw q (ground arith)
        | inr q ↦ rw q (ground arith)
      ])
    ]

pub or_loop-in_array :
    (fuel lo mo : ℕ) (xs ys : List ℕ) (v : ℕ)
    → length xs + length ys ≤ fuel
    → Ascending lo xs
    → Ascending mo ys
    → in_array (or_loop fuel xs ys) v ≡ max (in_array xs v) (in_array ys v)
unfolding or_loop in_array Ascending
or_loop-in_array zero lo mo [] ys v enough hx hy = omega arith
or_loop-in_array zero lo mo (x ∷ xs) ys v enough hx hy = absurd (omega arith)
or_loop-in_array (suc fuel) lo mo [] ys v enough hx hy = omega arith
or_loop-in_array (suc fuel) lo mo (x ∷ xs) [] v enough hx hy = omega arith
or_loop-in_array (suc fuel) lo mo (x ∷ xs) (y ∷ ys) v enough hx hy =
    let left = or_loop-in_array fuel (x + 1) mo xs (y ∷ ys) v (omega arith) hx.1 hy in
    let right = or_loop-in_array fuel lo (y + 1) (x ∷ xs) ys v (omega arith) hx hy.1 in
    let both = or_loop-in_array fuel (x + 1) (y + 1) xs ys v (omega arith) hx.1 hy.1 in
    elim (Bool-cases (ltb x y)) [
      | inl p ↦ rw p (omega arith)
      | inr p ↦
          rw p (elim (Bool-cases (ltb y x)) [
            | inl q ↦ rw q (omega arith)
            | inr q ↦ rw q (ground arith)
          ])
    ]

pub filter_values-in_array :
    (vs bits : List ℕ) (v : ℕ)
    → in_array (filter_values vs bits) v ≡ min (in_array vs v) (bit_at bits v)
unfolding filter_values in_array
filter_values-in_array [] bits v = omega arith
filter_values-in_array (x ∷ xs) bits v =
    let rest = filter_values-in_array xs bits v in
    let here = test_bit-bit_at bits v in
    let digit = bit_at-le bits v in
    elim (ℕ_discrete x v) [
      | yes e ↦ rw e (elim (Bool-cases (test_bit bits v)) [
        | inl p ↦ rw p (ground (arith, in_array-le xs v))
        | inr p ↦ rw p (ground (arith, in_array-le xs v))
      ])
      | no ne ↦ elim (Bool-cases (test_bit bits x)) [
        | inl p ↦ rw p (ground arith)
        | inr p ↦ rw p (ground arith)
      ]
    ]

-- Both merges keep the order, and the bounds that the two operands share.
pub and_loop-Ascending :
    (fuel lo : ℕ) (xs ys : List ℕ)
    → Ascending lo xs
    → Ascending lo ys
    → Ascending lo (and_loop fuel xs ys)
unfolding and_loop Ascending
and_loop-Ascending zero lo xs ys hx hy = tt
and_loop-Ascending (suc fuel) lo [] ys hx hy = tt
and_loop-Ascending (suc fuel) lo (x ∷ xs) [] hx hy = tt
and_loop-Ascending (suc fuel) lo (x ∷ xs) (y ∷ ys) hx hy = elim (Bool-cases (ltb x y)) [
  | inl p ↦ rw p (
      and_loop-Ascending fuel lo xs (y ∷ ys) (Ascending-le (x + 1) lo xs (omega (arith, hx.0)) hx.1)
        hy)
  | inr p ↦ rw p (elim (Bool-cases (ltb y x)) [
    | inl q ↦ rw q (
        and_loop-Ascending fuel lo (x ∷ xs) ys hx
          (Ascending-le (y + 1) lo ys (omega (arith, hy.0)) hy.1))
    | inr q ↦
        let equal : x ≡ y = ground arith in
        rw q (hx.0, and_loop-Ascending fuel (x + 1) xs ys hx.1 (rw equal hy.1))
  ])
]

pub or_loop-Ascending :
    (fuel lo : ℕ) (xs ys : List ℕ)
    → length xs + length ys ≤ fuel
    → Ascending lo xs
    → Ascending lo ys
    → Ascending lo (or_loop fuel xs ys)
unfolding or_loop Ascending
or_loop-Ascending zero lo [] ys enough hx hy = hy
or_loop-Ascending zero lo (x ∷ xs) ys enough hx hy = absurd (omega arith)
or_loop-Ascending (suc fuel) lo [] ys enough hx hy = hy
or_loop-Ascending (suc fuel) lo (x ∷ xs) [] enough hx hy = hx
or_loop-Ascending (suc fuel) lo (x ∷ xs) (y ∷ ys) enough hx hy = elim (Bool-cases (ltb x y)) [
  | inl p ↦
      rw p
        (hx.0, or_loop-Ascending fuel (x + 1) xs (y ∷ ys) (omega arith) hx.1 (ground arith, hy.1))
  | inr p ↦ rw p (elim (Bool-cases (ltb y x)) [
    | inl q ↦
        rw q
          (hy.0, or_loop-Ascending fuel (y + 1) (x ∷ xs) ys (omega arith) (ground arith, hx.1) hy.1)
    | inr q ↦
        let equal : x ≡ y = ground arith in
        rw q (hx.0, or_loop-Ascending fuel (x + 1) xs ys (omega arith) hx.1 (rw equal hy.1))
  ])
]

pub filter_values-Ascending :
    (lo : ℕ) (vs bits : List ℕ) → Ascending lo vs → Ascending lo (filter_values vs bits)
unfolding filter_values Ascending
filter_values-Ascending lo [] bits h = tt
filter_values-Ascending lo (x ∷ xs) bits h =
    let rest = filter_values-Ascending (x + 1) xs bits h.1 in
    elim (Bool-cases (test_bit bits x)) [
      | inl p ↦ rw p (h.0, rest)
      | inr p ↦ rw p (Ascending-le (x + 1) lo (filter_values xs bits) (omega (arith, h.0)) rest)
    ]

module _ (P : ℕ → Type 0) where
  pub and_loop-All : (fuel : ℕ) (xs ys : List ℕ) → All P xs → All P (and_loop fuel xs ys)
  unfolding and_loop
  and_loop-All zero xs ys hx = tt
  and_loop-All (suc fuel) [] ys hx = tt
  and_loop-All (suc fuel) (x ∷ xs) [] hx = tt
  and_loop-All (suc fuel) (x ∷ xs) (y ∷ ys) hx = elim (Bool-cases (ltb x y)) [
    | inl p ↦ rw p (and_loop-All fuel xs (y ∷ ys) hx.1)
    | inr p ↦ rw p (elim (Bool-cases (ltb y x)) [
      | inl q ↦ rw q (and_loop-All fuel (x ∷ xs) ys hx)
      | inr q ↦ rw q (hx.0, and_loop-All fuel xs ys hx.1)
    ])
  ]

  pub or_loop-All : (fuel : ℕ) (xs ys : List ℕ) → All P xs → All P ys → All P (or_loop fuel xs ys)
  unfolding or_loop
  or_loop-All zero xs ys hx hy = All-append P xs ys hx hy
  or_loop-All (suc fuel) [] ys hx hy = hy
  or_loop-All (suc fuel) (x ∷ xs) [] hx hy = hx
  or_loop-All (suc fuel) (x ∷ xs) (y ∷ ys) hx hy = elim (Bool-cases (ltb x y)) [
    | inl p ↦ rw p (hx.0, or_loop-All fuel xs (y ∷ ys) hx.1 hy)
    | inr p ↦ rw p (elim (Bool-cases (ltb y x)) [
      | inl q ↦ rw q (hy.0, or_loop-All fuel (x ∷ xs) ys hx hy.1)
      | inr q ↦ rw q (hx.0, or_loop-All fuel xs ys hx.1 hy.1)
    ])
  ]

  pub filter_values-All : (vs bits : List ℕ) → All P vs → All P (filter_values vs bits)
  unfolding filter_values
  filter_values-All [] bits h = tt
  filter_values-All (x ∷ xs) bits h = elim (Bool-cases (test_bit bits x)) [
    | inl p ↦ rw p (h.0, filter_values-All xs bits h.1)
    | inr p ↦ rw p (filter_values-All xs bits h.1)
  ]
