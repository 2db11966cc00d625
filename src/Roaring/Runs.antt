-- ===== src/Roaring/Runs.antt =====
-- AND and OR of runs in backends/roaring_bitmap.cpp.
use bitmap_comp_framework.Prelude.{
  ℕ, zero, suc, ◌+◌, ◌≤◌, ◌<◌, min, max, ◌≡◌, inl, inr, List, [], ◌∷◌, All, arith, ltb, leb, length,
  lt_or_ge, Bool-cases, All-append, ◌⊎◌,
}
use bitmap_comp_framework.Roaring.{Run}
use bitmap_comp_framework.Roaring.Sets.{
  in_run, in_run_past, in_runs, in_runs_below, in_runs-append, Disjoint, Disjoint-le,
}
use bitmap_comp_framework.Roaring.Operations.{overlap, run_and_loop}

-- An interval and the rest of the other operand have nothing in common when it ends before them.
apart :
    (a : Run) (lo : ℕ) (ys : List Run) (v : ℕ)
    → a.last < lo
    → Disjoint lo ys
    → (in_run a v ≡ 0) ⊎ (in_runs ys v ≡ 0)
apart a lo ys v h d = elim (lt_or_ge a.last v) [
  | inl p ↦ inl (in_run_past a v p)
  | inr p ↦ inr (in_runs_below lo ys v d (omega arith))
]

overlap-in_runs : (a b : Run) (v : ℕ) → in_runs (overlap a b) v ≡ min (in_run a v) (in_run b v)
unfolding in_run in_runs
overlap-in_runs a b v = elim (Bool-cases (leb (max a.start b.start) (min a.last b.last))) [
  | inl p ↦ rw p (ground arith)
  | inr p ↦ rw p (ground arith)
]

pub run_and_loop-in_runs :
    (fuel lo mo : ℕ) (xs ys : List Run) (v : ℕ)
    → length xs + length ys ≤ fuel
    → Disjoint lo xs
    → Disjoint mo ys
    → in_runs (run_and_loop fuel xs ys) v ≡ min (in_runs xs v) (in_runs ys v)
unfolding run_and_loop in_runs Disjoint
run_and_loop-in_runs zero lo mo [] ys v enough hx hy = omega arith
run_and_loop-in_runs zero lo mo (a ∷ xs) ys v enough hx hy = absurd (omega arith)
run_and_loop-in_runs (suc fuel) lo mo [] ys v enough hx hy = omega arith
run_and_loop-in_runs (suc fuel) lo mo (a ∷ xs) [] v enough hx hy = omega arith
run_and_loop-in_runs (suc fuel) lo mo (a ∷ xs) (b ∷ ys) v enough hx hy =
    let here = overlap-in_runs a b v in
    let left = run_and_loop-in_runs fuel (a.last + 1) mo xs (b ∷ ys) v (omega arith) hx.2 hy in
    let right = run_and_loop-in_runs fuel lo (b.last + 1) (a ∷ xs) ys v (omega arith) hx hy.2 in
    elim (Bool-cases (ltb a.last b.last)) [
      | inl p ↦
          let none = apart a (b.last + 1) ys v (ground arith) hy.2 in
          rw (p, in_runs-append (overlap a b)) (omega (arith, here, left, none))
      | inr p ↦
          let none = apart b (a.last + 1) xs v (ground arith) hx.2 in
          rw (p, in_runs-append (overlap a b)) (omega (arith, here, right, none))
    ]

-- The intervals of an AND are in order from the larger of the two lower bounds on.
pub run_and_loop-Disjoint :
    (fuel lo mo : ℕ) (xs ys : List Run)
    → Disjoint lo xs
    → Disjoint mo ys
    → Disjoint (max lo mo) (run_and_loop fuel xs ys)
unfolding run_and_loop Disjoint
run_and_loop-Disjoint zero lo mo xs ys hx hy = tt
run_and_loop-Disjoint (suc fuel) lo mo [] ys hx hy = tt
run_and_loop-Disjoint (suc fuel) lo mo (a ∷ xs) [] hx hy = tt
run_and_loop-Disjoint (suc fuel) lo mo (a ∷ xs) (b ∷ ys) hx hy =
    let left = run_and_loop-Disjoint fuel (a.last + 1) mo xs (b ∷ ys) hx.2 hy in
    let right = run_and_loop-Disjoint fuel lo (b.last + 1) (a ∷ xs) ys hx hy.2 in
    elim (Bool-cases (leb (max a.start b.start) (min a.last b.last))) [
      | inl o ↦ elim (Bool-cases (ltb a.last b.last)) [
        | inl p ↦
            rw (o, p)
              (omega (arith, hx.0, hy.0), ground arith, Disjoint-le _ _ _ (ground arith) left)
        | inr p ↦
            rw (o, p)
              (omega (arith, hx.0, hy.0), ground arith, Disjoint-le _ _ _ (ground arith) right)
      ]
      | inr o ↦ elim (Bool-cases (ltb a.last b.last)) [
        | inl p ↦ rw (o, p) (Disjoint-le _ _ _ (omega (arith, hx.0, hx.1)) left)
        | inr p ↦ rw (o, p) (Disjoint-le _ _ _ (omega (arith, hy.0, hy.1)) right)
      ]
    ]

module _ (top : ℕ) where
  pub run_and_loop-All :
      (fuel : ℕ) (xs ys : List Run)
      → All (λ r. r.last < top) xs
      → All (λ r. r.last < top) (run_and_loop fuel xs ys)
  unfolding run_and_loop
  run_and_loop-All zero xs ys hx = tt
  run_and_loop-All (suc fuel) [] ys hx = tt
  run_and_loop-All (suc fuel) (a ∷ xs) [] hx = tt
  run_and_loop-All (suc fuel) (a ∷ xs) (b ∷ ys) hx = elim (Bool-cases (ltb a.last b.last)) [
    | inl p ↦ rw p (
        All-append (λ r. r.last < top) (overlap a b) (run_and_loop fuel xs (b ∷ ys))
          (overlap-All a b hx.0) (run_and_loop-All fuel xs (b ∷ ys) hx.1))
    | inr p ↦ rw p (
        All-append (λ r. r.last < top) (overlap a b) (run_and_loop fuel (a ∷ xs) ys)
          (overlap-All a b hx.0) (run_and_loop-All fuel (a ∷ xs) ys hx))
  ]
    where
      overlap-All : (a b : Run) → a.last < top → All (λ r. r.last < top) (overlap a b)
      overlap-All a b h = elim (Bool-cases (leb (max a.start b.start) (min a.last b.last))) [
        | inl p ↦ rw p (omega arith, tt)
        | inr p ↦ rw p tt
      ]
