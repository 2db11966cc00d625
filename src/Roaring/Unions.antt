-- ===== src/Roaring/Unions.antt =====
-- OR of runs in backends/roaring_bitmap.cpp, which coalesces intervals that overlap or touch.
use bitmap_comp_framework.Prelude.{
  ℕ, zero, suc, ◌+◌, ◌≤◌, ◌<◌, max, ◌≡◌, inl, inr, List, [], ◌∷◌, All, arith, leb, length,
  Bool-cases,
}
use bitmap_comp_framework.Roaring.{Run}
use bitmap_comp_framework.Roaring.Sets.{in_runs, Disjoint}
use bitmap_comp_framework.Roaring.Operations.{coalesce, push_runs, run_or_loop}
use bitmap_comp_framework.Roaring.Coalesce.{
  Follows, Follows-le, coalesce-in_runs, coalesce-Disjoint, coalesce-Follows, coalesce-All,
}

-- What the loop makes of the intervals pushed so far and of those that are left.
pub record Unites (lo top : ℕ) (out xs ys result : List Run) : Type 0 where
  pub members : (v : ℕ) → in_runs result v ≡ max (in_runs out v) (max (in_runs xs v) (in_runs ys v))
  pub order : Disjoint lo result
  pub bound : All (λ r. r.last < top) result

module _ (lo top : ℕ) where
  -- The loop may go on: both operands start at the last interval's start or after it.
  record Ready (out xs ys : List Run) : Type 0 where
    pub out_order : Disjoint lo out
    pub out_bound : All (λ r. r.last < top) out
    pub left_low : ℕ
    pub left_order : Disjoint left_low xs
    pub left_follows : Follows out left_low
    pub left_lo : lo ≤ left_low
    pub left_bound : All (λ r. r.last < top) xs
    pub right_low : ℕ
    pub right_order : Disjoint right_low ys
    pub right_follows : Follows out right_low
    pub right_lo : lo ≤ right_low
    pub right_bound : All (λ r. r.last < top) ys

  -- One interval is taken from the left operand; the right one starts at `s`, which is not before it.
  take_left :
      (out : List Run) (a : Run) (xs ys : List Run) (s : ℕ)
      → Ready out (a ∷ xs) ys
      → a.start ≤ s
      → Disjoint s ys
      → Ready (coalesce out a) xs ys
  unfolding Disjoint
  take_left out a xs ys s g p d =
      let low = g.left_order.0 in
      let h = Follows-le out g.left_low a.start low g.left_follows in
      record {
        out_order =
            coalesce-Disjoint lo out a g.out_order h (omega (arith, g.left_lo)) g.left_order.1;
        out_bound = coalesce-All top out a g.out_bound g.left_bound.0;
        left_low = a.last + 1;
        left_order = g.left_order.2;
        left_follows = coalesce-Follows out a (a.last + 1) h (omega (arith, g.left_order.1));
        left_lo = omega (arith, g.left_lo, g.left_order.1);
        left_bound = g.left_bound.1;
        right_low = s;
        right_order = d;
        right_follows = coalesce-Follows out a s h p;
        right_lo = omega (arith, g.left_lo);
        right_bound = g.right_bound;
      }

  swapped : (out xs ys : List Run) → Ready out xs ys → Ready out ys xs
  swapped out xs ys g = record {
    out_order = g.out_order;
    out_bound = g.out_bound;
    left_low = g.right_low;
    left_order = g.right_order;
    left_follows = g.right_follows;
    left_lo = g.right_lo;
    left_bound = g.right_bound;
    right_low = g.left_low;
    right_order = g.left_order;
    right_follows = g.left_follows;
    right_lo = g.left_lo;
    right_bound = g.left_bound;
  }

  take_left-Unites :
      (out : List Run) (a : Run) (xs ys result : List Run)
      → Ready out (a ∷ xs) ys
      → Unites lo top (coalesce out a) xs ys result
      → Unites lo top out (a ∷ xs) ys result
  unfolding in_runs Disjoint
  take_left-Unites out a xs ys result g u =
      let h = Follows-le out g.left_low a.start g.left_order.0 g.left_follows in
      record {
        members = λ v. omega (arith, u.members v, coalesce-in_runs out a v h);
        order = u.order;
        bound = u.bound;
      }

  swapped-Unites :
      (out xs ys result : List Run)
      → Unites lo top out xs ys result
      → Unites lo top out ys xs result
  swapped-Unites out xs ys result u = record {
    members = λ v. omega (arith, u.members v);
    order = u.order;
    bound = u.bound;
  }

  done-Unites : (out : List Run) → Ready out [] [] → Unites lo top out [] [] out
  unfolding in_runs
  done-Unites out g = record {
    members = λ v. omega arith;
    order = g.out_order;
    bound = g.out_bound;
  }

  run_or_loop-Unites :
      (fuel : ℕ) (out xs ys : List Run)
      → length xs + length ys ≤ fuel
      → Ready out xs ys
      → Unites lo top out xs ys (run_or_loop fuel out xs ys)
  unfolding run_or_loop push_runs Disjoint
  run_or_loop-Unites zero out [] [] enough g = done-Unites out g
  run_or_loop-Unites zero out [] (b ∷ ys) enough g = absurd (omega arith)
  run_or_loop-Unites zero out (a ∷ xs) ys enough g = absurd (omega arith)
  run_or_loop-Unites (suc fuel) out [] [] enough g =
      run_or_loop-Unites fuel out [] [] (omega arith) g
  run_or_loop-Unites (suc fuel) out (a ∷ xs) [] enough g = take_left-Unites out a xs [] _ g (
      run_or_loop-Unites fuel (coalesce out a) xs [] (omega arith)
        (take_left out a xs [] a.start g (omega arith) tt))
  run_or_loop-Unites (suc fuel) out [] (b ∷ ys) enough g =
      let h = swapped out [] (b ∷ ys) g in
      swapped-Unites out (b ∷ ys) [] _ (
        take_left-Unites out b ys [] _ h (
          swapped-Unites (coalesce out b) [] ys _ (
            run_or_loop-Unites fuel (coalesce out b) [] ys (omega arith)
              (swapped (coalesce out b) ys [] (take_left out b ys [] b.start h (omega arith) tt)))))
  run_or_loop-Unites (suc fuel) out (a ∷ xs) (b ∷ ys) enough g =
      elim (Bool-cases (leb a.start b.start)) [
        | inl p ↦ rw p (
            take_left-Unites out a xs (b ∷ ys) _ g (
              run_or_loop-Unites fuel (coalesce out a) xs (b ∷ ys) (omega arith) (
                take_left out a xs (b ∷ ys) b.start g (ground arith)
                  (omega arith, g.right_order.1, g.right_order.2))))
        | inr p ↦
            let h = swapped out (a ∷ xs) (b ∷ ys) g in
            rw p (
              swapped-Unites out (b ∷ ys) (a ∷ xs) _ (
                take_left-Unites out b ys (a ∷ xs) _ h (
                  swapped-Unites (coalesce out b) (a ∷ xs) ys _ (
                    run_or_loop-Unites fuel (coalesce out b) (a ∷ xs) ys (omega arith) (
                      swapped (coalesce out b) ys (a ∷ xs) (
                        take_left out b ys (a ∷ xs) a.start h (ground arith)
                          (omega arith, g.left_order.1, g.left_order.2)))))))
      ]

-- The whole loop, from an empty result.
pub run_or_loop-in_runs :
    (top : ℕ) (xs ys : List Run)
    → Disjoint 0 xs
    → Disjoint 0 ys
    → All (λ r. r.last < top) xs
    → All (λ r. r.last < top) ys
    → Unites 0 top [] xs ys (run_or_loop (length xs + length ys) [] xs ys)
unfolding Follows Disjoint
run_or_loop-in_runs top xs ys hx hy bx by =
    run_or_loop-Unites 0 top (length xs + length ys) [] xs ys (omega arith) (record {
      out_order = tt;
      out_bound = tt;
      left_low = 0;
      left_order = hx;
      left_follows = tt;
      left_lo = omega arith;
      left_bound = bx;
      right_low = 0;
      right_order = hy;
      right_follows = tt;
      right_lo = omega arith;
      right_bound = by;
    })
