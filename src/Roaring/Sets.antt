-- ===== src/Roaring/Sets.antt =====
-- Containers of backends/roaring_bitmap.cpp as sets of offsets: 1 for an offset that is in, 0 for one
-- that is not, and the order of arrays and runs.
use bitmap_comp_framework.Prelude.{
  ℕ, ◌+◌, ◌≤◌, ◌<◌, max, ◌≡◌, refl, List, [], ◌∷◌, ◌++◌, All, arith, ◌==◌, leb, ◌&&◌, if◌then◌else◌,
  length,
}
use bitmap_comp_framework.Bits.Raw.{bit_at, IsWord}
use bitmap_comp_framework.Roaring.{Run, Container, array, bitset, run, chunk_bits, chunk_words}

abbrev pub same : ℕ → ℕ → ℕ
same x v = if x == v then 1 else 0

unfoldable pub in_array : List ℕ → ℕ → ℕ
in_array [] v = 0
in_array (x ∷ xs) v = max (same x v) (in_array xs v)

unfoldable pub in_run : Run → ℕ → ℕ
in_run r v = if leb r.start v && leb v r.last then 1 else 0

unfoldable pub in_runs : List Run → ℕ → ℕ
in_runs [] v = 0
in_runs (r ∷ rs) v = max (in_run r v) (in_runs rs v)

-- Whether an offset is in a container.
unfoldable pub member : Container → ℕ → ℕ
member (array values) v = in_array values v
member (bitset bits) v = bit_at bits v
member (run runs) v = in_runs runs v

-- Strictly ascending from `lo` on.
unfoldable pub Ascending : ℕ → List ℕ → Type 0
Ascending lo [] = Unit
Ascending lo (x ∷ xs) = (lo ≤ x) × Ascending (x + 1) xs

-- Intervals in order from `lo` on, none empty and no two with an offset in common.
unfoldable pub Disjoint : ℕ → List Run → Type 0
Disjoint lo [] = Unit
Disjoint lo (r ∷ rs) = (lo ≤ r.start) × (r.start ≤ r.last) × Disjoint (r.last + 1) rs

-- What a container of one chunk looks like.
unfoldable pub IsContainer : Container → Type 0
IsContainer (array values) = Ascending 0 values × All (λ v. v < chunk_bits) values
IsContainer (bitset bits) = (length bits ≡ chunk_words) × All IsWord bits
IsContainer (run runs) = Disjoint 0 runs × All (λ r. r.last < chunk_bits) runs

pub in_array-le : (xs : List ℕ) (v : ℕ) → in_array xs v ≤ 1
unfolding in_array
in_array-le [] v = omega arith
in_array-le (x ∷ xs) v = ground (arith, in_array-le xs v)

pub in_run-le : (r : Run) (v : ℕ) → in_run r v ≤ 1
unfolding in_run
in_run-le r v = ground arith

pub in_run_past : (r : Run) (v : ℕ) → r.last < v → in_run r v ≡ 0
unfolding in_run
in_run_past r v h = ground arith

pub in_run_before : (r : Run) (v : ℕ) → v < r.start → in_run r v ≡ 0
unfolding in_run
in_run_before r v h = ground arith

pub in_runs-le : (rs : List Run) (v : ℕ) → in_runs rs v ≤ 1
unfolding in_runs
in_runs-le [] v = omega arith
in_runs-le (r ∷ rs) v = omega (arith, in_run-le r v, in_runs-le rs v)

pub in_array-append :
    (xs ys : List ℕ) (v : ℕ) → in_array (xs ++ ys) v ≡ max (in_array xs v) (in_array ys v)
unfolding in_array
in_array-append [] ys v = omega arith
in_array-append (x ∷ xs) ys v = omega (arith, in_array-append xs ys v)

pub in_runs-append :
    (xs ys : List Run) (v : ℕ) → in_runs (xs ++ ys) v ≡ max (in_runs xs v) (in_runs ys v)
unfolding in_runs
in_runs-append [] ys v = omega arith
in_runs-append (x ∷ xs) ys v = omega (arith, in_runs-append xs ys v)

pub in_array_below : (lo : ℕ) (xs : List ℕ) (v : ℕ) → Ascending lo xs → v < lo → in_array xs v ≡ 0
unfolding in_array Ascending
in_array_below lo [] v h p = refl
in_array_below lo (x ∷ xs) v h p =
    ground (arith, in_array_below (x + 1) xs v h.1 (omega (arith, h.0)), h.0)

pub in_runs_below : (lo : ℕ) (rs : List Run) (v : ℕ) → Disjoint lo rs → v < lo → in_runs rs v ≡ 0
unfolding in_runs Disjoint
in_runs_below lo [] v h p = refl
in_runs_below lo (r ∷ rs) v h p = omega (
  arith,
  in_runs_below (r.last + 1) rs v h.2 (omega (arith, h.0, h.1)),
  in_run_before r v (omega (arith, h.0)),
)

pub Ascending-le : (lo lo' : ℕ) (xs : List ℕ) → lo' ≤ lo → Ascending lo xs → Ascending lo' xs
unfolding Ascending
Ascending-le lo lo' [] p h = tt
Ascending-le lo lo' (x ∷ xs) p h = (omega (arith, h.0), h.1)

pub Disjoint-le : (lo lo' : ℕ) (rs : List Run) → lo' ≤ lo → Disjoint lo rs → Disjoint lo' rs
unfolding Disjoint
Disjoint-le lo lo' [] p h = tt
Disjoint-le lo lo' (r ∷ rs) p h = (omega (arith, h.0), h.1, h.2)
