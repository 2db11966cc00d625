-- ===== src/Roaring/Count.antt =====
-- `Container::cardinality` of backends/roaring_bitmap.cpp against the members.
use bitmap_comp_framework.Prelude.{
  ℕ, zero, suc, ◌+◌, ◌-◌, ◌%◌, ◌^◌, ◌≤◌, ◌<◌, max, ◌≡◌, refl, ◌∙◌, ap, sym, inl, inr, ◌⊎◌, List, [],
  ◌∷◌, All, arith, length, lt_or_ge,
}
use native.Mathlib.Decide.{ℕ_discrete}
use bitmap_comp_framework.Bits.Count.{cardinality-ones}
use bitmap_comp_framework.Bits.Raw.{bit_at}
use bitmap_comp_framework.Bits.Total.{total, total-add, total-le, total_zeros, ones_in-total}
use bitmap_comp_framework.Roaring.{
  Run, Container, array, bitset, run, chunk_bits, cardinality, sum_runs,
}
use bitmap_comp_framework.Roaring.Sets.{
  same, in_array, in_array_below, in_run, in_run_past, in_run_before, in_runs, in_runs-le,
  in_runs_below, member, Ascending, Disjoint, IsContainer,
}

-- Two sets with nothing in common.
pub total-max :
    (n : ℕ) (f g : ℕ → ℕ)
    → ((i : ℕ) → i < n → (f i ≡ 0) ⊎ (g i ≡ 0))
    → total n (λ i. max (f i) (g i)) ≡ total n f + total n g
unfolding total
total-max zero f g h = refl
total-max (suc n) f g h = omega (
  arith,
  h 0 (omega arith),
  total-max n (λ i. f (suc i)) (λ i. g (suc i)) (λ i p. h (suc i) (omega arith)),
)

total_ones : (n : ℕ) (f : ℕ → ℕ) → ((i : ℕ) → i < n → f i ≡ 1) → total n f ≡ n
unfolding total
total_ones zero f h = refl
total_ones (suc n) f h =
    omega (arith, h 0 (omega arith), total_ones n (λ i. f (suc i)) (λ i p. h (suc i) (omega arith)))

-- A set that is a window of `k` positions from `s` on.
pub total_window :
    (n s k : ℕ) (f : ℕ → ℕ)
    → s + k ≤ n
    → ((i : ℕ) → i < s → f i ≡ 0)
    → ((i : ℕ) → s + k ≤ i → f i ≡ 0)
    → total n f ≡ total k (λ i. f (s + i))
total_window n s k f fits low high = omega (
  arith,
  total-add s (n - s) n f (omega arith),
  total_zeros s f low,
  total-add k (n - s - k) (n - s) (λ i. f (s + i)) (omega arith),
  total_zeros (n - s - k) (λ i. f (s + (k + i))) (λ i p. high (s + (k + i)) (omega arith)),
)

total-in_run :
    (n : ℕ) (r : Run) → r.start ≤ r.last → r.last < n → total n (in_run r) ≡ r.last + 1 - r.start
total-in_run n r some fits =
    total_window n r.start (r.last + 1 - r.start) (in_run r) (omega arith)
      (λ i p. in_run_before r i p) (λ i p. in_run_past r i (omega arith))
    ∙ total_ones (r.last + 1 - r.start) (λ i. in_run r (r.start + i)) (λ i p. inside i p)
  where
    inside : (i : ℕ) → i < r.last + 1 - r.start → in_run r (r.start + i) ≡ 1
    inside i p = unfold in_run in ground arith

total-same : (n x : ℕ) → x < n → total n (same x) ≡ 1
total-same n x fits =
    total_window n x 1 (same x) (omega arith) (λ i p. ground arith) (λ i p. ground arith)
    ∙ total_ones 1 (λ i. same x (x + i)) (λ i p. ground arith)

total-in_array :
    (n lo : ℕ) (xs : List ℕ)
    → Ascending lo xs
    → All (λ v. v < n) xs
    → total n (in_array xs) ≡ length xs
unfolding in_array Ascending
total-in_array n lo [] h fits = total_zeros n _ (λ i p. refl)
total-in_array n lo (x ∷ xs) h fits =
    total-max n (same x) (in_array xs) (λ i p. elim (ℕ_discrete x i) [
      | yes e ↦ inr (in_array_below (x + 1) xs i h.1 (omega arith))
      | no ne ↦ inl (ground arith)
    ])
    ∙ omega (arith, total-same n x fits.0, total-in_array n (x + 1) xs h.1 fits.1)

-- The first of disjoint intervals counts by itself.
total-first_run :
    (n lo : ℕ) (r : Run) (rs : List Run)
    → Disjoint lo (r ∷ rs)
    → All (λ r. r.last < n) (r ∷ rs)
    → total n (in_runs (r ∷ rs)) ≡ r.last + 1 - r.start + total n (in_runs rs)
unfolding in_runs Disjoint
total-first_run n lo r rs h fits = omega (
  arith,
  total-in_run n r h.1 fits.0,
  total-max n (in_run r) (in_runs rs) (λ i p. elim (lt_or_ge r.last i) [
    | inl q ↦ inl (in_run_past r i q)
    | inr q ↦ inr (in_runs_below (r.last + 1) rs i h.2 (omega arith))
  ]),
)

total-in_runs :
    (n lo c : ℕ) (rs : List Run)
    → Disjoint lo rs
    → All (λ r. r.last < n) rs
    → c + total n (in_runs rs) < 2 ^ 64
    → sum_runs c rs ≡ c + total n (in_runs rs)
unfolding in_runs sum_runs Disjoint
total-in_runs n lo c [] h fits room = omega (arith, total_zeros n (λ i. 0) (λ i p. refl))
total-in_runs n lo c (r ∷ rs) h fits room =
    let here = total-first_run n lo r rs h fits in
    let counted : (c + (r.last + 2 ^ 64 - r.start + 1)) % 2 ^ 64 ≡ c + (r.last + 1 - r.start) =
      omega (arith, here, room, h.1) in
    rw counted (
      omega (
        arith,
        total-in_runs n (r.last + 1) (c + (r.last + 1 - r.start)) rs h.2 fits.1
            (omega (arith, here, room)),
        here,
      ))

total-runs_lt : (rs : List Run) → 0 + total chunk_bits (in_runs rs) < 2 ^ 64
total-runs_lt rs = omega (arith, total-le chunk_bits (in_runs rs) (in_runs-le rs))

-- Disjoint intervals that there are do not count 0.
pub sum_runs-pos :
    (r : Run) (rs : List Run)
    → Disjoint 0 (r ∷ rs)
    → All (λ r. r.last < chunk_bits) (r ∷ rs)
    → 0 < sum_runs 0 (r ∷ rs)
unfolding Disjoint
sum_runs-pos r rs h fits = omega (
  arith,
  total-in_runs chunk_bits 0 0 (r ∷ rs) h fits (total-runs_lt (r ∷ rs)),
  total-first_run chunk_bits 0 r rs h fits,
  h.1,
)

-- The cardinality of a well-formed container is the number of its members.
pub cardinality-member :
    (c : Container) → IsContainer c → cardinality c ≡ total chunk_bits (member c)
unfolding cardinality member IsContainer
cardinality-member (array values) h = sym (total-in_array chunk_bits 0 values h.0 h.1)
cardinality-member (bitset bits) h =
    cardinality-ones bits h.1 (omega (arith, h.0))
    ∙ ones_in-total bits
    ∙ ap (λ (t : ℕ). total t (bit_at bits)) (omega (arith, h.0))
cardinality-member (run runs) h =
    total-in_runs chunk_bits 0 0 runs h.0 h.1 (total-runs_lt runs) ∙ omega arith
