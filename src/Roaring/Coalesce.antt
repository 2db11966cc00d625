-- ===== src/Roaring/Coalesce.antt =====
-- One interval more in the OR of runs of backends/roaring_bitmap.cpp: it joins the last one when they
-- overlap or touch.
use bitmap_comp_framework.Prelude.{
  ℕ, ◌+◌, ◌≤◌, ◌<◌, max, ◌≡◌, inl, inr, List, [], ◌∷◌, All, arith, leb, Bool-cases,
}
use bitmap_comp_framework.Roaring.{Run}
use bitmap_comp_framework.Roaring.Sets.{in_run, in_runs, Disjoint}
use bitmap_comp_framework.Roaring.Operations.{coalesce}

-- No interval starts after `s`, by the last one.
unfoldable pub Follows : List Run → ℕ → Type 0
Follows [] s = Unit
Follows (r ∷ []) s = r.start ≤ s
Follows (r ∷ t ∷ rs) s = Follows (t ∷ rs) s

pub Follows-le : (out : List Run) (s s' : ℕ) → s ≤ s' → Follows out s → Follows out s'
unfolding Follows
Follows-le [] s s' p h = tt
Follows-le (r ∷ []) s s' p h = omega arith
Follows-le (r ∷ t ∷ rs) s s' p h = Follows-le (t ∷ rs) s s' p h

-- The last interval starts at the lower bound or after it.
pub lower-Follows :
    (lo s : ℕ) (r : Run) (rs : List Run) → Disjoint lo (r ∷ rs) → Follows (r ∷ rs) s → lo ≤ s
unfolding Follows Disjoint
lower-Follows lo s r [] d h = omega (arith, d.0)
lower-Follows lo s r (t ∷ rs) d h = omega (arith, d.0, d.1, lower-Follows (r.last + 1) s t rs d.2 h)

pub grown-in_run :
    (r next : Run) (v : ℕ)
    → r.start ≤ next.start
    → next.start ≤ r.last + 1
    → in_run (record { start = r.start; last = max r.last next.last }) v
      ≡ max (in_run r v) (in_run next v)
unfolding in_run
grown-in_run r next v p q = ground arith

pub coalesce-in_runs :
    (out : List Run) (next : Run) (v : ℕ)
    → Follows out next.start
    → in_runs (coalesce out next) v ≡ max (in_runs out v) (in_run next v)
unfolding coalesce in_runs Follows
coalesce-in_runs [] next v h = omega arith
coalesce-in_runs (r ∷ []) next v h = elim (Bool-cases (leb next.start (r.last + 1))) [
  | inl p ↦ rw p (omega (arith, grown-in_run r next v h (ground arith)))
  | inr p ↦ rw p (omega arith)
]
coalesce-in_runs (r ∷ t ∷ rs) next v h = omega (arith, coalesce-in_runs (t ∷ rs) next v h)

pub coalesce-Disjoint :
    (lo : ℕ) (out : List Run) (next : Run)
    → Disjoint lo out
    → Follows out next.start
    → lo ≤ next.start
    → next.start ≤ next.last
    → Disjoint lo (coalesce out next)
unfolding coalesce Disjoint Follows
coalesce-Disjoint lo [] next d h low some = (low, some, tt)
coalesce-Disjoint lo (r ∷ []) next d h low some = elim (Bool-cases (leb next.start (r.last + 1))) [
  | inl p ↦ rw p (d.0, omega (arith, d.1), tt)
  | inr p ↦ rw p (d.0, d.1, (ground arith, some, tt))
]
coalesce-Disjoint lo (r ∷ t ∷ rs) next d h low some = (
  d.0,
  d.1,
  coalesce-Disjoint (r.last + 1) (t ∷ rs) next d.2 h
      (lower-Follows (r.last + 1) next.start t rs d.2 h) some,
)

pub coalesce-Follows :
    (out : List Run) (next : Run) (s : ℕ)
    → Follows out next.start
    → next.start ≤ s
    → Follows (coalesce out next) s
unfolding coalesce Follows
coalesce-Follows [] next s h p = p
coalesce-Follows (r ∷ []) next s h p = elim (Bool-cases (leb next.start (r.last + 1))) [
  | inl q ↦ rw q (omega arith)
  | inr q ↦ rw q p
]
coalesce-Follows (r ∷ t ∷ []) next s h p = elim (Bool-cases (leb next.start (t.last + 1))) [
  | inl q ↦ rw q (omega arith)
  | inr q ↦ rw q p
]
coalesce-Follows (r ∷ t ∷ u ∷ rs) next s h p = coalesce-Follows (t ∷ u ∷ rs) next s h p

pub coalesce-All :
    (top : ℕ) (out : List Run) (next : Run)
    → All (λ r. r.last < top) out
    → next.last < top
    → All (λ r. r.last < top) (coalesce out next)
unfolding coalesce
coalesce-All top [] next h p = (p, tt)
coalesce-All top (r ∷ []) next h p = elim (Bool-cases (leb next.start (r.last + 1))) [
  | inl q ↦ rw q (omega (arith, h.0), tt)
  | inr q ↦ rw q (h.0, (p, tt))
]
coalesce-All top (r ∷ t ∷ rs) next h p = (h.0, coalesce-All top (t ∷ rs) next h.1 p)
