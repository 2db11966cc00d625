-- ===== src/Wah/Stream.antt =====
-- The `Reader` of backends/wah_backend.cpp and the groups that it has still to read.
use bitmap_comp_framework.Prelude.{
  ℕ, ◌+◌, ◌-◌, ◌%◌, ◌^◌, ◌≤◌, ◌<◌, ◌≡◌, refl, ◌∙◌, ap, true, false, inl, inr, List, [], ◌∷◌, ◌++◌,
  length, replicate, All, arith, if◌then◌else◌, ◌==◌, length-append, length-replicate, append_assoc,
  lt_or_ge, ◌⊎◌,
}
use bitmap_comp_framework.Wah.{run_count, Reader, load, advance}
use bitmap_comp_framework.Wah.Code.{IsCode, run_value-lt, run_count-le, expand}
use bitmap_comp_framework.Wah.Builder.{replicate-add}

-- The groups still to be read.
abbrev pub view : Reader → List ℕ
view r = replicate r.remaining r.value ++ expand r.rest

-- The code words still to be used up, the current one included.
abbrev pub pending : Reader → ℕ
pending r = length r.rest + (if r.remaining == 0 then 0 else 1)

pub record IsReader (r : Reader) : Type 0 where
  pub codes : All IsCode r.rest
  pub value_fits : r.value < 2 ^ 63
  pub count_fits : r.remaining < 2 ^ 62
  pub at_end : r.remaining ≡ 0 → r.rest ≡ []

pub load-IsReader : (ws : List ℕ) → All IsCode ws → IsReader (load ws)
unfolding load
load-IsReader [] h = record {
  codes = tt;
  value_fits = omega arith;
  count_fits = omega arith;
  at_end = λ _. refl;
}
load-IsReader (w ∷ ws) h = record {
  codes = h.1;
  value_fits = run_value-lt w h.0.0;
  count_fits = run_count-le w;
  at_end = λ e. absurd (omega arith);
}

pub view-load : (ws : List ℕ) → view (load ws) ≡ expand ws
unfolding load expand
view-load [] = refl
view-load (w ∷ ws) = refl

pub pending-load : (ws : List ℕ) → All IsCode ws → pending (load ws) ≡ length ws
unfolding load
pending-load [] h = refl
pending-load (w ∷ ws) h =
    let some_left : (run_count w == 0) ≡ false = ground (arith, h.0.1) in rw some_left (omega arith)

module _ (r : Reader) (good : IsReader r) where
  pub view_done : r.remaining ≡ 0 → view r ≡ []
  unfolding expand
  view_done e = rw (good.at_end e, e)

  pub length-view : length (view r) ≡ r.remaining + length (expand r.rest)
  length-view = rw (length-append, length-replicate)

  module _ (n : ℕ) (le : n ≤ r.remaining) where
    left_over : (r.remaining + 2 ^ 64 - n) % 2 ^ 64 ≡ r.remaining - n
    left_over = omega (arith, good.count_fits)

    advance_cases :
        ((n ≡ r.remaining) × (advance r n ≡ load r.rest))
        ⊎ ((n < r.remaining) × (advance r n ≡ record r { remaining = r.remaining - n }))
    unfolding advance
    advance_cases = rw left_over (elim (lt_or_ge n r.remaining) [
      | inl p ↦ let more : (r.remaining - n == 0) ≡ false = ground arith in inr (p, rw more)
      | inr p ↦
          let none_left : (r.remaining - n == 0) ≡ true = ground arith in
          inl (omega arith, rw none_left)
    ])

    pub advance-IsReader : IsReader (advance r n)
    advance-IsReader = elim advance_cases [
      | inl (_, e) ↦ rw e (load-IsReader r.rest good.codes)
      | inr (p, e) ↦ rw e (record {
        codes = good.codes;
        value_fits = good.value_fits;
        count_fits = omega (arith, good.count_fits);
        at_end = λ z. absurd (omega arith);
      })
    ]

    -- `advance` drops `n` groups of the current run from the front.
    pub view-advance : view r ≡ replicate n r.value ++ view (advance r n)
    view-advance = elim advance_cases [
      | inl (p, e) ↦ rw (e, view-load r.rest, ← p)
      | inr (p, e) ↦
          let split : r.remaining ≡ n + (r.remaining - n) = omega arith in
          rw e (
            ap (λ (t : ℕ). replicate t r.value ++ expand r.rest) split
            ∙ rw (replicate-add n (r.remaining - n) r.value) (
                append_assoc (replicate n r.value) (replicate (r.remaining - n) r.value)
                  (expand r.rest)))
    ]

    pub pending-advance : pending (advance r n) ≤ pending r
    pending-advance = elim advance_cases [
      | inl (p, e) ↦ rw (e, pending-load r.rest good.codes) (omega arith)
      | inr (p, e) ↦ rw e (ground arith)
    ]

    -- A run that is read to its end is used up.
    pub pending-advance_all :
        n ≡ r.remaining → 0 < r.remaining → pending (advance r n) + 1 ≤ pending r
    pending-advance_all same pos = elim advance_cases [
      | inl (p, e) ↦ rw (e, pending-load r.rest good.codes) (ground arith)
      | inr (p, e) ↦ absurd (omega arith)
    ]
