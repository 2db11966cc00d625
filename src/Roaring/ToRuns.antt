-- ===== src/Roaring/ToRuns.antt =====
-- `bitset_to_runs` of backends/roaring_bitmap.cpp.
use bitmap_comp_framework.Prelude.{
  ℕ, zero, suc, ◌+◌, ◌*◌, ◌%◌, ◌^◌, ◌≤◌, ◌<◌, max, ◌≡◌, ◌∙◌, ap, sym, inl, inr, true, false, List,
  All, arith, ltb, leb, ◌&&◌, length, if◌then◌else◌, Bool-cases, lt_or_ge,
}
use native.Mathlib.Decide.{ℕ_discrete}
use bitmap_comp_framework.Bits.{test_bit}
use bitmap_comp_framework.Bits.Raw.{bit_at, bit_at-le, bit_at_past, test_bit-bit_at}
use bitmap_comp_framework.Roaring.{run_end, runs_from, bitset_to_runs}
use bitmap_comp_framework.Roaring.Sets.{in_run, in_runs, Disjoint, Disjoint-le}

module _ (bits : List ℕ) where
  abbrev n : ℕ
  n = length bits * 64

  -- Where a run that position `i` is in ends.
  record Ends (i last : ℕ) : Type 0 where
    pub after : i ≤ last
    pub inside : last < n
    pub set : (j : ℕ) → i ≤ j → j ≤ last → bit_at bits j ≡ 1

  run_end-Ends :
      (fuel i : ℕ) → i < n → n ≤ i + fuel → bit_at bits i ≡ 1 → Ends i (run_end fuel bits i)
  unfolding run_end
  run_end-Ends zero i p enough here = absurd (omega arith)
  run_end-Ends (suc fuel) i p enough here =
      elim (Bool-cases (ltb (i + 1) n && test_bit bits (i + 1))) [
        | inl q ↦
            let rest =
              run_end-Ends fuel (i + 1) (ground arith) (omega arith)
                ((test_bit-bit_at bits (i + 1)).0 (ground arith)) in
            rw q (record {
              after = omega (arith, rest.after);
              inside = rest.inside;
              set = λ j lo hi. elim (lt_or_ge i j) [
                | inl r ↦ rest.set j (omega arith) hi
                | inr r ↦ let equal : i ≡ j = omega arith in ap (bit_at bits) (sym equal) ∙ here
              ];
            })
        | inr q ↦ rw q (record {
          after = omega arith;
          inside = p;
          set = λ j lo hi. let equal : i ≡ j = omega arith in ap (bit_at bits) (sym equal) ∙ here;
        })
      ]

  -- The positions from `i` on.
  abbrev rest_from : ℕ → ℕ → ℕ
  rest_from i v = if leb i v && ltb v n then bit_at bits v else 0

  in_run_set :
      (i last v : ℕ)
      → Ends i last
      → max (in_run (record { start = i; last = last }) v) (rest_from (last + 1) v) ≡ rest_from i v
  unfolding in_run
  in_run_set i last v e = elim (lt_or_ge v i) [
    | inl p ↦ ground (arith, e.after)
    | inr p ↦ elim (lt_or_ge last v) [
      | inl q ↦ ground (arith, e.after)
      | inr q ↦ let one = e.set v p q in ground (arith, e.inside)
    ]
  ]

  rest_from_skip : (i v : ℕ) → bit_at bits i ≡ 0 → rest_from (i + 1) v ≡ rest_from i v
  rest_from_skip i v h = elim (ℕ_discrete i v) [
    | yes e ↦ let here : bit_at bits v ≡ 0 = ap (bit_at bits) (sym e) ∙ h in ground arith
    | no ne ↦ ground arith
  ]

  runs_from-rest_from :
      (fuel i v : ℕ) → n ≤ 2 ^ 16 → n ≤ i + fuel → in_runs (runs_from fuel bits i) v ≡ rest_from i v
  unfolding runs_from in_runs
  runs_from-rest_from zero i v fits enough = ground arith
  runs_from-rest_from (suc fuel) i v fits enough = elim (lt_or_ge i n) [
    | inr past ↦ let stop : ltb i n ≡ false = ground arith in rw stop (ground arith)
    | inl p ↦
        let go : ltb i n ≡ true = ground arith in
        elim (Bool-cases (test_bit bits i)) [
          | inl q ↦
              let e = run_end-Ends n i p (omega arith) ((test_bit-bit_at bits i).0 q) in
              let rest =
                runs_from-rest_from fuel (run_end n bits i + 1) v fits (omega (arith, e.after)) in
              let low : i % 2 ^ 16 ≡ i = omega arith in
              let high : run_end n bits i % 2 ^ 16 ≡ run_end n bits i = omega (arith, e.inside) in
              rw (go, q, low, high, rest) (in_run_set i (run_end n bits i) v e)
          | inr q ↦
              let rest = runs_from-rest_from fuel (i + 1) v fits (omega arith) in
              let digit = bit_at-le bits i in
              let here = test_bit-bit_at bits i in
              let none : bit_at bits i ≡ 0 = ground arith in
              rw (go, q, rest) (rest_from_skip i v none)
        ]
  ]

  runs_from-Disjoint :
      (fuel i : ℕ)
      → n ≤ 2 ^ 16
      → Disjoint i (runs_from fuel bits i) × All (λ r. r.last < 2 ^ 16) (runs_from fuel bits i)
  unfolding runs_from Disjoint
  runs_from-Disjoint zero i fits = (tt, tt)
  runs_from-Disjoint (suc fuel) i fits = elim (lt_or_ge i n) [
    | inr past ↦ let stop : ltb i n ≡ false = ground arith in rw stop (tt, tt)
    | inl p ↦
        let go : ltb i n ≡ true = ground arith in
        elim (Bool-cases (test_bit bits i)) [
          | inl q ↦
              let e = run_end-Ends n i p (omega arith) ((test_bit-bit_at bits i).0 q) in
              let (order, inside) = runs_from-Disjoint fuel (run_end n bits i + 1) fits in
              let low : i % 2 ^ 16 ≡ i = omega arith in
              let high : run_end n bits i % 2 ^ 16 ≡ run_end n bits i = omega (arith, e.inside) in
              rw (go, q, low, high)
                ((omega arith, e.after, order), (omega (arith, e.inside), inside))
          | inr q ↦
              let (order, inside) = runs_from-Disjoint fuel (i + 1) fits in
              rw (go, q) (Disjoint-le (i + 1) i _ (omega arith) order, inside)
        ]
  ]

-- `bitset_to_runs` of a bitset of at most one chunk has its positions, in disjoint intervals.
pub bitset_to_runs-bit_at :
    (bits : List ℕ) (v : ℕ)
    → length bits * 64 ≤ 2 ^ 16
    → in_runs (bitset_to_runs bits) v ≡ bit_at bits v
unfolding bitset_to_runs
bitset_to_runs-bit_at bits v fits =
    runs_from-rest_from bits (length bits * 64) 0 v fits (omega arith)
    ∙ elim (lt_or_ge v (length bits * 64)) [
      | inl p ↦ ground arith
      | inr p ↦ ground (arith, bit_at_past bits v (omega arith))
    ]

pub bitset_to_runs-Disjoint :
    (bits : List ℕ)
    → length bits * 64 ≤ 2 ^ 16
    → Disjoint 0 (bitset_to_runs bits) × All (λ r. r.last < 2 ^ 16) (bitset_to_runs bits)
unfolding bitset_to_runs
bitset_to_runs-Disjoint bits fits = runs_from-Disjoint bits (length bits * 64) 0 fits
