-- ===== src/Roaring/Combine.antt =====
-- `optimize`, `container_and` and `container_or` of backends/roaring_bitmap.cpp on the members.
use bitmap_comp_framework.Prelude.{
  ℕ, zero, suc, ◌+◌, ◌/◌, ◌%◌, ◌<◌, min, max, ◌≡◌, refl, ◌∙◌, sym, inl, inr, Bool, true, false,
  List, [], ◌∷◌, All, arith, ◌==◌, length, get_or, Bool-cases, lt_or_ge,
}
use bitmap_comp_framework.Bits.Raw.{bit_at, IsWord}
use bitmap_comp_framework.Bits.Count.{cardinality-ones, ones_in, ones-pos}
use bitmap_comp_framework.Prelude.Digits.{bit, bit-zero}
use bitmap_comp_framework.Bits.Combine.{combine_bit}
use bitmap_comp_framework.Roaring.{
  Run, Container, array, bitset, run, chunk_bits, kind, same_kind, cardinality, to_bitset,
  best_kind, optimize, run_count,
}
use bitmap_comp_framework.Roaring.Count.{sum_runs-pos}
use bitmap_comp_framework.Roaring.Sets.{in_array, in_runs, member, Ascending, IsContainer}
use bitmap_comp_framework.Roaring.Operations.{
  array_and_array, array_and_bitset, array_or_array, run_and_run, run_or_run, bitset_op,
  and_unoptimized, or_unoptimized, container_and, container_or,
}
use bitmap_comp_framework.Roaring.Arrays.{
  and_loop-in_array, or_loop-in_array, filter_values-in_array, and_loop-Ascending,
  or_loop-Ascending, filter_values-Ascending, and_loop-All, or_loop-All, filter_values-All,
}
use bitmap_comp_framework.Roaring.Runs.{
  run_and_loop-in_runs, run_and_loop-Disjoint, run_and_loop-All,
}
use bitmap_comp_framework.Roaring.Unions.{run_or_loop-in_runs}
use bitmap_comp_framework.Roaring.Expand.{to_bitset-IsChunk}
use bitmap_comp_framework.Roaring.Convert.{Holds, convert-Holds, bitset_op-Holds}

through_bitsets :
    (is_and : Bool) (a b : Container)
    → IsContainer a
    → IsContainer b
    → Holds
        (bitset_op (to_bitset a) (to_bitset b) is_and)
        (λ v. combine_bit is_and (member a v) (member b v))
through_bitsets is_and a b ha hb =
    bitset_op-Holds is_and (to_bitset a) (to_bitset b) (member a) (member b)
      (to_bitset-IsChunk a ha) (to_bitset-IsChunk b hb)

arrays_and :
    (a b : List ℕ)
    → IsContainer (array a)
    → IsContainer (array b)
    → Holds (array_and_array a b) (λ v. min (in_array a v) (in_array b v))
unfolding array_and_array member IsContainer
arrays_and a b ha hb = record {
  shape = (
    and_loop-Ascending (length a + length b) 0 a b ha.0 hb.0,
    and_loop-All (λ v. v < chunk_bits) (length a + length b) a b ha.1,
  );
  members = λ v. and_loop-in_array (length a + length b) 0 0 a b v (omega arith) ha.0 hb.0;
}

arrays_or :
    (a b : List ℕ)
    → IsContainer (array a)
    → IsContainer (array b)
    → Holds (array_or_array a b) (λ v. max (in_array a v) (in_array b v))
unfolding array_or_array member IsContainer
arrays_or a b ha hb = record {
  shape = (
    or_loop-Ascending (length a + length b) 0 a b (omega arith) ha.0 hb.0,
    or_loop-All (λ v. v < chunk_bits) (length a + length b) a b ha.1 hb.1,
  );
  members = λ v. or_loop-in_array (length a + length b) 0 0 a b v (omega arith) ha.0 hb.0;
}

array_with_bitset :
    (a b : List ℕ)
    → IsContainer (array a)
    → Holds (array_and_bitset a b) (λ v. min (in_array a v) (bit_at b v))
unfolding array_and_bitset member IsContainer
array_with_bitset a b ha = record {
  shape = (filter_values-Ascending 0 a b ha.0, filter_values-All (λ v. v < chunk_bits) a b ha.1);
  members = λ v. filter_values-in_array a b v;
}

runs_and :
    (a b : List Run)
    → IsContainer (run a)
    → IsContainer (run b)
    → Holds (run_and_run a b) (λ v. min (in_runs a v) (in_runs b v))
unfolding run_and_run member IsContainer
runs_and a b ha hb = record {
  shape = (
    run_and_loop-Disjoint (length a + length b) 0 0 a b ha.0 hb.0,
    run_and_loop-All chunk_bits (length a + length b) a b ha.1,
  );
  members = λ v. run_and_loop-in_runs (length a + length b) 0 0 a b v (omega arith) ha.0 hb.0;
}

runs_or :
    (a b : List Run)
    → IsContainer (run a)
    → IsContainer (run b)
    → Holds (run_or_run a b) (λ v. max (in_runs a v) (in_runs b v))
unfolding run_or_run member IsContainer in_runs
runs_or a b ha hb =
    let u = run_or_loop-in_runs chunk_bits a b ha.0 hb.0 ha.1 hb.1 in
    record { shape = (u.order, u.bound); members = λ v. omega (arith, u.members v) }

-- A container that counts nothing has no members.
no_ones : (words : List ℕ) (v : ℕ) → All IsWord words → ones_in words ≡ 0 → bit_at words v ≡ 0
unfolding ones_in bit_at
no_ones words v h e = bit_at_zero (v / 64) words h e
  where
    bit_at_zero :
        (i : ℕ) (words : List ℕ)
        → All IsWord words
        → ones_in words ≡ 0
        → bit (get_or words i 0) (v % 64) ≡ 0
    bit_at_zero i [] h e = bit-zero (v % 64)
    bit_at_zero zero (w ∷ ws) h e = elim (lt_or_ge 0 w) [
      | inl p ↦ absurd (omega (arith, ones-pos 64 w h.0 p))
      | inr p ↦ let none : w ≡ 0 = omega arith in rw none (bit-zero (v % 64))
    ]
    bit_at_zero (suc i) (w ∷ ws) h e = bit_at_zero i ws h.1 (omega arith)

pub member_none : (c : Container) (v : ℕ) → IsContainer c → cardinality c ≡ 0 → member c v ≡ 0
unfolding cardinality member IsContainer in_array in_runs
member_none (array []) v h e = refl
member_none (array (x ∷ xs)) v h e = absurd (omega arith)
member_none (bitset bits) v h e =
    no_ones bits v h.1 (sym (cardinality-ones bits h.1 (omega (arith, h.0))) ∙ e)
member_none (run []) v h e = refl
member_none (run (r ∷ rs)) v h e = absurd (omega (arith, sum_runs-pos r rs h.0 h.1, e))

-- `optimize` on a well-formed container changes no member and leaves a well-formed container.
pub optimize-Holds : (c : Container) → IsContainer c → Holds (optimize c) (member c)
unfolding optimize
optimize-Holds c h = elim (Bool-cases (cardinality c == 0)) [
  | inl e ↦ rw e (nothing (λ v. member_none c v h (ground arith)))
  | inr e ↦ rw e (elim (Bool-cases (same_kind (best_kind (cardinality c) (run_count c)) (kind c))) [
    | inl s ↦ rw s (record { shape = h; members = λ v. refl })
    | inr s ↦ rw s (
        convert-Holds (best_kind (cardinality c) (run_count c)) (to_bitset c) (member c)
          (to_bitset-IsChunk c h))
  ])
]
  where
    nothing : ((v : ℕ) → member c v ≡ 0) → Holds (array []) (member c)
    nothing none =
        unfold IsContainer Ascending in
        record { shape = (tt, tt); members = λ v. unfold member in_array in sym (none v) }

flip :
    (c : Container) (f g : ℕ → ℕ) → Holds c (λ v. min (f v) (g v)) → Holds c (λ v. min (g v) (f v))
flip c f g h = record { shape = h.shape; members = λ v. omega (arith, h.members v) }

and_unoptimized-Holds :
    (a b : Container)
    → IsContainer a
    → IsContainer b
    → Holds (and_unoptimized a b) (λ v. min (member a v) (member b v))
unfolding and_unoptimized member to_bitset
and_unoptimized-Holds (array a) (array b) ha hb = arrays_and a b ha hb
and_unoptimized-Holds (array a) (bitset b) ha hb = array_with_bitset a b ha
and_unoptimized-Holds (array a) (run b) ha hb = through_bitsets true (array a) (run b) ha hb
and_unoptimized-Holds (bitset a) (array b) ha hb =
    flip _ (in_array b) (bit_at a) (array_with_bitset b a hb)
and_unoptimized-Holds (bitset a) (bitset b) ha hb = through_bitsets true (bitset a) (bitset b) ha hb
and_unoptimized-Holds (bitset a) (run b) ha hb = through_bitsets true (bitset a) (run b) ha hb
and_unoptimized-Holds (run a) (array b) ha hb = through_bitsets true (run a) (array b) ha hb
and_unoptimized-Holds (run a) (bitset b) ha hb = through_bitsets true (run a) (bitset b) ha hb
and_unoptimized-Holds (run a) (run b) ha hb = runs_and a b ha hb

or_unoptimized-Holds :
    (a b : Container)
    → IsContainer a
    → IsContainer b
    → Holds (or_unoptimized a b) (λ v. max (member a v) (member b v))
unfolding or_unoptimized member to_bitset
or_unoptimized-Holds (array a) (array b) ha hb = arrays_or a b ha hb
or_unoptimized-Holds (array a) (bitset b) ha hb = through_bitsets false (array a) (bitset b) ha hb
or_unoptimized-Holds (array a) (run b) ha hb = through_bitsets false (array a) (run b) ha hb
or_unoptimized-Holds (bitset a) (array b) ha hb = through_bitsets false (bitset a) (array b) ha hb
or_unoptimized-Holds (bitset a) (bitset b) ha hb = through_bitsets false (bitset a) (bitset b) ha hb
or_unoptimized-Holds (bitset a) (run b) ha hb = through_bitsets false (bitset a) (run b) ha hb
or_unoptimized-Holds (run a) (array b) ha hb = through_bitsets false (run a) (array b) ha hb
or_unoptimized-Holds (run a) (bitset b) ha hb = through_bitsets false (run a) (bitset b) ha hb
or_unoptimized-Holds (run a) (run b) ha hb = runs_or a b ha hb

optimized : (c : Container) (f : ℕ → ℕ) → Holds c f → Holds (optimize c) f
optimized c f h =
    let o = optimize-Holds c h.shape in
    record { shape = o.shape; members = λ v. o.members v ∙ h.members v }

-- For all nine pairs of kinds, `container_and` of well-formed containers is a well-formed container
-- whose members are those of both, and `container_or` one whose members are those of either.
pub container_and_or-Holds :
    (a b : Container)
    → IsContainer a
    → IsContainer b
    → Holds (container_and a b) (λ v. min (member a v) (member b v))
      × Holds (container_or a b) (λ v. max (member a v) (member b v))
unfolding container_and container_or
container_and_or-Holds a b ha hb = (
  optimized (and_unoptimized a b) _ (and_unoptimized-Holds a b ha hb),
  optimized (or_unoptimized a b) _ (or_unoptimized-Holds a b ha hb),
)
