-- ===== src/Wah/Count.antt =====
-- `WahResult::cardinality` of backends/wah_backend.cpp, which counts straight off the code words.
use bitmap_comp_framework.Prelude.{
  ℕ, ◌+◌, ◌*◌, ◌^◌, ◌≤◌, ◌<◌, ◌≡◌, refl, ◌∙◌, ap, inl, inr, List, [], ◌∷◌, length, replicate, All,
  arith, Bool-cases,
}
use bitmap_comp_framework.Bits.Count.{ones, ones-le, ones-zero, popcount64-ones}
use bitmap_comp_framework.Bits.Total.{
  ones_small, group_ones, group_ones-append, group_ones-replicate, group_ones-total, total,
  total_padded,
}
use native.Mathlib.Nat.{mul-le-mul_left}
use bitmap_comp_framework.Wah.{
  mask63, is_fill, is_one, run_value, run_count, count_word, cardinality_loop, cardinality,
}
use bitmap_comp_framework.Wah.Code.{IsCode, flag_value, expand}
use bitmap_comp_framework.Wah.Builder.{length-expand_cons}
use bitmap_comp_framework.Wah.Encode.{groups_for_bits_small}
use bitmap_comp_framework.Wah.Decode.{IsStream, stream_bit}

abbrev width_pos : 0 < 63
width_pos = omega arith

abbrev pub set_in : List ℕ → ℕ
set_in gs = group_ones 63 width_pos gs

ones_full : ones 63 mask63 ≡ 63
unfolding ones
ones_full = refl

-- What one code word adds to the count.
count_word-ones :
    (w c : ℕ)
    → w < 2 ^ 64
    → c + 63 * run_count w < 2 ^ 64
    → count_word c w ≡ c + run_count w * ones 63 (run_value w)
unfolding count_word
count_word-ones w c h fits = elim (Bool-cases (is_fill w)) [
  | inl f ↦ elim (Bool-cases (is_one w)) [
    | inl o ↦ rw (f, o, ones_full) (omega (arith, rw f at fits))
    | inr z ↦ rw (f, z, ones-zero 63) (omega arith)
  ]
  | inr l ↦
      let low : w < 2 ^ 63 = ground (arith, flag_value w) in
      let same : ones 64 w ≡ ones 63 w = ones_small 63 w low in
      let room : c + 63 < 2 ^ 64 = omega (arith, rw l at fits) in
      rw l (omega (arith, popcount64-ones w h, same, ones-le 63 w))
]

set_in-cons :
    (w : ℕ) (ws : List ℕ)
    → set_in (expand (w ∷ ws)) ≡ run_count w * ones 63 (run_value w) + set_in (expand ws)
unfolding expand
set_in-cons w ws =
    group_ones-append 63 width_pos (replicate (run_count w) (run_value w)) (expand ws)
    ∙ ap (λ (t : ℕ). t + set_in (expand ws))
        (group_ones-replicate 63 width_pos (run_count w) (run_value w))

cardinality_loop-set_in :
    (c : ℕ) (ws : List ℕ)
    → All IsCode ws
    → c + 63 * length (expand ws) < 2 ^ 64
    → cardinality_loop c ws ≡ c + set_in (expand ws)
unfolding cardinality_loop
cardinality_loop-set_in c [] h fits = unfold expand group_ones in omega arith
cardinality_loop-set_in c (w ∷ ws) h fits =
    let here : run_count w * ones 63 (run_value w) ≤ run_count w * 63 =
      mul-le-mul_left (run_count w) (ones-le 63 (run_value w)) in
    let step = count_word-ones w c h.0.0 (omega (arith, length-expand_cons w ws)) in
    rw step (
      omega (
        arith,
        set_in-cons w ws,
        cardinality_loop-set_in (c + run_count w * ones 63 (run_value w)) ws h.1
            (omega (arith, length-expand_cons w ws)),
      ))

-- On a well-formed stream of at most 2 ^ 32 positions whose padding is empty, the count off the code
-- words is the number of positions that are set.
pub cardinality-total :
    (num_bits : ℕ) (ws : List ℕ)
    → IsStream num_bits ws
    → num_bits ≤ 2 ^ 32
    → ((b : ℕ) → num_bits ≤ b → stream_bit ws b ≡ 0)
    → cardinality ws ≡ total num_bits (stream_bit ws)
unfolding cardinality
cardinality-total num_bits ws good small padding =
    let groups = groups_for_bits_small num_bits small in
    let counted =
      cardinality_loop-set_in 0 ws good.codes (omega (arith, good.group_count, groups)) in
    let cut : total (63 * length (expand ws)) (stream_bit ws) ≡ total num_bits (stream_bit ws) =
      total_padded num_bits (63 * length (expand ws)) (stream_bit ws)
        (omega (arith, good.group_count, groups)) padding in
    omega (arith, counted, whole, cut)
  where
    whole : set_in (expand ws) ≡ total (63 * length (expand ws)) (stream_bit ws)
    whole = unfold stream_bit in group_ones-total 63 width_pos (expand ws)
