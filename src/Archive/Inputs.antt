-- ===== src/Archive/Inputs.antt =====
-- The checks of backends/archive.cpp on what the backends are given.
use bitmap_comp_framework.Prelude.{
  ℕ, ◌+◌, ◌-◌, ◌*◌, ◌/◌, ◌%◌, ◌^◌, ◌≤◌, ◌<◌, ◌≡◌, refl, ◌∙◌, inl, inr, ◌↔◌, ◌≢◌, true, List, [],
  ◌∷◌, length, All, arith, ltb, leb, ok, require, lt_or_ge, >>=-eq-ok, universe, id_out_of_range,
  lt→ltb,
}
use native.Mathlib.Decide.{ℕ_discrete}
use native.Mathlib.Nat.{div-eq_of_lt, div-lt_iff_lt-mul}
use bitmap_comp_framework.Prelude.Digits.{bit, bit-lt_pow, lt_of_bits}
use bitmap_comp_framework.Prelude.Masks.{pow-pos}
use bitmap_comp_framework.Bits.{◌>>>◌, words_for_bits}
use bitmap_comp_framework.Bits.Raw.{bit_at, bit_at_past, IsWord, IsRaw, get_or-IsWord}
use bitmap_comp_framework.Archive.{
  back, validate_input, validate_each, validate_inputs, check_ids, validate_ids,
}

module _ (n : ℕ) (b : List ℕ) (words : All IsWord b) (small : n ≤ 2 ^ 32)
    (sized : length b ≡ words_for_bits n) where
  size_in_words : length b ≡ (n + 63) / 64
  size_in_words = sized ∙ (unfold words_for_bits in omega arith)

  padding_of_shift : n % 64 ≢ 0 → back b >>> (n % 64) ≡ 0 → (i : ℕ) → n ≤ i → bit_at b i ≡ 0
  padding_of_shift ne e i h = elim (lt_or_ge i (64 * length b)) [
    | inr past ↦ bit_at_past b i past
    | inl inside ↦
        let last : i / 64 ≡ length b - 1 = omega (arith, size_in_words) in
        unfold bit_at in
        rw last (bit-lt_pow (n % 64) (back b) (i % 64) (below e) (omega (arith, size_in_words)))
  ]
    where
      below : back b >>> (n % 64) ≡ 0 → back b < 2 ^ (n % 64)
      below e =
          let lt =
            (div-lt_iff_lt-mul {k = 2 ^ (n % 64)} {x = back b} {y = 1} (pow-pos (n % 64))).0
              (omega arith) in
          omega arith

  shift_of_padding : n % 64 ≢ 0 → ((i : ℕ) → n ≤ i → bit_at b i ≡ 0) → back b >>> (n % 64) ≡ 0
  shift_of_padding ne h = div-eq_of_lt (
      lt_of_bits (n % 64) (back b) λ i p. elim (lt_or_ge i 64) [
        | inr past ↦ bit-lt_pow 64 (back b) i (get_or-IsWord b (length b - 1) words) past
        | inl inside ↦ digit i p inside
      ])
    where
      digit : (i : ℕ) → n % 64 ≤ i → i < 64 → bit (back b) i ≡ 0
      digit i p inside =
          let word : (64 * (length b - 1) + i) / 64 ≡ length b - 1 = omega arith in
          let place : (64 * (length b - 1) + i) % 64 ≡ i = omega arith in
          unfold bit_at in
          rw (word, place) at (h (64 * (length b - 1) + i) (omega (arith, size_in_words)))

  whole_words : n % 64 ≡ 0 → (i : ℕ) → n ≤ i → bit_at b i ≡ 0
  whole_words e i h = bit_at_past b i (omega (arith, size_in_words))

-- One bitmap passes exactly if it is a raw bitmap of `n` bits.
pub validate_input-IsRaw :
    (n : ℕ) (b : List ℕ) → All IsWord b → n ≤ 2 ^ 32 → (validate_input n b ≡ ok tt) ↔ IsRaw n b
unfolding validate_input
validate_input-IsRaw n b words small = (accepted, complete)
  where
    accepted : validate_input n b ≡ ok tt → IsRaw n b
    accepted h =
        let sized : length b ≡ words_for_bits n = ground arith in
        record {
          size = sized;
          words = words;
          padding = λ i p. elim (ℕ_discrete (n % 64) 0) [
            | yes whole ↦ whole_words n b words small sized whole i p
            | no ne ↦ elim (lt_or_ge 0 (length b)) [
              | inr empty ↦ bit_at_past b i (omega arith)
              | inl some ↦ padding_of_shift n b words small sized ne (ground arith) i p
            ]
          ];
        }

    complete : IsRaw n b → validate_input n b ≡ ok tt
    complete good = elim (ℕ_discrete (n % 64) 0) [
      | yes whole ↦ ground (arith, good.size)
      | no ne ↦
          ground (arith, good.size, shift_of_padding n b words small good.size ne good.padding)
    ]

validate_each-IsRaw :
    (n : ℕ) (bs : List (List ℕ))
    → All (All IsWord) bs
    → n ≤ 2 ^ 32
    → (validate_each n bs ≡ ok tt) ↔ All (IsRaw n) bs
unfolding validate_each
validate_each-IsRaw n [] words small = (λ _. tt, λ _. refl)
validate_each-IsRaw n (b ∷ bs) words small =
    let first = validate_input-IsRaw n b words.0 small in
    let others = validate_each-IsRaw n bs words.1 small in
    (
      λ h.
          let (u, p, q) = >>=-eq-ok (validate_input n b) (λ _. validate_each n bs) h in
          (first.0 p, others.0 q),
      λ (p, q). rw (first.1 p) (others.1 q),
    )

-- On vectors of 64-bit words, `validate_inputs` accepts exactly a universe of at most 2 ^ 32
-- positions in which every bitmap has the right number of words and no position set past its end.
pub validate_inputs-IsRaw :
    (bs : List (List ℕ)) (n : ℕ)
    → All (All IsWord) bs
    → (validate_inputs bs n ≡ ok tt) ↔ ((n ≤ 2 ^ 32) × All (IsRaw n) bs)
unfolding validate_inputs
validate_inputs-IsRaw bs n words = (
  λ h.
      let (u, p, q) = >>=-eq-ok (require (leb n (2 ^ 32)) universe) (λ _. validate_each n bs) h in
      let small : n ≤ 2 ^ 32 = ground arith in (small, (validate_each-IsRaw n bs words small).0 q),
  λ (small, good).
      let fits : leb n (2 ^ 32) ≡ true = ground arith in
      rw fits ((validate_each-IsRaw n bs words small).1 good),
)

check_ids-lt :
    (count : ℕ) (ids : List ℕ) → (check_ids count ids ≡ ok tt) ↔ All (λ id. id < count) ids
unfolding check_ids
check_ids-lt count [] = (λ _. tt, λ _. refl)
check_ids-lt count (id ∷ ids) = (
  λ h.
      let (u, p, q) =
        >>=-eq-ok (require (ltb id count) id_out_of_range) (λ _. check_ids count ids) h in
      (ground arith, (check_ids-lt count ids).0 q),
  λ (p, q). rw (lt→ltb id count p) ((check_ids-lt count ids).1 q),
)

-- `validate_ids` accepts exactly a nonempty list of indices below the number of bitmaps.
pub validate_ids-lt :
    (ids : List ℕ) (count : ℕ)
    → (validate_ids ids count ≡ ok tt) ↔ ((ids ≢ []) × All (λ id. id < count) ids)
unfolding validate_ids
validate_ids-lt [] count = (λ h. cc, λ (ne, _). absurd (ne refl))
validate_ids-lt (id ∷ ids) count = (
  λ h. (λ e. cc, (check_ids-lt count (id ∷ ids)).0 h),
  λ (_, h). (check_ids-lt count (id ∷ ids)).1 h,
)
