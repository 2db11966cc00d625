-- ===== src/Bits/Count.antt =====
-- `popcount64`, `ctz64` and `cardinality` of common/bits.hpp against the digits of a word.
use bitmap_comp_framework.Prelude.{
  ℕ, zero, suc, ◌+◌, ◌-◌, ◌*◌, ◌/◌, ◌%◌, ◌^◌, ◌≤◌, ◌<◌, bit_and, ◌≡◌, refl, ◌∙◌, ap, sym, inl, inr,
  false, List, [], ◌∷◌, ◌==◌, length, All, lt_or_ge, arith,
}
use bitmap_comp_framework.Prelude.Digits.{bit, bit-zero, bit_and_step}
use bitmap_comp_framework.Prelude.Masks.{bit_and_self, bit_and-zero, bit_and-lt}
use bitmap_comp_framework.Bits.{
  popcount_loop, popcount64, ctz_loop, ctz64, cardinality_loop, cardinality,
}
use native.Mathlib.Nat.{pow-suc}

-- How many of the `k` lowest digits are 1.
unfoldable pub ones : ℕ → ℕ → ℕ
ones zero w = 0
ones (suc k) w = w % 2 + ones k (w / 2)

pub ones-le : (k w : ℕ) → ones k w ≤ k
unfolding ones
ones-le zero w = omega arith
ones-le (suc k) w = omega (arith, ones-le k (w / 2))

pub ones-pos : (k w : ℕ) → w < 2 ^ k → 0 < w → 0 < ones k w
unfolding ones
ones-pos zero w h p = absurd (omega arith)
ones-pos (suc k) w h p = elim (lt_or_ge 0 (w / 2)) [
  | inl q ↦ omega (arith, ones-pos k (w / 2) (omega (arith, pow-suc 2 k)) q)
  | inr q ↦ omega arith
]

pub ones-zero : (k : ℕ) → ones k 0 ≡ 0
unfolding ones
ones-zero zero = refl
ones-zero (suc k) = omega (arith, ones-zero k)

-- `w & (w - 1)` clears exactly one digit, the lowest 1.
pub clear_odd : (w : ℕ) → w % 2 ≡ 1 → bit_and w (w - 1) ≡ w / 2 * 2
clear_odd w h =
    let half : (w - 1) / 2 ≡ w / 2 = omega arith in
    bit_and_step w (w - 1) ∙ rw (half, bit_and_self (w / 2)) (omega arith)

pub clear_even : (w : ℕ) → w % 2 ≡ 0 → bit_and w (w - 1) ≡ bit_and (w / 2) (w / 2 - 1) * 2
clear_even w h =
    let half : (w - 1) / 2 ≡ w / 2 - 1 = omega arith in
    bit_and_step w (w - 1) ∙ rw half (omega arith)

pub ones-clear_lowest : (k w : ℕ) → w < 2 ^ k → 0 < w → ones k (bit_and w (w - 1)) + 1 ≡ ones k w
unfolding ones
ones-clear_lowest zero w h p = absurd (omega arith)
ones-clear_lowest (suc k) w h p = elim (lt_or_ge 0 (w % 2)) [
  | inl odd ↦
      let half : w / 2 * 2 / 2 ≡ w / 2 = omega arith in
      rw (clear_odd w (omega arith), half) (omega arith)
  | inr even ↦
      let half : bit_and (w / 2) (w / 2 - 1) * 2 / 2 ≡ bit_and (w / 2) (w / 2 - 1) = omega arith in
      rw (clear_even w (omega arith), half)
        (omega (arith, ones-clear_lowest k (w / 2) (omega (arith, pow-suc 2 k)) (omega arith)))
]

popcount_loop-ones :
    (fuel w c : ℕ) → w < 2 ^ 64 → ones 64 w ≤ fuel → popcount_loop fuel w c ≡ c + ones 64 w
unfolding popcount_loop
popcount_loop-ones zero w c h p = elim (lt_or_ge 0 w) [
  | inl q ↦ absurd (omega (arith, ones-pos 64 w h q))
  | inr q ↦ let none_left : w ≡ 0 = omega arith in rw (none_left, ones-zero 64) (omega arith)
]
popcount_loop-ones (suc fuel) w c h p = elim (lt_or_ge 0 w) [
  | inl q ↦ rw (ne→== w q) (
      omega (
        arith,
        ones-clear_lowest 64 w h q,
        popcount_loop-ones fuel (bit_and w (w - 1)) (c + 1) (bit_and-lt 64 w (w - 1) h)
            (omega (arith, ones-clear_lowest 64 w h q)),
      ))
  | inr q ↦ let none_left : w ≡ 0 = omega arith in rw (none_left, ones-zero 64) (omega arith)
]
  where
    ne→== : (w : ℕ) → 0 < w → (w == 0) ≡ false
    ne→== w q = ground arith

pub popcount64-ones : (w : ℕ) → w < 2 ^ 64 → popcount64 w ≡ ones 64 w
unfolding popcount64
popcount64-ones w h = omega (arith, popcount_loop-ones 64 w 0 h (ones-le 64 w))

-- `while (w) { w &= w - 1; ++c; }` from `w` and `c`, without fuel: it ends with `c` at the last value.
pub data Popcounts : ℕ → ℕ → ℕ → Type 0 where
  cleared : (c : ℕ) → Popcounts 0 c c
  clears : (w c r : ℕ) → 0 < w → Popcounts (bit_and w (w - 1)) (c + 1) r → Popcounts w c r

-- Each round takes one digit 1, so there are as many rounds as digits.
ones-Popcounts : (k w c : ℕ) → w < 2 ^ 64 → ones 64 w ≡ k → Popcounts w c (c + k)
ones-Popcounts zero w c h e = elim (lt_or_ge 0 w) [
  | inl q ↦ absurd (omega (arith, ones-pos 64 w h q))
  | inr q ↦
      let none : w ≡ 0 = omega arith in
      let same : c + 0 ≡ c = omega arith in rw (none, same) (cleared c)
]
ones-Popcounts (suc k) w c h e = elim (lt_or_ge 0 w) [
  | inl q ↦
      let fewer : ones 64 (bit_and w (w - 1)) ≡ k = omega (arith, ones-clear_lowest 64 w h q) in
      let last : c + 1 + k ≡ c + suc k = omega arith in
      clears w c (c + suc k) q (
        rw last at (ones-Popcounts k (bit_and w (w - 1)) (c + 1) (bit_and-lt 64 w (w - 1) h) fewer))
  | inr q ↦
      let none : w ≡ 0 = omega arith in absurd (omega (arith, ap (ones 64) none, ones-zero 64))
]

-- On a 64-bit word the loop of `popcount64`, run without fuel until its test fails, ends with the
-- result of `popcount64`, and this is the number of digits 1 of the word.
pub popcount64-Popcounts :
    (w : ℕ) → w < 2 ^ 64 → Popcounts w 0 (popcount64 w) × (popcount64 w ≡ ones 64 w)
popcount64-Popcounts w h =
    let counted : 0 + popcount64 w ≡ popcount64 w = omega arith in
    (
      rw counted at (ones-Popcounts (popcount64 w) w 0 h (sym (popcount64-ones w h))),
      popcount64-ones w h,
    )

-- `ctz64`: the position counted so far, plus that of the lowest 1 of what is left.
ctz_loop_lem :
    (fuel w c : ℕ)
    → w < 2 ^ fuel
    → 0 < w
    → (p : ℕ) × (ctz_loop fuel w c ≡ c + p)
      × (p < fuel)
      × (bit w p ≡ 1)
      × ((i : ℕ) → i < p → bit w i ≡ 0)
unfolding ctz_loop bit
ctz_loop_lem zero w c h q = absurd (omega arith)
ctz_loop_lem (suc fuel) w c h q = elim (lt_or_ge 0 (w % 2)) [
  | inl odd ↦ (0, ground (arith, bit_and-one w), omega arith, omega arith, λ i p. elim p [ ])
  | inr even ↦
      let (p, runs, bound, here, below) =
        ctz_loop_lem fuel (w / 2) (c + 1) (omega (arith, pow-suc 2 fuel)) (omega arith) in
      (
        suc p,
        ground (arith, bit_and-one w, runs),
        omega arith,
        here,
        λ i. elim i as (λ j. j < suc p → bit w j ≡ 0) [
          | zero ↦ λ _. omega arith
          | suc j ↦ λ r. below j (omega arith)
        ],
      )
]
  where
    bit_and-one : (w : ℕ) → bit_and w 1 ≡ w % 2
    bit_and-one w = omega (arith, bit_and_step w 1, bit_and-zero (w / 2))

-- On every nonzero 64-bit word `ctz64` is a position below 64 whose digit is 1, and every digit
-- below it is 0.
pub ctz64-lowest :
    (w : ℕ)
    → w < 2 ^ 64
    → 0 < w
    → (ctz64 w < 64) × (bit w (ctz64 w) ≡ 1) × ((i : ℕ) → i < ctz64 w → bit w i ≡ 0)
unfolding ctz64
ctz64-lowest w h q =
    let (p, runs, bound, here, below) = ctz_loop_lem 64 w 0 h q in
    let at : ctz_loop 64 w 0 ≡ p = omega arith in rw at (bound, here, below)

-- The digits 1 of a vector of words.
unfoldable pub ones_in : List ℕ → ℕ
ones_in [] = 0
ones_in (w ∷ ws) = ones 64 w + ones_in ws

cardinality_loop-ones :
    (c : ℕ) (words : List ℕ)
    → All (λ w. w < 2 ^ 64) words
    → c + 64 * length words < 2 ^ 64
    → cardinality_loop c words ≡ c + ones_in words
unfolding cardinality_loop ones_in
cardinality_loop-ones c [] h b = omega arith
cardinality_loop-ones c (w ∷ ws) h b =
    let step : (c + popcount64 w) % 2 ^ 64 ≡ c + ones 64 w =
      omega (arith, popcount64-ones w h.0, ones-le 64 w) in
    rw step
      (omega (arith, cardinality_loop-ones (c + ones 64 w) ws h.1 (omega (arith, ones-le 64 w))))

-- On a vector of 64-bit words that has fewer than 2 ^ 64 digits, `cardinality` is the number of
-- digits 1: its sum does not wrap.
pub cardinality-ones :
    (words : List ℕ)
    → All (λ w. w < 2 ^ 64) words
    → 64 * length words < 2 ^ 64
    → cardinality words ≡ ones_in words
unfolding cardinality
cardinality-ones words h b = omega (arith, cardinality_loop-ones 0 words h (omega arith))

-- The only digit 1 of a value makes all of it.
only_digit : (k w p : ℕ) → w < 2 ^ k → ones k w ≡ 1 → bit w p ≡ 1 → w ≡ 2 ^ p
unfolding ones bit
only_digit zero w p h e d = absurd (omega arith)
only_digit (suc k) w zero h e d = elim (lt_or_ge 0 (w / 2)) [
  | inl q ↦ absurd (omega (arith, ones-pos k (w / 2) (omega (arith, pow-suc 2 k)) q))
  | inr q ↦ omega arith
]
only_digit (suc k) w (suc p) h e d = elim (lt_or_ge 0 (w % 2)) [
  | inl odd ↦
      let none : w / 2 ≡ 0 = no_more (omega arith) in
      absurd (omega (arith, d, ap (λ (t : ℕ). bit t p) none, bit-zero p))
  | inr even ↦
      omega
        (arith, only_digit k (w / 2) p (omega (arith, pow-suc 2 k)) (omega arith) d, pow-suc 2 p)
]
  where
    no_more : ones k (w / 2) ≡ 0 → w / 2 ≡ 0
    no_more z = elim (lt_or_ge 0 (w / 2)) [
      | inl q ↦ absurd (omega (arith, ones-pos k (w / 2) (omega (arith, pow-suc 2 k)) q))
      | inr q ↦ omega arith
    ]

-- A word of which `popcount64` is 1 is the power of two at `ctz64`.
pub popcount64-one : (w : ℕ) → w < 2 ^ 64 → popcount64 w ≡ 1 → w ≡ 2 ^ ctz64 w
popcount64-one w h e =
    let one : ones 64 w ≡ 1 = omega (arith, popcount64-ones w h) in
    let some : 0 < w = not_zero one in only_digit 64 w (ctz64 w) h one (ctz64-lowest w h some).1
  where
    not_zero : ones 64 w ≡ 1 → 0 < w
    not_zero one = elim (lt_or_ge 0 w) [
      | inl q ↦ q
      | inr q ↦
          let none : w ≡ 0 = omega arith in absurd (omega (arith, ap (ones 64) none, ones-zero 64))
    ]
