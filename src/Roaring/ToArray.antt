-- ===== src/Roaring/ToArray.antt =====
-- `bitset_to_array` of backends/roaring_bitmap.cpp.
use bitmap_comp_framework.Prelude.{
  ℕ, zero, suc, ◌+◌, ◌-◌, ◌*◌, ◌/◌, ◌%◌, ◌^◌, ◌≤◌, ◌<◌, max, ◌≡◌, ◌∙◌, ap, inl, inr, List, [], ◌∷◌,
  ◌++◌, All, arith, ltb, leb, ◌==◌, ◌&&◌, length, if◌then◌else◌, Bool-cases, All-append, All-imp,
  lt_or_ge, bit_and,
}
use native.Mathlib.Decide.{ℕ_discrete}
use bitmap_comp_framework.Prelude.Digits.{bit, bit-zero}
use bitmap_comp_framework.Prelude.Masks.{bit_and-lt}
use bitmap_comp_framework.Bits.{ctz64}
use bitmap_comp_framework.Bits.Count.{
  ones, ones-le, ones-pos, clear_odd, clear_even, ones-clear_lowest, ctz64-lowest,
}
use bitmap_comp_framework.Bits.Raw.{bit_at, IsWord}
use bitmap_comp_framework.Roaring.{word_to_array, words_to_array, bitset_to_array}
use bitmap_comp_framework.Roaring.Sets.{in_array, in_array-append, Ascending, Ascending-le}

-- `w & (w - 1)` has every digit of `w` but the lowest 1.
bit-clear_lowest :
    (w p i : ℕ)
    → bit w p ≡ 1
    → ((j : ℕ) → j < p → bit w j ≡ 0)
    → bit (bit_and w (w - 1)) i ≡ (if i == p then 0 else bit w i)
unfolding bit
bit-clear_lowest w zero zero one low = rw (clear_odd w one) (omega arith)
bit-clear_lowest w zero (suc i) one low =
    let half : w / 2 * 2 / 2 ≡ w / 2 = omega arith in rw (clear_odd w one, half) (ground arith)
bit-clear_lowest w (suc p) zero one low =
    let none = low 0 (omega arith) in rw (clear_even w none) (ground arith)
bit-clear_lowest w (suc p) (suc i) one low =
    let half : bit_and (w / 2) (w / 2 - 1) * 2 / 2 ≡ bit_and (w / 2) (w / 2 - 1) = omega arith in
    let inner = bit-clear_lowest (w / 2) p i one (λ j q. low (suc j) (omega arith)) in
    rw (clear_even w (low 0 (omega arith)), half) (ground arith)

-- The digits of a word that lies at `base`.
abbrev within : ℕ → ℕ → ℕ → ℕ
within base word v = if leb base v && ltb v (base + 64) then bit word (v - base) else 0

nothing_within : (base word v : ℕ) → word ≡ 0 → 0 ≡ within base word v
nothing_within base word v e = rw e (ground (arith, bit-zero (v - base)))

-- As many rounds as there are digits 1 are enough.
word_to_array-within :
    (fuel base word v : ℕ)
    → base + 64 ≤ 2 ^ 16
    → word < 2 ^ 64
    → ones 64 word ≤ fuel
    → in_array (word_to_array fuel base word) v ≡ within base word v
unfolding word_to_array in_array
word_to_array-within zero base word v fits small enough = elim (lt_or_ge 0 word) [
  | inl q ↦ absurd (omega (arith, ones-pos 64 word small q))
  | inr q ↦ nothing_within base word v (omega arith)
]
word_to_array-within (suc fuel) base word v fits small enough = elim (Bool-cases (word == 0)) [
  | inl z ↦ rw z (nothing_within base word v (ground arith))
  | inr nz ↦
      let some : 0 < word = ground arith in
      let (bound, one, low) = ctz64-lowest word small some in
      let p = ctz64 word in
      let rest =
        word_to_array-within fuel base (bit_and word (word - 1)) v fits
          (bit_and-lt 64 word (word - 1) small)
          (omega (arith, ones-clear_lowest 64 word small some)) in
      let cleared = bit-clear_lowest word p (v - base) one low in
      let at : (base + p) % 2 ^ 16 ≡ base + p = omega arith in
      rw (nz, at)
        (elim (ℕ_discrete v (base + p)) [
          | yes e ↦
              let here : bit word (v - base) ≡ 1 = ap (bit word) (omega arith) ∙ one in ground arith
          | no ne ↦ ground arith
        ])
]

-- The offsets are in order from the lowest digit 1 on, and end with the word.
word_to_array-Ascending :
    (fuel base word lo : ℕ)
    → base + 64 ≤ 2 ^ 16
    → word < 2 ^ 64
    → ((i : ℕ) → i < lo → bit word i ≡ 0)
    → Ascending (base + lo) (word_to_array fuel base word)
      × All (λ v. v < base + 64) (word_to_array fuel base word)
unfolding word_to_array Ascending
word_to_array-Ascending zero base word lo fits small low = (tt, tt)
word_to_array-Ascending (suc fuel) base word lo fits small low = elim (Bool-cases (word == 0)) [
  | inl z ↦ rw z (tt, tt)
  | inr nz ↦
      let (bound, one, below) = ctz64-lowest word small (ground arith) in
      let p = ctz64 word in
      let at : (base + p) % 2 ^ 16 ≡ base + p = omega arith in
      let first : lo ≤ p = elim (lt_or_ge p lo) [
        | inl q ↦ absurd (omega (arith, low p q))
        | inr q ↦ q
      ] in
      let (order, within_word) =
        word_to_array-Ascending fuel base (bit_and word (word - 1)) (p + 1) fits
          (bit_and-lt 64 word (word - 1) small)
          (λ i q.
            let cleared = bit-clear_lowest word p i one below in
            elim (ℕ_discrete i p) [
              | yes e ↦ ground arith
              | no ne ↦ let zero_digit = below i (omega arith) in ground arith
            ]) in
      rw (nz, at)
        (
          (omega arith, Ascending-le (base + (p + 1)) (base + p + 1) _ (omega arith) order),
          (omega arith, within_word),
        )
]

Ascending-append :
    (lo m : ℕ) (xs ys : List ℕ)
    → Ascending lo xs
    → All (λ v. v < m) xs
    → Ascending m ys
    → lo ≤ m
    → Ascending lo (xs ++ ys)
unfolding Ascending
Ascending-append lo m [] ys hx bx hy p = Ascending-le m lo ys p hy
Ascending-append lo m (x ∷ xs) ys hx bx hy p =
    (hx.0, Ascending-append (x + 1) m xs ys hx.1 bx.1 hy (omega (arith, bx.0)))

-- The positions of a vector whose first word is word `w` of the chunk.
abbrev from_word : ℕ → List ℕ → ℕ → ℕ
from_word w words v = if leb (w * 64) v then bit_at words (v - w * 64) else 0

from_word-cons :
    (w word : ℕ) (words : List ℕ) (v : ℕ)
    → from_word w (word ∷ words) v ≡ max (within (w * 64) word v) (from_word (w + 1) words v)
unfolding bit_at
from_word-cons w word words v = elim (lt_or_ge v (w * 64)) [
  | inl p ↦ ground arith
  | inr p ↦ elim (lt_or_ge v (w * 64 + 64)) [
    | inl q ↦
        let index : (v - w * 64) / 64 ≡ 0 = omega arith in
        let place : (v - w * 64) % 64 ≡ v - w * 64 = omega arith in rw (index, place) (ground arith)
    | inr q ↦
        let index : (v - w * 64) / 64 ≡ suc ((v - (w + 1) * 64) / 64) = omega arith in
        let place : (v - w * 64) % 64 ≡ (v - (w + 1) * 64) % 64 = omega arith in
        rw (index, place) (ground arith)
  ]
]

words_to_array-from_word :
    (w : ℕ) (words : List ℕ) (v : ℕ)
    → (w + length words) * 64 ≤ 2 ^ 16
    → All IsWord words
    → in_array (words_to_array w words) v ≡ from_word w words v
unfolding words_to_array in_array bit_at
words_to_array-from_word w [] v fits h = ground (arith, bit-zero ((v - w * 64) % 64))
words_to_array-from_word w (word ∷ words) v fits h =
    in_array-append (word_to_array 64 (w * 64) word) (words_to_array (w + 1) words) v
    ∙ omega (
      arith,
      word_to_array-within 64 (w * 64) word v (omega arith) h.0 (ones-le 64 word),
      words_to_array-from_word (w + 1) words v (omega arith) h.1,
      from_word-cons w word words v,
    )

words_to_array-Ascending :
    (w : ℕ) (words : List ℕ)
    → (w + length words) * 64 ≤ 2 ^ 16
    → All IsWord words
    → Ascending (w * 64) (words_to_array w words) × All (λ v. v < 2 ^ 16) (words_to_array w words)
unfolding words_to_array Ascending
words_to_array-Ascending w [] fits h = (tt, tt)
words_to_array-Ascending w (word ∷ words) fits h =
    let (order, inside) =
      word_to_array-Ascending 64 (w * 64) word 0 (omega arith) h.0 (λ i p. absurd (omega arith)) in
    let (rest, rest_inside) = words_to_array-Ascending (w + 1) words (omega arith) h.1 in
    (
      Ascending-append (w * 64) ((w + 1) * 64) (word_to_array 64 (w * 64) word)
          (words_to_array (w + 1) words) (Ascending-le (w * 64 + 0) (w * 64) _ (omega arith) order)
          (All-imp (λ v. v < w * 64 + 64) (λ v. v < (w + 1) * 64) _ (λ v p. omega arith) inside)
          rest (omega arith),
      All-append (λ v. v < 2 ^ 16) (word_to_array 64 (w * 64) word) (words_to_array (w + 1) words)
          (All-imp (λ v. v < w * 64 + 64) (λ v. v < 2 ^ 16) _ (λ v p. omega arith) inside)
          rest_inside,
    )

-- `bitset_to_array` of a bitset of at most one chunk lists its positions in order.
pub bitset_to_array-bit_at :
    (bits : List ℕ) (v : ℕ)
    → length bits * 64 ≤ 2 ^ 16
    → All IsWord bits
    → in_array (bitset_to_array bits) v ≡ bit_at bits v
unfolding bitset_to_array
bitset_to_array-bit_at bits v fits h =
    words_to_array-from_word 0 bits v (omega arith) h ∙ ground arith

pub bitset_to_array-Ascending :
    (bits : List ℕ)
    → length bits * 64 ≤ 2 ^ 16
    → All IsWord bits
    → Ascending 0 (bitset_to_array bits) × All (λ v. v < 2 ^ 16) (bitset_to_array bits)
unfolding bitset_to_array
bitset_to_array-Ascending bits fits h = words_to_array-Ascending 0 bits (omega arith) h
