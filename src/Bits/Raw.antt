-- ===== src/Bits/Raw.antt =====
-- Raw bitmaps of common/bits.hpp as sets of positions: what `test_bit`, `set_bit` and `mask_tail`
-- do to each position, and when two raw bitmaps are equal.
use bitmap_comp_framework.Prelude.{
  ℕ, zero, suc, ◌+◌, ◌-◌, ◌*◌, ◌/◌, ◌%◌, ◌^◌, ◌≤◌, ◌<◌, bit_and, bit_or, ◌≡◌, refl, sym, ap, ◌∙◌,
  inl, inr, true, List, [], ◌∷◌, ◌==◌, length, All, get_or, lt_or_ge, arith, All-get_or,
  get_or-set_self, get_or-set_ne, get_or_past, get_or_ext, length-set, ◌↔◌, ◌≢◌, Bool-cases,
}
use native.Mathlib.Decide.{ℕ_discrete}
use native.Mathlib.Nat.{pow-le-pow_right}
use bitmap_comp_framework.Prelude.Digits.{
  bit, bit-le, bit-zero, bit-bit_or, bit-shl, bit-shl_low, bit-lt_pow, bit_ext_below, bit-mod_low,
  bit-eq-mod, bit-mod_high, bit_and_step,
}
use bitmap_comp_framework.Prelude.Masks.{bit_and-zero, bit_and_mask, bit_and-lt}
use bitmap_comp_framework.Bits.{◌<<<◌, words_for_bits, test_bit, set_bit, mask_back, mask_tail}

-- Position `b` of a raw bitmap, 0 or 1; 0 past the end.
unfoldable pub bit_at : List ℕ → ℕ → ℕ
bit_at words b = bit (get_or words (b / 64) 0) (b % 64)

abbrev pub IsWord : ℕ → Type 0
IsWord w = w < 2 ^ 64

-- The contract of a raw bitmap of `num_bits` bits.
pub record IsRaw (num_bits : ℕ) (raw : List ℕ) : Type 0 where
  pub size : length raw ≡ words_for_bits num_bits
  pub words : All IsWord raw
  pub padding : (b : ℕ) → num_bits ≤ b → bit_at raw b ≡ 0

pub bit_at-le : (words : List ℕ) (b : ℕ) → bit_at words b ≤ 1
unfolding bit_at
bit_at-le words b = bit-le _ _

pub bit_at_past : (words : List ℕ) (b : ℕ) → 64 * length words ≤ b → bit_at words b ≡ 0
unfolding bit_at
bit_at_past words b h = rw (get_or_past words (b / 64) 0 (omega arith)) (bit-zero (b % 64))

pub get_or-IsWord : (words : List ℕ) (i : ℕ) → All IsWord words → get_or words i 0 < 2 ^ 64
get_or-IsWord words i h = All-get_or IsWord words i 0 h (omega arith)

-- Equal sets of positions in vectors of one length are equal vectors.
pub bit_at_ext :
    (xs ys : List ℕ)
    → length xs ≡ length ys
    → All IsWord xs
    → All IsWord ys
    → ((b : ℕ) → bit_at xs b ≡ bit_at ys b)
    → xs ≡ ys
unfolding bit_at
bit_at_ext xs ys e hx hy h = get_or_ext 0 xs ys e λ i p.
    bit_ext_below 64 _ _ (get_or-IsWord xs i hx) (get_or-IsWord ys i hy) λ k q.
      let word : (64 * i + k) / 64 ≡ i = omega arith in
      let place : (64 * i + k) % 64 ≡ k = omega arith in rw (word, place) at (h (64 * i + k))

bit_and-one : (w : ℕ) → bit_and w 1 ≡ w % 2
bit_and-one w = omega (arith, bit_and_step w 1, bit_and-zero (w / 2))

-- `test_bit` tells whether a position is in the set.
pub test_bit-bit_at : (words : List ℕ) (b : ℕ) → (test_bit words b ≡ true) ↔ (bit_at words b ≡ 1)
unfolding test_bit bit_at
test_bit-bit_at words b = rw (bit_and-one, bit-eq-mod) (ground arith)

pub length-set_bit : (words : List ℕ) (b : ℕ) → length (set_bit words b) ≡ length words
unfolding set_bit
length-set_bit words b = length-set words _ _

pub pow-lt_word : (k : ℕ) → k < 64 → 2 ^ k < 2 ^ 64
pow-lt_word k h =
    omega (arith, pow-le-pow_right {n = 2} (omega arith) {i = k} {j = 63} (omega arith))

bit-one_self : (k : ℕ) → k < 64 → bit (1 <<< k) k ≡ 1
bit-one_self k h =
    bit-mod_low 64 (1 * 2 ^ k) k h ∙ bit-shl k 1 0 k (omega arith) ∙ (unfold bit in refl)

bit-one_ne : (k i : ℕ) → k ≢ i → i < 64 → bit (1 <<< k) i ≡ 0
bit-one_ne k i h p = bit-mod_low 64 (1 * 2 ^ k) i p ∙ elim (lt_or_ge i k) [
  | inl below ↦ bit-shl_low k 1 i below
  | inr above ↦
      bit-shl k 1 (i - k) i (omega arith) ∙ bit-lt_pow 1 1 (i - k) (omega arith) (omega arith)
]

-- `set_bit` at a position inside the vector sets that position and changes no other.
pub bit_at-set_bit :
    (words : List ℕ) (b : ℕ)
    → b < 64 * length words
    → (bit_at (set_bit words b) b ≡ 1)
      × ((j : ℕ) → b ≢ j → bit_at (set_bit words b) j ≡ bit_at words j)
unfolding set_bit bit_at
bit_at-set_bit words b h = (
  rw
      (
        get_or-set_self words (b / 64) (bit_or (get_or words (b / 64) 0) (1 <<< (b % 64))) 0
            (omega arith),
        bit-bit_or,
      )
      (omega
        (arith, bit-le (get_or words (b / 64) 0) (b % 64), bit-one_self (b % 64) (omega arith))),
  λ j ne. elim (ℕ_discrete (b / 64) (j / 64)) [
    | yes same ↦
        rw
          (
            ← same,
            get_or-set_self words (b / 64) (bit_or (get_or words (b / 64) 0) (1 <<< (b % 64))) 0
                (omega arith),
            bit-bit_or,
          )
          (omega (arith, bit-one_ne (b % 64) (j % 64) (omega arith) (omega arith)))
    | no differ ↦ rw (
        get_or-set_ne words (b / 64) (j / 64) (bit_or (get_or words (b / 64) 0) (1 <<< (b % 64))) 0
          differ)
  ],
)

get_or-mask_back_last :
    (words : List ℕ) (mask : ℕ) (i : ℕ)
    → i + 1 ≡ length words
    → get_or (mask_back words mask) i 0 ≡ bit_and (get_or words i 0) mask
unfolding mask_back
get_or-mask_back_last [] mask i h = absurd (omega arith)
get_or-mask_back_last (w ∷ []) mask zero h = refl
get_or-mask_back_last (w ∷ []) mask (suc i) h = absurd (omega arith)
get_or-mask_back_last (w ∷ x ∷ xs) mask zero h = absurd (omega arith)
get_or-mask_back_last (w ∷ x ∷ xs) mask (suc i) h =
    get_or-mask_back_last (x ∷ xs) mask i (omega arith)

get_or-mask_back_ne :
    (words : List ℕ) (mask : ℕ) (i : ℕ)
    → i + 1 ≢ length words
    → get_or (mask_back words mask) i 0 ≡ get_or words i 0
unfolding mask_back
get_or-mask_back_ne [] mask i h = refl
get_or-mask_back_ne (w ∷ []) mask zero h = absurd (omega arith)
get_or-mask_back_ne (w ∷ []) mask (suc i) h = refl
get_or-mask_back_ne (w ∷ x ∷ xs) mask zero h = refl
get_or-mask_back_ne (w ∷ x ∷ xs) mask (suc i) h = get_or-mask_back_ne (x ∷ xs) mask i (omega arith)

length-mask_back : (words : List ℕ) (mask : ℕ) → length (mask_back words mask) ≡ length words
unfolding mask_back
length-mask_back [] mask = refl
length-mask_back (w ∷ []) mask = refl
length-mask_back (w ∷ x ∷ xs) mask = ap suc (length-mask_back (x ∷ xs) mask)

mask_back-IsWord :
    (words : List ℕ) (mask : ℕ) → All IsWord words → All IsWord (mask_back words mask)
unfolding mask_back
mask_back-IsWord [] mask h = tt
mask_back-IsWord (w ∷ []) mask h = (bit_and-lt 64 w mask h.0, tt)
mask_back-IsWord (w ∷ x ∷ xs) mask h = (h.0, mask_back-IsWord (x ∷ xs) mask h.1)

pub length-mask_tail :
    (words : List ℕ) (num_bits : ℕ) → length (mask_tail words num_bits) ≡ length words
unfolding mask_tail
length-mask_tail words num_bits = elim (Bool-cases (num_bits % 64 == 0)) [
  | inl e ↦ rw e
  | inr e ↦ rw e (length-mask_back words _)
]

pub mask_tail-IsWord :
    (words : List ℕ) (num_bits : ℕ) → All IsWord words → All IsWord (mask_tail words num_bits)
unfolding mask_tail
mask_tail-IsWord words num_bits h = elim (Bool-cases (num_bits % 64 == 0)) [
  | inl e ↦ rw e h
  | inr e ↦ rw e (mask_back-IsWord words _ h)
]

bit-mask_low : (w k i : ℕ) → k < 64 → i < k → bit (bit_and w ((1 <<< k) - 1)) i ≡ bit w i
bit-mask_low w k i h p =
    let mask : 1 * 2 ^ k % 2 ^ 64 ≡ 2 ^ k = omega (arith, pow-lt_word k h) in
    rw (mask, bit_and_mask) (bit-mod_low k w i p)

bit-mask_high : (w k i : ℕ) → k < 64 → k ≤ i → bit (bit_and w ((1 <<< k) - 1)) i ≡ 0
bit-mask_high w k i h p =
    let mask : 1 * 2 ^ k % 2 ^ 64 ≡ 2 ^ k = omega (arith, pow-lt_word k h) in
    rw (mask, bit_and_mask) (bit-mod_high k w i p)

-- `mask_tail` below and above the end of the universe.
module _ (num_bits : ℕ) (words : List ℕ) (fits : num_bits ≤ 2 ^ 32)
    (sized : length words ≡ words_for_bits num_bits) where
  pub bit_at-mask_tail_low :
      (b : ℕ) → b < num_bits → bit_at (mask_tail words num_bits) b ≡ bit_at words b
  unfolding mask_tail bit_at words_for_bits
  bit_at-mask_tail_low b h = elim (Bool-cases (num_bits % 64 == 0)) [
    | inl e ↦ rw e
    | inr e ↦ rw e (elim (ℕ_discrete (b / 64 + 1) (length words)) [
      | yes last ↦
          rw (get_or-mask_back_last words ((1 <<< (num_bits % 64)) - 1) (b / 64) last)
            (bit-mask_low _ (num_bits % 64) (b % 64) (omega arith) (ground arith))
      | no inner ↦ rw (get_or-mask_back_ne words ((1 <<< (num_bits % 64)) - 1) (b / 64) inner)
    ])
  ]

  pub bit_at-mask_tail_high : (b : ℕ) → num_bits ≤ b → bit_at (mask_tail words num_bits) b ≡ 0
  bit_at-mask_tail_high b h = elim (lt_or_ge b (64 * length words)) [
    | inr past ↦ bit_at_past (mask_tail words num_bits) b (rw length-mask_tail past)
    | inl inside ↦ last_word inside
  ]
    where
      last_word : b < 64 * length words → bit_at (mask_tail words num_bits) b ≡ 0
      last_word inside =
          unfold mask_tail bit_at words_for_bits in
          elim (Bool-cases (num_bits % 64 == 0)) [
            | inl e ↦ absurd (ground arith)
            | inr e ↦
                let last : b / 64 + 1 ≡ length words = ground arith in
                rw (e, get_or-mask_back_last words ((1 <<< (num_bits % 64)) - 1) (b / 64) last)
                  (bit-mask_high _ (num_bits % 64) (b % 64) (omega arith) (ground arith))
          ]

  -- On a vector of the size that `num_bits` at most 2 ^ 32 positions need, `mask_tail` empties every
  -- position from `num_bits` on and changes no position below.
  pub bit_at-mask_tail :
      (b : ℕ)
      → (b < num_bits → bit_at (mask_tail words num_bits) b ≡ bit_at words b)
        × (num_bits ≤ b → bit_at (mask_tail words num_bits) b ≡ 0)
  bit_at-mask_tail b = (bit_at-mask_tail_low b, bit_at-mask_tail_high b)

-- A raw bitmap has nothing for `mask_tail` to clear.
pub mask_tail-IsRaw : (n : ℕ) (raw : List ℕ) → n ≤ 2 ^ 32 → IsRaw n raw → mask_tail raw n ≡ raw
mask_tail-IsRaw n raw small good =
    bit_at_ext _ raw (length-mask_tail raw n) (mask_tail-IsWord raw n good.words) good.words λ b.
      elim (lt_or_ge b n) [
        | inl p ↦ bit_at-mask_tail_low n raw small good.size b p
        | inr p ↦ bit_at-mask_tail_high n raw small good.size b p ∙ sym (good.padding b p)
      ]
