-- ===== src/Wah/Groups.antt =====
-- `read_group` and `write_group` of backends/wah_backend.cpp, position by position.
use bitmap_comp_framework.Prelude.{
  ℕ, ◌+◌, ◌-◌, ◌*◌, ◌/◌, ◌%◌, ◌^◌, ◌≤◌, ◌<◌, max, ◌≡◌, ◌∙◌, sym, inl, inr, List, length, All,
  get_or, lt_or_ge, arith, leb, ltb, ◌==◌, false, not, ◌&&◌, Bool-cases,
}
use bitmap_comp_framework.Prelude.Digits.{bit, bit-zero, bit-mod_low}
use bitmap_comp_framework.Prelude.Masks.{bit_and_mask}
use bitmap_comp_framework.Bits.{◌>>>◌, ◌<<<◌}
use bitmap_comp_framework.Bits.Raw.{bit_at, bit_at_past, IsWord}
use bitmap_comp_framework.Bits.Window.{
  length-or_at, or_at-IsWord, bit_at-or_at_ne, spot, spot_before,
}
use bitmap_comp_framework.Bits.Straddle.{
  first_word, first_word_ends, both_words, first, spot_after, bit_at-first, bit_at-second,
}
use bitmap_comp_framework.Wah.{read_group, write_group}
use native.Mathlib.Nat.{mod-lt, div-le_self}
use native.Mathlib.Decide.{ℕ_discrete}

pub read_group-lt : (raw : List ℕ) (start : ℕ) → read_group raw start < 2 ^ 63
unfolding read_group
read_group-lt raw start = elim (Bool-cases (leb (length raw) (start / 64))) [
  | inl e ↦ rw e (omega arith)
  | inr e ↦ rw (e, bit_and_mask 63) (omega arith)
]

module _ (raw : List ℕ) (start i : ℕ) (ws : All IsWord raw) (low : i < 63) where
  abbrev wi : ℕ
  wi = start / 64

  abbrev off : ℕ
  off = start % 64

  low' : i < 64
  low' = omega arith

  one_word :
      (not (off == 0) && ltb (wi + 1) (length raw)) ≡ false
      → bit (get_or raw wi 0 >>> off) i ≡ bit_at raw (start + i)
  one_word h = elim (lt_or_ge (off + i) 64) [
    | inl p ↦ first_word raw start i ws low' p
    | inr p ↦
        first_word_ends raw start i ws low' p ∙ sym (bit_at_past raw (start + i) (ground arith))
  ]

  -- On a vector of 64-bit words, digit `i` below 63 of the group read at `start` is position
  -- `start + i` of the bitmap, and 0 past the end of the vector.
  pub bit-read_group : bit (read_group raw start) i ≡ bit_at raw (start + i)
  unfolding read_group
  bit-read_group = elim (Bool-cases (leb (length raw) wi)) [
    | inl e ↦ rw e (bit-zero i ∙ sym (bit_at_past raw (start + i) (ground arith)))
    | inr e ↦
        rw (e, bit_and_mask 63, bit-mod_low 63)
          (elim (Bool-cases (not (off == 0) && ltb (wi + 1) (length raw))) [
            | inl c ↦ rw c (both_words raw start i ws low')
            | inr c ↦ rw c (one_word c)
          ])
  ]

module _ (raw : List ℕ) (start value b : ℕ) (ws : All IsWord raw) (fits : value < 2 ^ 64)
    (inside : b < 64 * length raw) where
  abbrev wi' : ℕ
  wi' = start / 64

  abbrev off' : ℕ
  off' = start % 64

  after : start + 64 ≤ b → spot value start b ≡ 0
  after = spot_after raw start value b ws fits inside

  first_suffices :
      wi' < length raw
      → (not (off' == 0) && ltb (wi' + 1) (length raw)) ≡ false
      → bit_at (first raw start value b ws fits inside) b ≡ max (bit_at raw b) (spot value start b)
  first_suffices h c = elim (ℕ_discrete (wi' + 1) (b / 64)) [
    | yes e ↦
        rw (bit_at-or_at_ne raw wi' (value <<< off') b (omega arith))
          (omega (arith, after (ground arith)))
    | no other ↦ bit_at-first raw start value b ws fits inside h other
  ]

  -- On a vector of 64-bit words and a 64-bit value, `write_group` sets each position inside the vector
  -- at which the value, laid down from `start` on, has a 1, and changes no other position.
  pub bit_at-write_group :
      bit_at (write_group raw start value) b ≡ max (bit_at raw b) (spot value start b)
  unfolding write_group
  bit_at-write_group = elim (Bool-cases (leb (length raw) wi')) [
    | inl e ↦ rw e (omega (arith, spot_before value start b (ground arith)))
    | inr e ↦ rw e (elim (Bool-cases (not (off' == 0) && ltb (wi' + 1) (length raw))) [
      | inl c ↦ rw c (bit_at-second raw start value b ws fits inside (ground arith))
      | inr c ↦ rw c (first_suffices (ground arith) c)
    ])
  ]

pub length-write_group :
    (raw : List ℕ) (start value : ℕ) → length (write_group raw start value) ≡ length raw
unfolding write_group
length-write_group raw start value = elim (Bool-cases (leb (length raw) (start / 64))) [
  | inl e ↦ rw e
  | inr e ↦ rw e (elim (Bool-cases (not (start % 64 == 0) && ltb (start / 64 + 1) (length raw))) [
    | inl c ↦ rw c (length-or_at _ _ _ ∙ length-or_at _ _ _)
    | inr c ↦ rw c (length-or_at _ _ _)
  ])
]

pub write_group-IsWord :
    (raw : List ℕ) (start value : ℕ)
    → All IsWord raw
    → value < 2 ^ 64
    → All IsWord (write_group raw start value)
unfolding write_group
write_group-IsWord raw start value h p = elim (Bool-cases (leb (length raw) (start / 64))) [
  | inl e ↦ rw e h
  | inr e ↦ rw e (elim (Bool-cases (not (start % 64 == 0) && ltb (start / 64 + 1) (length raw))) [
    | inl c ↦ rw c (or_at-IsWord _ _ _ (or_at-IsWord raw _ _ h shifted) (shifted_back))
    | inr c ↦ rw c (or_at-IsWord raw _ _ h shifted)
  ])
]
  where
    shifted : value <<< (start % 64) < 2 ^ 64
    shifted = mod-lt (value * 2 ^ (start % 64)) (omega arith)

    shifted_back : value >>> (64 - start % 64) < 2 ^ 64
    shifted_back = omega (arith, div-le_self value (2 ^ (64 - start % 64)))
