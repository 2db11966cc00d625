-- ===== src/Codecs/Groups.antt =====
-- `read_group` and `write_group` of backends/codec_internal.hpp for groups of any width up to 64,
-- position by position.
use bitmap_comp_framework.Prelude.{
  ℕ, ◌+◌, ◌-◌, ◌*◌, ◌/◌, ◌%◌, ◌^◌, ◌≤◌, ◌<◌, max, bit_and, ◌≡◌, ◌∙◌, sym, inl, inr, List, length,
  All, lt_or_ge, arith, leb, ltb, ◌==◌, false, not, ◌&&◌, Bool-cases, get_or,
}
use bitmap_comp_framework.Prelude.Digits.{bit, bit-lt_pow, bit-zero, bit-mod_low}
use bitmap_comp_framework.Prelude.Masks.{bit_and_mask, pow-pos}
use bitmap_comp_framework.Bits.{◌>>>◌, ◌<<<◌}
use bitmap_comp_framework.Bits.Raw.{bit_at, bit_at_past, IsWord, pow-lt_word}
use bitmap_comp_framework.Bits.Window.{
  length-or_at, or_at-IsWord, bit_at-or_at_ne, spot, spot_before, spot_at,
}
use bitmap_comp_framework.Bits.Straddle.{
  first_word, first_word_ends, both_words, first, bit_at-first, bit_at-second,
}
use bitmap_comp_framework.Binary.{low_mask}
use bitmap_comp_framework.Codecs.{read_group, write_group, group_count}
use native.Mathlib.Nat.{
  mod-lt, mod-eq_of_lt, div-le_self, pow-le-pow_right, div-add-mod', mul-le-mul_left,
}
use native.Mathlib.Decide.{ℕ_discrete}

-- The groups of a universe cover it, and are few.
pub group_count-covers : (n width : ℕ) → 0 < width → n ≤ group_count n width * width
unfolding group_count
group_count-covers n width wide = ground (arith, div-add-mod' n width, mod-lt n wide)

pub group_count-le : (n width : ℕ) → 0 < width → group_count n width ≤ n
unfolding group_count
group_count-le n width wide = ground (arith, div-add-mod' n width, mul-le-mul_left (n / width) wide)

pub low_mask_value : (w : ℕ) → w ≤ 64 → low_mask w ≡ 2 ^ w - 1
unfolding low_mask
low_mask_value w h = elim (ℕ_discrete w 64) [
  | yes e ↦ rw e
  | no ne ↦
      let other : (w == 64) ≡ false = ground arith in
      rw other (omega (arith, pow-lt_word w (omega arith)))
]

-- `v & low_mask(w)` keeps the `w` lowest digits.
pub bit_and-low_mask : (w v : ℕ) → w ≤ 64 → bit_and v (low_mask w) ≡ v % 2 ^ w
bit_and-low_mask w v h = rw (low_mask_value w h) (bit_and_mask w v)

pub pow-le_word : (w : ℕ) → w ≤ 64 → 2 ^ w ≤ 2 ^ 64
pow-le_word w h = pow-le-pow_right {n = 2} (omega arith) {i = w} {j = 64} h

module _ (width : ℕ) (narrow : width ≤ 64) where
  pub read_group-lt : (raw : List ℕ) (start : ℕ) → read_group raw start width < 2 ^ width
  unfolding read_group
  read_group-lt raw start = elim (Bool-cases (leb (length raw) (start / 64))) [
    | inl e ↦ rw e (pow-pos width)
    | inr e ↦ rw (e, bit_and-low_mask width) (mod-lt _ (pow-pos width))
  ]

  module _ (raw : List ℕ) (start i : ℕ) (ws : All IsWord raw) (low : i < width) where
    abbrev wi : ℕ
    wi = start / 64

    abbrev off : ℕ
    off = start % 64

    low' : i < 64
    low' = omega arith

    one_word :
        (not (off == 0) && ltb (64 - off) width && ltb (wi + 1) (length raw)) ≡ false
        → bit (get_or raw wi 0 >>> off) i ≡ bit_at raw (start + i)
    one_word h = elim (lt_or_ge (off + i) 64) [
      | inl p ↦ first_word raw start i ws low' p
      | inr p ↦
          first_word_ends raw start i ws low' p ∙ sym (bit_at_past raw (start + i) (ground arith))
    ]

    -- On a vector of 64-bit words, digit `i` below `width` at most 64 of the group read at `start` is
    -- position `start + i` of the bitmap, and 0 past the end of the vector.
    pub bit-read_group : bit (read_group raw start width) i ≡ bit_at raw (start + i)
    unfolding read_group
    bit-read_group = elim (Bool-cases (leb (length raw) wi)) [
      | inl e ↦ rw e (bit-zero i ∙ sym (bit_at_past raw (start + i) (ground arith)))
      | inr e ↦
          rw (e, bit_and-low_mask width, bit-mod_low width)
            (elim (Bool-cases
              (not (off == 0) && ltb (64 - off) width && ltb (wi + 1) (length raw))) [
                | inl c ↦ rw c (both_words raw start i ws low')
                | inr c ↦ rw c (one_word c)
              ])
    ]

  module _ (raw : List ℕ) (start value b : ℕ) (ws : All IsWord raw) (fits : value < 2 ^ width)
      (inside : b < 64 * length raw) where
    abbrev wi' : ℕ
    wi' = start / 64

    abbrev off' : ℕ
    off' = start % 64

    fits' : value < 2 ^ 64
    fits' = omega (arith, pow-le_word width narrow)

    after : start + width ≤ b → spot value start b ≡ 0
    after h =
        spot_at value start b (b - start) (omega arith)
        ∙ bit-lt_pow width value (b - start) fits (omega arith)

    first_suffices :
        wi' < length raw
        → (not (off' == 0) && ltb (64 - off') width && ltb (wi' + 1) (length raw)) ≡ false
        → bit_at (first raw start value b ws fits' inside) b
          ≡ max (bit_at raw b) (spot value start b)
    first_suffices h c = elim (ℕ_discrete (wi' + 1) (b / 64)) [
      | yes e ↦
          rw (bit_at-or_at_ne raw wi' (value <<< off') b (omega arith))
            (omega (arith, after (ground arith)))
      | no other ↦ bit_at-first raw start value b ws fits' inside h other
    ]

    -- On a vector of 64-bit words and a value of `width` digits, at most 64, `write_group` sets each
    -- position inside the vector at which the value, laid down from `start` on, has a 1, and changes no
    -- other position.
    pub bit_at-write_group :
        bit_at (write_group raw start width value) b ≡ max (bit_at raw b) (spot value start b)
    unfolding write_group
    bit_at-write_group =
        let same : value % 2 ^ width ≡ value = mod-eq_of_lt fits in
        elim (Bool-cases (leb (length raw) wi')) [
          | inl e ↦ rw e (omega (arith, spot_before value start b (ground arith)))
          | inr e ↦
              rw (e, bit_and-low_mask width value narrow, same)
                (elim (Bool-cases
                  (not (off' == 0) && ltb (64 - off') width && ltb (wi' + 1) (length raw))) [
                    | inl c ↦ rw c (bit_at-second raw start value b ws fits' inside (ground arith))
                    | inr c ↦ rw c (first_suffices (ground arith) c)
                  ])
        ]

  pub length-write_group :
      (raw : List ℕ) (start value : ℕ) → length (write_group raw start width value) ≡ length raw
  unfolding write_group
  length-write_group raw start value = elim (Bool-cases (leb (length raw) (start / 64))) [
    | inl e ↦ rw e
    | inr e ↦
        rw e
          (elim (Bool-cases (
            not (start % 64 == 0)
            && ltb (64 - start % 64) width
            && ltb (start / 64 + 1) (length raw))) [
              | inl c ↦ rw c (length-or_at _ _ _ ∙ length-or_at _ _ _)
              | inr c ↦ rw c (length-or_at _ _ _)
            ])
  ]

  pub write_group-IsWord :
      (raw : List ℕ) (start value : ℕ)
      → All IsWord raw
      → value < 2 ^ width
      → All IsWord (write_group raw start width value)
  unfolding write_group
  write_group-IsWord raw start value h p =
      let same : value % 2 ^ width ≡ value = mod-eq_of_lt p in
      elim (Bool-cases (leb (length raw) (start / 64))) [
        | inl e ↦ rw e h
        | inr e ↦
            rw (e, bit_and-low_mask width value narrow, same)
              (elim (Bool-cases (
                not (start % 64 == 0)
                && ltb (64 - start % 64) width
                && ltb (start / 64 + 1) (length raw))) [
                  | inl c ↦ rw c (
                      or_at-IsWord _ _ _ (or_at-IsWord raw _ _ h (shifted start value))
                        (shifted_back start value p))
                  | inr c ↦ rw c (or_at-IsWord raw _ _ h (shifted start value))
                ])
      ]
    where
      shifted : (start value : ℕ) → value <<< (start % 64) < 2 ^ 64
      shifted start value = mod-lt (value * 2 ^ (start % 64)) (omega arith)

      shifted_back : (start value : ℕ) → value < 2 ^ width → value >>> (64 - start % 64) < 2 ^ 64
      shifted_back start value p =
          omega (arith, div-le_self value (2 ^ (64 - start % 64)), pow-le_word width narrow)
