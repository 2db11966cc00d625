-- ===== src/Bits/Straddle.antt =====
-- A window of up to 64 positions across two neighbouring words of a raw bitmap, read and written:
-- what the `read_group` and `write_group` of backends/wah_backend.cpp and
-- backends/codec_internal.hpp share.
use bitmap_comp_framework.Prelude.{
  ℕ, ◌+◌, ◌-◌, ◌*◌, ◌/◌, ◌%◌, ◌^◌, ◌≤◌, ◌<◌, max, bit_or, ◌≡◌, refl, ◌∙◌, sym, ap, inl, inr, List,
  length, All, get_or, lt_or_ge, arith, ◌≢◌,
}
use bitmap_comp_framework.Prelude.Digits.{
  bit, bit-lt_pow, bit-shr, bit-bit_or, bit-shl, bit-shl_low, bit-mod_low,
}
use bitmap_comp_framework.Bits.{◌>>>◌, ◌<<<◌}
use bitmap_comp_framework.Bits.Raw.{bit_at, IsWord, get_or-IsWord}
use bitmap_comp_framework.Bits.Window.{
  or_at, length-or_at, bit_at-or_at_self, bit_at-or_at_ne, spot, spot_before, spot_at,
  bit-shifted_low,
}
use native.Mathlib.Decide.{ℕ_discrete}

-- The two words that a window of at most 64 positions from `start` on can touch.
module _ (raw : List ℕ) (start i : ℕ) (ws : All IsWord raw) (low : i < 64) where
  abbrev wi : ℕ
  wi = start / 64

  abbrev off : ℕ
  off = start % 64

  pub first_word : start % 64 + i < 64 → bit (get_or raw wi 0 >>> off) i ≡ bit_at raw (start + i)
  unfolding bit_at
  first_word h =
      let word : (start + i) / 64 ≡ start / 64 = omega arith in
      let place : (start + i) % 64 ≡ start % 64 + i = omega arith in
      rw (word, place) (bit-shr off (get_or raw wi 0) i (off + i) refl)

  pub first_word_ends : 64 ≤ start % 64 + i → bit (get_or raw wi 0 >>> off) i ≡ 0
  first_word_ends h =
      bit-shr off (get_or raw wi 0) i (off + i) refl
      ∙ bit-lt_pow 64 (get_or raw wi 0) (off + i) (get_or-IsWord raw wi ws) h

  second_word_starts : start % 64 + i < 64 → bit (get_or raw (wi + 1) 0 <<< (64 - off)) i ≡ 0
  second_word_starts h =
      bit-mod_low 64 (get_or raw (wi + 1) 0 * 2 ^ (64 - off)) i (omega arith)
      ∙ bit-shl_low (64 - off) (get_or raw (wi + 1) 0) i (omega arith)

  second_word :
      64 ≤ start % 64 + i → bit (get_or raw (wi + 1) 0 <<< (64 - off)) i ≡ bit_at raw (start + i)
  unfolding bit_at
  second_word h =
      let word : (start + i) / 64 ≡ start / 64 + 1 = omega arith in
      let place : (start + i) % 64 ≡ start % 64 + i - 64 = omega arith in
      rw (word, place)
        (bit-mod_low 64 (get_or raw (wi + 1) 0 * 2 ^ (64 - off)) i (omega arith)
          ∙ bit-shl (64 - off) (get_or raw (wi + 1) 0) (off + i - 64) i (omega arith))

  pub both_words :
      bit (bit_or (get_or raw wi 0 >>> off) (get_or raw (wi + 1) 0 <<< (64 - off))) i
      ≡ bit_at raw (start + i)
  both_words = rw bit-bit_or (elim (lt_or_ge (off + i) 64) [
    | inl h ↦ omega (arith, first_word h, second_word_starts h)
    | inr h ↦ omega (arith, first_word_ends h, second_word h)
  ])

-- The same two words, written: `first` is the bitmap after the first write.
module _ (raw : List ℕ) (start value b : ℕ) (ws : All IsWord raw) (fits : value < 2 ^ 64)
    (inside : b < 64 * length raw) where
  abbrev wi' : ℕ
  wi' = start / 64

  abbrev off' : ℕ
  off' = start % 64

  pub spot_after : start + 64 ≤ b → spot value start b ≡ 0
  spot_after h =
      spot_at value start b (b - start) (omega arith)
      ∙ bit-lt_pow 64 value (b - start) fits (omega arith)

  abbrev pub first : List ℕ
  first = or_at raw wi' (value <<< off')

  -- After the first write only the positions of the second word are missing.
  pub bit_at-first :
      wi' < length raw → wi' + 1 ≢ b / 64 → bit_at first b ≡ max (bit_at raw b) (spot value start b)
  bit_at-first h ne = elim (ℕ_discrete wi' (b / 64)) [
    | yes e ↦ rw (bit_at-or_at_self raw wi' (value <<< off') b (sym e) h) (
        ap (max (bit_at raw b)) (bit-shifted_low value off' (b % 64) (omega arith) ∙ within_word e))
    | no other ↦
        rw (bit_at-or_at_ne raw wi' (value <<< off') b other) (omega (arith, outside other))
  ]
    where
      within_word : wi' ≡ b / 64 → spot value off' (b % 64) ≡ spot value start b
      within_word e = elim (lt_or_ge b start) [
        | inl p ↦ spot_before value off' (b % 64) (omega arith) ∙ sym (spot_before value start b p)
        | inr p ↦
            spot_at value off' (b % 64) (b - start) (omega arith)
            ∙ sym (spot_at value start b (b - start) (omega arith))
      ]

      outside : wi' ≢ b / 64 → spot value start b ≡ 0
      outside other = elim (lt_or_ge b start) [
        | inl p ↦ spot_before value start b p
        | inr p ↦ spot_after (omega arith)
      ]

  pub bit_at-second :
      wi' + 1 < length raw
      → bit_at (or_at first (wi' + 1) (value >>> (64 - off'))) b
        ≡ max (bit_at raw b) (spot value start b)
  bit_at-second h = elim (ℕ_discrete (wi' + 1) (b / 64)) [
    | yes e ↦
        rw
          (
            bit_at-or_at_self first (wi' + 1) (value >>> (64 - off')) b (sym e) (rw length-or_at h),
            bit_at-or_at_ne raw wi' (value <<< off') b (omega arith),
          )
          (ap (max (bit_at raw b)) (
            bit-shr (64 - off') value (b % 64) (b - start) (omega arith)
            ∙ sym (spot_at value start b (b - start) (omega arith))))
    | no other ↦
        bit_at-or_at_ne first (wi' + 1) (value >>> (64 - off')) b other
        ∙ bit_at-first (omega arith) other
  ]
