-- ===== src/Wah/Code.antt =====
-- Code words of backends/wah_backend.cpp as arithmetic: the flag in digit 63, the fill value in
-- digit 62, the count below.
use bitmap_comp_framework.Prelude.{
  ℕ, ◌+◌, ◌*◌, ◌/◌, ◌%◌, ◌^◌, ◌≤◌, ◌<◌, bit_and, bit_or, ◌≡◌, ◌∙◌, ap, true, false, List, [], ◌∷◌,
  ◌++◌, replicate, arith, if◌then◌else◌, ◌==◌,
}
use bitmap_comp_framework.Prelude.Digits.{bit-eq-mod}
use bitmap_comp_framework.Prelude.Masks.{bit_and_mask, bit_and_pow, bit_or_fields}
use bitmap_comp_framework.Wah.{
  fill_flag, fill_one, count_mask, mask63, is_fill, run_value, run_count,
}

pub flag_value : (w : ℕ) → bit_and w fill_flag ≡ w / 2 ^ 63 % 2 * 2 ^ 63
flag_value w = bit_and_pow 63 w ∙ ap (λ (t : ℕ). t * 2 ^ 63) (bit-eq-mod w 63)

pub one_value : (w : ℕ) → bit_and w fill_one ≡ w / 2 ^ 62 % 2 * 2 ^ 62
one_value w = bit_and_pow 62 w ∙ ap (λ (t : ℕ). t * 2 ^ 62) (bit-eq-mod w 62)

pub count_value : (w : ℕ) → bit_and w count_mask ≡ w % 2 ^ 62
count_value w = bit_and_mask 62 w

-- A word that the format allows: a run of one group at least.
abbrev pub IsCode : ℕ → Type 0
IsCode w = (w < 2 ^ 64) × (0 < run_count w)

abbrev pub fill_value : ℕ → ℕ
fill_value one = if one == 0 then 0 else mask63

abbrev pub fill_word : ℕ → ℕ → ℕ
fill_word one count = 2 ^ 63 + one * 2 ^ 62 + count

module _ (one count : ℕ) (digit : one ≤ 1) (fits : count < 2 ^ 62) where
  pub is_fill-fill_word : is_fill (fill_word one count) ≡ true
  is_fill-fill_word = ground (arith, flag_value (fill_word one count))

  pub run_count-fill_word : run_count (fill_word one count) ≡ count
  run_count-fill_word = rw is_fill-fill_word (omega (arith, count_value (fill_word one count)))

  pub run_value-fill_word : run_value (fill_word one count) ≡ fill_value one
  run_value-fill_word = rw is_fill-fill_word (ground (arith, one_value (fill_word one count)))

  pub bit_or-fill_word : bit_or (2 ^ 63 + one * 2 ^ 62) count ≡ fill_word one count
  bit_or-fill_word =
      let fields : 2 ^ 63 + one * 2 ^ 62 ≡ (2 + one) * 2 ^ 62 = omega arith in
      rw (fields, bit_or_fields 62 (2 + one) count fits)

-- Every fill word is one of these.
pub fill_shape :
    (w : ℕ) → w < 2 ^ 64 → is_fill w ≡ true → w ≡ fill_word (w / 2 ^ 62 % 2) (w % 2 ^ 62)
fill_shape w h f = ground (arith, flag_value w)

pub is_fill-literal : (w : ℕ) → w < 2 ^ 63 → is_fill w ≡ false
is_fill-literal w h = ground (arith, flag_value w)

pub run_value-lt : (w : ℕ) → w < 2 ^ 64 → run_value w < 2 ^ 63
run_value-lt w h = ground (arith, flag_value w)

pub run_count-le : (w : ℕ) → run_count w < 2 ^ 62
run_count-le w = ground (arith, count_value w)

-- The groups that a stream of code words stands for.
unfoldable pub expand : List ℕ → List ℕ
expand [] = []
expand (w ∷ ws) = replicate (run_count w) (run_value w) ++ expand ws
