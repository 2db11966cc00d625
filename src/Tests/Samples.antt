-- ===== src/Tests/Samples.antt =====
-- Raw bitmaps and backends that the tests share.
use bitmap_comp_framework.Prelude.{ℕ, ◌-◌, ◌^◌, ◌≡◌, refl, List, [], ◌∷◌, All, arith, ok}
use bitmap_comp_framework.Bits.{words_for_bits}
use bitmap_comp_framework.Bits.Raw.{IsWord, IsRaw}
use bitmap_comp_framework.Archive.{validate_input, validate_each, validate_inputs}
use bitmap_comp_framework.Archive.Inputs.{validate_inputs-IsRaw}

-- 100 positions: the first 65 and position 66; and positions 63 and 99.
abbrev pub first_raw : List ℕ
first_raw = (2 ^ 64 - 1) ∷ 5 ∷ []

abbrev pub second_raw : List ℕ
second_raw = 2 ^ 63 ∷ 2 ^ 35 ∷ []

abbrev pub raws : List (List ℕ)
raws = first_raw ∷ second_raw ∷ []

pub raws-IsWord : All (All IsWord) raws
raws-IsWord = omega arith

pub raws_valid : validate_inputs raws 100 ≡ ok tt
unfolding validate_inputs validate_each validate_input words_for_bits
raws_valid = refl

pub raws-IsRaw : All (IsRaw 100) raws
raws-IsRaw = ((validate_inputs-IsRaw raws 100 raws-IsWord).0 raws_valid).1

pub first-IsRaw : IsRaw 100 first_raw
first-IsRaw = raws-IsRaw.0

pub second-IsRaw : IsRaw 100 second_raw
second-IsRaw = raws-IsRaw.1.0
