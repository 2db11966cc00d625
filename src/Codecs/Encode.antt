-- ===== src/Codecs/Encode.antt =====
-- `encode_bitmap` of backends/codecs.cpp and the groups of the bitmap.
use bitmap_comp_framework.Prelude.{
  ℕ, zero, suc, ◌+◌, ◌*◌, ◌/◌, ◌%◌, ◌^◌, ◌≤◌, ◌<◌, ◌≡◌, refl, ◌∙◌, ap, sym, true, false, inl, inr,
  List, [], ◌∷◌, ◌++◌, length, get_or, arith, ok, lt_or_ge, Bool-cases, length-append, append_assoc,
  append-nil, get_or_past, if◌then◌else◌, ◌==◌,
}
use bitmap_comp_framework.Prelude.Digits.{bit-zero}
use bitmap_comp_framework.Bits.Raw.{bit_at, IsRaw}
use bitmap_comp_framework.Archive.{validate_input}
use bitmap_comp_framework.Archive.Inputs.{validate_input-IsRaw}
use bitmap_comp_framework.Codecs.{
  Codec, val, same_codec, CodecOptions, Encoding, Coding, group_count, read_group,
}
use bitmap_comp_framework.Codecs.Groups.{
  group_count-covers, group_count-le, bit-read_group, read_group-lt,
}
use bitmap_comp_framework.Codecs.Operations.{
  append_groups, check_raw, encode_width, encode_fixed, encode_bitmap, width_for, is_segment,
}
use bitmap_comp_framework.Codecs.Reads.{IsEncoding, CodecLaws}
use bitmap_comp_framework.Codecs.Decode.{group_bit}
use native.Mathlib.Nat.{mod-lt, div-add-mod', mul-le-mul_right}

module _ (raw : List ℕ) (width : ℕ) where
  -- The groups of a raw bitmap, `n` of them from group `g` on.
  unfoldable pub groups_from : ℕ → ℕ → List ℕ
  groups_from zero g = []
  groups_from (suc n) g = read_group raw (g * width) width ∷ groups_from n (g + 1)

  pub length-groups_from : (n g : ℕ) → length (groups_from n g) ≡ n
  unfolding groups_from
  length-groups_from zero g = refl
  length-groups_from (suc n) g = ap suc (length-groups_from n (g + 1))

  get_or-groups_from :
      (n g i : ℕ) → i < n → get_or (groups_from n g) i 0 ≡ read_group raw ((g + i) * width) width
  unfolding groups_from
  get_or-groups_from zero g i h = elim h [ ]
  get_or-groups_from (suc n) g zero h = let at : g + 0 ≡ g = omega arith in rw at
  get_or-groups_from (suc n) g (suc i) h =
      let at : g + suc i ≡ g + 1 + i = omega arith in
      rw at (get_or-groups_from n (g + 1) i (omega arith))

-- An encoding stands for a raw bitmap.
pub record Stands (K : Coding) (c : Codec) (width n : ℕ) (e : Encoding) (raw : List ℕ)
    : Type 0 where
  pub groups : List ℕ
  pub encoding : IsEncoding K c width n e groups
  pub bits : (b : ℕ) → group_bit width groups b ≡ bit_at raw b

module _ (K : Coding) (c : Codec) (width region : ℕ) (L : CodecLaws K c width region) where
  append_groups-Holds :
      (bits : ℕ) (raw : List ℕ) (n g : ℕ) (w : K.Writer) (gs : List ℕ)
      → L.Holds bits w gs
      → length gs + n ≤ 2 ^ 33
      → (w' : K.Writer) × (append_groups K raw width n g w ≡ ok w')
        × L.Holds bits w' (gs ++ groups_from raw width n g)
  unfolding append_groups groups_from
  append_groups-Holds bits raw zero g w gs h fits = (w, refl, rw (append-nil gs) h)
  append_groups-Holds bits raw (suc n) g w gs h fits =
      let v = read_group raw (g * width) width in
      let (w₁, e₁, h₁) =
        L.append-Holds bits w gs v 1 h (read_group-lt width L.narrow raw (g * width)) (omega arith)
          (omega arith) in
      let (w₂, e₂, h₂) =
        append_groups-Holds bits raw n (g + 1) w₁ (gs ++ (v ∷ [])) h₁
          (omega (arith, length-append gs (v ∷ []))) in
      (w₂, rw (e₁, e₂), rw (append_assoc gs (v ∷ []) (groups_from raw width n (g + 1))) at h₂)

  module _ (n : ℕ) (raw : List ℕ) (small : n ≤ 2 ^ 32) (good : IsRaw n raw) where
    group_bit-groups :
        (b : ℕ) → group_bit width (groups_from raw width (group_count n width) 0) b ≡ bit_at raw b
    unfolding group_bit
    group_bit-groups b = elim (lt_or_ge (b / width) (group_count n width)) [
      | inl p ↦
          let start : (0 + b / width) * width + b % width ≡ b =
            omega (arith, div-add-mod' b width) in
          rw (get_or-groups_from raw width (group_count n width) 0 (b / width) p) (
            bit-read_group width L.narrow raw ((0 + b / width) * width) (b % width) good.words
              (mod-lt b L.wide)
            ∙ ap (bit_at raw) start)
      | inr p ↦
          let none : get_or (groups_from raw width (group_count n width) 0) (b / width) 0 ≡ 0 =
            get_or_past (groups_from raw width (group_count n width) 0) (b / width) 0
              (omega (arith, length-groups_from raw width (group_count n width) 0)) in
          rw none (bit-zero (b % width) ∙ sym (good.padding b (past b p)))
    ]
      where
        past : (b : ℕ) → group_count n width ≤ b / width → n ≤ b
        past b p = omega (
          arith,
          group_count-covers n width L.wide,
          div-add-mod' b width,
          mul-le-mul_right width p,
        )

    pub encode_width-Stands :
        (e : Encoding) × (encode_width K c raw n width region ≡ ok e) × Stands K c width n e raw
    unfolding encode_width
    encode_width-Stands =
        let groups = groups_from raw width (group_count n width) 0 in
        let (w₀, e₀, h₀) = L.writer-Holds n small in
        let (w₁, e₁, h₁) =
          append_groups-Holds n raw (group_count n width) 0 w₀ [] h₀
            (omega (arith, group_count-le n width L.wide)) in
        let (e, e₂, stands) =
          L.finish-Holds n w₁ groups small h₁
            (length-groups_from raw width (group_count n width) 0) in
        (e, rw (e₀, e₁, e₂), record { groups = groups; encoding = stands; bits = group_bit-groups })

-- `encode_bitmap` makes the checks of `validate_inputs` under messages of its own.
check_raw-IsRaw : (n : ℕ) (raw : List ℕ) → n ≤ 2 ^ 32 → IsRaw n raw → check_raw raw n ≡ ok tt
unfolding check_raw validate_input
check_raw-IsRaw n raw small good =
    let accepted = (validate_input-IsRaw n raw good.words small).1 good in
    ground (arith, accepted, good.size)

-- The width that `encode_bitmap` takes where the VAL segment size is given.
abbrev pub chosen_width : Codec → CodecOptions → ℕ
chosen_width c options = if same_codec c val then options.val_segment_bits else width_for c

module _ (K : Coding) (c : Codec) (options : CodecOptions)
    (segment : same_codec c val ≡ true → is_segment options.val_segment_bits ≡ true)
    (L : CodecLaws K c (chosen_width c options) options.sbh_groups) (n : ℕ) (raw : List ℕ)
    (small : n ≤ 2 ^ 32) (good : IsRaw n raw) where
  abbrev Encoded : Type 0
  Encoded =
      (e : Encoding) × (encode_bitmap K c raw n options ≡ ok e)
      × Stands K c (chosen_width c options) n e raw

  pub encode_bitmap-Stands : Encoded
  unfolding encode_bitmap encode_fixed is_segment
  encode_bitmap-Stands =
      let (e, runs, stands) =
        encode_width-Stands K c (chosen_width c options) options.sbh_groups L n raw small good in
      let checked = check_raw-IsRaw n raw small good in
      elim (Bool-cases (same_codec c val)) [
        | inl is_val ↦
            let given : (options.val_segment_bits == 0) ≡ false = ground (arith, segment is_val) in
            (e, rw (is_val, given, checked, segment is_val) (rw is_val at runs), stands)
        | inr other ↦ (e, rw (other, checked) (rw other at runs), stands)
      ]
