-- ===== src/WordCodecs/Fills.antt =====
-- The 32-bit words of CONCISE and PLWAH of backends/word_codecs.cpp: their fields as arithmetic, and
-- the groups that a word stands for.
use bitmap_comp_framework.Prelude.{
  ℕ, ◌+◌, ◌-◌, ◌*◌, ◌/◌, ◌%◌, ◌^◌, ◌≤◌, ◌<◌, bit_and, bit_or, ◌≡◌, refl, ◌∙◌, ap, sym, true, false,
  inl, inr, Bool, not, List, [], ◌∷◌, ◌++◌, replicate, arith, ◌==◌, if◌then◌else◌, lt_or_ge,
}
use Prim.Native.Nat.{bit_xor}
use bitmap_comp_framework.Prelude.Digits.{bit-eq-mod}
use bitmap_comp_framework.Prelude.Masks.{bit_and_mask, bit_and_pow, bit_or_fields, bit_and_field}
use bitmap_comp_framework.Prelude.Xor.{bit_xor_back, bit_xor-lt}
use bitmap_comp_framework.Bits.{◌>>>◌, popcount64, ctz64}
use bitmap_comp_framework.Bits.Count.{popcount64-one}
use native.Mathlib.Nat.{pow-le-pow_right}
use bitmap_comp_framework.Codecs.{Codec, concise, plwah, same_codec}
use bitmap_comp_framework.WordCodecs.Cursor.{
  mask31, fill_position, fill_counter_of, fill_base, exception_span, is_literal,
}

pub fill_position_value : (w : ℕ) → fill_position w ≡ w / 2 ^ 25 % 32
fill_position_value w = bit_and_mask 5 (w / 2 ^ 25)

pub fill_counter_value : (w : ℕ) → fill_counter_of w ≡ w % 2 ^ 25
fill_counter_value w = bit_and_mask 25 w

-- `(word >> 30) & 1`
pub bit30_value : (w : ℕ) → bit_and (w >>> 30) 1 ≡ w / 2 ^ 30 % 2
bit30_value w = bit_and_mask 1 (w / 2 ^ 30)

abbrev pub base_of : Bool → ℕ
base_of b = if b then mask31 else 0

abbrev pub ones_fill : ℕ → Bool
ones_fill w = not (bit_and (w >>> 30) 1 == 0)

pub fill_base_value : (w : ℕ) → fill_base w ≡ base_of (ones_fill w)
fill_base_value w = ground arith

-- The groups of a fill word: a run, and at its end an exception or none.
unfoldable pub fill_groups : Codec → ℕ → ℕ → ℕ → List ℕ
fill_groups c p count base =
    if same_codec c plwah
    then replicate count base ++ (if p == 0 then [] else ((exception_span base p).value ∷ []))
    else if p == 0
    then replicate (count + 1) base
    else (exception_span base p).value ∷ replicate count base

unfoldable pub word_groups : Codec → ℕ → List ℕ
word_groups c w =
    if is_literal c w
    then bit_and w mask31 ∷ []
    else fill_groups c (fill_position w) (fill_counter_of w) (fill_base w)

-- What makes a word of a codec: its size, and a counter that PLWAH wants.
pub record IsCode (c : Codec) (w : ℕ) : Type 0 where
  pub fits : w < 2 ^ 32
  pub counted : same_codec c plwah ≡ true → is_literal c w ≡ false → 0 < fill_counter_of w

-- A word put together of its fields.
abbrev pub fields : ℕ → ℕ → ℕ → ℕ
fields head p t = head * 2 ^ 30 + (p * 2 ^ 25 + t)

module _ (head p t : ℕ) (hp : p ≤ 31) (ht : t < 2 ^ 25) where
  pub fields-position : fill_position (fields head p t) ≡ p
  fields-position = fill_position_value (fields head p t) ∙ omega arith

  pub fields-counter : fill_counter_of (fields head p t) ≡ t
  fields-counter = fill_counter_value (fields head p t) ∙ omega arith

  pub fields-bit30 : bit_and (fields head p t >>> 30) 1 ≡ head % 2
  fields-bit30 = bit30_value (fields head p t) ∙ omega arith

  pub fields-bit31 : fields head p t >>> 31 ≡ head / 2
  fields-bit31 = omega arith

  -- `head | p << 25 | t`
  pub fields-bit_or :
      bit_or (bit_or (head * 2 ^ 30) (p * 2 ^ 25 % 2 ^ 32)) (t % 2 ^ 32) ≡ fields head p t
  fields-bit_or =
      let whole_p : p * 2 ^ 25 % 2 ^ 32 ≡ p * 2 ^ 25 = omega arith in
      let whole_t : t % 2 ^ 32 ≡ t = omega arith in
      let outer : bit_or (head * 2 ^ 30) (p * 2 ^ 25) ≡ (head * 32 + p) * 2 ^ 25 =
        bit_or_fields 30 head (p * 2 ^ 25) (omega arith) ∙ omega arith in
      rw (whole_p, whole_t, outer, bit_or_fields 25 (head * 32 + p) t ht) (omega arith)

pub exception-lt : (base p : ℕ) → base < 2 ^ 31 → p ≤ 31 → (exception_span base p).value < 2 ^ 31
exception-lt base p h hp = bit_xor-lt 31 base (1 * 2 ^ (p - 1) % 2 ^ 64) h (small p hp)
  where
    small : (p : ℕ) → p ≤ 31 → 1 * 2 ^ (p - 1) % 2 ^ 64 < 2 ^ 31
    small p hp =
        omega (arith, pow-le-pow_right {n = 2} (omega arith) {i = p - 1} {j = 30} (omega arith))

abbrev pub head_of : Bool → ℕ
head_of b = if b then 1 else 0

-- The groups of a word put together of its fields: a literal, or a fill of CONCISE or PLWAH.
module _ (p t : ℕ) (hp : p ≤ 31) (ht : t < 2 ^ 25) where
  fields-base :
      (head : ℕ) (b : Bool) → head % 2 ≡ head_of b → fill_base (fields head p t) ≡ base_of b
  fields-base head true e = rw (fields-bit30 head p t hp ht, e)
  fields-base head false e = rw (fields-bit30 head p t hp ht, e)

  fill_word :
      (c : Codec) (head : ℕ) (b : Bool)
      → head % 2 ≡ head_of b
      → is_literal c (fields head p t) ≡ false
      → word_groups c (fields head p t) ≡ fill_groups c p t (base_of b)
  unfolding word_groups
  fill_word c head b e fill =
      rw (fill, fields-position head p t hp ht, fields-counter head p t hp ht, fields-base head b e)

  pub concise_fill_word :
      (b : Bool)
      → word_groups concise (fields (head_of b) p t) ≡ fill_groups concise p t (base_of b)
  concise_fill_word b = fill_word concise (head_of b) b (head b) (literal b)
    where
      head : (b : Bool) → head_of b % 2 ≡ head_of b
      head true = refl
      head false = refl

      literal : (b : Bool) → is_literal concise (fields (head_of b) p t) ≡ false
      literal b = unfold same_codec in ground (arith, fields-bit31 (head_of b) p t hp ht)

  pub plwah_fill_word :
      (b : Bool)
      → word_groups plwah (fields (2 + head_of b) p t) ≡ fill_groups plwah p t (base_of b)
  plwah_fill_word b = fill_word plwah (2 + head_of b) b (head b) (literal b)
    where
      head : (b : Bool) → (2 + head_of b) % 2 ≡ head_of b
      head true = refl
      head false = refl

      literal : (b : Bool) → is_literal plwah (fields (2 + head_of b) p t) ≡ false
      literal true = unfold same_codec in ground arith
      literal false = unfold same_codec in ground arith

-- Every word is put together of fields.
pub fields-all : (w : ℕ) → w ≡ fields (w / 2 ^ 30) (w / 2 ^ 25 % 32) (w % 2 ^ 25)
fields-all w = omega arith

-- `last & 0x40000000`
pub bit30_at : (w : ℕ) → bit_and w (2 ^ 30) ≡ w / 2 ^ 30 % 2 * 2 ^ 30
bit30_at w = bit_and_pow 30 w ∙ ap (λ (t : ℕ). t * 2 ^ 30) (bit-eq-mod w 30)

-- A group in which one position differs from a fill is an exception of it.
pub exception_of :
    (b : Bool) (v : ℕ)
    → v < 2 ^ 31
    → popcount64 (bit_xor v (base_of b)) ≡ 1
    → (ctz64 (bit_xor v (base_of b)) + 1 ≤ 31)
      × ((exception_span (base_of b) (ctz64 (bit_xor v (base_of b)) + 1)).value ≡ v)
exception_of b v low one =
    let diff = bit_xor v (base_of b) in
    let small : diff < 2 ^ 31 = bit_xor-lt 31 v (base_of b) low (base-lt b) in
    let power : diff ≡ 2 ^ ctz64 diff = popcount64-one diff (omega arith) one in
    (place diff small power, value diff small power)
  where
    base-lt : (b : Bool) → base_of b < 2 ^ 31
    base-lt true = omega arith
    base-lt false = omega arith

    place : (diff : ℕ) → diff < 2 ^ 31 → diff ≡ 2 ^ ctz64 diff → ctz64 diff + 1 ≤ 31
    place diff small power = elim (lt_or_ge (ctz64 diff) 31) [
      | inl p ↦ omega arith
      | inr p ↦ absurd (
          omega
            (arith, pow-le-pow_right {n = 2} (omega arith) {i = 31} {j = ctz64 diff} (omega arith)))
    ]

    value :
        (diff : ℕ)
        → bit_xor v (base_of b) < 2 ^ 31
        → bit_xor v (base_of b) ≡ 2 ^ ctz64 (bit_xor v (base_of b))
        → (exception_span (base_of b) (ctz64 (bit_xor v (base_of b)) + 1)).value ≡ v
    value diff small power =
        let diff = bit_xor v (base_of b) in
        let back : 1 * 2 ^ (ctz64 diff + 1 - 1) % 2 ^ 64 ≡ diff =
          shifted (ctz64 diff) diff small (sym power) in
        ap (bit_xor (base_of b)) back ∙ bit_xor_back v (base_of b)
      where
        shifted : (k d : ℕ) → d < 2 ^ 31 → 2 ^ k ≡ d → 1 * 2 ^ (k + 1 - 1) % 2 ^ 64 ≡ d
        shifted k d h e = let same : k + 1 - 1 ≡ k = omega arith in rw same (omega arith)

-- `0x80000000U | v` of CONCISE, and a PLWAH literal.
pub concise_literal_word :
    (v : ℕ)
    → v < 2 ^ 31
    → (bit_or (2 ^ 31) v < 2 ^ 32) × (word_groups concise (bit_or (2 ^ 31) v) ≡ v ∷ [])
unfolding word_groups same_codec
concise_literal_word v low =
    let joined : bit_or (2 ^ 31) v ≡ 2 ^ 31 + v = bit_or_fields 31 1 v low in
    let high : (2 ^ 31 + v) >>> 31 ≡ 1 = omega arith in
    let kept : bit_and (2 ^ 31 + v) mask31 ≡ v = bit_and_mask 31 (2 ^ 31 + v) ∙ omega arith in
    rw joined (omega arith, rw (high, kept))

-- `last & 0xfe000000`
pub top_bits : (w : ℕ) → w < 2 ^ 32 → bit_and w (2 ^ 32 - 2 ^ 25) ≡ w / 2 ^ 25 * 2 ^ 25
top_bits w h = bit_and_field 7 25 w ∙ omega arith
