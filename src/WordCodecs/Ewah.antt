-- ===== src/WordCodecs/Ewah.antt =====
-- The segments of an EWAH stream of backends/word_codecs.cpp: a marker, and the literals that it
-- counts.
pub mod Read
pub mod Target
pub mod Marker
pub mod Fill
pub mod Literal
pub mod Laws
use bitmap_comp_framework.Prelude.{
  ℕ, zero, suc, ◌+◌, ◌-◌, ◌*◌, ◌/◌, ◌%◌, ◌^◌, ◌≤◌, ◌<◌, bit_and, bit_or, ◌≡◌, refl, ◌∙◌, ap, sym,
  true, false, Bool, List, [], ◌∷◌, ◌++◌, length, replicate, All, arith, if◌then◌else◌,
  append_assoc,
}
use bitmap_comp_framework.Prelude.Masks.{bit_and_mask, bit_or_fields, bit_or_comm}
use bitmap_comp_framework.Bits.{◌>>>◌, ◌<<<◌}
use bitmap_comp_framework.Binary.RoundTrip.{le_bytes}
use bitmap_comp_framework.Binary.Words.{word_bytes}

pub record Segment : Type 0 where
  pub ones : Bool
  pub fills : ℕ
  pub literals : List ℕ

-- The fields of a marker fit, and there is something to mark.
pub record IsSegment (s : Segment) : Type 0 where
  pub fills_fit : s.fills < 2 ^ 32
  pub count_fits : length s.literals < 2 ^ 31
  pub words : All (λ v. v < 2 ^ 64) s.literals
  pub some : 0 < s.fills + length s.literals

abbrev pub word_of : Bool → ℕ
word_of b = if b then 2 ^ 64 - 1 else 0

abbrev pub digit_of : Bool → ℕ
digit_of b = if b then 1 else 0

abbrev pub marker : Bool → ℕ → ℕ → ℕ
marker b fills literals = literals * 2 ^ 33 + (fills * 2 + digit_of b)

unfoldable pub segments_bytes : List Segment → List ℕ
segments_bytes [] = []
segments_bytes (s ∷ ss) =
    le_bytes 8 (marker s.ones s.fills (length s.literals))
    ++ (word_bytes s.literals ++ segments_bytes ss)

unfoldable pub segments_groups : List Segment → List ℕ
segments_groups [] = []
segments_groups (s ∷ ss) = replicate s.fills (word_of s.ones) ++ (s.literals ++ segments_groups ss)

pub segments_bytes-append :
    (xs ys : List Segment) → segments_bytes (xs ++ ys) ≡ segments_bytes xs ++ segments_bytes ys
unfolding segments_bytes
segments_bytes-append [] ys = refl
segments_bytes-append (s ∷ xs) ys =
    let head = le_bytes 8 (marker s.ones s.fills (length s.literals)) in
    rw (segments_bytes-append xs ys) (
      ap (◌++◌ head)
        (sym (append_assoc (word_bytes s.literals) (segments_bytes xs) (segments_bytes ys)))
      ∙ sym (append_assoc head (word_bytes s.literals ++ segments_bytes xs) (segments_bytes ys)))

pub segments_groups-append :
    (xs ys : List Segment) → segments_groups (xs ++ ys) ≡ segments_groups xs ++ segments_groups ys
unfolding segments_groups
segments_groups-append [] ys = refl
segments_groups-append (s ∷ xs) ys =
    let head = replicate s.fills (word_of s.ones) in
    rw (segments_groups-append xs ys) (
      ap (◌++◌ head) (sym (append_assoc s.literals (segments_groups xs) (segments_groups ys)))
      ∙ sym (append_assoc head (s.literals ++ segments_groups xs) (segments_groups ys)))

-- What `update_marker` writes.
pub marker_value :
    (b : Bool) (fills literals : ℕ)
    → fills < 2 ^ 32
    → literals < 2 ^ 31
    → (bit_or (bit_or (digit_of b) (fills <<< 1)) (literals <<< 33) ≡ marker b fills literals)
      × (marker b fills literals < 2 ^ 64)
marker_value b fills literals hf hl = (joined b, bound b)
  where
    field :
        (d : ℕ)
        → d ≤ 1
        → bit_or (bit_or d (fills <<< 1)) (literals <<< 33) ≡ literals * 2 ^ 33 + (fills * 2 + d)
    field d hd =
        let whole_f : fills * 2 ^ 1 % 2 ^ 64 ≡ fills * 2 ^ 1 = omega arith in
        let whole_l : literals * 2 ^ 33 % 2 ^ 64 ≡ literals * 2 ^ 33 = omega arith in
        let inner : bit_or d (fills * 2 ^ 1) ≡ fills * 2 + d =
          bit_or_comm d (fills * 2 ^ 1) ∙ bit_or_fields 1 fills d (omega arith) in
        let outer : bit_or (fills * 2 + d) (literals * 2 ^ 33)
            ≡ literals * 2 ^ 33 + (fills * 2 + d) =
          bit_or_comm (fills * 2 + d) (literals * 2 ^ 33)
          ∙ bit_or_fields 33 literals (fills * 2 + d) (omega arith) in
        rw (whole_f, whole_l, inner) outer

    joined :
        (b : Bool)
        → bit_or (bit_or (digit_of b) (fills <<< 1)) (literals <<< 33) ≡ marker b fills literals
    joined true = field 1 (omega arith)
    joined false = field 0 (omega arith)

    bound : (b : Bool) → marker b fills literals < 2 ^ 64
    bound true = omega arith
    bound false = omega arith

-- What the cursor takes from a marker.
module _ (b : Bool) (fills literals : ℕ) (hf : fills < 2 ^ 32) (hl : literals < 2 ^ 31) where
  pub marker_fills : bit_and (marker b fills literals >>> 1) (2 ^ 32 - 1) ≡ fills
  marker_fills = bit_and_mask 32 (marker b fills literals / 2) ∙ value b
    where
      value : (b : Bool) → marker b fills literals / 2 % 2 ^ 32 ≡ fills
      value true = omega arith
      value false = omega arith

  pub marker_literals : marker b fills literals >>> 33 ≡ literals
  marker_literals = value b
    where
      value : (b : Bool) → marker b fills literals / 2 ^ 33 ≡ literals
      value true = omega arith
      value false = omega arith

  pub marker_digit : bit_and (marker b fills literals) 1 ≡ digit_of b
  marker_digit = bit_and_mask 1 (marker b fills literals) ∙ value b
    where
      value : (b : Bool) → marker b fills literals % 2 ≡ digit_of b
      value true = omega arith
      value false = omega arith
