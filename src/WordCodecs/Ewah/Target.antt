-- ===== src/WordCodecs/Ewah/Target.antt =====
-- `set_le` of backends/codec_internal.hpp, with which `WordWriter::update_marker` of
-- backends/word_codecs.cpp writes a marker over the bytes left for it.
use bitmap_comp_framework.Prelude.{
  ℕ, ◌+◌, ◌*◌, ◌/◌, ◌%◌, ◌^◌, ◌≡◌, refl, ◌∙◌, ap, sym, true, List, [], ◌∷◌, ◌++◌, length, set, ltb,
  arith, ok, append_assoc, length-append,
}
use bitmap_comp_framework.Bits.{◌>>>◌}
use bitmap_comp_framework.Binary.RoundTrip.{le_bytes, shr_byte}
use bitmap_comp_framework.WordCodecs.Writer.{set_le}

-- The element behind a prefix is replaced.
set-behind :
    (before : List ℕ) (x : ℕ) (after : List ℕ) (y : ℕ)
    → set (before ++ (x ∷ after)) (length before) y ≡ before ++ (y ∷ after)
set-behind [] x after y = refl
set-behind (b ∷ before) x after y = ap (◌∷◌ b) (set-behind before x after y)

set_le-from :
    (before hole after : List ℕ) (pos value i : ℕ)
    → pos + i ≡ length before
    → set_le (before ++ (hole ++ after)) pos value i (length hole)
      ≡ ok (before ++ (le_bytes (length hole) (value >>> (8 * i)) ++ after))
unfolding set_le le_bytes
set_le-from before [] after pos value i at = refl
set_le-from before (x ∷ hole) after pos value i at =
    let byte = (value >>> (8 * i)) % 256 in
    let inside : ltb (length before) (length (before ++ (x ∷ (hole ++ after)))) ≡ true =
      ground (arith, length-append before (x ∷ (hole ++ after))) in
    let longer : pos + (i + 1) ≡ length (before ++ (byte ∷ [])) =
      omega (arith, at, length-append before (byte ∷ [])) in
    let shifted : value / 2 ^ (8 * i) / 256 ≡ value / 2 ^ (8 * (i + 1)) =
      let left : 8 * i ≡ i * 8 = omega arith in
      let right : 8 * (i + 1) ≡ (i + 1) * 8 = omega arith in rw (left, right) (shr_byte value i) in
    let more = set_le-from (before ++ (byte ∷ [])) hole after pos value (i + 1) longer in
    rw (at, inside, set-behind before x (hole ++ after) byte)
      (ap (λ t. set_le t pos value (i + 1) (length hole))
          (sym (append_assoc before (byte ∷ []) (hole ++ after)))
        ∙ more
        ∙ ap ok (
            append_assoc before (byte ∷ [])
              (le_bytes (length hole) (value >>> (8 * (i + 1))) ++ after))
        ∙ rw shifted)

-- Eight bytes behind a prefix are written over by the value.
pub set_le-le_bytes :
    (before hole after : List ℕ) (value : ℕ)
    → length hole ≡ 8
    → set_le (before ++ (hole ++ after)) (length before) value 0 8
      ≡ ok (before ++ (le_bytes 8 value ++ after))
set_le-le_bytes before hole after value eight =
    let whole : value / 1 ≡ value = omega arith in
    rw (eight, whole) at (set_le-from before hole after (length before) value 0 (omega arith))
