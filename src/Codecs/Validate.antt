-- ===== src/Codecs/Validate.antt =====
-- `validate` and `load_encoding` of backends/codecs.cpp on encodings that stand for raw bitmaps.
use bitmap_comp_framework.Prelude.{
  ℕ, zero, suc, ◌+◌, ◌-◌, ◌*◌, ◌/◌, ◌%◌, ◌^◌, ◌≤◌, ◌<◌, bit_and, ◌≡◌, refl, ◌∙◌, ap, ap₂, sym,
  All-get_or, true, false, inl, inr, not, ◌&&◌, List, [], ◌∷◌, ◌++◌, length, get_or, replicate,
  arith, ok, ◌==◌, leb, Bool-cases, append-nil, length-append, length-replicate,
  get_or-append_right, eq→==, lt_or_ge,
}
use native.Mathlib.Nat.{
  mod-eq_of_lt, div-add-mod', div-eq_of_lt, add-mul-div_right, add-mul-mod_self_right,
}
use bitmap_comp_framework.Prelude.Digits.{bit, bit-lt_pow, lt_of_bits}
use bitmap_comp_framework.Prelude.Masks.{pow-pos, pow-add, bit_and_field}
use bitmap_comp_framework.Codecs.Split.{less_one}
use bitmap_comp_framework.Bits.{◌>>>◌}
use bitmap_comp_framework.Bits.Raw.{IsRaw}
use bitmap_comp_framework.Binary.{low_mask}
use bitmap_comp_framework.Codecs.{Codec, Encoding, Span, Coding, group_count}
use bitmap_comp_framework.Codecs.Groups.{low_mask_value}
use bitmap_comp_framework.Codecs.Operations.{check_span, validate_loop, validate, load_encoding}
use bitmap_comp_framework.Codecs.Reads.{Reads, ends, reads, IsSpan, Reads-IsGroup}
use bitmap_comp_framework.Codecs.Decode.{group_bit}
use bitmap_comp_framework.Codecs.Encode.{Stands}

-- `value & ~low_mask(width)`
beyond_mask : (w v : ℕ) → w ≤ 64 → v < 2 ^ w → bit_and v (2 ^ 64 - 1 - low_mask w) ≡ 0
beyond_mask w v h fits =
    let whole : 2 ^ 64 ≡ 2 ^ (64 - w) * 2 ^ w = pow-add (64 - w) w 64 (omega arith) in
    let field : 2 ^ 64 - 1 - low_mask w ≡ (2 ^ (64 - w) - 1) * 2 ^ w = omega (
      arith,
      low_mask_value w h,
      whole,
      pow-pos w,
      less_one (2 ^ (64 - w)) (2 ^ w) (pow-pos (64 - w)) (pow-pos w),
    ) in
    let none : v / 2 ^ w ≡ 0 = div-eq_of_lt fits in
    let zero : 0 % 2 ^ (64 - w) ≡ 0 = mod-eq_of_lt (pow-pos (64 - w)) in
    ap (bit_and v) field ∙ bit_and_field (64 - w) w v ∙ rw (none, zero) (omega arith)

last_group : List ℕ → ℕ
last_group gs = get_or gs (length gs - 1) 0

last_group-one : (n v : ℕ) → 0 < n → last_group (replicate n v) ≡ v
unfolding last_group
last_group-one n v pos = rw length-replicate (get_or-in n (n - 1) v (omega arith))
  where
    get_or-in : (n i v : ℕ) → i < n → get_or (replicate n v) i 0 ≡ v
    get_or-in zero i v h = elim h [ ]
    get_or-in (suc n) zero v h = refl
    get_or-in (suc n) (suc i) v h = get_or-in n i v (omega arith)

last_group-append : (xs ys : List ℕ) → 0 < length ys → last_group (xs ++ ys) ≡ last_group ys
unfolding last_group
last_group-append xs ys pos =
    let at : length (xs ++ ys) - 1 ≡ length xs + (length ys - 1) =
      omega (arith, length-append xs ys) in
    rw at (get_or-append_right xs ys (length ys - 1) 0)

module _ (K : Coding) (e : Encoding) (narrow : e.width ≤ 64) (groups : ℕ) where
  -- The digits of the last group that lie past the end of the universe are 0.
  abbrev Padded : List ℕ → Type 0
  Padded gs =
      (e.num_bits % e.width == 0) ≡ false
      → 0 < length gs
      → last_group gs < 2 ^ (e.num_bits % e.width)

  check_span-accepts :
      (seen : ℕ) (s : Span) (rest : List ℕ)
      → IsSpan e.width s
      → seen + (s.count + length rest) ≡ groups
      → Padded (replicate s.count s.value ++ rest)
      → check_span K e groups seen s ≡ ok (seen + s.count)
  unfolding check_span
  check_span-accepts seen s rest is total padded =
      let counted : (not (s.count == 0) && leb s.count (groups - seen)) ≡ true =
        ground (arith, is.some) in
      let masked = beyond_mask e.width s.value narrow is.fits in
      let tail : not (
            (seen + s.count == groups)
            && not (e.num_bits % e.width == 0)
            && not (s.value >>> (e.num_bits % e.width) == 0))
          ≡ true =
        elim (Bool-cases (seen + s.count == groups)) [
          | inr inner ↦ rw inner
          | inl last ↦ elim (Bool-cases (e.num_bits % e.width == 0)) [
            | inl whole ↦ rw (last, whole)
            | inr odd ↦ let shifted = at_end odd (ground arith) in rw (last, odd, shifted)
          ]
        ] in
      rw (counted, masked, tail)
    where
      empty : (l : List ℕ) → length l ≡ 0 → l ≡ []
      empty [] h = refl
      empty (x ∷ l) h = absurd (omega arith)

      at_end :
          (e.num_bits % e.width == 0) ≡ false
          → length rest ≡ 0
          → s.value >>> (e.num_bits % e.width) ≡ 0
      at_end odd none =
          let run : replicate s.count s.value ++ rest ≡ replicate s.count s.value =
            ap (◌++◌ (replicate s.count s.value)) (empty rest none)
            ∙ append-nil (replicate s.count s.value) in
          let low = padded odd (
            omega (
              arith,
              is.some,
              length-append (replicate s.count s.value) rest,
              length-replicate s.count s.value,
            )) in
          div-eq_of_lt (rw (run, last_group-one s.count s.value is.some) at low)

  validate_loop-accepts :
      (fuel seen : ℕ) {c : K.Cursor} {gs : List ℕ}
      → Reads K.next e.width c gs
      → K.IsCursor c
      → K.left c < fuel
      → seen + length gs ≡ groups
      → Padded gs
      → validate_loop K e groups fuel c seen ≡ ok groups
  unfolding validate_loop
  validate_loop-accepts zero seen r ic enough total padded = absurd (omega arith)
  validate_loop-accepts (suc fuel) seen (ends c' run z) ic enough total padded =
      let none = ap (length {A = ℕ}) z in
      let all : seen ≡ groups = omega arith in rw run (ap ok all)
  validate_loop-accepts (suc fuel) seen {c} {gs} (reads s c' rest run is z r) ic enough total
        padded =
      let long : length gs ≡ s.count + length rest =
        ap length z
        ∙ length-append (replicate s.count s.value) rest
        ∙ ap (λ (t : ℕ). t + length rest) (length-replicate s.count s.value) in
      let (ic', less) = K.next-IsCursor c s c' ic run in
      let padded' : Padded (replicate s.count s.value ++ rest) = rw z at padded in
      rw (run, check_span-accepts seen s rest is (omega arith) padded')
        (validate_loop-accepts fuel (seen + s.count) r ic' (omega arith) (omega arith) λ odd pos.
          rw (last_group-append (replicate s.count s.value) rest pos) at
            (padded' odd (omega (arith, length-append (replicate s.count s.value) rest))))

module _ (K : Coding) (c : Codec) (width n : ℕ) (wide : 0 < width) (narrow : width ≤ 64)
    (small : n ≤ 2 ^ 32) (e : Encoding) (raw : List ℕ) (good : IsRaw n raw)
    (stands : Stands K c width n e raw) where
  group_lt : (i : ℕ) → get_or stands.groups i 0 < 2 ^ width
  group_lt i =
      All-get_or (λ v. v < 2 ^ width) stands.groups i 0
        (Reads-IsGroup K.next width stands.encoding.contents) (pow-pos width)

  last-lt : (n % width == 0) ≡ false → last_group stands.groups < 2 ^ (n % width)
  unfolding group_count last_group
  last-lt odd =
      let last : length stands.groups - 1 ≡ n / width =
        ground (arith, stands.encoding.group_total) in
      rw last (
        lt_of_bits (n % width) (get_or stands.groups (n / width) 0) λ i p. elim (lt_or_ge i width) [
          | inr past ↦
              bit-lt_pow width (get_or stands.groups (n / width) 0) i (group_lt (n / width)) past
          | inl inside ↦ digit i p inside
        ])
    where
      digit : (i : ℕ) → n % width ≤ i → i < width → bit (get_or stands.groups (n / width) 0) i ≡ 0
      digit i p inside =
          let b = n / width * width + i in
          let group : b / width ≡ n / width =
            ap (λ (t : ℕ). t / width) (omega arith)
            ∙ add-mul-div_right i (n / width) wide
            ∙ omega (arith, div-eq_of_lt inside) in
          let place : b % width ≡ i =
            ap (λ (t : ℕ). t % width) (omega arith)
            ∙ add-mul-mod_self_right i (n / width) width
            ∙ mod-eq_of_lt inside in
          let read : group_bit width stands.groups b ≡ bit (get_or stands.groups (n / width) 0) i =
            unfold group_bit in rw (group, place) in
          sym read ∙ stands.bits b ∙ good.padding b (omega (arith, div-add-mod' n width))

  narrow_e : e.width ≤ 64
  narrow_e = rw stands.encoding.width_is narrow

  padding : Padded K e narrow_e (group_count n width) stands.groups
  padding = rw (stands.encoding.width_is, stands.encoding.bits_is) (λ odd some. last-lt odd)

  validate-Stands : validate K e ≡ ok tt
  unfolding validate
  validate-Stands =
      let enc = stands.encoding in
      let total : group_count e.num_bits e.width ≡ group_count n width =
        ap₂ group_count enc.bits_is enc.width_is in
      let contents : Reads K.next e.width enc.start stands.groups = rw enc.width_is enc.contents in
      let run =
        validate_loop-accepts K e narrow_e (group_count n width) (suc (K.left enc.start)) 0 contents
          (K.cursor-IsCursor e enc.start enc.opened) (omega arith) (omega (arith, enc.group_total))
          padding in
      let same : (group_count n width == group_count n width) ≡ true = eq→== _ _ refl in
      rw (enc.opened, total, run, same)

  -- `load_encoding` takes the payload of an encoding that stands for a raw bitmap, and gives the
  -- encoding back.
  pub load_encoding-Stands : load_encoding K c n e.bytes ≡ ok e
  unfolding load_encoding
  load_encoding-Stands =
      let enc = stands.encoding in
      let fits : leb n (2 ^ 32) ≡ true = ground arith in
      let again = rebuilt e c n width enc.codec_is enc.bits_is enc.width_is in
      rw (fits, enc.width_stored, enc.groups_stored, again, validate-Stands)
    where
      rebuilt :
          (e : Encoding) (c : Codec) (n width : ℕ)
          → e.codec ≡ c
          → e.num_bits ≡ n
          → e.width ≡ width
          → record {
            codec = c;
            num_bits = n;
            width = width;
            sbh_groups = e.sbh_groups;
            bytes = e.bytes;
          }
            ≡ e
      rebuilt e c n width p q r = rw (← p, ← q, ← r)
