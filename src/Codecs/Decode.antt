-- ===== src/Codecs/Decode.antt =====
-- `decode_bitmap` of backends/codecs.cpp, position by position.
use bitmap_comp_framework.Prelude.{
  ℕ, zero, suc, ◌+◌, ◌-◌, ◌*◌, ◌/◌, ◌%◌, ◌^◌, ◌≤◌, ◌<◌, max, ◌≡◌, refl, ◌∙◌, ap, inl, inr, List, [],
  ◌++◌, length, get_or, replicate, All, arith, length-replicate, ◌==◌, Bool-cases, if◌then◌else◌,
  ==→eq, get_or-replicate, All-replicate, ok, length-append,
}
use bitmap_comp_framework.Prelude.Digits.{bit, bit-zero}
use bitmap_comp_framework.Bits.{words_for_bits}
use bitmap_comp_framework.Bits.Raw.{
  bit_at, IsWord, IsRaw, length-mask_tail, mask_tail-IsWord, bit_at-mask_tail_low,
  bit_at-mask_tail_high,
}
use bitmap_comp_framework.Bits.Paint.{painted, painted-append, painted-get_or}
use bitmap_comp_framework.Codecs.{Codec, Encoding, Span, Coding, write_group}
use bitmap_comp_framework.Codecs.Groups.{
  group_count-le, bit_at-write_group, length-write_group, write_group-IsWord,
}
use bitmap_comp_framework.Codecs.Operations.{write_span, decode_loop, decode_bitmap}
use bitmap_comp_framework.Codecs.Reads.{Reads, ends, reads, IsEncoding, Reads-IsGroup}
use native.Mathlib.Nat.{mod-lt, mod-eq_of_lt, div-add-mod', mul-le-mul_left}
use bitmap_comp_framework.Bits

-- What a loop that writes groups does to the bitmap.
pub record Paints (width : ℕ) (gs : List ℕ) (g : ℕ) (raw out : List ℕ) : Type 0 where
  pub same_length : length out ≡ length raw
  pub words : All IsWord out
  pub bits :
      (b : ℕ) → b < 64 * length raw → bit_at out b ≡ max (bit_at raw b) (painted width gs g b)

module _ (width : ℕ) (narrow : width ≤ 64) where
  -- The start of a group does not wrap.
  start-lt : (g : ℕ) → g < 2 ^ 58 → g * width < 2 ^ 64
  start-lt g h = omega (arith, mul-le-mul_left g narrow)

  write_span-Paints :
      (n g value : ℕ) (raw : List ℕ)
      → g + n ≤ 2 ^ 58
      → value < 2 ^ width
      → All IsWord raw
      → Paints width (replicate n value) g raw (write_span width n g value raw)
  unfolding write_span painted
  write_span-Paints zero g value raw room v h = record {
    same_length = refl;
    words = h;
    bits = λ b p. omega arith;
  }
  write_span-Paints (suc n) g value raw room v h =
      let start : g * width % 2 ^ 64 ≡ g * width = mod-eq_of_lt (start-lt g (omega arith)) in
      let more : (g + 1) % 2 ^ 64 ≡ g + 1 = omega arith in
      let raw' = write_group raw (g * width) width value in
      let longer = length-write_group width narrow raw (g * width) value in
      let rest =
        write_span-Paints n (g + 1) value raw' (omega arith) v
          (write_group-IsWord width narrow raw (g * width) value h v) in
      rw (start, more)
        (record {
          same_length = rest.same_length ∙ longer;
          words = rest.words;
          bits = λ b p. omega (
            arith,
            rest.bits b (rw longer p),
            bit_at-write_group width narrow raw (g * width) value b h v p,
          );
        })

  -- A run of zeros is skipped, and paints nothing.
  painted_zeros : (n g b : ℕ) → painted width (replicate n 0) g b ≡ 0
  unfolding painted
  painted_zeros zero g b = refl
  painted_zeros (suc n) g b = ground (arith, bit-zero (b - g * width), painted_zeros n (g + 1) b)

  span-Paints :
      (s : Span) (g : ℕ) (raw : List ℕ)
      → g + s.count ≤ 2 ^ 58
      → s.value < 2 ^ width
      → All IsWord raw
      → Paints width
          (replicate s.count s.value)
          g
          raw
          (if s.value == 0 then raw else write_span width s.count g s.value raw)
  span-Paints s g raw room fits h = elim (Bool-cases (s.value == 0)) [
    | inl z ↦ rw z (record {
      same_length = refl;
      words = h;
      bits = λ b p.
          let zeros : painted width (replicate s.count s.value) g b ≡ 0 =
            ap (λ (t : ℕ). painted width (replicate s.count t) g b) (==→eq s.value 0 z)
            ∙ painted_zeros s.count g b in
          omega (arith, zeros);
    })
    | inr nz ↦ rw nz (write_span-Paints s.count g s.value raw room fits h)
  ]

  Paints-append :
      (xs ys : List ℕ) (g : ℕ) (raw mid out : List ℕ)
      → Paints width xs g raw mid
      → Paints width ys (g + length xs) mid out
      → Paints width (xs ++ ys) g raw out
  Paints-append xs ys g raw mid out p q = record {
    same_length = q.same_length ∙ p.same_length;
    words = q.words;
    bits = λ b h.
        omega (arith, q.bits b (rw p.same_length h), p.bits b h, painted-append width xs ys g b);
  }

  Paints-nothing : (g : ℕ) (raw : List ℕ) → All IsWord raw → Paints width [] g raw raw
  unfolding painted
  Paints-nothing g raw h = record { same_length = refl; words = h; bits = λ b p. omega arith }

  module _ (K : Coding) where
    decode_loop-Paints :
        (fuel g : ℕ) (raw : List ℕ) {c : K.Cursor} {gs : List ℕ}
        → Reads K.next width c gs
        → K.IsCursor c
        → K.left c < fuel
        → g + length gs ≤ 2 ^ 58
        → All IsWord raw
        → (out : List ℕ) × (decode_loop K width fuel c g raw ≡ ok out) × Paints width gs g raw out
    unfolding decode_loop
    decode_loop-Paints zero g raw r ic enough room h = absurd (omega arith)
    decode_loop-Paints (suc fuel) g raw (ends c' e z) ic enough room h =
        (raw, rw e, rw z (Paints-nothing g raw h))
    decode_loop-Paints (suc fuel) g raw {c} {gs} (reads s c' rest e is z r) ic enough room h =
        let raw' = if s.value == 0 then raw else write_span width s.count g s.value raw in
        let size : s.count + length rest ≡ length gs = omega (
          arith,
          ap length z,
          length-append (replicate s.count s.value) rest,
          length-replicate s.count s.value,
        ) in
        let more : (g + s.count) % 2 ^ 64 ≡ g + s.count = omega arith in
        let here = span-Paints s g raw (omega arith) is.fits h in
        let (ic', less) = K.next-IsCursor c s c' ic e in
        let (out, runs, there) =
          decode_loop-Paints fuel (g + s.count) raw' r ic' (omega arith) (omega arith) here.words in
        let at : g + length (replicate s.count s.value) ≡ g + s.count =
          ap (λ (t : ℕ). g + t) (length-replicate s.count s.value) in
        (
          out,
          rw e (ap (λ (t : ℕ). decode_loop K width fuel c' t raw') more ∙ runs),
          rw z (Paints-append (replicate s.count s.value) rest g raw raw' out here (rw at there)),
        )

bit_at_zeros : (n b : ℕ) → bit_at (replicate n 0) b ≡ 0
unfolding bit_at
bit_at_zeros n b = rw get_or-replicate (bit-zero (b % 64))

-- Position `b` of the bitmap that groups stand for.
unfoldable pub group_bit : ℕ → List ℕ → ℕ → ℕ
group_bit width gs b = bit (get_or gs (b / width) 0) (b % width)

-- What the groups of a well-formed encoding decode to: a raw bitmap whose positions are those of the
-- groups.
pub record Decodes (width n : ℕ) (gs raw : List ℕ) : Type 0 where
  pub raw_shape : IsRaw n raw
  pub bits : (b : ℕ) → b < n → bit_at raw b ≡ group_bit width gs b

module _ (K : Coding) (c : Codec) (width n : ℕ) (wide : 0 < width) (narrow : width ≤ 64)
    (small : n ≤ 2 ^ 32) (e : Encoding) (gs : List ℕ) (good : IsEncoding K c width n e gs) where
  abbrev zeros : List ℕ
  zeros = replicate (words_for_bits n) 0

  pub decode_bitmap-Decodes : (raw : List ℕ) × (decode_bitmap K e ≡ ok raw) × Decodes width n gs raw
  unfolding decode_bitmap
  decode_bitmap-Decodes =
      let (out, runs, paints) =
        decode_loop-Paints width narrow K (suc (K.left good.start)) 0 zeros good.contents
          (K.cursor-IsCursor e good.start good.opened) (omega arith)
          (omega (arith, good.group_total, group_count-le n width wide))
          (All-replicate IsWord (words_for_bits n) 0 (omega arith)) in
      let size = paints.same_length ∙ length-replicate (words_for_bits n) 0 in
      (
        Bits.mask_tail out n,
        rw (good.opened, good.width_is, good.bits_is, runs),
        record {
          raw_shape = record {
            size = length-mask_tail out n ∙ size;
            words = mask_tail-IsWord out n paints.words;
            padding = λ b h. bit_at-mask_tail_high n out small size b h;
          };
          bits = λ b h.
              bit_at-mask_tail_low n out small size b h
              ∙ omega (
                arith,
                paints.bits b (rw length-replicate (inside b h)),
                bit_at_zeros (words_for_bits n) b,
                read_off b,
              );
        },
      )
    where
      inside : (b : ℕ) → b < n → b < 64 * words_for_bits n
      inside b h = unfold words_for_bits in omega arith

      read_off : (b : ℕ) → painted width gs 0 b ≡ group_bit width gs b
      read_off b =
          unfold group_bit in
          painted-get_or width gs 0 (b / width) (b % width) b
            (Reads-IsGroup K.next width good.contents) (mod-lt b wide)
            (omega (arith, div-add-mod' b width))
