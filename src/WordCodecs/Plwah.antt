-- ===== src/WordCodecs/Plwah.antt =====
-- The fill words of PLWAH and what `WordWriter::append` of backends/word_codecs.cpp makes of them.
pub mod Laws
use bitmap_comp_framework.Prelude.{
  ℕ, zero, suc, ◌+◌, ◌-◌, ◌*◌, ◌/◌, ◌%◌, ◌^◌, ◌≤◌, ◌<◌, min, bit_and, bit_or, ◌≡◌, refl, ◌∙◌, ap,
  sym, ok, true, false, inl, inr, Bool, not, ◌&&◌, List, [], ◌∷◌, ◌++◌, replicate, arith, ◌==◌,
  Bool-cases, append-nil, append_assoc, if◌then◌else◌, ==→eq,
}
use Prim.Native.Nat.{bit_xor}
use mathlib.Core.Path.{subst}
use native.Mathlib.Nat.{mod-eq_of_lt}
use bitmap_comp_framework.Bits.{◌>>>◌, popcount64, ctz64}
use bitmap_comp_framework.Prelude.Masks.{bit_and_mask, bit_or_fields}
use bitmap_comp_framework.Prelude.Xor.{bit_or_gap}
use bitmap_comp_framework.Codecs.Aligned.{uniform-inv}
use bitmap_comp_framework.Wah.Builder.{replicate-add}
use bitmap_comp_framework.Binary.{low_mask}
use bitmap_comp_framework.Codecs.{plwah, same_codec, uniform}
use bitmap_comp_framework.Codecs.Groups.{low_mask_value, bit_and-low_mask}
use bitmap_comp_framework.Codecs.Operations.{width_for}
use bitmap_comp_framework.Codecs.Reads.{CodecLaws}
use bitmap_comp_framework.WordCodecs.Words.{word_coding}
use bitmap_comp_framework.WordCodecs.Read.{Is32}
use bitmap_comp_framework.WordCodecs.Cursor.{mask31, is_literal, exception_span}
use bitmap_comp_framework.WordCodecs.Writer.{
  WordWriter, count_mask, bit30, bit31, plwah_round, plwah_fill, plwah_literal, plwah_literals,
  append_plwah, append, new_writer,
}
use bitmap_comp_framework.WordCodecs.Fills.{
  IsCode, word_groups, fill_groups, base_of, head_of, fields, fields-counter, fill_counter_value,
  plwah_fill_word, bit30_at, exception_of, top_bits,
}
use bitmap_comp_framework.WordCodecs.Write.{
  Written, Round, joined, push32-Written, replace-Written, finish-IsEncoding, new_writer-Written,
  last-IsCode,
}

-- A fill word of PLWAH with a counter.
abbrev fill_of : Bool → ℕ → ℕ → ℕ
fill_of b p t = fields (2 + head_of b) p t

fill_of-lt : (b : Bool) (p t : ℕ) → p ≤ 31 → t < 2 ^ 25 → fill_of b p t < 2 ^ 32
fill_of-lt true p t hp ht = omega arith
fill_of-lt false p t hp ht = omega arith

fill_of-IsCode : (b : Bool) (p t : ℕ) → p ≤ 31 → 0 < t → t < 2 ^ 25 → IsCode plwah (fill_of b p t)
fill_of-IsCode b p t hp pos ht = record {
  fits = fill_of-lt b p t hp ht;
  counted = λ _ _. rw (fields-counter (2 + head_of b) p t hp ht) pos;
}

-- The groups of a fill word.
fill_of-groups :
    (b : Bool) (p t : ℕ)
    → p ≤ 31
    → t < 2 ^ 25
    → word_groups plwah (fill_of b p t)
      ≡ replicate t (base_of b)
        ++ (if p == 0 then [] else ((exception_span (base_of b) p).value ∷ []))
fill_of-groups b p t hp ht = plwah_fill_word p t hp ht b ∙ (unfold fill_groups same_codec in refl)

plain_groups :
    (b : Bool) (t : ℕ) → t < 2 ^ 25 → word_groups plwah (fill_of b 0 t) ≡ replicate t (base_of b)
plain_groups b t ht = fill_of-groups b 0 t (omega arith) ht ∙ append-nil (replicate t (base_of b))

literal-IsCode : (v : ℕ) → v < 2 ^ 31 → IsCode plwah v
literal-IsCode v low = record {
  fits = omega arith;
  counted = λ _ fill. unfold same_codec in absurd (ground arith);
}

literal_groups : (v : ℕ) → v < 2 ^ 31 → word_groups plwah v ≡ v ∷ []
unfolding word_groups same_codec
literal_groups v low =
    let high : v >>> 31 ≡ 0 = omega arith in
    let kept : bit_and v mask31 ≡ v = bit_and_mask 31 v ∙ omega arith in rw (high, kept)

-- `base` of the loop over a fill.
abbrev pub top_of : Bool → ℕ
top_of b = bit_or bit31 (if b then bit30 else 0)

top_of_value : (b : Bool) (t : ℕ) → t < 2 ^ 25 → bit_or (top_of b) t ≡ fill_of b 0 t
top_of_value true t ht = bit_or_fields 30 3 t (omega arith) ∙ omega arith
top_of_value false t ht = bit_or_fields 30 2 t (omega arith) ∙ omega arith

-- A word whose top bits are those of a fill without an exception.
same_top :
    (b : Bool) (w : ℕ)
    → w < 2 ^ 32
    → bit_and w (2 ^ 32 - 2 ^ 25) ≡ top_of b
    → w ≡ fill_of b 0 (w % 2 ^ 25)
same_top true w h e = omega (arith, top_bits w h)
same_top false w h e = omega (arith, top_bits w h)

module _ (n : ℕ) (w : WordWriter) (gs : List ℕ) (done : Written plwah n w gs) where
  pub plwah_round-Round :
      (b : Bool) (count : ℕ)
      → 0 < count
      → Round plwah n gs count (base_of b) (plwah_round (top_of b) count w)
  unfolding plwah_round
  plwah_round-Round b count pos =
      let add = min count (count_mask - bit_and w.last count_mask) in
      elim (Bool-cases
        ((w.have_word && (bit_and w.last (2 ^ 32 - 2 ^ 25) == top_of b)) && not (add == 0))) [
          | inl more ↦
              let is = last-IsCode plwah n w gs done (ground arith) in
              let at = same_top b w.last is.fits (ground arith) in
              let t = w.last % 2 ^ 25 in
              let room : t + add < 2 ^ 25 = omega (arith, bit_and_mask 25 w.last) in
              let after : (w.last + add) % 2 ^ 32 ≡ fill_of b 0 (t + add) =
                longer b w.last add at room in
              rw more (record {
                taken = add;
                some = ground arith;
                enough = omega arith;
                others = refl;
                written = rw after (
                    replace-Written plwah n w gs done (fill_of b 0 (t + add))
                      (replicate add (base_of b)) (ground arith)
                      (fill_of-IsCode b 0 (t + add) (omega arith) (ground arith) room)
                      (plain_groups b (t + add) room
                        ∙ replicate-add t add (base_of b)
                        ∙ ap (λ (l : List ℕ). l ++ replicate add (base_of b))
                            (sym (ap (word_groups plwah) at ∙ plain_groups b t (omega arith)))));
              })
          | inr new ↦
              let taken = min count count_mask in
              rw new (record {
                taken = taken;
                some = omega arith;
                enough = omega arith;
                others = refl;
                written = rw (top_of_value b taken (omega arith)) (
                    rw (plain_groups b taken (omega arith)) at (
                      push32-Written plwah n w gs done (fill_of b 0 taken)
                        (fill_of-IsCode b 0 taken (omega arith) (omega arith) (omega arith))));
              })
        ]
    where
      longer :
          (b : Bool) (last add : ℕ)
          → last ≡ fill_of b 0 (last % 2 ^ 25)
          → last % 2 ^ 25 + add < 2 ^ 25
          → (last + add) % 2 ^ 32 ≡ fill_of b 0 (last % 2 ^ 25 + add)
      longer true last add e room = omega arith
      longer false last add e room = omega arith

  -- A group that differs from the fill before it in one position is attached to it.
  attached :
      (b : Bool) (t v : ℕ)
      → w.have_word ≡ true
      → w.last ≡ fill_of b 0 t
      → 0 < t
      → t < 2 ^ 25
      → v < 2 ^ 31
      → popcount64 (bit_xor v (base_of b)) ≡ 1
      → Written plwah n
          (record w {
            last = bit_or w.last ((ctz64 (bit_xor v (base_of b)) + 1) * 2 ^ 25 % 2 ^ 32);
          })
          (gs ++ (v ∷ []))
  attached b t v more at pos ht low one =
      let (place, value) = exception_of b v low one in
      let p = ctz64 (bit_xor v (base_of b)) + 1 in
      rw (with_position p place) (
        replace-Written plwah n w gs done (fill_of b p t) (v ∷ []) more
          (fill_of-IsCode b p t place pos ht)
          (rw (at, plain_groups b t ht) (groups p v (omega arith) place value)))
    where
      with_position : (p : ℕ) → p ≤ 31 → bit_or w.last (p * 2 ^ 25 % 2 ^ 32) ≡ fill_of b p t
      with_position p hp =
          let whole : p * 2 ^ 25 % 2 ^ 32 ≡ p * 2 ^ 25 = omega arith in
          let start : w.last ≡ (2 + head_of b) * 2 ^ 30 + t = at ∙ omega arith in
          rw (whole, start) (bit_or_gap (2 + head_of b) t p 25 30 ht (omega arith))

      groups :
          (p v : ℕ)
          → 0 < p
          → p ≤ 31
          → (exception_span (base_of b) p).value ≡ v
          → word_groups plwah (fill_of b p t) ≡ replicate t (base_of b) ++ (v ∷ [])
      groups p v some hp e =
          let position : (p == 0) ≡ false = ground arith in
          fill_of-groups b p t hp ht ∙ rw (position, e)

  pub plwah_literal-Written :
      (v : ℕ) → v < 2 ^ 31 → Written plwah n (plwah_literal v w) (gs ++ (v ∷ []))
  unfolding plwah_literal
  plwah_literal-Written v low =
      let base = if bit_and w.last bit30 == 0 then 0 else mask31 in
      elim (Bool-cases (
        w.have_word
        && not (w.last >>> 31 == 0)
        && (bit_and (w.last >>> 25) 31 == 0)
        && (popcount64 (bit_xor v base) == 1))) [
          | inl more ↦
              let x = bit_and w.last bit30 == 0 in
              let held = last-IsCode plwah n w gs done (ground arith) in
              let one : popcount64 (bit_xor v base) ≡ 1 = ground arith in
              let differs : popcount64 (bit_xor v (base_of (not x))) ≡ 1 = rw (← as_base x) one in
              let at : w.last ≡ fill_of (not x) 0 (w.last % 2 ^ 25) =
                shape held.fits (ground arith) (ground arith) in
              let counted : 0 < w.last % 2 ^ 25 =
                rw (fill_counter_value w.last) at
                  (held.counted (unfold same_codec in refl) (fill w.last (ground arith))) in
              rw (more, as_base x)
                (attached (not x) (w.last % 2 ^ 25) v (ground arith) at counted (omega arith) low
                  differs)
          | inr new ↦ rw new (
              rw (literal_groups v low) at
                (push32-Written plwah n w gs done v (literal-IsCode v low)))
        ]
    where
      as_base : (x : Bool) → (if x then 0 else mask31) ≡ base_of (not x)
      as_base true = refl
      as_base false = refl

      fill : (last : ℕ) → (last >>> 31 == 0) ≡ false → is_literal plwah last ≡ false
      fill last h = unfold same_codec in h

      shape :
          w.last < 2 ^ 32
          → (w.last >>> 31 == 0) ≡ false
          → bit_and (w.last >>> 25) 31 ≡ 0
          → w.last ≡ fill_of (not (bit_and w.last bit30 == 0)) 0 (w.last % 2 ^ 25)
      shape fits high none = elim (Bool-cases (bit_and w.last bit30 == 0)) [
        | inl z ↦ rw z (ground (arith, bit30_at w.last, bit_and_mask 5 (w.last / 2 ^ 25)))
        | inr nz ↦ rw nz (ground (arith, bit30_at w.last, bit_and_mask 5 (w.last / 2 ^ 25)))
      ]
