-- ===== src/Codecs/Aligned.antt =====
-- `AlignedCursor` of backends/codecs.cpp on the groups of its input.
use bitmap_comp_framework.Prelude.{
  ℕ, zero, suc, ◌+◌, ◌-◌, ◌*◌, ◌/◌, ◌%◌, ◌^◌, ◌≤◌, ◌<◌, min, ◌≡◌, refl, ◌∙◌, ap, sym, true, false,
  inl, inr, List, [], ◌++◌, length, replicate, take, arith, ok, ◌==◌, Bool-cases, length-append,
  length-replicate, take-replicate, ==→eq, append-nil,
}
use mathlib.Core.Path.{subst}
use bitmap_comp_framework.Binary.{low_mask}
use bitmap_comp_framework.Codecs.{Span, Fetch, got, Coding, uniform}
use bitmap_comp_framework.Codecs.Groups.{low_mask_value, bit_and-low_mask}
use bitmap_comp_framework.Codecs.Combining.{
  AlignedCursor, hand_out, next_piece, next_span, aligned_next, clip,
}
use bitmap_comp_framework.Codecs.Reads.{Reads, ends, reads, IsSpan, Reads-same}
use bitmap_comp_framework.Codecs.Split.{
  pieces, split, length-split, split-append, split-replicate, pieces-zero, pieces-ones, pieces-one,
}
use native.Mathlib.Nat.{mod-lt, mod-eq_of_lt, mul-le-mul_right, mul-div_cancel}
use bitmap_comp_framework.Prelude.Masks.{pow-pos}

uniform-low_mask : (w : ℕ) → uniform (low_mask w) w ≡ true
unfolding uniform
uniform-low_mask w = ground arith

pub uniform-inv : (v w : ℕ) → uniform v w ≡ true → (v == 0) ≡ false → v ≡ low_mask w
unfolding uniform
uniform-inv v w u nz = ground arith

module _ (K : Coding) (w k : ℕ) (wide : 0 < w) (pos : 0 < k) (narrow : k * w ≤ 64) where
  -- The cursor over a given input, with pieces of a literal pending and groups left to hand out.
  abbrev pub at_input : K.Cursor → ℕ → ℕ → ℕ → AlignedCursor K
  at_input c pending l x = record {
    input = c;
    native = k * w;
    width = w;
    pieces = pending;
    left_groups = l;
    piece = x;
  }

  narrow' : w ≤ 64
  narrow' = omega (arith, mul-le-mul_right w pos)

  abbrev PieceRead : AlignedCursor K → List ℕ → Type 0
  PieceRead = Reads (aligned_next K) w

  cut_short : (s : Span) (l : ℕ) → IsSpan w s → 0 < l → IsSpan w (clip s l)
  cut_short s l is more = record {
    some = omega (arith, is.some);
    fits = is.fits;
    single = λ e. omega (arith, is.single e);
  }

  finished : (c : K.Cursor) (pending x : ℕ) → PieceRead (at_input c pending 0 x) []
  unfolding aligned_next
  finished c pending x = ends (at_input c pending 0 x) refl refl

  -- A span that is handed out, followed by what the cursor reads from then on.
  handed :
      (a : AlignedCursor K) (c : K.Cursor) (s : Span) (pending l x : ℕ) (rest : List ℕ)
      → 0 < l
      → IsSpan w s
      → aligned_next K a ≡ ok (hand_out K (at_input c pending l x) s)
      → PieceRead (at_input c pending (l - min s.count l) x) (take (l - min s.count l) rest)
      → PieceRead a (take l (replicate s.count s.value ++ rest))
  unfolding hand_out
  handed a c s pending l x rest more is e r =
      reads (clip s l) (at_input c pending (l - min s.count l) x) (take (l - min s.count l) rest) e
        (cut_short s l is more) (take-replicate l s.count s.value rest) r

  -- The pieces of a literal, one by one.
  pieces-PieceRead :
      (p : ℕ) (c : K.Cursor) (x l : ℕ) (rest : List ℕ)
      → ((l' y : ℕ) → l' ≤ length rest → PieceRead (at_input c 0 l' y) (take l' rest))
      → l ≤ p + length rest
      → PieceRead (at_input c p l x) (take l (pieces w wide p x ++ rest))
  unfolding pieces
  pieces-PieceRead zero c x l rest h le = h l x (omega arith)
  pieces-PieceRead (suc p) c x zero rest h le = finished c (suc p) x
  pieces-PieceRead (suc p) c x (suc l) rest h le =
      handed (at_input c (suc p) (suc l) x) c one p (suc l) (x / 2 ^ w)
        (pieces w wide p (x / 2 ^ w) ++ rest) (omega arith) one-IsSpan step
        (rw left (pieces-PieceRead p c (x / 2 ^ w) l rest h (omega arith)))
    where
      one : Span
      one = record { value = x % 2 ^ w; count = 1 }

      one-IsSpan : IsSpan w one
      one-IsSpan = record { some = omega arith; fits = mod-lt x (pow-pos w); single = λ e. refl }

      step :
          aligned_next K (at_input c (suc p) (suc l) x)
          ≡ ok (hand_out K (at_input c p (suc l) (x / 2 ^ w)) one)
      step =
          let fewer : suc p - 1 ≡ p = omega arith in
          let some_left : (suc l == 0) ≡ false = ground arith in
          let pending : (suc p == 0) ≡ false = ground arith in
          unfold aligned_next next_piece in
          rw (some_left, pending, fewer, bit_and-low_mask w x narrow')

      left : suc l - min 1 (suc l) ≡ l
      left = omega arith

  -- One span of the input, followed by what the cursor makes of the rest.
  module _ (c c' : K.Cursor) (s : Span) (rest : List ℕ) (l y : ℕ) (e : K.next c ≡ ok (got s c'))
      (is : IsSpan (k * w) s) (room : s.count * k < 2 ^ 64) (more : 0 < l)
      (others : (l' y' : ℕ)
        → l' ≤ length rest
        → PieceRead (at_input c' 0 l' y') (take l' rest)) where
    -- The step where the span is read, from the branch of it.
    read_step :
        (f : Fetch (AlignedCursor K))
        → next_span K (at_input c' 0 l y) s ≡ ok f
        → aligned_next K (at_input c 0 l y) ≡ ok f
    unfolding aligned_next
    read_step f h = let some_left : (l == 0) ≡ false = ground arith in rw (some_left, e) h

    abbrev fill_span : ℕ → Span
    fill_span v = record { value = v; count = s.count * k }

    -- A span that is handed out whole, with `k` groups for each of its own.
    whole_span :
        (t : Span)
        → IsSpan w t
        → t.count ≡ s.count * k
        → next_span K (at_input c' 0 l y) s ≡ ok (hand_out K (at_input c' 0 l y) t)
        → l ≤ s.count * k + length rest
        → PieceRead (at_input c 0 l y) (take l (replicate t.count t.value ++ rest))
    whole_span t it counts step le =
        handed (at_input c 0 l y) c' t 0 l y rest more it
          (read_step (hand_out K (at_input c' 0 l y) t) step)
          (others (l - min t.count l) y (omega arith))

    abbrev span_pieces : List ℕ
    span_pieces = split w wide k (replicate s.count s.value)

    uniform_pieces :
        (v' : ℕ)
        → pieces w wide k s.value ≡ replicate k v'
        → span_pieces ≡ replicate (s.count * k) v'
    uniform_pieces v' h = split-replicate w wide k s.count s.value v' h

    unsplit :
        k ≡ 1
        → l ≤ s.count * k + length rest
        → PieceRead (at_input c 0 l y) (take l (span_pieces ++ rest))
    unsplit one le =
        let counts : s.count ≡ s.count * k = rw one (omega arith) in
        let width : k * w ≡ w = rw one (omega arith) in
        let it : IsSpan w s = subst (λ (t : ℕ). IsSpan t s) width is in
        let alike : pieces w wide k s.value ≡ replicate k s.value =
          rw one (pieces-one w wide s.value it.fits) in
        let same : span_pieces ≡ replicate s.count s.value =
          uniform_pieces s.value alike ∙ ap (λ (t : ℕ). replicate t s.value) (sym counts) in
        let native : (k * w == w) ≡ true = ground (arith, width) in
        rw same (whole_span s it counts (unfold next_span in rw native) le)

    cancel : k * w / w ≡ k
    cancel = mul-div_cancel k wide

    fits : s.count * k % 2 ^ 64 ≡ s.count * k
    fits = mod-eq_of_lt room

    differs : (k == 1) ≡ false → (k * w == w) ≡ false
    differs ne =
        let two : 2 ≤ k = ground arith in
        let larger : w < k * w = omega (arith, mul-le-mul_right w two) in ground arith

    ones_pieces : s.value ≡ low_mask (k * w) → pieces w wide k s.value ≡ replicate k (low_mask w)
    ones_pieces v =
        rw (v, low_mask_value (k * w) narrow, low_mask_value w narrow') (pieces-ones w wide k)

    repeated :
        (v' : ℕ)
        → pieces w wide k s.value ≡ replicate k v'
        → v' < 2 ^ w
        → uniform v' w ≡ true
        → next_span K (at_input c' 0 l y) s ≡ ok (hand_out K (at_input c' 0 l y) (fill_span v'))
        → l ≤ s.count * k + length rest
        → PieceRead (at_input c 0 l y) (take l (span_pieces ++ rest))
    repeated v' alike low u step le = rw (uniform_pieces v' alike) (
        whole_span (fill_span v')
          (record {
            some = omega (arith, is.some, mul-le-mul_right k is.some);
            fits = low;
            single = λ f. absurd (ground arith);
          })
          refl step le)

    filled :
        (k == 1) ≡ false
        → uniform s.value (k * w) ≡ true
        → l ≤ s.count * k + length rest
        → PieceRead (at_input c 0 l y) (take l (span_pieces ++ rest))
    filled ne u le = elim (Bool-cases (s.value == 0)) [
      | inl z ↦
          let zero : s.value ≡ 0 = ==→eq s.value 0 z in
          repeated 0 (rw zero (pieces-zero w wide k)) (pow-pos w) (unfold uniform in refl)
            (unfold next_span in rw (differs ne, u, z, cancel, fits)) le
      | inr nz ↦
          repeated (low_mask w) (ones_pieces (uniform-inv s.value (k * w) u nz))
            (rw (low_mask_value w narrow') (omega (arith, pow-pos w))) (uniform-low_mask w)
            (unfold next_span in rw (differs ne, u, nz, cancel, fits)) le
    ]

    literal :
        (k == 1) ≡ false
        → uniform s.value (k * w) ≡ false
        → l ≤ s.count * k + length rest
        → PieceRead (at_input c 0 l y) (take l (span_pieces ++ rest))
    literal ne u le =
        let one : s.count ≡ 1 = is.single u in
        let same : span_pieces ≡ pieces w wide k s.value =
          ap (λ (t : ℕ). split w wide k (replicate t s.value)) one
          ∙ (unfold split in append-nil (pieces w wide k s.value)) in
        rw same (
          Reads-same (aligned_next K) w (both_next one)
            (pieces-PieceRead k c' s.value l rest others (omega (arith, ap (◌*◌ k) one))))
      where
        both_next :
            s.count ≡ 1
            → aligned_next K (at_input c 0 l y) ≡ aligned_next K (at_input c' k l s.value)
        both_next one =
            let count : (s.count == 1) ≡ true = ground arith in
            let some_left : (l == 0) ≡ false = ground arith in
            let pending : (k == 0) ≡ false = ground arith in
            read_step (next_piece K (at_input c' k l s.value))
              (unfold next_span in rw (differs ne, u, count, cancel))
            ∙ sym (unfold aligned_next in rw (some_left, pending))

    span-PieceRead :
        l ≤ s.count * k + length rest → PieceRead (at_input c 0 l y) (take l (span_pieces ++ rest))
    span-PieceRead le = elim (Bool-cases (k == 1)) [
      | inl e ↦ unsplit (==→eq k 1 e) le
      | inr ne ↦ elim (Bool-cases (uniform s.value (k * w))) [
        | inl u ↦ filled ne u le
        | inr u ↦ literal ne u le
      ]
    ]

  -- `next` reads the groups of the input cut into pieces of `w` digits, as many as are asked for.
  pub aligned_next-Reads :
      {c : K.Cursor} {gs : List ℕ}
      → Reads K.next (k * w) c gs
      → (l y : ℕ) → l ≤ length (split w wide k gs)
      → length (split w wide k gs) < 2 ^ 64
      → PieceRead (at_input c 0 l y) (take l (split w wide k gs))
  aligned_next-Reads {c} h zero y le room = finished c 0 y
  aligned_next-Reads (ends c' e z) (suc l) y le room =
      absurd
        (omega (arith, ap (λ (t : List ℕ). length (split w wide k t)) z, length-split w wide k []))
  aligned_next-Reads {c} {gs} (reads s c' rest e is z r) (suc l) y le room =
      let cut : split w wide k gs
          ≡ split w wide k (replicate s.count s.value) ++ split w wide k rest =
        ap (split w wide k) z ∙ split-append w wide k (replicate s.count s.value) rest in
      let parts =
        ap length cut
        ∙ length-append (split w wide k (replicate s.count s.value)) (split w wide k rest) in
      let here =
        length-split w wide k (replicate s.count s.value)
        ∙ ap (◌*◌ k) (length-replicate s.count s.value) in
      rw cut (
        span-PieceRead c c' s (split w wide k rest) (suc l) y e is (omega arith) (omega arith)
          (λ l' y' le'. aligned_next-Reads r l' y' le' (omega arith)) (omega arith))
