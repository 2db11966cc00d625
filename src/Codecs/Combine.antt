-- ===== src/Codecs/Combine.antt =====
-- The loop of `combine_bitmaps` of backends/codecs.cpp on the groups of its operands.
use bitmap_comp_framework.Prelude.{
  ℕ, zero, suc, ◌+◌, ◌-◌, ◌^◌, ◌≤◌, ◌<◌, min, ◌≡◌, refl, ◌∙◌, ap, ap₂, sym, inl, inr, ◌⊎◌, Bool,
  List, [], ◌++◌, length, replicate, arith, Outcome, ok, ◌==◌, Bool-cases, length-append,
  length-replicate, append_assoc, append-nil, ==→eq,
}
use mathlib.Core.Path.{subst}
use bitmap_comp_framework.Bits.Combine.{combine, combine-lt, zip_with, zip_with-runs}
use bitmap_comp_framework.Wah.Builder.{replicate-add}
use bitmap_comp_framework.Codecs.{Codec, Span, Fetch, stop, got, Coding}
use bitmap_comp_framework.Codecs.Combining.{
  AlignedCursor, aligned_next, refill, rest_of, combine_loop,
}
use bitmap_comp_framework.Codecs.Reads.{Reads, ends, reads, CodecLaws}

-- The groups that a span and what follows it stand for.
abbrev pub view : Span → List ℕ → List ℕ
view s gs = replicate s.count s.value ++ gs

-- A part of a span leaves the rest of it.
view_rest :
    (K : Coding) (s : Span) (n : ℕ) (gs : List ℕ)
    → n ≤ s.count
    → view s gs ≡ replicate n s.value ++ view (rest_of K s n) gs
view_rest K s n gs le =
    let parts : s.count ≡ n + (s.count - n) = omega arith in
    ap (λ (t : ℕ). replicate t s.value ++ gs) parts
    ∙ rw (replicate-add n (s.count - n) s.value)
        (append_assoc (replicate n s.value) (replicate (s.count - n) s.value) gs)

length-view : (s : Span) (gs : List ℕ) → length (view s gs) ≡ s.count + length gs
length-view s gs = rw (length-append, length-replicate)

module _ {C : Type 0} (next_of : C → Outcome (Fetch C)) (width : ℕ) where
  -- What `refill` finds: nothing more, or a span with the groups that follow it.
  record Found (r : C) (s : Span) (gs : List ℕ) (t : Span) (r' : C) (rest : List ℕ) : Type 0 where
    some : 0 < t.count
    fits : t.value < 2 ^ width
    same : view s gs ≡ view t rest
    others : Reads next_of width r' rest

  refill-cases :
      (K : Coding) (s : Span) {r : C} {gs : List ℕ}
      → Reads next_of width r gs
      → s.value < 2 ^ width
      → ((r' : C) × (refill K next_of r s ≡ ok (stop r')) × (view s gs ≡ []))
        ⊎ ((t : Span) × (r' : C) × (rest : List ℕ) × (refill K next_of r s ≡ ok (got t r'))
            × Found r s gs t r' rest)
  unfolding refill
  refill-cases K s {r} {gs} h fits = elim (Bool-cases (s.count == 0)) [
    | inr more ↦
        inr
          (s, r, gs, rw more, record { some = ground arith; fits = fits; same = refl; others = h })
    | inl none ↦ fetched h (==→eq s.count 0 none) none
  ]
    where
      fetched :
          {r : C} {gs : List ℕ}
          → Reads next_of width r gs
          → s.count ≡ 0
          → (s.count == 0) ≡ Bool.true
          → ((r' : C) × (refill K next_of r s ≡ ok (stop r')) × (view s gs ≡ []))
            ⊎ ((t : Span) × (r' : C) × (rest : List ℕ) × (refill K next_of r s ≡ ok (got t r'))
                × Found r s gs t r' rest)
      fetched (ends r' e z) at none = inl (r', unfold refill in rw none e, rw (at, z))
      fetched (reads t r' rest e is z h) at none = inr (
        t,
        r',
        rest,
        unfold refill in rw none e,
        record { some = is.some; fits = is.fits; same = rw at z; others = h },
      )

module _ (K : Coding) (c : Codec) (width region : ℕ) (L : CodecLaws K c width region)
    (is_and : Bool) (n : ℕ) where
  abbrev both : List ℕ → List ℕ → List ℕ
  both = zip_with (combine is_and)

  -- A round: `taken` groups of both operands are combined.
  round :
      (s t : Span) (ga gb gs : List ℕ) (taken : ℕ)
      → taken ≤ s.count
      → taken ≤ t.count
      → (gs ++ replicate taken (combine is_and s.value t.value))
          ++ both (view (rest_of K s taken) ga) (view (rest_of K t taken) gb)
        ≡ gs ++ both (view s ga) (view t gb)
  round s t ga gb gs taken le_s le_t =
      append_assoc gs (replicate taken (combine is_and s.value t.value)) _
      ∙ ap (◌++◌ gs) (
          sym (
            ap₂ both (view_rest K s taken ga le_s) (view_rest K t taken gb le_t)
            ∙ zip_with-runs (combine is_and) taken s.value t.value _ _))

  pub combine_loop-Holds :
      (fuel : ℕ) (ra rb : AlignedCursor K) (sa sb : Span) (out : K.Writer) (ga gb gs : List ℕ)
      → Reads (aligned_next K) width ra ga
      → Reads (aligned_next K) width rb gb
      → sa.value < 2 ^ width
      → sb.value < 2 ^ width
      → length (view sa ga) ≡ length (view sb gb)
      → length (view sa ga) < fuel
      → length gs + length (view sa ga) ≤ 2 ^ 33
      → L.Holds n out gs
      → (w : K.Writer) × (combine_loop K is_and fuel ra rb sa sb out ≡ ok w)
        × L.Holds n w (gs ++ both (view sa ga) (view sb gb))
  unfolding combine_loop
  combine_loop-Holds zero ra rb sa sb out ga gb gs ha hb fa fb even enough room held =
      absurd (omega arith)
  combine_loop-Holds (suc fuel) ra rb sa sb out ga gb gs ha hb fa fb even enough room held =
      elim (refill-cases (aligned_next K) width K sa ha fa) [
        | inl (ra', stops, none) ↦
            let nothing : both (view sa ga) (view sb gb) ≡ [] = rw none (unfold zip_with in refl) in
            (out, rw stops, rw (nothing, append-nil gs) held)
        | inr (s, ra', ga', found_s, fs) ↦ elim (refill-cases (aligned_next K) width K sb hb fb) [
          | inl (rb', stops, none) ↦
              absurd (omega (arith, fs.some, ap length fs.same, ap length none, length-view s ga'))
          | inr (t, rb', gb', found_t, ft) ↦
              let taken = min s.count t.count in
              let v = combine is_and s.value t.value in
              let la = ap length fs.same ∙ length-view s ga' in
              let lb = ap length ft.same ∙ length-view t gb' in
              let la' = length-view (rest_of K s taken) ga' in
              let lb' = length-view (rest_of K t taken) gb' in
              let (out', appended, held') =
                L.append-Holds n out gs v taken held
                  (combine-lt is_and width s.value t.value fs.fits ft.fits)
                  (omega (arith, fs.some, ft.some)) (omega (arith, la)) in
              let (w, runs, all) =
                combine_loop-Holds fuel ra' rb' (rest_of K s taken) (rest_of K t taken) out' ga' gb'
                  (gs ++ replicate taken v) fs.others ft.others fs.fits ft.fits
                  (omega (arith, la, lb, la', lb')) (omega (arith, la, la', fs.some, ft.some))
                  (omega (
                    arith,
                    la,
                    la',
                    length-append gs (replicate taken v),
                    length-replicate taken v,
                  ))
                  held' in
              let whole =
                ap₂ (λ (x y : List ℕ). gs ++ both x y) fs.same ft.same
                ∙ sym (round s t ga' gb' gs taken (omega arith) (omega arith)) in
              (w, rw (found_s, found_t, appended) runs, subst (L.Holds n w) (sym whole) all)
        ]
      ]
