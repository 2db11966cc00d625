-- ===== src/RawBackend/Query.antt =====
-- The queries of backends/raw_backend.cpp against the raw bitmaps.
use bitmap_comp_framework.Prelude.{
  ℕ, zero, suc, ◌+◌, ◌^◌, ◌≤◌, ◌<◌, ◌≡◌, refl, ◌∙◌, ap, sym, ◌≢◌, Bool, true, false, List, [], ◌∷◌,
  length, get_or, set, replicate, All, arith, Outcome, ok, length-set, get_or-set_self,
  get_or-set_ne, get_or_ext, length-replicate, >>=-eq-ok,
}
use native.Mathlib.Decide.{ℕ_discrete}
use bitmap_comp_framework.Prelude.Masks.{zero-bit_or}
use bitmap_comp_framework.Bits.{words_for_bits, mask_tail}
use bitmap_comp_framework.Bits.Raw.{IsWord, IsRaw, mask_tail-IsRaw}
use bitmap_comp_framework.Bits.Combine.{
  combine, combine_zeros, combine_words, combine_words-IsRaw, length-zip_with, get_or-zip_with,
  zip_with,
}
use bitmap_comp_framework.Archive.{validate_inputs, validate_ids}
use bitmap_comp_framework.Archive.Inputs.{validate_inputs-IsRaw, validate_ids-lt}
use bitmap_comp_framework.Backend.Query.{combine_ids, answer, answer-IsRaw, All-IsRaw_get}
use bitmap_comp_framework.RawBackend.{
  RawBackend, RawResult, build, combine_each, combine_all, query_and, query_or,
}

module _ (is_and : Bool) (b : List ℕ) where
  length-combine_each :
      (n i : ℕ) (result : List ℕ) → length (combine_each is_and n i result b) ≡ length result
  unfolding combine_each
  length-combine_each zero i result = refl
  length-combine_each (suc n) i result =
      length-combine_each n (i + 1)
        (set result i (combine is_and (get_or result i 0) (get_or b i 0)))
      ∙ length-set result i _

  -- Indices below `i` keep their word.
  combine_each_before :
      (n i j : ℕ) (result : List ℕ)
      → j < i
      → get_or (combine_each is_and n i result b) j 0 ≡ get_or result j 0
  unfolding combine_each
  combine_each_before zero i j result h = refl
  combine_each_before (suc n) i j result h =
      combine_each_before n (i + 1) j
        (set result i (combine is_and (get_or result i 0) (get_or b i 0))) (omega arith)
      ∙ get_or-set_ne result i j _ 0 (λ e. omega arith)

  combine_each_within :
      (n i j : ℕ) (result : List ℕ)
      → i ≤ j
      → j < i + n
      → i + n ≤ length result
      → get_or (combine_each is_and n i result b) j 0
        ≡ combine is_and (get_or result j 0) (get_or b j 0)
  unfolding combine_each
  combine_each_within zero i j result lo hi fits = absurd (omega arith)
  combine_each_within (suc n) i j result lo hi fits =
      let v = combine is_and (get_or result i 0) (get_or b i 0) in
      elim (ℕ_discrete i j) [
        | yes same ↦
            combine_each_before n (i + 1) j (set result i v) (omega arith)
            ∙ ap (λ (t : ℕ). get_or (set result i v) t 0) (sym same)
            ∙ get_or-set_self result i v 0 (omega arith)
            ∙ ap (λ (t : ℕ). combine is_and (get_or result t 0) (get_or b t 0)) same
        | no ne ↦
            combine_each_within n (i + 1) j (set result i v) (omega arith) (omega arith)
              (omega (arith, length-set result i v))
            ∙ ap (λ (t : ℕ). combine is_and t (get_or b j 0)) (get_or-set_ne result i j v 0 ne)
      ]

  combine_each-combine_words :
      (result : List ℕ)
      → length result ≡ length b
      → combine_each is_and (length b) 0 result b ≡ combine_words is_and result b
  combine_each-combine_words result e =
      get_or_ext 0 _ _
        (length-combine_each (length b) 0 result
          ∙ sym (length-zip_with (combine is_and) result b e))
        λ j p.
          combine_each_within (length b) 0 j result (omega arith)
            (omega (arith, length-combine_each (length b) 0 result)) (omega arith)
          ∙ sym (get_or-zip_with (combine is_and) result b j e (combine_zeros is_and))

-- OR with a vector of zeros.
combine_words_zeros : (xs : List ℕ) → combine_words false (replicate (length xs) 0) xs ≡ xs
unfolding zip_with combine
combine_words_zeros [] = refl
combine_words_zeros (x ∷ xs) = rw (zero-bit_or x, combine_words_zeros xs)

module _ (w : RawBackend) (good : All (IsRaw w.num_bits) w.bitmaps)
    (sized : w.num_words ≡ words_for_bits w.num_bits) where
  combine_all-combine_ids :
      (is_and : Bool) (result : List ℕ) (ids : List ℕ)
      → IsRaw w.num_bits result
      → All (λ id. id < length w.bitmaps) ids
      → combine_all is_and w result ids ≡ combine_ids is_and w.bitmaps result ids
  unfolding combine_all combine_ids
  combine_all-combine_ids is_and result [] gr h = refl
  combine_all-combine_ids is_and result (id ∷ ids) gr h =
      let b = get_or w.bitmaps id [] in
      let gb = All-IsRaw_get w.num_bits w.bitmaps id h.0 good in
      let each : combine_each is_and w.num_words 0 result b ≡ combine_words is_and result b =
        ap (λ (t : ℕ). combine_each is_and t 0 result b) (sized ∙ sym gb.size)
        ∙ combine_each-combine_words is_and b result (gr.size ∙ sym gb.size) in
      rw each (
        combine_all-combine_ids is_and (combine_words is_and result b) ids
          (combine_words-IsRaw is_and w.num_bits result b gr gb) h.1)

  zeros-answer :
      (id : ℕ) (ids : List ℕ)
      → All (λ i. i < length w.bitmaps) (id ∷ ids)
      → combine_all false w (replicate w.num_words 0) (id ∷ ids) ≡ answer false w.bitmaps (id ∷ ids)
  unfolding combine_all answer
  zeros-answer id ids h =
      let b = get_or w.bitmaps id [] in
      let gb = All-IsRaw_get w.num_bits w.bitmaps id h.0 good in
      let each : combine_each false w.num_words 0 (replicate w.num_words 0) b ≡ b =
        ap (λ (t : ℕ). combine_each false t 0 (replicate t 0) b) (sized ∙ sym gb.size)
        ∙ combine_each-combine_words false b (replicate (length b) 0)
            (length-replicate (length b) 0)
        ∙ combine_words_zeros b in
      rw each (combine_all-combine_ids false b ids gb h.1)

-- What `build` accepts, and what it makes of it.
pub build_inv :
    (raws : List (List ℕ)) (n : ℕ) (w : RawBackend)
    → All (All IsWord) raws
    → build raws n ≡ ok w
    → (n ≤ 2 ^ 32)
      × All (IsRaw n) raws
      × (w ≡ record { bitmaps = raws; num_bits = n; num_words = words_for_bits n })
unfolding build
build_inv raws n w words h =
    let (_, valid, e) = >>=-eq-ok (validate_inputs raws n) _ h in
    let (small, good) = (validate_inputs-IsRaw raws n words).0 valid in (small, good, cc)

module _ (raws : List (List ℕ)) (n : ℕ) (small : n ≤ 2 ^ 32) (good : All (IsRaw n) raws) where
  abbrev pub made : RawBackend
  made = record { bitmaps = raws; num_bits = n; num_words = words_for_bits n }

  abbrev Answers : List ℕ → Type 0
  Answers ids =
      (query_and made ids ≡ ok (record { words = answer true raws ids }))
      × (query_or made ids ≡ ok (record { words = answer false raws ids }))

  made-Answers : (ids : List ℕ) → ids ≢ [] → All (λ id. id < length raws) ids → Answers ids
  unfolding query_and query_or combine_ids answer
  made-Answers [] ne h = absurd (ne refl)
  made-Answers (id ∷ ids) ne h =
      let valid : validate_ids (id ∷ ids) (length raws) ≡ ok tt =
        (validate_ids-lt (id ∷ ids) (length raws)).1 (ne, h) in
      let gb = All-IsRaw_get n raws id h.0 good in
      (
        rw (valid, combine_all-combine_ids made good refl true (get_or raws id []) ids gb h.1)
            (ap returned (clean true)),
        rw (valid, zeros-answer made good refl id ids h) (ap returned (clean false)),
      )
    where
      returned : List ℕ → Outcome RawResult
      returned ws = ok (record { words = ws })

      clean :
          (is_and : Bool)
          → mask_tail (answer is_and raws (id ∷ ids)) n ≡ answer is_and raws (id ∷ ids)
      clean is_and =
          mask_tail-IsRaw n (answer is_and raws (id ∷ ids)) small
            (answer-IsRaw n is_and raws (id ∷ ids) good ne h)

-- After a successful `build`, `query_and` and `query_or` on a nonempty list of valid indices return
-- the AND and the OR of the raw bitmaps named.
pub query-answer :
    (raws : List (List ℕ)) (n : ℕ) (w : RawBackend) (ids : List ℕ)
    → All (All IsWord) raws
    → build raws n ≡ ok w
    → ids ≢ []
    → All (λ id. id < length raws) ids
    → (query_and w ids ≡ ok (record { words = answer true raws ids }))
      × (query_or w ids ≡ ok (record { words = answer false raws ids }))
query-answer raws n w ids words built ne h =
    let (small, good, same) = build_inv raws n w words built in
    rw same (made-Answers raws n small good ids ne h)
