-- ===== src/Backend/Query.antt =====
-- The query loops of the backends over any representation, and the answer that they are to give.
use bitmap_comp_framework.Prelude.{
  ℕ, zero, suc, ◌≤◌, ◌<◌, ◌^◌, ◌≡◌, refl, ap, sym, ◌≢◌, List, [], ◌∷◌, Bool, ok, get_or, length,
  All, arith,
}
use mathlib.Core.Path.{subst}
use bitmap_comp_framework.Bits.Raw.{IsRaw}
use bitmap_comp_framework.Bits.Combine.{combine_words, combine_words-IsRaw}
use bitmap_comp_framework.Archive.{validate_ids}
use bitmap_comp_framework.Archive.Inputs.{validate_ids-lt}
use bitmap_comp_framework.Backend.{Representation, query_loop, query}

-- AND or OR of the raw bitmaps at the given indices, from left to right.
unfoldable pub combine_ids : Bool → List (List ℕ) → List ℕ → List ℕ → List ℕ
combine_ids is_and raws acc [] = acc
combine_ids is_and raws acc (id ∷ ids) =
    combine_ids is_and raws (combine_words is_and acc (get_or raws id [])) ids

-- The answer that a query promises.
unfoldable pub answer : Bool → List (List ℕ) → List ℕ → List ℕ
answer is_and raws [] = []
answer is_and raws (id ∷ ids) = combine_ids is_and raws (get_or raws id []) ids

pub All-IsRaw_get :
    (n : ℕ) (raws : List (List ℕ)) (id : ℕ)
    → id < length raws
    → All (IsRaw n) raws
    → IsRaw n (get_or raws id [])
All-IsRaw_get n [] id h good = absurd (omega arith)
All-IsRaw_get n (x ∷ xs) zero h good = good.0
All-IsRaw_get n (x ∷ xs) (suc id) h good = All-IsRaw_get n xs id (omega arith) good.1

combine_ids-IsRaw :
    (n : ℕ) (is_and : Bool) (raws : List (List ℕ)) (acc : List ℕ) (ids : List ℕ)
    → All (IsRaw n) raws
    → IsRaw n acc
    → All (λ id. id < length raws) ids
    → IsRaw n (combine_ids is_and raws acc ids)
unfolding combine_ids
combine_ids-IsRaw n is_and raws acc [] good ga h = ga
combine_ids-IsRaw n is_and raws acc (id ∷ ids) good ga h =
    combine_ids-IsRaw n is_and raws (combine_words is_and acc (get_or raws id [])) ids good
      (combine_words-IsRaw is_and n acc (get_or raws id []) ga (All-IsRaw_get n raws id h.0 good))
      h.1

pub answer-IsRaw :
    (n : ℕ) (is_and : Bool) (raws : List (List ℕ)) (ids : List ℕ)
    → All (IsRaw n) raws
    → ids ≢ []
    → All (λ id. id < length raws) ids
    → IsRaw n (answer is_and raws ids)
unfolding answer
answer-IsRaw n is_and raws [] good ne h = absurd (ne refl)
answer-IsRaw n is_and raws (id ∷ ids) good ne h =
    combine_ids-IsRaw n is_and raws _ ids good (All-IsRaw_get n raws id h.0 good) h.1

module _ (R : Representation) (n : ℕ) (small : n ≤ 2 ^ 32) where
  open R use {Stored, missing, Represents, merge, merge_sound}

  -- The stored bitmaps stand for the raw ones, one by one.
  abbrev pub RepresentsAll : List Stored → List (List ℕ) → Type 0
  RepresentsAll [] [] = Unit
  RepresentsAll [] (xs ∷ raws) = ⊥
  RepresentsAll (a ∷ more) [] = ⊥
  RepresentsAll (a ∷ more) (xs ∷ raws) = Represents n a xs × RepresentsAll more raws

  RepresentsAll-get :
      (stored : List Stored) (raws : List (List ℕ)) (id : ℕ)
      → RepresentsAll stored raws
      → id < length raws
      → Represents n (get_or stored id missing) (get_or raws id [])
  RepresentsAll-get [] [] id r h = absurd (omega arith)
  RepresentsAll-get [] (xs ∷ raws) id r h = absurd r
  RepresentsAll-get (a ∷ more) [] id r h = absurd r
  RepresentsAll-get (a ∷ more) (xs ∷ raws) zero r h = r.0
  RepresentsAll-get (a ∷ more) (xs ∷ raws) (suc id) r h =
      RepresentsAll-get more raws id r.1 (omega arith)

  length-RepresentsAll :
      (stored : List Stored) (raws : List (List ℕ))
      → RepresentsAll stored raws
      → length stored ≡ length raws
  length-RepresentsAll [] [] r = refl
  length-RepresentsAll [] (xs ∷ raws) r = absurd r
  length-RepresentsAll (a ∷ more) [] r = absurd r
  length-RepresentsAll (a ∷ more) (xs ∷ raws) r = ap suc (length-RepresentsAll more raws r.1)

  module _ (is_and : Bool) (stored : List Stored) (raws : List (List ℕ))
      (r : RepresentsAll stored raws) (good : All (IsRaw n) raws) where
    query_loop-Represents :
        (acc : Stored) (xs : List ℕ) (ids : List ℕ)
        → Represents n acc xs
        → IsRaw n xs
        → All (λ id. id < length raws) ids
        → (c : Stored) × (query_loop missing (merge is_and) stored acc ids ≡ ok c)
          × Represents n c (combine_ids is_and raws xs ids)
    unfolding query_loop combine_ids
    query_loop-Represents acc xs [] ra gx h = (acc, refl, ra)
    query_loop-Represents acc xs (id ∷ ids) ra gx h =
        let ys = get_or raws id [] in
        let gy = All-IsRaw_get n raws id h.0 good in
        let (c, e, rc) =
          merge_sound n is_and acc (get_or stored id missing) xs ys small gx gy ra
            (RepresentsAll-get stored raws id r h.0) in
        let (d, e', rd) =
          query_loop-Represents c (combine_words is_and xs ys) ids rc
            (combine_words-IsRaw is_and n xs ys gx gy) h.1 in
        (d, rw e e', rd)

    -- With any representation whose merge is sound, a query on a nonempty list of valid indices into
    -- stored bitmaps that stand for raw ones succeeds, and its result stands for the AND or OR of the raw
    -- bitmaps named.
    pub query-Represents :
        (ids : List ℕ)
        → ids ≢ []
        → All (λ id. id < length raws) ids
        → (c : Stored) × (query missing (merge is_and) stored ids ≡ ok c)
          × Represents n c (answer is_and raws ids)
    unfolding query answer
    query-Represents [] ne h = absurd (ne refl)
    query-Represents (id ∷ ids) ne h =
        let same = length-RepresentsAll stored raws r in
        let valid : validate_ids (id ∷ ids) (length stored) ≡ ok tt =
          (validate_ids-lt (id ∷ ids) (length stored)).1
            (ne, subst (λ (t : ℕ). All (λ i. i < t) (id ∷ ids)) (sym same) h) in
        let (c, e, rc) =
          query_loop-Represents (get_or stored id missing) (get_or raws id []) ids
            (RepresentsAll-get stored raws id r h.0) (All-IsRaw_get n raws id h.0 good) h.1 in
        (c, rw valid e, rc)
