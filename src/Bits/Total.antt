-- ===== src/Bits/Total.antt =====
-- Sums over positions, and the digits 1 of a bitmap cut into groups of any width.
use bitmap_comp_framework.Prelude.{
  ℕ, zero, suc, ◌+◌, ◌-◌, ◌*◌, ◌/◌, ◌%◌, ◌^◌, ◌≤◌, ◌<◌, ◌≡◌, refl, ◌∙◌, ap, ap₂, sym, List, [], ◌∷◌,
  ◌++◌, length, get_or, arith, replicate,
}
use bitmap_comp_framework.Prelude.Digits.{bit}
use bitmap_comp_framework.Bits.{words_for_bits, cardinality}
use bitmap_comp_framework.Bits.Count.{ones, ones_in, cardinality-ones}
use bitmap_comp_framework.Bits.Raw.{bit_at, IsRaw}
use native.Mathlib.Nat.{pow-suc, add-div_left, add-mod_left, div-eq_of_lt, mod-eq_of_lt}

-- f 0 + … + f (n - 1)
unfoldable pub total : ℕ → (ℕ → ℕ) → ℕ
total zero f = 0
total (suc n) f = f 0 + total n (λ i. f (suc i))

pub total_ext : (n : ℕ) (f g : ℕ → ℕ) → ((i : ℕ) → i < n → f i ≡ g i) → total n f ≡ total n g
unfolding total
total_ext zero f g h = refl
total_ext (suc n) f g h =
    ap₂ ◌+◌ (h 0 (omega arith)) (total_ext n _ _ (λ i p. h (suc i) (omega arith)))

pub total-add :
    (m n k : ℕ) (f : ℕ → ℕ) → k ≡ m + n → total k f ≡ total m f + total n (λ i. f (m + i))
unfolding total
total-add zero n k f e =
    let same : k ≡ n = omega arith in
    rw same (total_ext n f (λ i. f (0 + i)) (λ i p. ap f (omega arith)) ∙ omega arith)
total-add (suc m) n zero f e = absurd (omega arith)
total-add (suc m) n (suc k) f e =
    let shift : total n (λ i. f (suc (m + i))) ≡ total n (λ i. f (suc m + i)) =
      total_ext n _ _ (λ i p. ap f (omega arith)) in
    omega (arith, total-add m n k (λ i. f (suc i)) (omega arith), shift)

pub total-le : (n : ℕ) (f : ℕ → ℕ) → ((i : ℕ) → f i ≤ 1) → total n f ≤ n
unfolding total
total-le zero f h = omega arith
total-le (suc n) f h = omega (arith, h 0, total-le n (λ i. f (suc i)) (λ i. h (suc i)))

pub total_zeros : (n : ℕ) (f : ℕ → ℕ) → ((i : ℕ) → i < n → f i ≡ 0) → total n f ≡ 0
unfolding total
total_zeros zero f h = refl
total_zeros (suc n) f h =
    omega
      (arith, h 0 (omega arith), total_zeros n (λ i. f (suc i)) (λ i p. h (suc i) (omega arith)))

pub ones-total : (k w : ℕ) → ones k w ≡ total k (bit w)
unfolding ones total bit
ones-total zero w = refl
ones-total (suc k) w = omega (arith, ones-total k (w / 2))

-- A value below 2 ^ k has no digit 1 from `k` on.
pub ones_small : (k w : ℕ) → w < 2 ^ k → ones (suc k) w ≡ ones k w
unfolding ones
ones_small zero w h = let none_left : w ≡ 0 = omega arith in rw none_left
ones_small (suc k) w h = omega (arith, ones_small k (w / 2) (omega (arith, pow-suc 2 k)))

module _ (width : ℕ) (pos : 0 < width) where
  unfoldable pub group_ones : List ℕ → ℕ
  group_ones [] = 0
  group_ones (v ∷ gs) = ones width v + group_ones gs

  pub group_ones-append : (xs ys : List ℕ) → group_ones (xs ++ ys) ≡ group_ones xs + group_ones ys
  unfolding group_ones
  group_ones-append [] ys = omega arith
  group_ones-append (x ∷ xs) ys = omega (arith, group_ones-append xs ys)

  abbrev pub digit_of : List ℕ → ℕ → ℕ
  digit_of gs b = bit (get_or gs (b / width) 0) (b % width)

  next : (i : ℕ) → i / width + 1 ≡ suc (i / width)
  next i = omega arith

  pub group_ones-total : (gs : List ℕ) → group_ones gs ≡ total (width * length gs) (digit_of gs)
  unfolding group_ones
  group_ones-total [] = let none : width * 0 ≡ 0 = omega arith in rw none (unfold total in refl)
  group_ones-total (v ∷ gs) =
      let first : total width (digit_of (v ∷ gs)) ≡ ones width v =
        total_ext width (digit_of (v ∷ gs)) (bit v) (λ i p. rw (div-eq_of_lt p, mod-eq_of_lt p))
        ∙ sym (ones-total width v) in
      let others : total (width * length gs) (λ i. digit_of (v ∷ gs) (width + i))
          ≡ total (width * length gs) (digit_of gs) =
        total_ext _ _ _ (λ i p.
          rw (add-div_left i pos, add-mod_left width i)
            (ap (λ (t : ℕ). bit (get_or (v ∷ gs) t 0) (i % width)) (next i))) in
      omega (
        arith,
        total-add width (width * length gs) (width * suc (length gs)) (digit_of (v ∷ gs))
            (omega arith),
        first,
        others,
        group_ones-total gs,
      )

  pub group_ones-replicate : (n v : ℕ) → group_ones (replicate n v) ≡ n * ones width v
  unfolding group_ones
  group_ones-replicate zero v = omega arith
  group_ones-replicate (suc n) v = omega (arith, group_ones-replicate n v)

ones_in-group_ones : (words : List ℕ) → ones_in words ≡ group_ones 64 (omega arith) words
unfolding ones_in group_ones
ones_in-group_ones [] = refl
ones_in-group_ones (w ∷ ws) = ap (◌+◌ (ones 64 w)) (ones_in-group_ones ws)

-- The digits 1 of a vector are its positions that are set.
pub ones_in-total : (words : List ℕ) → ones_in words ≡ total (64 * length words) (bit_at words)
unfolding bit_at
ones_in-total words = ones_in-group_ones words ∙ group_ones-total 64 (omega arith) words

-- Positions from `n` on that are all 0 may be counted or not.
pub total_padded :
    (n m : ℕ) (f : ℕ → ℕ) → n ≤ m → ((i : ℕ) → n ≤ i → f i ≡ 0) → total m f ≡ total n f
total_padded n m f le h =
    let rest : total (m - n) (λ i. f (n + i)) ≡ 0 =
      total_zeros (m - n) (λ i. f (n + i)) (λ i p. h (n + i) (omega arith)) in
    omega (arith, total-add n (m - n) m f (omega arith), rest)

-- The cardinality of a raw bitmap is the number of its positions that are set.
pub cardinality-IsRaw :
    (n : ℕ) (raw : List ℕ) → n ≤ 2 ^ 32 → IsRaw n raw → cardinality raw ≡ total n (bit_at raw)
cardinality-IsRaw n raw small good =
    cardinality-ones raw good.words (bounded small good.size)
    ∙ ones_in-total raw
    ∙ total_padded n (64 * length raw) (bit_at raw) (covers small good.size) good.padding
  where
    covers : n ≤ 2 ^ 32 → length raw ≡ words_for_bits n → n ≤ 64 * length raw
    covers s e = unfold words_for_bits in omega arith

    bounded : n ≤ 2 ^ 32 → length raw ≡ words_for_bits n → 64 * length raw < 2 ^ 64
    bounded s e = unfold words_for_bits in omega arith
