-- ===== src/Prelude/Slices.antt =====
-- Parts of vectors of words, and vectors cut or padded to a length.
use Prim.Native.Nat.{ℕ, zero, suc, ◌+◌, ◌-◌, ◌^◌, ◌<◌, min}
use mathlib.Core.Path.{◌≡◌, refl, ap, ◌∙◌}
use mathlib.Core.List.{List, [], ◌∷◌, ◌++◌}
use native.Mathlib.Omega.{arith}
use bitmap_comp_framework.Prelude.Lists.{
  length, get_or, take, drop, replicate, All, length-append, length-replicate, get_or-replicate,
  All-append, All-replicate,
}

pub length-drop : (k : ℕ) (xs : List ℕ) → length (drop k xs) ≡ length xs - k
length-drop zero xs = omega arith
length-drop (suc k) [] = omega arith
length-drop (suc k) (x ∷ xs) = omega (arith, length-drop k xs)

pub length-take : (k : ℕ) (xs : List ℕ) → length (take k xs) ≡ min k (length xs)
length-take zero xs = omega arith
length-take (suc k) [] = omega arith
length-take (suc k) (x ∷ xs) = omega (arith, length-take k xs)

pub get_or-drop : (k : ℕ) (xs : List ℕ) (i : ℕ) → get_or (drop k xs) i 0 ≡ get_or xs (k + i) 0
get_or-drop zero xs i = ap (λ (t : ℕ). get_or xs t 0) (omega arith)
get_or-drop (suc k) [] i = refl
get_or-drop (suc k) (x ∷ xs) i =
    get_or-drop k xs i ∙ (let next : suc k + i ≡ suc (k + i) = omega arith in rw next)

pub get_or-take : (k : ℕ) (xs : List ℕ) (i : ℕ) → i < k → get_or (take k xs) i 0 ≡ get_or xs i 0
get_or-take zero xs i h = absurd (omega arith)
get_or-take (suc k) [] i h = refl
get_or-take (suc k) (x ∷ xs) zero h = refl
get_or-take (suc k) (x ∷ xs) (suc i) h = get_or-take k xs i (omega arith)

pub get_or-append_zeros : (xs : List ℕ) (n i : ℕ) → get_or (xs ++ replicate n 0) i 0 ≡ get_or xs i 0
get_or-append_zeros [] n i = get_or-replicate n i 0
get_or-append_zeros (x ∷ xs) n zero = refl
get_or-append_zeros (x ∷ xs) n (suc i) = get_or-append_zeros xs n i

pub All-take : (k : ℕ) (xs : List ℕ) → All (λ w. w < 2 ^ 64) xs → All (λ w. w < 2 ^ 64) (take k xs)
All-take zero xs h = tt
All-take (suc k) [] h = tt
All-take (suc k) (x ∷ xs) h = (h.0, All-take k xs h.1)

pub All-drop : (k : ℕ) (xs : List ℕ) → All (λ w. w < 2 ^ 64) xs → All (λ w. w < 2 ^ 64) (drop k xs)
All-drop zero xs h = h
All-drop (suc k) [] h = tt
All-drop (suc k) (x ∷ xs) h = All-drop k xs h.1

-- A vector cut or padded to `n` words.
module _ (n : ℕ) (words : List ℕ) where
  abbrev pub sized : List ℕ
  sized = take n (words ++ replicate (n - length words) 0)

  pub length-sized : length sized ≡ n
  length-sized =
      length-take n (words ++ replicate (n - length words) 0)
      ∙ omega (
        arith,
        length-append words (replicate (n - length words) 0),
        length-replicate {A = ℕ} (n - length words) 0,
      )

  pub sized-All : All (λ w. w < 2 ^ 64) words → All (λ w. w < 2 ^ 64) sized
  sized-All h = All-take n _ (
      All-append (λ w. w < 2 ^ 64) words _ h
        (All-replicate (λ w. w < 2 ^ 64) (n - length words) 0 (omega arith)))

  pub get_or-sized : (i : ℕ) → i < n → get_or sized i 0 ≡ get_or words i 0
  get_or-sized i h = get_or-take n _ i h ∙ get_or-append_zeros words (n - length words) i

module _ {ℓ} {A : Type ℓ} where
  pub get_or-append_left :
      (xs ys : List A) (i : ℕ) (d : A) → i < length xs → get_or (xs ++ ys) i d ≡ get_or xs i d
  get_or-append_left [] ys i d h = absurd (omega arith)
  get_or-append_left (x ∷ xs) ys zero d h = refl
  get_or-append_left (x ∷ xs) ys (suc i) d h = get_or-append_left xs ys i d (omega arith)

  pub get_or-append_right :
      (xs ys : List A) (i : ℕ) (d : A) → get_or (xs ++ ys) (length xs + i) d ≡ get_or ys i d
  get_or-append_right [] ys i d = ap (λ (t : ℕ). get_or ys t d) (omega arith)
  get_or-append_right (x ∷ xs) ys i d =
      let next : length (x ∷ xs) + i ≡ suc (length xs + i) = omega arith in
      rw next (get_or-append_right xs ys i d)

  -- `n` copies at the front of a list, taken in part or together with what follows.
  pub take-replicate :
      (l n : ℕ) (a : A) (xs : List A)
      → take l (replicate n a ++ xs) ≡ replicate (min n l) a ++ take (l - min n l) xs
  take-replicate zero n a xs = let none : min n 0 ≡ 0 = omega arith in rw none
  take-replicate (suc l) zero a xs =
      let none : min 0 (suc l) ≡ 0 = omega arith in
      let all : suc l - 0 ≡ suc l = omega arith in rw (none, all)
  take-replicate (suc l) (suc n) a xs =
      let more : min (suc n) (suc l) ≡ suc (min n l) = omega arith in
      let fewer : suc l - suc (min n l) ≡ l - min n l = omega arith in
      rw (more, fewer) (ap (◌∷◌ a) (take-replicate l n a xs))
