-- ===== src/Bits/Combine.antt =====
-- AND and OR of words, vectors of words and raw bitmaps: `is_and ? a & b : a | b`.
use bitmap_comp_framework.Prelude.{
  ℕ, zero, suc, ◌/◌, ◌%◌, ◌^◌, ◌<◌, min, max, bit_and, bit_or, ◌≡◌, refl, ◌∙◌, ap, sym, Bool, true,
  false, List, [], ◌∷◌, ◌++◌, length, get_or, replicate, All, arith, if◌then◌else◌,
}
use bitmap_comp_framework.Prelude.Digits.{bit, bit-bit_and, bit-bit_or}
use bitmap_comp_framework.Prelude.Masks.{bit_and-lt, bit_or-lt}
use bitmap_comp_framework.Bits.Raw.{bit_at, IsWord, IsRaw}

unfoldable pub combine : Bool → ℕ → ℕ → ℕ
combine is_and x y = if is_and then bit_and x y else bit_or x y

unfoldable pub zip_with : (ℕ → ℕ → ℕ) → List ℕ → List ℕ → List ℕ
zip_with f [] ys = []
zip_with f (x ∷ xs) [] = []
zip_with f (x ∷ xs) (y ∷ ys) = f x y ∷ zip_with f xs ys

pub zip_with-runs :
    (f : ℕ → ℕ → ℕ) (n x y : ℕ) (xs ys : List ℕ)
    → zip_with f (replicate n x ++ xs) (replicate n y ++ ys)
      ≡ replicate n (f x y) ++ zip_with f xs ys
unfolding zip_with
zip_with-runs f zero x y xs ys = refl
zip_with-runs f (suc n) x y xs ys = ap (◌∷◌ (f x y)) (zip_with-runs f n x y xs ys)

pub length-zip_with :
    (f : ℕ → ℕ → ℕ) (xs ys : List ℕ) → length xs ≡ length ys → length (zip_with f xs ys) ≡ length xs
unfolding zip_with
length-zip_with f [] ys e = refl
length-zip_with f (x ∷ xs) [] e = absurd (omega arith)
length-zip_with f (x ∷ xs) (y ∷ ys) e = ap suc (length-zip_with f xs ys (omega arith))

pub get_or-zip_with :
    (f : ℕ → ℕ → ℕ) (xs ys : List ℕ) (i : ℕ)
    → length xs ≡ length ys
    → f 0 0 ≡ 0
    → get_or (zip_with f xs ys) i 0 ≡ f (get_or xs i 0) (get_or ys i 0)
unfolding zip_with
get_or-zip_with f [] [] i e z = sym z
get_or-zip_with f [] (y ∷ ys) i e z = absurd (omega arith)
get_or-zip_with f (x ∷ xs) [] i e z = absurd (omega arith)
get_or-zip_with f (x ∷ xs) (y ∷ ys) zero e z = refl
get_or-zip_with f (x ∷ xs) (y ∷ ys) (suc i) e z = get_or-zip_with f xs ys i (omega arith) z

-- AND or OR on one digit.
abbrev pub combine_bit : Bool → ℕ → ℕ → ℕ
combine_bit is_and x y = if is_and then min x y else max x y

pub bit-combine :
    (is_and : Bool) (x y i : ℕ)
    → bit (combine is_and x y) i ≡ combine_bit is_and (bit x i) (bit y i)
unfolding combine
bit-combine true x y i = bit-bit_and x y i
bit-combine false x y i = bit-bit_or x y i

pub combine-lt : (is_and : Bool) (k x y : ℕ) → x < 2 ^ k → y < 2 ^ k → combine is_and x y < 2 ^ k
unfolding combine
combine-lt true k x y hx hy = bit_and-lt k x y hx
combine-lt false k x y hx hy = bit_or-lt k x y hx hy

pub combine_zeros : (is_and : Bool) → combine is_and 0 0 ≡ 0
unfolding combine
combine_zeros true = refl
combine_zeros false = refl

pub zip_with-IsWord :
    (is_and : Bool) (xs ys : List ℕ)
    → All IsWord xs
    → All IsWord ys
    → All IsWord (zip_with (combine is_and) xs ys)
unfolding zip_with
zip_with-IsWord is_and [] ys hx hy = tt
zip_with-IsWord is_and (x ∷ xs) [] hx hy = tt
zip_with-IsWord is_and (x ∷ xs) (y ∷ ys) hx hy =
    (combine-lt is_and 64 x y hx.0 hy.0, zip_with-IsWord is_and xs ys hx.1 hy.1)

-- What AND and OR of two raw bitmaps are, word by word.
abbrev pub combine_words : Bool → List ℕ → List ℕ → List ℕ
combine_words is_and = zip_with (combine is_and)

pub bit_at-combine_words :
    (is_and : Bool) (xs ys : List ℕ) (b : ℕ)
    → length xs ≡ length ys
    → bit_at (combine_words is_and xs ys) b ≡ combine_bit is_and (bit_at xs b) (bit_at ys b)
unfolding bit_at
bit_at-combine_words is_and xs ys b e =
    rw (get_or-zip_with (combine is_and) xs ys (b / 64) e (combine_zeros is_and))
      (bit-combine is_and _ _ (b % 64))

pub combine_bit_zeros : (is_and : Bool) (x y : ℕ) → x ≡ 0 → y ≡ 0 → combine_bit is_and x y ≡ 0
combine_bit_zeros true x y p q = omega arith
combine_bit_zeros false x y p q = omega arith

pub combine_words-IsRaw :
    (is_and : Bool) (n : ℕ) (xs ys : List ℕ)
    → IsRaw n xs
    → IsRaw n ys
    → IsRaw n (combine_words is_and xs ys)
combine_words-IsRaw is_and n xs ys gx gy =
    let same = gx.size ∙ sym gy.size in
    record {
      size = length-zip_with (combine is_and) xs ys same ∙ gx.size;
      words = zip_with-IsWord is_and xs ys gx.words gy.words;
      padding = λ b h.
          bit_at-combine_words is_and xs ys b same
          ∙ combine_bit_zeros is_and _ _ (gx.padding b h) (gy.padding b h);
    }
