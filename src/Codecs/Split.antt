-- ===== src/Codecs/Split.antt =====
-- Groups of one width cut into pieces of a smaller one: what `AlignedCursor` of backends/codecs.cpp
-- makes of the groups of its input.
use bitmap_comp_framework.Prelude.{
  ℕ, zero, suc, ◌+◌, ◌-◌, ◌*◌, ◌/◌, ◌%◌, ◌^◌, ◌<◌, ◌≡◌, refl, ◌∙◌, ap, sym, List, [], ◌∷◌, ◌++◌,
  length, get_or, replicate, arith, length-append, append_assoc, get_or-append_left,
  get_or-append_right,
}
use bitmap_comp_framework.Prelude.Digits.{bit, bit-zero, bit-mod_low, bit-shr}
use bitmap_comp_framework.Prelude.Masks.{pow-pos, pow-add}
use bitmap_comp_framework.Codecs.Decode.{group_bit}
use native.Mathlib.Nat.{
  add-mul-mod_self_right, add-mul-div_right, div-eq_of_lt, div-div-eq-div-mul, mod-lt, mod-eq_of_lt,
  div-add-mod', mul-le-mul_right,
}
use bitmap_comp_framework.Wah.Builder.{replicate-add}

pub less_one : (a b : ℕ) → 0 < a → 0 < b → a * b - 1 ≡ b - 1 + (a - 1) * b
less_one zero b h p = absurd (omega arith)
less_one (suc a) b h p = let less : suc a - 1 ≡ a = omega arith in rw less (omega arith)

regroup : (x k j w : ℕ) → (x * k + j) * w ≡ j * w + x * (k * w)
regroup x k j w = omega arith

-- The remainder by a product, from those by its factors.
mod-mul : (b k w : ℕ) → 0 < k → 0 < w → (b / w % k) * w + b % w ≡ b % (k * w)
mod-mul b k w pos wide =
    let parts : (b / w % k) * w + b % w + (b / w / k) * (k * w) ≡ b = omega (
      arith,
      div-add-mod' b w,
      regroup (b / w / k) k (b / w % k) w,
      ap (λ (t : ℕ). t * w) (div-add-mod' (b / w) k),
    ) in
    let small : (b / w % k) * w + b % w < k * w =
      omega (arith, mod-lt b wide, mul-le-mul_right w (mod-lt (b / w) pos)) in
    sym (mod-eq_of_lt small)
    ∙ sym (add-mul-mod_self_right ((b / w % k) * w + b % w) (b / w / k) (k * w))
    ∙ ap (λ (t : ℕ). t % (k * w)) parts

module _ (w : ℕ) (wide : 0 < w) where
  unfoldable pub pieces : ℕ → ℕ → List ℕ
  pieces zero v = []
  pieces (suc k) v = v % 2 ^ w ∷ pieces k (v / 2 ^ w)

  unfoldable pub split : ℕ → List ℕ → List ℕ
  split k [] = []
  split k (v ∷ gs) = pieces k v ++ split k gs

  pub length-pieces : (k v : ℕ) → length (pieces k v) ≡ k
  unfolding pieces
  length-pieces zero v = refl
  length-pieces (suc k) v = ap suc (length-pieces k (v / 2 ^ w))

  pub length-split : (k : ℕ) (gs : List ℕ) → length (split k gs) ≡ k * length gs
  unfolding split
  length-split k [] = omega arith
  length-split k (v ∷ gs) =
      omega (arith, length-append (pieces k v) (split k gs), length-pieces k v, length-split k gs)

  pub split-append : (k : ℕ) (xs ys : List ℕ) → split k (xs ++ ys) ≡ split k xs ++ split k ys
  unfolding split
  split-append k [] ys = refl
  split-append k (x ∷ xs) ys =
      rw (split-append k xs ys) (sym (append_assoc (pieces k x) (split k xs) (split k ys)))

  -- A repeated value whose pieces are all alike.
  pub split-replicate :
      (k count v p : ℕ)
      → pieces k v ≡ replicate k p
      → split k (replicate count v) ≡ replicate (count * k) p
  unfolding split
  split-replicate k zero v p e = let none : 0 * k ≡ 0 = omega arith in rw none
  split-replicate k (suc count) v p e =
      let more : suc count * k ≡ k + count * k = omega arith in
      rw (e, more, replicate-add k (count * k) p, split-replicate k count v p e)

  pub pieces-zero : (k : ℕ) → pieces k 0 ≡ replicate k 0
  unfolding pieces
  pieces-zero zero = refl
  pieces-zero (suc k) =
      let low : 0 % 2 ^ w ≡ 0 = omega arith in
      let high : 0 / 2 ^ w ≡ 0 = omega arith in rw (low, high) (ap (◌∷◌ 0) (pieces-zero k))

  pub pieces-ones : (k : ℕ) → pieces k (2 ^ (k * w) - 1) ≡ replicate k (2 ^ w - 1)
  unfolding pieces
  pieces-ones zero = refl
  pieces-ones (suc k) = rw (low, high) (ap (◌∷◌ (2 ^ w - 1)) (pieces-ones k))
    where
      whole : 2 ^ (suc k * w) ≡ 2 ^ (k * w) * 2 ^ w
      whole = pow-add (k * w) w (suc k * w) (omega arith)

      parts : 2 ^ (suc k * w) - 1 ≡ 2 ^ w - 1 + (2 ^ (k * w) - 1) * 2 ^ w
      parts =
          ap (λ (t : ℕ). t - 1) whole ∙ less_one (2 ^ (k * w)) (2 ^ w) (pow-pos (k * w)) (pow-pos w)

      low : (2 ^ (suc k * w) - 1) % 2 ^ w ≡ 2 ^ w - 1
      low =
          ap (λ (t : ℕ). t % 2 ^ w) parts
          ∙ add-mul-mod_self_right (2 ^ w - 1) (2 ^ (k * w) - 1) (2 ^ w)
          ∙ mod-eq_of_lt (omega (arith, pow-pos w))

      high : (2 ^ (suc k * w) - 1) / 2 ^ w ≡ 2 ^ (k * w) - 1
      high =
          ap (λ (t : ℕ). t / 2 ^ w) parts
          ∙ add-mul-div_right (2 ^ w - 1) (2 ^ (k * w) - 1) (pow-pos w)
          ∙ omega (arith, div-eq_of_lt {n = 2 ^ w - 1} {m = 2 ^ w} (omega (arith, pow-pos w)))

  pub pieces-one : (v : ℕ) → v < 2 ^ w → pieces 1 v ≡ v ∷ []
  unfolding pieces
  pieces-one v h = rw (mod-eq_of_lt h)

  get_or-pieces :
      (k v j i : ℕ) → j < k → i < w → bit (get_or (pieces k v) j 0) i ≡ bit v (j * w + i)
  unfolding pieces
  get_or-pieces zero v j i h p = elim h [ ]
  get_or-pieces (suc k) v zero i h p = bit-mod_low w v i p ∙ ap (bit v) (omega arith)
  get_or-pieces (suc k) v (suc j) i h p =
      get_or-pieces k (v / 2 ^ w) j i (omega arith) p
      ∙ bit-shr w v (j * w + i) (suc j * w + i) (omega arith)

  split_at :
      (k : ℕ) (gs : List ℕ) (q j i : ℕ)
      → j < k
      → i < w
      → bit (get_or (split k gs) (q * k + j) 0) i ≡ bit (get_or gs q 0) (j * w + i)
  unfolding split
  split_at k [] q j i h p = bit-zero i ∙ sym (bit-zero (j * w + i))
  split_at k (v ∷ gs) zero j i h p =
      let at : 0 * k + j ≡ j = omega arith in
      rw (at, get_or-append_left (pieces k v) (split k gs) j 0 (omega (arith, length-pieces k v)))
        (get_or-pieces k v j i h p)
  split_at k (v ∷ gs) (suc q) j i h p =
      let at : suc q * k + j ≡ length (pieces k v) + (q * k + j) =
        omega (arith, length-pieces k v) in
      rw (at, get_or-append_right (pieces k v) (split k gs) (q * k + j) 0) (split_at k gs q j i h p)

  -- Cutting groups into pieces moves no position.
  pub group_bit-split :
      (k : ℕ) (gs : List ℕ) (b : ℕ) → 0 < k → group_bit w (split k gs) b ≡ group_bit (k * w) gs b
  unfolding group_bit
  group_bit-split k gs b pos =
      let q : b / w / k ≡ b / (k * w) =
        div-div-eq-div-mul b w k ∙ ap (λ (t : ℕ). b / t) (omega arith) in
      let whole : (b / w / k) * k + b / w % k ≡ b / w = div-add-mod' (b / w) k in
      let place : (b / w % k) * w + b % w ≡ b % (k * w) = mod-mul b k w pos wide in
      ap (λ (t : ℕ). bit (get_or (split k gs) t 0) (b % w)) (sym whole)
      ∙ split_at k gs (b / w / k) (b / w % k) (b % w) (mod-lt (b / w) pos) (mod-lt b wide)
      ∙ rw (q, place)
