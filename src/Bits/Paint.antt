-- ===== src/Bits/Paint.antt =====
-- A bitmap described by groups of `width` digits, and the positions that the groups cover.
use bitmap_comp_framework.Prelude.{
  ℕ, zero, suc, ◌+◌, ◌*◌, ◌^◌, ◌<◌, max, ◌≡◌, refl, ◌∙◌, sym, List, [], ◌∷◌, ◌++◌, length, All,
  get_or, arith,
}
use bitmap_comp_framework.Prelude.Digits.{bit, bit-lt_pow, bit-zero}
use bitmap_comp_framework.Bits.Window.{spot, spot_before, spot_at}

module _ (width : ℕ) where
  -- Group `i` of the list stands at the positions from `(g + i) * width` on.
  unfoldable pub painted : List ℕ → ℕ → ℕ → ℕ
  painted [] g b = 0
  painted (v ∷ gs) g b = max (spot v (g * width) b) (painted gs (g + 1) b)

  pub painted-append :
      (xs ys : List ℕ) (g b : ℕ)
      → painted (xs ++ ys) g b ≡ max (painted xs g b) (painted ys (g + length xs) b)
  unfolding painted
  painted-append [] ys g b = let at : g + 0 ≡ g = omega arith in rw at (omega arith)
  painted-append (x ∷ xs) ys g b =
      let at : g + 1 + length xs ≡ g + suc (length xs) = omega arith in
      rw (painted-append xs ys (g + 1) b, at) (omega arith)

  painted_before : (gs : List ℕ) (g b : ℕ) → b < g * width → painted gs g b ≡ 0
  unfolding painted
  painted_before [] g b h = refl
  painted_before (v ∷ gs) g b h =
      omega (arith, spot_before v (g * width) b h, painted_before gs (g + 1) b (omega arith))

  -- The digit at a position is that of the group which covers it.
  pub painted-get_or :
      (gs : List ℕ) (g k i b : ℕ)
      → All (λ v. v < 2 ^ width) gs
      → i < width
      → b ≡ (g + k) * width + i
      → painted gs g b ≡ bit (get_or gs k 0) i
  unfolding painted
  painted-get_or [] g k i b h p e = sym (bit-zero i)
  painted-get_or (v ∷ gs) g zero i b h p e =
      omega
        (arith, spot_at v (g * width) b i (omega arith), painted_before gs (g + 1) b (omega arith))
  painted-get_or (v ∷ gs) g (suc k) i b h p e =
      let here : spot v (g * width) b ≡ 0 =
        spot_at v (g * width) b (suc k * width + i) (omega arith)
        ∙ bit-lt_pow width v (suc k * width + i) h.0 (omega arith) in
      omega (arith, here, painted-get_or gs (g + 1) k i b h.1 p (omega arith))
