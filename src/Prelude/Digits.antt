-- ===== src/Prelude/Digits.antt =====
-- The binary digits of a native number, and what the bit operations do to each of them.
use Prim.Native.Nat.{ℕ, zero, suc, ◌+◌, ◌*◌, ◌/◌, ◌%◌, ◌^◌, ◌≤◌, ◌<◌, min, max, bit_and, bit_or}
use Prim.Native.Nat.{digits, bitwise, bit_and-bitwise, bit_or-bitwise}
use mathlib.Core.Path.{◌≡◌, refl, sym, ap, ◌∙◌}
use mathlib.Core.Logic.{inl, inr}
use native.Mathlib.Nat.{pow-suc, one-le-pow, div-add-mod', mod-lt}
use bitmap_comp_framework.Prelude.Tests.{lt_or_ge}
use native.Mathlib.Omega.{arith}

-- Digit `i` of `x`, 0 or 1.
unfoldable pub bit : ℕ → ℕ → ℕ
bit x zero = x % 2
bit x (suc i) = bit (x / 2) i

-- The definition of the native operations carries fuel; any fuel that reaches the end is as good.
module _ (left : ℕ → ℕ) (op : ℕ → ℕ → ℕ) where
  digits_fuel : (n m a b : ℕ) → a ≤ n → a ≤ m → digits left op n a b ≡ digits left op m a b
  digits_fuel zero zero zero b p q = refl
  digits_fuel zero (suc m) zero b p q = refl
  digits_fuel (suc n) zero zero b p q = refl
  digits_fuel (suc n) (suc m) zero b p q = refl
  digits_fuel zero zero (suc a) b p q = absurd (omega arith)
  digits_fuel zero (suc m) (suc a) b p q = absurd (omega arith)
  digits_fuel (suc n) zero (suc a) b p q = absurd (omega arith)
  digits_fuel (suc n) (suc m) (suc a) b p q =
      omega (arith, digits_fuel n m (suc a / 2) (b / 2) (omega arith) (omega arith))

  pub bitwise_step :
      (a b : ℕ)
      → bitwise left op (suc a) b ≡ bitwise left op (suc a / 2) (b / 2) * 2 + op (suc a % 2) (b % 2)
  bitwise_step a b =
      omega (arith, digits_fuel a (suc a / 2) (suc a / 2) (b / 2) (omega arith) (omega arith))

pub bit_and_step : (x y : ℕ) → bit_and x y ≡ min (x % 2) (y % 2) + 2 * bit_and (x / 2) (y / 2)
bit_and_step zero y = simp bit_and-bitwise (omega arith)
bit_and_step (suc x) y = simp bit_and-bitwise (omega (arith, bitwise_step (λ t. 0) min x y))

pub bit_or_step : (x y : ℕ) → bit_or x y ≡ max (x % 2) (y % 2) + 2 * bit_or (x / 2) (y / 2)
bit_or_step zero y = simp bit_or-bitwise (omega arith)
bit_or_step (suc x) y = simp bit_or-bitwise (omega (arith, bitwise_step (λ t. t) max x y))

pub bit-le : (x i : ℕ) → bit x i ≤ 1
unfolding bit
bit-le x zero = omega arith
bit-le x (suc i) = bit-le (x / 2) i

pub bit-zero : (i : ℕ) → bit 0 i ≡ 0
unfolding bit
bit-zero zero = refl
bit-zero (suc i) = bit-zero i

pub bit-bit_and : (a b i : ℕ) → bit (bit_and a b) i ≡ min (bit a i) (bit b i)
unfolding bit
bit-bit_and a b zero = omega (arith, bit_and_step a b)
bit-bit_and a b (suc i) =
    let half : bit_and a b / 2 ≡ bit_and (a / 2) (b / 2) = omega (arith, bit_and_step a b) in
    rw half (bit-bit_and (a / 2) (b / 2) i)

pub bit-bit_or : (a b i : ℕ) → bit (bit_or a b) i ≡ max (bit a i) (bit b i)
unfolding bit
bit-bit_or a b zero = omega (arith, bit_or_step a b)
bit-bit_or a b (suc i) =
    let half : bit_or a b / 2 ≡ bit_or (a / 2) (b / 2) = omega (arith, bit_or_step a b) in
    rw half (bit-bit_or (a / 2) (b / 2) i)

double_pow : (q k : ℕ) → q * 2 ^ suc k ≡ 2 * (q * 2 ^ k)
double_pow q k = omega (arith, ap (λ (t : ℕ). q * t) (pow-suc 2 k))

-- Digits of a number cut in two at position `k`.
pub bit-fields_low : (k q r i : ℕ) → i < k → bit (q * 2 ^ k + r) i ≡ bit r i
unfolding bit
bit-fields_low zero q r i h = elim h [ ]
bit-fields_low (suc k) q r zero h = omega (arith, double_pow q k)
bit-fields_low (suc k) q r (suc i) h =
    let half : (q * 2 ^ suc k + r) / 2 ≡ q * 2 ^ k + r / 2 = omega (arith, double_pow q k) in
    rw half (bit-fields_low k q (r / 2) i (omega arith))

pub bit-fields_high : (k q r i j : ℕ) → r < 2 ^ k → j ≡ k + i → bit (q * 2 ^ k + r) j ≡ bit q i
unfolding bit
bit-fields_high zero q r i j h e =
    let same : q * 2 ^ 0 + r ≡ q = omega arith in let at : j ≡ i = omega arith in rw (same, at)
bit-fields_high (suc k) q r i zero h e = absurd (omega arith)
bit-fields_high (suc k) q r i (suc j) h e =
    let half : (q * 2 ^ suc k + r) / 2 ≡ q * 2 ^ k + r / 2 = omega (arith, double_pow q k) in
    rw half (bit-fields_high k q (r / 2) i j (omega (arith, pow-suc 2 k)) (omega arith))

pub bit-shl_low : (k x i : ℕ) → i < k → bit (x * 2 ^ k) i ≡ 0
bit-shl_low k x i h =
    let padded : x * 2 ^ k ≡ x * 2 ^ k + 0 = omega arith in
    rw padded (bit-fields_low k x 0 i h ∙ bit-zero i)

pub bit-shl : (k x i j : ℕ) → j ≡ k + i → bit (x * 2 ^ k) j ≡ bit x i
bit-shl k x i j e =
    let padded : x * 2 ^ k ≡ x * 2 ^ k + 0 = omega arith in
    rw padded (bit-fields_high k x 0 i j (one-le-pow k 2 (omega arith)) e)

pub bit-lt_pow : (k x i : ℕ) → x < 2 ^ k → k ≤ i → bit x i ≡ 0
unfolding bit
bit-lt_pow zero x i h p = let none_left : x ≡ 0 = omega arith in rw none_left (bit-zero i)
bit-lt_pow (suc k) x zero h p = absurd (omega arith)
bit-lt_pow (suc k) x (suc i) h p = bit-lt_pow k (x / 2) i (omega (arith, pow-suc 2 k)) (omega arith)

pub bit-mod_low : (k x i : ℕ) → i < k → bit (x % 2 ^ k) i ≡ bit x i
bit-mod_low k x i h =
    sym (bit-fields_low k (x / 2 ^ k) (x % 2 ^ k) i h)
    ∙ ap (λ (t : ℕ). bit t i) (div-add-mod' x (2 ^ k))

pub bit-mod_high : (k x i : ℕ) → k ≤ i → bit (x % 2 ^ k) i ≡ 0
bit-mod_high k x i h = bit-lt_pow k (x % 2 ^ k) i (mod-lt x (one-le-pow k 2 (omega arith))) h

pub bit-shr : (k x i j : ℕ) → j ≡ k + i → bit (x / 2 ^ k) i ≡ bit x j
bit-shr k x i j e =
    sym (bit-fields_high k (x / 2 ^ k) (x % 2 ^ k) i j (mod-lt x (one-le-pow k 2 (omega arith))) e)
    ∙ ap (λ (t : ℕ). bit t j) (div-add-mod' x (2 ^ k))

pub bit-eq-mod : (x i : ℕ) → bit x i ≡ x / 2 ^ i % 2
bit-eq-mod x i = sym (bit-shr i x 0 i (omega arith)) ∙ (unfold bit in refl)

ext_fuel : (n a b : ℕ) → a ≤ n → b ≤ n → ((i : ℕ) → bit a i ≡ bit b i) → a ≡ b
unfolding bit
ext_fuel zero a b p q h = omega arith
ext_fuel (suc n) a b p q h =
    omega (arith, h 0, ext_fuel n (a / 2) (b / 2) (omega arith) (omega arith) (λ i. h (suc i)))

-- Numbers with the same digits are equal.
pub bit_ext : (a b : ℕ) → ((i : ℕ) → bit a i ≡ bit b i) → a ≡ b
bit_ext a b h = ext_fuel (a + b) a b (omega arith) (omega arith) h

-- Below a power of two only the low digits count.
pub bit_ext_below :
    (k a b : ℕ) → a < 2 ^ k → b < 2 ^ k → ((i : ℕ) → i < k → bit a i ≡ bit b i) → a ≡ b
bit_ext_below k a b ha hb h = bit_ext a b λ i. elim (lt_or_ge i k) [
  | inl p ↦ h i p
  | inr p ↦ bit-lt_pow k a i ha p ∙ sym (bit-lt_pow k b i hb p)
]

pub lt_of_bits : (k x : ℕ) → ((i : ℕ) → k ≤ i → bit x i ≡ 0) → x < 2 ^ k
lt_of_bits k x h =
    let same : x ≡ x % 2 ^ k = bit_ext x (x % 2 ^ k) λ i. elim (lt_or_ge i k) [
      | inl p ↦ sym (bit-mod_low k x i p)
      | inr p ↦ h i p ∙ sym (bit-mod_high k x i p)
    ] in
    rw same (mod-lt x (one-le-pow k 2 (omega arith)))
