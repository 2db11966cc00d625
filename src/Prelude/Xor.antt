-- ===== src/Prelude/Xor.antt =====
-- Exclusive or, and values that differ from another in one digit.
use Prim.Native.Nat.{
  ℕ, zero, suc, ◌+◌, ◌*◌, ◌/◌, ◌%◌, ◌^◌, ◌≤◌, ◌<◌, bit_or, bit_xor, differ, bit_xor-bitwise,
}
use mathlib.Core.Path.{◌≡◌, refl, sym, ap, ◌∙◌}
use native.Mathlib.Omega.{arith}
use bitmap_comp_framework.Prelude.Digits.{
  bit, bit-le, bit-zero, bit-bit_or, bit-lt_pow, bit_ext, lt_of_bits, bitwise_step,
}
use bitmap_comp_framework.Prelude.Masks.{bit_or_fields}

bit_xor_step : (x y : ℕ) → bit_xor x y ≡ differ (x % 2) (y % 2) + 2 * bit_xor (x / 2) (y / 2)
bit_xor_step zero y = simp bit_xor-bitwise (omega arith)
bit_xor_step (suc x) y = simp bit_xor-bitwise (omega (arith, bitwise_step (λ t. t) differ x y))

differ-le : (x y : ℕ) → x ≤ 1 → y ≤ 1 → differ x y ≤ 1
differ-le zero y h k = k
differ-le (suc x) zero h k = h
differ-le (suc x) (suc y) h k = differ-le x y (omega arith) (omega arith)

pub bit-bit_xor : (a b i : ℕ) → bit (bit_xor a b) i ≡ differ (bit a i) (bit b i)
unfolding bit
bit-bit_xor a b zero =
    omega (arith, bit_xor_step a b, differ-le (a % 2) (b % 2) (omega arith) (omega arith))
bit-bit_xor a b (suc i) =
    let half : bit_xor a b / 2 ≡ bit_xor (a / 2) (b / 2) =
      omega (arith, bit_xor_step a b, differ-le (a % 2) (b % 2) (omega arith) (omega arith)) in
    rw half (bit-bit_xor (a / 2) (b / 2) i)

differ_back : (x y : ℕ) → x ≤ 1 → y ≤ 1 → differ y (differ x y) ≡ x
differ_back zero zero h k = refl
differ_back (suc zero) zero h k = refl
differ_back zero (suc zero) h k = refl
differ_back (suc zero) (suc zero) h k = refl
differ_back (suc (suc x)) y h k = absurd (omega arith)
differ_back zero (suc (suc y)) h k = absurd (omega arith)
differ_back (suc zero) (suc (suc y)) h k = absurd (omega arith)

-- What differs from `b` by `a ^ b` is `a`.
pub bit_xor_back : (a b : ℕ) → bit_xor b (bit_xor a b) ≡ a
bit_xor_back a b = bit_ext _ _ λ i.
    rw (bit-bit_xor b (bit_xor a b) i, bit-bit_xor a b i)
      (differ_back (bit a i) (bit b i) (bit-le a i) (bit-le b i))

pub zero-bit_xor : (a : ℕ) → bit_xor 0 a ≡ a
zero-bit_xor a = bit_ext _ _ λ i. rw (bit-bit_xor 0 a i, bit-zero i)

pub bit_xor-zero : (a : ℕ) → bit_xor a 0 ≡ a
bit_xor-zero a = bit_ext _ _ λ i. rw (bit-bit_xor a 0 i, bit-zero i) (differ_zero (bit a i))
  where
    differ_zero : (x : ℕ) → differ x 0 ≡ x
    differ_zero zero = refl
    differ_zero (suc x) = refl

pub bit_xor-lt : (k a b : ℕ) → a < 2 ^ k → b < 2 ^ k → bit_xor a b < 2 ^ k
bit_xor-lt k a b ha hb =
    lt_of_bits k _ λ i p. rw (bit-bit_xor a b i, bit-lt_pow k a i ha p, bit-lt_pow k b i hb p)

-- A field put into digits that are 0.
pub bit_or_gap :
    (q c p m k : ℕ)
    → c < 2 ^ m
    → p * 2 ^ m + c < 2 ^ k
    → bit_or (q * 2 ^ k + c) (p * 2 ^ m) ≡ q * 2 ^ k + (p * 2 ^ m + c)
bit_or_gap q c p m k low fits =
    let whole : bit_or (q * 2 ^ k) (bit_or (p * 2 ^ m) c) ≡ q * 2 ^ k + (p * 2 ^ m + c) =
      rw (bit_or_fields m p c low) (bit_or_fields k q (p * 2 ^ m + c) fits) in
    let apart : bit_or (q * 2 ^ k) c ≡ q * 2 ^ k + c = bit_or_fields k q c (omega arith) in
    ap (λ (t : ℕ). bit_or t (p * 2 ^ m)) (sym apart) ∙ swap (q * 2 ^ k) c (p * 2 ^ m) ∙ whole
  where
    swap : (a b c : ℕ) → bit_or (bit_or a b) c ≡ bit_or a (bit_or c b)
    swap a b c = bit_ext _ _ λ i.
        rw
          (
            bit-bit_or (bit_or a b) c i,
            bit-bit_or a b i,
            bit-bit_or a (bit_or c b) i,
            bit-bit_or c b i,
          )
          (omega arith)
