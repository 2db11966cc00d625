-- ===== src/Prelude/Masks.antt =====
-- Masks, disjoint fields and single digits as arithmetic.
use Prim.Native.Nat.{ℕ, zero, suc, ◌+◌, ◌-◌, ◌*◌, ◌/◌, ◌%◌, ◌^◌, ◌<◌, bit_and, bit_or}
use mathlib.Core.Path.{◌≡◌, ap, sym, ◌∙◌}
use mathlib.Core.Logic.{inl, inr}
use native.Mathlib.Nat.{pow-suc, one-le-pow}
use native.Mathlib.Omega.{arith}
use bitmap_comp_framework.Prelude.Tests.{lt_or_ge}
use bitmap_comp_framework.Prelude.Digits.{
  bit, bit-le, bit-zero, bit_and_step, bit-bit_and, bit-bit_or, bit-fields_low, bit-fields_high,
  bit-shl_low, bit-shl, bit-shr, bit-lt_pow, bit-mod_low, bit-mod_high, bit_ext, lt_of_bits,
}

pub pow-pos : (k : ℕ) → 0 < 2 ^ k
pow-pos k = one-le-pow k 2 (omega arith)

pub pow-add : (m n k : ℕ) → k ≡ m + n → 2 ^ k ≡ 2 ^ m * 2 ^ n
pow-add zero n k e = let same : k ≡ n = omega arith in rw same (omega arith)
pow-add (suc m) n zero e = absurd (omega arith)
pow-add (suc m) n (suc k) e =
    omega (arith, pow-suc 2 k, ap (λ (t : ℕ). t * 2 ^ n) (pow-suc 2 m), pow-add m n k (omega arith))

pub bit-ones : (k i : ℕ) → i < k → bit (2 ^ k - 1) i ≡ 1
unfolding bit
bit-ones zero i h = elim h [ ]
bit-ones (suc k) zero h = omega (arith, pow-suc 2 k, pow-pos k)
bit-ones (suc k) (suc i) h =
    let half : (2 ^ suc k - 1) / 2 ≡ 2 ^ k - 1 = omega (arith, pow-suc 2 k, pow-pos k) in
    rw half (bit-ones k i (omega arith))

pub bit_and-zero : (a : ℕ) → bit_and a 0 ≡ 0
bit_and-zero a = bit_ext _ _ λ i. rw bit-bit_and (omega (arith, bit-zero i))

pub bit_or-zero : (a : ℕ) → bit_or a 0 ≡ a
bit_or-zero a = bit_ext _ _ λ i. rw bit-bit_or (omega (arith, bit-zero i))

pub zero-bit_or : (a : ℕ) → bit_or 0 a ≡ a
zero-bit_or a = bit_ext _ _ λ i. rw bit-bit_or (omega (arith, bit-zero i))

pub zero-bit_and : (a : ℕ) → bit_and 0 a ≡ 0
zero-bit_and a = bit_ext _ _ λ i. rw bit-bit_and (omega (arith, bit-zero i))

pub bit_and_self : (a : ℕ) → bit_and a a ≡ a
bit_and_self a = bit_ext _ _ λ i. rw bit-bit_and (omega arith)

pub bit_or_self : (a : ℕ) → bit_or a a ≡ a
bit_or_self a = bit_ext _ _ λ i. rw bit-bit_or (omega arith)

-- A mask of `k` ones is the remainder by `2 ^ k`.
pub bit_and_mask : (k a : ℕ) → bit_and a (2 ^ k - 1) ≡ a % 2 ^ k
bit_and_mask k a = bit_ext _ _ λ i. elim (lt_or_ge i k) [
  | inl p ↦ rw bit-bit_and (omega (arith, bit-le a i, bit-ones k i p, bit-mod_low k a i p))
  | inr p ↦
      rw bit-bit_and (
        omega
          (arith, bit-lt_pow k (2 ^ k - 1) i (omega (arith, pow-pos k)) p, bit-mod_high k a i p))
]

-- A mask of one digit.
pub bit_and_pow : (k a : ℕ) → bit_and a (2 ^ k) ≡ bit a k * 2 ^ k
unfolding bit
bit_and_pow zero a = omega (arith, bit_and_step a 1, bit_and-zero (a / 2))
bit_and_pow (suc k) a =
    let half : 2 ^ suc k / 2 ≡ 2 ^ k = omega (arith, pow-suc 2 k) in
    let even : 2 ^ suc k % 2 ≡ 0 = omega (arith, pow-suc 2 k) in
    bit_and_step a (2 ^ suc k)
    ∙ rw (half, even, bit_and_pow k (a / 2))
        (omega (arith, ap (λ (t : ℕ). bit (a / 2) k * t) (pow-suc 2 k)))

-- `(q << k) | r` is a sum where `r` fits below position `k`.
pub bit_or_fields : (k q r : ℕ) → r < 2 ^ k → bit_or (q * 2 ^ k) r ≡ q * 2 ^ k + r
bit_or_fields k q r h = bit_ext _ _ λ i. elim (lt_or_ge i k) [
  | inl p ↦ rw bit-bit_or (omega (arith, bit-shl_low k q i p, bit-fields_low k q r i p))
  | inr p ↦ rw bit-bit_or (
      omega (
        arith,
        bit-shl k q (i - k) i (omega arith),
        bit-fields_high k q r (i - k) i h (omega arith),
        bit-lt_pow k r i h p,
      ))
]

pub bit_or_comm : (a b : ℕ) → bit_or a b ≡ bit_or b a
bit_or_comm a b = bit_ext _ _ λ i. rw (bit-bit_or a b i, bit-bit_or b a i) (omega arith)

pub bit_and-lt : (k a b : ℕ) → a < 2 ^ k → bit_and a b < 2 ^ k
bit_and-lt k a b h = lt_of_bits k _ λ i p. rw bit-bit_and (omega (arith, bit-lt_pow k a i h p))

pub bit_or-lt : (k a b : ℕ) → a < 2 ^ k → b < 2 ^ k → bit_or a b < 2 ^ k
bit_or-lt k a b ha hb =
    lt_of_bits k _
      λ i p. rw bit-bit_or (omega (arith, bit-lt_pow k a i ha p, bit-lt_pow k b i hb p))

-- A mask of `m` ones from position `k` on.
pub bit_and_field : (m k a : ℕ) → bit_and a ((2 ^ m - 1) * 2 ^ k) ≡ a / 2 ^ k % 2 ^ m * 2 ^ k
bit_and_field m k a = bit_ext _ _ λ i. elim (lt_or_ge i k) [
  | inl p ↦
      rw (bit-bit_and, bit-shl_low k (2 ^ m - 1) i p, bit-shl_low k (a / 2 ^ k % 2 ^ m) i p)
        (omega arith)
  | inr p ↦
      let at : i ≡ k + (i - k) = omega arith in
      rw
        (
          bit-bit_and,
          bit-shl k (2 ^ m - 1) (i - k) i at,
          bit-shl k (a / 2 ^ k % 2 ^ m) (i - k) i at,
          sym (bit-shr k a (i - k) i at),
        )
        (sym (bit-bit_and (a / 2 ^ k) (2 ^ m - 1) (i - k))
          ∙ ap (λ (t : ℕ). bit t (i - k)) (bit_and_mask m (a / 2 ^ k)))
]
