-- ===== src/Bits.antt =====
-- common/bits.hpp: raw bitmaps as vectors of 64-bit words. A `uint64_t` is a number below 2 ^ 64;
-- `words[i]` past the end, which C++ leaves undefined, reads 0 here and a write there is lost.
pub mod Count
pub mod Raw
pub mod Window
pub mod Straddle
pub mod Paint
pub mod Total
pub mod Combine
use bitmap_comp_framework.Prelude.{
  ℕ, zero, suc, ◌+◌, ◌-◌, ◌*◌, ◌/◌, ◌%◌, ◌^◌, bit_and, bit_or, Bool, not, List, [], ◌∷◌, get_or,
  set, ◌==◌, if◌then◌else◌,
}

-- `x >> k`, and `x << k` in 64 bits.
infixl 75 ◌>>>◌ ◌<<<◌
abbrev pub ◌>>>◌ : ℕ → ℕ → ℕ
x >>> k = x / 2 ^ k

abbrev pub ◌<<<◌ : ℕ → ℕ → ℕ
x <<< k = x * 2 ^ k % 2 ^ 64

unfoldable pub words_for_bits : ℕ → ℕ
words_for_bits num_bits = (num_bits + 63) % 2 ^ 64 / 64

-- The portable loops of `popcount64` and `ctz64`; a word has 64 digits, so 64 rounds are enough.
unfoldable pub popcount_loop : ℕ → ℕ → ℕ → ℕ
popcount_loop zero w c = c
popcount_loop (suc fuel) w c =
    let rest = popcount_loop fuel (bit_and w (w - 1)) (c + 1) in if w == 0 then c else rest

unfoldable pub popcount64 : ℕ → ℕ
popcount64 w = popcount_loop 64 w 0

unfoldable pub ctz_loop : ℕ → ℕ → ℕ → ℕ
ctz_loop zero w c = c
ctz_loop (suc fuel) w c =
    let rest = ctz_loop fuel (w >>> 1) (c + 1) in if bit_and w 1 == 0 then rest else c

unfoldable pub ctz64 : ℕ → ℕ
ctz64 w = ctz_loop 64 w 0

unfoldable pub test_bit : List ℕ → ℕ → Bool
test_bit words b = not (bit_and (get_or words (b / 64) 0 >>> (b % 64)) 1 == 0)

unfoldable pub set_bit : List ℕ → ℕ → List ℕ
set_bit words b = set words (b / 64) (bit_or (get_or words (b / 64) 0) (1 <<< (b % 64)))

-- `words.back() &= mask`
unfoldable pub mask_back : List ℕ → ℕ → List ℕ
mask_back [] mask = []
mask_back (w ∷ []) mask = bit_and w mask ∷ []
mask_back (w ∷ x ∷ xs) mask = w ∷ mask_back (x ∷ xs) mask

unfoldable pub mask_tail : List ℕ → ℕ → List ℕ
unfolding mask_back
mask_tail words num_bits =
    let tail = num_bits % 64 in if tail == 0 then words else mask_back words ((1 <<< tail) - 1)

unfoldable pub cardinality_loop : ℕ → List ℕ → ℕ
cardinality_loop c [] = c
cardinality_loop c (w ∷ ws) = cardinality_loop ((c + popcount64 w) % 2 ^ 64) ws

unfoldable pub cardinality : List ℕ → ℕ
cardinality words = cardinality_loop 0 words
