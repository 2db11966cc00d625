-- ===== src/Bits/Window.antt =====
-- `words[i] |= x` on a raw bitmap, and a value that lies across two neighbouring words.
use bitmap_comp_framework.Prelude.{
  ℕ, ◌+◌, ◌-◌, ◌*◌, ◌/◌, ◌%◌, ◌^◌, ◌<◌, bit_or, max, ◌≡◌, ◌∙◌, sym, inl, inr, List, length, All,
  get_or, set, lt_or_ge, arith, leb, if◌then◌else◌, get_or-set_self, get_or-set_ne, length-set,
  All-set, ◌≢◌,
}
use bitmap_comp_framework.Prelude.Digits.{bit, bit-bit_or, bit-shl, bit-shl_low, bit-mod_low}
use bitmap_comp_framework.Prelude.Masks.{bit_or-lt}
use bitmap_comp_framework.Bits.{◌<<<◌}
use bitmap_comp_framework.Bits.Raw.{bit_at, IsWord, get_or-IsWord}

-- `words[i] |= x`
unfoldable pub or_at : List ℕ → ℕ → ℕ → List ℕ
or_at words i x = set words i (bit_or (get_or words i 0) x)

pub length-or_at : (words : List ℕ) (i x : ℕ) → length (or_at words i x) ≡ length words
unfolding or_at
length-or_at words i x = length-set words i _

pub or_at-IsWord :
    (words : List ℕ) (i x : ℕ) → All IsWord words → x < 2 ^ 64 → All IsWord (or_at words i x)
unfolding or_at
or_at-IsWord words i x h hx =
    All-set IsWord words i _ h (bit_or-lt 64 (get_or words i 0) x (get_or-IsWord words i h) hx)

pub bit_at-or_at_self :
    (words : List ℕ) (i x b : ℕ)
    → b / 64 ≡ i
    → i < length words
    → bit_at (or_at words i x) b ≡ max (bit_at words b) (bit x (b % 64))
unfolding or_at bit_at
bit_at-or_at_self words i x b e h =
    rw (e, get_or-set_self words i (bit_or (get_or words i 0) x) 0 h, bit-bit_or)

pub bit_at-or_at_ne :
    (words : List ℕ) (i x b : ℕ) → i ≢ b / 64 → bit_at (or_at words i x) b ≡ bit_at words b
unfolding or_at bit_at
bit_at-or_at_ne words i x b h = rw (get_or-set_ne words i (b / 64) _ 0 h)

-- What a value written at position `start` puts at position `b`.
abbrev pub spot : ℕ → ℕ → ℕ → ℕ
spot value start b = if leb start b then bit value (b - start) else 0

pub spot_before : (value start b : ℕ) → b < start → spot value start b ≡ 0
spot_before value start b h = ground arith

pub spot_at : (value start b i : ℕ) → b ≡ start + i → spot value start b ≡ bit value i
spot_at value start b i e = let at : b - start ≡ i = omega arith in rw at (ground arith)

-- `value << off` in the first word and `value >> (64 - off)` in the second.
pub bit-shifted_low : (value off i : ℕ) → i < 64 → bit (value <<< off) i ≡ spot value off i
bit-shifted_low value off i h = bit-mod_low 64 (value * 2 ^ off) i h ∙ elim (lt_or_ge i off) [
  | inl p ↦ bit-shl_low off value i p ∙ sym (spot_before value off i p)
  | inr p ↦
      bit-shl off value (i - off) i (omega arith)
      ∙ sym (spot_at value off i (i - off) (omega arith))
]
