-- ===== src/Roaring/Expand.antt =====
-- `set_range` and `Container::to_bitset` of backends/roaring_bitmap.cpp.
use bitmap_comp_framework.Prelude.{
  ℕ, zero, suc, ◌+◌, ◌-◌, ◌*◌, ◌/◌, ◌%◌, ◌≤◌, ◌<◌, max, ◌≡◌, refl, ◌∙◌, ap, sym, List, [], ◌∷◌, All,
  arith, ltb, leb, ◌&&◌, length, replicate, if◌then◌else◌, length-replicate, All-replicate, All-set,
  get_or-replicate,
}
use native.Mathlib.Decide.{ℕ_discrete}
use bitmap_comp_framework.Prelude.Digits.{bit-zero}
use bitmap_comp_framework.Prelude.Masks.{bit_or-lt}
use bitmap_comp_framework.Bits.{set_bit}
use bitmap_comp_framework.Bits.Raw.{
  bit_at, bit_at-le, IsWord, bit_at-set_bit, length-set_bit, get_or-IsWord,
}
use bitmap_comp_framework.Roaring.{
  Run, Container, array, bitset, run, chunk_words, set_positions, set_range, set_values, set_runs,
  to_bitset,
}
use bitmap_comp_framework.Roaring.Sets.{
  same, in_array, in_run, in_runs, member, Disjoint, IsContainer,
}

set_bit-IsWord : (words : List ℕ) (b : ℕ) → All IsWord words → All IsWord (set_bit words b)
unfolding set_bit
set_bit-IsWord words b h =
    All-set IsWord words (b / 64) _ h
      (bit_or-lt 64 _ _ (get_or-IsWord words (b / 64) h) (omega arith))

bit_at-set_bit-same :
    (words : List ℕ) (b j : ℕ)
    → b < 64 * length words
    → bit_at (set_bit words b) j ≡ max (bit_at words j) (same b j)
bit_at-set_bit-same words b j h = elim (ℕ_discrete b j) [
  | yes e ↦
      let one : bit_at (set_bit words b) j ≡ 1 =
        ap (bit_at (set_bit words b)) (sym e) ∙ (bit_at-set_bit words b h).0 in
      ground (arith, bit_at-le words j)
  | no ne ↦ let kept = (bit_at-set_bit words b h).1 j ne in ground arith
]

-- A bitmap to which the positions that `f` tells were added.
pub record Fills (old new : List ℕ) (f : ℕ → ℕ) : Type 0 where
  pub same_length : length new ≡ length old
  pub words : All IsWord new
  pub bits : (j : ℕ) → bit_at new j ≡ max (bit_at old j) (f j)

set_bit-Fills :
    (words : List ℕ) (b : ℕ)
    → All IsWord words
    → b < 64 * length words
    → Fills words (set_bit words b) (same b)
set_bit-Fills words b h p = record {
  same_length = length-set_bit words b;
  words = set_bit-IsWord words b h;
  bits = λ j. bit_at-set_bit-same words b j p;
}

-- First the positions of `f`, then those of `g`: those of `k`.
Fills-then :
    (a b c : List ℕ) (f g k : ℕ → ℕ)
    → Fills a b f
    → Fills b c g
    → ((j : ℕ) → k j ≡ max (f j) (g j))
    → Fills a c k
Fills-then a b c f g k p q e = record {
  same_length = q.same_length ∙ p.same_length;
  words = q.words;
  bits = λ j. omega (arith, p.bits j, q.bits j, e j);
}

Fills-nothing : (a : List ℕ) (f : ℕ → ℕ) → All IsWord a → ((j : ℕ) → f j ≡ 0) → Fills a a f
Fills-nothing a f h e = record { same_length = refl; words = h; bits = λ j. omega (arith, e j) }

abbrev between : ℕ → ℕ → ℕ → ℕ
between v n j = if leb v j && ltb j (v + n) then 1 else 0

set_positions-Fills :
    (n v : ℕ) (bits : List ℕ)
    → All IsWord bits
    → v + n ≤ 64 * length bits
    → Fills bits (set_positions n v bits) (between v n)
unfolding set_positions
set_positions-Fills zero v bits h fits = Fills-nothing bits (between v 0) h (λ j. ground arith)
set_positions-Fills (suc n) v bits h fits =
    let one = set_bit-Fills bits v h (omega arith) in
    Fills-then bits (set_bit bits v) _ (same v) (between (v + 1) n) (between v (suc n)) one
      (set_positions-Fills n (v + 1) (set_bit bits v) one.words (omega (arith, one.same_length)))
      (λ j. ground arith)

set_range-Fills :
    (r : Run) (bits : List ℕ)
    → All IsWord bits
    → r.start ≤ r.last
    → r.last < 64 * length bits
    → Fills bits (set_range bits r.start r.last) (in_run r)
unfolding set_range
set_range-Fills r bits h some fits =
    let f = set_positions-Fills (r.last + 1 - r.start) r.start bits h (omega arith) in
    record {
      same_length = f.same_length;
      words = f.words;
      bits = λ j. f.bits j ∙ ap (max (bit_at bits j)) (spans j);
    }
  where
    spans : (j : ℕ) → between r.start (r.last + 1 - r.start) j ≡ in_run r j
    spans j = unfold in_run in ground arith

set_values-Fills :
    (vs bits : List ℕ)
    → All IsWord bits
    → All (λ v. v < 64 * length bits) vs
    → Fills bits (set_values bits vs) (in_array vs)
unfolding set_values in_array
set_values-Fills [] bits h fits = Fills-nothing bits _ h (λ j. refl)
set_values-Fills (v ∷ vs) bits h fits =
    let one = set_bit-Fills bits v h fits.0 in
    Fills-then bits (set_bit bits v) _ (same v) (in_array vs) _ one
      (set_values-Fills vs (set_bit bits v) one.words (rw one.same_length fits.1)) (λ j. refl)

set_runs-Fills :
    (lo : ℕ) (rs : List Run) (bits : List ℕ)
    → All IsWord bits
    → Disjoint lo rs
    → All (λ r. r.last < 64 * length bits) rs
    → Fills bits (set_runs bits rs) (in_runs rs)
unfolding set_runs in_runs Disjoint
set_runs-Fills lo [] bits h d fits = Fills-nothing bits _ h (λ j. refl)
set_runs-Fills lo (r ∷ rs) bits h d fits =
    let one = set_range-Fills r bits h d.1 fits.0 in
    Fills-then bits (set_range bits r.start r.last) _ (in_run r) (in_runs rs) _ one
      (set_runs-Fills (r.last + 1) rs (set_range bits r.start r.last) one.words d.2
        (rw one.same_length fits.1))
      (λ j. refl)

abbrev clear : List ℕ
clear = replicate chunk_words 0

clear-IsWord : All IsWord clear
clear-IsWord = All-replicate IsWord chunk_words 0 (omega arith)

pub bit_at_zeros : (n j : ℕ) → bit_at (replicate n 0) j ≡ 0
unfolding bit_at
bit_at_zeros n j = rw get_or-replicate (bit-zero (j % 64))

bit_at_clear : (j : ℕ) → bit_at clear j ≡ 0
bit_at_clear j = bit_at_zeros chunk_words j

-- A bitset of one chunk with the positions that `f` tells.
pub record IsChunk (bits : List ℕ) (f : ℕ → ℕ) : Type 0 where
  pub size : length bits ≡ chunk_words
  pub words : All IsWord bits
  pub members : (v : ℕ) → bit_at bits v ≡ f v

Fills-IsChunk : (bits : List ℕ) (f : ℕ → ℕ) → Fills clear bits f → IsChunk bits f
Fills-IsChunk bits f h = record {
  size = h.same_length ∙ length-replicate {A = ℕ} chunk_words 0;
  words = h.words;
  members = λ v. omega (arith, h.bits v, bit_at_clear v);
}

-- `to_bitset` of a well-formed container has the same members.
pub to_bitset-IsChunk : (c : Container) → IsContainer c → IsChunk (to_bitset c) (member c)
unfolding to_bitset member IsContainer
to_bitset-IsChunk (bitset bits) h = record { size = h.0; words = h.1; members = λ v. refl }
to_bitset-IsChunk (array values) h =
    Fills-IsChunk _ _ (set_values-Fills values clear clear-IsWord h.1)
to_bitset-IsChunk (run runs) h =
    Fills-IsChunk _ _ (set_runs-Fills 0 runs clear clear-IsWord h.0 h.1)
