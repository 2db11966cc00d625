-- ===== src/Wah/Encode.antt =====
-- `encode` of backends/wah_backend.cpp and the groups of the bitmap.
use bitmap_comp_framework.Prelude.{
  ℕ, zero, suc, ◌+◌, ◌*◌, ◌/◌, ◌^◌, ◌≤◌, ◌<◌, ◌≡◌, refl, ◌∙◌, ap, sym, List, [], ◌∷◌, ◌++◌, length,
  get_or, All, arith, length-append, append_assoc, append-nil,
}
use bitmap_comp_framework.Wah.{groups_for_bits, read_group, append, encode_loop, encode}
use bitmap_comp_framework.Wah.Code.{IsCode, expand}
use bitmap_comp_framework.Wah.Groups.{read_group-lt}
use bitmap_comp_framework.Wah.Builder.{append-Appends}

-- The groups of a raw bitmap, `n` of them from group `g` on.
unfoldable pub groups_from : List ℕ → ℕ → ℕ → List ℕ
groups_from raw zero g = []
groups_from raw (suc n) g = read_group raw (g * 63) ∷ groups_from raw n (g + 1)

pub length-groups_from : (raw : List ℕ) (n g : ℕ) → length (groups_from raw n g) ≡ n
unfolding groups_from
length-groups_from raw zero g = refl
length-groups_from raw (suc n) g = ap suc (length-groups_from raw n (g + 1))

pub groups_from-lt : (raw : List ℕ) (n g : ℕ) → All (λ v. v < 2 ^ 63) (groups_from raw n g)
unfolding groups_from
groups_from-lt raw zero g = tt
groups_from-lt raw (suc n) g = (read_group-lt raw (g * 63), groups_from-lt raw n (g + 1))

pub get_or-groups_from :
    (raw : List ℕ) (n g i : ℕ)
    → i < n
    → get_or (groups_from raw n g) i 0 ≡ read_group raw ((g + i) * 63)
unfolding groups_from
get_or-groups_from raw zero g i h = elim h [ ]
get_or-groups_from raw (suc n) g zero h = let at : g + 0 ≡ g = omega arith in rw at
get_or-groups_from raw (suc n) g (suc i) h =
    let at : g + suc i ≡ g + 1 + i = omega arith in
    rw at (get_or-groups_from raw n (g + 1) i (omega arith))

encode_loop-groups :
    (raw : List ℕ) (n g : ℕ) (b : List ℕ)
    → All IsCode b
    → length (expand b) + n < 2 ^ 62
    → (expand (encode_loop raw n g b) ≡ expand b ++ groups_from raw n g)
      × All IsCode (encode_loop raw n g b)
unfolding encode_loop groups_from
encode_loop-groups raw zero g b h fits = (sym (append-nil (expand b)), h)
encode_loop-groups raw (suc n) g b h fits =
    let value = read_group raw (g * 63) in
    let (step, codes) = append-Appends b value 1 h (read_group-lt raw (g * 63)) (omega arith) in
    let longer : length (expand (append b value 1)) ≡ length (expand b) + 1 =
      ap length step ∙ length-append (expand b) (value ∷ []) in
    let (rest, all_codes) =
      encode_loop-groups raw n (g + 1) (append b value 1) codes (omega arith) in
    (rest ∙ rw step (append_assoc (expand b) (value ∷ []) (groups_from raw n (g + 1))), all_codes)

pub groups_for_bits_small : (n : ℕ) → n ≤ 2 ^ 32 → groups_for_bits n ≡ (n + 62) / 63
unfolding groups_for_bits
groups_for_bits_small n h = omega arith

-- `encode` yields code words, and they stand for the groups of the bitmap in order.
pub encode-groups :
    (raw : List ℕ) (num_bits : ℕ)
    → num_bits ≤ 2 ^ 32
    → (expand (encode raw num_bits) ≡ groups_from raw (groups_for_bits num_bits) 0)
      × All IsCode (encode raw num_bits)
unfolding encode expand
encode-groups raw num_bits h =
    encode_loop-groups raw (groups_for_bits num_bits) 0 [] tt
      (omega (arith, groups_for_bits_small num_bits h))
