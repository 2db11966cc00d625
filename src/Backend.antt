-- ===== src/Backend.antt =====
-- The loop of `query_and` and `query_or` that backends/wah_backend.cpp, backends/roaring_backend.cpp and
-- backends/stream_backend.cpp share, and what its proofs need of a stored form.
pub mod Query
use bitmap_comp_framework.Prelude.{
  ℕ, zero, suc, ◌≤◌, ◌^◌, ◌≡◌, List, [], ◌∷◌, Bool, Outcome, ok, ◌>>=◌, ◌>>◌, get_or, length,
}
use bitmap_comp_framework.Bits.Raw.{IsRaw}
use bitmap_comp_framework.Bits.Combine.{combine_words}
use bitmap_comp_framework.Archive.{validate_ids}

-- A stored form of raw bitmaps, with an AND and an OR of its own. `Represents n a xs` says that `a`
-- stands for the raw bitmap `xs` of `n` bits.
pub record Representation : Type 1 where
  pub Stored : Type 0
  pub missing : Stored
  pub Represents : ℕ → Stored → List ℕ → Type 0
  pub merge : Bool → Stored → Stored → Outcome Stored
  pub merge_sound :
      (n : ℕ) (is_and : Bool) (a b : Stored) (xs ys : List ℕ)
      → n ≤ 2 ^ 32
      → IsRaw n xs
      → IsRaw n ys
      → Represents n a xs
      → Represents n b ys
      → (c : Stored) × (merge is_and a b ≡ ok c) × Represents n c (combine_words is_and xs ys)

-- The bitmap at the first index, and the indices from the second on.
abbrev pub first_operand : {A : Type 0} → A → List A → List ℕ → A
first_operand missing stored ids = get_or stored (get_or ids 0 0) missing

abbrev pub other_operands : List ℕ → List ℕ
other_operands [] = []
other_operands (id ∷ ids) = ids

-- The loop of `query_and` and `query_or` over the operands from the second on, with the bitmap
-- found by each index, and the whole query.
module _ {A : Type 0} (missing : A) (merge : A → A → Outcome A) (stored : List A) where
  unfoldable pub query_loop : A → List ℕ → Outcome A
  query_loop acc [] = ok acc
  query_loop acc (id ∷ ids) = merge acc (get_or stored id missing) >>= λ acc'. query_loop acc' ids

  unfoldable pub query : List ℕ → Outcome A
  query ids = do
    validate_ids ids (length stored)
    query_loop (first_operand missing stored ids) (other_operands ids)
