-- ===== src/Archive.antt =====
-- backends/archive.cpp: the dataset archive and the checks that every backend makes on its inputs.
pub mod Inputs
pub mod RoundTrip
pub mod Reads
pub mod Strict
pub mod Payloads
use Prim.Native.String.{String}
use text.Mathlib.Text.{◌==◌ as str_eq}
use bitmap_comp_framework.Prelude.{
  ℕ, zero, suc, ◌+◌, ◌-◌, ◌*◌, ◌/◌, ◌%◌, ◌^◌, Bool, not, ◌&&◌, List, [], ◌∷◌, ◌++◌, length, get_or,
  ltb, leb, ◌==◌, if◌then◌else◌, Outcome, ok, throw, ◌>>=◌, ◌>>◌, require, unknown_representation,
  bad_magic, representation_mismatch, nonzero_reserved, archive_universe, bad_count, universe,
  word_count, nonzero_padding, no_operands, id_out_of_range,
}
use bitmap_comp_framework.Bits.{◌>>>◌, words_for_bits}
use bitmap_comp_framework.Binary.{
  put_le, ByteReader, reader, remaining, get, take_bytes, require_end,
}

pub record DatasetArchive : Type 0 where
  pub format : ℕ
  pub num_bits : ℕ
  pub payloads : List (List ℕ)

abbrev pub format_names : List String
format_names = "raw" ∷ "wah" ∷ "roaring" ∷ "ewah" ∷ "concise" ∷ "plwah" ∷ "val" ∷ "sbh" ∷ "bbc" ∷ []

-- `std::find` from index `i` on, and the identifier one past it.
unfoldable pub find_name : String → ℕ → List String → Outcome ℕ
find_name name i [] = throw unknown_representation
find_name name i (s ∷ names) = if str_eq s name then ok (i + 1) else find_name name (i + 1) names

unfoldable pub format_id : String → Outcome ℕ
format_id name = find_name name 0 format_names

-- The bytes of "BMCF0001".
abbrev pub magic : List ℕ
magic = b'B' ∷ b'M' ∷ b'C' ∷ b'F' ∷ b'0' ∷ b'0' ∷ b'0' ∷ b'1' ∷ []

unfoldable pub pack_payloads : List ℕ → List (List ℕ) → List ℕ
pack_payloads out [] = out
pack_payloads out (p ∷ ps) = pack_payloads (put_le out (length p) 8 ++ p) ps

unfoldable pub pack_archive : DatasetArchive → List ℕ
pack_archive a =
    pack_payloads
      (put_le (put_le (put_le (put_le magic a.format 4) 0 4) a.num_bits 8) (length a.payloads) 8)
      a.payloads

unfoldable pub check_magic : List ℕ → ByteReader → Outcome ByteReader
check_magic [] r = ok r
check_magic (c ∷ cs) r = do (b, r') ← get r 1; require (b == c) bad_magic; check_magic cs r'

unfoldable pub unpack_payloads : ℕ → ByteReader → Outcome (List (List ℕ) × ByteReader)
unpack_payloads zero r = ok ([], r)
unpack_payloads (suc count) r = do
  (len, r₁) ← get r 8
  (p, r₂) ← take_bytes r₁ len
  (ps, r₃) ← unpack_payloads count r₂
  ok (p ∷ ps, r₃)

unfoldable pub unpack_archive : List ℕ → ℕ → Outcome DatasetArchive
unpack_archive bytes expected = do
  r₀ ← check_magic magic (reader bytes)
  (format, r₁) ← get r₀ 4
  require (format == expected) representation_mismatch
  (reserved, r₂) ← get r₁ 4
  require (reserved == 0) nonzero_reserved
  (num_bits, r₃) ← get r₂ 8
  require (leb num_bits (2 ^ 32)) archive_universe
  (count, r₄) ← get r₃ 8
  require (leb count (remaining r₄ / 8)) bad_count
  (payloads, r₅) ← unpack_payloads count r₄
  require_end r₅
  ok (record { format = format; num_bits = num_bits; payloads = payloads })

-- `b.back()`, of a vector that is not empty.
abbrev pub back : List ℕ → ℕ
back words = get_or words (length words - 1) 0

-- The test of one bitmap: its size, then its padding.
unfoldable pub validate_input : ℕ → List ℕ → Outcome (Unit {0})
validate_input n b = do
  require (length b == words_for_bits n) word_count
  require (not (not (n % 64 == 0) && not (length b == 0) && not (back b >>> (n % 64) == 0)))
      nonzero_padding

unfoldable pub validate_each : ℕ → List (List ℕ) → Outcome (Unit {0})
validate_each n [] = ok tt
validate_each n (b ∷ bs) = do validate_input n b; validate_each n bs

unfoldable pub validate_inputs : List (List ℕ) → ℕ → Outcome (Unit {0})
validate_inputs bitmaps n = do require (leb n (2 ^ 32)) universe; validate_each n bitmaps

unfoldable pub check_ids : ℕ → List ℕ → Outcome (Unit {0})
check_ids count [] = ok tt
check_ids count (id ∷ ids) = do require (ltb id count) id_out_of_range; check_ids count ids

unfoldable pub validate_ids : List ℕ → ℕ → Outcome (Unit {0})
validate_ids [] count = throw no_operands
validate_ids (id ∷ ids) count = check_ids count (id ∷ ids)
