-- ===== src/Tests/Common.antt =====
-- common/bits.hpp, common/binary.hpp and backends/archive.cpp.
use bitmap_comp_framework.Prelude.{
  ℕ, ◌+◌, ◌-◌, ◌^◌, ◌≤◌, ◌<◌, ◌≡◌, refl, ◌≢◌, ◌↔◌, List, [], ◌∷◌, ◌++◌, All, arith, ok, throw,
  bad_magic,
}
use bitmap_comp_framework.Prelude.Digits.{bit}
use bitmap_comp_framework.Bits.{popcount64, popcount_loop, ctz64, ctz_loop, cardinality, mask_tail}
use bitmap_comp_framework.Bits.Count.{
  ones, ones_in, Popcounts, popcount64-Popcounts, ctz64-lowest, cardinality-ones,
}
use bitmap_comp_framework.Bits.Raw.{bit_at, IsRaw, bit_at-mask_tail}
use bitmap_comp_framework.Binary.{put_le, get, get_loop, take_bytes, require_end}
use bitmap_comp_framework.Binary.RoundTrip.{get-put_le}
use bitmap_comp_framework.Archive.{
  DatasetArchive, pack_archive, unpack_archive, check_magic, unpack_payloads, validate_inputs,
  validate_ids,
}
use bitmap_comp_framework.Archive.Inputs.{validate_inputs-IsRaw, validate_ids-lt}
use bitmap_comp_framework.Archive.RoundTrip.{IsArchive, unpack_archive-pack_archive}
use bitmap_comp_framework.Archive.Strict.{pack_archive-unpack_archive}
use bitmap_comp_framework.Tests.Samples.{first_raw, second_raw, raws, raws-IsWord, second-IsRaw}

popcount_run : popcount64 0xf0f1 ≡ 9
unfolding popcount64 popcount_loop
popcount_run = refl

ctz_run : ctz64 0x50 ≡ 4
unfolding ctz64 ctz_loop
ctz_run = refl

popcount64-Popcounts_example :
    Popcounts (2 ^ 64 - 1) 0 (popcount64 (2 ^ 64 - 1))
    × (popcount64 (2 ^ 64 - 1) ≡ ones 64 (2 ^ 64 - 1))
popcount64-Popcounts_example = popcount64-Popcounts (2 ^ 64 - 1) (omega arith)

ctz64-lowest_example :
    (ctz64 0x50 < 64) × (bit 0x50 (ctz64 0x50) ≡ 1) × ((i : ℕ) → i < ctz64 0x50 → bit 0x50 i ≡ 0)
ctz64-lowest_example = ctz64-lowest 0x50 (omega arith) (omega arith)

cardinality-ones_example : cardinality first_raw ≡ ones_in first_raw
cardinality-ones_example = cardinality-ones first_raw (omega arith) (omega arith)

get-put_le_example :
    get (record { pos = 3; rest = put_le [] 0x1234 2 ++ (9 ∷ []) }) 2
    ≡ ok (0x1234, record { pos = 3 + 2; rest = 9 ∷ [] })
get-put_le_example = get-put_le 0x1234 2 3 (9 ∷ []) (omega arith) (omega arith)

validate_inputs-IsRaw_example :
    (validate_inputs raws 100 ≡ ok tt) ↔ ((100 ≤ 2 ^ 32) × All (IsRaw 100) raws)
validate_inputs-IsRaw_example = validate_inputs-IsRaw raws 100 raws-IsWord

abbrev ids : List ℕ
ids = 0 ∷ 1 ∷ []

validate_ids-lt_example : (validate_ids ids 2 ≡ ok tt) ↔ ((ids ≢ []) × All (λ id. id < 2) ids)
validate_ids-lt_example = validate_ids-lt ids 2

abbrev archive : DatasetArchive
archive = record { format = 2; num_bits = 100; payloads = (1 ∷ 2 ∷ []) ∷ [] ∷ (7 ∷ []) ∷ [] }

archive-IsArchive : IsArchive archive
archive-IsArchive = omega arith

unpack_archive-pack_archive_example : unpack_archive (pack_archive archive) 2 ≡ ok archive
unpack_archive-pack_archive_example = unpack_archive-pack_archive archive archive-IsArchive

-- An archive with one payload of two bytes.
abbrev archive_bytes : List ℕ
archive_bytes =
    b'B' ∷ b'M' ∷ b'C' ∷ b'F' ∷ b'0' ∷ b'0' ∷ b'0' ∷ b'1' ∷ 2 ∷ 0 ∷ 0 ∷ 0 ∷ 0 ∷ 0 ∷ 0 ∷ 0 ∷ 100 ∷ 0
    ∷ 0 ∷ 0 ∷ 0 ∷ 0 ∷ 0 ∷ 0 ∷ 1 ∷ 0 ∷ 0 ∷ 0 ∷ 0 ∷ 0 ∷ 0 ∷ 0 ∷ 2 ∷ 0 ∷ 0 ∷ 0 ∷ 0 ∷ 0 ∷ 0 ∷ 0 ∷ 5 ∷ 6
    ∷ []

abbrev small_archive : DatasetArchive
small_archive = record { format = 2; num_bits = 100; payloads = (5 ∷ 6 ∷ []) ∷ [] }

archive_bytes_run : unpack_archive archive_bytes 2 ≡ ok small_archive
archive_bytes_run =
    unfold unpack_archive check_magic get get_loop unpack_payloads take_bytes require_end in refl

bad_magic_run : unpack_archive (b'B' ∷ b'M' ∷ b'X' ∷ []) 2 ≡ throw bad_magic
bad_magic_run = unfold unpack_archive check_magic get get_loop in refl

pack_archive-unpack_archive_example :
    (pack_archive small_archive ≡ archive_bytes) × (small_archive.format ≡ 2) × (100 ≤ 2 ^ 32)
pack_archive-unpack_archive_example =
    pack_archive-unpack_archive archive_bytes 2 small_archive (omega arith) archive_bytes_run

bit_at-mask_tail_example :
    (66 < 100 → bit_at (mask_tail second_raw 100) 66 ≡ bit_at second_raw 66)
    × (100 ≤ 66 → bit_at (mask_tail second_raw 100) 66 ≡ 0)
bit_at-mask_tail_example = bit_at-mask_tail 100 second_raw (omega arith) second-IsRaw.size 66
