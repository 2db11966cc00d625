-- ===== src/Tests/Wah.antt =====
-- backends/wah_backend.cpp.
use bitmap_comp_framework.Prelude.{
  ℕ, ◌+◌, ◌^◌, ◌≤◌, max, ◌≡◌, refl, ◌∙◌, ap, true, false, List, [], ◌∷◌, length, All, arith, ok,
}
use bitmap_comp_framework.Bits
use bitmap_comp_framework.Bits.{words_for_bits}
use bitmap_comp_framework.Bits.Raw.{bit_at, IsRaw}
use bitmap_comp_framework.Bits.Window.{spot}
use bitmap_comp_framework.Bits.Total.{total}
use bitmap_comp_framework.Bits.Combine.{combine_bit}
use bitmap_comp_framework.Binary.{get, get_loop, take_bytes, require_end}
use bitmap_comp_framework.Archive.{
  validate_input, validate_each, validate_inputs, unpack_archive, check_magic, unpack_payloads,
  format_id, find_name,
}
use bitmap_comp_framework.Wah.Backend
use bitmap_comp_framework.Backend.Query.{answer}
use bitmap_comp_framework.Wah.{
  groups_for_bits, write_group, append, encode, decode, merge, cardinality,
}
use bitmap_comp_framework.Wah.Code.{expand}
use bitmap_comp_framework.Wah.Builder.{Appends, append-Appends}
use bitmap_comp_framework.Wah.Groups.{bit_at-write_group}
use bitmap_comp_framework.Wah.Decode.{
  IsStream, stream_bit, decode-IsRaw, bit_at-decode, IsStream-room,
}
use bitmap_comp_framework.Wah.RoundTrip.{encode-IsStream, stream_bit-encode, decode-encode}
use bitmap_comp_framework.Wah.Merge.{stream_bit-merge}
use bitmap_comp_framework.Wah.Count.{cardinality-total}
use bitmap_comp_framework.Wah.Backend.{
  WahBackend, WahResult, result_cardinality, to_words, build, serialize, serialized_bytes,
  deserialize, encode_all, load_payloads, load_payload, load_words, check_word,
}
use bitmap_comp_framework.Wah.Backend.Query.{query-build}
use bitmap_comp_framework.Wah.Backend.Storage.{IsStored}
use bitmap_comp_framework.Wah.Backend.Accepts.{deserialize-IsStored}
use bitmap_comp_framework.Wah.Backend.Restore.{IsBackend, deserialize-serialize}
use bitmap_comp_framework.Wah.Backend.Built.{build-IsBackend}
use bitmap_comp_framework.Tests.Samples.{
  first_raw, second_raw, raws, raws-IsWord, first-IsRaw, second-IsRaw,
}

small : 100 ≤ 2 ^ 32
small = omega arith

bit_at-write_group_example :
    bit_at (write_group first_raw 63 12) 66 ≡ max (bit_at first_raw 66) (spot 12 63 66)
bit_at-write_group_example =
    bit_at-write_group first_raw 63 12 66 raws-IsWord.0 (omega arith) (omega arith)

append-Appends_example : Appends (5 ∷ []) 0 3 (append (5 ∷ []) 0 3)
unfolding expand
append-Appends_example = append-Appends (5 ∷ []) 0 3 (omega arith, tt) (omega arith) (omega arith)

decode-encode_example : decode (encode first_raw 100) 100 ≡ first_raw
decode-encode_example = decode-encode first_raw 100 first-IsRaw small

abbrev first_stream : List ℕ
first_stream = encode first_raw 100

abbrev second_stream : List ℕ
second_stream = encode second_raw 100

first_stream-IsStream : IsStream 100 first_stream
first_stream-IsStream = encode-IsStream first_raw 100 first-IsRaw small

second_stream-IsStream : IsStream 100 second_stream
second_stream-IsStream = encode-IsStream second_raw 100 second-IsRaw small

bit_at-decode_example : bit_at (decode first_stream 100) 66 ≡ stream_bit first_stream 66
bit_at-decode_example =
    bit_at-decode first_stream 100 first_stream-IsStream.codes small
      (IsStream-room 100 first_stream small first_stream-IsStream) 66 (omega arith)

decode-IsRaw_example : IsRaw 100 (decode first_stream 100)
decode-IsRaw_example = decode-IsRaw first_stream 100 first_stream-IsStream.codes small

stream_bit-merge_example :
    stream_bit (merge first_stream second_stream true) 63
    ≡ combine_bit true (stream_bit first_stream 63) (stream_bit second_stream 63)
stream_bit-merge_example =
    stream_bit-merge first_stream second_stream 100 true first_stream-IsStream
      second_stream-IsStream small 63

cardinality-total_example : cardinality first_stream ≡ total 100 (stream_bit first_stream)
cardinality-total_example =
    cardinality-total 100 first_stream first_stream-IsStream small
      (λ b h. stream_bit-encode first_raw 100 first-IsRaw small b ∙ first-IsRaw.padding b h)

abbrev built : WahBackend
built = record { compressed = encode_all 100 raws; num_bits = 100 }

build_run : build raws 100 ≡ ok built
unfolding build validate_inputs validate_each validate_input words_for_bits
build_run = refl

abbrev ids : List ℕ
ids = 0 ∷ 1 ∷ []

query-build_example :
    (r : WahResult) × (Backend.query false built ids ≡ ok r)
    × (to_words r ≡ answer false raws ids)
    × (result_cardinality r ≡ Bits.cardinality (answer false raws ids))
query-build_example =
    query-build raws 100 built false ids raws-IsWord build_run (λ e. omega (arith, ap length e))
      (omega arith)

built-IsBackend : IsBackend built
built-IsBackend = build-IsBackend raws 100 built raws-IsWord (omega arith) build_run

build-IsBackend_example : IsBackend built
build-IsBackend_example = build-IsBackend raws 100 built raws-IsWord (omega arith) build_run

deserialize-serialize_example :
    (bytes : List ℕ) × (serialize built ≡ ok bytes)
    × (length bytes ≡ serialized_bytes built)
    × (deserialize bytes ≡ ok built)
deserialize-serialize_example = deserialize-serialize built built-IsBackend

-- One saved bitmap: a literal group and a group of zeros.
abbrev saved_bytes : List ℕ
saved_bytes =
    b'B' ∷ b'M' ∷ b'C' ∷ b'F' ∷ b'0' ∷ b'0' ∷ b'0' ∷ b'1' ∷ 2 ∷ 0 ∷ 0 ∷ 0 ∷ 0 ∷ 0 ∷ 0 ∷ 0 ∷ 100 ∷ 0
    ∷ 0 ∷ 0 ∷ 0 ∷ 0 ∷ 0 ∷ 0 ∷ 1 ∷ 0 ∷ 0 ∷ 0 ∷ 0 ∷ 0 ∷ 0 ∷ 0 ∷ 16 ∷ 0 ∷ 0 ∷ 0 ∷ 0 ∷ 0 ∷ 0 ∷ 0 ∷ 5 ∷ 0
    ∷ 0 ∷ 0 ∷ 0 ∷ 0 ∷ 0 ∷ 0 ∷ 1 ∷ 0 ∷ 0 ∷ 0 ∷ 0 ∷ 0 ∷ 0 ∷ 128 ∷ []

abbrev saved : WahBackend
saved = record { compressed = (5 ∷ (2 ^ 63 + 1) ∷ []) ∷ []; num_bits = 100 }

deserialize_run : deserialize saved_bytes ≡ ok saved
deserialize_run =
    unfold deserialize format_id find_name groups_for_bits unpack_archive check_magic get get_loop
      unpack_payloads take_bytes require_end load_payloads load_payload load_words check_word in
    refl

deserialize-IsStored_example : (100 ≤ 2 ^ 32) × All (IsStored 100) saved.compressed
deserialize-IsStored_example = deserialize-IsStored saved_bytes saved (omega arith) deserialize_run
