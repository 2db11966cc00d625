-- ===== src/Wah/Backend.antt =====
-- `WahBackend` and `WahResult` of backends/wah_backend.cpp.
pub mod Query
pub mod Storage
pub mod Accepts
pub mod Restore
pub mod Built
use bitmap_comp_framework.Prelude.{
  ℕ, zero, suc, ◌+◌, ◌-◌, ◌*◌, ◌/◌, ◌%◌, ◌^◌, Bool, true, false, not, ◌&&◌, List, [], ◌∷◌, ◌++◌,
  length, map, ltb, ◌==◌, if◌then◌else◌, Outcome, ok, throw, ◌>>=◌, ◌>>◌, require, wah_truncated,
  wah_fill_length, wah_padding, wah_length,
}
use bitmap_comp_framework.Bits.{◌>>>◌}
use bitmap_comp_framework.Binary.{put_le, ByteReader, reader, remaining, get}
use bitmap_comp_framework.Binary.Words.{put_words}
use bitmap_comp_framework.Statistics.{RepresentationStats, no_units}
use bitmap_comp_framework.Archive.{
  DatasetArchive, format_id, pack_archive, unpack_archive, validate_inputs,
}
use bitmap_comp_framework.Backend
use bitmap_comp_framework.Wah.{
  groups_for_bits, is_fill, run_value, run_count, encode, decode, merge, cardinality,
}

pub record WahBackend : Type 0 where
  pub compressed : List (List ℕ)
  pub num_bits : ℕ

pub record WahResult : Type 0 where
  pub compressed : List ℕ
  pub num_bits : ℕ

unfoldable pub result_cardinality : WahResult → ℕ
result_cardinality r = cardinality r.compressed

unfoldable pub to_words : WahResult → List ℕ
to_words r = decode r.compressed r.num_bits

unfoldable pub result_bytes : WahResult → ℕ
result_bytes r = length r.compressed * 8

-- The loop that counts the code words of each kind.
unfoldable pub count_units : RepresentationStats → List ℕ → RepresentationStats
count_units s [] = s
count_units s (w ∷ ws) =
    count_units
      (if is_fill w
        then record s { fill_units = (s.fill_units + 1) % 2 ^ 64 }
        else record s { literal_units = (s.literal_units + 1) % 2 ^ 64 })
      ws

unfoldable pub result_statistics : WahResult → RepresentationStats
result_statistics r = count_units no_units r.compressed

unfoldable pub encode_all : ℕ → List (List ℕ) → List (List ℕ)
encode_all num_bits [] = []
encode_all num_bits (raw ∷ raws) = encode raw num_bits ∷ encode_all num_bits raws

unfoldable pub build : List (List ℕ) → ℕ → Outcome WahBackend
build bitmaps num_bits = do
  validate_inputs bitmaps num_bits
  ok (record { compressed = encode_all num_bits bitmaps; num_bits = num_bits })

-- `query_and` and `query_or` differ in the flag that they hand to `merge`.
unfoldable pub query : Bool → WahBackend → List ℕ → Outcome WahResult
query is_and w ids = do
  acc ← Backend.query [] (λ a b. ok (merge a b is_and)) w.compressed ids
  ok (record { compressed = acc; num_bits = w.num_bits })

unfoldable pub query_and : WahBackend → List ℕ → Outcome WahResult
unfolding query
query_and = query true

unfoldable pub query_or : WahBackend → List ℕ → Outcome WahResult
unfolding query
query_or = query false

unfoldable pub sum_bytes : ℕ → List (List ℕ) → ℕ
sum_bytes bytes [] = bytes
sum_bytes bytes (c ∷ cs) = sum_bytes (bytes + length c * 8) cs

unfoldable pub serialized_bytes : WahBackend → ℕ
serialized_bytes w = sum_bytes (32 + 8 * length w.compressed) w.compressed

unfoldable pub payload_bytes : WahBackend → ℕ
payload_bytes w = sum_bytes 0 w.compressed

unfoldable pub all_units : RepresentationStats → List (List ℕ) → RepresentationStats
all_units s [] = s
all_units s (b ∷ bs) = all_units (count_units s b) bs

unfoldable pub statistics : WahBackend → RepresentationStats
unfolding all_units
statistics w = all_units no_units w.compressed

unfoldable pub serialize : WahBackend → Outcome (List ℕ)
serialize w = do
  format ← format_id "wah"
  ok (
      pack_archive (record {
        format = format;
        num_bits = w.num_bits;
        payloads = map (put_words []) w.compressed;
      }))

-- The loop over one payload; it takes eight bytes a round, so `length p / 8` rounds are enough.
module _ (num_bits expected : ℕ) where
  unfoldable pub check_word : ℕ → ℕ → Outcome ℕ
  check_word seen word = do
    require (not (run_count word == 0) && not (ltb (expected - seen) (run_count word)))
        wah_fill_length
    require
        (not (
          (seen + run_count word == expected)
          && not (num_bits % 63 == 0)
          && not (run_value word >>> (num_bits % 63) == 0)))
        wah_padding
    ok (seen + run_count word)

  unfoldable pub load_words : ℕ → ByteReader → ℕ → Outcome (List ℕ × ℕ)
  load_words zero r seen = ok ([], seen)
  load_words (suc fuel) r seen = if remaining r == 0 then ok ([], seen) else do
    (word, r') ← get r 8
    seen' ← check_word seen word
    (ws, last) ← load_words fuel r' seen'
    ok (word ∷ ws, last)

  unfoldable pub load_payload : List ℕ → Outcome (List ℕ)
  load_payload p = do
    require (length p % 8 == 0) wah_truncated
    (ws, seen) ← load_words (length p / 8) (reader p) 0
    require (seen == expected) wah_length
    ok ws

  unfoldable pub load_payloads : List (List ℕ) → Outcome (List (List ℕ))
  load_payloads [] = ok []
  load_payloads (p ∷ ps) = do b ← load_payload p; bs ← load_payloads ps; ok (b ∷ bs)

unfoldable pub deserialize : List ℕ → Outcome WahBackend
deserialize bytes = do
  format ← format_id "wah"
  a ← unpack_archive bytes format
  next ← load_payloads a.num_bits (groups_for_bits a.num_bits) a.payloads
  ok (record { compressed = next; num_bits = a.num_bits })
