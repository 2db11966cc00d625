-- ===== src/Roaring.antt =====
-- backends/roaring_bitmap.cpp, containers: the values of one chunk as an array, a bitset or runs.
pub mod Sets
pub mod Operations
pub mod Arrays
pub mod Runs
pub mod Coalesce
pub mod Unions
pub mod Expand
pub mod ToArray
pub mod ToRuns
pub mod Convert
pub mod Combine
pub mod Bitmap
pub mod Portable
pub mod Count
use bitmap_comp_framework.Prelude.{
  ℕ, zero, suc, ◌+◌, ◌-◌, ◌*◌, ◌/◌, ◌%◌, ◌^◌, min, max, bit_and, bit_or, Bool, true, false, not,
  ◌&&◌, List, [], ◌∷◌, ◌++◌, length, get_or, replicate, take, ltb, leb, ◌==◌, if◌then◌else◌,
}
use bitmap_comp_framework.Bits
use bitmap_comp_framework.Bits.{◌>>>◌, ◌<<<◌, popcount64, ctz64, test_bit, set_bit}
use bitmap_comp_framework.Bits.Combine.{combine, combine_words}

abbrev pub chunk_bits : ℕ
chunk_bits = 65536

abbrev pub chunk_words : ℕ
chunk_words = 1024

-- An interval of 16-bit offsets, both ends included.
pub record Run : Type 0 where
  pub start : ℕ
  pub last : ℕ

pub data Kind : Type 0 where
  array_kind bitset_kind run_kind : Kind

-- Only the vector that matches `kind` is populated.
pub data Container : Type 0 where
  array : (values : List ℕ) → Container
  bitset : (bits : List ℕ) → Container
  run : (runs : List Run) → Container

abbrev pub kind : Container → Kind
kind (array values) = array_kind
kind (bitset bits) = bitset_kind
kind (run runs) = run_kind

abbrev pub same_kind : Kind → Kind → Bool
same_kind array_kind array_kind = true
same_kind bitset_kind bitset_kind = true
same_kind run_kind run_kind = true
same_kind _ _ = false

-- `~w` on 64 bits.
abbrev pub complement : ℕ → ℕ
complement w = 2 ^ 64 - 1 - w

unfoldable pub count_bitset_loop : ℕ → ℕ → List ℕ → ℕ
count_bitset_loop runs carry [] = runs
count_bitset_loop runs carry (w ∷ ws) =
    count_bitset_loop (runs + popcount64 (bit_and w (complement (bit_or (w <<< 1) carry))))
      (w >>> 63) ws

unfoldable pub count_runs_in_bitset : List ℕ → ℕ
count_runs_in_bitset bits = count_bitset_loop 0 0 bits

unfoldable pub count_array_loop : ℕ → ℕ → List ℕ → ℕ
count_array_loop runs previous [] = runs
count_array_loop runs previous (v ∷ vs) =
    count_array_loop (if v == (previous + 1) % 2 ^ 16 then runs else runs + 1) v vs

unfoldable pub count_runs_in_array : List ℕ → ℕ
count_runs_in_array [] = 0
count_runs_in_array (v ∷ vs) = count_array_loop 1 v vs

-- The loop over one word: each round clears its lowest digit 1, so 64 rounds are enough.
unfoldable pub word_to_array : ℕ → ℕ → ℕ → List ℕ
word_to_array zero base word = []
word_to_array (suc fuel) base word =
    let rest = word_to_array fuel base (bit_and word (word - 1)) in
    if word == 0 then [] else (base + ctz64 word) % 2 ^ 16 ∷ rest

unfoldable pub words_to_array : ℕ → List ℕ → List ℕ
words_to_array w [] = []
words_to_array w (word ∷ words) = word_to_array 64 (w * 64) word ++ words_to_array (w + 1) words

unfoldable pub bitset_to_array : List ℕ → List ℕ
bitset_to_array bits = words_to_array 0 bits

-- The inner loop of `bitset_to_runs`: the last position of the run that position `i` is in.
unfoldable pub run_end : ℕ → List ℕ → ℕ → ℕ
run_end zero bits i = i
run_end (suc fuel) bits i =
    let rest = run_end fuel bits (i + 1) in
    if ltb (i + 1) (length bits * 64) && test_bit bits (i + 1) then rest else i

-- Each round leaves one position behind at least, so as many as there are positions are enough.
unfoldable pub runs_from : ℕ → List ℕ → ℕ → List Run
runs_from zero bits i = []
runs_from (suc fuel) bits i =
    let last = run_end (length bits * 64) bits i in
    let found = test_bit bits i in
    let rest = runs_from fuel bits (if found then last + 1 else i + 1) in
    if not (ltb i (length bits * 64))
    then []
    else if found
    then record { start = i % 2 ^ 16; last = last % 2 ^ 16 } ∷ rest
    else rest

unfoldable pub bitset_to_runs : List ℕ → List Run
bitset_to_runs bits = runs_from (length bits * 64) bits 0

-- `n` rounds of the loop of `set_range`, from position `v` on.
unfoldable pub set_positions : ℕ → ℕ → List ℕ → List ℕ
set_positions zero v bits = bits
set_positions (suc n) v bits = set_positions n (v + 1) (set_bit bits v)

unfoldable pub set_range : List ℕ → ℕ → ℕ → List ℕ
set_range bits start last = set_positions (last + 1 - start) start bits

unfoldable pub sum_runs : ℕ → List Run → ℕ
sum_runs c [] = c
sum_runs c (r ∷ rs) = sum_runs ((c + (r.last + 2 ^ 64 - r.start + 1)) % 2 ^ 64) rs

unfoldable pub cardinality : Container → ℕ
cardinality (array values) = length values
cardinality (bitset bits) = Bits.cardinality bits
cardinality (run runs) = sum_runs 0 runs

unfoldable pub serialized_bytes : Container → ℕ
serialized_bytes (array values) = 2 * length values
serialized_bytes (bitset bits) = chunk_words * 8
serialized_bytes (run runs) = 2 + 4 * length runs

unfoldable pub empty : Container → Bool
empty (array values) = length values == 0
empty (bitset bits) = cardinality (bitset bits) == 0
empty (run runs) = length runs == 0

unfoldable pub set_values : List ℕ → List ℕ → List ℕ
set_values out [] = out
set_values out (v ∷ vs) = set_values (set_bit out v) vs

unfoldable pub set_runs : List ℕ → List Run → List ℕ
set_runs out [] = out
set_runs out (r ∷ rs) = set_runs (set_range out r.start r.last) rs

unfoldable pub to_bitset : Container → List ℕ
to_bitset (bitset bits) = bits
to_bitset (array values) = set_values (replicate chunk_words 0) values
to_bitset (run runs) = set_runs (replicate chunk_words 0) runs

unfoldable pub run_count : Container → ℕ
run_count (array values) = count_runs_in_array values
run_count (run runs) = length runs
run_count (bitset bits) = count_runs_in_bitset bits

-- The kind with the smallest payload, arrays before runs before bitsets where they tie.
unfoldable pub best_kind : ℕ → ℕ → Kind
best_kind card nruns =
    let run_bytes = 2 + 4 * nruns in
    let is_run = ltb run_bytes (2 * card) in
    let best_bytes = if is_run then run_bytes else 2 * card in
    if ltb (chunk_words * 8) best_bytes
    then bitset_kind
    else if is_run
    then run_kind
    else array_kind

unfoldable pub convert : Kind → List ℕ → Container
convert array_kind expanded = array (bitset_to_array expanded)
convert run_kind expanded = run (bitset_to_runs expanded)
convert bitset_kind expanded = bitset expanded

unfoldable pub optimize : Container → Container
optimize c =
    let best = best_kind (cardinality c) (run_count c) in
    if cardinality c == 0
    then array []
    else if same_kind best (kind c)
    then c
    else convert best (to_bitset c)

-- `resize(kChunkWords, 0)`
abbrev pub resized : List ℕ → List ℕ
resized words = take chunk_words (words ++ replicate (chunk_words - length words) 0)

unfoldable pub from_bitset : List ℕ → Container
from_bitset words = optimize (bitset (resized words))
