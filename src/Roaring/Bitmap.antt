-- ===== src/Roaring/Bitmap.antt =====
-- `Bitmap` of backends/roaring_bitmap.cpp: chunks of 2^16 positions by key, the empty ones left out.
pub mod Merge
pub mod Union
pub mod Words
pub mod Decode
pub mod Count
use bitmap_comp_framework.Prelude.{
  ℕ, zero, suc, ◌+◌, ◌-◌, ◌*◌, ◌/◌, ◌%◌, ◌^◌, min, Bool, true, false, not, ◌&&◌, ◌||◌, List, [],
  ◌∷◌, ◌++◌, length, get_or, set, take, drop, replicate, ltb, leb, if◌then◌else◌,
}
use bitmap_comp_framework.Bits.{words_for_bits, mask_tail}
use bitmap_comp_framework.Roaring
use bitmap_comp_framework.Roaring.{
  Container, array, bitset, run, chunk_words, from_bitset, to_bitset, empty, kind, same_kind,
  run_kind,
}
use bitmap_comp_framework.Roaring.Operations.{container_and, container_or}

pub record Chunk : Type 0 where
  pub key : ℕ
  pub container : Container

-- Sorted by key, no container empty.
pub record Bitmap : Type 0 where
  pub chunks : List Chunk

-- One round of the loop of `from_words`.
abbrev pub chunk_at : ℕ → List ℕ → ℕ → List Chunk
chunk_at num_words raw c =
    let container = from_bitset (
      take (min (c * chunk_words + chunk_words) num_words - c * chunk_words)
        (drop (c * chunk_words) raw)) in
    if not (empty container) then record { key = c % 2 ^ 16; container = container } ∷ [] else []

unfoldable pub chunk_loop : ℕ → ℕ → List ℕ → ℕ → List Chunk
chunk_loop num_words zero raw c = []
chunk_loop num_words (suc n) raw c = chunk_at num_words raw c ++ chunk_loop num_words n raw (c + 1)

unfoldable pub from_words : List ℕ → ℕ → Bitmap
from_words raw num_bits =
    let num_words = words_for_bits num_bits in
    record { chunks = chunk_loop num_words ((num_words + chunk_words - 1) / chunk_words) raw 0 }

-- `n` rounds of the inner loop of `to_words`, from word `i` of the chunk on.
unfoldable pub write_words : ℕ → ℕ → ℕ → List ℕ → List ℕ → List ℕ
write_words zero base i bits raw = raw
write_words (suc n) base i bits raw =
    if ltb (base + i) (length raw)
    then write_words n base (i + 1) bits (set raw (base + i) (get_or bits i 0))
    else raw

unfoldable pub write_chunks : List ℕ → List Chunk → List ℕ
write_chunks raw [] = raw
write_chunks raw (c ∷ cs) =
    write_chunks (write_words chunk_words (c.key * chunk_words) 0 (to_bitset c.container) raw) cs

unfoldable pub to_words : Bitmap → ℕ → List ℕ
to_words b num_bits =
    mask_tail (write_chunks (replicate (words_for_bits num_bits) 0) b.chunks) num_bits

unfoldable pub sum_cardinality : ℕ → List Chunk → ℕ
sum_cardinality c [] = c
sum_cardinality c (chunk ∷ chunks) =
    sum_cardinality ((c + Roaring.cardinality chunk.container) % 2 ^ 64) chunks

unfoldable pub cardinality : Bitmap → ℕ
cardinality b = sum_cardinality 0 b.chunks

unfoldable pub has_runs : List Chunk → Bool
has_runs [] = false
has_runs (c ∷ cs) = same_kind (kind c.container) run_kind || has_runs cs

unfoldable pub sum_bytes : ℕ → List Chunk → ℕ
sum_bytes bytes [] = bytes
sum_bytes bytes (c ∷ cs) = sum_bytes (bytes + Roaring.serialized_bytes c.container) cs

unfoldable pub serialized_bytes : Bitmap → ℕ
serialized_bytes b =
    let count = length b.chunks in
    let head = (if has_runs b.chunks then 4 + (count + 7) / 8 else 8) + 4 * count in
    let offsets = if not (has_runs b.chunks) || leb 4 count then 4 * count else 0 in
    sum_bytes (head + offsets) b.chunks

-- What one round of a merge pushes, and what it leaves of the operands.
pub record Round : Type 0 where
  pub pushed : List Chunk
  pub left : List Chunk
  pub right : List Chunk

abbrev pub and_round : Chunk → List Chunk → Chunk → List Chunk → Round
and_round a xs b ys =
    let c = container_and a.container b.container in
    if ltb a.key b.key
    then record { pushed = []; left = xs; right = b ∷ ys }
    else if ltb b.key a.key
    then record { pushed = []; left = a ∷ xs; right = ys }
    else record {
      pushed = if not (empty c) then record { key = a.key; container = c } ∷ [] else [];
      left = xs;
      right = ys;
    }

-- Each round drops a chunk of one operand at least.
unfoldable pub and_loop : ℕ → List Chunk → List Chunk → List Chunk
and_loop zero xs ys = []
and_loop (suc fuel) [] ys = []
and_loop (suc fuel) (a ∷ xs) [] = []
and_loop (suc fuel) (a ∷ xs) (b ∷ ys) =
    let r = and_round a xs b ys in r.pushed ++ and_loop fuel r.left r.right

unfoldable pub bitmap_and : Bitmap → Bitmap → Bitmap
bitmap_and a b = record { chunks = and_loop (length a.chunks + length b.chunks) a.chunks b.chunks }

abbrev pub or_round : List Chunk → List Chunk → Round
or_round [] [] = record { pushed = []; left = []; right = [] }
or_round (a ∷ xs) [] = record { pushed = a ∷ []; left = xs; right = [] }
or_round [] (b ∷ ys) = record { pushed = b ∷ []; left = []; right = ys }
or_round (a ∷ xs) (b ∷ ys) =
    if ltb a.key b.key
    then record { pushed = a ∷ []; left = xs; right = b ∷ ys }
    else if ltb b.key a.key
    then record { pushed = b ∷ []; left = a ∷ xs; right = ys }
    else record {
      pushed = record { key = a.key; container = container_or a.container b.container } ∷ [];
      left = xs;
      right = ys;
    }

unfoldable pub or_loop : ℕ → List Chunk → List Chunk → List Chunk
or_loop zero xs ys = []
or_loop (suc fuel) xs ys = let r = or_round xs ys in r.pushed ++ or_loop fuel r.left r.right

unfoldable pub bitmap_or : Bitmap → Bitmap → Bitmap
bitmap_or a b = record { chunks = or_loop (length a.chunks + length b.chunks) a.chunks b.chunks }
