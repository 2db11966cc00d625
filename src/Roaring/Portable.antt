-- ===== src/Roaring/Portable.antt =====
-- `Bitmap::serialize` and `Bitmap::deserialize` of backends/roaring_bitmap.cpp: the portable format.
use bitmap_comp_framework.Prelude.{
  ℕ, zero, suc, ◌+◌, ◌-◌, ◌*◌, ◌/◌, ◌%◌, ◌^◌, bit_and, bit_or, Bool, true, false, not, ◌&&◌, ◌||◌,
  List, [], ◌∷◌, ◌++◌, length, get_or, set, replicate, ltb, leb, ◌==◌, if◌then◌else◌, Outcome, ok,
  ◌>>=◌, ◌>>◌, require, roaring_cookie, roaring_count, roaring_flag_padding, roaring_descriptors,
  roaring_keys, roaring_offset, roaring_run_count, roaring_run, roaring_array, roaring_cardinality,
}
use bitmap_comp_framework.Bits.{◌>>>◌}
use bitmap_comp_framework.Binary.{
  put_le, ByteReader, reader, remaining, position, get, take_bytes, require_end,
}
use bitmap_comp_framework.Roaring
use bitmap_comp_framework.Roaring.{
  Run, Container, array, bitset, run, run_kind, kind, same_kind, chunk_words,
}
use bitmap_comp_framework.Roaring.Bitmap.{Chunk, Bitmap, has_runs}

-- `run_flags`, from chunk `i` on.
unfoldable pub flag_loop : ℕ → List Chunk → List ℕ → List ℕ
flag_loop i [] flags = flags
flag_loop i (c ∷ cs) flags = flag_loop (i + 1) cs (
    if same_kind (kind c.container) run_kind
    then set flags (i / 8) (bit_or (get_or flags (i / 8) 0) (2 ^ (i % 8)))
    else flags)

unfoldable pub put_descriptors : List ℕ → List Chunk → List ℕ
put_descriptors out [] = out
put_descriptors out (c ∷ cs) =
    put_descriptors
      (put_le (put_le out c.key 2) ((Roaring.cardinality c.container + 2 ^ 64 - 1) % 2 ^ 64) 2) cs

unfoldable pub put_offsets : List ℕ → ℕ → List Chunk → List ℕ
put_offsets out offset [] = out
put_offsets out offset (c ∷ cs) =
    put_offsets (put_le out offset 4) (offset + Roaring.serialized_bytes c.container) cs

unfoldable pub put_each : ℕ → List ℕ → List ℕ → List ℕ
put_each bytes out [] = out
put_each bytes out (v ∷ vs) = put_each bytes (put_le out v bytes) vs

unfoldable pub put_runs : List ℕ → List Run → List ℕ
put_runs out [] = out
put_runs out (r ∷ rs) =
    put_runs (put_le (put_le out r.start 2) ((r.last + 2 ^ 32 - r.start) % 2 ^ 32) 2) rs

unfoldable pub put_container : List ℕ → Container → List ℕ
put_container out (array values) = put_each 2 out values
put_container out (bitset bits) = put_each 8 out bits
put_container out (run runs) = put_runs (put_le out (length runs) 2) runs

unfoldable pub put_containers : List ℕ → List Chunk → List ℕ
put_containers out [] = out
put_containers out (c ∷ cs) = put_containers (put_container out c.container) cs

unfoldable pub serialize : Bitmap → List ℕ
serialize b =
    let count = length b.chunks in
    let any = has_runs b.chunks in
    let head =
      if any
      then put_le [] (bit_or 12347 ((count + 2 ^ 64 - 1) % 2 ^ 32 * 2 ^ 16 % 2 ^ 32)) 4
        ++ flag_loop 0 b.chunks (replicate ((count + 7) / 8) 0)
      else put_le (put_le [] 12346 4) count 4 in
    let described = put_descriptors head b.chunks in
    let placed =
      if not any || leb 4 count
      then put_offsets described (length described + 4 * count) b.chunks
      else described in
    put_containers placed b.chunks

-- The last element, where there is one.
abbrev pub back_or : List ℕ → ℕ
back_or xs = get_or xs (length xs - 1) 0

-- `push_back` of keys and cardinalities, in pairs; `previous` is what was pushed so far.
unfoldable pub get_descriptors : ℕ → List ℕ → ByteReader → Outcome (List (ℕ × ℕ) × ByteReader)
get_descriptors zero previous r = ok ([], r)
get_descriptors (suc n) previous r = do
  (key, r₁) ← get r 2
  require (length previous == 0 || ltb (back_or previous) key) roaring_keys
  (card, r₂) ← get r₁ 2
  (more, r₃) ← get_descriptors n (key ∷ []) r₂
  ok ((key, card + 1) ∷ more, r₃)

unfoldable pub get_each : ℕ → ℕ → ByteReader → Outcome (List ℕ × ByteReader)
get_each bytes zero r = ok ([], r)
get_each bytes (suc n) r = do (v, r₁) ← get r bytes; (vs, r₂) ← get_each bytes n r₁; ok (v ∷ vs, r₂)

-- The loop over the values of an array, after `previous`.
unfoldable pub get_values : ℕ → List ℕ → ByteReader → Outcome (List ℕ × ByteReader)
get_values zero previous r = ok ([], r)
get_values (suc n) previous r = do
  (v, r₁) ← get r 2
  require (length previous == 0 || ltb (back_or previous) v) roaring_array
  (vs, r₂) ← get_values n (v ∷ []) r₁
  ok (v ∷ vs, r₂)

-- The loop over the intervals of a run container, after one that ends at the element of `previous`.
unfoldable pub get_runs : ℕ → List ℕ → ByteReader → Outcome (List Run × ByteReader)
get_runs zero previous r = ok ([], r)
get_runs (suc n) previous r = do
  (start, r₁) ← get r 2
  (extent, r₂) ← get r₁ 2
  require (leb (start + extent) 65535 && (length previous == 0 || ltb (back_or previous) start))
      roaring_run
  (rs, r₃) ← get_runs n ((start + extent) ∷ []) r₂
  ok (record { start = start; last = start + extent } ∷ rs, r₃)

unfoldable pub get_array : ℕ → ByteReader → Outcome (Container × ByteReader)
get_array card r = do (vs, r₁) ← get_values card [] r; ok (array vs, r₁)

unfoldable pub get_bitset : ByteReader → Outcome (Container × ByteReader)
get_bitset r = do (ws, r₁) ← get_each 8 chunk_words r; ok (bitset ws, r₁)

unfoldable pub get_container : Bool → ℕ → ByteReader → Outcome (Container × ByteReader)
get_container true card r = do
  (nruns, r₁) ← get r 2
  require (not (nruns == 0) && leb nruns (remaining r₁ / 4)) roaring_run_count
  (rs, r₂) ← get_runs nruns [] r₁
  ok (run rs, r₂)
get_container false card r = if leb card 4096 then get_array card r else get_bitset r

-- The loop over the containers, from chunk `i` on.
module _ (any : Bool) (flags offsets : List ℕ) where
  unfoldable pub get_containers : ℕ → List (ℕ × ℕ) → ByteReader → Outcome (List Chunk × ByteReader)
  get_containers i [] r = ok ([], r)
  get_containers i ((key, card) ∷ more) r = do
    require (length offsets == 0 || (get_or offsets i 0 == position r)) roaring_offset
    (c, r₁) ←
        get_container (any && not (bit_and (get_or flags (i / 8) 0) (2 ^ (i % 8)) == 0)) card r
    require (Roaring.cardinality c == card) roaring_cardinality
    (cs, r₂) ← get_containers (i + 1) more r₁
    ok (record { key = key; container = c } ∷ cs, r₂)

unfoldable pub get_count : Bool → ℕ → ByteReader → Outcome (ℕ × ByteReader)
get_count true cookie r = ok (cookie >>> 16 + 1, r)
get_count false cookie r = get r 4

unfoldable pub get_flags : Bool → ℕ → ByteReader → Outcome (List ℕ × ByteReader)
get_flags true count r = take_bytes r ((count + 7) / 8)
get_flags false count r = ok ([], r)

unfoldable pub get_offsets : Bool → ℕ → ByteReader → Outcome (List ℕ × ByteReader)
get_offsets true count r = get_each 4 count r
get_offsets false count r = ok ([], r)

unfoldable pub deserialize : List ℕ → Outcome Bitmap
deserialize payload = do
  (cookie, r₀) ← get (reader payload) 4
  let any = bit_and cookie 65535 == 12347
  require (any || (cookie == 12346)) roaring_cookie
  (count, r₁) ← get_count any cookie r₀
  require (leb count 65536) roaring_count
  (flags, r₂) ← get_flags any count r₁
  require (not (any && not (count % 8 == 0) && not (back_or flags >>> (count % 8) == 0)))
      roaring_flag_padding
  require (leb count (remaining r₂ / 4)) roaring_descriptors
  (described, r₃) ← get_descriptors count [] r₂
  (offsets, r₄) ← get_offsets (not any || leb 4 count) count r₃
  (chunks, r₅) ← get_containers any flags offsets 0 described r₄
  require_end r₅
  ok (record { chunks = chunks })
