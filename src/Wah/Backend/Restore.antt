-- ===== src/Wah/Backend/Restore.antt =====
-- `WahBackend::serialize` and then `deserialize` (backends/wah_backend.cpp).
use bitmap_comp_framework.Prelude.{
  ℕ, zero, suc, ◌+◌, ◌-◌, ◌*◌, ◌/◌, ◌%◌, ◌^◌, ◌≤◌, ◌<◌, ◌≡◌, refl, ap, sym, ◌≢◌, true, false, not,
  ◌&&◌, List, [], ◌∷◌, ◌++◌, length, map, All, arith, Outcome, ok, ltb, ◌==◌, length-append,
}
use native.Mathlib.Decide.{ℕ_discrete}
use bitmap_comp_framework.Bits.{◌>>>◌}
use bitmap_comp_framework.Binary.RoundTrip.{le_bytes, length-le_bytes, get-le_bytes}
use bitmap_comp_framework.Archive.{DatasetArchive, format_id, find_name, pack_archive}
use bitmap_comp_framework.Archive.RoundTrip.{
  IsArchive, unpack_archive-pack_archive, length-pack_archive, total_payload,
}
use bitmap_comp_framework.Wah.{groups_for_bits, run_value, run_count}
use bitmap_comp_framework.Wah.Code.{IsCode, expand}
use bitmap_comp_framework.Wah.Builder.{length-expand_cons}
use bitmap_comp_framework.Wah.Encode.{groups_for_bits_small}
use bitmap_comp_framework.Binary.Words.{
  put_words, word_bytes, put_words-word_bytes, length-word_bytes,
}
use bitmap_comp_framework.Wah.Backend.{
  WahBackend, serialize, check_word, load_words, load_payload, load_payloads, deserialize,
  serialized_bytes, sum_bytes,
}
use bitmap_comp_framework.Wah.Backend.Storage.{IsStored, LastClear, LastClear-tail, LastClear-head}
use bitmap_comp_framework.Wah.Backend.Accepts.{clear_of_IsStored}

abbrev loaded : List ℕ → ℕ → Outcome (List ℕ × ℕ)
loaded ws last = ok (ws, last)

tests_pass :
    (expected seen m c s : ℕ)
    → 0 < c
    → seen + c ≤ expected
    → (seen + c ≡ expected → m ≢ 0 → s ≡ 0)
    → ((not (c == 0) && not (ltb (expected - seen) c)) ≡ true)
      × ((not ((seen + c == expected) && not (m == 0) && not (s == 0))) ≡ true)
tests_pass expected seen m c s pos room clear = elim (ℕ_discrete (seen + c) expected) [
  | yes e ↦ elim (ℕ_discrete m 0) [
    | yes z ↦ (ground arith, ground arith)
    | no nz ↦ let low = clear e nz in (ground arith, ground arith)
  ]
  | no ne ↦ (ground arith, ground arith)
]

module _ (n expected : ℕ) where
  check_word_passes :
      (seen w : ℕ)
      → 0 < run_count w
      → seen + run_count w ≤ expected
      → (seen + run_count w ≡ expected → n % 63 ≢ 0 → run_value w >>> (n % 63) ≡ 0)
      → check_word n expected seen w ≡ ok (seen + run_count w)
  unfolding check_word
  check_word_passes seen w pos room clear =
      let (sized, padded) =
        tests_pass expected seen (n % 63) (run_count w) (run_value w >>> (n % 63)) pos room clear in
      rw (sized, padded)

  load_words-word_bytes :
      (ws : List ℕ) (fuel pos seen : ℕ)
      → All IsCode ws
      → length ws ≤ fuel
      → seen + length (expand ws) ≤ expected
      → LastClear n expected seen ws
      → load_words n expected fuel (record { pos = pos; rest = word_bytes ws }) seen
        ≡ ok (ws, seen + length (expand ws))
  unfolding load_words word_bytes expand
  load_words-word_bytes [] zero pos seen codes enough room clear = ap (loaded []) (omega arith)
  load_words-word_bytes [] (suc fuel) pos seen codes enough room clear =
      ap (loaded []) (omega arith)
  load_words-word_bytes (w ∷ ws) zero pos seen codes enough room clear = absurd (omega arith)
  load_words-word_bytes (w ∷ ws) (suc fuel) pos seen codes enough room clear =
      let sizes = length-expand_cons w ws in
      let more : (length (le_bytes 8 w ++ word_bytes ws) == 0) ≡ false =
        ground (arith, length-append (le_bytes 8 w) (word_bytes ws), length-le_bytes 8 w) in
      let pass =
        check_word_passes seen w codes.0.1 (omega arith)
          (LastClear-head n expected seen w ws clear codes.0.1) in
      let rest =
        load_words-word_bytes ws fuel (pos + 8) (seen + run_count w) codes.1 (omega arith)
          (omega arith) (LastClear-tail n expected seen w ws clear) in
      let sum : seen + run_count w + length (expand ws) ≡ seen + length (expand (w ∷ ws)) =
        omega arith in
      rw (more, get-le_bytes w 8 pos (word_bytes ws) (omega arith) codes.0.0, pass, rest)
        (ap (loaded (w ∷ ws)) sum)

load_payload-word_bytes :
    (n : ℕ) (ws : List ℕ)
    → n ≤ 2 ^ 32
    → IsStored n ws
    → load_payload n (groups_for_bits n) (word_bytes ws) ≡ ok ws
unfolding load_payload
load_payload-word_bytes n ws small good =
    let long = length-word_bytes ws in
    let whole : (length (word_bytes ws) % 8 == 0) ≡ true = ground arith in
    let run =
      load_words-word_bytes n (groups_for_bits n) ws (length (word_bytes ws) / 8) 0 0
        good.stream.codes (omega arith) (omega (arith, good.stream.group_count))
        (clear_of_IsStored n small ws good) in
    let ends : (0 + length (expand ws) == groups_for_bits n) ≡ true =
      ground (arith, good.stream.group_count) in
    rw (whole, run, ends)

load_payloads-word_bytes :
    (n : ℕ) (bs : List (List ℕ))
    → n ≤ 2 ^ 32
    → All (IsStored n) bs
    → load_payloads n (groups_for_bits n) (map (put_words []) bs) ≡ ok bs
unfolding load_payloads
load_payloads-word_bytes n [] small good = refl
load_payloads-word_bytes n (b ∷ bs) small good = rw (
  put_words-word_bytes [] b,
  load_payload-word_bytes n b small good.0,
  load_payloads-word_bytes n bs small good.1,
)

-- A backend within the bounds of the archive.
pub record IsBackend (w : WahBackend) : Type 0 where
  pub universe_fits : w.num_bits ≤ 2 ^ 32
  pub stored : All (IsStored w.num_bits) w.compressed
  pub count_fits : length w.compressed < 2 ^ 61

wah_format : format_id "wah" ≡ ok 2
unfolding format_id find_name
wah_format = refl

-- A stream has no more code words than groups.
length-le-expand : (ws : List ℕ) → All IsCode ws → length ws ≤ length (expand ws)
unfolding expand
length-le-expand [] h = omega arith
length-le-expand (w ∷ ws) h = omega (arith, length-expand_cons w ws, length-le-expand ws h.1, h.0.1)

payloads_fit :
    (n : ℕ) (bs : List (List ℕ))
    → n ≤ 2 ^ 32
    → All (IsStored n) bs
    → All (λ p. length p < 2 ^ 64) (map (put_words []) bs)
payloads_fit n [] small good = tt
payloads_fit n (b ∷ bs) small good = (
  rw (put_words-word_bytes [] b) (
      omega (
        arith,
        length-word_bytes b,
        length-le-expand b good.0.stream.codes,
        good.0.stream.group_count,
        groups_for_bits_small n small,
      )),
  payloads_fit n bs small good.1,
)

length-map_words : (bs : List (List ℕ)) → length (map (put_words []) bs) ≡ length bs
length-map_words [] = refl
length-map_words (b ∷ bs) = ap suc (length-map_words bs)

abbrev archive_of : WahBackend → DatasetArchive
archive_of w = record {
  format = 2;
  num_bits = w.num_bits;
  payloads = map (put_words []) w.compressed;
}

archive_of-IsArchive : (w : WahBackend) → IsBackend w → IsArchive (archive_of w)
archive_of-IsArchive w good = record {
  format_fits = omega arith;
  universe_fits = good.universe_fits;
  count_fits = omega (arith, good.count_fits, length-map_words w.compressed);
  lengths_fit = payloads_fit w.num_bits w.compressed good.universe_fits good.stored;
}

sum_bytes-total :
    (bytes : ℕ) (bs : List (List ℕ))
    → sum_bytes bytes bs ≡ bytes + total_payload (map (put_words []) bs)
unfolding sum_bytes total_payload
sum_bytes-total bytes [] = omega arith
sum_bytes-total bytes (b ∷ bs) = omega (
  arith,
  sum_bytes-total (bytes + length b * 8) bs,
  ap length (put_words-word_bytes [] b),
  length-word_bytes b,
)

serialized_bytes-length :
    (w : WahBackend) → serialized_bytes w ≡ length (pack_archive (archive_of w))
unfolding serialized_bytes
serialized_bytes-length w = omega (
  arith,
  sum_bytes-total (32 + 8 * length w.compressed) w.compressed,
  length-pack_archive (archive_of w),
  length-map_words w.compressed,
)

-- On a backend within the bounds of the format, `serialize` succeeds, its result has
-- `serialized_bytes` bytes, and `deserialize` of it gives back the same backend.
pub deserialize-serialize :
    (w : WahBackend)
    → IsBackend w
    → (bytes : List ℕ) × (serialize w ≡ ok bytes)
      × (length bytes ≡ serialized_bytes w)
      × (deserialize bytes ≡ ok w)
unfolding serialize deserialize
deserialize-serialize w good = (
  pack_archive (archive_of w),
  rw wah_format,
  sym (serialized_bytes-length w),
  rw (
    wah_format,
    unpack_archive-pack_archive (archive_of w) (archive_of-IsArchive w good),
    load_payloads-word_bytes w.num_bits w.compressed good.universe_fits good.stored,
  ),
)
