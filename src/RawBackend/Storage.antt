-- ===== src/RawBackend/Storage.antt =====
-- Saving and loading in backends/raw_backend.cpp.
use bitmap_comp_framework.Prelude.{
  ℕ, suc, ◌*◌, ◌^◌, ◌≤◌, ◌<◌, ◌≡◌, refl, ◌∙◌, ap, true, List, [], ◌∷◌, length, map, All, arith, ok,
  ◌==◌,
}
use native.Mathlib.Nat.{suc-mul}
use bitmap_comp_framework.Bits.{words_for_bits}
use bitmap_comp_framework.Bits.Raw.{IsWord, IsRaw}
use bitmap_comp_framework.Binary.Words.{
  put_words, word_bytes, put_words-word_bytes, length-word_bytes, get_words-word_bytes,
}
use bitmap_comp_framework.Archive.{DatasetArchive, format_id, find_name, pack_archive}
use bitmap_comp_framework.Archive.RoundTrip.{
  IsArchive, unpack_archive-pack_archive, length-pack_archive, total_payload,
}
use bitmap_comp_framework.RawBackend.{
  RawBackend, build, serialize, deserialize, serialized_bytes, load_bitmap, load_bitmaps,
}
use bitmap_comp_framework.RawBackend.Query.{build_inv, made}

raw_format : format_id "raw" ≡ ok 1
unfolding format_id find_name
raw_format = refl

module _ (n : ℕ) where
  load_bitmap-put_words :
      (b : List ℕ) → IsRaw n b → load_bitmap (words_for_bits n) (put_words [] b) ≡ ok b
  unfolding load_bitmap
  load_bitmap-put_words b good =
      let whole : (length (word_bytes b) == words_for_bits n * 8) ≡ true =
        ground (arith, length-word_bytes b, good.size) in
      rw (
        put_words-word_bytes [] b,
        whole,
        get_words-word_bytes b (words_for_bits n) 0 good.words (omega (arith, good.size)),
      )

  load_bitmaps-put_words :
      (bs : List (List ℕ))
      → All (IsRaw n) bs
      → load_bitmaps (words_for_bits n) (map (put_words []) bs) ≡ ok bs
  unfolding load_bitmaps
  load_bitmaps-put_words [] good = refl
  load_bitmaps-put_words (b ∷ bs) good =
      rw (load_bitmap-put_words b good.0, load_bitmaps-put_words bs good.1)

  length-map_words : (bs : List (List ℕ)) → length (map (put_words []) bs) ≡ length bs
  length-map_words [] = refl
  length-map_words (b ∷ bs) = ap suc (length-map_words bs)

  payload_size : (b : List ℕ) → IsRaw n b → length (put_words [] b) ≡ 8 * words_for_bits n
  payload_size b good =
      rw (put_words-word_bytes [] b) (omega (arith, length-word_bytes b, good.size))

  total_payload-map :
      (bs : List (List ℕ))
      → All (IsRaw n) bs
      → total_payload (map (put_words []) bs) ≡ length bs * (8 * words_for_bits n)
  unfolding total_payload
  total_payload-map [] good = omega arith
  total_payload-map (b ∷ bs) good = omega (
    arith,
    payload_size b good.0,
    total_payload-map bs good.1,
    suc-mul (length bs) (8 * words_for_bits n),
  )

  payloads_fit :
      (bs : List (List ℕ))
      → n ≤ 2 ^ 32
      → All (IsRaw n) bs
      → All (λ p. length p < 2 ^ 64) (map (put_words []) bs)
  payloads_fit [] small good = tt
  payloads_fit (b ∷ bs) small good = (
    (let size = payload_size b good.0 in unfold words_for_bits in omega arith),
    payloads_fit bs small good.1,
  )

abbrev archive_of : RawBackend → DatasetArchive
archive_of w = record { format = 1; num_bits = w.num_bits; payloads = map (put_words []) w.bitmaps }

module _ (raws : List (List ℕ)) (n : ℕ) (small : n ≤ 2 ^ 32) (good : All (IsRaw n) raws)
    (few : length raws < 2 ^ 61) where
  made-IsArchive : IsArchive (archive_of (made raws n small good))
  made-IsArchive = record {
    format_fits = omega arith;
    universe_fits = small;
    count_fits = omega (arith, few, length-map_words n raws);
    lengths_fit = payloads_fit n raws small good;
  }

  made-serialized_bytes :
      length (pack_archive (archive_of (made raws n small good)))
      ≡ serialized_bytes (made raws n small good)
  unfolding serialized_bytes
  made-serialized_bytes = omega (
    arith,
    length-pack_archive (archive_of (made raws n small good)),
    length-map_words n raws,
    total_payload-map n raws good,
  )

  made-Restored :
      build raws n ≡ ok (made raws n small good)
      → (bytes : List ℕ) × (serialize (made raws n small good) ≡ ok bytes)
        × (length bytes ≡ serialized_bytes (made raws n small good))
        × (deserialize bytes ≡ ok (made raws n small good))
  unfolding serialize deserialize
  made-Restored built = (
    pack_archive (archive_of (made raws n small good)),
    rw raw_format,
    made-serialized_bytes,
    rw
        (
          raw_format,
          unpack_archive-pack_archive (archive_of (made raws n small good)) made-IsArchive,
          load_bitmaps-put_words n raws good,
        )
        built,
  )

-- After a successful `build` of fewer than 2 ^ 61 bitmaps, `serialize` succeeds, its result has
-- `serialized_bytes` bytes, and `deserialize` of it gives back the same backend.
pub deserialize-serialize_raw :
    (raws : List (List ℕ)) (n : ℕ) (w : RawBackend)
    → All (All IsWord) raws
    → length raws < 2 ^ 61
    → build raws n ≡ ok w
    → (bytes : List ℕ) × (serialize w ≡ ok bytes)
      × (length bytes ≡ serialized_bytes w)
      × (deserialize bytes ≡ ok w)
deserialize-serialize_raw raws n w words few built =
    let (small, good, same) = build_inv raws n w words built in
    rw same (made-Restored raws n small good few (built ∙ ap ok same))
