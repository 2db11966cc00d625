-- ===== src/Wah/Backend/Accepts.antt =====
-- What `WahBackend::deserialize` of backends/wah_backend.cpp accepts.
use bitmap_comp_framework.Prelude.{
  ℕ, ◌+◌, ◌*◌, ◌/◌, ◌%◌, ◌^◌, ◌≤◌, ◌<◌, ◌≡◌, ◌≢◌, inl, inr, List, [], ◌∷◌, length, get_or,
  get_or_past, All, All-get_or, arith, ok, require, >>=-eq-ok, lt_or_ge, ◌==◌, ==→eq, wah_truncated,
  wah_length,
}
use mathlib.Core.Path.{subst}
use native.Mathlib.Nat.{div-lt_iff_lt-mul, div-eq_of_lt}
use bitmap_comp_framework.Prelude.Digits.{bit-lt_pow, bit-zero, lt_of_bits}
use bitmap_comp_framework.Prelude.Masks.{pow-pos}
use bitmap_comp_framework.Binary.{reader}
use bitmap_comp_framework.Archive.{unpack_archive, format_id}
use bitmap_comp_framework.Archive.Reads.{IsByte, ok-injective, require-eq-ok}
use bitmap_comp_framework.Archive.Strict.{pack_archive-unpack_archive}
use bitmap_comp_framework.Archive.Payloads.{unpack_archive-IsByte}
use bitmap_comp_framework.Wah.{groups_for_bits}
use bitmap_comp_framework.Wah.Code.{expand}
use bitmap_comp_framework.Wah.Encode.{groups_for_bits_small}
use bitmap_comp_framework.Wah.Decode.{IsStream, stream_bit, expand-lt}
use bitmap_comp_framework.Wah.Backend.{
  WahBackend, load_words, load_payload, load_payloads, deserialize,
}
use bitmap_comp_framework.Wah.Backend.Storage.{IsStored, LastClear, load_words-IsLoaded}

module _ (n : ℕ) (small : n ≤ 2 ^ 32) (ws : List ℕ) where
  -- The padding lies in the last group.
  pub IsStored-of_clear : IsStream n ws → LastClear n (groups_for_bits n) 0 ws → IsStored n ws
  unfolding stream_bit
  IsStored-of_clear good clear = record {
    stream = good;
    padding = λ b h. elim (lt_or_ge (b / 63) (length (expand ws))) [
      | inr past ↦ rw (get_or_past (expand ws) (b / 63) 0 past) (bit-zero (b % 63))
      | inl inside ↦
          let last : 0 + b / 63 + 1 ≡ groups_for_bits n =
            omega (arith, good.group_count, groups_for_bits_small n small) in
          let partial : n % 63 ≢ 0 =
            λ e. omega (arith, good.group_count, groups_for_bits_small n small) in
          let shifted = clear (b / 63) inside last partial in
          let low : get_or (expand ws) (b / 63) 0 < 1 * 2 ^ (n % 63) =
            (div-lt_iff_lt-mul (pow-pos (n % 63))).0 (omega arith) in
          bit-lt_pow (n % 63) (get_or (expand ws) (b / 63) 0) (b % 63) (omega arith)
            (omega (arith, groups_for_bits_small n small))
    ];
  }

  pub clear_of_IsStored : IsStored n ws → LastClear n (groups_for_bits n) 0 ws
  unfolding stream_bit
  clear_of_IsStored good i below last ne = div-eq_of_lt (
      lt_of_bits (n % 63) (get_or (expand ws) i 0) λ k p. elim (lt_or_ge k 63) [
        | inr past ↦
            bit-lt_pow 63 (get_or (expand ws) i 0) k
              (All-get_or (λ v. v < 2 ^ 63) (expand ws) i 0 (expand-lt ws good.stream.codes)
                (omega arith))
              past
        | inl inside ↦
            let group : (63 * i + k) / 63 ≡ i = omega arith in
            let place : (63 * i + k) % 63 ≡ k = omega arith in
            rw (group, place) at
              (good.padding (63 * i + k) (omega (arith, groups_for_bits_small n small)))
      ])

load_payload-IsStored :
    (n : ℕ) (p ws : List ℕ)
    → n ≤ 2 ^ 32
    → All IsByte p
    → load_payload n (groups_for_bits n) p ≡ ok ws
    → IsStored n ws
unfolding load_payload
load_payload-IsStored n p ws small bytes h =
    let (_, _, k₁) = >>=-eq-ok (require (length p % 8 == 0) wah_truncated) _ h in
    let ((ws', seen), run, k₂) =
      >>=-eq-ok (load_words n (groups_for_bits n) (length p / 8) (reader p) 0) _ k₁ in
    let (_, test, k₃) = >>=-eq-ok (require (seen == groups_for_bits n) wah_length) _ k₂ in
    let loaded =
      load_words-IsLoaded n (groups_for_bits n) (length p / 8) (reader p) 0 ws' seen bytes
        (omega arith) run in
    let whole : seen ≡ groups_for_bits n = ==→eq _ _ (require-eq-ok _ _ test) in
    subst (IsStored n) (ok-injective k₃) (
      IsStored-of_clear n small ws'
        (record { codes = loaded.codes; group_count = omega (arith, loaded.reached, whole) })
        loaded.clear)

load_payloads-IsStored :
    (n : ℕ) (ps : List (List ℕ)) (bs : List (List ℕ))
    → n ≤ 2 ^ 32
    → All (All IsByte) ps
    → load_payloads n (groups_for_bits n) ps ≡ ok bs
    → All (IsStored n) bs
unfolding load_payloads
load_payloads-IsStored n [] bs small bytes h = subst (All (IsStored n)) (ok-injective h) tt
load_payloads-IsStored n (p ∷ ps) bs small bytes h =
    let (b, first, k₁) = >>=-eq-ok (load_payload n (groups_for_bits n) p) _ h in
    let (bs', others, k₂) = >>=-eq-ok (load_payloads n (groups_for_bits n) ps) _ k₁ in
    subst (All (IsStored n)) (ok-injective k₂) (
      load_payload-IsStored n p b small bytes.0 first,
      load_payloads-IsStored n ps bs' small bytes.1 others,
    )

-- When `deserialize` accepts a vector of bytes, the universe is at most 2 ^ 32 and every stream the
-- backend then holds is well formed, has the right number of groups and an empty padding.
pub deserialize-IsStored :
    (bytes : List ℕ) (w : WahBackend)
    → All IsByte bytes
    → deserialize bytes ≡ ok w
    → (w.num_bits ≤ 2 ^ 32) × All (IsStored w.num_bits) w.compressed
unfolding deserialize
deserialize-IsStored bytes w hb h =
    let (format, _, k₁) = >>=-eq-ok (format_id "wah") _ h in
    let (a, unpacked, k₂) = >>=-eq-ok (unpack_archive bytes format) _ k₁ in
    let (next, loaded, k₃) =
      >>=-eq-ok (load_payloads a.num_bits (groups_for_bits a.num_bits) a.payloads) _ k₂ in
    let (_, _, small) = pack_archive-unpack_archive bytes format a hb unpacked in
    subst (λ (t : WahBackend). (t.num_bits ≤ 2 ^ 32) × All (IsStored t.num_bits) t.compressed)
      (ok-injective k₃)
      (
        small,
        load_payloads-IsStored a.num_bits a.payloads next small
            (unpack_archive-IsByte bytes format a hb unpacked) loaded,
      )
