-- ===== src/Archive/Strict.antt =====
-- What `unpack_archive` of backends/archive.cpp accepts.
use bitmap_comp_framework.Prelude.{
  ℕ, zero, suc, ◌/◌, ◌%◌, ◌^◌, ◌≤◌, ◌≡◌, refl, ◌∙◌, ap, ap₂, sym, List, [], ◌∷◌, ◌++◌, length, All,
  arith, leb, ◌==◌, Outcome, ok, require, >>=-eq-ok, bad_magic, representation_mismatch,
  nonzero_reserved, archive_universe, bad_count, trailing_data, append-nil, ==→eq, leb→le,
}
use mathlib.Core.Path.{subst}
use bitmap_comp_framework.Binary.{ByteReader, reader, remaining, get, take_bytes, require_end}
use bitmap_comp_framework.Binary.RoundTrip.{le_bytes}
use bitmap_comp_framework.Archive.{
  DatasetArchive, magic, pack_archive, check_magic, unpack_payloads, unpack_archive,
}
use bitmap_comp_framework.Archive.RoundTrip.{framed, pack_archive-bytes}
use bitmap_comp_framework.Archive.Reads.{
  IsByte, Took, require-eq-ok, ok-injective, get_inv, take_bytes_inv, Took-trans,
}

check_magic_inv :
    (cs : List ℕ) (r r' : ByteReader)
    → check_magic cs r ≡ ok r'
    → All IsByte cs
    → All IsByte r.rest
    → Took r cs r'
unfolding check_magic le_bytes
check_magic_inv [] r r' h hc bytes =
    let same : r ≡ r' = ok-injective h in
    record { split = ap (λ (t : ByteReader). t.rest) same; bytes = rw (← same) bytes }
check_magic_inv (c ∷ cs) r r' h hc bytes =
    let ((b, r₁), read, k) = >>=-eq-ok (get r 1) _ h in
    let (took, fits) = get_inv r 1 b r₁ read bytes in
    let (u, test, k') = >>=-eq-ok (require (b == c) bad_magic) _ k in
    let same : b ≡ c = ==→eq b c (require-eq-ok (b == c) bad_magic test) in
    let byte : b % 256 ≡ c = omega arith in
    let took' : Took r (c ∷ []) r₁ = rw byte at took in
    Took-trans r (c ∷ []) r₁ cs r' took' (check_magic_inv cs r₁ r' k' hc.1 took.bytes)

-- The three reads of one payload and the rest, put together.
payload_step :
    (r r₁ r₂ r₃ r' : ByteReader) (len : ℕ) (p : List ℕ) (ps' ps : List (List ℕ))
    → Took r (le_bytes 8 len) r₁
    → Took r₁ p r₂
    → length p ≡ len
    → Took r₂ (framed ps') r₃
    → ◌≡◌ {A = Outcome (List (List ℕ) × ByteReader)} (ok (p ∷ ps', r₃)) (ok (ps, r'))
    → Took r (framed ps) r' × (length ps ≡ suc (length ps'))
unfolding framed
payload_step r r₁ r₂ r₃ r' len p ps' ps took₁ took₂ long took₃ e =
    let same = ok-injective e in
    let list : p ∷ ps' ≡ ps = ap (λ (q : List (List ℕ) × ByteReader). q.0) same in
    let left : r₃ ≡ r' = ap (λ (q : List (List ℕ) × ByteReader). q.1) same in
    rw (← list, ← left)
      (
        Took-trans r _ r₁ _ r₃ (rw (← long) at took₁)
            (Took-trans r₁ p r₂ (framed ps') r₃ took₂ took₃),
        refl,
      )

unpack_payloads_inv :
    (count : ℕ) (r : ByteReader) (ps : List (List ℕ)) (r' : ByteReader)
    → unpack_payloads count r ≡ ok (ps, r')
    → All IsByte r.rest
    → Took r (framed ps) r' × (length ps ≡ count)
unfolding unpack_payloads framed
unpack_payloads_inv zero r ps r' h bytes =
    let same = ok-injective h in
    let none : [] ≡ ps = ap (λ (q : List (List ℕ) × ByteReader). q.0) same in
    let left : r ≡ r' = ap (λ (q : List (List ℕ) × ByteReader). q.1) same in
    rw (← none, ← left) (record { split = refl; bytes = bytes }, refl)
unpack_payloads_inv (suc count) r ps r' h bytes =
    let ((len, r₁), read, k₁) = >>=-eq-ok (get r 8) _ h in
    let ((p, r₂), taken, k₂) = >>=-eq-ok (take_bytes r₁ len) _ k₁ in
    let ((ps', r₃), others, k₃) = >>=-eq-ok (unpack_payloads count r₂) _ k₂ in
    let (took₁, _) = get_inv r 8 len r₁ read bytes in
    let (took₂, long) = take_bytes_inv r₁ len p r₂ taken took₁.bytes in
    let (took₃, many) = unpack_payloads_inv count r₂ ps' r₃ others took₂.bytes in
    let (took, one_more) = payload_step r r₁ r₂ r₃ r' len p ps' ps took₁ took₂ long took₃ k₃ in
    (took, one_more ∙ ap suc many)

-- The reads of the header, the payloads and the end, put together.
header_step :
    (bytes : List ℕ) (r₀ r₁ r₂ r₃ r₄ r₅ : ByteReader) (format reserved num_bits count : ℕ)
    (ps : List (List ℕ))
    → Took (reader bytes) magic r₀
    → Took r₀ (le_bytes 4 format) r₁
    → Took r₁ (le_bytes 4 reserved) r₂
    → reserved ≡ 0
    → Took r₂ (le_bytes 8 num_bits) r₃
    → Took r₃ (le_bytes 8 count) r₄
    → Took r₄ (framed ps) r₅
    → length ps ≡ count
    → remaining r₅ ≡ 0
    → pack_archive (record { format = format; num_bits = num_bits; payloads = ps }) ≡ bytes
header_step bytes r₀ r₁ r₂ r₃ r₄ r₅ format reserved num_bits count ps t₀ t₁ t₂ z t₃ t₄ t₅ many
      last =
    pack_archive-bytes _
    ∙ sym (
        t₀.split
        ∙ ap (◌++◌ magic) (
            t₁.split
            ∙ ap (◌++◌ (le_bytes 4 format)) (
                t₂.split
                ∙ ap₂ ◌++◌ (ap (le_bytes 4) z) (
                    t₃.split
                    ∙ ap (◌++◌ (le_bytes 8 num_bits)) (
                        t₄.split
                        ∙ ap₂ ◌++◌ (ap (le_bytes 8) (sym many)) (t₅.split ∙ nothing_left))))))
  where
    length-zero : (xs : List ℕ) → length xs ≡ 0 → xs ≡ []
    length-zero [] h = refl
    length-zero (x ∷ xs) h = absurd (omega arith)

    nothing_left : framed ps ++ r₅.rest ≡ framed ps
    nothing_left = rw (length-zero r₅.rest last) (append-nil (framed ps))

-- Bytes that `unpack_archive` accepts are exactly what `pack_archive` writes for the archive it
-- returns, whose format is the expected one and whose universe is at most 2 ^ 32.
pub pack_archive-unpack_archive :
    (bytes : List ℕ) (expected : ℕ) (a : DatasetArchive)
    → All IsByte bytes
    → unpack_archive bytes expected ≡ ok a
    → (pack_archive a ≡ bytes) × (a.format ≡ expected) × (a.num_bits ≤ 2 ^ 32)
unfolding unpack_archive require_end
pack_archive-unpack_archive bytes expected a hb h =
    let (r₀, e₀, k₀) = >>=-eq-ok (check_magic magic (reader bytes)) _ h in
    let ((format, r₁), e₁, k₁) = >>=-eq-ok (get r₀ 4) _ k₀ in
    let (_, f₁, k₁') = >>=-eq-ok (require (format == expected) representation_mismatch) _ k₁ in
    let ((reserved, r₂), e₂, k₂) = >>=-eq-ok (get r₁ 4) _ k₁' in
    let (_, f₂, k₂') = >>=-eq-ok (require (reserved == 0) nonzero_reserved) _ k₂ in
    let ((num_bits, r₃), e₃, k₃) = >>=-eq-ok (get r₂ 8) _ k₂' in
    let (_, f₃, k₃') = >>=-eq-ok (require (leb num_bits (2 ^ 32)) archive_universe) _ k₃ in
    let ((count, r₄), e₄, k₄) = >>=-eq-ok (get r₃ 8) _ k₃' in
    let (_, f₄, k₄') = >>=-eq-ok (require (leb count (remaining r₄ / 8)) bad_count) _ k₄ in
    let ((ps, r₅), e₅, k₅) = >>=-eq-ok (unpack_payloads count r₄) _ k₄' in
    let (_, f₅, k₆) = >>=-eq-ok (require (remaining r₅ == 0) trailing_data) _ k₅ in
    let t₀ = check_magic_inv magic (reader bytes) r₀ e₀ (omega arith) hb in
    let (t₁, _) = get_inv r₀ 4 format r₁ e₁ t₀.bytes in
    let (t₂, _) = get_inv r₁ 4 reserved r₂ e₂ t₁.bytes in
    let (t₃, _) = get_inv r₂ 8 num_bits r₃ e₃ t₂.bytes in
    let (t₄, _) = get_inv r₃ 8 count r₄ e₄ t₃.bytes in
    let (t₅, many) = unpack_payloads_inv count r₄ ps r₅ e₅ t₄.bytes in
    let result = ok-injective k₆ in
    (
      ap pack_archive (sym result)
          ∙ header_step bytes r₀ r₁ r₂ r₃ r₄ r₅ format reserved num_bits count ps t₀ t₁ t₂
              (==→eq _ _ (require-eq-ok _ _ f₂)) t₃ t₄ t₅ many (==→eq _ _ (require-eq-ok _ _ f₅)),
      ap (λ (t : DatasetArchive). t.format) (sym result) ∙ ==→eq _ _ (require-eq-ok _ _ f₁),
      subst (λ (t : ℕ). t ≤ 2 ^ 32) (ap (λ (t : DatasetArchive). t.num_bits) result)
          (leb→le _ _ (require-eq-ok _ _ f₃)),
    )
