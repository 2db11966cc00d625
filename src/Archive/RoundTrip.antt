-- ===== src/Archive/RoundTrip.antt =====
-- `pack_archive` and then `unpack_archive` of backends/archive.cpp.
use bitmap_comp_framework.Prelude.{
  ℕ, suc, ◌+◌, ◌*◌, ◌/◌, ◌^◌, ◌≤◌, ◌<◌, ◌≡◌, refl, ◌∙◌, ap, sym, true, List, [], ◌∷◌, ◌++◌, length,
  All, arith, leb, ◌==◌, ok, length-append, append_assoc, append-nil,
}
use bitmap_comp_framework.Binary.{put_le, require_end}
use bitmap_comp_framework.Binary.RoundTrip.{
  le_bytes, length-le_bytes, put_le-le_bytes, get-le_bytes, get-byte, take_bytes-append,
}
use bitmap_comp_framework.Archive.{
  DatasetArchive, magic, pack_payloads, pack_archive, check_magic, unpack_payloads, unpack_archive,
}

-- What the payloads take in the archive: each its length in eight bytes, then its bytes.
unfoldable pub framed : List (List ℕ) → List ℕ
framed [] = []
framed (p ∷ ps) = le_bytes 8 (length p) ++ (p ++ framed ps)

pub pack_payloads-framed :
    (out : List ℕ) (ps : List (List ℕ)) → pack_payloads out ps ≡ out ++ framed ps
unfolding pack_payloads framed
pack_payloads-framed out [] = sym (append-nil out)
pack_payloads-framed out (p ∷ ps) =
    pack_payloads-framed (put_le out (length p) 8 ++ p) ps ∙ simp (put_le-le_bytes, append_assoc)

-- The archive: magic, format, zero, logical length, number of payloads, payloads.
pub pack_archive-bytes :
    (a : DatasetArchive)
    → pack_archive a
      ≡ magic
        ++ (le_bytes 4 a.format
            ++ (le_bytes 4 0
                ++ (le_bytes 8 a.num_bits
                    ++ (le_bytes 8 (length a.payloads) ++ framed a.payloads))))
unfolding pack_archive
pack_archive-bytes a = pack_payloads-framed _ a.payloads ∙ simp (put_le-le_bytes, append_assoc)

unfoldable pub total_payload : List (List ℕ) → ℕ
total_payload [] = 0
total_payload (p ∷ ps) = length p + total_payload ps

length-framed : (ps : List (List ℕ)) → length (framed ps) ≡ 8 * length ps + total_payload ps
unfolding framed total_payload
length-framed [] = refl
length-framed (p ∷ ps) = omega (
  arith,
  length-append (le_bytes 8 (length p)) (p ++ framed ps),
  length-append p (framed ps),
  length-le_bytes 8 (length p),
  length-framed ps,
)

-- The size of an archive: a header of 32 bytes, and eight bytes before each payload.
pub length-pack_archive :
    (a : DatasetArchive)
    → length (pack_archive a) ≡ 32 + 8 * length a.payloads + total_payload a.payloads
length-pack_archive a =
    ap length (pack_archive-bytes a)
    ∙ rw (length-append, length-append, length-append, length-append, length-append)
        (omega (
          arith,
          length-le_bytes 4 a.format,
          length-le_bytes 4 0,
          length-le_bytes 8 a.num_bits,
          length-le_bytes 8 (length a.payloads),
          length-framed a.payloads,
        ))

unpack_payloads-framed :
    (ps : List (List ℕ)) (pos : ℕ) (more : List ℕ)
    → All (λ p. length p < 2 ^ 64) ps
    → (end : ℕ) × (unpack_payloads (length ps) (record { pos = pos; rest = framed ps ++ more })
        ≡ ok (ps, record { pos = end; rest = more }))
unfolding unpack_payloads framed
unpack_payloads-framed [] pos more h = (pos, refl)
unpack_payloads-framed (p ∷ ps) pos more h =
    let (end, rest) = unpack_payloads-framed ps (pos + 8 + length p) more h.1 in
    (
      end,
      rw (
        append_assoc (le_bytes 8 (length p)) (p ++ framed ps) more,
        get-le_bytes (length p) 8 pos ((p ++ framed ps) ++ more) (omega arith) h.0,
        append_assoc p (framed ps) more,
        take_bytes-append p (framed ps ++ more) (pos + 8),
        rest,
      ),
    )

check_magic-append :
    (cs : List ℕ) (pos : ℕ) (more : List ℕ)
    → All (λ c. c < 256) cs
    → check_magic cs (record { pos = pos; rest = cs ++ more })
      ≡ ok (record { pos = pos + length cs; rest = more })
unfolding check_magic
check_magic-append [] pos more h = let same : pos + 0 ≡ pos = omega arith in rw same
check_magic-append (c ∷ cs) pos more h =
    let matches : (c == c) ≡ true = ground arith in
    let at : pos + 1 + length cs ≡ pos + suc (length cs) = omega arith in
    rw (get-byte c pos (cs ++ more) h.0, matches, check_magic-append cs (pos + 1) more h.1, at)

-- What a dataset must be for an archive to hold it.
pub record IsArchive (a : DatasetArchive) : Type 0 where
  pub format_fits : a.format < 2 ^ 32
  pub universe_fits : a.num_bits ≤ 2 ^ 32
  pub count_fits : length a.payloads < 2 ^ 61
  pub lengths_fit : All (λ p. length p < 2 ^ 64) a.payloads

-- An archive whose fields fit their widths and whose universe is at most 2 ^ 32 is read back, with
-- its own format expected, from what `pack_archive` writes for it.
pub unpack_archive-pack_archive :
    (a : DatasetArchive) → IsArchive a → unpack_archive (pack_archive a) a.format ≡ ok a
unfolding unpack_archive require_end
unpack_archive-pack_archive a good =
    let same_format : (a.format == a.format) ≡ true = ground arith in
    let in_universe : leb a.num_bits (2 ^ 32) ≡ true = ground (arith, good.universe_fits) in
    let count = length a.payloads in
    let room : leb count (length (framed a.payloads ++ []) / 8) ≡ true =
      ground (arith, length-framed a.payloads, length-append (framed a.payloads) []) in
    let (end, payloads) =
      unpack_payloads-framed a.payloads (0 + 8 + 4 + 4 + 8 + 8) [] good.lengths_fit in
    rw (
      pack_archive-bytes a,
      ← append-nil (framed a.payloads),
      check_magic-append magic 0
          (le_bytes 4 a.format
            ++ (le_bytes 4 0
                ++ (le_bytes 8 a.num_bits ++ (le_bytes 8 count ++ (framed a.payloads ++ [])))))
          (omega arith),
      get-le_bytes a.format 4 _ _ (omega arith) (omega (arith, good.format_fits)),
      same_format,
      get-le_bytes 0 4 _ _ (omega arith) (omega arith),
      get-le_bytes a.num_bits 8 _ _ (omega arith) (omega (arith, good.universe_fits)),
      in_universe,
      get-le_bytes count 8 _ _ (omega arith) (omega (arith, good.count_fits)),
      room,
      payloads,
    )
