-- ===== src/Archive/Payloads.antt =====
-- The payloads that `unpack_archive` of backends/archive.cpp hands out.
use bitmap_comp_framework.Prelude.{ℕ, ◌≡◌, List, [], ◌∷◌, ◌++◌, length, All, ok, sym, ◌∙◌}
use mathlib.Core.Path.{subst}
use bitmap_comp_framework.Binary.RoundTrip.{le_bytes}
use bitmap_comp_framework.Archive.{DatasetArchive, magic, unpack_archive}
use bitmap_comp_framework.Archive.RoundTrip.{framed, pack_archive-bytes}
use bitmap_comp_framework.Archive.Reads.{IsByte}
use bitmap_comp_framework.Archive.Strict.{pack_archive-unpack_archive}

All-right {κ} : (P : ℕ → Type κ) (xs ys : List ℕ) → All P (xs ++ ys) → All P ys
All-right P [] ys h = h
All-right P (x ∷ xs) ys h = All-right P xs ys h.1

All-left {κ} : (P : ℕ → Type κ) (xs ys : List ℕ) → All P (xs ++ ys) → All P xs
All-left P [] ys h = tt
All-left P (x ∷ xs) ys h = (h.0, All-left P xs ys h.1)

framed-IsByte : (ps : List (List ℕ)) → All IsByte (framed ps) → All (All IsByte) ps
unfolding framed
framed-IsByte [] h = tt
framed-IsByte (p ∷ ps) h =
    let body = All-right IsByte (le_bytes 8 (length p)) (p ++ framed ps) h in
    (All-left IsByte p (framed ps) body, framed-IsByte ps (All-right IsByte p (framed ps) body))

pub unpack_archive-IsByte :
    (bytes : List ℕ) (expected : ℕ) (a : DatasetArchive)
    → All IsByte bytes
    → unpack_archive bytes expected ≡ ok a
    → All (All IsByte) a.payloads
unpack_archive-IsByte bytes expected a hb h =
    let written = (pack_archive-unpack_archive bytes expected a hb h).0 in
    let whole = subst (All IsByte) (sym written ∙ pack_archive-bytes a) hb in
    framed-IsByte a.payloads (
      All-right IsByte (le_bytes 8 (length a.payloads)) _ (
        All-right IsByte (le_bytes 8 a.num_bits) _ (
          All-right IsByte (le_bytes 4 0) _
            (All-right IsByte (le_bytes 4 a.format) _ (All-right IsByte magic _ whole)))))
