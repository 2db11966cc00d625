-- ===== src/Verify.antt =====
-- The backends side by side, as `--verify=1` of benchmarks/bitmap_bench.cpp compares them.
use bitmap_comp_framework.Prelude.{
  ℕ, ◌<◌, ◌≡◌, ◌≢◌, Bool, true, false, if◌then◌else◌, List, [], length, All, Outcome, ok,
}
use bitmap_comp_framework.Bits.Raw.{IsWord}
use bitmap_comp_framework.Backend.Query.{answer}
use bitmap_comp_framework.RawBackend
use bitmap_comp_framework.RawBackend.{RawBackend, RawResult}
use bitmap_comp_framework.RawBackend.Query.{query-answer}
use bitmap_comp_framework.Wah.Backend
use bitmap_comp_framework.Wah.Backend.{WahBackend, WahResult}
use bitmap_comp_framework.Wah.Backend.Query.{query-build}
use bitmap_comp_framework.RoaringBackend
use bitmap_comp_framework.RoaringBackend.{RoaringBackend, RoaringResult}
use bitmap_comp_framework.RoaringBackend.Query.{roaring_query-build}

abbrev pub raw_query : Bool → RawBackend → List ℕ → Outcome RawResult
raw_query is_and w ids = if is_and then RawBackend.query_and w ids else RawBackend.query_or w ids

-- Backends that were built from one dataset give, for an AND or an OR of a nonempty list of valid
-- indices, results that decode to the same words and have the same cardinality: Raw, WAH and Roaring agree.
pub query-agree :
    (raws : List (List ℕ)) (n : ℕ) (raw : RawBackend) (wah : WahBackend) (roaring : RoaringBackend)
    (is_and : Bool) (ids : List ℕ)
    → All (All IsWord) raws
    → RawBackend.build raws n ≡ ok raw
    → Backend.build raws n ≡ ok wah
    → RoaringBackend.build raws n ≡ ok roaring
    → ids ≢ []
    → All (λ id. id < length raws) ids
    → (r : RawResult) × (s : WahResult) × (t : RoaringResult) × (raw_query is_and raw ids ≡ ok r)
      × (Backend.query is_and wah ids ≡ ok s)
      × (RoaringBackend.query is_and roaring ids ≡ ok t)
      × (Backend.to_words s ≡ RawBackend.to_words r)
      × (RoaringBackend.to_words t ≡ RawBackend.to_words r)
      × (Backend.result_cardinality s ≡ RawBackend.result_cardinality r)
      × (RoaringBackend.result_cardinality t ≡ RawBackend.result_cardinality r)
unfolding RawBackend.to_words RawBackend.result_cardinality
query-agree raws n raw wah roaring is_and ids words built_raw built_wah built_roaring ne h =
    let (s, runs_wah, same_wah, count_wah) =
      query-build raws n wah is_and ids words built_wah ne h in
    let (t, runs_roaring, same_roaring, count_roaring) =
      roaring_query-build raws n roaring is_and ids words built_roaring ne h in
    (
      record { words = answer is_and raws ids },
      s,
      t,
      raw_runs is_and,
      runs_wah,
      runs_roaring,
      same_wah,
      same_roaring,
      count_wah,
      count_roaring,
    )
  where
    raw_runs :
        (is_and : Bool) → raw_query is_and raw ids ≡ ok (record { words = answer is_and raws ids })
    raw_runs true = (query-answer raws n raw ids words built_raw ne h).0
    raw_runs false = (query-answer raws n raw ids words built_raw ne h).1
