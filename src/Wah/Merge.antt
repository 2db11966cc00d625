-- ===== src/Wah/Merge.antt =====
-- `merge` of backends/wah_backend.cpp, group by group.
use bitmap_comp_framework.Prelude.{
  ℕ, zero, suc, ◌+◌, ◌/◌, ◌%◌, ◌^◌, ◌≤◌, ◌<◌, min, ◌≡◌, refl, ◌∙◌, ap, ap₂, sym, inl, inr, Bool,
  List, [], ◌∷◌, ◌++◌, length, replicate, All, arith, length-append, length-replicate, Bool-cases,
  append_assoc, append-nil, not, ◌&&◌, lt_or_ge, ◌⊎◌,
}
use bitmap_comp_framework.Bits.Combine.{
  combine, combine_bit, bit-combine, combine-lt, combine_zeros, zip_with, zip_with-runs,
  length-zip_with, get_or-zip_with,
}
use bitmap_comp_framework.Wah.{Reader, load, advance, done, append, merge_loop, merge}
use bitmap_comp_framework.Wah.Code.{IsCode, expand}
use bitmap_comp_framework.Wah.Builder.{Appends, append-Appends}
use bitmap_comp_framework.Wah.Stream.{
  view, pending, IsReader, load-IsReader, view-load, pending-load, view_done, advance-IsReader,
  view-advance, pending-advance, pending-advance_all,
}
use bitmap_comp_framework.Wah.Encode.{groups_for_bits_small}
use bitmap_comp_framework.Wah.Decode.{IsStream, stream_bit}

module _ (is_and : Bool) where
  -- What the loop still has to do from two readers on.
  abbrev Merges : Reader → Reader → List ℕ → List ℕ → Type 0
  Merges ra rb out result =
      (expand result ≡ expand out ++ zip_with (combine is_and) (view ra) (view rb))
      × All IsCode result

  merge_loop_ends :
      (ra rb : Reader) (out : List ℕ)
      → IsReader ra
      → IsReader rb
      → length (view ra) ≡ length (view rb)
      → (ra.remaining ≡ 0) ⊎ (rb.remaining ≡ 0)
      → All IsCode out
      → Merges ra rb out out
  unfolding zip_with
  merge_loop_ends ra rb out ga gb e ends codes =
      let empty : length (view ra) ≡ 0 = elim ends [
        | inl z ↦ ap length (view_done ra ga z)
        | inr z ↦ e ∙ ap length (view_done rb gb z)
      ] in
      (rw (length-zero (view ra) empty) (sym (append-nil (expand out))), codes)
    where
      length-zero : (xs : List ℕ) → length xs ≡ 0 → xs ≡ []
      length-zero [] h = refl
      length-zero (x ∷ xs) h = absurd (omega arith)

  -- One round: `n` groups are combined, and one operand at least uses up a code word.
  module _ (ra rb : Reader) (out : List ℕ) (ga : IsReader ra) (gb : IsReader rb)
      (codes : All IsCode out) (pos_a : 0 < ra.remaining) (pos_b : 0 < rb.remaining)
      (fits : length (expand out) + length (view ra) < 2 ^ 62) where
    abbrev n : ℕ
    n = min ra.remaining rb.remaining

    abbrev v : ℕ
    v = combine is_and ra.value rb.value

    le_a : n ≤ ra.remaining
    le_a = omega arith

    le_b : n ≤ rb.remaining
    le_b = omega arith

    longer_a : length (view ra) ≡ n + length (view (advance ra n))
    longer_a =
        ap length (view-advance ra ga n le_a)
        ∙ length-append (replicate n ra.value) (view (advance ra n))
        ∙ ap (λ (t : ℕ). t + length (view (advance ra n))) (length-replicate n ra.value)

    longer_b : length (view rb) ≡ n + length (view (advance rb n))
    longer_b =
        ap length (view-advance rb gb n le_b)
        ∙ length-append (replicate n rb.value) (view (advance rb n))
        ∙ ap (λ (t : ℕ). t + length (view (advance rb n))) (length-replicate n rb.value)

    fewer : pending (advance ra n) + pending (advance rb n) + 1 ≤ pending ra + pending rb
    fewer = elim (lt_or_ge ra.remaining rb.remaining) [
      | inl p ↦ omega (
        arith,
        pending-advance_all ra ga n le_a (omega arith) pos_a,
        pending-advance rb gb n le_b,
      )
      | inr p ↦ omega (
        arith,
        pending-advance ra ga n le_a,
        pending-advance_all rb gb n le_b (omega arith) pos_b,
      )
    ]

    appended : Appends out v n (append out v n)
    appended =
        append-Appends out v n codes (combine-lt is_and 63 _ _ ga.value_fits gb.value_fits)
          (omega (arith, longer_a))

    room : length (expand (append out v n)) + length (view (advance ra n)) < 2 ^ 62
    room = rw (appended.0, length-append, length-replicate) (omega (arith, longer_a))

    round :
        (result : List ℕ)
        → Merges (advance ra n) (advance rb n) (append out v n) result
        → Merges ra rb out result
    round result (groups, all_codes) = (
      groups
          ∙ ap
              (λ (t : List ℕ).
                t ++ zip_with (combine is_and) (view (advance ra n)) (view (advance rb n)))
              appended.0
          ∙ append_assoc (expand out) (replicate n v) _
          ∙ ap (◌++◌ (expand out)) (
              sym (
                ap₂ (zip_with (combine is_and)) (view-advance ra ga n le_a)
                  (view-advance rb gb n le_b)
                ∙ zip_with-runs (combine is_and) n ra.value rb.value _ _)),
      all_codes,
    )

  merge_loop-Merges :
      (fuel : ℕ) (ra rb : Reader) (out : List ℕ)
      → IsReader ra
      → IsReader rb
      → pending ra + pending rb ≤ fuel
      → length (view ra) ≡ length (view rb)
      → All IsCode out
      → length (expand out) + length (view ra) < 2 ^ 62
      → Merges ra rb out (merge_loop is_and fuel ra rb out)
  unfolding merge_loop
  merge_loop-Merges zero ra rb out ga gb enough e codes fits =
      merge_loop_ends ra rb out ga gb e (inl (ground arith)) codes
  merge_loop-Merges (suc fuel) ra rb out ga gb enough e codes fits =
      elim (Bool-cases (not (done ra) && not (done rb))) [
        | inr stop ↦ rw stop (merge_loop_ends ra rb out ga gb e (ground arith) codes)
        | inl go ↦
            let pos_a : 0 < ra.remaining = ground arith in
            let pos_b : 0 < rb.remaining = ground arith in
            let n = min ra.remaining rb.remaining in
            let less = fewer ra rb out ga gb codes pos_a pos_b fits in
            rw go (
              round ra rb out ga gb codes pos_a pos_b fits _ (
                merge_loop-Merges fuel (advance ra n) (advance rb n)
                  (append out (combine is_and ra.value rb.value) n)
                  (advance-IsReader ra ga n (omega arith)) (advance-IsReader rb gb n (omega arith))
                  (omega arith)
                  (omega (
                    arith,
                    longer_a ra rb out ga gb codes pos_a pos_b fits,
                    longer_b ra rb out ga gb codes pos_a pos_b fits,
                  ))
                  (appended ra rb out ga gb codes pos_a pos_b fits).1
                  (room ra rb out ga gb codes pos_a pos_b fits)))
      ]

module _ (a b : List ℕ) (num_bits : ℕ) (is_and : Bool) (sa : IsStream num_bits a)
    (sb : IsStream num_bits b) (small : num_bits ≤ 2 ^ 32) where
  merge-Merges : Merges is_and (load a) (load b) [] (merge a b is_and)
  unfolding merge
  merge-Merges =
      merge_loop-Merges is_and (length a + length b) (load a) (load b) [] (load-IsReader a sa.codes)
        (load-IsReader b sb.codes) (omega (arith, pending-load a sa.codes, pending-load b sb.codes))
        (rw (view-load a, view-load b) (sa.group_count ∙ sym sb.group_count)) tt
        (rw view-load
          (unfold expand in omega (arith, sa.group_count, groups_for_bits_small num_bits small)))

  -- The groups of the result are those of the operands, combined pair by pair.
  merge-groups : expand (merge a b is_and) ≡ zip_with (combine is_and) (expand a) (expand b)
  merge-groups = merge-Merges.0 ∙ rw (view-load a, view-load b) (unfold expand in refl)

  pub merge-IsStream : IsStream num_bits (merge a b is_and)
  merge-IsStream = record {
    codes = merge-Merges.1;
    group_count =
        ap length merge-groups
        ∙ length-zip_with (combine is_and) (expand a) (expand b)
            (sa.group_count ∙ sym sb.group_count)
        ∙ sa.group_count;
  }

  -- On two well-formed streams of one universe of at most 2 ^ 32 positions, each position of `merge` is
  -- the AND or OR of that position in the operands.
  pub stream_bit-merge :
      (i : ℕ)
      → stream_bit (merge a b is_and) i ≡ combine_bit is_and (stream_bit a i) (stream_bit b i)
  unfolding stream_bit
  stream_bit-merge i =
      rw
        (
          merge-groups,
          get_or-zip_with (combine is_and) (expand a) (expand b) (i / 63)
              (sa.group_count ∙ sym sb.group_count) (combine_zeros is_and),
        )
        (bit-combine is_and _ _ (i % 63))
