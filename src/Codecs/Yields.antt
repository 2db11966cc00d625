-- ===== src/Codecs/Yields.antt =====
-- `inspect_spans` of backends/codecs.cpp against the calls of `Cursor::next` that it makes.
use bitmap_comp_framework.Prelude.{
  ℕ, zero, suc, ◌≤◌, ◌<◌, ◌≡◌, ◌∙◌, sym, ap, List, [], ◌∷◌, ◌++◌, length, arith, Error, Outcome, ok,
  throw, Outcome-cases, inl, inr, append-nil, append_assoc,
}
use mathlib.Core.Path.{subst}
use bitmap_comp_framework.Codecs.{Coding, Encoding, Fetch, stop, got, Span}
use bitmap_comp_framework.Codecs.Operations.{spans_loop, inspect_spans}

-- `while (r->next(s)) result.push_back(s);` from a state, without fuel: the calls of `next` return these
-- spans one after the other, and then `false`.
pub data Yields {C : Type 0} (next_of : C → Outcome (Fetch C)) : C → List Span → Type 0 where
  ended : {c : C} (c' : C) → next_of c ≡ ok (stop c') → Yields next_of c []
  yielded :
      {c : C} (s : Span) (c' : C) (ss : List Span)
      → next_of c ≡ ok (got s c')
      → Yields next_of c' ss
      → Yields next_of c (s ∷ ss)

module _ (K : Coding) where
  open K use {Cursor, cursor, next, left, IsCursor}

  fetched : (r : Cursor) (x y : Fetch Cursor) → next r ≡ ok x → next r ≡ ok y → x ≡ y
  fetched r x y p q = cc

  never : (err : Error) (xs : List Span) → throw err ≡ ok xs → ⊥
  never err xs h = cc

  -- What the loop returns is yielded, behind what it was given.
  spans_loop-Yields :
      (fuel : ℕ) (r : Cursor) (before spans : List Span)
      → IsCursor r
      → left r < fuel
      → spans_loop K fuel r before ≡ ok spans
      → (ss : List Span) × (spans ≡ before ++ ss) × Yields next r ss × (length ss ≤ left r)
  unfolding spans_loop
  spans_loop-Yields zero r before spans is enough run = absurd (omega arith)
  spans_loop-Yields (suc fuel) r before spans is enough run = elim (Outcome-cases (next r)) [
    | inl (stop r', e) ↦
        let same : ok before ≡ ok spans = rw e at run in
        ([], got_same before spans same ∙ sym (append-nil before), ended r' e, omega arith)
    | inl (got s r', e) ↦
        let (is', less) = K.next-IsCursor r s r' is e in
        let (ss, same, all, few) =
          spans_loop-Yields fuel r' (before ++ (s ∷ [])) spans is' (omega arith) (rw e at run) in
        (s ∷ ss, same ∙ append_assoc before (s ∷ []) ss, yielded s r' ss e all, omega arith)
    | inr (err, e) ↦ absurd (never err spans (rw e at run))
  ]
    where
      got_same : (xs ys : List Span) → ok xs ≡ ok ys → ys ≡ xs
      got_same xs ys h = cc

  -- What is yielded is what the loop returns.
  Yields-spans_loop :
      (fuel : ℕ) {r : Cursor} {ss : List Span} (before : List Span)
      → IsCursor r
      → left r < fuel
      → Yields next r ss
      → spans_loop K fuel r before ≡ ok (before ++ ss)
  unfolding spans_loop
  Yields-spans_loop zero before is enough all = absurd (omega arith)
  Yields-spans_loop (suc fuel) before is enough (ended r' e) =
      rw e (ap ok (sym (append-nil before)))
  Yields-spans_loop (suc fuel) {r} before is enough (yielded s r' ss e all) =
      let (is', less) = K.next-IsCursor r s r' is e in
      rw e (
        Yields-spans_loop fuel (before ++ (s ∷ [])) is' (omega arith) all
        ∙ ap ok (append_assoc before (s ∷ []) ss))

  -- What `inspect_spans` returns is yielded by the cursor, and is no longer than its bound.
  pub inspect_spans-yielded :
      (e : Encoding) (spans : List Span)
      → inspect_spans K e ≡ ok spans
      → (r : Cursor) × (cursor e ≡ ok r) × Yields next r spans × (length spans ≤ left r)
  unfolding inspect_spans
  inspect_spans-yielded e spans run = elim (Outcome-cases (cursor e)) [
    | inl (r, opened) ↦
        let (ss, same, all, few) =
          spans_loop-Yields (suc (left r)) r [] spans (K.cursor-IsCursor e r opened) (omega arith)
            (rw opened at run) in
        (
          r,
          opened,
          subst (Yields next r) (sym same) all,
          subst (λ (t : List Span). length t ≤ left r) (sym same) few,
        )
    | inr (err, refused) ↦ absurd (never err spans (rw refused at run))
  ]

  pub yielded-inspect_spans :
      (e : Encoding) (spans : List Span) (r : Cursor)
      → cursor e ≡ ok r
      → Yields next r spans
      → inspect_spans K e ≡ ok spans
  unfolding inspect_spans
  yielded-inspect_spans e spans r opened all =
      rw opened
        (Yields-spans_loop (suc (left r)) [] (K.cursor-IsCursor e r opened) (omega arith) all)
