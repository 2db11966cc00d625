-- ===== src/Wah/Backend/Storage.antt =====
-- The loop of `WahBackend::deserialize` of backends/wah_backend.cpp over the code words of a payload.
use bitmap_comp_framework.Prelude.{
  ℕ, zero, suc, ◌+◌, ◌-◌, ◌%◌, ◌^◌, ◌≤◌, ◌<◌, ◌≡◌, refl, ap, sym, ◌≢◌, inl, inr, true, not, ◌&&◌,
  List, [], ◌∷◌, ◌++◌, length, get_or, replicate, All, arith, ok, require, >>=-eq-ok, lt_or_ge, ltb,
  ◌==◌, Bool-cases, wah_fill_length, wah_padding, length-replicate,
}
use mathlib.Core.Path.{subst}
use bitmap_comp_framework.Bits.{◌>>>◌}
use bitmap_comp_framework.Binary.{ByteReader, remaining, get}
use bitmap_comp_framework.Archive.Reads.{IsByte, get_inv, ok-injective, require-eq-ok}
use bitmap_comp_framework.Wah.{run_value, run_count}
use bitmap_comp_framework.Wah.Code.{IsCode, expand}
use bitmap_comp_framework.Wah.Builder.{length-expand_cons}
use bitmap_comp_framework.Wah.Decode.{IsStream, stream_bit}
use bitmap_comp_framework.Wah.Backend.{check_word, load_words}

-- A stream of `n` positions whose padding is empty.
pub record IsStored (n : ℕ) (ws : List ℕ) : Type 0 where
  pub stream : IsStream n ws
  pub padding : (b : ℕ) → n ≤ b → stream_bit ws b ≡ 0

get_or-append_left :
    (xs ys : List ℕ) (i : ℕ) → i < length xs → get_or (xs ++ ys) i 0 ≡ get_or xs i 0
get_or-append_left [] ys i h = absurd (omega arith)
get_or-append_left (x ∷ xs) ys zero h = refl
get_or-append_left (x ∷ xs) ys (suc i) h = get_or-append_left xs ys i (omega arith)

get_or-append_right :
    (xs ys : List ℕ) (i j : ℕ) → i ≡ length xs + j → get_or (xs ++ ys) i 0 ≡ get_or ys j 0
get_or-append_right [] ys i j e = let same : i ≡ j = omega arith in rw same
get_or-append_right (x ∷ xs) ys zero j e = absurd (omega arith)
get_or-append_right (x ∷ xs) ys (suc i) j e = get_or-append_right xs ys i j (omega arith)

get_or-replicate_lt : (n v i : ℕ) → i < n → get_or (replicate n v) i 0 ≡ v
get_or-replicate_lt zero v i h = absurd (omega arith)
get_or-replicate_lt (suc n) v zero h = refl
get_or-replicate_lt (suc n) v (suc i) h = get_or-replicate_lt n v i (omega arith)

-- The two conditions in the loop over the code words.
tests_mean :
    (expected seen m c s : ℕ)
    → seen ≤ expected
    → (not (c == 0) && not (ltb (expected - seen) c)) ≡ true
    → (not ((seen + c == expected) && not (m == 0) && not (s == 0))) ≡ true
    → (0 < c) × (seen + c ≤ expected) × (seen + c ≡ expected → m ≢ 0 → s ≡ 0)
tests_mean expected seen m c s le sized padded = (ground arith, ground arith, λ e ne. ground arith)

module _ (n expected : ℕ) where
  -- The last of the expected groups, if it is among these, has nothing past `n` positions.
  abbrev pub LastClear : ℕ → List ℕ → Type 0
  LastClear seen ws =
      (i : ℕ)
      → i < length (expand ws)
      → seen + i + 1 ≡ expected
      → n % 63 ≢ 0
      → get_or (expand ws) i 0 >>> (n % 63) ≡ 0

  -- What the check of one word has found.
  pub record IsChecked (seen w : ℕ) : Type 0 where
    pub some_groups : 0 < run_count w
    pub room : seen + run_count w ≤ expected
    pub clear : seen + run_count w ≡ expected → n % 63 ≢ 0 → run_value w >>> (n % 63) ≡ 0

  pub check_word-IsChecked :
      (seen w seen' : ℕ)
      → seen ≤ expected
      → check_word n expected seen w ≡ ok seen'
      → IsChecked seen w × (seen' ≡ seen + run_count w)
  unfolding check_word
  check_word-IsChecked seen w seen' le h =
      let (_, e, k) =
        >>=-eq-ok
          (require (not (run_count w == 0) && not (ltb (expected - seen) (run_count w)))
            wah_fill_length)
          _ h in
      let (_, f, k') =
        >>=-eq-ok
          (require
            (not (
              (seen + run_count w == expected)
              && not (n % 63 == 0)
              && not (run_value w >>> (n % 63) == 0)))
            wah_padding)
          _ k in
      let (pos, room, clear) =
        tests_mean expected seen (n % 63) (run_count w) (run_value w >>> (n % 63)) le
          (require-eq-ok _ _ e) (require-eq-ok _ _ f) in
      (record { some_groups = pos; room = room; clear = clear }, sym (ok-injective k'))

  LastClear-cons :
      (seen w : ℕ) (ws : List ℕ)
      → IsChecked seen w
      → LastClear (seen + run_count w) ws
      → LastClear seen (w ∷ ws)
  unfolding expand
  LastClear-cons seen w ws ok_word rest i below last ne = elim (lt_or_ge i (run_count w)) [
    | inl here ↦
        let within : i < length (replicate (run_count w) (run_value w)) =
          subst (λ (t : ℕ). i < t) (sym (length-replicate (run_count w) (run_value w))) here in
        rw
          (
            get_or-append_left (replicate (run_count w) (run_value w)) (expand ws) i within,
            get_or-replicate_lt (run_count w) (run_value w) i here,
          )
          (ok_word.clear (omega (arith, ok_word.room)) ne)
    | inr later ↦
        let at : i ≡ length (replicate (run_count w) (run_value w)) + (i - run_count w) =
          omega (arith, length-replicate (run_count w) (run_value w)) in
        rw
          (get_or-append_right (replicate (run_count w) (run_value w)) (expand ws) i
            (i - run_count w) at)
          (rest (i - run_count w) (omega (arith, length-expand_cons w ws)) (omega arith) ne)
  ]

  pub LastClear-tail :
      (seen w : ℕ) (ws : List ℕ) → LastClear seen (w ∷ ws) → LastClear (seen + run_count w) ws
  unfolding expand
  LastClear-tail seen w ws clear i below last ne =
      let at : run_count w + i ≡ length (replicate (run_count w) (run_value w)) + i =
        omega (arith, length-replicate (run_count w) (run_value w)) in
      rw
        (get_or-append_right (replicate (run_count w) (run_value w)) (expand ws) (run_count w + i) i
          at)
        at (clear (run_count w + i) (omega (arith, length-expand_cons w ws)) (omega arith) ne)

  pub LastClear-head :
      (seen w : ℕ) (ws : List ℕ)
      → LastClear seen (w ∷ ws)
      → 0 < run_count w
      → seen + run_count w ≡ expected
      → n % 63 ≢ 0
      → run_value w >>> (n % 63) ≡ 0
  unfolding expand
  LastClear-head seen w ws clear pos e ne =
      let i = run_count w - 1 in
      let within : i < length (replicate (run_count w) (run_value w)) =
        omega (arith, length-replicate (run_count w) (run_value w)) in
      rw
        (
          get_or-append_left (replicate (run_count w) (run_value w)) (expand ws) i within,
          get_or-replicate_lt (run_count w) (run_value w) i (omega arith),
        )
        at (clear i (omega (arith, length-expand_cons w ws)) (omega arith) ne)

  -- A payload that is read to its end.
  pub record IsLoaded (seen last : ℕ) (ws : List ℕ) : Type 0 where
    pub codes : All IsCode ws
    pub reached : last ≡ seen + length (expand ws)
    pub room : last ≤ expected
    pub clear : LastClear seen ws

  nothing :
      (seen : ℕ) (ws : List ℕ) (last : ℕ)
      → seen ≤ expected
      → ◌≡◌ {A = List ℕ × ℕ} ([], seen) (ws, last)
      → IsLoaded seen last ws
  nothing seen ws last le e =
      let none : [] ≡ ws = ap (λ (p : List ℕ × ℕ). p.0) e in
      let same : seen ≡ last = ap (λ (p : List ℕ × ℕ). p.1) e in
      rw (← none, ← same)
        (record {
          codes = tt;
          reached = unfold expand in omega arith;
          room = le;
          clear = λ i below at ne. unfold expand in absurd (omega arith);
        })

  IsLoaded-word :
      (seen w seen' : ℕ) (ws' : List ℕ) (last' : ℕ) (ws : List ℕ) (last : ℕ)
      → w < 2 ^ 64
      → IsChecked seen w
      → seen' ≡ seen + run_count w
      → IsLoaded seen' last' ws'
      → ◌≡◌ {A = List ℕ × ℕ} (w ∷ ws', last') (ws, last)
      → IsLoaded seen last ws
  IsLoaded-word seen w seen' ws' last' ws last fits ok_word sum rest e =
      let list : w ∷ ws' ≡ ws = ap (λ (p : List ℕ × ℕ). p.0) e in
      let same : last' ≡ last = ap (λ (p : List ℕ × ℕ). p.1) e in
      rw (← list, ← same)
        (record {
          codes = ((fits, ok_word.some_groups), rest.codes);
          reached = omega (arith, rest.reached, sum, length-expand_cons w ws');
          room = rest.room;
          clear = LastClear-cons seen w ws' ok_word (rw sum at rest.clear);
        })

  pub load_words-IsLoaded :
      (fuel : ℕ) (r : ByteReader) (seen : ℕ) (ws : List ℕ) (last : ℕ)
      → All IsByte r.rest
      → seen ≤ expected
      → load_words n expected fuel r seen ≡ ok (ws, last)
      → IsLoaded seen last ws
  unfolding load_words
  load_words-IsLoaded zero r seen ws last bytes le h = nothing seen ws last le (ok-injective h)
  load_words-IsLoaded (suc fuel) r seen ws last bytes le h = elim (Bool-cases (remaining r == 0)) [
    | inl e ↦ nothing seen ws last le (ok-injective (rw e at h))
    | inr e ↦
        let ((w, r'), read, k₁) = >>=-eq-ok (get r 8) _ (rw e at h) in
        let (seen', test, k₂) = >>=-eq-ok (check_word n expected seen w) _ k₁ in
        let ((ws', last'), more, k₃) = >>=-eq-ok (load_words n expected fuel r' seen') _ k₂ in
        let (took, fits) = get_inv r 8 w r' read bytes in
        let (ok_word, sum) = check_word-IsChecked seen w seen' le test in
        let rest =
          load_words-IsLoaded fuel r' seen' ws' last' took.bytes (rw sum ok_word.room) more in
        IsLoaded-word seen w seen' ws' last' ws last fits ok_word sum rest (ok-injective k₃)
  ]
