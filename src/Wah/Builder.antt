-- ===== src/Wah/Builder.antt =====
-- `Builder::append` of backends/wah_backend.cpp on the groups of a stream.
use bitmap_comp_framework.Prelude.{
  ℕ, zero, suc, ◌+◌, ◌*◌, ◌/◌, ◌%◌, ◌^◌, ◌≤◌, ◌<◌, bit_and, bit_or, ◌≡◌, refl, ◌∙◌, ap, sym, true,
  false, inl, inr, List, [], ◌∷◌, ◌++◌, length, replicate, All, arith, ◌==◌, Bool-cases,
  length-append, length-replicate, append-nil, append_assoc, All-append, All-replicate, ◌&&◌, ==→eq,
}
use mathlib.Core.Path.{subst}
use bitmap_comp_framework.Wah.{
  fill_flag, fill_one, mask63, is_fill, run_value, run_count, push_fill, append,
}
use bitmap_comp_framework.Wah.Code.{
  one_value, count_value, IsCode, fill_value, fill_word, run_count-fill_word, run_value-fill_word,
  bit_or-fill_word, fill_shape, is_fill-literal, expand,
}

pub replicate-add {ℓ} :
    {A : Type ℓ} (m n : ℕ) (a : A) → replicate (m + n) a ≡ replicate m a ++ replicate n a
replicate-add zero n a = let same : 0 + n ≡ n = omega arith in rw same
replicate-add (suc m) n a =
    let same : suc m + n ≡ suc (m + n) = omega arith in rw same (ap (◌∷◌ a) (replicate-add m n a))

pub expand-append : (xs ys : List ℕ) → expand (xs ++ ys) ≡ expand xs ++ expand ys
unfolding expand
expand-append [] ys = refl
expand-append (x ∷ xs) ys =
    rw (expand-append xs ys)
      (sym (append_assoc (replicate (run_count x) (run_value x)) (expand xs) (expand ys)))

pub length-expand_cons :
    (w : ℕ) (ws : List ℕ) → length (expand (w ∷ ws)) ≡ run_count w + length (expand ws)
unfolding expand
length-expand_cons w ws = rw (length-append, length-replicate)

pub expand_literals :
    (count value : ℕ) → value < 2 ^ 63 → expand (replicate count value) ≡ replicate count value
unfolding expand
expand_literals zero value h = refl
expand_literals (suc count) value h =
    rw (is_fill-literal value h) (ap (◌∷◌ value) (expand_literals count value h))

-- What an operation on a stream does: it appends `count` groups and leaves code words only.
abbrev pub Appends : List ℕ → ℕ → ℕ → List ℕ → Type 0
Appends words value count out =
    (expand out ≡ expand words ++ replicate count value) × All IsCode out

-- Words in front stay as they are.
Appends-cons :
    (w : ℕ) (words : List ℕ) (value count : ℕ) (out : List ℕ)
    → IsCode w
    → Appends words value count out
    → Appends (w ∷ words) value count (w ∷ out)
unfolding expand
Appends-cons w words value count out h (groups, codes) = (
  rw groups (
      sym (
        append_assoc (replicate (run_count w) (run_value w)) (expand words)
          (replicate count value))),
  (h, codes),
)

module _ (one count : ℕ) (digit : one ≤ 1) (pos : 0 < count) where
  abbrev head : ℕ
  head = 2 ^ 63 + one * 2 ^ 62

  new_word : count < 2 ^ 62 → Appends [] (fill_value one) count (bit_or head count ∷ [])
  unfolding expand
  new_word fits = rw (bit_or-fill_word one count digit fits) (
    rw (run_count-fill_word one count digit fits, run_value-fill_word one count digit fits)
        (append-nil (replicate count (fill_value one))),
    ((omega arith, rw (run_count-fill_word one count digit fits) pos), tt),
  )

  -- The count grows in place: it does not run over into the digits above it.
  grown :
      (w : ℕ)
      → IsCode w
      → is_fill w ≡ true
      → (bit_and w fill_one == bit_and head fill_one) ≡ true
      → run_count w + count < 2 ^ 62
      → ((w + count) % 2 ^ 64 ≡ fill_word one (run_count w + count))
        × (run_value w ≡ fill_value one)
  grown w h f same fits =
      let shape = fill_shape w h.0 f in
      let length_of : run_count w ≡ w % 2 ^ 62 = rw f (count_value w) in
      let top : w / 2 ^ 62 % 2 ≡ one = ground (arith, one_value w, one_value head) in
      (omega (arith, shape, length_of, top), rw f (ground (arith, one_value w, top)))

  grown-Appends :
      (w : ℕ)
      → IsCode w
      → is_fill w ≡ true
      → (bit_and w fill_one == bit_and head fill_one) ≡ true
      → run_count w + count < 2 ^ 62
      → Appends (w ∷ []) (fill_value one) count (((w + count) % 2 ^ 64) ∷ [])
  unfolding expand
  grown-Appends w h f same fits =
      let (word, value) = grown w h f same fits in
      rw
        (
          word,
          run_count-fill_word one (run_count w + count) digit fits,
          run_value-fill_word one (run_count w + count) digit fits,
        )
        (simp (replicate-add, value, append-nil), ((omega arith, omega arith), tt))

  pub push_fill-Appends :
      (words : List ℕ)
      → All IsCode words
      → length (expand words) + count < 2 ^ 62
      → Appends words (fill_value one) count (push_fill words head count)
  unfolding push_fill
  push_fill-Appends [] h fits = new_word (omega arith)
  push_fill-Appends (w ∷ []) h fits =
      let room : run_count w + count < 2 ^ 62 = omega (arith, length-expand_cons w []) in
      elim (Bool-cases (is_fill w && (bit_and w fill_one == bit_and head fill_one))) [
        | inl e ↦ rw e (grown-Appends w h.0 (ground arith) (ground arith) room)
        | inr e ↦ rw e (Appends-cons w [] _ count _ h.0 (new_word (omega arith)))
      ]
  push_fill-Appends (w ∷ x ∷ xs) h fits =
      let room : length (expand (x ∷ xs)) + count < 2 ^ 62 =
        omega (arith, length-expand_cons w (x ∷ xs)) in
      let rest = push_fill-Appends (x ∷ xs) h.1 room in Appends-cons w (x ∷ xs) _ count _ h.0 rest

literals-IsCode : (count value : ℕ) → value < 2 ^ 63 → All IsCode (replicate count value)
literals-IsCode count value h =
    All-replicate IsCode count value (omega arith, rw (is_fill-literal value h) (omega arith))

-- `append` adds `count` groups of the given value to what the stream stands for, as long as the
-- stream stays below 2 ^ 62 groups.
pub append-Appends :
    (words : List ℕ) (value count : ℕ)
    → All IsCode words
    → value < 2 ^ 63
    → length (expand words) + count < 2 ^ 62
    → Appends words value count (append words value count)
unfolding append
append-Appends words value zero h v fits = (sym (append-nil (expand words)), h)
append-Appends words value (suc count) h v fits = elim (Bool-cases (value == 0)) [
  | inl z ↦
      rw (counted, z)
        (subst (λ (t : ℕ). Appends words t (suc count) (push_fill words fill_flag (suc count)))
          (sym (==→eq value 0 z))
          (push_fill-Appends 0 (suc count) (omega arith) (omega arith) words h fits))
  | inr nz ↦
      rw (counted, nz)
        (elim (Bool-cases (value == mask63)) [
          | inl m ↦ rw m (
              subst
                (λ (t : ℕ).
                  Appends words t (suc count) (push_fill words (2 ^ 63 + 2 ^ 62) (suc count)))
                (sym (==→eq value mask63 m))
                (push_fill-Appends 1 (suc count) (omega arith) (omega arith) words h fits))
          | inr nm ↦ rw nm (
            expand-append words (replicate (suc count) value)
                ∙ ap (◌++◌ (expand words)) (expand_literals (suc count) value v),
            All-append IsCode words _ h (literals-IsCode (suc count) value v),
          )
        ])
]
  where
    counted : (suc count == 0) ≡ false
    counted = ground arith
