-- ===== src/Archive/Reads.antt =====
-- What a successful read of common/binary.hpp took from the front of the bytes.
use bitmap_comp_framework.Prelude.{
  ℕ, zero, suc, ◌+◌, ◌*◌, ◌^◌, ◌≤◌, ◌<◌, ◌≡◌, refl, ◌∙◌, ap, ap₂, sym, inl, inr, List, [], ◌∷◌,
  ◌++◌, length, take, drop, All, arith, ok, throw, require, Bool, true, false, Error, lt_or_ge, ◌⊎◌,
  truncated_payload, append_assoc,
}
use mathlib.Core.Path.{subst}
use bitmap_comp_framework.Binary.{ByteReader, remaining, get, take_bytes}
use bitmap_comp_framework.Binary.RoundTrip.{
  get_fails, le_bytes, get-le_value, le_value, le_bytes-le_value, le_value-lt,
}

abbrev pub IsByte : ℕ → Type 0
IsByte b = b < 256

pub take-append-drop : (n : ℕ) (xs : List ℕ) → take n xs ++ drop n xs ≡ xs
take-append-drop zero xs = refl
take-append-drop (suc n) [] = refl
take-append-drop (suc n) (x ∷ xs) = ap (◌∷◌ x) (take-append-drop n xs)

pub length-take : (n : ℕ) (xs : List ℕ) → n ≤ length xs → length (take n xs) ≡ n
length-take zero xs h = refl
length-take (suc n) [] h = absurd (omega arith)
length-take (suc n) (x ∷ xs) h = ap suc (length-take n xs (omega arith))

pub All-split :
    (n : ℕ) (xs : List ℕ) → All IsByte xs → All IsByte (take n xs) × All IsByte (drop n xs)
All-split zero xs h = (tt, h)
All-split (suc n) [] h = (tt, tt)
All-split (suc n) (x ∷ xs) h = let (p, q) = All-split n xs h.1 in ((h.0, p), q)

-- A read that succeeds took the bytes of its value from the front.
pub record Took (r : ByteReader) (front : List ℕ) (r' : ByteReader) : Type 0 where
  pub split : r.rest ≡ front ++ r'.rest
  pub bytes : All IsByte r'.rest

pub require-eq-ok : (b : Bool) (e : Error) → require b e ≡ ok tt → b ≡ true
require-eq-ok true e h = refl
require-eq-ok false e h = cc

pub ok-injective {ℓ} : {A : Type ℓ} {a b : A} → ok a ≡ ok b → a ≡ b
ok-injective e = cc

pub get_value :
    (r : ByteReader) (k : ℕ)
    → k ≤ 8
    → k ≤ remaining r
    → All IsByte r.rest
    → get r k ≡ ok (le_value (take k r.rest), record { pos = r.pos + k; rest = drop k r.rest })
get_value r k width enough bytes =
    let long = length-take k r.rest enough in
    let run =
      get-le_value (take k r.rest) (drop k r.rest) r.pos (All-split k r.rest bytes).0
        (omega arith) in
    rw (take-append-drop k r.rest, long) at run

pub get_inv :
    (r : ByteReader) (k v : ℕ) (r' : ByteReader)
    → get r k ≡ ok (v, r')
    → All IsByte r.rest
    → Took r (le_bytes k v) r' × (v < 2 ^ (8 * k))
get_inv r k v r' h bytes = elim (lt_or_ge 8 k) [
  | inl wide ↦ absurd (refused (inl wide))
  | inr width ↦ elim (lt_or_ge (remaining r) k) [
    | inl few ↦ absurd (refused (inr few))
    | inr enough ↦ runs width enough
  ]
]
  where
    refused : (8 < k) ⊎ (remaining r < k) → ⊥
    refused bad = let e = (get_fails r k).1 bad in cc

    runs : k ≤ 8 → k ≤ remaining r → Took r (le_bytes k v) r' × (v < 2 ^ (8 * k))
    runs width enough =
        let same = ok-injective (sym h ∙ get_value r k width enough bytes) in
        let value : v ≡ le_value (take k r.rest) = ap (λ (p : ℕ × ByteReader). p.0) same in
        let left : r' ≡ record { pos = r.pos + k; rest = drop k r.rest } =
          ap (λ (p : ℕ × ByteReader). p.1) same in
        let long = length-take k r.rest enough in
        let halves = All-split k r.rest bytes in
        let written : le_bytes k v ≡ take k r.rest =
          ap₂ le_bytes (sym long) value ∙ le_bytes-le_value (take k r.rest) halves.0 in
        (
          record {
            split = rw (left, written) (sym (take-append-drop k r.rest));
            bytes = rw left halves.1;
          },
          rw value (
              subst (λ (t : ℕ). le_value (take k r.rest) < 2 ^ (8 * t)) long
                (le_value-lt (take k r.rest) halves.0)),
        )

pub take_bytes_inv :
    (r : ByteReader) (n : ℕ) (p : List ℕ) (r' : ByteReader)
    → take_bytes r n ≡ ok (p, r')
    → All IsByte r.rest
    → Took r p r' × (length p ≡ n)
unfolding take_bytes
take_bytes_inv r n p r' h bytes = elim (lt_or_ge (remaining r) n) [
  | inl few ↦ absurd (refused few)
  | inr enough ↦ runs enough
]
  where
    refused : remaining r < n → ⊥
    refused few = let e : take_bytes r n ≡ throw truncated_payload = ground arith in cc

    runs : n ≤ remaining r → Took r p r' × (length p ≡ n)
    runs enough =
        let got : take_bytes r n
            ≡ ok (take n r.rest, record { pos = r.pos + n; rest = drop n r.rest }) =
          ground arith in
        let same = ok-injective (sym h ∙ got) in
        let front : p ≡ take n r.rest = ap (λ (q : List ℕ × ByteReader). q.0) same in
        let left : r' ≡ record { pos = r.pos + n; rest = drop n r.rest } =
          ap (λ (q : List ℕ × ByteReader). q.1) same in
        (
          record {
            split = rw (left, front) (sym (take-append-drop n r.rest));
            bytes = rw left (All-split n r.rest bytes).1;
          },
          rw front (length-take n r.rest enough),
        )

pub Took-trans :
    (r : ByteReader) (xs : List ℕ) (r₁ : ByteReader) (ys : List ℕ) (r₂ : ByteReader)
    → Took r xs r₁
    → Took r₁ ys r₂
    → Took r (xs ++ ys) r₂
Took-trans r xs r₁ ys r₂ p q = record {
  split = p.split ∙ ap (◌++◌ xs) q.split ∙ sym (append_assoc xs ys r₂.rest);
  bytes = q.bytes;
}
