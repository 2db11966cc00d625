-- ===== src/Binary/RoundTrip.antt =====
-- `put_le` of common/binary.hpp and then `get` or `take`.
use bitmap_comp_framework.Prelude.{
  ℕ, zero, suc, ◌+◌, ◌*◌, ◌/◌, ◌%◌, ◌^◌, ◌≤◌, ◌<◌, bit_or, ◌≡◌, refl, ◌∙◌, ap, sym, List, [], ◌∷◌,
  ◌++◌, length, take, drop, All, arith, ltb, ◌||◌, append_assoc, append-nil, false, ok, throw,
  length-append, truncated_data, ◌↔◌, ◌⊎◌,
}
use bitmap_comp_framework.Prelude.Masks.{bit_or_fields, bit_or_comm, pow-pos, pow-add}
use bitmap_comp_framework.Bits.{◌>>>◌, ◌<<<◌}
use bitmap_comp_framework.Binary.{
  put_le_loop, put_le, ByteReader, remaining, get_loop, get, take_bytes,
}
use native.Mathlib.Nat.{div-div-eq-div-mul, mul-le-mul_right, pow-le-pow_right}
use mathlib.Core.Path.{subst}

-- The `k` lowest bytes of a value, lowest first.
unfoldable pub le_bytes : ℕ → ℕ → List ℕ
le_bytes zero value = []
le_bytes (suc k) value = value % 256 ∷ le_bytes k (value / 256)

pub length-le_bytes : (k value : ℕ) → length (le_bytes k value) ≡ k
unfolding le_bytes
length-le_bytes zero value = refl
length-le_bytes (suc k) value = ap suc (length-le_bytes k (value / 256))

pub le_bytes-IsByte : (k value : ℕ) → All (λ b. b < 256) (le_bytes k value)
unfolding le_bytes
le_bytes-IsByte zero value = tt
le_bytes-IsByte (suc k) value = (omega arith, le_bytes-IsByte k (value / 256))

pub shr_byte : (value i : ℕ) → value / 2 ^ (i * 8) / 256 ≡ value / 2 ^ ((i + 1) * 8)
shr_byte value i =
    div-div-eq-div-mul value (2 ^ (i * 8)) 256
    ∙ ap (λ (t : ℕ). value / t) (sym (pow-add (i * 8) 8 ((i + 1) * 8) (omega arith)))

put_le_loop-le_bytes :
    (out : List ℕ) (value i left : ℕ)
    → put_le_loop out value i left ≡ out ++ le_bytes left (value >>> (i * 8))
unfolding put_le_loop le_bytes
put_le_loop-le_bytes out value i zero = sym (append-nil out)
put_le_loop-le_bytes out value i (suc left) =
    put_le_loop-le_bytes (out ++ (((value >>> (i * 8)) % 256) ∷ [])) value (i + 1) left
    ∙ append_assoc out (((value >>> (i * 8)) % 256) ∷ []) (le_bytes left (value >>> ((i + 1) * 8)))
    ∙ rw (shr_byte value i)

-- `put_le` appends the low bytes of the value.
pub put_le-le_bytes : (out : List ℕ) (value k : ℕ) → put_le out value k ≡ out ++ le_bytes k value
unfolding put_le
put_le-le_bytes out value k =
    put_le_loop-le_bytes out value 0 k ∙ ap (λ (t : ℕ). out ++ le_bytes k t) (omega arith)

-- The value that bytes stand for.
unfoldable pub le_value : List ℕ → ℕ
le_value [] = 0
le_value (b ∷ bs) = b + 256 * le_value bs

pub le_value-le_bytes : (k value : ℕ) → value < 2 ^ (8 * k) → le_value (le_bytes k value) ≡ value
unfolding le_value le_bytes
le_value-le_bytes zero value h = omega arith
le_value-le_bytes (suc k) value h = omega (
  arith,
  le_value-le_bytes k (value / 256) (omega (arith, pow-add 8 (8 * k) (8 * suc k) (omega arith))),
)

pub le_bytes-le_value :
    (bs : List ℕ) → All (λ b. b < 256) bs → le_bytes (length bs) (le_value bs) ≡ bs
unfolding le_value le_bytes
le_bytes-le_value [] h = refl
le_bytes-le_value (b ∷ bs) h =
    let low : (b + 256 * le_value bs) % 256 ≡ b = omega (arith, h.0) in
    let high : (b + 256 * le_value bs) / 256 ≡ le_value bs = omega (arith, h.0) in
    rw (low, high, le_bytes-le_value bs h.1)

pub le_value-lt : (bs : List ℕ) → All (λ b. b < 256) bs → le_value bs < 2 ^ (8 * length bs)
unfolding le_value
le_value-lt [] h = omega arith
le_value-lt (b ∷ bs) h =
    omega (
      arith,
      h.0,
      le_value-lt bs h.1,
      pow-add 8 (8 * length bs) (8 * suc (length bs)) (omega arith),
    )

-- A byte put above those that were read: nothing is cut off, and nothing is disturbed.
module _ (v b i : ℕ) (low : v < 2 ^ (8 * i)) (byte : b < 256) (room : i < 8) where
  next_pow : 2 ^ (8 * (i + 1)) ≡ 2 ^ (8 * i) * 256
  next_pow = pow-add (8 * i) 8 (8 * (i + 1)) (omega arith)

  shifted-le : b * 2 ^ (8 * i) ≤ 255 * 2 ^ (8 * i)
  shifted-le = mul-le-mul_right (2 ^ (8 * i)) (omega arith)

  pow_room : 2 ^ (8 * (i + 1)) ≤ 2 ^ 64
  pow_room = pow-le-pow_right {n = 2} (omega arith) {i = 8 * (i + 1)} {j = 64} (omega arith)

  byte_above : bit_or v (b <<< (8 * i)) ≡ v + b * 2 ^ (8 * i)
  byte_above =
      let whole : b * 2 ^ (8 * i) % 2 ^ 64 ≡ b * 2 ^ (8 * i) =
        omega (arith, next_pow, shifted-le, pow_room, pow-pos (8 * i)) in
      rw (whole, bit_or_comm v (b * 2 ^ (8 * i)), bit_or_fields (8 * i) b v low) (omega arith)

  byte_above-lt : v + b * 2 ^ (8 * i) < 2 ^ (8 * (i + 1))
  byte_above-lt = omega (arith, next_pow, shifted-le)

get_loop-le_value :
    (bs more : List ℕ) (i v pos : ℕ)
    → All (λ b. b < 256) bs
    → v < 2 ^ (8 * i)
    → i + length bs ≤ 8
    → get_loop (length bs) i v pos (bs ++ more)
      ≡ (v + 2 ^ (8 * i) * le_value bs, record { pos = pos + length bs; rest = more })
unfolding get_loop le_value
get_loop-le_value [] more i v pos h low room = ground arith
get_loop-le_value (b ∷ bs) more i v pos h low room =
    let v' = v + b * 2 ^ (8 * i) in
    let value : v' + 2 ^ (8 * (i + 1)) * le_value bs ≡ v + 2 ^ (8 * i) * (b + 256 * le_value bs) =
      omega (arith, ap (λ (t : ℕ). t * le_value bs) (next_pow v b i low h.0 (omega arith))) in
    let at : pos + 1 + length bs ≡ pos + suc (length bs) = omega arith in
    rw (byte_above v b i low h.0 (omega arith)) (
      get_loop-le_value bs more (i + 1) v' (pos + 1) h.1 (byte_above-lt v b i low h.0 (omega arith))
        (omega arith)
      ∙ rw (value, at))

-- On enough bytes `get` returns the value of the first ones, and leaves the others.
pub get-le_value :
    (bs more : List ℕ) (pos : ℕ)
    → All (λ b. b < 256) bs
    → length bs ≤ 8
    → get (record { pos = pos; rest = bs ++ more }) (length bs)
      ≡ ok (le_value bs, record { pos = pos + length bs; rest = more })
unfolding get
get-le_value bs more pos h room =
    let enough : (ltb 8 (length bs) || ltb (length (bs ++ more)) (length bs)) ≡ false =
      ground (arith, length-append bs more) in
    let value : 0 + 2 ^ (8 * 0) * le_value bs ≡ le_value bs = omega arith in
    rw enough (ap ok (get_loop-le_value bs more 0 0 pos h (omega arith) (omega arith) ∙ rw value))

pub get-le_bytes :
    (value k pos : ℕ) (more : List ℕ)
    → k ≤ 8
    → value < 2 ^ (8 * k)
    → get (record { pos = pos; rest = le_bytes k value ++ more }) k
      ≡ ok (value, record { pos = pos + k; rest = more })
get-le_bytes value k pos more h fits =
    subst
      (λ (t : ℕ).
        get (record { pos = pos; rest = le_bytes k value ++ more }) t
        ≡ ok (value, record { pos = pos + t; rest = more }))
      (length-le_bytes k value)
      (get-le_value (le_bytes k value) more pos (le_bytes-IsByte k value)
          (omega (arith, length-le_bytes k value))
        ∙ rw (le_value-le_bytes k value fits))

pub get-byte :
    (b pos : ℕ) (more : List ℕ)
    → b < 256
    → get (record { pos = pos; rest = b ∷ more }) 1 ≡ ok (b, record { pos = pos + 1; rest = more })
unfolding le_value
get-byte b pos more h =
    let value : b + 256 * 0 ≡ b = omega arith in
    get-le_value (b ∷ []) more pos (h, tt) (omega arith) ∙ rw value

-- `get` reads back from any position a value that `put_le` wrote in the same width, of at most 8
-- bytes and wide enough for it, and leaves what follows.
pub get-put_le :
    (value k pos : ℕ) (more : List ℕ)
    → k ≤ 8
    → value < 2 ^ (8 * k)
    → get (record { pos = pos; rest = put_le [] value k ++ more }) k
      ≡ ok (value, record { pos = pos + k; rest = more })
get-put_le value k pos more h fits =
    rw (put_le-le_bytes [] value k) (get-le_bytes value k pos more h fits)

-- `get` throws "truncated binary data" exactly on a width over 8 or with fewer bytes left than the
-- width.
pub get_fails :
    (r : ByteReader) (k : ℕ) → (get r k ≡ throw truncated_data) ↔ ((8 < k) ⊎ (remaining r < k))
unfolding get
get_fails r k = ground arith

take-append : (xs ys : List ℕ) → take (length xs) (xs ++ ys) ≡ xs
take-append [] ys = refl
take-append (x ∷ xs) ys = ap (◌∷◌ x) (take-append xs ys)

drop-append : (xs ys : List ℕ) → drop (length xs) (xs ++ ys) ≡ ys
drop-append [] ys = refl
drop-append (x ∷ xs) ys = drop-append xs ys

-- `take` hands out the bytes in front.
pub take_bytes-append :
    (xs ys : List ℕ) (pos : ℕ)
    → take_bytes (record { pos = pos; rest = xs ++ ys }) (length xs)
      ≡ ok (xs, record { pos = pos + length xs; rest = ys })
unfolding take_bytes
take_bytes-append xs ys pos =
    let enough : ltb (length (xs ++ ys)) (length xs) ≡ false =
      ground (arith, length-append xs ys) in
    rw (enough, take-append xs ys, drop-append xs ys)
