-- ===== src/Wah/Decode.antt =====
-- `decode` of backends/wah_backend.cpp, position by position.
use bitmap_comp_framework.Prelude.{
  ℕ, zero, suc, ◌+◌, ◌-◌, ◌*◌, ◌/◌, ◌%◌, ◌^◌, ◌≤◌, ◌<◌, max, ◌≡◌, refl, ◌∙◌, ap, sym, inl, inr,
  List, [], ◌∷◌, ◌++◌, length, get_or, replicate, All, arith, length-replicate, ◌==◌, Bool-cases,
  if◌then◌else◌, ==→eq, get_or-replicate, All-replicate, All-append, length-append,
}
use bitmap_comp_framework.Prelude.Digits.{bit, bit-zero}
use bitmap_comp_framework.Bits.{words_for_bits}
use bitmap_comp_framework.Bits.Raw.{
  bit_at, IsWord, IsRaw, length-mask_tail, mask_tail-IsWord, bit_at-mask_tail_low,
  bit_at-mask_tail_high,
}
use bitmap_comp_framework.Bits.Paint.{painted, painted-append, painted-get_or}
use mathlib.Core.Path.{subst}
use native.Mathlib.Nat.{le_refl}
use bitmap_comp_framework.Wah.{
  run_value, run_count, groups_for_bits, Reader, load, advance, write_group, write_run, decode_loop,
  decode,
}
use bitmap_comp_framework.Wah.Code.{IsCode, expand, run_value-lt}
use bitmap_comp_framework.Wah.Groups.{bit_at-write_group, length-write_group, write_group-IsWord}
use bitmap_comp_framework.Wah.Stream.{
  view, pending, IsReader, load-IsReader, view-load, pending-load, view_done, advance-IsReader,
  view-advance, pending-advance_all,
}

-- What a loop that writes groups does to the bitmap.
pub record Paints (gs : List ℕ) (g : ℕ) (raw out : List ℕ) : Type 0 where
  pub same_length : length out ≡ length raw
  pub words : All IsWord out
  pub bits : (b : ℕ) → b < 64 * length raw → bit_at out b ≡ max (bit_at raw b) (painted 63 gs g b)

-- No start of a group wraps.
write_run-Paints :
    (n g value : ℕ) (raw : List ℕ)
    → 63 * (g + n) ≤ 2 ^ 64
    → value < 2 ^ 63
    → All IsWord raw
    → Paints (replicate n value) g raw (write_run n g value raw)
unfolding write_run painted
write_run-Paints zero g value raw room v h = record {
  same_length = refl;
  words = h;
  bits = λ b p. omega arith;
}
write_run-Paints (suc n) g value raw room v h =
    let start : g * 63 % 2 ^ 64 ≡ g * 63 = omega arith in
    let more : (g + 1) % 2 ^ 64 ≡ g + 1 = omega arith in
    let raw' = write_group raw (g * 63) value in
    let longer = length-write_group raw (g * 63) value in
    let rest =
      write_run-Paints n (g + 1) value raw' (omega arith) v
        (write_group-IsWord raw (g * 63) value h (omega arith)) in
    rw (start, more)
      (record {
        same_length = rest.same_length ∙ longer;
        words = rest.words;
        bits = λ b p. omega (
          arith,
          rest.bits b (rw longer p),
          bit_at-write_group raw (g * 63) value b h (omega arith) p,
        );
      })

-- A run of zeros is skipped, and paints nothing.
painted_zeros : (n g b : ℕ) → painted 63 (replicate n 0) g b ≡ 0
unfolding painted
painted_zeros zero g b = refl
painted_zeros (suc n) g b = ground (arith, bit-zero (b - g * 63), painted_zeros n (g + 1) b)

run-Paints :
    (r : Reader) (g : ℕ) (raw : List ℕ)
    → 63 * (g + r.remaining) ≤ 2 ^ 64
    → IsReader r
    → All IsWord raw
    → Paints
        (replicate r.remaining r.value)
        g
        raw
        (if r.value == 0 then raw else write_run r.remaining g r.value raw)
run-Paints r g raw room good h = elim (Bool-cases (r.value == 0)) [
  | inl z ↦ rw z (record {
    same_length = refl;
    words = h;
    bits = λ b p.
        let zeros : painted 63 (replicate r.remaining r.value) g b ≡ 0 =
          ap (λ (t : ℕ). painted 63 (replicate r.remaining t) g b) (==→eq r.value 0 z)
          ∙ painted_zeros r.remaining g b in
        omega (arith, zeros);
  })
  | inr nz ↦ rw nz (write_run-Paints r.remaining g r.value raw room good.value_fits h)
]

Paints-append :
    (xs ys : List ℕ) (g : ℕ) (raw mid out : List ℕ)
    → Paints xs g raw mid
    → Paints ys (g + length xs) mid out
    → Paints (xs ++ ys) g raw out
Paints-append xs ys g raw mid out p q = record {
  same_length = q.same_length ∙ p.same_length;
  words = q.words;
  bits =
      λ b h. omega (arith, q.bits b (rw p.same_length h), p.bits b h, painted-append 63 xs ys g b);
}

Paints-nothing : (g : ℕ) (raw : List ℕ) → All IsWord raw → Paints [] g raw raw
unfolding painted
Paints-nothing g raw h = record { same_length = refl; words = h; bits = λ b p. omega arith }

-- The fuel is enough where it covers the code words that are left.
decode_loop-Paints :
    (fuel : ℕ) (r : Reader) (g : ℕ) (raw : List ℕ)
    → IsReader r
    → pending r ≤ fuel
    → 63 * (g + length (view r)) ≤ 2 ^ 64
    → All IsWord raw
    → Paints (view r) g raw (decode_loop fuel r g raw)
unfolding decode_loop
decode_loop-Paints zero r g raw good enough room h =
    rw (view_done r good (ground arith)) (Paints-nothing g raw h)
decode_loop-Paints (suc fuel) r g raw good enough room h = elim (Bool-cases (r.remaining == 0)) [
  | inl e ↦ rw (e, view_done r good (==→eq _ _ e)) (Paints-nothing g raw h)
  | inr e ↦
      let n = r.remaining in
      let parts = view-advance r good n (le_refl n) in
      let size : n + length (view (advance r n)) ≡ length (view r) = omega (
        arith,
        ap length parts,
        length-append (replicate n r.value) (view (advance r n)),
        length-replicate n r.value,
      ) in
      let more : (g + n) % 2 ^ 64 ≡ g + n = omega arith in
      let run = run-Paints r g raw (omega arith) good h in
      let raw' = if r.value == 0 then raw else write_run n g r.value raw in
      let r' = advance r n in
      let fewer = pending-advance_all r good n (le_refl n) refl (ground arith) in
      let rest =
        decode_loop-Paints fuel r' (g + n) raw' (advance-IsReader r good n (le_refl n))
          (omega arith) (omega arith) run.words in
      let rest' =
        subst (λ (t : ℕ). Paints (view r') t raw' (decode_loop fuel r' (g + n) raw'))
          (ap (λ (t : ℕ). g + t) (sym (length-replicate n r.value))) rest in
      rw (e, more, parts) (Paints-append _ _ g raw raw' _ run rest')
]

-- The stream has the groups that `num_bits` positions take.
pub record IsStream (num_bits : ℕ) (ws : List ℕ) : Type 0 where
  pub codes : All IsCode ws
  pub group_count : length (expand ws) ≡ groups_for_bits num_bits

-- Its groups take at most 2 ^ 64 positions.
pub IsStream-room :
    (num_bits : ℕ) (ws : List ℕ)
    → num_bits ≤ 2 ^ 32
    → IsStream num_bits ws
    → 63 * length (expand ws) ≤ 2 ^ 64
IsStream-room num_bits ws small s = unfold groups_for_bits in omega (arith, s.group_count)

-- Position `b` of the bitmap that a stream stands for.
unfoldable pub stream_bit : List ℕ → ℕ → ℕ
stream_bit ws b = bit (get_or (expand ws) (b / 63) 0) (b % 63)

pub expand-lt : (ws : List ℕ) → All IsCode ws → All (λ v. v < 2 ^ 63) (expand ws)
unfolding expand
expand-lt [] h = tt
expand-lt (w ∷ ws) h =
    All-append (λ v. v < 2 ^ 63) _ (expand ws)
      (All-replicate (λ v. v < 2 ^ 63) (run_count w) (run_value w) (run_value-lt w h.0.0))
      (expand-lt ws h.1)

bit_at_zeros : (n b : ℕ) → bit_at (replicate n 0) b ≡ 0
unfolding bit_at
bit_at_zeros n b = rw get_or-replicate (bit-zero (b % 64))

-- What any run of the decoding loops leaves, wrapped starts included.
record Keeps (raw out : List ℕ) : Type 0 where
  same_length : length out ≡ length raw
  words : All IsWord out

write_run-Keeps :
    (n g value : ℕ) (raw : List ℕ)
    → value < 2 ^ 63
    → All IsWord raw
    → Keeps raw (write_run n g value raw)
unfolding write_run
write_run-Keeps zero g value raw v h = record { same_length = refl; words = h }
write_run-Keeps (suc n) g value raw v h =
    let start = g * 63 % 2 ^ 64 in
    let rest =
      write_run-Keeps n ((g + 1) % 2 ^ 64) value (write_group raw start value) v
        (write_group-IsWord raw start value h (omega arith)) in
    record {
      same_length = rest.same_length ∙ length-write_group raw start value;
      words = rest.words;
    }

decode_loop-Keeps :
    (fuel : ℕ) (r : Reader) (g : ℕ) (raw : List ℕ)
    → IsReader r
    → All IsWord raw
    → Keeps raw (decode_loop fuel r g raw)
unfolding decode_loop
decode_loop-Keeps zero r g raw good h = record { same_length = refl; words = h }
decode_loop-Keeps (suc fuel) r g raw good h = elim (Bool-cases (r.remaining == 0)) [
  | inl e ↦ rw e (record { same_length = refl; words = h })
  | inr e ↦
      let n = r.remaining in
      let raw' = if r.value == 0 then raw else write_run n g r.value raw in
      let run : Keeps raw raw' = elim (Bool-cases (r.value == 0)) [
        | inl z ↦ rw z (record { same_length = refl; words = h })
        | inr z ↦ rw z (write_run-Keeps n g r.value raw good.value_fits h)
      ] in
      let rest =
        decode_loop-Keeps fuel (advance r n) ((g + n) % 2 ^ 64) raw'
          (advance-IsReader r good n (le_refl n)) run.words in
      rw e (record { same_length = rest.same_length ∙ run.same_length; words = rest.words })
]

module _ (ws : List ℕ) (num_bits : ℕ) (codes : All IsCode ws) (small : num_bits ≤ 2 ^ 32) where
  abbrev zeros : List ℕ
  zeros = replicate (words_for_bits num_bits) 0

  zeros-IsWord : All IsWord zeros
  zeros-IsWord = All-replicate IsWord (words_for_bits num_bits) 0 (omega arith)

  abbrev unmasked : List ℕ
  unmasked = decode_loop (length ws) (load ws) 0 zeros

  unmasked-Keeps : Keeps zeros unmasked
  unmasked-Keeps =
      decode_loop-Keeps (length ws) (load ws) 0 zeros (load-IsReader ws codes) zeros-IsWord

  unmasked-size : length unmasked ≡ words_for_bits num_bits
  unmasked-size = unmasked-Keeps.same_length ∙ length-replicate _ 0

  -- On any code words and at most 2 ^ 32 positions, `decode` returns a raw bitmap: it has the right
  -- number of 64-bit words and no position set past the end.
  pub decode-IsRaw : IsRaw num_bits (decode ws num_bits)
  unfolding decode
  decode-IsRaw = record {
    size = length-mask_tail unmasked num_bits ∙ unmasked-size;
    words = mask_tail-IsWord unmasked num_bits unmasked-Keeps.words;
    padding = λ b h. bit_at-mask_tail_high num_bits unmasked small unmasked-size b h;
  }

  painted_stream : (b : ℕ) → painted 63 (view (load ws)) 0 b ≡ stream_bit ws b
  unfolding stream_bit
  painted_stream b = rw (view-load ws) (
      painted-get_or 63 (expand ws) 0 (b / 63) (b % 63) b (expand-lt ws codes) (omega arith)
        (omega arith))

  module _ (room : 63 * length (expand ws) ≤ 2 ^ 64) where
    unmasked-Paints : Paints (view (load ws)) 0 zeros unmasked
    unmasked-Paints =
        let whole : length (view (load ws)) ≡ length (expand ws) = ap length (view-load ws) in
        decode_loop-Paints (length ws) (load ws) 0 zeros (load-IsReader ws codes)
          (omega (arith, pending-load ws codes)) (omega arith) zeros-IsWord

    -- Where the groups of the code words take at most 2 ^ 64 positions, as those of the stream of any
    -- bitmap of at most 2 ^ 32 positions do: below `num_bits`, which is at most 2 ^ 32, each position
    -- of `decode` is the one that the code words stand for.
    pub bit_at-decode : (b : ℕ) → b < num_bits → bit_at (decode ws num_bits) b ≡ stream_bit ws b
    unfolding decode
    bit_at-decode b h =
        bit_at-mask_tail_low num_bits unmasked small unmasked-size b h
        ∙ omega (
          arith,
          unmasked-Paints.bits b (rw length-replicate inside),
          bit_at_zeros (words_for_bits num_bits) b,
          painted_stream b,
        )
      where
        inside : b < 64 * words_for_bits num_bits
        inside = unfold words_for_bits in omega arith
