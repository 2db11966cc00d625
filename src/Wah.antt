-- ===== src/Wah.antt =====
-- backends/wah_backend.cpp: the code words, the builder, the reader, and the three loops over them.
pub mod Code
pub mod Stream
pub mod Encode
pub mod Decode
pub mod RoundTrip
pub mod Merge
pub mod Count
pub mod Backend
pub mod Builder
pub mod Groups
use bitmap_comp_framework.Prelude.{
  ℕ, zero, suc, ◌+◌, ◌-◌, ◌*◌, ◌/◌, ◌%◌, ◌^◌, min, bit_and, bit_or, Bool, not, ◌&&◌, ◌||◌, List, [],
  ◌∷◌, ◌++◌, length, get_or, replicate, leb, ltb, ◌==◌, if◌then◌else◌,
}
use bitmap_comp_framework.Bits.{◌>>>◌, ◌<<<◌, words_for_bits, popcount64, mask_tail}
use bitmap_comp_framework.Bits.Window.{or_at}
use bitmap_comp_framework.Bits.Combine.{combine}

abbrev pub group_bits : ℕ
group_bits = 63

abbrev pub mask63 : ℕ
mask63 = 2 ^ 63 - 1

abbrev pub fill_flag : ℕ
fill_flag = 2 ^ 63

abbrev pub fill_one : ℕ
fill_one = 2 ^ 62

abbrev pub count_mask : ℕ
count_mask = 2 ^ 62 - 1

unfoldable pub groups_for_bits : ℕ → ℕ
groups_for_bits num_bits = (num_bits + group_bits + 2 ^ 64 - 1) % 2 ^ 64 / group_bits

unfoldable pub read_group : List ℕ → ℕ → ℕ
read_group raw start =
    let wi = start / 64 in
    let off = start % 64 in
    let v = get_or raw wi 0 >>> off in
    let both = bit_or v (get_or raw (wi + 1) 0 <<< (64 - off)) in
    if leb (length raw) wi
    then 0
    else bit_and (if not (off == 0) && ltb (wi + 1) (length raw) then both else v) mask63

unfoldable pub write_group : List ℕ → ℕ → ℕ → List ℕ
write_group raw start value =
    let wi = start / 64 in
    let off = start % 64 in
    let first = or_at raw wi (value <<< off) in
    if leb (length raw) wi
    then raw
    else if not (off == 0) && ltb (wi + 1) (length raw)
    then or_at first (wi + 1) (value >>> (64 - off))
    else first

-- `w & kFillFlag` and `w & kFillOne` as conditions.
abbrev pub is_fill : ℕ → Bool
is_fill w = not (bit_and w fill_flag == 0)

abbrev pub is_one : ℕ → Bool
is_one w = not (bit_and w fill_one == 0)

-- The end of `Builder::append`: the last word's run is extended in place, or a word is pushed.
unfoldable pub push_fill : List ℕ → ℕ → ℕ → List ℕ
push_fill [] head count = bit_or head count ∷ []
push_fill (w ∷ []) head count =
    if is_fill w && (bit_and w fill_one == bit_and head fill_one)
    then ((w + count) % 2 ^ 64) ∷ []
    else w ∷ bit_or head count ∷ []
push_fill (w ∷ x ∷ xs) head count = w ∷ push_fill (x ∷ xs) head count

-- `Builder::append`; the builder is its `words_`.
unfoldable pub append : List ℕ → ℕ → ℕ → List ℕ
append words value count =
    let head = bit_or fill_flag (if value == 0 then 0 else fill_one) in
    if count == 0
    then words
    else if not (value == 0) && not (value == mask63)
    then words ++ replicate count value
    else push_fill words head count

-- `rest` is what `words_` holds from `index_` on.
pub record Reader : Type 0 where
  pub rest : List ℕ
  pub value : ℕ
  pub remaining : ℕ

-- The run that a code word stands for.
abbrev pub run_value : ℕ → ℕ
run_value w = if is_fill w then (if is_one w then mask63 else 0) else w

abbrev pub run_count : ℕ → ℕ
run_count w = if is_fill w then bit_and w count_mask else 1

unfoldable pub load : List ℕ → Reader
load [] = record { rest = []; value = 0; remaining = 0 }
load (w ∷ ws) = record { rest = ws; value = run_value w; remaining = run_count w }

abbrev pub done : Reader → Bool
done r = r.remaining == 0

unfoldable pub advance : Reader → ℕ → Reader
advance r n =
    let left = (r.remaining + 2 ^ 64 - n) % 2 ^ 64 in
    if left == 0 then load r.rest else record r { remaining = left }

unfoldable pub encode_loop : List ℕ → ℕ → ℕ → List ℕ → List ℕ
encode_loop raw zero g b = b
encode_loop raw (suc left) g b =
    encode_loop raw left (g + 1) (append b (read_group raw (g * group_bits)) 1)

unfoldable pub encode : List ℕ → ℕ → List ℕ
encode raw num_bits = encode_loop raw (groups_for_bits num_bits) 0 []

-- `n` rounds of the inner loop of `decode`, from group `g` on.
unfoldable pub write_run : ℕ → ℕ → ℕ → List ℕ → List ℕ
write_run zero g value raw = raw
write_run (suc n) g value raw =
    write_run n ((g + 1) % 2 ^ 64) value (write_group raw (g * group_bits % 2 ^ 64) value)

-- Each round reads one code word, so as much fuel as there are words is enough.
unfoldable pub decode_loop : ℕ → Reader → ℕ → List ℕ → List ℕ
decode_loop zero r g raw = raw
decode_loop (suc fuel) r g raw =
    let n = r.remaining in
    let raw' = if r.value == 0 then raw else write_run n g r.value raw in
    let rest = decode_loop fuel (advance r n) ((g + n) % 2 ^ 64) raw' in
    if done r then raw else rest

unfoldable pub decode : List ℕ → ℕ → List ℕ
decode compressed num_bits =
    mask_tail
      (decode_loop (length compressed) (load compressed) 0 (replicate (words_for_bits num_bits) 0))
      num_bits

-- Each round uses up a code word of one operand at least.
unfoldable pub merge_loop : Bool → ℕ → Reader → Reader → List ℕ → List ℕ
merge_loop is_and zero ra rb out = out
merge_loop is_and (suc fuel) ra rb out =
    let n = min ra.remaining rb.remaining in
    let v = combine is_and ra.value rb.value in
    let rest = merge_loop is_and fuel (advance ra n) (advance rb n) (append out v n) in
    if not (done ra) && not (done rb) then rest else out

unfoldable pub merge : List ℕ → List ℕ → Bool → List ℕ
merge a b is_and = merge_loop is_and (length a + length b) (load a) (load b) []

-- `WahResult::cardinality`: the body of its loop, and the loop.
unfoldable pub count_word : ℕ → ℕ → ℕ
count_word c w =
    if is_fill w
    then (if is_one w then (c + group_bits * bit_and w count_mask) % 2 ^ 64 else c)
    else (c + popcount64 w) % 2 ^ 64

unfoldable pub cardinality_loop : ℕ → List ℕ → ℕ
cardinality_loop c [] = c
cardinality_loop c (w ∷ ws) = cardinality_loop (count_word c w) ws

unfoldable pub cardinality : List ℕ → ℕ
cardinality compressed = cardinality_loop 0 compressed
