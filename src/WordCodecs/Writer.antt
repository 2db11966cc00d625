-- ===== src/WordCodecs/Writer.antt =====
-- `WordWriter` of backends/word_codecs.cpp. Each round of a loop over a count takes one group at
-- least, so as many rounds as groups are enough.
use bitmap_comp_framework.Prelude.{
  ℕ, zero, suc, ◌+◌, ◌-◌, ◌*◌, ◌/◌, ◌%◌, ◌^◌, min, bit_and, bit_or, Bool, true, false, not, ◌&&◌,
  ◌||◌, List, [], ◌∷◌, length, set, ltb, ◌==◌, if◌then◌else◌, Outcome, ok, throw, ◌>>=◌,
  out_of_range,
}
use Prim.Native.Nat.{bit_xor}
use bitmap_comp_framework.Bits.{◌>>>◌, ◌<<<◌, popcount64, ctz64}
use bitmap_comp_framework.Binary.{put_le, low_mask}
use bitmap_comp_framework.Codecs.{
  Codec, ewah, plwah, val, same_codec, Encoding, Span, no_span, uniform,
}
use bitmap_comp_framework.WordCodecs.Cursor.{mask31}

-- `e_` is `target`, and its bytes stand apart.
pub record WordWriter : Type 0 where
  pub target : Encoding
  pub have_word : Bool
  pub have_marker : Bool
  pub fill_bit : Bool
  pub last : ℕ
  pub marker_pos : ℕ
  pub fill_count : ℕ
  pub literal_count : ℕ
  pub val_word : ℕ
  pub val_used : ℕ
  pub val_pending : Span

abbrev pub with_bytes : Encoding → List ℕ → Encoding
with_bytes e bytes = record e { bytes = bytes }

unfoldable pub new_writer : Codec → ℕ → ℕ → WordWriter
new_writer c n width = record {
  target = record {
    codec = c;
    num_bits = n;
    width = width;
    sbh_groups = 128;
    bytes = if same_codec c val then (bit_or ((width / 15) <<< 4) 1 % 256 ∷ []) else [];
  };
  have_word = false;
  have_marker = false;
  fill_bit = false;
  last = 0;
  marker_pos = 0;
  fill_count = 0;
  literal_count = 0;
  val_word = 0;
  val_used = 0;
  val_pending = no_span;
}

-- The bytes with the word in `last_` behind them.
abbrev pub flushed : WordWriter → List ℕ
flushed w = if w.have_word then put_le w.target.bytes w.last 4 else w.target.bytes

unfoldable pub push32 : ℕ → WordWriter → WordWriter
push32 word w = record w { target = with_bytes w.target (flushed w); last = word; have_word = true }

-- `bool(a) == b`
abbrev pub same_bit : Bool → Bool → Bool
same_bit a b = if b then a else not a

abbrev pub count_mask : ℕ
count_mask = 2 ^ 25 - 1

abbrev pub bit30 : ℕ
bit30 = 2 ^ 30

abbrev pub bit31 : ℕ
bit31 = 2 ^ 31

-- One round of `concise_fill`: the writer and the count that are left.
unfoldable pub concise_round : Bool → ℕ → ℕ → WordWriter → WordWriter × ℕ
concise_round bit count p w =
    let extends =
      (p == 0)
      && w.have_word
      && (w.last >>> 31 == 0)
      && same_bit (not (bit_and w.last bit30 == 0)) bit in
    let add = min count (count_mask - bit_and w.last count_mask) in
    let taken = min count (2 ^ 25) in
    if extends && not (add == 0)
    then (record w { last = (w.last + add) % 2 ^ 32 }, count - add)
    else (
      push32
          (bit_or (bit_or (if bit then bit30 else 0) (p * 2 ^ 25 % 2 ^ 32)) ((taken - 1) % 2 ^ 32))
          w,
      count - taken,
    )

-- `concise_fill`; after its first round `p` is 0.
unfoldable pub concise_fill : ℕ → Bool → ℕ → ℕ → WordWriter → WordWriter
concise_fill zero bit count p w = w
concise_fill (suc fuel) bit count p w =
    let next = concise_round bit count p w in
    let rest = concise_fill fuel bit next.1 0 next.0 in if count == 0 then w else rest

-- One literal group of CONCISE, and `count` of them.
unfoldable pub concise_literal : ℕ → WordWriter → WordWriter
concise_literal v w =
    let diff1 = bit_xor v mask31 in
    if popcount64 v == 1
    then concise_fill 1 false 1 (ctz64 v + 1) w
    else if popcount64 diff1 == 1
    then concise_fill 1 true 1 (ctz64 diff1 + 1) w
    else push32 (bit_or bit31 v) w

unfoldable pub concise_literals : ℕ → ℕ → WordWriter → WordWriter
concise_literals zero v w = w
concise_literals (suc count) v w = concise_literals count v (concise_literal v w)

unfoldable pub append_concise : ℕ → ℕ → WordWriter → WordWriter
append_concise v count w =
    if uniform v 31 then concise_fill count (not (v == 0)) count 0 w else concise_literals count v w

-- One round of the loop over a PLWAH fill, and the loop.
unfoldable pub plwah_round : ℕ → ℕ → WordWriter → WordWriter × ℕ
plwah_round base count w =
    let extends = w.have_word && (bit_and w.last (2 ^ 32 - 2 ^ 25) == base) in
    let add = min count (count_mask - bit_and w.last count_mask) in
    let taken = min count count_mask in
    if extends && not (add == 0)
    then (record w { last = (w.last + add) % 2 ^ 32 }, count - add)
    else (push32 (bit_or base taken) w, count - taken)

unfoldable pub plwah_fill : ℕ → ℕ → ℕ → WordWriter → WordWriter
plwah_fill zero base count w = w
plwah_fill (suc fuel) base count w =
    let next = plwah_round base count w in
    let rest = plwah_fill fuel base next.1 next.0 in if count == 0 then w else rest

-- One literal group of PLWAH: it is attached to the fill before it, or written out.
unfoldable pub plwah_literal : ℕ → WordWriter → WordWriter
plwah_literal v w =
    let diff = bit_xor v (if bit_and w.last bit30 == 0 then 0 else mask31) in
    if w.have_word
      && not (w.last >>> 31 == 0)
      && (bit_and (w.last >>> 25) 31 == 0)
      && (popcount64 diff == 1)
    then record w { last = bit_or w.last ((ctz64 diff + 1) * 2 ^ 25 % 2 ^ 32) }
    else push32 v w

unfoldable pub plwah_literals : ℕ → ℕ → WordWriter → WordWriter
plwah_literals zero v w = w
plwah_literals (suc count) v w = plwah_literals count v (plwah_literal v w)

unfoldable pub append_plwah : ℕ → ℕ → WordWriter → WordWriter
append_plwah v count w =
    if uniform v 31
    then plwah_fill count (bit_or bit31 (if v == 0 then 0 else bit30)) count w
    else plwah_literals count v w

-- `set_le`; `bytes.at` throws past the end.
unfoldable pub set_le : List ℕ → ℕ → ℕ → ℕ → ℕ → Outcome (List ℕ)
set_le bytes pos value i zero = ok bytes
set_le bytes pos value i (suc remaining) =
    let rest =
      set_le (set bytes (pos + i) ((value >>> (8 * i)) % 256)) pos value (i + 1) remaining in
    if ltb (pos + i) (length bytes) then rest else throw out_of_range

unfoldable pub update_marker : WordWriter → Outcome WordWriter
update_marker w = do
  bytes ←
      set_le w.target.bytes w.marker_pos
        (bit_or (bit_or (if w.fill_bit then 1 else 0) (w.fill_count <<< 1))
          (w.literal_count <<< 33))
        0 8
  ok (record w { target = with_bytes w.target bytes })

unfoldable pub start_marker : WordWriter → Outcome WordWriter
start_marker w = do
  w' ← if w.have_marker then update_marker w else ok w
  ok (record w' {
    marker_pos = length w'.target.bytes;
    target = with_bytes w'.target (put_le w'.target.bytes 0 8);
    have_marker = true;
    fill_bit = false;
    fill_count = 0;
    literal_count = 0;
  })

-- `start_marker` under the condition of a fill or of a literal.
unfoldable pub marker_for : Bool → WordWriter → Outcome WordWriter
marker_for needed w = if needed then start_marker w else ok w

unfoldable pub ewah_fill : ℕ → Bool → ℕ → WordWriter → Outcome WordWriter
ewah_fill zero bit count w = ok w
ewah_fill (suc fuel) bit count w = if count == 0 then ok w else (do
  w' ←
      marker_for
        (not w.have_marker
          || not (w.literal_count == 0)
          || (not (w.fill_count == 0) && not (same_bit w.fill_bit bit))
          || (w.fill_count == 2 ^ 32 - 1))
        w
  ewah_fill fuel bit (count - min count (2 ^ 32 - 1 - w'.fill_count)) (record w' {
    fill_bit = bit;
    fill_count = w'.fill_count + min count (2 ^ 32 - 1 - w'.fill_count);
  }))

unfoldable pub ewah_literals : ℕ → ℕ → WordWriter → Outcome WordWriter
ewah_literals zero v w = ok w
ewah_literals (suc count) v w = do
  w' ← marker_for (not w.have_marker || (w.literal_count == 2 ^ 31 - 1)) w
  ewah_literals count v (record w' {
    target = with_bytes w'.target (put_le w'.target.bytes v 8);
    literal_count = w'.literal_count + 1;
  })

unfoldable pub append_ewah : ℕ → ℕ → WordWriter → Outcome WordWriter
append_ewah v count w =
    if uniform v 64 then ewah_fill count (not (v == 0)) count w else ewah_literals count v w

unfoldable pub flush_val : WordWriter → WordWriter
flush_val w = if w.val_used == 0 then w else record w {
  target = with_bytes w.target (put_le w.target.bytes w.val_word 8);
  val_word = 0;
  val_used = 0;
}

unfoldable pub val_token : ℕ → Bool → WordWriter → WordWriter
val_token payload fill w =
    let slots = 60 / w.target.width in
    let w' = if w.val_used == slots then flush_val w else w in
    let flagged = if fill then bit_or w'.val_word (1 <<< (63 - w'.val_used)) else w'.val_word in
    record w' {
      val_word = bit_or flagged (payload <<< ((slots - 1 - w'.val_used) * w.target.width));
      val_used = w'.val_used + 1;
    }

unfoldable pub fill_tokens : ℕ → ℕ → Bool → ℕ → WordWriter → WordWriter
fill_tokens zero width bit n w = w
fill_tokens (suc fuel) width bit n w =
    let taken = min n (low_mask (width - 1)) in
    let rest =
      fill_tokens fuel width bit (n - taken)
        (val_token (bit_or (if bit then 1 <<< (width - 1) else 0) taken) true w) in
    if n == 0 then w else rest

unfoldable pub literal_tokens : ℕ → ℕ → WordWriter → WordWriter
literal_tokens zero v w = w
literal_tokens (suc n) v w = literal_tokens n v (val_token v false w)

unfoldable pub flush_val_pending : WordWriter → WordWriter
flush_val_pending w =
    let v = w.val_pending.value in
    let n = w.val_pending.count in
    let width = w.target.width in
    let written =
      if uniform v width then fill_tokens n width (not (v == 0)) n w else literal_tokens n v w in
    if n == 0 then w else record written { val_pending = no_span }

unfoldable pub append_val : ℕ → ℕ → WordWriter → WordWriter
append_val v count w =
    let merges =
      not (w.val_pending.count == 0) && (w.val_pending.value == v) && uniform v w.target.width in
    let flushed = flush_val_pending w in
    if merges
    then record w {
      val_pending = record w.val_pending { count = (w.val_pending.count + count) % 2 ^ 64 };
    }
    else record flushed { val_pending = record { value = v; count = count } }

unfoldable pub append : WordWriter → ℕ → ℕ → Outcome WordWriter
append w value count =
    let v = bit_and value (low_mask w.target.width) in
    if count == 0
    then ok w
    else if same_codec w.target.codec ewah
    then append_ewah v count w
    else if same_codec w.target.codec val
    then ok (append_val v count w)
    else if same_codec w.target.codec plwah
    then ok (append_plwah v count w)
    else ok (append_concise v count w)

unfoldable pub finish : WordWriter → Outcome Encoding
finish w =
    if same_codec w.target.codec val
    then ok (flush_val (flush_val_pending w)).target
    else if same_codec w.target.codec ewah
    then (marker_for (not w.have_marker) w >>= λ w'. update_marker w' >>= λ w''. ok w''.target)
    else ok (with_bytes w.target (flushed w))
