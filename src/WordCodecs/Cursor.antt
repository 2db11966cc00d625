-- ===== src/WordCodecs/Cursor.antt =====
-- `WordCursor` of backends/word_codecs.cpp.
use bitmap_comp_framework.Prelude.{
  ℕ, ◌+◌, ◌-◌, ◌*◌, ◌/◌, ◌%◌, ◌^◌, bit_and, Bool, not, ◌&&◌, List, [], ◌∷◌, ◌++◌, ltb, leb, ◌==◌,
  if◌then◌else◌, Outcome, ok, ◌>>=◌, ◌>>◌, require, invalid_selector, zero_counter,
  truncated_literals, empty_marker, unused_slots, unused_flags, extra_words, truncated_word,
  reserved_flags, fill_counter,
}
use Prim.Native.Nat.{bit_xor}
use bitmap_comp_framework.Bits.{◌>>>◌, ◌<<<◌}
use bitmap_comp_framework.Binary.{ByteReader, reader, remaining, get, low_mask}
use bitmap_comp_framework.Statistics.{RepresentationStats, no_units}
use bitmap_comp_framework.Codecs.{
  Codec, ewah, concise, plwah, val, same_codec, Encoding, Span, Fetch, stop, got, group_count,
}

-- `e_`, `in_` and `pending_` are `source`, `input` and `pending`.
pub record WordCursor : Type 0 where
  pub source : Encoding
  pub input : ByteReader
  pub pending : List Span
  pub literals : ℕ
  pub word : ℕ
  pub val_groups : ℕ
  pub slot : ℕ
  pub slots : ℕ
  pub stats : RepresentationStats

abbrev pub fresh_cursor : Encoding → ByteReader → WordCursor
fresh_cursor e input = record {
  source = e;
  input = input;
  pending = [];
  literals = 0;
  word = 0;
  val_groups = 0;
  slot = 0;
  slots = 0;
  stats = no_units;
}

unfoldable pub open_cursor : Encoding → Outcome WordCursor
open_cursor e =
    if same_codec e.codec val
    then (do
      (selector, input) ← get (reader e.bytes) 1
      require ((bit_and selector 15 == 1) && ((selector >>> 4) == e.width / 15)) invalid_selector
      ok (fresh_cursor e input))
    else ok (fresh_cursor e (reader e.bytes))

-- `++stats.literal_units` and its like.
abbrev pub count_literal : RepresentationStats → RepresentationStats
count_literal s = record s { literal_units = (s.literal_units + 1) % 2 ^ 64 }

abbrev pub count_fill : RepresentationStats → RepresentationStats
count_fill s = record s { fill_units = (s.fill_units + 1) % 2 ^ 64 }

abbrev pub count_exception : RepresentationStats → RepresentationStats
count_exception s = record s { exception_units = (s.exception_units + 1) % 2 ^ 64 }

abbrev pub count_control : RepresentationStats → RepresentationStats
count_control s = record s { control_units = (s.control_units + 1) % 2 ^ 64 }

abbrev pub mask31 : ℕ
mask31 = 2 ^ 31 - 1

-- The fields of a CONCISE or PLWAH fill word.
abbrev pub fill_position : ℕ → ℕ
fill_position word = bit_and (word >>> 25) 31

abbrev pub fill_counter_of : ℕ → ℕ
fill_counter_of word = bit_and word (2 ^ 25 - 1)

abbrev pub fill_base : ℕ → ℕ
fill_base word = if bit_and (word >>> 30) 1 == 0 then 0 else mask31

-- `base ^ (uint64_t(1) << (p - 1))`, once.
abbrev pub exception_span : ℕ → ℕ → Span
exception_span base p = record { value = bit_xor base (1 <<< (p - 1)); count = 1 }

abbrev pub is_literal : Codec → ℕ → Bool
is_literal c word = if same_codec c concise then not (word >>> 31 == 0) else word >>> 31 == 0

-- The spans of a fill word: the first, and those put in `pending_`.
unfoldable pub fill_spans : Codec → ℕ → ℕ → ℕ → Outcome (Span × List Span)
fill_spans c p count base =
    if same_codec c plwah
    then (require (not (count == 0)) zero_counter
        >> ok (
          record { value = base; count = count },
          if p == 0 then [] else (exception_span base p ∷ []),
        ))
    else if p == 0
    then ok (record { value = base; count = count + 1 }, [])
    else ok (
      exception_span base p,
      if count == 0 then [] else (record { value = base; count = count } ∷ []),
    )

-- The rest of `next`, which CONCISE and PLWAH share.
unfoldable pub next_word : WordCursor → Outcome (Fetch WordCursor)
next_word c = if remaining c.input == 0 then ok (stop c) else (do
  (word, input) ← get c.input 4
  if is_literal c.source.codec word
      then ok (
          got (record { value = bit_and word mask31; count = 1 })
            (record c { input = input; stats = count_literal c.stats }))
      else (fill_spans c.source.codec (fill_position word) (fill_counter_of word) (fill_base word)
          >>= λ (s, more). ok (
              got s (record c {
                input = input;
                pending = c.pending ++ more;
                stats =
                    if fill_position word == 0
                    then count_fill c.stats
                    else count_exception (count_fill c.stats);
              }))))

-- `ewah`. The loop ends in its first round: a marker without literals is returned, or ends the
-- stream, or is refused.
unfoldable pub next_ewah_literal : WordCursor → Outcome (Fetch WordCursor)
next_ewah_literal c = do
  (value, input) ← get c.input 8
  ok (
      got (record { value = value; count = 1 })
        (record c { input = input; stats = count_literal c.stats; literals = c.literals - 1 }))

unfoldable pub next_ewah_marker : WordCursor → Outcome (Fetch WordCursor)
next_ewah_marker c = if remaining c.input == 0 then ok (stop c) else (do
  (marker, input) ← get c.input 8
  let count = bit_and (marker >>> 1) (2 ^ 32 - 1)
  let literals = marker >>> 33
  require (leb literals (remaining input / 8)) truncated_literals
  let c' : WordCursor = record c {
    input = input;
    literals = literals;
    stats = count_control c.stats;
  }
  if not (count == 0)
      then ok (
          got (record { value = if bit_and marker 1 == 0 then 0 else 2 ^ 64 - 1; count = count })
            (record c' { stats = count_fill c'.stats }))
      else if literals == 0
      then (require ((c.source.num_bits == 0) && (remaining input == 0)) empty_marker
          >> ok (stop c'))
      else next_ewah_literal c')

unfoldable pub next_ewah : WordCursor → Outcome (Fetch WordCursor)
next_ewah c = if c.literals == 0 then next_ewah_marker c else next_ewah_literal c

-- `val`: the end of the stream, the load of a word, and one slot of it.
unfoldable pub val_end : WordCursor → Outcome (Unit {0})
val_end c = if not (ltb c.slot c.slots) then ok tt else (do
  require (bit_and c.word (low_mask ((c.slots - c.slot) * c.source.width)) == 0) unused_slots
  require (bit_and (c.word >>> 60) (low_mask (4 - c.slot)) == 0) unused_flags)

unfoldable pub load_val : WordCursor → Outcome WordCursor
load_val c = if not (c.slot == c.slots) then ok c else (do
  require (leb 8 (remaining c.input)) truncated_word
  (word, input) ← get c.input 8
  let slots = 60 / c.source.width
  require (bit_and (word >>> 60) (low_mask (4 - slots)) == 0) reserved_flags
  ok (record c {
    input = input;
    word = word;
    slots = slots;
    slot = 0;
    stats = count_control c.stats;
  }))

unfoldable pub next_slot : WordCursor → ℕ → Outcome (Fetch WordCursor)
next_slot c target =
    let width = c.source.width in
    let payload = bit_and (c.word >>> ((c.slots - 1 - c.slot) * width)) (low_mask width) in
    let count = bit_and payload (low_mask (width - 1)) in
    if bit_and (c.word >>> (63 - c.slot)) 1 == 0
    then ok (
        got (record { value = payload; count = 1 })
          (record c {
            slot = c.slot + 1;
            val_groups = c.val_groups + 1;
            stats = count_literal c.stats;
          }))
    else (require (not (count == 0) && leb count (target - c.val_groups)) fill_counter
        >> ok (
            got
              (record {
                value = if payload >>> (width - 1) == 0 then 0 else low_mask width;
                count = count;
              })
              (record c {
                slot = c.slot + 1;
                val_groups = c.val_groups + count;
                stats = count_fill c.stats;
              })))

unfoldable pub next_val : WordCursor → Outcome (Fetch WordCursor)
next_val c =
    let target = group_count c.source.num_bits c.source.width in
    if c.val_groups == target
    then (val_end c >> (require (remaining c.input == 0) extra_words >> ok (stop c)))
    else (load_val c >>= λ c'. next_slot c' target)

unfoldable pub next_span : WordCursor → Outcome (Fetch WordCursor)
next_span c =
    if same_codec c.source.codec ewah
    then next_ewah c
    else if same_codec c.source.codec val
    then next_val c
    else next_word c

-- `next`: the spans in `pending_` come first.
unfoldable pub next_pending : WordCursor → List Span → Outcome (Fetch WordCursor)
next_pending c [] = next_span c
next_pending c (s ∷ more) = ok (got s (record c { pending = more }))

unfoldable pub next : WordCursor → Outcome (Fetch WordCursor)
next c = next_pending c c.pending
