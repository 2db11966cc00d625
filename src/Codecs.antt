-- ===== src/Codecs.antt =====
-- backends/codecs.hpp, and the cursor and writer of backends/codec_internal.hpp as the interface
-- between the codecs and the functions of backends/codecs.cpp, which the children model.
pub mod Groups
pub mod Operations
pub mod Combining
pub mod Reads
pub mod Decode
pub mod Encode
pub mod Count
pub mod Combine
pub mod Split
pub mod Aligned
pub mod Merge
pub mod Validate
pub mod Yields
use Prim.Native.String.{String}
use bitmap_comp_framework.Prelude.{
  ℕ, ◌+◌, ◌-◌, ◌*◌, ◌/◌, ◌%◌, ◌^◌, ◌<◌, bit_and, bit_or, ◌≡◌, Bool, true, false, not, ◌&&◌, ◌||◌,
  List, length, get_or, leb, ltb, ◌==◌, if◌then◌else◌, Outcome, ok, throw,
}
use bitmap_comp_framework.Bits.{◌>>>◌, ◌<<<◌}
use bitmap_comp_framework.Bits.Window.{or_at}
use bitmap_comp_framework.Binary.{low_mask}
use bitmap_comp_framework.Statistics.{RepresentationStats}

pub data Codec : Type 0 where
  ewah concise plwah val sbh bbc : Codec

-- `==` on codecs.
unfoldable pub same_codec : Codec → Codec → Bool
same_codec ewah ewah = true
same_codec concise concise = true
same_codec plwah plwah = true
same_codec val val = true
same_codec sbh sbh = true
same_codec bbc bbc = true
same_codec _ _ = false

unfoldable pub codec_name : Codec → String
codec_name ewah = "ewah"
codec_name concise = "concise"
codec_name plwah = "plwah"
codec_name val = "val"
codec_name sbh = "sbh"
codec_name bbc = "bbc"

pub record CodecOptions : Type 0 where
  pub val_segment_bits : ℕ
  pub sbh_groups : ℕ

abbrev pub default_options : CodecOptions
default_options = record { val_segment_bits = 15; sbh_groups = 128 }

pub record Encoding : Type 0 where
  pub codec : Codec
  pub num_bits : ℕ
  pub width : ℕ
  pub sbh_groups : ℕ
  pub bytes : List ℕ

pub record Span : Type 0 where
  pub value : ℕ
  pub count : ℕ

abbrev pub no_span : Span
no_span = record { value = 0; count = 0 }

-- What `next` returns: `false`, or `true` with the span that it fills in; and the cursor after it.
pub data Fetch (C : Type 0) : Type 0 where
  stop : C → Fetch C
  got : Span → C → Fetch C

-- `Cursor` and `Writer`, whose virtual methods the codecs define. `left` bounds the spans that a
-- cursor can still return, in any state that `next` leads to, which makes the loops over it end.
pub record Coding : Type 1 where
  pub Cursor : Type 0
  pub cursor : Encoding → Outcome Cursor
  pub next : Cursor → Outcome (Fetch Cursor)
  pub stats : Cursor → RepresentationStats
  pub left : Cursor → ℕ
  pub IsCursor : Cursor → Type 0
  pub cursor-IsCursor : (e : Encoding) (c : Cursor) → cursor e ≡ ok c → IsCursor c
  pub next-IsCursor :
      (c : Cursor) (s : Span) (c' : Cursor)
      → IsCursor c
      → next c ≡ ok (got s c')
      → IsCursor c' × (left c' < left c)
  pub Writer : Type 0
  pub writer : Codec → ℕ → ℕ → ℕ → Outcome Writer
  pub append : Writer → ℕ → ℕ → Outcome Writer
  pub finish : Writer → Outcome Encoding

unfoldable pub group_count : ℕ → ℕ → ℕ
group_count n width = n / width + (if n % width == 0 then 0 else 1)

unfoldable pub read_group : List ℕ → ℕ → ℕ → ℕ
read_group words start width =
    let i = start / 64 in
    let off = start % 64 in
    let value = get_or words i 0 >>> off in
    let both = bit_or value (get_or words (i + 1) 0 <<< (64 - off)) in
    if leb (length words) i
    then 0
    else bit_and
        (if not (off == 0) && ltb (64 - off) width && ltb (i + 1) (length words)
          then both
          else value)
        (low_mask width)

unfoldable pub write_group : List ℕ → ℕ → ℕ → ℕ → List ℕ
write_group words start width value =
    let i = start / 64 in
    let off = start % 64 in
    let cut = bit_and value (low_mask width) in
    let first = or_at words i (cut <<< off) in
    if leb (length words) i
    then words
    else if not (off == 0) && ltb (64 - off) width && ltb (i + 1) (length words)
    then or_at first (i + 1) (cut >>> (64 - off))
    else first

unfoldable pub uniform : ℕ → ℕ → Bool
uniform v w = (v == 0) || (v == low_mask w)
