-- ===== src/Binary.antt =====
-- common/binary.hpp: little-endian output and the byte reader. A `uint8_t` is a number below 256.
pub mod RoundTrip
pub mod Words
use bitmap_comp_framework.Prelude.{
  ℕ, zero, suc, ◌+◌, ◌-◌, ◌*◌, ◌/◌, ◌%◌, ◌^◌, bit_or, ◌||◌, List, [], ◌∷◌, ◌++◌, length, take, drop,
  ltb, ◌==◌, not, if◌then◌else◌, Outcome, ok, throw, ◌>>=◌, ◌>>◌, require, truncated_data,
  truncated_payload, trailing_data,
}
use bitmap_comp_framework.Bits.{◌>>>◌, ◌<<<◌}

-- The loop of `put_le` from round `i` on, with `left` rounds to go.
unfoldable pub put_le_loop : List ℕ → ℕ → ℕ → ℕ → List ℕ
put_le_loop out value i zero = out
put_le_loop out value i (suc left) =
    put_le_loop (out ++ (((value >>> (i * 8)) % 256) ∷ [])) value (i + 1) left

unfoldable pub put_le : List ℕ → ℕ → ℕ → List ℕ
put_le out value bytes = put_le_loop out value 0 bytes

-- `rest` is what `data_` holds from `pos_` on.
pub record ByteReader : Type 0 where
  pub pos : ℕ
  pub rest : List ℕ

abbrev pub reader : List ℕ → ByteReader
reader bytes = record { pos = 0; rest = bytes }

abbrev pub remaining : ByteReader → ℕ
remaining r = length r.rest

abbrev pub position : ByteReader → ℕ
position r = r.pos

-- The loop of `get`, for bytes that are there.
unfoldable pub get_loop : ℕ → ℕ → ℕ → ℕ → List ℕ → ℕ × ByteReader
get_loop zero i v pos rest = (v, record { pos = pos; rest = rest })
get_loop (suc left) i v pos [] = (v, record { pos = pos; rest = [] })
get_loop (suc left) i v pos (b ∷ rest) =
    get_loop left (i + 1) (bit_or v (b <<< (8 * i))) (pos + 1) rest

unfoldable pub get : ByteReader → ℕ → Outcome (ℕ × ByteReader)
get r bytes =
    if ltb 8 bytes || ltb (remaining r) bytes
    then throw truncated_data
    else ok (get_loop bytes 0 0 r.pos r.rest)

unfoldable pub take_bytes : ByteReader → ℕ → Outcome (List ℕ × ByteReader)
take_bytes r n =
    if ltb (remaining r) n
    then throw truncated_payload
    else ok (take n r.rest, record { pos = r.pos + n; rest = drop n r.rest })

unfoldable pub require_end : ByteReader → Outcome (Unit {0})
require_end r = require (remaining r == 0) trailing_data

unfoldable pub low_mask : ℕ → ℕ
low_mask width = if width == 64 then 2 ^ 64 - 1 else (1 <<< width) - 1
