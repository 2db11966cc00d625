-- ===== src/Binary/Words.antt =====
-- Payloads of 64-bit words: the loops of backends/wah_backend.cpp and backends/raw_backend.cpp over
-- `put_le` and `get` of common/binary.hpp.
use bitmap_comp_framework.Prelude.{
  ℕ, zero, suc, ◌+◌, ◌*◌, ◌^◌, ◌≤◌, ◌<◌, ◌≡◌, refl, sym, ◌∙◌, false, List, [], ◌∷◌, ◌++◌, length,
  All, arith, Outcome, ok, ◌>>=◌, ◌==◌, if◌then◌else◌, append_assoc, append-nil, length-append,
}
use bitmap_comp_framework.Binary.{put_le, ByteReader, remaining, get}
use bitmap_comp_framework.Binary.RoundTrip.{
  le_bytes, length-le_bytes, put_le-le_bytes, get-le_bytes,
}

-- The payload of one bitmap: its 64-bit words in eight bytes each.
unfoldable pub put_words : List ℕ → List ℕ → List ℕ
put_words p [] = p
put_words p (w ∷ ws) = put_words (put_le p w 8) ws

-- The loop that reads words to the end of a payload, eight bytes a round.
unfoldable pub get_words : ℕ → ByteReader → Outcome (List ℕ)
get_words zero r = ok []
get_words (suc fuel) r =
    if remaining r == 0
    then ok []
    else do (word, r') ← get r 8; ws ← get_words fuel r'; ok (word ∷ ws)

-- The same bytes, word by word.
unfoldable pub word_bytes : List ℕ → List ℕ
word_bytes [] = []
word_bytes (w ∷ ws) = le_bytes 8 w ++ word_bytes ws

pub put_words-word_bytes : (p ws : List ℕ) → put_words p ws ≡ p ++ word_bytes ws
unfolding put_words word_bytes
put_words-word_bytes p [] = sym (append-nil p)
put_words-word_bytes p (w ∷ ws) =
    put_words-word_bytes (put_le p w 8) ws
    ∙ rw (put_le-le_bytes p w 8) (append_assoc p (le_bytes 8 w) (word_bytes ws))

pub length-word_bytes : (ws : List ℕ) → length (word_bytes ws) ≡ 8 * length ws
unfolding word_bytes
length-word_bytes [] = refl
length-word_bytes (w ∷ ws) =
    omega (
      arith,
      length-append (le_bytes 8 w) (word_bytes ws),
      length-le_bytes 8 w,
      length-word_bytes ws,
    )

-- As many rounds as there are words are enough.
pub get_words-word_bytes :
    (ws : List ℕ) (fuel pos : ℕ)
    → All (λ w. w < 2 ^ 64) ws
    → length ws ≤ fuel
    → get_words fuel (record { pos = pos; rest = word_bytes ws }) ≡ ok ws
unfolding get_words word_bytes
get_words-word_bytes [] zero pos h enough = refl
get_words-word_bytes [] (suc fuel) pos h enough = refl
get_words-word_bytes (w ∷ ws) zero pos h enough = absurd (omega arith)
get_words-word_bytes (w ∷ ws) (suc fuel) pos h enough =
    let more : (length (le_bytes 8 w ++ word_bytes ws) == 0) ≡ false =
      ground (arith, length-append (le_bytes 8 w) (word_bytes ws), length-le_bytes 8 w) in
    rw (
      more,
      get-le_bytes w 8 pos (word_bytes ws) (omega arith) h.0,
      get_words-word_bytes ws fuel (pos + 8) h.1 (omega arith),
    )
