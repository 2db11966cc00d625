-- ===== src/Wah/Backend/Built.antt =====
-- What `WahBackend::build` of backends/wah_backend.cpp leaves behind.
use bitmap_comp_framework.Prelude.{
  ℕ, ◌^◌, ◌≤◌, ◌<◌, ◌≡◌, ◌∙◌, ap, List, [], ◌∷◌, length, All, arith, ok, suc,
}
use bitmap_comp_framework.Bits.Raw.{IsWord, IsRaw}
use bitmap_comp_framework.Wah.RoundTrip.{encode-IsStream, stream_bit-encode}
use bitmap_comp_framework.Wah.Backend.{WahBackend, encode_all, build}
use bitmap_comp_framework.Wah.Backend.Query.{build_inv}
use bitmap_comp_framework.Wah.Backend.Storage.{IsStored}
use bitmap_comp_framework.Wah.Backend.Restore.{IsBackend}
use mathlib.Core.Path.{subst, sym}

encode_all-IsStored :
    (n : ℕ) (raws : List (List ℕ))
    → n ≤ 2 ^ 32
    → All (IsRaw n) raws
    → All (IsStored n) (encode_all n raws)
unfolding encode_all
encode_all-IsStored n [] small good = tt
encode_all-IsStored n (raw ∷ raws) small good = (
  record {
    stream = encode-IsStream raw n good.0 small;
    padding = λ b h. stream_bit-encode raw n good.0 small b ∙ good.0.padding b h;
  },
  encode_all-IsStored n raws small good.1,
)

length-encode_all : (n : ℕ) (raws : List (List ℕ)) → length (encode_all n raws) ≡ length raws
unfolding encode_all
length-encode_all n [] = omega arith
length-encode_all n (raw ∷ raws) = ap suc (length-encode_all n raws)

-- A backend that `build` made of fewer than 2 ^ 61 bitmaps of 64-bit words is within the bounds of
-- the format: its streams are well formed, with the right number of groups and an empty padding.
pub build-IsBackend :
    (raws : List (List ℕ)) (n : ℕ) (w : WahBackend)
    → All (All IsWord) raws
    → length raws < 2 ^ 61
    → build raws n ≡ ok w
    → IsBackend w
build-IsBackend raws n w words few built =
    let (small, good, made) = build_inv raws n w words built in
    subst IsBackend (sym made) (record {
      universe_fits = small;
      stored = encode_all-IsStored n raws small good;
      count_fits = omega (arith, length-encode_all n raws);
    })
