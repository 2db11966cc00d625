-- ===== src/Wah/RoundTrip.antt =====
-- `encode` and `decode` of backends/wah_backend.cpp, one after the other.
use bitmap_comp_framework.Prelude.{
  ℕ, ◌+◌, ◌*◌, ◌/◌, ◌%◌, ◌^◌, ◌≤◌, ◌≡◌, ◌∙◌, ap, sym, inl, inr, List, length, arith, lt_or_ge,
  get_or_past,
}
use bitmap_comp_framework.Prelude.Digits.{bit-zero}
use bitmap_comp_framework.Bits.Raw.{bit_at, IsRaw, bit_at_ext}
use bitmap_comp_framework.Wah.{groups_for_bits, encode, decode}
use bitmap_comp_framework.Wah.Groups.{bit-read_group}
use bitmap_comp_framework.Wah.Encode.{
  groups_from, length-groups_from, get_or-groups_from, groups_for_bits_small, encode-groups,
}
use bitmap_comp_framework.Wah.Decode.{
  IsStream, stream_bit, decode-IsRaw, bit_at-decode, IsStream-room,
}

module _ (raw : List ℕ) (num_bits : ℕ) (good : IsRaw num_bits raw) (small : num_bits ≤ 2 ^ 32) where
  pub encode-IsStream : IsStream num_bits (encode raw num_bits)
  encode-IsStream = record {
    codes = (encode-groups raw num_bits small).1;
    group_count =
        ap length (encode-groups raw num_bits small).0
        ∙ length-groups_from raw (groups_for_bits num_bits) 0;
  }

  pub stream_bit-encode : (b : ℕ) → stream_bit (encode raw num_bits) b ≡ bit_at raw b
  unfolding stream_bit
  stream_bit-encode b =
      rw (encode-groups raw num_bits small).0 (elim (lt_or_ge (b / 63) (groups_for_bits num_bits)) [
        | inl p ↦
            let start : (0 + b / 63) * 63 + b % 63 ≡ b = omega arith in
            rw (get_or-groups_from raw (groups_for_bits num_bits) 0 (b / 63) p) (
              bit-read_group raw ((0 + b / 63) * 63) (b % 63) good.words (omega arith)
              ∙ ap (bit_at raw) start)
        | inr p ↦
            rw
              (get_or_past (groups_from raw (groups_for_bits num_bits) 0) (b / 63) 0
                (omega (arith, length-groups_from raw (groups_for_bits num_bits) 0)))
              (bit-zero (b % 63)
                ∙ sym (good.padding b (omega (arith, groups_for_bits_small num_bits small))))
      ])

  -- `decode` gives back every raw bitmap of at most 2 ^ 32 positions that `encode` compressed.
  pub decode-encode : decode (encode raw num_bits) num_bits ≡ raw
  decode-encode =
      let back = decode-IsRaw (encode raw num_bits) num_bits encode-IsStream.codes small in
      bit_at_ext _ raw (back.size ∙ sym good.size) back.words good.words λ b.
        elim (lt_or_ge b num_bits) [
          | inl p ↦
              bit_at-decode (encode raw num_bits) num_bits encode-IsStream.codes small
                (IsStream-room num_bits (encode raw num_bits) small encode-IsStream) b p
              ∙ stream_bit-encode b
          | inr p ↦ back.padding b p ∙ sym (good.padding b p)
        ]
