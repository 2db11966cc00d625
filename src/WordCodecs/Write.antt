-- ===== src/WordCodecs/Write.antt =====
-- The 32-bit words that `WordWriter` of backends/word_codecs.cpp has written, and the one that it
-- holds back in `last_`.
use bitmap_comp_framework.Prelude.{
  ℕ, ◌+◌, ◌-◌, ◌≤◌, ◌<◌, ◌≡◌, refl, ◌∙◌, ap, sym, true, false, inl, inr, List, [], ◌∷◌, ◌++◌,
  length, replicate, All, arith, ok, Bool-cases, append-nil, append_assoc, All-append,
  if◌then◌else◌,
}
use mathlib.Core.Path.{subst}
use bitmap_comp_framework.Binary.{reader}
use bitmap_comp_framework.Binary.RoundTrip.{le_bytes, put_le-le_bytes}
use bitmap_comp_framework.Wah.Builder.{replicate-add}
use bitmap_comp_framework.Statistics.{no_units}
use bitmap_comp_framework.Codecs.{Codec, ewah, val, same_codec, Encoding, group_count}
use bitmap_comp_framework.Codecs.Reads.{Reads, IsEncoding}
use bitmap_comp_framework.Codecs.Operations.{selected_width, stored_groups}
use bitmap_comp_framework.WordCodecs.Cursor.{fresh_cursor, open_cursor, next}
use bitmap_comp_framework.WordCodecs.Writer.{
  WordWriter, flushed, push32, finish, new_writer, with_bytes,
}
use bitmap_comp_framework.WordCodecs.Words.{word_coding}
use bitmap_comp_framework.WordCodecs.Fills.{IsCode, word_groups}
use bitmap_comp_framework.WordCodecs.Read.{bytes32, words_groups, Is32, words-Reads, before}

pub bytes32-append : (xs ys : List ℕ) → bytes32 (xs ++ ys) ≡ bytes32 xs ++ bytes32 ys
unfolding bytes32
bytes32-append [] ys = refl
bytes32-append (x ∷ xs) ys =
    rw (bytes32-append xs ys) (sym (append_assoc (le_bytes 4 x) (bytes32 xs) (bytes32 ys)))

pub words_groups-append :
    (c : Codec) (xs ys : List ℕ)
    → words_groups c (xs ++ ys) ≡ words_groups c xs ++ words_groups c ys
unfolding words_groups
words_groups-append c [] ys = refl
words_groups-append c (x ∷ xs) ys =
    rw (words_groups-append c xs ys)
      (sym (append_assoc (word_groups c x) (words_groups c xs) (words_groups c ys)))

words_groups-one : (c : Codec) (w : ℕ) → words_groups c (w ∷ []) ≡ word_groups c w
unfolding words_groups
words_groups-one c w = append-nil (word_groups c w)

-- The word held back, if there is one.
abbrev pub held : WordWriter → List ℕ
held w = if w.have_word then (w.last ∷ []) else []

-- The writer of an encoding of `n` bits has taken the groups `gs`.
pub record Written (c : Codec) (n : ℕ) (w : WordWriter) (gs : List ℕ) : Type 0 where
  pub codec_is : w.target.codec ≡ c
  pub width_is : w.target.width ≡ 31
  pub bits_is : w.target.num_bits ≡ n
  pub region_is : w.target.sbh_groups ≡ 128
  pub words : List ℕ
  pub bytes_are : w.target.bytes ≡ bytes32 words
  pub codes : All (IsCode c) (words ++ held w)
  pub groups : words_groups c (words ++ held w) ≡ gs

module _ (c : Codec) (n : ℕ) (w : WordWriter) (gs : List ℕ) (done : Written c n w gs) where
  pub flushed-bytes32 : flushed w ≡ bytes32 (done.words ++ held w)
  flushed-bytes32 = elim (Bool-cases w.have_word) [
    | inl more ↦ rw more (
        put_le-le_bytes w.target.bytes w.last 4
        ∙ ap (λ (t : List ℕ). t ++ le_bytes 4 w.last) done.bytes_are
        ∙ sym (
            bytes32-append done.words (w.last ∷ [])
            ∙ ap (◌++◌ (bytes32 done.words)) (unfold bytes32 in append-nil (le_bytes 4 w.last))))
    | inr none ↦ rw none (done.bytes_are ∙ ap bytes32 (sym (append-nil done.words)))
  ]

  -- A word that is pushed adds its groups.
  pub push32-Written :
      (word : ℕ) → IsCode c word → Written c n (push32 word w) (gs ++ word_groups c word)
  unfolding push32
  push32-Written word is = record {
    codec_is = done.codec_is;
    width_is = done.width_is;
    bits_is = done.bits_is;
    region_is = done.region_is;
    words = done.words ++ held w;
    bytes_are = flushed-bytes32;
    codes = All-append (IsCode c) (done.words ++ held w) (word ∷ []) done.codes (is, tt);
    groups =
        words_groups-append c (done.words ++ held w) (word ∷ [])
        ∙ ap (λ (t : List ℕ). t ++ words_groups c (word ∷ [])) done.groups
        ∙ ap (◌++◌ gs) (words_groups-one c word);
  }

  pub last-IsCode : w.have_word ≡ true → IsCode c w.last
  last-IsCode more = second done.words (rw more at done.codes)
    where
      second : (ws : List ℕ) → All (IsCode c) (ws ++ (w.last ∷ [])) → IsCode c w.last
      second [] h = h.0
      second (x ∷ ws) h = second ws h.1

  -- The word held back may be replaced by one that stands for more groups.
  pub replace-Written :
      (word : ℕ) (extra : List ℕ)
      → w.have_word ≡ true
      → IsCode c word
      → word_groups c word ≡ word_groups c w.last ++ extra
      → Written c n (record w { last = word }) (gs ++ extra)
  replace-Written word extra more is e = record {
    codec_is = done.codec_is;
    width_is = done.width_is;
    bits_is = done.bits_is;
    region_is = done.region_is;
    words = done.words;
    bytes_are = done.bytes_are;
    codes = rw more (
        All-append (IsCode c) done.words (word ∷ []) (first done.words (held w) done.codes)
          (is, tt));
    groups = rw more (
        behind word
        ∙ ap (◌++◌ (words_groups c done.words)) e
        ∙ sym (append_assoc (words_groups c done.words) (word_groups c w.last) extra)
        ∙ ap (λ (t : List ℕ). t ++ extra) (sym (behind w.last) ∙ before_it));
  }
    where
      behind :
          (x : ℕ)
          → words_groups c (done.words ++ (x ∷ [])) ≡ words_groups c done.words ++ word_groups c x
      behind x =
          words_groups-append c done.words (x ∷ [])
          ∙ ap (◌++◌ (words_groups c done.words)) (words_groups-one c x)

      before_it : words_groups c (done.words ++ (w.last ∷ [])) ≡ gs
      before_it = rw more at done.groups

      first : (xs ys : List ℕ) → All (IsCode c) (xs ++ ys) → All (IsCode c) xs
      first [] ys h = tt
      first (x ∷ xs) ys h = (h.0, first xs ys h.1)

  -- `finish` hands out an encoding from which the cursor reads all groups.
  pub finish-IsEncoding :
      Is32 c
      → length gs ≡ group_count n 31
      → (e : Encoding) × (finish w ≡ ok e) × IsEncoding word_coding c 31 n e gs
  unfolding finish open_cursor
  finish-IsEncoding kind total =
      let e = with_bytes w.target (flushed w) in
      let no_val : same_codec w.target.codec val ≡ false = rw done.codec_is kind.not_val in
      let no_ewah : same_codec w.target.codec ewah ≡ false = rw done.codec_is kind.not_ewah in
      (
        e,
        rw (no_val, no_ewah),
        record {
          codec_is = done.codec_is;
          width_is = done.width_is;
          bits_is = done.bits_is;
          width_stored = unfold selected_width in rw (kind.not_val, kind.width_31);
          groups_stored = unfold stored_groups in rw (kind.not_sbh, done.region_is);
          group_total = total;
          start = fresh_cursor e (reader e.bytes);
          opened = rw no_val;
          contents = contents e done.codec_is;
        },
      )
    where
      contents :
          (e : Encoding) → e.codec ≡ c → Reads next 31 (fresh_cursor e (reader (flushed w))) gs
      contents e of =
          let cur = fresh_cursor e (reader (flushed w)) in
          rw done.groups at (
            subst
              (λ (rest : List ℕ).
                Reads next 31 (before c kind cur of 0 rest [] no_units)
                  (words_groups c (done.words ++ held w)))
              (sym flushed-bytes32)
              (words-Reads c kind cur of (done.words ++ held w) 0 no_units done.codes))

pub new_writer-Written : (c : Codec) (n : ℕ) → Is32 c → Written c n (new_writer c n 31) []
unfolding new_writer words_groups bytes32
new_writer-Written c n kind = record {
  codec_is = refl;
  width_is = refl;
  bits_is = refl;
  region_is = refl;
  words = [];
  bytes_are = rw kind.not_val;
  codes = tt;
  groups = refl;
}

-- One round of a loop over a count: the writer and the count that are left, after `taken` groups.
module _ (c : Codec) (n : ℕ) (gs : List ℕ) (count v : ℕ) (r : WordWriter × ℕ) where
  pub record Round : Type 0 where
    pub taken : ℕ
    pub some : 0 < taken
    pub enough : taken ≤ count
    pub others : r.1 ≡ count - taken
    pub written : Written c n r.0 (gs ++ replicate taken v)

  -- The groups of the round and those that are left are all of them.
  pub joined :
      (s : Round) → (gs ++ replicate s.taken v) ++ replicate r.1 v ≡ gs ++ replicate count v
  joined s =
      let parts : count ≡ s.taken + r.1 = omega (arith, s.others, s.enough) in
      append_assoc gs (replicate s.taken v) (replicate r.1 v)
      ∙ ap (◌++◌ gs) (sym (ap (λ (t : ℕ). replicate t v) parts ∙ replicate-add s.taken r.1 v))
