-- ===== src/Codecs/Reads.antt =====
-- What a cursor reads, as a relation between its state and groups, and what a codec promises its
-- clients: a writer that takes groups, and a cursor that reads them back.
use bitmap_comp_framework.Prelude.{
  ℕ, false, ◌+◌, ◌^◌, ◌≤◌, ◌<◌, ◌≡◌, List, [], ◌++◌, length, replicate, All, Outcome, ok,
  All-append, All-replicate,
}
use bitmap_comp_framework.Codecs.{
  Codec, Encoding, Span, Fetch, stop, got, Coding, group_count, uniform,
}
use bitmap_comp_framework.Codecs.Operations.{selected_width, stored_groups}
use mathlib.Core.Path.{subst, sym, ◌∙◌}

-- A span that fits the width and is not empty; only a uniform value is repeated.
pub record IsSpan (width : ℕ) (s : Span) : Type 0 where
  pub some : 0 < s.count
  pub fits : s.value < 2 ^ width
  pub single : uniform s.value width ≡ false → s.count ≡ 1

module _ {C : Type 0} (next_of : C → Outcome (Fetch C)) (width : ℕ) where
  -- From the state on, `next` returns spans of groups, and then `false`; the spans written out are
  -- the groups.
  pub data Reads : C → List ℕ → Type 0 where
    ends : {c : C} {gs : List ℕ} (c' : C) → next_of c ≡ ok (stop c') → gs ≡ [] → Reads c gs
    reads :
        {c : C} {gs : List ℕ} (s : Span) (c' : C) (rest : List ℕ)
        → next_of c ≡ ok (got s c')
        → IsSpan width s
        → gs ≡ replicate s.count s.value ++ rest
        → Reads c' rest
        → Reads c gs

  abbrev pub IsGroup : ℕ → Type 0
  IsGroup v = v < 2 ^ width

  pub Reads-IsGroup : {c : C} {gs : List ℕ} → Reads c gs → All IsGroup gs
  Reads-IsGroup (ends c' e z) = subst (All IsGroup) (sym z) tt
  Reads-IsGroup (reads s c' rest e is z r) = subst (All IsGroup) (sym z) (
      All-append IsGroup (replicate s.count s.value) rest
        (All-replicate IsGroup s.count s.value is.fits) (Reads-IsGroup r))

  -- States of which `next` makes the same read the same.
  pub Reads-same : {a b : C} {gs : List ℕ} → next_of a ≡ next_of b → Reads b gs → Reads a gs
  Reads-same same (ends c' e z) = ends c' (same ∙ e) z
  Reads-same same (reads s c' rest e is z r) = reads s c' rest (same ∙ e) is z r

-- An encoding of a codec from which its cursor reads the groups of a universe of `n` bits. The
-- parameters of the encoding can be told from its bytes.
pub record IsEncoding (K : Coding) (c : Codec) (width n : ℕ) (e : Encoding) (gs : List ℕ)
    : Type 0 where
  pub codec_is : e.codec ≡ c
  pub width_is : e.width ≡ width
  pub bits_is : e.num_bits ≡ n
  pub width_stored : selected_width c e.bytes ≡ ok width
  pub groups_stored : stored_groups c e.bytes ≡ ok e.sbh_groups
  pub group_total : length gs ≡ group_count n width
  pub start : K.Cursor
  pub opened : K.cursor e ≡ ok start
  pub contents : Reads K.next width start gs

-- The contract of a codec of one width. `Holds n w gs` says that the writer of an encoding of `n`
-- bits has taken the groups `gs`.
pub record CodecLaws (K : Coding) (c : Codec) (width groups : ℕ) : Type 1 where
  pub wide : 0 < width
  pub narrow : width ≤ 64
  pub Holds : ℕ → K.Writer → List ℕ → Type 0
  pub writer-Holds :
      (n : ℕ) → n ≤ 2 ^ 32 → (w : K.Writer) × (K.writer c n width groups ≡ ok w) × Holds n w []
  pub append-Holds :
      (n : ℕ) (w : K.Writer) (gs : List ℕ) (v count : ℕ)
      → Holds n w gs
      → v < 2 ^ width
      → 0 < count
      → length gs + count ≤ 2 ^ 33
      → (w' : K.Writer) × (K.append w v count ≡ ok w') × Holds n w' (gs ++ replicate count v)
  pub finish-Holds :
      (n : ℕ) (w : K.Writer) (gs : List ℕ)
      → n ≤ 2 ^ 32
      → Holds n w gs
      → length gs ≡ group_count n width
      → (e : Encoding) × (K.finish w ≡ ok e) × IsEncoding K c width n e gs
