-- ===== src/Roaring/Operations.antt =====
-- backends/roaring_bitmap.cpp, container operations. The C++ loops walk two vectors by an index into
-- each; here the parts of the vectors from the indices on are passed along.
use bitmap_comp_framework.Prelude.{
  ℕ, zero, suc, ◌+◌, min, max, Bool, true, false, List, [], ◌∷◌, ◌++◌, length, get_or, ltb, leb,
  if◌then◌else◌,
}
use bitmap_comp_framework.Bits.{test_bit}
use bitmap_comp_framework.Bits.Combine.{combine}
use bitmap_comp_framework.Roaring.{
  Run, Container, array, bitset, run, chunk_words, to_bitset, optimize,
}

-- What one round of a merging loop pushes, and what it leaves of the operands.
pub record Round (A : Type 0) : Type 0 where
  pub pushed : List A
  pub left : List A
  pub right : List A

abbrev pub and_round : ℕ → List ℕ → ℕ → List ℕ → Round ℕ
and_round x xs y ys =
    if ltb x y
    then record { pushed = []; left = xs; right = y ∷ ys }
    else if ltb y x
    then record { pushed = []; left = x ∷ xs; right = ys }
    else record { pushed = x ∷ []; left = xs; right = ys }

-- Each round drops an element of one operand at least.
unfoldable pub and_loop : ℕ → List ℕ → List ℕ → List ℕ
and_loop zero xs ys = []
and_loop (suc fuel) [] ys = []
and_loop (suc fuel) (x ∷ xs) [] = []
and_loop (suc fuel) (x ∷ xs) (y ∷ ys) =
    let r = and_round x xs y ys in r.pushed ++ and_loop fuel r.left r.right

unfoldable pub array_and_array : List ℕ → List ℕ → Container
array_and_array a b = array (and_loop (length a + length b) a b)

unfoldable pub filter_values : List ℕ → List ℕ → List ℕ
filter_values [] b = []
filter_values (v ∷ vs) b = let rest = filter_values vs b in if test_bit b v then v ∷ rest else rest

unfoldable pub array_and_bitset : List ℕ → List ℕ → Container
array_and_bitset a b = array (filter_values a b)

abbrev pub or_round : ℕ → List ℕ → ℕ → List ℕ → Round ℕ
or_round x xs y ys =
    if ltb x y
    then record { pushed = x ∷ []; left = xs; right = y ∷ ys }
    else if ltb y x
    then record { pushed = y ∷ []; left = x ∷ xs; right = ys }
    else record { pushed = x ∷ []; left = xs; right = ys }

-- The three loops: what is left of one operand is copied when the other has run out.
unfoldable pub or_loop : ℕ → List ℕ → List ℕ → List ℕ
or_loop zero xs ys = xs ++ ys
or_loop (suc fuel) [] ys = ys
or_loop (suc fuel) (x ∷ xs) [] = x ∷ xs
or_loop (suc fuel) (x ∷ xs) (y ∷ ys) =
    let r = or_round x xs y ys in r.pushed ++ or_loop fuel r.left r.right

unfoldable pub array_or_array : List ℕ → List ℕ → Container
array_or_array a b = array (or_loop (length a + length b) a b)

abbrev pub overlap : Run → Run → List Run
overlap a b =
    if leb (max a.start b.start) (min a.last b.last)
    then record { start = max a.start b.start; last = min a.last b.last } ∷ []
    else []

abbrev pub run_and_round : Run → List Run → Run → List Run → Round Run
run_and_round a xs b ys =
    if ltb a.last b.last
    then record { pushed = overlap a b; left = xs; right = b ∷ ys }
    else record { pushed = overlap a b; left = a ∷ xs; right = ys }

unfoldable pub run_and_loop : ℕ → List Run → List Run → List Run
run_and_loop zero xs ys = []
run_and_loop (suc fuel) [] ys = []
run_and_loop (suc fuel) (a ∷ xs) [] = []
run_and_loop (suc fuel) (a ∷ xs) (b ∷ ys) =
    let r = run_and_round a xs b ys in r.pushed ++ run_and_loop fuel r.left r.right

unfoldable pub run_and_run : List Run → List Run → Container
run_and_run a b = run (run_and_loop (length a + length b) a b)

-- The last interval grows when the next one overlaps or touches it.
unfoldable pub coalesce : List Run → Run → List Run
coalesce [] next = next ∷ []
coalesce (r ∷ []) next =
    if leb next.start (r.last + 1)
    then record { start = r.start; last = max r.last next.last } ∷ []
    else r ∷ next ∷ []
coalesce (r ∷ s ∷ rs) next = r ∷ coalesce (s ∷ rs) next

-- `pushed` is the interval that a round takes, none when both operands have run out.
abbrev pub run_or_round : List Run → List Run → Round Run
run_or_round [] [] = record { pushed = []; left = []; right = [] }
run_or_round [] (b ∷ bs) = record { pushed = b ∷ []; left = []; right = bs }
run_or_round (a ∷ xs) [] = record { pushed = a ∷ []; left = xs; right = [] }
run_or_round (a ∷ xs) (b ∷ ys) =
    if leb a.start b.start
    then record { pushed = a ∷ []; left = xs; right = b ∷ ys }
    else record { pushed = b ∷ []; left = a ∷ xs; right = ys }

unfoldable pub push_runs : List Run → List Run → List Run
push_runs out [] = out
push_runs out (r ∷ rs) = push_runs (coalesce out r) rs

unfoldable pub run_or_loop : ℕ → List Run → List Run → List Run → List Run
run_or_loop zero out xs ys = out
run_or_loop (suc fuel) out xs ys =
    let r = run_or_round xs ys in run_or_loop fuel (push_runs out r.pushed) r.left r.right

unfoldable pub run_or_run : List Run → List Run → Container
run_or_run a b = run (run_or_loop (length a + length b) [] a b)

-- `n` rounds of the loop of `bitset_op`, from word `i` on.
unfoldable pub bitset_words : Bool → ℕ → ℕ → List ℕ → List ℕ → List ℕ
bitset_words is_and zero i a b = []
bitset_words is_and (suc n) i a b =
    combine is_and (get_or a i 0) (get_or b i 0) ∷ bitset_words is_and n (i + 1) a b

unfoldable pub bitset_op : List ℕ → List ℕ → Bool → Container
bitset_op a b is_and = bitset (bitset_words is_and chunk_words 0 a b)

unfoldable pub and_unoptimized : Container → Container → Container
and_unoptimized (array a) (array b) = array_and_array a b
and_unoptimized (array a) (bitset b) = array_and_bitset a b
and_unoptimized (bitset a) (array b) = array_and_bitset b a
and_unoptimized (bitset a) (bitset b) = bitset_op a b true
and_unoptimized (run a) (run b) = run_and_run a b
and_unoptimized a b = bitset_op (to_bitset a) (to_bitset b) true

unfoldable pub container_and : Container → Container → Container
container_and a b = optimize (and_unoptimized a b)

unfoldable pub or_unoptimized : Container → Container → Container
or_unoptimized (array a) (array b) = array_or_array a b
or_unoptimized (bitset a) (bitset b) = bitset_op a b false
or_unoptimized (run a) (run b) = run_or_run a b
or_unoptimized a b = bitset_op (to_bitset a) (to_bitset b) false

unfoldable pub container_or : Container → Container → Container
container_or a b = optimize (or_unoptimized a b)
