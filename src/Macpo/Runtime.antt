-- ===== src/Macpo/Runtime.antt =====
-- tools/macpo/libmrt/mrt.cpp: what an instrumented program reports of its loops, and what is kept of it.
-- Line numbers are not negative, addresses are below 2^63, and the variable arguments of a function are a
-- list. A comparison of two numbers as `float` is a parameter.
use perfexpert.Prelude.{
  ℕ, ◌%◌, ◌==◌, ltb, leb, if◌then◌else◌, Bool, true, false, ◌&&◌, ◌||◌, Option, none, some, List,
  [], ◌∷◌, ◌++◌, take,
}
use perfexpert.CacheSim.Types.{inc64}
use perfexpert.Macpo.Words.{store}
use perfexpert.Macpo.Histogram.{Multigram, HistId, get, set}

-- The enumerations of libmrt/mrt.h, whose order is used in comparisons.
abbrev pub not_aligned : ℕ
not_aligned = 0

abbrev pub mutual_aligned : ℕ
mutual_aligned = 1

abbrev pub full_aligned : ℕ
full_aligned = 2

abbrev pub align_noinit : ℕ
align_noinit = 3

abbrev pub branch_mostly_true : ℕ
branch_mostly_true = 0

abbrev pub branch_true : ℕ
branch_true = 1

abbrev pub branch_mostly_false : ℕ
branch_mostly_false = 2

abbrev pub branch_false : ℕ
branch_false = 3

abbrev pub branch_unknown : ℕ
branch_unknown = 4

abbrev pub branch_noinit : ℕ
branch_noinit = 5

abbrev pub stride_unknown : ℕ
stride_unknown = 0

abbrev pub stride_fixed : ℕ
stride_fixed = 1

abbrev pub stride_unit : ℕ
stride_unit = 2

abbrev pub stride_noinit : ℕ
stride_noinit = 3

abbrev pub record_threshold : ℕ
record_threshold = 512

abbrev pub max_streams : ℕ
max_streams = 64

-- `src_location_t`
pub record SrcLocation : Type 0 where
  pub line_number : ℕ
  pub function_address : ℕ

abbrev pub same_location : SrcLocation → SrcLocation → Bool
same_location a b = a.function_address == b.function_address && a.line_number == b.line_number

-- `set::insert`; the order of a set is not kept.
unfoldable pub with_location : SrcLocation → List SrcLocation → List SrcLocation
with_location x [] = x ∷ []
with_location x (y ∷ l) = if same_location x y then y ∷ l else y ∷ with_location x l

-- The variables of the file that the checks of loops use.
pub record Mrt : Type 0 where
  pub function_count : ℕ → Option ℕ
  pub analyzed_loops : List SrcLocation
  pub overlap_hist : Multigram Bool
  pub branch_hist : Multigram ℕ
  pub align_hist : Multigram ℕ
  pub sstore_align_hist : Multigram ℕ
  pub stride_hist : Multigram ℕ
  pub tripcount_hist : Multigram ℕ
  pub loop_branches : SrcLocation → List SrcLocation

abbrev pub start : Mrt
start = record {
  function_count = λ f. none;
  analyzed_loops = [];
  overlap_hist = [];
  branch_hist = [];
  align_hist = [];
  sstore_align_hist = [];
  stride_hist = [];
  tripcount_hist = [];
  loop_branches = λ l. [];
}

-- The histogram of a line, for the thread with the number zero.
abbrev pub hist_of : (line func : ℕ) → HistId
hist_of line func = record { thread_id = 0; line_number = line; function_address = func }

-- The first statements of each check: `none` is a function that was recorded often enough.
unfoldable pub admitted : (func loop_line : ℕ) → Mrt → Option Mrt
admitted func loop_line s =
    let loops =
      with_location (record { line_number = loop_line; function_address = func })
        s.analyzed_loops in
    elim (s.function_count func) [
      | none ↦
          some (record s { function_count = store s.function_count func 1; analyzed_loops = loops })
      | some n ↦
          if leb record_threshold n
          then none
          else some (record s {
            function_count = store s.function_count func (inc64 n);
            analyzed_loops = loops;
          })
    ]

-- The loop over the addresses: `none` for two remainders that differ.
unfoldable pub common_remainder : Option ℕ → (addresses : List ℕ) → Option (Option ℕ)
common_remainder remainder [] = some remainder
common_remainder none (address ∷ rest) = common_remainder (some (address % 64)) rest
common_remainder (some r) (address ∷ rest) =
    let others = common_remainder (some r) rest in if r == address % 64 then others else none

-- What the two checks of alignment make of their histograms, with their answer: `none` is -1.
unfoldable pub check_alignment :
    (line func : ℕ) → (addresses : List ℕ) → Multigram ℕ → Option ℕ × Multigram ℕ
check_alignment line func addresses hist =
    let looked = get 0 hist (hist_of line func) 0 in
    if looked.1 == not_aligned then (none, looked.0) else elim (common_remainder none addresses) [
      | none ↦ (none, set 0 looked.0 (hist_of line func) 0 not_aligned)
      | some none ↦ (none, set 0 looked.0 (hist_of line func) 0 mutual_aligned)
      | some (some r) ↦ (
        some r,
        set 0 looked.0 (hist_of line func) 0 (if r == 0 then full_aligned else mutual_aligned),
      )
    ]

unfoldable pub indigo__aligncheck_c : (line func : ℕ) → (addresses : List ℕ) → Mrt → Option ℕ × Mrt
indigo__aligncheck_c line func addresses s = elim (admitted func line s) [
  | none ↦ (none, s)
  | some s' ↦
      let checked = check_alignment line func addresses s'.align_hist in
      (checked.0, record s' { align_hist = checked.1 })
]

unfoldable pub indigo__sstore_aligncheck_c :
    (line func : ℕ) → (addresses : List ℕ) → Mrt → Option ℕ × Mrt
indigo__sstore_aligncheck_c line func addresses s = elim (admitted func line s) [
  | none ↦ (none, s)
  | some s' ↦
      let checked = check_alignment line func addresses s'.sstore_align_hist in
      (checked.0, record s' { sstore_align_hist = checked.1 })
]

-- The streams, each from its start to its end, that are not empty.
unfoldable pub nonempty : List (ℕ × ℕ) → List (ℕ × ℕ)
nonempty [] = []
nonempty ((from, to) ∷ rest) = if ltb from to then (from, to) ∷ nonempty rest else nonempty rest

-- The test of a stream against an earlier one.
unfoldable pub touches : (ℕ × ℕ) → (ℕ × ℕ) → Bool
touches (ref_start, ref_end) (from, to) =
    (leb ref_start from && leb from ref_end) || (leb ref_start to && leb to ref_end)

-- The two loops over the streams: those behind the ones of `before`, which come first.
unfoldable pub touches_any : (before : List (ℕ × ℕ)) → (ℕ × ℕ) → Bool
touches_any [] stream = false
touches_any (ref ∷ before) stream = touches ref stream || touches_any before stream

unfoldable pub find_overlap : (before streams : List (ℕ × ℕ)) → Bool
find_overlap before [] = false
find_overlap before (stream ∷ rest) =
    touches_any before stream || find_overlap (before ++ stream ∷ []) rest

unfoldable pub indigo__overlap_check_c : (line func : ℕ) → (streams : List (ℕ × ℕ)) → Mrt → Mrt
indigo__overlap_check_c line func streams s = elim (admitted func line s) [
  | none ↦ s
  | some s' ↦
      let looked = get false s'.overlap_hist (hist_of line func) 0 in
      let found = find_overlap [] (nonempty (take max_streams streams)) in
      record s' {
        overlap_hist =
            if looked.1
            then looked.0
            else if found
            then set false looked.0 (hist_of line func) 0 true
            else looked.0;
      }
]
