-- ===== src/Macpo/Loops.antt =====
-- More of tools/macpo/libmrt/mrt.cpp: trip counts, strides and branches of loops, and what is
-- printed of them.
use perfexpert.Prelude.{
  ℕ, ◌+◌, ◌-◌, ◌^◌, ◌==◌, ltb, leb, if◌then◌else◌, Bool, not, ◌&&◌, List, [], ◌∷◌, none, some,
}
use perfexpert.Macpo.Histogram.{
  Multigram, Hist, HistId, get, set, increment, get_bin, get_all_histograms,
}
use perfexpert.Macpo.Runtime.{
  branch_mostly_true, branch_true, branch_mostly_false, branch_false, branch_unknown, branch_noinit,
  stride_unknown, stride_fixed, stride_unit, stride_noinit, align_noinit, SrcLocation,
  same_location, with_location, Mrt, hist_of, admitted, indigo__aligncheck_c,
  indigo__sstore_aligncheck_c, indigo__overlap_check_c,
}

-- An `int64_t` is its pattern of 64 bits, and a count goes up as one.
unfoldable pub indigo__tripcount_check_c : (line func trip_count : ℕ) → Mrt → Mrt
indigo__tripcount_check_c line func trip_count s = elim (admitted func line s) [
  | none ↦ s
  | some s' ↦ record s' {
    tripcount_hist =
        (increment 0 (λ a b. a + b) s'.tripcount_hist (hist_of line func)
          (if leb (2 ^ 63) trip_count then 0 else trip_count) 1).0;
  }
]

unfoldable pub indigo__unknown_stride_check_c : (line func : ℕ) → Mrt → Mrt
indigo__unknown_stride_check_c line func s = elim (admitted func line s) [
  | none ↦ s
  | some s' ↦ record s' { stride_hist = set 0 s'.stride_hist (hist_of line func) 0 stride_unknown }
]

-- `abs(stride)`, for an `int` as its pattern of 32 bits.
abbrev pub abs_int : ℕ → ℕ
abs_int i = if leb (2 ^ 31) i then 2 ^ 32 - i else i

unfoldable pub stride_status : (stride : ℕ) → ℕ
stride_status stride =
    if abs_int stride == 0
    then stride_noinit
    else if abs_int stride == 1
    then stride_unit
    else stride_fixed

unfoldable pub indigo__stride_check_c : (line func stride : ℕ) → Mrt → Mrt
indigo__stride_check_c line func stride s = elim (admitted func line s) [
  | none ↦ s
  | some s' ↦
      let looked = get 0 s'.stride_hist (hist_of line func) 0 in
      let again = get 0 looked.0 (hist_of line func) 0 in
      let status = stride_status stride in
      record s' {
        stride_hist =
            if looked.1 == stride_unknown
            then looked.0
            else if ltb status again.1
            then set 0 again.0 (hist_of line func) 0 status
            else again.0;
      }
]

unfoldable pub with_branch :
    (loop branch : SrcLocation) → (SrcLocation → List SrcLocation) → SrcLocation → List SrcLocation
with_branch loop branch f l = if same_location l loop then with_location branch (f l) else f l

-- The last statements, where the histogram is read up to two more times.
unfoldable pub merge_status : (line func status : ℕ) → Multigram ℕ → Multigram ℕ
merge_status line func status hist =
    let first = get 0 hist (hist_of line func) 0 in
    let second = get 0 first.0 (hist_of line func) 0 in
    if first.1 == branch_noinit
    then set 0 first.0 (hist_of line func) 0 status
    else if not (second.1 == status)
    then set 0 second.0 (hist_of line func) 0 branch_unknown
    else second.0

-- `a * 100.0f > b * 85.0f`
module _ (exceeds : ℕ → ℕ → Bool) where
  -- For counts that are not negative, whose sum is an `int`. The third test reads
  -- `(false_count != (0 > true_count)) == 0`.
  unfoldable pub branch_status : (true_count false_count : ℕ) → ℕ
  branch_status true_count false_count =
      let branch_count = true_count + false_count in
      let negative = if ltb true_count 0 then 1 else 0 in
      if not (true_count == 0) && false_count == 0
      then branch_true
      else if exceeds true_count branch_count
      then branch_mostly_true
      else if not (not (false_count == negative))
      then branch_false
      else if exceeds false_count branch_count
      then branch_mostly_false
      else branch_unknown

  unfoldable pub indigo__record_branch_c :
      (line func loop_line true_count false_count : ℕ) → Mrt → Mrt
  indigo__record_branch_c line func loop_line true_count false_count s =
      elim (admitted func loop_line s) [
        | none ↦ s
        | some s' ↦
            let looked = get 0 s'.branch_hist (hist_of line func) 0 in
            let loop : SrcLocation = record { line_number = loop_line; function_address = func } in
            let branch : SrcLocation = record { line_number = line; function_address = func } in
            if looked.1 == branch_unknown then record s' { branch_hist = looked.0 } else record s' {
              branch_hist = merge_status line func (branch_status true_count false_count) looked.0;
              loop_branches = with_branch loop branch s'.loop_branches;
            }
      ]

-- The loop of the functions that print a status: the least one of the histograms of a line.
unfoldable pub least_status : (status line : ℕ) → List (HistId × Hist ℕ) → ℕ
least_status status line [] = status
least_status status line ((id, hist) ∷ rest) =
    let found = get_bin 0 hist 0 in
    least_status (if id.line_number == line && ltb found status then found else status) line rest

unfoldable pub align_check_result : (line : ℕ) → Mrt → ℕ
align_check_result line s = least_status align_noinit line (get_all_histograms s.align_hist)

unfoldable pub stride_check_result : (line : ℕ) → Mrt → ℕ
stride_check_result line s = least_status stride_noinit line (get_all_histograms s.stride_hist)

-- The calls of an instrumented program.
pub data Call : Type 0 where
  aligncheck sstore_aligncheck : (line func : ℕ) → (addresses : List ℕ) → Call
  overlap_check : (line func : ℕ) → (streams : List (ℕ × ℕ)) → Call
  tripcount_check stride_check : (line func value : ℕ) → Call
  unknown_stride_check : (line func : ℕ) → Call
  record_branch : (line func loop_line true_count false_count : ℕ) → Call

unfoldable pub call : (exceeds : ℕ → ℕ → Bool) → Call → Mrt → Mrt
call exceeds (aligncheck line func addresses) s = (indigo__aligncheck_c line func addresses s).1
call exceeds (sstore_aligncheck line func addresses) s =
    (indigo__sstore_aligncheck_c line func addresses s).1
call exceeds (overlap_check line func streams) s = indigo__overlap_check_c line func streams s
call exceeds (tripcount_check line func value) s = indigo__tripcount_check_c line func value s
call exceeds (stride_check line func value) s = indigo__stride_check_c line func value s
call exceeds (unknown_stride_check line func) s = indigo__unknown_stride_check_c line func s
call exceeds (record_branch line func loop_line t f) s =
    indigo__record_branch_c exceeds line func loop_line t f s

unfoldable pub calls : (exceeds : ℕ → ℕ → Bool) → List Call → Mrt → Mrt
calls exceeds [] s = s
calls exceeds (c ∷ rest) s = calls exceeds rest (call exceeds c s)
