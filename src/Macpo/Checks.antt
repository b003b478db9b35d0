-- ===== src/Macpo/Checks.antt =====
-- What becomes of the histograms of tools/macpo/libmrt/mrt.cpp, whose bins are zero until they are set.
use perfexpert.Prelude.{
  ℕ, ◌≤◌, ◌==◌, ◌≡◌, ◌∙◌, ◌⊎◌, inl, inr, refl, sym, subst, leb, Bool, true, Option, option_both,
  if_both, none, some, some-injective, List, [], ◌∷◌, arith,
}
use perfexpert.CacheSim.Types.{inc64}
use perfexpert.Macpo.Words.{store}
use perfexpert.Macpo.Histogram.{Multigram, HistId, find, get_bin, map_into_histogram, get, set}
use perfexpert.Macpo.Cells.{value, value-get, value-set}
use perfexpert.Macpo.Runtime.{
  not_aligned, stride_unknown, branch_unknown, record_threshold, with_location, Mrt, start, hist_of,
  admitted, check_alignment, indigo__aligncheck_c, indigo__sstore_aligncheck_c,
  indigo__overlap_check_c,
}
use perfexpert.Macpo.Branches.{AreBranches, get-AreBranches, merge_status-AreBranches}
use perfexpert.Macpo.Loops.{
  indigo__tripcount_check_c, indigo__unknown_stride_check_c, indigo__stride_check_c, branch_status,
  indigo__record_branch_c, Call, call, calls, aligncheck, sstore_aligncheck, overlap_check,
  tripcount_check, stride_check, unknown_stride_check, record_branch,
}

-- Nothing but zero is stored in the bin of the statuses.
abbrev pub AllZero : Multigram ℕ → Type 0
AllZero h = (id : HistId) → value 0 h id 0 ≡ 0

get-zero : (h : Multigram ℕ) (id : HistId) → AllZero h → (get 0 h id 0).1 ≡ 0
unfolding get value
get-zero h id zero = zero id

get-AllZero : (h : Multigram ℕ) (id : HistId) → AllZero h → AllZero (get 0 h id 0).0
get-AllZero h id zero id' = value-get 0 h id id' 0 0 ∙ zero id'

set-AllZero : (h : Multigram ℕ) (id : HistId) → AllZero h → AllZero (set 0 h id 0 0)
set-AllZero h id zero id' = value-set 0 h id id' 0 0 0 ∙ ground (arith, zero id')

check_alignment-AllZero :
    (line func : ℕ) (addresses : List ℕ) (h : Multigram ℕ)
    → AllZero h
    → ((check_alignment line func addresses h).0 ≡ none)
      × AllZero (check_alignment line func addresses h).1
unfolding check_alignment
check_alignment-AllZero line func addresses h zero =
    let looked = get-zero h (hist_of line func) zero in
    let test : ((get 0 h (hist_of line func) 0).1 == not_aligned) ≡ true = ground arith in
    (rw test refl, rw test (get-AllZero h (hist_of line func) zero))

-- The state of a call that is admitted, with the new count of the function.
abbrev pub entered : (func loop_line count : ℕ) → Mrt → Mrt
entered func loop_line n s = record s {
  function_count = store s.function_count func n;
  analyzed_loops =
      with_location (record { line_number = loop_line; function_address = func }) s.analyzed_loops;
}

abbrev IsEntry : (func loop_line : ℕ) → Mrt → Option Mrt → Type 0
IsEntry func loop_line s o =
    (o ≡ none) ⊎ ((n : ℕ) × (o ≡ some (entered func loop_line n s)) × (n ≤ record_threshold))

admitted-IsEntry :
    (func loop_line : ℕ) (s : Mrt) → IsEntry func loop_line s (admitted func loop_line s)
unfolding admitted
admitted-IsEntry func loop_line s =
    option_both (IsEntry func loop_line s) (s.function_count func) (λ e. inr (1, refl, omega arith))
      (λ n e.
        if_both (IsEntry func loop_line s) (leb record_threshold n) (λ full. inl refl)
          (λ room. inr (inc64 n, refl, ground arith)))

-- The invariant: statuses of alignment and of strides stay zero, branches are mostly true or
-- unknown, and no function is recorded more often than the threshold.
pub record IsStale (s : Mrt) : Type 0 where
  pub align : AllZero s.align_hist
  pub sstore : AllZero s.sstore_align_hist
  pub stride : AllZero s.stride_hist
  pub branches : AreBranches s.branch_hist
  pub counts : (f n : ℕ) → s.function_count f ≡ some n → n ≤ record_threshold

entered-IsStale :
    (func loop_line n : ℕ) (s : Mrt)
    → n ≤ record_threshold
    → IsStale s
    → IsStale (entered func loop_line n s)
unfolding store
entered-IsStale func loop_line n s few h = record {
  align = h.align;
  sstore = h.sstore;
  stride = h.stride;
  branches = h.branches;
  counts = λ f k e. ground (arith, h.counts f k);
}

admitted-IsStale :
    (func loop_line : ℕ) (s s' : Mrt) → admitted func loop_line s ≡ some s' → IsStale s → IsStale s'
admitted-IsStale func loop_line s s' e h = elim (admitted-IsEntry func loop_line s) [
  | inl full ↦ absurd (ground (arith, full, e))
  | inr (n, entry, few) ↦
      subst IsStale (some-injective (entered func loop_line n s) s' (sym entry ∙ e))
        (entered-IsStale func loop_line n s few h)
]

call-IsStale :
    (exceeds : ℕ → ℕ → Bool) (c : Call) (s : Mrt) → IsStale s → IsStale (call exceeds c s)
unfolding call indigo__aligncheck_c indigo__sstore_aligncheck_c indigo__overlap_check_c
    indigo__tripcount_check_c indigo__unknown_stride_check_c indigo__stride_check_c
    indigo__record_branch_c
call-IsStale exceeds (aligncheck line func addresses) s h =
    option_both (λ (r : Option ℕ × Mrt). IsStale r.1) (admitted func line s) (λ e. h)
      (λ s' e.
        let h' = admitted-IsStale func line s s' e h in
        record {
          align = (check_alignment-AllZero line func addresses s'.align_hist h'.align).1;
          sstore = h'.sstore;
          stride = h'.stride;
          branches = h'.branches;
          counts = h'.counts;
        })
call-IsStale exceeds (sstore_aligncheck line func addresses) s h =
    option_both (λ (r : Option ℕ × Mrt). IsStale r.1) (admitted func line s) (λ e. h)
      (λ s' e.
        let h' = admitted-IsStale func line s s' e h in
        record {
          align = h'.align;
          sstore = (check_alignment-AllZero line func addresses s'.sstore_align_hist h'.sstore).1;
          stride = h'.stride;
          branches = h'.branches;
          counts = h'.counts;
        })
call-IsStale exceeds (overlap_check line func streams) s h =
    option_both IsStale (admitted func line s) (λ e. h)
      (λ s' e.
        let h' = admitted-IsStale func line s s' e h in
        record {
          align = h'.align;
          sstore = h'.sstore;
          stride = h'.stride;
          branches = h'.branches;
          counts = h'.counts;
        })
call-IsStale exceeds (tripcount_check line func trips) s h =
    option_both IsStale (admitted func line s) (λ e. h)
      (λ s' e.
        let h' = admitted-IsStale func line s s' e h in
        record {
          align = h'.align;
          sstore = h'.sstore;
          stride = h'.stride;
          branches = h'.branches;
          counts = h'.counts;
        })
call-IsStale exceeds (stride_check line func stride) s h =
    option_both IsStale (admitted func line s) (λ e. h)
      (λ s' e.
        let h' = admitted-IsStale func line s s' e h in
        let zero = get-zero s'.stride_hist (hist_of line func) h'.stride in
        record {
          align = h'.align;
          sstore = h'.sstore;
          stride = rw zero (get-AllZero s'.stride_hist (hist_of line func) h'.stride);
          branches = h'.branches;
          counts = h'.counts;
        })
call-IsStale exceeds (unknown_stride_check line func) s h =
    option_both IsStale (admitted func line s) (λ e. h)
      (λ s' e.
        let h' = admitted-IsStale func line s s' e h in
        record {
          align = h'.align;
          sstore = h'.sstore;
          stride = set-AllZero s'.stride_hist (hist_of line func) h'.stride;
          branches = h'.branches;
          counts = h'.counts;
        })
call-IsStale exceeds (record_branch line func loop_line t f) s h =
    option_both IsStale (admitted func loop_line s) (λ e. h)
      (λ s' e.
        let h' = admitted-IsStale func loop_line s s' e h in
        let key = hist_of line func in
        if_both IsStale ((get 0 s'.branch_hist key 0).1 == branch_unknown)
          (λ k. record {
            align = h'.align;
            sstore = h'.sstore;
            stride = h'.stride;
            branches = get-AreBranches s'.branch_hist key h'.branches;
            counts = h'.counts;
          })
          (λ k. record {
            align = h'.align;
            sstore = h'.sstore;
            stride = h'.stride;
            branches =
                merge_status-AreBranches line func (branch_status exceeds t f) s'.branch_hist
                  h'.branches k;
            counts = h'.counts;
          }))

start-IsStale : IsStale start
unfolding value get_bin map_into_histogram find
start-IsStale = record {
  align = λ id. refl;
  sstore = λ id. refl;
  stride = λ id. refl;
  branches = λ id. inl refl;
  counts = λ f n e. absurd (ground (arith, e));
}

calls-IsStale :
    (exceeds : ℕ → ℕ → Bool) (cs : List Call) (s : Mrt) → IsStale s → IsStale (calls exceeds cs s)
unfolding calls
calls-IsStale exceeds [] s h = h
calls-IsStale exceeds (c ∷ rest) s h =
    calls-IsStale exceeds rest (call exceeds c s) (call-IsStale exceeds c s h)

-- The two checks of alignment after some calls.
aligncheck-none :
    (line func : ℕ) (addresses : List ℕ) (s : Mrt)
    → IsStale s
    → ((indigo__aligncheck_c line func addresses s).0 ≡ none)
      × ((indigo__sstore_aligncheck_c line func addresses s).0 ≡ none)
unfolding indigo__aligncheck_c indigo__sstore_aligncheck_c
aligncheck-none line func addresses s h = (
  option_both (λ (r : Option ℕ × Mrt). r.0 ≡ none) (admitted func line s) (λ e. refl)
      (λ s' e.
        (check_alignment-AllZero line func addresses s'.align_hist
          (admitted-IsStale func line s s' e h).align).0),
  option_both (λ (r : Option ℕ × Mrt). r.0 ≡ none) (admitted func line s) (λ e. refl)
      (λ s' e.
        (check_alignment-AllZero line func addresses s'.sstore_align_hist
          (admitted-IsStale func line s s' e h).sstore).0),
)

-- After any calls of the checks from the start of the program, both checks of alignment answer
-- -1 whatever the addresses are, and every status of alignment and of strides that is kept is
-- zero, which is not aligned and unknown.
pub calls-unaligned :
    (exceeds : ℕ → ℕ → Bool) (cs : List Call) (line func : ℕ) (addresses : List ℕ) (id : HistId)
    → ((indigo__aligncheck_c line func addresses (calls exceeds cs start)).0 ≡ none)
      × ((indigo__sstore_aligncheck_c line func addresses (calls exceeds cs start)).0 ≡ none)
      × (value 0 (calls exceeds cs start).align_hist id 0 ≡ not_aligned)
      × (value 0 (calls exceeds cs start).stride_hist id 0 ≡ stride_unknown)
calls-unaligned exceeds cs line func addresses id =
    let h = calls-IsStale exceeds cs start start-IsStale in
    let answers = aligncheck-none line func addresses (calls exceeds cs start) h in
    (answers.0, answers.1, h.align id, h.stride id)

-- After any calls of the checks from the start of the program, no function has more than 512
-- calls recorded.
pub calls-function_count :
    (exceeds : ℕ → ℕ → Bool) (cs : List Call) (func n : ℕ)
    → (calls exceeds cs start).function_count func ≡ some n
    → n ≤ record_threshold
calls-function_count exceeds cs func n =
    (calls-IsStale exceeds cs start start-IsStale).counts func n
