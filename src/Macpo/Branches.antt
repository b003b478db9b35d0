-- ===== src/Macpo/Branches.antt =====
-- What tools/macpo/libmrt/mrt.cpp makes of the statuses of branches, which are zero, mostly true, until
-- they are set.
use perfexpert.Prelude.{
  ℕ, ◌==◌, ◌≡◌, ◌∙◌, ◌⊎◌, inl, inr, refl, sym, ap, if◌then◌else◌, if_both, Bool, Bool-cases, true,
  false, not, ◌&&◌, some, arith,
}
use perfexpert.Macpo.Histogram.{Multigram, Hist, HistId, get, get_bin}
use perfexpert.Macpo.Cells.{same_id, value, value-get, value-set, map_into_histogram-same_id}
use perfexpert.Macpo.Runtime.{branch_mostly_true, branch_unknown, Mrt, hist_of, admitted}
use perfexpert.Macpo.Loops.{merge_status, branch_status, indigo__record_branch_c}

-- Only the statuses "mostly true" and "unknown" are stored.
abbrev pub AreBranches : Multigram ℕ → Type 0
AreBranches h =
    (id : HistId) → (value 0 h id 0 ≡ branch_mostly_true) ⊎ (value 0 h id 0 ≡ branch_unknown)

-- The status after a merge.
abbrev pub merged : (same : Bool) → (status old : ℕ) → ℕ
merged same status old = if same && not (status == branch_mostly_true) then branch_unknown else old

value-same_id :
    (h : Multigram ℕ) (key id : HistId) → same_id id key ≡ true → value 0 h id 0 ≡ value 0 h key 0
unfolding value
value-same_id h key id same =
    ap (λ (b : Hist ℕ). get_bin 0 b 0) (sym (map_into_histogram-same_id h key id same))

get-value : (h : Multigram ℕ) (key : HistId) → (get 0 h key 0).1 ≡ value 0 h key 0
unfolding get value
get-value h key = refl

merge_status-value :
    (line func status : ℕ) (h : Multigram ℕ) (id : HistId)
    → value 0 h (hist_of line func) 0 ≡ branch_mostly_true
    → value 0 (merge_status line func status h) id 0
      ≡ merged (same_id id (hist_of line func)) status (value 0 h id 0)
unfolding merge_status
merge_status-value line func status h id old =
    let key = hist_of line func in
    let first = get-value h key ∙ old in
    let kept = value-get 0 h key id 0 0 in
    let second = get-value (get 0 h key 0).0 key ∙ value-get 0 h key key 0 0 ∙ old in
    let kept_again = value-get 0 (get 0 h key 0).0 key id 0 0 ∙ kept in
    rw (first, second)
      (elim (Bool-cases (branch_mostly_true == status)) [
        | inl e ↦ rw e (kept_again ∙ ground (arith, e))
        | inr e ↦ rw e (
            value-set 0 (get 0 (get 0 h key 0).0 key 0).0 key id 0 0 branch_unknown
            ∙ ground (arith, kept_again, e))
      ])

merged-unknown :
    (h : Multigram ℕ) (key id : HistId) (status : ℕ)
    → value 0 h key 0 ≡ branch_unknown
    → value 0 h id 0 ≡ merged (same_id id key) status (value 0 h id 0)
merged-unknown h key id status old = elim (Bool-cases (same_id id key)) [
  | inl e ↦ rw e (ground (arith, old, value-same_id h key id e))
  | inr e ↦ rw e refl
]

-- An admitted call for a branch turns its status into "unknown", unless the branch is mostly true now.
pub record_branch-value :
    (exceeds : ℕ → ℕ → Bool) (line func loop_line t f : ℕ) (s s' : Mrt) (id : HistId)
    → admitted func loop_line s ≡ some s'
    → AreBranches s'.branch_hist
    → value 0 (indigo__record_branch_c exceeds line func loop_line t f s).branch_hist id 0
      ≡ merged
          (same_id id (hist_of line func))
          (branch_status exceeds t f)
          (value 0 s'.branch_hist id 0)
unfolding indigo__record_branch_c
record_branch-value exceeds line func loop_line t f s s' id entry branches =
    let key = hist_of line func in
    let status = branch_status exceeds t f in
    let kept = value-get 0 s'.branch_hist key id 0 0 in
    rw (indigo__record_branch_c, entry)
      (if_both
        (λ (r : Mrt).
          value 0 r.branch_hist id 0 ≡ merged (same_id id key) status (value 0 s'.branch_hist id 0))
        ((get 0 s'.branch_hist key 0).1 == branch_unknown)
        (λ e.
          kept
          ∙ merged-unknown s'.branch_hist key id status
              (sym (get-value s'.branch_hist key) ∙ ground (arith, e)))
        (λ e.
          merge_status-value line func status (get 0 s'.branch_hist key 0).0 id (
            value-get 0 s'.branch_hist key key 0 0
            ∙ ground (arith, branches key, get-value s'.branch_hist key, e))
          ∙ ap (merged (same_id id key) status) kept))

merged-AreBranches :
    (same : Bool) (status old : ℕ)
    → (old ≡ branch_mostly_true) ⊎ (old ≡ branch_unknown)
    → (merged same status old ≡ branch_mostly_true) ⊎ (merged same status old ≡ branch_unknown)
merged-AreBranches same status old branches =
    if_both (λ z. (z ≡ branch_mostly_true) ⊎ (z ≡ branch_unknown))
      (same && not (status == branch_mostly_true)) (λ e. inr refl) (λ e. branches)

pub get-AreBranches :
    (h : Multigram ℕ) (key : HistId) → AreBranches h → AreBranches (get 0 h key 0).0
get-AreBranches h key branches id = rw (value-get 0 h key id 0 0) (branches id)

pub merge_status-AreBranches :
    (line func status : ℕ) (h : Multigram ℕ)
    → AreBranches h
    → ((get 0 h (hist_of line func) 0).1 == branch_unknown) ≡ false
    → AreBranches (merge_status line func status (get 0 h (hist_of line func) 0).0)
merge_status-AreBranches line func status h branches known id =
    let key = hist_of line func in
    let h' = (get 0 h key 0).0 in
    let old : value 0 h' key 0 ≡ branch_mostly_true =
      value-get 0 h key key 0 0 ∙ ground (arith, branches key, get-value h key, known) in
    rw (merge_status-value line func status h' id old) (
      merged-AreBranches (same_id id key) status (value 0 h' id 0)
        (get-AreBranches h key branches id))
