-- ===== src/Profile.antt =====
-- modules/hpctoolkit/hpctoolkit_profile.c: the metrics of a hotspot are aggregated, and the call paths
-- are walked. A C `double` and its addition are parameters.
pub mod Totals
pub mod Merge
pub mod Depth
mod Tests
use Prim.Native.String.{String}
use text.Mathlib.Text.{◌==◌ as str_eq}
use perfexpert.Prelude.{
  ℕ, zero, suc, ◌+◌, ◌*◌, ◌==◌, ltb, leb, if◌then◌else◌, Bool, true, false, ◌&&◌, Option, none,
  some, List, [], ◌∷◌, ◌++◌, length,
}
use perfexpert.Outcome.{Outcome, ok, fault, ◌>>=◌}
use perfexpert.CString.{perfexpert_success, perfexpert_error}

-- `hpctoolkit_metric_t`, without its links, identifiers and hash handle.
pub record Metric (D : Type 0) : Type 0 where
  pub name : String
  pub experiment : ℕ
  pub thread : ℕ
  pub mpi_rank : ℕ
  pub value : D

-- `hpctoolkit_callpath_t` and the list of its callees.
mutual
  pub data Callpath : Type 0 where
    call : (id : ℕ) → Callees → Callpath

  pub data Callees : Type 0 where
    nil : Callees
    cons : Callpath → Callees → Callees

-- `hpctoolkit_profile_t`: the metrics of each hotspot, and the callees.
pub record HpctoolkitProfile (D : Type 0) : Type 0 where
  pub name : String
  pub hotspots : List (List (Metric D))
  pub callees : Callees

abbrev pub same_metric : {D : Type 0} → Metric D → Metric D → Bool
same_metric c n =
    str_eq c.name n.name
    && (c.experiment == n.experiment && (c.thread == n.thread && c.mpi_rank == n.mpi_rank))

module _ {D : Type 0} (add : D → D → D) where
  -- The inner loop, over the items on one side of `c`: the sum, and the items that stay.
  unfoldable pub absorb : Metric D → List (Metric D) → Metric D × List (Metric D)
  absorb c [] = (c, [])
  absorb c (n ∷ ns) =
      let met = absorb (record c { value = add c.value n.value }) ns in
      let (c', ns') = absorb c ns in if same_metric c n then met else (c', n ∷ ns')

  -- The outer loop, with the items before the next one and the items from it on. `none` is fuel that
  -- ran out.
  unfoldable pub aggregate_from :
      (fuel : ℕ) → (before after : List (Metric D)) → Option (List (Metric D))
  aggregate_from fuel before [] = some before
  aggregate_from zero before (c ∷ after) = none
  aggregate_from (suc fuel) before (c ∷ after) =
      let (c1, before') = absorb c before in
      let (c2, after') = absorb c1 after in aggregate_from fuel (before' ++ c2 ∷ []) after'

  -- It always answers success.
  unfoldable pub profile_aggregate_metrics : List (Metric D) → Option (List (Metric D))
  profile_aggregate_metrics metrics = aggregate_from (length metrics) [] metrics

  unfoldable pub profile_flatten_hotspots : List (List (Metric D)) → Option (List (List (Metric D)))
  profile_flatten_hotspots [] = some []
  profile_flatten_hotspots (h ∷ hs) = elim (profile_aggregate_metrics h) [
    | none ↦ none
    | some h' ↦ elim (profile_flatten_hotspots hs) [ none ↦ none | some hs' ↦ some (h' ∷ hs') ]
  ]

  unfoldable pub profile_flatten_all :
      List (HpctoolkitProfile D) → Option (List (HpctoolkitProfile D))
  profile_flatten_all [] = some []
  profile_flatten_all (p ∷ ps) = elim (profile_flatten_hotspots p.hotspots) [
    | none ↦ none
    | some hs ↦ elim (profile_flatten_all ps) [
      | none ↦ none
      | some ps' ↦ some (record p { hotspots = hs } ∷ ps')
    ]
  ]

abbrev pub indent_size : ℕ
indent_size = 256

-- The first statements of `profile_check_callpath`, which put two characters for each level and a
-- null byte into an array.
unfoldable pub indented : (root : ℕ) → Outcome ℕ → Outcome ℕ
indented root body = if leb (2 * (root + 1) + 1) indent_size then body else fault

-- `if (127 < root) root = 127`
unfoldable pub clip : ℕ → ℕ
clip root = if ltb 127 root then 127 else root

-- A call for the callees, unless there are none.
unfoldable pub if_callees : Callees → Outcome ℕ → Outcome ℕ
if_callees nil body = ok perfexpert_success
if_callees (cons c cs) body = body

-- The loop of `profile_check_callpath`, for a level that is clipped; what the call for the callees
-- answers is not looked at.
unfoldable pub check_calls : (root : ℕ) → Callees → Outcome ℕ
check_calls root nil = ok perfexpert_success
check_calls root (cons (call id callees) rest) =
    let below = indented (clip (root + 1)) (check_calls (clip (root + 1)) callees) in
    if_callees callees below >>= λ rc. check_calls root rest

unfoldable pub profile_check_callpath : Callees → (root : ℕ) → Outcome ℕ
profile_check_callpath calls root = indented (clip root) (check_calls (clip root) calls)

unfoldable pub profile_check_all : {D : Type 0} → List (HpctoolkitProfile D) → Outcome ℕ
profile_check_all [] = ok perfexpert_success
profile_check_all (p ∷ ps) = if_callees p.callees (profile_check_callpath p.callees 0) >>= λ rc.
    if rc == perfexpert_success then profile_check_all ps else ok perfexpert_error
