-- ===== src/Profile/Tests.antt =====
-- A hotspot with three metrics, two of them of one key, and a call path, on which the theorems on
-- modules/hpctoolkit/hpctoolkit_profile.c are applied.
use perfexpert.Prelude.{ℕ, ◌+◌, ◌≡◌, refl, List, [], ◌∷◌, some, ltb, if◌then◌else◌}
use perfexpert.Outcome.{ok, fault}
use perfexpert.CString.{perfexpert_success}
use perfexpert.Profile.{
  Metric, call, nil, cons, HpctoolkitProfile, profile_aggregate_metrics, profile_flatten_all,
  profile_check_all, absorb, aggregate_from,
}
use perfexpert.Profile.Merge.{AreFlattened, profile_flatten_all-AreFlattened}
use perfexpert.Profile.Depth.{deepest, profile_check_all-deepest}

abbrev cycles : (rank value : ℕ) → Metric ℕ
cycles rank value = record {
  name = "PAPI_TOT_CYC";
  experiment = 1;
  thread = 0;
  mpi_rank = rank;
  value = value;
}

abbrev hotspot : List (Metric ℕ)
hotspot = cycles 0 3 ∷ cycles 1 4 ∷ cycles 0 5 ∷ []

abbrev profile : HpctoolkitProfile ℕ
profile = record {
  name = "a.out";
  hotspots = hotspot ∷ [];
  callees = cons (call 1 (cons (call 2 nil) nil)) nil;
}

aggregated : profile_aggregate_metrics ◌+◌ hotspot ≡ some (cycles 0 8 ∷ cycles 1 4 ∷ [])
unfolding profile_aggregate_metrics aggregate_from absorb
aggregated = refl

profile_flatten_all-AreFlattened_example :
    (ps : List (HpctoolkitProfile ℕ)) × (profile_flatten_all ◌+◌ (profile ∷ []) ≡ some ps)
    × AreFlattened ◌+◌ (cycles 0 0) (profile ∷ []) ps
profile_flatten_all-AreFlattened_example =
    profile_flatten_all-AreFlattened ◌+◌ (cycles 0 0) (profile ∷ [])

profile_check_all-deepest_example :
    profile_check_all (profile ∷ [])
    ≡ (if ltb (deepest (profile ∷ [])) 127 then ok perfexpert_success else fault)
profile_check_all-deepest_example = profile_check_all-deepest (profile ∷ [])
