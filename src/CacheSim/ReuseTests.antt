-- ===== src/CacheSim/ReuseTests.antt =====
-- Concrete traces on which the theorems on the reuse distance, on the counters and on the tree of
-- the pseudo-LRU policy are applied.
use perfexpert.Prelude.{ℕ, ◌+◌, ◌^◌, ◌<◌, ◌≡◌, refl, true, none, some, List, [], ◌∷◌, arith}
use perfexpert.CacheSim.Types.{
  Cache, ReuseItem, ok, fault, null, live, lru_area, reuse_limited, lru, invalid, success, l1_miss,
  l1_miss_conflict,
}
use perfexpert.CacheSim.Address.{address_to_line_id, address_to_set}
use perfexpert.CacheSim.Lru.{
  unused_line, scan, finish, access_lines, access_area, policy_lru_access,
}
use perfexpert.CacheSim.Plru.{choose_way, toggle_path}
use perfexpert.CacheSim.Plru.Tree.{choose_way-toggle_path}
use perfexpert.CacheSim.Reuse.{
  cache_sim_reuse_get_age, cache_sim_reuse_disable, cache_sim_reuse_enable,
}
use perfexpert.CacheSim.Reuse.Ages.{remove}
use perfexpert.CacheSim.Reuse.Recency.{touch, recency, index, NoMax}
use perfexpert.CacheSim.Reuse.Distance.{Tracks, accesses, reuse_distance}
use perfexpert.CacheSim.Access.{
  access_fn_call, evaluate, count_miss, track_reuse, reuse_fn_call, cache_sim_access,
}
use perfexpert.CacheSim.Access.Counters.{IsCounted}
use perfexpert.CacheSim.Access.Whole.{cache_sim_access-IsCounted}
use perfexpert.CacheSim.Access.Trace.{IsBalanced, access_all, access_all-IsBalanced}
use perfexpert.CacheSim.Access.Conflict.{track_reuse-verdict}
use perfexpert.CacheSim.Control.{cache_sim_conflict_enable}
use perfexpert.CacheSim.Control.Enable.{cache_sim_conflict_enable-fault}
use perfexpert.CacheSim.Handle.{cache_sim_fini}
use perfexpert.CacheSim.Handle.Lifetime.{disable_then_dangling}

program : Unit {0}
unfolding address_to_line_id address_to_set scan finish access_lines access_area policy_lru_access
    access_fn_call evaluate count_miss reuse_fn_call track_reuse cache_sim_access access_all touch
    recency index remove
program = tt

-- Two lines of four bytes in two sets of one way.
abbrev base : Cache
base = record {
  total_size = 8;
  line_size = 4;
  associativity = 1;
  total_lines = 2;
  total_sets = 2;
  offset_length = 2;
  set_length = 1;
  access_fn = some lru;
  area = lru_area (unused_line ∷ unused_line ∷ []);
  reuse_data = null;
  reuse_limit = 0;
  reuse_fn = none;
  symbol_data = null;
  next_line = invalid;
  access = 0;
  hit = 0;
  miss = 0;
  conflict = 0;
  prefetcher_next_line = 0;
  prefetcher_hit = 0;
  prefetcher_evict = 0;
}

abbrev three_items : List ReuseItem
three_items =
    record { line_id = 4; age = 0 }
    ∷ record { line_id = 8; age = 1 }
    ∷ record { line_id = 12; age = 2 }
    ∷ []

abbrev tracked : Cache
tracked = record base {
  reuse_data = live three_items;
  reuse_limit = 3;
  reuse_fn = some reuse_limited;
}

tracked-Tracks : Tracks 3 tracked (4 ∷ 8 ∷ 12 ∷ [])
tracked-Tracks = record {
  items = three_items;
  held = refl;
  aged = (λ n. refl, (λ n. refl, (λ n. refl, tt)));
  count = refl;
  window = refl;
}

track_reuse-verdict_example :
    (c' : Cache) × (track_reuse true l1_miss tracked 8 ≡ ok (l1_miss + l1_miss_conflict, c'))
    × Tracks 3 c' (8 ∷ 4 ∷ 12 ∷ [])
unfolding touch index remove
track_reuse-verdict_example =
    track_reuse-verdict true tracked (4 ∷ 8 ∷ 12 ∷ []) 8 tracked-Tracks refl (omega arith)
      (λ e. omega (arith, e))

four-NoMax : NoMax (4 ∷ 8 ∷ 4 ∷ 12 ∷ [])
four-NoMax = (
  λ e. omega (arith, e),
  (λ e. omega (arith, e), (λ e. omega (arith, e), (λ e. omega (arith, e), tt))),
)

reuse_distance_example :
    (c' c'' : Cache) × (cache_sim_reuse_enable true (some base) 3 ≡ ok (success, some c'))
    × (accesses c' (4 ∷ 8 ∷ 4 ∷ 12 ∷ []) ≡ ok c'')
    × (cache_sim_reuse_get_age (some c'') 8 ≡ ok 2)
unfolding recency index touch remove
reuse_distance_example =
    reuse_distance base 3 (4 ∷ 8 ∷ 4 ∷ 12 ∷ []) 8 refl (omega arith) (omega arith) four-NoMax
      (λ e. omega (arith, e))

abbrev after_miss : Cache
after_miss = record base {
  area = lru_area (record { line_id = 8; age = 1; load = 0 } ∷ unused_line ∷ []);
  access = 1;
  miss = 1;
}

first_access : cache_sim_access true base 9 ≡ ok (l1_miss, after_miss)
unfolding program
first_access = refl

cache_sim_access-IsCounted_example : IsCounted l1_miss base after_miss
cache_sim_access-IsCounted_example = cache_sim_access-IsCounted true base 9 first_access

abbrev after_hit : Cache
after_hit = record after_miss {
  area = lru_area (record { line_id = 8; age = 2; load = 0 } ∷ unused_line ∷ []);
  access = 2;
  hit = 1;
}

two_accesses : access_all true base (9 ∷ 11 ∷ []) ≡ ok after_hit
unfolding program
two_accesses = refl

access_all-IsBalanced_example : IsBalanced after_hit × (after_hit.access ≡ base.access + 2)
access_all-IsBalanced_example =
    access_all-IsBalanced true (9 ∷ 11 ∷ []) {c = base} (omega arith)
      (record { hits_and_misses = refl; conflicts = omega arith }) two_accesses

choose_way-toggle_path_example :
    (way : ℕ) × (mask' : ℕ) × (choose_way 3 0 0 0 5 ≡ ok (way, mask'))
    × (way < 2 ^ 3)
    × (toggle_path 3 way 3 0 0 0 5 ≡ ok mask')
choose_way-toggle_path_example = choose_way-toggle_path 3 5 (omega arith)

disable_then_dangling_example :
    (c' : Cache) × (cache_sim_reuse_disable (some tracked) ≡ ok (success, some c'))
    × (cache_sim_reuse_enable true (some c') 3 ≡ ok (success, some c'))
    × ((id : ℕ) → cache_sim_reuse_get_age (some c') id ≡ fault)
    × (cache_sim_reuse_disable (some c') ≡ fault)
    × (cache_sim_fini c' ≡ fault)
disable_then_dangling_example = disable_then_dangling tracked refl

abbrev short : Cache
short = record tracked { reuse_limit = 2 }

cache_sim_conflict_enable-fault_example : cache_sim_conflict_enable true (some short) ≡ fault
cache_sim_conflict_enable-fault_example =
    cache_sim_conflict_enable-fault true short refl (omega arith)
