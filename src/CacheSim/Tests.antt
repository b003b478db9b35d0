-- ===== src/CacheSim/Tests.antt =====
-- Concrete caches, traces and addresses on which the theorems on the cache simulator are applied.
use perfexpert.Prelude.{
  inl, ℕ, zero, suc, ◌+◌, ◌≤◌, ◌<◌, ◌≡◌, ◌≢◌, refl, true, none, some, List, [], ◌∷◌, replicate, set,
  arith,
}
use perfexpert.CacheSim.Types.{
  Cache, LruLine, ok, null, no_area, lru_area, lru, invalid, l1_hit, l1_hit_prefetch, uint64_max,
  load_access, load_prefetch,
}
use perfexpert.CacheSim.Address.{FitsWord}
use perfexpert.CacheSim.Lru.{unused_line, policy_lru_init, loaded, access_lines, policy_lru_access}
use perfexpert.CacheSim.Lru.Sets.{IsWays, IsVictim, miss_code, id_at}
use perfexpert.CacheSim.Lru.Loop.{line_at}
use perfexpert.CacheSim.Lru.Access.{access_lines-resident, access_lines-absent}
use perfexpert.CacheSim.Lru.Whole.{
  IsLru, IsUpdated, policy_lru_init-IsLru, policy_lru_access-IsUpdated,
}
use perfexpert.CacheSim.Access.Ready.{IsReady}
use perfexpert.CacheSim.Access.Trace.{access_all}
use perfexpert.CacheSim.Access.Total.{access_all-cache_sim_init}
use perfexpert.CacheSim.Handle.{cache_sim_init}
use perfexpert.CacheSim.Handle.Init.{policy_name}

-- Eight lines of four bytes in four sets of two ways.
abbrev bare : Cache
bare = record {
  total_size = 32;
  line_size = 4;
  associativity = 2;
  total_lines = 8;
  total_sets = 4;
  offset_length = 2;
  set_length = 2;
  access_fn = some lru;
  area = no_area;
  reuse_data = null;
  reuse_limit = 0;
  reuse_fn = none;
  symbol_data = null;
  next_line = invalid;
  access = 0;
  hit = 0;
  miss = 0;
  conflict = 0;
  prefetcher_next_line = 0;
  prefetcher_hit = 0;
  prefetcher_evict = 0;
}

abbrev empty_lines : List LruLine
empty_lines = replicate 8 unused_line

abbrev small : Cache
small = record bare { area = lru_area empty_lines }

small-FitsWord : FitsWord small
small-FitsWord = record {
  some_set_bit = omega arith;
  some_offset_bit = omega arith;
  fits = omega arith;
}

small-IsLru : IsLru small empty_lines
unfolding policy_lru_init
small-IsLru = (policy_lru_init-IsLru bare (omega arith) (omega arith)).1

policy_lru_access-IsUpdated_example :
    (code : ℕ) × (c' : Cache) × (lines' : List LruLine) × (policy_lru_access small 20 load_access
      ≡ ok (code, c'))
    × IsUpdated small c' empty_lines lines' 20 load_access
policy_lru_access-IsUpdated_example =
    policy_lru_access-IsUpdated {c = small} {lines = empty_lines} 20 load_access small-FitsWord
      small-IsLru (λ e. omega (arith, e))

-- A full set of two ways.
abbrev two_ways : List LruLine
two_ways =
    record { line_id = 16; age = 5; load = load_access }
    ∷ record { line_id = 32; age = 3; load = load_prefetch }
    ∷ []

two_ways-distinct : (i j : ℕ) → i < j → j < 2 → id_at two_ways i ≢ id_at two_ways j
two_ways-distinct zero (suc zero) p q e = absurd (omega (arith, e))
two_ways-distinct zero zero p q e = absurd (omega arith)
two_ways-distinct zero (suc (suc j)) p q e = absurd (omega arith)
two_ways-distinct (suc i) j p q e = absurd (omega arith)

two_ways-used : (i : ℕ) → i < 2 → id_at two_ways i ≢ uint64_max
two_ways-used zero p e = absurd (omega (arith, e))
two_ways-used (suc zero) p e = absurd (omega (arith, e))
two_ways-used (suc (suc i)) p e = absurd (omega arith)

two_ways-IsWays : IsWays two_ways 0 2
two_ways-IsWays = record {
  fits = omega arith;
  free_last = λ i j p q r e. absurd (two_ways-used i (omega arith) e);
  distinct = λ i j p q r e. absurd (two_ways-distinct i j q r e);
}

two_ways-without_48 : (j : ℕ) → 0 ≤ j → j < 2 → id_at two_ways j ≢ 48
two_ways-without_48 zero o p e = absurd (omega (arith, e))
two_ways-without_48 (suc zero) o p e = absurd (omega (arith, e))
two_ways-without_48 (suc (suc i)) o p e = absurd (omega arith)

access_lines-resident_example :
    access_lines two_ways 0 2 32 load_access 7
    ≡ ok (
      l1_hit + l1_hit_prefetch,
      record { line_id = 16; age = 5; load = load_access }
          ∷ record { line_id = 32; age = 7; load = load_access }
          ∷ [],
    )
access_lines-resident_example =
    access_lines-resident 0 2 two_ways-IsWays 32 load_access 7 1 (λ e. omega (arith, e))
      (omega arith) (omega arith) refl

access_lines-absent_example :
    (k : ℕ) × IsVictim two_ways 0 2 k
    × (access_lines two_ways 0 2 48 load_access 7
        ≡ ok (miss_code (line_at two_ways k), set two_ways k (loaded 48 load_access 7)))
access_lines-absent_example =
    access_lines-absent 0 2 two_ways-IsWays 48 load_access 7 (omega arith) two_ways-without_48

small-IsReady : IsReady small
small-IsReady = record {
  lines = empty_lines;
  area = small-IsLru;
  word = small-FitsWord;
  policy = refl;
  even = refl;
  reuse = inl refl;
}

access_all-cache_sim_init_example :
    (c c' : Cache) × (cache_sim_init true true 32 4 2 policy_name ≡ ok (some c))
    × (access_all true c (9 ∷ 11 ∷ 365 ∷ []) ≡ ok c')
    × (c'.hit + c'.miss ≡ 3)
access_all-cache_sim_init_example =
    access_all-cache_sim_init 32 4 2 (9 ∷ 11 ∷ 365 ∷ []) (omega arith) (omega arith) refl
      (omega arith) (omega arith) (omega arith)
