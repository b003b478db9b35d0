-- ===== src/CacheSim/Access.antt =====
-- lib/cache_sim/cache_sim_access.c: an access, with the prefetcher, the counters, and the check for
-- set conflicts.
pub mod Codes
pub mod Counters
pub mod Whole
pub mod Trace
pub mod Conflict
pub mod Ready
pub mod Total
use perfexpert.Prelude.{
  ℕ, ◌+◌, ◌%◌, ◌^◌, Bool, true, false, ◌&&◌, Option, none, some, ◌==◌, ltb, if◌then◌else◌,
}
use perfexpert.CacheSim.Types.{
  Cache, Policy, lru, plru, Prefetcher, next_line_single, next_line_tagged, invalid, ReuseFn,
  reuse_limited, reuse_unlimited, Outcome, ok, fault, ◌>>=◌, l1_hit, l1_hit_prefetch, l1_miss,
  l1_miss_conflict, l1_prefetch_evict, load_access, load_prefetch, inc64,
}
use perfexpert.CacheSim.Address.{address_to_line_id}
use perfexpert.CacheSim.Lru.{policy_lru_access}
use perfexpert.CacheSim.Plru.{policy_plru_access}
use perfexpert.CacheSim.Reuse.{
  is_null, cache_sim_reuse_limited, cache_sim_reuse_unlimited, cache_sim_reuse_get_age,
}

-- `cache->access_fn(cache, line_id, load)`
unfoldable pub access_fn_call : Option Policy → Cache → (line_id load : ℕ) → Outcome (ℕ × Cache)
access_fn_call none c id load = fault
access_fn_call (some lru) c id load = policy_lru_access c id load
access_fn_call (some plru) c id load = policy_plru_access c id load

-- The load of the next line, and its counters.
unfoldable pub prefetch_next : Cache → (line_id : ℕ) → Outcome Cache
unfolding access_fn_call
prefetch_next c id = do
  (rc, c') ← access_fn_call c.access_fn c ((id + c.line_size) % 2 ^ 64) load_prefetch
  let evict =
      if rc == l1_miss + l1_prefetch_evict then inc64 c'.prefetcher_evict else c'.prefetcher_evict
  ok (record c' { prefetcher_evict = evict; prefetcher_next_line = inc64 c'.prefetcher_next_line })

abbrev pub is_tagged : Prefetcher → Bool
is_tagged next_line_tagged = true
is_tagged _ = false

abbrev pub is_on : Prefetcher → Bool
is_on next_line_single = true
is_on next_line_tagged = true
is_on invalid = false

-- The case of a common miss, into which the miss over a prefetched line falls.
unfoldable pub count_miss : Cache → (line_id : ℕ) → Outcome Cache
unfolding prefetch_next
count_miss c id =
    let counted = record c { miss = inc64 c.miss } in
    if is_on c.next_line then prefetch_next counted id else ok counted

abbrev pub add_hit : Cache → Outcome Cache
add_hit c = ok (record c { hit = inc64 c.hit })

-- The case of a hit on a prefetched line, which falls into that of a hit.
unfoldable pub count_prefetch_hit : Cache → (line_id : ℕ) → Outcome Cache
unfolding prefetch_next
count_prefetch_hit c id =
    let counted = record c { prefetcher_hit = inc64 c.prefetcher_hit } in
    (if is_tagged c.next_line then prefetch_next counted id else ok counted) >>= add_hit

-- The `switch` over the result of the replacement algorithm.
unfoldable pub evaluate : (rc : ℕ) → Cache → (line_id : ℕ) → Outcome Cache
unfolding count_miss count_prefetch_hit
evaluate rc c id =
    if rc == l1_hit + l1_hit_prefetch
    then count_prefetch_hit c id
    else if rc == l1_hit
    then add_hit c
    else if rc == l1_miss + l1_prefetch_evict
    then count_miss (record c { prefetcher_evict = inc64 c.prefetcher_evict }) id
    else if rc == l1_miss
    then count_miss c id
    else ok c

-- `cache->reuse_fn(cache, line_id)`; the flag is the success of a `malloc` in it.
unfoldable pub reuse_fn_call : Bool → Option ReuseFn → Cache → (line_id : ℕ) → Outcome (ℕ × Cache)
reuse_fn_call allocated none c id = fault
reuse_fn_call allocated (some reuse_limited) c id = cache_sim_reuse_limited c id
reuse_fn_call allocated (some reuse_unlimited) c id = cache_sim_reuse_unlimited allocated c id

-- The check for set conflicts and the update of the reuse distances.
unfoldable pub track_reuse : Bool → (rc : ℕ) → Cache → (line_id : ℕ) → Outcome (ℕ × Cache)
unfolding reuse_fn_call
track_reuse allocated rc c id = if is_null c.reuse_data then ok (rc, c) else do
  age ← cache_sim_reuse_get_age (some c) id
  let conflicts = ltb age c.total_lines && rc == l1_miss
  let c' = if conflicts then record c { conflict = inc64 c.conflict } else c
  let rc' = if conflicts then rc + l1_miss_conflict else rc
  (_, c'') ← reuse_fn_call allocated c'.reuse_fn c' id
  ok (rc', c'')

unfoldable pub cache_sim_access : Bool → Cache → (address : ℕ) → Outcome (ℕ × Cache)
unfolding access_fn_call evaluate track_reuse address_to_line_id
cache_sim_access allocated c address = do
  let id = address_to_line_id c address
  (rc, c') ← access_fn_call c.access_fn (record c { access = inc64 c.access }) id load_access
  c'' ← evaluate rc c' id
  track_reuse allocated rc c'' id
