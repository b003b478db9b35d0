-- ===== src/CacheSim/Control/Enable.antt =====
-- What `cache_sim_conflict_enable` (lib/cache_sim/cache_sim_conflict.c) sets up.
use perfexpert.Prelude.{
  ◌+◌, ◌^◌, ◌<◌, ◌≡◌, Bool, true, false, some, List, ltb, ◌==◌, replicate, ap, arith,
}
use perfexpert.CacheSim.Types.{
  Cache, ReuseItem, ok, fault, ListPtr, null, live, reuse_limited, success, uint64_max,
}
use perfexpert.CacheSim.Reuse.{is_null, cache_sim_reuse_disable, cache_sim_reuse_enable}
use perfexpert.CacheSim.Reuse.Distance.{Tracks, enable-Tracks}
use perfexpert.CacheSim.Control.{raise_limit, conflict_branches, cache_sim_conflict_enable}

enabled_branch :
    (c c' : Cache)
    → is_null c.reuse_data ≡ true
    → cache_sim_reuse_enable true (some c) (c.total_lines + 1) ≡ ok (success, some c')
    → conflict_branches true c ≡ ok (success, some c')
unfolding conflict_branches
enabled_branch c c' off e = rw (off, e)

-- On a cache without reuse distances of fewer than 2^31 - 1 lines, and with memory, cache_sim_conflict_enable succeeds,
-- resets the counter of conflicts, and sets up limited reuse distances for one line more than
-- the cache has, on which no line was used yet.
cache_sim_conflict_enable-Tracks :
    (c : Cache)
    → c.reuse_data ≡ null
    → c.total_lines + 1 < 2 ^ 31
    → (c' : Cache) × (cache_sim_conflict_enable true (some c) ≡ ok (success, some c'))
      × Tracks (c.total_lines + 1) c' (replicate (c.total_lines + 1) uint64_max)
      × (c'.reuse_fn ≡ some reuse_limited)
      × (c'.total_lines ≡ c.total_lines)
      × (c'.conflict ≡ 0)
unfolding cache_sim_conflict_enable
cache_sim_conflict_enable-Tracks c off small =
    let (c', e, t, fn, lines, reset) =
      enable-Tracks (record c { conflict = 0 }) (c.total_lines + 1) off (omega arith) small in
    (
      c',
      enabled_branch (record c { conflict = 0 }) c' (ap (λ (p : ListPtr ReuseItem). is_null p) off)
          e,
      t,
      fn,
      lines,
      reset,
    )

-- On a cache with reuse distances of a limit of at most total_lines, cache_sim_conflict_enable
-- frees the list twice, which is undefined: cache_sim_reuse_enable finds the dangling pointer
-- with another limit and disables the reuse distances again.
pub cache_sim_conflict_enable-fault :
    (allocated : Bool) (c : Cache) {items : List ReuseItem}
    → c.reuse_data ≡ live items
    → c.reuse_limit < c.total_lines + 1
    → cache_sim_conflict_enable allocated (some c) ≡ fault
unfolding cache_sim_conflict_enable raise_limit cache_sim_reuse_enable cache_sim_reuse_disable
cache_sim_conflict_enable-fault allocated c held short =
    let long : ltb (c.total_lines + 1) c.reuse_limit ≡ false = ground arith in
    let raised : ltb c.reuse_limit (c.total_lines + 1) ≡ true = ground arith in
    let other : (c.total_lines + 1 == c.reuse_limit) ≡ false = ground arith in
    rw (held, long, raised, other)
