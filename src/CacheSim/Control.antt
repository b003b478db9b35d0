-- ===== src/CacheSim/Control.antt =====
-- lib/cache_sim/cache_sim_prefetcher.c and cache_sim_conflict.c: switching the prefetcher and the
-- detection of set conflicts.
pub mod Enable
use perfexpert.Prelude.{ℕ, ◌+◌, Bool, ◌&&◌, not, Option, none, some, ◌==◌, ltb, if◌then◌else◌}
use perfexpert.CacheSim.Types.{
  Cache, Prefetcher, next_line_single, next_line_tagged, invalid, Outcome, ok, ◌>>=◌, success,
  error,
}
use perfexpert.CacheSim.Reuse.{is_null, cache_sim_reuse_disable, cache_sim_reuse_enable}

unfoldable pub cache_sim_prefetcher_enable : Option Cache → Prefetcher → ℕ × Option Cache
cache_sim_prefetcher_enable none type = (error, none)
cache_sim_prefetcher_enable (some c) next_line_single =
    (success, some (record c { next_line = next_line_single }))
cache_sim_prefetcher_enable (some c) next_line_tagged =
    (success, some (record c { next_line = next_line_tagged }))
cache_sim_prefetcher_enable (some c) invalid = (error, some c)

unfoldable pub cache_sim_prefetcher_disable : Option Cache → Prefetcher → ℕ × Option Cache
cache_sim_prefetcher_disable none type = (error, none)
cache_sim_prefetcher_disable (some c) next_line_single =
    (success, some (record c { next_line = invalid }))
cache_sim_prefetcher_disable (some c) next_line_tagged =
    (success, some (record c { next_line = invalid }))
cache_sim_prefetcher_disable (some c) invalid = (error, some c)

-- A call whose result must be `CACHE_SIM_SUCCESS`.
abbrev pub checked :
    ℕ × Option Cache → (Option Cache → Outcome (ℕ × Option Cache)) → Outcome (ℕ × Option Cache)
checked (rc, c) k = if rc == success then k c else ok (error, c)

-- Where the reuse distance is on with a limit that is too short.
unfoldable pub raise_limit : Bool → Cache → (limit : ℕ) → Outcome (ℕ × Option Cache)
raise_limit allocated c limit = do
  disabled ← cache_sim_reuse_disable (some c)
  checked disabled λ c'. cache_sim_reuse_enable allocated c' limit >>= λ enabled.
      checked enabled λ c''. ok (success, c'')

-- The branches of `cache_sim_conflict_enable` behind the reset of the counter.
unfoldable pub conflict_branches : Bool → Cache → Outcome (ℕ × Option Cache)
unfolding raise_limit
conflict_branches allocated c =
    let limit = c.total_lines + 1 in
    if not (is_null c.reuse_data) && ltb limit c.reuse_limit
    then ok (success, some c)
    else if is_null c.reuse_data
    then (do
      enabled ← cache_sim_reuse_enable allocated (some c) limit
      checked enabled λ c'. ok (success, c'))
    else if ltb c.reuse_limit limit
    then raise_limit allocated c limit
    else ok (success, some c)

unfoldable pub cache_sim_conflict_enable : Bool → Option Cache → Outcome (ℕ × Option Cache)
unfolding conflict_branches
cache_sim_conflict_enable allocated none = ok (error, none)
cache_sim_conflict_enable allocated (some c) =
    conflict_branches allocated (record c { conflict = 0 })
