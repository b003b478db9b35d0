-- ===== src/CacheSim/Handle/Lifetime.antt =====
-- What `cache_sim_reuse_disable` leaves behind (lib/cache_sim/cache_sim_reuse.c, cache_sim.c).
use perfexpert.Prelude.{ℕ, ◌≡◌, refl, true, some, List, ==_refl}
use perfexpert.CacheSim.Types.{Cache, ReuseItem, live, freed, ok, fault, success}
use perfexpert.CacheSim.Reuse.{
  cache_sim_reuse_disable, cache_sim_reuse_enable, cache_sim_reuse_get_age,
}
use perfexpert.CacheSim.Handle.{cache_sim_fini}

-- On a cache with reuse distances, cache_sim_reuse_disable succeeds and leaves a dangling
-- pointer: enabling again with the same limit reports success and changes nothing, while every
-- question for an age, a second disabling and cache_sim_fini use freed memory.
pub disable_then_dangling :
    (c : Cache) {items : List ReuseItem}
    → c.reuse_data ≡ live items
    → (c' : Cache) × (cache_sim_reuse_disable (some c) ≡ ok (success, some c'))
      × (cache_sim_reuse_enable true (some c') c.reuse_limit ≡ ok (success, some c'))
      × ((id : ℕ) → cache_sim_reuse_get_age (some c') id ≡ fault)
      × (cache_sim_reuse_disable (some c') ≡ fault)
      × (cache_sim_fini c' ≡ fault)
unfolding cache_sim_reuse_disable cache_sim_reuse_enable cache_sim_reuse_get_age cache_sim_fini
disable_then_dangling c held =
    (record c { reuse_data = freed }, rw held, rw (==_refl c.reuse_limit), λ id. refl, refl, refl)
