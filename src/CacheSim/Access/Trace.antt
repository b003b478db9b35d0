-- ===== src/CacheSim/Access/Trace.antt =====
-- Sequences of calls of `cache_sim_access` (lib/cache_sim/cache_sim_access.c).
use perfexpert.Prelude.{ℕ, ◌+◌, ◌^◌, ◌≤◌, ◌<◌, ◌≡◌, Bool, List, [], ◌∷◌, length, arith, ap}
use perfexpert.CacheSim.Types.{Cache, Outcome, ok, ◌>>=◌, inc64}
use perfexpert.CacheSim.Access.{cache_sim_access}
use perfexpert.CacheSim.Access.Codes.{AllOk, AllOk-then, AllOk-ok}
use perfexpert.CacheSim.Access.Whole.{access_counts}
use perfexpert.CacheSim.Access.Counters.{
  Outcomes, is_hit, is_miss, is_conflict, IsCounted, AllOk-mono,
}

-- The counters agree: every access is a hit or a miss, and every conflict is a miss.
pub record IsBalanced (c : Cache) : Type 0 where
  pub hits_and_misses : c.hit + c.miss ≡ c.access
  pub conflicts : c.conflict ≤ c.miss

IsBalanced-outcome :
    (rc : ℕ) (c c' : Cache)
    → c.access + 1 < 2 ^ 64
    → c'.access ≡ inc64 c.access
    → Outcomes rc c c'
    → IsBalanced c
    → IsBalanced c'
IsBalanced-outcome rc c c' room counted (is_hit h one same calm) b = omega (arith, b)
IsBalanced-outcome rc c c' room counted (is_miss h same one calm) b = omega (arith, b)
IsBalanced-outcome rc c c' room counted (is_conflict h same one also) b = omega (arith, b)

-- A sequence of accesses.
unfoldable pub access_all : Bool → Cache → List ℕ → Outcome Cache
access_all allocated c [] = ok c
access_all allocated c (address ∷ rest) = do
  (rc, c') ← cache_sim_access allocated c address
  access_all allocated c' rest

access_all-AllOk :
    (allocated : Bool) (addresses : List ℕ) (c : Cache)
    → c.access + length addresses < 2 ^ 64
    → IsBalanced c
    → AllOk
        (λ c'. IsBalanced c' × (c'.access ≡ c.access + length addresses))
        (access_all allocated c addresses)
unfolding access_all
access_all-AllOk allocated [] c room b = (b, omega arith)
access_all-AllOk allocated (address ∷ rest) c room b =
    AllOk-then (λ r. IsCounted r.0 c r.1) _ (cache_sim_access allocated c address) _
      (access_counts allocated c address)
      (λ r h.
        let counted : r.1.access ≡ inc64 c.access = ap (λ (d : Cache). d.access) h.frame in
        AllOk-mono _ _ (access_all allocated r.1 rest)
          (λ c' after. (after.0, omega (arith, after.1)))
          (access_all-AllOk allocated rest r.1 (omega arith)
            (IsBalanced-outcome r.0 c r.1 (omega arith) counted h.outcome b)))

-- On a cache whose hits and misses add up to its accesses and which has no more conflicts than
-- misses, after any sequence of accesses that returns, so long as the access counter does not
-- wrap, the counter has grown by the number of accesses, hits and misses add up to it, and there
-- are no more conflicts than misses.
pub access_all-IsBalanced :
    (allocated : Bool) (addresses : List ℕ) {c c' : Cache}
    → c.access + length addresses < 2 ^ 64
    → IsBalanced c
    → access_all allocated c addresses ≡ ok c'
    → IsBalanced c' × (c'.access ≡ c.access + length addresses)
access_all-IsBalanced allocated addresses {c} room b e =
    AllOk-ok (λ (d : Cache). IsBalanced d × (d.access ≡ c.access + length addresses)) _
      (access_all-AllOk allocated addresses c room b) e
