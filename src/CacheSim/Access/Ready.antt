-- ===== src/CacheSim/Access/Ready.antt =====
-- The steps of an access on a cache with the LRU policy return, and keep it well formed
-- (lib/cache_sim/cache_sim_access.c).
use perfexpert.Prelude.{
  ℕ, ◌+◌, ◌%◌, ◌^◌, ◌<◌, ◌≡◌, ◌≢◌, refl, ap, ◌∙◌, subst, ◌⊎◌, inl, inr, Bool, true, false, some,
  Option, List, ◌==◌, if◌then◌else◌, arith,
}
use perfexpert.CacheSim.Types.{
  Cache, LruLine, Outcome, ok, null, lru, reuse_limited, uint64_max, inc64, load_prefetch, l1_miss,
  l1_prefetch_evict, lru_area, Policy,
}
use perfexpert.CacheSim.Lru.{policy_lru_access}
use perfexpert.CacheSim.Address.{FitsWord}
use perfexpert.CacheSim.Lru.Whole.{IsLru, policy_lru_access-IsUpdated}
use perfexpert.CacheSim.Reuse.Distance.{Tracks}
use perfexpert.CacheSim.Access.{
  access_fn_call, prefetch_next, is_tagged, is_on, count_miss, count_prefetch_hit, evaluate,
}
use perfexpert.CacheSim.Access.Codes.{IsHit, IsMiss}

-- The reuse distances are off, or limited and well formed.
abbrev pub IsReuseReady : Cache → Type 0
IsReuseReady c =
    (c.reuse_data ≡ null)
    ⊎ ((c.reuse_fn ≡ some reuse_limited) × (n : ℕ) × (l : List ℕ) × (0 < n) × Tracks n c l)

-- A cache as `cache_sim_init` makes it for the LRU policy and as accesses leave it.
pub record IsReady (c : Cache) : Type 0 where
  pub lines : List LruLine
  pub area : IsLru c lines
  pub word : FitsWord c
  pub policy : c.access_fn ≡ some lru
  pub even : c.line_size % 2 ≡ 0
  pub reuse : IsReuseReady c

-- A call that returns a value with a property.
abbrev pub Returns {ℓ} : {A : Type ℓ} → (A → Type 0) → Outcome A → Type ℓ
Returns {A} P m = (a : A) × (m ≡ ok a) × P a

IsReuseReady-counted :
    (c : Cache) (access hit miss conflict next_line prefetched evicted : ℕ) (area : _)
    → IsReuseReady c
    → IsReuseReady (record c {
      area = area;
      access = access;
      hit = hit;
      miss = miss;
      conflict = conflict;
      prefetcher_next_line = next_line;
      prefetcher_hit = prefetched;
      prefetcher_evict = evicted;
    })
IsReuseReady-counted c access hit miss conflict next_line prefetched evicted area (inl off) =
    inl off
IsReuseReady-counted c access hit miss conflict next_line prefetched evicted area
      (inr (f, n, l, pos, t)) =
    inr (
      f,
      n,
      l,
      pos,
      record { items = t.items; held = t.held; aged = t.aged; count = t.count; window = t.window },
    )

-- The counters do not matter.
pub IsReady-counted :
    (c : Cache) (access hit miss conflict next_line prefetched evicted : ℕ)
    → IsReady c
    → IsReady (record c {
      access = access;
      hit = hit;
      miss = miss;
      conflict = conflict;
      prefetcher_next_line = next_line;
      prefetcher_hit = prefetched;
      prefetcher_evict = evicted;
    })
IsReady-counted c access hit miss conflict next_line prefetched evicted r = record {
  lines = r.lines;
  area = record { area_is = r.area.area_is; some_way = r.area.some_way; sets = r.area.sets };
  word = record {
    some_set_bit = r.word.some_set_bit;
    some_offset_bit = r.word.some_offset_bit;
    fits = r.word.fits;
  };
  policy = r.policy;
  even = r.even;
  reuse =
      IsReuseReady-counted c access hit miss conflict next_line prefetched evicted c.area r.reuse;
}

access_fn_call-policy_lru_access :
    {p : Option Policy} (c : Cache) (id load : ℕ)
    → p ≡ some lru
    → access_fn_call p c id load ≡ policy_lru_access c id load
unfolding access_fn_call
access_fn_call-policy_lru_access c id load e = rw e

-- The replacement algorithm.
pub access_fn_call-IsReady :
    (c : Cache) (id load : ℕ)
    → IsReady c
    → id ≢ uint64_max
    → Returns (λ (r : ℕ × Cache). IsReady r.1) (access_fn_call c.access_fn c id load)
access_fn_call-IsReady c id load r named =
    let (rc, c', lines', e, u) = policy_lru_access-IsUpdated id load r.word r.area named in
    let d : Cache = record c { area = lru_area lines' } in
    let valid : IsLru d lines' = subst (λ (x : Cache). IsLru x lines') u.only_area u.valid in
    (
      (rc, d),
      access_fn_call-policy_lru_access c id load r.policy
          ∙ e
          ∙ ap (λ (x : Cache). ok (rc, x)) u.only_area,
      record {
        lines = lines';
        area = valid;
        word = record {
          some_set_bit = r.word.some_set_bit;
          some_offset_bit = r.word.some_offset_bit;
          fits = r.word.fits;
        };
        policy = r.policy;
        even = r.even;
        reuse =
            IsReuseReady-counted c c.access c.hit c.miss c.conflict c.prefetcher_next_line
              c.prefetcher_hit c.prefetcher_evict (lru_area lines') r.reuse;
      },
    )

pub not_max_of_even : (id : ℕ) → id % 2 ≡ 0 → id ≢ uint64_max
not_max_of_even id h e = omega (arith, e, h)

prefetch_next-IsReady :
    (c : Cache) (id : ℕ) → IsReady c → id % 2 ≡ 0 → Returns IsReady (prefetch_next c id)
unfolding prefetch_next
prefetch_next-IsReady c id r h =
    let next = (id + c.line_size) % 2 ^ 64 in
    let ((rc, c'), e, r') =
      access_fn_call-IsReady c next load_prefetch r
        (not_max_of_even next (omega (arith, r.even))) in
    let evicted =
      if rc == l1_miss + l1_prefetch_evict
      then inc64 c'.prefetcher_evict
      else c'.prefetcher_evict in
    (
      _,
      rw e,
      IsReady-counted c' c'.access c'.hit c'.miss c'.conflict (inc64 c'.prefetcher_next_line)
          c'.prefetcher_hit evicted r',
    )

add_hit-IsReady : (c : Cache) → IsReady c → IsReady (record c { hit = inc64 c.hit })
add_hit-IsReady c r =
    IsReady-counted c c.access (inc64 c.hit) c.miss c.conflict c.prefetcher_next_line
      c.prefetcher_hit c.prefetcher_evict r

-- A counted miss or a counted hit on a prefetched line, with the prefetch that may follow.
prefetch_if-IsReady :
    (b : Bool) (c : Cache) (id : ℕ)
    → IsReady c
    → id % 2 ≡ 0
    → Returns IsReady (if b then prefetch_next c id else ok c)
prefetch_if-IsReady true c id r h = prefetch_next-IsReady c id r h
prefetch_if-IsReady false c id r h = (c, refl, r)

count_miss-IsReady :
    (c : Cache) (id : ℕ) → IsReady c → id % 2 ≡ 0 → Returns IsReady (count_miss c id)
unfolding count_miss
count_miss-IsReady c id r h =
    prefetch_if-IsReady (is_on c.next_line) (record c { miss = inc64 c.miss }) id
      (IsReady-counted c c.access c.hit (inc64 c.miss) c.conflict c.prefetcher_next_line
        c.prefetcher_hit c.prefetcher_evict r)
      h

count_prefetch_hit-IsReady :
    (c : Cache) (id : ℕ) → IsReady c → id % 2 ≡ 0 → Returns IsReady (count_prefetch_hit c id)
unfolding count_prefetch_hit
count_prefetch_hit-IsReady c id r h =
    let (c', e, r') =
      prefetch_if-IsReady (is_tagged c.next_line)
        (record c { prefetcher_hit = inc64 c.prefetcher_hit }) id
        (IsReady-counted c c.access c.hit c.miss c.conflict c.prefetcher_next_line
          (inc64 c.prefetcher_hit) c.prefetcher_evict r)
        h in
    (record c' { hit = inc64 c'.hit }, rw e, add_hit-IsReady c' r')

pub evaluate-IsReady :
    (rc : ℕ) (c : Cache) (id : ℕ)
    → IsHit rc ⊎ IsMiss rc
    → IsReady c
    → id % 2 ≡ 0
    → Returns IsReady (evaluate rc c id)
unfolding evaluate
evaluate-IsReady rc c id (inl (inl e)) r h =
    rw e (record c { hit = inc64 c.hit }, refl, add_hit-IsReady c r)
evaluate-IsReady rc c id (inl (inr e)) r h = rw e (count_prefetch_hit-IsReady c id r h)
evaluate-IsReady rc c id (inr (inl e)) r h = rw e (count_miss-IsReady c id r h)
evaluate-IsReady rc c id (inr (inr e)) r h = rw e (
    count_miss-IsReady (record c { prefetcher_evict = inc64 c.prefetcher_evict }) id
      (IsReady-counted c c.access c.hit c.miss c.conflict c.prefetcher_next_line c.prefetcher_hit
        (inc64 c.prefetcher_evict) r)
      h)
