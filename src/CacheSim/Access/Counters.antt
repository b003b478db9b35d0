-- ===== src/CacheSim/Access/Counters.antt =====
-- The counters of `cache_sim_access` (lib/cache_sim/cache_sim_access.c).
use perfexpert.Prelude.{
  ℕ, ◌+◌, ◌%◌, ◌^◌, ◌≡◌, refl, ◌⊎◌, inl, inr, Bool, Option, some, none, arith, Bool-cases,
}
use perfexpert.CacheSim.Types.{
  Cache, ReuseFn, reuse_limited, reuse_unlimited, Outcome, ok, fault, l1_miss, l1_miss_conflict,
  load_prefetch, inc64,
}
use perfexpert.CacheSim.Access.{
  access_fn_call, prefetch_next, is_on, is_tagged, count_miss, add_hit, count_prefetch_hit,
  evaluate, reuse_fn_call,
}
use perfexpert.CacheSim.Reuse.{
  items_of, walk, limited_end, cache_sim_reuse_limited, cache_sim_reuse_unlimited,
}
use perfexpert.CacheSim.Access.Codes.{
  IsHit, IsMiss, IsResult, AllOk, AllOk-bind, AllOk-then, call-Results,
}

-- A step that changes only the data area and the counters of the prefetcher, and counts one line
-- that was loaded by it.
pub record IsPrefetch (c c' : Cache) : Type 0 where
  pub frame : c' ≡ record c {
    area = c'.area;
    prefetcher_next_line = c'.prefetcher_next_line;
    prefetcher_evict = c'.prefetcher_evict;
  }
  pub one_line : c'.prefetcher_next_line ≡ inc64 c.prefetcher_next_line
  pub evicted :
      (c'.prefetcher_evict ≡ c.prefetcher_evict) ⊎ (c'.prefetcher_evict ≡ inc64 c.prefetcher_evict)

prefetch_next-IsPrefetch : (c : Cache) (id : ℕ) → AllOk (λ c'. IsPrefetch c c') (prefetch_next c id)
unfolding prefetch_next
prefetch_next-IsPrefetch c id =
    AllOk-then (λ r. IsResult c r.0 r.1) _
      (access_fn_call c.access_fn c ((id + c.line_size) % 2 ^ 64) load_prefetch) _
      (call-Results c.access_fn c ((id + c.line_size) % 2 ^ 64) load_prefetch) (λ r h. ground arith)

-- A step of the `switch`: what it changes, and how it counts hits and misses.
pub record IsEvaluated (rc : ℕ) (c c' : Cache) : Type 0 where
  pub frame : c' ≡ record c {
    area = c'.area;
    hit = c'.hit;
    miss = c'.miss;
    prefetcher_next_line = c'.prefetcher_next_line;
    prefetcher_hit = c'.prefetcher_hit;
    prefetcher_evict = c'.prefetcher_evict;
  }
  pub counted :
      (IsHit rc × (c'.hit ≡ inc64 c.hit) × (c'.miss ≡ c.miss))
      ⊎ (IsMiss rc × (c'.hit ≡ c.hit) × (c'.miss ≡ inc64 c.miss))

-- A miss counted, with the prefetch that may follow it.
record IsMissCounted (c c' : Cache) : Type 0 where
  frame : c' ≡ record c {
    area = c'.area;
    miss = inc64 c.miss;
    prefetcher_next_line = c'.prefetcher_next_line;
    prefetcher_evict = c'.prefetcher_evict;
  }

pub AllOk-mono {ℓ κ μ} :
    {A : Type ℓ} (P : A → Type κ) (Q : A → Type μ) (m : Outcome A)
    → ((a : A) → P a → Q a)
    → AllOk P m
    → AllOk Q m
AllOk-mono P Q (ok a) k h = k a h
AllOk-mono P Q fault k h = tt

count_miss-IsMissCounted : (c : Cache) (id : ℕ) → AllOk (λ c'. IsMissCounted c c') (count_miss c id)
unfolding count_miss
count_miss-IsMissCounted c id = elim (Bool-cases (is_on c.next_line)) [
  | inl on ↦ rw on (
      AllOk-mono (λ c'. IsPrefetch (record c { miss = inc64 c.miss }) c') _ _ (λ c' p. ground arith)
        (prefetch_next-IsPrefetch (record c { miss = inc64 c.miss }) id))
  | inr off ↦ rw off (record { frame = refl })
]

pub evaluate-IsEvaluated :
    (rc : ℕ) (c : Cache) (id : ℕ)
    → IsHit rc ⊎ IsMiss rc
    → AllOk (λ c'. IsEvaluated rc c c') (evaluate rc c id)
unfolding evaluate count_prefetch_hit
evaluate-IsEvaluated rc c id (inl (inl e)) =
    rw e (record { frame = refl; counted = inl (inl refl, refl, refl) })
evaluate-IsEvaluated rc c id (inl (inr e)) = rw e (
    let counted : Cache = record c { prefetcher_hit = inc64 c.prefetcher_hit } in
    elim (Bool-cases (is_tagged c.next_line)) [
      | inl on ↦ rw on (
          AllOk-then (λ c'. IsPrefetch counted c') _ (prefetch_next counted id) add_hit
            (prefetch_next-IsPrefetch counted id) (λ c' p. ground arith))
      | inr off ↦ rw off (record { frame = refl; counted = inl (inr refl, refl, refl) })
    ])
evaluate-IsEvaluated rc c id (inr (inl e)) = rw e (
    AllOk-mono (λ c'. IsMissCounted c c') _ _ (λ c' p. ground arith)
      (count_miss-IsMissCounted c id))
evaluate-IsEvaluated rc c id (inr (inr e)) =
    let evicted : Cache = record c { prefetcher_evict = inc64 c.prefetcher_evict } in
    rw e (
      AllOk-mono (λ c'. IsMissCounted evicted c') _ _ (λ c' p. ground arith)
        (count_miss-IsMissCounted evicted id))

-- The result of an access: a hit, a miss, or a miss that is a set conflict.
pub data Outcomes (rc : ℕ) (c c' : Cache) : Type 0 where
  is_hit :
      IsHit rc
      → c'.hit ≡ inc64 c.hit
      → c'.miss ≡ c.miss
      → c'.conflict ≡ c.conflict
      → Outcomes rc c c'
  is_miss :
      IsMiss rc
      → c'.hit ≡ c.hit
      → c'.miss ≡ inc64 c.miss
      → c'.conflict ≡ c.conflict
      → Outcomes rc c c'
  is_conflict :
      rc ≡ l1_miss + l1_miss_conflict
      → c'.hit ≡ c.hit
      → c'.miss ≡ inc64 c.miss
      → c'.conflict ≡ inc64 c.conflict
      → Outcomes rc c c'

pub record IsCounted (rc : ℕ) (c c' : Cache) : Type 0 where
  pub frame : c' ≡ record c {
    area = c'.area;
    reuse_data = c'.reuse_data;
    access = inc64 c.access;
    hit = c'.hit;
    miss = c'.miss;
    conflict = c'.conflict;
    prefetcher_next_line = c'.prefetcher_next_line;
    prefetcher_hit = c'.prefetcher_hit;
    prefetcher_evict = c'.prefetcher_evict;
  }
  pub outcome : Outcomes rc c c'

-- The update of the reuse list changes nothing but the list.
pub reuse_fn_call-frame :
    (allocated : Bool) (f : Option ReuseFn) (c : Cache) (id : ℕ)
    → AllOk
        (λ (r : ℕ × Cache). r.1 ≡ record c { reuse_data = r.1.reuse_data })
        (reuse_fn_call allocated f c id)
unfolding reuse_fn_call cache_sim_reuse_limited cache_sim_reuse_unlimited
reuse_fn_call-frame allocated none c id = tt
reuse_fn_call-frame allocated (some reuse_limited) c id =
    AllOk-bind _ (items_of c.reuse_data) _
      (λ items. AllOk-bind _ (limited_end id (walk items id)) _ (λ items'. refl))
reuse_fn_call-frame allocated (some reuse_unlimited) c id =
    AllOk-bind _ (items_of c.reuse_data) _ (λ items. refl)
