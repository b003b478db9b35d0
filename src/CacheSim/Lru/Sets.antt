-- ===== src/CacheSim/Lru/Sets.antt =====
-- The sets of the LRU policy (lib/cache_sim/cache_policy_lru.c): their invariant, what an access
-- does when the line is resident and when it is absent, and what it leaves alone.
use perfexpert.Prelude.{
  ℕ, ◌+◌, ◌≤◌, ◌<◌, ◌≡◌, ◌≢◌, ◌⊎◌, inl, inr, List, ◌==◌, if◌then◌else◌, length, set,
  get_elem?-eq-get_or, arith,
}
use perfexpert.CacheSim.Types.{
  LruLine, Outcome, ok, ◌>>=◌, l1_hit, l1_hit_prefetch, l1_miss, l1_prefetch_evict, load_access,
  load_prefetch, uint64_max,
}
use perfexpert.CacheSim.Lru.{unused_line, Scan, found, victim, finish, loaded}
use perfexpert.CacheSim.Lru.Loop.{line_at, Ends, is_found, is_free, is_oldest}

abbrev pub id_at : List LruLine → ℕ → ℕ
id_at lines i = (line_at lines i).line_id

-- The ways from `base` up to `top` form a set: the free ways come last, and no line is held twice.
pub record IsWays (lines : List LruLine) (base top : ℕ) : Type 0 where
  pub fits : top ≤ length lines
  pub free_last :
      (i j : ℕ)
      → base ≤ i
      → i < j
      → j < top
      → id_at lines i ≡ uint64_max
      → id_at lines j ≡ uint64_max
  pub distinct :
      (i j : ℕ)
      → base ≤ i
      → i < j
      → j < top
      → id_at lines i ≡ id_at lines j
      → id_at lines i ≡ uint64_max

-- The code of a hit, and the line as a hit leaves it.
abbrev pub hit_code : LruLine → ℕ
hit_code way = if way.load == load_prefetch then l1_hit + l1_hit_prefetch else l1_hit

abbrev pub touched : LruLine → ℕ → LruLine
touched way now =
    if way.load == load_prefetch
    then record way { age = now; load = load_access }
    else record way { age = now }

abbrev pub miss_code : LruLine → ℕ
miss_code way = if way.load == load_prefetch then l1_miss + l1_prefetch_evict else l1_miss

module _ (lines : List LruLine) (id load now : ℕ) where
  finish-found :
      (i : ℕ)
      → i < length lines
      → finish lines id load now (found i)
        ≡ ok (hit_code (line_at lines i), set lines i (touched (line_at lines i) now))
  unfolding finish
  finish-found i h = rw (get_elem?-eq-get_or lines i unused_line h) (ground arith)

  finish-victim :
      (i : ℕ)
      → i < length lines
      → finish lines id load now (victim i)
        ≡ ok (miss_code (line_at lines i), set lines i (loaded id load now))
  unfolding finish
  finish-victim i h = rw (get_elem?-eq-get_or lines i unused_line h) (ground arith)

-- The way that a miss loads: the first free one, or one whose last use is the oldest of a full set.
pub record IsVictim (lines : List LruLine) (base top k : ℕ) : Type 0 where
  pub from_base : base ≤ k
  pub in_set : k < top
  pub choice :
      ((id_at lines k ≡ uint64_max) × ((j : ℕ) → base ≤ j → j < k → id_at lines j ≢ uint64_max))
      ⊎ ((j : ℕ)
          → base ≤ j
          → j < top
          → (id_at lines j ≢ uint64_max) × ((line_at lines k).age ≤ (line_at lines j).age))

module _ {lines : List LruLine} {base top : ℕ} (w : IsWays lines base top) (id load now : ℕ) where
  pub resident_end :
      {r : Outcome Scan} (i : ℕ)
      → id ≢ uint64_max
      → base ≤ i
      → i < top
      → id_at lines i ≡ id
      → Ends lines id base top base r
      → (r >>= finish lines id load now)
        ≡ ok (hit_code (line_at lines i), set lines i (touched (line_at lines i) now))
  resident_end i named lo hi e (is_found k lo' hi' e' others) =
      let same : k ≡ i = ground (arith, w.distinct k i lo', w.distinct i k lo) in
      rw same (finish-found lines id load now i (omega (arith, w.fits)))
  resident_end i named lo hi e (is_free k lo' hi' e' others) =
      absurd (ground (arith, w.free_last k i, others i))
  resident_end i named lo hi e (is_oldest k from le all others) = absurd (ground (arith, others i))

  pub absent_end :
      {r : Outcome Scan}
      → base < top
      → ((j : ℕ) → base ≤ j → j < top → id_at lines j ≢ id)
      → Ends lines id base top base r
      → (k : ℕ) × IsVictim lines base top k
        × ((r >>= finish lines id load now)
            ≡ ok (miss_code (line_at lines k), set lines k (loaded id load now)))
  absent_end room away (is_found k lo hi e others) = absurd (away k lo hi e)
  absent_end room away (is_free k lo hi e others) = (
    k,
    record { from_base = lo; in_set = hi; choice = inl (e, λ j p q. (others j p q).1) },
    finish-victim lines id load now k (omega (arith, w.fits)),
  )
  absent_end room away (is_oldest k from le all others) = (
    k,
    record {
      from_base = ground arith;
      in_set = ground arith;
      choice = inr (λ j p q. ((others j p q).1, all j p q));
    },
    finish-victim lines id load now k (ground (arith, w.fits)),
  )
