-- ===== src/CacheSim/Lru/Access.antt =====
-- `policy_lru_access` on one set (lib/cache_sim/cache_policy_lru.c): hits, misses, and the set's
-- invariant.
use perfexpert.Prelude.{
  ℕ, zero, suc, ◌+◌, ◌≤◌, ◌<◌, ◌≡◌, ◌≢◌, refl, ◌⊎◌, inl, inr, List, length, set, length-set,
  get_or-set_self, get_or-set_ne, arith, Bool-cases, ◌==◌, ==_iff, if◌then◌else◌,
}
use perfexpert.CacheSim.Types.{LruLine, ok, load_prefetch, uint64_max}
use perfexpert.CacheSim.Lru.{unused_line, loaded, access_lines}
use perfexpert.CacheSim.Lru.Loop.{line_at, scan-Ends}
use perfexpert.CacheSim.Lru.Sets.{
  id_at, IsWays, IsVictim, hit_code, touched, miss_code, resident_end, absent_end,
}

module _ {lines : List LruLine} (base ways : ℕ) (w : IsWays lines base (base + ways)) where
  module _ (id load now : ℕ) where
    -- In a well-formed set, an access to a line that the set holds, whose id is not UINT64_MAX,
    -- returns a hit, marked as a prefetch hit if the line was prefetched, gives the line the
    -- present age and resets its load reason.
    pub access_lines-resident :
        (i : ℕ)
        → id ≢ uint64_max
        → base ≤ i
        → i < base + ways
        → id_at lines i ≡ id
        → access_lines lines base ways id load now
          ≡ ok (hit_code (line_at lines i), set lines i (touched (line_at lines i) now))
    unfolding access_lines
    access_lines-resident i named lo hi e =
        resident_end w id load now i named lo hi e
          (scan-Ends lines id ways base base (base + ways) refl w.fits (omega (arith, w.fits)))

    -- In a well-formed set of at least one way, an access to a line that the set does not hold
    -- loads it over the first free way, or, in a full set, over a way whose last use is the
    -- oldest; the code says whether an unused prefetched line was evicted.
    pub access_lines-absent :
        0 < ways
        → ((j : ℕ) → base ≤ j → j < base + ways → id_at lines j ≢ id)
        → (k : ℕ) × IsVictim lines base (base + ways) k
          × (access_lines lines base ways id load now
              ≡ ok (miss_code (line_at lines k), set lines k (loaded id load now)))
    unfolding access_lines
    access_lines-absent some away =
        absent_end w id load now (omega arith) away
          (scan-Ends lines id ways base base (base + ways) refl w.fits (omega (arith, w.fits)))

pub line_at-set :
    (lines : List LruLine) (k j : ℕ) (v : LruLine)
    → k < length lines
    → line_at (set lines k v) j ≡ (if j == k then v else line_at lines j)
line_at-set lines k j v h = elim (Bool-cases (j == k)) [
  | inl e ↦ rw (e, (==_iff j k).0 e) (get_or-set_self lines k v unused_line h)
  | inr e ↦ rw e (get_or-set_ne lines k j v unused_line (ground arith))
]

module _ {lines : List LruLine} {base top : ℕ} (w : IsWays lines base top) where
  -- Writing a line of the same id keeps the invariant.
  IsWays-set_same :
      (k : ℕ) (v : LruLine)
      → k < length lines
      → v.line_id ≡ id_at lines k
      → IsWays (set lines k v) base top
  IsWays-set_same k v h e = record {
    fits = omega (arith, length-set lines k v, w.fits);
    free_last = λ i j p q r.
        ground (arith, line_at-set lines k i v h, line_at-set lines k j v h, w.free_last i j p q r);
    distinct = λ i j p q r.
        ground (arith, line_at-set lines k i v h, line_at-set lines k j v h, w.distinct i j p q r);
  }

  -- So does any change outside the set.
  pub IsWays-agree :
      (lines' : List LruLine)
      → length lines' ≡ length lines
      → ((j : ℕ) → base ≤ j → j < top → line_at lines' j ≡ line_at lines j)
      → IsWays lines' base top
  IsWays-agree lines' same agree = record {
    fits = omega (arith, w.fits);
    free_last = λ i j p q r. ground (arith, agree i p, agree j, w.free_last i j p q r);
    distinct = λ i j p q r. ground (arith, agree i p, agree j, w.distinct i j p q r);
  }

  -- So does loading an absent line over a victim.
  IsWays-set_victim :
      (k : ℕ) (v : LruLine)
      → IsVictim lines base top k
      → v.line_id ≢ uint64_max
      → ((j : ℕ) → base ≤ j → j < top → id_at lines j ≢ v.line_id)
      → IsWays (set lines k v) base top
  IsWays-set_victim k v chosen named away =
      let record { from_base = lo; in_set = hi; choice = first_or_full } = chosen in
      let h : k < length lines = omega (arith, w.fits) in
      record {
        fits = omega (arith, length-set lines k v, w.fits);
        free_last = λ i j p q r. elim first_or_full [
          | inl (free, first) ↦ ground (
            arith,
            line_at-set lines k i v h,
            line_at-set lines k j v h,
            w.free_last i j p q r,
            first i p,
          )
          | inr full ↦
              ground (arith, line_at-set lines k i v h, line_at-set lines k j v h, full i p)
        ];
        distinct = λ i j p q r. ground (
          arith,
          line_at-set lines k i v h,
          line_at-set lines k j v h,
          w.distinct i j p q r,
          away i p,
          away j,
        );
      }

-- What an access to a set leaves behind: the line is resident with a fresh age, and not marked as
-- prefetched if the access was a demand; the set keeps its invariant, and the lines outside the set are as before.
pub record IsAccessed (lines lines' : List LruLine) (base top id load now : ℕ) : Type 0 where
  pub ways : IsWays lines' base top
  pub at : ℕ
  pub from_base : base ≤ at
  pub in_set : at < top
  pub resident : id_at lines' at ≡ id
  pub fresh : (line_at lines' at).age ≡ now
  pub demanded : load ≢ load_prefetch → (line_at lines' at).load ≢ load_prefetch
  pub same_length : length lines' ≡ length lines
  pub others : (j : ℕ) → j ≢ at → line_at lines' j ≡ line_at lines j

module _ {lines : List LruLine} (base ways id load now : ℕ) where
  accessed_hit :
      (i : ℕ)
      → IsWays lines base (base + ways)
      → base ≤ i
      → i < base + ways
      → id_at lines i ≡ id
      → IsAccessed lines
          (set lines i (touched (line_at lines i) now))
          base
          (base + ways)
          id
          load
          now
  accessed_hit i w lo hi e =
      let h : i < length lines = omega (arith, w.fits) in
      let v = touched (line_at lines i) now in
      record {
        ways = IsWays-set_same w i v h (ground arith);
        at = i;
        from_base = lo;
        in_set = hi;
        resident = ground (arith, line_at-set lines i i v h);
        fresh = ground (arith, line_at-set lines i i v h);
        demanded = λ d. ground (arith, line_at-set lines i i v h);
        same_length = length-set lines i v;
        others = λ j ne. get_or-set_ne lines i j v unused_line (ground arith);
      }

  accessed_miss :
      (k : ℕ)
      → IsWays lines base (base + ways)
      → IsVictim lines base (base + ways) k
      → id ≢ uint64_max
      → ((j : ℕ) → base ≤ j → j < base + ways → id_at lines j ≢ id)
      → IsAccessed lines (set lines k (loaded id load now)) base (base + ways) id load now
  accessed_miss k w chosen named away =
      let h : k < length lines = omega (arith, w.fits, chosen.in_set) in
      let v = loaded id load now in
      record {
        ways = IsWays-set_victim w k v chosen named away;
        at = k;
        from_base = chosen.from_base;
        in_set = chosen.in_set;
        resident = ground (arith, line_at-set lines k k v h);
        fresh = ground (arith, line_at-set lines k k v h);
        demanded = λ d. ground (arith, line_at-set lines k k v h);
        same_length = length-set lines k v;
        others = λ j ne. get_or-set_ne lines k j v unused_line (ground arith);
      }

-- Whether a line is resident can be decided.
find_way :
    (lines : List LruLine) (id base ways : ℕ)
    → ((i : ℕ) × (base ≤ i) × (i < base + ways) × (id_at lines i ≡ id))
      ⊎ ((j : ℕ) → base ≤ j → j < base + ways → id_at lines j ≢ id)
find_way lines id base zero = inr (λ j p q. absurd (omega arith))
find_way lines id base (suc ways) = elim (find_way lines id base ways) [
  | inl (i, lo, hi, e) ↦ inl (i, lo, omega arith, e)
  | inr away ↦ elim (Bool-cases (id_at lines (base + ways) == id)) [
    | inl here ↦ inl (base + ways, omega arith, omega arith, ground arith)
    | inr other ↦ inr (λ j p q. elim (Bool-cases (j == base + ways)) [
      | inl last ↦ ground arith
      | inr before ↦ away j p (ground arith)
    ])
  ]
]

-- Every access to a set returns, and leaves the set as described.
pub access_lines-IsAccessed :
    {lines : List LruLine} (base ways id load now : ℕ)
    → IsWays lines base (base + ways)
    → 0 < ways
    → id ≢ uint64_max
    → (code : ℕ) × (lines' : List LruLine) × (access_lines lines base ways id load now
        ≡ ok (code, lines'))
      × IsAccessed lines lines' base (base + ways) id load now
access_lines-IsAccessed {lines} base ways id load now w some named =
    elim (find_way lines id base ways) [
      | inl (i, lo, hi, e) ↦ (
        _,
        _,
        access_lines-resident base ways w id load now i named lo hi e,
        accessed_hit base ways id load now i w lo hi e,
      )
      | inr away ↦
          let (k, chosen, e) = access_lines-absent base ways w id load now some away in
          (_, _, e, accessed_miss base ways id load now k w chosen named away)
    ]
