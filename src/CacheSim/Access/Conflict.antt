-- ===== src/CacheSim/Access/Conflict.antt =====
-- Set conflicts (lib/cache_sim/cache_sim_access.c): a miss is a conflict exactly where a fully
-- associative cache of as many lines, with exact LRU replacement, would have held the line.
use perfexpert.Prelude.{
  ℕ, ◌+◌, ◌^◌, ◌<◌, ◌≡◌, ◌≢◌, Bool, true, false, Option, some, none, List, ltb, if◌then◌else◌,
  arith, ◌∙◌, ap,
}
use perfexpert.CacheSim.Types.{
  Cache, ok, ◌>>=◌, l1_miss, l1_miss_conflict, inc64, uint64_max, reuse_limited, live, ReuseItem,
}
use perfexpert.CacheSim.Reuse.{age_of, cache_sim_reuse_get_age, cache_sim_reuse_limited}
use perfexpert.CacheSim.Reuse.Recency.{index, touch}
use perfexpert.CacheSim.Reuse.Distance.{
  Tracks, reported, age_in_window, cache_sim_reuse_limited-Tracks,
}
use perfexpert.CacheSim.Access.{track_reuse, reuse_fn_call}

-- Whether a line at a distance lies within the last `total_lines` lines, and what a miss on it is.
abbrev pub is_near : (total_lines : ℕ) → Option ℕ → Bool
is_near total_lines none = false
is_near total_lines (some d) = ltb d total_lines

abbrev pub verdict : Bool → ℕ
verdict near = if near then l1_miss + l1_miss_conflict else l1_miss

-- The test in the code, on the age that is reported.
test_of_reported : (n : ℕ) (o : Option ℕ) → n < 2 ^ 16 → ltb (reported (n + 1) o) n ≡ is_near n o
test_of_reported n none h = ground arith
test_of_reported n (some d) h = ground arith

abbrev counted : Bool → Cache → Cache
counted near c = if near then record c { conflict = inc64 c.conflict } else c

-- What a cache tracks does not depend on its counters.
Tracks-counted :
    (n : ℕ) (near : Bool) (c : Cache) {l : List ℕ} → Tracks n c l → Tracks n (counted near c) l
Tracks-counted n true c t = record {
  items = t.items;
  held = t.held;
  aged = t.aged;
  count = t.count;
  window = t.window;
}
Tracks-counted n false c t = t

track_reuse_live :
    (allocated : Bool) (c : Cache) (items : List ReuseItem) (id : ℕ) (near : Bool)
    → c.reuse_data ≡ live items
    → c.reuse_fn ≡ some reuse_limited
    → ltb (age_of items id) c.total_lines ≡ near
    → track_reuse allocated l1_miss c id
      ≡ (cache_sim_reuse_limited (counted near c) id >>= λ r. ok (verdict near, r.1))
unfolding track_reuse reuse_fn_call cache_sim_reuse_get_age
track_reuse_live allocated c items id true held f e = rw (held, e, f)
track_reuse_live allocated c items id false held f e = rw (held, e, f)

-- With reuse distances limited to total_lines + 1 and fewer than 2^16 lines, a plain miss on a
-- line, whose id is not UINT64_MAX, is returned as a conflict exactly if the line was used
-- before and fewer than total_lines other lines since; the call returns, and the line is then
-- the first of the tracked lines.
pub track_reuse-verdict :
    (allocated : Bool) (c : Cache) (l : List ℕ) (id : ℕ)
    → Tracks (c.total_lines + 1) c l
    → c.reuse_fn ≡ some reuse_limited
    → c.total_lines < 2 ^ 16
    → id ≢ uint64_max
    → (c' : Cache) × (track_reuse allocated l1_miss c id
        ≡ ok (verdict (is_near c.total_lines (index id l)), c'))
      × Tracks (c.total_lines + 1) c' (touch id l)
track_reuse-verdict allocated c l id t f small named =
    let n = c.total_lines + 1 in
    let age : age_of t.items id ≡ reported n (index id l) =
      age_in_window n id l t.items named t.aged t.window in
    let test : ltb (age_of t.items id) c.total_lines ≡ is_near c.total_lines (index id l) =
      ap (λ (a : ℕ). ltb a c.total_lines) age ∙ test_of_reported c.total_lines (index id l) small in
    let near = is_near c.total_lines (index id l) in
    let (c', e, t') =
      cache_sim_reuse_limited-Tracks n {c = counted near c} id (omega arith)
        (Tracks-counted n near c t) in
    (c', track_reuse_live allocated c t.items id near t.held f test ∙ rw e, t')
