-- ===== src/Macpo/Sets.antt =====
-- The whole analysis of set conflicts (tools/macpo/analyze/set_cache_conflict_analysis.cpp), access by
-- access.
use perfexpert.Prelude.{ℕ, ◌<◌, ◌≤◌, ◌≡◌, some, List, get_elem?, set}
use perfexpert.CacheSim.Types.{inc64}
use perfexpert.Macpo.Words.{addr_to_cache_line}
use perfexpert.Macpo.ReuseDistance.{ReuseDistanceManager, get_distance, insert}
use perfexpert.Macpo.Window.{IsManager}
use perfexpert.Macpo.Record.{MemInfo}
use perfexpert.Macpo.Conflict.{associativity, address_to_set, counted, with_conflict, Analysis}
use perfexpert.Macpo.Seen.{Seen, verdict_for}

module _ (num_cores num_streams num_sets l1_cache_lines : ℕ) (low : associativity < l1_cache_lines)
    (high : l1_cache_lines ≤ 513) (sets : 64 ≤ num_sets) where
  -- The managers of one core, after at most `n` accesses.
  abbrev AreManagers : (n : ℕ) → List ReuseDistanceManager → (ℕ → List ℕ) → Type 0
  AreManagers n trees lines =
      (s : ℕ)
      → s < num_sets
      → (m : ReuseDistanceManager) × (get_elem? trees s ≡ some m) × IsManager n m (lines s)

  abbrev IsCore : (n core : ℕ) → Analysis → Seen → Type 0
  IsCore n core a s =
      (trees : List ReuseDistanceManager) × (get_elem? a.rd_trees_per_core core ≡ some trees)
      × (get_elem? a.set_conflicts_per_core core ≡ some (s.conflicts core))
      × AreManagers n trees (s.lines core)

  abbrev IsAnalyzed : (n : ℕ) → Analysis → Seen → Type 0
  IsAnalyzed n a s = ((core : ℕ) → core < num_cores → IsCore n core a s) × (a.cache_stats ≡ s.stats)

  -- The analysis after an access that is judged.
  abbrev after :
      MemInfo → Analysis → Seen → List ReuseDistanceManager → ReuseDistanceManager → Analysis
  after info a s trees m =
      let line = addr_to_cache_line info.address in
      let set_id = address_to_set info.address in
      let verdict = verdict_for l1_cache_lines info s in
      let stats = a.cache_stats in
      record {
        rd_trees_per_core =
            set a.rd_trees_per_core info.core_id
              (set trees set_id (insert (get_distance m line).1 line));
        set_conflicts_per_core =
            set a.set_conflicts_per_core info.core_id
              (with_conflict verdict (set_id, info.var_idx) (s.conflicts info.core_id));
        cache_stats = counted verdict (record stats { addr_accesses = inc64 stats.addr_accesses });
      }

-- What the analysis knows at the end: the counters, and the conflicts of each core.
abbrev pub IsReport : (num_cores : ℕ) → Analysis → Seen → Type 0
IsReport num_cores a s =
    (a.cache_stats ≡ s.stats)
    × ((core : ℕ)
        → core < num_cores
        → get_elem? a.set_conflicts_per_core core ≡ some (s.conflicts core))
