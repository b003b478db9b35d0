-- ===== src/Macpo/Seen.antt =====
-- What the analysis of set conflicts (tools/macpo/analyze/set_cache_conflict_analysis.cpp) should find,
-- from the order of last use in each set.
use perfexpert.Prelude.{ℕ, ◌+◌, ◌<◌, ◌==◌, if◌then◌else◌, ◌&&◌, List, [], ◌∷◌, length}
use perfexpert.CacheSim.Types.{inc64}
use perfexpert.CacheSim.Reuse.Recency.{touch, index}
use perfexpert.Macpo.Words.{addr_to_cache_line}
use perfexpert.Macpo.Record.{MemInfo}
use perfexpert.Macpo.Conflict.{
  address_to_set, Conflict, CacheStats, no_stats, Verdict, counted, with_conflict,
}
use perfexpert.Macpo.Verdict.{verdict_of}

-- What should be known after some accesses: the lines of each set of each core, the one used last
-- first, the conflicts of each core, and the counters.
pub record Seen : Type 0 where
  pub lines : ℕ → ℕ → List ℕ
  pub conflicts : ℕ → List Conflict
  pub stats : CacheStats

abbrev pub nothing_seen : Seen
nothing_seen = record { lines = λ core s. []; conflicts = λ core. []; stats = no_stats }

abbrev pub at_set : (core s : ℕ) → List ℕ → (ℕ → ℕ → List ℕ) → ℕ → ℕ → List ℕ
at_set core s l f c t = if c == core && t == s then l else f c t

abbrev pub at_core : (core : ℕ) → List Conflict → (ℕ → List Conflict) → ℕ → List Conflict
at_core core l f c = if c == core then l else f c

abbrev pub verdict_for : (l1_cache_lines : ℕ) → MemInfo → Seen → Verdict
verdict_for lines info s =
    verdict_of lines
      (index (addr_to_cache_line info.address) (s.lines info.core_id (address_to_set info.address)))

unfoldable pub see : (l1_cache_lines : ℕ) → MemInfo → Seen → Seen
see lines info s =
    let line = addr_to_cache_line info.address in
    let set_id = address_to_set info.address in
    let verdict = verdict_for lines info s in
    let stats = s.stats in
    record {
      lines = at_set info.core_id set_id (touch line (s.lines info.core_id set_id)) s.lines;
      conflicts =
          at_core info.core_id
            (with_conflict verdict (set_id, info.var_idx) (s.conflicts info.core_id)) s.conflicts;
      stats = counted verdict (record stats { addr_accesses = inc64 stats.addr_accesses });
    }

unfoldable pub see_list : (l1_cache_lines : ℕ) → List MemInfo → Seen → Seen
see_list lines [] s = s
see_list lines (info ∷ rest) s = see_list lines rest (see lines info s)

unfoldable pub see_bucket : (l1_cache_lines : ℕ) → List (List MemInfo) → Seen → Seen
see_bucket lines [] s = s
see_bucket lines (list ∷ rest) s = see_bucket lines rest (see_list lines list s)

-- The cores of all accesses, and their number.
abbrev pub AreOnCores : (num_cores : ℕ) → List MemInfo → Type 0
AreOnCores num_cores [] = Unit
AreOnCores num_cores (info ∷ rest) = (info.core_id < num_cores) × AreOnCores num_cores rest

abbrev pub AreAllOnCores : (num_cores : ℕ) → List (List MemInfo) → Type 0
AreAllOnCores num_cores [] = Unit
AreAllOnCores num_cores (list ∷ rest) = AreOnCores num_cores list × AreAllOnCores num_cores rest

abbrev pub total : List (List MemInfo) → ℕ
total [] = 0
total (list ∷ rest) = length list + total rest
