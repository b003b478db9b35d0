-- ===== src/Macpo/Conflict.antt =====
-- tools/macpo/analyze/set_cache_conflict_analysis.cpp and its copy for running programs,
-- tools/macpo/libset/set_cache_conflict_lib.cpp: each access is judged by its reuse distance in its set.
-- A failed assertion ends the program, and is a fault here.
use perfexpert.Prelude.{
  ℕ, ◌-◌, ◌*◌, ◌/◌, ◌^◌, ◌==◌, ltb, leb, if◌then◌else◌, ◌&&◌, ◌||◌, bit_and, Option, none, some,
  List, [], ◌∷◌, ◌++◌, get_elem?, set, replicate,
}
use perfexpert.Outcome.{Outcome, ok, fault, ◌>>=◌, defined}
use perfexpert.CacheSim.Types.{inc64}
use perfexpert.Macpo.Words.{addr_to_cache_line, no_distance}
use perfexpert.Macpo.ReuseDistance.{ReuseDistanceManager, new, get_distance, insert}
use perfexpert.Macpo.Record.{MemInfo, CacheData}

-- `ASSOCIATIVITY`
abbrev pub associativity : ℕ
associativity = 8

-- `BIT_MASK(a, b)`: a shift of all bits of a `size_t`, and the complement of an `unsigned`.
abbrev pub bit_mask : (a b : ℕ) → ℕ
bit_mask a b = bit_and ((2 ^ 64 - 1) / 2 ^ (64 - b)) (2 ^ 32 - 1 - (2 ^ a - 1))

unfoldable pub address_to_set : ℕ → ℕ
address_to_set address = bit_and address (bit_mask 6 12) / 2 ^ 6

-- `conflict_t` is the number of a set and of a variable.
abbrev pub Conflict : Type 0
Conflict = ℕ × ℕ

pub record CacheStats : Type 0 where
  pub addr_accesses : ℕ
  pub addr_hits : ℕ
  pub addr_conflict_misses : ℕ
  pub addr_cold_misses : ℕ
  pub addr_capacity_misses : ℕ

abbrev pub no_stats : CacheStats
no_stats = record {
  addr_accesses = 0;
  addr_hits = 0;
  addr_conflict_misses = 0;
  addr_cold_misses = 0;
  addr_capacity_misses = 0;
}

-- The branches on the reuse distance, which is `-1` for a line that was never accessed.
pub data Verdict : Type 0 where
  hit conflict cold capacity : Verdict

unfoldable pub judge : (l1_cache_lines reuse_distance : ℕ) → Verdict
judge lines distance =
    if distance == no_distance
    then cold
    else if ltb associativity distance && ltb distance lines
    then conflict
    else if leb lines distance
    then capacity
    else hit

unfoldable pub counted : Verdict → CacheStats → CacheStats
counted hit s = record s { addr_hits = inc64 s.addr_hits }
counted conflict s = record s { addr_conflict_misses = inc64 s.addr_conflict_misses }
counted cold s = record s { addr_cold_misses = inc64 s.addr_cold_misses }
counted capacity s = record s { addr_capacity_misses = inc64 s.addr_capacity_misses }

unfoldable pub with_conflict : Verdict → Conflict → List Conflict → List Conflict
with_conflict conflict c conflicts = conflicts ++ c ∷ []
with_conflict _ c conflicts = conflicts

-- The managers of the sets of each core, the conflicts of each core, and the counters.
pub record Analysis : Type 0 where
  pub rd_trees_per_core : List (List ReuseDistanceManager)
  pub set_conflicts_per_core : List (List Conflict)
  pub cache_stats : CacheStats

-- The number of sets, and the managers; a size that is no `int` is not allocated.
unfoldable pub new_analysis : (num_cores : ℕ) → CacheData → Outcome Analysis
new_analysis num_cores l1 =
    let num_sets = l1.size / (l1.line_size * associativity) in
    if l1.line_size == 0 || (l1.size == 0 || leb (2 ^ 31) num_sets)
    then fault
    else ok (record {
      rd_trees_per_core = replicate num_cores (replicate num_sets new);
      set_conflicts_per_core = replicate num_cores [];
      cache_stats = no_stats;
    })

-- The distance of the line, its judgement, and the line inserted.
unfoldable pub judged :
    (l1_cache_lines core_id var_idx address : ℕ)
    → List ReuseDistanceManager
    → List Conflict
    → Analysis
    → Outcome Analysis
judged lines core var address trees conflicts a =
    let line = addr_to_cache_line address in
    let set_id = address_to_set address in
    defined (get_elem? trees set_id) >>= λ m.
    let found = get_distance m line in
    let verdict = judge lines found.0 in
    ok (record a {
      rd_trees_per_core = set a.rd_trees_per_core core (set trees set_id (insert found.1 line));
      set_conflicts_per_core =
          set a.set_conflicts_per_core core (with_conflict verdict (set_id, var) conflicts);
      cache_stats = counted verdict a.cache_stats;
    })

-- The body of the loop over the accesses.
unfoldable pub analyze_access :
    (num_cores num_streams l1_cache_lines : ℕ) → MemInfo → Analysis → Outcome Analysis
analyze_access num_cores num_streams lines info a =
    defined (get_elem? a.rd_trees_per_core info.core_id) >>= λ trees.
    defined (get_elem? a.set_conflicts_per_core info.core_id) >>= λ conflicts.
    let stats = a.cache_stats in
    let a1 = record a {
      cache_stats = record stats { addr_accesses = inc64 stats.addr_accesses };
    } in
    if ltb info.core_id num_cores || ltb info.var_idx num_streams
    then judged lines info.core_id info.var_idx info.address trees conflicts a1
    else ok a1

unfoldable pub analyze_list :
    (num_cores num_streams l1_cache_lines : ℕ) → List MemInfo → Analysis → Outcome Analysis
analyze_list num_cores num_streams lines [] a = ok a
analyze_list num_cores num_streams lines (info ∷ rest) a =
    analyze_access num_cores num_streams lines info a >>= λ a'.
    analyze_list num_cores num_streams lines rest a'

unfoldable pub analyze_bucket :
    (num_cores num_streams l1_cache_lines : ℕ) → List (List MemInfo) → Analysis → Outcome Analysis
analyze_bucket num_cores num_streams lines [] a = ok a
analyze_bucket num_cores num_streams lines (list ∷ rest) a =
    analyze_list num_cores num_streams lines list a >>= λ a'.
    analyze_bucket num_cores num_streams lines rest a'

unfoldable pub set_cache_conflict_analysis :
    (num_cores num_streams : ℕ) → CacheData → List (List MemInfo) → Outcome Analysis
set_cache_conflict_analysis num_cores num_streams l1 bucket = new_analysis num_cores l1 >>= λ a.
    analyze_bucket num_cores num_streams (l1.size / l1.line_size) bucket a

-- The copy for running programs makes the managers at the first access, and takes every access for one
-- of the core with the number one. `none` is its state before that.
unfoldable pub indigo__process_c :
    (num_cores : ℕ) → CacheData → (addr var_idx : ℕ) → Option Analysis → Outcome Analysis
indigo__process_c num_cores l1 addr var_idx state =
    elim state [ none ↦ new_analysis num_cores l1 | some a ↦ ok a ] >>= λ a.
    defined (get_elem? a.rd_trees_per_core 1) >>= λ trees.
    defined (get_elem? a.set_conflicts_per_core 1) >>= λ conflicts.
    let stats = a.cache_stats in
    judged (l1.size / l1.line_size) 1 var_idx addr trees conflicts
      (record a { cache_stats = record stats { addr_accesses = inc64 stats.addr_accesses } })
