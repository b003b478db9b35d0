-- ===== src/Macpo/ReuseDistance.antt =====
-- tools/macpo/common/reuse_distance.h: counters from which the number of other cache lines that were
-- accessed since a line was is found.
use perfexpert.Prelude.{
  ℕ, ◌==◌, ltb, leb, if◌then◌else◌, Option, none, some, List, [], ◌∷◌, ◌++◌, length, drop,
}
use perfexpert.CacheSim.Types.{inc64}
use perfexpert.Macpo.Words.{
  no_distance, erase_found, to_int, widen, int_lt, int_inc, sub64, store, or_zero, indexed,
}

-- The class `reuse_distance_manager`.
pub record ReuseDistanceManager : Type 0 where
  pub cache_line_count_map : ℕ → Option ℕ
  pub already_accessed : ℕ → Option ℕ
  pub cache_set : List ℕ
  pub access_count : ℕ

unfoldable pub new : ReuseDistanceManager
new = record {
  cache_line_count_map = λ x. none;
  already_accessed = λ x. none;
  cache_set = [];
  access_count = 0;
}

-- The body of the loop over the map, for one entry.
unfoldable pub adjust_counter : (access_count previous count : ℕ) → Option ℕ
adjust_counter access_count previous count =
    if int_lt count previous
    then if leb 512 (sub64 access_count (widen (int_inc count))) then none else some (int_inc count)
    else some count

unfoldable pub adjust_other_counters :
    ReuseDistanceManager → (cache_line : ℕ) → ReuseDistanceManager
adjust_other_counters m line =
    let counts = indexed m.cache_line_count_map line in
    let previous = or_zero (m.cache_line_count_map line) in
    record m {
      cache_line_count_map =
          λ x. elim (counts x) [ none ↦ none | some c ↦ adjust_counter m.access_count previous c ];
    }

-- With the distance, since the test of `already_accessed` can make an entry.
unfoldable pub get_distance : ReuseDistanceManager → (cache_line : ℕ) → ℕ × ReuseDistanceManager
get_distance m line = elim (m.cache_line_count_map line) [
  | some c ↦ (sub64 m.access_count (widen c), m)
  | none ↦
      let m' = record m { already_accessed = indexed m.already_accessed line } in
      if or_zero (m.already_accessed line) == 1 then (513, m') else (no_distance, m')
]

unfoldable pub mark : ReuseDistanceManager → (cache_line : ℕ) → ReuseDistanceManager
mark m line = record m {
  already_accessed = store m.already_accessed line 1;
  cache_line_count_map = store m.cache_line_count_map line (to_int m.access_count);
}

unfoldable pub insert : ReuseDistanceManager → (cache_line : ℕ) → ReuseDistanceManager
insert m line =
    let found = get_distance m line in
    let adjusted = adjust_other_counters found.1 line in
    if found.0 == 0
    then mark found.1 line
    else mark (record adjusted { access_count = inc64 adjusted.access_count }) line

unfoldable pub cache_set_insert : ReuseDistanceManager → (cache_line : ℕ) → ReuseDistanceManager
cache_set_insert m line =
    let set = erase_found line m.cache_set ++ line ∷ [] in
    record m { cache_set = if ltb 8 (length set) then drop 1 set else set }
