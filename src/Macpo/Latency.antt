-- ===== src/Macpo/Latency.antt =====
-- tools/macpo/analyze/latency_analysis.cpp: reuse distances where a write takes a line away from the other
-- cores, and accesses to lines that another core owns. The lists of the bucket are taken one after the other,
-- and counts, which are `int`s, wrap at 2^32. The histograms of the GNU scientific library are a parameter.
use perfexpert.Prelude.{
  ℕ, zero, suc, ◌+◌, ◌-◌, ◌%◌, ◌^◌, ◌==◌, ltb, leb, not, ◌&&◌, ◌||◌, if◌then◌else◌, Bool, true,
  false, Option, none, some, List, [], ◌∷◌,
}
use perfexpert.Macpo.Words.{addr_to_cache_line, store}
use perfexpert.Macpo.AvlTree.{insert, get_distance, make_infinite_distance}
use perfexpert.Macpo.Record.{MemInfo, type_write, type_read_and_write}

-- `alloc` stands for gsl_histogram_alloc with uniform ranges, and may fail; `minus` is `-1.0 * x`.
pub record Gsl : Type 1 where
  pub Histogram : Type 0
  pub Double : Type 0
  pub alloc : (bins : ℕ) → Option Histogram
  pub bin_value : Histogram → (bin : ℕ) → Double
  pub minus : Double → Double
  pub accumulate : Histogram → (bin : ℕ) → Double → Histogram
  pub increment : Histogram → (bin : ℕ) → Histogram
  pub add : Histogram → Histogram → Histogram

-- The variables of one list: the trees of the cores, histograms for cores and streams, the owners of cache
-- lines, and the counts for streams.
pub record Local (H : Type 0) : Type 0 where
  pub tree_list : ℕ → List ℕ
  pub histogram_matrix : ℕ → ℕ → Option H
  pub cache_line_owner : ℕ → Option ℕ
  pub local_hit_list : ℕ → ℕ
  pub local_miss_list : ℕ → ℕ

abbrev pub fresh : {H : Type 0} → Local H
fresh = record {
  tree_list = λ i. [];
  histogram_matrix = λ i j. none;
  cache_line_owner = λ line. none;
  local_hit_list = λ j. 0;
  local_miss_list = λ j. 0;
}

abbrev pub is_write : (read_write : ℕ) → Bool
is_write rw = rw == type_write || rw == type_read_and_write

-- `v[i] = x`, and the same for a matrix.
abbrev pub put {ℓ} : {A : Type ℓ} → (ℕ → A) → ℕ → A → ℕ → A
put f i a j = if j == i then a else f j

abbrev pub put_at {ℓ} : {A : Type ℓ} → (ℕ → ℕ → A) → ℕ → ℕ → A → ℕ → ℕ → A
put_at f i j a k l = if k == i && l == j then a else f k l

-- `owner == core_id`, where the owner is a `short`, here its sixteen bits, and `core_id` has no sign.
abbrev pub same_core : (owner core : ℕ) → Bool
same_core owner core = ltb owner (2 ^ 15) && owner == core

-- The last statements of the loop: whether the line has an owner.
unfoldable pub count_owner : {H : Type 0} → (core var line read_write : ℕ) → Local H → Local H
count_owner core var line rw s = elim (s.cache_line_owner line) [
  | none ↦
      if is_write rw
      then record s { cache_line_owner = store s.cache_line_owner line (core % 2 ^ 16) }
      else s
  | some owner ↦
      if is_write rw && not (same_core owner core)
      then record s {
        local_miss_list = put s.local_miss_list var ((s.local_miss_list var + 1) % 2 ^ 32);
      }
      else record s {
        local_hit_list = put s.local_hit_list var ((s.local_hit_list var + 1) % 2 ^ 32);
      }
]

-- What the analysis adds up, for each stream.
pub record Totals (H : Type 0) : Type 0 where
  pub rd_list : ℕ → Option H
  pub hit_list : ℕ → ℕ
  pub miss_list : ℕ → ℕ

-- `for (i = from; i < from + n; i++)`
unfoldable pub for_each : {S : Type 0} → (from n : ℕ) → (ℕ → S → S) → S → S
for_each i zero f s = s
for_each i (suc n) f s = for_each (suc i) n f (f i s)

module _ (gsl : Gsl) (dist_infinity : ℕ) where
  unfoldable pub create_histogram_if_null : Option gsl.Histogram → Option gsl.Histogram
  create_histogram_if_null none = gsl.alloc dist_infinity
  create_histogram_if_null (some h) = some h

  -- The loop of `conflict`, which ends when there is no memory for a histogram.
  unfoldable pub conflict_loop :
      (core var line read_write from n : ℕ) → Local gsl.Histogram → Bool × Local gsl.Histogram
  conflict_loop core var line rw i zero s = (false, s)
  conflict_loop core var line rw i (suc n) s =
      let dist = get_distance line (s.tree_list i) in
      let s1 = record s {
        tree_list = put s.tree_list i (make_infinite_distance line (s.tree_list i));
      } in
      if is_write rw && (not (i == core) && ltb dist dist_infinity)
      then elim (create_histogram_if_null (s.histogram_matrix i var)) [
        | none ↦ (true, s1)
        | some h ↦
            let emptied = gsl.accumulate h dist (gsl.minus (gsl.bin_value h dist)) in
            let moved = gsl.increment emptied (dist_infinity - 1) in
            (
              true,
              (conflict_loop core var line rw (suc i) n (record s1 {
                histogram_matrix = put_at s.histogram_matrix i var (some moved);
              })).1,
            )
      ]
      else conflict_loop core var line rw (suc i) n s

  unfoldable pub calculate_distance :
      (num_cores core var line read_write : ℕ) → Local gsl.Histogram → ℕ × Local gsl.Histogram
  calculate_distance num_cores core var line rw s =
      let found = conflict_loop core var line rw 0 num_cores s in
      (if found.0 then dist_infinity else get_distance line (found.1.tree_list core), found.1)

  -- The body of the loop over the accesses; `none` goes to the end of the iteration.
  unfoldable pub latency_access :
      (num_cores num_streams : ℕ) → MemInfo → Local gsl.Histogram → Option (Local gsl.Histogram)
  latency_access num_cores num_streams info s =
      let line = addr_to_cache_line info.address in
      let core = info.core_id in
      let var = info.var_idx in
      let rw = info.read_write in
      if ltb core num_cores && ltb var num_streams
      then elim (create_histogram_if_null (s.histogram_matrix core var)) [
        | none ↦ none
        | some h ↦
            let (distance, s1) =
              calculate_distance num_cores core var line rw
                (record s { histogram_matrix = put_at s.histogram_matrix core var (some h) }) in
            let bin = if leb dist_infinity distance then dist_infinity - 1 else distance in
            some (
              count_owner core var line rw (record s1 {
                histogram_matrix = put_at s1.histogram_matrix core var (some (gsl.increment h bin));
                tree_list = put s1.tree_list core (insert info.address (s1.tree_list core));
              }))
      ]
      else some s

  unfoldable pub latency_list :
      (num_cores num_streams : ℕ)
      → List MemInfo
      → Local gsl.Histogram
      → Option (Local gsl.Histogram)
  latency_list num_cores num_streams [] s = some s
  latency_list num_cores num_streams (info ∷ rest) s =
      elim (latency_access num_cores num_streams info s) [
        | none ↦ none
        | some s' ↦ latency_list num_cores num_streams rest s'
      ]

  unfoldable pub add_histogram :
      Local gsl.Histogram → (core stream : ℕ) → Totals gsl.Histogram → Totals gsl.Histogram
  add_histogram s j k t = elim (s.histogram_matrix j k) [
    | none ↦ t
    | some h2 ↦ elim (create_histogram_if_null (t.rd_list k)) [
      | none ↦ t
      | some h ↦ record t { rd_list = put t.rd_list k (some (gsl.add h h2)) }
    ]
  ]

  unfoldable pub add_counts :
      (num_streams : ℕ) → Local gsl.Histogram → Totals gsl.Histogram → Totals gsl.Histogram
  add_counts num_streams s t = record t {
    hit_list = λ j.
        if ltb j num_streams then (t.hit_list j + s.local_hit_list j) % 2 ^ 32 else t.hit_list j;
    miss_list = λ j.
        if ltb j num_streams then (t.miss_list j + s.local_miss_list j) % 2 ^ 32 else t.miss_list j;
  }

  -- The loop over the lists, up to the final division.
  unfoldable pub latency_analysis :
      (num_cores num_streams : ℕ)
      → List (List MemInfo)
      → Totals gsl.Histogram
      → Totals gsl.Histogram
  latency_analysis num_cores num_streams [] t = t
  latency_analysis num_cores num_streams (list ∷ rest) t =
      latency_analysis num_cores num_streams rest
        (elim (latency_list num_cores num_streams list fresh) [
          | none ↦ t
          | some s ↦
              add_counts num_streams s
                (for_each 0 num_cores (λ j. for_each 0 num_streams (add_histogram s j)) t)
        ])
