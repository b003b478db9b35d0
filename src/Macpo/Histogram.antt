-- ===== src/Macpo/Histogram.antt =====
-- tools/macpo/common/histogram.h: counts for bins, and such histograms for threads, functions and lines.
-- A std::map is a list with its keys in increasing order; keys are not negative.
use perfexpert.Prelude.{ℕ, ◌==◌, ltb, if◌then◌else◌, Option, none, some, List, [], ◌∷◌, ◌++◌}

-- `map.find(key)`
unfoldable pub find {ℓ} : {V : Type ℓ} → ℕ → List (ℕ × V) → Option V
find k [] = none
find k ((j, v) ∷ l) = if j == k then some v else find k l

unfoldable pub replaced {ℓ} : {V : Type ℓ} → ℕ → V → List (ℕ × V) → List (ℕ × V)
replaced k w [] = []
replaced k w ((j, v) ∷ l) = if j == k then (j, w) ∷ l else (j, v) ∷ replaced k w l

unfoldable pub inserted {ℓ} : {V : Type ℓ} → ℕ → V → List (ℕ × V) → List (ℕ × V)
inserted k w [] = (k, w) ∷ []
inserted k w ((j, v) ∷ l) = if ltb k j then (k, w) ∷ (j, v) ∷ l else (j, v) ∷ inserted k w l

-- `map[key] = value`
unfoldable pub assign {ℓ} : {V : Type ℓ} → ℕ → V → List (ℕ × V) → List (ℕ × V)
assign k w l = elim (find k l) [ none ↦ inserted k w l | some v ↦ replaced k w l ]

-- The class `histogram_t`, whose values have a zero and an addition.
module _ {V : Type 0} (zero_value : V) where
  unfoldable pub get_bin : List (ℕ × V) → (bin : ℕ) → V
  get_bin hist bin = elim (find bin hist) [ none ↦ zero_value | some v ↦ v ]

  unfoldable pub set_bin : List (ℕ × V) → (bin : ℕ) → V → List (ℕ × V)
  set_bin hist bin v = assign bin v hist

  unfoldable pub increment_bin : (V → V → V) → List (ℕ × V) → (bin : ℕ) → V → List (ℕ × V) × V
  increment_bin add hist bin v = let sum = add (get_bin hist bin) v in (assign bin sum hist, sum)

-- The maps of a `multigram_t`: histograms for lines, for functions, and for threads.
abbrev pub Hist : Type 0 → Type 0
Hist V = List (ℕ × V)

abbrev pub Lines : Type 0 → Type 0
Lines V = List (ℕ × Hist V)

abbrev pub Functions : Type 0 → Type 0
Functions V = List (ℕ × Lines V)

abbrev pub Multigram : Type 0 → Type 0
Multigram V = List (ℕ × Functions V)

-- The keys of a histogram.
pub record HistId : Type 0 where
  pub thread_id : ℕ
  pub line_number : ℕ
  pub function_address : ℕ

abbrev pub or_empty {ℓ} : {A : Type ℓ} → Option (List A) → List A
or_empty none = []
or_empty (some l) = l

module _ {V : Type 0} where
  -- The histogram that `map_into_histogram` finds or makes.
  unfoldable pub map_into_histogram : Multigram V → HistId → Hist V
  map_into_histogram m id =
      or_empty
        (find id.line_number (or_empty (find id.function_address (or_empty (find id.thread_id m)))))

  -- The maps with this histogram in its place, made where it was missing.
  unfoldable pub with_histogram : Multigram V → HistId → Hist V → Multigram V
  with_histogram m id hist =
      let functions = or_empty (find id.thread_id m) in
      let lines = or_empty (find id.function_address functions) in
      assign id.thread_id (assign id.function_address (assign id.line_number hist lines) functions)
        m

module _ {V : Type 0} (zero_value : V) where
  -- Reading makes the histogram, too.
  unfoldable pub get : Multigram V → HistId → (bin : ℕ) → Multigram V × V
  get m id bin =
      let hist = map_into_histogram m id in (with_histogram m id hist, get_bin zero_value hist bin)

  unfoldable pub set : Multigram V → HistId → (bin : ℕ) → V → Multigram V
  set m id bin v =
      let hist = map_into_histogram m id in with_histogram m id (set_bin zero_value hist bin v)

  unfoldable pub increment : (V → V → V) → Multigram V → HistId → (bin : ℕ) → V → Multigram V × V
  increment add m id bin v =
      let incremented = increment_bin zero_value add (map_into_histogram m id) bin v in
      (with_histogram m id incremented.0, incremented.1)

-- The three loops of `get_all_histograms`.
module _ {V : Type 0} where
  unfoldable pub all_lines : (thread function : ℕ) → Lines V → List (HistId × Hist V)
  all_lines thread function [] = []
  all_lines thread function ((line, hist) ∷ rest) =
      (record { thread_id = thread; line_number = line; function_address = function }, hist)
      ∷ all_lines thread function rest

  unfoldable pub all_functions : (thread : ℕ) → Functions V → List (HistId × Hist V)
  all_functions thread [] = []
  all_functions thread ((function, lines) ∷ rest) =
      all_lines thread function lines ++ all_functions thread rest

  unfoldable pub get_all_histograms : Multigram V → List (HistId × Hist V)
  get_all_histograms [] = []
  get_all_histograms ((thread, functions) ∷ rest) =
      all_functions thread functions ++ get_all_histograms rest
