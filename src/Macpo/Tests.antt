-- ===== src/Macpo/Tests.antt =====
-- Small runs of MACPO, on which the theorems on tools/macpo are applied.
use perfexpert.Prelude.{
  ℕ, ◌+◌, ◌-◌, ◌*◌, ◌≤◌, ◌==◌, ◌&&◌, ◌||◌, ◌≡◌, refl, Bool, true, false, ltb, if◌then◌else◌, Option,
  none, some, List, [], ◌∷◌, map, take, arith,
}
use perfexpert.CacheSim.Reuse.Recency.{recency, index, touch}
use perfexpert.Macpo.Words.{addr_to_cache_line, store}
use perfexpert.Macpo.AvlTree
use perfexpert.Macpo.ReuseDistance
use perfexpert.Macpo.Stack
use perfexpert.Macpo.Stack.{insert_all-distance, as_distance}
use perfexpert.Macpo.Window
use perfexpert.Macpo.Window.{insert_all-IsDistance}
use perfexpert.Macpo.Counters.{IsDistance}
use perfexpert.Macpo.Record.{
  MemInfo, CacheData, Node, stream_info, mem_info, terminal, other_message, GlobalData, read_nodes,
  done,
}
use perfexpert.Macpo.Reading.{IsAnswer, read_nodes-IsAnswer}
use perfexpert.Macpo.Histogram.{
  HistId, Multigram, get, find, get_bin, map_into_histogram, set, increment,
}
use perfexpert.Macpo.Cells.{same_id, value, value_after_calls}
use perfexpert.Macpo.Runtime.{
  not_aligned, stride_unknown, record_threshold, max_streams, start, hist_of, admitted, nonempty,
  indigo__aligncheck_c, indigo__sstore_aligncheck_c, indigo__overlap_check_c,
}
use perfexpert.Macpo.Loops.{indigo__record_branch_c, Call, aligncheck, record_branch, calls, call}
use perfexpert.Macpo.Trace.{
  mem_info_of, Tracer, no_trace, awake_time, indigo__init_, Report, record_access, write_idx, alarm,
  reports,
}
use perfexpert.Macpo.Sampling.{IsTraced, read_nodes-reports}
use perfexpert.Macpo.Distances.{no_distances, measured, count_of, measured-number_of}
use perfexpert.Macpo.Latency.{Gsl, put, create_histogram_if_null, Totals, latency_analysis}
use perfexpert.Macpo.Sharing.{latency_analysis-tally_all}
use perfexpert.Macpo.Timers.{reports-timers}
use perfexpert.Macpo.Overlap.{some_meet, indigo__overlap_check_c-value}
use perfexpert.Macpo.Checks.{entered, calls-unaligned, calls-function_count}

abbrev addresses : List ℕ
addresses = 64 ∷ 130 ∷ 200 ∷ 70 ∷ []

insert_all-distance_example :
    AvlTree.get_distance 2 (Stack.insert_all [] addresses)
    ≡ as_distance (index 2 (recency [] (map addr_to_cache_line addresses)))
insert_all-distance_example = insert_all-distance addresses 2

insert_all-IsDistance_example :
    IsDistance
      (index 2 (recency [] (1 ∷ 2 ∷ 3 ∷ 1 ∷ [])))
      (ReuseDistance.get_distance (Window.insert_all ReuseDistance.new (1 ∷ 2 ∷ 3 ∷ 1 ∷ [])) 2).0
insert_all-IsDistance_example = insert_all-IsDistance (1 ∷ 2 ∷ 3 ∷ 1 ∷ []) 2 (omega arith)

abbrev l1 : CacheData
l1 = record { size = 32768; line_size = 64; associativity = 8; count = 1 }

abbrev access : ℕ → MemInfo
access at = record {
  core_id = 1;
  read_write = 1;
  line_number = 12;
  address = at;
  var_idx = 0;
  type_size = 8;
}

abbrev bucket : List (List MemInfo)
bucket = (access 4096 ∷ access 8192 ∷ access 4100 ∷ []) ∷ (access 64 ∷ []) ∷ []

abbrev nodes : List Node
nodes =
    stream_info "a" ∷ mem_info (access 64) ∷ terminal ∷ mem_info (access 128) ∷ other_message 9 ∷ []

abbrev no_data : GlobalData
no_data = record {
  l1_data = l1;
  l2_data = l1;
  l3_data = l1;
  stream_list = [];
  mem_info_bucket = [];
  trace_info_bucket = [];
  vector_stride_info_bucket = [];
}

read_nodes-IsAnswer_example : IsAnswer nodes nodes no_data (read_nodes nodes no_data)
read_nodes-IsAnswer_example = read_nodes-IsAnswer nodes no_data

abbrev place : HistId
place = hist_of 10 7

abbrev no_counts : Multigram ℕ
no_counts = []

value_after_calls_example :
    ((get {V = ℕ} 0 no_counts place 3).1 ≡ value {V = ℕ} 0 no_counts place 3)
    × (value {V = ℕ} 0 (get {V = ℕ} 0 no_counts place 3).0 place 3
        ≡ value {V = ℕ} 0 no_counts place 3)
    × (value {V = ℕ} 0 (set {V = ℕ} 0 no_counts place 3 5) place 3
        ≡ (if same_id place place && 3 == 3 then 5 else value {V = ℕ} 0 no_counts place 3))
    × ((increment {V = ℕ} 0 (λ a b. a + b) no_counts place 3 5).1
        ≡ value {V = ℕ} 0 no_counts place 3 + 5)
    × (value {V = ℕ} 0 (increment {V = ℕ} 0 (λ a b. a + b) no_counts place 3 5).0 place 3 ≡ (
        if same_id place place && 3 == 3
        then value {V = ℕ} 0 no_counts place 3 + 5
        else value {V = ℕ} 0 no_counts place 3))
value_after_calls_example = value_after_calls {V = ℕ} 0 (λ a b. a + b) no_counts place place 3 3 5

abbrev exceeds : ℕ → ℕ → Bool
exceeds a b = ltb (b * 85) (a * 100)

abbrev two_calls : List Call
two_calls = record_branch 10 7 5 20 0 ∷ aligncheck 5 7 (64 ∷ 128 ∷ []) ∷ []

calls-unaligned_example :
    ((indigo__aligncheck_c 5 7 (64 ∷ []) (calls exceeds two_calls start)).0 ≡ none)
    × ((indigo__sstore_aligncheck_c 5 7 (64 ∷ []) (calls exceeds two_calls start)).0 ≡ none)
    × (value 0 (calls exceeds two_calls start).align_hist (hist_of 5 7) 0 ≡ not_aligned)
    × (value 0 (calls exceeds two_calls start).stride_hist (hist_of 5 7) 0 ≡ stride_unknown)
calls-unaligned_example = calls-unaligned exceeds two_calls 5 7 (64 ∷ []) (hist_of 5 7)

calls-function_count_example : 2 ≤ record_threshold
unfolding calls call indigo__record_branch_c indigo__aligncheck_c admitted store get get_bin find
    map_into_histogram
calls-function_count_example = calls-function_count exceeds two_calls 7 2 refl

abbrev streams : List (ℕ × ℕ)
streams = (100, 200) ∷ (150, 300) ∷ []

indigo__overlap_check_c-value_example :
    value false (indigo__overlap_check_c 5 7 streams start).overlap_hist (hist_of 5 7) 0 ≡ (
      value false (entered 7 5 1 start).overlap_hist (hist_of 5 7) 0
      || (same_id (hist_of 5 7) (hist_of 5 7)
          && some_meet [] (nonempty (take max_streams streams))))
unfolding admitted
indigo__overlap_check_c-value_example =
    indigo__overlap_check_c-value 5 7 streams start (entered 7 5 1 start) (hist_of 5 7) refl

-- An access while the program is awake, one while it sleeps, and one after it woke up.
abbrev sampled : List Report
sampled =
    write_idx "a" 1
    ∷ record_access 1 1 12 64 0 8
    ∷ alarm
    ∷ record_access 1 1 12 128 0 8
    ∷ alarm
    ∷ record_access 1 2 13 192 0 8
    ∷ []

read_nodes-reports_example :
    (s : Tracer) × (indigo__init_ true true true (some "prog") no_trace ≡ some s)
    × ((file : List Node) × ((reports sampled s).file ≡ some file)
        × ((g : GlobalData) × (read_nodes file no_data ≡ done g) × IsTraced sampled no_data g))
read_nodes-reports_example = read_nodes-reports true (some "prog") sampled no_data

reports-timers_example :
    (s : Tracer) × (indigo__init_ true true true (some "prog") no_trace ≡ some s)
    × ((reports sampled s).timers ≡ awake_time ∷ (1, 0) ∷ awake_time ∷ [])
reports-timers_example = reports-timers true (some "prog") sampled (omega arith)

-- Two variables on one cache line, and a call while the program sleeps.
abbrev measurements : List (Bool × ℕ × ℕ)
measurements = (false, 0, 64) ∷ (false, 1, 128) ∷ (true, 0, 192) ∷ (false, 0, 72) ∷ []

measured-number_of_example : count_of (measured measurements no_distances) 0 1 ≡ 1
unfolding index touch
measured-number_of_example = measured-number_of measurements 0 1

-- Histograms as functions, where what is accumulated is taken away.
abbrev counters : Gsl
counters = record {
  Histogram = ℕ → ℕ;
  Double = ℕ;
  alloc = λ bins. some (λ bin. 0);
  bin_value = λ h bin. h bin;
  minus = λ x. x;
  accumulate = λ h bin x. put h bin (h bin - x);
  increment = λ h bin. put h bin (h bin + 1);
  add = λ h h2 bin. h bin + h2 bin;
}

counters_memory :
    (o : Option (ℕ → ℕ)) → (h : ℕ → ℕ) × (create_histogram_if_null counters 100 o ≡ some h)
unfolding create_histogram_if_null
counters_memory none = (_, refl)
counters_memory (some h) = (h, refl)

-- A core writes a line, another one does, and the first one again.
abbrev shared : List (List MemInfo)
shared =
    (mem_info_of 0 2 12 64 0 8 ∷ mem_info_of 1 2 12 72 0 8 ∷ mem_info_of 0 2 12 64 0 8 ∷ []) ∷ []

abbrev no_totals : Totals (ℕ → ℕ)
no_totals = record { rd_list = λ k. none; hit_list = λ j. 0; miss_list = λ j. 0 }

latency_analysis-tally_all_example :
    ((latency_analysis counters 100 2 1 shared no_totals).hit_list 0 ≡ 1)
    × ((latency_analysis counters 100 2 1 shared no_totals).miss_list 0 ≡ 1)
latency_analysis-tally_all_example =
    latency_analysis-tally_all counters 100 2 1 (omega arith) counters_memory shared no_totals 0
      (omega arith) (omega arith) (omega arith)
