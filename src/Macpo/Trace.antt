-- ===== src/Macpo/Trace.antt =====
-- tools/macpo/libmrt/mrt.cpp: what an instrumented program writes into its trace, and the signal that lets it
-- sleep and wake. A write to an open file is complete; the number of the core that a thread runs on, and what
-- the system answers, are arguments. Line numbers and numbers of variables are not negative.
use Prim.Native.String.{String}
use perfexpert.Prelude.{
  ℕ, ◌+◌, ◌*◌, ◌%◌, ◌^◌, ◌==◌, ltb, leb, if◌then◌else◌, Bool, true, false, ◌||◌, Option, none, some,
  List, [], ◌∷◌, ◌++◌, zero, suc,
}
use perfexpert.Macpo.Record.{
  MemInfo, TraceInfo, VectorStrideInfo, Node, terminal, stream_info, mem_info, metadata, trace_info,
  vector_stride_info,
}

-- The variables of the file that the trace uses. No file is a descriptor below zero; `timers` holds the
-- calls of setitimer, in seconds and microseconds.
pub record Tracer : Type 0 where
  pub file : Option (List Node)
  pub sleeping : Bool
  pub access_count : ℕ
  pub sleep_sec : ℕ
  pub new_sleep_sec : ℕ
  pub streams : List String
  pub timers : List (ℕ × ℕ)

abbrev pub no_trace : Tracer
no_trace = record {
  file = none;
  sleeping = false;
  access_count = 0;
  sleep_sec = 0;
  new_sleep_sec = 1;
  streams = [];
  timers = [];
}

-- `AWAKE_SEC` and `AWAKE_USEC`
abbrev pub awake_time : ℕ × ℕ
awake_time = (0, 711)

unfoldable pub written : Node → Tracer → Tracer
written node s = elim s.file [
  | none ↦ s
  | some nodes ↦ record s { file = some (nodes ++ node ∷ []) }
]

-- The test that three functions begin with, and the write that they end with.
unfoldable pub write_awake : Node → Tracer → Tracer
write_awake node s = if s.sleeping || leb 131072 s.access_count then s else written node s

-- The records, whose fields are narrower than the arguments.
abbrev pub mem_info_of : (core read_write line addr var_idx type_size : ℕ) → MemInfo
mem_info_of core rw line addr var size = record {
  core_id = core % 2 ^ 16;
  read_write = rw % 4;
  line_number = line;
  address = addr;
  var_idx = var;
  type_size = size;
}

abbrev pub trace_info_of : (core read_write line base addr var_idx : ℕ) → TraceInfo
trace_info_of core rw line from addr var = record {
  core_id = core % 2 ^ 16;
  read_write = rw % 4;
  line_number = line;
  base = from;
  address = addr;
  var_idx = var;
}

abbrev pub stride_info_of : (core loop_line var_idx addr type_size : ℕ) → VectorStrideInfo
stride_info_of core line var addr size = record {
  core_id = core % 2 ^ 16;
  loop_line_number = line;
  var_idx = var;
  address = addr;
  type_size = size;
}

unfoldable pub indigo__record_c :
    (core read_write line addr var_idx type_size : ℕ) → Tracer → Tracer
indigo__record_c core rw line addr var size =
    write_awake (mem_info (mem_info_of core rw line addr var size))

unfoldable pub indigo__gen_trace_c : (core read_write line base addr var_idx : ℕ) → Tracer → Tracer
indigo__gen_trace_c core rw line from addr var =
    write_awake (trace_info (trace_info_of core rw line from addr var))

unfoldable pub indigo__vector_stride_c :
    (core loop_line var_idx addr type_size : ℕ) → Tracer → Tracer
indigo__vector_stride_c core line var addr size =
    write_awake (vector_stride_info (stride_info_of core line var addr size))

-- `strncpy` of so many bytes, and a null byte behind them.
unfoldable pub truncated : ℕ → String → String
truncated zero name = String.[]
truncated (suc n) String.[] = String.[]
truncated (suc n) (String.◌∷◌ c name) = String.◌∷◌ c (truncated n name)

abbrev pub stored_name : String → (len : ℕ) → String
stored_name name len = truncated (if ltb 255 len then 255 else len) name

unfoldable pub indigo__write_idx_c : String → (len : ℕ) → Tracer → Tracer
indigo__write_idx_c name len s =
    let stored = stored_name name len in
    written (stream_info stored) (record s { streams = s.streams ++ stored ∷ [] })

-- `signalHandler`; a sum of two `int` keeps its 32 bits.
unfoldable pub signal_handler : Tracer → Tracer
signal_handler s =
    let woken = written terminal s in
    if s.sleeping
    then record woken { sleeping = false; timers = woken.timers ++ awake_time ∷ [] }
    else record s {
      sleeping = true;
      sleep_sec = s.new_sleep_sec;
      new_sleep_sec = (s.sleep_sec + s.new_sleep_sec) % 2 ^ 32;
      timers = s.timers ++ (s.new_sleep_sec, 0) ∷ [];
      access_count = 0;
    }

unfoldable pub set_timers : Tracer → Tracer
set_timers s =
    if s.sleep_sec == 0
    then record s { sleeping = false; timers = s.timers ++ awake_time ∷ [] }
    else record s { sleeping = true; timers = s.timers ++ (3 + s.sleep_sec * 4, 0) ∷ [] }

-- The name of the program, if the system tells it. `none` is the end of the program, if the file cannot
-- be opened.
unfoldable pub create_output_file :
    (opened : Bool) → (binary_name : Option String) → Tracer → Option Tracer
create_output_file opened binary s =
    let empty = record s { file = some [] } in
    if opened
    then some (elim binary [ none ↦ empty | some name ↦ written (metadata name) empty ])
    else none

unfoldable pub indigo__init_ :
    (create_file enable_sampling opened : Bool)
    → (binary_name : Option String) → Tracer
    → Option Tracer
indigo__init_ create_file sampling opened binary s =
    elim (if create_file then create_output_file opened binary s else some s) [
      | none ↦ none
      | some s' ↦ some (if sampling then set_timers s' else record s' { sleeping = false })
    ]

-- What happens to a program: calls of the runtime, and the signal of the timer.
pub data Report : Type 0 where
  record_access : (core read_write line addr var_idx type_size : ℕ) → Report
  gen_trace : (core read_write line base addr var_idx : ℕ) → Report
  vector_stride : (core loop_line var_idx addr type_size : ℕ) → Report
  write_idx : String → (len : ℕ) → Report
  alarm : Report

unfoldable pub report : Report → Tracer → Tracer
report (record_access core rw line addr var size) s = indigo__record_c core rw line addr var size s
report (gen_trace core rw line from addr var) s = indigo__gen_trace_c core rw line from addr var s
report (vector_stride core line var addr size) s = indigo__vector_stride_c core line var addr size s
report (write_idx name len) s = indigo__write_idx_c name len s
report alarm s = signal_handler s

unfoldable pub reports : List Report → Tracer → Tracer
reports [] s = s
reports (r ∷ rest) s = reports rest (report r s)
