-- ===== src/Macpo/Sampling.antt =====
-- The trace of tools/macpo/libmrt/mrt.cpp as tools/macpo/analyze/record_io.cpp reads it.
use Prim.Native.String.{String}
use perfexpert.Prelude.{
  ◌≡◌, ◌∙◌, refl, ap, if◌then◌else◌, if_both, leb, ◌||◌, Bool, true, false, not, Option, none, some,
  List, [], ◌∷◌, ◌++◌, append_assoc, append-nil, arith,
}
use perfexpert.Macpo.Record.{
  MemInfo, TraceInfo, VectorStrideInfo, Node, terminal, stream_info, mem_info, metadata, trace_info,
  vector_stride_info, other_message, GlobalData, ReadResult, done, err_unknown_msg, read_nodes,
}
use perfexpert.Macpo.Reading.{
  flat, names, accesses, traces, strides, IsRead, IsAnswer, read_nodes-IsAnswer,
}
use perfexpert.Macpo.Trace.{
  Tracer, no_trace, written, write_awake, mem_info_of, trace_info_of, stride_info_of,
  indigo__record_c, indigo__gen_trace_c, indigo__vector_stride_c, stored_name, indigo__write_idx_c,
  signal_handler, set_timers, create_output_file, indigo__init_, Report, record_access, gen_trace,
  vector_stride, write_idx, alarm, report, reports,
}

-- An alarm wakes a program that sleeps, and sends one to sleep that is awake.
abbrev pub after : (awake : Bool) → Report → Bool
after awake alarm = not awake
after awake (record_access core rw line addr var size) = awake
after awake (gen_trace core rw line from addr var) = awake
after awake (vector_stride core line var addr size) = awake
after awake (write_idx name len) = awake

-- What was reported while the program was awake.
abbrev pub if_awake : {A : Type 0} → (awake : Bool) → A → List A → List A
if_awake awake a rest = if awake then a ∷ rest else rest

abbrev pub recorded : (awake : Bool) → List Report → List MemInfo
recorded awake [] = []
recorded awake (record_access core rw line addr var size ∷ rest) =
    if_awake awake (mem_info_of core rw line addr var size) (recorded awake rest)
recorded awake (gen_trace core rw line from addr var ∷ rest) = recorded awake rest
recorded awake (vector_stride core line var addr size ∷ rest) = recorded awake rest
recorded awake (write_idx name len ∷ rest) = recorded awake rest
recorded awake (alarm ∷ rest) = recorded (not awake) rest

abbrev pub traced : (awake : Bool) → List Report → List TraceInfo
traced awake [] = []
traced awake (record_access core rw line addr var size ∷ rest) = traced awake rest
traced awake (gen_trace core rw line from addr var ∷ rest) =
    if_awake awake (trace_info_of core rw line from addr var) (traced awake rest)
traced awake (vector_stride core line var addr size ∷ rest) = traced awake rest
traced awake (write_idx name len ∷ rest) = traced awake rest
traced awake (alarm ∷ rest) = traced (not awake) rest

abbrev pub strided : (awake : Bool) → List Report → List VectorStrideInfo
strided awake [] = []
strided awake (record_access core rw line addr var size ∷ rest) = strided awake rest
strided awake (gen_trace core rw line from addr var ∷ rest) = strided awake rest
strided awake (vector_stride core line var addr size ∷ rest) =
    if_awake awake (stride_info_of core line var addr size) (strided awake rest)
strided awake (write_idx name len ∷ rest) = strided awake rest
strided awake (alarm ∷ rest) = strided (not awake) rest

-- The names of streams, whether the program was awake or not.
abbrev pub named : List Report → List String
named [] = []
named (write_idx name len ∷ rest) = stored_name name len ∷ named rest
named (r ∷ rest) = named rest

-- The messages that a report writes.
abbrev emission : (awake : Bool) → Report → List Node
emission awake (record_access core rw line addr var size) =
    if awake then mem_info (mem_info_of core rw line addr var size) ∷ [] else []
emission awake (gen_trace core rw line from addr var) =
    if awake then trace_info (trace_info_of core rw line from addr var) ∷ [] else []
emission awake (vector_stride core line var addr size) =
    if awake then vector_stride_info (stride_info_of core line var addr size) ∷ [] else []
emission awake (write_idx name len) = stream_info (stored_name name len) ∷ []
emission awake alarm = if awake then [] else terminal ∷ []

abbrev emitted : (awake : Bool) → List Report → List Node
emitted awake [] = []
emitted awake (r ∷ rest) = emission awake r ++ emitted (after awake r) rest

abbrev IsKnown : Node → Type 0
IsKnown (other_message kind) = ⊥
IsKnown _ = Unit

abbrev AreKnown : List Node → Type 0
AreKnown [] = Unit
AreKnown (node ∷ rest) = IsKnown node × AreKnown rest

-- The messages of each kind are those of the reports.
abbrev IsEmitted : (awake : Bool) → List Report → List Node → Type 0
IsEmitted awake rs nodes =
    AreKnown nodes
    × (names nodes ≡ named rs)
    × (accesses nodes ≡ recorded awake rs)
    × (traces nodes ≡ traced awake rs)
    × (strides nodes ≡ strided awake rs)

emitted-IsEmitted : (awake : Bool) (rs : List Report) → IsEmitted awake rs (emitted awake rs)
emitted-IsEmitted awake [] = (tt, refl, refl, refl, refl)
emitted-IsEmitted true (record_access core rw line addr var size ∷ rest) =
    let (k, n, a, t, s) = emitted-IsEmitted true rest in
    ((tt, k), n, ap (λ l. mem_info_of core rw line addr var size ∷ l) a, t, s)
emitted-IsEmitted true (gen_trace core rw line from addr var ∷ rest) =
    let (k, n, a, t, s) = emitted-IsEmitted true rest in
    ((tt, k), n, a, ap (λ l. trace_info_of core rw line from addr var ∷ l) t, s)
emitted-IsEmitted true (vector_stride core line var addr size ∷ rest) =
    let (k, n, a, t, s) = emitted-IsEmitted true rest in
    ((tt, k), n, a, t, ap (λ l. stride_info_of core line var addr size ∷ l) s)
emitted-IsEmitted awake (write_idx name len ∷ rest) =
    let (k, n, a, t, s) = emitted-IsEmitted awake rest in
    ((tt, k), ap (λ l. stored_name name len ∷ l) n, a, t, s)
emitted-IsEmitted false (record_access core rw line addr var size ∷ rest) =
    emitted-IsEmitted false rest
emitted-IsEmitted false (gen_trace core rw line from addr var ∷ rest) = emitted-IsEmitted false rest
emitted-IsEmitted false (vector_stride core line var addr size ∷ rest) =
    emitted-IsEmitted false rest
emitted-IsEmitted true (alarm ∷ rest) = emitted-IsEmitted false rest
emitted-IsEmitted false (alarm ∷ rest) =
    let (k, n, a, t, s) = emitted-IsEmitted true rest in ((tt, k), n, a, t, s)

-- The file is open, and nothing counts the accesses.
record IsOpen (awake : Bool) (nodes : List Node) (s : Tracer) : Type 0 where
  open_file : s.file ≡ some nodes
  is_awake : s.sleeping ≡ not awake
  no_count : s.access_count ≡ 0

written-IsOpen :
    (awake : Bool) (nodes : List Node) (node : Node) (s : Tracer)
    → IsOpen awake nodes s
    → IsOpen awake (nodes ++ node ∷ []) (written node s)
unfolding written
written-IsOpen awake nodes node s h =
    rw h.open_file (record { open_file = refl; is_awake = h.is_awake; no_count = h.no_count })

is_asleep :
    (awake : Bool) (nodes : List Node) (s : Tracer)
    → IsOpen awake nodes s
    → (s.sleeping || leb 131072 s.access_count) ≡ not awake
is_asleep true nodes s h = rw (h.is_awake, h.no_count) refl
is_asleep false nodes s h = rw h.is_awake refl

write_awake-IsOpen :
    (awake : Bool) (nodes : List Node) (node : Node) (s : Tracer)
    → IsOpen awake nodes s
    → IsOpen awake (nodes ++ (if awake then node ∷ [] else [])) (write_awake node s)
unfolding write_awake
write_awake-IsOpen true nodes node s h =
    rw (is_asleep true nodes s h) (written-IsOpen true nodes node s h)
write_awake-IsOpen false nodes node s h = rw (is_asleep false nodes s h, append-nil nodes) h

signal_handler-IsOpen :
    (awake : Bool) (nodes : List Node) (s : Tracer)
    → IsOpen awake nodes s
    → IsOpen (not awake) (nodes ++ (if awake then [] else terminal ∷ [])) (signal_handler s)
unfolding signal_handler
signal_handler-IsOpen true nodes s h =
    rw (h.is_awake, append-nil nodes)
      (record { open_file = h.open_file; is_awake = refl; no_count = refl })
signal_handler-IsOpen false nodes s h =
    let w = written-IsOpen false nodes terminal s h in
    if_both (λ (z : Tracer). IsOpen true (nodes ++ terminal ∷ []) z) s.sleeping
      (λ e. record { open_file = w.open_file; is_awake = refl; no_count = w.no_count })
      (λ e. let awake = h.is_awake in ground (arith, awake, e))

report-IsOpen :
    (awake : Bool) (nodes : List Node) (r : Report) (s : Tracer)
    → IsOpen awake nodes s
    → IsOpen (after awake r) (nodes ++ emission awake r) (report r s)
unfolding report indigo__record_c indigo__gen_trace_c indigo__vector_stride_c indigo__write_idx_c
report-IsOpen awake nodes (record_access core rw line addr var size) s h =
    write_awake-IsOpen awake nodes _ s h
report-IsOpen awake nodes (gen_trace core rw line from addr var) s h =
    write_awake-IsOpen awake nodes _ s h
report-IsOpen awake nodes (vector_stride core line var addr size) s h =
    write_awake-IsOpen awake nodes _ s h
report-IsOpen awake nodes (write_idx name len) s h =
    written-IsOpen awake nodes (stream_info (stored_name name len))
      (record s { streams = s.streams ++ stored_name name len ∷ [] })
      (record { open_file = h.open_file; is_awake = h.is_awake; no_count = h.no_count })
report-IsOpen awake nodes alarm s h = signal_handler-IsOpen awake nodes s h

reports-file :
    (awake : Bool) (nodes : List Node) (rs : List Report) (s : Tracer)
    → IsOpen awake nodes s
    → (reports rs s).file ≡ some (nodes ++ emitted awake rs)
unfolding reports
reports-file awake nodes [] s h = rw (append-nil nodes) h.open_file
reports-file awake nodes (r ∷ rest) s h =
    reports-file (after awake r) (nodes ++ emission awake r) rest (report r s)
      (report-IsOpen awake nodes r s h)
    ∙ ap some (append_assoc nodes (emission awake r) (emitted (after awake r) rest))

IsAnswer-done :
    (all nodes : List Node) (g : GlobalData) (r : ReadResult)
    → AreKnown nodes
    → IsAnswer all nodes g r
    → (g' : GlobalData) × (r ≡ done g') × IsRead all g g'
IsAnswer-done all [] g (done g') k a = (g', refl, a)
IsAnswer-done all [] g (err_unknown_msg g') k a = elim a [ ]
IsAnswer-done all (other_message kind ∷ rest) g r k a = elim k.0 [ ]
IsAnswer-done all (terminal ∷ rest) g r k a = IsAnswer-done all rest g r k.1 a
IsAnswer-done all (stream_info n ∷ rest) g r k a = IsAnswer-done all rest g r k.1 a
IsAnswer-done all (mem_info n ∷ rest) g r k a = IsAnswer-done all rest g r k.1 a
IsAnswer-done all (metadata n ∷ rest) g r k a = IsAnswer-done all rest g r k.1 a
IsAnswer-done all (trace_info n ∷ rest) g r k a = IsAnswer-done all rest g r k.1 a
IsAnswer-done all (vector_stride_info n ∷ rest) g r k a = IsAnswer-done all rest g r k.1 a

-- The program's name, which is read and not kept.
abbrev heading : Option String → List Node
heading none = []
heading (some name) = metadata name ∷ []

heading-IsEmitted :
    (binary : Option String) (rs : List Report)
    → IsEmitted true rs (heading binary ++ emitted true rs)
heading-IsEmitted none rs = emitted-IsEmitted true rs
heading-IsEmitted (some name) rs =
    let (k, n, a, t, s) = emitted-IsEmitted true rs in ((tt, k), n, a, t, s)

indigo__init_-IsOpen :
    (sampling : Bool) (binary : Option String)
    → (s : Tracer) × (indigo__init_ true sampling true binary no_trace ≡ some s)
      × IsOpen true (heading binary) s
unfolding indigo__init_ create_output_file set_timers written
indigo__init_-IsOpen true none =
    (_, refl, record { open_file = refl; is_awake = refl; no_count = refl })
indigo__init_-IsOpen true (some name) =
    (_, refl, record { open_file = refl; is_awake = refl; no_count = refl })
indigo__init_-IsOpen false none =
    (_, refl, record { open_file = refl; is_awake = refl; no_count = refl })
indigo__init_-IsOpen false (some name) =
    (_, refl, record { open_file = refl; is_awake = refl; no_count = refl })

-- The data after reading a trace: what was there, and what was reported.
abbrev pub IsTraced : List Report → (g g' : GlobalData) → Type 0
IsTraced rs g g' =
    (g'.stream_list ≡ g.stream_list ++ named rs)
    × (flat g'.mem_info_bucket ≡ flat g.mem_info_bucket ++ recorded true rs)
    × (flat g'.trace_info_bucket ≡ flat g.trace_info_bucket ++ traced true rs)
    × (flat g'.vector_stride_info_bucket ≡ flat g.vector_stride_info_bucket ++ strided true rs)

-- For a program whose trace file opens, with sampling or without, and for any sequence of
-- reports and alarms after that, read_file of what was written succeeds, and it appends to the
-- data it is given all names of streams, each cut at its length or at 255 bytes, and those
-- accesses, traces and strides that were reported after an even number of alarms, in their
-- order; core numbers are kept to 16 bits and kinds of access to two.
pub read_nodes-reports :
    (sampling : Bool) (binary : Option String) (rs : List Report) (g : GlobalData)
    → (s : Tracer) × (indigo__init_ true sampling true binary no_trace ≡ some s)
      × ((file : List Node) × ((reports rs s).file ≡ some file)
          × ((g' : GlobalData) × (read_nodes file g ≡ done g') × IsTraced rs g g'))
read_nodes-reports sampling binary rs g =
    let (s, begun, opened) = indigo__init_-IsOpen sampling binary in
    let file = heading binary ++ emitted true rs in
    let (k, n, a, t, v) = heading-IsEmitted binary rs in
    let (g', read, (n', a', t', v')) =
      IsAnswer-done file file g (read_nodes file g) k (read_nodes-IsAnswer file g) in
    (
      s,
      begun,
      (
        file,
        reports-file true (heading binary) rs s opened,
        (
          g',
          read,
          (
            n' ∙ ap (λ l. g.stream_list ++ l) n,
            a' ∙ ap (λ l. flat g.mem_info_bucket ++ l) a,
            t' ∙ ap (λ l. flat g.trace_info_bucket ++ l) t,
            v' ∙ ap (λ l. flat g.vector_stride_info_bucket ++ l) v,
          ),
        ),
      ),
    )
