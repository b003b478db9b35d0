-- ===== src/Macpo/Timers.antt =====
-- How long a program sleeps and wakes by the signal handler of tools/macpo/libmrt/mrt.cpp.
use perfexpert.Prelude.{
  ℕ, zero, suc, ◌+◌, ◌-◌, ◌*◌, ◌^◌, ◌≤◌, ◌<◌, ◌≡◌, ◌∙◌, refl, if_both, leb, ◌||◌, Bool, true, false,
  not, Option, option_both, none, some, List, [], ◌∷◌, ◌++◌, append_assoc, append-nil, arith,
}
use Prim.Native.String.{String}
use perfexpert.Macpo.Record.{Node, terminal, stream_info}
use perfexpert.Macpo.Trace.{
  Tracer, no_trace, awake_time, written, write_awake, stored_name, set_timers, create_output_file,
  indigo__init_, indigo__record_c, indigo__gen_trace_c, indigo__vector_stride_c,
  indigo__write_idx_c, signal_handler, Report, record_access, gen_trace, vector_stride, write_idx,
  alarm, report, reports,
}

-- The numbers of Fibonacci.
abbrev pub fib : ℕ → ℕ
fib zero = 0
fib (suc zero) = 1
fib (suc (suc n)) = fib (suc n) + fib n

fib_step : (n : ℕ) → fib n ≤ fib (suc n)
fib_step zero = omega arith
fib_step (suc n) = omega arith

fib_below : (d n : ℕ) → d + n ≡ 46 → fib n < 2 ^ 31
fib_below zero n e = let same : n ≡ 46 = omega (arith, e) in rw same (omega arith)
fib_below (suc d) n e =
    let next = fib_below d (suc n) (omega (arith, e)) in
    let step = fib_step n in omega (arith, next, step)

fib_lt : (n : ℕ) → n ≤ 46 → fib n < 2 ^ 31
fib_lt n h = fib_below (46 - n) n (omega (arith, h))

-- The alarms of a run, and how long the timer was set for at each: the next pause takes `fib (suc k)` seconds.
abbrev pub alarms : List Report → ℕ
alarms [] = 0
alarms (record_access core rw line addr var size ∷ rest) = alarms rest
alarms (gen_trace core rw line from addr var ∷ rest) = alarms rest
alarms (vector_stride core line var addr size ∷ rest) = alarms rest
alarms (write_idx name len ∷ rest) = alarms rest
alarms (alarm ∷ rest) = suc (alarms rest)

abbrev pub pauses : (awake : Bool) → (k n : ℕ) → List (ℕ × ℕ)
pauses awake k zero = []
pauses true k (suc n) = (fib (suc k), 0) ∷ pauses false (suc k) n
pauses false k (suc n) = awake_time ∷ pauses true k n

record IsTimed (awake : Bool) (k : ℕ) (times : List (ℕ × ℕ)) (s : Tracer) : Type 0 where
  is_awake : s.sleeping ≡ not awake
  pause : s.sleep_sec ≡ fib k
  next_pause : s.new_sleep_sec ≡ fib (suc k)
  set_times : s.timers ≡ times

module _ (awake : Bool) (k : ℕ) (times : List (ℕ × ℕ)) where
  written-IsTimed :
      (node : Node) (s : Tracer) → IsTimed awake k times s → IsTimed awake k times (written node s)
  unfolding written
  written-IsTimed node s h =
      option_both (IsTimed awake k times) s.file (λ e. h)
        (λ nodes e. record {
          is_awake = h.is_awake;
          pause = h.pause;
          next_pause = h.next_pause;
          set_times = h.set_times;
        })

  write_awake-IsTimed :
      (node : Node) (s : Tracer)
      → IsTimed awake k times s
      → IsTimed awake k times (write_awake node s)
  unfolding write_awake
  write_awake-IsTimed node s h =
      if_both (IsTimed awake k times) (s.sleeping || leb 131072 s.access_count) (λ e. h)
        (λ e. written-IsTimed node s h)

sleep-IsTimed :
    (k : ℕ) (times : List (ℕ × ℕ)) (s : Tracer)
    → k ≤ 44
    → IsTimed true k times s
    → IsTimed false (suc k) (times ++ (fib (suc k), 0) ∷ []) (signal_handler s)
unfolding signal_handler
sleep-IsTimed k times s room h =
    let awake = h.is_awake in
    let pause = h.pause in
    let next = h.next_pause in
    let small = fib_lt (suc (suc k)) (omega (arith, room)) in
    if_both (IsTimed false (suc k) (times ++ (fib (suc k), 0) ∷ [])) s.sleeping
      (λ e. ground (arith, awake, e))
      (λ e. record {
        is_awake = refl;
        pause = next;
        next_pause = omega (arith, pause, next, small);
        set_times = rw (h.set_times, next) refl;
      })

wake-IsTimed :
    (k : ℕ) (times : List (ℕ × ℕ)) (s : Tracer)
    → IsTimed false k times s
    → IsTimed true k (times ++ awake_time ∷ []) (signal_handler s)
unfolding signal_handler
wake-IsTimed k times s h =
    let awake = h.is_awake in
    let w = written-IsTimed false k times terminal s h in
    if_both (IsTimed true k (times ++ awake_time ∷ [])) s.sleeping
      (λ e. record {
        is_awake = refl;
        pause = w.pause;
        next_pause = w.next_pause;
        set_times = rw w.set_times refl;
      })
      (λ e. ground (arith, awake, e))

-- What other reports leave alone.
module _ (awake : Bool) (k : ℕ) (times : List (ℕ × ℕ)) where
  write_idx-IsTimed :
      (name : String) (len : ℕ) (s : Tracer)
      → IsTimed awake k times s
      → IsTimed awake k times (indigo__write_idx_c name len s)
  unfolding indigo__write_idx_c
  write_idx-IsTimed name len s h =
      written-IsTimed awake k times (stream_info (stored_name name len))
        (record s { streams = s.streams ++ stored_name name len ∷ [] })
        (record {
          is_awake = h.is_awake;
          pause = h.pause;
          next_pause = h.next_pause;
          set_times = h.set_times;
        })

-- The last sleep begins when the sum of two pauses is an `int`.
abbrev IsEarly : (awake : Bool) → (k n : ℕ) → Type 0
IsEarly true k n = 2 * k + n ≤ 90
IsEarly false k n = 2 * k + n ≤ 91

reports-IsTimed :
    (awake : Bool) (k : ℕ) (times : List (ℕ × ℕ)) (rs : List Report) (s : Tracer)
    → IsEarly awake k (alarms rs)
    → IsTimed awake k times s
    → (reports rs s).timers ≡ times ++ pauses awake k (alarms rs)
unfolding reports report indigo__record_c indigo__gen_trace_c indigo__vector_stride_c
reports-IsTimed awake k times [] s early h = rw (append-nil times) h.set_times
reports-IsTimed awake k times (record_access core rw line addr var size ∷ rest) s early h =
    reports-IsTimed awake k times rest _ early (write_awake-IsTimed awake k times _ s h)
reports-IsTimed awake k times (gen_trace core rw line from addr var ∷ rest) s early h =
    reports-IsTimed awake k times rest _ early (write_awake-IsTimed awake k times _ s h)
reports-IsTimed awake k times (vector_stride core line var addr size ∷ rest) s early h =
    reports-IsTimed awake k times rest _ early (write_awake-IsTimed awake k times _ s h)
reports-IsTimed awake k times (write_idx name len ∷ rest) s early h =
    reports-IsTimed awake k times rest _ early (write_idx-IsTimed awake k times name len s h)
reports-IsTimed true k times (alarm ∷ rest) s early h =
    reports-IsTimed false (suc k) (times ++ (fib (suc k), 0) ∷ []) rest (signal_handler s)
      (omega (arith, early)) (sleep-IsTimed k times s (omega (arith, early)) h)
    ∙ append_assoc times ((fib (suc k), 0) ∷ []) (pauses false (suc k) (alarms rest))
reports-IsTimed false k times (alarm ∷ rest) s early h =
    reports-IsTimed true k (times ++ awake_time ∷ []) rest (signal_handler s) (omega (arith, early))
      (wake-IsTimed k times s h)
    ∙ append_assoc times (awake_time ∷ []) (pauses true k (alarms rest))

indigo__init_-IsTimed :
    (create_file : Bool) (binary : Option String)
    → (s : Tracer) × (indigo__init_ create_file true true binary no_trace ≡ some s)
      × IsTimed true 0 (awake_time ∷ []) s
unfolding indigo__init_ create_output_file set_timers written
indigo__init_-IsTimed false binary =
    (_, refl, record { is_awake = refl; pause = refl; next_pause = refl; set_times = refl })
indigo__init_-IsTimed true none =
    (_, refl, record { is_awake = refl; pause = refl; next_pause = refl; set_times = refl })
indigo__init_-IsTimed true (some name) =
    (_, refl, record { is_awake = refl; pause = refl; next_pause = refl; set_times = refl })

-- With sampling, and whatever is reported between at most 90 alarms, the timer is first set to
-- the time of being awake, and then in turns to a sleep, the k-th of which takes as many seconds
-- as the k-th number of Fibonacci, and to the time of being awake again.
pub reports-timers :
    (create_file : Bool) (binary : Option String) (rs : List Report)
    → alarms rs ≤ 90
    → (s : Tracer) × (indigo__init_ create_file true true binary no_trace ≡ some s)
      × ((reports rs s).timers ≡ awake_time ∷ pauses true 0 (alarms rs))
reports-timers create_file binary rs few =
    let (s, begun, h) = indigo__init_-IsTimed create_file binary in
    (s, begun, reports-IsTimed true 0 (awake_time ∷ []) rs s (omega (arith, few)) h)
