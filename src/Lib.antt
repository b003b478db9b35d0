-- ===== src/Lib.antt =====
-- A model of PerfExpert's own logic: the cache simulator library of lib/cache_sim, the base64
-- routines of common/perfexpert_base64.c that carry file contents, the string routines of
-- common/perfexpert_string.c, the linked list of common/perfexpert_list.c, and the driver: the table
-- of modules and the workflow of modules/perfexpert_module_base.c, which
-- tools/perfexpert/perfexpert_main.c runs; and of its modules the flattening of profiles in
-- modules/hpctoolkit/hpctoolkit_profile.c and the sorting of hotspots in modules/lcpi/lcpi_sort.c; and
-- of MACPO (tools/macpo) the checks of loops and the traces that its runtime makes, and the analyses of
-- set conflicts and of lines shared between cores.
--
-- A cache is a handle (`cache_handle_t`, here `Cache`) with a data area that the replacement policy
-- owns, an optional list of lines for reuse distances, an optional list of symbols, and counters.
-- `cache_sim_init` makes the handle and calls the policy's `init_fn`; `cache_sim_access` cuts the line
-- id out of an address, calls the policy's `access_fn`, counts by what it returns, prefetches, and
-- consults and updates the reuse distances to find set conflicts; `cache_sim_symbol_access` does this
-- for a symbol.
--
-- The driver loads modules (`perfexpert_module_load`), each of which adds a step to the workflow for
-- every phase that it implements; a module's own code may require a place for its steps
-- (`perfexpert_module_requires`) or load more modules. main initializes the modules, runs the steps in
-- their order, and finalizes the modules.
--
-- A program that MACPO instrumented calls the checks of libmrt/mrt.cpp for its loops, whose findings are
-- kept in multigrams (common/histogram.h), and writes its memory accesses as messages;
-- analyze/record_io.cpp reads these, and analyze/set_cache_conflict_analysis.cpp asks a
-- reuse_distance_manager for each set of each core how many lines came between two accesses to a line.
--
-- Files, with the code each of them is about:
-- Prelude and its children: Boolean tests, arrays as lists, tables checked by evaluation, powers
-- of two, texts as bytes. Outcome: results of code that can meet undefined behaviour; `fault` is
-- a read out of bounds, a use of freed or null memory, an undefined shift or conversion, or an `int`
-- that is counted beyond 2^31 - 1.
-- CacheSim.Types: the types of cache_sim_types.h and the codes of cache_sim.h. CacheSim.Address: the
-- macros of cache_sim_util.h.
-- CacheSim.Lru (policy_lru_init, policy_lru_access of cache_policy_lru.c); its proofs in Loop (the
-- loop over the ways), Sets (one set), Access (an access to a set) and Whole (the data area).
-- CacheSim.Plru (cache_policy_plru.c), with the proofs on the tree of bits in Tree.
-- CacheSim.Reuse (cache_sim_reuse.c); its proofs in Ages (one access), Recency (the order of last
-- use, as a list) and Distance (a sequence of accesses).
-- CacheSim.Access (cache_sim_access.c); its proofs in Codes (what a policy returns), Counters and
-- Whole (one access), Trace (many accesses), Conflict (set conflicts), Ready and Total (accesses
-- return).
-- CacheSim.Control (cache_sim_prefetcher.c, cache_sim_conflict.c), CacheSim.Symbol
-- (cache_sim_symbol.c) and CacheSim.Handle (cache_sim.c), with proofs in
-- Control.Enable, Handle.Init and Handle.Lifetime. CacheSim.Tests and CacheSim.ReuseTests apply the theorems to small caches.
-- Base64 (common/perfexpert_base64.c), with Bits (tables and masks as arithmetic), Words (the
-- encoder) and RoundTrip (the decoder). CString (common/perfexpert_string.c), with InPlace, Remove and
-- Replace. Links (common/perfexpert_list.c), with Ends, and with
-- Chain (links between two ends), Ring, Moves and Swap (what each operation does to the ring of items) and
-- Runs (any sequence of them). Each of the three has a module Tests.
-- Modules: the types of modules/perfexpert_module_base.h; its children Steps (the list of steps),
-- Load (loading, finding, options), Requires (requirements) and Lifecycle (initialisation and
-- finalisation) hold the operations of modules/perfexpert_module_base.c, and Driver the workflow of
-- tools/perfexpert/perfexpert_main.c. Proofs: Compiler (compilers are singletons), Linking and
-- Loading (which steps a load adds, and where), Again (a second load), Options, Positions, Moves,
-- Search, Reorder and Cloning (requirements), Status and Life (initialisation and finalisation),
-- Run and Exit (the workflow). Modules.Tests applies the theorems to a compiler and a profiler.
-- Profile (modules/hpctoolkit/hpctoolkit_profile.c), with Totals and Merge on aggregated metrics and
-- Depth on call paths. HotspotSort (modules/lcpi/lcpi_sort.c), with Sorted. Each has a module Tests.
-- Macpo (tools/macpo): AvlTree and ReuseDistance (avl_tree.h and reuse_distance.h of common), with
-- Words (their integers and vectors) and the proofs Stack, Counters and Window on them; Record
-- (common/macpo_record.h and analyze/record_io.cpp), with Reading; Conflict
-- (analyze/set_cache_conflict_analysis.cpp and libset/set_cache_conflict_lib.cpp), with Verdict (one
-- access), Seen (what should be found) and Sets (the whole analysis); Histogram (common/histogram.h), with
-- Cells; Runtime and Loops (libmrt/mrt.cpp), with Branches, Checks (any calls) and Overlap; and Trace
-- (the part of libmrt/mrt.cpp that writes messages), with Sampling (what is read of them) and Timers;
-- and Distances (its counts of reuse distances). Latency (analyze/latency_analysis.cpp), with Owners (one
-- access) and Sharing (the whole analysis).
--
-- Representation. A function that changes the handle takes a `Cache` and returns one, with its return
-- code; a pointer argument that may be `NULL` is an `Option`. The `data` area is a list of lines, and
-- one of masks for the pseudo-LRU policy; a set is the stretch of it that starts at its number times
-- the associativity. The circular lists behind `reuse_data` and `symbol_data` are lists, first item
-- first; the pointer to one is null, live or freed. Counters, ages and line ids are numbers that wrap
-- as the C types do; an `int` that counts bytes, list items or positions faults where it overflows,
-- and main's number of the present step is taken not to. The success of each `malloc` is a Boolean
-- argument. The `static` variables of the functions are written before they are read in every call,
-- and are local here. A string is the
-- memory from its pointer on, its null byte and what is behind it included; `tolower` of the C
-- library is a parameter, and a failure of the macro PERFEXPERT_ALLOC ends the process. The links of a
-- perfexpert_list_t are two functions on addresses; their callers pass no null pointer. The lists of
-- modules and steps are lists with positions for pointers; the counter of the list of steps is kept,
-- since perfexpert_list_insert tests it and counts wrongly. The code of the modules, which can change
-- both lists, is the parameter `Library`, the file system, the backup and the database of main
-- the parameter `Host`; a module's name is a text, and equal names stand for one module. The doubles of
-- metrics and hotspots are a parameter with the operations that the code uses, and so is `qsort`.
-- In MACPO a std::unordered_map is a function, a std::map a list in the order of its keys, which are not
-- negative, a C++ object is its value, the variable arguments of a check are a list, addresses are below
-- 2^63, an int is its pattern of 32 bits, a failed assertion is a fault, and the comparison of two
-- counts as floats is a parameter. The trace file is the list of the messages written, each of which is
-- complete, and a signal comes between two calls. The histograms of the GNU scientific library are a
-- parameter; the lists that the latency analysis works on at the same time are taken one by one, and its
-- `short` owner of a line is its pattern of 16 bits.
--
-- Fuel. `halvings` runs on the number it halves, and the loops of base64 and of the strings on
-- the length of their input or memory plus one; the loops over ways, levels and list items recur
-- on what is left of them. The loops over the modules take fuel, since a module's function can append
-- modules; a bound on their number suffices. The outer loop on metrics takes fuel for each item of the list.
--
-- Not modelled: what the functions print, the `level`, `upper` and `lower` fields that no code reads,
-- the `NULL` checks of the two `init_fn`, which are only called on a handle that was just made, and
-- perfexpert_module_help, the option parsing and set-up of main, steps whose function changes the list of
-- steps or whose module's library was closed, and the other programs of the repository (the modules
-- around compilers and profilers, the database, the ROSE and LLVM tools). Of MACPO: the analyses of
-- strides, the final division of the latency analysis, and its compiler passes.
pub mod Prelude
pub mod Outcome
pub mod CacheSim
pub mod Base64
pub mod CString
pub mod Links
pub mod Macpo
pub mod Modules
pub mod Profile
pub mod HotspotSort
