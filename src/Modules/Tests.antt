-- ===== src/Modules/Tests.antt =====
-- Two modules, a compiler and a profiler, on which the theorems on modules/perfexpert_module_base.c
-- and tools/perfexpert/perfexpert_main.c are applied.
use Prim.Native.String.{String}
use text.Mathlib.Text.{◌==◌ as str_eq}
use text.Mathlib.TextEquality.{eq_iff}
use perfexpert.Prelude.{
  ℕ, ◌≤◌, ◌≡◌, ◌≢◌, refl, Bool, true, false, none, some, [], ◌∷◌, ◌==◌, if◌then◌else◌, inr,
  append-nil, sym, arith,
}
use perfexpert.Modules.{
  StepStatus, success, error, loaded, initialized, Phase, compile, measure, analyze, Symbols,
  PerfexpertModule, PerfexpertStep, ModuleGlobals, Library, my_init,
}
use perfexpert.Modules.Steps.{new_step, is_in_list, compiler_present}
use perfexpert.Modules.Load.{
  new_module, find_module, is_available, perfexpert_module_load, perfexpert_module_set_option,
}
use perfexpert.Modules.Lifecycle.{set_status, called, init_one, each_module, perfexpert_module_init}
use perfexpert.Modules.Driver.{Host, succeeded, call_step, stops, run_steps, run_workflow}
use perfexpert.Modules.Compiler.{IsWorkflowOf, perfexpert_module_load-IsWorkflow}
use perfexpert.Modules.Linking.{later_steps}
use perfexpert.Modules.Loading.{perfexpert_module_load-first, perfexpert_module_load-second}
use perfexpert.Modules.Options.{IsOptionSet, perfexpert_module_set_option-IsOptionSet}
use perfexpert.Modules.Status.{IsDone, Appends}
use perfexpert.Modules.Life.{perfexpert_module_init-IsDone}
use perfexpert.Modules.Run.{RanTo, Returns, run_steps-RanTo, run_workflow-Returns}
use perfexpert.Modules.Exit.{run_workflow-exit_code}

-- The symbols of a module, by whether it has the phases.
abbrev with_phases : (compiles profiles : Bool) → Symbols
with_phases compiles profiles = record {
  myself_module = true;
  module_version = true;
  module_load = true;
  module_init = true;
  module_fini = true;
  module_recommend = profiles;
  module_analyze = profiles;
  module_measure = profiles;
  module_instrument = false;
  module_compile = compiles;
}

abbrev quiet : String → ModuleGlobals → ℕ × ModuleGlobals
quiet name g = (0, g)

-- Measuring fails.
abbrev answers : String → Phase → ℕ → StepStatus
answers name measure i = error
answers name _ i = success

abbrev lib : Library
lib = record {
  search = λ name.
      if str_eq name "gcc"
      then some (with_phases true false)
      else if str_eq name "lcpi"
      then some (with_phases false true)
      else none;
  load = quiet;
  init = quiet;
  fini = quiet;
  call = answers;
}

abbrev host : Host
host = record {
  make_path = λ i. true;
  backup_create = 0;
  insert_experiment = true;
  database_disconnect = 0;
}

abbrev gcc : PerfexpertModule
gcc = record {
  name = "gcc";
  status = initialized;
  argv = "gcc" ∷ [];
  symbols = with_phases true false;
}

abbrev step : String → Phase → PerfexpertStep
step name p = record {
  owner = name;
  phase = p;
  status = StepStatus.undefined;
  function = some (name, p);
  name = name;
}

-- The compiler is loaded.
abbrev compiling : ModuleGlobals
compiling = record {
  modules = gcc ∷ [];
  steps = record { items = step "gcc" compile ∷ []; length = 1 };
}

-- The profiler too.
abbrev profiling : ModuleGlobals
profiling = record {
  modules = gcc ∷ record gcc { name = "lcpi"; argv = "lcpi" ∷ [] } ∷ [];
  steps = record {
    items = step "gcc" compile ∷ step "lcpi" measure ∷ step "lcpi" analyze ∷ [];
    length = 3;
  };
}

perfexpert_module_load-first_example :
    ((perfexpert_module_load lib "gcc" my_init).0 ≡ 0)
    × ((perfexpert_module_load lib "gcc" my_init).1.modules
        ≡ new_module "gcc" (with_phases true false) ∷ [])
    × ((perfexpert_module_load lib "gcc" my_init).1.steps.items
        ≡ new_step (new_module "gcc" (with_phases true false)) compile ∷ [])
unfolding my_init is_in_list is_available compiler_present new_module
perfexpert_module_load-first_example =
    perfexpert_module_load-first lib "gcc" (with_phases true false) my_init refl refl (refl, refl)
      (λ g'. refl) refl (λ p. refl)

perfexpert_module_load-second_example :
    ((perfexpert_module_load lib "lcpi" compiling).0 ≡ 0)
    × ((perfexpert_module_load lib "lcpi" compiling).1.modules
        ≡ gcc ∷ new_module "lcpi" (with_phases false true) ∷ [])
    × ((perfexpert_module_load lib "lcpi" compiling).1.steps.items
        ≡ step "gcc" compile ∷ later_steps (new_module "lcpi" (with_phases false true)))
unfolding is_in_list is_available compiler_present new_module
perfexpert_module_load-second_example =
    perfexpert_module_load-second lib "lcpi" (with_phases false true) compiling refl refl
      (refl, refl) (λ g'. refl) (step "gcc" compile) [] refl (omega arith) refl (λ p. refl)

perfexpert_module_load-IsWorkflow_example :
    IsWorkflowOf 6 (perfexpert_module_load lib "lcpi" compiling).1.steps
unfolding compiler_present
perfexpert_module_load-IsWorkflow_example =
    perfexpert_module_load-IsWorkflow lib "lcpi" compiling 1 (λ g' w. w)
      (record { counted = refl; compile_first = refl }, omega arith) (omega arith)

lcpi_not_gcc : ◌≢◌ {A = String} "gcc" "lcpi"
lcpi_not_gcc = ground (arith, eq_iff "gcc" "lcpi")

perfexpert_module_set_option-IsOptionSet_example :
    IsOptionSet "lcpi" "gcc" "threshold=1"
      (record gcc { name = "lcpi"; argv = "lcpi" ∷ [] })
      profiling
      (perfexpert_module_set_option lib "lcpi" "threshold=1" profiling)
unfolding find_module
perfexpert_module_set_option-IsOptionSet_example =
    perfexpert_module_set_option-IsOptionSet lib "lcpi" "gcc" "threshold=1" profiling
      (record gcc { name = "lcpi"; argv = "lcpi" ∷ [] }) lcpi_not_gcc refl

-- The functions that leave the lists alone.
quiet-Appends : Appends 2 quiet
quiet-Appends name g = (λ few. few, ([], sym (append-nil g.modules)))

perfexpert_module_init-IsDone_example :
    IsDone initialized 2 (perfexpert_module_init lib 3 profiling)
perfexpert_module_init-IsDone_example =
    perfexpert_module_init-IsDone lib 2 3 profiling quiet-Appends (omega arith) (omega arith)

-- The measurement, which is the second step, stops the workflow.
run_steps-RanTo_example :
    (k : ℕ) × ((run_steps lib host 0 profiling.steps.items).0 ≡ (k == 3))
    × (k ≤ 3)
    × RanTo lib host 0 k profiling.steps.items (run_steps lib host 0 profiling.steps.items).1
run_steps-RanTo_example = run_steps-RanTo lib host 0 profiling.steps.items (omega arith)

-- The modules as perfexpert_module_load leaves them.
abbrev loading : ModuleGlobals
loading = record profiling {
  modules =
      record gcc { status = loaded }
      ∷ record gcc { name = "lcpi"; status = loaded; argv = "lcpi" ∷ [] }
      ∷ [];
}

-- The modules initialize, and the measurement fails.
run_workflow-exit_code_example :
    run_workflow lib host 3 loading
    ≡ some (
      succeeded,
      record profiling {
        steps = record profiling.steps { items = (run_steps lib host 0 profiling.steps.items).1 };
      },
    )
unfolding perfexpert_module_init each_module init_one called set_status run_steps call_step stops
run_workflow-exit_code_example =
    run_workflow-exit_code lib host 2 3 loading
      (record profiling {
        steps = record profiling.steps { items = (run_steps lib host 0 profiling.steps.items).1 };
      })
      quiet-Appends (omega arith) (omega arith)
      (inr (inr (profiling, refl, refl, refl, omega arith, refl, refl)))

run_workflow-Returns_example : Returns (run_workflow lib host 3 profiling)
run_workflow-Returns_example =
    run_workflow-Returns lib host 2 3 (omega arith) profiling quiet-Appends quiet-Appends
      (omega arith)
