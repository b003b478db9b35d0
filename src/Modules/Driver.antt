-- ===== src/Modules/Driver.antt =====
-- tools/perfexpert/perfexpert_main.c, from the initialisation of the modules on: the workflow. The
-- file system, the backup and the database are the parameter `Host`. A step's function is taken
-- to leave the list of steps alone.
use perfexpert.Prelude.{
  ℕ, ◌+◌, ◌==◌, if◌then◌else◌, Bool, true, false, Option, none, some, List, [], ◌∷◌,
}
use perfexpert.CString.{perfexpert_success}
use perfexpert.Modules.{StepStatus, failure, error, PerfexpertStep, ModuleGlobals, Library}
use perfexpert.Modules.Lifecycle.{perfexpert_module_init, perfexpert_module_fini}

-- The values of `rc` and of `return` in `main`.
pub data MainCode : Type 0 where
  undefined failed succeeded erred : MainCode

pub record Host : Type 0 where
  pub make_path : ℕ → Bool  -- can the working directory with this number be made?
  pub backup_create : ℕ
  pub insert_experiment : Bool
  pub database_disconnect : ℕ

-- The `switch` on a step's status: does it go to `CLEANUP`?
unfoldable pub stops : StepStatus → Bool
stops error = true
stops failure = true
stops _ = false

-- The call of a step's function: `none` where the pointer is `NULL`.
unfoldable pub call_step : Library → ℕ → PerfexpertStep → Option StepStatus
call_step lib i s = elim s.function [ none ↦ none | some (m, p) ↦ some (lib.call m p i) ]

-- The loop over the steps, `i` of which were run: whether it reached the end, and the steps.
unfoldable pub run_steps : Library → Host → ℕ → List PerfexpertStep → Bool × List PerfexpertStep
run_steps lib host i [] = (true, [])
run_steps lib host i (s ∷ ss) =
    let (done, ss') = run_steps lib host (i + 1) ss in
    if host.make_path i
    then elim (call_step lib i s) [
      | none ↦ (false, s ∷ ss)
      | some status ↦
          if stops status
          then (false, record s { status = status } ∷ ss)
          else (done, record s { status = status } ∷ ss')
    ]
    else (false, s ∷ ss)

-- From `CLEANUP` on; what is printed and removed does not show.
unfoldable pub clean_up : Host → MainCode → MainCode
clean_up host rc =
    if host.database_disconnect == perfexpert_success
    then elim rc [ undefined ↦ succeeded | other ↦ other ]
    else failed

-- The end of a cycle, with the answer of the finalization.
unfoldable pub end_cycle : Host → Option (ℕ × ModuleGlobals) → Option (MainCode × ModuleGlobals)
end_cycle host none = none
end_cycle host (some (rc, g)) =
    if rc == perfexpert_success then some (clean_up host undefined, g) else some (erred, g)

-- The loop `while (1)`, which runs once, behind its initialisation of the modules.
unfoldable pub run_cycle :
    Library → Host → (fuel : ℕ) → Option (ℕ × ModuleGlobals) → Option (MainCode × ModuleGlobals)
run_cycle lib host fuel none = none
run_cycle lib host fuel (some (rc, g)) =
    let (done, ss) = run_steps lib host 0 g.steps.items in
    let g' = record g { steps = record g.steps { items = ss } } in
    let finished = end_cycle host (perfexpert_module_fini lib fuel g') in
    if rc == perfexpert_success
    then (if done then finished else some (clean_up host undefined, g'))
    else some (clean_up host undefined, g)

-- Behind the first initialisation of the modules.
unfoldable pub prepare_cycle :
    Library → Host → (fuel : ℕ) → Option (ℕ × ModuleGlobals) → Option (MainCode × ModuleGlobals)
prepare_cycle lib host fuel none = none
prepare_cycle lib host fuel (some (rc, g)) =
    let cycle = run_cycle lib host fuel (perfexpert_module_init lib fuel g) in
    if rc == perfexpert_success
    then (if host.backup_create == perfexpert_success
        then (if host.insert_experiment then cycle else some (erred, g))
        else some (clean_up host undefined, g))
    else some (clean_up host undefined, g)

-- `main` from step 4 on.
unfoldable pub run_workflow :
    Library → Host → (fuel : ℕ) → ModuleGlobals → Option (MainCode × ModuleGlobals)
run_workflow lib host fuel g = prepare_cycle lib host fuel (perfexpert_module_init lib fuel g)
