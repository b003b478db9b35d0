-- ===== src/Modules/Exit.antt =====
-- What main of tools/perfexpert/perfexpert_main.c answers where the workflow stops early.
use perfexpert.Prelude.{
  ℕ, ◌^◌, ◌≤◌, ◌<◌, ◌≡◌, ◌≢◌, ◌⊎◌, inl, inr, ◌∙◌, refl, sym, ap, true, false, some, some-injective,
  if◌then◌else◌, length, ◌==◌, subst, arith,
}
use perfexpert.CString.{perfexpert_success}
use perfexpert.Modules.{initialized, ModuleGlobals, Library}
use perfexpert.Modules.Driver.{
  MainCode, failed, succeeded, Host, run_steps, clean_up, run_cycle, prepare_cycle, run_workflow,
}
use perfexpert.Modules.Lifecycle.{perfexpert_module_init}
use perfexpert.Modules.Status.{HasStatus, Appends}
use perfexpert.Modules.Life.{perfexpert_module_init-IsDone, perfexpert_module_init-again}

-- What stops main before the end of the workflow: a module that does not initialize, the backup, or
-- a step, with the lists as they are then.
abbrev pub StopsIn : Library → Host → (fuel : ℕ) → (g g' : ModuleGlobals) → Type 0
StopsIn lib host fuel g g' =
    ((rc : ℕ) × (perfexpert_module_init lib fuel g ≡ some (rc, g')) × (rc ≢ perfexpert_success))
    ⊎ ((perfexpert_module_init lib fuel g ≡ some (perfexpert_success, g'))
        × (host.backup_create ≢ perfexpert_success))
    ⊎ ((g1 : ModuleGlobals) × (perfexpert_module_init lib fuel g ≡ some (perfexpert_success, g1))
        × (host.backup_create ≡ perfexpert_success)
        × (host.insert_experiment ≡ true)
        × (length g1.steps.items < 2 ^ 31)
        × ((run_steps lib host 0 g1.steps.items).0 ≡ false)
        × (g' ≡ record g1 {
          steps = record g1.steps { items = (run_steps lib host 0 g1.steps.items).1 };
        }))

-- The code that tells only whether the database was disconnected.
abbrev pub exit_code : Host → MainCode
exit_code host = if host.database_disconnect == perfexpert_success then succeeded else failed

-- Modules that initialized initialize again, and nothing happens.
init_twice :
    (lib : Library) (most fuel : ℕ) (g g1 : ModuleGlobals)
    → Appends most lib.init
    → most < fuel
    → length g.modules ≤ most
    → perfexpert_module_init lib fuel g ≡ some (perfexpert_success, g1)
    → perfexpert_module_init lib fuel g1 ≡ some (perfexpert_success, g1)
init_twice lib most fuel g g1 inits enough few ran =
    let (rc, g2, e, few', end) = perfexpert_module_init-IsDone lib most fuel g inits enough few in
    let same = some-injective (rc, g2) (perfexpert_success, g1) (sym e ∙ ran) in
    elim end [
      | inl (answer, all) ↦
          perfexpert_module_init-again lib fuel g1
            (subst (λ (r : ℕ × ModuleGlobals). HasStatus initialized r.1.modules) same all)
            (let size = ap (λ (r : ℕ × ModuleGlobals). length r.1.modules) same in
              omega (arith, size, few', enough))
      | inr erroneous ↦
          let code = ap (λ (r : ℕ × ModuleGlobals). r.0) same in
          absurd (omega (arith, code, erroneous))
    ]

-- From any modules, of which some or all may have to be initialized, where the modules' own init
-- functions only add modules at the end of the table and never take it beyond a number that the
-- fuel exceeds and the table does not exceed at the start: if a module does not initialize, or
-- the backup fails, or, with the experiment recorded in the database, one of fewer than 2^31
-- steps stops the workflow, main's code tells only whether the database was disconnected: it is
-- success if it was and failure if not, whatever went wrong; and the modules and steps are left
-- as they were then, the statuses of the steps that ran included.
pub run_workflow-exit_code :
    (lib : Library) (host : Host) (most fuel : ℕ) (g g' : ModuleGlobals)
    → Appends most lib.init
    → most < fuel
    → length g.modules ≤ most
    → StopsIn lib host fuel g g'
    → run_workflow lib host fuel g ≡ some (exit_code host, g')
unfolding run_workflow prepare_cycle run_cycle clean_up run_steps
run_workflow-exit_code lib host most fuel g g' inits enough few (inl (rc, ran, fails)) =
    let test : (rc == perfexpert_success) ≡ false = ground (arith, fails) in
    rw (run_workflow, ran) (rw test refl)
run_workflow-exit_code lib host most fuel g g' inits enough few (inr (inl (ran, fails))) =
    let test : (host.backup_create == perfexpert_success) ≡ false = ground (arith, fails) in
    rw (run_workflow, ran) (rw test refl)
run_workflow-exit_code lib host most fuel g g' inits enough few
      (inr (inr (g1, ran, backup, recorded, few_steps, stopped, e))) =
    let again = init_twice lib most fuel g g1 inits enough few ran in
    let test : (host.backup_create == perfexpert_success) ≡ true = ground (arith, backup) in
    rw (run_workflow, ran) (rw (test, recorded, again, e) (rw stopped refl))
