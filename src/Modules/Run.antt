-- ===== src/Modules/Run.antt =====
-- The workflow of tools/perfexpert/perfexpert_main.c: which steps run, and what main returns.
use perfexpert.Prelude.{
  ℕ, zero, suc, ◌+◌, ◌^◌, ◌≤◌, ◌<◌, ◌≡◌, ◌≢◌, ◌⊎◌, inl, inr, ◌∙◌, refl, true, false, Bool-cases,
  Option, none, some, Option-cases, List, [], ◌∷◌, length, get_elem?, ◌==◌, if_both, subst, arith,
}
use perfexpert.CString.{perfexpert_success}
use perfexpert.Modules.{StepStatus, PerfexpertStep, ModuleGlobals, Library}
use perfexpert.Modules.Driver.{
  MainCode, undefined, erred, Host, stops, call_step, run_steps, clean_up, end_cycle, run_cycle,
  prepare_cycle, run_workflow,
}
use perfexpert.Modules.Status.{Appends}
use perfexpert.Modules.Life.{perfexpert_module_init-IsDone, perfexpert_module_fini-IsDone}

-- The step was called as number `i` in its directory, which went well, and only its status changed.
abbrev pub HasRun : Library → Host → ℕ → PerfexpertStep → PerfexpertStep → Type 0
HasRun lib host i s s' =
    (status : StepStatus) × (host.make_path i ≡ true)
    × (call_step lib i s ≡ some status)
    × (stops status ≡ false)
    × (s' ≡ record s { status = status })

-- The step stops the workflow: it cannot run, and is as it was, or it was called, and only its status
-- changed, to one that stops.
abbrev pub HasStopped : Library → Host → ℕ → PerfexpertStep → PerfexpertStep → Type 0
HasStopped lib host i s s' =
    ((host.make_path i ≡ false) × (s' ≡ s))
    ⊎ ((host.make_path i ≡ true) × (call_step lib i s ≡ none) × (s' ≡ s))
    ⊎ ((status : StepStatus) × (host.make_path i ≡ true)
        × (call_step lib i s ≡ some status)
        × (stops status ≡ true)
        × (s' ≡ record s { status = status }))

-- The first `k` steps have run, in their order, the next one, if there is one, has stopped the
-- workflow, and those behind it are as they were.
abbrev pub RanTo : Library → Host → (i k : ℕ) → List PerfexpertStep → List PerfexpertStep → Type 0
RanTo lib host i k ss ss' =
    ((j : ℕ) (s : PerfexpertStep)
      → j < k
      → get_elem? ss j ≡ some s
      → (s' : PerfexpertStep) × (get_elem? ss' j ≡ some s') × HasRun lib host (i + j) s s')
    × ((s : PerfexpertStep)
        → get_elem? ss k ≡ some s
        → (s' : PerfexpertStep) × (get_elem? ss' k ≡ some s') × HasStopped lib host (i + k) s s')
    × ((j : ℕ) → k < j → get_elem? ss' j ≡ get_elem? ss j)

run_steps-cases :
    (lib : Library) (host : Host) (i : ℕ) (s : PerfexpertStep) (ss : List PerfexpertStep)
    → ((s' : PerfexpertStep) × HasStopped lib host i s s'
        × (run_steps lib host i (s ∷ ss) ≡ (false, s' ∷ ss)))
      ⊎ ((s' : PerfexpertStep) × HasRun lib host i s s'
          × (run_steps lib host i (s ∷ ss)
              ≡ ((run_steps lib host (i + 1) ss).0, s' ∷ (run_steps lib host (i + 1) ss).1)))
unfolding run_steps
run_steps-cases lib host i s ss = elim (Bool-cases (host.make_path i)) [
  | inr no_path ↦ inl (s, inl (no_path, refl), rw no_path)
  | inl path ↦ elim (Option-cases (call_step lib i s)) [
    | inl no_function ↦
        inl (s, inr (inl (path, no_function, refl)), rw path (rw (no_function, run_steps)))
    | inr (status, answer) ↦ elim (Bool-cases (stops status)) [
      | inl stop ↦ inl (
        record s { status = status },
        inr (inr (status, path, answer, stop, refl)),
        rw path (rw (answer, run_steps) (rw stop refl)),
      )
      | inr go ↦ inr (
        record s { status = status },
        (status, path, answer, go, refl),
        rw path (rw (answer, run_steps) (rw go refl)),
      )
    ]
  ]
]

-- The same of a step and a number that are written in another way.
at_step :
    (P : ℕ → PerfexpertStep → Type 0) (i n : ℕ) (s t : PerfexpertStep)
    → i ≡ n
    → s ≡ t
    → P i s
    → P n t
at_step P i n s t ei es p = subst (λ m. P m t) ei (subst (P i) es p)

RanTo-stopped :
    (lib : Library) (host : Host) (i : ℕ) (s s' : PerfexpertStep) (ss : List PerfexpertStep)
    → HasStopped lib host i s s'
    → RanTo lib host i 0 (s ∷ ss) (s' ∷ ss)
RanTo-stopped lib host i s s' ss stopped = (
  λ j t less got. absurd (omega arith),
  λ t got. (
    s',
    refl,
    at_step (λ m u. HasStopped lib host m u s') i (i + 0) s t (omega arith) (cc) stopped,
  ),
  same_all,
)
  where
    same_all : (j : ℕ) → 0 < j → get_elem? (s' ∷ ss) j ≡ get_elem? (s ∷ ss) j
    same_all zero less = absurd (omega arith)
    same_all (suc j) less = refl

RanTo-cons :
    (lib : Library) (host : Host) (i k : ℕ) (s s' : PerfexpertStep) (ss ss' : List PerfexpertStep)
    → HasRun lib host i s s'
    → RanTo lib host (i + 1) k ss ss'
    → RanTo lib host i (suc k) (s ∷ ss) (s' ∷ ss')
RanTo-cons lib host i k s s' ss ss' run (ran, stopped, same) = (
  ran_all,
  λ t got.
      let (t', there, stop) = stopped t got in
      (
        t',
        there,
        at_step (λ m u. HasStopped lib host m u t') (i + 1 + k) (i + suc k) t t (omega arith) refl
            stop,
      ),
  same_all,
)
  where
    ran_all :
        (j : ℕ) (t : PerfexpertStep)
        → j < suc k
        → get_elem? (s ∷ ss) j ≡ some t
        → (t' : PerfexpertStep) × (get_elem? (s' ∷ ss') j ≡ some t') × HasRun lib host (i + j) t t'
    ran_all zero t less got =
        (s', refl, at_step (λ m u. HasRun lib host m u s') i (i + 0) s t (omega arith) (cc) run)
    ran_all (suc j) t less got =
        let (t', there, run') = ran j t (omega arith) got in
        (
          t',
          there,
          at_step (λ m u. HasRun lib host m u t') (i + 1 + j) (i + suc j) t t (omega arith) refl
              run',
        )

    same_all : (j : ℕ) → suc k < j → get_elem? (s' ∷ ss') j ≡ get_elem? (s ∷ ss) j
    same_all zero less = absurd (omega arith)
    same_all (suc j) less = same j (omega arith)

-- With step numbers below 2^31, the steps of the workflow run one after another, up to the end
-- or up to one that stops it; the answer says which. For each step before that one its directory
-- could be made and its function, called with the number of the step, returned a status that is
-- neither an error nor a failure, which is stored in the step and is its only change. For the
-- step that stops it, the directory could not be made or there is no function, and the step is
-- as it was, or the function returned an error or a failure, which is stored and is the only
-- change. The steps behind it are as they were.
pub run_steps-RanTo :
    (lib : Library) (host : Host) (i : ℕ) (ss : List PerfexpertStep)
    → i + length ss < 2 ^ 31
    → (k : ℕ) × ((run_steps lib host i ss).0 ≡ (k == length ss))
      × (k ≤ length ss)
      × RanTo lib host i k ss (run_steps lib host i ss).1
unfolding run_steps
run_steps-RanTo lib host i [] room =
    (0, refl, omega arith, (λ j s less got. cc, λ s got. cc, λ j less. refl))
run_steps-RanTo lib host i (s ∷ ss) room = elim (run_steps-cases lib host i s ss) [
  | inl (s', stopped, e) ↦
      rw e (0, ground arith, omega arith, RanTo-stopped lib host i s s' ss stopped)
  | inr (s', run, e) ↦
      let (k, done, within, ran) = run_steps-RanTo lib host (i + 1) ss (omega arith) in
      rw e (suc k, done ∙ ground arith, omega arith, RanTo-cons lib host i k s s' ss _ run ran)
]

-- There is a result, and what main returns is one of its three codes.
abbrev pub Returns : Option (MainCode × ModuleGlobals) → Type 0
Returns o = (rc : MainCode) × (g : ModuleGlobals) × (o ≡ some (rc, g)) × (rc ≢ undefined)

clean_up-ne-undefined : (host : Host) → clean_up host undefined ≢ undefined
unfolding clean_up
clean_up-ne-undefined host =
    if_both (λ rc. rc ≢ undefined) (host.database_disconnect == perfexpert_success) (λ _ e. cc)
      (λ _ e. cc)

module _ (lib : Library) (host : Host) (most fuel : ℕ) (enough : most < fuel) where
  cleaned : (g : ModuleGlobals) → Returns (some (clean_up host undefined, g))
  cleaned g = (clean_up host undefined, g, refl, clean_up-ne-undefined host)

  erred-Returns : (g : ModuleGlobals) → Returns (some (erred, g))
  erred-Returns g = (erred, g, refl, λ e. cc)

  end_cycle-Returns : (rc : ℕ) (g : ModuleGlobals) → Returns (end_cycle host (some (rc, g)))
  unfolding end_cycle
  end_cycle-Returns rc g =
      if_both Returns (rc == perfexpert_success) (λ _. cleaned g) (λ _. erred-Returns g)

  run_cycle-Returns :
      (rc : ℕ) (g : ModuleGlobals)
      → Appends most lib.fini
      → length g.modules ≤ most
      → Returns (run_cycle lib host fuel (some (rc, g)))
  unfolding run_cycle
  run_cycle-Returns rc g appends few =
      let run = run_steps lib host 0 g.steps.items in
      let g' : ModuleGlobals = record g { steps = record g.steps { items = run.1 } } in
      let (rc', g1, e, few', end) =
        perfexpert_module_fini-IsDone lib most fuel g' appends enough few in
      if_both Returns (rc == perfexpert_success)
        (λ _. if_both Returns run.0 (λ _. rw e (end_cycle-Returns rc' g1)) (λ _. cleaned g'))
        (λ _. cleaned g)

  prepare_cycle-Returns :
      (rc : ℕ) (g : ModuleGlobals)
      → Appends most lib.init
      → Appends most lib.fini
      → length g.modules ≤ most
      → Returns (prepare_cycle lib host fuel (some (rc, g)))
  unfolding prepare_cycle
  prepare_cycle-Returns rc g inits finis few =
      let (rc', g1, e, few', end) =
        perfexpert_module_init-IsDone lib most fuel g inits enough few in
      if_both Returns (rc == perfexpert_success)
        (λ _.
          if_both Returns (host.backup_create == perfexpert_success)
            (λ _.
              if_both Returns host.insert_experiment
                (λ _. rw e (run_cycle-Returns rc' g1 finis few')) (λ _. erred-Returns g))
            (λ _. cleaned g))
        (λ _. cleaned g)

  -- From the initialisation of the modules on, main returns with one of the codes success, error
  -- and failure, whatever the modules and the host answer, if the modules' own init and fini
  -- functions only add modules at the end of the table and never take it beyond a number that
  -- the fuel exceeds and the table does not exceed at the start.
  pub run_workflow-Returns :
      (g : ModuleGlobals)
      → Appends most lib.init
      → Appends most lib.fini
      → length g.modules ≤ most
      → Returns (run_workflow lib host fuel g)
  unfolding run_workflow
  run_workflow-Returns g inits finis few =
      let (rc, g1, e, few', end) = perfexpert_module_init-IsDone lib most fuel g inits enough few in
      rw e (prepare_cycle-Returns rc g1 inits finis few')
