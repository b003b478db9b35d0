-- ===== src/Modules/Compiler.antt =====
-- What modules/perfexpert_module_base.c promises of compilers: they are singletons, and the compile
-- step stands first, however many modules are loaded.
use Prim.Native.String.{String}
use perfexpert.Prelude.{
  ℕ, suc, ◌+◌, ◌^◌, ◌≤◌, ◌<◌, ◌%◌, ◌≡◌, inl, inr, refl, Bool, true, false, ◌&&◌, List, [], ◌∷◌,
  ◌++◌, length, leb, ◌==◌, Bool-cases, if_both, option_both, arith,
}
use perfexpert.CString.{perfexpert_success}
use perfexpert.CacheSim.Types.{inc64}
use perfexpert.Modules.{
  Phase, compile, instrument, measure, analyze, recommend, Symbols, same_phase, PerfexpertModule,
  PerfexpertStep, StepList, ModuleGlobals, Library,
}
use perfexpert.Modules.Steps.{
  list_prepend, list_append, list_insert, insert_at, compiler_present, is_in_list, place_step,
  new_step, perfexpert_phase_add,
}
use perfexpert.Modules.Load.{
  link_phase, link_phases, finish_load, link_module, perfexpert_module_load, is_available,
  new_module,
}

-- A compile step stands at the head at most.
abbrev pub CompileFirst : List PerfexpertStep → Type 0
CompileFirst [] = Unit
CompileFirst (s ∷ ss) = compiler_present ss ≡ false

pub record IsWorkflow (l : StepList) : Type 0 where
  pub counted : l.length ≡ length l.items
  pub compile_first : CompileFirst l.items

pub compiler_present-append :
    (xs ys : List PerfexpertStep)
    → compiler_present xs ≡ false
    → compiler_present ys ≡ false
    → compiler_present (xs ++ ys) ≡ false
unfolding compiler_present
compiler_present-append [] ys hx hy = hy
compiler_present-append (x ∷ xs) ys hx hy = ground (arith, compiler_present-append xs ys)

second_place : (k : ℕ) → 1 % (suc (suc k) + 1) ≡ 1
second_place k = grind arith

-- Behind a compile step, a new step stands second.
pub place_step-second :
    (c s : PerfexpertStep) (rest : List PerfexpertStep) (n : ℕ)
    → compiler_present (c ∷ rest) ≡ true
    → n ≡ length (c ∷ rest)
    → place_step (record { items = c ∷ rest; length = n }) s
      ≡ record { items = c ∷ s ∷ rest; length = inc64 n }
unfolding place_step list_insert list_append insert_at
place_step-second c s [] n present counted = ground arith
place_step-second c s (d ∷ ds) n present counted =
    let inside : leb n 1 ≡ false = ground arith in
    rw (present, place_step) (rw (inside, list_insert) (rw (second_place (length ds)) refl))

pub place_step-first :
    (l : StepList) (s : PerfexpertStep)
    → compiler_present l.items ≡ false
    → place_step l s ≡ list_prepend l s
unfolding place_step
place_step-first l s absent = rw absent

-- A workflow of at most `most` steps.
abbrev pub IsWorkflowOf : (most : ℕ) → StepList → Type 0
IsWorkflowOf most l = IsWorkflow l × (length l.items ≤ most)

place_step-IsWorkflow :
    (items : List PerfexpertStep) (n most : ℕ) (s : PerfexpertStep)
    → IsWorkflow (record { items = items; length = n })
    → length items ≤ most
    → most + 1 < 2 ^ 64
    → (compiler_present items && same_phase compile s.phase) ≡ false
    → IsWorkflowOf (most + 1) (place_step (record { items = items; length = n }) s)
unfolding compiler_present list_prepend
place_step-IsWorkflow [] n most s w few room single =
    rw (place_step-first (record { items = []; length = n }) s refl) (ground arith, omega arith)
place_step-IsWorkflow (c ∷ rest) n most s w few room single =
    elim (Bool-cases (compiler_present (c ∷ rest))) [
      | inl present ↦
          rw (place_step-second c s rest n present w.counted) (
            record { counted = omega (arith, w.counted); compile_first = ground arith },
            omega arith,
          )
      | inr absent ↦
          rw (place_step-first (record { items = c ∷ rest; length = n }) s absent)
            (record { counted = omega (arith, w.counted); compile_first = absent }, omega arith)
    ]

-- Adding a phase of a module to a workflow whose only compile step, if any, stands first, and whose
-- length is counted right and stays below 2^64, leaves such a workflow, at most one step longer,
-- whether the phase is added, present or refused.
pub perfexpert_phase_add-IsWorkflow :
    (l : StepList) (m : PerfexpertModule) (p : Phase) (most : ℕ)
    → IsWorkflowOf most l
    → most + 1 < 2 ^ 64
    → IsWorkflowOf (most + 1) (perfexpert_phase_add l m p).1
unfolding perfexpert_phase_add new_step
perfexpert_phase_add-IsWorkflow l m p most (w, few) room =
    let Fine = λ (r : ℕ × StepList). IsWorkflowOf (most + 1) r.1 in
    let same : Fine (0, l) = (w, omega (arith, few)) in
    if_both Fine (compiler_present l.items && same_phase compile p) (λ _. same)
      (λ single.
        if_both Fine (is_in_list l.items m.name p) (λ _. same)
          (λ _. place_step-IsWorkflow l.items l.length most (new_step m p) w few room single))

link_phase-IsWorkflow :
    (present : Bool) (p : Phase) (m : PerfexpertModule) (r : ℕ × StepList) (most : ℕ)
    → IsWorkflowOf most r.1
    → most + 1 < 2 ^ 64
    → IsWorkflowOf (most + 1) (link_phase present p m r).1
unfolding link_phase
link_phase-IsWorkflow present p m (rc, l) most (w, few) room =
    if_both (λ (r : ℕ × StepList). IsWorkflowOf (most + 1) r.1)
      (rc == perfexpert_success && present)
      (λ _. perfexpert_phase_add-IsWorkflow l m p most (w, few) room) (λ _. (w, omega (arith, few)))

link_phases-IsWorkflow :
    (m : PerfexpertModule) (l : StepList) (most : ℕ)
    → IsWorkflowOf most l
    → most + 5 < 2 ^ 64
    → IsWorkflowOf (most + 1 + 1 + 1 + 1 + 1) (link_phases m l).1
unfolding link_phases
link_phases-IsWorkflow m l most w room =
    link_phase-IsWorkflow _ compile m _ (most + 1 + 1 + 1 + 1)
      (link_phase-IsWorkflow _ instrument m _ (most + 1 + 1 + 1)
        (link_phase-IsWorkflow _ measure m _ (most + 1 + 1)
          (link_phase-IsWorkflow _ analyze m _ (most + 1)
            (link_phase-IsWorkflow m.symbols.module_recommend recommend m (0, l) most w
              (omega arith))
            (omega arith))
          (omega arith))
        (omega arith))
      (omega arith)

finish_load-IsWorkflow :
    (name : String) (s : Symbols) (r : ℕ × ModuleGlobals) (most : ℕ)
    → IsWorkflowOf most r.1.steps
    → IsWorkflowOf most (finish_load name s r).1.steps
unfolding finish_load
finish_load-IsWorkflow name s (rc, g) most w = ground arith

link_module-IsWorkflow :
    (lib : Library) (name : String) (s : Symbols) (g : ModuleGlobals) (most : ℕ)
    → ((g' : ModuleGlobals)
        → IsWorkflowOf (most + 5) g'.steps
        → IsWorkflowOf (most + 5) (lib.load name g').1.steps)
    → IsWorkflowOf most g.steps
    → most + 5 < 2 ^ 64
    → IsWorkflowOf (most + 5) (link_module lib name s g).1.steps
unfolding link_module
link_module-IsWorkflow lib name s g most keeps (w, few) room =
    let (wl, fl) = link_phases-IsWorkflow (new_module name s) g.steps most (w, few) room in
    let l = (link_phases (new_module name s) g.steps).1 in
    let linked : IsWorkflowOf (most + 5) l = (wl, omega (arith, fl)) in
    let done =
      finish_load-IsWorkflow name s (lib.load name (record g { steps = l })) (most + 5)
        (keeps (record g { steps = l }) linked) in
    let Fine = λ (r : ℕ × ModuleGlobals). IsWorkflowOf (most + 5) r.1.steps in
    if_both Fine (s.module_version && (s.module_load && (s.module_init && s.module_fini)))
      (λ _.
        if_both Fine ((link_phases (new_module name s) g.steps).0 == 0) (λ _. done) (λ _. linked))
      (λ _. (w, omega (arith, few)))

-- Loading a module, whatever the outcome, leaves a list of steps whose only compile step, if
-- any, stands first, whose length is counted right, and which is at most five steps longer, if
-- it was such a list, its length stays below 2^64, and the module's own load function keeps such
-- a list.
pub perfexpert_module_load-IsWorkflow :
    (lib : Library) (name : String) (g : ModuleGlobals) (most : ℕ)
    → ((g' : ModuleGlobals)
        → IsWorkflowOf (most + 5) g'.steps
        → IsWorkflowOf (most + 5) (lib.load name g').1.steps)
    → IsWorkflowOf most g.steps
    → most + 5 < 2 ^ 64
    → IsWorkflowOf (most + 5) (perfexpert_module_load lib name g).1.steps
unfolding perfexpert_module_load
perfexpert_module_load-IsWorkflow lib name g most keeps (w, few) room =
    let Fine = λ (r : ℕ × ModuleGlobals). IsWorkflowOf (most + 5) r.1.steps in
    let same : Fine (0, g) = (w, omega (arith, few)) in
    if_both Fine (is_available g.modules name) (λ _. same)
      (λ _.
        option_both Fine (lib.search name) (λ _. same)
          (λ s _.
            if_both Fine s.myself_module
              (λ _. link_module-IsWorkflow lib name s g most keeps (w, few) room) (λ _. same)))
