-- ===== src/Modules/Life.antt =====
-- What the calls of perfexpert_module_init and perfexpert_module_fini come to, one after another.
use perfexpert.Prelude.{
  ℕ, zero, suc, ◌+◌, ◌≤◌, ◌<◌, ◌≡◌, inl, inr, refl, some, Option-cases, length, lt_of_get_elem?,
  get_elem?, arith,
}
use perfexpert.Modules.{
  ModuleStatus, initialized, finalized, PerfexpertModule, ModuleGlobals, Library,
}
use perfexpert.Modules.Lifecycle.{
  init_one, fini_one, each_module, perfexpert_module_init, perfexpert_module_fini,
}
use perfexpert.Modules.Status.{
  HasStatus, IsDone, Appends, each_module-IsDone, init_one-IsBody, fini_one-IsBody,
}

-- Initialising the modules returns, with fuel beyond a number of modules that the table does not
-- exceed, if the modules' own init functions only add modules at the end of the table and never
-- take it beyond that number: the table then has at most that many modules, and either the
-- answer is success and every module is initialized, or it is an error.
pub perfexpert_module_init-IsDone :
    (lib : Library) (most fuel : ℕ) (g : ModuleGlobals)
    → Appends most lib.init
    → most < fuel
    → length g.modules ≤ most
    → IsDone initialized most (perfexpert_module_init lib fuel g)
unfolding perfexpert_module_init
perfexpert_module_init-IsDone lib most fuel g appends enough few =
    each_module-IsDone (init_one-IsBody lib most appends) fuel 0 g (omega arith) (omega arith) few
      (λ j m less got. absurd (omega arith))

pub perfexpert_module_fini-IsDone :
    (lib : Library) (most fuel : ℕ) (g : ModuleGlobals)
    → Appends most lib.fini
    → most < fuel
    → length g.modules ≤ most
    → IsDone finalized most (perfexpert_module_fini lib fuel g)
unfolding perfexpert_module_fini
perfexpert_module_fini-IsDone lib most fuel g appends enough few =
    each_module-IsDone (fini_one-IsBody lib most appends) fuel 0 g (omega arith) (omega arith) few
      (λ j m less got. absurd (omega arith))

-- A loop whose body is a no-op on every module.
each_module-still :
    (status : ModuleStatus) (body : ℕ → PerfexpertModule → ModuleGlobals → ℕ × ModuleGlobals)
    (g : ModuleGlobals)
    → HasStatus status g.modules
    → ((i : ℕ) (m : PerfexpertModule) → m.status ≡ status → body i m g ≡ (0, g))
    → (fuel i : ℕ) → length g.modules < fuel + i
    → i ≤ length g.modules
    → each_module body fuel i g ≡ some (0, g)
unfolding each_module
each_module-still status body g all still zero i enough reached = absurd (omega arith)
each_module-still status body g all still (suc fuel) i enough reached =
    elim (Option-cases (get_elem? g.modules i)) [
      | inl end ↦ rw (end, each_module) refl
      | inr (m, here) ↦
          let inside = lt_of_get_elem? g.modules i here in
          rw (here, each_module)
            (rw (still i m (all i m inside here))
              (each_module-still status body g all still fuel (i + 1) (omega arith) (omega arith)))
    ]

init_one-again :
    (lib : Library) (i : ℕ) (m : PerfexpertModule) (g : ModuleGlobals)
    → m.status ≡ initialized
    → init_one lib i m g ≡ (0, g)
unfolding init_one
init_one-again lib i m g has = ground arith

fini_one-again :
    (lib : Library) (i : ℕ) (m : PerfexpertModule) (g : ModuleGlobals)
    → m.status ≡ finalized
    → fini_one lib i m g ≡ (0, g)
unfolding fini_one
fini_one-again lib i m g has = ground arith

init_one-over :
    (lib : Library) (i : ℕ) (m : PerfexpertModule) (g : ModuleGlobals)
    → m.status ≡ finalized
    → init_one lib i m g ≡ (1, g)
unfolding init_one
init_one-over lib i m g has = ground arith

-- Initialising modules that are all initialized, as main does twice, succeeds and calls none
-- of them: neither list changes. The fuel exceeds the number of modules.
pub perfexpert_module_init-again :
    (lib : Library) (fuel : ℕ) (g : ModuleGlobals)
    → HasStatus initialized g.modules
    → length g.modules < fuel
    → perfexpert_module_init lib fuel g ≡ some (0, g)
unfolding perfexpert_module_init
perfexpert_module_init-again lib fuel g all enough =
    each_module-still initialized (init_one lib) g all (λ i m. init_one-again lib i m g) fuel 0
      (omega arith) (omega arith)

-- Once every module is finalized and there is one, finalising again succeeds, with fuel beyond
-- the number of modules, and initialising is an error: neither calls a module or changes a list,
-- and so no second cycle of the workflow is possible.
perfexpert_module_init-finalized :
    (lib : Library) (fuel : ℕ) (g : ModuleGlobals) (m : PerfexpertModule)
    → HasStatus finalized g.modules
    → get_elem? g.modules 0 ≡ some m
    → length g.modules < fuel
    → (perfexpert_module_fini lib fuel g ≡ some (0, g))
      × (perfexpert_module_init lib fuel g ≡ some (1, g))
unfolding perfexpert_module_init perfexpert_module_fini each_module
perfexpert_module_init-finalized lib zero g m all first enough = absurd (omega arith)
perfexpert_module_init-finalized lib (suc fuel) g m all first enough =
    let over = init_one-over lib 0 m g (all 0 m (lt_of_get_elem? g.modules 0 first) first) in
    (
      each_module-still finalized (fini_one lib) g all (λ i m. fini_one-again lib i m g) (suc fuel)
          0 (omega arith) (omega arith),
      rw (first, each_module) (rw over refl),
    )
