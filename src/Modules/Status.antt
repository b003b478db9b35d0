-- ===== src/Modules/Status.antt =====
-- The life of the modules: what perfexpert_module_init and perfexpert_module_fini make of their
-- status.
use Prim.Native.String.{String}
use perfexpert.Prelude.{
  ℕ, zero, suc, ◌+◌, ◌≤◌, ◌<◌, ◌≡◌, ◌≢◌, ◌⊎◌, inl, inr, ◌∙◌, ap, sym, refl, Bool-cases, Option,
  none, some, Option-cases, List, [], ◌∷◌, ◌++◌, length, lt_of_get_elem?, get_elem?, ◌==◌, if_both,
  arith,
}
use perfexpert.CString.{perfexpert_success}
use perfexpert.Modules.{
  ModuleStatus, loaded, initialized, finalized, PerfexpertModule, ModuleGlobals, Library,
}
use perfexpert.Modules.Lifecycle.{set_status, called, init_one, fini_one, each_module}

-- The modules at the positions below `i` have this status.
abbrev pub HasStatusBelow : ModuleStatus → ℕ → List PerfexpertModule → Type 0
HasStatusBelow status i ms =
    (j : ℕ) (m : PerfexpertModule) → j < i → get_elem? ms j ≡ some m → m.status ≡ status

abbrev pub HasStatus : ModuleStatus → List PerfexpertModule → Type 0
HasStatus status ms = HasStatusBelow status (length ms) ms

get_elem?-append_left :
    (xs ys : List PerfexpertModule) (j : ℕ)
    → j < length xs
    → get_elem? (xs ++ ys) j ≡ get_elem? xs j
get_elem?-append_left [] ys j h = elim h [ ]
get_elem?-append_left (x ∷ xs) ys zero h = refl
get_elem?-append_left (x ∷ xs) ys (suc j) h = get_elem?-append_left xs ys j (omega arith)

length-set_status :
    (ms : List PerfexpertModule) (i : ℕ) (status : ModuleStatus)
    → length (set_status ms i status) ≡ length ms
unfolding set_status
length-set_status [] i status = refl
length-set_status (m ∷ ms) zero status = refl
length-set_status (m ∷ ms) (suc i) status = ap suc (length-set_status ms i status)

le_of_get_elem? : (ms : List PerfexpertModule) (i : ℕ) → get_elem? ms i ≡ none → length ms ≤ i
le_of_get_elem? [] i h = omega arith
le_of_get_elem? (m ∷ ms) zero h = cc
le_of_get_elem? (m ∷ ms) (suc i) h = omega (arith, le_of_get_elem? ms i h)

-- Only the module at the position changes, and it gets the status.
set_status-get_elem? :
    (ms : List PerfexpertModule) (i j : ℕ) (status : ModuleStatus) {m : PerfexpertModule}
    → get_elem? (set_status ms i status) j ≡ some m
    → ((i ≡ j) × (m.status ≡ status)) ⊎ ((i ≢ j) × (get_elem? ms j ≡ some m))
unfolding set_status
set_status-get_elem? [] i j status h = cc
set_status-get_elem? (x ∷ xs) zero zero status h = inl (refl, ground arith)
set_status-get_elem? (x ∷ xs) zero (suc j) status h = inr (λ e. omega (arith, e), h)
set_status-get_elem? (x ∷ xs) (suc i) zero status h = inr (λ e. omega (arith, e), h)
set_status-get_elem? (x ∷ xs) (suc i) (suc j) status h =
    elim (set_status-get_elem? xs i j status h) [
      | inl (e, s) ↦ inl (ap suc e, s)
      | inr (other, same) ↦ inr (λ e. other (omega (arith, e)), same)
    ]

-- A body of the loop: on success the status holds for one module more, it never takes the number
-- of modules beyond a bound, and it is a no-op on a module that has the status.
pub record IsBody (status : ModuleStatus) (most : ℕ)
    (body : ℕ → PerfexpertModule → ModuleGlobals → ℕ × ModuleGlobals) : Type 0 where
  pub advances :
      (i : ℕ) (m : PerfexpertModule) (g : ModuleGlobals)
      → get_elem? g.modules i ≡ some m
      → (body i m g).0 ≡ 0
      → HasStatusBelow status i g.modules
      → HasStatusBelow status (i + 1) (body i m g).1.modules
  pub bounded :
      (i : ℕ) (m : PerfexpertModule) (g : ModuleGlobals)
      → length g.modules ≤ most
      → length (body i m g).1.modules ≤ most

-- The loop ended with at most so many modules: by an error, or with the status for all modules.
abbrev pub IsDone : ModuleStatus → (most : ℕ) → Option (ℕ × ModuleGlobals) → Type 0
IsDone status most o =
    (rc : ℕ) × (g : ModuleGlobals) × (o ≡ some (rc, g))
    × (length g.modules ≤ most)
    × (((rc ≡ 0) × HasStatus status g.modules) ⊎ (rc ≡ 1))

module _ {status : ModuleStatus} {most : ℕ}
    {body : ℕ → PerfexpertModule → ModuleGlobals → ℕ × ModuleGlobals}
    (b : IsBody status most body) where
  pub each_module-IsDone :
      (fuel i : ℕ) (g : ModuleGlobals)
      → most < fuel + i
      → i ≤ most
      → length g.modules ≤ most
      → HasStatusBelow status i g.modules
      → IsDone status most (each_module body fuel i g)
  unfolding each_module
  each_module-IsDone zero i g enough reached few below = absurd (omega arith)
  each_module-IsDone (suc fuel) i g enough reached few below =
      elim (Option-cases (get_elem? g.modules i)) [
        | inl end ↦
            rw (end, each_module)
              (
                0,
                g,
                refl,
                few,
                inl (refl, λ j m less. below j m (omega (arith, le_of_get_elem? g.modules i end))),
              )
        | inr (m, here) ↦
            rw (here, each_module)
              (elim (Bool-cases ((body i m g).0 == 0)) [
                | inl done ↦ rw done (
                    each_module-IsDone fuel (i + 1) (body i m g).1 (omega arith)
                      (omega (arith, lt_of_get_elem? g.modules i here)) (b.bounded i m g few)
                      (b.advances i m g here (ground arith) below))
                | inr wrong ↦ rw wrong (1, (body i m g).1, refl, b.bounded i m g few, inr refl)
              ])
      ]

-- A module's own function succeeds or not, and adds modules at the end of the table at most.
abbrev pub Appends : (most : ℕ) → (String → ModuleGlobals → ℕ × ModuleGlobals) → Type 0
Appends most call =
    (name : String) (g : ModuleGlobals)
    → (length g.modules ≤ most → length (call name g).1.modules ≤ most)
      × ((new : List PerfexpertModule) × ((call name g).1.modules ≡ g.modules ++ new))

-- What a call of a module's function leaves, if it succeeds.
called-HasStatusBelow :
    (status : ModuleStatus) (i : ℕ) (g : ModuleGlobals) (new : List PerfexpertModule)
    (r : ℕ × ModuleGlobals)
    → i < length g.modules
    → r.1.modules ≡ g.modules ++ new
    → (called i status r).0 ≡ 0
    → HasStatusBelow status i g.modules
    → HasStatusBelow status (i + 1) (called i status r).1.modules
unfolding called
called-HasStatusBelow status i g new (rc, g') inside appended done below =
    elim (Bool-cases (rc == 0)) [
      | inl fine ↦
          rw (fine, appended)
            (λ j m less got. elim (set_status-get_elem? (g.modules ++ new) i j status got) [
              | inl (e, s) ↦ s
              | inr (other, same) ↦
                  below j m (omega arith)
                    (sym (get_elem?-append_left g.modules new j (omega arith)) ∙ same)
            ])
      | inr wrong ↦ absurd (ground arith)
    ]

called-length :
    (status : ModuleStatus) (i most : ℕ) (r : ℕ × ModuleGlobals)
    → length r.1.modules ≤ most
    → length (called i status r).1.modules ≤ most
unfolding called
called-length status i most (rc, g) few =
    if_both (λ (r : ℕ × ModuleGlobals). length r.1.modules ≤ most) (rc == perfexpert_success)
      (λ _. omega (arith, length-set_status g.modules i status)) (λ _. few)

-- A module that has the status already.
HasStatusBelow-suc :
    (status : ModuleStatus) (i : ℕ) (ms : List PerfexpertModule) (m : PerfexpertModule)
    → get_elem? ms i ≡ some m
    → m.status ≡ status
    → HasStatusBelow status i ms
    → HasStatusBelow status (i + 1) ms
HasStatusBelow-suc status i ms m here has below j m' less got = elim (Bool-cases (j == i)) [
  | inl at ↦ ground arith
  | inr other ↦ below j m' (ground arith) got
]

ModuleStatus-cases : (s : ModuleStatus) → (s ≡ loaded) ⊎ ((s ≡ initialized) ⊎ (s ≡ finalized))
ModuleStatus-cases loaded = inl refl
ModuleStatus-cases initialized = inr (inl refl)
ModuleStatus-cases finalized = inr (inr refl)

module _ (lib : Library) (i : ℕ) (m : PerfexpertModule) (g : ModuleGlobals) where
  init_one-cases :
      (init_one lib i m g ≡ called i initialized (lib.init m.name g))
      ⊎ (((m.status ≡ initialized) × (init_one lib i m g ≡ (0, g))) ⊎ (init_one lib i m g ≡ (1, g)))
  unfolding init_one
  init_one-cases = elim (ModuleStatus-cases m.status) [
    | inl new ↦ inl (ground arith)
    | inr (inl again) ↦ inr (inl (again, ground arith))
    | inr (inr over) ↦ inr (inr (ground arith))
  ]

  fini_one-cases :
      (fini_one lib i m g ≡ called i finalized (lib.fini m.name g))
      ⊎ ((m.status ≡ finalized) × (fini_one lib i m g ≡ (0, g)))
  unfolding fini_one
  fini_one-cases = elim (ModuleStatus-cases m.status) [
    | inl new ↦ inl (ground arith)
    | inr (inl running) ↦ inl (ground arith)
    | inr (inr over) ↦ inr (over, ground arith)
  ]

pub init_one-IsBody :
    (lib : Library) (most : ℕ) → Appends most lib.init → IsBody initialized most (init_one lib)
init_one-IsBody lib most appends = record {
  advances = λ i m g here done below. elim (init_one-cases lib i m g) [
    | inl e ↦ rw e (
        called-HasStatusBelow initialized i g (appends m.name g).1.0 (lib.init m.name g)
          (lt_of_get_elem? g.modules i here) (appends m.name g).1.1 (rw e at done) below)
    | inr (inl (has, e)) ↦ rw e (HasStatusBelow-suc initialized i g.modules m here has below)
    | inr (inr e) ↦ absurd (ground arith)
  ];
  bounded = λ i m g few. elim (init_one-cases lib i m g) [
    | inl e ↦ rw e (called-length initialized i most (lib.init m.name g) ((appends m.name g).0 few))
    | inr (inl (has, e)) ↦ rw e few
    | inr (inr e) ↦ rw e few
  ];
}

pub fini_one-IsBody :
    (lib : Library) (most : ℕ) → Appends most lib.fini → IsBody finalized most (fini_one lib)
fini_one-IsBody lib most appends = record {
  advances = λ i m g here done below. elim (fini_one-cases lib i m g) [
    | inl e ↦ rw e (
        called-HasStatusBelow finalized i g (appends m.name g).1.0 (lib.fini m.name g)
          (lt_of_get_elem? g.modules i here) (appends m.name g).1.1 (rw e at done) below)
    | inr (has, e) ↦ rw e (HasStatusBelow-suc finalized i g.modules m here has below)
  ];
  bounded = λ i m g few. elim (fini_one-cases lib i m g) [
    | inl e ↦ rw e (called-length finalized i most (lib.fini m.name g) ((appends m.name g).0 few))
    | inr (has, e) ↦ rw e few
  ];
}
