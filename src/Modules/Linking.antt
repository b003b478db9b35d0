-- ===== src/Modules/Linking.antt =====
-- How the phases of a module are linked into the list of steps, one by one.
use Prim.Native.String.{String}
use perfexpert.Prelude.{
  ℕ, ◌+◌, ◌^◌, ◌≤◌, ◌<◌, ◌≡◌, refl, Bool, true, false, List, [], ◌∷◌, ◌++◌, length, if◌then◌else◌,
  append_assoc, arith,
}
use perfexpert.CacheSim.Types.{inc64}
use perfexpert.Modules.{
  Phase, phase_code, compile, instrument, measure, analyze, recommend, same_phase, PerfexpertModule,
  PerfexpertStep, StepList,
}
use perfexpert.Modules.Steps.{
  list_prepend, compiler_present, is_in_list, new_step, perfexpert_phase_add,
}
use perfexpert.Modules.Load.{link_phase, link_phases}
use perfexpert.Modules.Compiler.{place_step-first, place_step-second}

-- The step of a phase, if the module implements it.
abbrev pub step_if : Bool → PerfexpertModule → Phase → List PerfexpertStep
step_if true m p = new_step m p ∷ []
step_if false m p = []

-- The steps of a module but its compile step, in the order in which they run.
abbrev pub later_steps : PerfexpertModule → List PerfexpertStep
later_steps m =
    step_if m.symbols.module_instrument m instrument
    ++ (step_if m.symbols.module_measure m measure
        ++ (step_if m.symbols.module_analyze m analyze
            ++ step_if m.symbols.module_recommend m recommend))

-- No step of this name is in the list.
abbrev pub IsUnnamed : String → List PerfexpertStep → Type 0
IsUnnamed name ss = (p : Phase) → is_in_list ss name p ≡ false

abbrev count_if : Bool → ℕ → ℕ
count_if true n = inc64 n
count_if false n = n

-- While no compile step is there, a phase that the module implements goes to the front.
link_phase-absent :
    (b : Bool) (m : PerfexpertModule) (p : Phase) (items : List PerfexpertStep) (n : ℕ)
    → compiler_present items ≡ false
    → is_in_list items m.name p ≡ false
    → link_phase b p m (0, record { items = items; length = n })
      ≡ (0, record { items = step_if b m p ++ items; length = count_if b n })
unfolding link_phase perfexpert_phase_add list_prepend
link_phase-absent true m p items n absent fresh =
    rw (absent, perfexpert_phase_add)
      (rw (fresh, perfexpert_phase_add)
        (rw (place_step-first (record { items = items; length = n }) (new_step m p) absent)))
link_phase-absent false m p items n absent fresh = refl

-- Behind a compile step, it goes to the second place.
link_phase-second :
    (b : Bool) (m : PerfexpertModule) (p : Phase) (c : PerfexpertStep) (rest : List PerfexpertStep)
    (n : ℕ)
    → compiler_present (c ∷ rest) ≡ true
    → n ≡ length (c ∷ rest)
    → same_phase compile p ≡ false
    → is_in_list (c ∷ rest) m.name p ≡ false
    → link_phase b p m (0, record { items = c ∷ rest; length = n })
      ≡ (0, record { items = c ∷ (step_if b m p ++ rest); length = count_if b n })
unfolding link_phase perfexpert_phase_add
link_phase-second true m p c rest n present counted other fresh =
    rw (present, perfexpert_phase_add)
      (rw (other, perfexpert_phase_add)
        (rw (fresh, perfexpert_phase_add)
          (rw (place_step-second c (new_step m p) rest n present counted))))
link_phase-second false m p c rest n present counted other fresh = refl

-- The search finds a compile step or not, and none of the module's steps with a phase below `k`.
abbrev pub IsReady : Bool → String → (k : ℕ) → List PerfexpertStep → Type 0
IsReady found name k items =
    (compiler_present items ≡ found)
    × ((q : Phase) → phase_code q < k → is_in_list items name q ≡ false)

IsReady-step_if :
    (b : Bool) (m : PerfexpertModule) (p : Phase) (items : List PerfexpertStep)
    → 0 < phase_code p
    → IsReady false m.name (phase_code p + 1) items
    → IsReady false m.name (phase_code p) (step_if b m p ++ items)
unfolding is_in_list compiler_present new_step
IsReady-step_if true m p items later (absent, fresh) =
    (ground arith, λ q less. ground (arith, fresh q))
IsReady-step_if false m p items later (absent, fresh) = (absent, λ q less. fresh q (omega arith))

IsReady-step_if_second :
    (b : Bool) (m : PerfexpertModule) (p : Phase) (c : PerfexpertStep) (items : List PerfexpertStep)
    → IsReady true m.name (phase_code p + 1) (c ∷ items)
    → IsReady true m.name (phase_code p) (c ∷ (step_if b m p ++ items))
unfolding is_in_list compiler_present new_step
IsReady-step_if_second true m p c items (present, fresh) =
    (ground arith, λ q less. ground (arith, fresh q))
IsReady-step_if_second false m p c items (present, fresh) =
    (present, λ q less. fresh q (omega arith))

pub link_phases-first :
    (m : PerfexpertModule) (items : List PerfexpertStep) (n : ℕ)
    → IsReady false m.name 5 items
    → ((link_phases m (record { items = items; length = n })).0 ≡ 0)
      × ((link_phases m (record { items = items; length = n })).1.items
          ≡ step_if m.symbols.module_compile m compile ++ (later_steps m ++ items))
unfolding link_phases
link_phases-first m items n r5 =
    let s = m.symbols in
    let r4 = IsReady-step_if s.module_recommend m recommend _ (omega arith) r5 in
    let r3 = IsReady-step_if s.module_analyze m analyze _ (omega arith) r4 in
    let r2 = IsReady-step_if s.module_measure m measure _ (omega arith) r3 in
    let r1 = IsReady-step_if s.module_instrument m instrument _ (omega arith) r2 in
    let e5 =
      link_phase-absent s.module_recommend m recommend _ n r5.0 (r5.1 recommend (omega arith)) in
    let n4 : ℕ = count_if s.module_recommend n in
    let e4 = link_phase-absent s.module_analyze m analyze _ n4 r4.0 (r4.1 analyze (omega arith)) in
    let n3 : ℕ = count_if s.module_analyze n4 in
    let e3 = link_phase-absent s.module_measure m measure _ n3 r3.0 (r3.1 measure (omega arith)) in
    let n2 : ℕ = count_if s.module_measure n3 in
    let e2 =
      link_phase-absent s.module_instrument m instrument _ n2 r2.0
        (r2.1 instrument (omega arith)) in
    let n1 : ℕ = count_if s.module_instrument n2 in
    let e1 = link_phase-absent s.module_compile m compile _ n1 r1.0 (r1.1 compile (omega arith)) in
    rw (e5, e4, e3, e2, e1) (refl, simp append_assoc)

count_if-eq-length :
    (b : Bool) (m : PerfexpertModule) (p : Phase) (c : PerfexpertStep) (rest : List PerfexpertStep)
    (n : ℕ)
    → n ≡ length (c ∷ rest)
    → n + 1 < 2 ^ 64
    → (count_if b n ≡ length (c ∷ (step_if b m p ++ rest))) × (count_if b n ≤ n + 1)
count_if-eq-length true m p c rest n counted room = (omega arith, omega arith)
count_if-eq-length false m p c rest n counted room = (counted, omega arith)

-- A second compiler is refused.
link_phase-refused :
    (b : Bool) (m : PerfexpertModule) (l : StepList)
    → compiler_present l.items ≡ true
    → link_phase b compile m (0, l) ≡ ((if b then 1 else 0), l)
unfolding link_phase perfexpert_phase_add
link_phase-refused true m l present = rw (present, perfexpert_phase_add)
link_phase-refused false m l present = refl

pub link_phases-second :
    (m : PerfexpertModule) (c : PerfexpertStep) (rest : List PerfexpertStep) (n : ℕ)
    → n ≡ length (c ∷ rest)
    → n + 5 < 2 ^ 64
    → IsReady true m.name 5 (c ∷ rest)
    → ((link_phases m (record { items = c ∷ rest; length = n })).0
        ≡ (if m.symbols.module_compile then 1 else 0))
      × ((link_phases m (record { items = c ∷ rest; length = n })).1.items
          ≡ c ∷ (later_steps m ++ rest))
unfolding link_phases
link_phases-second m c rest n h5 room r5 =
    let s = m.symbols in
    let r4 = IsReady-step_if_second s.module_recommend m recommend c _ r5 in
    let r3 = IsReady-step_if_second s.module_analyze m analyze c _ r4 in
    let r2 = IsReady-step_if_second s.module_measure m measure c _ r3 in
    let r1 = IsReady-step_if_second s.module_instrument m instrument c _ r2 in
    let n4 : ℕ = count_if s.module_recommend n in
    let n3 : ℕ = count_if s.module_analyze n4 in
    let n2 : ℕ = count_if s.module_measure n3 in
    let n1 : ℕ = count_if s.module_instrument n2 in
    let h4 = count_if-eq-length s.module_recommend m recommend c _ n h5 (omega arith) in
    let h3 = count_if-eq-length s.module_analyze m analyze c _ n4 h4.0 (omega (arith, h4.1)) in
    let h2 =
      count_if-eq-length s.module_measure m measure c _ n3 h3.0 (omega (arith, h4.1, h3.1)) in
    let e5 =
      link_phase-second s.module_recommend m recommend c _ n r5.0 h5 refl
        (r5.1 recommend (omega arith)) in
    let e4 =
      link_phase-second s.module_analyze m analyze c _ n4 r4.0 h4.0 refl
        (r4.1 analyze (omega arith)) in
    let e3 =
      link_phase-second s.module_measure m measure c _ n3 r3.0 h3.0 refl
        (r3.1 measure (omega arith)) in
    let e2 =
      link_phase-second s.module_instrument m instrument c _ n2 r2.0 h2.0 refl
        (r2.1 instrument (omega arith)) in
    let e1 = link_phase-refused s.module_compile m (record { items = _; length = n1 }) r1.0 in
    rw (e5, e4, e3, e2, e1) (refl, simp append_assoc)
