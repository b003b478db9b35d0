-- ===== src/Modules/Search.antt =====
-- What the loop of perfexpert_module_requires over the steps finds.
use Prim.Native.String.{String}
use perfexpert.Prelude.{
  ℕ, suc, ◌+◌, ◌≡◌, refl, ap, ◌∙◌, Bool, true, false, if◌then◌else◌, subst, Option, some, List, [],
  ◌∷◌, length, get_elem?, arith,
}
use perfexpert.Modules.{Phase, PerfexpertStep}
use perfexpert.Modules.Requires.{Found, is_step, is_required, look_at, find_steps, nothing_found}

-- A step that was found stands at the position that was noted, and passes the test.
abbrev pub IsAt : List PerfexpertStep → (PerfexpertStep → Bool) → Option PerfexpertStep → ℕ → Type 0
IsAt items test o x =
    (t : PerfexpertStep) → o ≡ some t → (get_elem? items x ≡ some t) × (test t ≡ true)

IsAt-update :
    (hit : Bool) (items : List PerfexpertStep) (test : PerfexpertStep → Bool) (t : PerfexpertStep)
    (o : Option PerfexpertStep) (x y : ℕ)
    → test t ≡ hit
    → get_elem? items y ≡ some t
    → IsAt items test o x
    → IsAt items test (if hit then some t else o) (if hit then y else x)
IsAt-update true items test t o x y passes here f t' e =
    let same : t ≡ t' = cc in
    subst (λ u. (get_elem? items y ≡ some u) × (test u ≡ true)) same (here, passes)
IsAt-update false items test t o x y passes here f t' e = f t' e

module _ (a : String) (pa : Phase) (b : Option String) (pb : Phase)
    (items : List PerfexpertStep) where
  pub record IsFound (r : Found) : Type 0 where
    pub at_a : IsAt items (λ t. is_step t a pa) r.sa r.xa
    pub at_b : IsAt items (λ t. is_required t b pb) r.sb r.xb

  look_at-IsFound :
      (t : PerfexpertStep) (r : Found)
      → get_elem? items r.x ≡ some t
      → IsFound r
      → IsFound (look_at a pa b pb t r)
  unfolding look_at
  look_at-IsFound t r here f = record {
    at_a =
        IsAt-update (is_step t a pa) items (λ t. is_step t a pa) t r.sa r.xa r.x refl here f.at_a;
    at_b =
        IsAt-update (is_required t b pb) items (λ t. is_required t b pb) t r.sb r.xb r.x refl here
          f.at_b;
  }

  look_at-x : (t : PerfexpertStep) (r : Found) → (look_at a pa b pb t r).x ≡ r.x + 1
  unfolding look_at
  look_at-x t r = refl

  -- From a position on at which the rest of the list stands.
  find_steps-IsFound_from :
      (rest : List PerfexpertStep) (r : Found)
      → ((j : ℕ) → get_elem? items (r.x + j) ≡ get_elem? rest j)
      → IsFound r
      → IsFound (find_steps a pa b pb rest r)
        × ((find_steps a pa b pb rest r).x ≡ r.x + length rest)
  unfolding find_steps
  find_steps-IsFound_from [] r aligned f = (f, omega arith)
  find_steps-IsFound_from (t ∷ ts) r aligned f =
      let here : get_elem? items r.x ≡ some t = ap (get_elem? items) (omega arith) ∙ aligned 0 in
      let next = look_at a pa b pb t r in
      let aligned' =
        λ (j : ℕ). ap (get_elem? items) (omega (arith, look_at-x t r)) ∙ aligned (suc j) in
      let (found, end) = find_steps-IsFound_from ts next aligned' (look_at-IsFound t r here f) in
      (found, omega (arith, end, look_at-x t r))

  pub find_steps-IsFound :
      IsFound (find_steps a pa b pb items nothing_found)
      × ((find_steps a pa b pb items nothing_found).x ≡ length items)
  find_steps-IsFound =
      let (found, end) =
        find_steps-IsFound_from items nothing_found (λ j. ap (get_elem? items) (omega arith))
          (record { at_a = λ t e. cc; at_b = λ t e. cc }) in
      (found, omega (arith, end))
