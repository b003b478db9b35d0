-- ===== src/CacheSim/Access/Codes.antt =====
-- What a replacement policy returns to `cache_sim_access` (lib/cache_sim/cache_sim_access.c): one of
-- four codes, and the cache with nothing but its data area changed.
use perfexpert.Prelude.{
  ℕ, ◌+◌, ◌*◌, ◌≡◌, refl, ◌⊎◌, inl, inr, Option, none, some, List, ◌==◌, if◌then◌else◌, get_elem?,
  set, Bool-cases,
}
use perfexpert.CacheSim.Types.{
  Cache, Area, lru_area, plru_area, no_area, Policy, lru, plru, LruLine, PlruLine, Outcome, ok,
  fault, ◌>>=◌, defined, l1_hit, l1_hit_prefetch, l1_miss, l1_prefetch_evict, load_prefetch,
  log2_int,
}
use perfexpert.CacheSim.Address.{address_to_set}
use perfexpert.CacheSim.Lru.{
  Scan, found, victim, scan, finish, access_lines, access_area, policy_lru_access,
}
use perfexpert.CacheSim.Plru.{
  find_line, toggle_path, choose_way, plru_end, plru_access_area, policy_plru_access,
}
use perfexpert.CacheSim.Access.{access_fn_call}

-- A hit or a miss, each in its two forms.
abbrev pub IsHit : ℕ → Type 0
IsHit rc = (rc ≡ l1_hit) ⊎ (rc ≡ l1_hit + l1_hit_prefetch)

abbrev pub IsMiss : ℕ → Type 0
IsMiss rc = (rc ≡ l1_miss) ⊎ (rc ≡ l1_miss + l1_prefetch_evict)

-- Of an outcome that is a result, the result satisfies `P`.
abbrev pub AllOk {ℓ κ} : {A : Type ℓ} → (A → Type κ) → Outcome A → Type κ
AllOk P (ok a) = P a
AllOk P fault = Unit

pub AllOk-bind {ℓ κ μ} :
    {A : Type ℓ} {B : Type κ} (Q : B → Type μ) (m : Outcome A) (f : A → Outcome B)
    → ((a : A) → AllOk Q (f a))
    → AllOk Q (m >>= f)
AllOk-bind Q (ok a) f k = k a
AllOk-bind Q fault f k = tt

-- The same, where the second part needs what is known of the first.
pub AllOk-then {ℓ κ μ ν} :
    {A : Type ℓ} {B : Type κ} (P : A → Type μ) (Q : B → Type ν) (m : Outcome A) (f : A → Outcome B)
    → AllOk P m
    → ((a : A) → P a → AllOk Q (f a))
    → AllOk Q (m >>= f)
AllOk-then P Q (ok a) f h k = k a h
AllOk-then P Q fault f h k = tt

pub AllOk-ok {ℓ κ} :
    {A : Type ℓ} (P : A → Type κ) (m : Outcome A) {a : A} → AllOk P m → m ≡ ok a → P a
AllOk-ok P m h e = rw e at h

abbrev IsCode : ℕ → Type 0
IsCode rc = IsHit rc ⊎ IsMiss rc

IsCode-hit :
    (load : ℕ) {A : Type 0} (x y : A)
    → AllOk
        (λ (r : ℕ × A). IsCode r.0)
        (if load == load_prefetch then ok (l1_hit + l1_hit_prefetch, x) else ok (l1_hit, y))
IsCode-hit load x y = elim (Bool-cases (load == load_prefetch)) [
  | inl p ↦ rw p (inl (inr refl))
  | inr p ↦ rw p (inl (inl refl))
]

IsCode-miss :
    (load : ℕ) → IsCode (if load == load_prefetch then l1_miss + l1_prefetch_evict else l1_miss)
IsCode-miss load = elim (Bool-cases (load == load_prefetch)) [
  | inl p ↦ rw p (inr (inr refl))
  | inr p ↦ rw p (inr (inl refl))
]

finish-IsCode :
    (lines : List LruLine) (id load now : ℕ) (end : Scan)
    → AllOk (λ r. IsCode r.0) (finish lines id load now end)
unfolding finish
finish-IsCode lines id load now (found i) =
    AllOk-bind _ (defined (get_elem? lines i)) _ (λ way. IsCode-hit way.load _ _)
finish-IsCode lines id load now (victim i) = AllOk-bind _ (defined (get_elem? lines i)) _ (λ way.
    elim (Bool-cases (way.load == load_prefetch)) [
      | inl p ↦ rw p (inr (inr refl))
      | inr p ↦ rw p (inr (inl refl))
    ])

plru_end-IsCode :
    (lines : List PlruLine) (base levels mask id load : ℕ) (way : Option ℕ)
    → AllOk (λ r. IsCode r.0) (plru_end lines base levels mask id load way)
unfolding plru_end
plru_end-IsCode lines base levels mask id load none =
    AllOk-bind _ (choose_way levels 0 0 0 mask) _ (λ r.
      AllOk-bind _ (defined (get_elem? lines (base + r.0))) _ (λ block. IsCode-miss block.load))
plru_end-IsCode lines base levels mask id load (some way) =
    AllOk-bind _ (toggle_path levels way levels 0 0 0 mask) _ (λ mask'.
      AllOk-bind _ (defined (get_elem? lines (base + way))) _ (λ block.
        elim (Bool-cases (block.load == load_prefetch)) [
          | inl p ↦ rw p (inl (inr refl))
          | inr p ↦ rw p (inl (inl refl))
        ]))

-- The result of a policy: a code, and the cache with another data area.
pub record IsResult (c : Cache) (rc : ℕ) (c' : Cache) : Type 0 where
  pub code : IsHit rc ⊎ IsMiss rc
  pub only_area : c' ≡ record c { area = c'.area }

abbrev pub Results : Cache → Outcome (ℕ × Cache) → Type 0
Results c = AllOk (λ r. IsResult c r.0 r.1)

-- A step that hands on the code of a result and puts what it computed into the data area.
Results-store :
    {R : Type 0} (c : Cache) (m : Outcome R) (code : R → ℕ) (new : R → Area)
    → AllOk (λ r. IsCode (code r)) m
    → Results c (m >>= λ r. ok (code r, record c { area = new r }))
Results-store c (ok r) code new h = record { code = h; only_area = refl }
Results-store c fault code new h = tt

lru-Results : (c : Cache) (id load : ℕ) (area : Area) → Results c (access_area c id load area)
unfolding access_area access_lines
lru-Results c id load (lru_area lines) =
    let base = address_to_set c id * c.associativity in
    Results-store c (access_lines lines base c.associativity id load c.access) (λ r. r.0)
      (λ r. lru_area r.1)
      (AllOk-bind _ (scan lines id c.associativity base base) _
        (finish-IsCode lines id load c.access))
lru-Results c id load no_area = tt
lru-Results c id load (plru_area masks lines) = tt

plru-Results : (c : Cache) (id load : ℕ) (area : Area) → Results c (plru_access_area c id load area)
unfolding plru_access_area
plru-Results c id load (plru_area masks lines) =
    let s = address_to_set c id in
    let base = s * c.associativity in
    AllOk-bind _ (defined (get_elem? masks s)) _ (λ mask.
      AllOk-bind _ (log2_int c.associativity) _ (λ levels.
        AllOk-bind _ (find_line lines id base c.associativity 0) _ (λ way.
          Results-store c (plru_end lines base levels mask id load way) (λ r. r.0)
            (λ r. plru_area (set masks s r.1) r.2)
            (plru_end-IsCode lines base levels mask id load way))))
plru-Results c id load no_area = tt
plru-Results c id load (lru_area lines) = tt

pub call-Results :
    (p : Option Policy) (c : Cache) (id load : ℕ) → Results c (access_fn_call p c id load)
unfolding access_fn_call policy_lru_access policy_plru_access
call-Results none c id load = tt
call-Results (some lru) c id load = lru-Results c id load c.area
call-Results (some plru) c id load = plru-Results c id load c.area

pub access_fn_call-IsResult :
    (p : Option Policy) (c : Cache) (id load : ℕ) {rc : ℕ} {c' : Cache}
    → access_fn_call p c id load ≡ ok (rc, c')
    → IsResult c rc c'
access_fn_call-IsResult p c id load e = AllOk-ok _ _ (call-Results p c id load) e
