-- ===== src/CacheSim/Lru/Whole.antt =====
-- `policy_lru_init` and `policy_lru_access` on the whole data area
-- (lib/cache_sim/cache_policy_lru.c): every set keeps its invariant.
use perfexpert.Prelude.{
  ℕ, zero, suc, ◌+◌, ◌*◌, ◌≤◌, ◌<◌, ◌^◌, ◌≡◌, ◌≢◌, refl, inl, inr, List, true, arith, Bool-cases,
  ◌==◌, ==_iff, set, replicate, length-replicate, get_or, ap,
}
use perfexpert.CacheSim.Types.{
  LruLine, Cache, lru_area, ok, l1_hit, load_prefetch, uint64_max, success,
}
use perfexpert.CacheSim.Address.{address_to_set, FitsWord, address_to_set-lt}
use perfexpert.CacheSim.Lru.{unused_line, policy_lru_init, access_area, policy_lru_access}
use perfexpert.CacheSim.Lru.Loop.{line_at}
use perfexpert.CacheSim.Lru.Sets.{IsWays, hit_code, touched}
use perfexpert.CacheSim.Lru.Access.{
  IsAccessed, IsWays-agree, access_lines-resident, access_lines-IsAccessed,
}

-- The index of the first line of a set.
abbrev pub base_of : Cache → ℕ → ℕ
base_of c s = s * c.associativity

-- The area holds a line for each way of each set, and every set keeps its invariant.
pub record IsLru (c : Cache) (lines : List LruLine) : Type 0 where
  pub area_is : c.area ≡ lru_area lines
  pub some_way : 0 < c.associativity
  pub sets :
      (s : ℕ) → s < 2 ^ c.set_length → IsWays lines (base_of c s) (base_of c s + c.associativity)

sets_apart : (s t a : ℕ) → s < t → s * a + a ≤ t * a
sets_apart s t a h = grind arith

get_or-replicate {ℓ} : {A : Type ℓ} (n : ℕ) (a : A) (i : ℕ) → get_or (replicate n a) i a ≡ a
get_or-replicate zero a i = refl
get_or-replicate (suc n) a zero = refl
get_or-replicate (suc n) a (suc i) = get_or-replicate n a i

set_bound : (s n a : ℕ) → s < n → s * a + a ≤ n * a
set_bound s n a h = grind arith

-- With memory, at least one way and room for the sets, policy_lru_init succeeds and its area is
-- well formed.
pub policy_lru_init-IsLru :
    (c : Cache)
    → 0 < c.associativity
    → 2 ^ c.set_length * c.associativity ≤ c.total_lines
    → ((policy_lru_init true c).0 ≡ success)
      × IsLru (policy_lru_init true c).1 (replicate c.total_lines unused_line)
unfolding policy_lru_init
policy_lru_init-IsLru c some fits = (
  refl,
  record {
    area_is = refl;
    some_way = some;
    sets = λ s h. record {
      fits = omega (
        arith,
        length-replicate c.total_lines unused_line,
        set_bound s (2 ^ c.set_length) c.associativity h,
      );
      free_last = λ i j p q r e.
          ap (λ (v : LruLine). v.line_id) (get_or-replicate c.total_lines unused_line j);
      distinct = λ i j p q r e.
          ap (λ (v : LruLine). v.line_id) (get_or-replicate c.total_lines unused_line i);
    };
  },
)

-- One access on a well-formed area.
pub record IsUpdated (c c' : Cache) (lines lines' : List LruLine) (id load : ℕ) : Type 0 where
  pub only_area : c' ≡ record c { area = lru_area lines' }
  pub valid : IsLru c' lines'
  pub set :
      IsAccessed lines lines'
        (base_of c (address_to_set c id))
        (base_of c (address_to_set c id) + c.associativity)
        id
        load
        c.access

access_area_of :
    (c : Cache) {lines : List LruLine} (id load : ℕ)
    → c.area ≡ lru_area lines
    → policy_lru_access c id load ≡ access_area c id load (lru_area lines)
unfolding policy_lru_access
access_area_of c id load e = ap (access_area c id load) e

IsLru-IsAccessed :
    {c : Cache} {lines : List LruLine} (lines' : List LruLine) (s id load : ℕ)
    → IsLru c lines
    → IsAccessed lines lines' (base_of c s) (base_of c s + c.associativity) id load c.access
    → IsLru (record c { area = lru_area lines' }) lines'
IsLru-IsAccessed {c} {lines} lines' s id load v done = record {
  area_is = refl;
  some_way = v.some_way;
  sets = λ t h. elim (Bool-cases (t == s)) [
    | inl e ↦ rw ((==_iff t s).0 e) done.ways
    | inr e ↦ IsWays-agree (v.sets t h) lines' done.same_length (λ j p q. done.others j (
        ground (
          arith,
          done.from_base,
          done.in_set,
          sets_apart s t c.associativity,
          sets_apart t s c.associativity,
        )))
  ];
}

-- On a well-formed LRU area, where the address parts fit a word and the line id is not
-- UINT64_MAX, every access returns, keeps the invariant of every set, leaves the line resident
-- with a fresh age, and changes nothing but that one line.
pub policy_lru_access-IsUpdated :
    {c : Cache} {lines : List LruLine} (id load : ℕ)
    → FitsWord c
    → IsLru c lines
    → id ≢ uint64_max
    → (code : ℕ) × (c' : Cache) × (lines' : List LruLine) × (policy_lru_access c id load
        ≡ ok (code, c'))
      × IsUpdated c c' lines lines' id load
unfolding access_area
policy_lru_access-IsUpdated {c} {lines} id load word v named =
    let s = address_to_set c id in
    let (code, lines', e, done) =
      access_lines-IsAccessed (base_of c s) c.associativity id load c.access
        (v.sets s (address_to_set-lt c word id)) v.some_way named in
    (
      code,
      record c { area = lru_area lines' },
      lines',
      rw (access_area_of c id load v.area_is, e),
      record { only_area = refl; valid = IsLru-IsAccessed lines' s id load v done; set = done },
    )

hits_again :
    (c : Cache) {lines lines' : List LruLine} (id load : ℕ)
    → IsAccessed lines lines'
        (base_of c (address_to_set c id))
        (base_of c (address_to_set c id) + c.associativity)
        id
        load
        c.access
    → id ≢ uint64_max
    → load ≢ load_prefetch
    → (c'' : Cache) × (policy_lru_access (record c { area = lru_area lines' }) id load
        ≡ ok (l1_hit, c''))
unfolding access_area address_to_set
hits_again c {lines'} id load done named demand =
    let c' : Cache = record c { area = lru_area lines' } in
    let base = base_of c (address_to_set c id) in
    let code : hit_code (line_at lines' done.at) ≡ l1_hit = ground (arith, done.demanded demand) in
    let way = line_at lines' done.at in
    (
      record c { area = lru_area (set lines' done.at (touched way c.access)) },
      rw (
        access_area_of c' id load refl,
        access_lines-resident base c.associativity done.ways id load c.access done.at named
            done.from_base done.in_set done.resident,
        code,
      ),
    )

-- On a well-formed LRU area, where the address parts fit a word and the line id is not
-- UINT64_MAX, a demand access returns, and a second demand access to the same line is a plain
-- hit.
policy_lru_access_again :
    {c : Cache} {lines : List LruLine} (id load : ℕ)
    → FitsWord c
    → IsLru c lines
    → id ≢ uint64_max
    → load ≢ load_prefetch
    → (code : ℕ) × (c' c'' : Cache) × (policy_lru_access c id load ≡ ok (code, c'))
      × (policy_lru_access c' id load ≡ ok (l1_hit, c''))
policy_lru_access_again {c} id load word v named demand =
    let (code, c', lines', e, u) = policy_lru_access-IsUpdated id load word v named in
    let (c'', again) = hits_again c id load u.set named demand in
    (code, c', c'', e, rw u.only_area again)
