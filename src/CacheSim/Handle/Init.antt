-- ===== src/CacheSim/Handle/Init.antt =====
-- `cache_sim_init` with the LRU policy (lib/cache_sim/cache_sim.c): the cache that it returns.
use perfexpert.Prelude.{
  ℕ, zero, suc, ◌+◌, ◌*◌, ◌/◌, ◌^◌, ◌≤◌, ◌<◌, ◌≡◌, refl, true, false, none, some, List, [], ◌∷◌,
  ◌==◌, ltb, Bool-cases, inl, inr, arith, replicate, two-pow-add, ◌||◌,
}
use native.Mathlib.Nat.{
  pow-suc, pow-le-pow_right, mul-le-mul, le_trans, le_refl, div-le_self, div-mul-le_self,
}
use perfexpert.CacheSim.Types.{Cache, ok, halvings, log2_int, lru, no_area, null, invalid}
use perfexpert.CacheSim.Address.{FitsWord}
use perfexpert.CacheSim.Lru.{policy_lru_init, unused_line}
use perfexpert.CacheSim.Lru.Whole.{IsLru, policy_lru_init-IsLru}
use perfexpert.CacheSim.Handle.{cache_create, set_policy, cache_sim_init}

abbrev pub policy_name : List ℕ
policy_name = b'l' ∷ b'r' ∷ b'u' ∷ []

-- The logarithm of a positive number, rounded down.
halvings-bounds :
    (fuel n : ℕ) → 0 < n → n ≤ fuel → (2 ^ halvings fuel n ≤ n) × (n < 2 ^ suc (halvings fuel n))
unfolding halvings
halvings-bounds zero n pos h = absurd (omega arith)
halvings-bounds (suc fuel) n pos h = elim (Bool-cases (ltb n 2)) [
  | inl one ↦ rw (one, halvings) (ground arith)
  | inr more ↦
      let k = halvings fuel (n / 2) in
      rw (more, halvings)
        (ground (
          arith,
          pow-suc 2 k,
          pow-suc 2 (suc k),
          halvings-bounds fuel (n / 2) (ground arith) (omega arith),
        ))
]

log2_int_lem : (n : ℕ) → 0 < n → (k : ℕ) × (log2_int n ≡ ok k) × (2 ^ k ≤ n) × (n < 2 ^ suc k)
unfolding log2_int
log2_int_lem zero pos = absurd (omega arith)
log2_int_lem (suc n) pos =
    let (lo, hi) = halvings-bounds (suc n) (suc n) pos (omega arith) in
    (halvings (suc n) (suc n), refl, lo, hi)

lt_of_pow : (a b : ℕ) → 2 ^ a < 2 ^ b → a < b
lt_of_pow a b h = elim (Bool-cases (ltb a b)) [
  | inl below ↦ ground arith
  | inr above ↦
      absurd (omega (arith, pow-le-pow_right {n = 2} (omega arith) {i = b} {j = a} (ground arith)))
]

-- The bits of the set and of the offset together address no more than the cache's bytes.
address_bits :
    (total line sets s o : ℕ)
    → sets * line ≤ total
    → total < 2 ^ 31
    → 2 ^ s ≤ sets
    → 2 ^ o ≤ line
    → s + o < 31
address_bits total line sets s o fits small hs ho =
    lt_of_pow (s + o) 31 (rw two-pow-add (omega (arith, mul-le-mul hs ho)))

-- What `cache_create` makes of sizes and lengths.
abbrev created : (total_size line_size associativity s o : ℕ) → Cache
created total line ways s o = record {
  total_size = total;
  line_size = line;
  associativity = ways;
  total_lines = total / line;
  total_sets = total / line / ways;
  offset_length = o;
  set_length = s;
  access_fn = some lru;
  area = no_area;
  reuse_data = null;
  reuse_limit = 0;
  reuse_fn = none;
  symbol_data = null;
  next_line = invalid;
  access = 0;
  hit = 0;
  miss = 0;
  conflict = 0;
  prefetcher_next_line = 0;
  prefetcher_hit = 0;
  prefetcher_evict = 0;
}

sets_fit :
    (total line ways : ℕ)
    → 2 ≤ total / line / ways
    → (total / line / ways * line ≤ total)
      × (total / line / ways * ways ≤ total / line)
      × (0 < total)
sets_fit total line ways h =
    let in_lines = div-le_self (total / line) ways in
    (
      le_trans (mul-le-mul in_lines (le_refl line)) (div-mul-le_self total line),
      div-mul-le_self (total / line) ways,
      omega (arith, in_lines, div-le_self total line),
    )

-- With sizes below 2^31 that make at least two sets of lines of at least two bytes, and with
-- memory, cache_sim_init returns a cache for the lru policy with a well-formed empty area,
-- address parts that fit a word, zero counters, and reuse distances that are off.
pub cache_sim_init-IsLru :
    (total_size line_size associativity : ℕ)
    → total_size < 2 ^ 31
    → 2 ≤ line_size
    → 0 < associativity
    → 2 ≤ total_size / line_size / associativity
    → (c : Cache) × (cache_sim_init true true total_size line_size associativity policy_name
        ≡ ok (some c))
      × IsLru c (replicate (total_size / line_size) unused_line)
      × FitsWord c
      × (c.access_fn ≡ some lru)
      × (c.access ≡ 0)
      × (c.hit ≡ 0)
      × (c.miss ≡ 0)
      × (c.conflict ≡ 0)
      × (c.line_size ≡ line_size)
      × (c.reuse_data ≡ null)
unfolding cache_sim_init cache_create set_policy policy_lru_init
cache_sim_init-IsLru total line ways small two_bytes pos two_sets =
    let lines = total / line in
    let sets = lines / ways in
    let (o, eo, o_le, o_lt) = log2_int_lem line (omega arith) in
    let (s, es, s_le, s_lt) = log2_int_lem sets (omega arith) in
    let (fits, in_lines, some_byte) = sets_fit total line ways two_sets in
    let guard : (total == 0 || (line == 0 || ways == 0)) ≡ false = ground arith in
    let c : Cache = created total line ways s o in
    let room : 2 ^ s * ways ≤ lines = le_trans (mul-le-mul s_le (le_refl ways)) in_lines in
    (
      (policy_lru_init true c).1,
      rw (guard, eo, es),
      (policy_lru_init-IsLru c pos room).1,
      record {
        some_set_bit = omega (arith, lt_of_pow 1 (suc s) (omega arith));
        some_offset_bit = omega (arith, lt_of_pow 1 (suc o) (omega arith));
        fits = omega (arith, address_bits total line sets s o fits small s_le o_le);
      },
      refl,
      refl,
      refl,
      refl,
      refl,
      refl,
      refl,
    )
