-- ===== src/CacheSim/Handle.antt =====
-- lib/cache_sim/cache_sim.c: making and finishing a cache. Sizes are below `2 ^ 31`, so that the
-- conversions to `int` keep them. What is printed is not modelled.
pub mod Init
pub mod Lifetime
use perfexpert.Prelude.{
  ℕ, ◌/◌, Bool, true, false, ◌||◌, Option, none, some, List, [], ◌∷◌, ◌==◌, if◌then◌else◌,
}
use perfexpert.CacheSim.Types.{
  Cache, Policy, lru, plru, invalid, no_area, null, Outcome, ok, ◌>>=◌, success, error, log2_int,
}
use perfexpert.CacheSim.Lru.{policy_lru_init}
use perfexpert.CacheSim.Plru.{policy_plru_init}
use perfexpert.CacheSim.Reuse.{is_null, cache_sim_reuse_disable}
use perfexpert.CacheSim.Symbol.{text_eq, cache_sim_symbol_disable}

-- The table of policies.
abbrev pub policies : List (List ℕ × Policy)
policies = (b'l' ∷ b'r' ∷ b'u' ∷ [], lru) ∷ (b'p' ∷ b'l' ∷ b'r' ∷ b'u' ∷ [], plru) ∷ []

unfoldable pub cache_create :
    Bool → (total_size line_size associativity : ℕ) → Outcome (Option Cache)
cache_create false total_size line_size associativity = ok none
cache_create true total_size line_size associativity = do
  let total_lines = total_size / line_size
  let total_sets = total_lines / associativity
  offset_length ← log2_int line_size
  set_length ← log2_int total_sets
  ok (
      some (record {
        total_size = total_size;
        line_size = line_size;
        associativity = associativity;
        total_lines = total_lines;
        total_sets = total_sets;
        offset_length = offset_length;
        set_length = set_length;
        access_fn = none;
        area = no_area;
        reuse_data = null;
        reuse_limit = 0;
        reuse_fn = none;
        symbol_data = null;
        next_line = invalid;
        access = 0;
        hit = 0;
        miss = 0;
        conflict = 0;
        prefetcher_next_line = 0;
        prefetcher_hit = 0;
        prefetcher_evict = 0;
      }))

-- The `init_fn` of a policy.
unfoldable pub init_fn_call : Policy → Bool → Cache → ℕ × Cache
init_fn_call lru = policy_lru_init
init_fn_call plru = policy_plru_init

-- The loop of `set_policy`. A failure of `init_fn` is printed and not returned.
unfoldable pub set_policy_from :
    List (List ℕ × Policy) → Bool → Cache → (policy : List ℕ) → ℕ × Cache
unfolding init_fn_call text_eq
set_policy_from [] allocated c policy = (error, c)
set_policy_from ((name, p) ∷ rest) allocated c policy =
    if text_eq policy name
    then (success, (init_fn_call p allocated (record c { access_fn = some p })).1)
    else set_policy_from rest allocated c policy

unfoldable pub set_policy : Bool → Cache → (policy : List ℕ) → ℕ × Cache
unfolding set_policy_from
set_policy = set_policy_from policies

-- `cache_sim_init`. The flags are the success of the two calls of `malloc`.
unfoldable pub cache_sim_init :
    (created allocated : Bool)
    → (total_size line_size associativity : ℕ) → (policy : List ℕ) → Outcome (Option Cache)
unfolding cache_create set_policy
cache_sim_init created allocated total_size line_size associativity policy =
    if total_size == 0 || (line_size == 0 || associativity == 0)
    then ok none
    else cache_create created total_size line_size associativity >>= λ made. elim made [
      | none ↦ ok none
      | some c ↦
          let (rc, c') = set_policy allocated c policy in
          if rc == success then ok (some c') else ok none
    ]

-- The check of `symbol_data` in `cache_sim_fini`.
unfoldable pub finish_symbols : Option Cache → Outcome (ℕ × Option Cache)
unfolding cache_sim_symbol_disable
finish_symbols none = ok (success, none)
finish_symbols (some c) =
    if is_null c.symbol_data then ok (success, some c) else cache_sim_symbol_disable (some c)

-- `cache_sim_fini`, as far as memory goes: it disables what `reuse_data` and `symbol_data` hold,
-- and frees the handle.
unfoldable pub cache_sim_fini : Cache → Outcome ℕ
unfolding cache_sim_reuse_disable finish_symbols
cache_sim_fini c = do
  (_, c') ←
      (if is_null c.reuse_data then ok (success, some c) else cache_sim_reuse_disable (some c))
  (_, c'') ← finish_symbols c'
  ok success
