-- ===== src/CacheSim/Types.antt =====
-- The types of lib/cache_sim/cache_sim_types.h, cache_policy_lru.h and cache_policy_plru.h, and the
-- return codes of cache_sim.h. A field of an unsigned type is a number below its modulus; an `int`
-- field of the handle is a number, since the code stores only values that are not negative there.
pub use perfexpert.Outcome.{Outcome, ok, fault, ◌>>=◌, defined}
use perfexpert.Prelude.{ℕ, zero, suc, ◌+◌, ◌/◌, ◌%◌, ◌^◌, true, false, Option, List, ltb}

-- Return codes (cache_sim.h).
abbrev pub success : ℕ
success = 0x000

abbrev pub error : ℕ
error = 0x001

abbrev pub l1_hit : ℕ
l1_hit = 0x010

abbrev pub l1_hit_prefetch : ℕ
l1_hit_prefetch = 0x020

abbrev pub l1_miss : ℕ
l1_miss = 0x040

abbrev pub l1_miss_conflict : ℕ
l1_miss_conflict = 0x080

abbrev pub l1_prefetch_evict : ℕ
l1_prefetch_evict = 0x100

abbrev pub uint64_max : ℕ
uint64_max = 0xffff_ffff_ffff_ffff

abbrev pub uint16_max : ℕ
uint16_max = 0xffff

-- `load_t`: the values that are stored in a line's `load` byte.
abbrev pub load_access : ℕ
load_access = 0

abbrev pub load_prefetch : ℕ
load_prefetch = 1

-- `n++` on a `uint64_t` and on a `uint16_t`.
abbrev pub inc64 : ℕ → ℕ
inc64 n = (n + 1) % 2 ^ 64

abbrev pub inc16 : ℕ → ℕ
inc16 n = (n + 1) % 2 ^ 16

-- `policy_lru_t`
pub record LruLine : Type 0 where
  pub line_id : ℕ
  pub age : ℕ
  pub load : ℕ

-- `policy_plru_t`
pub record PlruLine : Type 0 where
  pub line_id : ℕ
  pub load : ℕ

-- `list_item_reuse_t`, without its links
pub record ReuseItem : Type 0 where
  pub line_id : ℕ
  pub age : ℕ

-- `list_item_symbol_t`, without its links and the unused list `lines`
pub record SymbolItem : Type 0 where
  pub access : ℕ
  pub hit : ℕ
  pub miss : ℕ
  pub conflict : ℕ
  pub prefetcher_hit : ℕ
  pub prefetcher_evict : ℕ
  pub symbol : List ℕ

-- `prefetcher_t`
pub data Prefetcher : Type 0 where
  next_line_single : Prefetcher
  next_line_tagged : Prefetcher
  invalid : Prefetcher

-- The replacement policies of the table in cache_sim.c.
pub data Policy : Type 0 where
  lru : Policy
  plru : Policy

-- What the pointer `data` points to.
pub data Area : Type 0 where
  no_area : Area
  lru_area : List LruLine → Area
  plru_area : List ℕ → List PlruLine → Area

-- A pointer to a list that is `NULL`, leads to a list (first item first), or dangles after `free`.
pub data ListPtr (A : Type 0) : Type 0 where
  null : ListPtr A
  live : List A → ListPtr A
  freed : ListPtr A

-- `reuse_fn_t`
pub data ReuseFn : Type 0 where
  reuse_limited : ReuseFn
  reuse_unlimited : ReuseFn

-- `cache_handle_t`, without the hierarchy fields that no code reads
pub record Cache : Type 0 where
  pub total_size : ℕ
  pub line_size : ℕ
  pub associativity : ℕ
  pub total_lines : ℕ
  pub total_sets : ℕ
  pub offset_length : ℕ
  pub set_length : ℕ
  pub access_fn : Option Policy
  pub area : Area
  pub reuse_data : ListPtr ReuseItem
  pub reuse_limit : ℕ
  pub reuse_fn : Option ReuseFn
  pub symbol_data : ListPtr SymbolItem
  pub next_line : Prefetcher
  pub access : ℕ
  pub hit : ℕ
  pub miss : ℕ
  pub conflict : ℕ
  pub prefetcher_next_line : ℕ
  pub prefetcher_hit : ℕ
  pub prefetcher_evict : ℕ

-- `(int)log2(n)` of a positive `int`: the number of times that it can be halved before it is one.
-- The logarithm of zero is infinite, and its conversion undefined. `n` rounds are enough.
unfoldable pub halvings : (fuel n : ℕ) → ℕ
halvings zero n = 0
halvings (suc fuel) n = elim (ltb n 2) [ true ↦ 0 | false ↦ suc (halvings fuel (n / 2)) ]

unfoldable pub log2_int : ℕ → Outcome ℕ
unfolding halvings
log2_int zero = fault
log2_int (suc n) = ok (halvings (suc n) (suc n))
