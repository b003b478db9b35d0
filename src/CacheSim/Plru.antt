-- ===== src/CacheSim/Plru.antt =====
-- lib/cache_sim/cache_policy_plru.c: the tree-based pseudo-LRU policy. Each set has a mask of bits,
-- read as a binary tree in the order of a heap, that leads to the way to replace.
pub mod Tree
use perfexpert.Prelude.{
  ℕ, zero, suc, ◌+◌, ◌-◌, ◌*◌, ◌/◌, ◌^◌, Bool, true, false, Option, none, some, List, ◌==◌, ltb,
  if◌then◌else◌, get_elem?, set, replicate, bit_and, bit_xor,
}
use perfexpert.CacheSim.Types.{
  PlruLine, Cache, Area, plru_area, no_area, Outcome, ok, fault, ◌>>=◌, defined, success, error,
  l1_hit, l1_hit_prefetch, l1_miss, l1_prefetch_evict, load_access, load_prefetch, uint64_max,
  log2_int,
}
use perfexpert.CacheSim.Address.{address_to_set}

abbrev pub unused_block : PlruLine
unused_block = record { line_id = uint64_max; load = load_access }

-- `policy_plru_init`. The flag says whether `malloc` succeeds.
unfoldable pub policy_plru_init : Bool → Cache → ℕ × Cache
policy_plru_init false c = (error, record c { area = no_area })
policy_plru_init true c = (
  success,
  record c { area = plru_area (replicate c.total_sets 0) (replicate c.total_lines unused_block) },
)

-- `1 << bit`, on an `int`: undefined from bit 31 on.
abbrev pub int_bit : ℕ → Outcome ℕ
int_bit bit = if ltb bit 31 then ok (2 ^ bit) else fault

-- The loop over the ways: the way that holds the line, if any.
unfoldable pub find_line : List PlruLine → (id base left way : ℕ) → Outcome (Option ℕ)
find_line lines id base zero way = ok none
find_line lines id base (suc left) way = do
  block ← defined (get_elem? lines (base + way))
  let rest = find_line lines id base left (way + 1)
  if id == block.line_id then ok (some way) else rest

-- The loop that follows a hit on `way`: it toggles the bits on the path to the way. `left` counts
-- the rounds that are left, `i` is the round.
unfoldable pub toggle_path : (levels way left i bit_set bit_offset mask : ℕ) → Outcome ℕ
toggle_path levels way zero i bit_set bit_offset mask = ok mask
toggle_path levels way (suc left) i bit_set bit_offset mask = do
  one ← int_bit (bit_set + bit_offset)
  toggle_path levels way left (i + 1) (bit_set * 2 + 1) (way / 2 ^ (levels - 1 - i))
      (bit_xor mask one)

-- The loop that follows a miss: it reads the way off the tree, and toggles the bits it reads.
unfoldable pub choose_way : (left bit_set bit_offset way mask : ℕ) → Outcome (ℕ × ℕ)
choose_way zero bit_set bit_offset way mask = ok (way / 2, mask)
choose_way (suc left) bit_set bit_offset way mask = do
  one ← int_bit (bit_set + bit_offset)
  let way' = if bit_and mask one == 0 then way else way + 1
  choose_way left (bit_set * 2 + 1) way' (way' * 2) (bit_xor mask one)

abbrev pub in_block : (id load : ℕ) → PlruLine
in_block id load = record { line_id = id; load = load }

-- What follows the loop over the ways of a set with the mask `mask`.
unfoldable pub plru_end :
    List PlruLine → (base levels mask id load : ℕ) → Option ℕ → Outcome (ℕ × ℕ × List PlruLine)
unfolding toggle_path choose_way
plru_end lines base levels mask id load (some way) = do
  mask' ← toggle_path levels way levels 0 0 0 mask
  block ← defined (get_elem? lines (base + way))
  if block.load == load_prefetch
      then ok (
        l1_hit + l1_hit_prefetch,
        mask',
        set lines (base + way) (record block { load = load_access }),
      )
      else ok (l1_hit, mask', lines)
plru_end lines base levels mask id load none = do
  (way, mask') ← choose_way levels 0 0 0 mask
  block ← defined (get_elem? lines (base + way))
  let code = if block.load == load_prefetch then l1_miss + l1_prefetch_evict else l1_miss
  ok (code, mask', set lines (base + way) (in_block id load))

-- The access, on what `data` points to.
unfoldable pub plru_access_area : Cache → (id load : ℕ) → Area → Outcome (ℕ × Cache)
plru_access_area c id load (plru_area masks lines) = do
  let s = address_to_set c id
  let base = s * c.associativity
  mask ← defined (get_elem? masks s)
  levels ← log2_int c.associativity
  way ← find_line lines id base c.associativity 0
  (code, mask', lines') ← plru_end lines base levels mask id load way
  ok (code, record c { area = plru_area (set masks s mask') lines' })
plru_access_area c id load _ = fault

-- `policy_plru_access`
unfoldable pub policy_plru_access : Cache → (line_id load : ℕ) → Outcome (ℕ × Cache)
unfolding find_line plru_end plru_access_area address_to_set log2_int
policy_plru_access c id load = plru_access_area c id load c.area
