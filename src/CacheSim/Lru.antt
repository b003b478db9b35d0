-- ===== src/CacheSim/Lru.antt =====
-- lib/cache_sim/cache_policy_lru.c: the replacement policy that evicts the least recently used
-- line of a set. The data area is one array of lines, `associativity` of them for each set; `age`
-- holds the value of the access counter at the line's last use.
pub mod Loop
pub mod Sets
pub mod Access
pub mod Whole
use perfexpert.Prelude.{
  ℕ, zero, suc, ◌+◌, ◌*◌, Bool, true, false, List, ◌==◌, leb, if◌then◌else◌, get_elem?, set,
  replicate,
}
use perfexpert.CacheSim.Types.{
  LruLine, Cache, Area, lru_area, Outcome, ok, fault, ◌>>=◌, defined, success, error, l1_hit,
  l1_hit_prefetch, l1_miss, l1_prefetch_evict, load_access, load_prefetch, uint64_max,
}
use perfexpert.CacheSim.Address.{address_to_set}

-- A line of the fresh area: every byte is 0xff.
abbrev pub unused_line : LruLine
unused_line = record { line_id = uint64_max; age = uint64_max; load = 0xff }

-- `policy_lru_init`. The flag says whether `malloc` succeeds.
unfoldable pub policy_lru_init : Bool → Cache → ℕ × Cache
policy_lru_init false c = (error, c)
policy_lru_init true c =
    (success, record c { area = lru_area (replicate c.total_lines unused_line) })

-- How the loop over the ways ends: at the index of the line, or with the index of the way to load.
pub data Scan : Type 0 where
  found : ℕ → Scan
  victim : ℕ → Scan

-- The loop over the ways. `left` counts the ways that are left, `base` is the index of
-- `base_addr`, and `old` that of `lru`.
unfoldable pub scan : List LruLine → ℕ → (left base old : ℕ) → Outcome Scan
scan lines id zero base old = ok (victim old)
scan lines id (suc left) base old = do
  way ← defined (get_elem? lines base)
  let rest = defined (get_elem? lines old) >>= λ oldest.
      scan lines id left (base + 1) (if leb way.age oldest.age then base else old)
  if way.line_id == id
      then ok (found base)
      else if uint64_max == way.line_id
      then ok (victim base)
      else rest

abbrev pub loaded : (id load now : ℕ) → LruLine
loaded id load now = record { line_id = id; age = now; load = load }

-- What follows the loop: the update of the line that was hit, or the load over the victim.
unfoldable pub finish : List LruLine → (id load now : ℕ) → Scan → Outcome (ℕ × List LruLine)
finish lines id load now (found i) = do
  way ← defined (get_elem? lines i)
  if way.load == load_prefetch
      then ok (l1_hit + l1_hit_prefetch, set lines i (record way { age = now; load = load_access }))
      else ok (l1_hit, set lines i (record way { age = now }))
finish lines id load now (victim i) = do
  way ← defined (get_elem? lines i)
  if way.load == load_prefetch
      then ok (l1_miss + l1_prefetch_evict, set lines i (loaded id load now))
      else ok (l1_miss, set lines i (loaded id load now))

-- The access to the lines of one set, whose first line has the index `base`.
unfoldable pub access_lines :
    List LruLine → (base ways : ℕ) → (id load now : ℕ) → Outcome (ℕ × List LruLine)
unfolding scan finish
access_lines lines base ways id load now = do
  end ← scan lines id ways base base
  finish lines id load now end

-- The access, on what `data` points to.
unfoldable pub access_area : Cache → (line_id load : ℕ) → Area → Outcome (ℕ × Cache)
access_area c id load (lru_area lines) = do
  (code, lines') ←
      access_lines lines (address_to_set c id * c.associativity) c.associativity id load c.access
  ok (code, record c { area = lru_area lines' })
access_area c id load _ = fault

-- `policy_lru_access`
unfoldable pub policy_lru_access : Cache → (line_id load : ℕ) → Outcome (ℕ × Cache)
unfolding access_lines access_area
policy_lru_access c id load = access_area c id load c.area
