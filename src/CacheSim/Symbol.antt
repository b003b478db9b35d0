-- ===== src/CacheSim/Symbol.antt =====
-- lib/cache_sim/cache_sim_symbol.c: the accesses of each symbol. A text is its bytes, without the
-- null byte that ends it.
use perfexpert.Prelude.{
  ℕ, suc, ◌+◌, Bool, true, false, ◌&&◌, Option, none, some, List, [], ◌∷◌, ◌==◌, ltb, if◌then◌else◌,
  length, take, get_elem?, set,
}
use perfexpert.CacheSim.Types.{
  Cache, SymbolItem, ListPtr, null, live, freed, Outcome, ok, fault, ◌>>=◌, defined, success, error,
  l1_hit, l1_hit_prefetch, l1_miss, l1_miss_conflict, l1_prefetch_evict, inc64,
}
use perfexpert.CacheSim.Access.{cache_sim_access}

abbrev pub max_length : ℕ
max_length = 40

-- `0 == strcmp(a, b)`
unfoldable pub text_eq : List ℕ → List ℕ → Bool
text_eq [] [] = true
text_eq [] (y ∷ ys) = false
text_eq (x ∷ xs) [] = false
text_eq (x ∷ xs) (y ∷ ys) = x == y && text_eq xs ys

unfoldable pub cache_sim_symbol_enable : Bool → Option Cache → ℕ × Option Cache
cache_sim_symbol_enable allocated none = (error, none)
cache_sim_symbol_enable allocated (some c) = elim c.symbol_data [
  | null ↦
      if allocated then (success, some (record c { symbol_data = live [] })) else (error, some c)
  | live items ↦ (success, some c)
  | freed ↦ (success, some c)
]

-- As `cache_sim_reuse_disable`, it leaves a dangling pointer behind.
unfoldable pub cache_sim_symbol_disable : Option Cache → Outcome (ℕ × Option Cache)
cache_sim_symbol_disable none = ok (error, none)
cache_sim_symbol_disable (some c) = elim c.symbol_data [
  | null ↦ ok (error, some c)
  | live items ↦ ok (success, some (record c { symbol_data = freed }))
  | freed ↦ fault
]

-- The loop over the symbols: the position of the item, if any.
unfoldable pub find_symbol : List ℕ → List SymbolItem → Option ℕ
unfolding text_eq
find_symbol symbol [] = none
find_symbol symbol (item ∷ items) =
    if text_eq symbol item.symbol
    then some 0
    else elim (find_symbol symbol items) [ none ↦ none | some i ↦ some (suc i) ]

-- The copy into the item's 40 bytes.
unfoldable pub stored_symbol : List ℕ → List ℕ
stored_symbol symbol = if ltb (length symbol + 1) max_length then symbol else take 39 symbol

-- A new item. The two prefetcher counters are not initialised: they hold what `malloc` finds.
unfoldable pub new_item : (garbage : ℕ × ℕ) → List ℕ → SymbolItem
unfolding stored_symbol
new_item garbage symbol = record {
  access = 0;
  hit = 0;
  miss = 0;
  conflict = 0;
  prefetcher_hit = garbage.0;
  prefetcher_evict = garbage.1;
  symbol = stored_symbol symbol;
}

-- The `switch` over the result of the access, and the count of accesses behind it.
unfoldable pub count_symbol : (rc : ℕ) → SymbolItem → SymbolItem
count_symbol rc item =
    let counted = record item { access = inc64 item.access } in
    if rc == l1_hit + l1_hit_prefetch
    then record counted { prefetcher_hit = inc64 item.prefetcher_hit; hit = inc64 item.hit }
    else if rc == l1_hit
    then record counted { hit = inc64 item.hit }
    else if rc == l1_miss + l1_prefetch_evict + l1_miss_conflict
    then record counted {
      conflict = inc64 item.conflict;
      prefetcher_evict = inc64 item.prefetcher_evict;
      miss = inc64 item.miss;
    }
    else if rc == l1_miss + l1_prefetch_evict
    then record counted { prefetcher_evict = inc64 item.prefetcher_evict; miss = inc64 item.miss }
    else if rc == l1_miss + l1_miss_conflict
    then record counted { conflict = inc64 item.conflict; miss = inc64 item.miss }
    else if rc == l1_miss
    then record counted { miss = inc64 item.miss }
    else counted

abbrev pub symbols_of : ListPtr SymbolItem → Outcome (List SymbolItem)
symbols_of null = fault
symbols_of freed = fault
symbols_of (live items) = ok items

-- The item of a symbol, which is put first if it is new: the items and the position, or `none`
-- where `malloc` fails.
unfoldable pub locate :
    Bool → (garbage : ℕ × ℕ) → List ℕ → List SymbolItem → Option (ℕ × List SymbolItem)
unfolding find_symbol new_item
locate allocated garbage symbol items = elim (find_symbol symbol items) [
  | some i ↦ some (i, items)
  | none ↦ if allocated then some (0, new_item garbage symbol ∷ items) else none
]

-- The access itself, for the item at position `i`.
unfoldable pub access_for : Bool → Cache → (address i : ℕ) → Outcome (ℕ × Cache)
unfolding count_symbol
access_for allocated c address i = do
  (rc, c') ← cache_sim_access allocated c address
  items ← symbols_of c'.symbol_data
  item ← defined (get_elem? items i)
  ok (rc, record c' { symbol_data = live (set items i (count_symbol rc item)) })

-- What follows the check that the tracking is enabled.
unfoldable pub symbol_access_on :
    Bool → (garbage : ℕ × ℕ) → Cache → (address : ℕ) → List ℕ → Outcome (ℕ × Cache)
unfolding locate access_for
symbol_access_on allocated garbage c address symbol = do
  items ← symbols_of c.symbol_data
  elim (locate allocated garbage symbol items) [
    | none ↦ ok (error, c)
    | some (i, items') ↦ access_for allocated (record c { symbol_data = live items' }) address i
  ]

-- `cache_sim_symbol_access`. The flag is the success of every `malloc` in it.
unfoldable pub cache_sim_symbol_access :
    Bool → (garbage : ℕ × ℕ) → Cache → (address : ℕ) → List ℕ → Outcome (ℕ × Cache)
unfolding cache_sim_symbol_enable symbol_access_on
cache_sim_symbol_access allocated garbage c address symbol = elim c.symbol_data [
  | null ↦
      if allocated
      then symbol_access_on allocated garbage (record c { symbol_data = live [] }) address symbol
      else ok (error, c)
  | live items ↦ symbol_access_on allocated garbage c address symbol
  | freed ↦ symbol_access_on allocated garbage c address symbol
]
