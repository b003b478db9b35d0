-- ===== src/CacheSim/Reuse.antt =====
-- lib/cache_sim/cache_sim_reuse.c: the reuse distance of lines. The circular list behind
-- `reuse_data` is a list here, first item first: a walk from `head.next` to `head`.
pub mod Ages
pub mod Recency
pub mod Distance
use perfexpert.Prelude.{
  ℕ, ◌+◌, ◌≡◌, Bool, true, false, not, ◌&&◌, Option, none, some, List, [], ◌∷◌, ◌++◌, ◌==◌,
  if◌then◌else◌, replicate,
}
use perfexpert.Outcome.{as_int}
use perfexpert.CacheSim.Types.{
  Cache, ReuseItem, ListPtr, null, live, freed, ReuseFn, reuse_limited, reuse_unlimited, Outcome,
  ok, fault, ◌>>=◌, success, error, uint64_max, uint16_max, inc16,
}

-- How a walk over the items ends: with the items before the one that holds the line, that item
-- and those behind it; or with all items. The items that were passed are one older.
pub data Walk : Type 0 where
  hit : List ReuseItem → ReuseItem → List ReuseItem → Walk
  missed : List ReuseItem → Walk

abbrev pub older : ReuseItem → ReuseItem
older item = record item { age = inc16 item.age }

abbrev pub passed : ReuseItem → Walk → Walk
passed item (hit before found after) = hit (older item ∷ before) found after
passed item (missed before) = missed (older item ∷ before)

-- The `for` loop of `cache_sim_reuse_limited` and `cache_sim_reuse_unlimited`.
unfoldable pub walk : List ReuseItem → ℕ → Walk
walk [] id = missed []
walk (item ∷ items) id =
    if id == item.line_id then hit [] item items else passed item (walk items id)

-- `head.prev` taken off the list, and given a new line: `none` is the empty list, whose `prev` is
-- the head itself.
unfoldable pub without_last : List ReuseItem → Option (List ReuseItem)
without_last [] = none
without_last (item ∷ []) = some []
without_last (item ∷ next ∷ items) = elim (without_last (next ∷ items)) [
  | none ↦ none
  | some front ↦ some (item ∷ front)
]

abbrev pub fresh_item : ℕ → ReuseItem
fresh_item id = record { line_id = id; age = 0 }

-- What follows the loop in `cache_sim_reuse_limited`.
unfoldable pub limited_end : ℕ → Walk → Outcome (List ReuseItem)
unfolding without_last
limited_end id (hit before found after) = ok (record found { age = 0 } ∷ (before ++ after))
limited_end id (missed items) = elim (without_last items) [
  | none ↦ fault
  | some front ↦ ok (fresh_item id ∷ front)
]

-- What follows the loop in `cache_sim_reuse_unlimited`, with the success of `malloc`.
unfoldable pub unlimited_end : Bool → ℕ → Walk → ℕ × List ReuseItem
unlimited_end allocated id (hit before found after) =
    (success, record found { age = 0 } ∷ (before ++ after))
unlimited_end true id (missed items) = (success, fresh_item id ∷ items)
unlimited_end false id (missed items) = (error, items)

-- `*reuse_data`: a fault if there is no list.
abbrev pub items_of : ListPtr ReuseItem → Outcome (List ReuseItem)
items_of null = fault
items_of freed = fault
items_of (live items) = ok items

unfoldable pub cache_sim_reuse_limited : Cache → ℕ → Outcome (ℕ × Cache)
unfolding walk limited_end
cache_sim_reuse_limited c id = do
  items ← items_of c.reuse_data
  items' ← limited_end id (walk items id)
  ok (success, record c { reuse_data = live items' })

unfoldable pub cache_sim_reuse_unlimited : Bool → Cache → ℕ → Outcome (ℕ × Cache)
unfolding walk unlimited_end
cache_sim_reuse_unlimited allocated c id = do
  items ← items_of c.reuse_data
  let (rc, items') = unlimited_end allocated id (walk items id)
  ok (rc, record c { reuse_data = live items' })

-- The loop of `cache_sim_reuse_get_age`.
unfoldable pub age_of : List ReuseItem → ℕ → ℕ
age_of [] id = uint64_max
age_of (item ∷ items) id = if id == item.line_id then item.age else age_of items id

-- `cache_sim_reuse_get_age`; a `NULL` cache gives the error code.
unfoldable pub cache_sim_reuse_get_age : Option Cache → ℕ → Outcome ℕ
unfolding age_of
cache_sim_reuse_get_age none id = ok error
cache_sim_reuse_get_age (some c) id = do items ← items_of c.reuse_data; ok (age_of items id)

-- `cache_sim_reuse_disable`. It leaves the pointer as it is: `reuse_data` dangles afterwards, and
-- another call frees it again.
unfoldable pub cache_sim_reuse_disable : Option Cache → Outcome (ℕ × Option Cache)
cache_sim_reuse_disable none = ok (error, none)
cache_sim_reuse_disable (some c) = elim c.reuse_data [
  | null ↦ ok (error, some c)
  | live items ↦ ok (success, some (record c { reuse_data = freed }))
  | freed ↦ fault
]

abbrev pub is_null : {A : Type 0} → ListPtr A → Bool
is_null null = true
is_null _ = false

-- The part of `cache_sim_reuse_enable` behind its checks. `allocated` is the success of `malloc`. The
-- loop over the lines counts in an `int` up to the limit.
unfoldable pub reuse_setup : Bool → Cache → (limit : ℕ) → Outcome (ℕ × Option Cache)
reuse_setup false c limit = ok (error, some (record c { reuse_limit = limit; reuse_data = null }))
reuse_setup true c limit =
    if 0 == limit
    then ok (
      success,
      some
          (record c { reuse_limit = limit; reuse_data = live []; reuse_fn = some reuse_unlimited }),
    )
    else as_int limit >>= λ count. ok (
      success,
      some (record c {
        reuse_limit = limit;
        reuse_data = live (replicate count (record { line_id = uint64_max; age = uint16_max }));
        reuse_fn = some reuse_limited;
      }),
    )

-- The check of the limit, and what follows it.
unfoldable pub reuse_checked : Bool → Option Cache → (limit : ℕ) → Outcome (ℕ × Option Cache)
unfolding reuse_setup
reuse_checked allocated none limit = ok (error, none)
reuse_checked allocated (some c) limit =
    if 0 == limit then ok (error, some c) else reuse_setup allocated c limit

unfoldable pub cache_sim_reuse_enable :
    Bool → Option Cache → (limit : ℕ) → Outcome (ℕ × Option Cache)
unfolding reuse_checked cache_sim_reuse_disable
cache_sim_reuse_enable allocated none limit = ok (error, none)
cache_sim_reuse_enable allocated (some c) limit =
    if is_null c.reuse_data
    then reuse_checked allocated (some c) limit
    else if limit == c.reuse_limit
    then ok (success, some c)
    else do
      (rc, c') ← cache_sim_reuse_disable (some c)
      if rc == success then reuse_checked allocated c' limit else ok (error, c')
