-- ===== src/Links.antt =====
-- common/perfexpert_list.c: the doubly linked list, whose items carry their links. A pointer is an
-- address, and the links of all items and of the sentinel are two functions on addresses.
pub mod Ends
pub mod Chain
pub mod Ring
pub mod Moves
pub mod Swap
pub mod Runs
mod Tests
use perfexpert.Prelude.{
  ℕ, zero, suc, ◌+◌, ◌-◌, ◌%◌, ◌^◌, Bool, true, false, Option, none, some, ◌||◌, ◌==◌, leb,
  if◌then◌else◌,
}
use perfexpert.Outcome.{Outcome, ok, as_int, ◌>>=◌}
use perfexpert.CString.{perfexpert_success, perfexpert_error}
use perfexpert.CacheSim.Types.{inc64}

-- `perfexpert_list_t` with the links of all items; `sentinel` is the address of its sentinel.
pub record PerfexpertList : Type 0 where
  pub next : ℕ → ℕ
  pub prev : ℕ → ℕ
  pub sentinel : ℕ
  pub length : ℕ

unfoldable pub update : (ℕ → ℕ) → (at value : ℕ) → ℕ → ℕ
update f at value x = if x == at then value else f x

-- `a->next = value` and `a->prev = value`
abbrev pub set_next : PerfexpertList → (at value : ℕ) → PerfexpertList
set_next l at value = record l { next = update l.next at value }

abbrev pub set_prev : PerfexpertList → (at value : ℕ) → PerfexpertList
set_prev l at value = record l { prev = update l.prev at value }

-- `list->length--` on a `size_t`
abbrev pub dec64 : ℕ → ℕ
dec64 n = (n + (2 ^ 64 - 1)) % 2 ^ 64

abbrev pub count_up : PerfexpertList → PerfexpertList
count_up l = record l { length = inc64 l.length }

unfoldable pub perfexpert_list_construct : PerfexpertList → PerfexpertList
perfexpert_list_construct l =
    let l = set_next l l.sentinel l.sentinel in
    let l = set_prev l l.sentinel l.sentinel in record l { length = 0 }

unfoldable pub perfexpert_list_destruct : PerfexpertList → PerfexpertList
unfolding perfexpert_list_construct
perfexpert_list_destruct l = perfexpert_list_construct l

-- `NULL` is the address zero.
unfoldable pub perfexpert_list_item_construct : PerfexpertList → (item : ℕ) → PerfexpertList
perfexpert_list_item_construct l item = set_next (set_prev l item 0) item 0

unfoldable pub perfexpert_list_item_destruct : PerfexpertList → (item : ℕ) → PerfexpertList
perfexpert_list_item_destruct l item = l

-- `none` is `NULL`.
unfoldable pub perfexpert_list_get_first : PerfexpertList → Option ℕ
perfexpert_list_get_first l =
    if l.next l.sentinel == l.sentinel then none else some (l.next l.sentinel)

unfoldable pub perfexpert_list_get_last : PerfexpertList → ℕ
perfexpert_list_get_last l = l.prev l.sentinel

unfoldable pub perfexpert_list_get_size : PerfexpertList → ℕ
perfexpert_list_get_size l = l.length

-- `perfexpert_list_remove_item`, with the item that it returns.
unfoldable pub perfexpert_list_remove_item : PerfexpertList → (item : ℕ) → ℕ × PerfexpertList
perfexpert_list_remove_item l item =
    let l1 = set_next l (l.prev item) (l.next item) in
    let l2 = set_prev l1 (l1.next item) (l1.prev item) in
    (l2.prev item, record l2 { length = dec64 l2.length })

unfoldable pub perfexpert_list_append : PerfexpertList → (item : ℕ) → PerfexpertList
perfexpert_list_append l item =
    let l1 = set_prev l item (l.prev l.sentinel) in
    let l2 = set_next l1 (l1.prev l.sentinel) item in
    let l3 = set_next l2 item l.sentinel in count_up (set_prev l3 l.sentinel item)

unfoldable pub perfexpert_list_prepend : PerfexpertList → (item : ℕ) → PerfexpertList
perfexpert_list_prepend l item =
    let l1 = set_next l item (l.next l.sentinel) in
    let l2 = set_prev l1 item l.sentinel in
    let l3 = set_prev l2 (l2.next l.sentinel) item in count_up (set_next l3 l.sentinel item)

-- The item that is `steps` links behind another.
unfoldable pub walk_next : PerfexpertList → (steps ptr : ℕ) → ℕ
walk_next l zero ptr = ptr
walk_next l (suc steps) ptr = walk_next l steps (l.next ptr)

unfoldable pub insert_behind : PerfexpertList → (item ptr : ℕ) → PerfexpertList
insert_behind l item ptr =
    let next = l.next ptr in
    let l1 = set_next l item next in
    let l2 = set_prev l1 item ptr in let l3 = set_prev l2 next item in set_next l3 ptr item

-- `(long long)list->length` is negative from 2^63 on, and then below every position.
abbrev pub is_behind : (position length : ℕ) → Bool
is_behind position length = leb (2 ^ 63) length || leb length position

-- `perfexpert_list_insert`, for a position that is not negative. The walk counts its steps in an `int`.
unfoldable pub perfexpert_list_insert :
    PerfexpertList → (item position : ℕ) → Outcome (ℕ × PerfexpertList)
unfolding perfexpert_list_prepend walk_next insert_behind
perfexpert_list_insert l item position =
    if is_behind position l.length
    then ok (perfexpert_error, l)
    else if position == 0
    then ok (perfexpert_success, count_up (perfexpert_list_prepend l item))
    else as_int (position - 1) >>= λ steps. ok (
      perfexpert_success,
      count_up (insert_behind l item (walk_next l steps (l.next l.sentinel))),
    )

unfoldable pub perfexpert_list_swap : PerfexpertList → (a b : ℕ) → PerfexpertList
perfexpert_list_swap l a b =
    let l1 = set_next l (l.prev a) b in
    let l2 = set_prev l1 (l1.next a) b in
    let l3 = set_next l2 (l2.prev b) a in
    let l4 = set_prev l3 (l3.next b) a in
    let behind = l4.prev a in
    let l5 = set_prev l4 a (l4.prev b) in
    let l6 = set_prev l5 b behind in
    let ahead = l6.next a in let l7 = set_next l6 a (l6.next b) in set_next l7 b ahead

unfoldable pub perfexpert_list_move_before : PerfexpertList → (a b : ℕ) → PerfexpertList
perfexpert_list_move_before l a b =
    let l1 = set_next l (l.prev a) (l.next a) in
    let l2 = set_prev l1 (l1.next a) (l1.prev a) in
    let l3 = set_prev l2 a (l2.prev b) in
    let l4 = set_next l3 a b in let l5 = set_next l4 (l4.prev b) a in set_prev l5 b a

unfoldable pub perfexpert_list_move_after : PerfexpertList → (a b : ℕ) → PerfexpertList
perfexpert_list_move_after l a b =
    let l1 = set_next l (l.prev a) (l.next a) in
    let l2 = set_prev l1 (l1.next a) (l1.prev a) in
    let l3 = set_next l2 a (l2.next b) in
    let l4 = set_prev l3 a b in let l5 = set_prev l4 (l4.next b) a in set_next l5 b a
