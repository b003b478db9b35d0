-- ===== src/Links/Ends.antt =====
-- What the operations of common/perfexpert_list.c make of the ends of a list.
use perfexpert.Prelude.{ℕ, ◌+◌, ◌^◌, ◌<◌, ◌≡◌, ◌≢◌, refl, false, arith}
use perfexpert.CString.{perfexpert_success}
use perfexpert.Outcome.{ok}
use perfexpert.Links.{
  PerfexpertList, update, perfexpert_list_get_first, perfexpert_list_get_last,
  perfexpert_list_remove_item, perfexpert_list_append, perfexpert_list_prepend,
  perfexpert_list_insert, is_behind, count_up, PerfexpertList, perfexpert_list_swap,
}

-- Appending an item that is neither the sentinel nor the last item makes it the last one, and
-- removing it again restores the links of everything else and the length, if the sentinel
-- follows the last item and the length does not wrap.
perfexpert_list_remove_item-append :
    (l : PerfexpertList) (item x : ℕ)
    → l.next (l.prev l.sentinel) ≡ l.sentinel
    → item ≢ l.sentinel
    → item ≢ l.prev l.sentinel
    → x ≢ item
    → l.length + 1 < 2 ^ 64
    → (perfexpert_list_get_last (perfexpert_list_append l item) ≡ item)
      × ((perfexpert_list_remove_item (perfexpert_list_append l item) item).1.next x ≡ l.next x)
      × ((perfexpert_list_remove_item (perfexpert_list_append l item) item).1.prev x ≡ l.prev x)
      × ((perfexpert_list_remove_item (perfexpert_list_append l item) item).1.length ≡ l.length)
unfolding update perfexpert_list_get_last perfexpert_list_append perfexpert_list_remove_item
perfexpert_list_remove_item-append l item x closed other new away room =
    (ground arith, ground arith, ground arith, omega arith)

-- Inserting at the first position of a list that is not empty, whose length stays below 2^63,
-- puts the item where prepending it would, and counts it twice.
perfexpert_list_insert-twice :
    (l : PerfexpertList) (item : ℕ)
    → 0 < l.length
    → l.length + 2 < 2 ^ 63
    → (l' : PerfexpertList) × (perfexpert_list_insert l item 0 ≡ ok (perfexpert_success, l'))
      × (l'.length ≡ l.length + 2)
      × (perfexpert_list_get_first l' ≡ perfexpert_list_get_first (perfexpert_list_prepend l item))
unfolding perfexpert_list_insert perfexpert_list_get_first perfexpert_list_prepend
perfexpert_list_insert-twice l item some_item room =
    let inside : is_behind 0 l.length ≡ false = ground arith in
    (count_up (perfexpert_list_prepend l item), rw inside refl, omega arith, refl)

-- Swapping an item with the one behind it, where the item before them is another one, leaves
-- both of them linked to themselves.
perfexpert_list_swap-adjacent :
    (l : PerfexpertList) (a b : ℕ)
    → l.next a ≡ b
    → l.prev b ≡ a
    → l.prev a ≢ a
    → a ≢ b
    → ((perfexpert_list_swap l a b).next a ≡ a) × ((perfexpert_list_swap l a b).next b ≡ b)
unfolding update perfexpert_list_swap
perfexpert_list_swap-adjacent l a b ahead behind linked different = (ground arith, ground arith)
