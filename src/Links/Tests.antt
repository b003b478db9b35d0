-- ===== src/Links/Tests.antt =====
-- A list that is built by hand, on which the theorem on common/perfexpert_list.c is applied.
use perfexpert.Outcome.{Outcome, ok, fault}
use perfexpert.Prelude.{ℕ, refl, [], ◌∷◌, arith}
use perfexpert.Links.{
  PerfexpertList, perfexpert_list_construct, perfexpert_list_remove_item, perfexpert_list_append,
  perfexpert_list_prepend, perfexpert_list_insert, perfexpert_list_move_before,
  perfexpert_list_swap,
}
use perfexpert.Links.Runs.{
  Built, constructed, appended, prepended, inserted, removed, moved_before, swapped, IsRing,
  IsAnswered, TakesItems, Built-IsAnswered,
}

-- The sentinel is at 1.
abbrev blank : PerfexpertList
blank = record { next = λ x. 0; prev = λ x. 0; sentinel = 1; length = 7 }

abbrev two : PerfexpertList
two = perfexpert_list_append (perfexpert_list_append (perfexpert_list_construct blank) 2) 3

abbrev after_insert : Outcome (ℕ × PerfexpertList) → PerfexpertList
after_insert (ok (rc, l)) = l
after_insert fault = blank

abbrev four : PerfexpertList
four = perfexpert_list_prepend (after_insert (perfexpert_list_insert two 5 1)) 4

abbrev three : PerfexpertList
three =
    (perfexpert_list_remove_item (perfexpert_list_swap (perfexpert_list_move_before four 3 2) 4 2)
      5).1

two-Built : Built two (2 ∷ 3 ∷ [])
unfolding perfexpert_list_construct perfexpert_list_append
two-Built =
    appended (perfexpert_list_append (perfexpert_list_construct blank) 2) (2 ∷ []) 3
      (appended (perfexpert_list_construct blank) [] 2 (constructed blank)
        (λ e. omega (arith, e), tt) (omega arith))
      (λ e. omega (arith, e), (λ e. omega (arith, e), tt)) (omega arith)

four-Built : Built four (4 ∷ 2 ∷ 5 ∷ 3 ∷ [])
unfolding perfexpert_list_construct perfexpert_list_append perfexpert_list_insert
four-Built =
    prepended (after_insert (perfexpert_list_insert two 5 1)) (2 ∷ 5 ∷ 3 ∷ []) 4
      (inserted two (after_insert (perfexpert_list_insert two 5 1)) [] [] 2 3 5 two-Built
        (λ e. omega (arith, e), (λ e. omega (arith, e), (λ e. omega (arith, e), tt))) (omega arith)
        refl)
      (
        λ e. omega (arith, e),
        (λ e. omega (arith, e), (λ e. omega (arith, e), (λ e. omega (arith, e), tt))),
      )
      (omega arith)

three-Built : Built three (2 ∷ 3 ∷ 4 ∷ [])
three-Built =
    removed (perfexpert_list_swap (perfexpert_list_move_before four 3 2) 4 2) (2 ∷ 3 ∷ 4 ∷ []) [] 5
      (swapped (perfexpert_list_move_before four 3 2) [] [] (5 ∷ []) 4 3 2
        (moved_before four (4 ∷ 2 ∷ 5 ∷ []) [] (4 ∷ []) (5 ∷ []) 3 2 four-Built refl))

Built-IsAnswered_example :
    IsRing three (2 ∷ 3 ∷ 4 ∷ [])
    × IsAnswered three (2 ∷ 3 ∷ 4 ∷ [])
    × TakesItems three (2 ∷ 3 ∷ 4 ∷ [])
Built-IsAnswered_example = Built-IsAnswered three (2 ∷ 3 ∷ 4 ∷ []) three-Built
