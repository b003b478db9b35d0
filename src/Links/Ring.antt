-- ===== src/Links/Ring.antt =====
-- The lists of common/perfexpert_list.c as rings: what each operation does to the list of the items.
use perfexpert.Prelude.{
  ℕ, ◌^◌, ◌<◌, ◌≡◌, ◌≢◌, refl, sym, subst, List, [], ◌∷◌, ◌++◌, length, append-nil, arith,
}
use perfexpert.Links.{
  PerfexpertList, update, perfexpert_list_construct, perfexpert_list_remove_item,
  perfexpert_list_append, perfexpert_list_prepend,
}
use perfexpert.Links.Chain.{
  Linked, Absent, IsDistinct, last_or, head_or, Absent-without, Absent-with, IsDistinct-without,
  IsDistinct-with, Absent-last_or, Linked-first, Linked-agree, Linked-behind, Linked-ahead,
  Linked-last, Linked-without, Linked-with,
}

-- The links of a list, with the sentinel at both ends.
abbrev pub IsLinked : PerfexpertList → List ℕ → Type 0
IsLinked l xs = Linked l.next l.prev l.sentinel xs l.sentinel × Absent l.sentinel xs × IsDistinct xs

abbrev pub IsCounted : PerfexpertList → List ℕ → Type 0
IsCounted l xs = (l.length ≡ length xs) × (l.length < 2 ^ 64)

-- An item that can be put into a list.
abbrev pub IsNew : PerfexpertList → List ℕ → (item : ℕ) → Type 0
IsNew l xs item = (item ≢ l.sentinel) × Absent item xs

-- The links of a list with an item between two others, and without it.
abbrev pub linked_with : PerfexpertList → (behind item ahead : ℕ) → PerfexpertList
linked_with l q x r = record l {
  next = update (update l.next x r) q x;
  prev = update (update l.prev x q) r x;
}

abbrev pub linked_without : PerfexpertList → (behind ahead : ℕ) → PerfexpertList
linked_without l q r = record l { next = update l.next q r; prev = update l.prev r q }

pub linked_with-IsLinked :
    (l : PerfexpertList) (xs ys : List ℕ) (x : ℕ)
    → IsLinked l (xs ++ ys)
    → IsNew l (xs ++ ys) x
    → IsLinked (linked_with l (last_or l.sentinel xs) x (head_or l.sentinel ys)) (xs ++ x ∷ ys)
linked_with-IsLinked l xs ys x (linked, absent, distinct) (other, new) = (
  Linked-with l.next l.prev l.sentinel x xs ys l.sentinel absent absent new other other distinct
      linked,
  Absent-with l.sentinel x xs ys (λ e. other (sym e)) absent,
  IsDistinct-with x xs ys new distinct,
)

pub linked_without-IsLinked :
    (l : PerfexpertList) (xs ys : List ℕ) (x : ℕ)
    → IsLinked l (xs ++ x ∷ ys)
    → IsLinked (linked_without l (last_or l.sentinel xs) (head_or l.sentinel ys)) (xs ++ ys)
linked_without-IsLinked l xs ys x (linked, absent, distinct) = (
  Linked-without l.next l.prev l.sentinel x xs ys l.sentinel absent absent distinct linked,
  Absent-without l.sentinel x xs ys absent,
  IsDistinct-without x xs ys distinct,
)

-- Links that agree at every address.
pub IsLinked-agree :
    (l l' : PerfexpertList) (xs : List ℕ)
    → ((x : ℕ) → l'.next x ≡ l.next x)
    → ((x : ℕ) → l'.prev x ≡ l.prev x)
    → l'.sentinel ≡ l.sentinel
    → IsLinked l xs
    → IsLinked l' xs
IsLinked-agree l l' xs same_next same_prev same_sentinel (linked, absent, distinct) = (
  subst (λ s. Linked l'.next l'.prev s xs s) (sym same_sentinel)
      (Linked-agree l.next l.prev l'.next l'.prev l.sentinel xs l.sentinel same_next same_prev
        linked),
  subst (λ s. Absent s xs) (sym same_sentinel) absent,
  distinct,
)

pub perfexpert_list_construct-IsLinked :
    (l : PerfexpertList) → IsLinked (perfexpert_list_construct l) []
unfolding perfexpert_list_construct update
perfexpert_list_construct-IsLinked l = (ground arith, tt, tt)

pub perfexpert_list_remove_item-IsLinked :
    (l : PerfexpertList) (xs ys : List ℕ) (x : ℕ)
    → IsLinked l (xs ++ x ∷ ys)
    → IsLinked (perfexpert_list_remove_item l x).1 (xs ++ ys)
unfolding perfexpert_list_remove_item update
perfexpert_list_remove_item-IsLinked l xs ys x ring =
    let behind = Linked-behind l.next l.prev l.sentinel x xs ys l.sentinel ring.0 in
    let ahead = Linked-ahead l.next l.prev l.sentinel x xs ys l.sentinel ring.0 in
    IsLinked-agree (linked_without l (last_or l.sentinel xs) (head_or l.sentinel ys))
      (perfexpert_list_remove_item l x).1 (xs ++ ys) (λ y. ground arith) (λ y. ground arith) refl
      (linked_without-IsLinked l xs ys x ring)

pub perfexpert_list_append-IsLinked :
    (l : PerfexpertList) (xs : List ℕ) (x : ℕ)
    → IsLinked l xs
    → IsNew l xs x
    → IsLinked (perfexpert_list_append l x) (xs ++ x ∷ [])
unfolding perfexpert_list_append update
perfexpert_list_append-IsLinked l xs x ring new =
    let last = Linked-last l.next l.prev l.sentinel xs l.sentinel ring.0 in
    let (other, absent) : IsNew l (xs ++ []) x =
      subst (λ ys. IsNew l ys x) (sym (append-nil xs)) new in
    let away : x ≢ last_or l.sentinel xs = Absent-last_or x l.sentinel xs [] other absent in
    IsLinked-agree (linked_with l (last_or l.sentinel xs) x l.sentinel) (perfexpert_list_append l x)
      (xs ++ x ∷ []) (λ y. ground arith) (λ y. ground arith) refl
      (linked_with-IsLinked l xs [] x (subst (IsLinked l) (sym (append-nil xs)) ring)
        (other, absent))

pub perfexpert_list_prepend-IsLinked :
    (l : PerfexpertList) (xs : List ℕ) (x : ℕ)
    → IsLinked l xs
    → IsNew l xs x
    → IsLinked (perfexpert_list_prepend l x) (x ∷ xs)
unfolding perfexpert_list_prepend update
perfexpert_list_prepend-IsLinked l xs x ring new =
    let first = Linked-first l.next l.prev l.sentinel xs l.sentinel ring.0 in
    let other = new.0 in
    IsLinked-agree (linked_with l l.sentinel x (head_or l.sentinel xs))
      (perfexpert_list_prepend l x) (x ∷ xs) (λ y. ground arith) (λ y. ground arith) refl
      (linked_with-IsLinked l [] xs x ring new)
