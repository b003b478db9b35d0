-- ===== src/Links/Runs.antt =====
-- The lists that the operations of common/perfexpert_list.c make, one operation after another.
use perfexpert.Prelude.{
  ℕ, ◌+◌, ◌^◌, ◌<◌, ◌≡◌, refl, sym, ◌∙◌, ap, subst, Option, none, some, List, [], ◌∷◌, ◌++◌, length,
  length-append, arith,
}
use perfexpert.Outcome.{Outcome, ok, fault}
use perfexpert.CString.{perfexpert_success}
use perfexpert.CacheSim.Types.{inc64}
use perfexpert.Links.{
  PerfexpertList, dec64, perfexpert_list_construct, perfexpert_list_get_first,
  perfexpert_list_get_last, perfexpert_list_get_size, perfexpert_list_remove_item,
  perfexpert_list_append, perfexpert_list_prepend, perfexpert_list_insert,
  perfexpert_list_move_before, perfexpert_list_move_after, perfexpert_list_swap,
}
use perfexpert.Links.Chain.{last_or, Linked-last}
use perfexpert.Links.Ring.{
  IsLinked, IsCounted, IsNew, perfexpert_list_construct-IsLinked,
  perfexpert_list_remove_item-IsLinked, perfexpert_list_append-IsLinked,
  perfexpert_list_prepend-IsLinked,
}
use perfexpert.Links.Swap.{perfexpert_list_swap-IsLinked}
use perfexpert.Links.Moves.{
  perfexpert_list_move_before-IsLinked, perfexpert_list_move_after-IsLinked,
  perfexpert_list_insert-IsLinked,
}

-- The walk of an insert counts in an `int`.
abbrev pub IsShort : List ℕ → Type 0
IsShort xs = length xs < 2 ^ 31

-- There is room in the counter for one more item.
abbrev pub HasRoom : List ℕ → Type 0
HasRoom xs = length xs + 1 < 2 ^ 64

-- A list that calls on one sentinel have made, and its items in their order. An item that is put
-- into it is new to it, a position is neither the first one nor behind the list, and items that are
-- swapped are no neighbours.
pub data Built : PerfexpertList → List ℕ → Type 0 where
  constructed : (l : PerfexpertList) → Built (perfexpert_list_construct l) []
  appended :
      (l : PerfexpertList) (xs : List ℕ) (x : ℕ)
      → Built l xs
      → IsNew l xs x
      → HasRoom xs
      → Built (perfexpert_list_append l x) (xs ++ x ∷ [])
  prepended :
      (l : PerfexpertList) (xs : List ℕ) (x : ℕ)
      → Built l xs
      → IsNew l xs x
      → HasRoom xs
      → Built (perfexpert_list_prepend l x) (x ∷ xs)
  inserted :
      (l l' : PerfexpertList) (us vs : List ℕ) (b v x : ℕ)
      → Built l (us ++ b ∷ v ∷ vs)
      → IsNew l (us ++ b ∷ v ∷ vs) x
      → IsShort (us ++ b ∷ v ∷ vs)
      → perfexpert_list_insert l x (length us + 1) ≡ ok (perfexpert_success, l')
      → Built l' (us ++ b ∷ x ∷ v ∷ vs)
  removed :
      (l : PerfexpertList) (xs ys : List ℕ) (x : ℕ)
      → Built l (xs ++ x ∷ ys)
      → Built (perfexpert_list_remove_item l x).1 (xs ++ ys)
  moved_before :
      (l : PerfexpertList) (xs ys us vs : List ℕ) (a b : ℕ)
      → Built l (xs ++ a ∷ ys)
      → xs ++ ys ≡ us ++ b ∷ vs
      → Built (perfexpert_list_move_before l a b) (us ++ a ∷ b ∷ vs)
  moved_after :
      (l : PerfexpertList) (xs ys us vs : List ℕ) (a b : ℕ)
      → Built l (xs ++ a ∷ ys)
      → xs ++ ys ≡ us ++ b ∷ vs
      → Built (perfexpert_list_move_after l a b) (us ++ b ∷ a ∷ vs)
  swapped :
      (l : PerfexpertList) (us ms vs : List ℕ) (a m b : ℕ)
      → Built l (us ++ a ∷ m ∷ (ms ++ b ∷ vs))
      → Built (perfexpert_list_swap l a b) (us ++ b ∷ m ∷ (ms ++ a ∷ vs))

abbrev pub first_of : List ℕ → Option ℕ
first_of [] = none
first_of (x ∷ xs) = some x

-- A list that is linked and counted answers for its items.
abbrev pub IsRing : PerfexpertList → List ℕ → Type 0
IsRing l xs = IsLinked l xs × IsCounted l xs

length-with : (us vs : List ℕ) (x : ℕ) → length (us ++ x ∷ vs) ≡ length (us ++ vs) + 1
length-with us vs x = omega (arith, length-append us (x ∷ vs), length-append us vs)

length-behind : (us vs : List ℕ) (b x : ℕ) → length (us ++ b ∷ x ∷ vs) ≡ length (us ++ b ∷ vs) + 1
length-behind us vs b x = omega (arith, length-append us (b ∷ x ∷ vs), length-append us (b ∷ vs))

-- The counter goes up and down with the items, and stays as they move.
module _ (l l' : PerfexpertList) (zs zs' : List ℕ) where
  IsCounted-inc64 :
      l'.length ≡ inc64 l.length
      → length zs' ≡ length zs + 1
      → IsCounted l zs
      → HasRoom zs
      → IsCounted l' zs'
  IsCounted-inc64 counted longer (before, small) room = (omega arith, omega arith)

  IsCounted-dec64 :
      l'.length ≡ dec64 l.length → length zs ≡ length zs' + 1 → IsCounted l zs → IsCounted l' zs'
  IsCounted-dec64 counted shorter (before, small) = (omega arith, omega arith)

  IsCounted-moved :
      l'.length ≡ l.length → length zs' ≡ length zs → IsCounted l zs → IsCounted l' zs'
  IsCounted-moved counted as_many (before, small) = (omega arith, omega arith)

length-moved :
    (xs ys us vs : List ℕ) (a : ℕ)
    → xs ++ ys ≡ us ++ vs
    → length (us ++ a ∷ vs) ≡ length (xs ++ a ∷ ys)
length-moved xs ys us vs a same =
    length-with us vs a ∙ ap (λ zs. length zs + 1) (sym same) ∙ sym (length-with xs ys a)

length-swapped :
    (us ms vs : List ℕ) (a m b : ℕ)
    → length (us ++ b ∷ m ∷ (ms ++ a ∷ vs)) ≡ length (us ++ a ∷ m ∷ (ms ++ b ∷ vs))
length-swapped us ms vs a m b =
    let one = length-append us (b ∷ m ∷ (ms ++ a ∷ vs)) in
    let other = length-append us (a ∷ m ∷ (ms ++ b ∷ vs)) in
    omega (arith, one, other, length-append ms (a ∷ vs), length-append ms (b ∷ vs))

abbrev list_of : PerfexpertList → Outcome (ℕ × PerfexpertList) → PerfexpertList
list_of otherwise (ok (rc, l)) = l
list_of otherwise fault = otherwise

answered_list :
    (l l' : PerfexpertList) {rc rc' : ℕ}
    → ◌≡◌ {A = Outcome (ℕ × PerfexpertList)} (ok (rc, l)) (ok (rc', l'))
    → l ≡ l'
answered_list l l' same = ap (list_of l) same

pub Built-IsRing : (l : PerfexpertList) (xs : List ℕ) → Built l xs → IsRing l xs
unfolding perfexpert_list_construct perfexpert_list_append perfexpert_list_prepend
    perfexpert_list_remove_item perfexpert_list_move_before perfexpert_list_move_after
    perfexpert_list_swap
Built-IsRing _ _ (constructed l) = (perfexpert_list_construct-IsLinked l, (refl, omega arith))
Built-IsRing _ _ (appended l xs x built new room) =
    let (ring, counted) = Built-IsRing l xs built in
    (
      perfexpert_list_append-IsLinked l xs x ring new,
      IsCounted-inc64 l (perfexpert_list_append l x) xs (xs ++ x ∷ []) refl
          (length-append xs (x ∷ [])) counted room,
    )
Built-IsRing _ _ (prepended l xs x built new room) =
    let (ring, counted) = Built-IsRing l xs built in
    (
      perfexpert_list_prepend-IsLinked l xs x ring new,
      IsCounted-inc64 l (perfexpert_list_prepend l x) xs (x ∷ xs) refl (omega arith) counted room,
    )
Built-IsRing _ _ (inserted l l' us vs b v x built new few put) =
    let (ring, counted) = Built-IsRing l (us ++ b ∷ v ∷ vs) built in
    let (l1, done, ring', more) =
      perfexpert_list_insert-IsLinked l us vs b v x ring counted new few in
    let same : l1 ≡ l' = answered_list l1 l' (sym done ∙ put) in
    subst (λ k. IsRing k (us ++ b ∷ x ∷ v ∷ vs)) same
      (
        ring',
        IsCounted-inc64 l l1 (us ++ b ∷ v ∷ vs) (us ++ b ∷ x ∷ v ∷ vs) more
            (length-behind us (v ∷ vs) b x) counted (omega arith),
      )
Built-IsRing _ _ (removed l xs ys x built) =
    let (ring, counted) = Built-IsRing l (xs ++ x ∷ ys) built in
    (
      perfexpert_list_remove_item-IsLinked l xs ys x ring,
      IsCounted-dec64 l (perfexpert_list_remove_item l x).1 (xs ++ x ∷ ys) (xs ++ ys) refl
          (length-with xs ys x) counted,
    )
Built-IsRing _ _ (moved_before l xs ys us vs a b built same) =
    let (ring, counted) = Built-IsRing l (xs ++ a ∷ ys) built in
    (
      perfexpert_list_move_before-IsLinked l xs ys a ring us vs b same,
      IsCounted-moved l (perfexpert_list_move_before l a b) (xs ++ a ∷ ys) (us ++ a ∷ b ∷ vs) refl
          (length-moved xs ys us (b ∷ vs) a same) counted,
    )
Built-IsRing _ _ (moved_after l xs ys us vs a b built same) =
    let (ring, counted) = Built-IsRing l (xs ++ a ∷ ys) built in
    (
      perfexpert_list_move_after-IsLinked l xs ys a ring us vs b same,
      IsCounted-moved l (perfexpert_list_move_after l a b) (xs ++ a ∷ ys) (us ++ b ∷ a ∷ vs) refl
          (length-behind us vs b a
            ∙ sym (length-with us (b ∷ vs) a)
            ∙ length-moved xs ys us (b ∷ vs) a same)
          counted,
    )
Built-IsRing _ _ (swapped l us ms vs a m b built) =
    let (ring, counted) = Built-IsRing l (us ++ a ∷ m ∷ (ms ++ b ∷ vs)) built in
    (
      perfexpert_list_swap-IsLinked l us ms vs a m b ring,
      IsCounted-moved l (perfexpert_list_swap l a b) (us ++ a ∷ m ∷ (ms ++ b ∷ vs))
          (us ++ b ∷ m ∷ (ms ++ a ∷ vs)) refl (length-swapped us ms vs a m b) counted,
    )

-- What the three readers answer for a list of items.
abbrev pub IsAnswered : PerfexpertList → List ℕ → Type 0
IsAnswered l xs =
    (perfexpert_list_get_first l ≡ first_of xs)
    × (perfexpert_list_get_last l ≡ last_or l.sentinel xs)
    × (perfexpert_list_get_size l ≡ length xs)

-- An item that is new to a list of fewer than 2^31 items is put at any position behind the first
-- one and inside of it.
abbrev pub TakesItems : PerfexpertList → List ℕ → Type 0
TakesItems l xs =
    (us vs : List ℕ) (b v x : ℕ)
    → xs ≡ us ++ b ∷ v ∷ vs
    → IsNew l xs x
    → IsShort xs
    → (l' : PerfexpertList) × (perfexpert_list_insert l x (length us + 1)
        ≡ ok (perfexpert_success, l'))
      × Built l' (us ++ b ∷ x ∷ v ∷ vs)

takes_items : (l : PerfexpertList) (xs : List ℕ) → Built l xs → TakesItems l xs
takes_items l xs built us vs b v x same new few =
    let built' = subst (Built l) same built in
    let new' = subst (λ ys. IsNew l ys x) same new in
    let few' = subst IsShort same few in
    let (ring, counted) = Built-IsRing l (us ++ b ∷ v ∷ vs) built' in
    let (l', done, ring', more) =
      perfexpert_list_insert-IsLinked l us vs b v x ring counted new' few' in
    (l', done, inserted l l' us vs b v x built' new' few' done)

-- A list that any sequence of construct, append, prepend, insert, remove_item, move_before,
-- move_after and swap has made, where every item put in is new to the list, an append or prepend
-- has room in the counter, an insert is at a position behind the first item and not behind the
-- last, in a list of fewer than 2^31 items, and succeeds, and no items swapped are neighbours
-- (the first one named being the earlier one), has its items in the order that the same changes
-- of a list give, linked both ways in a ring through the sentinel with none twice; get_first
-- answers the first item or null, get_last the last one or the sentinel, and get_size their
-- number; and if it has fewer than 2^31 items, inserting a new item at any such position
-- succeeds and puts it there.
pub Built-IsAnswered :
    (l : PerfexpertList) (xs : List ℕ)
    → Built l xs
    → IsRing l xs × IsAnswered l xs × TakesItems l xs
unfolding perfexpert_list_get_first perfexpert_list_get_last perfexpert_list_get_size
Built-IsAnswered l [] built =
    let ring = Built-IsRing l [] built in
    (ring, (ground arith, ring.0.0.1, ring.1.0), takes_items l [] built)
Built-IsAnswered l (x ∷ xs) built =
    let ring = Built-IsRing l (x ∷ xs) built in
    let ((ahead, behind, linked), (other, absent), distinct) = ring.0 in
    (
      ring,
      (ground arith, Linked-last l.next l.prev l.sentinel (x ∷ xs) l.sentinel ring.0.0, ring.1.0),
      takes_items l (x ∷ xs) built,
    )
