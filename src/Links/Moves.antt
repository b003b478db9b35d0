-- ===== src/Links/Moves.antt =====
-- Moving an item in a list of common/perfexpert_list.c, and putting one at a position.
use perfexpert.Prelude.{
  ℕ, ◌+◌, ◌-◌, ◌^◌, ◌<◌, ltb, ◌==◌, ◌≡◌, refl, sym, ◌∙◌, ap, subst, true, false, List, [], ◌∷◌,
  ◌++◌, length, length-append, arith,
}
use perfexpert.CString.{perfexpert_success}
use perfexpert.CacheSim.Types.{inc64}
use perfexpert.Outcome.{ok}
use perfexpert.Links.{
  PerfexpertList, is_behind, update, count_up, walk_next, perfexpert_list_insert, insert_behind,
  perfexpert_list_move_before, perfexpert_list_move_after,
}
use perfexpert.Links.Chain.{
  Linked, last_or, head_or, Absent-other, IsDistinct-Absent, Linked-behind, Linked-ahead,
}
use perfexpert.Links.Ring.{
  IsLinked, IsCounted, IsNew, linked_with, linked_without, linked_with-IsLinked,
  linked_without-IsLinked, IsLinked-agree,
}

last_or-end : (a b : ℕ) (us : List ℕ) → last_or a (us ++ b ∷ []) ≡ b
last_or-end a b [] = refl
last_or-end a b (u ∷ us) = last_or-end u b us

-- A place in a list that is written in two ways.
behind_place : (us vs : List ℕ) (b : ℕ) → (us ++ b ∷ []) ++ vs ≡ us ++ b ∷ vs
behind_place [] vs b = refl
behind_place (u ∷ us) vs b = ap (λ zs. u ∷ zs) (behind_place us vs b)

-- An item is put behind another one.
put_behind-IsLinked :
    (l : PerfexpertList) (us vs : List ℕ) (b x : ℕ)
    → IsLinked l (us ++ b ∷ vs)
    → IsNew l (us ++ b ∷ vs) x
    → IsLinked (linked_with l b x (head_or l.sentinel vs)) (us ++ b ∷ x ∷ vs)
put_behind-IsLinked l us vs b x ring new =
    let same = sym (behind_place us vs b) in
    let ring' =
      linked_with-IsLinked l (us ++ b ∷ []) vs x (subst (IsLinked l) same ring)
        (subst (λ zs. IsNew l zs x) same new) in
    subst (λ q. IsLinked (linked_with l q x (head_or l.sentinel vs)) (us ++ b ∷ x ∷ vs))
      (last_or-end l.sentinel b us)
      (subst
        (IsLinked (linked_with l (last_or l.sentinel (us ++ b ∷ [])) x (head_or l.sentinel vs)))
        (behind_place us (x ∷ vs) b) ring')

-- An item of a list is new to the others.
pub IsNew-item :
    (l : PerfexpertList) (xs ys : List ℕ) (x : ℕ) → IsLinked l (xs ++ x ∷ ys) → IsNew l (xs ++ ys) x
IsNew-item l xs ys x (linked, absent, distinct) =
    (λ e. Absent-other l.sentinel x xs ys absent (sym e), IsDistinct-Absent x xs ys distinct)

-- Moving an item takes it out and puts it into the list that is left.
module _ (l : PerfexpertList) (xs ys : List ℕ) (a : ℕ) (ring : IsLinked l (xs ++ a ∷ ys)) where
  abbrev taken : PerfexpertList
  taken = linked_without l (last_or l.sentinel xs) (head_or l.sentinel ys)

  behind_a : l.prev a ≡ last_or l.sentinel xs
  behind_a = Linked-behind l.next l.prev l.sentinel a xs ys l.sentinel ring.0

  ahead_a : l.next a ≡ head_or l.sentinel ys
  ahead_a = Linked-ahead l.next l.prev l.sentinel a xs ys l.sentinel ring.0

  taken-moved :
      (us vs : List ℕ)
      → xs ++ ys ≡ us ++ vs
      → IsLinked
          (linked_with taken (last_or l.sentinel us) a (head_or l.sentinel vs))
          (us ++ a ∷ vs)
  taken-moved us vs same =
      linked_with-IsLinked taken us vs a
        (subst (IsLinked taken) same (linked_without-IsLinked l xs ys a ring))
        (subst (λ zs. IsNew l zs a) same (IsNew-item l xs ys a ring))

  pub perfexpert_list_move_before-IsLinked :
      (us vs : List ℕ) (b : ℕ)
      → xs ++ ys ≡ us ++ b ∷ vs
      → IsLinked (perfexpert_list_move_before l a b) (us ++ a ∷ b ∷ vs)
  unfolding perfexpert_list_move_before update
  perfexpert_list_move_before-IsLinked us vs b same =
      let behind = behind_a in
      let ahead = ahead_a in
      let ring' = subst (IsLinked taken) same (linked_without-IsLinked l xs ys a ring) in
      let place = Linked-behind taken.next taken.prev l.sentinel b us vs l.sentinel ring'.0 in
      IsLinked-agree (linked_with taken (last_or l.sentinel us) a b)
        (perfexpert_list_move_before l a b) (us ++ a ∷ b ∷ vs) (λ y. ground arith)
        (λ y. ground arith) refl (taken-moved us (b ∷ vs) same)

  pub perfexpert_list_move_after-IsLinked :
      (us vs : List ℕ) (b : ℕ)
      → xs ++ ys ≡ us ++ b ∷ vs
      → IsLinked (perfexpert_list_move_after l a b) (us ++ b ∷ a ∷ vs)
  unfolding perfexpert_list_move_after update
  perfexpert_list_move_after-IsLinked us vs b same =
      let behind = behind_a in
      let ahead = ahead_a in
      let ring' = subst (IsLinked taken) same (linked_without-IsLinked l xs ys a ring) in
      let place = Linked-ahead taken.next taken.prev l.sentinel b us vs l.sentinel ring'.0 in
      IsLinked-agree (linked_with taken b a (head_or l.sentinel vs))
        (perfexpert_list_move_after l a b) (us ++ b ∷ a ∷ vs) (λ y. ground arith)
        (λ y. ground arith) refl
        (put_behind-IsLinked taken us vs b a ring'
          (subst (λ zs. IsNew l zs a) same (IsNew-item l xs ys a ring)))

-- The item at a position.
walk_next-item :
    (l : PerfexpertList) (a : ℕ) (us vs : List ℕ) (b c : ℕ)
    → Linked l.next l.prev a (us ++ b ∷ vs) c
    → walk_next l (length us) (l.next a) ≡ b
unfolding walk_next
walk_next-item l a [] vs b c (ahead, behind, linked) = ahead
walk_next-item l a (u ∷ us) vs b c (ahead, behind, linked) =
    ap (λ z. walk_next l (length us) (l.next z)) ahead ∙ walk_next-item l u us vs b c linked

-- At a position that is neither the first one nor behind the list, the item is put behind another.
insert-between :
    (l : PerfexpertList) (us vs : List ℕ) (b v x : ℕ)
    → IsLinked l (us ++ b ∷ v ∷ vs)
    → IsCounted l (us ++ b ∷ v ∷ vs)
    → length (us ++ b ∷ v ∷ vs) < 2 ^ 31
    → perfexpert_list_insert l x (length us + 1)
      ≡ ok (perfexpert_success, count_up (insert_behind l x b))
unfolding perfexpert_list_insert
insert-between l us vs b v x ring counted few =
    let size = counted.0 in
    let parts = length-append us (b ∷ v ∷ vs) in
    let inside : is_behind (length us + 1) l.length ≡ false = ground (arith, size, parts, few) in
    let fits : ltb (length us) (2 ^ 31) ≡ true = ground (arith, parts, few) in
    let later : (length us + 1 == 0) ≡ false = ground arith in
    let place : length us + 1 - 1 ≡ length us = omega arith in
    let item = walk_next-item l l.sentinel us (v ∷ vs) b l.sentinel ring.0 in
    rw (inside, later, place, fits, item)

pub perfexpert_list_insert-IsLinked :
    (l : PerfexpertList) (us vs : List ℕ) (b v x : ℕ)
    → IsLinked l (us ++ b ∷ v ∷ vs)
    → IsCounted l (us ++ b ∷ v ∷ vs)
    → IsNew l (us ++ b ∷ v ∷ vs) x
    → length (us ++ b ∷ v ∷ vs) < 2 ^ 31
    → (l' : PerfexpertList) × (perfexpert_list_insert l x (length us + 1)
        ≡ ok (perfexpert_success, l'))
      × IsLinked l' (us ++ b ∷ x ∷ v ∷ vs)
      × (l'.length ≡ inc64 l.length)
unfolding insert_behind update
perfexpert_list_insert-IsLinked l us vs b v x ring counted new few =
    let ahead = Linked-ahead l.next l.prev l.sentinel b us (v ∷ vs) l.sentinel ring.0 in
    let behind =
      IsLinked-agree (linked_with l b x v) (count_up (insert_behind l x b)) (us ++ b ∷ x ∷ v ∷ vs)
        (λ y. ground arith) (λ y. ground arith) refl
        (put_behind-IsLinked l us (v ∷ vs) b x ring new) in
    (count_up (insert_behind l x b), insert-between l us vs b v x ring counted few, behind, refl)
