-- ===== src/Links/Swap.antt =====
-- Swapping two items of a list of common/perfexpert_list.c that are not neighbours.
use perfexpert.Prelude.{
  ℕ, ◌≡◌, ◌≢◌, refl, sym, ◌∙◌, subst, List, [], ◌∷◌, ◌++◌, append_assoc, arith,
}
use perfexpert.Links.{PerfexpertList, update, perfexpert_list_swap}
use perfexpert.Links.Chain.{
  Absent, IsDistinct, last_or, head_or, Absent-head_or, Absent-other, Absent-without, Absent-with,
  Absent-last_or, IsDistinct-Absent, Linked-behind, Linked-ahead,
}
use perfexpert.Links.Ring.{
  IsLinked, IsNew, linked_with, linked_without, linked_with-IsLinked, linked_without-IsLinked,
  IsLinked-agree,
}
use perfexpert.Links.Moves.{IsNew-item}

last_or-append : (s m : ℕ) (us ms : List ℕ) → last_or s (us ++ m ∷ ms) ≡ last_or m ms
last_or-append s m [] ms = refl
last_or-append s m (u ∷ us) ms = last_or-append u m us ms

Absent-suffix : (c : ℕ) (us zs : List ℕ) → Absent c (us ++ zs) → Absent c zs
Absent-suffix c [] zs absent = absent
Absent-suffix c (u ∷ us) zs (away, absent) = Absent-suffix c us zs absent

-- The item before a place is not behind it.
last_or-Absent :
    (s : ℕ) (us zs : List ℕ)
    → Absent s (us ++ zs)
    → IsDistinct (us ++ zs)
    → Absent (last_or s us) zs
last_or-Absent s [] zs absent distinct = absent
last_or-Absent s (u ∷ us) zs absent (away, distinct) = last_or-Absent u us zs away distinct

module _ (l : PerfexpertList) (us ms vs : List ℕ) (a m b : ℕ)
    (ring : IsLinked l (us ++ a ∷ m ∷ (ms ++ b ∷ vs))) where
  -- The neighbours.
  abbrev before_a : ℕ
  before_a = last_or l.sentinel us

  abbrev before_b : ℕ
  before_b = last_or m ms

  abbrev behind_b : ℕ
  behind_b = head_or l.sentinel vs

  -- Both items are taken out.
  abbrev without_a : PerfexpertList
  without_a = linked_without l before_a m

  abbrev without_both : PerfexpertList
  without_both = linked_without without_a before_b behind_b

  assoc : (zs : List ℕ) → (us ++ m ∷ ms) ++ zs ≡ us ++ m ∷ (ms ++ zs)
  assoc zs = append_assoc us (m ∷ ms) zs

  without_a-IsLinked : IsLinked without_a ((us ++ m ∷ ms) ++ b ∷ vs)
  without_a-IsLinked =
      subst (IsLinked without_a) (sym (assoc (b ∷ vs)))
        (linked_without-IsLinked l us (m ∷ (ms ++ b ∷ vs)) a ring)

  without_both-IsLinked : IsLinked without_both (us ++ m ∷ (ms ++ vs))
  without_both-IsLinked = subst (IsLinked without_both) (assoc vs) (
      subst (λ q. IsLinked (linked_without without_a q behind_b) ((us ++ m ∷ ms) ++ vs))
        (last_or-append l.sentinel m us ms)
        (linked_without-IsLinked without_a (us ++ m ∷ ms) vs b without_a-IsLinked))

  b-IsNew : IsNew l (us ++ m ∷ (ms ++ vs)) b
  b-IsNew =
      subst (λ zs. IsNew l zs b) (assoc vs)
        (IsNew-item without_a (us ++ m ∷ ms) vs b without_a-IsLinked)

  a-IsNew : IsNew l ((us ++ m ∷ ms) ++ b ∷ vs) a
  a-IsNew =
      subst (λ zs. IsNew l zs a) (sym (assoc (b ∷ vs)))
        (IsNew-item l us (m ∷ (ms ++ b ∷ vs)) a ring)

  a-other : a ≢ b
  a-other = Absent-other a b (us ++ m ∷ ms) vs a-IsNew.1

  -- The second item is put where the first one was, and the first one where the second was.
  abbrev with_b : PerfexpertList
  with_b = linked_with without_both before_a b m

  abbrev with_both : PerfexpertList
  with_both = linked_with with_b before_b a behind_b

  a-IsNew_again : IsNew l (us ++ b ∷ m ∷ (ms ++ vs)) a
  a-IsNew_again = (
    a-IsNew.0,
    Absent-with a b us (m ∷ (ms ++ vs)) a-other
        (subst (Absent a) (assoc vs) (Absent-without a b (us ++ m ∷ ms) vs a-IsNew.1)),
  )

  assoc_b : (zs : List ℕ) → (us ++ b ∷ m ∷ ms) ++ zs ≡ us ++ b ∷ m ∷ (ms ++ zs)
  assoc_b zs = append_assoc us (b ∷ m ∷ ms) zs

  with_b-IsLinked : IsLinked with_b ((us ++ b ∷ m ∷ ms) ++ vs)
  with_b-IsLinked =
      subst (IsLinked with_b) (sym (assoc_b vs))
        (linked_with-IsLinked without_both us (m ∷ (ms ++ vs)) b without_both-IsLinked b-IsNew)

  with_both-IsLinked : IsLinked with_both (us ++ b ∷ m ∷ (ms ++ a ∷ vs))
  with_both-IsLinked = subst (IsLinked with_both) (assoc_b (a ∷ vs)) (
      subst (λ q. IsLinked (linked_with with_b q a behind_b) ((us ++ b ∷ m ∷ ms) ++ a ∷ vs))
        (last_or-append l.sentinel b us (m ∷ ms))
        (linked_with-IsLinked with_b (us ++ b ∷ m ∷ ms) vs a with_b-IsLinked
          (subst (λ zs. IsNew l zs a) (sym (assoc_b vs)) a-IsNew_again)))

  -- The neighbours of the items differ from these and from each other.
  other_than_neighbours :
      (x : ℕ)
      → IsNew l (us ++ m ∷ (ms ++ vs)) x
      → (x ≢ before_a) × (x ≢ m) × (x ≢ before_b) × (x ≢ behind_b)
  other_than_neighbours x (other, absent) =
      let other_m = Absent-other x m us (ms ++ vs) absent in
      let tail = Absent-suffix x us (m ∷ (ms ++ vs)) absent in
      (
        Absent-last_or x l.sentinel us (m ∷ (ms ++ vs)) other absent,
        other_m,
        Absent-last_or x m ms vs other_m tail.1,
        Absent-head_or x l.sentinel ms vs other tail.1,
      )

  before-other : before_a ≢ before_b
  before-other =
      let (linked, absent, distinct) = without_both-IsLinked in
      let away = last_or-Absent l.sentinel us (m ∷ (ms ++ vs)) absent distinct in
      Absent-last_or before_a m ms vs away.0 away.1

  behind-other : m ≢ behind_b
  behind-other =
      let (linked, absent, distinct) = without_both-IsLinked in
      let rest = Absent-suffix m us (ms ++ vs) (IsDistinct-Absent m us (ms ++ vs) distinct) in
      Absent-head_or m l.sentinel ms vs
        (λ e. Absent-other l.sentinel m us (ms ++ vs) absent (sym e)) rest

  -- The links of the second item.
  linked_to_b : (l.prev b ≡ before_b) × (l.next b ≡ behind_b)
  linked_to_b =
      let ring_b : IsLinked l ((us ++ a ∷ m ∷ ms) ++ b ∷ vs) =
        subst (IsLinked l) (sym (append_assoc us (a ∷ m ∷ ms) (b ∷ vs))) ring in
      (
        Linked-behind l.next l.prev l.sentinel b (us ++ a ∷ m ∷ ms) vs l.sentinel ring_b.0
            ∙ last_or-append l.sentinel a us (m ∷ ms),
        Linked-ahead l.next l.prev l.sentinel b (us ++ a ∷ m ∷ ms) vs l.sentinel ring_b.0,
      )

  pub perfexpert_list_swap-IsLinked :
      IsLinked (perfexpert_list_swap l a b) (us ++ b ∷ m ∷ (ms ++ a ∷ vs))
  unfolding perfexpert_list_swap update
  perfexpert_list_swap-IsLinked =
      let behind_a =
        Linked-behind l.next l.prev l.sentinel a us (m ∷ (ms ++ b ∷ vs)) l.sentinel ring.0 in
      let ahead_a =
        Linked-ahead l.next l.prev l.sentinel a us (m ∷ (ms ++ b ∷ vs)) l.sentinel ring.0 in
      let (prev_b, next_b) = linked_to_b in
      let a_b = a-other in
      let (a1, a2, a3, a4) =
        other_than_neighbours a (
          a-IsNew.0,
          subst (Absent a) (assoc vs) (Absent-without a b (us ++ m ∷ ms) vs a-IsNew.1),
        ) in
      let (b1, b2, b3, b4) = other_than_neighbours b b-IsNew in
      let p = before-other in
      let n = behind-other in
      IsLinked-agree with_both (perfexpert_list_swap l a b) (us ++ b ∷ m ∷ (ms ++ a ∷ vs))
        (λ y. ground arith) (λ y. ground arith) refl with_both-IsLinked
