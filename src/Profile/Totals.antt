-- ===== src/Profile/Totals.antt =====
-- The totals of the metrics with one key, and how they fare when the inner loop takes a key's metrics away.
use text.Mathlib.TextEquality.{eq_iff}
use perfexpert.Prelude.{
  ◌≡◌, inl, inr, refl, true, false, Bool-cases, Option, none, some, List, [], ◌∷◌, ◌++◌,
  if◌then◌else◌, arith,
}
use perfexpert.Profile.{Metric, same_metric, absorb}

module _ {D : Type 0} where
  -- The first metric with the key of `k`.
  unfoldable pub find_metric : Metric D → List (Metric D) → Option (Metric D)
  find_metric k [] = none
  find_metric k (n ∷ ns) = if same_metric k n then some n else find_metric k ns

  -- The metrics without those of the key of `k`.
  unfoldable pub others_than : Metric D → List (Metric D) → List (Metric D)
  others_than k [] = []
  others_than k (n ∷ ns) = if same_metric k n then others_than k ns else n ∷ others_than k ns

  -- No two metrics have one key.
  abbrev pub IsDistinct : List (Metric D) → Type 0
  IsDistinct [] = Unit
  IsDistinct (n ∷ ns) = (find_metric n ns ≡ none) × IsDistinct ns

  pub others_than-value :
      (k : Metric D) (w : D) (ns : List (Metric D))
      → others_than (record k { value = w }) ns ≡ others_than k ns
  unfolding others_than
  others_than-value k w [] = refl
  others_than-value k w (n ∷ ns) = rw (others_than-value k w ns) refl

  -- Metrics of one key pass the same tests.
  pub same_metric-eq :
      (k c n : Metric D) → same_metric k c ≡ true → same_metric k n ≡ same_metric c n
  same_metric-eq k c n h =
      ground (arith, eq_iff k.name c.name, eq_iff k.name n.name, eq_iff c.name n.name)

  pub same_metric_symm : (c n : Metric D) → same_metric c n ≡ same_metric n c
  same_metric_symm c n = ground (arith, eq_iff c.name n.name, eq_iff n.name c.name)

  pub same_metric_refl : (c : Metric D) → same_metric c c ≡ true
  same_metric_refl c = ground (arith, eq_iff c.name c.name)

  pub find_metric-append :
      (k : Metric D) (xs ys : List (Metric D))
      → find_metric k (xs ++ ys)
        ≡ elim (find_metric k xs) [ none ↦ find_metric k ys | some m ↦ some m ]
  unfolding find_metric
  find_metric-append k [] ys = refl
  find_metric-append k (x ∷ xs) ys = ground (arith, find_metric-append k xs ys)

  pub apart_of :
      (k c n : Metric D)
      → same_metric c n ≡ true
      → same_metric k c ≡ false
      → same_metric k n ≡ false
  apart_of k c n same apart =
      ground (arith, eq_iff k.name c.name, eq_iff k.name n.name, eq_iff c.name n.name)

module _ {D : Type 0} (add : D → D → D) where
  -- The values of the metrics with the key of `k`, added to a value from left to right.
  unfoldable pub sum_for : Metric D → D → List (Metric D) → D
  sum_for k v [] = v
  sum_for k v (n ∷ ns) = sum_for k (if same_metric k n then add v n.value else v) ns

  -- The first metric with the key of `k`, with the values of the later ones added to its value.
  unfoldable pub total_of : Metric D → List (Metric D) → Option (Metric D)
  total_of k [] = none
  total_of k (n ∷ ns) =
      if same_metric k n then some (record n { value = sum_for k n.value ns }) else total_of k ns

  -- The value of a key does not matter.
  pub sum_for-value :
      (k : Metric D) (w v : D) (ns : List (Metric D))
      → sum_for (record k { value = w }) v ns ≡ sum_for k v ns
  unfolding sum_for
  sum_for-value k w v [] = refl
  sum_for-value k w v (n ∷ ns) = sum_for-value k w (if same_metric k n then add v n.value else v) ns

  pub absorb-sum_for :
      (c : Metric D) (ns : List (Metric D))
      → absorb add c ns ≡ (record c { value = sum_for c c.value ns }, others_than c ns)
  unfolding absorb sum_for others_than
  absorb-sum_for c [] = refl
  absorb-sum_for c (n ∷ ns) =
      let w = add c.value n.value in
      let c' : Metric D = record c { value = w } in
      ground (
        arith,
        absorb-sum_for c' ns,
        absorb-sum_for c ns,
        sum_for-value c w w ns,
        others_than-value c w ns,
      )

  -- Taking the metrics of one key away does not change the totals of the others.
  pub sum_for-others_than :
      (k c : Metric D) (v : D) (ns : List (Metric D))
      → same_metric k c ≡ false
      → sum_for k v (others_than c ns) ≡ sum_for k v ns
  unfolding sum_for others_than
  sum_for-others_than k c v [] apart = refl
  sum_for-others_than k c v (n ∷ ns) apart = elim (Bool-cases (same_metric c n)) [
    | inl same ↦ ground (arith, apart_of k c n same apart, sum_for-others_than k c v ns apart)
    | inr other ↦
        rw other (sum_for-others_than k c (if same_metric k n then add v n.value else v) ns apart)
  ]

  pub total_of-others_than :
      (k c : Metric D) (ns : List (Metric D))
      → same_metric k c ≡ false
      → total_of k (others_than c ns) ≡ total_of k ns
  unfolding total_of others_than
  total_of-others_than k c [] apart = refl
  total_of-others_than k c (n ∷ ns) apart = elim (Bool-cases (same_metric c n)) [
    | inl same ↦ ground (arith, apart_of k c n same apart, total_of-others_than k c ns apart)
    | inr other ↦
        ground (arith, sum_for-others_than k c n.value ns apart, total_of-others_than k c ns apart)
  ]

  -- None of the key is left.
  pub total_of-none : (c : Metric D) (ns : List (Metric D)) → total_of c (others_than c ns) ≡ none
  unfolding total_of others_than
  total_of-none c [] = refl
  total_of-none c (n ∷ ns) = ground (arith, total_of-none c ns)

  pub sum_for-key :
      (k c : Metric D) (v : D) (ns : List (Metric D))
      → same_metric k c ≡ true
      → sum_for k v ns ≡ sum_for c v ns
  unfolding sum_for
  sum_for-key k c v [] same = refl
  sum_for-key k c v (n ∷ ns) same =
      rw (same_metric-eq k c n same)
        (sum_for-key k c (if same_metric c n then add v n.value else v) ns same)
