-- ===== src/Profile/Merge.antt =====
-- What aggregating the metrics of a hotspot comes to: one metric for each key, with the sum of its
-- values in their order.
use perfexpert.Prelude.{
  ℕ, zero, suc, ◌≤◌, ◌≡◌, inl, inr, ◌∙◌, refl, false, Bool-cases, Option, none, some, List, [], ◌∷◌,
  ◌++◌, length, arith,
}
use perfexpert.Profile.{
  Metric, same_metric, absorb, aggregate_from, profile_aggregate_metrics, HpctoolkitProfile,
  profile_flatten_hotspots, profile_flatten_all,
}
use perfexpert.Profile.Totals.{
  sum_for, total_of, find_metric, others_than, IsDistinct, same_metric_symm, absorb-sum_for,
  find_metric-append, total_of-others_than, sum_for-key,
}

module _ {D : Type 0} (add : D → D → D) where
  -- None of the metrics on one side has the key of one on the other.
  abbrev IsApart : List (Metric D) → List (Metric D) → Type 0
  IsApart before [] = Unit
  IsApart before (n ∷ ns) = (find_metric n before ≡ none) × IsApart before ns

  -- What the two loops keep of a key: the metric before, or else the total of those to come.
  abbrev both_sides : Metric D → List (Metric D) → List (Metric D) → Option (Metric D)
  both_sides k before after = elim (find_metric k before) [
    | some m ↦ some m
    | none ↦ total_of add k after
  ]

  others_than-absent :
      (c : Metric D) (ns : List (Metric D))
      → find_metric c ns ≡ none
      → (others_than c ns ≡ ns) × (sum_for add c c.value ns ≡ c.value)
  unfolding find_metric others_than sum_for
  others_than-absent c [] absent = (refl, refl)
  others_than-absent c (n ∷ ns) absent =
      let other : same_metric c n ≡ false = ground arith in
      let (stay, sum) = others_than-absent c ns (ground arith) in (ground arith, ground arith)

  absorb-absent :
      (c : Metric D) (ns : List (Metric D)) → find_metric c ns ≡ none → absorb add c ns ≡ (c, ns)
  absorb-absent c ns absent =
      let (stay, sum) = others_than-absent c ns absent in
      absorb-sum_for add c ns ∙ (rw (stay, sum) refl)

  both_sides-step :
      (k c : Metric D) (before after : List (Metric D))
      → find_metric c before ≡ none
      → both_sides k
          (before ++ record c { value = sum_for add c c.value after } ∷ [])
          (others_than c after)
        ≡ both_sides k before (c ∷ after)
  unfolding find_metric total_of
  both_sides-step k c before after absent =
      let c' : Metric D = record c { value = sum_for add c c.value after } in
      ground (
        arith,
        find_metric-append k before (c' ∷ []),
        sum_for-key add k c c.value after,
        total_of-others_than add k c after,
      )

  -- The aggregated metric joins the ones before.
  IsApart-joined :
      (c : Metric D) (w : D) (before ns : List (Metric D))
      → IsApart before ns
      → IsApart (before ++ record c { value = w } ∷ []) (others_than c ns)
  unfolding others_than find_metric
  IsApart-joined c w before [] apart = tt
  IsApart-joined c w before (n ∷ ns) (absent, apart) = elim (Bool-cases (same_metric c n)) [
    | inl same ↦ rw same (IsApart-joined c w before ns apart)
    | inr other ↦ rw other (
      ground
          (arith, find_metric-append n before (record c { value = w } ∷ []), same_metric_symm c n),
      IsApart-joined c w before ns apart,
    )
  ]

  IsDistinct-joined :
      (c : Metric D) (w : D) (before : List (Metric D))
      → find_metric c before ≡ none
      → IsDistinct before
      → IsDistinct (before ++ record c { value = w } ∷ [])
  unfolding find_metric
  IsDistinct-joined c w [] absent distinct = (refl, tt)
  IsDistinct-joined c w (b ∷ bs) absent (first, distinct) = (
    ground (arith, find_metric-append b bs (record c { value = w } ∷ []), same_metric_symm c b),
    IsDistinct-joined c w bs (ground arith) distinct,
  )

  length-others_than : (c : Metric D) (ns : List (Metric D)) → length (others_than c ns) ≤ length ns
  unfolding others_than
  length-others_than c [] = omega arith
  length-others_than c (n ∷ ns) = ground (arith, length-others_than c ns)

  -- Aggregated metrics: one for each key, with the total for it.
  abbrev pub IsAggregated : Metric D → Option (List (Metric D)) → Option (Metric D) → Type 0
  IsAggregated k r total =
      (metrics : List (Metric D)) × (r ≡ some metrics)
      × (find_metric k metrics ≡ total)
      × IsDistinct metrics

  aggregate_from-step :
      (fuel : ℕ) (c : Metric D) (before after : List (Metric D))
      → find_metric c before ≡ none
      → aggregate_from add (suc fuel) before (c ∷ after)
        ≡ aggregate_from add fuel
            (before ++ record c { value = sum_for add c c.value after } ∷ [])
            (others_than c after)
  unfolding aggregate_from
  aggregate_from-step fuel c before after absent =
      ground (arith, absorb-absent c before absent, absorb-sum_for add c after)

  aggregate_from-IsAggregated :
      (fuel : ℕ) (k : Metric D) (before after : List (Metric D))
      → length after ≤ fuel
      → IsDistinct before
      → IsApart before after
      → IsAggregated k (aggregate_from add fuel before after) (both_sides k before after)
  unfolding aggregate_from total_of
  aggregate_from-IsAggregated fuel k before [] enough distinct apart =
      (before, refl, ground arith, distinct)
  aggregate_from-IsAggregated zero k before (c ∷ after) enough distinct apart = absurd (omega arith)
  aggregate_from-IsAggregated (suc fuel) k before (c ∷ after) enough distinct (absent, apart) =
      let (metrics, e, found, distinct') =
        aggregate_from-IsAggregated fuel k
          (before ++ record c { value = sum_for add c c.value after } ∷ []) (others_than c after)
          (omega (arith, length-others_than c after))
          (IsDistinct-joined c (sum_for add c c.value after) before absent distinct)
          (IsApart-joined c (sum_for add c c.value after) before after apart) in
      rw (aggregate_from-step fuel c before after absent)
        (metrics, e, found ∙ both_sides-step k c before after absent, distinct')

  IsApart-nil : (ns : List (Metric D)) → IsApart [] ns
  unfolding find_metric
  IsApart-nil [] = tt
  IsApart-nil (n ∷ ns) = (refl, IsApart-nil ns)

  pub profile_aggregate_metrics-IsAggregated :
      (k : Metric D) (metrics : List (Metric D))
      → IsAggregated k (profile_aggregate_metrics add metrics) (total_of add k metrics)
  unfolding profile_aggregate_metrics find_metric
  profile_aggregate_metrics-IsAggregated k metrics =
      aggregate_from-IsAggregated (length metrics) k [] metrics (omega arith) tt
        (IsApart-nil metrics)

  -- Each hotspot has the totals of what it was, one metric for each key.
  abbrev pub AreAggregated : Metric D → (hs hs' : List (List (Metric D))) → Type 0
  AreAggregated k [] [] = Unit
  AreAggregated k (h ∷ hs) (h' ∷ hs') =
      (find_metric k h' ≡ total_of add k h) × IsDistinct h' × AreAggregated k hs hs'
  AreAggregated k _ _ = ⊥

  -- So has each profile, and only its hotspots changed.
  abbrev pub AreFlattened : Metric D → (ps ps' : List (HpctoolkitProfile D)) → Type 0
  AreFlattened k [] [] = Unit
  AreFlattened k (p ∷ ps) (p' ∷ ps') =
      AreAggregated k p.hotspots p'.hotspots
      × (p' ≡ record p { hotspots = p'.hotspots })
      × AreFlattened k ps ps'
  AreFlattened k _ _ = ⊥

  profile_flatten_hotspots-AreAggregated :
      (k : Metric D) (hs : List (List (Metric D)))
      → (hs' : List (List (Metric D))) × (profile_flatten_hotspots add hs ≡ some hs')
        × AreAggregated k hs hs'
  unfolding profile_flatten_hotspots
  profile_flatten_hotspots-AreAggregated k [] = ([], refl, tt)
  profile_flatten_hotspots-AreAggregated k (h ∷ hs) =
      let (h', e, total, distinct) = profile_aggregate_metrics-IsAggregated k h in
      let (hs', es, all) = profile_flatten_hotspots-AreAggregated k hs in
      (h' ∷ hs', ground arith, (total, distinct, all))

  -- For every key of name, experiment, thread and rank: flattening the profiles returns, and in
  -- each of their hotspots no two metrics have one key then, and the metric with this key is the
  -- first one that the hotspot had, with the values of the later ones added to its value in
  -- their order; nothing else of a profile changes.
  pub profile_flatten_all-AreFlattened :
      (k : Metric D) (ps : List (HpctoolkitProfile D))
      → (ps' : List (HpctoolkitProfile D)) × (profile_flatten_all add ps ≡ some ps')
        × AreFlattened k ps ps'
  unfolding profile_flatten_all
  profile_flatten_all-AreFlattened k [] = ([], refl, tt)
  profile_flatten_all-AreFlattened k (p ∷ ps) =
      let (hs, e, some_all) = profile_flatten_hotspots-AreAggregated k p.hotspots in
      let (ps', es, all) = profile_flatten_all-AreFlattened k ps in
      (record p { hotspots = hs } ∷ ps', ground arith, (some_all, refl, all))
