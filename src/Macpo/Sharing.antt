-- ===== src/Macpo/Sharing.antt =====
-- The hits and misses that tools/macpo/analyze/latency_analysis.cpp adds up for each stream.
use perfexpert.Prelude.{
  ℕ, zero, suc, ◌+◌, ◌%◌, ◌^◌, ◌<◌, ◌≤◌, ◌≡◌, ◌∙◌, refl, ap, ltb, ◌&&◌, if_both, option_both, true,
  Option, some, List, [], ◌∷◌, ◌++◌, arith,
}
use perfexpert.Macpo.Words.{addr_to_cache_line}
use perfexpert.Macpo.Record.{MemInfo}
use perfexpert.Macpo.Latency.{
  Gsl, Local, fresh, put_at, Totals, for_each, create_histogram_if_null, calculate_distance,
  latency_access, latency_list, add_histogram, add_counts, latency_analysis,
}
use perfexpert.Macpo.Owners.{
  is_hit, is_miss, tally, tally_all, conflict_loop-SameCounts, IsLocal, plus, count_owner-IsLocal,
  skipped-IsLocal, kept-IsLocal,
}

-- With memory for every histogram, the loop over the accesses of a list.
module _ (gsl : Gsl) (dist_infinity cores streams : ℕ) (few : cores ≤ 2 ^ 15)
    (memory : (o : Option gsl.Histogram)
      → (h : gsl.Histogram) × (create_histogram_if_null gsl dist_infinity o ≡ some h)) where
  latency_access-IsLocal :
      (before : List MemInfo) (info : MemInfo) (hit miss : ℕ → ℕ) (s : Local gsl.Histogram)
      → IsLocal cores streams before hit miss s
      → (s' : Local gsl.Histogram) × (latency_access gsl dist_infinity cores streams info s
          ≡ some s')
        × IsLocal cores streams
            (before ++ info ∷ [])
            (plus cores streams is_hit before info hit)
            (plus cores streams is_miss before info miss)
            s'
  unfolding latency_access calculate_distance
  latency_access-IsLocal before info hit miss s h =
      let P : Option (Local gsl.Histogram) → Type 0 = λ r.
        (s' : Local gsl.Histogram) × (r ≡ some s')
        × IsLocal cores streams (before ++ info ∷ []) (plus cores streams is_hit before info hit)
            (plus cores streams is_miss before info miss) s' in
      let old = s.histogram_matrix info.core_id info.var_idx in
      if_both P (ltb info.core_id cores && ltb info.var_idx streams)
        (λ e.
          option_both P (create_histogram_if_null gsl dist_infinity old)
            (λ failed. let made = (memory old).1 in ground (arith, failed, made))
            (λ hist made.
              let later =
                conflict_loop-SameCounts gsl dist_infinity info.core_id info.var_idx
                  (addr_to_cache_line info.address) info.read_write 0 cores
                  (record s {
                    histogram_matrix =
                        put_at s.histogram_matrix info.core_id info.var_idx (some hist);
                  }) in
              (
                _,
                refl,
                count_owner-IsLocal cores streams before info hit miss _ few e (
                    kept-IsLocal cores streams before info hit miss s _
                      (record { owners = later.owners; hits = later.hits; misses = later.misses })
                      h),
              )))
        (λ e. (s, refl, skipped-IsLocal cores streams before info hit miss s e h))

  latency_list-IsLocal :
      (before list : List MemInfo) (hit miss : ℕ → ℕ) (s : Local gsl.Histogram)
      → IsLocal cores streams before hit miss s
      → (s' : Local gsl.Histogram) × (latency_list gsl dist_infinity cores streams list s ≡ some s')
        × ((v : ℕ)
            → s'.local_hit_list v ≡ (hit v + tally cores streams is_hit v before list) % 2 ^ 32)
        × ((v : ℕ)
            → s'.local_miss_list v ≡ (miss v + tally cores streams is_miss v before list) % 2 ^ 32)
  unfolding latency_list
  latency_list-IsLocal before [] hit miss s h = (
    s,
    refl,
    (λ v. let same = h.hit_count v in omega (arith, same)),
    λ v. let same = h.miss_count v in omega (arith, same),
  )
  latency_list-IsLocal before (info ∷ rest) hit miss s h =
      let (s1, first, h1) = latency_access-IsLocal before info hit miss s h in
      let (s2, later, hits, misses) =
        latency_list-IsLocal (before ++ info ∷ []) rest (plus cores streams is_hit before info hit)
          (plus cores streams is_miss before info miss) s1 h1 in
      (s2, rw (latency_list, first) later, (λ v. hits v ∙ omega arith), λ v. misses v ∙ omega arith)

-- What adding histograms leaves alone.
abbrev SameTotals : {H : Type 0} → (t t' : Totals H) → Type 0
SameTotals t t' = (t'.hit_list ≡ t.hit_list) × (t'.miss_list ≡ t.miss_list)

for_each-SameTotals :
    {H : Type 0} (n i : ℕ) (f : ℕ → Totals H → Totals H) (t : Totals H)
    → ((j : ℕ) (u : Totals H) → SameTotals u (f j u))
    → SameTotals t (for_each i n f t)
unfolding for_each
for_each-SameTotals zero i f t keeps = (refl, refl)
for_each-SameTotals (suc n) i f t keeps =
    let (a, b) = for_each-SameTotals n (suc i) f (f i t) keeps in
    let (c, d) = keeps i t in (a ∙ c, b ∙ d)

module _ (gsl : Gsl) (dist_infinity cores streams : ℕ) where
  add_histogram-SameTotals :
      (s : Local gsl.Histogram) (j k : ℕ) (t : Totals gsl.Histogram)
      → SameTotals t (add_histogram gsl dist_infinity s j k t)
  unfolding add_histogram
  add_histogram-SameTotals s j k t =
      option_both (SameTotals t) (s.histogram_matrix j k) (λ e. (refl, refl))
        (λ h2 e.
          option_both (SameTotals t) (create_histogram_if_null gsl dist_infinity (t.rd_list k))
            (λ e'. (refl, refl)) (λ h e'. (refl, refl)))

  -- What the analysis adds up, as `int`s.
  latency_analysis-modulo :
      cores ≤ 2 ^ 15
      → ((o : Option gsl.Histogram)
          → (h : gsl.Histogram) × (create_histogram_if_null gsl dist_infinity o ≡ some h))
      → (bucket : List (List MemInfo)) (t : Totals gsl.Histogram) (v : ℕ) → v < streams
      → t.hit_list v < 2 ^ 32
      → t.miss_list v < 2 ^ 32
      → ((latency_analysis gsl dist_infinity cores streams bucket t).hit_list v
          ≡ (t.hit_list v + tally_all cores streams is_hit v bucket) % 2 ^ 32)
        × ((latency_analysis gsl dist_infinity cores streams bucket t).miss_list v
            ≡ (t.miss_list v + tally_all cores streams is_miss v bucket) % 2 ^ 32)
  unfolding latency_analysis add_counts
  latency_analysis-modulo few memory [] t v inside hit_room miss_room = (omega arith, omega arith)
  latency_analysis-modulo few memory (list ∷ rest) t v inside hit_room miss_room =
      let (s, ran, hits, misses) =
        latency_list-IsLocal gsl dist_infinity cores streams few memory [] list (λ v. 0) (λ v. 0)
          fresh (record { owned = λ l. refl; hit_count = λ v. refl; miss_count = λ v. refl }) in
      let summed =
        for_each 0 cores (λ j. for_each 0 streams (add_histogram gsl dist_infinity s j)) t in
      let (same_hits, same_misses) =
        for_each-SameTotals cores 0 (λ j. for_each 0 streams (add_histogram gsl dist_infinity s j))
          t
          (λ j u.
            for_each-SameTotals streams 0 (add_histogram gsl dist_infinity s j) u
              (add_histogram-SameTotals s j)) in
      let below : ltb v streams ≡ true = ground (arith, inside) in
      let added_hits : (add_counts gsl dist_infinity streams s summed).hit_list v
          ≡ (summed.hit_list v + s.local_hit_list v) % 2 ^ 32 =
        rw below refl in
      let added_misses : (add_counts gsl dist_infinity streams s summed).miss_list v
          ≡ (summed.miss_list v + s.local_miss_list v) % 2 ^ 32 =
        rw below refl in
      let (later_hits, later_misses) =
        latency_analysis-modulo few memory rest (add_counts gsl dist_infinity streams s summed) v
          inside (omega (arith, added_hits)) (omega (arith, added_misses)) in
      let h = hits v in
      let m = misses v in
      let k = ap (λ f. f v) same_hits in
      let n = ap (λ f. f v) same_misses in
      (
        rw (latency_analysis, ran) (later_hits ∙ omega (arith, added_hits, h, k)),
        rw (latency_analysis, ran) (later_misses ∙ omega (arith, added_misses, m, n)),
      )

  -- With at most 2^15 cores, and if memory for a histogram is always found, latency_analysis
  -- adds to the hits and misses of a stream, for each list of the bucket, its accesses to lines
  -- that were written before in that list, by cores and to streams that exist: a miss is a write
  -- by a core other than the one that wrote the line first, whoever wrote it last, and all
  -- others are hits; as long as the hits and the misses so counted, with those before, each stay
  -- below 2^31.
  pub latency_analysis-tally_all :
      cores ≤ 2 ^ 15
      → ((o : Option gsl.Histogram)
          → (h : gsl.Histogram) × (create_histogram_if_null gsl dist_infinity o ≡ some h))
      → (bucket : List (List MemInfo)) (t : Totals gsl.Histogram) (v : ℕ) → v < streams
      → t.hit_list v + tally_all cores streams is_hit v bucket < 2 ^ 31
      → t.miss_list v + tally_all cores streams is_miss v bucket < 2 ^ 31
      → ((latency_analysis gsl dist_infinity cores streams bucket t).hit_list v
          ≡ t.hit_list v + tally_all cores streams is_hit v bucket)
        × ((latency_analysis gsl dist_infinity cores streams bucket t).miss_list v
            ≡ t.miss_list v + tally_all cores streams is_miss v bucket)
  latency_analysis-tally_all few memory bucket t v inside hit_room miss_room =
      let (hits, misses) =
        latency_analysis-modulo few memory bucket t v inside (omega (arith, hit_room))
          (omega (arith, miss_room)) in
      (hits ∙ omega (arith, hit_room), misses ∙ omega (arith, miss_room))
