-- ===== src/Macpo/Overlap.antt =====
-- Which overlaps of streams tools/macpo/libmrt/mrt.cpp finds.
use perfexpert.Prelude.{
  ℕ, ◌<◌, ◌≡◌, ◌∙◌, refl, sym, ap, ltb, leb, if◌then◌else◌, Bool, Bool-cases, true, false, not,
  ◌&&◌, ◌||◌, List, [], ◌∷◌, ◌++◌, take, some, inl, inr, arith,
}
use perfexpert.Macpo.Histogram.{Hist, HistId, Multigram, get, set, get_bin}
use perfexpert.Macpo.Cells.{same_id, value, value-get, value-set, map_into_histogram-same_id}
use perfexpert.Macpo.Runtime.{
  max_streams, Mrt, hist_of, admitted, nonempty, touches, touches_any, find_overlap,
  indigo__overlap_check_c,
}

-- Two streams share an address, their ends included.
abbrev pub overlaps : (ℕ × ℕ) → (ℕ × ℕ) → Bool
overlaps (ref_start, ref_end) (from, to) = leb ref_start to && leb from ref_end

-- A stream goes beyond an earlier one on both sides.
abbrev pub surrounds : (ℕ × ℕ) → (ℕ × ℕ) → Bool
surrounds (ref_start, ref_end) (from, to) = ltb from ref_start && ltb ref_end to

touches-overlaps :
    (ref stream : ℕ × ℕ)
    → ref.0 < ref.1
    → stream.0 < stream.1
    → touches ref stream ≡ (overlaps ref stream && not (surrounds ref stream))
unfolding touches
touches-overlaps (ref_start, ref_end) (from, to) h k = ground arith

-- Some stream of a list overlaps an earlier one, and does not surround it.
abbrev pub meets_any : (before : List (ℕ × ℕ)) → (ℕ × ℕ) → Bool
meets_any [] stream = false
meets_any (ref ∷ before) stream =
    (overlaps ref stream && not (surrounds ref stream)) || meets_any before stream

abbrev pub some_meet : (before streams : List (ℕ × ℕ)) → Bool
some_meet before [] = false
some_meet before (stream ∷ rest) = meets_any before stream || some_meet (before ++ stream ∷ []) rest

abbrev AreNonempty : List (ℕ × ℕ) → Type 0
AreNonempty [] = Unit
AreNonempty (s ∷ rest) = (s.0 < s.1) × AreNonempty rest

AreNonempty-append :
    (xs : List (ℕ × ℕ)) (s : ℕ × ℕ) → AreNonempty xs → s.0 < s.1 → AreNonempty (xs ++ s ∷ [])
AreNonempty-append [] s h k = (k, tt)
AreNonempty-append (x ∷ xs) s (here, h) k = (here, AreNonempty-append xs s h k)

nonempty-AreNonempty : (xs : List (ℕ × ℕ)) → AreNonempty (nonempty xs)
unfolding nonempty
nonempty-AreNonempty [] = tt
nonempty-AreNonempty ((from, to) ∷ rest) = elim (Bool-cases (ltb from to)) [
  | inl e ↦ rw e (ground arith, nonempty-AreNonempty rest)
  | inr e ↦ rw e (nonempty-AreNonempty rest)
]

touches_any-meets_any :
    (before : List (ℕ × ℕ)) (stream : ℕ × ℕ)
    → AreNonempty before
    → stream.0 < stream.1
    → touches_any before stream ≡ meets_any before stream
unfolding touches_any
touches_any-meets_any [] stream h k = refl
touches_any-meets_any (ref ∷ before) stream (here, h) k =
    rw (touches-overlaps ref stream here k) (rw (touches_any-meets_any before stream h k) refl)

find_overlap-some_meet :
    (before streams : List (ℕ × ℕ))
    → AreNonempty before
    → AreNonempty streams
    → find_overlap before streams ≡ some_meet before streams
unfolding find_overlap
find_overlap-some_meet before [] h k = refl
find_overlap-some_meet before (stream ∷ rest) h (here, k) =
    rw (touches_any-meets_any before stream h here) (
      rw
        (find_overlap-some_meet (before ++ stream ∷ []) rest
          (AreNonempty-append before stream h here) k)
        refl)

same_id-value :
    (h : Multigram Bool) (key id : HistId)
    → same_id id key ≡ true
    → value false h id 0 ≡ (get false h key 0).1
unfolding value get
same_id-value h key id same =
    ap (λ (b : Hist Bool). get_bin false b 0) (sym (map_into_histogram-same_id h key id same))

-- The last statements of the check, on what it found.
recorded :
    (h : Multigram Bool) (key id : HistId) (found : Bool)
    → value false
        (if (get false h key 0).1
          then (get false h key 0).0
          else if found
          then set false (get false h key 0).0 key 0 true
          else (get false h key 0).0)
        id
        0
      ≡ (value false h id 0 || (same_id id key && found))
recorded h key id found =
    let same = same_id-value h key id in
    elim (Bool-cases (get false h key 0).1) [
      | inl e ↦ rw e (value-get false h key id 0 0 ∙ ground (arith, same, e))
      | inr e ↦ rw e (elim (Bool-cases found) [
        | inl k ↦ rw k (
            value-set false (get false h key 0).0 key id 0 0 true
            ∙ ground (arith, value-get false h key id 0 0))
        | inr k ↦ rw k (value-get false h key id 0 0 ∙ ground arith)
      ])
    ]

-- A call of the overlap check that the limit on records admits leaves the overlap of the line
-- recorded if it was, and records it exactly if one of the first 64 streams that is not empty
-- has an address in common with an earlier one, its end included, and does not begin before it
-- and end behind it.
pub indigo__overlap_check_c-value :
    (line func : ℕ) (streams : List (ℕ × ℕ)) (s s' : Mrt) (id : HistId)
    → admitted func line s ≡ some s'
    → value false (indigo__overlap_check_c line func streams s).overlap_hist id 0 ≡ (
        value false s'.overlap_hist id 0
        || (same_id id (hist_of line func) && some_meet [] (nonempty (take max_streams streams))))
unfolding indigo__overlap_check_c
indigo__overlap_check_c-value line func streams s s' id entry =
    let found =
      find_overlap-some_meet [] (nonempty (take max_streams streams)) tt
        (nonempty-AreNonempty (take max_streams streams)) in
    rw (indigo__overlap_check_c, entry, ← found)
      (recorded s'.overlap_hist (hist_of line func) id
        (find_overlap [] (nonempty (take max_streams streams))))
