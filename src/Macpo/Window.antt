-- ===== src/Macpo/Window.antt =====
-- The distances of `reuse_distance_manager` (tools/macpo/common/reuse_distance.h): exact up to 512.
use perfexpert.Prelude.{
  ℕ, ◌+◌, ◌^◌, ◌<◌, ◌≤◌, ◌==◌, ◌≡◌, ◌≢◌, ◌∙◌, refl, sym, ap, inl, inr, Bool-cases, option_both,
  if_both, subst, false, Option, none, some, List, [], ◌∷◌, length, arith,
}
use perfexpert.CacheSim.Types.{inc64}
use perfexpert.CacheSim.Reuse.Recency.{touch, recency, index}
use perfexpert.Macpo.Words.{store, or_zero, indexed}
use perfexpert.Macpo.ReuseDistance.{
  ReuseDistanceManager, new, adjust_other_counters, get_distance, mark, insert,
}
use perfexpert.Macpo.Counters.{
  IsCounter, IsMarked, IsDistance, moved, adjusted, answer-IsDistance, index-touch_ne,
  index-injective, adjusted-IsCounter,
}

-- Each line has its counter and its mark.
abbrev pub IsTracked : ReuseDistanceManager → List ℕ → Type 0
IsTracked m lines =
    (m.access_count < 2 ^ 31)
    × ((x : ℕ)
        → IsCounter m.access_count (m.cache_line_count_map x) (index x lines)
          × IsMarked (m.already_accessed x) (index x lines))

-- Asking for a distance changes no counter, and no mark of another line.
abbrev SameCounters : ReuseDistanceManager → ℕ → ℕ × ReuseDistanceManager → Type 0
SameCounters m x r =
    (r.1.cache_line_count_map ≡ m.cache_line_count_map)
    × (r.1.access_count ≡ m.access_count)
    × ((y : ℕ) → y ≢ x → r.1.already_accessed y ≡ m.already_accessed y)

get_distance-SameCounters : (m : ReuseDistanceManager) (x : ℕ) → SameCounters m x (get_distance m x)
unfolding get_distance indexed store
get_distance-SameCounters m x =
    option_both (SameCounters m x) (m.cache_line_count_map x)
      (λ e.
        if_both (SameCounters m x) (or_zero (m.already_accessed x) == 1)
          (λ h. (refl, refl, λ y other. ground arith)) (λ h. (refl, refl, λ y other. ground arith)))
      (λ c e. (refl, refl, λ y other. refl))

pub get_distance-IsDistance :
    (m : ReuseDistanceManager) (lines : List ℕ) (x : ℕ)
    → IsTracked m lines
    → IsDistance (index x lines) (get_distance m x).0
unfolding get_distance
get_distance-IsDistance m lines x (small, tracked) =
    subst (IsDistance (index x lines)) (ground arith) (
      answer-IsDistance m.access_count (m.cache_line_count_map x) (m.already_accessed x)
        (index x lines) small (tracked x).0 (tracked x).1)

adjust_other_counters-count :
    (m : ReuseDistanceManager) (x y : ℕ)
    → y ≢ x
    → (adjust_other_counters m x).cache_line_count_map y
      ≡ adjusted m.access_count (m.cache_line_count_map x) (m.cache_line_count_map y)
unfolding adjust_other_counters indexed store adjusted
adjust_other_counters-count m x y other = ground arith

abbrev counted_up : ReuseDistanceManager → ℕ → ReuseDistanceManager
counted_up m x =
    let a = adjust_other_counters m x in record a { access_count = inc64 a.access_count }

counted_up-count :
    (m : ReuseDistanceManager) (x : ℕ) → (counted_up m x).access_count ≡ inc64 m.access_count
unfolding adjust_other_counters
counted_up-count m x = refl

counted_up-already :
    (m : ReuseDistanceManager) (x : ℕ) → (counted_up m x).already_accessed ≡ m.already_accessed
unfolding adjust_other_counters
counted_up-already m x = refl

-- The counter of another line that the loop leaves, and the mark of it.
counted_up-IsCounter :
    (m : ReuseDistanceManager) (r : ℕ × ReuseDistanceManager) (x y : ℕ) (position : Option ℕ)
    → y ≢ x
    → m.access_count + 1 < 2 ^ 31
    → SameCounters m x r
    → IsCounter
        (m.access_count + 1)
        (adjusted m.access_count (m.cache_line_count_map x) (m.cache_line_count_map y))
        position
    → IsCounter (counted_up r.1 x).access_count ((counted_up r.1 x).cache_line_count_map y) position
counted_up-IsCounter m r x y position other room (same_map, same_count, same_marks) counter =
    let next : inc64 m.access_count ≡ m.access_count + 1 = omega arith in
    subst (λ a. IsCounter a ((counted_up r.1 x).cache_line_count_map y) position)
      (sym (counted_up-count r.1 x ∙ ap inc64 same_count ∙ next))
      (subst (λ o. IsCounter (m.access_count + 1) o position)
        (sym (adjust_other_counters-count r.1 x y other)) (rw (same_map, same_count) counter))

-- The two kinds of access: to the line used last, and to another one.
insert_last :
    (m : ReuseDistanceManager) (x : ℕ)
    → (get_distance m x).0 ≡ 0
    → insert m x ≡ mark (get_distance m x).1 x
unfolding insert
insert_last m x last = rw last

insert_other :
    (m : ReuseDistanceManager) (x : ℕ)
    → (get_distance m x).0 ≢ 0
    → insert m x ≡ mark (counted_up (get_distance m x).1 x) x
unfolding insert
insert_other m x other = let test : ((get_distance m x).0 == 0) ≡ false = ground arith in rw test

index-touch_self : (y x : ℕ) (lines : List ℕ) → y ≡ x → index y (touch x lines) ≡ some 0
unfolding touch index
index-touch_self y x lines same = ground arith

-- What an access writes at the end, where the other lines have their counters.
mark-IsTracked :
    (m : ReuseDistanceManager) (lines : List ℕ) (x : ℕ)
    → m.access_count < 2 ^ 31
    → ((y : ℕ)
        → y ≢ x
        → IsCounter m.access_count (m.cache_line_count_map y) (index y (touch x lines))
          × IsMarked (m.already_accessed y) (index y (touch x lines)))
    → IsTracked (mark m x) (touch x lines)
unfolding mark store
mark-IsTracked m lines x small others = (
  small,
  λ y. elim (Bool-cases (y == x)) [
    | inl e ↦
        let first : index y (touch x lines) ≡ some 0 = index-touch_self y x lines (ground arith) in
        rw e (rw first (inl (omega arith, omega arith), refl))
    | inr e ↦ rw e (others y (ground arith))
  ],
)

zero-IsDistance : (position : Option ℕ) → IsDistance position 0 → position ≡ some 0
zero-IsDistance none d = absurd (omega arith)
zero-IsDistance (some d) (inl (near, exact)) = ap some (sym exact)
zero-IsDistance (some d) (inr (far, more, small)) = absurd (omega arith)

moved_zero : (o : Option ℕ) → moved (some 0) o ≡ o
moved_zero none = refl
moved_zero (some d) = ground arith

IsMarked-moved : (seen own o : Option ℕ) → IsMarked seen o → IsMarked seen (moved own o)
IsMarked-moved seen own none h = h
IsMarked-moved seen none (some d) h = h
IsMarked-moved seen (some e) (some d) h = ground arith

-- An access keeps the counters.
insert-IsTracked :
    (m : ReuseDistanceManager) (lines : List ℕ) (x : ℕ)
    → m.access_count + 1 < 2 ^ 31
    → IsTracked m lines
    → IsTracked (insert m x) (touch x lines)
insert-IsTracked m lines x room tracked =
    let (same_map, same_count, same_marks) = get_distance-SameCounters m x in
    let distance = get_distance-IsDistance m lines x tracked in
    elim (Bool-cases ((get_distance m x).0 == 0)) [
      | inl e ↦
          let zero : (get_distance m x).0 ≡ 0 = ground arith in
          let first =
            zero-IsDistance (index x lines) (subst (IsDistance (index x lines)) zero distance) in
          subst (λ z. IsTracked z (touch x lines)) (sym (insert_last m x zero))
            (mark-IsTracked (get_distance m x).1 lines x (rw same_count tracked.0) (λ y other.
              rw
                (
                  same_count,
                  same_map,
                  same_marks y other,
                  index-touch_ne y x lines other,
                  first,
                  moved_zero (index y lines),
                )
                (tracked.1 y)))
      | inr e ↦
          subst (λ z. IsTracked z (touch x lines)) (sym (insert_other m x (ground arith)))
            (mark-IsTracked (counted_up (get_distance m x).1 x) lines x
              (rw (counted_up-count (get_distance m x).1 x) (rw same_count (omega arith)))
              (λ y other. rw (index-touch_ne y x lines other) (
                counted_up-IsCounter m (get_distance m x) x y
                    (moved (index x lines) (index y lines)) other room
                    (get_distance-SameCounters m x)
                    (adjusted-IsCounter m.access_count (m.cache_line_count_map x)
                      (m.cache_line_count_map y) (index x lines) (index y lines) room
                      (tracked.1 x).0 (tracked.1 y).0
                      (λ d hx hy. index-injective y x lines d other hy hx)),
                subst (λ o. IsMarked o (moved (index x lines) (index y lines)))
                    (sym (
                      ap (λ f. f y) (counted_up-already (get_distance m x).1 x)
                      ∙ same_marks y other))
                    (IsMarked-moved (m.already_accessed y) (index x lines) (index y lines)
                      (tracked.1 y).1),
              )))
    ]

abbrev pub insert_all : ReuseDistanceManager → (lines : List ℕ) → ReuseDistanceManager
insert_all m [] = m
insert_all m (x ∷ trace) = insert_all (insert m x) trace

mark-count : (m : ReuseDistanceManager) (x : ℕ) → (mark m x).access_count ≡ m.access_count
unfolding mark
mark-count m x = refl

insert-count :
    (m : ReuseDistanceManager) (x : ℕ)
    → m.access_count + 1 < 2 ^ 31
    → (insert m x).access_count ≤ m.access_count + 1
insert-count m x room =
    let same = (get_distance-SameCounters m x).1 in
    elim (Bool-cases ((get_distance m x).0 == 0)) [
      | inl e ↦
          rw (insert_last m x (ground arith))
            (rw (mark-count (get_distance m x).1 x) (omega (arith, same)))
      | inr e ↦ rw (insert_other m x (ground arith)) (
          rw (mark-count (counted_up (get_distance m x).1 x) x)
            (rw (counted_up-count (get_distance m x).1 x) (rw same (omega arith))))
    ]

-- A manager that has seen at most `n` accesses.
abbrev pub IsManager : (n : ℕ) → ReuseDistanceManager → List ℕ → Type 0
IsManager n m lines = (m.access_count ≤ n) × IsTracked m lines

pub new-IsManager : IsManager 0 new []
unfolding new index
new-IsManager = (omega arith, (omega arith, λ x. (tt, ground arith)))

pub insert-IsManager :
    (n : ℕ) (m : ReuseDistanceManager) (lines : List ℕ) (x : ℕ)
    → n + 1 < 2 ^ 31
    → IsManager n m lines
    → IsManager (n + 1) (insert m x) (touch x lines)
insert-IsManager n m lines x room (few, tracked) =
    let count = insert-count m x (omega arith) in
    (omega arith, insert-IsTracked m lines x (omega arith) tracked)

pub insert_all-IsManager :
    (n : ℕ) (m : ReuseDistanceManager) (lines trace : List ℕ)
    → n + length trace < 2 ^ 31
    → IsManager n m lines
    → IsManager (n + length trace) (insert_all m trace) (recency lines trace)
unfolding recency
insert_all-IsManager n m lines [] room h = (omega (arith, h.0), h.1)
insert_all-IsManager n m lines (x ∷ trace) room h =
    let rest =
      insert_all-IsManager (n + 1) (insert m x) (touch x lines) trace (omega arith)
        (insert-IsManager n m lines x (omega arith) h) in
    (omega (arith, rest.0), rest.1)

-- After fewer than 2^31 accesses to a new reuse_distance_manager, get_distance of a line is the
-- number of other lines accessed since it was, if that is at most 512; it is at least 513, and
-- below 2^31, if that is more than 512; and it is -1 as a size_t for a line that was never
-- accessed.
pub insert_all-IsDistance :
    (trace : List ℕ) (line : ℕ)
    → length trace < 2 ^ 31
    → IsDistance (index line (recency [] trace)) (get_distance (insert_all new trace) line).0
insert_all-IsDistance trace line room =
    get_distance-IsDistance (insert_all new trace) (recency [] trace) line
      (insert_all-IsManager 0 new [] trace (omega arith) new-IsManager).1

-- Asking for a distance changes no manager in a way that counts.
IsMarked-same :
    (o o' position : Option ℕ) → or_zero o ≡ or_zero o' → IsMarked o' position → IsMarked o position
IsMarked-same o o' none same h = λ e. h (sym same ∙ e)
IsMarked-same o o' (some d) same h = same ∙ h

get_distance-marks :
    (m : ReuseDistanceManager) (x y : ℕ)
    → or_zero ((get_distance m x).1.already_accessed y) ≡ or_zero (m.already_accessed y)
unfolding get_distance indexed store
get_distance-marks m x y =
    option_both
      (λ (r : ℕ × ReuseDistanceManager).
        or_zero (r.1.already_accessed y) ≡ or_zero (m.already_accessed y))
      (m.cache_line_count_map x)
      (λ e.
        if_both
          (λ (r : ℕ × ReuseDistanceManager).
            or_zero (r.1.already_accessed y) ≡ or_zero (m.already_accessed y))
          (or_zero (m.already_accessed x) == 1) (λ h. ground arith) (λ h. ground arith))
      (λ c e. refl)

pub get_distance-IsManager :
    (n : ℕ) (m : ReuseDistanceManager) (lines : List ℕ) (x : ℕ)
    → IsManager n m lines
    → IsManager n (get_distance m x).1 lines
get_distance-IsManager n m lines x (few, (small, tracked)) =
    let (same_map, same_count, same_marks) = get_distance-SameCounters m x in
    (
      rw same_count few,
      (
        rw same_count small,
        λ y. (
          rw (same_map, same_count) (tracked y).0,
          IsMarked-same ((get_distance m x).1.already_accessed y) (m.already_accessed y)
              (index y lines) (get_distance-marks m x y) (tracked y).1,
        ),
      ),
    )
