-- ===== src/CacheSim/Reuse/Ages.antt =====
-- The ages of the reuse list (lib/cache_sim/cache_sim_reuse.c): an item's age is its position.
use perfexpert.Prelude.{
  ℕ, suc, ◌+◌, ◌%◌, ◌^◌, ◌<◌, ◌≡◌, ◌≢◌, refl, some, false, List, [], ◌∷◌, ◌++◌, ◌==◌, if◌then◌else◌,
  length, arith, Bool-cases, map, inl, inr, ap, subst, take, take_all, ap₂, sym, length-map,
}
use perfexpert.CacheSim.Types.{ReuseItem, ok, uint64_max}
use perfexpert.CacheSim.Reuse.{
  Walk, hit, missed, passed, walk, without_last, fresh_item, limited_end,
}

-- The items from position `k` on, so long as they hold a line, are as old as their position; an
-- age is a `uint16_t`.
abbrev pub IsAged : ℕ → List ReuseItem → Type 0
IsAged k [] = Unit
IsAged k (item ∷ items) = (item.line_id ≢ uint64_max → item.age ≡ k % 2 ^ 16) × IsAged (suc k) items

abbrev pub ids : List ReuseItem → List ℕ
ids = map (λ item. item.line_id)

-- The list without the first occurrence of a line.
unfoldable pub remove : ℕ → List ℕ → List ℕ
remove id [] = []
remove id (x ∷ xs) = if id == x then xs else x ∷ remove id xs

-- What a walk makes of the lines.
abbrev WalkIds : ℕ → List ReuseItem → Walk → Type 0
WalkIds id items (hit before found after) =
    (ids (before ++ after) ≡ remove id (ids items))
    × (found.line_id ≡ id)
    × (suc (length (before ++ after)) ≡ length items)
WalkIds id items (missed before) =
    (ids before ≡ ids items) × (remove id (ids items) ≡ ids items) × (length before ≡ length items)

passed-WalkIds :
    (id : ℕ) (item : ReuseItem) (items : List ReuseItem) (w : Walk)
    → (id == item.line_id) ≡ false
    → WalkIds id items w
    → WalkIds id (item ∷ items) (passed item w)
unfolding remove
passed-WalkIds id item items (hit before found after) e h = ground (arith, h)
passed-WalkIds id item items (missed before) e h = ground (arith, h)

walk-WalkIds : (id : ℕ) (items : List ReuseItem) → WalkIds id items (walk items id)
unfolding walk remove
walk-WalkIds id [] = (refl, refl, refl)
walk-WalkIds id (item ∷ items) = elim (Bool-cases (id == item.line_id)) [
  | inl e ↦ rw e (rw e, ground arith, refl)
  | inr e ↦ rw e (passed-WalkIds id item items (walk items id) e (walk-WalkIds id items))
]

IsAged-eq : (j k : ℕ) (items : List ReuseItem) → j ≡ k → IsAged j items → IsAged k items
IsAged-eq j k items e h = subst (λ n. IsAged n items) e h

IsAged-append :
    (k : ℕ) (xs ys : List ReuseItem) → IsAged k xs → IsAged (k + length xs) ys → IsAged k (xs ++ ys)
IsAged-append k [] ys h g = IsAged-eq (k + 0) k ys (omega arith) g
IsAged-append k (x ∷ xs) ys h g =
    (h.0, IsAged-append (suc k) xs ys h.1 (IsAged-eq _ (suc k + length xs) ys (omega arith) g))

-- Behind a walk from position `k`: the items that were passed have moved down by one.
abbrev WalkAged : ℕ → Walk → Type 0
WalkAged k (hit before found after) = IsAged (suc k) before × IsAged (suc k + length before) after
WalkAged k (missed before) = IsAged (suc k) before

passed-WalkAged :
    (k : ℕ) (item : ReuseItem) (w : Walk)
    → (item.line_id ≢ uint64_max → item.age ≡ k % 2 ^ 16)
    → WalkAged (suc k) w
    → WalkAged k (passed item w)
passed-WalkAged k item (hit before found after) h g = (
  (λ n. omega (arith, h n), g.0),
  IsAged-eq (suc (suc k) + length before) _ after (omega arith) g.1,
)
passed-WalkAged k item (missed before) h g = (λ n. omega (arith, h n), g)

walk-WalkAged :
    (k : ℕ) (items : List ReuseItem) (id : ℕ) → IsAged k items → WalkAged k (walk items id)
unfolding walk
walk-WalkAged k [] id h = tt
walk-WalkAged k (item ∷ items) id h = elim (Bool-cases (id == item.line_id)) [
  | inl e ↦ rw e (tt, IsAged-eq (suc k) (suc k + 0) items (omega arith) h.1)
  | inr e ↦ rw e (passed-WalkAged k item (walk items id) h.0 (walk-WalkAged (suc k) items id h.1))
]

-- The list without its last item.
pub record IsFront (items front : List ReuseItem) : Type 0 where
  pub is_without : without_last items ≡ some front
  pub ids_taken : ids front ≡ take (length front) (ids items)
  pub one_less : suc (length front) ≡ length items
  pub ages : (k : ℕ) → IsAged k items → IsAged k front

without_last-IsFront :
    (item : ReuseItem) (items : List ReuseItem)
    → (front : List ReuseItem) × IsFront (item ∷ items) front
unfolding without_last
without_last-IsFront item [] =
    ([], record { is_without = refl; ids_taken = refl; one_less = refl; ages = λ k h. tt })
without_last-IsFront item (next ∷ items) =
    let (front, is) = without_last-IsFront next items in
    (
      item ∷ front,
      record {
        is_without = rw is.is_without;
        ids_taken = ap (◌∷◌ item.line_id) is.ids_taken;
        one_less = ap suc is.one_less;
        ages = λ k h. (h.0, is.ages (suc k) h.1);
      },
    )

-- What an access makes of the items: every item is as old as its position, the line comes first,
-- and the rest are the lines before, in order, as far as they fit.
pub record IsReused (items items' : List ReuseItem) (id : ℕ) : Type 0 where
  pub aged : IsAged 0 items'
  pub same_length : length items' ≡ length items
  pub order : ids items' ≡ take (length items) (id ∷ remove id (ids items))

limited_hit :
    (id : ℕ) (items before after : List ReuseItem) (found : ReuseItem)
    → walk items id ≡ hit before found after
    → IsAged 0 items
    → IsReused items (record found { age = 0 } ∷ (before ++ after)) id
limited_hit id items before after found e h =
    let aged = rw e at (walk-WalkAged 0 items id h) in
    let (rest, is_line, count) = rw e at (walk-WalkIds id items) in
    let n = length (before ++ after) in
    let all : take n (ids (before ++ after)) ≡ ids (before ++ after) =
      take_all n (ids (before ++ after))
        (omega (arith, length-map (λ (i : ReuseItem). i.line_id) (before ++ after))) in
    record {
      aged = (λ n. refl, IsAged-append 1 before after aged.0 aged.1);
      same_length = count;
      order = rw (← count, ← rest) (ap₂ ◌∷◌ is_line (sym all));
    }

limited_missed :
    (id : ℕ) (items passed_items front : List ReuseItem)
    → walk items id ≡ missed passed_items
    → IsFront passed_items front
    → IsAged 0 items
    → IsReused items (fresh_item id ∷ front) id
limited_missed id items passed_items front e is h =
    let aged = rw e at (walk-WalkAged 0 items id h) in
    let (same, absent, count) = rw e at (walk-WalkIds id items) in
    record {
      aged = (λ n. refl, is.ages 1 aged);
      same_length = omega (arith, is.one_less);
      order = rw (absent, ← count, ← is.one_less, ← same) (ap (◌∷◌ id) is.ids_taken);
    }

walk-IsReused :
    (id : ℕ) (item : ReuseItem) (items : List ReuseItem) (w : Walk)
    → walk (item ∷ items) id ≡ w
    → IsAged 0 (item ∷ items)
    → (items' : List ReuseItem) × (limited_end id w ≡ ok items') × IsReused (item ∷ items) items' id
unfolding limited_end
walk-IsReused id item items (hit before found after) e h =
    (_, refl, limited_hit id (item ∷ items) before after found e h)
walk-IsReused id item items (missed []) e h =
    absurd (omega (arith, (rw e at (walk-WalkIds id (item ∷ items))).2))
walk-IsReused id item items (missed (first ∷ others)) e h =
    let (front, is) = without_last-IsFront first others in
    (
      fresh_item id ∷ front,
      rw (is.is_without, limited_end),
      limited_missed id (item ∷ items) (first ∷ others) front e is h,
    )

-- An access to a list that is not empty always returns.
pub limited_end-IsReused :
    (id : ℕ) (items : List ReuseItem)
    → 0 < length items
    → IsAged 0 items
    → (items' : List ReuseItem) × (limited_end id (walk items id) ≡ ok items')
      × IsReused items items' id
limited_end-IsReused id [] pos h = absurd (omega arith)
limited_end-IsReused id (item ∷ items) pos h =
    walk-IsReused id item items (walk (item ∷ items) id) refl h
