-- ===== src/Macpo/Counters.antt =====
-- The counters of `reuse_distance_manager` (tools/macpo/common/reuse_distance.h), one line at a time.
use perfexpert.Prelude.{
  ℕ, suc, ◌+◌, ◌-◌, ◌^◌, ◌<◌, ◌≤◌, ◌==◌, ◌≡◌, ◌≢◌, ◌⊎◌, refl, ap, inl, inr, Bool-cases,
  Option-cases, true, false, Option, none, some, List, [], ◌∷◌, if◌then◌else◌, ltb, leb, arith,
}
use perfexpert.CacheSim.Reuse.Ages.{remove}
use perfexpert.CacheSim.Reuse.Recency.{touch, index}
use perfexpert.Macpo.Words.{no_distance, widen, int_lt, int_inc, sub64, or_zero}
use perfexpert.Macpo.ReuseDistance.{adjust_counter}

-- The counter of a line, if it has one, for its position in the order of last use, if it was used:
-- exact up to 512, and else small enough, or gone.
abbrev pub IsCounter : (access_count : ℕ) → (count position : Option ℕ) → Type 0
IsCounter a none none = Unit
IsCounter a none (some d) = 513 ≤ d
IsCounter a (some c) none = ⊥
IsCounter a (some c) (some d) = ((d ≤ 512) × (a ≡ c + d)) ⊎ ((513 ≤ d) × (c + 513 ≤ a))

abbrev pub IsMarked : (seen position : Option ℕ) → Type 0
IsMarked o none = or_zero o ≢ 1
IsMarked o (some d) = or_zero o ≡ 1

-- What a distance says of a position.
abbrev pub IsDistance : (position : Option ℕ) → ℕ → Type 0
IsDistance none r = r ≡ no_distance
IsDistance (some d) r = ((d ≤ 512) × (r ≡ d)) ⊎ ((513 ≤ d) × (513 ≤ r) × (r < 2 ^ 31))

-- Words that are small enough.
sub64-widen : (a c : ℕ) → a < 2 ^ 31 → c ≤ a → sub64 a (widen c) ≡ a - c
sub64-widen a c small below = ground arith

int_lt-small : (c p : ℕ) → c < 2 ^ 31 → p < 2 ^ 31 → int_lt c p ≡ ltb c p
int_lt-small c p hc hp = ground arith

pub answer-IsDistance :
    (a : ℕ) (o seen position : Option ℕ)
    → a < 2 ^ 31
    → IsCounter a o position
    → IsMarked seen position
    → IsDistance position (elim o [
      | some c ↦ sub64 a (widen c)
      | none ↦ if or_zero seen == 1 then 513 else no_distance
    ])
answer-IsDistance a none seen none small counter marked = ground arith
answer-IsDistance a none seen (some d) small counter marked =
    inr (counter, ground arith, ground arith)
answer-IsDistance a (some c) seen none small counter marked = elim counter [ ]
answer-IsDistance a (some c) seen (some d) small (inl (near, exact)) marked =
    inl (near, ground (arith, sub64-widen a c))
answer-IsDistance a (some c) seen (some d) small (inr (far, below)) marked =
    inr (far, ground (arith, sub64-widen a c), ground (arith, sub64-widen a c))

-- Using a line moves the others that were used after it one place on.
abbrev pub moved : Option ℕ → Option ℕ → Option ℕ
moved own none = none
moved none (some d) = some (suc d)
moved (some e) (some d) = if ltb d e then some (suc d) else some d

moved-suc :
    (own o : Option ℕ)
    → moved
        (elim own [ none ↦ none | some i ↦ some (suc i) ])
        (elim o [ none ↦ none | some i ↦ some (suc i) ])
      ≡ elim (moved own o) [ none ↦ none | some i ↦ some (suc i) ]
moved-suc none none = refl
moved-suc (some e) none = refl
moved-suc none (some d) = refl
moved-suc (some e) (some d) = ground arith

index-remove_ne :
    (y x : ℕ) (lines : List ℕ)
    → y ≢ x
    → elim (index y (remove x lines)) [ none ↦ none | some i ↦ some (suc i) ]
      ≡ moved (index x lines) (index y lines)
unfolding index remove
index-remove_ne y x [] other = refl
index-remove_ne y x (z ∷ lines) other =
    ground (arith, index-remove_ne y x lines other, moved-suc (index x lines) (index y lines))

pub index-touch_ne :
    (y x : ℕ) (lines : List ℕ)
    → y ≢ x
    → index y (touch x lines) ≡ moved (index x lines) (index y lines)
unfolding touch index
index-touch_ne y x lines other = ground (arith, index-remove_ne y x lines other)

index-cases :
    (x : ℕ) (lines : List ℕ) → (index x lines ≡ none) ⊎ ((i : ℕ) × (index x lines ≡ some i))
index-cases x lines = Option-cases (index x lines)

-- Two lines have two positions.
pub index-injective :
    (y x : ℕ) (lines : List ℕ) (d : ℕ) → y ≢ x → index y lines ≡ some d → index x lines ≡ some d → ⊥
unfolding index
index-injective y x [] d other hy hx = ground arith
index-injective y x (z ∷ lines) d other hy hx = elim (index-cases y lines) [
  | inl e ↦ ground (arith, e)
  | inr (i, e) ↦ ground (arith, e, index-injective y x lines i other e)
]

ltb_zero : (c : ℕ) → ltb c 0 ≡ false
ltb_zero c = ground arith

-- What the loop over the counters makes of the counter of another line.
unfoldable pub adjusted : (a : ℕ) → (own count : Option ℕ) → Option ℕ
adjusted a own none = none
adjusted a own (some c) = adjust_counter a (or_zero own) c

adjust_counter-small :
    (a p c : ℕ)
    → a < 2 ^ 31
    → c ≤ a
    → p ≤ a
    → adjust_counter a p c
      ≡ (if ltb c p then (if leb 512 (a - (c + 1)) then none else some (c + 1)) else some c)
unfolding adjust_counter
adjust_counter-small a p c small hc hp =
    rw (int_lt-small c p (omega arith) (omega arith)) (elim (Bool-cases (ltb c p)) [
      | inl e ↦
          let next : int_inc c ≡ c + 1 = ground arith in
          rw e (rw next (rw (sub64-widen a (c + 1) small (ground arith)) refl))
      | inr e ↦ rw e refl
    ])

counter_below : (a c d : ℕ) → IsCounter a (some c) (some d) → c ≤ a
counter_below a c d (inl (near, exact)) = omega arith
counter_below a c d (inr (far, below)) = omega arith

-- A line moves on, or it stays where it is.
IsCounter-on :
    (a c d : ℕ) → IsCounter a (some c) (some d) → IsCounter (a + 1) (some c) (some (suc d))
IsCounter-on a c d (inl (near, exact)) = elim (Bool-cases (leb d 511)) [
  | inl e ↦ inl (ground arith, omega arith)
  | inr e ↦ inr (ground arith, ground arith)
]
IsCounter-on a c d (inr (far, below)) = inr (omega arith, omega arith)

IsCounter-stay :
    (a c d : ℕ)
    → IsCounter a (some c) (some d)
    → IsCounter (a + 1) (if leb 512 (a - (c + 1)) then none else some (c + 1)) (some d)
IsCounter-stay a c d (inl (near, exact)) =
    let kept : leb 512 (a - (c + 1)) ≡ false = ground arith in rw kept (inl (near, omega arith))
IsCounter-stay a c d (inr (far, below)) =
    let gone : leb 512 (a - (c + 1)) ≡ true = ground arith in rw gone far

-- The counter is below that of the line that is used exactly if the line was used before it, for near lines.
IsCounter-far :
    (a c d e : ℕ)
    → IsCounter a (some c) (some d)
    → 513 ≤ d
    → ltb d e ≡ false
    → IsCounter (a + 1) (some c) (some d)
IsCounter-far a c d e (inl (near, exact)) far behind = absurd (omega arith)
IsCounter-far a c d e (inr (near, below)) far behind = inr (far, omega arith)

-- The four cases of a line that was used before or after the one that is used now, and of a
-- counter that is below that one's or not.
after-below :
    (a c d p e : ℕ)
    → IsCounter a (some p) (some e)
    → IsCounter a (some c) (some d)
    → ltb d e ≡ true
    → ltb c p ≡ true
    → IsCounter (a + 1) (if leb 512 (a - (c + 1)) then none else some (c + 1)) (some (suc d))
after-below a c d p e (inl (near, exact)) (inl (near', exact')) before below = absurd (ground arith)
after-below a c d p e (inr (far, small)) (inl (near', exact')) before below = absurd (ground arith)
after-below a c d p e mine (inr (far', small')) before below =
    let gone : leb 512 (a - (c + 1)) ≡ true = ground arith in rw gone (omega arith)

before-above :
    (a c d p e : ℕ)
    → IsCounter a (some p) (some e)
    → IsCounter a (some c) (some d)
    → d ≢ e
    → ltb d e ≡ false
    → ltb c p ≡ false
    → IsCounter (a + 1) (some c) (some d)
before-above a c d p e (inl (near, exact)) (inl (near', exact')) other after above =
    absurd (let apart : e < d = ground arith in ground arith)
before-above a c d p e (inr (far, small)) (inl (near', exact')) other after above =
    absurd (ground arith)
before-above a c d p e mine (inr (far', small')) other after above = inr (far', omega arith)

used-IsCounter :
    (a c d p e : ℕ)
    → IsCounter a (some p) (some e)
    → IsCounter a (some c) (some d)
    → d ≢ e
    → IsCounter
        (a + 1)
        (if ltb c p then (if leb 512 (a - (c + 1)) then none else some (c + 1)) else some c)
        (if ltb d e then some (suc d) else some d)
used-IsCounter a c d p e mine its other = elim (Bool-cases (ltb d e)) [
  | inl h ↦ elim (Bool-cases (ltb c p)) [
    | inl k ↦ rw (h, k) (after-below a c d p e mine its h k)
    | inr k ↦ rw (h, k) (IsCounter-on a c d its)
  ]
  | inr h ↦ elim (Bool-cases (ltb c p)) [
    | inl k ↦ rw (h, k) (IsCounter-stay a c d its)
    | inr k ↦ rw (h, k) (before-above a c d p e mine its other h k)
  ]
]

pub adjusted-IsCounter :
    (a : ℕ) (own count own_position position : Option ℕ)
    → a + 1 < 2 ^ 31
    → IsCounter a own own_position
    → IsCounter a count position
    → ((d : ℕ) → own_position ≡ some d → position ≡ some d → ⊥)
    → IsCounter (a + 1) (adjusted a own count) (moved own_position position)
unfolding adjusted adjust_counter
adjusted-IsCounter a own none own_position none small mine its apart = tt
adjusted-IsCounter a own none none (some d) small mine its apart = omega (arith, its)
adjusted-IsCounter a own none (some e) (some d) small mine its apart = ground (arith, its)
adjusted-IsCounter a own (some c) own_position none small mine its apart = elim its [ ]
adjusted-IsCounter a none (some c) none (some d) small mine its apart =
    rw (adjust_counter-small a 0 c (omega arith) (counter_below a c d its) (omega arith))
      (rw (ltb_zero c) (IsCounter-on a c d its))
adjusted-IsCounter a none (some c) (some e) (some d) small mine its apart =
    rw (adjust_counter-small a 0 c (omega arith) (counter_below a c d its) (omega arith)) (
      rw (ltb_zero c) (elim (Bool-cases (ltb d e)) [
        | inl h ↦ rw h (IsCounter-on a c d its)
        | inr h ↦ rw h (IsCounter-far a c d e its (ground arith) h)
      ]))
adjusted-IsCounter a (some p) (some c) none (some d) small mine its apart = elim mine [ ]
adjusted-IsCounter a (some p) (some c) (some e) (some d) small mine its apart =
    rw
      (adjust_counter-small a p c (omega arith) (counter_below a c d its)
        (counter_below a p e mine))
      (used-IsCounter a c d p e mine its (λ same. apart e refl (ap some same)))
