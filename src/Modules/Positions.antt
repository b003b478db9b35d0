-- ===== src/Modules/Positions.antt =====
-- Where the items of a list are after one was inserted at, or removed from, a position.
use mathlib.Core.List.{Perm}
use mathlib.Core.List.Perm
use perfexpert.Prelude.{
  ℕ, zero, suc, ◌+◌, ◌≤◌, ◌<◌, ◌≡◌, refl, some, List, [], ◌∷◌, length, get_elem?, arith,
}
use perfexpert.Modules.Steps.{insert_at, remove_at}

module _ {ℓ} {A : Type ℓ} where
  pub insert_at-perm : (i : ℕ) (x : A) (xs : List A) → Perm (x ∷ xs) (insert_at i x xs)
  unfolding insert_at
  insert_at-perm zero x xs = Perm.refl _
  insert_at-perm (suc i) x [] = Perm.refl _
  insert_at-perm (suc i) x (y ∷ ys) =
      Perm.trans (Perm.swap y x ys) (Perm.cons y (insert_at-perm i x ys))

  pub remove_at-perm :
      (i : ℕ) (xs : List A) {x : A} → get_elem? xs i ≡ some x → Perm xs (x ∷ remove_at i xs)
  unfolding remove_at
  remove_at-perm i [] h = cc
  remove_at-perm zero (y ∷ ys) {x} h = let same : y ≡ x = cc in rw same (Perm.refl _)
  remove_at-perm (suc i) (y ∷ ys) {x} h =
      Perm.trans (Perm.cons y (remove_at-perm i ys h)) (Perm.swap x y (remove_at i ys))

  pub length-insert_at : (i : ℕ) (x : A) (xs : List A) → length (insert_at i x xs) ≡ length xs + 1
  unfolding insert_at
  length-insert_at zero x xs = omega arith
  length-insert_at (suc i) x [] = omega arith
  length-insert_at (suc i) x (y ∷ ys) = omega (arith, length-insert_at i x ys)

  pub length-remove_at :
      (i : ℕ) (xs : List A) → i < length xs → length (remove_at i xs) + 1 ≡ length xs
  unfolding remove_at
  length-remove_at i [] h = elim h [ ]
  length-remove_at zero (x ∷ xs) h = omega arith
  length-remove_at (suc i) (x ∷ xs) h = omega (arith, length-remove_at i xs)

  pub get_elem?-insert_at_self :
      (i : ℕ) (x : A) (xs : List A) → i ≤ length xs → get_elem? (insert_at i x xs) i ≡ some x
  unfolding insert_at
  get_elem?-insert_at_self zero x xs h = refl
  get_elem?-insert_at_self (suc i) x [] h = absurd (omega arith)
  get_elem?-insert_at_self (suc i) x (y ∷ ys) h = get_elem?-insert_at_self i x ys (omega arith)

  pub get_elem?-insert_at_lt :
      (i j : ℕ) (x : A) (xs : List A)
      → i ≤ length xs
      → j < i
      → get_elem? (insert_at i x xs) j ≡ get_elem? xs j
  unfolding insert_at
  get_elem?-insert_at_lt zero j x xs h less = absurd (omega arith)
  get_elem?-insert_at_lt (suc i) j x [] h less = absurd (omega arith)
  get_elem?-insert_at_lt (suc i) zero x (y ∷ ys) h less = refl
  get_elem?-insert_at_lt (suc i) (suc j) x (y ∷ ys) h less =
      get_elem?-insert_at_lt i j x ys (omega arith) (omega arith)

  pub get_elem?-insert_at_ge :
      (i j : ℕ) (x : A) (xs : List A)
      → i ≤ j
      → j < length xs
      → get_elem? (insert_at i x xs) (suc j) ≡ get_elem? xs j
  unfolding insert_at
  get_elem?-insert_at_ge zero j x xs le inside = refl
  get_elem?-insert_at_ge (suc i) j x [] le inside = elim inside [ ]
  get_elem?-insert_at_ge (suc i) zero x (y ∷ ys) le inside = absurd (omega arith)
  get_elem?-insert_at_ge (suc i) (suc j) x (y ∷ ys) le inside =
      get_elem?-insert_at_ge i j x ys (omega arith) (omega arith)

  pub get_elem?-remove_at_lt :
      (i j : ℕ) (xs : List A) → j < i → get_elem? (remove_at i xs) j ≡ get_elem? xs j
  unfolding remove_at
  get_elem?-remove_at_lt i j [] less = refl
  get_elem?-remove_at_lt zero j (x ∷ xs) less = absurd (omega arith)
  get_elem?-remove_at_lt (suc i) zero (x ∷ xs) less = refl
  get_elem?-remove_at_lt (suc i) (suc j) (x ∷ xs) less = get_elem?-remove_at_lt i j xs (omega arith)

  pub get_elem?-remove_at_ge :
      (i j : ℕ) (xs : List A) → i ≤ j → get_elem? (remove_at i xs) j ≡ get_elem? xs (suc j)
  unfolding remove_at
  get_elem?-remove_at_ge i j [] le = refl
  get_elem?-remove_at_ge zero j (x ∷ xs) le = refl
  get_elem?-remove_at_ge (suc i) zero (x ∷ xs) le = absurd (omega arith)
  get_elem?-remove_at_ge (suc i) (suc j) (x ∷ xs) le = get_elem?-remove_at_ge i j xs (omega arith)
