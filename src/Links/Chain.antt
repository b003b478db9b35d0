-- ===== src/Links/Chain.antt =====
-- Chains of items in the lists of common/perfexpert_list.c: two functions on addresses link the items
-- of a list, in its order, between two ends.
use perfexpert.Prelude.{ℕ, ◌≡◌, ◌≢◌, sym, ◌∙◌, List, [], ◌∷◌, ◌++◌, arith}
use perfexpert.Links.{update}

abbrev pub Linked : (next prev : ℕ → ℕ) → (front : ℕ) → List ℕ → (back : ℕ) → Type 0
Linked next prev a [] b = (next a ≡ b) × (prev b ≡ a)
Linked next prev a (x ∷ xs) b = (next a ≡ x) × (prev x ≡ a) × Linked next prev x xs b

abbrev pub Absent : ℕ → List ℕ → Type 0
Absent c [] = Unit
Absent c (x ∷ xs) = (c ≢ x) × Absent c xs

abbrev pub IsDistinct : List ℕ → Type 0
IsDistinct [] = Unit
IsDistinct (x ∷ xs) = Absent x xs × IsDistinct xs

-- The item before a place and the one behind it, where the ends stand for items that are not there.
abbrev pub last_or : ℕ → List ℕ → ℕ
last_or a [] = a
last_or a (x ∷ xs) = last_or x xs

abbrev pub head_or : ℕ → List ℕ → ℕ
head_or b [] = b
head_or b (x ∷ xs) = x

pub Absent-last_or : (c a : ℕ) (xs ys : List ℕ) → c ≢ a → Absent c (xs ++ ys) → c ≢ last_or a xs
Absent-last_or c a [] ys other absent = other
Absent-last_or c a (x ∷ xs) ys other (away, absent) = Absent-last_or c x xs ys away absent

pub Absent-head_or : (c b : ℕ) (xs ys : List ℕ) → c ≢ b → Absent c (xs ++ ys) → c ≢ head_or b ys
Absent-head_or c b [] [] other absent = other
Absent-head_or c b [] (y ∷ ys) other (away, absent) = away
Absent-head_or c b (x ∷ xs) ys other (away, absent) = Absent-head_or c b xs ys other absent

-- An item is taken out of a list, or put into it.
pub Absent-without : (c x : ℕ) (xs ys : List ℕ) → Absent c (xs ++ x ∷ ys) → Absent c (xs ++ ys)
Absent-without c x [] ys (away, absent) = absent
Absent-without c x (u ∷ xs) ys (away, absent) = (away, Absent-without c x xs ys absent)

pub Absent-with : (c x : ℕ) (xs ys : List ℕ) → c ≢ x → Absent c (xs ++ ys) → Absent c (xs ++ x ∷ ys)
Absent-with c x [] ys other absent = (other, absent)
Absent-with c x (u ∷ xs) ys other (away, absent) = (away, Absent-with c x xs ys other absent)

pub IsDistinct-without :
    (x : ℕ) (xs ys : List ℕ) → IsDistinct (xs ++ x ∷ ys) → IsDistinct (xs ++ ys)
IsDistinct-without x [] ys (away, distinct) = distinct
IsDistinct-without x (u ∷ xs) ys (away, distinct) =
    (Absent-without u x xs ys away, IsDistinct-without x xs ys distinct)

pub IsDistinct-with :
    (x : ℕ) (xs ys : List ℕ)
    → Absent x (xs ++ ys)
    → IsDistinct (xs ++ ys)
    → IsDistinct (xs ++ x ∷ ys)
IsDistinct-with x [] ys absent distinct = (absent, distinct)
IsDistinct-with x (u ∷ xs) ys (other, absent) (away, distinct) =
    (Absent-with u x xs ys (λ e. other (sym e)) away, IsDistinct-with x xs ys absent distinct)

pub Absent-other : (c x : ℕ) (xs ys : List ℕ) → Absent c (xs ++ x ∷ ys) → c ≢ x
Absent-other c x [] ys (other, absent) = other
Absent-other c x (u ∷ xs) ys (away, absent) = Absent-other c x xs ys absent

pub IsDistinct-Absent : (x : ℕ) (xs ys : List ℕ) → IsDistinct (xs ++ x ∷ ys) → Absent x (xs ++ ys)
IsDistinct-Absent x [] ys (absent, distinct) = absent
IsDistinct-Absent x (u ∷ xs) ys (away, distinct) =
    (λ e. Absent-other u x xs ys away (sym e), IsDistinct-Absent x xs ys distinct)

-- A link that is written outside of a chain, and functions that agree.
Linked-update_next :
    (n p : ℕ → ℕ) (a : ℕ) (xs : List ℕ) (b c v : ℕ)
    → c ≢ a
    → Absent c xs
    → Linked n p a xs b
    → Linked (update n c v) p a xs b
unfolding update
Linked-update_next n p a [] b c v other absent (ahead, behind) = (ground arith, behind)
Linked-update_next n p a (x ∷ xs) b c v other (away, absent) (ahead, behind, linked) =
    (ground arith, behind, Linked-update_next n p x xs b c v away absent linked)

Linked-update_prev :
    (n p : ℕ → ℕ) (a : ℕ) (xs : List ℕ) (b c v : ℕ)
    → c ≢ b
    → Absent c xs
    → Linked n p a xs b
    → Linked n (update p c v) a xs b
unfolding update
Linked-update_prev n p a [] b c v other absent (ahead, behind) = (ahead, ground arith)
Linked-update_prev n p a (x ∷ xs) b c v other (away, absent) (ahead, behind, linked) =
    (ahead, ground arith, Linked-update_prev n p x xs b c v other absent linked)

pub Linked-agree :
    (n p n' p' : ℕ → ℕ) (a : ℕ) (xs : List ℕ) (b : ℕ)
    → ((x : ℕ) → n' x ≡ n x)
    → ((x : ℕ) → p' x ≡ p x)
    → Linked n p a xs b
    → Linked n' p' a xs b
Linked-agree n p n' p' a [] b same_next same_prev (ahead, behind) =
    (same_next a ∙ ahead, same_prev b ∙ behind)
Linked-agree n p n' p' a (x ∷ xs) b same_next same_prev (ahead, behind, linked) = (
  same_next a ∙ ahead,
  same_prev x ∙ behind,
  Linked-agree n p n' p' x xs b same_next same_prev linked,
)

-- The neighbours of an item.
pub Linked-behind :
    (n p : ℕ → ℕ) (a x : ℕ) (xs ys : List ℕ) (b : ℕ)
    → Linked n p a (xs ++ x ∷ ys) b
    → p x ≡ last_or a xs
Linked-behind n p a x [] ys b (ahead, behind, linked) = behind
Linked-behind n p a x (u ∷ xs) ys b (ahead, behind, linked) = Linked-behind n p u x xs ys b linked

pub Linked-first :
    (n p : ℕ → ℕ) (a : ℕ) (ys : List ℕ) (b : ℕ) → Linked n p a ys b → n a ≡ head_or b ys
Linked-first n p a [] b (ahead, behind) = ahead
Linked-first n p a (y ∷ ys) b (ahead, behind, linked) = ahead

pub Linked-ahead :
    (n p : ℕ → ℕ) (a x : ℕ) (xs ys : List ℕ) (b : ℕ)
    → Linked n p a (xs ++ x ∷ ys) b
    → n x ≡ head_or b ys
Linked-ahead n p a x [] ys b (ahead, behind, linked) = Linked-first n p x ys b linked
Linked-ahead n p a x (u ∷ xs) ys b (ahead, behind, linked) = Linked-ahead n p u x xs ys b linked

pub Linked-last :
    (n p : ℕ → ℕ) (a : ℕ) (xs : List ℕ) (b : ℕ) → Linked n p a xs b → p b ≡ last_or a xs
Linked-last n p a [] b (ahead, behind) = behind
Linked-last n p a (x ∷ xs) b (ahead, behind, linked) = Linked-last n p x xs b linked

-- An item between two lists is taken out.
pub Linked-without :
    (n p : ℕ → ℕ) (a x : ℕ) (xs ys : List ℕ) (b : ℕ)
    → Absent a (xs ++ x ∷ ys)
    → Absent b (xs ++ x ∷ ys)
    → IsDistinct (xs ++ x ∷ ys)
    → Linked n p a (xs ++ x ∷ ys) b
    → Linked
        (update n (last_or a xs) (head_or b ys))
        (update p (head_or b ys) (last_or a xs))
        a
        (xs ++ ys)
        b
unfolding update
Linked-without n p a x [] [] b front back distinct linked = (ground arith, ground arith)
Linked-without n p a x [] (y ∷ ys) b front back distinct linked =
    let (ax, (ay, a_out)) = front in
    let (bx, (by, b_out)) = back in
    let (x_out, (y_out, d)) = distinct in
    let (e1, e2, (e3, e4, rest)) = linked in
    (
      ground arith,
      ground arith,
      Linked-update_next n (update p y a) y ys b a y ay a_out
          (Linked-update_prev n p y ys b y a (λ e. by (sym e)) y_out rest),
    )
Linked-without n p a x (u ∷ xs) ys b front back distinct linked =
    let (au, a_out) = front in
    let (bu, b_out) = back in
    let (u_out, d) = distinct in
    let (e1, e2, rest) = linked in
    let front_other : a ≢ last_or u xs = Absent-last_or a u xs (x ∷ ys) au a_out in
    let back_other : u ≢ head_or b ys =
      Absent-head_or u b xs ys (λ e. bu (sym e)) (Absent-without u x xs ys u_out) in
    (ground arith, ground arith, Linked-without n p u x xs ys b u_out b_out d rest)

-- An item is put between two lists.
pub Linked-with :
    (n p : ℕ → ℕ) (a x : ℕ) (xs ys : List ℕ) (b : ℕ)
    → Absent a (xs ++ ys)
    → Absent b (xs ++ ys)
    → Absent x (xs ++ ys)
    → x ≢ a
    → x ≢ b
    → IsDistinct (xs ++ ys)
    → Linked n p a (xs ++ ys) b
    → Linked
        (update (update n x (head_or b ys)) (last_or a xs) x)
        (update (update p x (last_or a xs)) (head_or b ys) x)
        a
        (xs ++ x ∷ ys)
        b
unfolding update
Linked-with n p a x [] [] b front back new xa xb distinct linked =
    (ground arith, ground arith, (ground arith, ground arith))
Linked-with n p a x [] (y ∷ ys) b front back new xa xb distinct linked =
    let (ay, a_out) = front in
    let (by, b_out) = back in
    let (xy, x_out) = new in
    let (y_out, d) = distinct in
    let (e1, e2, rest) = linked in
    (
      ground arith,
      ground arith,
      (
        ground arith,
        ground arith,
        Linked-update_next (update n x y) (update (update p x a) y x) y ys b a x ay a_out (
            Linked-update_next n (update (update p x a) y x) y ys b x y xy x_out (
              Linked-update_prev n (update p x a) y ys b y x (λ e. by (sym e)) y_out
                (Linked-update_prev n p y ys b x a xb x_out rest))),
      ),
    )
Linked-with n p a x (u ∷ xs) ys b front back new xa xb distinct linked =
    let (au, a_out) = front in
    let (bu, b_out) = back in
    let (xu, x_out) = new in
    let (u_out, d) = distinct in
    let (e1, e2, rest) = linked in
    let front_other : a ≢ last_or u xs = Absent-last_or a u xs ys au a_out in
    let back_other : u ≢ head_or b ys = Absent-head_or u b xs ys (λ e. bu (sym e)) u_out in
    (ground arith, ground arith, Linked-with n p u x xs ys b u_out b_out x_out xu xb d rest)
