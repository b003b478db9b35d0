-- ===== src/Profile/Depth.antt =====
-- How deep a call path may be for profile_check_all.
use perfexpert.Prelude.{
  ℕ, suc, ◌+◌, ◌≤◌, ◌<◌, ◌≡◌, refl, ◌∙◌, false, Bool-cases, List, [], ◌∷◌, ltb, ◌==◌, if◌then◌else◌,
  inl, inr, arith,
}
use perfexpert.Outcome.{Outcome, ok, fault, ◌>>=◌}
use perfexpert.CString.{perfexpert_success, perfexpert_error}
use perfexpert.Profile.{
  call, Callees, nil, cons, HpctoolkitProfile, indented, clip, if_callees, check_calls,
  profile_check_callpath, profile_check_all,
}

abbrev max : ℕ → ℕ → ℕ
max a b = if ltb a b then b else a

-- The number of levels below these calls.
pub depth : Callees → ℕ
depth nil = 0
depth (cons (call id nil) rest) = depth rest
depth (cons (call id (cons c cs)) rest) = max (suc (depth (cons c cs))) (depth rest)

pub deepest : {D : Type 0} → List (HpctoolkitProfile D) → ℕ
deepest [] = 0
deepest (p ∷ ps) = max (depth p.callees) (deepest ps)

clip-low : (root : ℕ) → root ≤ 127 → clip root ≡ root
unfolding clip
clip-low root low = ground arith

indented-low : (root : ℕ) (body : Outcome ℕ) → root < 127 → indented root body ≡ body
unfolding indented
indented-low root body low = ground arith

indented-bottom : (body : Outcome ℕ) → indented 127 body ≡ fault
unfolding indented
indented-bottom body = refl

-- Two parts, the second of which runs if the first succeeds.
both_parts :
    (a b : ℕ) (next : ℕ → Outcome ℕ)
    → next 0 ≡ (if ltb b 127 then ok 0 else fault)
    → ((if ltb a 127 then ok 0 else fault) >>= next) ≡ (if ltb (max a b) 127 then ok 0 else fault)
both_parts a b next h = elim (Bool-cases (ltb a 127)) [
  | inl low ↦ rw low (h ∙ ground arith)
  | inr high ↦ rw high (ground arith)
]

add-max : (root a b : ℕ) → root + max (suc a) b ≡ max (root + 1 + a) (root + b)
add-max root a b = ground arith

bottom_deep : (root a b : ℕ) → root + 1 ≡ 127 → ltb (root + max (suc a) b) 127 ≡ false
bottom_deep root a b last = ground arith

-- The loop runs into no fault as long as the levels below stay above 127.
check_calls-depth :
    (root : ℕ) (cs : Callees)
    → root < 127
    → check_calls root cs ≡ (if ltb (root + depth cs) 127 then ok perfexpert_success else fault)
unfolding check_calls depth if_callees
check_calls-depth root nil low = ground arith
check_calls-depth root (cons (call id nil) rest) low = check_calls-depth root rest low
check_calls-depth root (cons (call id (cons c cs)) rest) low =
    elim (Bool-cases (ltb (root + 1) 127)) [
      | inl above ↦
          let lower : root + 1 < 127 = ground arith in
          let below = check_calls-depth (root + 1) (cons c cs) lower in
          let later = check_calls-depth root rest low in
          rw (clip-low (root + 1) (omega arith)) (
            rw (indented-low (root + 1) (check_calls (root + 1) (cons c cs)) lower) (
              rw below (
                rw (add-max root (depth (cons c cs)) (depth rest))
                  (both_parts _ _ (λ rc. check_calls root rest) later))))
      | inr bottom ↦
          let last : root + 1 ≡ 127 = ground arith in
          rw (clip-low (root + 1) (omega arith)) (
            rw last (
              rw (indented-bottom (check_calls 127 (cons c cs)))
                (rw (bottom_deep root (depth (cons c cs)) (depth rest) last) refl)))
    ]

profile_check_callpath-depth :
    (cs : Callees)
    → if_callees cs (profile_check_callpath cs 0)
      ≡ (if ltb (depth cs) 127 then ok perfexpert_success else fault)
unfolding profile_check_callpath if_callees depth
profile_check_callpath-depth nil = refl
profile_check_callpath-depth (cons c cs) =
    let all = check_calls-depth 0 (cons c cs) (omega arith) in
    rw (clip-low 0 (omega arith))
      (rw (indented-low 0 (check_calls 0 (cons c cs)) (omega arith)) (ground arith))

-- Checking the profiles succeeds exactly if no call path has 127 levels or more below its first
-- one: with more, the indentation is written behind the end of its array.
pub profile_check_all-deepest :
    {D : Type 0} (ps : List (HpctoolkitProfile D))
    → profile_check_all ps ≡ (if ltb (deepest ps) 127 then ok perfexpert_success else fault)
unfolding profile_check_all deepest
profile_check_all-deepest [] = refl
profile_check_all-deepest (p ∷ ps) = rw (profile_check_callpath-depth p.callees) (
    both_parts (depth p.callees) (deepest ps)
      (λ rc. if rc == perfexpert_success then profile_check_all ps else ok perfexpert_error)
      (profile_check_all-deepest ps))
