-- ===== src/CacheSim/Reuse/Distance.antt =====
-- Reuse distance from `cache_sim_reuse_enable` on (lib/cache_sim/cache_sim_reuse.c): what
-- `cache_sim_reuse_get_age` reports after any sequence of accesses.
use perfexpert.Prelude.{
  ℕ, zero, suc, ◌%◌, ◌^◌, ◌<◌, ◌≡◌, ◌≢◌, refl, Option, none, some, true, false, List, [], ◌∷◌, ◌==◌,
  ltb, if◌then◌else◌, length, replicate, take, arith, ap, ◌∙◌, sym, take_all, length-replicate, map,
}
use perfexpert.CacheSim.Types.{
  Cache, ReuseItem, null, live, Outcome, ok, ◌>>=◌, uint64_max, uint16_max, success, reuse_limited,
}
use perfexpert.CacheSim.Reuse.{
  age_of, cache_sim_reuse_limited, cache_sim_reuse_get_age, cache_sim_reuse_enable,
}
use perfexpert.CacheSim.Reuse.Ages.{IsAged, ids, limited_end-IsReused}
use perfexpert.CacheSim.Reuse.Recency.{
  touch, recency, index, NoMax, take-touch-take, index-append_padding, index-take, age_of-index,
  recency-append_padding,
}

-- The cache holds the first `n` of the lines `l`, each as old as its position.
pub record Tracks (n : ℕ) (c : Cache) (l : List ℕ) : Type 0 where
  pub items : List ReuseItem
  pub held : c.reuse_data ≡ live items
  pub aged : IsAged 0 items
  pub count : length items ≡ n
  pub window : ids items ≡ take n l

-- A sequence of calls of `cache_sim_reuse_limited`.
unfoldable pub accesses : Cache → List ℕ → Outcome Cache
accesses c [] = ok c
accesses c (id ∷ trace) = do (rc, c') ← cache_sim_reuse_limited c id; accesses c' trace

-- On a list that is not empty and holds the first n lines in order of last use, each as old as
-- its position, cache_sim_reuse_limited succeeds and leaves such a list for the order with the
-- accessed line moved to the front.
pub cache_sim_reuse_limited-Tracks :
    (n : ℕ) {c : Cache} {l : List ℕ} (id : ℕ)
    → 0 < n
    → Tracks n c l
    → (c' : Cache) × (cache_sim_reuse_limited c id ≡ ok (success, c')) × Tracks n c' (touch id l)
unfolding cache_sim_reuse_limited touch
cache_sim_reuse_limited-Tracks n {c} {l} id pos t =
    let (items', e, is) = limited_end-IsReused id t.items (omega (arith, t.count)) t.aged in
    (
      record c { reuse_data = live items' },
      rw (t.held, e),
      record {
        items = items';
        held = refl;
        aged = is.aged;
        count = is.same_length ∙ t.count;
        window = is.order ∙ rw (t.count, t.window) (take-touch-take n id l);
      },
    )

accesses-Tracks :
    (n : ℕ) (trace : List ℕ) {c : Cache} {l : List ℕ}
    → 0 < n
    → Tracks n c l
    → (c' : Cache) × (accesses c trace ≡ ok c') × Tracks n c' (recency l trace)
unfolding accesses recency
accesses-Tracks n [] {c} pos t = (c, refl, t)
accesses-Tracks n (id ∷ trace) pos t =
    let (c', e, t') = cache_sim_reuse_limited-Tracks n id pos t in
    let (c'', e', t'') = accesses-Tracks n trace pos t' in (c'', rw (e, e'), t'')

abbrev no_line : ReuseItem
no_line = record { line_id = uint64_max; age = uint16_max }

fresh-IsAged : (k n : ℕ) → IsAged k (replicate n no_line)
fresh-IsAged k zero = tt
fresh-IsAged k (suc n) = (λ h. absurd (h refl), fresh-IsAged (suc k) n)

map-replicate {ℓ κ} :
    {A : Type ℓ} {B : Type κ} (f : A → B) (n : ℕ) (a : A)
    → map f (replicate n a) ≡ replicate n (f a)
map-replicate f zero a = refl
map-replicate f (suc n) a = ap (◌∷◌ (f a)) (map-replicate f n a)

-- Enabling starts to track no line.
pub enable-Tracks :
    (c : Cache) (limit : ℕ)
    → c.reuse_data ≡ null
    → 0 < limit
    → limit < 2 ^ 31
    → (c' : Cache) × (cache_sim_reuse_enable true (some c) limit ≡ ok (success, some c'))
      × Tracks limit c' (replicate limit uint64_max)
      × (c'.reuse_fn ≡ some reuse_limited)
      × (c'.total_lines ≡ c.total_lines)
      × (c'.conflict ≡ c.conflict)
unfolding cache_sim_reuse_enable
enable-Tracks c limit off pos small =
    let fits : ltb limit (2 ^ 31) ≡ true = ground arith in
    let test : (0 == limit) ≡ false = ground arith in
    (
      record c {
        reuse_limit = limit;
        reuse_data = live (replicate limit no_line);
        reuse_fn = some reuse_limited;
      },
      rw off (rw (test, fits)),
      record {
        items = replicate limit no_line;
        held = refl;
        aged = fresh-IsAged 0 limit;
        count = length-replicate limit no_line;
        window =
            map-replicate (λ (i : ReuseItem). i.line_id) limit no_line
            ∙ sym (
                take_all limit (replicate limit uint64_max)
                  (omega (arith, length-replicate limit uint64_max)));
      },
      refl,
      refl,
      refl,
    )

-- The age that is reported for a line at a distance, under a limit.
abbrev pub reported : ℕ → Option ℕ → ℕ
reported limit none = uint64_max
reported limit (some d) = if ltb d limit then d % 2 ^ 16 else uint64_max

pub age_in_window :
    (limit id : ℕ) (l : List ℕ) (items : List ReuseItem)
    → id ≢ uint64_max
    → IsAged 0 items
    → ids items ≡ take limit l
    → age_of items id ≡ reported limit (index id l)
age_in_window limit id l items named aged window =
    age_of-index 0 id items named aged ∙ rw (window, index-take limit id l) (ground arith)

-- Enable the reuse distance with a positive limit below 2^31 on a cache without it, with memory,
-- access any sequence of lines, and ask for the age of a line, where no line has the id
-- UINT64_MAX: every call returns, and the age is the distance of the line in the order of last
-- use, modulo 2^16, or UINT64_MAX if the line was not used or its distance is not below the
-- limit.
pub reuse_distance :
    (c : Cache) (limit : ℕ) (trace : List ℕ) (id : ℕ)
    → c.reuse_data ≡ null
    → 0 < limit
    → limit < 2 ^ 31
    → NoMax trace
    → id ≢ uint64_max
    → (c' c'' : Cache) × (cache_sim_reuse_enable true (some c) limit ≡ ok (success, some c'))
      × (accesses c' trace ≡ ok c'')
      × (cache_sim_reuse_get_age (some c'') id ≡ ok (reported limit (index id (recency [] trace))))
unfolding cache_sim_reuse_get_age
reuse_distance c limit trace id off pos small clean named =
    let (c', enabled, t, fn, lines, conflicts) = enable-Tracks c limit off pos small in
    let (c'', ran, t') = accesses-Tracks limit trace pos t in
    let order : index id (recency (replicate limit uint64_max) trace)
        ≡ index id (recency [] trace) =
      ap (index id) (recency-append_padding limit [] trace clean)
      ∙ index-append_padding limit id (recency [] trace) named in
    let age = age_in_window limit id _ t'.items named t'.aged t'.window in
    (c', c'', enabled, ran, rw (t'.held, age, order))
