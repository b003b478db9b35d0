-- ===== src/CacheSim/Access/Total.antt =====
-- Accesses on a cache with the LRU policy always return (lib/cache_sim/cache_sim_access.c).
use perfexpert.Prelude.{
  ℕ, ◌+◌, ◌-◌, ◌*◌, ◌/◌, ◌%◌, ◌^◌, ◌<◌, ◌≤◌, ◌≡◌, refl, sym, ap, ◌∙◌, subst, inl, inr, Bool, true,
  false, ◌&&◌, some, Option, List, [], ◌∷◌, ltb, ◌==◌, if◌then◌else◌, length, two-pow-split, arith,
}
use native.Mathlib.Nat.{mul_assoc}
use perfexpert.CacheSim.Types.{
  Cache, ReuseItem, ok, null, live, reuse_limited, success, inc64, load_access, l1_miss,
  l1_miss_conflict, ReuseFn,
}
use perfexpert.CacheSim.Address.{FitsWord, address_to_line_id}
use perfexpert.CacheSim.Lru.Whole.{IsLru}
use perfexpert.CacheSim.Reuse.{is_null, cache_sim_reuse_get_age, cache_sim_reuse_limited, age_of}
use perfexpert.CacheSim.Reuse.Distance.{Tracks, cache_sim_reuse_limited-Tracks}
use perfexpert.CacheSim.Access.{reuse_fn_call, track_reuse, cache_sim_access}
use perfexpert.CacheSim.Access.Codes.{AllOk-ok, access_fn_call-IsResult}
use perfexpert.CacheSim.Access.Counters.{reuse_fn_call-frame}
use perfexpert.CacheSim.Reuse.Recency.{touch}
use perfexpert.CacheSim.Access.Ready.{
  IsReuseReady, IsReady, Returns, IsReady-counted, access_fn_call-IsReady, not_max_of_even,
  evaluate-IsReady,
}
use perfexpert.CacheSim.Access.Trace.{access_all, IsBalanced, access_all-IsBalanced}
use perfexpert.CacheSim.Handle.{cache_sim_init}
use perfexpert.CacheSim.Handle.Init.{policy_name, cache_sim_init-IsLru}

-- Another reuse list.
IsReady-reuse :
    {c c' : Cache}
    → c' ≡ record c { reuse_data = c'.reuse_data }
    → IsReady c
    → IsReuseReady c'
    → IsReady c'
IsReady-reuse {c} {c'} e r reuse = record {
  lines = r.lines;
  area =
      subst (λ (x : Cache). IsLru x r.lines) (sym e)
        (record { area_is = r.area.area_is; some_way = r.area.some_way; sets = r.area.sets });
  word = subst FitsWord (sym e) (record {
    some_set_bit = r.word.some_set_bit;
    some_offset_bit = r.word.some_offset_bit;
    fits = r.word.fits;
  });
  policy = ap (λ (x : Cache). x.access_fn) e ∙ r.policy;
  even = ap (λ (x : Cache). x.line_size % 2) e ∙ r.even;
  reuse = reuse;
}

reuse_fn_call-cache_sim_reuse_limited :
    {f : Option ReuseFn} (allocated : Bool) (c : Cache) (id : ℕ)
    → f ≡ some reuse_limited
    → reuse_fn_call allocated f c id ≡ cache_sim_reuse_limited c id
unfolding reuse_fn_call
reuse_fn_call-cache_sim_reuse_limited allocated c id e = rw e

reuse_fn_call-IsReady :
    (allocated : Bool) (c : Cache) (n : ℕ) (l : List ℕ) (id : ℕ)
    → IsReady c
    → c.reuse_fn ≡ some reuse_limited
    → 0 < n
    → Tracks n c l
    → Returns (λ (r : ℕ × Cache). IsReady r.1) (reuse_fn_call allocated c.reuse_fn c id)
reuse_fn_call-IsReady allocated c n l id r f pos t =
    let (c', e, t') = cache_sim_reuse_limited-Tracks n id pos t in
    let call : reuse_fn_call allocated c.reuse_fn c id ≡ ok (success, c') =
      reuse_fn_call-cache_sim_reuse_limited allocated c id f ∙ e in
    let frame : c' ≡ record c { reuse_data = c'.reuse_data } =
      AllOk-ok (λ (s : ℕ × Cache). s.1 ≡ record c { reuse_data = s.1.reuse_data }) _
        (reuse_fn_call-frame allocated c.reuse_fn c id) call in
    (
      (success, c'),
      call,
      IsReady-reuse frame r
          (inr (ap (λ (x : Cache). x.reuse_fn) frame ∙ f, n, touch id l, pos, t')),
    )

track_reuse-off :
    (allocated : Bool) (rc : ℕ) (c : Cache) (id : ℕ)
    → c.reuse_data ≡ null
    → track_reuse allocated rc c id ≡ ok (rc, c)
unfolding track_reuse
track_reuse-off allocated rc c id off = rw off

track_reuse-on :
    (allocated : Bool) (rc : ℕ) (c c' : Cache) (id age called : ℕ) (near : Bool)
    → is_null c.reuse_data ≡ false
    → cache_sim_reuse_get_age (some c) id ≡ ok age
    → (ltb age c.total_lines && rc == l1_miss) ≡ near
    → reuse_fn_call allocated c.reuse_fn
        (if near then record c { conflict = inc64 c.conflict } else c)
        id
      ≡ ok (called, c')
    → track_reuse allocated rc c id ≡ ok ((if near then rc + l1_miss_conflict else rc), c')
unfolding track_reuse
track_reuse-on allocated rc c c' id age called true on aged test e = rw (on, aged, test, e)
track_reuse-on allocated rc c c' id age called false on aged test e = rw (on, aged, test, e)

age_of_held :
    (c : Cache) (id : ℕ) {items : List ReuseItem}
    → c.reuse_data ≡ live items
    → (is_null c.reuse_data ≡ false) × (cache_sim_reuse_get_age (some c) id ≡ ok (age_of items id))
unfolding cache_sim_reuse_get_age
age_of_held c id held = (rw held, rw held)

IsReady-conflict :
    (near : Bool) (c : Cache)
    → IsReady c
    → IsReady (if near then record c { conflict = inc64 c.conflict } else c)
IsReady-conflict true c r =
    IsReady-counted c c.access c.hit c.miss (inc64 c.conflict) c.prefetcher_next_line
      c.prefetcher_hit c.prefetcher_evict r
IsReady-conflict false c r = r

reuse_after_conflict :
    (near : Bool) (allocated : Bool) (c : Cache) (n : ℕ) (l : List ℕ) (id : ℕ)
    → IsReady c
    → c.reuse_fn ≡ some reuse_limited
    → 0 < n
    → Tracks n c l
    → Returns
        (λ (r : ℕ × Cache). IsReady r.1)
        (reuse_fn_call allocated c.reuse_fn
          (if near then record c { conflict = inc64 c.conflict } else c)
          id)
reuse_after_conflict true allocated c n l id r f pos t =
    reuse_fn_call-IsReady allocated (record c { conflict = inc64 c.conflict }) n l id
      (IsReady-conflict true c r) f pos
      (record { items = t.items; held = t.held; aged = t.aged; count = t.count; window = t.window })
reuse_after_conflict false allocated c n l id r f pos t =
    reuse_fn_call-IsReady allocated c n l id r f pos t

track_reuse-IsReady :
    (allocated : Bool) (rc : ℕ) (c : Cache) (id : ℕ)
    → IsReady c
    → IsReuseReady c
    → Returns (λ (r : ℕ × Cache). IsReady r.1) (track_reuse allocated rc c id)
track_reuse-IsReady allocated rc c id r (inl off) =
    ((rc, c), track_reuse-off allocated rc c id off, r)
track_reuse-IsReady allocated rc c id r (inr (f, n, l, pos, t)) =
    let near = ltb (age_of t.items id) c.total_lines && rc == l1_miss in
    let ((called, c'), e, r') = reuse_after_conflict near allocated c n l id r f pos t in
    let (on, aged) = age_of_held c id t.held in
    (
      ((if near then rc + l1_miss_conflict else rc), c'),
      track_reuse-on allocated rc c c' id (age_of t.items id) called near on aged refl e,
      r',
    )

even_product : (q p : ℕ) → q * (p * 2) % 2 ^ 64 % 2 ≡ 0
even_product q p = let m : q * (p * 2) ≡ q * p * 2 = sym (mul_assoc q p 2) in rw m (omega arith)

-- A line id is even, since there is at least one bit of offset.
even_line_id : (c : Cache) (a : ℕ) → FitsWord c → address_to_line_id c a % 2 ≡ 0
unfolding address_to_line_id
even_line_id c a w =
    let o = c.offset_length in
    let twice : 2 ^ o ≡ 2 ^ (o - 1) * 2 ^ 1 =
      two-pow-split o 1 (o - 1) (omega (arith, w.some_offset_bit)) refl in
    subst (λ (t : ℕ). a / 2 ^ o * t % 2 ^ 64 % 2 ≡ 0) (sym twice)
      (even_product (a / 2 ^ o) (2 ^ (o - 1)))

-- On a cache with a well-formed LRU area, lines of an even number of bytes, any prefetcher, and
-- reuse distances that are off or limited and well formed, an access to any address returns, and
-- leaves such a cache.
pub cache_sim_access-IsReady :
    (allocated : Bool) (c : Cache) (address : ℕ)
    → IsReady c
    → (rc : ℕ) × (c' : Cache) × (cache_sim_access allocated c address ≡ ok (rc, c')) × IsReady c'
unfolding cache_sim_access
cache_sim_access-IsReady allocated c address r =
    let id = address_to_line_id c address in
    let h = even_line_id c address r.word in
    let begun : Cache = record c { access = inc64 c.access } in
    let r0 : IsReady begun =
      IsReady-counted c (inc64 c.access) c.hit c.miss c.conflict c.prefetcher_next_line
        c.prefetcher_hit c.prefetcher_evict r in
    let ((rc, c1), e1, r1) =
      access_fn_call-IsReady begun id load_access r0 (not_max_of_even id h) in
    let result = access_fn_call-IsResult c.access_fn begun id load_access e1 in
    let (c2, e2, r2) = evaluate-IsReady rc c1 id result.code r1 h in
    let ((rc', c3), e3, r3) = track_reuse-IsReady allocated rc c2 id r2 r2.reuse in
    (rc', c3, rw (e1, e2, e3), r3)

-- So does any sequence of accesses.
pub access_all-IsReady :
    (allocated : Bool) (addresses : List ℕ) (c : Cache)
    → IsReady c
    → (c' : Cache) × (access_all allocated c addresses ≡ ok c') × IsReady c'
unfolding access_all
access_all-IsReady allocated [] c r = (c, refl, r)
access_all-IsReady allocated (address ∷ rest) c r =
    let (rc, c1, e1, r1) = cache_sim_access-IsReady allocated c address r in
    let (c', e, r') = access_all-IsReady allocated rest c1 r1 in (c', rw (e1, e), r')

-- With positive sizes below 2^31 that make at least two sets of lines of an even number of
-- bytes, and with memory, cache_sim_init returns a cache for the lru policy on which any
-- sequence of fewer than 2^64 accesses returns, and hits and misses then add up to their number.
pub access_all-cache_sim_init :
    (total_size line_size associativity : ℕ) (addresses : List ℕ)
    → total_size < 2 ^ 31
    → 2 ≤ line_size
    → line_size % 2 ≡ 0
    → 0 < associativity
    → 2 ≤ total_size / line_size / associativity
    → length addresses < 2 ^ 64
    → (c c' : Cache) × (cache_sim_init true true total_size line_size associativity policy_name
        ≡ ok (some c))
      × (access_all true c addresses ≡ ok c')
      × (c'.hit + c'.miss ≡ length addresses)
access_all-cache_sim_init total line ways addresses small two_bytes even pos two_sets few =
    let (c, e, v, w, fn, accesses, hits, misses, conflicts, size, off) =
      cache_sim_init-IsLru total line ways small two_bytes pos two_sets in
    let (c', ran, r) = access_all-IsReady true addresses c (record {
      lines = _;
      area = v;
      word = w;
      policy = fn;
      even = ap (λ (n : ℕ). n % 2) size ∙ even;
      reuse = inl off;
    }) in
    let balanced : IsBalanced c = record {
      hits_and_misses = omega (arith, accesses, hits, misses);
      conflicts = omega (arith, conflicts, misses);
    } in
    let (b, count) =
      access_all-IsBalanced true addresses (omega (arith, accesses, few)) balanced ran in
    (c, c', e, ran, omega (arith, b.hits_and_misses, count, accesses))
