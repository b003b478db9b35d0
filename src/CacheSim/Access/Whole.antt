-- ===== src/CacheSim/Access/Whole.antt =====
-- A whole `cache_sim_access`, and sequences of them (lib/cache_sim/cache_sim_access.c).
use perfexpert.Prelude.{
  ℕ, ◌+◌, ◌≡◌, refl, ◌⊎◌, inl, inr, Bool, ◌&&◌, some, ◌==◌, ltb, arith, Bool-cases,
}
use perfexpert.CacheSim.Types.{Cache, ok, l1_miss, l1_miss_conflict, load_access, inc64}
use perfexpert.CacheSim.Address.{address_to_line_id}
use perfexpert.CacheSim.Reuse.{is_null, cache_sim_reuse_get_age}
use perfexpert.CacheSim.Access.{
  access_fn_call, evaluate, track_reuse, reuse_fn_call, cache_sim_access,
}
use perfexpert.CacheSim.Access.Codes.{
  IsResult, AllOk, AllOk-bind, AllOk-then, AllOk-ok, call-Results,
}
use perfexpert.CacheSim.Access.Counters.{
  IsEvaluated, evaluate-IsEvaluated, AllOk-mono, is_hit, is_miss, is_conflict, IsCounted,
  reuse_fn_call-frame,
}

record IsTracked (rc : ℕ) (c : Cache) (rc' : ℕ) (c' : Cache) : Type 0 where
  frame : c' ≡ record c { reuse_data = c'.reuse_data; conflict = c'.conflict }
  verdict :
      ((rc' ≡ rc) × (c'.conflict ≡ c.conflict))
      ⊎ ((rc ≡ l1_miss) × (rc' ≡ l1_miss + l1_miss_conflict) × (c'.conflict ≡ inc64 c.conflict))

track_reuse-IsTracked :
    (allocated : Bool) (rc : ℕ) (c : Cache) (id : ℕ)
    → AllOk (λ r. IsTracked rc c r.0 r.1) (track_reuse allocated rc c id)
unfolding track_reuse
track_reuse-IsTracked allocated rc c id = elim (Bool-cases (is_null c.reuse_data)) [
  | inl off ↦ rw off (record { frame = refl; verdict = inl (refl, refl) })
  | inr on ↦ rw on (
      AllOk-bind _ (cache_sim_reuse_get_age (some c) id) _ (λ age.
        elim (Bool-cases (ltb age c.total_lines && rc == l1_miss)) [
          | inl yes_conflict ↦ rw yes_conflict (
              let c' : Cache = record c { conflict = inc64 c.conflict } in
              AllOk-then (λ (r : ℕ × Cache). r.1 ≡ record c' { reuse_data = r.1.reuse_data }) _
                (reuse_fn_call allocated c.reuse_fn c' id) _
                (reuse_fn_call-frame allocated c.reuse_fn c' id) (λ r e. ground arith))
          | inr no_conflict ↦ rw no_conflict (
              AllOk-then (λ (r : ℕ × Cache). r.1 ≡ record c { reuse_data = r.1.reuse_data }) _
                (reuse_fn_call allocated c.reuse_fn c id) _
                (reuse_fn_call-frame allocated c.reuse_fn c id) (λ r e. ground arith))
        ]))
]

-- The counts of one access from those of its three steps.
counts_of_steps :
    (c c1 c2 c3 : Cache) (rc rc' : ℕ)
    → IsResult (record c { access = inc64 c.access }) rc c1
    → IsEvaluated rc c1 c2
    → IsTracked rc c2 rc' c3
    → IsCounted rc' c c3
counts_of_steps c c1 c2 c3 rc rc' p e t = record {
  frame = ground (arith, p.only_area, e.frame, t.frame);
  outcome = elim e.counted [
    | inl (hit, one, none_missed) ↦ elim t.verdict [
      | inl (same, calm) ↦ is_hit (ground arith) (ground arith) (ground arith) (ground arith)
      | inr (missed, conflict, counted) ↦ absurd (ground arith)
    ]
    | inr (miss, none_hit, one) ↦ elim t.verdict [
      | inl (same, calm) ↦ is_miss (ground arith) (ground arith) (ground arith) (ground arith)
      | inr (missed, conflict, counted) ↦
          is_conflict conflict (ground arith) (ground arith) (ground arith)
    ]
  ];
}

pub access_counts :
    (allocated : Bool) (c : Cache) (address : ℕ)
    → AllOk (λ r. IsCounted r.0 c r.1) (cache_sim_access allocated c address)
unfolding cache_sim_access
access_counts allocated c address =
    let id = address_to_line_id c address in
    let c0 : Cache = record c { access = inc64 c.access } in
    AllOk-then (λ r. IsResult c0 r.0 r.1) _ (access_fn_call c.access_fn c0 id load_access) _
      (call-Results c.access_fn c0 id load_access)
      (λ r p.
        AllOk-then (λ c2. IsEvaluated r.0 r.1 c2) _ (evaluate r.0 r.1 id) _
          (evaluate-IsEvaluated r.0 r.1 id p.code)
          (λ c2 e.
            AllOk-mono (λ s. IsTracked r.0 c2 s.0 s.1) _ (track_reuse allocated r.0 c2 id)
              (λ s t. counts_of_steps c r.1 c2 s.1 r.0 s.0 p e t)
              (track_reuse-IsTracked allocated r.0 c2 id)))

-- An access that returns counts itself once, and once more as a hit or as a miss by the code it
-- returns; a conflict is also counted as such; nothing changes but the data area, the reuse list
-- and the counters.
pub cache_sim_access-IsCounted :
    (allocated : Bool) (c : Cache) (address : ℕ) {rc : ℕ} {c' : Cache}
    → cache_sim_access allocated c address ≡ ok (rc, c')
    → IsCounted rc c c'
cache_sim_access-IsCounted allocated c address e =
    AllOk-ok (λ (r : ℕ × Cache). IsCounted r.0 c r.1) _ (access_counts allocated c address) e
