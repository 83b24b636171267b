-- ===== src/Pool/Allocation/Outcome.antt =====
-- AllocateWithFilter on both of its outcomes.
use mathlib.Core.List.{Mem}
use game_server_orchestrator.Prelude.{
  String, ℕ, ◌<◌, ◌≡◌, refl, sym, ap, ◌∙◌, subst, inl, inr, Bool, true, false, ◌&&◌, Option, none,
  some, List, [], ◌∷◌, arith, Option-cases, length, ltb, mem-filter, if◌then◌else◌,
}
use game_server_orchestrator.Prelude.Int.{ℤ}
use game_server_orchestrator.Prelude.Text.{str_eq, eq_iff}
use game_server_orchestrator.Prelude.Dict.{Dict, lookup, get_or}
use game_server_orchestrator.Prelude.Result.{ok, err}
use game_server_orchestrator.V1alpha1.Policy.{AllocationStrategy}
use game_server_orchestrator.Pool.Scheduler.{GameServerInfo}
use game_server_orchestrator.Pool.State.{
  PoolManager, PoolError, ServerPool, ServerPoolState, pool_of, server_of, is_eligible, is_allowed,
  candidate, collect_candidates, restrict, choose, grant, take_server, update_server,
  allocate_with_filter,
}
use game_server_orchestrator.Pool.Frame.{server_of-update_server}
use game_server_orchestrator.Pool.Invariant.{IsValid}
use game_server_orchestrator.Pool.Allocation.Candidates.{
  eligible_at, collect-eligible, collect-mem, collect_unallocated,
}
use game_server_orchestrator.Pool.Allocation.Choosing.{choose_mem, choose_total}

-- A name passes the filter: it is allowed, or nothing is asked for.
abbrev pub Passes : Dict Bool → String → Type 0
Passes allowed name = 0 < length allowed → is_allowed allowed name ≡ true

restrict-mem :
    (allowed : Dict Bool) (cs : List GameServerInfo) (c : GameServerInfo)
    → Mem c (restrict allowed cs)
    → Mem c cs × Passes allowed c.name
unfolding restrict
restrict-mem [] cs c m = (m, λ h. absurd (omega arith))
restrict-mem (a ∷ rest) cs c m =
    let asked : ltb 0 (length (a ∷ rest)) ≡ true = ground arith in
    let (n, e) = (mem-filter (λ c. is_allowed (a ∷ rest) c.name) cs).0 (rw asked at m) in
    (n, λ _. e)

mem-restrict :
    (allowed : Dict Bool) (cs : List GameServerInfo) (c : GameServerInfo)
    → Mem c cs
    → Passes allowed c.name
    → Mem c (restrict allowed cs)
unfolding restrict
mem-restrict [] cs c m h = m
mem-restrict (a ∷ rest) cs c m h =
    let asked : ltb 0 (length (a ∷ rest)) ≡ true = ground arith in
    rw asked ((mem-filter _ cs).1 (m, h (omega arith)))

grant_ok :
    (now : ℤ) (fleet : String) (pm : PoolManager) (chosen : Option (String × Option ℕ))
    {name : String} {pm' : PoolManager}
    → grant now fleet pm chosen ≡ (ok name, pm')
    → (i : Option ℕ) × (chosen ≡ some (name, i))
      × ((g k : String)
          → server_of pm' g k ≡ server_of (update_server pm fleet name (take_server now)) g k)
unfolding grant
grant_ok now fleet pm none e = absurd (ground arith)
grant_ok now fleet pm (some (n, i)) {name} {pm'} e =
    let same : n ≡ name = ground (arith, ap (λ r. r.0) e) in
    (
      i,
      rw same,
      λ g k.
          sym (ap (λ r. server_of r.1 g k) e)
          ∙ ap (λ m. server_of (update_server pm fleet m (take_server now)) g k) same,
    )

grant_err :
    (now : ℤ) (fleet : String) (pm : PoolManager) (chosen : Option (String × Option ℕ))
    {r : PoolError} {pm' : PoolManager}
    → grant now fleet pm chosen ≡ (err r, pm')
    → (chosen ≡ none) × (pm' ≡ pm)
unfolding grant
grant_err now fleet pm none e = (refl, sym (ap (λ r. r.1) e))
grant_err now fleet pm (some c) e = absurd (ground arith)

module _ (now : ℤ) (fleet : String) (strategy : AllocationStrategy) (allowed : Dict Bool)
    (pm : PoolManager) where
  with_pool :
      (pool : ServerPool)
      → pool_of pm fleet ≡ some pool
      → allocate_with_filter now fleet strategy allowed pm
        ≡ grant now fleet pm (
            choose
              (restrict allowed (collect_candidates pool))
              strategy
              (get_or 0 fleet pm.round_robin_idx))
  unfolding allocate_with_filter
  with_pool pool p = rw (p, allocate_with_filter)

  without_pool :
      pool_of pm fleet ≡ none
      → allocate_with_filter now fleet strategy allowed pm ≡ (err (PoolError.no_pool fleet), pm)
  unfolding allocate_with_filter
  without_pool p = rw (p, allocate_with_filter)

eligible_some :
    (pool : ServerPool) (name : String)
    → eligible_at pool name ≡ true
    → (s : ServerPoolState) × (lookup name pool ≡ some s)
      × (s.allocated ≡ false)
      × (s.healthy ≡ true)
unfolding eligible_at
eligible_some pool name e = elim (Option-cases (lookup name pool)) [
  | inl l ↦ absurd (ground arith)
  | inr (s, l) ↦ (s, l, ground arith, ground arith)
]

-- A successful allocation in a valid manager chose a server of the fleet that was unallocated,
-- healthy and allowed, and takes that server. Every other server of any fleet is left alone.
pub allocate_with_filter_takes :
    (now : ℤ) (fleet : String) (strategy : AllocationStrategy) (allowed : Dict Bool)
    (pm : PoolManager) {name : String} {pm' : PoolManager}
    → IsValid pm
    → allocate_with_filter now fleet strategy allowed pm ≡ (ok name, pm')
    → (s : ServerPoolState) × (server_of pm fleet name ≡ some s)
      × (s.allocated ≡ false)
      × (s.healthy ≡ true)
      × Passes allowed name
      × ((g k : String)
          → server_of pm' g k ≡ (
              if str_eq fleet g && str_eq name k
              then some (take_server now s)
              else server_of pm g k))
allocate_with_filter_takes now fleet strategy allowed pm {name} {pm'} v e =
    elim (Option-cases (pool_of pm fleet)) [
      | inl p ↦ absurd (ground (arith, without_pool now fleet strategy allowed pm p, e))
      | inr (pool, p) ↦
          let (i, chosen, frame) =
            grant_ok now fleet pm _ (sym (with_pool now fleet strategy allowed pm pool p) ∙ e) in
          let (c, m, named) = choose_mem _ strategy _ chosen in
          let (n, passes) = restrict-mem allowed (collect_candidates pool) c m in
          let (s, found, free, healthy) = eligible_some pool name (
            subst (λ k. eligible_at pool k ≡ true) named
              (collect-eligible pool c (v fleet pool p).unique n)) in
          let here : server_of pm fleet name ≡ some s = ground (arith, p, found) in
          (
            s,
            here,
            free,
            healthy,
            subst (Passes allowed) named passes,
            λ g k.
                frame g k
                ∙ server_of-update_server pm fleet name g k (take_server now)
                ∙ ground (arith, eq_iff fleet g, eq_iff name k, here),
          )
    ]

-- A failed allocation changes nothing, and it fails only when the fleet has no server that is
-- unallocated, healthy and allowed.
pub allocate_with_filter_fails :
    (now : ℤ) (fleet : String) (strategy : AllocationStrategy) (allowed : Dict Bool)
    (pm : PoolManager) {r : PoolError} {pm' : PoolManager}
    → allocate_with_filter now fleet strategy allowed pm ≡ (err r, pm')
    → (pm' ≡ pm)
      × ((k : String) (s : ServerPoolState)
          → server_of pm fleet k ≡ some s
          → is_eligible s ≡ true
          → ¬ Passes allowed k)
allocate_with_filter_fails now fleet strategy allowed pm {r} {pm'} e =
    elim (Option-cases (pool_of pm fleet)) [
      | inl p ↦ (
        sym (ap (λ r. r.1) (sym (without_pool now fleet strategy allowed pm p) ∙ e)),
        λ k s found ok_server passes. ground (arith, p, found),
      )
      | inr (pool, p) ↦
          let (nothing, same) =
            grant_err now fleet pm _ (sym (with_pool now fleet strategy allowed pm pool p) ∙ e) in
          (
            same,
            λ k s found eligible passes.
                let here : lookup k pool ≡ some s = ground (arith, p, found) in
                let cs = collect_candidates pool in
                choose_total (restrict allowed cs) strategy _ (candidate k s)
                  (λ c m. collect_unallocated pool c (restrict-mem allowed cs c m).0)
                  (mem-restrict allowed cs (candidate k s) (collect-mem pool k s here eligible)
                    passes)
                  nothing,
          )
    ]
