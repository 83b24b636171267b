-- ===== src/Pool/Allocation/Exclusive.antt =====
-- A server stays with whoever allocated it until a call gives it back.
use game_server_orchestrator.Prelude.{
  String, ◌≡◌, ◌≢◌, ◌⊎◌, Bool, true, false, ◌&&◌, Option, none, some, List, [], ◌∷◌, All, arith,
  subst, refl, sym, ap, ◌∙◌, ℕ, inl, inr, Bool-cases, Option-cases,
}
use mathlib.Core.Bool.{false≢true}
use game_server_orchestrator.Prelude.Int.{ℤ}
use game_server_orchestrator.Prelude.Text.{str_eq, eq_iff}
use game_server_orchestrator.Prelude.Dict.{Dict}
use game_server_orchestrator.Prelude.Result.{ok}
use game_server_orchestrator.V1alpha1.Policy.{AllocationStrategy}
use game_server_orchestrator.Pool.State.{
  PoolManager, ServerPoolState, pool_of, server_of, update_server, ensure_fleet, take_server,
  release_server, free_server, sicken, update_fleet_config, release, mark_allocated, mark_available,
  mark_unhealthy, allocate_with_filter, allocate, grant,
}
use game_server_orchestrator.Pool.Calls.{
  Call, update_fleet_configs, registers, allocates, allocates_with_filter, releases,
  marks_allocated, marks_available, marks_unhealthy, removes, step, run,
}
use game_server_orchestrator.Pool.Frame.{
  server_of-update_server, server_of-ensure_fleet, server_of-register, server_of-remove_ne,
}
use game_server_orchestrator.Pool.Invariant.{IsValid, step-IsValid, run-IsValid}
use game_server_orchestrator.Pool.Allocation.Outcome.{allocate_with_filter_takes}

-- The calls that give a server back, or drop it.
abbrev pub frees : String → String → Call → Bool
frees fleet name (releases g k) = str_eq g fleet && str_eq k name
frees fleet name (marks_available g k) = str_eq g fleet && str_eq k name
frees fleet name (removes g k) = str_eq g fleet && str_eq k name
frees fleet name c = false

-- The server is allocated.
abbrev pub Held : PoolManager → String → String → Type 0
Held pm fleet name =
    (s : ServerPoolState) × (server_of pm fleet name ≡ some s) × (s.allocated ≡ true)

-- A write keeps a server allocated if it is to another server, or itself keeps that.
update-Held :
    (pm : PoolManager) (g k fleet name : String) (f : ServerPoolState → ServerPoolState)
    → ((s : ServerPoolState) → s.allocated ≡ true → (f s).allocated ≡ true)
      ⊎ ((str_eq g fleet && str_eq k name) ≡ false)
    → Held pm fleet name
    → Held (update_server pm g k f) fleet name
update-Held pm g k fleet name f how (s, here, held) =
    let frame = server_of-update_server pm g k fleet name f in
    elim (Bool-cases (str_eq g fleet && str_eq k name)) [
      | inr other ↦ (s, ground (arith, frame, other, here), held)
      | inl this ↦ elim how [
        | inl keep ↦ (f s, ground (arith, frame, this, here), keep s held)
        | inr other ↦ absurd (cc)
      ]
    ]

ensure-Held :
    (pm : PoolManager) (g fleet name : String)
    → Held pm fleet name
    → Held (ensure_fleet pm g) fleet name
ensure-Held pm g fleet name (s, here, held) =
    (s, server_of-ensure_fleet pm g fleet name ∙ here, held)

grant-Held :
    (now : ℤ) (g : String) (pm : PoolManager) (chosen : Option (String × Option ℕ))
    (fleet name : String)
    → Held pm fleet name
    → Held (grant now g pm chosen).1 fleet name
unfolding grant take_server
grant-Held now g pm none fleet name h = h
grant-Held now g pm (some (n, i)) fleet name h =
    update-Held pm g n fleet name (take_server now) (inl (λ s e. refl)) h

allocate_with_filter-Held :
    (now : ℤ) (g : String) (strategy : AllocationStrategy) (allowed : Dict Bool) (pm : PoolManager)
    (fleet name : String)
    → Held pm fleet name
    → Held (allocate_with_filter now g strategy allowed pm).1 fleet name
unfolding allocate_with_filter
allocate_with_filter-Held now g strategy allowed pm fleet name h =
    elim (Option-cases (pool_of pm g)) [
      | inl e ↦ rw (e, allocate_with_filter) h
      | inr (pool, e) ↦ rw (e, allocate_with_filter) (grant-Held now g pm _ fleet name h)
    ]

allocate-Held :
    (now : ℤ) (g : String) (strategy : AllocationStrategy) (pm : PoolManager) (fleet name : String)
    → Held pm fleet name
    → Held (allocate now g strategy pm).1 fleet name
unfolding allocate
allocate-Held now g strategy pm fleet name h = elim (Option-cases (pool_of pm g)) [
  | inl e ↦ rw (e, allocate) h
  | inr (pool, e) ↦ rw (e, allocate) (grant-Held now g pm _ fleet name h)
]

-- Every call that does not give the server back keeps it allocated.
pub step-Held :
    (now : ℤ) (c : Call) (pm : PoolManager) (fleet name : String)
    → frees fleet name c ≡ false
    → Held pm fleet name
    → Held (step now c pm) fleet name
unfolding step release release_server mark_allocated take_server mark_available free_server
    mark_unhealthy sicken update_fleet_config
step-Held now (update_fleet_configs g cfg) pm fleet name free h = h
step-Held now (registers g k) pm fleet name free (s, here, held) =
    (s, server_of-register now pm g k fleet name ∙ ground (arith, here), held)
step-Held now (allocates g strategy) pm fleet name free h =
    allocate-Held now g strategy pm fleet name h
step-Held now (allocates_with_filter g strategy allowed) pm fleet name free h =
    allocate_with_filter-Held now g strategy allowed pm fleet name h
step-Held now (releases g k) pm fleet name free h =
    update-Held pm g k fleet name (release_server now) (inr free) h
step-Held now (marks_allocated g k) pm fleet name free h =
    update-Held (ensure_fleet pm g) g k fleet name (take_server now) (inl (λ s e. refl))
      (ensure-Held pm g fleet name h)
step-Held now (marks_available g k) pm fleet name free h =
    update-Held (ensure_fleet pm g) g k fleet name (free_server now) (inr free)
      (ensure-Held pm g fleet name h)
step-Held now (marks_unhealthy g k) pm fleet name free h =
    update-Held (ensure_fleet pm g) g k fleet name sicken (inl (λ s e. e))
      (ensure-Held pm g fleet name h)
step-Held now (removes g k) pm fleet name free (s, here, held) =
    (s, server_of-remove_ne pm g k fleet name free ∙ here, held)

run-Held :
    (calls : List (ℤ × Call)) (pm : PoolManager) (fleet name : String)
    → All (λ c. frees fleet name c.1 ≡ false) calls
    → Held pm fleet name
    → Held (run calls pm) fleet name
unfolding run
run-Held [] pm fleet name free h = h
run-Held ((now, c) ∷ calls) pm fleet name free h =
    run-Held calls (step now c pm) fleet name free.1 (step-Held now c pm fleet name free.0 h)

-- A server that an allocation in a valid manager handed out is not handed out again by a later
-- one, whatever calls come between that do not release it, mark it as available or remove it.
pub no_double_allocation :
    (now later : ℤ) (fleet : String) (strategy strategy' : AllocationStrategy)
    (allowed allowed' : Dict Bool) (calls : List (ℤ × Call)) (pm : PoolManager)
    {name name' : String} {pm' pm'' : PoolManager}
    → IsValid pm
    → allocate_with_filter now fleet strategy allowed pm ≡ (ok name, pm')
    → All (λ c. frees fleet name c.1 ≡ false) calls
    → allocate_with_filter later fleet strategy' allowed' (run calls pm') ≡ (ok name', pm'')
    → name' ≢ name
unfolding take_server
no_double_allocation now later fleet strategy strategy' allowed allowed' calls pm {name} {name'}
      {pm'} v e free f same =
    let (s, _, _, _, _, after) = allocate_with_filter_takes now fleet strategy allowed pm v e in
    let held : Held pm' fleet name = (
      take_server now s,
      after fleet name ∙ ground (arith, eq_iff fleet fleet, eq_iff name name),
      refl,
    ) in
    let valid : IsValid pm' =
      unfold step in
      subst IsValid (ap (λ r. r.1) e)
        (step-IsValid now (allocates_with_filter fleet strategy allowed) pm v) in
    let (t, here, taken) = run-Held calls pm' fleet name free held in
    let (u, there, untaken, _, _, _) =
      allocate_with_filter_takes later fleet strategy' allowed' (run calls pm')
        (run-IsValid calls pm' valid) f in
    let two : some t ≡ some u =
      sym here ∙ subst (λ n. server_of (run calls pm') fleet n ≡ some u) same there in
    false≢true (ground (arith, two, taken, untaken))
