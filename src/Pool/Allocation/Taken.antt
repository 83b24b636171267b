-- ===== src/Pool/Allocation/Taken.antt =====
-- The servers of one name in all fleets, as far as they are allocated.
use game_server_orchestrator.Prelude.{
  String, ℕ, ◌≡◌, refl, sym, ◌∙◌, subst, Bool, true, false, ◌&&◌, Option, none, some, arith, inl,
  inr, Bool-cases, Option-cases,
}
use game_server_orchestrator.Prelude.Int.{ℤ}
use game_server_orchestrator.Prelude.Text.{str_eq}
use game_server_orchestrator.Prelude.Dict.{Dict}
use game_server_orchestrator.V1alpha1.Policy.{AllocationStrategy}
use game_server_orchestrator.Pool.State.{
  PoolManager, ServerPoolState, pool_of, server_of, update_server, ensure_fleet, take_server,
  release_server, free_server, sicken, update_fleet_config, register, release, mark_allocated,
  mark_available, mark_unhealthy, allocate_with_filter, allocate, grant,
}
use game_server_orchestrator.Pool.Calls.{
  Call, update_fleet_configs, registers, allocates, allocates_with_filter, releases,
  marks_allocated, marks_available, marks_unhealthy, removes, step,
}
use game_server_orchestrator.Pool.Frame.{
  server_of-update_server, server_of-ensure_fleet, server_of-register, server_of-remove_ne,
}

-- No fleet has an unallocated server of that name.
abbrev pub Taken : String → PoolManager → Type 0
Taken name pm =
    (g : String) (s : ServerPoolState) → server_of pm g name ≡ some s → s.allocated ≡ true

-- The calls that may leave an unallocated server of that name, or drop one.
abbrev pub offers : String → Call → Bool
offers name (registers g k) = str_eq k name
offers name (releases g k) = str_eq k name
offers name (marks_available g k) = str_eq k name
offers name (removes g k) = str_eq k name
offers name c = false

update-Taken :
    (pm : PoolManager) (g k name : String) (f : ServerPoolState → ServerPoolState)
    → ((s : ServerPoolState) → s.allocated ≡ true → (f s).allocated ≡ true)
    → Taken name pm
    → Taken name (update_server pm g k f)
update-Taken pm g k name f keep t h s e =
    let frame = server_of-update_server pm g k h name f in
    elim (Bool-cases (str_eq g h && str_eq k name)) [
      | inr other ↦ t h s (ground (arith, frame, other, e))
      | inl this ↦ elim (Option-cases (server_of pm h name)) [
        | inl gone ↦ absurd (ground (arith, frame, this, gone, e))
        | inr (s₀, here) ↦
            let changed : f s₀ ≡ s = ground (arith, frame, this, here, e) in
            subst (λ x. x.allocated ≡ true) changed (keep s₀ (t h s₀ here))
      ]
    ]

update-Taken_ne :
    (pm : PoolManager) (g k name : String) (f : ServerPoolState → ServerPoolState)
    → str_eq k name ≡ false
    → Taken name pm
    → Taken name (update_server pm g k f)
update-Taken_ne pm g k name f other t h s e =
    t h s (ground (arith, server_of-update_server pm g k h name f, other, e))

ensure-Taken : (pm : PoolManager) (g name : String) → Taken name pm → Taken name (ensure_fleet pm g)
ensure-Taken pm g name t h s e = t h s (sym (server_of-ensure_fleet pm g h name) ∙ e)

grant-Taken :
    (now : ℤ) (g : String) (pm : PoolManager) (chosen : Option (String × Option ℕ)) (name : String)
    → Taken name pm
    → Taken name (grant now g pm chosen).1
unfolding grant take_server
grant-Taken now g pm none name t = t
grant-Taken now g pm (some (n, i)) name t =
    update-Taken pm g n name (take_server now) (λ s e. refl) t

allocate_with_filter-Taken :
    (now : ℤ) (g : String) (strategy : AllocationStrategy) (allowed : Dict Bool) (pm : PoolManager)
    (name : String)
    → Taken name pm
    → Taken name (allocate_with_filter now g strategy allowed pm).1
unfolding allocate_with_filter
allocate_with_filter-Taken now g strategy allowed pm name t = elim (Option-cases (pool_of pm g)) [
  | inl e ↦ rw (e, allocate_with_filter) t
  | inr (pool, e) ↦ rw (e, allocate_with_filter) (grant-Taken now g pm _ name t)
]

allocate-Taken :
    (now : ℤ) (g : String) (strategy : AllocationStrategy) (pm : PoolManager) (name : String)
    → Taken name pm
    → Taken name (allocate now g strategy pm).1
unfolding allocate
allocate-Taken now g strategy pm name t = elim (Option-cases (pool_of pm g)) [
  | inl e ↦ rw (e, allocate) t
  | inr (pool, e) ↦ rw (e, allocate) (grant-Taken now g pm _ name t)
]

-- Every other call leaves none either.
pub step-Taken :
    (now : ℤ) (c : Call) (pm : PoolManager) (name : String)
    → offers name c ≡ false
    → Taken name pm
    → Taken name (step now c pm)
unfolding step release release_server mark_allocated take_server mark_available free_server
    mark_unhealthy sicken update_fleet_config
step-Taken now (update_fleet_configs g cfg) pm name other t = t
step-Taken now (registers g k) pm name other t =
    λ h s e. t h s (ground (arith, server_of-register now pm g k h name, other, e))
step-Taken now (allocates g strategy) pm name other t = allocate-Taken now g strategy pm name t
step-Taken now (allocates_with_filter g strategy allowed) pm name other t =
    allocate_with_filter-Taken now g strategy allowed pm name t
step-Taken now (releases g k) pm name other t =
    update-Taken_ne pm g k name (release_server now) other t
step-Taken now (marks_allocated g k) pm name other t =
    update-Taken (ensure_fleet pm g) g k name (take_server now) (λ s e. refl)
      (ensure-Taken pm g name t)
step-Taken now (marks_available g k) pm name other t =
    update-Taken_ne (ensure_fleet pm g) g k name (free_server now) other (ensure-Taken pm g name t)
step-Taken now (marks_unhealthy g k) pm name other t =
    update-Taken (ensure_fleet pm g) g k name sicken (λ s e. e) (ensure-Taken pm g name t)
step-Taken now (removes g k) pm name other t =
    λ h s e. t h s (sym (server_of-remove_ne pm g k h name (ground (arith, other))) ∙ e)

-- A server that is registered and at once marked as allocated, as a sync does it, leaves none.
pub register-Taken :
    (now : ℤ) (g k : String) (pm : PoolManager) (name : String)
    → Taken name pm
    → Taken name (mark_allocated now g k (register now g k pm))
unfolding mark_allocated take_server
register-Taken now g k pm name t h s e =
    let pm' = register now g k pm in
    let frame = server_of-update_server (ensure_fleet pm' g) g k h name (take_server now) in
    let same = server_of-ensure_fleet pm' g h name in
    let before = server_of-register now pm g k h name in
    elim (Bool-cases (str_eq g h && str_eq k name)) [
      | inr other ↦ t h s (ground (arith, frame, same, before, other, e))
      | inl this ↦ elim (Option-cases (server_of pm' h name)) [
        | inl gone ↦ absurd (ground (arith, frame, same, this, gone, e))
        | inr (s₀, here) ↦
            let changed : take_server now s₀ ≡ s = ground (arith, frame, same, this, here, e) in
            subst (λ x. x.allocated ≡ true) changed refl
      ]
    ]
