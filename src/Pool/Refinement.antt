-- ===== src/Pool/Refinement.antt =====
-- The methods of the manager against the specification of Pool/Abstract.
use mathlib.Core.Option
use mathlib.Core.Path.{ap₂}
use game_server_orchestrator.Prelude.{
  String, ◌≡◌, inl, inr, refl, sym, ap, ◌∙◌, subst, Bool, true, false, ◌&&◌, Option, none, some, [],
  arith, Option-cases, Bool-cases, if◌then◌else◌,
}
use game_server_orchestrator.Prelude.Int.{ℤ}
use game_server_orchestrator.Prelude.Text.{str_eq, eq_iff}
use game_server_orchestrator.Prelude.Dict.{Dict, erase, lookup-insert, lookup-erase_self}
use game_server_orchestrator.Prelude.Result.{Result-cases}
use game_server_orchestrator.V1alpha1.Policy.{AllocationStrategy}
use game_server_orchestrator.Pool.State.{
  PoolManager, ServerPoolState, server_of, pool_of, ensure_fleet, update_server, fresh_server,
  take_server, release_server, free_server, sicken, update_fleet_config, allocate,
  allocate_with_filter, restrict, release, mark_allocated, mark_available, mark_unhealthy, remove,
  is_eligible,
}
use game_server_orchestrator.Pool.Calls.{
  Call, update_fleet_configs, registers, allocates, allocates_with_filter, releases,
  marks_allocated, marks_available, marks_unhealthy, removes, step,
}
use game_server_orchestrator.Pool.Frame.{
  server_of-update_server, server_of-ensure_fleet, server_of-register, server_of-remove_ne,
}
use game_server_orchestrator.Pool.Invariant.{IsValid}
use game_server_orchestrator.Pool.Allocation.Outcome.{
  allocate_with_filter_takes, allocate_with_filter_fails,
}
use game_server_orchestrator.Pool.Abstract.{flags, view, free, Writes, Allocates, Specifies}

-- A write of a server's record, seen from outside.
flags-map :
    (f : ServerPoolState → ServerPoolState) (h : Bool × Bool → Bool × Bool)
    → ((s : ServerPoolState) → ((f s).allocated, (f s).healthy) ≡ h (s.allocated, s.healthy))
    → (b : Bool) (o : Option ServerPoolState)
    → flags (if b then Option.map f o else o) ≡ (if b then Option.map h (flags o) else flags o)
flags-map f h e true none = refl
flags-map f h e true (some s) = ap some (e s)
flags-map f h e false o = refl

view-update :
    (pm : PoolManager) (fleet name : String) (f : ServerPoolState → ServerPoolState)
    (h : Bool × Bool → Bool × Bool)
    → ((s : ServerPoolState) → ((f s).allocated, (f s).healthy) ≡ h (s.allocated, s.healthy))
    → Writes fleet name (Option.map h) (view pm) (view (update_server pm fleet name f))
view-update pm fleet name f h e g k =
    ap flags (server_of-update_server pm fleet name g k f)
    ∙ flags-map f h e (str_eq fleet g && str_eq name k) (server_of pm g k)

view-update-ensure :
    (pm : PoolManager) (fleet name : String) (f : ServerPoolState → ServerPoolState)
    (h : Bool × Bool → Bool × Bool)
    → ((s : ServerPoolState) → ((f s).allocated, (f s).healthy) ≡ h (s.allocated, s.healthy))
    → Writes fleet name
        (Option.map h)
        (view pm)
        (view (update_server (ensure_fleet pm fleet) fleet name f))
view-update-ensure pm fleet name f h e g k =
    view-update (ensure_fleet pm fleet) fleet name f h e g k
    ∙ ap (λ o. if str_eq fleet g && str_eq name k then Option.map h (flags o) else flags o)
        (server_of-ensure_fleet pm fleet g k)

allocate_eq :
    (now : ℤ) (fleet : String) (strategy : AllocationStrategy) (pm : PoolManager)
    → allocate now fleet strategy pm ≡ allocate_with_filter now fleet strategy [] pm
unfolding allocate allocate_with_filter restrict
allocate_eq now fleet strategy pm = refl

-- A free server, as the pool holds it.
free-some :
    (o : Option ServerPoolState)
    → flags o ≡ free
    → (s : ServerPoolState) × (o ≡ some s) × (is_eligible s ≡ true)
free-some none e = absurd (cc e)
free-some (some s) e = (s, refl, ground (arith, e))

flags-taken :
    (b : Bool) (t : ServerPoolState) (o : Option ServerPoolState)
    → t.allocated ≡ true
    → t.healthy ≡ true
    → flags (if b then some t else o) ≡ (if b then some (true, true) else flags o)
flags-taken true t o a h = ap₂ (λ a h. some (a, h)) a h
flags-taken false t o a h = refl

flags-registered :
    (now : ℤ) (name : String) (b : Bool) (o : Option ServerPoolState)
    → flags (if b then elim o [ none ↦ some (fresh_server now name) | some s ↦ some s ] else o)
      ≡ (if b then elim (flags o) [ none ↦ free | some s ↦ some s ] else flags o)
flags-registered now name true none = refl
flags-registered now name true (some s) = refl
flags-registered now name false o = refl

allocate_with_filter-Allocates :
    (now : ℤ) (fleet : String) (strategy : AllocationStrategy) (allowed : Dict Bool)
    (pm : PoolManager)
    → IsValid pm
    → Allocates fleet allowed
        (view pm)
        (view (allocate_with_filter now fleet strategy allowed pm).1)
unfolding take_server
allocate_with_filter-Allocates now fleet strategy allowed pm v =
    let (r, pm') = allocate_with_filter now fleet strategy allowed pm in
    elim (Result-cases r) [
      | inl (name, took) ↦
          let (s, here, untaken, healthy, passes, frame) =
            allocate_with_filter_takes now fleet strategy allowed pm v (ap (λ c. (c, pm')) took) in
          inl (
            name,
            ap flags here ∙ ap₂ (λ a h. some (a, h)) untaken healthy,
            passes,
            λ g k.
                ap flags (frame g k)
                ∙ flags-taken (str_eq fleet g && str_eq name k) (take_server now s)
                    (server_of pm g k) refl healthy,
          )
      | inr (why, nothing) ↦
          let (same, none_free) =
            allocate_with_filter_fails now fleet strategy allowed pm (ap (λ c. (c, pm')) nothing) in
          inr (
            λ g k. ap (λ m. view m g k) same,
            λ k e.
                let (s, here, eligible) = free-some (server_of pm fleet k) e in
                none_free k s here eligible,
          )
    ]

server_of-remove_self :
    (fleet name : String) (pm : PoolManager)
    → IsValid pm
    → server_of (remove fleet name pm) fleet name ≡ none
unfolding remove
server_of-remove_self fleet name pm v = elim (Option-cases (pool_of pm fleet)) [
  | inl e ↦ rw (e, remove) (ground (arith, e))
  | inr (pool, e) ↦
      rw (e, remove)
        (ground (
          arith,
          eq_iff fleet fleet,
          lookup-insert fleet fleet (erase name pool) pm.pools,
          lookup-erase_self name pool (v fleet pool e).unique,
        ))
]

remove-Writes :
    (fleet name : String) (pm : PoolManager)
    → IsValid pm
    → Writes fleet name (λ o. none) (view pm) (view (remove fleet name pm))
remove-Writes fleet name pm v g k = elim (Bool-cases (str_eq fleet g && str_eq name k)) [
  | inl this ↦ rw this (
      ground (
        arith,
        this,
        eq_iff fleet g,
        eq_iff name k,
        ap flags (server_of-remove_self fleet name pm v),
      ))
  | inr other ↦ rw other (ap flags (server_of-remove_ne pm fleet name g k other))
]

-- Every method of a valid manager does to the servers' states, as callers see them, exactly what the
-- specification of its call says; the allocations take some free server that passes their filter,
-- and change nothing only if there is none.
pub step-Specifies :
    (now : ℤ) (c : Call) (pm : PoolManager)
    → IsValid pm
    → Specifies c (view pm) (view (step now c pm))
unfolding step update_fleet_config release release_server mark_allocated take_server mark_available
    free_server mark_unhealthy sicken
step-Specifies now (update_fleet_configs g cfg) pm v = λ f k. refl
step-Specifies now (registers g k) pm v = λ f j.
    ap flags (server_of-register now pm g k f j)
    ∙ flags-registered now k (str_eq g f && str_eq k j) (server_of pm f j)
step-Specifies now (allocates g strategy) pm v =
    subst (λ r. Allocates g [] (view pm) (view r.1)) (sym (allocate_eq now g strategy pm))
      (allocate_with_filter-Allocates now g strategy [] pm v)
step-Specifies now (allocates_with_filter g strategy allowed) pm v =
    allocate_with_filter-Allocates now g strategy allowed pm v
step-Specifies now (releases g k) pm v =
    view-update pm g k (release_server now) (λ s. (false, s.1)) (λ s. refl)
step-Specifies now (marks_allocated g k) pm v =
    view-update-ensure pm g k (take_server now) (λ s. (true, s.1)) (λ s. refl)
step-Specifies now (marks_available g k) pm v =
    view-update-ensure pm g k (free_server now) (λ s. (false, true)) (λ s. refl)
step-Specifies now (marks_unhealthy g k) pm v =
    view-update-ensure pm g k sicken (λ s. (s.0, false)) (λ s. refl)
step-Specifies now (removes g k) pm v = remove-Writes g k pm v
