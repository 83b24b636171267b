-- ===== src/Pool/Invariant.antt =====
-- The manager's well-formedness: a pool lists no name twice, and each state carries its key.
use game_server_orchestrator.Prelude.{
  String, ℕ, Bool, ap, ◌≡◌, refl, ◌∙◌, subst, Option, none, some, List, [], ◌∷◌, arith, inl, inr,
  Option-cases, Bool-cases,
}
use game_server_orchestrator.Prelude.Int.{ℤ}
use game_server_orchestrator.Prelude.Text.{str_eq, eq_iff}
use game_server_orchestrator.Prelude.Dict.{
  Dict, lookup, insert, erase, get_or, lookup-erase_self, lookup-erase_ne, IsUnique, lookup-insert,
  insert-IsUnique, erase-IsUnique,
}
use game_server_orchestrator.Pool.State.{
  PoolManager, ServerPool, ServerPoolState, pool_of, ensure_fleet, update_in, update_server,
  register_in, register, fresh_server, remove, new_pool_manager, grant, allocate_with_filter,
  allocate, take_server, release, release_server, mark_allocated, mark_available, free_server,
  mark_unhealthy, sicken, update_fleet_config,
}
use game_server_orchestrator.Pool.Calls.{
  Call, update_fleet_configs, registers, allocates, allocates_with_filter, releases,
  marks_allocated, marks_available, marks_unhealthy, removes, step, run,
}
use game_server_orchestrator.V1alpha1.Policy.{AllocationStrategy}

-- What a pool has to satisfy.
pub record IsPool (pool : ServerPool) : Type 0 where
  pub unique : IsUnique pool
  pub named : (k : String) (s : ServerPoolState) → lookup k pool ≡ some s → s.name ≡ k

abbrev pub IsValid : PoolManager → Type 0
IsValid pm = (fleet : String) (pool : ServerPool) → pool_of pm fleet ≡ some pool → IsPool pool

empty-IsPool : IsPool []
unfolding lookup
empty-IsPool = record { unique = tt; named = λ k s e. cc }

-- Writing a state of the key's own name keeps a pool well formed.
insert-IsPool :
    (k : String) (s : ServerPoolState) (pool : ServerPool)
    → s.name ≡ k
    → IsPool pool
    → IsPool (insert k s pool)
insert-IsPool k s pool n p = record {
  unique = insert-IsUnique k s pool p.unique;
  named = λ j t e. ground (arith, lookup-insert k j s pool, p.named j t, eq_iff k j);
}

-- Replacing one fleet's pool by a well-formed one keeps the manager valid.
insert-IsValid :
    (pm : PoolManager) (fleet : String) (pool : ServerPool)
    → IsPool pool
    → IsValid pm
    → IsValid (record pm { pools = insert fleet pool pm.pools })
insert-IsValid pm fleet pool p v g q e = elim (Bool-cases (str_eq fleet g)) [
  | inl same ↦
      let eq : pool ≡ q = ground (arith, lookup-insert fleet g pool pm.pools) in subst IsPool eq p
  | inr other ↦ v g q (ground (arith, lookup-insert fleet g pool pm.pools))
]

pub new_pool_manager-IsValid : IsValid new_pool_manager
unfolding lookup
new_pool_manager-IsValid fleet pool e = cc

ensure_fleet-IsValid :
    (pm : PoolManager) (fleet : String) → IsValid pm → IsValid (ensure_fleet pm fleet)
unfolding ensure_fleet
ensure_fleet-IsValid pm fleet v = elim (Option-cases (pool_of pm fleet)) [
  | inl e ↦ rw (e, ensure_fleet) (insert-IsValid pm fleet [] empty-IsPool v)
  | inr (pool, e) ↦ rw (e, ensure_fleet) v
]

update_in-IsPool :
    (name : String) (f : ServerPoolState → ServerPoolState) (pool : ServerPool)
    → ((s : ServerPoolState) → (f s).name ≡ s.name)
    → IsPool pool
    → IsPool (update_in name f pool)
unfolding update_in
update_in-IsPool name f pool same p = elim (Option-cases (lookup name pool)) [
  | inl e ↦ rw (e, update_in) p
  | inr (s, e) ↦ rw (e, update_in) (insert-IsPool name (f s) pool (same s ∙ p.named name s e) p)
]

update_server-IsValid :
    (pm : PoolManager) (fleet name : String) (f : ServerPoolState → ServerPoolState)
    → ((s : ServerPoolState) → (f s).name ≡ s.name)
    → IsValid pm
    → IsValid (update_server pm fleet name f)
unfolding update_server
update_server-IsValid pm fleet name f same v = elim (Option-cases (pool_of pm fleet)) [
  | inl e ↦ rw (e, update_server) v
  | inr (pool, e) ↦
      rw (e, update_server)
        (insert-IsValid pm fleet (update_in name f pool)
          (update_in-IsPool name f pool same (v fleet pool e)) v)
]

register_in-IsPool :
    (now : ℤ) (name : String) (pool : ServerPool) → IsPool pool → IsPool (register_in now name pool)
unfolding register_in
register_in-IsPool now name pool p = elim (Option-cases (lookup name pool)) [
  | inl e ↦ rw (e, register_in) (insert-IsPool name (fresh_server now name) pool refl p)
  | inr (s, e) ↦ rw (e, register_in) p
]

get_or-IsPool : (pm : PoolManager) (fleet : String) → IsValid pm → IsPool (get_or [] fleet pm.pools)
get_or-IsPool pm fleet v = elim (Option-cases (pool_of pm fleet)) [
  | inl e ↦ rw (e, get_or) empty-IsPool
  | inr (pool, e) ↦ rw (e, get_or) (v fleet pool e)
]

register-IsValid :
    (now : ℤ) (fleet name : String) (pm : PoolManager)
    → IsValid pm
    → IsValid (register now fleet name pm)
unfolding register
register-IsValid now fleet name pm v =
    let ensured = ensure_fleet-IsValid pm fleet v in
    insert-IsValid (ensure_fleet pm fleet) fleet _
      (register_in-IsPool now name _ (get_or-IsPool (ensure_fleet pm fleet) fleet ensured)) ensured

erase-IsPool : (name : String) (pool : ServerPool) → IsPool pool → IsPool (erase name pool)
erase-IsPool name pool p = record {
  unique = erase-IsUnique name pool p.unique;
  named = λ k s e. elim (Bool-cases (str_eq name k)) [
    | inl same ↦ absurd (
        cc (
          lookup-erase_self name pool p.unique,
          ap (λ n. lookup n (erase name pool)) ((eq_iff name k).0 same),
          e,
        ))
    | inr other ↦ p.named k s (ground (arith, lookup-erase_ne name k pool, eq_iff name k, e))
  ];
}

remove-IsValid :
    (fleet name : String) (pm : PoolManager) → IsValid pm → IsValid (remove fleet name pm)
unfolding remove
remove-IsValid fleet name pm v = elim (Option-cases (pool_of pm fleet)) [
  | inl e ↦ rw (e, remove) v
  | inr (pool, e) ↦
      rw (e, remove)
        (insert-IsValid pm fleet (erase name pool) (erase-IsPool name pool (v fleet pool e)) v)
]

grant-IsValid :
    (now : ℤ) (fleet : String) (pm : PoolManager) (chosen : Option (String × Option ℕ))
    → IsValid pm
    → IsValid (grant now fleet pm chosen).1
unfolding grant take_server
grant-IsValid now fleet pm none v = v
grant-IsValid now fleet pm (some (name, i)) v =
    update_server-IsValid pm fleet name (take_server now) (λ s. refl) v

allocate-IsValid :
    (now : ℤ) (fleet : String) (strategy : AllocationStrategy) (pm : PoolManager)
    → IsValid pm
    → IsValid (allocate now fleet strategy pm).1
unfolding allocate
allocate-IsValid now fleet strategy pm v = elim (Option-cases (pool_of pm fleet)) [
  | inl e ↦ rw (e, allocate) v
  | inr (pool, e) ↦ rw (e, allocate) (grant-IsValid now fleet pm _ v)
]

allocate_with_filter-IsValid :
    (now : ℤ) (fleet : String) (strategy : AllocationStrategy) (allowed : Dict Bool)
    (pm : PoolManager)
    → IsValid pm
    → IsValid (allocate_with_filter now fleet strategy allowed pm).1
unfolding allocate_with_filter
allocate_with_filter-IsValid now fleet strategy allowed pm v =
    elim (Option-cases (pool_of pm fleet)) [
      | inl e ↦ rw (e, allocate_with_filter) v
      | inr (pool, e) ↦ rw (e, allocate_with_filter) (grant-IsValid now fleet pm _ v)
    ]

-- Every method keeps the manager valid.
pub step-IsValid : (now : ℤ) (c : Call) (pm : PoolManager) → IsValid pm → IsValid (step now c pm)
unfolding step release release_server mark_allocated take_server mark_available free_server
    mark_unhealthy sicken update_fleet_config
step-IsValid now (update_fleet_configs fleet cfg) pm v = v
step-IsValid now (registers fleet name) pm v = register-IsValid now fleet name pm v
step-IsValid now (allocates fleet strategy) pm v = allocate-IsValid now fleet strategy pm v
step-IsValid now (allocates_with_filter fleet strategy allowed) pm v =
    allocate_with_filter-IsValid now fleet strategy allowed pm v
step-IsValid now (releases fleet name) pm v = update_server-IsValid pm fleet name _ (λ s. refl) v
step-IsValid now (marks_allocated fleet name) pm v =
    update_server-IsValid _ fleet name _ (λ s. refl) (ensure_fleet-IsValid pm fleet v)
step-IsValid now (marks_available fleet name) pm v =
    update_server-IsValid _ fleet name _ (λ s. refl) (ensure_fleet-IsValid pm fleet v)
step-IsValid now (marks_unhealthy fleet name) pm v =
    update_server-IsValid _ fleet name _ (λ s. refl) (ensure_fleet-IsValid pm fleet v)
step-IsValid now (removes fleet name) pm v = remove-IsValid fleet name pm v

pub run-IsValid : (calls : List (ℤ × Call)) (pm : PoolManager) → IsValid pm → IsValid (run calls pm)
unfolding run
run-IsValid [] pm v = v
run-IsValid ((now, c) ∷ calls) pm v = run-IsValid calls (step now c pm) (step-IsValid now c pm v)

-- Whatever is called in whatever order on a new manager, its pools list no server twice and file
-- each server under its own name.
pub run-new-IsValid : (calls : List (ℤ × Call)) → IsValid (run calls new_pool_manager)
run-new-IsValid calls = run-IsValid calls new_pool_manager new_pool_manager-IsValid
