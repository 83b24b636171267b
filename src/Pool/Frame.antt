-- ===== src/Pool/Frame.antt =====
-- What each change of the manager does to each server of each fleet: one equation per method.
use mathlib.Core.Option
use game_server_orchestrator.Prelude.{
  String, ◌≡◌, refl, false, ◌&&◌, none, some, [], arith, inl, inr, Option-cases, if◌then◌else◌,
}
use game_server_orchestrator.Prelude.Int.{ℤ}
use game_server_orchestrator.Prelude.Text.{str_eq, eq_iff}
use game_server_orchestrator.Prelude.Dict.{lookup, erase, get_or, lookup-insert, lookup-erase_ne}
use game_server_orchestrator.Pool.State.{
  PoolManager, ServerPool, ServerPoolState, pool_of, server_of, ensure_fleet, update_in,
  update_server, register_in, register, fresh_server, remove,
}

lookup-update_in :
    (name k : String) (f : ServerPoolState → ServerPoolState) (pool : ServerPool)
    → lookup k (update_in name f pool)
      ≡ (if str_eq name k then Option.map f (lookup k pool) else lookup k pool)
unfolding update_in
lookup-update_in name k f pool = elim (Option-cases (lookup name pool)) [
  | inl e ↦ ground (arith, e, eq_iff name k)
  | inr (s, e) ↦
      rw (e, update_in) (ground (arith, e, eq_iff name k, lookup-insert name k (f s) pool))
]

-- A write to one server of one fleet changes that server alone.
pub server_of-update_server :
    (pm : PoolManager) (fleet name g k : String) (f : ServerPoolState → ServerPoolState)
    → server_of (update_server pm fleet name f) g k ≡ (
        if str_eq fleet g && str_eq name k
        then Option.map f (server_of pm g k)
        else server_of pm g k)
unfolding update_server
server_of-update_server pm fleet name g k f = elim (Option-cases (pool_of pm fleet)) [
  | inl e ↦ ground (arith, e, eq_iff fleet g)
  | inr (pool, e) ↦
      rw (e, update_server)
        (ground (
          arith,
          e,
          eq_iff fleet g,
          lookup-insert fleet g (update_in name f pool) pm.pools,
          lookup-update_in name k f pool,
        ))
]

lookup_empty : (k : String) → lookup {V = ServerPoolState} k [] ≡ none
unfolding lookup
lookup_empty k = refl

pub server_of-ensure_fleet :
    (pm : PoolManager) (fleet g k : String)
    → server_of (ensure_fleet pm fleet) g k ≡ server_of pm g k
unfolding ensure_fleet
server_of-ensure_fleet pm fleet g k = elim (Option-cases (pool_of pm fleet)) [
  | inl e ↦
      rw (e, ensure_fleet)
        (ground (arith, e, eq_iff fleet g, lookup-insert fleet g [] pm.pools, lookup_empty k))
  | inr (pool, e) ↦ rw (e, ensure_fleet)
]

pool_of-ensure_fleet :
    (pm : PoolManager) (fleet g : String)
    → pool_of (ensure_fleet pm fleet) g
      ≡ (if str_eq fleet g then some (get_or [] g pm.pools) else pool_of pm g)
unfolding ensure_fleet
pool_of-ensure_fleet pm fleet g = elim (Option-cases (pool_of pm fleet)) [
  | inl e ↦
      rw (e, ensure_fleet) (ground (arith, e, eq_iff fleet g, lookup-insert fleet g [] pm.pools))
  | inr (pool, e) ↦ rw (e, ensure_fleet) (ground (arith, e, eq_iff fleet g))
]

lookup-register_in :
    (now : ℤ) (name k : String) (pool : ServerPool)
    → lookup k (register_in now name pool) ≡ (
        if str_eq name k
        then elim (lookup k pool) [ none ↦ some (fresh_server now name) | some s ↦ some s ]
        else lookup k pool)
unfolding register_in
lookup-register_in now name k pool = elim (Option-cases (lookup name pool)) [
  | inl e ↦
      rw (e, register_in)
        (ground (arith, e, eq_iff name k, lookup-insert name k (fresh_server now name) pool))
  | inr (s, e) ↦ rw (e, register_in) (ground (arith, e, eq_iff name k))
]

-- Registering a server gives it a fresh state, unless the fleet has it already.
pub server_of-register :
    (now : ℤ) (pm : PoolManager) (fleet name g k : String)
    → server_of (register now fleet name pm) g k ≡ (
        if str_eq fleet g && str_eq name k
        then elim (server_of pm g k) [ none ↦ some (fresh_server now name) | some s ↦ some s ]
        else server_of pm g k)
unfolding register
server_of-register now pm fleet name g k =
    let pm' = ensure_fleet pm fleet in
    let pool = get_or [] fleet pm'.pools in
    ground (
      arith,
      eq_iff fleet g,
      lookup-insert fleet g (register_in now name pool) pm'.pools,
      pool_of-ensure_fleet pm fleet g,
      pool_of-ensure_fleet pm fleet fleet,
      eq_iff fleet fleet,
      lookup-register_in now name k pool,
      lookup_empty k,
    )

-- Removing a server leaves every other one.
pub server_of-remove_ne :
    (pm : PoolManager) (fleet name g k : String)
    → (str_eq fleet g && str_eq name k) ≡ false
    → server_of (remove fleet name pm) g k ≡ server_of pm g k
unfolding remove
server_of-remove_ne pm fleet name g k other = elim (Option-cases (pool_of pm fleet)) [
  | inl e ↦ rw (e, remove)
  | inr (pool, e) ↦
      rw (e, remove)
        (ground (
          arith,
          e,
          eq_iff fleet g,
          eq_iff name k,
          lookup-insert fleet g (erase name pool) pm.pools,
          lookup-erase_ne name k pool,
          other,
        ))
]
