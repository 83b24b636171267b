-- ===== src/Director/Protection.antt =====
-- A server that is allocated and not being drained, and what keeps it so.
pub mod Sync
pub mod Drains
pub mod Whole
use game_server_orchestrator.Prelude.{
  String, ℕ, zero, suc, All, ◌≡◌, ◌≢◌, refl, sym, ap, ◌∙◌, subst, Bool, true, false, not, ◌&&◌,
  ◌||◌, Option, none, some, List, [], ◌∷◌, take, arith, inl, inr, Bool-cases, Option-cases,
}
use game_server_orchestrator.Prelude.Int.{ℤ}
use game_server_orchestrator.Prelude.Text.{str_eq, eq_iff}
use game_server_orchestrator.Prelude.Dict.{Dict, lookup, insert, lookup-insert, lookup-erase_ne}
use game_server_orchestrator.V1alpha1.Fleet.{GameServerFleet, Pod}
use game_server_orchestrator.Pool.State.{PoolManager, ServerPoolState, server_of}
use game_server_orchestrator.Pool.Calls.{
  Call, update_fleet_configs, registers, allocates, allocates_with_filter, releases,
  marks_allocated, marks_available, marks_unhealthy, removes, step,
}
use game_server_orchestrator.Pool.Query.{idle_servers}
use game_server_orchestrator.Pool.Idle.{MayDrain, idle_servers-MayDrain}
use game_server_orchestrator.Pool.Invariant.{IsValid, step-IsValid}
use game_server_orchestrator.Pool.Allocation.Exclusive.{Held, frees, step-Held}
use game_server_orchestrator.Pool.Allocation.Taken.{Taken, offers, step-Taken, register-Taken}
use game_server_orchestrator.Drainer.{ServerState, SessionAnswer, advance, should_check}
use game_server_orchestrator.Cluster.{Client, fleet_label}
use game_server_orchestrator.Director.{FleetReconciler}
use game_server_orchestrator.Director.Sync.{
  phase_of, is_running, sync_server, sync_drain, sync_pods, sync_listed, sync_pool_from_labels,
  recovered,
}
use game_server_orchestrator.Director.Scaling.{
  build_game_server_pod, create_pods, drain_server, drain_servers,
}
use game_server_orchestrator.Director.Draining.{
  decommission_server, advance_server, advance_servers, advance_draining, is_cordon,
}

-- The server is allocated, and no fleet has an unallocated server of its name.
abbrev pub Kept : String → String → PoolManager → Type 0
Kept fleet name pm = IsValid pm × Held pm fleet name × Taken name pm

-- Besides, no drain of that name is under way.
abbrev pub Safe : String → String → FleetReconciler → Type 0
Safe fleet name r = Kept fleet name r.pool × (lookup name r.drain_states ≡ none)

-- A pod of that name has the label of an allocated one.
abbrev pub says_taken : String → Pod → Bool
says_taken name pod = not (str_eq pod.name name) || str_eq (phase_of pod) "allocated"

-- The cluster lists a pod of that name as allocated, and gives the name to no new pod.
abbrev pub Respects : {W : Type 0} → Client W → String → Type 0
Respects {W} cl name =
    ((ns : String) (labels : Dict String) (w : W) (pods : List Pod)
      → (cl.list_pods ns labels w).0 ≡ some pods
      → All (λ pod. says_taken name pod ≡ true) pods)
    × ((pod : Pod) (w : W) → (cl.create_pod pod w).0 ≢ some name)

offers-frees : (fleet name : String) (c : Call) → offers name c ≡ false → frees fleet name c ≡ false
offers-frees fleet name (update_fleet_configs g cfg) h = refl
offers-frees fleet name (registers g k) h = refl
offers-frees fleet name (allocates g strategy) h = refl
offers-frees fleet name (allocates_with_filter g strategy allowed) h = refl
offers-frees fleet name (releases g k) h = ground (arith, h)
offers-frees fleet name (marks_allocated g k) h = refl
offers-frees fleet name (marks_available g k) h = ground (arith, h)
offers-frees fleet name (marks_unhealthy g k) h = refl
offers-frees fleet name (removes g k) h = ground (arith, h)

pub step-Kept :
    (now : ℤ) (c : Call) (pm : PoolManager) (fleet name : String)
    → offers name c ≡ false
    → Kept fleet name pm
    → Kept fleet name (step now c pm)
step-Kept now c pm fleet name h (v, held, taken) = (
  step-IsValid now c pm v,
  step-Held now c pm fleet name (offers-frees fleet name c h) held,
  step-Taken now c pm name h taken,
)

pub lookup-insert_other :
    (k name : String) (ds : ServerState) (states : Dict ServerState)
    → str_eq k name ≡ false
    → lookup name states ≡ none
    → lookup name (insert k ds states) ≡ none
lookup-insert_other k name ds states other absent =
    ground (arith, other, absent, eq_iff k name, lookup-insert k name ds states)
