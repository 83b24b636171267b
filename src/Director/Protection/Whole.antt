-- ===== src/Director/Protection/Whole.antt =====
-- A whole reconciliation of a fleet and a server that is allocated and not being drained.
use game_server_orchestrator.Prelude.{String, ◌≡◌, refl, take}
use game_server_orchestrator.Prelude.Int.{ℤ}
use game_server_orchestrator.Prelude.Float.{Float64}
use game_server_orchestrator.Prelude.Result.{ok}
use game_server_orchestrator.V1alpha1.Fleet.{GameServerFleet}
use game_server_orchestrator.Pool.Query.{idle_servers}
use game_server_orchestrator.Pool.Calls.{update_fleet_configs, step}
use game_server_orchestrator.Drainer.{ServerState, SessionAnswer}
use game_server_orchestrator.Cluster.{Client}
use game_server_orchestrator.Director.{FleetReconciler}
use game_server_orchestrator.Director.Sync.{sync_pool_from_labels}
use game_server_orchestrator.Director.Scaling.{create_pods, drain_servers}
use game_server_orchestrator.Director.Draining.{advance_draining}
use game_server_orchestrator.Director.Decision.{Services}
use game_server_orchestrator.Director.Reconcile.{reconcile}
use game_server_orchestrator.Director.Moves.{
  Moves, rests, notes, configures, syncs, scales_up, scales_down, advances, reconcile-Moves,
}
use game_server_orchestrator.Director.Protection.{Safe, Respects, step-Kept}
use game_server_orchestrator.Director.Protection.Sync.{sync_pool_from_labels-Safe}
use game_server_orchestrator.Director.Protection.Drains.{
  create_pods-Kept, drain_idle-Safe, advance_draining-Safe,
}

module _ {W : Type 0} (cl : Client W) (sessions : W → ServerState → SessionAnswer) (now : ℤ)
    (name g k : String) (respects : Respects cl k) where
  Moves-Safe : (r r' : FleetReconciler) → Moves cl sessions now name r r' → Safe g k r → Safe g k r'
  unfolding step
  Moves-Safe r r' (rests _) safe = safe
  Moves-Safe r r' (notes b c m) safe =
      Moves-Safe (record r { breaker = b; cooldowns = c }) r' m safe
  Moves-Safe r r' (configures cfg m) (kept, absent) =
      let call = update_fleet_configs name cfg in
      Moves-Safe (record r { pool = step now call r.pool }) r' m
        (step-Kept now call r.pool g k refl kept, absent)
  Moves-Safe r r' (syncs fleet w named m) safe =
      Moves-Safe (sync_pool_from_labels cl now fleet r w).0 r' m
        (sync_pool_from_labels-Safe cl now fleet g k r w respects safe)
  Moves-Safe r r' (scales_up fleet n w named m) (kept, absent) =
      Moves-Safe (record r { pool = (create_pods cl now fleet n r.pool w).1.0 }) r' m
        (create_pods-Kept cl now fleet g k n r.pool w respects kept, absent)
  Moves-Safe r r' (scales_down fleet n w named m) safe =
      Moves-Safe (drain_servers cl now fleet (take n (idle_servers now fleet.name r.pool)) r w).0 r'
        m (drain_idle-Safe cl now fleet g k n r w safe)
  Moves-Safe r r' (advances fleet w named m) safe =
      Moves-Safe (advance_draining cl sessions now fleet r w).0 r' m
        (advance_draining-Safe cl now fleet g k sessions r w safe)

module _ {F : Type 0} ⦃fl : Float64 F⦄ {W : Type 0} (sv : Services F W) (now : ℤ) where
  -- A whole reconciliation of a fleet, however it ends, leaves a server `k` of any fleet `g` allocated
  -- and starts no drain of it, if the server is allocated in a valid pool in which no fleet has an
  -- unallocated server of its name, no drain of it is under way, the cluster lists pods of its name
  -- with the label of an allocated one and gives the name to no new pod, and a query for a fleet is
  -- answered with a fleet of that name. The same then holds after the reconciliation.
  pub reconcile-Safe :
      (ns name : String) (r : FleetReconciler) (w : W) (g k : String)
      → ((fleet : GameServerFleet) → (sv.get_fleet ns name w).0 ≡ ok fleet → fleet.name ≡ name)
      → Respects sv.client k
      → Safe g k r
      → Safe g k (reconcile sv now ns name r w).1.0
  reconcile-Safe ns name r w g k named respects safe =
      Moves-Safe sv.client sv.sessions now name g k respects r (reconcile sv now ns name r w).1.0
        (reconcile-Moves sv now ns name r w named) safe
