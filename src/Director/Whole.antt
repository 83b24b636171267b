-- ===== src/Director/Whole.antt =====
-- A whole reconciliation of a fleet as a history of calls on the pool.
use game_server_orchestrator.Prelude.{String, ◌≡◌, refl, subst, false, take}
use game_server_orchestrator.Prelude.Int.{ℤ}
use game_server_orchestrator.Prelude.Text.{str_eq, eq_iff}
use game_server_orchestrator.Prelude.Float.{Float64}
use game_server_orchestrator.Prelude.Result.{ok}
use game_server_orchestrator.V1alpha1.Fleet.{GameServerFleet}
use game_server_orchestrator.Pool.State.{PoolManager, server_of}
use game_server_orchestrator.Pool.Query.{idle_servers}
use game_server_orchestrator.Pool.Calls.{update_fleet_configs, step}
use game_server_orchestrator.Pool.Invariant.{IsValid}
use game_server_orchestrator.Pool.Edits.{
  Edits, Edits-refl, Edits-step, Edits-trans, Edits-others, Edits-IsValid,
}
use game_server_orchestrator.Drainer.{ServerState, SessionAnswer}
use game_server_orchestrator.Cluster.{Client}
use game_server_orchestrator.Director.{FleetReconciler}
use game_server_orchestrator.Director.Sync.{sync_pool_from_labels}
use game_server_orchestrator.Director.Scaling.{create_pods, drain_servers}
use game_server_orchestrator.Director.Draining.{advance_draining}
use game_server_orchestrator.Director.Decision.{Services}
use game_server_orchestrator.Director.Reconcile.{reconcile}
use game_server_orchestrator.Director.Moves.{
  Moves, rests, notes, configures, syncs, scales_up, scales_down, advances, reconcile-Moves,
}
use game_server_orchestrator.Director.Isolation.{
  sync_pool_from_labels-Edits, create_pods-Edits, drain_servers-Edits, advance_draining-Edits,
}

module _ {W : Type 0} (cl : Client W) (sessions : W → ServerState → SessionAnswer) (now : ℤ)
    (name : String) where
  -- A step of a fleet that has the name, and then the rest.
  after :
      (fleet : GameServerFleet) (pm pm' pm'' : PoolManager)
      → fleet.name ≡ name
      → Edits fleet.name pm pm'
      → Edits name pm' pm''
      → Edits name pm pm''
  after fleet pm pm' pm'' named first rest =
      Edits-trans name pm pm' pm'' (subst (λ n. Edits n pm pm') named first) rest

  Moves-Edits :
      (r r' : FleetReconciler) → Moves cl sessions now name r r' → Edits name r.pool r'.pool
  unfolding step
  Moves-Edits r r' (rests _) = Edits-refl name r.pool
  Moves-Edits r r' (notes b c m) = Moves-Edits (record r { breaker = b; cooldowns = c }) r' m
  Moves-Edits r r' (configures cfg m) =
      let call = update_fleet_configs name cfg in
      let pm = step now call r.pool in
      Edits-trans name r.pool pm r'.pool
        (Edits-step name now call r.pool ((eq_iff name name).1 refl))
        (Moves-Edits (record r { pool = pm }) r' m)
  Moves-Edits r r' (syncs fleet w named m) =
      let next = (sync_pool_from_labels cl now fleet r w).0 in
      after fleet r.pool next.pool r'.pool named (sync_pool_from_labels-Edits cl now fleet r w)
        (Moves-Edits next r' m)
  Moves-Edits r r' (scales_up fleet n w named m) =
      let pm = (create_pods cl now fleet n r.pool w).1.0 in
      after fleet r.pool pm r'.pool named (create_pods-Edits cl now fleet n r.pool w)
        (Moves-Edits (record r { pool = pm }) r' m)
  Moves-Edits r r' (scales_down fleet n w named m) =
      let names = take n (idle_servers now fleet.name r.pool) in
      let next = (drain_servers cl now fleet names r w).0 in
      after fleet r.pool next.pool r'.pool named (drain_servers-Edits cl now fleet names r w)
        (Moves-Edits next r' m)
  Moves-Edits r r' (advances fleet w named m) =
      let next = (advance_draining cl sessions now fleet r w).0 in
      after fleet r.pool next.pool r'.pool named (advance_draining-Edits cl now fleet sessions r w)
        (Moves-Edits next r' m)

module _ {F : Type 0} ⦃fl : Float64 F⦄ {W : Type 0} (sv : Services F W) (now : ℤ) where
  -- A whole reconciliation of a fleet, however it ends and whatever the cluster, the scraper, the
  -- nodes and the sessions answer, keeps a valid pool valid and leaves every server of every other
  -- fleet as it is, if the cluster answers a query for a fleet with a fleet of that name.
  pub reconcile-others :
      (ns name : String) (r : FleetReconciler) (w : W) (g k : String)
      → ((fleet : GameServerFleet) → (sv.get_fleet ns name w).0 ≡ ok fleet → fleet.name ≡ name)
      → IsValid r.pool
      → str_eq name g ≡ false
      → IsValid (reconcile sv now ns name r w).1.0.pool
        × (server_of (reconcile sv now ns name r w).1.0.pool g k ≡ server_of r.pool g k)
  reconcile-others ns name r w g k named v other =
      let after = (reconcile sv now ns name r w).1.0 in
      let history =
        Moves-Edits sv.client sv.sessions now name r after
          (reconcile-Moves sv now ns name r w named) in
      (
        Edits-IsValid name r.pool after.pool history v,
        Edits-others name r.pool after.pool g k history other,
      )
