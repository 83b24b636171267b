-- ===== src/Director/Draining.antt =====
-- `advanceDraining`: the drains under way, and the deletion of the pods that are drained.
use game_server_orchestrator.Prelude.{
  String, ◌≡◌, Bool, true, false, not, ◌&&◌, none, some, [], ◌∷◌, ◌⊎◌, inl, inr, Bool-cases,
  Option-cases, if◌then◌else◌,
}
use game_server_orchestrator.Prelude.Int.{ℤ, ◌-ℤ◌}
use game_server_orchestrator.Prelude.Dict.{Dict, insert, erase}
use game_server_orchestrator.V1alpha1.Fleet.{GameServerFleet}
use game_server_orchestrator.Pool.State.{remove}
use game_server_orchestrator.Drainer.{
  DrainPhase, ServerState, SessionAnswer, cordon, drain, decommission, done, forced, advance,
  should_check,
}
use game_server_orchestrator.Cluster.{Client}
use game_server_orchestrator.Director.{FleetReconciler}

abbrev pub is_cordon : DrainPhase → Bool
is_cordon cordon = true
is_cordon drain = false
is_cordon decommission = false
is_cordon done = false
is_cordon forced = false

-- `sessions` answers the query of a server in a state of the world.
module _ {W : Type 0} (cl : Client W) (sessions : W → ServerState → SessionAnswer) (now : ℤ)
    (fleet : GameServerFleet) where
  -- Delete the pod of a server that is ready for it.
  unfoldable pub decommission_server :
      String → ServerState → FleetReconciler → W → FleetReconciler × W
  decommission_server name ds r w =
      let (deleted, w') = cl.delete_pod fleet.fleet_namespace name w in
      if deleted
      then (
        record r { pool = remove fleet.name name r.pool; drain_states = erase name r.drain_states },
        cl.observe_drain fleet.name (now -ℤ ds.entered_at) w',
      )
      else (r, w')

  -- One turn of the loop.
  unfoldable pub advance_server : String → ServerState → FleetReconciler → W → FleetReconciler × W
  advance_server name ds r w =
      if not (should_check r.drainer now ds) && not (is_cordon ds.phase)
      then (r, w)
      else (let (ready, ds') = advance r.drainer now (sessions w ds) ds in
          let r' : FleetReconciler = record r { drain_states = insert name ds' r.drain_states } in
          elim ready [
            | none ↦ (r', w)
            | some ready ↦ if ready then decommission_server name ds' r' w else (r', w)
          ])

  unfoldable pub advance_servers : Dict ServerState → FleetReconciler → W → FleetReconciler × W
  advance_servers [] r w = (r, w)
  advance_servers ((name, ds) ∷ states) r w =
      let (r', w') = advance_server name ds r w in advance_servers states r' w'

  -- `advanceDraining`. It goes over the drains of all fleets.
  unfoldable pub advance_draining : FleetReconciler → W → FleetReconciler × W
  advance_draining r w = advance_servers r.drain_states r w

  -- A turn of the loop leaves the pool alone, or the drain protocol has found the server ready and
  -- the cluster has deleted its pod.
  pub advance_server_removes :
      (name : String) (ds : ServerState) (r : FleetReconciler) (w : W)
      → ((advance_server name ds r w).0.pool ≡ r.pool)
        ⊎ (((advance r.drainer now (sessions w ds) ds).0 ≡ some true)
            × ((cl.delete_pod fleet.fleet_namespace name w).0 ≡ true)
            × ((advance_server name ds r w).0.pool ≡ remove fleet.name name r.pool))
  unfolding advance_server decommission_server
  advance_server_removes name ds r w =
      elim (Bool-cases (not (should_check r.drainer now ds) && not (is_cordon ds.phase))) [
        | inl wait ↦ inl (simp (wait, advance_server))
        | inr check ↦ elim (Option-cases (advance r.drainer now (sessions w ds) ds).0) [
          | inl failed ↦ inl (simp (check, failed, advance_server))
          | inr (true, ready) ↦ elim (Bool-cases (cl.delete_pod fleet.fleet_namespace name w).0) [
            | inl deleted ↦ inr (ready, deleted, simp (check, ready, deleted, advance_server))
            | inr kept ↦ inl (simp (check, ready, kept, advance_server))
          ]
          | inr (false, unready) ↦ inl (simp (check, unready, advance_server))
        ]
      ]
