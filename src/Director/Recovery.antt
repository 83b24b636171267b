-- ===== src/Director/Recovery.antt =====
-- A drain that a sync takes over from the label of a pod, after a restart.
use game_server_orchestrator.Prelude.{◌≡◌, true, none, some, arith}
use game_server_orchestrator.Prelude.Int.{ℤ, pos, ◌-ℤ◌, ◌≤ℤ◌, ◌<ℤ◌}
use game_server_orchestrator.Prelude.Text.{str_eq, eq_iff}
use game_server_orchestrator.Prelude.Dict.{Dict, lookup, insert, erase, lookup-insert}
use game_server_orchestrator.V1alpha1.Fleet.{GameServerFleet, Pod}
use game_server_orchestrator.Pool.State.{remove}
use game_server_orchestrator.Drainer.{ServerState, SessionAnswer, forced, advance, should_check}
use game_server_orchestrator.Cluster.{Client}
use game_server_orchestrator.Director.{FleetReconciler}
use game_server_orchestrator.Director.Sync.{phase_of, sync_drain, recovered}
use game_server_orchestrator.Director.Draining.{decommission_server, advance_server}

-- The drain of a pod that has the label of a draining one and no drain state.
sync_drain-recovered :
    (restart : ℤ) (fleet : GameServerFleet) (pod : Pod) (states : Dict ServerState)
    → phase_of pod ≡ "draining"
    → lookup pod.name states ≡ none
    → lookup pod.name (sync_drain restart fleet pod states) ≡ some (recovered restart fleet pod)
unfolding sync_drain
sync_drain-recovered restart fleet pod states draining unknown =
    let e : str_eq (phase_of pod) "draining" ≡ true =
      (eq_iff (phase_of pod) "draining").1 draining in
    simp (e, unknown, sync_drain)
      (ground (
        arith,
        lookup-insert pod.name pod.name (recovered restart fleet pod) states,
        eq_iff pod.name pod.name,
      ))

-- Such a drain is forced at its first check, whatever the sessions.
advance-recovered :
    (r : FleetReconciler) (restart now : ℤ) (fleet : GameServerFleet) (pod : Pod)
    (answer : SessionAnswer)
    → pos 0 <ℤ r.drainer.force_time
    → pos 0 <ℤ now
    → advance r.drainer now answer (recovered restart fleet pod)
      ≡ (some true, record (recovered restart fleet pod) { phase = forced })
unfolding advance
advance-recovered r restart now fleet pod answer force past = ground (arith, force, past)

module _ {W : Type 0} (cl : Client W) (sessions : W → ServerState → SessionAnswer)
    (fleet : GameServerFleet) where
  -- After a restart at `restart`, a pod with the label of a draining one and no drain state gets one,
  -- and where the drainer has a positive time to force a drain, the first check, an interval later,
  -- deletes the pod however many sessions are active: if the deletion works, the server is gone from
  -- the pool and its drain state erased.
  pub recovered_drain_forced :
      (restart now : ℤ) (pod : Pod) (states : Dict ServerState) (r : FleetReconciler) (w : W)
      → phase_of pod ≡ "draining"
      → lookup pod.name states ≡ none
      → pos 0 <ℤ r.drainer.force_time
      → pos 0 <ℤ now
      → r.drainer.interval ≤ℤ (now -ℤ restart)
      → (cl.delete_pod fleet.fleet_namespace pod.name w).0 ≡ true
      → (ds : ServerState) × (lookup pod.name (sync_drain restart fleet pod states) ≡ some ds)
        × ((advance_server cl sessions now fleet pod.name ds r w).0 ≡ record r {
          pool = remove fleet.name pod.name r.pool;
          drain_states =
              erase pod.name (insert pod.name (record ds { phase = forced }) r.drain_states);
        })
  unfolding advance_server decommission_server should_check
  recovered_drain_forced restart now pod states r w draining unknown force past long deleted =
      let ds = recovered restart fleet pod in
      let due : should_check r.drainer now ds ≡ true = ground (arith, long) in
      let answer = advance-recovered r restart now fleet pod (sessions w ds) force past in
      (
        ds,
        sync_drain-recovered restart fleet pod states draining unknown,
        simp (due, answer, deleted, advance_server, decommission_server),
      )
