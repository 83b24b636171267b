-- ===== src/Director/Endings/Stuck.antt =====
-- A drain whose pod the cluster has once refused to delete.
use game_server_orchestrator.Prelude.{String, ◌≡◌, refl, false, some, List, [], ◌∷◌}
use game_server_orchestrator.Prelude.Int.{ℤ, pos, ◌<ℤ◌}
use game_server_orchestrator.Prelude.Dict.{lookup, IsUnique, lookup-insert_self}
use game_server_orchestrator.V1alpha1.Fleet.{GameServerFleet}
use game_server_orchestrator.Drainer.{Drainer, ServerState, SessionAnswer, forced}
use game_server_orchestrator.Drainer.Due.{IsDue, IsDue-checked, advance-forced, forced-unchecked}
use game_server_orchestrator.Cluster.{Client}
use game_server_orchestrator.Director.{FleetReconciler}
use game_server_orchestrator.Director.Draining.{
  decommission_server, advance_server, advance_draining,
}
use game_server_orchestrator.Director.Endings.{drains}
use game_server_orchestrator.Director.Endings.Frame.{
  Fits, advance_servers-turn, advance_draining-Fits,
}

module _ {W : Type 0} (cl : Client W) (sessions : W → ServerState → SessionAnswer)
    (fleet : GameServerFleet) (d : Drainer) (name : String) where
  turn_refused :
      (now : ℤ) (s : ServerState) (r : FleetReconciler) (w : W)
      → (cl.delete_pod fleet.fleet_namespace name w).0 ≡ false
      → pos 0 <ℤ d.force_time
      → IsDue d now s
      → Fits d r
      → lookup name (advance_server cl sessions now fleet name s r w).0.drain_states
        ≡ some (record s { phase = forced })
  unfolding advance_server decommission_server
  turn_refused now s r w refused force due (unique, e) =
      simp
        (
          e,
          IsDue-checked d now s due,
          advance-forced d now (sessions w s) s force due,
          refused,
          advance_server,
          decommission_server,
        )
        (lookup-insert_self name _ r.drain_states)

  turn_spent :
      (now : ℤ) (s : ServerState) (r : FleetReconciler) (w : W)
      → s.phase ≡ forced
      → lookup name r.drain_states ≡ some s
      → lookup name (advance_server cl sessions now fleet name s r w).0.drain_states ≡ some s
  unfolding advance_server
  turn_spent now s r w e at = simp (forced-unchecked r.drainer now s e, e, advance_server) at

  drains-spent :
      (later : List ℤ) (s : ServerState) (r : FleetReconciler) (w : W)
      → s.phase ≡ forced
      → Fits d r
      → lookup name r.drain_states ≡ some s
      → lookup name (drains cl sessions fleet later r w).0.drain_states ≡ some s
  unfolding drains advance_draining
  drains-spent [] s r w e f at = at
  drains-spent (now ∷ later) s r w e f at =
      drains-spent later s _ _ e (advance_draining-Fits cl sessions now fleet d r w f) (
        advance_servers-turn cl sessions now fleet d name s (λ left. left ≡ some s)
          (λ r' w' f' at'. turn_spent now s r' w' e at') r.drain_states r w f.0 at f at)

module _ {W : Type 0} (cl cl' : Client W) (sessions sessions' : W → ServerState → SessionAnswer)
    (fleet fleet' : GameServerFleet) where
  -- A forced drain whose pod is not deleted at the first try is stuck: where the force time is positive,
  -- a call of advanceDraining finds the drain due for a check and past its deadline, and the cluster
  -- does not delete the pod in that call, the drain is forced, and no later calls, for whatever fleet,
  -- at whatever times and however the cluster and the sessions answer them, end or change it.
  pub refused_drain_sticks :
      (name : String) (now : ℤ) (later : List ℤ) (s : ServerState) (r : FleetReconciler) (w w' : W)
      → ((w : W) → (cl.delete_pod fleet.fleet_namespace name w).0 ≡ false)
      → IsUnique r.drain_states
      → lookup name r.drain_states ≡ some s
      → pos 0 <ℤ r.drainer.force_time
      → IsDue r.drainer now s
      → let r' = (advance_draining cl sessions now fleet r w).0 in
        lookup name (drains cl' sessions' fleet' later r' w').0.drain_states
        ≡ some (record s { phase = forced })
  unfolding advance_draining
  refused_drain_sticks name now later s r w w' refused unique at force due =
      let d = r.drainer in
      let f : Fits d r = (unique, refl) in
      drains-spent cl' sessions' fleet' d name later (record s { phase = forced }) _ w' refl
        (advance_draining-Fits cl sessions now fleet d r w f)
        (advance_servers-turn cl sessions now fleet d name s
          (λ left. left ≡ some (record s { phase = forced }))
          (λ r' w f' at'. turn_refused cl sessions fleet d name now s r' w (refused w) force due f')
          r.drain_states r w unique at f at)
