-- ===== src/Director/Counting/Steps.antt =====
-- The steps of a reconciliation of a fleet that do not concern the breaker.
use game_server_orchestrator.Prelude.{
  String, ◌≡◌, refl, ◌∙◌, Bool, true, false, List, [], ◌∷◌, inl, inr, not, ◌&&◌, Bool-cases,
  Option-cases, take,
}
use game_server_orchestrator.Prelude.Int.{ℤ, pos, pos_part, eqb_ℤ}
use game_server_orchestrator.Prelude.Dict.{Dict}
use game_server_orchestrator.V1alpha1.Fleet.{GameServerFleet}
use game_server_orchestrator.Pool.Query.{idle_servers}
use game_server_orchestrator.Drainer.{ServerState, SessionAnswer, advance, should_check}
use game_server_orchestrator.Scaler.{ScaleResult}
use game_server_orchestrator.Cluster.{Client}
use game_server_orchestrator.Director.{FleetReconciler}
use game_server_orchestrator.Director.Scaling.{
  create_pods, execute_scale_up, drain_server, drain_servers, drain_count, execute_scale_down,
}
use game_server_orchestrator.Director.Draining.{
  is_cordon, decommission_server, advance_server, advance_servers,
}

module _ {W : Type 0} (cl : Client W) (now : ℤ) (fleet : GameServerFleet) where
  drain_servers-breaker :
      (names : List String) (r : FleetReconciler) (w : W)
      → (drain_servers cl now fleet names r w).0.breaker ≡ r.breaker
  unfolding drain_servers drain_server
  drain_servers-breaker [] r w = refl
  drain_servers-breaker (k ∷ names) r w =
      let (r', w') = drain_server cl now fleet k r w in drain_servers-breaker names r' w'

  pub execute_scale_down-breaker :
      (result : ScaleResult) (dry_run : Bool) (r : FleetReconciler) (w : W)
      → (execute_scale_down cl now fleet result dry_run r w).0.breaker ≡ r.breaker
  unfolding execute_scale_down
  execute_scale_down-breaker result dry_run r w =
      let idle = idle_servers now fleet.name r.pool in
      let count = drain_count cl now fleet result idle in
      elim (Bool-cases dry_run) [
        | inl dry ↦ simp (dry, execute_scale_down)
        | inr real ↦ elim (Bool-cases (eqb_ℤ count (pos 0))) [
          | inl nothing ↦ simp (real, nothing, execute_scale_down)
          | inr some_idle ↦
              simp (real, some_idle, execute_scale_down)
                (drain_servers-breaker (take (pos_part count) idle) r w)
        ]
      ]

  pub execute_scale_up-breaker :
      (result : ScaleResult) (dry_run : Bool) (r : FleetReconciler) (w : W)
      → (execute_scale_up cl now fleet result dry_run r w).1.0.breaker ≡ r.breaker
  unfolding execute_scale_up
  execute_scale_up-breaker result dry_run r w = elim (Bool-cases dry_run) [
    | inl dry ↦ simp (dry, execute_scale_up)
    | inr real ↦ elim (Bool-cases (create_pods cl now fleet (pos_part result.delta) r.pool w).0) [
      | inl made ↦ simp (real, made, execute_scale_up)
      | inr failed ↦ simp (real, failed, execute_scale_up)
    ]
  ]

  module _ (sessions : W → ServerState → SessionAnswer) where
    advance_server-breaker :
        (k : String) (ds : ServerState) (r : FleetReconciler) (w : W)
        → (advance_server cl sessions now fleet k ds r w).0.breaker ≡ r.breaker
    unfolding advance_server decommission_server
    advance_server-breaker k ds r w =
        elim (Bool-cases (not (should_check r.drainer now ds) && not (is_cordon ds.phase))) [
          | inl wait ↦ simp (wait, advance_server)
          | inr check ↦ elim (Option-cases (advance r.drainer now (sessions w ds) ds).0) [
            | inl failed ↦ simp (check, failed, advance_server)
            | inr (true, ready) ↦ elim (Bool-cases (cl.delete_pod fleet.fleet_namespace k w).0) [
              | inl deleted ↦ simp (check, ready, deleted, advance_server)
              | inr kept ↦ simp (check, ready, kept, advance_server)
            ]
            | inr (false, unready) ↦ simp (check, unready, advance_server)
          ]
        ]

    pub advance_servers-breaker :
        (states : Dict ServerState) (r : FleetReconciler) (w : W)
        → (advance_servers cl sessions now fleet states r w).0.breaker ≡ r.breaker
    unfolding advance_servers
    advance_servers-breaker [] r w = refl
    advance_servers-breaker ((k, ds) ∷ states) r w =
        let (r', w') = advance_server cl sessions now fleet k ds r w in
        advance_servers-breaker states r' w' ∙ advance_server-breaker k ds r w
