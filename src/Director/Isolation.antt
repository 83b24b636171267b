-- ===== src/Director/Isolation.antt =====
-- The steps of a reconciliation of a fleet as histories of calls on the pool.
use game_server_orchestrator.Prelude.{
  String, ℕ, zero, suc, ◌≡◌, refl, sym, subst, true, Option, none, some, List, [], ◌∷◌, inl, inr,
  Bool-cases, Option-cases,
}
use game_server_orchestrator.Prelude.Int.{ℤ}
use game_server_orchestrator.Prelude.Text.{str_eq, eq_iff}
use game_server_orchestrator.Prelude.Dict.{Dict}
use game_server_orchestrator.V1alpha1.Fleet.{GameServerFleet, Pod}
use game_server_orchestrator.Pool.State.{PoolManager}
use game_server_orchestrator.Pool.Calls.{
  registers, marks_allocated, marks_available, marks_unhealthy, removes, step,
}
use game_server_orchestrator.Pool.Edits.{Edits, Edits-refl, Edits-step, Edits-trans}
use game_server_orchestrator.Drainer.{ServerState, SessionAnswer}
use game_server_orchestrator.Cluster.{Client, fleet_label}
use game_server_orchestrator.Director.{FleetReconciler}
use game_server_orchestrator.Director.Sync.{
  phase_of, is_running, sync_server, sync_pods, sync_drain, sync_listed, sync_pool_from_labels,
}
use game_server_orchestrator.Director.Scaling.{
  build_game_server_pod, create_pods, drain_server, drain_servers,
}
use game_server_orchestrator.Director.Draining.{
  advance_server, advance_servers, advance_draining, advance_server_removes,
}

str_eq_self : (s : String) → str_eq s s ≡ true
str_eq_self s = (eq_iff s s).1 refl

pub sync_server-Edits :
    (now : ℤ) (fleet : String) (pod : Pod) (pm : PoolManager)
    → Edits fleet pm (sync_server now fleet pod pm)
unfolding sync_server step
sync_server-Edits now fleet pod pm =
    let registered = step now (registers fleet pod.name) pm in
    let first : Edits fleet pm registered =
      Edits-step fleet now (registers fleet pod.name) pm (str_eq_self fleet) in
    elim (Bool-cases (str_eq (phase_of pod) "allocated")) [
      | inl e ↦
          simp (e, sync_server)
            (Edits-trans fleet pm registered _ first (
              Edits-step fleet now (marks_allocated fleet pod.name) registered (str_eq_self fleet)))
      | inr e ↦ elim (Bool-cases (str_eq (phase_of pod) "draining")) [
        | inl d ↦
            simp (e, d, sync_server)
              (Edits-trans fleet pm registered _ first (
                Edits-step fleet now (marks_unhealthy fleet pod.name) registered
                  (str_eq_self fleet)))
        | inr d ↦
            simp (e, d, sync_server)
              (Edits-trans fleet pm registered _ first (
                Edits-step fleet now (marks_available fleet pod.name) registered
                  (str_eq_self fleet)))
      ]
    ]

sync_pods-Edits :
    (now : ℤ) (fleet : GameServerFleet) (pods : List Pod) (pm : PoolManager)
    (states : Dict ServerState)
    → Edits fleet.name pm (sync_pods now fleet pods (pm, states)).0
unfolding sync_pods
sync_pods-Edits now fleet [] pm states = Edits-refl fleet.name pm
sync_pods-Edits now fleet (pod ∷ pods) pm states = elim (Bool-cases (is_running pod)) [
  | inl running ↦
      let pm' = sync_server now fleet.name pod pm in
      simp (running, sync_pods)
        (Edits-trans fleet.name pm pm' _ (sync_server-Edits now fleet.name pod pm)
          (sync_pods-Edits now fleet pods pm' (sync_drain now fleet pod states)))
  | inr stopped ↦ simp (stopped, sync_pods) (sync_pods-Edits now fleet pods pm states)
]

sync_listed-Edits :
    (now : ℤ) (fleet : GameServerFleet) (r : FleetReconciler) (listed : Option (List Pod))
    → Edits fleet.name r.pool (sync_listed now fleet r listed).pool
unfolding sync_listed
sync_listed-Edits now fleet r none = Edits-refl fleet.name r.pool
sync_listed-Edits now fleet r (some pods) = sync_pods-Edits now fleet pods r.pool r.drain_states

module _ {W : Type 0} (cl : Client W) (now : ℤ) (fleet : GameServerFleet) where
  pub sync_pool_from_labels-Edits :
      (r : FleetReconciler) (w : W)
      → Edits fleet.name r.pool (sync_pool_from_labels cl now fleet r w).0.pool
  unfolding sync_pool_from_labels
  sync_pool_from_labels-Edits r w =
      sync_listed-Edits now fleet r
        (cl.list_pods fleet.fleet_namespace ((fleet_label, fleet.name) ∷ []) w).0

  pub create_pods-Edits :
      (n : ℕ) (pm : PoolManager) (w : W) → Edits fleet.name pm (create_pods cl now fleet n pm w).1.0
  unfolding create_pods step
  create_pods-Edits zero pm w = Edits-refl fleet.name pm
  create_pods-Edits (suc n) pm w =
      let (made, w') = cl.create_pod (build_game_server_pod fleet) w in
      elim (Option-cases made) [
        | inl failed ↦ simp (failed, create_pods) (Edits-refl fleet.name pm)
        | inr (name, worked) ↦
            let pm' = step now (registers fleet.name name) pm in
            simp (worked, create_pods)
              (Edits-trans fleet.name pm pm' (create_pods cl now fleet n pm' w').1.0
                (Edits-step fleet.name now (registers fleet.name name) pm (str_eq_self fleet.name))
                (create_pods-Edits n pm' w'))
      ]

  pub drain_servers-Edits :
      (names : List String) (r : FleetReconciler) (w : W)
      → Edits fleet.name r.pool (drain_servers cl now fleet names r w).0.pool
  unfolding drain_servers drain_server step
  drain_servers-Edits [] r w = Edits-refl fleet.name r.pool
  drain_servers-Edits (name ∷ names) r w =
      let (r', w') = drain_server cl now fleet name r w in
      Edits-trans fleet.name r.pool r'.pool _
        (Edits-step fleet.name now (marks_unhealthy fleet.name name) r.pool
          (str_eq_self fleet.name))
        (drain_servers-Edits names r' w')

  module _ (sessions : W → ServerState → SessionAnswer) where
    advance_server-Edits :
        (name : String) (ds : ServerState) (r : FleetReconciler) (w : W)
        → Edits fleet.name r.pool (advance_server cl sessions now fleet name ds r w).0.pool
    unfolding step
    advance_server-Edits name ds r w =
        elim (advance_server_removes cl sessions now fleet name ds r w) [
          | inl same ↦ subst (Edits fleet.name r.pool) (sym same) (Edits-refl fleet.name r.pool)
          | inr (ready, deleted, removed) ↦
              subst (Edits fleet.name r.pool) (sym removed) (
                Edits-step fleet.name now (removes fleet.name name) r.pool (str_eq_self fleet.name))
        ]

    advance_servers-Edits :
        (states : Dict ServerState) (r : FleetReconciler) (w : W)
        → Edits fleet.name r.pool (advance_servers cl sessions now fleet states r w).0.pool
    unfolding advance_servers
    advance_servers-Edits [] r w = Edits-refl fleet.name r.pool
    advance_servers-Edits ((name, ds) ∷ states) r w =
        let (r', w') = advance_server cl sessions now fleet name ds r w in
        Edits-trans fleet.name r.pool r'.pool _ (advance_server-Edits name ds r w)
          (advance_servers-Edits states r' w')

    pub advance_draining-Edits :
        (r : FleetReconciler) (w : W)
        → Edits fleet.name r.pool (advance_draining cl sessions now fleet r w).0.pool
    unfolding advance_draining
    advance_draining-Edits r w = advance_servers-Edits r.drain_states r w
