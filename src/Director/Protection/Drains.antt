-- ===== src/Director/Protection/Drains.antt =====
-- What scaling and the drains do to a server that is allocated and not being drained.
use game_server_orchestrator.Prelude.{
  String, ℕ, zero, suc, All, ◌≡◌, refl, ap, ◌∙◌, subst, true, false, not, ◌&&◌, none, some, List,
  [], ◌∷◌, take, arith, inl, inr, Bool-cases, Option-cases,
}
use game_server_orchestrator.Prelude.Int.{ℤ}
use game_server_orchestrator.Prelude.Text.{str_eq, eq_iff}
use game_server_orchestrator.Prelude.Dict.{Dict, lookup, insert, lookup-erase_ne}
use game_server_orchestrator.V1alpha1.Fleet.{GameServerFleet}
use game_server_orchestrator.Pool.State.{PoolManager, server_of}
use game_server_orchestrator.Pool.Calls.{registers, marks_unhealthy, removes, step}
use game_server_orchestrator.Pool.Query.{idle_servers}
use game_server_orchestrator.Pool.Idle.{MayDrain, idle_servers-MayDrain}
use game_server_orchestrator.Pool.Allocation.Taken.{Taken}
use game_server_orchestrator.Drainer.{ServerState, SessionAnswer, advance, should_check}
use game_server_orchestrator.Cluster.{Client}
use game_server_orchestrator.Director.{FleetReconciler}
use game_server_orchestrator.Director.Scaling.{
  build_game_server_pod, create_pods, drain_server, drain_servers,
}
use game_server_orchestrator.Director.Draining.{
  decommission_server, advance_server, advance_servers, advance_draining, is_cordon,
}
use game_server_orchestrator.Director.Protection.{
  Kept, Safe, Respects, step-Kept, lookup-insert_other,
}

module _ {W : Type 0} (cl : Client W) (now : ℤ) (fleet : GameServerFleet) (g name : String) where
  pub create_pods-Kept :
      (n : ℕ) (pm : PoolManager) (w : W)
      → Respects cl name
      → Kept g name pm
      → Kept g name (create_pods cl now fleet n pm w).1.0
  unfolding create_pods step
  create_pods-Kept zero pm w respects kept = kept
  create_pods-Kept (suc n) pm w respects kept =
      let (made, w') = cl.create_pod (build_game_server_pod fleet) w in
      elim (Option-cases made) [
        | inl failed ↦ simp (failed, create_pods) kept
        | inr (k, worked) ↦ elim (Bool-cases (str_eq k name)) [
          | inl same ↦ absurd (
              respects.1 (build_game_server_pod fleet) w
                (worked ∙ ap some ((eq_iff k name).0 same)))
          | inr other ↦
              let call = registers fleet.name k in
              simp (worked, create_pods)
                (create_pods-Kept n (step now call pm) w' respects
                  (step-Kept now call pm g name other kept))
        ]
      ]

  drain_servers-Safe :
      (names : List String) (r : FleetReconciler) (w : W)
      → All (λ k. str_eq k name ≡ false) names
      → Safe g name r
      → Safe g name (drain_servers cl now fleet names r w).0
  unfolding drain_servers drain_server step
  drain_servers-Safe [] r w a safe = safe
  drain_servers-Safe (k ∷ names) r w (other, a) (kept, absent) =
      let (r', w') = drain_server cl now fleet k r w in
      drain_servers-Safe names r' w' a (
        step-Kept now (marks_unhealthy fleet.name k) r.pool g name refl kept,
        lookup-insert_other k name _ r.drain_states other absent,
      )

  idle-others :
      (pm : PoolManager) (names : List String)
      → Taken name pm
      → All (MayDrain now fleet.name pm) names
      → All (λ k. str_eq k name ≡ false) names
  idle-others pm [] t a = tt
  idle-others pm (k ∷ names) t ((s, found, unused, _, _, _), a) =
      elim (Bool-cases (str_eq k name)) [
        | inr other ↦ (other, idle-others pm names t a)
        | inl same ↦
            let here =
              subst (λ n. server_of pm fleet.name n ≡ some s) ((eq_iff k name).0 same) found in
            absurd (cc (t fleet.name s here, unused))
      ]

  All-take : (P : String → Type 0) (n : ℕ) (l : List String) → All P l → All P (take n l)
  All-take P zero l a = tt
  All-take P (suc n) [] a = tt
  All-take P (suc n) (x ∷ l) (p, a) = (p, All-take P n l a)

  pub drain_idle-Safe :
      (n : ℕ) (r : FleetReconciler) (w : W)
      → Safe g name r
      → Safe g name (drain_servers cl now fleet (take n (idle_servers now fleet.name r.pool)) r w).0
  drain_idle-Safe n r w safe =
      let idle = idle_servers now fleet.name r.pool in
      drain_servers-Safe (take n idle) r w
        (All-take (λ k. str_eq k name ≡ false) n idle
          (idle-others r.pool idle safe.0.2 (idle_servers-MayDrain now fleet.name r.pool safe.0.0)))
        safe

  module _ (sessions : W → ServerState → SessionAnswer) where
    decommission_server-Safe :
        (k : String) (ds : ServerState) (r : FleetReconciler) (w : W)
        → str_eq k name ≡ false
        → Safe g name r
        → Safe g name (decommission_server cl sessions now fleet k ds r w).0
    unfolding decommission_server step
    decommission_server-Safe k ds r w other (kept, absent) =
        elim (Bool-cases (cl.delete_pod fleet.fleet_namespace k w).0) [
          | inr refused ↦ simp (refused, decommission_server) (kept, absent)
          | inl deleted ↦
              simp (deleted, decommission_server)
                (
                  step-Kept now (removes fleet.name k) r.pool g name other kept,
                  lookup-erase_ne k name r.drain_states (λ e. cc (other, (eq_iff k name).1 e))
                      ∙ absent,
                )
        ]

    advance_server-Safe :
        (k : String) (ds : ServerState) (r : FleetReconciler) (w : W)
        → str_eq k name ≡ false
        → Safe g name r
        → Safe g name (advance_server cl sessions now fleet k ds r w).0
    unfolding advance_server
    advance_server-Safe k ds r w other (kept, absent) =
        let (ready, ds') = advance r.drainer now (sessions w ds) ds in
        let r' : FleetReconciler = record r { drain_states = insert k ds' r.drain_states } in
        let safe : Safe g name r' =
          (kept, lookup-insert_other k name ds' r.drain_states other absent) in
        elim (Bool-cases (not (should_check r.drainer now ds) && not (is_cordon ds.phase))) [
          | inl wait ↦ simp (wait, advance_server) (kept, absent)
          | inr check ↦ elim (Option-cases ready) [
            | inl failed ↦ simp (check, failed, advance_server) safe
            | inr (true, fine) ↦
                simp (check, fine, advance_server) (decommission_server-Safe k ds' r' w other safe)
            | inr (false, unready) ↦ simp (check, unready, advance_server) safe
          ]
        ]

    advance_servers-Safe :
        (states : Dict ServerState) (r : FleetReconciler) (w : W)
        → lookup name states ≡ none
        → Safe g name r
        → Safe g name (advance_servers cl sessions now fleet states r w).0
    unfolding advance_servers lookup
    advance_servers-Safe [] r w absent safe = safe
    advance_servers-Safe ((k, ds) ∷ states) r w absent safe = elim (Bool-cases (str_eq k name)) [
      | inl same ↦ absurd (ground (arith, same, absent))
      | inr other ↦
          let (r', w') = advance_server cl sessions now fleet k ds r w in
          advance_servers-Safe states r' w' (ground (arith, other, absent))
            (advance_server-Safe k ds r w other safe)
    ]

    pub advance_draining-Safe :
        (r : FleetReconciler) (w : W)
        → Safe g name r
        → Safe g name (advance_draining cl sessions now fleet r w).0
    unfolding advance_draining
    advance_draining-Safe r w safe = advance_servers-Safe r.drain_states r w safe.1 safe
