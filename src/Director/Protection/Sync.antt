-- ===== src/Director/Protection/Sync.antt =====
-- What a sync from the labels does to a server that is allocated and not being drained.
use game_server_orchestrator.Prelude.{
  String, All, ◌≡◌, refl, sym, subst, true, false, Option, none, some, List, [], ◌∷◌, arith, inl,
  inr, Bool-cases, Option-cases,
}
use game_server_orchestrator.Prelude.Int.{ℤ}
use game_server_orchestrator.Prelude.Text.{str_eq, eq_iff}
use game_server_orchestrator.Prelude.Dict.{Dict, lookup}
use game_server_orchestrator.V1alpha1.Fleet.{GameServerFleet, Pod}
use game_server_orchestrator.Pool.State.{PoolManager}
use game_server_orchestrator.Pool.Calls.{
  registers, marks_allocated, marks_available, marks_unhealthy, step,
}
use game_server_orchestrator.Pool.Invariant.{step-IsValid}
use game_server_orchestrator.Pool.Allocation.Exclusive.{step-Held}
use game_server_orchestrator.Pool.Allocation.Taken.{register-Taken}
use game_server_orchestrator.Drainer.{ServerState}
use game_server_orchestrator.Cluster.{Client, fleet_label}
use game_server_orchestrator.Director.{FleetReconciler}
use game_server_orchestrator.Director.Sync.{
  phase_of, is_running, sync_server, sync_drain, sync_pods, sync_listed, sync_pool_from_labels,
  recovered,
}
use game_server_orchestrator.Director.Protection.{
  Kept, Safe, says_taken, Respects, step-Kept, lookup-insert_other,
}

sync_server-Kept :
    (now : ℤ) (g : String) (pod : Pod) (pm : PoolManager) (fleet name : String)
    → says_taken name pod ≡ true
    → Kept fleet name pm
    → Kept fleet name (sync_server now g pod pm)
unfolding sync_server step
sync_server-Kept now g pod pm fleet name says (v, held, taken) =
    let first = registers g pod.name in
    let pm' = step now first pm in
    let valid = step-IsValid now first pm v in
    let holds = step-Held now first pm fleet name refl held in
    elim (Bool-cases (str_eq (phase_of pod) "allocated")) [
      | inl e ↦
          let call = marks_allocated g pod.name in
          simp (e, sync_server)
            (
              step-IsValid now call pm' valid,
              step-Held now call pm' fleet name refl holds,
              register-Taken now g pod.name pm name taken,
            )
      | inr not_allocated ↦
          let other : str_eq pod.name name ≡ false = ground (arith, says, not_allocated) in
          let kept : Kept fleet name pm' =
            step-Kept now first pm fleet name other (v, held, taken) in
          elim (Bool-cases (str_eq (phase_of pod) "draining")) [
            | inl e ↦
                simp (not_allocated, e, sync_server)
                  (step-Kept now (marks_unhealthy g pod.name) pm' fleet name refl kept)
            | inr not_draining ↦
                simp (not_allocated, not_draining, sync_server)
                  (step-Kept now (marks_available g pod.name) pm' fleet name other kept)
          ]
    ]

sync_drain-absent :
    (now : ℤ) (fleet : GameServerFleet) (pod : Pod) (states : Dict ServerState) (name : String)
    → says_taken name pod ≡ true
    → lookup name states ≡ none
    → lookup name (sync_drain now fleet pod states) ≡ none
unfolding sync_drain
sync_drain-absent now fleet pod states name says absent =
    elim (Bool-cases (str_eq (phase_of pod) "draining")) [
      | inr other ↦ simp (other, sync_drain) absent
      | inl draining ↦ elim (Option-cases (lookup pod.name states)) [
        | inr (ds, known) ↦ simp (draining, known, sync_drain) absent
        | inl unknown ↦
            let drains : phase_of pod ≡ "draining" =
              (eq_iff (phase_of pod) "draining").0 draining in
            let untaken : str_eq (phase_of pod) "allocated" ≡ false =
              subst (λ x. str_eq x "allocated" ≡ false) (sym drains) refl in
            let apart : str_eq pod.name name ≡ false = ground (arith, says, untaken) in
            simp (draining, unknown, sync_drain)
              (lookup-insert_other pod.name name (recovered now fleet pod) states apart absent)
      ]
    ]

sync_pods-Kept :
    (now : ℤ) (fleet : GameServerFleet) (pods : List Pod) (pm : PoolManager)
    (states : Dict ServerState) (g name : String)
    → All (λ pod. says_taken name pod ≡ true) pods
    → Kept g name pm
    → lookup name states ≡ none
    → Kept g name (sync_pods now fleet pods (pm, states)).0
      × (lookup name (sync_pods now fleet pods (pm, states)).1 ≡ none)
unfolding sync_pods
sync_pods-Kept now fleet [] pm states g name a kept absent = (kept, absent)
sync_pods-Kept now fleet (pod ∷ pods) pm states g name (says, a) kept absent =
    elim (Bool-cases (is_running pod)) [
      | inl running ↦
          simp (running, sync_pods)
            (sync_pods-Kept now fleet pods (sync_server now fleet.name pod pm)
              (sync_drain now fleet pod states) g name a
              (sync_server-Kept now fleet.name pod pm g name says kept)
              (sync_drain-absent now fleet pod states name says absent))
      | inr stopped ↦
          simp (stopped, sync_pods) (sync_pods-Kept now fleet pods pm states g name a kept absent)
    ]

sync_listed-Safe :
    (now : ℤ) (fleet : GameServerFleet) (r : FleetReconciler) (g name : String)
    (listed : Option (List Pod))
    → ((pods : List Pod) → listed ≡ some pods → All (λ pod. says_taken name pod ≡ true) pods)
    → Safe g name r
    → Safe g name (sync_listed now fleet r listed)
unfolding sync_listed
sync_listed-Safe now fleet r g name none says safe = safe
sync_listed-Safe now fleet r g name (some pods) says (kept, absent) =
    sync_pods-Kept now fleet pods r.pool r.drain_states g name (says pods refl) kept absent

module _ {W : Type 0} (cl : Client W) (now : ℤ) (fleet : GameServerFleet) (g name : String) where
  pub sync_pool_from_labels-Safe :
      (r : FleetReconciler) (w : W)
      → Respects cl name
      → Safe g name r
      → Safe g name (sync_pool_from_labels cl now fleet r w).0
  unfolding sync_pool_from_labels
  sync_pool_from_labels-Safe r w (lists, _) safe =
      let labels = (fleet_label, fleet.name) ∷ [] in
      sync_listed-Safe now fleet r g name (cl.list_pods fleet.fleet_namespace labels w).0
        (λ pods e. lists fleet.fleet_namespace labels w pods e) safe
