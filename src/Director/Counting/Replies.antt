-- ===== src/Director/Counting/Replies.antt =====
-- The breaker after a reconciliation of a fleet.
use game_server_orchestrator.Prelude.{
  String, ◌≡◌, ◌⊎◌, refl, ap, ◌∙◌, subst, Bool, true, false, Option, none, some, List, inl, inr,
  Bool-cases,
}
use game_server_orchestrator.Prelude.Int.{ℤ, ◌*ℤ◌}
use game_server_orchestrator.Prelude.Text.{str_eq}
use game_server_orchestrator.Prelude.Dict.{get_or}
use game_server_orchestrator.Prelude.Float.{Float64}
use game_server_orchestrator.V1alpha1.Policy.{AutoscalerPolicySpec}
use game_server_orchestrator.V1alpha1.Fleet.{GameServerFleet, GameServerFleetStatus, Pod}
use game_server_orchestrator.Pool.State.{update_fleet_config}
use game_server_orchestrator.Breaker.{Breaker, record_failure, reset_circuit, is_circuit_open}
use game_server_orchestrator.Drainer.{second}
use game_server_orchestrator.Scaler.{ScaleResult, evaluate, FleetMetrics}
use game_server_orchestrator.Director.{FleetReconciler}
use game_server_orchestrator.Director.Sync.{sync_listed, sync_pool_from_labels}
use game_server_orchestrator.Director.Scaling.{execute_scale_up}
use game_server_orchestrator.Director.Draining.{advance_draining}
use game_server_orchestrator.Director.Decision.{Services, cool, condition_of}
use game_server_orchestrator.Director.Reconcile.{
  get_fleet_policy, collect_fleet_metrics, act, carry_out, reconcile_collected, reconcile_policy,
  reconcile_with, reconcile_fleet,
}
use game_server_orchestrator.Director.Moves.{decision_cases}
use game_server_orchestrator.Director.Counting.{Counts, Gated}
use game_server_orchestrator.Director.Counting.Steps.{
  execute_scale_down-breaker, execute_scale_up-breaker, advance_servers-breaker,
}

-- After the `switch`.
Acted : ℤ → String → Bool → Breaker → Breaker → Type 0
Acted now name true b b' = (b' ≡ reset_circuit name b) ⊎ (b' ≡ b)
Acted now name false b b' = b' ≡ record_failure now name b

module _ {F : Type 0} ⦃fl : Float64 F⦄ {W : Type 0} (sv : Services F W) (now : ℤ) where
  act-Acted :
      (fleet : GameServerFleet) (result : ScaleResult) (dry_run : Bool) (r : FleetReconciler)
      (w : W)
      → Acted now fleet.name
          (act sv now fleet result dry_run r w).0
          r.breaker
          (act sv now fleet result dry_run r w).1.0.breaker
  unfolding act Acted
  act-Acted fleet result dry_run r w =
      let up_same = execute_scale_up-breaker sv.client now fleet result dry_run r w in
      elim (decision_cases result.decision) [
        | inl up ↦ elim (Bool-cases (execute_scale_up sv.client now fleet result dry_run r w).0) [
          | inl worked ↦ simp (up, worked, act) (inl (ap (reset_circuit fleet.name) up_same))
          | inr failed ↦ simp (up, failed, act) (ap (record_failure now fleet.name) up_same)
        ]
        | inr (inl down) ↦
            simp (down, act)
              (inl (
                ap (reset_circuit fleet.name)
                  (execute_scale_down-breaker sv.client now fleet result dry_run r w)))
        | inr (inr (inl held)) ↦ simp (held, act) (inl refl)
        | inr (inr (inr frozen)) ↦ simp (frozen, act) (inr refl)
      ]

  carry_out-Counts :
      (fleet : GameServerFleet) (result : ScaleResult) (dry_run : Bool) (r : FleetReconciler)
      (w : W)
      → Counts now fleet.name
          (carry_out sv now fleet result dry_run r w).0
          r.breaker
          (carry_out sv now fleet result dry_run r w).1.0.breaker
  unfolding carry_out advance_draining Acted
  carry_out-Counts fleet result dry_run r w =
      let (worked, (acted, w')) = act sv now fleet result dry_run r w in
      let (advanced, w'') = advance_draining sv.client sv.sessions now fleet acted w' in
      let same : advanced.breaker ≡ acted.breaker =
        advance_servers-breaker sv.client now fleet sv.sessions acted.drain_states acted w' in
      let told : Acted now fleet.name worked r.breaker acted.breaker =
        act-Acted fleet result dry_run r w in
      elim (Bool-cases worked) [
        | inr failed ↦
            simp (failed, carry_out)
              (subst (λ b. Acted now fleet.name b r.breaker acted.breaker) failed told)
        | inl fine ↦
            let told' : (acted.breaker ≡ reset_circuit fleet.name r.breaker)
                ⊎ (acted.breaker ≡ r.breaker) =
              subst (λ b. Acted now fleet.name b r.breaker acted.breaker) fine told in
            let after : (advanced.breaker ≡ reset_circuit fleet.name r.breaker)
                ⊎ (advanced.breaker ≡ r.breaker) =
              elim told' [ inl e ↦ inl (same ∙ e) | inr e ↦ inr (same ∙ e) ] in
            elim (Bool-cases (sv.update_fleet fleet (condition_of result.decision) w'').0) [
              | inl written ↦ simp (fine, written, carry_out) after
              | inr refused ↦ simp (fine, refused, carry_out) after
            ]
      ]

  reconcile_collected-Counts :
      (fleet : GameServerFleet) (policy : AutoscalerPolicySpec F) (dry_run : Bool)
      (r : FleetReconciler) (collected : Option (GameServerFleetStatus × FleetMetrics F) × W)
      → Counts now fleet.name
          (reconcile_collected sv now fleet policy dry_run r collected).0
          r.breaker
          (reconcile_collected sv now fleet policy dry_run r collected).1.0.breaker
  unfolding reconcile_collected
  reconcile_collected-Counts fleet policy dry_run r (none, w) = refl
  reconcile_collected-Counts fleet policy dry_run r (some (status, figures), w) =
      let fleet' : GameServerFleet = record fleet { status = status } in
      carry_out-Counts fleet'
        (cool now fleet.name policy.cooldown r.cooldowns
          (evaluate (sv.nodes w) fleet' policy figures))
        dry_run r w

  sync_listed-breaker :
      (fleet : GameServerFleet) (r : FleetReconciler) (listed : Option (List Pod))
      → (sync_listed now fleet r listed).breaker ≡ r.breaker
  unfolding sync_listed
  sync_listed-breaker fleet r none = refl
  sync_listed-breaker fleet r (some pods) = refl

  reconcile_with-Counts :
      (fleet : GameServerFleet) (r : FleetReconciler) (policy : Option (AutoscalerPolicySpec F) × W)
      → Counts now fleet.name
          (reconcile_with sv now fleet r policy).0
          r.breaker
          (reconcile_with sv now fleet r policy).1.0.breaker
  unfolding reconcile_with reconcile_policy sync_pool_from_labels
  reconcile_with-Counts fleet r (none, w) = refl
  reconcile_with-Counts fleet r (some policy, w) =
      let configured : FleetReconciler = record r {
        pool = update_fleet_config r.pool fleet.name (record {
          buffer_size = policy.buffer.size;
          idle_timeout = policy.buffer.idle_timeout_seconds *ℤ second;
        });
      } in
      let dry_run = str_eq (get_or "" "director.gamefleet.io/dry-run" fleet.annotations) "true" in
      let (synced, w') = sync_pool_from_labels sv.client now fleet configured w in
      subst
        (λ b.
          Counts now fleet.name (reconcile_with sv now fleet r (some policy, w)).0 b
            (reconcile_with sv now fleet r (some policy, w)).1.0.breaker)
        (sync_listed-breaker fleet configured _)
        (reconcile_collected-Counts fleet policy dry_run synced
          (collect_fleet_metrics sv now fleet w'))

  -- A reconciliation that finds its fleet first asks whether the fleet's circuit is open. If it is, it
  -- calls nothing more, changes nothing but the breaker, and asks to be repeated after a minute. If
  -- not, a policy that is not found and a scaling that fails are counted as one failure each, at the
  -- time of the reconciliation; figures that cannot be collected count as none; and a reconciliation
  -- that goes on to write the status resets the breaker or leaves it as it is.
  pub reconcile_fleet-Gated :
      (fleet : GameServerFleet) (r : FleetReconciler) (w : W)
      → Gated
          (is_circuit_open now fleet.name r.breaker).0
          now
          fleet.name
          (record r { breaker = (is_circuit_open now fleet.name r.breaker).1 })
          w
          (reconcile_fleet sv now fleet r w)
  unfolding reconcile_fleet
  reconcile_fleet-Gated fleet r w =
      let (blocked, breaker) = is_circuit_open now fleet.name r.breaker in
      let probed : FleetReconciler = record r { breaker = breaker } in
      elim (Bool-cases blocked) [
        | inl open_circuit ↦ simp (open_circuit, reconcile_fleet) refl
        | inr closed ↦
            simp (closed, reconcile_fleet)
              (reconcile_with-Counts fleet probed (get_fleet_policy sv now fleet w))
      ]
