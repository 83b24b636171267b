-- ===== src/Director/Reconcile.antt =====
-- `Reconcile` of a fleet.
use game_server_orchestrator.Prelude.{
  String, Bool, true, false, Option, none, some, [], ◌∷◌, if◌then◌else◌,
}
use game_server_orchestrator.Prelude.Int.{ℤ, pos, ◌*ℤ◌}
use game_server_orchestrator.Prelude.Text.{str_eq}
use game_server_orchestrator.Prelude.Dict.{get_or}
use game_server_orchestrator.Prelude.Float.{Float64}
use game_server_orchestrator.Prelude.Result.{Result, ok, err}
use game_server_orchestrator.V1alpha1.Policy.{AutoscalerPolicySpec}
use game_server_orchestrator.V1alpha1.Fleet.{GameServerFleet, GameServerFleetStatus}
use game_server_orchestrator.Pool.State.{update_fleet_config}
use game_server_orchestrator.Breaker.{record_failure, trips, reset_circuit, is_circuit_open}
use game_server_orchestrator.Drainer.{second}
use game_server_orchestrator.Scaler.{
  ScaleResult, FleetMetrics, scale_up, scale_down, scale_hold, scale_frozen, evaluate,
}
use game_server_orchestrator.Cluster.{GetError, not_found, get_failed, fleet_label}
use game_server_orchestrator.Notifier.{ScalingEvent}
use game_server_orchestrator.Metrics.Collector.{scaled_up, scaled_down, fleet_figures}
use game_server_orchestrator.Director.{FleetReconciler}
use game_server_orchestrator.Director.Sync.{sync_pool_from_labels, endpoints, snapshot}
use game_server_orchestrator.Director.Scaling.{execute_scale_up, execute_scale_down}
use game_server_orchestrator.Director.Draining.{advance_draining}
use game_server_orchestrator.Director.Decision.{
  cool, condition_of, decision_text, is_hold, Services,
}

-- The reply: the seconds after which to come back, or an error.
pub data FleetReply : Type 0 where
  absent : FleetReply
  requeue_after : ℤ → FleetReply
  get_error policy_error metrics_error scale_error status_error : FleetReply

module _ {F : Type 0} ⦃fl : Float64 F⦄ {W : Type 0} (sv : Services F W) (now : ℤ) where
  -- `getPolicy`
  unfoldable pub get_fleet_policy : GameServerFleet → W → Option (AutoscalerPolicySpec F) × W
  get_fleet_policy fleet w =
      if str_eq fleet.spec.autoscaler_ref ""
      then (none, w)
      else sv.get_policy fleet.fleet_namespace fleet.spec.autoscaler_ref w

  -- `collectFleetMetrics`: the snapshot of the status, and the figures for the scaler.
  unfoldable pub collect_fleet_metrics :
      GameServerFleet → W → Option (GameServerFleetStatus × FleetMetrics F) × W
  collect_fleet_metrics fleet w =
      let (pods, w') =
        sv.client.list_pods fleet.fleet_namespace ((fleet_label, fleet.name) ∷ []) w in
      elim pods [
        | none ↦ (none, w')
        | some items ↦
            let (agg, w'') = sv.scrape_fleet (endpoints fleet items) w' in
            elim agg [
              | none ↦ (none, w'')
              | some a ↦ (
                some (
                  snapshot a.total_players items,
                  record {
                    total_players = a.total_players;
                    average_cpu = a.avg_cpu;
                    average_memory_mb = a.avg_memory_mb;
                    allocation_rate = fl.of_int (pos 0);
                  },
                ),
                w'',
              )
            ]
      ]

  abbrev failing : String → FleetReconciler → FleetReconciler
  failing fleet r = record r { breaker = record_failure now fleet r.breaker }

  -- What a failure counts in the metrics.
  abbrev failed_world : String → FleetReconciler → W → W
  failed_world fleet r w = if trips fleet r.breaker then sv.count_trip fleet w else w

  abbrev working : String → FleetReconciler → FleetReconciler
  working fleet r = record r { breaker = reset_circuit fleet r.breaker }

  -- The `switch` on the decision; `false` is an error.
  unfoldable pub act :
      GameServerFleet → ScaleResult → Bool → FleetReconciler → W → Bool × (FleetReconciler × W)
  act fleet result dry_run r w = elim result.decision [
    | scale_up ↦
        let (worked, (r', w')) = execute_scale_up sv.client now fleet result dry_run r w in
        if worked
        then (
          true,
          (working fleet.name r', sv.records (scaled_up fleet.name fleet.fleet_namespace) w'),
        )
        else (false, (failing fleet.name r', failed_world fleet.name r' w'))
    | scale_down ↦
        let (r', w') = execute_scale_down sv.client now fleet result dry_run r w in
        (
          true,
          (working fleet.name r', sv.records (scaled_down fleet.name fleet.fleet_namespace) w'),
        )
    | scale_hold ↦ (true, (working fleet.name r, w))
    | scale_frozen ↦ (true, (r, w))
  ]

  -- The event of a decision.
  unfoldable pub event_of : GameServerFleet → ScaleResult → ScalingEvent
  event_of fleet result = record {
    timestamp = now;
    fleet = fleet.name;
    namespace = fleet.fleet_namespace;
    decision = decision_text result.decision;
    current_replicas = result.current_replicas;
    desired_replicas = result.desired_replicas;
    reason = sv.show_reason result.reason;
    nodes = result.healthy_node_names;
  }

  -- The notifier hears of every decision but to hold.
  unfoldable pub notify_decision : GameServerFleet → ScaleResult → W → W
  notify_decision fleet result w = elim sv.notify [
    | none ↦ w
    | some notify ↦ if is_hold result.decision then w else notify (event_of fleet result) w
  ]

  -- The call of `SetFleetMetrics` at the end.
  abbrev pub show_figures : GameServerFleet → W → W
  show_figures fleet = sv.records (
      fleet_figures fleet.name fleet.fleet_namespace fleet.status.replicas
        fleet.status.total_players fleet.status.buffer_pool)

  -- From the decision on.
  unfoldable pub carry_out :
      GameServerFleet
      → ScaleResult
      → Bool
      → FleetReconciler
      → W
      → FleetReply × (FleetReconciler × W)
  carry_out fleet result dry_run r w =
      let (worked, (r', w')) = act fleet result dry_run r w in
      if worked
      then (let (r'', w'') = advance_draining sv.client sv.sessions now fleet r' w' in
          let (written, final) = sv.update_fleet fleet (condition_of result.decision) w'' in
          if written
          then (
            requeue_after (pos 15),
            (r'', show_figures fleet (notify_decision fleet result final)),
          )
          else (status_error, (r'', final)))
      else (scale_error, (r', w'))

  -- `applyStatusSnapshot`, the decision, and what follows from it.
  unfoldable pub reconcile_collected :
      GameServerFleet
      → AutoscalerPolicySpec F
      → Bool
      → FleetReconciler
      → Option (GameServerFleetStatus × FleetMetrics F) × W
      → FleetReply × (FleetReconciler × W)
  reconcile_collected fleet policy dry_run r (none, w) = (metrics_error, (r, w))
  reconcile_collected fleet policy dry_run r (some (status, m), w) =
      let fleet' : GameServerFleet = record fleet { status = status } in
      carry_out fleet'
        (cool now fleet.name policy.cooldown r.cooldowns (evaluate (sv.nodes w) fleet' policy m))
        dry_run r w

  -- With the policy.
  unfoldable pub reconcile_policy :
      GameServerFleet
      → AutoscalerPolicySpec F
      → FleetReconciler
      → W
      → FleetReply × (FleetReconciler × W)
  reconcile_policy fleet policy r w =
      let configured : FleetReconciler = record r {
        pool = update_fleet_config r.pool fleet.name (record {
          buffer_size = policy.buffer.size;
          idle_timeout = policy.buffer.idle_timeout_seconds *ℤ second;
        });
      } in
      let dry_run = str_eq (get_or "" "director.gamefleet.io/dry-run" fleet.annotations) "true" in
      let (synced, w') = sync_pool_from_labels sv.client now fleet configured w in
      reconcile_collected fleet policy dry_run synced (collect_fleet_metrics fleet w')

  -- With the answer to the query for the policy.
  unfoldable pub reconcile_with :
      GameServerFleet
      → FleetReconciler
      → Option (AutoscalerPolicySpec F) × W
      → FleetReply × (FleetReconciler × W)
  reconcile_with fleet r (none, w) =
      (policy_error, (failing fleet.name r, failed_world fleet.name r w))
  reconcile_with fleet r (some policy, w) = reconcile_policy fleet policy r w

  -- With the fleet, whose name is that of the request.
  unfoldable pub reconcile_fleet :
      GameServerFleet → FleetReconciler → W → FleetReply × (FleetReconciler × W)
  reconcile_fleet fleet r w =
      let (blocked, breaker) = is_circuit_open now fleet.name r.breaker in
      let probed : FleetReconciler = record r { breaker = breaker } in
      if blocked
      then (requeue_after (pos 60), (probed, w))
      else reconcile_with fleet probed (get_fleet_policy fleet w)

  -- With the answer to the query for the fleet.
  unfoldable pub reconcile_found :
      FleetReconciler → Result GetError GameServerFleet × W → FleetReply × (FleetReconciler × W)
  reconcile_found r (err not_found, w) = (absent, (r, w))
  reconcile_found r (err get_failed, w) = (get_error, (r, w))
  reconcile_found r (ok fleet, w) = reconcile_fleet fleet r w

  -- `Reconcile`
  unfoldable pub reconcile :
      String → String → FleetReconciler → W → FleetReply × (FleetReconciler × W)
  reconcile ns name r w =
      let (answer, (r', w')) = reconcile_found r (sv.get_fleet ns name w) in
      (answer, (r', sv.observe_reconcile w'))
