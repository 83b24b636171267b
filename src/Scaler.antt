-- ===== src/Scaler.antt =====
-- pkg/controller/scaler.go: the decision how many servers a fleet should have.
pub mod Decision
pub mod Bounds
pub mod Ratio
use game_server_orchestrator.Prelude.{
  String, ℕ, ◌+◌, Bool, true, false, ◌&&◌, Option, none, some, List, [], ◌∷◌, length, if◌then◌else◌,
}
use game_server_orchestrator.Prelude.Int.{ℤ, pos, ltb_ℤ}
use game_server_orchestrator.Prelude.Int32.{add32, sub32, div32, wrap32}
use game_server_orchestrator.Prelude.Text.{str_eq}
use game_server_orchestrator.Prelude.Float.{Float64}
use game_server_orchestrator.Prelude.Result.{Result, ok, err}
use game_server_orchestrator.V1alpha1.Policy.{
  AutoscalerPolicySpec, AuxiliaryMetricConfig, NodeHealthConfig, scaling_metric_cpu,
  scaling_metric_memory,
}
use game_server_orchestrator.V1alpha1.Fleet.{GameServerFleet, GameServerFleetStatus}
use game_server_orchestrator.Health.{NodeAnswer, healthy_nodes}

pub data ScaleDecision : Type 0 where
  scale_up scale_down scale_hold scale_frozen : ScaleDecision

-- The messages, with the numbers that they print.
pub data Reason : Type 0 where
  fleet_paused : Reason
  ratio_below_minimum : ℕ → ℕ → Reason
  player_driven : ℤ → ℤ → ℤ → ℤ → ℤ → Reason
  over_provisioned : ℤ → ℤ → Reason
  no_excess_buffer : ℤ → ℤ → ℤ → Reason
  at_target : ℤ → ℤ → ℤ → Reason
  cooldown : ℤ → Reason

pub record ScaleResult : Type 0 where
  pub decision : ScaleDecision
  pub current_replicas : ℤ
  pub desired_replicas : ℤ
  pub delta : ℤ
  pub reason : Reason
  pub healthy_node_names : List String
  pub filtered_node_names : List String

pub record FleetMetrics (F : Type 0) : Type 0 where
  pub total_players : ℤ
  pub average_cpu : F
  pub average_memory_mb : F
  pub allocation_rate : F

-- Servers for the players: a division that rounds up.
unfoldable pub servers_for_players : ℤ → ℤ → ℤ
servers_for_players players per_server =
    if ltb_ℤ (pos 0) per_server && ltb_ℤ (pos 0) players
    then div32 (sub32 (add32 players per_server) (pos 1)) per_server
    else pos 0

unfoldable pub buffer_target : ℤ → ℤ
buffer_target size = if ltb_ℤ size (pos 1) then pos 1 else size

unfoldable pub clamp : ℤ → ℤ → ℤ → ℤ
clamp lo hi desired =
    let raised = if ltb_ℤ desired lo then lo else desired in if ltb_ℤ hi raised then hi else raised

-- The last `switch`.
unfoldable pub decide :
    GameServerFleetStatus → ℤ → ℤ → ℤ → ℤ → ℤ → List String × List String → ScaleResult
decide st players servers aux buffer_size desired (healthy, unhealthy) =
    let result : ScaleDecision → ℤ → ℤ → Reason → ScaleResult = λ d want delta why. record {
      decision = d;
      current_replicas = st.replicas;
      desired_replicas = want;
      delta = delta;
      reason = why;
      healthy_node_names = healthy;
      filtered_node_names = unhealthy;
    } in
    if ltb_ℤ st.replicas desired
    then result scale_up desired (sub32 desired st.replicas)
        (player_driven players st.allocated_replicas st.buffer_pool servers aux)
    else if ltb_ℤ desired st.replicas
    then (if ltb_ℤ buffer_size st.buffer_pool
        then result scale_down desired (sub32 desired st.replicas)
            (over_provisioned st.buffer_pool buffer_size)
        else result scale_hold st.replicas (pos 0)
            (no_excess_buffer st.buffer_pool buffer_size st.draining_replicas))
    else result scale_hold desired (sub32 desired st.replicas)
        (at_target st.replicas players st.buffer_pool)

abbrev pub frozen_result : GameServerFleetStatus → Reason → List String × List String → ScaleResult
frozen_result st why (healthy, unhealthy) = record {
  decision = scale_frozen;
  current_replicas = st.replicas;
  desired_replicas = st.replicas;
  delta = pos 0;
  reason = why;
  healthy_node_names = healthy;
  filtered_node_names = unhealthy;
}

module _ {F : Type 0} ⦃fl : Float64 F⦄ where
  -- What one auxiliary metric adds.
  unfoldable pub aux_extra : FleetMetrics F → ℤ → AuxiliaryMetricConfig F → ℤ
  aux_extra m servers aux =
      if fl.le aux.weight (fl.of_int (pos 0))
      then pos 0
      else if str_eq aux.metric_type scaling_metric_cpu
      then (if fl.lt (fl.of_int (pos 70)) m.average_cpu
          then fl.to_int32 (
              fl.mul (fl.mul (fl.div m.average_cpu (fl.of_int (pos 100))) (fl.of_int servers))
                aux.weight)
          else pos 0)
      else if str_eq aux.metric_type scaling_metric_memory
      then (if fl.lt (fl.of_int (pos 0)) m.average_memory_mb
          then fl.to_int32 (
              fl.mul
                (fl.mul (fl.div m.average_memory_mb (fl.of_int (pos 4096))) (fl.of_int servers))
                aux.weight)
          else pos 0)
      else pos 0

  -- The loop over the auxiliary metrics.
  unfoldable pub aux_adjustment : FleetMetrics F → ℤ → List (AuxiliaryMetricConfig F) → ℤ → ℤ
  aux_adjustment m servers [] acc = acc
  aux_adjustment m servers (aux ∷ rest) acc =
      aux_adjustment m servers rest (add32 acc (aux_extra m servers aux))

  -- The replicas that the metrics ask for, within the policy's bounds.
  unfoldable pub desired_replicas : AutoscalerPolicySpec F → FleetMetrics F → ℤ
  desired_replicas policy m =
      let servers = servers_for_players m.total_players policy.scaling_metric.target_value in
      let aux = aux_adjustment m servers policy.auxiliary_metrics (pos 0) in
      clamp policy.min_replicas policy.max_replicas
        (add32 (add32 servers (buffer_target policy.buffer.size)) aux)

  -- Too few healthy nodes for a scale-up.
  unfoldable pub below_ratio : NodeHealthConfig F → List String → List String → Bool
  below_ratio cfg healthy unhealthy = ltb_ℤ (wrap32 (pos (length healthy))) (
      fl.to_int32
        (fl.mul (fl.of_int (pos (length healthy + length unhealthy))) cfg.min_healthy_node_ratio))

  -- `decide` at the numbers that Evaluate has computed.
  unfoldable pub conclude :
      GameServerFleet
      → AutoscalerPolicySpec F
      → FleetMetrics F
      → List String × List String
      → ScaleResult
  conclude fleet policy m =
      let servers = servers_for_players m.total_players policy.scaling_metric.target_value in
      decide fleet.status m.total_players servers
        (aux_adjustment m servers policy.auxiliary_metrics (pos 0))
        (buffer_target policy.buffer.size) (desired_replicas policy m)

  -- `Evaluate`. A failed query of the nodes leaves no mark: the reason that it writes is
  -- overwritten by the decision to scale up.
  unfoldable pub evaluate :
      Option NodeAnswer → GameServerFleet → AutoscalerPolicySpec F → FleetMetrics F → ScaleResult
  evaluate provider fleet policy m =
      if fleet.spec.paused
      then frozen_result fleet.status fleet_paused ([], [])
      else (let finish = conclude fleet policy m in
          if ltb_ℤ fleet.status.replicas (desired_replicas policy m) && policy.node_health.enabled
          then elim (healthy_nodes provider) [
            | err e ↦ finish ([], [])
            | ok (healthy, unhealthy) ↦
                if below_ratio policy.node_health healthy unhealthy
                then frozen_result fleet.status
                    (ratio_below_minimum (length healthy) (length healthy + length unhealthy))
                    (healthy, unhealthy)
                else finish (healthy, unhealthy)
          ]
          else finish ([], []))
