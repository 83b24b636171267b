-- ===== src/Director.antt =====
-- pkg/controller/fleet_controller.go: the reconciler of a fleet. One time `now` stands for the
-- instants of one call.
pub mod Sync
pub mod Labels
pub mod Scaling
pub mod Creation
pub mod Freshness
pub mod Recovery
pub mod Draining
pub mod Decision
pub mod Reconcile
pub mod Moves
pub mod Protection
pub mod Counting
pub mod DryRun
pub mod Endings
pub mod Isolation
pub mod Whole
use game_server_orchestrator.Prelude.{String}
use game_server_orchestrator.Prelude.Dict.{Dict}
use game_server_orchestrator.Prelude.Int.{ℤ}
use game_server_orchestrator.V1alpha1.Fleet.{GameServerFleet, Endpoint}
use game_server_orchestrator.Pool.State.{PoolManager}
use game_server_orchestrator.Breaker.{Breaker}
use game_server_orchestrator.Cooldown.{Cooldowns}
use game_server_orchestrator.Drainer.{Drainer, ServerState}
use game_server_orchestrator.Cluster.{find_metrics_port}

-- `FleetReconciler`, without the parts that it only calls.
pub record FleetReconciler : Type 0 where
  pub pool : PoolManager
  pub drainer : Drainer
  pub breaker : Breaker
  pub cooldowns : Cooldowns
  pub drain_states : Dict ServerState

-- `metricsEndpoint`
abbrev pub metrics_endpoint : String → GameServerFleet → Endpoint
metrics_endpoint ip fleet = record {
  host = ip;
  port = find_metrics_port fleet.spec.template_containers;
}
