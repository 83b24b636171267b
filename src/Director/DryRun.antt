-- ===== src/Director/DryRun.antt =====
-- The annotation for a dry run.
use game_server_orchestrator.V1alpha1.Fleet.{GameServerFleet}
use game_server_orchestrator.Breaker.{Breaker, reset_circuit}
use game_server_orchestrator.Scaler.{ScaleDecision, scale_up, scale_down, scale_hold, scale_frozen}
use game_server_orchestrator.Director.Decision.{Services}
use game_server_orchestrator.Metrics.Collector.{scaled_up, scaled_down}

-- The breaker after a decision that is only pretended.
abbrev pub pretended : GameServerFleet → ScaleDecision → Breaker → Breaker
pretended fleet scale_up b = reset_circuit fleet.name b
pretended fleet scale_down b = reset_circuit fleet.name b
pretended fleet scale_hold b = reset_circuit fleet.name b
pretended fleet scale_frozen b = b

-- What a decision counts, also if it is only pretended.
abbrev pub counted : {F W : Type 0} → Services F W → GameServerFleet → ScaleDecision → W → W
counted sv fleet scale_up w = sv.records (scaled_up fleet.name fleet.fleet_namespace) w
counted sv fleet scale_down w = sv.records (scaled_down fleet.name fleet.fleet_namespace) w
counted sv fleet scale_hold w = w
counted sv fleet scale_frozen w = w
