-- ===== src/V1alpha1/Policy.antt =====
-- api/v1alpha1/autoscalerpolicy_types.go. Sizes and seconds are int32 values; `F` is float64.
use game_server_orchestrator.Prelude.{String, Bool, List}
use game_server_orchestrator.Prelude.Int.{ℤ}

pub record BufferConfig : Type 0 where
  pub size : ℤ
  pub idle_timeout_seconds : ℤ

-- ScalingMetricType, a string.
abbrev pub scaling_metric_cpu : String
scaling_metric_cpu = "CPU"

abbrev pub scaling_metric_memory : String
scaling_metric_memory = "Memory"

pub record ScalingMetricConfig : Type 0 where
  pub metric_type : String
  pub target_value : ℤ

pub record AuxiliaryMetricConfig (F : Type 0) : Type 0 where
  pub metric_type : String
  pub weight : F

pub record CooldownConfig : Type 0 where
  pub scale_up_seconds : ℤ
  pub scale_down_seconds : ℤ

pub record DrainConfig : Type 0 where
  pub timeout_seconds : ℤ
  pub interval_seconds : ℤ
  pub force_after_seconds : ℤ

-- AllocationStrategy, a string: any text may arrive from a request.
abbrev pub AllocationStrategy : Type 0
AllocationStrategy = String

abbrev pub allocation_fewest_players : AllocationStrategy
allocation_fewest_players = "FewestPlayers"

abbrev pub allocation_lowest_latency : AllocationStrategy
allocation_lowest_latency = "LowestLatency"

abbrev pub allocation_round_robin : AllocationStrategy
allocation_round_robin = "RoundRobin"

abbrev pub allocation_strict_bin_pack : AllocationStrategy
allocation_strict_bin_pack = "StrictBinPack"

pub record CircuitBreakerConfig : Type 0 where
  pub consecutive_failures : ℤ
  pub cooldown_period_seconds : ℤ

pub record NodeHealthConfig (F : Type 0) : Type 0 where
  pub enabled : Bool
  pub provider : String
  pub nhw_endpoint : String
  pub min_healthy_node_ratio : F

pub record AutoscalerPolicySpec (F : Type 0) : Type 0 where
  pub min_replicas : ℤ
  pub max_replicas : ℤ
  pub buffer : BufferConfig
  pub scaling_metric : ScalingMetricConfig
  pub auxiliary_metrics : List (AuxiliaryMetricConfig F)
  pub cooldown : CooldownConfig
  pub drain : DrainConfig
  pub allocation_strategy : AllocationStrategy
  pub circuit_breaker : CircuitBreakerConfig
  pub node_health : NodeHealthConfig F
