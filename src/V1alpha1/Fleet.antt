-- ===== src/V1alpha1/Fleet.antt =====
-- api/v1alpha1/gameserverfleet_types.go, and the parts of a Kubernetes Pod that the code reads.
use game_server_orchestrator.Prelude.{String, Bool, List, []}
use game_server_orchestrator.Prelude.Int.{ℤ}
use game_server_orchestrator.Prelude.Dict.{Dict}

-- corev1.ContainerPort, corev1.Container and corev1.Pod, as far as they are read.
pub record ContainerPort : Type 0 where
  pub name : String
  pub protocol : String
  pub container_port : ℤ

pub record Container : Type 0 where
  pub ports : List ContainerPort

pub record Pod : Type 0 where
  pub name : String
  pub pod_namespace : String
  pub labels : Dict String
  pub pod_phase : String
  pub pod_ip : String
  pub node_name : String
  pub containers : List Container

-- The text "%s:%d" of a host and a port, kept as its two parts.
pub record Endpoint : Type 0 where
  pub host : String
  pub port : ℤ

abbrev pub zero_pod : Pod
zero_pod = record {
  name = "";
  pod_namespace = "";
  labels = [];
  pod_phase = "";
  pod_ip = "";
  node_name = "";
  containers = [];
}

-- FleetConditionType, a string.
abbrev pub fleet_available : String
fleet_available = "Available"

abbrev pub fleet_scaling : String
fleet_scaling = "Scaling"

abbrev pub fleet_circuit_open : String
fleet_circuit_open = "CircuitOpen"

pub record GameServerFleetSpec : Type 0 where
  pub template_labels : Dict String
  pub template_containers : List Container
  pub autoscaler_ref : String
  pub paused : Bool

pub record GameServerFleetStatus : Type 0 where
  pub replicas : ℤ
  pub ready_replicas : ℤ
  pub allocated_replicas : ℤ
  pub draining_replicas : ℤ
  pub buffer_pool : ℤ
  pub total_players : ℤ

pub record GameServerFleet : Type 0 where
  pub annotations : Dict String
  pub name : String
  pub fleet_namespace : String
  pub spec : GameServerFleetSpec
  pub status : GameServerFleetStatus
