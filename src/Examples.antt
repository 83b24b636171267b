-- ===== src/Examples.antt =====
-- The data of the tests: a fleet of two servers, a cluster that answers every call, and floats as
-- numbers of hundredths.
mod Pools
mod Drains
mod Decisions
mod Requests
mod Fleets
mod Clients
mod Service
mod Process
mod Whole
mod Runs
mod Reconciles
mod Counters
mod RoundTrips
mod Endings
use game_server_orchestrator.Prelude.{String, Bool, true, false, Option, none, some, List, [], ◌∷◌}
use game_server_orchestrator.Prelude.Int.{ℤ, pos, ◌+ℤ◌, ◌*ℤ◌, ◌/ℤ◌, ltb_ℤ, leb_ℤ}
use game_server_orchestrator.Prelude.Float.{Float64}
use game_server_orchestrator.Prelude.Result.{Result, ok, err}
use game_server_orchestrator.V1alpha1.Policy.{AutoscalerPolicySpec}
use game_server_orchestrator.V1alpha1.Fleet.{GameServerFleet, Pod, zero_pod}
use game_server_orchestrator.V1alpha1.Allocation.{GameServerAllocation}
use game_server_orchestrator.Pool.State.{PoolManager, new_pool_manager}
use game_server_orchestrator.Pool.Calls.{Call, registers, update_fleet_configs, run}
use game_server_orchestrator.Scaler.{FleetMetrics}
use game_server_orchestrator.Cluster.{Client, GetError}

abbrev pub setup : List (ℤ × Call)
setup =
    (pos 1, update_fleet_configs "arena" (record { buffer_size = pos 3; idle_timeout = pos 60 }))
    ∷ (pos 2, registers "arena" "a")
    ∷ (pos 3, registers "arena" "b")
    ∷ []

-- A manager with the two servers.
abbrev pub arena : PoolManager
arena = run setup new_pool_manager

abbrev pub pod_named : String → Pod
pod_named name = record zero_pod {
  name = name;
  pod_namespace = "default";
  pod_phase = "Running";
  pod_ip = "10.0.0.1";
  node_name = "node-1";
}

abbrev pub request : GameServerAllocation
request = record {
  creation_timestamp = pos 0;
  spec = record {
    fleet_ref = "arena";
    match_labels = [];
    strategy = "RoundRobin";
    ttl_seconds = pos 0;
  };
  status = record {
    phase = "";
    game_server = none;
    allocated_at = none;
    session_id = none;
    message = "";
  };
}

-- Every pod exists and every write succeeds, but those of labels and of statuses as asked for.
abbrev pub cluster : Bool → Bool → Client Unit
cluster labels statuses = record {
  get_pod = λ ns name w. (some (pod_named name), w);
  list_pods = λ ns ls w. (some (pod_named "a" ∷ pod_named "b" ∷ []), w);
  create_pod = λ pod w. (some "c", w);
  patch_pod = λ pod w. ((elim labels [ true ↦ some pod | false ↦ none ]), w);
  delete_pod = λ ns name w. (true, w);
  get_allocation = λ ns name w. (ok request, w);
  update_allocation = λ ns name alloc w. (statuses, w);
  count_allocation = λ fleet strategy phase w. w;
  observe_drain = λ fleet duration w. w;
}

abbrev pub fleet_of : ℤ → ℤ → GameServerFleet
fleet_of replicas warm = record {
  annotations = [];
  name = "arena";
  fleet_namespace = "default";
  spec = record {
    template_labels = [];
    template_containers = [];
    autoscaler_ref = "policy";
    paused = false;
  };
  status = record {
    replicas = replicas;
    ready_replicas = replicas;
    allocated_replicas = pos 0;
    draining_replicas = pos 0;
    buffer_pool = warm;
    total_players = pos 0;
  };
}

abbrev pub hundredths : Float64 ℤ
hundredths = record {
  lt = ltb_ℤ;
  le = leb_ℤ;
  add = ◌+ℤ◌;
  mul = λ a b. (a *ℤ b) /ℤ pos 100;
  div = λ a b. (a *ℤ pos 100) /ℤ b;
  of_int = λ n. n *ℤ pos 100;
  to_int32 = λ x. x /ℤ pos 100;
  to_int = λ x. x /ℤ pos 100;
}

abbrev pub policy : AutoscalerPolicySpec ℤ
policy = record {
  min_replicas = pos 1;
  max_replicas = pos 20;
  buffer = record { size = pos 3; idle_timeout_seconds = pos 60 };
  scaling_metric = record { metric_type = "Players"; target_value = pos 10 };
  auxiliary_metrics = record { metric_type = "CPU"; weight = pos 100 } ∷ [];
  cooldown = record { scale_up_seconds = pos 30; scale_down_seconds = pos 60 };
  drain = record {
    timeout_seconds = pos 60;
    interval_seconds = pos 10;
    force_after_seconds = pos 600;
  };
  allocation_strategy = "FewestPlayers";
  circuit_breaker = record { consecutive_failures = pos 5; cooldown_period_seconds = pos 300 };
  node_health = record {
    enabled = true;
    provider = "nhw";
    nhw_endpoint = "";
    min_healthy_node_ratio = pos 50;
  };
}

abbrev pub players : ℤ → FleetMetrics ℤ
players n = record {
  total_players = n;
  average_cpu = pos 8000;
  average_memory_mb = pos 0;
  allocation_rate = pos 0;
}
