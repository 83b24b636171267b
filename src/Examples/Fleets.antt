-- ===== src/Examples/Fleets.antt =====
-- Tests of the reconciler of a fleet.
use game_server_orchestrator.Prelude.{
  String, ◌≡◌, ◌⊎◌, refl, Bool, true, false, ◌&&◌, Option, none, some, List, [], ◌∷◌,
}
use game_server_orchestrator.Prelude.Int.{ℤ, pos, negsuc, ◌<ℤ◌}
use game_server_orchestrator.Prelude.Text.{str_eq}
use game_server_orchestrator.Prelude.Dict.{lookup}
use game_server_orchestrator.Pool.State.{PoolManager, ServerPoolState, server_of, remove}
use game_server_orchestrator.Pool.Calls.{
  Call, registers, update_fleet_configs, allocates_with_filter, run,
}
use game_server_orchestrator.Pool.State.{new_pool_manager}
use game_server_orchestrator.Pool.Allocation.Exclusive.{Held}
use game_server_orchestrator.Breaker.{new_breaker}
use game_server_orchestrator.Drainer.{ServerState, SessionAnswer, drain, advance}
use game_server_orchestrator.Scaler.{ScaleResult, scale_down, over_provisioned}
use game_server_orchestrator.Director.{FleetReconciler}
use game_server_orchestrator.Director.Sync.{phase_of, sync_server}
use game_server_orchestrator.Director.Labels.{Reflects, sync_server-Reflects}
use game_server_orchestrator.Director.Draining.{advance_server, advance_server_removes}
use game_server_orchestrator.Examples.{arena, cluster, fleet_of, pod_named}

-- The fleet's two servers, the first of which is allocated.
abbrev busy_calls : List (ℤ × Call)
busy_calls =
    (pos 1, update_fleet_configs "arena" (record { buffer_size = pos 3; idle_timeout = pos 60 }))
    ∷ (pos 2, registers "arena" "a")
    ∷ (pos 3, registers "arena" "b")
    ∷ (pos 4, allocates_with_filter "arena" "RoundRobin" [])
    ∷ []

abbrev busy : PoolManager
busy = run busy_calls new_pool_manager

abbrev taken : ServerPoolState
taken = record {
  name = "a";
  allocated = true;
  healthy = true;
  last_used_at = pos 4;
  allocation_count = pos 1;
}

busy-Held : Held busy "arena" "a"
unfolding game_server_orchestrator.Pool.State.allocate_with_filter
    game_server_orchestrator.Prelude.Dict.lookup game_server_orchestrator.Pool.Calls.run
    game_server_orchestrator.Pool.Calls.step game_server_orchestrator.Pool.State.register
    game_server_orchestrator.Prelude.Dict.insert game_server_orchestrator.Pool.State.ensure_fleet
    game_server_orchestrator.Pool.State.mark_unhealthy
    game_server_orchestrator.Pool.State.update_server
    game_server_orchestrator.Pool.State.update_fleet_config
    game_server_orchestrator.Pool.State.grant game_server_orchestrator.Pool.State.choose
    game_server_orchestrator.Pool.State.restrict
    game_server_orchestrator.Pool.State.collect_candidates
    game_server_orchestrator.Pool.State.register_in game_server_orchestrator.Prelude.Sort.sort_slice
    game_server_orchestrator.Pool.State.update_in game_server_orchestrator.Pool.State.take_server
    game_server_orchestrator.Prelude.Int32.add32 game_server_orchestrator.Prelude.Int32.wrap32
    game_server_orchestrator.Prelude.Int.◌+ℤ◌
busy-Held = (taken, refl, refl)

abbrev reconciler : PoolManager → FleetReconciler
reconciler pm = record {
  pool = pm;
  drainer = record { timeout = pos 60; interval = pos 10; force_time = pos 600 };
  breaker = new_breaker;
  cooldowns = record { last_scale_up_at = []; last_scale_down_at = [] };
  drain_states = [];
}

sync_server-Reflects_example :
    Reflects
      (phase_of (pod_named "a"))
      (server_of (sync_server (pos 9) "arena" (pod_named "a") arena) "arena" "a")
    × ((g k : String)
        → (str_eq "arena" g && str_eq "a" k) ≡ false
        → server_of (sync_server (pos 9) "arena" (pod_named "a") arena) g k ≡ server_of arena g k)
sync_server-Reflects_example = sync_server-Reflects (pos 9) "arena" (pod_named "a") arena

abbrev shrink : ScaleResult
shrink = record {
  decision = scale_down;
  current_replicas = pos 2;
  desired_replicas = pos 1;
  delta = negsuc 0;
  reason = over_provisioned (pos 1) (pos 0);
  healthy_node_names = [];
  filtered_node_names = [];
}

abbrev empty_sessions : Unit {0} → ServerState → SessionAnswer
empty_sessions w s = some (pos 0)

abbrev leaving : ServerState
leaving = record {
  name = "b";
  endpoint = record { host = "10.0.0.2"; port = pos 8080 };
  phase = drain;
  active_sessions = pos 0;
  entered_at = pos 10;
  last_checked_at = pos 80;
  forced_deadline = pos 610;
}

advance_server_removes_example :
    ((advance_server
        (cluster true true)
        empty_sessions
        (pos 100)
        (fleet_of (pos 2) (pos 1))
        "b"
        leaving
        (reconciler busy)
        tt).0.pool
      ≡ busy)
    ⊎ (((advance (reconciler busy).drainer (pos 100) (some (pos 0)) leaving).0 ≡ some true)
        × (true ≡ true)
        × ((advance_server
              (cluster true true)
              empty_sessions
              (pos 100)
              (fleet_of (pos 2) (pos 1))
              "b"
              leaving
              (reconciler busy)
              tt).0.pool
            ≡ remove "arena" "b" busy))
advance_server_removes_example =
    advance_server_removes (cluster true true) empty_sessions (pos 100) (fleet_of (pos 2) (pos 1))
      "b" leaving (reconciler busy) tt
