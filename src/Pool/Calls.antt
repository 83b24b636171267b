-- ===== src/Pool/Calls.antt =====
-- The methods of the manager that change it, as one type of calls, and a history of them.
use game_server_orchestrator.Prelude.{String, Bool, List, [], ◌∷◌}
use game_server_orchestrator.Prelude.Int.{ℤ}
use game_server_orchestrator.Prelude.Dict.{Dict}
use game_server_orchestrator.V1alpha1.Policy.{AllocationStrategy}
use game_server_orchestrator.Pool.State.{
  FleetPoolConfig, PoolManager, update_fleet_config, register, allocate, allocate_with_filter,
  release, mark_allocated, mark_available, mark_unhealthy, remove,
}

pub data Call : Type 0 where
  update_fleet_configs : String → FleetPoolConfig → Call
  registers releases marks_allocated marks_available marks_unhealthy removes :
      String → String → Call
  allocates : String → AllocationStrategy → Call
  allocates_with_filter : String → AllocationStrategy → Dict Bool → Call

unfoldable pub step : ℤ → Call → PoolManager → PoolManager
step now (update_fleet_configs fleet cfg) pm = update_fleet_config pm fleet cfg
step now (registers fleet name) pm = register now fleet name pm
step now (allocates fleet strategy) pm = (allocate now fleet strategy pm).1
step now (allocates_with_filter fleet strategy allowed) pm =
    (allocate_with_filter now fleet strategy allowed pm).1
step now (releases fleet name) pm = release now fleet name pm
step now (marks_allocated fleet name) pm = mark_allocated now fleet name pm
step now (marks_available fleet name) pm = mark_available now fleet name pm
step now (marks_unhealthy fleet name) pm = mark_unhealthy fleet name pm
step now (removes fleet name) pm = remove fleet name pm

-- Each call with the reading of the clock in it.
unfoldable pub run : List (ℤ × Call) → PoolManager → PoolManager
run [] pm = pm
run ((now, c) ∷ calls) pm = run calls (step now c pm)
