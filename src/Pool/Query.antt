-- ===== src/Pool/Query.antt =====
-- pkg/pool/pool.go: the methods that only read the manager.
use game_server_orchestrator.Prelude.{
  String, Bool, not, ◌&&◌, none, some, List, [], ◌∷◌, map, length, if◌then◌else◌,
}
use game_server_orchestrator.Prelude.Int.{ℤ, pos, ◌-ℤ◌, ltb_ℤ, leb_ℤ}
use game_server_orchestrator.Prelude.Int32.{add32, sub32, wrap32}
use game_server_orchestrator.Prelude.Dict.{get_or}
use game_server_orchestrator.Pool.Scheduler.{GameServerInfo, select_for_drain}
use game_server_orchestrator.Pool.State.{
  FleetPoolConfig, PoolManager, PoolStats, ServerPool, ServerPoolState, pool_of, is_eligible,
  candidate,
}

abbrev pub zero_stats : PoolStats
zero_stats = record {
  total = pos 0;
  healthy = pos 0;
  unhealthy = pos 0;
  allocated = pos 0;
  buffer_available = pos 0;
}

-- The body of the loop in `statsLocked`.
unfoldable pub count_server : ServerPoolState → PoolStats → PoolStats
count_server s stats =
    if s.healthy
    then (if not s.allocated
        then record stats {
          healthy = add32 stats.healthy (pos 1);
          buffer_available = add32 stats.buffer_available (pos 1);
        }
        else record stats {
          healthy = add32 stats.healthy (pos 1);
          allocated = add32 stats.allocated (pos 1);
        })
    else record stats { unhealthy = add32 stats.unhealthy (pos 1) }

unfoldable pub count_servers : ServerPool → PoolStats → PoolStats
count_servers [] stats = stats
count_servers ((name, s) ∷ pool) stats = count_servers pool (count_server s stats)

-- `Stats`, `statsLocked`
unfoldable pub stats : PoolManager → String → PoolStats
stats pm fleet = elim (pool_of pm fleet) [
  | none ↦ zero_stats
  | some pool ↦ count_servers pool (record zero_stats { total = wrap32 (pos (length pool)) })
]

abbrev pub zero_config : FleetPoolConfig
zero_config = record { buffer_size = pos 0; idle_timeout = pos 0 }

abbrev pub config_of : PoolManager → String → FleetPoolConfig
config_of pm fleet = get_or zero_config fleet pm.configs

-- An available server that was last used more than the timeout ago.
unfoldable pub is_idle : ℤ → ℤ → ServerPoolState → Bool
is_idle now timeout s = is_eligible s && ltb_ℤ timeout (now -ℤ s.last_used_at)

unfoldable pub idle_candidates : ℤ → ℤ → ServerPool → List GameServerInfo
idle_candidates now timeout [] = []
idle_candidates now timeout ((name, s) ∷ pool) =
    if is_idle now timeout s
    then candidate name s ∷ idle_candidates now timeout pool
    else idle_candidates now timeout pool

-- `IdleServers`
unfoldable pub idle_servers : ℤ → String → PoolManager → List String
idle_servers now fleet pm = elim (pool_of pm fleet) [
  | none ↦ []
  | some pool ↦
      if leb_ℤ (config_of pm fleet).idle_timeout (pos 0)
      then []
      else (let candidates = idle_candidates now (config_of pm fleet).idle_timeout pool in
          map (λ c. c.name) (select_for_drain candidates (length candidates)))
]

-- `NeedsRefill`
unfoldable pub needs_refill : PoolManager → String → Bool
needs_refill pm fleet = ltb_ℤ (stats pm fleet).buffer_available (config_of pm fleet).buffer_size

-- `RefillCount`
unfoldable pub refill_count : PoolManager → String → ℤ
refill_count pm fleet =
    let needed = sub32 (config_of pm fleet).buffer_size (stats pm fleet).buffer_available in
    if ltb_ℤ needed (pos 0) then pos 0 else needed
