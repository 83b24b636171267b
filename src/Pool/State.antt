-- ===== src/Pool/State.antt =====
-- pkg/pool/pool.go: the manager's state, and the methods that change it.
use game_server_orchestrator.Prelude.{
  String, ℕ, ◌+◌, ◌%◌, Bool, true, false, not, ◌&&◌, Option, none, some, List, [], ◌∷◌, filter,
  length, get_elem?, ltb, ◌==◌, if◌then◌else◌,
}
use game_server_orchestrator.Prelude.Int.{ℤ, pos}
use game_server_orchestrator.Prelude.Int32.{add32}
use game_server_orchestrator.Prelude.Text.{str_eq, str_lt}
use game_server_orchestrator.Prelude.Dict.{Dict, lookup, insert, erase, get_or}
use game_server_orchestrator.Prelude.Sort.{sort_slice}
use game_server_orchestrator.Prelude.Result.{Result, ok, err}
use game_server_orchestrator.V1alpha1.Policy.{AllocationStrategy, allocation_round_robin}
use game_server_orchestrator.Pool.Scheduler.{GameServerInfo, rank_and_select}

-- The durations are in nanoseconds, the sizes int32 values.
pub record FleetPoolConfig : Type 0 where
  pub buffer_size : ℤ
  pub idle_timeout : ℤ

pub record ServerPoolState : Type 0 where
  pub name : String
  pub allocated : Bool
  pub healthy : Bool
  pub last_used_at : ℤ
  pub allocation_count : ℤ

abbrev pub ServerPool : Type 0
ServerPool = Dict ServerPoolState

pub record PoolManager : Type 0 where
  pub pools : Dict ServerPool
  pub configs : Dict FleetPoolConfig
  pub round_robin_idx : Dict ℕ

pub record PoolStats : Type 0 where
  pub total : ℤ
  pub healthy : ℤ
  pub unhealthy : ℤ
  pub allocated : ℤ
  pub buffer_available : ℤ

-- The two errors of an allocation.
pub data PoolError : Type 0 where
  no_pool no_server : String → PoolError

-- A nil map of a missing fleet reads as an empty one, and counts as none where the code tests it.
abbrev pub pool_of : PoolManager → String → Option ServerPool
pool_of pm fleet = lookup fleet pm.pools

abbrev pub server_of : PoolManager → String → String → Option ServerPoolState
server_of pm fleet name = elim (pool_of pm fleet) [ none ↦ none | some pool ↦ lookup name pool ]

-- `NewPoolManager`
abbrev pub new_pool_manager : PoolManager
new_pool_manager = record { pools = []; configs = []; round_robin_idx = [] }

-- `UpdateFleetConfig`
unfoldable pub update_fleet_config : PoolManager → String → FleetPoolConfig → PoolManager
update_fleet_config pm fleet cfg = record pm { configs = insert fleet cfg pm.configs }

-- `ensureFleetLocked`
unfoldable pub ensure_fleet : PoolManager → String → PoolManager
ensure_fleet pm fleet = elim (pool_of pm fleet) [
  | none ↦ record pm { pools = insert fleet [] pm.pools }
  | some _ ↦ pm
]

-- Write through the pointer that a pool holds for a name, if it holds one.
unfoldable pub update_in : String → (ServerPoolState → ServerPoolState) → ServerPool → ServerPool
update_in name f pool = elim (lookup name pool) [ none ↦ pool | some s ↦ insert name (f s) pool ]

unfoldable pub update_server :
    PoolManager → String → String → (ServerPoolState → ServerPoolState) → PoolManager
update_server pm fleet name f = elim (pool_of pm fleet) [
  | none ↦ pm
  | some pool ↦ record pm { pools = insert fleet (update_in name f pool) pm.pools }
]

abbrev pub fresh_server : ℤ → String → ServerPoolState
fresh_server now name = record {
  name = name;
  allocated = false;
  healthy = true;
  last_used_at = now;
  allocation_count = pos 0;
}

unfoldable pub register_in : ℤ → String → ServerPool → ServerPool
register_in now name pool = elim (lookup name pool) [
  | none ↦ insert name (fresh_server now name) pool
  | some _ ↦ pool
]

-- `Register`
unfoldable pub register : ℤ → String → String → PoolManager → PoolManager
register now fleet name pm =
    let pm' = ensure_fleet pm fleet in
    record pm' { pools = insert fleet (register_in now name (get_or [] fleet pm'.pools)) pm'.pools }

-- The fields that an allocation writes.
unfoldable pub take_server : ℤ → ServerPoolState → ServerPoolState
take_server now s = record s {
  allocated = true;
  last_used_at = now;
  allocation_count = add32 s.allocation_count (pos 1);
}

abbrev pub is_eligible : ServerPoolState → Bool
is_eligible s = not s.allocated && s.healthy

abbrev pub candidate : String → ServerPoolState → GameServerInfo
candidate name s = record {
  name = name;
  endpoint = "";
  node = "";
  player_count = s.allocation_count;
  latency_ms = pos 0;
  allocated = false;
}

-- `collectCandidatesLocked`, over one fleet's pool.
unfoldable pub collect_candidates : ServerPool → List GameServerInfo
collect_candidates [] = []
collect_candidates ((name, s) ∷ pool) =
    if is_eligible s then candidate name s ∷ collect_candidates pool else collect_candidates pool

abbrev pub by_name : GameServerInfo → GameServerInfo → Bool
by_name a b = str_lt a.name b.name

-- The choice among the candidates, with the round-robin index that it writes, if it writes one.
-- The second `none` would be an index past the end; `%` by the length rules it out.
unfoldable pub choose : List GameServerInfo → AllocationStrategy → ℕ → Option (String × Option ℕ)
choose candidates strategy idx =
    if length candidates == 0
    then none
    else if str_eq strategy allocation_round_robin
    then elim (get_elem? (sort_slice by_name candidates) (idx % length candidates)) [
      | none ↦ none
      | some c ↦ some (c.name, some (idx % length candidates + 1))
    ]
    else elim (rank_and_select candidates strategy []) [
      | none ↦ none
      | some c ↦ some (c.name, none)
    ]

abbrev pub store_index : String → Option ℕ → Dict ℕ → Dict ℕ
store_index fleet none m = m
store_index fleet (some i) m = insert fleet i m

-- The names that a selector allows; no names allow all.
abbrev pub is_allowed : Dict Bool → String → Bool
is_allowed allowed name = get_or false name allowed

unfoldable pub restrict : Dict Bool → List GameServerInfo → List GameServerInfo
restrict allowed candidates =
    if ltb 0 (length allowed)
    then filter (λ c. is_allowed allowed c.name) candidates
    else candidates

-- The last step of both allocations: write the chosen server and the index.
unfoldable pub grant :
    ℤ → String → PoolManager → Option (String × Option ℕ) → Result PoolError String × PoolManager
grant now fleet pm none = (err (no_server fleet), pm)
grant now fleet pm (some (name, idx)) = (
  ok name,
  record (update_server pm fleet name (take_server now)) {
    round_robin_idx = store_index fleet idx pm.round_robin_idx;
  },
)

-- `Allocate`
unfoldable pub allocate :
    ℤ → String → AllocationStrategy → PoolManager → Result PoolError String × PoolManager
allocate now fleet strategy pm = elim (pool_of pm fleet) [
  | none ↦ (err (no_pool fleet), pm)
  | some pool ↦
      grant now fleet pm
        (choose (collect_candidates pool) strategy (get_or 0 fleet pm.round_robin_idx))
]

-- `AllocateWithFilter`
unfoldable pub allocate_with_filter :
    ℤ
    → String
    → AllocationStrategy
    → Dict Bool
    → PoolManager
    → Result PoolError String × PoolManager
allocate_with_filter now fleet strategy allowed pm = elim (pool_of pm fleet) [
  | none ↦ (err (no_pool fleet), pm)
  | some pool ↦ grant now fleet pm (
      choose (restrict allowed (collect_candidates pool)) strategy
        (get_or 0 fleet pm.round_robin_idx))
]

-- `Release`
unfoldable pub release_server : ℤ → ServerPoolState → ServerPoolState
release_server now s = record s { allocated = false; last_used_at = now }

unfoldable pub release : ℤ → String → String → PoolManager → PoolManager
release now fleet name pm = update_server pm fleet name (release_server now)

-- `MarkAllocated`, `MarkAvailable` and `MarkUnhealthy`
unfoldable pub mark_allocated : ℤ → String → String → PoolManager → PoolManager
mark_allocated now fleet name pm =
    update_server (ensure_fleet pm fleet) fleet name (take_server now)

unfoldable pub free_server : ℤ → ServerPoolState → ServerPoolState
free_server now s = record s { allocated = false; healthy = true; last_used_at = now }

unfoldable pub mark_available : ℤ → String → String → PoolManager → PoolManager
mark_available now fleet name pm =
    update_server (ensure_fleet pm fleet) fleet name (free_server now)

unfoldable pub sicken : ServerPoolState → ServerPoolState
sicken s = record s { healthy = false }

unfoldable pub mark_unhealthy : String → String → PoolManager → PoolManager
mark_unhealthy fleet name pm = update_server (ensure_fleet pm fleet) fleet name sicken

-- `Remove`
unfoldable pub remove : String → String → PoolManager → PoolManager
remove fleet name pm = elim (pool_of pm fleet) [
  | none ↦ pm
  | some pool ↦ record pm { pools = insert fleet (erase name pool) pm.pools }
]
