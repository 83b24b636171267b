-- ===== src/V1alpha1/Allocation.antt =====
-- api/v1alpha1/gameserverallocation_types.go.
use game_server_orchestrator.Prelude.{String, Option}
use game_server_orchestrator.Prelude.Int.{ℤ}
use game_server_orchestrator.Prelude.Dict.{Dict}
use game_server_orchestrator.V1alpha1.Fleet.{Endpoint}
use game_server_orchestrator.V1alpha1.Policy.{AllocationStrategy}

-- AllocationPhase, a string, which is empty in a new resource.
abbrev pub allocation_pending : String
allocation_pending = "Pending"

abbrev pub allocation_allocated : String
allocation_allocated = "Allocated"

abbrev pub allocation_failed : String
allocation_failed = "Failed"

pub record AllocatedGameServer : Type 0 where
  pub name : String
  pub endpoint : Endpoint
  pub node : String

pub record GameServerAllocationSpec : Type 0 where
  pub fleet_ref : String
  pub match_labels : Dict String
  pub strategy : AllocationStrategy
  pub ttl_seconds : ℤ

pub record GameServerAllocationStatus : Type 0 where
  pub phase : String
  pub game_server : Option AllocatedGameServer
  pub allocated_at : Option ℤ
  -- "session-%d" of the time in nanoseconds, kept as that time.
  pub session_id : Option ℤ
  pub message : String

pub record GameServerAllocation : Type 0 where
  pub creation_timestamp : ℤ
  pub spec : GameServerAllocationSpec
  pub status : GameServerAllocationStatus
