-- ===== src/Allocator.antt =====
-- pkg/controller/alloc_controller.go: allocations, by the REST API and by the resource. One time
-- `now` stands for the instants of one call.
pub mod Rollback
pub mod Reconcile
pub mod Ownership
pub mod Selectors
use game_server_orchestrator.Prelude.{
  String, ◌<◌, ◌≡◌, Bool, true, false, not, ◌&&◌, ◌||◌, Option, none, some, List, [], ◌∷◌, length,
  ltb, if◌then◌else◌,
}
use game_server_orchestrator.Prelude.Int.{ℤ, pos, ◌-ℤ◌, ◌*ℤ◌, ltb_ℤ}
use game_server_orchestrator.Prelude.Text.{str_eq}
use game_server_orchestrator.Prelude.Dict.{Dict, insert}
use game_server_orchestrator.Prelude.Result.{Result, ok, err}
use game_server_orchestrator.V1alpha1.Fleet.{Pod, Endpoint}
use game_server_orchestrator.V1alpha1.Policy.{AllocationStrategy, allocation_fewest_players}
use game_server_orchestrator.V1alpha1.Allocation.{
  GameServerAllocation, AllocatedGameServer, allocation_pending, allocation_allocated,
  allocation_failed,
}
use game_server_orchestrator.Pool.State.{PoolManager, PoolError, allocate_with_filter, release}
use game_server_orchestrator.Drainer.{second}
use game_server_orchestrator.Cluster.{
  Client, GetError, not_found, get_failed, fleet_label, patch_pod_phase, with_phase, find_game_port,
}

pub record AllocateResult : Type 0 where
  pub server_name : String
  pub endpoint : Endpoint
  pub node : String

-- The errors, with the name of the server.
pub data AllocError : Type 0 where
  no_available_server : PoolError → AllocError
  no_pod not_labelled not_recorded : String → AllocError

-- What a reconciliation returns.
pub data Reply : Type 0 where
  finished requeue_soon get_error : Reply
  status_error : Reply
  alloc_error : AllocError → Reply

abbrev pub pod_endpoint : Pod → Endpoint
pod_endpoint pod = record { host = pod.pod_ip; port = find_game_port pod.containers }

abbrev name_set : List Pod → Dict Bool
name_set [] = []
name_set (pod ∷ pods) = insert pod.name true (name_set pods)

abbrev merge_labels : Dict String → Dict String → Dict String
merge_labels [] acc = acc
merge_labels ((k, v) ∷ labels) acc = merge_labels labels (insert k v acc)

abbrev pub failed_status : GameServerAllocation → GameServerAllocation
failed_status alloc = record alloc {
  status = record alloc.status { phase = allocation_failed; message = "allocation TTL exceeded" };
}

abbrev pub allocated_status : ℤ → String → Pod → GameServerAllocation → GameServerAllocation
allocated_status now name pod alloc = record alloc {
  status = record alloc.status {
    phase = allocation_allocated;
    game_server = some (record { name = name; endpoint = pod_endpoint pod; node = pod.node_name });
    allocated_at = some now;
    session_id = some now;
  };
}

-- A resource that a reconciliation works on.
abbrev pub is_pending : GameServerAllocation → Bool
is_pending alloc = str_eq alloc.status.phase "" || str_eq alloc.status.phase allocation_pending

abbrev pub is_expired : ℤ → GameServerAllocation → Bool
is_expired now alloc =
    ltb_ℤ (pos 0) alloc.spec.ttl_seconds
    && ltb_ℤ (alloc.spec.ttl_seconds *ℤ second) (now -ℤ alloc.creation_timestamp)

abbrev pub strategy_of : GameServerAllocation → AllocationStrategy
strategy_of alloc =
    if str_eq alloc.spec.strategy "" then allocation_fewest_players else alloc.spec.strategy

module _ {W : Type 0} (cl : Client W) where
  -- The two steps after the choice of a server, in both kinds of allocation: read the pod and label
  -- it. If one fails, the server goes back to the pool.
  unfoldable pub confirm :
      ℤ → String → String → String → PoolManager → W → Result AllocError Pod × (PoolManager × W)
  confirm now fleet ns name pm w =
      let (found, w') = cl.get_pod ns name w in
      elim found [
        | none ↦ (err (no_pod name), (release now fleet name pm, w'))
        | some pod ↦
            let (answer, w'') = patch_pod_phase cl "allocated" pod w' in
            elim answer [
              | none ↦ (err (not_labelled name), (release now fleet name pm, w''))
              | some labelled ↦ (ok labelled, (pm, w''))
            ]
      ]

  unfoldable pub answer_with :
      String
      → Result AllocError Pod × (PoolManager × W)
      → Result AllocError AllocateResult × (PoolManager × W)
  answer_with name (err e, rest) = (err e, rest)
  answer_with name (ok pod, rest) =
      (ok (record { server_name = name; endpoint = pod_endpoint pod; node = pod.node_name }), rest)

  -- `Allocate`
  unfoldable pub allocate_server :
      ℤ
      → String
      → String
      → AllocationStrategy
      → PoolManager
      → W
      → Result AllocError AllocateResult × (PoolManager × W)
  allocate_server now fleet ns strategy pm w =
      let (chosen, pm') = allocate_with_filter now fleet strategy [] pm in
      elim chosen [
        | err e ↦ (err (no_available_server e), (pm', w))
        | ok name ↦ answer_with name (confirm now fleet ns name pm' w)
      ]

  -- `Release`, which has no error to return.
  unfoldable pub release_allocated :
      ℤ → String → String → String → PoolManager → W → PoolManager × W
  release_allocated now fleet ns name pm w =
      let (found, w') = cl.get_pod ns name w in
      (
        release now fleet name pm,
        elim found [ none ↦ w' | some pod ↦ (patch_pod_phase cl "warm" pod w').1 ],
      )

  -- The names of the pods that match the selectors. Without selectors, or if the list fails, the
  -- set is nil, which like an empty one does not restrict the allocation.
  unfoldable pub allowed_names : String → GameServerAllocation → W → Dict Bool × W
  allowed_names ns alloc w =
      if ltb 0 (length alloc.spec.match_labels)
      then (let (pods, w') =
            cl.list_pods ns
              (merge_labels alloc.spec.match_labels ((fleet_label, alloc.spec.fleet_ref) ∷ [])) w in
          elim pods [ none ↦ ([], w') | some items ↦ (name_set items, w') ])
      else ([], w)

  -- The last step of `Reconcile`: write the status, or take everything back.
  unfoldable pub record_allocated :
      ℤ
      → String
      → String
      → String
      → GameServerAllocation
      → Pod
      → PoolManager
      → W
      → Reply × (PoolManager × W)
  record_allocated now ns req name alloc pod pm w =
      let (written, w') = cl.update_allocation ns req (allocated_status now name pod alloc) w in
      if written
      then (
        finished,
        (pm, cl.count_allocation alloc.spec.fleet_ref (strategy_of alloc) "Allocated" w'),
      )
      else (
        alloc_error (not_recorded name),
        (release now alloc.spec.fleet_ref name pm, (patch_pod_phase cl "warm" pod w').1),
      )

  unfoldable pub record_confirmed :
      ℤ
      → String
      → String
      → String
      → GameServerAllocation
      → Result AllocError Pod × (PoolManager × W)
      → Reply × (PoolManager × W)
  record_confirmed now ns req name alloc (err e, rest) = (alloc_error e, rest)
  record_confirmed now ns req name alloc (ok pod, (pm, w)) =
      record_allocated now ns req name alloc pod pm w

  -- `Reconcile` of a pending resource in time, from the choice of a server on.
  unfoldable pub serve :
      ℤ → String → String → GameServerAllocation → PoolManager → W → Reply × (PoolManager × W)
  serve now ns req alloc pm w =
      let (allowed, w') = allowed_names ns alloc w in
      let (chosen, pm') =
        allocate_with_filter now alloc.spec.fleet_ref (strategy_of alloc) allowed pm in
      elim chosen [
        | err e ↦ (requeue_soon, (pm', w'))
        | ok name ↦
            record_confirmed now ns req name alloc (confirm now alloc.spec.fleet_ref ns name pm' w')
      ]

  -- `Reconcile` after its read of the resource.
  unfoldable pub dispatch :
      ℤ
      → String
      → String
      → PoolManager
      → Result GetError GameServerAllocation × W
      → Reply × (PoolManager × W)
  dispatch now ns req pm (err not_found, w) = (finished, (pm, w))
  dispatch now ns req pm (err get_failed, w) = (get_error, (pm, w))
  dispatch now ns req pm (ok alloc, w) =
      if not (is_pending alloc)
      then (finished, (pm, w))
      else if is_expired now alloc
      then (let (written, w') = cl.update_allocation ns req (failed_status alloc) w in
          (
            (if written then finished else status_error),
            (
              pm,
              (if written
                  then cl.count_allocation alloc.spec.fleet_ref alloc.spec.strategy "Failed" w'
                  else w'),
            ),
          ))
      else serve now ns req alloc pm w

  -- `Reconcile`
  unfoldable pub reconcile_allocation :
      ℤ → String → String → PoolManager → W → Reply × (PoolManager × W)
  reconcile_allocation now ns req pm w = dispatch now ns req pm (cl.get_allocation ns req w)
