-- ===== src/Director/Sync.antt =====
-- The state that a reconciliation rebuilds from the labels of the pods, and the figures it counts.
use game_server_orchestrator.Prelude.{
  String, Bool, not, ◌&&◌, Option, none, some, List, [], ◌∷◌, length, if◌then◌else◌,
}
use game_server_orchestrator.Prelude.Int.{ℤ, pos}
use game_server_orchestrator.Prelude.Int32.{add32, wrap32}
use game_server_orchestrator.Prelude.Text.{str_eq}
use game_server_orchestrator.Prelude.Dict.{Dict, lookup, insert, get_or}
use game_server_orchestrator.V1alpha1.Fleet.{GameServerFleet, GameServerFleetStatus, Pod, Endpoint}
use game_server_orchestrator.Pool.State.{
  PoolManager, register, mark_allocated, mark_unhealthy, mark_available,
}
use game_server_orchestrator.Drainer.{ServerState, drain}
use game_server_orchestrator.Cluster.{Client, phase_label, fleet_label}
use game_server_orchestrator.Director.{FleetReconciler, metrics_endpoint}

abbrev pub phase_of : Pod → String
phase_of pod = get_or "" phase_label pod.labels

abbrev pub is_running : Pod → Bool
is_running pod = str_eq pod.pod_phase "Running"

-- What the loop of `syncPoolFromLabels` does to the pool for a running pod.
unfoldable pub sync_server : ℤ → String → Pod → PoolManager → PoolManager
sync_server now fleet pod pm =
    let registered = register now fleet pod.name pm in
    if str_eq (phase_of pod) "allocated"
    then mark_allocated now fleet pod.name registered
    else if str_eq (phase_of pod) "draining"
    then mark_unhealthy fleet pod.name registered
    else mark_available now fleet pod.name registered

-- The drain state of a restart, whose forced deadline is the zero time.
abbrev pub recovered : ℤ → GameServerFleet → Pod → ServerState
recovered now fleet pod = record {
  name = pod.name;
  endpoint =
      (if str_eq pod.pod_ip ""
        then metrics_endpoint pod.name fleet
        else metrics_endpoint pod.pod_ip fleet);
  phase = drain;
  active_sessions = pos 0;
  entered_at = now;
  last_checked_at = now;
  forced_deadline = pos 0;
}

-- What it does to the drain states.
unfoldable pub sync_drain : ℤ → GameServerFleet → Pod → Dict ServerState → Dict ServerState
sync_drain now fleet pod states =
    if str_eq (phase_of pod) "draining"
    then elim (lookup pod.name states) [
      | some _ ↦ states
      | none ↦ insert pod.name (recovered now fleet pod) states
    ]
    else states

unfoldable pub sync_pods :
    ℤ → GameServerFleet → List Pod → PoolManager × Dict ServerState → PoolManager × Dict ServerState
sync_pods now fleet [] (pm, states) = (pm, states)
sync_pods now fleet (pod ∷ pods) (pm, states) = sync_pods now fleet pods (
    if is_running pod
    then (sync_server now fleet.name pod pm, sync_drain now fleet pod states)
    else (pm, states))

-- With the answer to the list, `none` for a failure, which changes nothing and is only logged.
unfoldable pub sync_listed :
    ℤ → GameServerFleet → FleetReconciler → Option (List Pod) → FleetReconciler
sync_listed now fleet r none = r
sync_listed now fleet r (some items) =
    let (pm, states) = sync_pods now fleet items (r.pool, r.drain_states) in
    record r { pool = pm; drain_states = states }

-- `syncPoolFromLabels`
unfoldable pub sync_pool_from_labels :
    {W : Type 0} → Client W → ℤ → GameServerFleet → FleetReconciler → W → FleetReconciler × W
sync_pool_from_labels cl now fleet r w =
    let (pods, w') = cl.list_pods fleet.fleet_namespace ((fleet_label, fleet.name) ∷ []) w in
    (sync_listed now fleet r pods, w')

-- The pods that are scraped.
unfoldable pub endpoints : GameServerFleet → List Pod → List Endpoint
endpoints fleet [] = []
endpoints fleet (pod ∷ pods) =
    let rest = endpoints fleet pods in
    if not (str_eq pod.pod_ip "") && is_running pod
    then metrics_endpoint pod.pod_ip fleet ∷ rest
    else rest

-- The counters of `collectFleetMetrics`: allocated, draining and warm pods.
pub record PodCounts : Type 0 where
  pub allocated : ℤ
  pub draining : ℤ
  pub warm : ℤ

unfoldable pub count_pod : Pod → PodCounts → PodCounts
count_pod pod c =
    if str_eq (phase_of pod) "allocated"
    then record c { allocated = add32 c.allocated (pos 1) }
    else if str_eq (phase_of pod) "draining"
    then record c { draining = add32 c.draining (pos 1) }
    else if is_running pod
    then record c { warm = add32 c.warm (pos 1) }
    else c

unfoldable pub count_pods : List Pod → PodCounts → PodCounts
count_pods [] c = c
count_pods (pod ∷ pods) c = count_pods pods (count_pod pod c)

-- The snapshot, which `applyStatusSnapshot` copies to the fleet, with the players of the scrape.
unfoldable pub snapshot : ℤ → List Pod → GameServerFleetStatus
snapshot players pods =
    let c = count_pods pods (record { allocated = pos 0; draining = pos 0; warm = pos 0 }) in
    record {
      replicas = wrap32 (pos (length pods));
      ready_replicas = add32 c.warm c.allocated;
      allocated_replicas = c.allocated;
      draining_replicas = c.draining;
      buffer_pool = c.warm;
      total_players = players;
    }
