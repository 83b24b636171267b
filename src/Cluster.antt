-- ===== src/Cluster.antt =====
-- The Kubernetes client of the controllers, as an interface, with the metrics that they record where
-- they use it: each call takes the state `W` of the
-- outside world, with what others do to it in the meantime, and may answer anything.
use game_server_orchestrator.Prelude.{
  String, ◌≡◌, Bool, true, ◌&&◌, ◌||◌, Option, none, some, List, [], ◌∷◌, arith, inl, inr,
  Bool-cases, Option-cases, if◌then◌else◌,
}
use game_server_orchestrator.Prelude.Int.{ℤ, pos, ◌<ℤ◌, ltb_ℤ}
use game_server_orchestrator.Prelude.Text.{str_eq}
use game_server_orchestrator.Prelude.Dict.{Dict, insert}
use game_server_orchestrator.Prelude.Result.{Result}
use game_server_orchestrator.V1alpha1.Policy.{AllocationStrategy}
use game_server_orchestrator.V1alpha1.Fleet.{Pod, Container, ContainerPort}
use game_server_orchestrator.V1alpha1.Allocation.{GameServerAllocation}

-- `client.IgnoreNotFound` tells the two failures of a Get apart.
pub data GetError : Type 0 where
  not_found get_failed : GetError

-- `none` and `false` stand for an error. A namespace comes before a name.
pub record Client (W : Type 0) : Type 0 where
  pub get_pod : String → String → W → Option Pod × W
  pub list_pods : String → Dict String → W → Option (List Pod) × W
  -- The name that the server has given to the pod.
  pub create_pod : Pod → W → Option String × W
  -- The pod as the server answers with it.
  pub patch_pod : Pod → W → Option Pod × W
  pub delete_pod : String → String → W → Bool × W
  pub get_allocation : String → String → W → Result GetError GameServerAllocation × W
  pub update_allocation : String → String → GameServerAllocation → W → Bool × W
  -- `RecordAllocation` of a fleet, a strategy and a phase, with the time since the start of the call.
  pub count_allocation : String → AllocationStrategy → String → W → W
  -- The duration of a drain of a fleet, observed in `DrainDuration`.
  pub observe_drain : String → ℤ → W → W

abbrev pub fleet_label : String
fleet_label = "director.gamefleet.io/fleet"

abbrev pub phase_label : String
phase_label = "director.gamefleet.io/phase"

abbrev pub with_phase : String → Pod → Pod
with_phase phase pod = record pod { labels = insert phase_label phase pod.labels }

-- `patchPodLabel` of the one controller and `patchPodPhase` of the other.
unfoldable pub patch_pod_phase : {W : Type 0} → Client W → String → Pod → W → Option Pod × W
patch_pod_phase cl phase pod w = cl.patch_pod (with_phase phase pod) w

-- The first port that a test accepts.
unfoldable pub find_port : (ContainerPort → Bool) → List ContainerPort → Option ℤ
find_port test [] = none
find_port test (p ∷ ports) = if test p then some p.container_port else find_port test ports

unfoldable pub find_in_containers : (ContainerPort → Bool) → List Container → Option ℤ
find_in_containers test [] = none
find_in_containers test (c ∷ cs) = elim (find_port test c.ports) [
  | some port ↦ some port
  | none ↦ find_in_containers test cs
]

unfoldable pub first_port : List Container → Option ℤ
first_port [] = none
first_port (c ∷ cs) = elim c.ports [ [] ↦ none | p ∷ ports ↦ some p.container_port ]

abbrev pub is_game_port : ContainerPort → Bool
is_game_port p = ltb_ℤ (pos 0) p.container_port && (str_eq p.name "game" || str_eq p.protocol "UDP")

-- `findGamePort`
unfoldable pub find_game_port : List Container → ℤ
find_game_port cs = elim (find_in_containers is_game_port cs) [
  | some port ↦ port
  | none ↦ elim (first_port cs) [ some port ↦ port | none ↦ pos 7777 ]
]

abbrev pub is_http_port : ContainerPort → Bool
is_http_port p = ltb_ℤ (pos 0) p.container_port && (str_eq p.name "metrics" || str_eq p.name "http")

abbrev pub is_tcp_port : ContainerPort → Bool
is_tcp_port p = ltb_ℤ (pos 0) p.container_port && str_eq p.protocol "TCP"

-- `findMetricsPort`
unfoldable pub find_metrics_port : List Container → ℤ
find_metrics_port cs = elim (find_in_containers is_http_port cs) [
  | some port ↦ port
  | none ↦ elim (find_in_containers is_tcp_port cs) [
    | some port ↦ port
    | none ↦ elim (first_port cs) [
      | some port ↦ if ltb_ℤ (pos 0) port then port else pos 8080
      | none ↦ pos 8080
    ]
  ]
]

find_port-accepted :
    (test : ContainerPort → Bool) (ports : List ContainerPort) (port : ℤ)
    → ((p : ContainerPort) → test p ≡ true → ltb_ℤ (pos 0) p.container_port ≡ true)
    → find_port test ports ≡ some port
    → ltb_ℤ (pos 0) port ≡ true
unfolding find_port
find_port-accepted test [] port h e = absurd (cc e)
find_port-accepted test (p ∷ ports) port h e = elim (Bool-cases (test p)) [
  | inl accepted ↦ ground (arith, accepted, e, h p accepted)
  | inr refused ↦ find_port-accepted test ports port h (ground (arith, refused, e))
]

find_in_containers-accepted :
    (test : ContainerPort → Bool) (cs : List Container) (port : ℤ)
    → ((p : ContainerPort) → test p ≡ true → ltb_ℤ (pos 0) p.container_port ≡ true)
    → find_in_containers test cs ≡ some port
    → ltb_ℤ (pos 0) port ≡ true
unfolding find_in_containers
find_in_containers-accepted test [] port h e = absurd (cc e)
find_in_containers-accepted test (c ∷ cs) port h e = elim (Option-cases (find_port test c.ports)) [
  | inl none_here ↦ find_in_containers-accepted test cs port h (ground (arith, none_here, e))
  | inr (q, here) ↦ find_port-accepted test c.ports port h (ground (arith, here, e))
]

-- The port for metrics, health and sessions is positive, whatever ports the containers declare.
find_metrics_port_positive : (cs : List Container) → pos 0 <ℤ find_metrics_port cs
unfolding find_metrics_port
find_metrics_port_positive cs = elim (Option-cases (find_in_containers is_http_port cs)) [
  | inr (p, e) ↦
      ground (arith, e, find_in_containers-accepted is_http_port cs p (λ q h. ground (arith, h)) e)
  | inl no_http ↦ elim (Option-cases (find_in_containers is_tcp_port cs)) [
    | inr (p, e) ↦ ground (
      arith,
      no_http,
      e,
      find_in_containers-accepted is_tcp_port cs p (λ q h. ground (arith, h)) e,
    )
    | inl no_tcp ↦ ground (arith, no_http, no_tcp)
  ]
]
