-- ===== src/Health.antt =====
-- pkg/health/node_filter.go and pkg/health/nhw_client.go: which nodes may run game servers, by the
-- answer of the Node Health Watcher.
pub mod Partition
use game_server_orchestrator.Prelude.{
  String, Bool, Option, none, some, List, [], ◌∷◌, ◌++◌, if◌then◌else◌,
}
use game_server_orchestrator.Prelude.Int.{ℤ}
use game_server_orchestrator.Prelude.Text.{str_eq, ◌<>◌}
use game_server_orchestrator.Prelude.Dict.{Dict}
use game_server_orchestrator.Prelude.Result.{Result, ok, err}
use game_server_orchestrator.Web.{Web, FetchError, get_json}

pub record NodeHealth : Type 0 where
  pub status : String
  pub score : ℤ
  pub reason : String

-- What a provider answers: an error, or the nodes by name.
abbrev pub NodeAnswer : Type 0
NodeAnswer = Result FetchError (Dict NodeHealth)

-- The loop of `HealthyNodes`, on the two lists that it appends to.
unfoldable pub sort_nodes : Dict NodeHealth → List String × List String → List String × List String
sort_nodes [] acc = acc
sort_nodes ((name, h) ∷ nodes) (healthy, unhealthy) = sort_nodes nodes (
    if str_eq h.status "HEALTHY"
    then (healthy ++ name ∷ [], unhealthy)
    else if str_eq h.status "WARNING"
    then (healthy ++ name ∷ [], unhealthy)
    else if str_eq h.status "CRITICAL"
    then (healthy, unhealthy ++ name ∷ [])
    else (healthy ++ name ∷ [], unhealthy))

-- `HealthyNodes`; without a provider there are no nodes to report.
unfoldable pub healthy_nodes : Option NodeAnswer → Result FetchError (List String × List String)
healthy_nodes none = ok ([], [])
healthy_nodes (some (err e)) = err e
healthy_nodes (some (ok nodes)) = ok (sort_nodes nodes ([], []))

-- `NHWClient` without its HTTP client.
pub record NhwClient : Type 0 where
  pub endpoint : String

-- `GetNodeHealth`, where `decode` reads the nodes of an `nhwResponse`.
unfoldable pub get_node_health :
    {B W : Type 0} → Web B W → (B → Option (Dict NodeHealth)) → NhwClient → W → NodeAnswer × W
get_node_health web decode c w = get_json web decode (c.endpoint <> "/api/v1/node-health") w

-- `HealthyNodes` of a filter with this client as its provider, or without a provider.
unfoldable pub filter_nodes :
    {B W : Type 0}
    → Web B W
    → (B → Option (Dict NodeHealth))
    → Option NhwClient
    → W
    → Result FetchError (List String × List String) × W
filter_nodes web decode none w = (healthy_nodes none, w)
filter_nodes web decode (some c) w =
    let (answer, w') = get_node_health web decode c w in (healthy_nodes (some answer), w')
