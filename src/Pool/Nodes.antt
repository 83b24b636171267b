-- ===== src/Pool/Nodes.antt =====
-- pkg/pool/pool.go: the choice of healthy nodes. `filter_answer` stands for the node filter: `none`
-- without one, else what its provider answers.
use game_server_orchestrator.Prelude.{
  String, Bool, true, false, not, Option, none, some, List, [], ◌∷◌, filter, if◌then◌else◌,
}
use game_server_orchestrator.Prelude.Dict.{Dict, insert, get_or}
use game_server_orchestrator.Prelude.Result.{ok, err}
use game_server_orchestrator.V1alpha1.Policy.{NodeHealthConfig}
use game_server_orchestrator.Health.{NodeAnswer, healthy_nodes}

abbrev pub healthy_set : List String → Dict Bool
healthy_set [] = []
healthy_set (n ∷ ns) = insert n true (healthy_set ns)

-- `FilterNodesByHealth`, which never returns an error.
unfoldable pub filter_nodes_by_health :
    {F : Type 0}
    → Option (Option NodeAnswer)
    → List String
    → Option (NodeHealthConfig F)
    → List String
filter_nodes_by_health none candidates cfg = candidates
filter_nodes_by_health (some provider) candidates none = candidates
filter_nodes_by_health (some provider) candidates (some cfg) =
    if not cfg.enabled then candidates else elim (healthy_nodes provider) [
      | err e ↦ candidates
      | ok (healthy, unhealthy) ↦ filter (λ c. get_or false c (healthy_set healthy)) candidates
    ]
