-- ===== src/Health/Partition.antt =====
-- HealthyNodes divides the nodes, and only a CRITICAL status takes one out.
use mathlib.Core.List.{append_assoc, append-nil}
use game_server_orchestrator.Prelude.{
  String, ◌≡◌, ap, Bool, not, some, List, [], ◌∷◌, ◌++◌, map, filter, arith,
}
use game_server_orchestrator.Prelude.Text.{str_eq, eq_iff}
use game_server_orchestrator.Prelude.Dict.{Dict}
use game_server_orchestrator.Prelude.Result.{ok}
use game_server_orchestrator.Health.{NodeHealth, sort_nodes, healthy_nodes}

abbrev pub is_critical : String × NodeHealth → Bool
is_critical (name, h) = str_eq h.status "CRITICAL"

abbrev pub names : List (String × NodeHealth) → List String
names = map λ n. n.0

sort_nodes-filter :
    (nodes : Dict NodeHealth) (healthy unhealthy : List String)
    → sort_nodes nodes (healthy, unhealthy) ≡ (
      healthy ++ names (filter (λ n. not (is_critical n)) nodes),
      unhealthy ++ names (filter is_critical nodes),
    )
unfolding sort_nodes
sort_nodes-filter [] healthy unhealthy = simp append-nil
sort_nodes-filter ((name, h) ∷ nodes) healthy unhealthy = ground (
  arith,
  sort_nodes-filter nodes (healthy ++ name ∷ []) unhealthy,
  sort_nodes-filter nodes healthy (unhealthy ++ name ∷ []),
  append_assoc healthy (name ∷ []) (names (filter (λ n. not (is_critical n)) nodes)),
  append_assoc unhealthy (name ∷ []) (names (filter is_critical nodes)),
  eq_iff h.status "HEALTHY",
  eq_iff h.status "WARNING",
  eq_iff h.status "CRITICAL",
  eq_iff "HEALTHY" "CRITICAL",
  eq_iff "WARNING" "CRITICAL",
)

-- The nodes that a provider reports are divided, in their order: the critical ones are unhealthy,
-- and all others are healthy, those with a warning and those of an unknown status too.
healthy_nodes-filter :
    (nodes : Dict NodeHealth)
    → healthy_nodes (some (ok nodes))
      ≡ ok (names (filter (λ n. not (is_critical n)) nodes), names (filter is_critical nodes))
unfolding healthy_nodes
healthy_nodes-filter nodes = ap ok (sort_nodes-filter nodes [] [])
