-- ===== src/Pool/Scheduler/Orders.antt =====
-- Each comparison orders servers strictly, and ties only servers of one name.
use game_server_orchestrator.Prelude.{arith, inl, inr, Bool-cases}
use game_server_orchestrator.Prelude.Sort.{IsLess}
use game_server_orchestrator.V1alpha1.Policy.{
  AllocationStrategy, allocation_fewest_players, allocation_lowest_latency, allocation_round_robin,
  allocation_strict_bin_pack,
}
use game_server_orchestrator.Prelude.Text.{str_eq, str_lt_asymm, str_lt_neg_trans, str_lt_connex}
use game_server_orchestrator.Pool.Scheduler.{fewer_players, lower_latency, more_players, less_for}

pub fewer_players-IsLess : IsLess fewer_players (λ c. c.name)
unfolding fewer_players
fewer_players-IsLess = record {
  asymm = λ a b h. ground (arith, str_lt_asymm a.name b.name);
  neg_trans = λ a b c h k. ground (arith, str_lt_neg_trans a.name b.name c.name);
  connex = λ a b h k. ground (arith, str_lt_connex a.name b.name);
}

pub lower_latency-IsLess : IsLess lower_latency (λ c. c.name)
unfolding lower_latency
lower_latency-IsLess = record {
  asymm = λ a b h. ground (arith, str_lt_asymm a.name b.name);
  neg_trans = λ a b c h k. ground (arith, str_lt_neg_trans a.name b.name c.name);
  connex = λ a b h k. ground (arith, str_lt_connex a.name b.name);
}

pub more_players-IsLess : IsLess more_players (λ c. c.name)
unfolding more_players
more_players-IsLess = record {
  asymm = λ a b h. ground (arith, str_lt_asymm a.name b.name);
  neg_trans = λ a b c h k. ground (arith, str_lt_neg_trans a.name b.name c.name);
  connex = λ a b h k. ground (arith, str_lt_connex a.name b.name);
}

pub less_for-IsLess : (strategy : AllocationStrategy) → IsLess (less_for strategy) (λ c. c.name)
unfolding less_for
less_for-IsLess s = elim (Bool-cases (str_eq s allocation_fewest_players)) [
  | inl e ↦ rw (e, less_for) fewer_players-IsLess
  | inr n₁ ↦ elim (Bool-cases (str_eq s allocation_lowest_latency)) [
    | inl e ↦ rw (n₁, e, less_for) lower_latency-IsLess
    | inr n₂ ↦ elim (Bool-cases (str_eq s allocation_round_robin)) [
      | inl e ↦ rw (n₁, n₂, e, less_for) fewer_players-IsLess
      | inr n₃ ↦ elim (Bool-cases (str_eq s allocation_strict_bin_pack)) [
        | inl e ↦ rw (n₁, n₂, n₃, e, less_for) more_players-IsLess
        | inr n₄ ↦ rw (n₁, n₂, n₃, n₄, less_for) fewer_players-IsLess
      ]
    ]
  ]
]
