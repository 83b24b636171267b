-- ===== src/Examples/Decisions.antt =====
-- Tests of the scaler, of the node filter, of the circuit breaker and of the cooldown.
use game_server_orchestrator.Prelude.{
  String, ◌≡◌, ◌⊎◌, ◌↔◌, ◌≤◌, ◌<◌, ◌+◌, ◌*◌, ℕ, inl, inr, refl, ap, subst, length, Bool, true,
  false, not, ◌&&◌, Option, none, some, List, [], ◌∷◌, leb, filter, arith,
}
use game_server_orchestrator.Prelude.Int.{ℤ, pos, ◌+ℤ◌, ◌-ℤ◌, ◌*ℤ◌, ◌/ℤ◌, ◌≤ℤ◌, ◌<ℤ◌, leb_ℤ}
use game_server_orchestrator.Prelude.Dict.{Dict}
use game_server_orchestrator.Prelude.Result.{Result, ok, err}
use game_server_orchestrator.Web.{FetchError}
use game_server_orchestrator.Health.{NodeHealth, NodeAnswer, healthy_nodes}
use game_server_orchestrator.Breaker.{is_circuit_open, open_period}
use game_server_orchestrator.Breaker.History.{
  Event, failed, checked, replay, failures, last_failure, is_circuit_open-replay,
}
use game_server_orchestrator.Cooldown.{
  Cooldowns, record_scale_up, cooldown_remaining, cooldown_remaining-record_scale_up,
}
use game_server_orchestrator.Drainer.{second}
use game_server_orchestrator.Scaler.{
  ScaleResult, scale_up, scale_hold, scale_frozen, evaluate, servers_for_players, buffer_target,
}
use game_server_orchestrator.Scaler.Decision.{Agrees, evaluate-Agrees, servers_for_players_ceil}
use game_server_orchestrator.Scaler.Bounds.{evaluate-IsBounded}
use game_server_orchestrator.Scaler.Ratio.{Cuts, AreTooFew, evaluate_frozen_ratio}
use game_server_orchestrator.Examples.{fleet_of, policy, players, hundredths}

abbrev node : String → NodeHealth
node status = record { status = status; score = pos 50; reason = "" }

abbrev nodes : Dict NodeHealth
nodes = ("n1", node "HEALTHY") ∷ ("n2", node "CRITICAL") ∷ ("n3", node "WARNING") ∷ []

-- 45 players at 10 per server, with 3 servers now: 5 for the players, 3 as a buffer, and 4 for the
-- processors.
abbrev grown : ScaleResult
grown =
    evaluate ⦃fl = hundredths⦄ (some (ok nodes)) (fleet_of (pos 3) (pos 1)) policy
      (players (pos 45))

grows : grown.decision ≡ scale_up
unfolding evaluate game_server_orchestrator.Scaler.desired_replicas
    game_server_orchestrator.Scaler.clamp game_server_orchestrator.Prelude.Int32.add32
    game_server_orchestrator.Prelude.Int32.wrap32 game_server_orchestrator.Prelude.Int.◌/ℤ◌
    game_server_orchestrator.Prelude.Int32.div32 game_server_orchestrator.Prelude.Int32.sub32
    game_server_orchestrator.Scaler.aux_adjustment game_server_orchestrator.Scaler.aux_extra
    game_server_orchestrator.Scaler.below_ratio game_server_orchestrator.Health.sort_nodes
    game_server_orchestrator.Scaler.conclude game_server_orchestrator.Scaler.decide ◌+ℤ◌
    servers_for_players ◌-ℤ◌ buffer_target ◌*ℤ◌ healthy_nodes
grows = refl

evaluate-IsBounded_example :
    (grown.desired_replicas ≤ℤ policy.max_replicas)
    × (policy.min_replicas ≤ℤ policy.max_replicas → policy.min_replicas ≤ℤ grown.desired_replicas)
evaluate-IsBounded_example =
    evaluate-IsBounded ⦃fl = hundredths⦄ (some (ok nodes)) (fleet_of (pos 3) (pos 1)) policy
      (players (pos 45)) (inl grows)

-- One healthy node of three, with a ratio of a half.
abbrev mostly_sick : Dict NodeHealth
mostly_sick = ("n1", node "HEALTHY") ∷ ("n2", node "CRITICAL") ∷ ("n3", node "CRITICAL") ∷ []

abbrev counted : Result FetchError (List String × List String) → ℕ
counted (ok (healthy, unhealthy)) = length healthy + length unhealthy
counted (err e) = 0

half :
    (healthy unhealthy : List String)
    → healthy_nodes (some (ok mostly_sick)) ≡ ok (healthy, unhealthy)
    → Cuts ⦃fl = hundredths⦄ 1 2 policy.node_health (length healthy + length unhealthy)
unfolding healthy_nodes game_server_orchestrator.Health.sort_nodes ◌*ℤ◌ ◌/ℤ◌
half healthy unhealthy answer =
    subst (Cuts ⦃fl = hundredths⦄ 1 2 policy.node_health) (ap counted answer) (omega arith, refl)

evaluate_frozen_ratio_example :
    ((evaluate ⦃fl = hundredths⦄
        (some (ok mostly_sick))
        (fleet_of (pos 3) (pos 1))
        policy
        (players (pos 45))).decision
      ≡ scale_frozen)
    ↔ ((false ≡ true)
        ⊎ AreTooFew ⦃fl = hundredths⦄ 1 2
            (some (ok mostly_sick))
            (fleet_of (pos 3) (pos 1))
            policy
            (players (pos 45)))
evaluate_frozen_ratio_example =
    evaluate_frozen_ratio ⦃fl = hundredths⦄ 1 2 (some (ok mostly_sick)) (fleet_of (pos 3) (pos 1))
      policy (players (pos 45)) (omega arith) half

evaluate-Agrees_example : Agrees (buffer_target (pos 3)) (fleet_of (pos 3) (pos 1)).status grown
evaluate-Agrees_example =
    evaluate-Agrees ⦃fl = hundredths⦄ (some (ok nodes)) (fleet_of (pos 3) (pos 1)) policy
      (players (pos 45))

servers_for_players_ceil_example :
    (k : ℕ) × (servers_for_players (pos 45) (pos 10) ≡ pos k) × (45 ≤ k * 10) × (k * 10 < 45 + 10)
servers_for_players_ceil_example = servers_for_players_ceil 45 10 (omega arith) (omega arith)

-- Five failures, the last at 5, and a check.
abbrev history : List Event
history =
    checked (pos 6) "arena"
    ∷ failed (pos 5) "arena"
    ∷ failed (pos 4) "arena"
    ∷ failed (pos 3) "other"
    ∷ failed (pos 3) "arena"
    ∷ failed (pos 2) "arena"
    ∷ failed (pos 1) "arena"
    ∷ []

is_circuit_open-replay_example : (is_circuit_open (pos 7) "arena" (replay history)).0 ≡ (
    leb 5 (failures "arena" history) && leb_ℤ (pos 7) (last_failure "arena" history +ℤ open_period))
is_circuit_open-replay_example = is_circuit_open-replay (pos 7) "arena" history (
  omega arith,
  (omega arith, (omega arith, (omega arith, (omega arith, (omega arith, (omega arith, tt)))))),
)

abbrev no_scaling : Cooldowns
no_scaling = record { last_scale_up_at = []; last_scale_down_at = [] }

cooldown_remaining-record_scale_up_example :
    (pos 0
      <ℤ cooldown_remaining
          (pos 8)
          "arena"
          policy.cooldown
          true
          (record_scale_up (pos 5) "arena" no_scaling))
    ↔ ((pos 8 -ℤ pos 5) ≤ℤ ((policy.cooldown.scale_up_seconds *ℤ second) -ℤ second))
cooldown_remaining-record_scale_up_example =
    cooldown_remaining-record_scale_up (pos 8) (pos 5) "arena" policy.cooldown no_scaling
      (omega arith)
