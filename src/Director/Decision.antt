-- ===== src/Director/Decision.antt =====
-- What `Reconcile` makes of a decision of the scaler, and what it asks the outside world for.
use game_server_orchestrator.Prelude.{
  String, ◌≡◌, refl, Bool, true, false, Option, List, arith, inl, inr, Bool-cases, ◌↔◌,
  if◌then◌else◌,
}
use game_server_orchestrator.Prelude.Int.{ℤ, pos, ◌*ℤ◌, ◌-ℤ◌, ◌<ℤ◌, ◌≤ℤ◌, ltb_ℤ}
use game_server_orchestrator.Prelude.Result.{Result}
use game_server_orchestrator.V1alpha1.Policy.{AutoscalerPolicySpec, CooldownConfig}
use game_server_orchestrator.V1alpha1.Fleet.{
  GameServerFleet, Endpoint, fleet_available, fleet_scaling, fleet_circuit_open,
}
use game_server_orchestrator.Cooldown.{
  Cooldowns, cooldown_remaining, record_scale_up, cooldown_remaining-record_scale_up,
}
use game_server_orchestrator.Drainer.{ServerState, SessionAnswer, second}
use game_server_orchestrator.Health.{NodeAnswer}
use game_server_orchestrator.Scaler.{
  ScaleDecision, ScaleResult, scale_up, scale_down, scale_hold, scale_frozen, Reason,
}
use game_server_orchestrator.Cluster.{Client, GetError}
use game_server_orchestrator.Notifier.{ScalingEvent}
use game_server_orchestrator.Metrics.Collector.{Recorded}

-- `cooldownRemaining` applied to a decision.
unfoldable pub cool : ℤ → String → CooldownConfig → Cooldowns → ScaleResult → ScaleResult
cool now fleet cfg c result = elim result.decision [
  | scale_up ↦
      let wait = cooldown_remaining now fleet cfg true c in
      if ltb_ℤ (pos 0) wait
      then record result { decision = scale_hold; reason = Reason.cooldown wait }
      else result
  | scale_down ↦
      let wait = cooldown_remaining now fleet cfg false c in
      if ltb_ℤ (pos 0) wait
      then record result { decision = scale_hold; reason = Reason.cooldown wait }
      else result
  | scale_hold ↦ result
  | scale_frozen ↦ result
]

-- The condition that `updateStatus` writes.
unfoldable pub condition_of : ScaleDecision → String
condition_of scale_frozen = fleet_circuit_open
condition_of scale_up = fleet_scaling
condition_of scale_down = fleet_scaling
condition_of scale_hold = fleet_available

-- The text of a decision.
unfoldable pub decision_text : ScaleDecision → String
decision_text scale_up = "SCALE_UP"
decision_text scale_down = "SCALE_DOWN"
decision_text scale_hold = "HOLD"
decision_text scale_frozen = "FROZEN"

abbrev pub is_hold : ScaleDecision → Bool
is_hold scale_up = false
is_hold scale_down = false
is_hold scale_hold = true
is_hold scale_frozen = false

-- What a scrape returns of the fleet.
pub record AggregatedMetrics (F : Type 0) : Type 0 where
  pub total_players : ℤ
  pub avg_cpu : F
  pub avg_memory_mb : F

-- What a reconciliation asks the outside world for besides the pods.
pub record Services (F W : Type 0) : Type 0 where
  pub client : Client W
  pub get_fleet : String → String → W → Result GetError GameServerFleet × W
  pub get_policy : String → String → W → Option (AutoscalerPolicySpec F) × W
  pub scrape_fleet : List Endpoint → W → Option (AggregatedMetrics F) × W
  -- `none` without a provider; else the answer to a query. These two queries do not change the world.
  pub nodes : W → Option NodeAnswer
  pub sessions : W → ServerState → SessionAnswer
  pub update_fleet : GameServerFleet → String → W → Bool × W
  -- A call of a recording function of Metrics/Collector, whose registry is part of the world.
  pub records : Recorded F → W → W
  -- The count of the fleet in `CircuitBreakerTriggered`, and the observation of `ReconcileDuration`.
  pub count_trip : String → W → W
  pub observe_reconcile : W → W
  -- The text of a reason, and the notifier if there is one.
  pub show_reason : Reason → String
  pub notify : Option (ScalingEvent → W → W)

-- With a positive window, after a scale-up at `last`, a decision to scale up is held as long as a
-- whole second of the window is left, and it stands after that.
cool-record_scale_up :
    (now last : ℤ) (fleet : String) (cfg : CooldownConfig) (c : Cooldowns) (result : ScaleResult)
    → pos 0 <ℤ cfg.scale_up_seconds
    → result.decision ≡ scale_up
    → ((cool now fleet cfg (record_scale_up last fleet c) result).decision ≡ scale_hold)
      ↔ ((now -ℤ last) ≤ℤ ((cfg.scale_up_seconds *ℤ second) -ℤ second))
unfolding cool
cool-record_scale_up now last fleet cfg c result h up =
    let c' = record_scale_up last fleet c in
    let rest = cooldown_remaining-record_scale_up now last fleet cfg c h in
    elim (Bool-cases (ltb_ℤ (pos 0) (cooldown_remaining now fleet cfg true c'))) [
      | inl wait ↦ simp (up, wait, cool) (λ e. rest.0 (ground (arith, wait)), λ le. refl)
      | inr over ↦
          simp (up, over, cool) (λ e. absurd (cc e), λ le. absurd (ground (arith, over, rest.1 le)))
    ]
