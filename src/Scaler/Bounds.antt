-- ===== src/Scaler/Bounds.antt =====
-- What Evaluate may ask for, and when it freezes the fleet.
use game_server_orchestrator.Prelude.{
  String, ◌≡◌, ◌⊎◌, ◌↔◌, inl, inr, refl, true, Option, List, Bool-cases, subst, sym,
}
use game_server_orchestrator.Prelude.Int.{ℤ, ◌≤ℤ◌, ltb_ℤ}
use game_server_orchestrator.Prelude.Float.{Float64}
use game_server_orchestrator.V1alpha1.Policy.{AutoscalerPolicySpec}
use game_server_orchestrator.V1alpha1.Fleet.{GameServerFleet, GameServerFleetStatus}
use game_server_orchestrator.Health.{NodeAnswer}
use game_server_orchestrator.Scaler.{
  ScaleDecision, ScaleResult, FleetMetrics, scale_up, scale_down, scale_hold, scale_frozen, decide,
  conclude, desired_replicas, evaluate,
}
use game_server_orchestrator.Scaler.Decision.{NodesRefuse, evaluate_cases, clamp_le, le-clamp}

abbrev pub IsMove : ScaleDecision → Type 0
IsMove d = (d ≡ scale_up) ⊎ (d ≡ scale_down)

-- A decision that is not frozen and that moves to the desired replicas only.
abbrev Decides : ℤ → ScaleResult → Type 0
Decides desired r =
    (¬ (r.decision ≡ scale_frozen)) × (IsMove r.decision → r.desired_replicas ≡ desired)

hold-IsMove_not : ¬ IsMove scale_hold
hold-IsMove_not (inl e) = cc e
hold-IsMove_not (inr e) = cc e

decide-Decides :
    (st : GameServerFleetStatus) (players servers aux buffer desired : ℤ)
    (nodes : List String × List String)
    → Decides desired (decide st players servers aux buffer desired nodes)
unfolding decide
decide-Decides st players servers aux buffer desired (h, u) =
    elim (Bool-cases (ltb_ℤ st.replicas desired)) [
      | inl more ↦ rw (more, decide) ((λ e. cc e), λ m. refl)
      | inr no_more ↦ elim (Bool-cases (ltb_ℤ desired st.replicas)) [
        | inl fewer ↦ elim (Bool-cases (ltb_ℤ buffer st.buffer_pool)) [
          | inl spare ↦ rw (no_more, fewer, spare, decide) ((λ e. cc e), λ m. refl)
          | inr none_spare ↦
              rw (no_more, fewer, none_spare, decide) ((λ e. cc e), λ m. absurd (hold-IsMove_not m))
        ]
        | inr equal ↦ rw (no_more, equal, decide) ((λ e. cc e), λ m. absurd (hold-IsMove_not m))
      ]
    ]

frozen-IsMove_not : ¬ IsMove scale_frozen
frozen-IsMove_not (inl e) = cc e
frozen-IsMove_not (inr e) = cc e

module _ {F : Type 0} ⦃fl : Float64 F⦄ where
  abbrev IsBounded : AutoscalerPolicySpec F → ScaleResult → Type 0
  IsBounded policy r =
      IsMove r.decision
      → (r.desired_replicas ≤ℤ policy.max_replicas)
        × (policy.min_replicas ≤ℤ policy.max_replicas → policy.min_replicas ≤ℤ r.desired_replicas)

  within :
      (policy : AutoscalerPolicySpec F) (m : FleetMetrics F)
      → (desired_replicas policy m ≤ℤ policy.max_replicas)
        × (policy.min_replicas ≤ℤ policy.max_replicas
            → policy.min_replicas ≤ℤ desired_replicas policy m)
  unfolding desired_replicas
  within policy m = (clamp_le _ _ _, λ h. le-clamp _ _ _ h)

  -- Whatever the metrics say, a scale-up or a scale-down asks for at most the policy's maximum, and
  -- for at least its minimum where the minimum is not above the maximum.
  pub evaluate-IsBounded :
      (provider : Option NodeAnswer) (fleet : GameServerFleet) (policy : AutoscalerPolicySpec F)
      (m : FleetMetrics F)
      → IsMove (evaluate provider fleet policy m).decision
      → ((evaluate provider fleet policy m).desired_replicas ≤ℤ policy.max_replicas)
        × (policy.min_replicas ≤ℤ policy.max_replicas
            → policy.min_replicas ≤ℤ (evaluate provider fleet policy m).desired_replicas)
  unfolding conclude
  evaluate-IsBounded provider fleet policy m =
      evaluate_cases (IsBounded policy) provider fleet policy m
        (λ p move. absurd (frozen-IsMove_not move))
        (λ r why nodes move. absurd (frozen-IsMove_not move))
        (λ p q nodes move.
          subst
            (λ want.
              (want ≤ℤ policy.max_replicas)
              × (policy.min_replicas ≤ℤ policy.max_replicas → policy.min_replicas ≤ℤ want))
            (sym ((decide-Decides fleet.status _ _ _ _ _ nodes).1 move)) (within policy m))

  -- Evaluate freezes the fleet exactly when it is paused, or when a scale-up is wanted, the check
  -- of the nodes is enabled, the query succeeds and too few nodes are healthy.
  pub evaluate_frozen :
      (provider : Option NodeAnswer) (fleet : GameServerFleet) (policy : AutoscalerPolicySpec F)
      (m : FleetMetrics F)
      → ((evaluate provider fleet policy m).decision ≡ scale_frozen)
        ↔ ((fleet.spec.paused ≡ true) ⊎ NodesRefuse provider fleet policy m)
  unfolding conclude
  evaluate_frozen provider fleet policy m =
      evaluate_cases
        (λ r.
          (r.decision ≡ scale_frozen)
          ↔ ((fleet.spec.paused ≡ true) ⊎ NodesRefuse provider fleet policy m))
        provider fleet policy m (λ p. (λ e. inl p, λ x. refl))
        (λ r why nodes. (λ e. inr r, λ x. refl))
        (λ p q nodes. (
          λ e. absurd ((decide-Decides fleet.status _ _ _ _ _ nodes).0 e),
          λ x. absurd (elim x [ inl h ↦ cc (p, h) | inr r ↦ q r ]),
        ))
