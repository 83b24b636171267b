-- ===== src/Scaler/Ratio.antt =====
-- Which part of the nodes has to be healthy for a scale-up.
use Prim.Native.Nat.{◌<◌, ◌/◌, ◌*◌, ◌^◌}
use native.Mathlib.Nat.{le-div_iff_mul-le}
use game_server_orchestrator.Prelude.{
  String, ℕ, suc, ◌+◌, ◌≤◌, ◌≡◌, ◌⊎◌, ◌↔◌, true, Option, List, length, arith, inl, inr,
}
use game_server_orchestrator.Prelude.Int.{pos, ◌<ℤ◌}
use game_server_orchestrator.Prelude.Int32.{wrap32, wrap32_id}
use game_server_orchestrator.Prelude.Float.{Float64}
use game_server_orchestrator.Prelude.Result.{ok}
use game_server_orchestrator.V1alpha1.Policy.{AutoscalerPolicySpec, NodeHealthConfig}
use game_server_orchestrator.V1alpha1.Fleet.{GameServerFleet}
use game_server_orchestrator.Health.{NodeAnswer, healthy_nodes}
use game_server_orchestrator.Scaler.{
  FleetMetrics, scale_frozen, desired_replicas, below_ratio, evaluate,
}
use game_server_orchestrator.Scaler.Bounds.{evaluate_frozen}

module _ {F : Type 0} ⦃fl : Float64 F⦄ (num den : ℕ) where
  -- The ratio times this number of nodes, which an int32 holds, is cut to the whole part of `num / den`
  -- times it.
  abbrev pub Cuts : NodeHealthConfig F → ℕ → Type 0
  Cuts cfg total =
      (total < 2 ^ 31)
      × (fl.to_int32 (fl.mul (fl.of_int (pos total)) cfg.min_healthy_node_ratio)
          ≡ pos (total * num / den))

  below_ratio_iff :
      (cfg : NodeHealthConfig F) (healthy unhealthy : List String)
      → 0 < den
      → Cuts cfg (length healthy + length unhealthy)
      → (below_ratio cfg healthy unhealthy ≡ true)
        ↔ (suc (length healthy) * den ≤ (length healthy + length unhealthy) * num)
  unfolding below_ratio
  below_ratio_iff cfg healthy unhealthy some_den (small, cut) =
      let whole : wrap32 (pos (length healthy)) ≡ pos (length healthy) =
        wrap32_id (pos (length healthy)) (record { below = omega arith; above = omega arith }) in
      let (to, from) = le-div_iff_mul-le {k = den} some_den in
      simp (whole, cut, below_ratio) (λ h. to (ground (arith, h)), λ h. ground (arith, from h))

  -- A scale-up is wanted and checked, the query succeeds, and even with one healthy node more the
  -- healthy ones would be at most the ratio of all.
  abbrev pub AreTooFew :
      Option NodeAnswer → GameServerFleet → AutoscalerPolicySpec F → FleetMetrics F → Type 0
  AreTooFew provider fleet policy m =
      (fleet.status.replicas <ℤ desired_replicas policy m)
      × (policy.node_health.enabled ≡ true)
      × (healthy : List String) × (unhealthy : List String) × (healthy_nodes provider
          ≡ ok (healthy, unhealthy))
      × (suc (length healthy) * den ≤ (length healthy + length unhealthy) * num)

  -- Where the minimum ratio is `num / den`, there are fewer than 2 ^ 31 nodes, and the product of their
  -- number and the ratio is cut to its whole part, Evaluate freezes the fleet exactly when it is paused, or when a scale-up is wanted, the
  -- check of the nodes is enabled, the query succeeds, and one healthy node more would still leave the
  -- healthy nodes at most that ratio of all. So a fleet may grow with a lower part of its nodes healthy
  -- than the ratio, by less than one node.
  pub evaluate_frozen_ratio :
      (provider : Option NodeAnswer) (fleet : GameServerFleet) (policy : AutoscalerPolicySpec F)
      (m : FleetMetrics F)
      → 0 < den
      → ((healthy unhealthy : List String)
          → healthy_nodes provider ≡ ok (healthy, unhealthy)
          → Cuts policy.node_health (length healthy + length unhealthy))
      → ((evaluate provider fleet policy m).decision ≡ scale_frozen)
        ↔ ((fleet.spec.paused ≡ true) ⊎ AreTooFew provider fleet policy m)
  evaluate_frozen_ratio provider fleet policy m some_den cuts =
      let (to, from) = evaluate_frozen provider fleet policy m in
      (
        λ e. elim (to e) [
          | inl p ↦ inl p
          | inr (more, enabled, h, u, answer, low) ↦ inr (
            more,
            enabled,
            h,
            u,
            answer,
            (below_ratio_iff policy.node_health h u some_den (cuts h u answer)).0 low,
          )
        ],
        λ x. elim x [
          | inl p ↦ from (inl p)
          | inr (more, enabled, h, u, answer, few) ↦ from (
              inr (
                more,
                enabled,
                h,
                u,
                answer,
                (below_ratio_iff policy.node_health h u some_den (cuts h u answer)).1 few,
              ))
        ],
      )
