-- ===== src/Scaler/Decision.antt =====
-- What Evaluate may answer.
use game_server_orchestrator.Prelude.{
  String, ℕ, ◌+◌, ◌-◌, ◌*◌, ◌/◌, ◌≤◌, ◌<◌, ◌^◌, ◌≡◌, inl, inr, refl, ap, ◌∙◌, true, false, ◌&&◌,
  Option, List, [], arith, Bool-cases,
}
use native.Mathlib.Nat.{div-le_self, div-add-mod, div-eq_of_lt, mod-lt, mul_comm}
use game_server_orchestrator.Prelude.Int.{
  ℤ, pos, ◌≤ℤ◌, ◌<ℤ◌, ◌-ℤ◌, ◌+ℤ◌, ltb_ℤ, eq_of_parts, quotient_pos,
}
use game_server_orchestrator.Prelude.Int32.{wrap32_id, sub32, add32, div32, wrap32}
use game_server_orchestrator.Prelude.Float.{Float64}
use game_server_orchestrator.Prelude.Result.{ok, Result-cases}
use game_server_orchestrator.V1alpha1.Policy.{AutoscalerPolicySpec}
use game_server_orchestrator.V1alpha1.Fleet.{GameServerFleet, GameServerFleetStatus}
use game_server_orchestrator.Health.{NodeAnswer, healthy_nodes}
use game_server_orchestrator.Scaler.{
  ScaleDecision, ScaleResult, FleetMetrics, scale_up, scale_down, scale_hold, scale_frozen, clamp,
  decide, conclude, frozen_result, fleet_paused, Reason, servers_for_players, buffer_target,
  desired_replicas, below_ratio, evaluate,
}

sub32_self : (a b : ℤ) → a ≡ b → sub32 a b ≡ pos 0
unfolding sub32 wrap32 ◌-ℤ◌
sub32_self a b e = rw e (ground arith)

-- What each decision says of the replicas: up is more, down is fewer and only with a warm server
-- to spare, and the other two ask for no change.
abbrev pub Asks : ScaleDecision → ℤ → GameServerFleetStatus → ScaleResult → Type 0
Asks scale_up buffer st r =
    (st.replicas <ℤ r.desired_replicas) × (r.delta ≡ sub32 r.desired_replicas st.replicas)
Asks scale_down buffer st r =
    (r.desired_replicas <ℤ st.replicas)
    × (buffer <ℤ st.buffer_pool)
    × (r.delta ≡ sub32 r.desired_replicas st.replicas)
Asks scale_hold buffer st r = (r.desired_replicas ≡ st.replicas) × (r.delta ≡ pos 0)
Asks scale_frozen buffer st r = (r.desired_replicas ≡ st.replicas) × (r.delta ≡ pos 0)

abbrev pub Agrees : ℤ → GameServerFleetStatus → ScaleResult → Type 0
Agrees buffer st r = (r.current_replicas ≡ st.replicas) × Asks r.decision buffer st r

decide-Agrees :
    (st : GameServerFleetStatus) (players servers aux buffer desired : ℤ)
    (nodes : List String × List String)
    → Agrees buffer st (decide st players servers aux buffer desired nodes)
unfolding decide
decide-Agrees st players servers aux buffer desired (h, u) =
    elim (Bool-cases (ltb_ℤ st.replicas desired)) [
      | inl more ↦ rw (more, decide) (refl, (ground arith, refl))
      | inr no_more ↦ elim (Bool-cases (ltb_ℤ desired st.replicas)) [
        | inl fewer ↦ elim (Bool-cases (ltb_ℤ buffer st.buffer_pool)) [
          | inl spare ↦
              rw (no_more, fewer, spare, decide) (refl, (ground arith, ground arith, refl))
          | inr none_spare ↦ rw (no_more, fewer, none_spare, decide) (refl, (refl, refl))
        ]
        | inr equal ↦
            let same : desired ≡ st.replicas = eq_of_parts desired st.replicas (ground arith) in
            rw (no_more, equal, decide) (refl, (same, sub32_self desired st.replicas same))
      ]
    ]

pub clamp_le : (lo hi d : ℤ) → clamp lo hi d ≤ℤ hi
unfolding clamp
clamp_le lo hi d = ground arith

pub le-clamp : (lo hi d : ℤ) → lo ≤ℤ hi → lo ≤ℤ clamp lo hi d
unfolding clamp
le-clamp lo hi d h = ground arith

-- The sum may wrap round by one, which the subtraction takes back.
round_up :
    (n p : ℕ) → 0 < p → n + p ≤ 2 ^ 31 → sub32 (add32 (pos n) (pos p)) (pos 1) ≡ pos (n + p - 1)
unfolding sub32 add32 wrap32 ◌+ℤ◌ ◌-ℤ◌
round_up n p h fits = ground arith

div32_pos : (a p : ℕ) → a < 2 ^ 31 → div32 (pos a) (pos p) ≡ pos (a / p)
unfolding div32
div32_pos a p h =
    ap wrap32 (quotient_pos a p)
    ∙ wrap32_id (pos (a / p))
        (record { below = omega (arith, div-le_self a p); above = omega arith })

div_small : (n p : ℕ) → 0 < p → n ≡ 0 → (n + p - 1) / p ≡ 0
div_small n p h e = div-eq_of_lt (omega arith)

-- For a positive number of players per server, the servers for the players are the quotient rounded
-- up, as long as the sum of the two numbers is at most 2 ^ 31.
pub servers_for_players_ceil :
    (players per_server : ℕ)
    → 0 < per_server
    → players + per_server ≤ 2 ^ 31
    → (k : ℕ) × (servers_for_players (pos players) (pos per_server) ≡ pos k)
      × (players ≤ k * per_server)
      × (k * per_server < players + per_server)
unfolding servers_for_players
servers_for_players_ceil players per_server h fits =
    let a = players + per_server - 1 in
    let parts = div-add-mod a per_server in
    (
      a / per_server,
      ground (
        arith,
        round_up players per_server h fits,
        div32_pos a per_server (omega arith),
        div_small players per_server h,
      ),
      omega (arith, parts, mod-lt a h, mul_comm (a / per_server) per_server),
      omega (arith, parts, mul_comm (a / per_server) per_server),
    )

module _ {F : Type 0} ⦃fl : Float64 F⦄ where
  -- The two outcomes of the check of the nodes.
  abbrev pub NodesRefuse :
      Option NodeAnswer → GameServerFleet → AutoscalerPolicySpec F → FleetMetrics F → Type 0
  NodesRefuse provider fleet policy m =
      (fleet.status.replicas <ℤ desired_replicas policy m)
      × (policy.node_health.enabled ≡ true)
      × (healthy : List String) × (unhealthy : List String) × (healthy_nodes provider
          ≡ ok (healthy, unhealthy))
      × (below_ratio policy.node_health healthy unhealthy ≡ true)

  refuted :
      (provider : Option NodeAnswer) (fleet : GameServerFleet) (policy : AutoscalerPolicySpec F)
      (m : FleetMetrics F) (healthy unhealthy : List String)
      → NodesRefuse provider fleet policy m
      → healthy_nodes provider ≡ ok (healthy, unhealthy)
      → below_ratio policy.node_health healthy unhealthy ≡ false
      → ⊥
  refuted provider fleet policy m healthy unhealthy (more, enabled, h', u', e, low) h high =
      cc (e, h, low, high)

  -- Evaluate answers in one of three ways.
  pub evaluate_cases {ℓ} :
      (P : ScaleResult → Type ℓ) (provider : Option NodeAnswer) (fleet : GameServerFleet)
      (policy : AutoscalerPolicySpec F) (m : FleetMetrics F)
      → (fleet.spec.paused ≡ true → P (frozen_result fleet.status fleet_paused ([], [])))
      → (NodesRefuse provider fleet policy m
          → (why : Reason) (nodes : List String × List String)
          → P (frozen_result fleet.status why nodes))
      → (fleet.spec.paused ≡ false
          → ¬ NodesRefuse provider fleet policy m
          → (nodes : List String × List String) → P (conclude fleet policy m nodes))
      → P (evaluate provider fleet policy m)
  unfolding evaluate
  evaluate_cases P provider fleet policy m paused refused decided =
      elim (Bool-cases fleet.spec.paused) [
        | inl p ↦ simp (p, evaluate) (paused p)
        | inr p ↦
            elim (Bool-cases (
              ltb_ℤ fleet.status.replicas (desired_replicas policy m)
              && policy.node_health.enabled)) [
                | inr skip ↦
                    simp (p, skip, evaluate) (decided p (λ r. ground (arith, r, skip)) ([], []))
                | inl check ↦ elim (Result-cases (healthy_nodes provider)) [
                  | inr (e, h) ↦
                      simp (p, check, h, evaluate) (decided p (λ r. cc (h, r.4)) ([], []))
                  | inl ((healthy, unhealthy), h) ↦
                      elim (Bool-cases (below_ratio policy.node_health healthy unhealthy)) [
                        | inl low ↦
                            simp (p, check, h, low, evaluate)
                              (refused
                                (
                                  ground (arith, check),
                                  ground (arith, check),
                                  healthy,
                                  unhealthy,
                                  h,
                                  low,
                                )
                                _ _)
                        | inr high ↦
                            simp (p, check, h, high, evaluate)
                              (decided p
                                (λ r. refuted provider fleet policy m healthy unhealthy r h high)
                                (healthy, unhealthy))
                      ]
                ]
              ]
      ]

  -- Evaluate's answer is consistent: the decision, the replicas and the delta say the same.
  pub evaluate-Agrees :
      (provider : Option NodeAnswer) (fleet : GameServerFleet) (policy : AutoscalerPolicySpec F)
      (m : FleetMetrics F)
      → Agrees (buffer_target policy.buffer.size) fleet.status (evaluate provider fleet policy m)
  unfolding conclude
  evaluate-Agrees provider fleet policy m =
      evaluate_cases (Agrees (buffer_target policy.buffer.size) fleet.status) provider fleet policy
        m (λ p. (refl, (refl, refl))) (λ r why nodes. (refl, (refl, refl)))
        (λ p q nodes. decide-Agrees fleet.status _ _ _ _ _ nodes)
