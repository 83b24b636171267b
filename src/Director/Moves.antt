-- ===== src/Director/Moves.antt =====
-- The reconciliation of a fleet as a sequence of moves: what it writes down, the configuration, the
-- sync, the scaling and the drains.
use game_server_orchestrator.Prelude.{
  String, ℕ, ◌≡◌, ◌⊎◌, refl, subst, Bool, Option, none, some, inl, inr, Bool-cases, take,
}
use game_server_orchestrator.Prelude.Int.{ℤ, pos, ◌*ℤ◌, pos_part, eqb_ℤ}
use game_server_orchestrator.Prelude.Text.{str_eq}
use game_server_orchestrator.Prelude.Dict.{get_or}
use game_server_orchestrator.Prelude.Float.{Float64}
use game_server_orchestrator.Prelude.Result.{Result, ok, err}
use game_server_orchestrator.V1alpha1.Policy.{AutoscalerPolicySpec}
use game_server_orchestrator.V1alpha1.Fleet.{GameServerFleet, GameServerFleetStatus}
use game_server_orchestrator.Pool.State.{FleetPoolConfig, update_fleet_config}
use game_server_orchestrator.Pool.Query.{idle_servers}
use game_server_orchestrator.Breaker.{Breaker, is_circuit_open}
use game_server_orchestrator.Cooldown.{Cooldowns}
use game_server_orchestrator.Drainer.{ServerState, SessionAnswer, second}
use game_server_orchestrator.Scaler.{
  ScaleDecision, ScaleResult, scale_up, scale_down, scale_hold, scale_frozen, evaluate,
  FleetMetrics,
}
use game_server_orchestrator.Cluster.{Client, GetError, not_found, get_failed}
use game_server_orchestrator.Director.{FleetReconciler}
use game_server_orchestrator.Director.Sync.{sync_pool_from_labels}
use game_server_orchestrator.Director.Scaling.{
  create_pods, execute_scale_up, drain_servers, drain_count, execute_scale_down,
}
use game_server_orchestrator.Director.Draining.{advance_draining}
use game_server_orchestrator.Director.Decision.{Services, cool, condition_of}
use game_server_orchestrator.Director.Reconcile.{
  get_fleet_policy, collect_fleet_metrics, act, carry_out, reconcile_collected, reconcile_policy,
  reconcile_with, reconcile_fleet, reconcile_found, reconcile,
}

pub decision_cases :
    (d : ScaleDecision)
    → (d ≡ scale_up) ⊎ ((d ≡ scale_down) ⊎ ((d ≡ scale_hold) ⊎ (d ≡ scale_frozen)))
decision_cases scale_up = inl refl
decision_cases scale_down = inr (inl refl)
decision_cases scale_hold = inr (inr (inl refl))
decision_cases scale_frozen = inr (inr (inr refl))

-- The moves on the fleet `name`. The worlds and the numbers are those that the code comes by.
pub data Moves {W : Type 0} (cl : Client W) (sessions : W → ServerState → SessionAnswer) (now : ℤ)
    (name : String) : FleetReconciler → FleetReconciler → Type 0 where
  rests : (r : FleetReconciler) → Moves cl sessions now name r r
  notes :
      {r r' : FleetReconciler} (b : Breaker) (c : Cooldowns)
      → Moves cl sessions now name (record r { breaker = b; cooldowns = c }) r'
      → Moves cl sessions now name r r'
  configures :
      {r r' : FleetReconciler} (cfg : FleetPoolConfig)
      → Moves cl sessions now name (record r { pool = update_fleet_config r.pool name cfg }) r'
      → Moves cl sessions now name r r'
  syncs :
      {r r' : FleetReconciler} (fleet : GameServerFleet) (w : W)
      → fleet.name ≡ name
      → Moves cl sessions now name (sync_pool_from_labels cl now fleet r w).0 r'
      → Moves cl sessions now name r r'
  scales_up :
      {r r' : FleetReconciler} (fleet : GameServerFleet) (n : ℕ) (w : W)
      → fleet.name ≡ name
      → Moves cl sessions now name
          (record r { pool = (create_pods cl now fleet n r.pool w).1.0 })
          r'
      → Moves cl sessions now name r r'
  scales_down :
      {r r' : FleetReconciler} (fleet : GameServerFleet) (n : ℕ) (w : W)
      → fleet.name ≡ name
      → Moves cl sessions now name
          (drain_servers cl now fleet (take n (idle_servers now fleet.name r.pool)) r w).0
          r'
      → Moves cl sessions now name r r'
  advances :
      {r r' : FleetReconciler} (fleet : GameServerFleet) (w : W)
      → fleet.name ≡ name
      → Moves cl sessions now name (advance_draining cl sessions now fleet r w).0 r'
      → Moves cl sessions now name r r'

module _ {W : Type 0} (cl : Client W) (sessions : W → ServerState → SessionAnswer) (now : ℤ)
    (fleet : GameServerFleet) where
  execute_scale_up-Moves :
      (result : ScaleResult) (dry_run : Bool) (r r' : FleetReconciler) (w : W)
      → Moves cl sessions now fleet.name (execute_scale_up cl now fleet result dry_run r w).1.0 r'
      → Moves cl sessions now fleet.name r r'
  unfolding execute_scale_up
  execute_scale_up-Moves result dry_run r r' w = elim (Bool-cases dry_run) [
    | inl dry ↦ simp (dry, execute_scale_up) (λ m. m)
    | inr real ↦
        let n = pos_part result.delta in
        elim (Bool-cases (create_pods cl now fleet n r.pool w).0) [
          | inl made ↦
              simp (real, made, execute_scale_up) (λ m. scales_up fleet n w refl (notes _ _ m))
          | inr failed ↦ simp (real, failed, execute_scale_up) (λ m. scales_up fleet n w refl m)
        ]
  ]

  execute_scale_down-Moves :
      (result : ScaleResult) (dry_run : Bool) (r r' : FleetReconciler) (w : W)
      → Moves cl sessions now fleet.name (execute_scale_down cl now fleet result dry_run r w).0 r'
      → Moves cl sessions now fleet.name r r'
  unfolding execute_scale_down
  execute_scale_down-Moves result dry_run r r' w =
      let count = drain_count cl now fleet result (idle_servers now fleet.name r.pool) in
      elim (Bool-cases dry_run) [
        | inl dry ↦ simp (dry, execute_scale_down) (λ m. m)
        | inr real ↦ elim (Bool-cases (eqb_ℤ count (pos 0))) [
          | inl nothing ↦ simp (real, nothing, execute_scale_down) (λ m. notes _ _ m)
          | inr some_idle ↦
              simp (real, some_idle, execute_scale_down)
                (λ m. scales_down fleet (pos_part count) w refl (notes _ _ m))
        ]
      ]

module _ {F : Type 0} ⦃fl : Float64 F⦄ {W : Type 0} (sv : Services F W) (now : ℤ) where
  abbrev To : String → FleetReconciler → FleetReconciler → Type 0
  To = Moves sv.client sv.sessions now

  act-Moves :
      (fleet : GameServerFleet) (result : ScaleResult) (dry_run : Bool) (r r' : FleetReconciler)
      (w : W)
      → To fleet.name (act sv now fleet result dry_run r w).1.0 r'
      → To fleet.name r r'
  unfolding act
  act-Moves fleet result dry_run r r' w =
      let up_moves = execute_scale_up-Moves sv.client sv.sessions now fleet result dry_run r in
      elim (decision_cases result.decision) [
        | inl up ↦ elim (Bool-cases (execute_scale_up sv.client now fleet result dry_run r w).0) [
          | inl worked ↦ simp (up, worked, act) (λ m. up_moves r' w (notes _ _ m))
          | inr failed ↦ simp (up, failed, act) (λ m. up_moves r' w (notes _ _ m))
        ]
        | inr (inl down) ↦
            simp (down, act)
              (λ m.
                execute_scale_down-Moves sv.client sv.sessions now fleet result dry_run r r' w
                  (notes _ _ m))
        | inr (inr (inl held)) ↦ simp (held, act) (λ m. notes _ _ m)
        | inr (inr (inr frozen)) ↦ simp (frozen, act) (λ m. m)
      ]

  carry_out-Moves :
      (fleet : GameServerFleet) (result : ScaleResult) (dry_run : Bool) (r r' : FleetReconciler)
      (w : W)
      → To fleet.name (carry_out sv now fleet result dry_run r w).1.0 r'
      → To fleet.name r r'
  unfolding carry_out
  carry_out-Moves fleet result dry_run r r' w =
      let (worked, (acted, w')) = act sv now fleet result dry_run r w in
      let (advanced, w'') = advance_draining sv.client sv.sessions now fleet acted w' in
      elim (Bool-cases worked) [
        | inl fine ↦
            elim (Bool-cases (sv.update_fleet fleet (condition_of result.decision) w'').0) [
              | inl written ↦
                  simp (fine, written, carry_out)
                    (λ m. act-Moves fleet result dry_run r r' w (advances fleet w' refl m))
              | inr refused ↦
                  simp (fine, refused, carry_out)
                    (λ m. act-Moves fleet result dry_run r r' w (advances fleet w' refl m))
            ]
        | inr failed ↦ simp (failed, carry_out) (act-Moves fleet result dry_run r r' w)
      ]

  reconcile_collected-Moves :
      (fleet : GameServerFleet) (policy : AutoscalerPolicySpec F) (dry_run : Bool)
      (r r' : FleetReconciler) (collected : Option (GameServerFleetStatus × FleetMetrics F) × W)
      → To fleet.name (reconcile_collected sv now fleet policy dry_run r collected).1.0 r'
      → To fleet.name r r'
  unfolding reconcile_collected
  reconcile_collected-Moves fleet policy dry_run r r' (none, w) m = m
  reconcile_collected-Moves fleet policy dry_run r r' (some (status, figures), w) m =
      let fleet' : GameServerFleet = record fleet { status = status } in
      carry_out-Moves fleet'
        (cool now fleet.name policy.cooldown r.cooldowns
          (evaluate (sv.nodes w) fleet' policy figures))
        dry_run r r' w m

  reconcile_policy-Moves :
      (fleet : GameServerFleet) (policy : AutoscalerPolicySpec F) (r r' : FleetReconciler) (w : W)
      → To fleet.name (reconcile_policy sv now fleet policy r w).1.0 r'
      → To fleet.name r r'
  unfolding reconcile_policy
  reconcile_policy-Moves fleet policy r r' w m =
      let cfg : FleetPoolConfig = record {
        buffer_size = policy.buffer.size;
        idle_timeout = policy.buffer.idle_timeout_seconds *ℤ second;
      } in
      let configured : FleetReconciler = record r {
        pool = update_fleet_config r.pool fleet.name cfg;
      } in
      let dry_run = str_eq (get_or "" "director.gamefleet.io/dry-run" fleet.annotations) "true" in
      let (synced, w') = sync_pool_from_labels sv.client now fleet configured w in
      configures cfg (
        syncs fleet w refl (
          reconcile_collected-Moves fleet policy dry_run synced r'
            (collect_fleet_metrics sv now fleet w') m))

  reconcile_with-Moves :
      (fleet : GameServerFleet) (r r' : FleetReconciler)
      (policy : Option (AutoscalerPolicySpec F) × W)
      → To fleet.name (reconcile_with sv now fleet r policy).1.0 r'
      → To fleet.name r r'
  unfolding reconcile_with
  reconcile_with-Moves fleet r r' (none, w) m = notes _ _ m
  reconcile_with-Moves fleet r r' (some policy, w) m = reconcile_policy-Moves fleet policy r r' w m

  reconcile_fleet-Moves :
      (fleet : GameServerFleet) (r r' : FleetReconciler) (w : W)
      → To fleet.name (reconcile_fleet sv now fleet r w).1.0 r'
      → To fleet.name r r'
  unfolding reconcile_fleet
  reconcile_fleet-Moves fleet r r' w =
      let (blocked, breaker) = is_circuit_open now fleet.name r.breaker in
      let probed : FleetReconciler = record r { breaker = breaker } in
      elim (Bool-cases blocked) [
        | inl open_circuit ↦ simp (open_circuit, reconcile_fleet) (λ m. notes _ _ m)
        | inr closed ↦
            simp (closed, reconcile_fleet)
              (λ m.
                notes _ _
                  (reconcile_with-Moves fleet probed r' (get_fleet_policy sv now fleet w) m))
      ]

  reconcile_found-Moves :
      (name : String) (r : FleetReconciler) (found : Result GetError GameServerFleet × W)
      → ((fleet : GameServerFleet) → found.0 ≡ ok fleet → fleet.name ≡ name)
      → To name r (reconcile_found sv now r found).1.0
  unfolding reconcile_found
  reconcile_found-Moves name r (err not_found, w) named = rests r
  reconcile_found-Moves name r (err get_failed, w) named = rests r
  reconcile_found-Moves name r (ok fleet, w) named =
      subst (λ n. To n r (reconcile_fleet sv now fleet r w).1.0) (named fleet refl)
        (reconcile_fleet-Moves fleet r (reconcile_fleet sv now fleet r w).1.0 w (rests _))

  -- A whole reconciliation of a fleet is a sequence of moves on it, if the cluster answers the query
  -- for it with a fleet of that name.
  pub reconcile-Moves :
      (ns name : String) (r : FleetReconciler) (w : W)
      → ((fleet : GameServerFleet) → (sv.get_fleet ns name w).0 ≡ ok fleet → fleet.name ≡ name)
      → To name r (reconcile sv now ns name r w).1.0
  unfolding reconcile
  reconcile-Moves ns name r w named = reconcile_found-Moves name r (sv.get_fleet ns name w) named
