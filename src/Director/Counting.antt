-- ===== src/Director/Counting.antt =====
-- What a reconciliation of a fleet tells the circuit breaker, by its reply.
pub mod Steps
pub mod Replies
pub mod Fifth
use game_server_orchestrator.Prelude.{
  String, ◌≡◌, ◌⊎◌, refl, sym, ap, ◌∙◌, subst, Bool, true, false, Option, none, some, List, [], ◌∷◌,
  inl, inr, not, ◌&&◌, Bool-cases, Option-cases, take,
}
use game_server_orchestrator.Prelude.Int.{ℤ, pos, ◌*ℤ◌, ◌+ℤ◌, ◌≤ℤ◌, pos_part, eqb_ℤ}
use game_server_orchestrator.Prelude.Text.{str_eq, eq_iff}
use game_server_orchestrator.Prelude.Dict.{Dict, get_or, insert}
use game_server_orchestrator.Prelude.Float.{Float64}
use game_server_orchestrator.Prelude.Result.{Result, ok, err}
use game_server_orchestrator.V1alpha1.Policy.{AutoscalerPolicySpec}
use game_server_orchestrator.V1alpha1.Fleet.{GameServerFleet, GameServerFleetStatus, Pod}
use game_server_orchestrator.Pool.State.{FleetPoolConfig, update_fleet_config}
use game_server_orchestrator.Pool.Query.{idle_servers}
use game_server_orchestrator.Breaker.{
  Breaker, open_period, record_failure, reset_circuit, is_circuit_open,
}
use game_server_orchestrator.Drainer.{ServerState, SessionAnswer, second, advance, should_check}
use game_server_orchestrator.Scaler.{
  ScaleResult, scale_up, scale_down, scale_hold, scale_frozen, evaluate, FleetMetrics,
}
use game_server_orchestrator.Cluster.{Client, GetError, not_found, get_failed}
use game_server_orchestrator.Director.{FleetReconciler}
use game_server_orchestrator.Director.Sync.{sync_listed, sync_pool_from_labels}
use game_server_orchestrator.Director.Scaling.{
  create_pods, execute_scale_up, drain_server, drain_servers, drain_count, execute_scale_down,
}
use game_server_orchestrator.Director.Draining.{
  is_cordon, decommission_server, advance_server, advance_servers, advance_draining,
}
use game_server_orchestrator.Director.Decision.{Services, cool, condition_of}
use game_server_orchestrator.Director.Reconcile.{
  FleetReply, absent, requeue_after, get_error, policy_error, metrics_error, scale_error,
  status_error, get_fleet_policy, collect_fleet_metrics, act, carry_out, reconcile_collected,
  reconcile_policy, reconcile_with, reconcile_fleet, reconcile_found, reconcile,
}
use game_server_orchestrator.Director.Moves.{decision_cases}

-- The breaker after a reply, where `b` is the breaker after the check at the start: a policy that is
-- not found and a scaling that fails are failures, a failed scrape is none, and a reconciliation that
-- goes on to write the status has reset the breaker unless its decision was frozen.
abbrev pub Counts : ℤ → String → FleetReply → Breaker → Breaker → Type 0
Counts now name policy_error b b' = b' ≡ record_failure now name b
Counts now name scale_error b b' = b' ≡ record_failure now name b
Counts now name status_error b b' = (b' ≡ reset_circuit name b) ⊎ (b' ≡ b)
Counts now name (requeue_after seconds) b b' = (b' ≡ reset_circuit name b) ⊎ (b' ≡ b)
Counts now name absent b b' = b' ≡ b
Counts now name get_error b b' = b' ≡ b
Counts now name metrics_error b b' = b' ≡ b

-- The outcome of a reconciliation, where `blocked` says whether the circuit is open and `probed` is the
-- reconciler after the check.
abbrev pub Gated :
    {W : Type 0}
    → Bool
    → ℤ
    → String
    → FleetReconciler
    → W
    → FleetReply × (FleetReconciler × W)
    → Type 0
Gated true now name probed w outcome = outcome ≡ (requeue_after (pos 60), (probed, w))
Gated false now name probed w (reply, (r, w')) = Counts now name reply probed.breaker r.breaker

-- The replies that count as a failure.
abbrev pub counts_failure : FleetReply → Bool
counts_failure policy_error = true
counts_failure scale_error = true
counts_failure status_error = false
counts_failure (requeue_after seconds) = false
counts_failure absent = false
counts_failure get_error = false
counts_failure metrics_error = false
