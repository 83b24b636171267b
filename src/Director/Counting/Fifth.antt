-- ===== src/Director/Counting/Fifth.antt =====
-- The failures of a fleet in a row, over its reconciliations.
use game_server_orchestrator.Prelude.{
  String, arith, ◌≡◌, refl, ap, ◌∙◌, subst, true, List, ◌∷◌, inl, inr, Bool-cases,
}
use game_server_orchestrator.Prelude.Int.{ℤ, pos, ◌+ℤ◌, ◌≤ℤ◌}
use game_server_orchestrator.Prelude.Text.{str_eq, eq_iff}
use game_server_orchestrator.Prelude.Float.{Float64}
use game_server_orchestrator.V1alpha1.Fleet.{GameServerFleet}
use game_server_orchestrator.Breaker.{Breaker, open_period, record_failure, is_circuit_open}
use game_server_orchestrator.Breaker.History.{
  Event, failed, checked, apply, replay, failures, last_failure, IsOrdered, is_circuit_open-replay,
}
use game_server_orchestrator.Director.{FleetReconciler}
use game_server_orchestrator.Director.Decision.{Services}
use game_server_orchestrator.Director.Reconcile.{
  FleetReply, absent, requeue_after, get_error, policy_error, metrics_error, scale_error,
  status_error, reconcile_fleet,
}
use game_server_orchestrator.Director.Counting.{Counts, Gated, counts_failure}
use game_server_orchestrator.Director.Counting.Replies.{reconcile_fleet-Gated}

Counts-failure :
    (now : ℤ) (name : String) (reply : FleetReply) (b b' : Breaker)
    → counts_failure reply ≡ true
    → Counts now name reply b b'
    → b' ≡ record_failure now name b
Counts-failure now name policy_error b b' h c = c
Counts-failure now name scale_error b b' h c = c
Counts-failure now name status_error b b' h c = absurd (cc h)
Counts-failure now name (requeue_after seconds) b b' h c = absurd (cc h)
Counts-failure now name absent b b' h c = absurd (cc h)
Counts-failure now name get_error b b' h c = absurd (cc h)
Counts-failure now name metrics_error b b' h c = absurd (cc h)

module _ {F : Type 0} ⦃fl : Float64 F⦄ {W : Type 0} (sv : Services F W) where
  -- A reconciliation that ends with a failure has counted it.
  Gated-failure :
      (now : ℤ) (fleet : GameServerFleet) (r : FleetReconciler) (w : W)
      → counts_failure (reconcile_fleet sv now fleet r w).0 ≡ true
      → (reconcile_fleet sv now fleet r w).1.0.breaker
        ≡ record_failure now fleet.name (is_circuit_open now fleet.name r.breaker).1
  Gated-failure now fleet r w bad =
      let outcome = reconcile_fleet sv now fleet r w in
      let (blocked, breaker) = is_circuit_open now fleet.name r.breaker in
      let probed : FleetReconciler = record r { breaker = breaker } in
      let gated = reconcile_fleet-Gated sv now fleet r w in
      elim (Bool-cases blocked) [
        | inl open_circuit ↦
            let same = subst (λ b. Gated b now fleet.name probed w outcome) open_circuit gated in
            absurd (cc (bad, ap (λ x. counts_failure x.0) same))
        | inr closed ↦
            Counts-failure now fleet.name outcome.0 breaker outcome.1.0.breaker bad
              (subst (λ b. Gated b now fleet.name probed w outcome) closed gated)
      ]

  -- The fifth failure since the last reset blocks the fleet: if a reconciliation ends with a failure
  -- and the calls on the breaker before it, in the order of their times, hold four failures of the
  -- fleet since its last reset, then every reconciliation of the fleet in the next five minutes that
  -- meets the breaker in this state changes nothing but the breaker, calls nothing and asks to be
  -- repeated after a minute.
  pub fifth_failure_blocks :
      (now later : ℤ) (fleet : GameServerFleet) (r r' : FleetReconciler) (w w' : W)
      (history : List Event)
      → r.breaker ≡ replay history
      → IsOrdered now history
      → failures fleet.name history ≡ 4
      → counts_failure (reconcile_fleet sv now fleet r w).0 ≡ true
      → r'.breaker ≡ (reconcile_fleet sv now fleet r w).1.0.breaker
      → now ≤ℤ later
      → later ≤ℤ (now +ℤ open_period)
      → reconcile_fleet sv later fleet r' w' ≡ (
        requeue_after (pos 60),
        (record r' { breaker = (is_circuit_open later fleet.name r'.breaker).1 }, w'),
      )
  unfolding replay apply failures last_failure
  fifth_failure_blocks now later fleet r r' w w' history before ordered four bad kept after soon =
      let name = fleet.name in
      let longer = failed now name ∷ checked now name ∷ history in
      let known : r'.breaker ≡ replay longer =
        kept
        ∙ Gated-failure now fleet r w bad
        ∙ ap (λ b. record_failure now name (is_circuit_open now name b).1) before in
      let here : str_eq name name ≡ true = (eq_iff name name).1 refl in
      let is_open : (is_circuit_open later name r'.breaker).0 ≡ true =
        ap (λ b. (is_circuit_open later name b).0) known
        ∙ is_circuit_open-replay later name longer (after, (ground arith, ordered))
        ∙ ground (arith, here, four, soon) in
      subst
        (λ b.
          Gated b later name (record r' { breaker = (is_circuit_open later name r'.breaker).1 }) w'
            (reconcile_fleet sv later fleet r' w'))
        is_open (reconcile_fleet-Gated sv later fleet r' w')
