-- ===== src/Examples/Reconciles.antt =====
-- Tests of parts of the reconciliation of a fleet.
use game_server_orchestrator.Prelude.{
  String, ℕ, ◌≡◌, ◌≢◌, ◌↔◌, refl, Bool, true, false, ◌&&◌, Option, none, some, List, [], ◌∷◌, All,
  length, arith, if◌then◌else◌,
}
use game_server_orchestrator.Prelude.Int.{ℤ, pos}
use game_server_orchestrator.Prelude.Text.{str_eq}
use game_server_orchestrator.Prelude.Dict.{lookup, insert, erase}
use game_server_orchestrator.V1alpha1.Fleet.{Pod}
use game_server_orchestrator.Pool.State.{remove}
use game_server_orchestrator.Pool.Abstract.{view}
use game_server_orchestrator.Pool.Query.{idle_servers}
use game_server_orchestrator.Pool.Invariant.{run-new-IsValid}
use game_server_orchestrator.Breaker.{is_circuit_open}
use game_server_orchestrator.Breaker.History.{Event, failed, replay}
use game_server_orchestrator.Cooldown.{record_scale_up}
use game_server_orchestrator.Drainer.{ServerState, forced}
use game_server_orchestrator.Scaler.{ScaleResult, scale_up, over_provisioned}
use game_server_orchestrator.Cluster.{phase_label}
use game_server_orchestrator.Director.{FleetReconciler}
use game_server_orchestrator.Director.Sync.{sync_drain, sync_pool_from_labels}
use game_server_orchestrator.Director.Scaling.{execute_scale_up}
use game_server_orchestrator.Director.Creation.{known, is_in, names_given, execute_scale_up_creates}
use game_server_orchestrator.Director.Freshness.{sync_hides_idle}
use game_server_orchestrator.Director.Recovery.{recovered_drain_forced}
use game_server_orchestrator.Director.Draining.{advance_server}
use game_server_orchestrator.Director.Decision.{Services}
use game_server_orchestrator.Director.Reconcile.{requeue_after, policy_error, reconcile_fleet}
use game_server_orchestrator.Director.Counting.{Gated, counts_failure}
use game_server_orchestrator.Director.Counting.Replies.{reconcile_fleet-Gated}
use game_server_orchestrator.Director.Counting.Fifth.{fifth_failure_blocks}
use game_server_orchestrator.Director.DryRun.{pretended}
use game_server_orchestrator.Controller.{new_fleet_reconciler}
use game_server_orchestrator.Examples.{setup, arena, cluster, fleet_of, hundredths, pod_named}
use game_server_orchestrator.Examples.Whole.{services}

abbrev with_arena : FleetReconciler
with_arena = record new_fleet_reconciler { pool = arena }

abbrev two_more : ScaleResult
two_more = record {
  decision = scale_up;
  reason = over_provisioned (pos 2) (pos 4);
  current_replicas = pos 2;
  desired_replicas = pos 4;
  delta = pos 2;
  healthy_node_names = [];
  filtered_node_names = [];
}

abbrev scaled : Bool × (FleetReconciler × Unit {0})
scaled =
    execute_scale_up (cluster true true) (pos 100) (fleet_of (pos 2) (pos 2)) two_more false
      with_arena tt

abbrev given : List String
given = names_given (cluster true true) (pos 100) (fleet_of (pos 2) (pos 2)) 2 tt

execute_scale_up_creates_example :
    ((scaled.0 ≡ true) ↔ (length given ≡ 2))
    × ((g k : String)
        → view scaled.1.0.pool g k
          ≡ (if str_eq "arena" g && is_in k given then known (view arena g k) else view arena g k))
    × (scaled.1.0.cooldowns ≡ (
        if scaled.0
        then record_scale_up (pos 100) "arena" with_arena.cooldowns
        else with_arena.cooldowns))
    × (scaled.1.0.drain_states ≡ with_arena.drain_states)
execute_scale_up_creates_example =
    execute_scale_up_creates (cluster true true) (pos 100) (fleet_of (pos 2) (pos 2)) two_more
      with_arena tt

sync_hides_idle_example :
    All
      (λ name. name ≢ "a")
      (idle_servers
        (pos 150)
        "arena"
        (sync_pool_from_labels
          (cluster true true)
          (pos 100)
          (fleet_of (pos 2) (pos 2))
          with_arena
          tt).0.pool)
unfolding game_server_orchestrator.Director.Freshness.running_names
    game_server_orchestrator.Prelude.Int.◌-ℤ◌ lookup game_server_orchestrator.Pool.Calls.run
    game_server_orchestrator.Pool.Calls.step game_server_orchestrator.Pool.State.register
    game_server_orchestrator.Pool.State.ensure_fleet insert
    game_server_orchestrator.Pool.State.update_fleet_config
sync_hides_idle_example =
    sync_hides_idle (cluster true true) (pos 100) (fleet_of (pos 2) (pos 2)) with_arena tt
      (pod_named "a" ∷ pod_named "b" ∷ []) "a" (pos 150) (run-new-IsValid setup) refl refl
      (omega arith)

abbrev draining_pod : Pod
draining_pod = record (pod_named "a") { labels = (phase_label, "draining") ∷ [] }

recovered_drain_forced_example :
    (ds : ServerState) × (lookup "a"
        (sync_drain (pos 100) (fleet_of (pos 2) (pos 2)) draining_pod [])
      ≡ some ds)
    × ((advance_server
          (cluster true true)
          (λ w s. some (pos 7))
          (pos 40000000000)
          (fleet_of (pos 2) (pos 2))
          "a"
          ds
          with_arena
          tt).0
        ≡ record with_arena {
          pool = remove "arena" "a" arena;
          drain_states = erase "a" (insert "a" (record ds { phase = forced }) []);
        })
unfolding lookup new_fleet_reconciler game_server_orchestrator.Drainer.new_drainer
    game_server_orchestrator.Prelude.Int.◌*ℤ◌ game_server_orchestrator.Prelude.Int.◌-ℤ◌
recovered_drain_forced_example =
    recovered_drain_forced (cluster true true) (λ w s. some (pos 7)) (fleet_of (pos 2) (pos 2))
      (pos 100) (pos 40000000000) draining_pod [] with_arena tt refl refl (omega arith)
      (omega arith) (omega arith) refl

reconcile_fleet-Gated_example :
    Gated
      (is_circuit_open (pos 100) "arena" with_arena.breaker).0
      (pos 100)
      "arena"
      (record with_arena { breaker = (is_circuit_open (pos 100) "arena" with_arena.breaker).1 })
      tt
      (reconcile_fleet ⦃fl = hundredths⦄ services
        (pos 100)
        (fleet_of (pos 2) (pos 2))
        with_arena
        tt)
reconcile_fleet-Gated_example =
    reconcile_fleet-Gated ⦃fl = hundredths⦄ services (pos 100) (fleet_of (pos 2) (pos 2)) with_arena
      tt

-- The cluster has lost the policy, and four reconciliations have failed.
abbrev no_policy : Services ℤ Unit
no_policy = record services { get_policy = λ ns name w. (none, w) }

abbrev four_failures : List Event
four_failures =
    failed (pos 40) "arena"
    ∷ failed (pos 30) "arena"
    ∷ failed (pos 20) "arena"
    ∷ failed (pos 10) "arena"
    ∷ []

abbrev failing_so_far : FleetReconciler
failing_so_far = record with_arena { breaker = replay four_failures }

abbrev fifth : FleetReconciler
fifth =
    (reconcile_fleet ⦃fl = hundredths⦄ no_policy (pos 50) (fleet_of (pos 2) (pos 2)) failing_so_far
      tt).1.0

fifth_fails :
    counts_failure
      (reconcile_fleet ⦃fl = hundredths⦄ no_policy
        (pos 50)
        (fleet_of (pos 2) (pos 2))
        failing_so_far
        tt).0
    ≡ true
unfolding reconcile_fleet is_circuit_open lookup replay
    game_server_orchestrator.Breaker.History.apply game_server_orchestrator.Breaker.record_failure
    insert game_server_orchestrator.Director.Reconcile.reconcile_with
    game_server_orchestrator.Director.Reconcile.get_fleet_policy
fifth_fails = refl

fifth_failure_blocks_example :
    reconcile_fleet ⦃fl = hundredths⦄ no_policy (pos 60) (fleet_of (pos 2) (pos 2)) fifth tt ≡ (
      requeue_after (pos 60),
      (record fifth { breaker = (is_circuit_open (pos 60) "arena" fifth.breaker).1 }, tt),
    )
unfolding game_server_orchestrator.Breaker.History.failures
    game_server_orchestrator.Prelude.Int.◌+ℤ◌
fifth_failure_blocks_example =
    fifth_failure_blocks ⦃fl = hundredths⦄ no_policy (pos 50) (pos 60) (fleet_of (pos 2) (pos 2))
      failing_so_far fifth tt tt four_failures refl
      (omega arith, (omega arith, (omega arith, (omega arith, tt)))) refl fifth_fails refl
      (omega arith) (omega arith)

abbrev pretending : FleetReconciler
pretending = record with_arena {
  breaker = pretended (fleet_of (pos 2) (pos 2)) scale_up with_arena.breaker;
}
