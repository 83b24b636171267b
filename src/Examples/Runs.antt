-- ===== src/Examples/Runs.antt =====
-- Tests of the controller process.
use mathlib.Core.Bool.{false≢true}
use game_server_orchestrator.Prelude.{
  ◌≡◌, ◌≢◌, String, refl, sym, ap, ◌∙◌, subst, Bool, true, false, Option, none, some, List, [], ◌∷◌,
  All, arith, inl, inr, Bool-cases,
}
use game_server_orchestrator.Prelude.Int.{ℤ, pos}
use game_server_orchestrator.Prelude.Dict.{Dict, lookup}
use game_server_orchestrator.Prelude.Result.{Result, ok, err}
use game_server_orchestrator.Prelude.Text.{str_eq, eq_iff}
use game_server_orchestrator.V1alpha1.Fleet.{GameServerFleet, Pod}
use game_server_orchestrator.Pool.State.{
  PoolManager, ServerPoolState, server_of, new_pool_manager, allocate_with_filter,
}
use game_server_orchestrator.Pool.Calls.{Call, registers, allocates_with_filter, run}
use game_server_orchestrator.Pool.Invariant.{run-new-IsValid}
use game_server_orchestrator.Pool.Allocation.Exclusive.{Held}
use game_server_orchestrator.Pool.Allocation.Taken.{Taken}
use game_server_orchestrator.Cluster.{Client, GetError, phase_label}
use game_server_orchestrator.Director.{FleetReconciler}
use game_server_orchestrator.Director.Decision.{Services}
use game_server_orchestrator.Director.Reconcile.{reconcile}
use game_server_orchestrator.Director.Protection.{Safe, Respects, says_taken}
use game_server_orchestrator.Director.Protection.Whole.{reconcile-Safe}
use game_server_orchestrator.Controller.{new_fleet_reconciler}
use game_server_orchestrator.Controller.Runs.{
  ControllerProcess, ControllerRequest, fleet_request, allocation_request, reconcile_requests,
  AnswersNames, no_second_allocation,
}
use game_server_orchestrator.Examples.{cluster, fleet_of, hundredths, policy, pod_named}

-- Two servers, of which the first is allocated.
abbrev started : List (ℤ × Call)
started =
    (pos 2, registers "arena" "a")
    ∷ (pos 3, allocates_with_filter "arena" "RoundRobin" [])
    ∷ (pos 4, registers "arena" "b")
    ∷ []

abbrev half_full : FleetReconciler
half_full = record new_fleet_reconciler { pool = run started new_pool_manager }

-- The cluster shows the first server as allocated.
abbrev pods_shown : List Pod
pods_shown =
    record (pod_named "a") { labels = (phase_label, "allocated") ∷ [] } ∷ pod_named "b" ∷ []

abbrev showing : Client Unit
showing = record (cluster true true) { list_pods = λ ns ls w. (some pods_shown, w) }

abbrev services_of : Services ℤ Unit
services_of = record {
  client = showing;
  get_fleet = λ ns name w. (ok (record (fleet_of (pos 2) (pos 2)) { name = name }), w);
  get_policy = λ ns name w. (some policy, w);
  scrape_fleet = λ endpoints w.
      (some (record { total_players = pos 9; avg_cpu = pos 2500; avg_memory_mb = pos 51200 }), w);
  nodes = λ w. none;
  sessions = λ w ds. some (pos 0);
  update_fleet = λ fleet condition w. (true, w);
  records = λ call w. w;
  count_trip = λ fleet w. w;
  observe_reconcile = λ w. w;
  show_reason = λ reason. "";
  notify = none;
}

abbrev name_of : Result GetError GameServerFleet → String
name_of (ok fleet) = fleet.name
name_of (err e) = ""

answers : AnswersNames ⦃fl = hundredths⦄ services_of
answers ns name w fleet e = sym (ap name_of e)

abbrev items_of : Option (List Pod) → List Pod
items_of none = []
items_of (some pods) = pods

abbrev names_a : Option String → Bool
names_a none = false
names_a (some n) = str_eq n "a"

respects : Respects showing "a"
unfolding lookup
respects = (
  λ ns labels w pods e.
      subst (All (λ pod. says_taken "a" pod ≡ true)) (ap items_of e) (refl, (refl, tt)),
  λ pod w e. false≢true (ap names_a e),
)

half_full-Held : Held half_full.pool "arena" "a"
unfolding lookup run game_server_orchestrator.Pool.Calls.step
    game_server_orchestrator.Pool.State.register game_server_orchestrator.Prelude.Dict.insert
    game_server_orchestrator.Pool.State.ensure_fleet allocate_with_filter
    game_server_orchestrator.Pool.State.grant game_server_orchestrator.Pool.State.choose
    game_server_orchestrator.Pool.State.restrict
    game_server_orchestrator.Pool.State.collect_candidates
    game_server_orchestrator.Pool.State.register_in game_server_orchestrator.Prelude.Sort.sort_slice
    game_server_orchestrator.Pool.State.update_server game_server_orchestrator.Pool.State.update_in
    game_server_orchestrator.Pool.State.take_server
half_full-Held = (_, refl, refl)

half_full-Taken : Taken "a" half_full.pool
unfolding lookup run game_server_orchestrator.Pool.Calls.step
    game_server_orchestrator.Pool.State.register game_server_orchestrator.Prelude.Dict.insert
    game_server_orchestrator.Pool.State.ensure_fleet allocate_with_filter
    game_server_orchestrator.Pool.State.grant game_server_orchestrator.Pool.State.choose
    game_server_orchestrator.Pool.State.restrict
    game_server_orchestrator.Pool.State.collect_candidates
    game_server_orchestrator.Pool.State.register_in game_server_orchestrator.Prelude.Sort.sort_slice
    game_server_orchestrator.Pool.State.update_server game_server_orchestrator.Pool.State.update_in
    game_server_orchestrator.Pool.State.take_server
half_full-Taken g s e = ground (arith, eq_iff "arena" g)

half_full-Safe : Safe "arena" "a" half_full
unfolding lookup new_fleet_reconciler
half_full-Safe = ((run-new-IsValid started, half_full-Held, half_full-Taken), refl)

reconcile-Safe_example :
    Safe "arena" "a"
      (reconcile ⦃fl = hundredths⦄ services_of (pos 100) "default" "arena" half_full tt).1.0
reconcile-Safe_example =
    reconcile-Safe ⦃fl = hundredths⦄ services_of (pos 100) "default" "arena" half_full tt "arena"
      "a" (λ fleet e. answers "default" "arena" tt fleet e) respects half_full-Safe

abbrev requests : List (ℤ × ControllerRequest)
requests =
    (pos 100, fleet_request "default" "arena")
    ∷ (pos 110, allocation_request "default" "match")
    ∷ []

abbrev pool_after : PoolManager
pool_after =
    (reconcile_requests ⦃fl = hundredths⦄ services_of requests
      (record { reconciler = half_full; world = tt })).reconciler.pool

offered : (allocate_with_filter (pos 200) "arena" "RoundRobin" [] pool_after).0 ≡ ok "b"
unfolding allocate_with_filter lookup reconcile_requests
    game_server_orchestrator.Controller.Runs.reconcile_request reconcile
    game_server_orchestrator.Director.Reconcile.reconcile_found
    game_server_orchestrator.Director.Reconcile.reconcile_fleet
    game_server_orchestrator.Breaker.is_circuit_open new_fleet_reconciler
    game_server_orchestrator.Director.Reconcile.reconcile_with
    game_server_orchestrator.Director.Reconcile.get_fleet_policy
    game_server_orchestrator.Director.Reconcile.reconcile_policy
    game_server_orchestrator.Director.Reconcile.reconcile_collected
    game_server_orchestrator.Director.Reconcile.collect_fleet_metrics
    game_server_orchestrator.Director.Reconcile.carry_out
    game_server_orchestrator.Director.Reconcile.act game_server_orchestrator.Director.Decision.cool
    game_server_orchestrator.Scaler.evaluate game_server_orchestrator.Director.Sync.snapshot
    game_server_orchestrator.Prelude.Int32.wrap32 game_server_orchestrator.Scaler.desired_replicas
    game_server_orchestrator.Scaler.clamp game_server_orchestrator.Prelude.Int32.add32
    game_server_orchestrator.Prelude.Int.◌+ℤ◌ game_server_orchestrator.Scaler.servers_for_players
    game_server_orchestrator.Prelude.Int32.div32 game_server_orchestrator.Prelude.Int.◌/ℤ◌
    game_server_orchestrator.Prelude.Int32.sub32 game_server_orchestrator.Prelude.Int.◌-ℤ◌
    game_server_orchestrator.Scaler.buffer_target game_server_orchestrator.Scaler.aux_adjustment
    game_server_orchestrator.Scaler.aux_extra game_server_orchestrator.Prelude.Int.◌*ℤ◌
    game_server_orchestrator.Health.healthy_nodes game_server_orchestrator.Scaler.below_ratio
    game_server_orchestrator.Scaler.conclude game_server_orchestrator.Scaler.decide
    game_server_orchestrator.Cooldown.cooldown_remaining
    game_server_orchestrator.Cooldown.remaining_window
    game_server_orchestrator.Director.Sync.sync_pool_from_labels
    game_server_orchestrator.Director.Sync.sync_listed
    game_server_orchestrator.Director.Scaling.execute_scale_up
    game_server_orchestrator.Director.Scaling.create_pods
    game_server_orchestrator.Director.Draining.advance_draining
    game_server_orchestrator.Director.Draining.advance_servers
    game_server_orchestrator.Director.Sync.sync_pods
    game_server_orchestrator.Director.Sync.sync_drain game_server_orchestrator.Pool.State.register
    game_server_orchestrator.Prelude.Dict.insert game_server_orchestrator.Pool.State.ensure_fleet
    game_server_orchestrator.Director.Sync.sync_server
    game_server_orchestrator.Pool.State.mark_available
    game_server_orchestrator.Pool.State.update_server
    game_server_orchestrator.Pool.State.mark_allocated
    game_server_orchestrator.Pool.State.update_fleet_config run
    game_server_orchestrator.Pool.Calls.step game_server_orchestrator.Pool.State.grant
    game_server_orchestrator.Pool.State.choose game_server_orchestrator.Pool.State.restrict
    game_server_orchestrator.Pool.State.collect_candidates
    game_server_orchestrator.Pool.State.register_in game_server_orchestrator.Prelude.Sort.sort_slice
    game_server_orchestrator.Pool.State.update_in game_server_orchestrator.Pool.State.take_server
    game_server_orchestrator.Pool.State.free_server
    game_server_orchestrator.Allocator.reconcile_allocation
    game_server_orchestrator.Allocator.dispatch game_server_orchestrator.Allocator.serve
    game_server_orchestrator.Allocator.allowed_names
    game_server_orchestrator.Allocator.record_confirmed game_server_orchestrator.Allocator.confirm
    game_server_orchestrator.Cluster.patch_pod_phase
    game_server_orchestrator.Allocator.record_allocated
offered = refl

no_second_allocation_example : ◌≢◌ {A = String} "b" "a"
no_second_allocation_example =
    no_second_allocation ⦃fl = hundredths⦄ services_of requests
      (record { reconciler = half_full; world = tt }) "arena" "a" (pos 200) "arena" "RoundRobin" []
      answers respects half_full-Safe
      (ap (λ x. (x, (allocate_with_filter (pos 200) "arena" "RoundRobin" [] pool_after).1)) offered)
