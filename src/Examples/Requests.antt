-- ===== src/Examples/Requests.antt =====
-- Tests of the allocation controller and of the rate limiter.
use game_server_orchestrator.Prelude.{
  String, ◌≡◌, ◌≢◌, refl, Bool, true, false, Option, none, some, List, [], ◌∷◌, arith,
}
use game_server_orchestrator.Prelude.Int.{ℤ, pos, negsuc, ◌+ℤ◌, ◌-ℤ◌, ◌≤ℤ◌, ◌*ℤ◌, ◌/ℤ◌}
use game_server_orchestrator.Prelude.Result.{ok, err}
use game_server_orchestrator.Pool.Invariant.{run-new-IsValid}
use game_server_orchestrator.Allocator.{
  AllocateResult, Reply, finished, alloc_error, not_labelled, not_recorded, allocate_server,
  reconcile_allocation, pod_endpoint,
}
use game_server_orchestrator.Allocator.Rollback.{
  SameFlags, Serves, allocate_server-SameFlags, allocate_server-Serves,
}
use game_server_orchestrator.Allocator.Reconcile.{reconcile_allocation-TakesNothing}
use game_server_orchestrator.Allocator.Selectors.{reconcile_allocation-selects}
use game_server_orchestrator.V1alpha1.Allocation.{GameServerAllocation}
use game_server_orchestrator.Pool.Abstract.{flags}
use game_server_orchestrator.Pool.State.{server_of}
use game_server_orchestrator.Cluster.{Client}
use game_server_orchestrator.RateLimiter.{RateLimiter, admit}
use game_server_orchestrator.RateLimiter.Rate.{RoundsDown, admit_bounded}
use game_server_orchestrator.Drainer.{second}
use game_server_orchestrator.Examples.{setup, arena, cluster, request, pod_named, hundredths}

abbrev answer : AllocateResult
answer = record { server_name = "a"; endpoint = pod_endpoint (pod_named "a"); node = "node-1" }

answers :
    (allocate_server (cluster true true) (pos 9) "arena" "default" "RoundRobin" arena tt).0
    ≡ ok answer
unfolding game_server_orchestrator.Allocator.allocate_server
    game_server_orchestrator.Allocator.answer_with game_server_orchestrator.Allocator.confirm
    game_server_orchestrator.Cluster.patch_pod_phase game_server_orchestrator.Cluster.find_game_port
    game_server_orchestrator.Cluster.find_in_containers game_server_orchestrator.Cluster.first_port
    game_server_orchestrator.Pool.State.allocate_with_filter
    game_server_orchestrator.Prelude.Dict.lookup game_server_orchestrator.Pool.Calls.run
    game_server_orchestrator.Pool.Calls.step game_server_orchestrator.Pool.State.register
    game_server_orchestrator.Prelude.Dict.insert game_server_orchestrator.Pool.State.ensure_fleet
    game_server_orchestrator.Pool.State.mark_unhealthy
    game_server_orchestrator.Pool.State.update_server
    game_server_orchestrator.Pool.State.update_fleet_config
    game_server_orchestrator.Pool.State.grant game_server_orchestrator.Pool.State.choose
    game_server_orchestrator.Pool.State.restrict
    game_server_orchestrator.Pool.State.collect_candidates
    game_server_orchestrator.Pool.State.register_in game_server_orchestrator.Prelude.Sort.sort_slice
    game_server_orchestrator.Pool.State.update_in game_server_orchestrator.Pool.State.take_server
    game_server_orchestrator.Prelude.Int32.add32 game_server_orchestrator.Prelude.Int32.wrap32
    game_server_orchestrator.Prelude.Int.◌+ℤ◌
answers = refl

allocate_server-Serves_example :
    Serves
      (cluster true true)
      "arena"
      "default"
      arena
      tt
      (allocate_server (cluster true true) (pos 9) "arena" "default" "RoundRobin" arena tt).1.0
      answer
allocate_server-Serves_example =
    allocate_server-Serves (cluster true true) (pos 9) "arena" "default" "RoundRobin" arena tt
      answer (run-new-IsValid setup) answers

unlabelled :
    (allocate_server (cluster false true) (pos 9) "arena" "default" "RoundRobin" arena tt).0
    ≡ err (not_labelled "a")
unfolding game_server_orchestrator.Allocator.allocate_server
    game_server_orchestrator.Allocator.answer_with game_server_orchestrator.Allocator.confirm
    game_server_orchestrator.Cluster.patch_pod_phase
    game_server_orchestrator.Pool.State.allocate_with_filter
    game_server_orchestrator.Prelude.Dict.lookup game_server_orchestrator.Pool.Calls.run
    game_server_orchestrator.Pool.Calls.step game_server_orchestrator.Pool.State.register
    game_server_orchestrator.Prelude.Dict.insert game_server_orchestrator.Pool.State.ensure_fleet
    game_server_orchestrator.Pool.State.mark_unhealthy
    game_server_orchestrator.Pool.State.update_server
    game_server_orchestrator.Pool.State.update_fleet_config
    game_server_orchestrator.Pool.State.grant game_server_orchestrator.Pool.State.choose
    game_server_orchestrator.Pool.State.restrict
    game_server_orchestrator.Pool.State.collect_candidates
    game_server_orchestrator.Pool.State.register_in game_server_orchestrator.Prelude.Sort.sort_slice
    game_server_orchestrator.Pool.State.update_in game_server_orchestrator.Pool.State.take_server
    game_server_orchestrator.Prelude.Int32.add32 game_server_orchestrator.Prelude.Int32.wrap32
    game_server_orchestrator.Prelude.Int.◌+ℤ◌
unlabelled = refl

allocate_server-SameFlags_example :
    SameFlags arena
      (allocate_server (cluster false true) (pos 9) "arena" "default" "RoundRobin" arena tt).1.0
allocate_server-SameFlags_example =
    allocate_server-SameFlags (cluster false true) (pos 9) "arena" "default" "RoundRobin" arena tt
      (not_labelled "a") (run-new-IsValid setup) unlabelled

unrecorded :
    (reconcile_allocation (cluster true false) (pos 9) "default" "request" arena tt).0
    ≡ alloc_error (not_recorded "a")
unfolding game_server_orchestrator.Allocator.reconcile_allocation
    game_server_orchestrator.Allocator.dispatch game_server_orchestrator.Allocator.serve
    game_server_orchestrator.Allocator.allowed_names
    game_server_orchestrator.Allocator.record_confirmed
    game_server_orchestrator.Allocator.record_allocated game_server_orchestrator.Allocator.confirm
    game_server_orchestrator.Cluster.patch_pod_phase game_server_orchestrator.Pool.State.release
    game_server_orchestrator.Pool.State.release_server
    game_server_orchestrator.Pool.State.allocate_with_filter
    game_server_orchestrator.Prelude.Dict.lookup game_server_orchestrator.Pool.Calls.run
    game_server_orchestrator.Pool.Calls.step game_server_orchestrator.Pool.State.register
    game_server_orchestrator.Prelude.Dict.insert game_server_orchestrator.Pool.State.ensure_fleet
    game_server_orchestrator.Pool.State.mark_unhealthy
    game_server_orchestrator.Pool.State.update_server
    game_server_orchestrator.Pool.State.update_fleet_config
    game_server_orchestrator.Pool.State.grant game_server_orchestrator.Pool.State.choose
    game_server_orchestrator.Pool.State.restrict
    game_server_orchestrator.Pool.State.collect_candidates
    game_server_orchestrator.Pool.State.register_in game_server_orchestrator.Prelude.Sort.sort_slice
    game_server_orchestrator.Pool.State.update_in game_server_orchestrator.Pool.State.take_server
    game_server_orchestrator.Prelude.Int32.add32 game_server_orchestrator.Prelude.Int32.wrap32
    game_server_orchestrator.Prelude.Int.◌+ℤ◌
unrecorded = refl

unfinished :
    (reconcile_allocation (cluster true false) (pos 9) "default" "request" arena tt).0 ≢ finished
unfinished e = cc (unrecorded, e)

reconcile_allocation-TakesNothing_example :
    SameFlags arena
      (reconcile_allocation (cluster true false) (pos 9) "default" "request" arena tt).1.0
reconcile_allocation-TakesNothing_example =
    reconcile_allocation-TakesNothing (cluster true false) (pos 9) "default" "request" arena tt
      (run-new-IsValid setup) unfinished

-- A resource with a selector that only the second pod matches.
abbrev choosy : GameServerAllocation
choosy = record request {
  spec = record {
    fleet_ref = "arena";
    match_labels = ("region", "eu") ∷ [];
    strategy = "RoundRobin";
    ttl_seconds = pos 0;
  };
}

abbrev choosy_cluster : Client Unit
choosy_cluster = record (cluster true true) {
  get_allocation = λ ns name w. (ok choosy, w);
  list_pods = λ ns ls w. (some (pod_named "b" ∷ []), w);
}

reconcile_allocation-selects_example :
    flags (
      server_of
        (reconcile_allocation choosy_cluster (pos 9) "default" "request" arena tt).1.0
        "arena"
        "a")
    ≡ flags (server_of arena "arena" "a")
reconcile_allocation-selects_example =
    reconcile_allocation-selects choosy_cluster (pos 9) "default" "request" arena tt choosy
      (pod_named "b") [] "arena" "a" (run-new-IsValid setup) refl refl refl (refl, tt)

-- Seconds in hundredths, of nanoseconds.
abbrev in_seconds : ℤ → ℤ
in_seconds d = d /ℤ pos 10000000

abbrev limiter : RateLimiter
limiter = record { rate = pos 2; interval = second; tokens = pos 2; last_fill = pos 0 }

abbrev calls : List ℤ
calls = pos 1 ∷ pos 2 ∷ pos 3 ∷ pos 2000000000 ∷ []

rounds_down : RoundsDown ⦃fl = hundredths⦄ in_seconds (pos 2)
unfolding ◌*ℤ◌ ◌/ℤ◌
rounds_down (pos n) forward short = ground arith
rounds_down (negsuc n) forward short = absurd (omega arith)

admit_bounded_example :
    (second *ℤ (admit ⦃fl = hundredths⦄ in_seconds calls limiter).0)
    ≤ℤ ((second *ℤ limiter.tokens) +ℤ (limiter.rate *ℤ (pos 3000000000 -ℤ limiter.last_fill)))
admit_bounded_example =
    admit_bounded ⦃fl = hundredths⦄ in_seconds calls (pos 3000000000) limiter
      (omega arith, omega arith, omega arith) rounds_down
      (omega arith, (omega arith, (omega arith, (omega arith, omega arith))))
