-- ===== src/Examples/Process.antt =====
-- Tests of the process behind the REST API.
use game_server_orchestrator.Prelude.{
  String, ◌≡◌, ◌≢◌, ◌↔◌, refl, sym, ap, ◌∙◌, arith, Bool, true, false, Option, none, some, List, [],
  ◌∷◌, ◌++◌,
}
use game_server_orchestrator.Prelude.Int.{ℤ, pos, pos_part, ◌/ℤ◌}
use game_server_orchestrator.Prelude.Segments.{NoSlash}
use game_server_orchestrator.V1alpha1.Fleet.{Pod}
use game_server_orchestrator.Pool.State.{server_of}
use game_server_orchestrator.Pool.Invariant.{run-new-IsValid}
use game_server_orchestrator.Allocator.{AllocateResult, pod_endpoint}
use game_server_orchestrator.Cluster.{fleet_label, phase_label}
use game_server_orchestrator.Director.Sync.{phase_of}
use game_server_orchestrator.Director.Labels.{Reflects}
use game_server_orchestrator.Api.{
  Request, AllocateRequest, ReleaseRequest, allocated, status_path, serve_http,
}
use game_server_orchestrator.Apiserver.{Process, label_fleet, sync_all, resync, serve_request}
use game_server_orchestrator.Apiserver.Sync.{sync_all-Reflects}
use game_server_orchestrator.Apiserver.Exclusive.{Hands, stays, syncs, no_shared_server}
use game_server_orchestrator.Examples.Service.{
  wanted, post_allocate, as_release, as_allocate, in_seconds,
}
use game_server_orchestrator.Examples.{setup, arena, cluster, pod_named, hundredths}

abbrev labelled_pod : String → String → Pod
labelled_pod name phase = record (pod_named name) {
  labels = (fleet_label, "arena") ∷ (phase_label, phase) ∷ [];
}

sync_all-Reflects_example : Reflects (phase_of (labelled_pod "b" "allocated")) (
    server_of
      (sync_all
        (pos 9)
        ((labelled_pod "a" "warm" ∷ [])
          ++ labelled_pod "b" "allocated" ∷ labelled_pod "c" "draining" ∷ [])
        arena)
      "arena"
      "b")
unfolding game_server_orchestrator.Prelude.Dict.lookup
sync_all-Reflects_example =
    sync_all-Reflects (pos 9) (labelled_pod "a" "warm" ∷ []) (labelled_pod "b" "allocated")
      (labelled_pod "c" "draining" ∷ []) arena refl refl (refl, tt)

abbrev start : Process Unit
start = record { limiter = none; pool = arena; world = tt }

abbrev answer_of : String → AllocateResult
answer_of name = record {
  server_name = name;
  endpoint = pod_endpoint (pod_named name);
  node = "node-1";
}

-- The process after the first request.
abbrev next : Process Unit
next =
    (serve_request (cluster true true) as_allocate as_release ⦃fl = hundredths⦄ in_seconds (pos 9)
      post_allocate start).1

-- The list shows the label of the first request.
abbrev list_one : Unit {0} → Option (List Pod) × Unit {0}
list_one w = (some (labelled_pod "a" "allocated" ∷ []), w)

-- After a sync.
abbrev synced : Process Unit
synced = resync list_one (pos 10) next

first-Hands :
    Hands
      (cluster true true)
      list_one
      as_allocate
      as_release
      ⦃fl = hundredths⦄
      in_seconds
      (pos 9)
      post_allocate
      start
      (answer_of "a")
unfolding game_server_orchestrator.Apiserver.serve_request game_server_orchestrator.Api.serve_http
    game_server_orchestrator.Api.handle game_server_orchestrator.Api.route
    game_server_orchestrator.Api.handle_allocate game_server_orchestrator.Api.allocate_decoded
    game_server_orchestrator.Api.allocate_reply game_server_orchestrator.Api.pass
    game_server_orchestrator.Prelude.Segments.strip_prefix
    game_server_orchestrator.Allocator.allocate_server
    game_server_orchestrator.Allocator.answer_with game_server_orchestrator.Allocator.confirm
    game_server_orchestrator.Cluster.patch_pod_phase game_server_orchestrator.Cluster.find_game_port
    game_server_orchestrator.Cluster.find_in_containers game_server_orchestrator.Cluster.first_port
    game_server_orchestrator.Pool.State.allocate_with_filter
    game_server_orchestrator.Prelude.Dict.lookup game_server_orchestrator.Pool.Calls.run
    game_server_orchestrator.Pool.Calls.step game_server_orchestrator.Pool.State.register
    game_server_orchestrator.Prelude.Dict.insert game_server_orchestrator.Pool.State.ensure_fleet
    game_server_orchestrator.Pool.State.mark_unhealthy
    game_server_orchestrator.Pool.State.update_server
    game_server_orchestrator.Pool.State.update_fleet_config
    game_server_orchestrator.Pool.State.grant game_server_orchestrator.Pool.State.choose
    game_server_orchestrator.Pool.State.restrict
    game_server_orchestrator.Pool.State.collect_candidates
    game_server_orchestrator.Pool.State.register_in game_server_orchestrator.Prelude.Sort.sort_slice
    game_server_orchestrator.Pool.State.update_in game_server_orchestrator.Pool.State.take_server
    game_server_orchestrator.Prelude.Int32.add32 game_server_orchestrator.Prelude.Int32.wrap32
    game_server_orchestrator.Prelude.Int.◌+ℤ◌ game_server_orchestrator.Apiserver.resync
    game_server_orchestrator.Apiserver.sync_pools_from_labels
    game_server_orchestrator.Apiserver.sync_all game_server_orchestrator.Apiserver.sync_labelled
    game_server_orchestrator.Director.Sync.sync_server
    game_server_orchestrator.Pool.State.mark_allocated
first-Hands = (pos 9, refl)

second-Hands :
    Hands
      (cluster true true)
      list_one
      as_allocate
      as_release
      ⦃fl = hundredths⦄
      in_seconds
      (pos 11)
      post_allocate
      synced
      (answer_of "b")
unfolding game_server_orchestrator.Apiserver.serve_request game_server_orchestrator.Api.serve_http
    game_server_orchestrator.Api.handle game_server_orchestrator.Api.route
    game_server_orchestrator.Api.handle_allocate game_server_orchestrator.Api.allocate_decoded
    game_server_orchestrator.Api.allocate_reply game_server_orchestrator.Api.pass
    game_server_orchestrator.Prelude.Segments.strip_prefix
    game_server_orchestrator.Allocator.allocate_server
    game_server_orchestrator.Allocator.answer_with game_server_orchestrator.Allocator.confirm
    game_server_orchestrator.Cluster.patch_pod_phase game_server_orchestrator.Cluster.find_game_port
    game_server_orchestrator.Cluster.find_in_containers game_server_orchestrator.Cluster.first_port
    game_server_orchestrator.Pool.State.allocate_with_filter
    game_server_orchestrator.Prelude.Dict.lookup game_server_orchestrator.Pool.Calls.run
    game_server_orchestrator.Pool.Calls.step game_server_orchestrator.Pool.State.register
    game_server_orchestrator.Prelude.Dict.insert game_server_orchestrator.Pool.State.ensure_fleet
    game_server_orchestrator.Pool.State.mark_unhealthy
    game_server_orchestrator.Pool.State.update_server
    game_server_orchestrator.Pool.State.update_fleet_config
    game_server_orchestrator.Pool.State.grant game_server_orchestrator.Pool.State.choose
    game_server_orchestrator.Pool.State.restrict
    game_server_orchestrator.Pool.State.collect_candidates
    game_server_orchestrator.Pool.State.register_in game_server_orchestrator.Prelude.Sort.sort_slice
    game_server_orchestrator.Pool.State.update_in game_server_orchestrator.Pool.State.take_server
    game_server_orchestrator.Prelude.Int32.add32 game_server_orchestrator.Prelude.Int32.wrap32
    game_server_orchestrator.Prelude.Int.◌+ℤ◌ game_server_orchestrator.Apiserver.resync
    game_server_orchestrator.Apiserver.sync_pools_from_labels
    game_server_orchestrator.Apiserver.sync_all game_server_orchestrator.Apiserver.sync_labelled
    game_server_orchestrator.Director.Sync.sync_server
    game_server_orchestrator.Pool.State.mark_allocated
second-Hands = (pos 11, refl)

no_shared_server_example : ◌≢◌ {A = String} "b" "a"
unfolding game_server_orchestrator.Prelude.Dict.lookup
no_shared_server_example =
    no_shared_server (cluster true true) list_one as_allocate as_release ⦃fl = hundredths⦄
      in_seconds (pos 9) (pos 11) post_allocate post_allocate start synced wanted wanted
      (answer_of "a") (answer_of "b") (run-new-IsValid setup) refl refl refl first-Hands
      (syncs (pos 10) (refl, tt) (stays synced)) second-Hands

-- Both servers are taken, and a sync then reads from an old list that the first one is free: the next
-- request gets it again.
abbrev both_taken : Process Unit
both_taken =
    (serve_request (cluster true true) as_allocate as_release ⦃fl = hundredths⦄ in_seconds (pos 10)
      post_allocate next).1

abbrev stale : Process Unit
stale = resync (λ w. (some (labelled_pod "a" "warm" ∷ []), w)) (pos 11) both_taken

handed_out_twice :
    (serve_request
      (cluster true true)
      as_allocate
      as_release
      ⦃fl = hundredths⦄
      in_seconds
      (pos 12)
      post_allocate
      stale).0.content
    ≡ allocated (answer_of "a") (pos 12)
unfolding game_server_orchestrator.Apiserver.serve_request game_server_orchestrator.Api.serve_http
    game_server_orchestrator.Api.handle game_server_orchestrator.Api.route
    game_server_orchestrator.Api.handle_allocate game_server_orchestrator.Api.allocate_decoded
    game_server_orchestrator.Api.allocate_reply game_server_orchestrator.Api.pass
    game_server_orchestrator.Prelude.Segments.strip_prefix
    game_server_orchestrator.Allocator.allocate_server
    game_server_orchestrator.Allocator.answer_with game_server_orchestrator.Allocator.confirm
    game_server_orchestrator.Cluster.patch_pod_phase game_server_orchestrator.Cluster.find_game_port
    game_server_orchestrator.Cluster.find_in_containers game_server_orchestrator.Cluster.first_port
    game_server_orchestrator.Pool.State.allocate_with_filter
    game_server_orchestrator.Prelude.Dict.lookup game_server_orchestrator.Pool.Calls.run
    game_server_orchestrator.Pool.Calls.step game_server_orchestrator.Pool.State.register
    game_server_orchestrator.Prelude.Dict.insert game_server_orchestrator.Pool.State.ensure_fleet
    game_server_orchestrator.Pool.State.mark_unhealthy
    game_server_orchestrator.Pool.State.update_server
    game_server_orchestrator.Pool.State.update_fleet_config
    game_server_orchestrator.Pool.State.grant game_server_orchestrator.Pool.State.choose
    game_server_orchestrator.Pool.State.restrict
    game_server_orchestrator.Pool.State.collect_candidates
    game_server_orchestrator.Pool.State.register_in game_server_orchestrator.Prelude.Sort.sort_slice
    game_server_orchestrator.Pool.State.update_in game_server_orchestrator.Pool.State.take_server
    game_server_orchestrator.Prelude.Int32.add32 game_server_orchestrator.Prelude.Int32.wrap32
    game_server_orchestrator.Prelude.Int.◌+ℤ◌ game_server_orchestrator.Apiserver.resync
    game_server_orchestrator.Apiserver.sync_pools_from_labels
    game_server_orchestrator.Apiserver.sync_all game_server_orchestrator.Apiserver.sync_labelled
    game_server_orchestrator.Director.Sync.sync_server
    game_server_orchestrator.Pool.State.mark_allocated
    game_server_orchestrator.Pool.State.mark_available
    game_server_orchestrator.Pool.State.free_server
handed_out_twice = refl
