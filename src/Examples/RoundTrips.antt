-- ===== src/Examples/RoundTrips.antt =====
-- Tests of an allocation that is given back.
use game_server_orchestrator.Prelude.{◌≡◌, refl, true, Option, none, some}
use game_server_orchestrator.Prelude.Int.{pos}
use game_server_orchestrator.Pool.State.{PoolManager}
use game_server_orchestrator.Pool.Invariant.{run-new-IsValid}
use game_server_orchestrator.Allocator.{AllocateResult, pod_endpoint}
use game_server_orchestrator.Allocator.Rollback.{SameFlags}
use game_server_orchestrator.Api.{Request, ReleaseRequest, allocated, status, serve_http}
use game_server_orchestrator.Api.RoundTrip.{release-allocate}
use game_server_orchestrator.Examples.Service.{Body, wanted, post_allocate, as_allocate, in_seconds}
use game_server_orchestrator.Examples.{setup, arena, cluster, pod_named, hundredths}

abbrev given_back : ReleaseRequest
given_back = record { fleet = "arena"; namespace = ""; server_name = "a" }

abbrev as_given_back : Body → Option ReleaseRequest
as_given_back body = some given_back

abbrev post_release : Request Body
post_release = record { method = "POST"; path = "/api/v1/release"; body = none }

abbrev handed_out : AllocateResult
handed_out = record { server_name = "a"; endpoint = pod_endpoint (pod_named "a"); node = "node-1" }

abbrev held_pool : PoolManager
held_pool =
    (serve_http (cluster true true) (pos 9) as_allocate as_given_back ⦃fl = hundredths⦄ in_seconds
      post_allocate none arena tt).1.1.0

is_handed_out :
    (serve_http
      (cluster true true)
      (pos 9)
      as_allocate
      as_given_back
      ⦃fl = hundredths⦄
      in_seconds
      post_allocate
      none
      arena
      tt).0.content
    ≡ allocated handed_out (pos 9)
unfolding serve_http game_server_orchestrator.Api.pass game_server_orchestrator.Api.handle
    game_server_orchestrator.Api.route game_server_orchestrator.Api.handle_allocate
    game_server_orchestrator.Api.allocate_decoded game_server_orchestrator.Api.allocate_reply
    game_server_orchestrator.Allocator.allocate_server
    game_server_orchestrator.Pool.State.allocate_with_filter
    game_server_orchestrator.Prelude.Dict.lookup game_server_orchestrator.Pool.Calls.run
    game_server_orchestrator.Pool.Calls.step game_server_orchestrator.Pool.State.register
    game_server_orchestrator.Prelude.Dict.insert game_server_orchestrator.Pool.State.ensure_fleet
    game_server_orchestrator.Pool.State.update_fleet_config
    game_server_orchestrator.Pool.State.grant game_server_orchestrator.Pool.State.choose
    game_server_orchestrator.Pool.State.restrict
    game_server_orchestrator.Pool.State.collect_candidates
    game_server_orchestrator.Pool.State.register_in game_server_orchestrator.Prelude.Sort.sort_slice
    game_server_orchestrator.Allocator.answer_with game_server_orchestrator.Allocator.confirm
    game_server_orchestrator.Cluster.patch_pod_phase
is_handed_out = refl

is_given_back :
    (serve_http
      (cluster true true)
      (pos 20)
      as_allocate
      as_given_back
      ⦃fl = hundredths⦄
      in_seconds
      post_release
      none
      held_pool
      tt).0.content
    ≡ status "released"
unfolding serve_http game_server_orchestrator.Api.pass game_server_orchestrator.Api.handle
    game_server_orchestrator.Api.route game_server_orchestrator.Api.handle_release
    game_server_orchestrator.Api.release_decoded
is_given_back = refl

release-allocate_example :
    SameFlags arena
      (serve_http
        (cluster true true)
        (pos 20)
        as_allocate
        as_given_back
        ⦃fl = hundredths⦄
        in_seconds
        post_release
        none
        held_pool
        tt).1.1.0
release-allocate_example =
    release-allocate (cluster true true) as_allocate as_given_back ⦃fl = hundredths⦄ in_seconds
      (pos 9) (pos 20) post_allocate post_release none none arena tt tt wanted given_back handed_out
      (pos 9) (run-new-IsValid setup) refl refl refl refl is_handed_out is_given_back
