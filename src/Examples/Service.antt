-- ===== src/Examples/Service.antt =====
-- Tests of the REST API.
use game_server_orchestrator.Prelude.{
  String, ◌≡◌, ◌≢◌, ◌↔◌, refl, sym, ap, ◌∙◌, arith, Bool, true, false, Option, none, some, List, [],
  ◌∷◌, ◌++◌,
}
use game_server_orchestrator.Prelude.Int.{ℤ, pos, pos_part, ◌/ℤ◌}
use game_server_orchestrator.Prelude.Segments.{NoSlash}
use game_server_orchestrator.Pool.State.{server_of}
use game_server_orchestrator.Pool.Invariant.{run-new-IsValid}
use game_server_orchestrator.Web.{status_ok}
use game_server_orchestrator.Allocator.{AllocateResult, pod_endpoint}
use game_server_orchestrator.Allocator.Rollback.{SameFlags}
use game_server_orchestrator.Cluster.{fleet_label, phase_label}
use game_server_orchestrator.Api.{
  Request, AllocateRequest, ReleaseRequest, allocated, status_path, serve_http,
}
use game_server_orchestrator.Api.Paths.{path_of, status_path_iff}
use game_server_orchestrator.Api.Replies.{serve_http-SameFlags}
use game_server_orchestrator.Examples.{setup, arena, cluster, hundredths}

status_path_iff_example :
    (status_path "/api/v1/fleets/default/arena/status" ≡ some ("default", "arena")) ↔ (
      ("/api/v1/fleets/default/arena/status" ≡ path_of "default" "arena")
      × NoSlash "default"
      × NoSlash "arena")
unfolding game_server_orchestrator.Api.route game_server_orchestrator.Prelude.Segments.strip_prefix
status_path_iff_example =
    status_path_iff "/api/v1/fleets/default/arena/status" "default" "arena" refl

-- A body is the request itself, if there is one.
abbrev pub Body : Type 0
Body = Option AllocateRequest

abbrev pub wanted : AllocateRequest
wanted = record {
  fleet = "arena";
  namespace = "";
  strategy = "RoundRobin";
  regions = [];
  ttl_seconds = pos 0;
}

abbrev pub post_allocate : Request Body
post_allocate = record { method = "POST"; path = "/api/v1/allocate"; body = some wanted }

abbrev pub as_release : Body → Option ReleaseRequest
as_release body = none

abbrev pub as_allocate : Body → Option AllocateRequest
as_allocate body = body

abbrev pub in_seconds : ℤ → ℤ
in_seconds d = d /ℤ pos 10000000

unavailable :
    (serve_http
      (cluster false true)
      (pos 9)
      as_allocate
      as_release
      ⦃fl = hundredths⦄
      in_seconds
      post_allocate
      none
      arena
      tt).0.code
    ≡ pos 503
unfolding game_server_orchestrator.Api.serve_http game_server_orchestrator.Api.handle
    game_server_orchestrator.Api.route game_server_orchestrator.Api.handle_allocate
    game_server_orchestrator.Api.allocate_decoded game_server_orchestrator.Api.allocate_reply
    game_server_orchestrator.Api.pass game_server_orchestrator.Prelude.Segments.strip_prefix
    game_server_orchestrator.Allocator.allocate_server
    game_server_orchestrator.Allocator.answer_with game_server_orchestrator.Allocator.confirm
    game_server_orchestrator.Cluster.patch_pod_phase
    game_server_orchestrator.Pool.State.allocate_with_filter
    game_server_orchestrator.Prelude.Dict.lookup game_server_orchestrator.Pool.Calls.run
    game_server_orchestrator.Pool.Calls.step game_server_orchestrator.Pool.State.register
    game_server_orchestrator.Prelude.Dict.insert game_server_orchestrator.Pool.State.ensure_fleet
    game_server_orchestrator.Pool.State.mark_unhealthy
    game_server_orchestrator.Pool.State.update_server
    game_server_orchestrator.Pool.State.update_fleet_config
    game_server_orchestrator.Pool.State.grant game_server_orchestrator.Pool.State.choose
    game_server_orchestrator.Pool.State.restrict
    game_server_orchestrator.Pool.State.collect_candidates
    game_server_orchestrator.Pool.State.register_in game_server_orchestrator.Prelude.Sort.sort_slice
    game_server_orchestrator.Pool.State.update_in game_server_orchestrator.Pool.State.take_server
    game_server_orchestrator.Prelude.Int32.add32 game_server_orchestrator.Prelude.Int32.wrap32
    game_server_orchestrator.Prelude.Int.◌+ℤ◌ game_server_orchestrator.Pool.State.release
    game_server_orchestrator.Pool.State.release_server
unavailable = refl

ok_apart : pos 503 ≢ status_ok
ok_apart e = absurd (omega (arith, ap pos_part e))

not_done :
    (serve_http
      (cluster false true)
      (pos 9)
      as_allocate
      as_release
      ⦃fl = hundredths⦄
      in_seconds
      post_allocate
      none
      arena
      tt).0.code
    ≢ status_ok
not_done e = ok_apart (sym unavailable ∙ e)

serve_http-SameFlags_example :
    SameFlags arena
      (serve_http
        (cluster false true)
        (pos 9)
        as_allocate
        as_release
        ⦃fl = hundredths⦄
        in_seconds
        post_allocate
        none
        arena
        tt).1.1.0
serve_http-SameFlags_example =
    serve_http-SameFlags (cluster false true) (pos 9) as_allocate as_release ⦃fl = hundredths⦄
      in_seconds post_allocate none arena tt (run-new-IsValid setup) not_done
