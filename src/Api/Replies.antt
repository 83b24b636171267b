-- ===== src/Api/Replies.antt =====
-- What a reply of the API says of the pool.
use game_server_orchestrator.Prelude.{
  ◌≢◌, refl, not, ◌||◌, Option, inl, inr, Bool-cases, Option-cases,
}
use game_server_orchestrator.Prelude.Int.{ℤ}
use game_server_orchestrator.Prelude.Text.{str_eq}
use game_server_orchestrator.Prelude.Float.{Float64}
use game_server_orchestrator.Prelude.Result.{Result-cases}
use game_server_orchestrator.Pool.State.{PoolManager}
use game_server_orchestrator.Pool.Invariant.{IsValid}
use game_server_orchestrator.Cluster.{Client}
use game_server_orchestrator.Allocator.{allocate_server}
use game_server_orchestrator.Allocator.Rollback.{SameFlags, allocate_server-SameFlags}
use game_server_orchestrator.Web.{status_ok}
use game_server_orchestrator.RateLimiter.{RateLimiter}
use game_server_orchestrator.Api.{
  Request, AllocateRequest, ReleaseRequest, or_default, requested_strategy, Route, to_allocate,
  to_release, to_status, to_health, nowhere, route, allocate_reply, allocate_decoded,
  handle_allocate, release_decoded, handle_release, handle, pass, serve_http,
}

module _ {W : Type 0} (cl : Client W) (now : ℤ) where
  allocate_decoded-SameFlags :
      (req : AllocateRequest) (pm : PoolManager) (w : W)
      → IsValid pm
      → (allocate_decoded cl now req pm w).0.code ≢ status_ok
      → SameFlags pm (allocate_decoded cl now req pm w).1.0
  unfolding allocate_decoded allocate_reply
  allocate_decoded-SameFlags req pm w v failed =
      let strategy = requested_strategy req in
      let ns = or_default req.namespace in
      elim (Bool-cases (str_eq req.fleet "")) [
        | inl empty ↦ simp (empty, allocate_decoded) (λ g k. refl)
        | inr named ↦ elim (Result-cases (allocate_server cl now req.fleet ns strategy pm w).0) [
          | inl (r, worked) ↦
              absurd (failed (simp (named, worked, allocate_decoded, allocate_reply) refl))
          | inr (e, why) ↦
              simp (named, allocate_decoded)
                (allocate_server-SameFlags cl now req.fleet ns strategy pm w e v why)
        ]
      ]

  handle_allocate-SameFlags :
      {B : Type 0} (decode : B → Option AllocateRequest) (q : Request B) (pm : PoolManager) (w : W)
      → IsValid pm
      → (handle_allocate cl now decode q pm w).0.code ≢ status_ok
      → SameFlags pm (handle_allocate cl now decode q pm w).1.0
  unfolding handle_allocate
  handle_allocate-SameFlags decode q pm w v failed =
      elim (Bool-cases (not (str_eq q.method "POST"))) [
        | inl other ↦ simp (other, handle_allocate) (λ g k. refl)
        | inr is_post ↦ elim (Option-cases (decode q.body)) [
          | inl unread ↦ simp (is_post, unread, handle_allocate) (λ g k. refl)
          | inr (req, read) ↦
              simp (is_post, read, handle_allocate)
                (allocate_decoded-SameFlags req pm w v
                  (simp (is_post, read, handle_allocate) at failed))
        ]
      ]

  handle_release-SameFlags :
      {B : Type 0} (decode : B → Option ReleaseRequest) (q : Request B) (pm : PoolManager) (w : W)
      → (handle_release cl now decode q pm w).0.code ≢ status_ok
      → SameFlags pm (handle_release cl now decode q pm w).1.0
  unfolding handle_release release_decoded
  handle_release-SameFlags decode q pm w failed = elim (Bool-cases (not (str_eq q.method "POST"))) [
    | inl other ↦ simp (other, handle_release) (λ g k. refl)
    | inr is_post ↦ elim (Option-cases (decode q.body)) [
      | inl unread ↦ simp (is_post, unread, handle_release) (λ g k. refl)
      | inr (req, read) ↦ elim (Bool-cases (str_eq req.fleet "" || str_eq req.server_name "")) [
        | inl empty ↦ simp (is_post, read, empty, handle_release, release_decoded) (λ g k. refl)
        | inr named ↦
            absurd (failed (simp (is_post, read, named, handle_release, release_decoded) refl))
      ]
    ]
  ]

  module _ {B : Type 0} (decode_allocate : B → Option AllocateRequest)
      (decode_release : B → Option ReleaseRequest) where
    handle-SameFlags :
        (to : Route) (q : Request B) (pm : PoolManager) (w : W)
        → IsValid pm
        → (handle cl now decode_allocate decode_release to q pm w).0.code ≢ status_ok
        → SameFlags pm (handle cl now decode_allocate decode_release to q pm w).1.0
    unfolding handle
    handle-SameFlags to_allocate q pm w v failed =
        handle_allocate-SameFlags decode_allocate q pm w v failed
    handle-SameFlags to_release q pm w v failed =
        handle_release-SameFlags decode_release q pm w failed
    handle-SameFlags to_status q pm w v failed = λ g k. refl
    handle-SameFlags to_health q pm w v failed = λ g k. refl
    handle-SameFlags nowhere q pm w v failed = λ g k. refl

    module _ {F : Type 0} ⦃fl : Float64 F⦄ (seconds : ℤ → F) where
      -- In a valid manager a request that is not answered with 200, be it limited, refused, malformed
      -- or failed by the cluster, leaves every server of every fleet as available as it was.
      pub serve_http-SameFlags :
          (q : Request B) (limiter : Option RateLimiter) (pm : PoolManager) (w : W)
          → IsValid pm
          → (serve_http cl now decode_allocate decode_release seconds q limiter pm w).0.code
            ≢ status_ok
          → SameFlags pm
              (serve_http cl now decode_allocate decode_release seconds q limiter pm w).1.1.0
      unfolding serve_http
      serve_http-SameFlags q limiter pm w v failed =
          elim (Bool-cases (pass seconds now limiter).0) [
            | inl passed ↦
                simp (passed, serve_http)
                  (handle-SameFlags (route q.path) q pm w v (simp (passed, serve_http) at failed))
            | inr limited ↦ simp (limited, serve_http) (λ g k. refl)
          ]
