-- ===== src/Api/Answers.antt =====
-- What an answer with an allocated server promises.
use game_server_orchestrator.Prelude.{
  ◌≡◌, ◌≢◌, ap, ◌∙◌, not, ◌||◌, Option, some, inl, inr, Bool-cases, Option-cases,
}
use game_server_orchestrator.Prelude.Int.{ℤ}
use game_server_orchestrator.Prelude.Text.{str_eq}
use game_server_orchestrator.Prelude.Float.{Float64}
use game_server_orchestrator.Prelude.Result.{ok, Result-cases}
use game_server_orchestrator.Pool.State.{PoolManager}
use game_server_orchestrator.Pool.Invariant.{IsValid}
use game_server_orchestrator.Cluster.{Client}
use game_server_orchestrator.Allocator.{AllocateResult, allocate_server}
use game_server_orchestrator.Allocator.Rollback.{Serves, allocate_server-Serves}
use game_server_orchestrator.RateLimiter.{RateLimiter}
use game_server_orchestrator.Api.{
  Request, AllocateRequest, ReleaseRequest, allocated, Route, to_allocate, to_release, to_status,
  to_health, nowhere, route, or_default, requested_strategy, allocate_decoded, handle_allocate,
  release_decoded, handle_release, healthz, get_fleet_status, status_path, handle, pass, serve_http,
  allocate_reply,
}

pub get_fleet_status_unallocated :
    {B : Type 0} (q : Request B) (pm : PoolManager) (r : AllocateResult) (at_time : ℤ)
    → (get_fleet_status q pm).content ≢ allocated r at_time
unfolding get_fleet_status
get_fleet_status_unallocated q pm r at_time e = elim (Bool-cases (not (str_eq q.method "GET"))) [
  | inl other ↦ cc (simp (other, get_fleet_status) at e)
  | inr is_get ↦ elim (Option-cases (status_path q.path)) [
    | inl unread ↦ cc (simp (is_get, unread, get_fleet_status) at e)
    | inr ((ns, name), read) ↦ cc (simp (is_get, read, get_fleet_status) at e)
  ]
]

module _ {W : Type 0} (cl : Client W) (now : ℤ) where
  allocate_decoded-Serves :
      (req : AllocateRequest) (pm : PoolManager) (w : W) (r : AllocateResult) (at_time : ℤ)
      → IsValid pm
      → (allocate_decoded cl now req pm w).0.content ≡ allocated r at_time
      → Serves cl req.fleet (or_default req.namespace) pm w (allocate_decoded cl now req pm w).1.0 r
  unfolding allocate_decoded allocate_reply
  allocate_decoded-Serves req pm w r at_time v e =
      let strategy = requested_strategy req in
      let ns = or_default req.namespace in
      elim (Bool-cases (str_eq req.fleet "")) [
        | inl empty ↦ absurd (cc (simp (empty, allocate_decoded) at e))
        | inr named ↦ elim (Result-cases (allocate_server cl now req.fleet ns strategy pm w).0) [
          | inr (f, why) ↦ absurd (cc (simp (named, why, allocate_decoded, allocate_reply) at e))
          | inl (r', worked) ↦
              let same : r' ≡ r =
                cc (simp (named, worked, allocate_decoded, allocate_reply) at e) in
              simp (named, allocate_decoded)
                (allocate_server-Serves cl now req.fleet ns strategy pm w r v (worked ∙ ap ok same))
        ]
      ]

  -- A successful answer came from a decoded request.
  handle_allocate-Serves :
      {B : Type 0} (decode : B → Option AllocateRequest) (q : Request B) (pm : PoolManager) (w : W)
      (r : AllocateResult) (at_time : ℤ)
      → IsValid pm
      → (handle_allocate cl now decode q pm w).0.content ≡ allocated r at_time
      → (req : AllocateRequest) × (decode q.body ≡ some req)
        × Serves cl req.fleet
            (or_default req.namespace)
            pm
            w
            (handle_allocate cl now decode q pm w).1.0
            r
  unfolding handle_allocate
  handle_allocate-Serves decode q pm w r at_time v e =
      elim (Bool-cases (not (str_eq q.method "POST"))) [
        | inl other ↦ absurd (cc (simp (other, handle_allocate) at e))
        | inr is_post ↦ elim (Option-cases (decode q.body)) [
          | inl unread ↦ absurd (cc (simp (is_post, unread, handle_allocate) at e))
          | inr (req, read) ↦ (
            req,
            read,
            simp (is_post, read, handle_allocate)
                (allocate_decoded-Serves req pm w r at_time v
                  (simp (is_post, read, handle_allocate) at e)),
          )
        ]
      ]

  pub handle_release_unallocated :
      {B : Type 0} (decode : B → Option ReleaseRequest) (q : Request B) (pm : PoolManager) (w : W)
      (r : AllocateResult) (at_time : ℤ)
      → (handle_release cl now decode q pm w).0.content ≢ allocated r at_time
  unfolding handle_release release_decoded
  handle_release_unallocated decode q pm w r at_time e =
      elim (Bool-cases (not (str_eq q.method "POST"))) [
        | inl other ↦ cc (simp (other, handle_release) at e)
        | inr is_post ↦ elim (Option-cases (decode q.body)) [
          | inl unread ↦ cc (simp (is_post, unread, handle_release) at e)
          | inr (req, read) ↦ elim (Bool-cases (str_eq req.fleet "" || str_eq req.server_name "")) [
            | inl empty ↦ cc (simp (is_post, read, empty, handle_release, release_decoded) at e)
            | inr named ↦ cc (simp (is_post, read, named, handle_release, release_decoded) at e)
          ]
        ]
      ]

  module _ {B : Type 0} (decode_allocate : B → Option AllocateRequest)
      (decode_release : B → Option ReleaseRequest) where
    handle-Serves :
        (to : Route) (q : Request B) (pm : PoolManager) (w : W) (r : AllocateResult) (at_time : ℤ)
        → IsValid pm
        → (handle cl now decode_allocate decode_release to q pm w).0.content ≡ allocated r at_time
        → (req : AllocateRequest) × (decode_allocate q.body ≡ some req)
          × Serves cl req.fleet
              (or_default req.namespace)
              pm
              w
              (handle cl now decode_allocate decode_release to q pm w).1.0
              r
    unfolding handle healthz
    handle-Serves to_allocate q pm w r at_time v e =
        handle_allocate-Serves decode_allocate q pm w r at_time v e
    handle-Serves to_release q pm w r at_time v e =
        absurd (handle_release_unallocated decode_release q pm w r at_time e)
    handle-Serves to_status q pm w r at_time v e =
        absurd (get_fleet_status_unallocated q pm r at_time e)
    handle-Serves to_health q pm w r at_time v e = absurd (cc e)
    handle-Serves nowhere q pm w r at_time v e = absurd (cc e)

    module _ {F : Type 0} ⦃fl : Float64 F⦄ (seconds : ℤ → F) where
      -- In a valid manager an answer with an allocated server comes from a readable request, and for its
      -- fleet it keeps what an allocation promises.
      pub serve_http-Serves :
          (q : Request B) (limiter : Option RateLimiter) (pm : PoolManager) (w : W)
          (r : AllocateResult) (at_time : ℤ)
          → IsValid pm
          → (serve_http cl now decode_allocate decode_release seconds q limiter pm w).0.content
            ≡ allocated r at_time
          → (req : AllocateRequest) × (decode_allocate q.body ≡ some req)
            × Serves cl req.fleet
                (or_default req.namespace)
                pm
                w
                (serve_http cl now decode_allocate decode_release seconds q limiter pm w).1.1.0
                r
      unfolding serve_http
      serve_http-Serves q limiter pm w r at_time v e =
          elim (Bool-cases (pass seconds now limiter).0) [
            | inl passed ↦
                simp (passed, serve_http)
                  (handle-Serves (route q.path) q pm w r at_time v (simp (passed, serve_http) at e))
            | inr limited ↦ absurd (cc (simp (limited, serve_http) at e))
          ]
