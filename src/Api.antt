-- ===== src/Api.antt =====
-- pkg/api: the REST API. handler.go has the handlers, server.go the routes, and middleware.go the
-- rate limit in front of them. A body is of a type `B`, which `decode` of a request reads; a reply is
-- its status with what is written. The paths are those that http.ServeMux leaves as they are: it
-- redirects a path that is not clean.
pub mod Paths
pub mod Replies
pub mod Answers
pub mod Ownership
pub mod RoundTrip
use game_server_orchestrator.Prelude.{
  String, Bool, true, false, not, ◌||◌, Option, none, some, List, [], ◌∷◌, if◌then◌else◌,
}
use game_server_orchestrator.Prelude.Int.{ℤ, pos}
use game_server_orchestrator.Prelude.Text.{str_eq}
use game_server_orchestrator.Prelude.Segments.{split_slash, strip_prefix, trim_prefix}
use game_server_orchestrator.Prelude.Float.{Float64}
use game_server_orchestrator.Prelude.Result.{Result, ok, err}
use game_server_orchestrator.V1alpha1.Policy.{AllocationStrategy, allocation_fewest_players}
use game_server_orchestrator.Pool.State.{PoolManager, PoolStats}
use game_server_orchestrator.Pool.Query.{stats}
use game_server_orchestrator.Cluster.{Client}
use game_server_orchestrator.Allocator.{
  AllocateResult, AllocError, allocate_server, release_allocated,
}
use game_server_orchestrator.RateLimiter.{RateLimiter, allow}

-- The fields of an http.Request that are read.
pub record Request (B : Type 0) : Type 0 where
  pub method : String
  pub path : String
  pub body : B

pub record AllocateRequest : Type 0 where
  pub fleet : String
  pub namespace : String
  pub strategy : String
  pub regions : List String
  pub ttl_seconds : ℤ

pub record ReleaseRequest : Type 0 where
  pub fleet : String
  pub namespace : String
  pub server_name : String

-- What is written: a text, or an object with these fields.
pub data Content : Type 0 where
  plain error : String → Content
  alloc_failed : AllocError → Content
  allocated : AllocateResult → ℤ → Content
  fleet_status : String → PoolStats → String → Content
  status : String → Content

pub record HttpReply : Type 0 where
  pub code : ℤ
  pub content : Content

abbrev pub reply : ℤ → Content → HttpReply
reply code content = record { code = code; content = content }

abbrev pub or_default : String → String
or_default ns = if str_eq ns "" then "default" else ns

abbrev pub requested_strategy : AllocateRequest → AllocationStrategy
requested_strategy req =
    if not (str_eq req.strategy "") then req.strategy else allocation_fewest_players

-- The two parts of a status path that are not fixed.
unfoldable pub status_parts : List String → Option (String × String)
status_parts [] = none
status_parts (ns ∷ []) = none
status_parts (ns ∷ name ∷ []) = none
status_parts (ns ∷ name ∷ last ∷ []) = if str_eq last "status" then some (ns, name) else none
status_parts (ns ∷ name ∷ last ∷ more ∷ rest) = none

abbrev pub fleets_prefix : String
fleets_prefix = "/api/v1/fleets/"

unfoldable pub status_path : String → Option (String × String)
status_path path = status_parts (split_slash (trim_prefix path fleets_prefix))

-- The handlers and the way to them.
pub data Route : Type 0 where
  to_allocate to_release to_status to_health nowhere : Route

-- The patterns of `NewServer`, the last of which is a prefix.
unfoldable pub route : String → Route
route path =
    if str_eq path "/api/v1/allocate"
    then to_allocate
    else if str_eq path "/api/v1/release"
    then to_release
    else if str_eq path "/healthz"
    then to_health
    else elim (strip_prefix fleets_prefix path) [ none ↦ nowhere | some rest ↦ to_status ]

-- The reply to the outcome of an allocation.
unfoldable pub allocate_reply : ℤ → Result AllocError AllocateResult → HttpReply
allocate_reply now (ok r) = reply (pos 200) (allocated r now)
allocate_reply now (err e) = reply (pos 503) (alloc_failed e)

-- The phase that is recorded of an allocation.
abbrev pub phase_recorded : Result AllocError AllocateResult → String
phase_recorded (ok r) = "Allocated"
phase_recorded (err e) = "Failed"

-- `Healthz`
unfoldable pub healthz : HttpReply
healthz = reply (pos 200) (status "ok")

-- `GetFleetStatus`
unfoldable pub get_fleet_status : {B : Type 0} → Request B → PoolManager → HttpReply
get_fleet_status r pm =
    if not (str_eq r.method "GET")
    then reply (pos 405) (plain "method not allowed")
    else elim (status_path r.path) [
      | none ↦ reply (pos 400) (error "path must be /api/v1/fleets/{namespace}/{name}/status")
      | some (ns, name) ↦ reply (pos 200) (fleet_status ns (stats pm name) r.path)
    ]

-- The limit of `Wrap`; a nil limiter lets every request pass.
unfoldable pub pass :
    {F : Type 0} ⦃fl : Float64 F⦄ → (ℤ → F) → ℤ → Option RateLimiter → Bool × Option RateLimiter
pass seconds now none = (true, none)
pass seconds now (some rl) = let (passed, rl') = allow seconds now rl in (passed, some rl')

module _ {W : Type 0} (cl : Client W) (now : ℤ) where
  -- `Allocate` of a decoded request.
  unfoldable pub allocate_decoded :
      AllocateRequest → PoolManager → W → HttpReply × (PoolManager × W)
  allocate_decoded req pm w =
      if str_eq req.fleet ""
      then (reply (pos 400) (error "fleet is required"), (pm, w))
      else (let (result, (pm', w')) =
            allocate_server cl now req.fleet (or_default req.namespace) (requested_strategy req) pm
              w in
          (
            allocate_reply now result,
            (
              pm',
              cl.count_allocation req.fleet (requested_strategy req) (phase_recorded result) w',
            ),
          ))

  -- `Release` of a decoded request; the allocator's Release has no error to return.
  unfoldable pub release_decoded : ReleaseRequest → PoolManager → W → HttpReply × (PoolManager × W)
  release_decoded req pm w =
      if str_eq req.fleet "" || str_eq req.server_name ""
      then (reply (pos 400) (error "fleet and serverName are required"), (pm, w))
      else (
        reply (pos 200) (status "released"),
        release_allocated cl now req.fleet (or_default req.namespace) req.server_name pm w,
      )

  -- `Allocate`
  unfoldable pub handle_allocate :
      {B : Type 0}
      → (B → Option AllocateRequest)
      → Request B
      → PoolManager
      → W
      → HttpReply × (PoolManager × W)
  handle_allocate decode r pm w =
      if not (str_eq r.method "POST")
      then (reply (pos 405) (plain "method not allowed"), (pm, w))
      else elim (decode r.body) [
        | none ↦ (reply (pos 400) (error "invalid request body"), (pm, w))
        | some req ↦ allocate_decoded req pm w
      ]

  -- `Release`
  unfoldable pub handle_release :
      {B : Type 0}
      → (B → Option ReleaseRequest)
      → Request B
      → PoolManager
      → W
      → HttpReply × (PoolManager × W)
  handle_release decode r pm w =
      if not (str_eq r.method "POST")
      then (reply (pos 405) (plain "method not allowed"), (pm, w))
      else elim (decode r.body) [
        | none ↦ (reply (pos 400) (error "invalid request body"), (pm, w))
        | some req ↦ release_decoded req pm w
      ]

  module _ {B : Type 0} (decode_allocate : B → Option AllocateRequest)
      (decode_release : B → Option ReleaseRequest) where
    unfoldable pub handle : Route → Request B → PoolManager → W → HttpReply × (PoolManager × W)
    handle to_allocate r pm w = handle_allocate decode_allocate r pm w
    handle to_release r pm w = handle_release decode_release r pm w
    handle to_status r pm w = (get_fleet_status r pm, (pm, w))
    handle to_health r pm w = (healthz, (pm, w))
    handle nowhere r pm w = (reply (pos 404) (plain "404 page not found"), (pm, w))

    -- `Wrap` around the routes. The result has the limiter after the request.
    module _ {F : Type 0} ⦃fl : Float64 F⦄ (seconds : ℤ → F) where
      unfoldable pub serve_http :
          Request B
          → Option RateLimiter
          → PoolManager
          → W
          → HttpReply × (Option RateLimiter × (PoolManager × W))
      serve_http r limiter pm w =
          let (passed, limiter') = pass seconds now limiter in
          let (answer, after) = handle (route r.path) r pm w in
          if passed
          then (answer, (limiter', after))
          else (reply (pos 429) (plain "rate limit exceeded"), (limiter', (pm, w)))
