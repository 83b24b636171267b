-- ===== src/Api/RoundTrip/Releasing.antt =====
-- What a release over the API that is answered with "released" has done.
use mathlib.Core.Bool.{false≢true}
use game_server_orchestrator.Prelude.{
  ◌≡◌, sym, ◌∙◌, not, ◌||◌, Bool, true, false, Option, some, inl, inr, Bool-cases, Option-cases,
}
use game_server_orchestrator.Prelude.Int.{ℤ}
use game_server_orchestrator.Prelude.Text.{str_eq}
use game_server_orchestrator.Prelude.Float.{Float64}
use game_server_orchestrator.Prelude.Result.{Result-cases}
use game_server_orchestrator.Pool.State.{PoolManager, release}
use game_server_orchestrator.Cluster.{Client}
use game_server_orchestrator.Allocator.{allocate_server, release_allocated}
use game_server_orchestrator.RateLimiter.{RateLimiter}
use game_server_orchestrator.Api.{
  Content, Request, AllocateRequest, ReleaseRequest, status, Route, to_allocate, to_release,
  to_status, to_health, nowhere, route, or_default, requested_strategy, allocate_decoded,
  handle_allocate, release_decoded, handle_release, healthz, get_fleet_status, status_path, handle,
  pass, serve_http, allocate_reply,
}

-- What an answer to a release says.
abbrev pub says_released : Content → Bool
says_released (status s) = str_eq s "released"
says_released other = false

-- A successful release comes from a readable request, and releases what it names.
unfoldable pub Releases :
    {B : Type 0} → (B → Option ReleaseRequest) → ℤ → Request B → PoolManager → PoolManager → Type 0
Releases decode now q pm pm' =
    (req : ReleaseRequest) × (decode q.body ≡ some req)
    × (pm' ≡ release now req.fleet req.server_name pm)

module _ {W : Type 0} (cl : Client W) (now : ℤ) where
  handle_release-Releases :
      {B : Type 0} (decode : B → Option ReleaseRequest) (q : Request B) (pm : PoolManager) (w : W)
      → says_released (handle_release cl now decode q pm w).0.content ≡ true
      → Releases decode now q pm (handle_release cl now decode q pm w).1.0
  unfolding handle_release release_decoded release_allocated Releases
  handle_release-Releases decode q pm w e = elim (Bool-cases (not (str_eq q.method "POST"))) [
    | inl other ↦ absurd (cc (simp (other, handle_release) at e))
    | inr is_post ↦ elim (Option-cases (decode q.body)) [
      | inl unread ↦ absurd (cc (simp (is_post, unread, handle_release) at e))
      | inr (req, read) ↦ elim (Bool-cases (str_eq req.fleet "" || str_eq req.server_name "")) [
        | inl empty ↦
            absurd (cc (simp (is_post, read, empty, handle_release, release_decoded) at e))
        | inr named ↦ (req, read, simp (is_post, read, named, handle_release, release_decoded))
      ]
    ]
  ]

not_released :
    {B : Type 0} (q : Request B) (pm : PoolManager)
    → says_released (get_fleet_status q pm).content ≡ false
unfolding get_fleet_status
not_released q pm = elim (Bool-cases (not (str_eq q.method "GET"))) [
  | inl other ↦ simp (other, get_fleet_status)
  | inr is_get ↦ elim (Option-cases (status_path q.path)) [
    | inl unread ↦ simp (is_get, unread, get_fleet_status)
    | inr ((ns, name), read) ↦ simp (is_get, read, get_fleet_status)
  ]
]

module _ {W : Type 0} (cl : Client W) {B : Type 0} (decode_allocate : B → Option AllocateRequest)
    (decode_release : B → Option ReleaseRequest) where
  allocate_not_released :
      (now : ℤ) (q : Request B) (pm : PoolManager) (w : W)
      → says_released (handle_allocate cl now decode_allocate q pm w).0.content ≡ false
  unfolding handle_allocate allocate_decoded allocate_reply
  allocate_not_released now q pm w = elim (Bool-cases (not (str_eq q.method "POST"))) [
    | inl other ↦ simp (other, handle_allocate)
    | inr is_post ↦ elim (Option-cases (decode_allocate q.body)) [
      | inl unread ↦ simp (is_post, unread, handle_allocate)
      | inr (req, read) ↦ elim (Bool-cases (str_eq req.fleet "")) [
        | inl empty ↦ simp (is_post, read, empty, handle_allocate, allocate_decoded)
        | inr named ↦
            elim (Result-cases
              (allocate_server cl now req.fleet (or_default req.namespace) (requested_strategy req)
                pm w).0) [
                  | inl (r, worked) ↦ simp (
                    is_post, read, named, worked, handle_allocate, allocate_decoded, allocate_reply,
                  )
                  | inr (f, why) ↦
                      simp (
                        is_post, read, named, why, handle_allocate, allocate_decoded,
                        allocate_reply,
                      )
                ]
      ]
    ]
  ]

  handle-Releases :
      (now : ℤ) (to : Route) (q : Request B) (pm : PoolManager) (w : W)
      → says_released (handle cl now decode_allocate decode_release to q pm w).0.content ≡ true
      → Releases decode_release now q pm
          (handle cl now decode_allocate decode_release to q pm w).1.0
  unfolding handle healthz
  handle-Releases now to_allocate q pm w e =
      absurd (false≢true (sym (allocate_not_released now q pm w) ∙ e))
  handle-Releases now to_release q pm w e = handle_release-Releases cl now decode_release q pm w e
  handle-Releases now to_status q pm w e = absurd (false≢true (sym (not_released q pm) ∙ e))
  handle-Releases now to_health q pm w e = absurd (cc e)
  handle-Releases now nowhere q pm w e = absurd (cc e)

  module _ {F : Type 0} ⦃fl : Float64 F⦄ (seconds : ℤ → F) where
    pub serve_http-Releases :
        (now : ℤ) (q : Request B) (limiter : Option RateLimiter) (pm : PoolManager) (w : W)
        → says_released
            (serve_http cl now decode_allocate decode_release seconds q limiter pm w).0.content
          ≡ true
        → Releases decode_release now q pm
            (serve_http cl now decode_allocate decode_release seconds q limiter pm w).1.1.0
    unfolding serve_http
    serve_http-Releases now q limiter pm w e = elim (Bool-cases (pass seconds now limiter).0) [
      | inl passed ↦
          simp (passed, serve_http)
            (handle-Releases now (route q.path) q pm w (simp (passed, serve_http) at e))
      | inr limited ↦ absurd (cc (simp (limited, serve_http) at e))
    ]
