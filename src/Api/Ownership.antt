-- ===== src/Api/Ownership.antt =====
-- What a request does to a server that is allocated.
use game_server_orchestrator.Prelude.{
  String, ◌≡◌, sym, subst, Bool, false, not, ◌&&◌, ◌||◌, Option, none, some, inl, inr, Bool-cases,
  Option-cases,
}
use game_server_orchestrator.Prelude.Int.{ℤ}
use game_server_orchestrator.Prelude.Text.{str_eq}
use game_server_orchestrator.Prelude.Float.{Float64}
use game_server_orchestrator.Pool.State.{PoolManager, release}
use game_server_orchestrator.Pool.Calls.{releases, step}
use game_server_orchestrator.Pool.Invariant.{IsValid, step-IsValid}
use game_server_orchestrator.Pool.Allocation.Exclusive.{Held, step-Held}
use game_server_orchestrator.Cluster.{Client}
use game_server_orchestrator.Allocator.{release_allocated}
use game_server_orchestrator.Allocator.Ownership.{Keeps, Keeps-refl, allocate_server-Keeps}
use game_server_orchestrator.RateLimiter.{RateLimiter}
use game_server_orchestrator.Api.{
  Request, AllocateRequest, ReleaseRequest, Route, to_allocate, to_release, to_status, to_health,
  nowhere, route, or_default, requested_strategy, allocate_decoded, handle_allocate,
  release_decoded, handle_release, handle, pass, serve_http,
}

-- The second half under the condition that the server is not released.
abbrev pub KeepsUnless : Bool → String → String → PoolManager → PoolManager → Type 0
KeepsUnless released fleet name pm pm' =
    IsValid pm' × (released ≡ false → Held pm fleet name → Held pm' fleet name)

weaken :
    (released : Bool) (fleet name : String) (pm pm' : PoolManager)
    → Keeps fleet name pm pm'
    → KeepsUnless released fleet name pm pm'
weaken released fleet name pm pm' (valid, holds) = (valid, λ _. holds)

release-Keeps :
    (now : ℤ) (g k fleet name : String) (pm : PoolManager)
    → IsValid pm
    → KeepsUnless (str_eq g fleet && str_eq k name) fleet name pm (release now g k pm)
unfolding step
release-Keeps now g k fleet name pm v = (
  step-IsValid now (releases g k) pm v,
  λ other. step-Held now (releases g k) pm fleet name other,
)

module _ {W : Type 0} (cl : Client W) (now : ℤ) where
  allocate_decoded-Keeps :
      (req : AllocateRequest) (pm : PoolManager) (w : W) (fleet name : String)
      → IsValid pm
      → Keeps fleet name pm (allocate_decoded cl now req pm w).1.0
  unfolding allocate_decoded
  allocate_decoded-Keeps req pm w fleet name v = elim (Bool-cases (str_eq req.fleet "")) [
    | inl empty ↦ simp (empty, allocate_decoded) (Keeps-refl fleet name pm v)
    | inr named ↦
        simp (named, allocate_decoded)
          (allocate_server-Keeps cl now req.fleet (or_default req.namespace)
            (requested_strategy req) pm w fleet name v)
  ]

  handle_allocate-Keeps :
      {B : Type 0} (decode : B → Option AllocateRequest) (q : Request B) (pm : PoolManager) (w : W)
      (fleet name : String)
      → IsValid pm
      → Keeps fleet name pm (handle_allocate cl now decode q pm w).1.0
  unfolding handle_allocate
  handle_allocate-Keeps decode q pm w fleet name v =
      elim (Bool-cases (not (str_eq q.method "POST"))) [
        | inl other ↦ simp (other, handle_allocate) (Keeps-refl fleet name pm v)
        | inr is_post ↦ elim (Option-cases (decode q.body)) [
          | inl unread ↦ simp (is_post, unread, handle_allocate) (Keeps-refl fleet name pm v)
          | inr (req, read) ↦
              simp (is_post, read, handle_allocate) (allocate_decoded-Keeps req pm w fleet name v)
        ]
      ]

-- The request, on its route, releases the server.
abbrev releases_on :
    {B : Type 0} → (B → Option ReleaseRequest) → String → String → Route → Request B → Bool
releases_on decode fleet name to_allocate q = false
releases_on decode fleet name to_release q = elim (decode q.body) [
  | none ↦ false
  | some req ↦ str_eq req.fleet fleet && str_eq req.server_name name
]
releases_on decode fleet name to_status q = false
releases_on decode fleet name to_health q = false
releases_on decode fleet name nowhere q = false

abbrev pub releases_server :
    {B : Type 0} → (B → Option ReleaseRequest) → String → String → Request B → Bool
releases_server decode fleet name q = releases_on decode fleet name (route q.path) q

module _ {W : Type 0} (cl : Client W) (now : ℤ) where
  handle_release-Keeps :
      {B : Type 0} (decode : B → Option ReleaseRequest) (q : Request B) (pm : PoolManager) (w : W)
      (fleet name : String)
      → IsValid pm
      → KeepsUnless
          (releases_on decode fleet name to_release q)
          fleet
          name
          pm
          (handle_release cl now decode q pm w).1.0
  unfolding handle_release release_decoded release_allocated
  handle_release-Keeps decode q pm w fleet name v =
      elim (Bool-cases (not (str_eq q.method "POST"))) [
        | inl other ↦ simp (other, handle_release) (v, λ _ h. h)
        | inr is_post ↦ elim (Option-cases (decode q.body)) [
          | inl unread ↦ simp (is_post, unread, handle_release) (v, λ _ h. h)
          | inr (req, read) ↦ elim (Bool-cases (str_eq req.fleet "" || str_eq req.server_name "")) [
            | inl empty ↦ simp (is_post, read, empty, handle_release, release_decoded) (v, λ _ h. h)
            | inr named ↦
                simp (is_post, read, named, handle_release, release_decoded)
                  (subst
                    (λ b. KeepsUnless b fleet name pm (release now req.fleet req.server_name pm))
                    (sym (simp (read, releases_on)))
                    (release-Keeps now req.fleet req.server_name fleet name pm v))
          ]
        ]
      ]

  module _ {B : Type 0} (decode_allocate : B → Option AllocateRequest)
      (decode_release : B → Option ReleaseRequest) where
    handle-Keeps :
        (to : Route) (q : Request B) (pm : PoolManager) (w : W) (fleet name : String)
        → IsValid pm
        → KeepsUnless
            (releases_on decode_release fleet name to q)
            fleet
            name
            pm
            (handle cl now decode_allocate decode_release to q pm w).1.0
    unfolding handle
    handle-Keeps to_allocate q pm w fleet name v =
        weaken false fleet name pm (handle_allocate cl now decode_allocate q pm w).1.0
          (handle_allocate-Keeps cl now decode_allocate q pm w fleet name v)
    handle-Keeps to_release q pm w fleet name v =
        handle_release-Keeps decode_release q pm w fleet name v
    handle-Keeps to_status q pm w fleet name v = (v, λ _ h. h)
    handle-Keeps to_health q pm w fleet name v = (v, λ _ h. h)
    handle-Keeps nowhere q pm w fleet name v = (v, λ _ h. h)

    module _ {F : Type 0} ⦃fl : Float64 F⦄ (seconds : ℤ → F) where
      pub serve_http-Keeps :
          (q : Request B) (limiter : Option RateLimiter) (pm : PoolManager) (w : W)
          (fleet name : String)
          → IsValid pm
          → KeepsUnless
              (releases_server decode_release fleet name q)
              fleet
              name
              pm
              (serve_http cl now decode_allocate decode_release seconds q limiter pm w).1.1.0
      unfolding serve_http
      serve_http-Keeps q limiter pm w fleet name v =
          elim (Bool-cases (pass seconds now limiter).0) [
            | inl passed ↦
                simp (passed, serve_http) (handle-Keeps (route q.path) q pm w fleet name v)
            | inr limited ↦ simp (limited, serve_http) (v, λ _ h. h)
          ]
