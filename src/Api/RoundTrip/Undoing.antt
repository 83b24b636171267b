-- ===== src/Api/RoundTrip/Undoing.antt =====
-- What releasing a server that the API has just handed out does to the pool.
use game_server_orchestrator.Prelude.{
  String, ◌≡◌, sym, ap, ◌∙◌, subst, not, Option, some, [], inl, inr, Bool-cases, Option-cases,
}
use game_server_orchestrator.Prelude.Int.{ℤ}
use game_server_orchestrator.Prelude.Text.{str_eq}
use game_server_orchestrator.Prelude.Float.{Float64}
use game_server_orchestrator.Prelude.Result.{ok, Result-cases}
use game_server_orchestrator.V1alpha1.Policy.{AllocationStrategy}
use game_server_orchestrator.Pool.State.{PoolManager, release}
use game_server_orchestrator.Pool.Calls.{allocates_with_filter, releases, step}
use game_server_orchestrator.Pool.Refinement.{step-Specifies}
use game_server_orchestrator.Pool.Invariant.{IsValid, step-IsValid}
use game_server_orchestrator.Cluster.{Client}
use game_server_orchestrator.Allocator.{AllocateResult, allocate_server}
use game_server_orchestrator.Allocator.Rollback.{
  SameFlags, released-SameFlags, allocate_server_cases,
}
use game_server_orchestrator.RateLimiter.{RateLimiter}
use game_server_orchestrator.Api.{
  Request, AllocateRequest, ReleaseRequest, allocated, Route, to_allocate, to_release, to_status,
  to_health, nowhere, route, or_default, requested_strategy, allocate_decoded, handle_allocate,
  healthz, handle, pass, serve_http, allocate_reply,
}
use game_server_orchestrator.Api.Answers.{get_fleet_status_unallocated, handle_release_unallocated}

-- The release of the server, at any time, gives the flags of `pm` back.
abbrev pub Undoes : ℤ → String → PoolManager → PoolManager → AllocateResult → Type 0
Undoes later fleet pm pm' r = SameFlags pm (release later fleet r.server_name pm')

-- A release is seen alike at all times.
release-times :
    (now later : ℤ) (fleet name : String) (pm : PoolManager)
    → IsValid pm
    → SameFlags (release now fleet name pm) (release later fleet name pm)
unfolding step
release-times now later fleet name pm v g k =
    step-Specifies later (releases fleet name) pm v g k
    ∙ sym (step-Specifies now (releases fleet name) pm v g k)

module _ {W : Type 0} (cl : Client W) (now later : ℤ) where
  allocate_server-Undoes :
      (fleet ns : String) (strategy : AllocationStrategy) (pm : PoolManager) (w : W)
      (r : AllocateResult)
      → IsValid pm
      → (allocate_server cl now fleet ns strategy pm w).0 ≡ ok r
      → Undoes later fleet pm (allocate_server cl now fleet ns strategy pm w).1.0 r
  unfolding step
  allocate_server-Undoes fleet ns strategy pm w r v worked =
      elim (allocate_server_cases cl now fleet ns strategy pm w) [
        | inl (name, pm', pod, labelled, w', chose, found, accepted, answer) ↦
            let valid : IsValid pm' =
              subst (λ x. IsValid x.1) chose
                (step-IsValid now (allocates_with_filter fleet strategy []) pm v) in
            let back = released-SameFlags now fleet strategy [] pm v chose in
            let named : name ≡ r.server_name = cc (sym (ap (λ r. r.0) answer) ∙ worked) in
            subst (λ x. Undoes later fleet pm x.1.0 r) (sym answer)
              (subst (λ n. SameFlags pm (release later fleet n pm')) named
                (λ g k. release-times now later fleet name pm' valid g k ∙ back g k))
        | inr (inl (name, pm', e', w', chose, answer)) ↦
            absurd (cc (sym (ap (λ r. r.0) answer) ∙ worked))
        | inr (inr (why, pm', chose, answer)) ↦ absurd (cc (sym (ap (λ r. r.0) answer) ∙ worked))
      ]

  allocate_decoded-Undoes :
      (req : AllocateRequest) (pm : PoolManager) (w : W) (r : AllocateResult) (at_time : ℤ)
      → IsValid pm
      → (allocate_decoded cl now req pm w).0.content ≡ allocated r at_time
      → Undoes later req.fleet pm (allocate_decoded cl now req pm w).1.0 r
  unfolding allocate_decoded allocate_reply
  allocate_decoded-Undoes req pm w r at_time v e =
      let strategy = requested_strategy req in
      let ns = or_default req.namespace in
      elim (Bool-cases (str_eq req.fleet "")) [
        | inl empty ↦ absurd (cc (simp (empty, allocate_decoded) at e))
        | inr named ↦ elim (Result-cases (allocate_server cl now req.fleet ns strategy pm w).0) [
          | inr (f, why) ↦ absurd (cc (simp (named, why, allocate_decoded, allocate_reply) at e))
          | inl (r', worked) ↦
              let same : r' ≡ r =
                cc (simp (named, worked, allocate_decoded, allocate_reply) at e) in
              simp (named, allocate_decoded)
                (allocate_server-Undoes req.fleet ns strategy pm w r v (worked ∙ ap ok same))
        ]
      ]

  handle_allocate-Undoes :
      {B : Type 0} (decode : B → Option AllocateRequest) (q : Request B) (pm : PoolManager) (w : W)
      (r : AllocateResult) (at_time : ℤ)
      → IsValid pm
      → (handle_allocate cl now decode q pm w).0.content ≡ allocated r at_time
      → (req : AllocateRequest) × (decode q.body ≡ some req)
        × Undoes later req.fleet pm (handle_allocate cl now decode q pm w).1.0 r
  unfolding handle_allocate
  handle_allocate-Undoes decode q pm w r at_time v e =
      elim (Bool-cases (not (str_eq q.method "POST"))) [
        | inl other ↦ absurd (cc (simp (other, handle_allocate) at e))
        | inr is_post ↦ elim (Option-cases (decode q.body)) [
          | inl unread ↦ absurd (cc (simp (is_post, unread, handle_allocate) at e))
          | inr (req, read) ↦ (
            req,
            read,
            simp (is_post, read, handle_allocate)
                (allocate_decoded-Undoes req pm w r at_time v
                  (simp (is_post, read, handle_allocate) at e)),
          )
        ]
      ]

module _ {W : Type 0} (cl : Client W) {B : Type 0} (decode_allocate : B → Option AllocateRequest)
    (decode_release : B → Option ReleaseRequest) where
  handle-Undoes :
      (now later : ℤ) (to : Route) (q : Request B) (pm : PoolManager) (w : W) (r : AllocateResult)
      (at_time : ℤ)
      → IsValid pm
      → (handle cl now decode_allocate decode_release to q pm w).0.content ≡ allocated r at_time
      → (req : AllocateRequest) × (decode_allocate q.body ≡ some req)
        × Undoes later req.fleet pm (handle cl now decode_allocate decode_release to q pm w).1.0 r
  unfolding handle healthz
  handle-Undoes now later to_allocate q pm w r at_time v e =
      handle_allocate-Undoes cl now later decode_allocate q pm w r at_time v e
  handle-Undoes now later to_release q pm w r at_time v e =
      absurd (handle_release_unallocated cl now decode_release q pm w r at_time e)
  handle-Undoes now later to_status q pm w r at_time v e =
      absurd (get_fleet_status_unallocated q pm r at_time e)
  handle-Undoes now later to_health q pm w r at_time v e = absurd (cc e)
  handle-Undoes now later nowhere q pm w r at_time v e = absurd (cc e)

  module _ {F : Type 0} ⦃fl : Float64 F⦄ (seconds : ℤ → F) where
    pub serve_http-Undoes :
        (now later : ℤ) (q : Request B) (limiter : Option RateLimiter) (pm : PoolManager) (w : W)
        (r : AllocateResult) (at_time : ℤ)
        → IsValid pm
        → (serve_http cl now decode_allocate decode_release seconds q limiter pm w).0.content
          ≡ allocated r at_time
        → (req : AllocateRequest) × (decode_allocate q.body ≡ some req)
          × Undoes later req.fleet pm
              (serve_http cl now decode_allocate decode_release seconds q limiter pm w).1.1.0
              r
    unfolding serve_http
    serve_http-Undoes now later q limiter pm w r at_time v e =
        elim (Bool-cases (pass seconds now limiter).0) [
          | inl passed ↦
              simp (passed, serve_http)
                (handle-Undoes now later (route q.path) q pm w r at_time v
                  (simp (passed, serve_http) at e))
          | inr limited ↦ absurd (cc (simp (limited, serve_http) at e))
        ]
