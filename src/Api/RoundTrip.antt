-- ===== src/Api/RoundTrip.antt =====
-- An allocation over the API and the release of what it handed out.
mod Undoing
mod Releasing
use game_server_orchestrator.Prelude.{◌≡◌, sym, ap, ◌∙◌, subst, Option, some}
use game_server_orchestrator.Prelude.Int.{ℤ}
use game_server_orchestrator.Prelude.Float.{Float64}
use game_server_orchestrator.Pool.State.{PoolManager, release}
use game_server_orchestrator.Pool.Invariant.{IsValid}
use game_server_orchestrator.Cluster.{Client}
use game_server_orchestrator.Allocator.{AllocateResult}
use game_server_orchestrator.Allocator.Rollback.{SameFlags}
use game_server_orchestrator.RateLimiter.{RateLimiter}
use game_server_orchestrator.Api.{
  Request, AllocateRequest, ReleaseRequest, allocated, status, serve_http,
}
use game_server_orchestrator.Api.RoundTrip.Undoing.{serve_http-Undoes}
use game_server_orchestrator.Api.RoundTrip.Releasing.{says_released, Releases, serve_http-Releases}

module _ {W : Type 0} (cl : Client W) {B : Type 0} (decode_allocate : B → Option AllocateRequest)
    (decode_release : B → Option ReleaseRequest) where
  module _ {F : Type 0} ⦃fl : Float64 F⦄ (seconds : ℤ → F) where
    -- A server that the API hands out from a valid pool and that is given back, by a later request that
    -- names its fleet and is answered with "released", leaves every server of every fleet seen as it
    -- was before the two requests, if nothing else changes the pool between them; whatever happens to
    -- the cluster and to the rate limit meanwhile.
    pub release-allocate :
        (now later : ℤ) (q q' : Request B) (limiter limiter' : Option RateLimiter)
        (pm : PoolManager) (w w' : W) (req : AllocateRequest) (back : ReleaseRequest)
        (r : AllocateResult) (at_time : ℤ)
        → IsValid pm
        → decode_allocate q.body ≡ some req
        → decode_release q'.body ≡ some back
        → back.fleet ≡ req.fleet
        → back.server_name ≡ r.server_name
        → (serve_http cl now decode_allocate decode_release seconds q limiter pm w).0.content
          ≡ allocated r at_time
        → (serve_http cl later decode_allocate decode_release seconds q' limiter'
            (serve_http cl now decode_allocate decode_release seconds q limiter pm w).1.1.0
            w').0.content
          ≡ status "released"
        → SameFlags pm
            (serve_http cl later decode_allocate decode_release seconds q' limiter'
              (serve_http cl now decode_allocate decode_release seconds q limiter pm w).1.1.0
              w').1.1.0
    unfolding Releases
    release-allocate now later q q' limiter limiter' pm w w' req back r at_time v read read' alike
          same handed given =
        let next =
          (serve_http cl now decode_allocate decode_release seconds q limiter pm w).1.1.0 in
        let (req₁, read₁, undoes) =
          serve_http-Undoes cl decode_allocate decode_release seconds now later q limiter pm w r
            at_time v handed in
        let (back₁, read₂, after) =
          serve_http-Releases cl decode_allocate decode_release seconds later q' limiter' next w'
            (ap says_released given) in
        let one : req₁ ≡ req = cc (sym read₁ ∙ read) in
        let two : back₁ ≡ back = cc (sym read₂ ∙ read') in
        let fleets : req₁.fleet ≡ back₁.fleet =
          ap (λ x. x.fleet) one ∙ sym alike ∙ sym (ap (λ x. x.fleet) two) in
        let names : r.server_name ≡ back₁.server_name =
          sym same ∙ sym (ap (λ x. x.server_name) two) in
        subst (SameFlags pm) (sym after) (
          subst (λ n. SameFlags pm (release later back₁.fleet n next)) names
            (subst (λ f. SameFlags pm (release later f r.server_name next)) fleets undoes))
