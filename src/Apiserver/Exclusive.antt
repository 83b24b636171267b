-- ===== src/Apiserver/Exclusive.antt =====
-- The runs of the process between two requests for a server.
use game_server_orchestrator.Prelude.{
  String, ◌≡◌, ◌≢◌, sym, ap, ◌∙◌, subst, true, false, Option, none, some, List, [], inl, inr,
  Option-cases, All,
}
use game_server_orchestrator.Prelude.Int.{ℤ}
use game_server_orchestrator.Prelude.Float.{Float64}
use game_server_orchestrator.V1alpha1.Fleet.{Pod}
use game_server_orchestrator.Pool.State.{PoolManager, server_of}
use game_server_orchestrator.Pool.Invariant.{IsValid}
use game_server_orchestrator.Pool.Allocation.Exclusive.{Held}
use game_server_orchestrator.Cluster.{Client}
use game_server_orchestrator.Allocator.{AllocateResult}
use game_server_orchestrator.Pool.Abstract.{flags}
use game_server_orchestrator.Api.{Request, AllocateRequest, ReleaseRequest, allocated}
use game_server_orchestrator.Allocator.Ownership.{Keeps, reconcile_allocation-Keeps}
use game_server_orchestrator.Api.Ownership.{releases_server, serve_http-Keeps}
use game_server_orchestrator.Api.Answers.{serve_http-Serves}
use game_server_orchestrator.Apiserver.{
  Process, sync_pools_from_labels, resync, serve_allocation, serve_request,
}
use game_server_orchestrator.Apiserver.Ownership.{says_free, sync_all-Keeps}

-- What the flags of a server say of who holds it.
flags-Held :
    (pm : PoolManager) (fleet name : String)
    → flags (server_of pm fleet name) ≡ some (true, true)
    → Held pm fleet name
flags-Held pm fleet name e = elim (Option-cases (server_of pm fleet name)) [
  | inl gone ↦ absurd (cc (e, ap flags gone))
  | inr (s, here) ↦ (s, here, cc (sym (ap flags here) ∙ e))
]

not-Held_free :
    (pm : PoolManager) (fleet name : String)
    → flags (server_of pm fleet name) ≡ some (false, true)
    → Held pm fleet name
    → ⊥
not-Held_free pm fleet name e (s, here, held) = cc (sym (ap flags here) ∙ e, held)

abbrev items_of : Option (List Pod) → List Pod
items_of none = []
items_of (some pods) = pods

module _ {B W : Type 0} (cl : Client W) (list_labelled : W → Option (List Pod) × W)
    (decode_allocate : B → Option AllocateRequest) (decode_release : B → Option ReleaseRequest)
    {F : Type 0} ⦃fl : Float64 F⦄ (seconds : ℤ → F) where
  -- The pods that a sync finds, where the list does not fail.
  abbrev pub listed : W → List Pod
  listed w = items_of (list_labelled w).0

  resync-Keeps :
      (now : ℤ) (p : Process W) (fleet name : String)
      → IsValid p.pool
      → All (λ pod. says_free fleet name pod ≡ false) (listed p.world)
      → Keeps fleet name p.pool (resync list_labelled now p).pool
  unfolding resync sync_pools_from_labels
  resync-Keeps now p fleet name v a = elim (Option-cases (list_labelled p.world).0) [
    | inl failed ↦ simp (failed, resync, sync_pools_from_labels) (v, λ h. h)
    | inr (pods, found) ↦
        simp (found, resync, sync_pools_from_labels)
          (sync_all-Keeps now pods p.pool fleet name v
            (subst (λ o. All (λ pod. says_free fleet name pod ≡ false) (items_of o)) found a))
  ]

  -- The runs of the process in which nothing gives the server `name` of `fleet` back: no request
  -- releases it, and no sync reads from its pod that it is free.
  pub data Runs (fleet name : String) : Process W → Process W → Type 0 where
    stays : (p : Process W) → Runs fleet name p p
    requests :
        {p p' : Process W} (now : ℤ) (q : Request B)
        → releases_server decode_release fleet name q ≡ false
        → Runs fleet name (serve_request cl decode_allocate decode_release seconds now q p).1 p'
        → Runs fleet name p p'
    reconciles :
        {p p' : Process W} (now : ℤ) (ns req : String)
        → Runs fleet name (serve_allocation cl now ns req p).1 p'
        → Runs fleet name p p'
    syncs :
        {p p' : Process W} (now : ℤ)
        → All (λ pod. says_free fleet name pod ≡ false) (listed p.world)
        → Runs fleet name (resync list_labelled now p) p'
        → Runs fleet name p p'

  Runs-Keeps :
      (fleet name : String) (p p' : Process W)
      → Runs fleet name p p'
      → IsValid p.pool
      → Keeps fleet name p.pool p'.pool
  unfolding serve_request serve_allocation
  Runs-Keeps fleet name p p' (stays _) v = (v, λ h. h)
  Runs-Keeps fleet name p p' (requests now q free runs) v =
      let next = (serve_request cl decode_allocate decode_release seconds now q p).1 in
      let (valid, holds) =
        serve_http-Keeps cl now decode_allocate decode_release seconds q p.limiter p.pool p.world
          fleet name v in
      let (valid', holds') = Runs-Keeps fleet name next p' runs valid in
      (valid', λ h. holds' (holds free h))
  Runs-Keeps fleet name p p' (reconciles now ns req runs) v =
      let next = (serve_allocation cl now ns req p).1 in
      let (valid, holds) = reconcile_allocation-Keeps cl now ns req p.pool p.world fleet name v in
      let (valid', holds') = Runs-Keeps fleet name next p' runs valid in
      (valid', λ h. holds' (holds h))
  Runs-Keeps fleet name p p' (syncs now free runs) v =
      let next = resync list_labelled now p in
      let (valid, holds) = resync-Keeps now p fleet name v free in
      let (valid', holds') = Runs-Keeps fleet name next p' runs valid in
      (valid', λ h. holds' (holds h))

  -- The process answers a request with an allocated server.
  abbrev pub Hands : ℤ → Request B → Process W → AllocateResult → Type 0
  Hands now q p r =
      (at_time : ℤ) × ((serve_request cl decode_allocate decode_release seconds now q p).0.content
        ≡ allocated r at_time)

  -- Two answers of the process with a server of the same fleet name different servers, if the pool
  -- is valid and between the two requests no request releases the first server and no sync reads from
  -- its pod that it is free; whatever the rate limit, the cluster, the other requests and the
  -- reconciliations of allocation resources do.
  pub no_shared_server :
      (now later : ℤ) (q q' : Request B) (p p' : Process W) (req req' : AllocateRequest)
      (r r' : AllocateResult)
      → IsValid p.pool
      → decode_allocate q.body ≡ some req
      → decode_allocate q'.body ≡ some req'
      → req'.fleet ≡ req.fleet
      → Hands now q p r
      → Runs req.fleet r.server_name
          (serve_request cl decode_allocate decode_release seconds now q p).1
          p'
      → Hands later q' p' r'
      → r'.server_name ≢ r.server_name
  unfolding serve_request
  no_shared_server now later q q' p p' req req' r r' v read read' alike (t, first) runs (t', second)
        same =
      let next = (serve_request cl decode_allocate decode_release seconds now q p).1 in
      let (valid, _) =
        serve_http-Keeps cl now decode_allocate decode_release seconds q p.limiter p.pool p.world
          req.fleet r.server_name v in
      let (req₁, read₁, served) =
        serve_http-Serves cl now decode_allocate decode_release seconds q p.limiter p.pool p.world r
          t v first in
      let one : req₁ ≡ req = cc (sym read₁ ∙ read) in
      let held : Held next.pool req.fleet r.server_name =
        flags-Held next.pool req.fleet r.server_name (
          subst (λ x. flags (server_of next.pool x.fleet r.server_name) ≡ some (true, true)) one
            served.1) in
      let (valid', holds) = Runs-Keeps req.fleet r.server_name next p' runs valid in
      let (req₂, read₂, served') =
        serve_http-Serves cl later decode_allocate decode_release seconds q' p'.limiter p'.pool
          p'.world r' t' valid' second in
      let two : req₂ ≡ req' = cc (sym read₂ ∙ read') in
      not-Held_free p'.pool req.fleet r.server_name
        (subst (λ n. flags (server_of p'.pool req.fleet n) ≡ some (false, true)) same
          (subst (λ f. flags (server_of p'.pool f r'.server_name) ≡ some (false, true))
            (ap (λ x. x.fleet) two ∙ alike) served'.0))
        (holds held)
