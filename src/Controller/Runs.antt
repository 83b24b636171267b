-- ===== src/Controller/Runs.antt =====
-- The process of cmd/controller/main.go at work: it reconciles fleets and allocation resources, in any
-- order, over one pool. Each reconciliation is one step.
use game_server_orchestrator.Prelude.{String, ◌≡◌, ◌≢◌, Bool, some, List, [], ◌∷◌, subst}
use game_server_orchestrator.Prelude.Int.{ℤ}
use game_server_orchestrator.Prelude.Float.{Float64}
use game_server_orchestrator.Prelude.Dict.{Dict}
use game_server_orchestrator.Prelude.Result.{ok}
use game_server_orchestrator.V1alpha1.Policy.{AllocationStrategy}
use game_server_orchestrator.V1alpha1.Fleet.{GameServerFleet}
use game_server_orchestrator.Pool.State.{PoolManager, server_of, allocate_with_filter}
use game_server_orchestrator.Pool.Allocation.Exclusive.{Held}
use game_server_orchestrator.Pool.Allocation.Taken.{Taken}
use game_server_orchestrator.Pool.Allocation.Outcome.{allocate_with_filter_takes}
use game_server_orchestrator.Allocator.{reconcile_allocation}
use game_server_orchestrator.Allocator.Ownership.{
  Held-IsStable, Taken-IsStable, reconcile_allocation-Goes,
}
use game_server_orchestrator.Director.{FleetReconciler}
use game_server_orchestrator.Director.Decision.{Services}
use game_server_orchestrator.Director.Reconcile.{reconcile}
use game_server_orchestrator.Director.Protection.{Safe, Respects}
use game_server_orchestrator.Director.Protection.Whole.{reconcile-Safe}

-- What the process keeps, and the outside world. Both reconcilers have the pool of the one here.
pub record ControllerProcess (W : Type 0) : Type 0 where
  pub reconciler : FleetReconciler
  pub world : W

-- What the manager hands to the two reconcilers: a namespace and a name.
pub data ControllerRequest : Type 0 where
  fleet_request allocation_request : String → String → ControllerRequest

module _ {F : Type 0} ⦃fl : Float64 F⦄ {W : Type 0} (sv : Services F W) where
  unfoldable pub reconcile_request :
      ℤ → ControllerRequest → ControllerProcess W → ControllerProcess W
  reconcile_request now (fleet_request ns name) p =
      let (reply, (r, w)) = reconcile sv now ns name p.reconciler p.world in
      record { reconciler = r; world = w }
  reconcile_request now (allocation_request ns name) p =
      let (reply, (pm, w)) = reconcile_allocation sv.client now ns name p.reconciler.pool p.world in
      record { reconciler = record (p.reconciler) { pool = pm }; world = w }

  -- Each request with the reading of the clock in it.
  unfoldable pub reconcile_requests :
      List (ℤ × ControllerRequest) → ControllerProcess W → ControllerProcess W
  reconcile_requests [] p = p
  reconcile_requests ((now, q) ∷ rest) p = reconcile_requests rest (reconcile_request now q p)

  -- The cluster answers a query for a fleet with a fleet of that name.
  abbrev pub AnswersNames : Type 0
  AnswersNames =
      (ns name : String) (w : W) (fleet : GameServerFleet)
      → (sv.get_fleet ns name w).0 ≡ ok fleet
      → fleet.name ≡ name

  module _ (named : AnswersNames) (g k : String) (respects : Respects sv.client k) where
    reconcile_request-Safe :
        (now : ℤ) (q : ControllerRequest) (p : ControllerProcess W)
        → Safe g k p.reconciler
        → Safe g k (reconcile_request now q p).reconciler
    unfolding reconcile_request
    reconcile_request-Safe now (fleet_request ns name) p safe =
        reconcile-Safe sv now ns name p.reconciler p.world g k
          (λ fleet e. named ns name p.world fleet e) respects safe
    reconcile_request-Safe now (allocation_request ns name) p ((v, held, taken), absent) =
        let pm = p.reconciler.pool in
        let (valid, holds) =
          reconcile_allocation-Goes sv.client now (λ m. Held m g k) (Held-IsStable g k) ns name pm
            p.world v in
        let (_, takes) =
          reconcile_allocation-Goes sv.client now (Taken k) (Taken-IsStable k) ns name pm p.world
            v in
        ((valid, holds held, takes taken), absent)

    reconcile_requests-Safe :
        (requests : List (ℤ × ControllerRequest)) (p : ControllerProcess W)
        → Safe g k p.reconciler
        → Safe g k (reconcile_requests requests p).reconciler
    unfolding reconcile_requests
    reconcile_requests-Safe [] p safe = safe
    reconcile_requests-Safe ((now, q) ∷ rest) p safe =
        reconcile_requests-Safe rest (reconcile_request now q p)
          (reconcile_request-Safe now q p safe)

  -- After any reconciliations of fleets and of allocation resources, an allocation from the pool of
  -- the process hands out no server of the name `k`, if before them a server `k` was allocated in a
  -- valid pool, no fleet had an unallocated server of that name, and no drain of it was under way;
  -- provided that the cluster lists pods of that name with the label of an allocated one, gives the
  -- name to no new pod, and answers a query for a fleet with a fleet of that name.
  pub no_second_allocation :
      (requests : List (ℤ × ControllerRequest)) (p : ControllerProcess W) (g k : String) (later : ℤ)
      (fleet : String) (strategy : AllocationStrategy) (allowed : Dict Bool) {name : String}
      {pm : PoolManager}
      → AnswersNames
      → Respects sv.client k
      → Safe g k p.reconciler
      → allocate_with_filter later fleet strategy allowed
          (reconcile_requests requests p).reconciler.pool
        ≡ (ok name, pm)
      → name ≢ k
  no_second_allocation requests p g k later fleet strategy allowed named respects safe e same =
      let after = (reconcile_requests requests p).reconciler.pool in
      let ((v, _, taken), _) = reconcile_requests-Safe named g k respects requests p safe in
      let (s, found, free, _, _, _) =
        allocate_with_filter_takes later fleet strategy allowed after v e in
      cc (taken fleet s (subst (λ n. server_of after fleet n ≡ some s) same found), free)
