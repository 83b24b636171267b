-- ===== src/Allocator/Reconcile.antt =====
-- The reconciliation of an allocation resource takes a server only when it also records it.
use game_server_orchestrator.Prelude.{String, ◌≡◌, ◌≢◌, inl, inr, refl, sym, ap, subst, Bool-cases}
use game_server_orchestrator.Prelude.Int.{ℤ}
use game_server_orchestrator.Prelude.Result.{Result, ok, err, Result-cases}
use game_server_orchestrator.V1alpha1.Fleet.{Pod}
use game_server_orchestrator.V1alpha1.Allocation.{GameServerAllocation}
use game_server_orchestrator.Pool.State.{PoolManager, server_of, allocate_with_filter, release}
use game_server_orchestrator.Pool.Invariant.{IsValid}
use game_server_orchestrator.Pool.Allocation.Outcome.{allocate_with_filter_fails}
use game_server_orchestrator.Cluster.{Client, GetError, not_found, get_failed}
use game_server_orchestrator.Allocator.{
  Reply, finished, record_allocated, record_confirmed, allowed_names, strategy_of, is_pending,
  is_expired, serve, reconcile_allocation, allocated_status, dispatch,
}
use game_server_orchestrator.Allocator.Rollback.{SameFlags, released-SameFlags, confirm_cases}
use game_server_orchestrator.Pool.Abstract.{flags}

same-SameFlags : (pm pm' : PoolManager) → pm' ≡ pm → SameFlags pm pm'
same-SameFlags pm pm' e g k = ap (λ m. flags (server_of m g k)) e

module _ {W : Type 0} (cl : Client W) where
  -- A reply other than `finished` leaves every server as available as it was.
  abbrev TakesNothing : PoolManager → Reply × (PoolManager × W) → Type 0
  TakesNothing pm (reply, rest) = reply ≢ finished → SameFlags pm rest.0

  record_allocated-TakesNothing :
      (now : ℤ) (ns req name : String) (alloc : GameServerAllocation) (pod : Pod)
      (pm pm' : PoolManager) (w : W)
      → SameFlags pm (release now alloc.spec.fleet_ref name pm')
      → TakesNothing pm (record_allocated cl now ns req name alloc pod pm' w)
  unfolding record_allocated
  record_allocated-TakesNothing now ns req name alloc pod pm pm' w back =
      elim (Bool-cases (cl.update_allocation ns req (allocated_status now name pod alloc) w).0) [
        | inl written ↦ simp (written, record_allocated) (λ unfinished. absurd (unfinished refl))
        | inr unwritten ↦ simp (unwritten, record_allocated) (λ _. back)
      ]

  serve-TakesNothing :
      (now : ℤ) (ns req : String) (alloc : GameServerAllocation) (pm : PoolManager) (w : W)
      → IsValid pm
      → TakesNothing pm (serve cl now ns req alloc pm w)
  unfolding serve record_confirmed
  serve-TakesNothing now ns req alloc pm w v =
      let (allowed, w') = allowed_names cl ns alloc w in
      let (chosen, pm') =
        allocate_with_filter now alloc.spec.fleet_ref (strategy_of alloc) allowed pm in
      elim (Result-cases chosen) [
        | inr (why, nothing) ↦
            simp (nothing, serve)
              (λ _.
                same-SameFlags pm pm'
                  (allocate_with_filter_fails now alloc.spec.fleet_ref (strategy_of alloc) allowed
                    pm (ap (λ c. (c, pm')) nothing)).0)
        | inl (name, took) ↦
            let back =
              released-SameFlags now alloc.spec.fleet_ref (strategy_of alloc) allowed pm v
                (ap (λ c. (c, pm')) took) in
            simp (took, serve)
              elim (confirm_cases cl now alloc.spec.fleet_ref ns name pm' w') [
                | inl (pod, labelled, w'', found, accepted, c) ↦
                    subst (λ c. TakesNothing pm (record_confirmed cl now ns req name alloc c))
                      (sym c)
                      (record_allocated-TakesNothing now ns req name alloc labelled pm pm' w'' back)
                | inr (e, w'', c) ↦
                    subst (λ c. TakesNothing pm (record_confirmed cl now ns req name alloc c))
                      (sym c) (λ _. back)
              ]
      ]

  dispatch-TakesNothing :
      (now : ℤ) (ns req : String) (pm : PoolManager) (r : Result GetError GameServerAllocation × W)
      → IsValid pm
      → TakesNothing pm (dispatch cl now ns req pm r)
  unfolding dispatch
  dispatch-TakesNothing now ns req pm (err not_found, w) v = λ _. same-SameFlags pm pm refl
  dispatch-TakesNothing now ns req pm (err get_failed, w) v = λ _. same-SameFlags pm pm refl
  dispatch-TakesNothing now ns req pm (ok alloc, w) v = elim (Bool-cases (is_pending alloc)) [
    | inr settled ↦ simp (settled, dispatch) (λ _. same-SameFlags pm pm refl)
    | inl pending ↦ elim (Bool-cases (is_expired now alloc)) [
      | inl late ↦ simp (pending, late, dispatch) (λ _. same-SameFlags pm pm refl)
      | inr in_time ↦ simp (pending, in_time, dispatch) (serve-TakesNothing now ns req alloc pm w v)
    ]
  ]

  -- In a valid manager a reconciliation that does not finish leaves every server of every fleet as available as it was:
  -- when the resource cannot be read or written, when no server is free, and when the server's pod
  -- is missing, cannot be labelled, or the allocation cannot be recorded.
  pub reconcile_allocation-TakesNothing :
      (now : ℤ) (ns req : String) (pm : PoolManager) (w : W)
      → IsValid pm
      → (reconcile_allocation cl now ns req pm w).0 ≢ finished
      → SameFlags pm (reconcile_allocation cl now ns req pm w).1.0
  unfolding reconcile_allocation
  reconcile_allocation-TakesNothing now ns req pm w v =
      dispatch-TakesNothing now ns req pm (cl.get_allocation ns req w) v
