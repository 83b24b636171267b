-- ===== src/Allocator/Selectors.antt =====
-- The selectors of an allocation resource and the servers that it may take.
use game_server_orchestrator.Prelude.{
  String, ◌≡◌, refl, sym, ap, ◌∙◌, subst, Bool, true, false, ◌&&◌, some, List, [], ◌∷◌, length, ltb,
  All, inl, inr, Bool-cases, arith,
}
use game_server_orchestrator.Prelude.Int.{ℤ}
use game_server_orchestrator.Prelude.Text.{str_eq, eq_iff}
use game_server_orchestrator.Prelude.Dict.{Dict, lookup, insert, lookup-insert}
use game_server_orchestrator.Prelude.Result.{ok, Result-cases}
use game_server_orchestrator.V1alpha1.Fleet.{Pod}
use game_server_orchestrator.V1alpha1.Allocation.{GameServerAllocation}
use game_server_orchestrator.Pool.State.{
  PoolManager, server_of, allocate_with_filter, is_allowed, release,
}
use game_server_orchestrator.Pool.Invariant.{IsValid}
use game_server_orchestrator.Pool.Allocation.Outcome.{
  allocate_with_filter_takes, allocate_with_filter_fails,
}
use game_server_orchestrator.Pool.Abstract.{flags}
use game_server_orchestrator.Cluster.{Client, fleet_label}
use game_server_orchestrator.Allocator.{
  name_set, merge_labels, allowed_names, strategy_of, is_pending, is_expired, serve,
  record_allocated, record_confirmed, allocated_status, dispatch, reconcile_allocation,
}
use game_server_orchestrator.Allocator.Rollback.{SameFlags, released-SameFlags, confirm_cases}

-- No pod of the list has the name.
abbrev pub Unlisted : String → List Pod → Type 0
Unlisted k = All (λ pod. str_eq pod.name k ≡ false)

name_set-Unlisted :
    (k : String) (pods : List Pod) → Unlisted k pods → is_allowed (name_set pods) k ≡ false
unfolding lookup
name_set-Unlisted k [] a = refl
name_set-Unlisted k (pod ∷ pods) (other, a) =
    ground (arith, other, lookup-insert pod.name k true (name_set pods), name_set-Unlisted k pods a)

insert-positive : (k : String) (m : Dict Bool) → ltb 0 (length (insert k true m)) ≡ true
unfolding insert
insert-positive k [] = refl
insert-positive k ((i, b) ∷ m) = elim (Bool-cases (str_eq i k)) [
  | inl e ↦ rw e (ground arith)
  | inr e ↦ rw e (ground arith)
]

-- An allocation under such a filter leaves the flags of the server alone.
filtered-same :
    (now : ℤ) (fleet : String) (strategy : String) (allowed : Dict Bool) (pm : PoolManager)
    {name : String} {pm' : PoolManager} (g k : String)
    → IsValid pm
    → ltb 0 (length allowed) ≡ true
    → is_allowed allowed k ≡ false
    → allocate_with_filter now fleet strategy allowed pm ≡ (ok name, pm')
    → flags (server_of pm' g k) ≡ flags (server_of pm g k)
filtered-same now fleet strategy allowed pm {name} {pm'} g k v restricts outside e =
    let (s, here, untaken, healthy, passes, frame) =
      allocate_with_filter_takes now fleet strategy allowed pm v e in
    elim (Bool-cases (str_eq fleet g && str_eq name k)) [
      | inr other ↦ ap flags (ground (arith, other, frame g k))
      | inl this ↦ absurd (ground (arith, this, restricts, outside, eq_iff name k, passes))
    ]

module _ {W : Type 0} (cl : Client W) (now : ℤ) (ns req : String) (alloc : GameServerAllocation)
    (g k : String) where
  -- Recording the allocation of a server, or taking it back, keeps what both pools agree on.
  record_allocated-same :
      (name : String) (pod : Pod) (pm pm' : PoolManager) (w : W)
      → flags (server_of pm' g k) ≡ flags (server_of pm g k)
      → SameFlags pm (release now alloc.spec.fleet_ref name pm')
      → flags (server_of (record_allocated cl now ns req name alloc pod pm' w).1.0 g k)
        ≡ flags (server_of pm g k)
  unfolding record_allocated
  record_allocated-same name pod pm pm' w same back =
      elim (Bool-cases (cl.update_allocation ns req (allocated_status now name pod alloc) w).0) [
        | inl written ↦ simp (written, record_allocated) same
        | inr unwritten ↦ simp (unwritten, record_allocated) (back g k)
      ]

  serve-same :
      (pm : PoolManager) (w : W)
      → IsValid pm
      → ltb 0 (length (allowed_names cl ns alloc w).0) ≡ true
      → is_allowed (allowed_names cl ns alloc w).0 k ≡ false
      → flags (server_of (serve cl now ns req alloc pm w).1.0 g k) ≡ flags (server_of pm g k)
  unfolding serve record_confirmed
  serve-same pm w v restricts outside =
      let fleet = alloc.spec.fleet_ref in
      let strategy = strategy_of alloc in
      let (allowed, w') = allowed_names cl ns alloc w in
      let (chosen, pm') = allocate_with_filter now fleet strategy allowed pm in
      elim (Result-cases chosen) [
        | inr (why, nothing) ↦
            simp (nothing, serve)
              (ap (λ m. flags (server_of m g k))
                (allocate_with_filter_fails now fleet strategy allowed pm
                  (ap (λ c. (c, pm')) nothing)).0)
        | inl (name, took) ↦
            let e = ap (λ c. (c, pm')) took in
            let same = filtered-same now fleet strategy allowed pm g k v restricts outside e in
            let back = released-SameFlags now fleet strategy allowed pm v e in
            simp (took, serve)
              elim (confirm_cases cl now fleet ns name pm' w') [
                | inl (pod, labelled, w'', found, accepted, c) ↦
                    ap
                      (λ c. flags (server_of (record_confirmed cl now ns req name alloc c).1.0 g k))
                      c
                    ∙ record_allocated-same name labelled pm pm' w'' same back
                | inr (x, w'', c) ↦
                    ap
                      (λ c. flags (server_of (record_confirmed cl now ns req name alloc c).1.0 g k))
                      c
                    ∙ back g k
              ]
      ]

  -- The selectors with the fleet's own label.
  abbrev pub selectors : Dict String
  selectors = merge_labels alloc.spec.match_labels ((fleet_label, alloc.spec.fleet_ref) ∷ [])

  allowed_names_listed :
      (w : W) (pods : List Pod)
      → ltb 0 (length alloc.spec.match_labels) ≡ true
      → (cl.list_pods ns selectors w).0 ≡ some pods
      → (allowed_names cl ns alloc w).0 ≡ name_set pods
  unfolding allowed_names
  allowed_names_listed w pods selects found = simp (selects, found, allowed_names) refl

  dispatch-same :
      (pm : PoolManager) (w : W)
      → IsValid pm
      → ltb 0 (length (allowed_names cl ns alloc w).0) ≡ true
      → is_allowed (allowed_names cl ns alloc w).0 k ≡ false
      → flags (server_of (dispatch cl now ns req pm (ok alloc, w)).1.0 g k)
        ≡ flags (server_of pm g k)
  unfolding dispatch
  dispatch-same pm w v restricts outside = elim (Bool-cases (is_pending alloc)) [
    | inr settled ↦ simp (settled, dispatch) refl
    | inl pending ↦ elim (Bool-cases (is_expired now alloc)) [
      | inl late ↦ simp (pending, late, dispatch) refl
      | inr in_time ↦ simp (pending, in_time, dispatch) (serve-same pm w v restricts outside)
    ]
  ]

-- A reconciliation of a resource with selectors, in a valid manager, leaves every server that is not
-- named like one of the pods that the cluster lists for the selectors as available as it was, if the
-- list holds a pod at all.
pub reconcile_allocation-selects :
    {W : Type 0} (cl : Client W) (now : ℤ) (ns req : String) (pm : PoolManager) (w : W)
    (alloc : GameServerAllocation) (pod : Pod) (pods : List Pod) (g k : String)
    → IsValid pm
    → (cl.get_allocation ns req w).0 ≡ ok alloc
    → ltb 0 (length alloc.spec.match_labels) ≡ true
    → (cl.list_pods ns
        (merge_labels alloc.spec.match_labels ((fleet_label, alloc.spec.fleet_ref) ∷ []))
        (cl.get_allocation ns req w).1).0
      ≡ some (pod ∷ pods)
    → Unlisted k (pod ∷ pods)
    → flags (server_of (reconcile_allocation cl now ns req pm w).1.0 g k) ≡ flags (server_of pm g k)
unfolding reconcile_allocation
reconcile_allocation-selects cl now ns req pm w alloc pod pods g k v found selects listed apart =
    let after = (cl.get_allocation ns req w).1 in
    let names = allowed_names_listed cl now ns req alloc g k after (pod ∷ pods) selects listed in
    subst
      (λ r.
        flags (server_of (dispatch cl now ns req pm (r, after)).1.0 g k) ≡ flags (server_of pm g k))
      (sym found)
      (dispatch-same cl now ns req alloc g k pm after v
        (ap (λ m. ltb 0 (length m)) names ∙ insert-positive pod.name (name_set pods))
        (ap (λ m. is_allowed m k) names ∙ name_set-Unlisted k (pod ∷ pods) apart))
