-- ===== src/Allocator/Ownership.antt =====
-- What an allocation, by the API or by a resource, does to a server that is allocated.
use game_server_orchestrator.Prelude.{
  String, refl, sym, ap, ◌∙◌, subst, Bool, [], inl, inr, Bool-cases, Option-cases,
}
use game_server_orchestrator.Prelude.Int.{ℤ}
use game_server_orchestrator.V1alpha1.Policy.{AllocationStrategy}
use game_server_orchestrator.Pool.State.{PoolManager, server_of, allocate_with_filter, release}
use game_server_orchestrator.Pool.Calls.{allocates_with_filter, releases, step}
use game_server_orchestrator.Pool.Invariant.{IsValid, step-IsValid}
use game_server_orchestrator.Prelude.Dict.{Dict}
use game_server_orchestrator.Pool.Allocation.Exclusive.{Held, step-Held}
use game_server_orchestrator.Pool.Allocation.Taken.{Taken, step-Taken}
use game_server_orchestrator.Cluster.{Client, GetError, not_found, get_failed}
use game_server_orchestrator.V1alpha1.Fleet.{Pod}
use game_server_orchestrator.Prelude.Result.{Result, ok, err, Result-cases}
use game_server_orchestrator.Allocator.{
  allocate_server, allocated_status, allowed_names, strategy_of, is_pending, is_expired,
  record_allocated, record_confirmed, serve, dispatch, reconcile_allocation,
}
use game_server_orchestrator.Allocator.Rollback.{
  SameFlags, released-SameFlags, confirm_cases, allocate_server-SameFlags, allocate_server_cases,
}
use game_server_orchestrator.Pool.Abstract.{flags}
use game_server_orchestrator.V1alpha1.Allocation.{GameServerAllocation}

-- Servers that are seen alike are held alike.
SameFlags-Held :
    (pm pm' : PoolManager) (fleet name : String)
    → SameFlags pm pm'
    → Held pm fleet name
    → Held pm' fleet name
SameFlags-Held pm pm' fleet name same (s, here, held) =
    elim (Option-cases (server_of pm' fleet name)) [
      | inl gone ↦ absurd (cc (same fleet name, ap flags here, ap flags gone))
      | inr (t, there) ↦
          (t, there, cc (sym (ap flags there) ∙ same fleet name ∙ ap flags here, held))
    ]

-- The two halves of what a call keeps.
abbrev pub Keeps : String → String → PoolManager → PoolManager → Type 0
Keeps fleet name pm pm' = IsValid pm' × (Held pm fleet name → Held pm' fleet name)

pub Keeps-refl : (fleet name : String) (pm : PoolManager) → IsValid pm → Keeps fleet name pm pm
Keeps-refl fleet name pm v = (v, λ h. h)

-- What holds of a manager by what is seen of its servers, and is kept by an allocation.
pub record IsStable (P : PoolManager → Type 0) : Type 0 where
  pub alike : (pm pm' : PoolManager) → SameFlags pm pm' → P pm → P pm'
  pub takes :
      (now : ℤ) (g : String) (strategy : AllocationStrategy) (allowed : Dict Bool)
      (pm : PoolManager)
      → P pm
      → P (allocate_with_filter now g strategy allowed pm).1

module _ {W : Type 0} (cl : Client W) (now : ℤ) (P : PoolManager → Type 0)
    (stable : IsStable P) where
  abbrev Goes : PoolManager → PoolManager → Type 0
  Goes pm pm' = IsValid pm' × (P pm → P pm')

  allocate_server-Goes :
      (g ns : String) (strategy : AllocationStrategy) (pm : PoolManager) (w : W)
      → IsValid pm
      → Goes pm (allocate_server cl now g ns strategy pm w).1.0
  unfolding step
  allocate_server-Goes g ns strategy pm w v =
      let call = allocates_with_filter g strategy [] in
      let valid : IsValid (allocate_with_filter now g strategy [] pm).1 =
        step-IsValid now call pm v in
      let holds : P pm → P (allocate_with_filter now g strategy [] pm).1 =
        stable.takes now g strategy [] pm in
      elim (allocate_server_cases cl now g ns strategy pm w) [
        | inl (k, pm', pod, labelled, w', chose, found, accepted, answer) ↦
            subst (λ x. Goes pm x.1.0) (sym answer) (subst (λ x. Goes pm x.1) chose (valid, holds))
        | inr (inl (k, pm', e, w', chose, answer)) ↦ (
          subst (λ x. IsValid x.1.0) (sym answer)
              (step-IsValid now (releases g k) pm' (subst (λ x. IsValid x.1) chose valid)),
          stable.alike pm (allocate_server cl now g ns strategy pm w).1.0
              (allocate_server-SameFlags cl now g ns strategy pm w e v (ap (λ x. x.0) answer)),
        )
        | inr (inr (why, pm', chose, answer)) ↦
            subst (λ x. Goes pm x.1.0) (sym answer) (subst (λ x. Goes pm x.1) chose (valid, holds))
      ]

  record_allocated-Goes :
      (ns req k : String) (alloc : GameServerAllocation) (pod : Pod) (pm pm' : PoolManager) (w : W)
      → Goes pm pm'
      → SameFlags pm (release now alloc.spec.fleet_ref k pm')
      → Goes pm (record_allocated cl now ns req k alloc pod pm' w).1.0
  unfolding record_allocated step
  record_allocated-Goes ns req k alloc pod pm pm' w (valid, holds) back =
      elim (Bool-cases (cl.update_allocation ns req (allocated_status now k pod alloc) w).0) [
        | inl written ↦ simp (written, record_allocated) (valid, holds)
        | inr unwritten ↦
            simp (unwritten, record_allocated)
              (
                step-IsValid now (releases alloc.spec.fleet_ref k) pm' valid,
                stable.alike pm (release now alloc.spec.fleet_ref k pm') back,
              )
      ]

  serve-Goes :
      (ns req : String) (alloc : GameServerAllocation) (pm : PoolManager) (w : W)
      → IsValid pm
      → Goes pm (serve cl now ns req alloc pm w).1.0
  unfolding serve record_confirmed step
  serve-Goes ns req alloc pm w v =
      let g = alloc.spec.fleet_ref in
      let strategy = strategy_of alloc in
      let (allowed, w') = allowed_names cl ns alloc w in
      let (chosen, pm') = allocate_with_filter now g strategy allowed pm in
      let call = allocates_with_filter g strategy allowed in
      let kept : Goes pm pm' =
        (step-IsValid now call pm v, stable.takes now g strategy allowed pm) in
      elim (Result-cases chosen) [
        | inr (why, nothing) ↦ simp (nothing, serve) kept
        | inl (k, took) ↦
            let back = released-SameFlags now g strategy allowed pm v (ap (λ c. (c, pm')) took) in
            simp (took, serve)
              elim (confirm_cases cl now g ns k pm' w') [
                | inl (pod, labelled, w'', found, accepted, c) ↦
                    subst (λ c. Goes pm (record_confirmed cl now ns req k alloc c).1.0) (sym c)
                      (record_allocated-Goes ns req k alloc labelled pm pm' w'' kept back)
                | inr (e, w'', c) ↦
                    subst (λ c. Goes pm (record_confirmed cl now ns req k alloc c).1.0) (sym c)
                      (
                        step-IsValid now (releases g k) pm' kept.0,
                        stable.alike pm (release now g k pm') back,
                      )
              ]
      ]

  dispatch-Goes :
      (ns req : String) (pm : PoolManager) (found : Result GetError GameServerAllocation × W)
      → IsValid pm
      → Goes pm (dispatch cl now ns req pm found).1.0
  unfolding dispatch
  dispatch-Goes ns req pm (err not_found, w) v = (v, λ h. h)
  dispatch-Goes ns req pm (err get_failed, w) v = (v, λ h. h)
  dispatch-Goes ns req pm (ok alloc, w) v = elim (Bool-cases (is_pending alloc)) [
    | inr settled ↦ simp (settled, dispatch) (v, λ h. h)
    | inl pending ↦ elim (Bool-cases (is_expired now alloc)) [
      | inl late ↦ simp (pending, late, dispatch) (v, λ h. h)
      | inr in_time ↦ simp (pending, in_time, dispatch) (serve-Goes ns req alloc pm w v)
    ]
  ]

  pub reconcile_allocation-Goes :
      (ns req : String) (pm : PoolManager) (w : W)
      → IsValid pm
      → Goes pm (reconcile_allocation cl now ns req pm w).1.0
  unfolding reconcile_allocation
  reconcile_allocation-Goes ns req pm w v = dispatch-Goes ns req pm (cl.get_allocation ns req w) v

-- That a server is allocated is such a property.
pub Held-IsStable : (fleet name : String) → IsStable (λ pm. Held pm fleet name)
unfolding step
Held-IsStable fleet name = record {
  alike = λ pm pm' same h. SameFlags-Held pm pm' fleet name same h;
  takes = λ now g strategy allowed pm h.
      step-Held now (allocates_with_filter g strategy allowed) pm fleet name refl h;
}

-- So is that no fleet has an unallocated server of a name.
SameFlags-Taken :
    (pm pm' : PoolManager) (name : String) → SameFlags pm pm' → Taken name pm → Taken name pm'
SameFlags-Taken pm pm' name same t g s e = elim (Option-cases (server_of pm g name)) [
  | inl gone ↦ absurd (cc (same g name, ap flags e, ap flags gone))
  | inr (s₀, here) ↦ cc (t g s₀ here, same g name, ap flags e, ap flags here)
]

pub Taken-IsStable : (name : String) → IsStable (Taken name)
unfolding step
Taken-IsStable name = record {
  alike = λ pm pm' same t. SameFlags-Taken pm pm' name same t;
  takes = λ now g strategy allowed pm t.
      step-Taken now (allocates_with_filter g strategy allowed) pm name refl t;
}

module _ {W : Type 0} (cl : Client W) (now : ℤ) where
  pub allocate_server-Keeps :
      (g ns : String) (strategy : AllocationStrategy) (pm : PoolManager) (w : W)
      (fleet name : String)
      → IsValid pm
      → Keeps fleet name pm (allocate_server cl now g ns strategy pm w).1.0
  allocate_server-Keeps g ns strategy pm w fleet name v =
      allocate_server-Goes cl now (λ m. Held m fleet name) (Held-IsStable fleet name) g ns strategy
        pm w v

  pub reconcile_allocation-Keeps :
      (ns req : String) (pm : PoolManager) (w : W) (fleet name : String)
      → IsValid pm
      → Keeps fleet name pm (reconcile_allocation cl now ns req pm w).1.0
  reconcile_allocation-Keeps ns req pm w fleet name v =
      reconcile_allocation-Goes cl now (λ m. Held m fleet name) (Held-IsStable fleet name) ns req pm
        w v
