-- ===== src/Allocator/Rollback.antt =====
-- An allocation that fails after the choice of a server gives the server back.
use mathlib.Core.Path.{ap₂}
use game_server_orchestrator.Prelude.{
  String, ◌≡◌, ◌⊎◌, inl, inr, refl, sym, ap, ◌∙◌, subst, Bool, true, false, ◌&&◌, some, [], arith,
  Option-cases, Bool-cases,
}
use game_server_orchestrator.Prelude.Int.{ℤ}
use game_server_orchestrator.Prelude.Text.{str_eq, eq_iff}
use game_server_orchestrator.Prelude.Dict.{Dict}
use game_server_orchestrator.Prelude.Result.{Result, ok, err, Result-cases}
use game_server_orchestrator.V1alpha1.Fleet.{Pod}
use game_server_orchestrator.V1alpha1.Policy.{AllocationStrategy}
use game_server_orchestrator.Pool.State.{
  PoolManager, PoolError, server_of, allocate_with_filter, release, release_server, take_server,
}
use game_server_orchestrator.Pool.Frame.{server_of-update_server}
use game_server_orchestrator.Pool.Invariant.{IsValid}
use game_server_orchestrator.Pool.Allocation.Outcome.{
  allocate_with_filter_takes, allocate_with_filter_fails,
}
use game_server_orchestrator.Pool.Abstract.{flags}
use game_server_orchestrator.Cluster.{Client, patch_pod_phase}
use game_server_orchestrator.Allocator.{
  AllocError, AllocateResult, no_available_server, no_pod, not_labelled, confirm, answer_with,
  allocate_server, pod_endpoint,
}

abbrev pub SameFlags : PoolManager → PoolManager → Type 0
SameFlags pm pm' = (g k : String) → flags (server_of pm' g k) ≡ flags (server_of pm g k)

-- A server that was allocated and is released at once has the flags that it had.
pub released-SameFlags :
    (now : ℤ) (fleet : String) (strategy : AllocationStrategy) (allowed : Dict Bool)
    (pm : PoolManager) {name : String} {pm' : PoolManager}
    → IsValid pm
    → allocate_with_filter now fleet strategy allowed pm ≡ (ok name, pm')
    → SameFlags pm (release now fleet name pm')
unfolding release release_server take_server
released-SameFlags now fleet strategy allowed pm {name} {pm'} v e g k =
    let (s, here, free, healthy, passes, frame) =
      allocate_with_filter_takes now fleet strategy allowed pm v e in
    let back = server_of-update_server pm' fleet name g k (release_server now) in
    elim (Bool-cases (str_eq fleet g && str_eq name k)) [
      | inr other ↦
          let same : server_of (release now fleet name pm') g k ≡ server_of pm g k =
            ground (arith, other, back, frame g k) in
          ap flags same
      | inl this ↦
          let there : server_of pm g k ≡ some s =
            ground (arith, this, eq_iff fleet g, eq_iff name k, here) in
          let after : server_of (release now fleet name pm') g k
              ≡ some (release_server now (take_server now s)) =
            ground (arith, this, back, frame g k) in
          ap flags after ∙ ap (λ a. some (a, s.healthy)) (sym free) ∙ sym (ap flags there)
    ]

pub taken-flags :
    (now : ℤ) (fleet : String) (strategy : AllocationStrategy) (allowed : Dict Bool)
    (pm : PoolManager) {name : String} {pm' : PoolManager}
    → IsValid pm
    → allocate_with_filter now fleet strategy allowed pm ≡ (ok name, pm')
    → (flags (server_of pm fleet name) ≡ some (false, true))
      × (flags (server_of pm' fleet name) ≡ some (true, true))
unfolding take_server
taken-flags now fleet strategy allowed pm {name} {pm'} v e =
    let (s, here, free, healthy, passes, frame) =
      allocate_with_filter_takes now fleet strategy allowed pm v e in
    let after : server_of pm' fleet name ≡ some (take_server now s) =
      ground (arith, eq_iff fleet fleet, eq_iff name name, frame fleet name) in
    (
      ap flags here ∙ ap₂ (λ a h. some (a, h)) free healthy,
      ap flags after ∙ ap (λ h. some (true, h)) healthy,
    )

module _ {W : Type 0} (cl : Client W) where
  pub confirm_cases :
      (now : ℤ) (fleet ns name : String) (pm : PoolManager) (w : W)
      → ((pod : Pod) × (labelled : Pod) × (w'' : W) × ((cl.get_pod ns name w).0 ≡ some pod)
          × ((patch_pod_phase cl "allocated" pod (cl.get_pod ns name w).1).0 ≡ some labelled)
          × (confirm cl now fleet ns name pm w ≡ (ok labelled, (pm, w''))))
        ⊎ ((e : AllocError) × (w'' : W) × (confirm cl now fleet ns name pm w
              ≡ (err e, (release now fleet name pm, w''))))
  unfolding confirm
  confirm_cases now fleet ns name pm w = elim (Option-cases (cl.get_pod ns name w).0) [
    | inl missing ↦ inr (no_pod name, (cl.get_pod ns name w).1, rw (missing, confirm) refl)
    | inr (pod, found) ↦
        let w' = (cl.get_pod ns name w).1 in
        elim (Option-cases (patch_pod_phase cl "allocated" pod w').0) [
          | inl refused ↦ inr (
            not_labelled name,
            (patch_pod_phase cl "allocated" pod w').1,
            rw (found, refused, confirm) refl,
          )
          | inr (labelled, accepted) ↦ inl (
            pod,
            labelled,
            (patch_pod_phase cl "allocated" pod w').1,
            found,
            accepted,
            rw (found, accepted, confirm) refl,
          )
        ]
  ]

  module _ (now : ℤ) (fleet ns : String) (strategy : AllocationStrategy) (pm : PoolManager)
      (w : W) where
    abbrev pub Chose : Result PoolError String → PoolManager → Type 0
    Chose chosen pm' = allocate_with_filter now fleet strategy [] pm ≡ (chosen, pm')

    abbrev pub Answers : Result AllocError AllocateResult → PoolManager → W → Type 0
    Answers r pm' w' = allocate_server cl now fleet ns strategy pm w ≡ (r, (pm', w'))

    abbrev pub success : String → Pod → Result AllocError AllocateResult
    success name pod =
        ok (record { server_name = name; endpoint = pod_endpoint pod; node = pod.node_name })

    abbrev pub Served : Type 0
    Served =
        (name : String) × (pm' : PoolManager) × (pod : Pod) × (labelled : Pod) × (w' : W) × Chose
          (ok name) pm'
        × ((cl.get_pod ns name w).0 ≡ some pod)
        × ((patch_pod_phase cl "allocated" pod (cl.get_pod ns name w).1).0 ≡ some labelled)
        × Answers (success name labelled) pm' w'

    abbrev pub TakenBack : Type 0
    TakenBack =
        (name : String) × (pm' : PoolManager) × (e : AllocError) × (w' : W) × Chose (ok name) pm'
        × Answers (err e) (release now fleet name pm') w'

    abbrev pub NoneFree : Type 0
    NoneFree =
        (why : PoolError) × (pm' : PoolManager) × Chose (err why) pm'
        × Answers (err (no_available_server why)) pm' w

    answered :
        (name : String)
        → (allocate_with_filter now fleet strategy [] pm).0 ≡ ok name
        → allocate_server cl now fleet ns strategy pm w
          ≡ answer_with cl name
              (confirm cl now fleet ns name (allocate_with_filter now fleet strategy [] pm).1 w)
    unfolding allocate_server
    answered name took = rw (took, allocate_server) refl

    pub allocate_server_cases : Served ⊎ (TakenBack ⊎ NoneFree)
    unfolding allocate_server answer_with
    allocate_server_cases =
        let pm' = (allocate_with_filter now fleet strategy [] pm).1 in
        elim (Result-cases (allocate_with_filter now fleet strategy [] pm).0) [
          | inr (why, nothing) ↦
              inr (inr (why, pm', ap (λ c. (c, pm')) nothing, rw (nothing, allocate_server) refl))
          | inl (name, took) ↦ elim (confirm_cases now fleet ns name pm' w) [
            | inl (pod, labelled, w', found, accepted, c) ↦ inl (
              name,
              pm',
              pod,
              labelled,
              w',
              ap (λ c. (c, pm')) took,
              found,
              accepted,
              answered name took ∙ ap (answer_with cl name) c,
            )
            | inr (e, w', c) ↦ inr (
                inl (
                  name,
                  pm',
                  e,
                  w',
                  ap (λ c. (c, pm')) took,
                  answered name took ∙ ap (answer_with cl name) c,
                ))
          ]
        ]

  -- In a valid manager a REST allocation that fails leaves every server of every fleet as available as it was, whether
  -- no server is free, the pod is missing, or its label is refused.
  pub allocate_server-SameFlags :
      (now : ℤ) (fleet ns : String) (strategy : AllocationStrategy) (pm : PoolManager) (w : W)
      (e : AllocError)
      → IsValid pm
      → (allocate_server cl now fleet ns strategy pm w).0 ≡ err e
      → SameFlags pm (allocate_server cl now fleet ns strategy pm w).1.0
  allocate_server-SameFlags now fleet ns strategy pm w e v failed =
      elim (allocate_server_cases now fleet ns strategy pm w) [
        | inl (name, pm', pod, labelled, w', chose, found, accepted, answer) ↦
            absurd (cc (sym (ap (λ r. r.0) answer) ∙ failed))
        | inr (inl (name, pm', e', w', chose, answer)) ↦
            subst (λ r. SameFlags pm r.1.0) (sym answer)
              (released-SameFlags now fleet strategy [] pm v chose)
        | inr (inr (why, pm', chose, answer)) ↦
            subst (λ r. SameFlags pm r.1.0) (sym answer)
              (λ g k.
                ap (λ m. flags (server_of m g k))
                  (allocate_with_filter_fails now fleet strategy [] pm chose).0)
      ]

  -- What a successful allocation promises.
  abbrev pub Serves : String → String → PoolManager → W → PoolManager → AllocateResult → Type 0
  Serves fleet ns pm w pm' r =
      (flags (server_of pm fleet r.server_name) ≡ some (false, true))
      × (flags (server_of pm' fleet r.server_name) ≡ some (true, true))
      × (pod : Pod) × (labelled : Pod) × ((cl.get_pod ns r.server_name w).0 ≡ some pod)
      × ((patch_pod_phase cl "allocated" pod (cl.get_pod ns r.server_name w).1).0 ≡ some labelled)
      × (r.endpoint ≡ pod_endpoint labelled)
      × (r.node ≡ labelled.node_name)

  -- In a valid manager a REST allocation that succeeds has taken an unallocated and healthy server
  -- of the fleet, which is allocated and healthy after it; the server's pod exists and the cluster
  -- has accepted its label; and the answer's endpoint and node are those of that pod.
  pub allocate_server-Serves :
      (now : ℤ) (fleet ns : String) (strategy : AllocationStrategy) (pm : PoolManager) (w : W)
      (r : AllocateResult)
      → IsValid pm
      → (allocate_server cl now fleet ns strategy pm w).0 ≡ ok r
      → Serves fleet ns pm w (allocate_server cl now fleet ns strategy pm w).1.0 r
  allocate_server-Serves now fleet ns strategy pm w r v worked =
      elim (allocate_server_cases now fleet ns strategy pm w) [
        | inl (name, pm', pod, labelled, w', chose, found, accepted, answer) ↦
            let (before, after) = taken-flags now fleet strategy [] pm v chose in
            subst (λ x. Serves fleet ns pm w x.1.0 r) (sym answer)
              (subst (Serves fleet ns pm w pm') (cc (sym (ap (λ r. r.0) answer) ∙ worked))
                (before, after, pod, labelled, found, accepted, refl, refl))
        | inr (inl (name, pm', e', w', chose, answer)) ↦
            absurd (cc (sym (ap (λ r. r.0) answer) ∙ worked))
        | inr (inr (why, pm', chose, answer)) ↦ absurd (cc (sym (ap (λ r. r.0) answer) ∙ worked))
      ]
