-- ===== src/Apiserver/Ownership.antt =====
-- What a sync of the process does to a server that is allocated.
use game_server_orchestrator.Prelude.{
  String, ◌≡◌, refl, Bool, false, not, ◌&&◌, ◌||◌, List, [], ◌∷◌, inl, inr, Bool-cases, All, arith,
}
use game_server_orchestrator.Prelude.Int.{ℤ}
use game_server_orchestrator.Prelude.Text.{str_eq}
use game_server_orchestrator.V1alpha1.Fleet.{Pod}
use game_server_orchestrator.Pool.State.{PoolManager}
use game_server_orchestrator.Pool.Calls.{
  registers, marks_allocated, marks_available, marks_unhealthy, step,
}
use game_server_orchestrator.Pool.Invariant.{IsValid, step-IsValid}
use game_server_orchestrator.Pool.Allocation.Exclusive.{Held, step-Held}
use game_server_orchestrator.Director.Sync.{phase_of, is_running, sync_server}
use game_server_orchestrator.Allocator.Ownership.{Keeps}
use game_server_orchestrator.Apiserver.{label_fleet, sync_labelled, sync_all}

-- The label of a running pod says that the server `name` of `fleet` is free.
abbrev pub says_free : String → String → Pod → Bool
says_free fleet name pod =
    is_running pod
    && (str_eq (label_fleet pod) fleet && str_eq pod.name name)
    && not (str_eq (phase_of pod) "allocated" || str_eq (phase_of pod) "draining")

sync_server-Keeps :
    (now : ℤ) (g : String) (pod : Pod) (pm : PoolManager) (fleet name : String)
    → IsValid pm
    → ((str_eq g fleet && str_eq pod.name name)
        && not (str_eq (phase_of pod) "allocated" || str_eq (phase_of pod) "draining"))
      ≡ false
    → Keeps fleet name pm (sync_server now g pod pm)
unfolding sync_server step
sync_server-Keeps now g pod pm fleet name v free =
    let registered = step now (registers g pod.name) pm in
    let valid = step-IsValid now (registers g pod.name) pm v in
    let holds : Held pm fleet name → Held registered fleet name =
      step-Held now (registers g pod.name) pm fleet name refl in
    elim (Bool-cases (str_eq (phase_of pod) "allocated")) [
      | inl e ↦
          let call = marks_allocated g pod.name in
          simp (e, sync_server)
            (
              step-IsValid now call registered valid,
              λ h. step-Held now call registered fleet name refl (holds h),
            )
      | inr not_allocated ↦ elim (Bool-cases (str_eq (phase_of pod) "draining")) [
        | inl e ↦
            let call = marks_unhealthy g pod.name in
            simp (not_allocated, e, sync_server)
              (
                step-IsValid now call registered valid,
                λ h. step-Held now call registered fleet name refl (holds h),
              )
        | inr not_draining ↦
            let call = marks_available g pod.name in
            let apart : (str_eq g fleet && str_eq pod.name name) ≡ false =
              ground (arith, free, not_allocated, not_draining) in
            simp (not_allocated, not_draining, sync_server)
              (
                step-IsValid now call registered valid,
                λ h. step-Held now call registered fleet name apart (holds h),
              )
      ]
    ]

sync_labelled-Keeps :
    (now : ℤ) (pod : Pod) (pm : PoolManager) (fleet name : String)
    → IsValid pm
    → says_free fleet name pod ≡ false
    → Keeps fleet name pm (sync_labelled now pod pm)
unfolding sync_labelled
sync_labelled-Keeps now pod pm fleet name v free = elim (Bool-cases (is_running pod)) [
  | inr stopped ↦ simp (stopped, sync_labelled) (v, λ h. h)
  | inl running ↦ elim (Bool-cases (str_eq (label_fleet pod) "")) [
    | inl none_named ↦ simp (running, none_named, sync_labelled) (v, λ h. h)
    | inr named ↦
        simp (running, named, sync_labelled)
          (sync_server-Keeps now (label_fleet pod) pod pm fleet name v
            (ground (arith, free, running)))
  ]
]

pub sync_all-Keeps :
    (now : ℤ) (pods : List Pod) (pm : PoolManager) (fleet name : String)
    → IsValid pm
    → All (λ pod. says_free fleet name pod ≡ false) pods
    → Keeps fleet name pm (sync_all now pods pm)
unfolding sync_all
sync_all-Keeps now [] pm fleet name v a = (v, λ h. h)
sync_all-Keeps now (pod ∷ pods) pm fleet name v (free, a) =
    let (valid, holds) = sync_labelled-Keeps now pod pm fleet name v free in
    let (valid', holds') = sync_all-Keeps now pods (sync_labelled now pod pm) fleet name valid a in
    (valid', λ h. holds' (holds h))
