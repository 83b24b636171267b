-- ===== src/Apiserver/Sync.antt =====
-- What a sync of the process makes of a list of pods.
use game_server_orchestrator.Prelude.{
  String, ◌≡◌, refl, sym, ap, ◌∙◌, subst, true, false, ◌&&◌, List, [], ◌∷◌, ◌++◌, inl, inr,
  Bool-cases, All,
}
use game_server_orchestrator.Prelude.Int.{ℤ}
use game_server_orchestrator.Prelude.Text.{str_eq}
use game_server_orchestrator.V1alpha1.Fleet.{Pod}
use game_server_orchestrator.Pool.State.{PoolManager, server_of}
use game_server_orchestrator.Director.Sync.{phase_of, is_running, sync_server}
use game_server_orchestrator.Director.Labels.{Reflects, sync_server-Reflects}
use game_server_orchestrator.Apiserver.{label_fleet, sync_labelled, sync_all}

-- The pod is not that of the server `name` of `fleet`.
abbrev pub Elsewhere : String → String → Pod → Type 0
Elsewhere fleet name pod = (str_eq (label_fleet pod) fleet && str_eq pod.name name) ≡ false

sync_labelled-others :
    (now : ℤ) (pod : Pod) (pm : PoolManager) (fleet name : String)
    → Elsewhere fleet name pod
    → server_of (sync_labelled now pod pm) fleet name ≡ server_of pm fleet name
unfolding sync_labelled
sync_labelled-others now pod pm fleet name other = elim (Bool-cases (is_running pod)) [
  | inr stopped ↦ simp (stopped, sync_labelled)
  | inl running ↦ elim (Bool-cases (str_eq (label_fleet pod) "")) [
    | inl none_named ↦ simp (running, none_named, sync_labelled)
    | inr named ↦
        simp (running, named, sync_labelled)
          ((sync_server-Reflects now (label_fleet pod) pod pm).1 fleet name other)
  ]
]

sync_all-others :
    (now : ℤ) (pods : List Pod) (pm : PoolManager) (fleet name : String)
    → All (Elsewhere fleet name) pods
    → server_of (sync_all now pods pm) fleet name ≡ server_of pm fleet name
unfolding sync_all
sync_all-others now [] pm fleet name a = refl
sync_all-others now (pod ∷ pods) pm fleet name (other, a) =
    sync_all-others now pods _ fleet name a ∙ sync_labelled-others now pod pm fleet name other

sync_all-append :
    (now : ℤ) (pods later : List Pod) (pm : PoolManager)
    → sync_all now (pods ++ later) pm ≡ sync_all now later (sync_all now pods pm)
unfolding sync_all
sync_all-append now [] later pm = refl
sync_all-append now (pod ∷ pods) later pm = sync_all-append now pods later _

-- After a sync over a list of pods, the server of a running pod with a fleet is as the pod's label
-- says, whatever the pool held before, if no later pod of the list has the same fleet and name.
pub sync_all-Reflects :
    (now : ℤ) (before : List Pod) (pod : Pod) (later : List Pod) (pm : PoolManager)
    → is_running pod ≡ true
    → str_eq (label_fleet pod) "" ≡ false
    → All (Elsewhere (label_fleet pod) pod.name) later
    → Reflects
        (phase_of pod)
        (server_of (sync_all now (before ++ pod ∷ later) pm) (label_fleet pod) pod.name)
unfolding sync_all sync_labelled
sync_all-Reflects now before pod later pm running named a =
    let start = sync_all now before pm in
    let here = (sync_server-Reflects now (label_fleet pod) pod start).0 in
    let single : sync_labelled now pod start ≡ sync_server now (label_fleet pod) pod start =
      simp (running, named, sync_labelled) in
    subst (Reflects (phase_of pod))
      (sym (
        ap (λ m. server_of m (label_fleet pod) pod.name)
          (sync_all-append now before (pod ∷ later) pm)
        ∙ sync_all-others now later (sync_labelled now pod start) (label_fleet pod) pod.name a
        ∙ ap (λ m. server_of m (label_fleet pod) pod.name) single))
      here
