-- ===== src/Director/Labels.antt =====
-- What the sync makes of the labels of the pods.
use mathlib.Core.Bool.{false≢true}
use mathlib.Core.Option
use game_server_orchestrator.Prelude.{
  String, ◌≡◌, ◌≢◌, refl, sym, ap, ◌∙◌, true, false, ◌&&◌, Option, none, some, arith, inl, inr,
  Bool-cases, Option-cases,
}
use game_server_orchestrator.Prelude.Int.{ℤ}
use game_server_orchestrator.Prelude.Text.{str_eq, eq_iff}
use game_server_orchestrator.V1alpha1.Fleet.{Pod}
use game_server_orchestrator.Pool.State.{
  PoolManager, ServerPoolState, server_of, register, ensure_fleet, update_server, take_server,
  free_server, sicken, mark_allocated, mark_unhealthy, mark_available, fresh_server,
}
use game_server_orchestrator.Pool.Frame.{
  server_of-update_server, server_of-ensure_fleet, server_of-register,
}
use game_server_orchestrator.Pool.Abstract.{flags}
use game_server_orchestrator.Director.Sync.{phase_of, sync_server}

module _ (now : ℤ) (fleet name : String) (pm : PoolManager)
    (f : ServerPoolState → ServerPoolState) where
  abbrev pub marked : PoolManager
  marked = update_server (ensure_fleet (register now fleet name pm) fleet) fleet name f

  registered :
      (s : ServerPoolState) × (elim (server_of pm fleet name) [
        | none ↦ some (fresh_server now name)
        | some s ↦ some s
      ]
        ≡ some s)
  registered = elim (Option-cases (server_of pm fleet name)) [
    | inl new ↦ (fresh_server now name, rw new refl)
    | inr (s, known) ↦ (s, rw known refl)
  ]

  pub marked_self : (s : ServerPoolState) × (server_of marked fleet name ≡ some (f s))
  marked_self =
      let (s, known) = registered in
      (
        s,
        ground (
          arith,
          eq_iff fleet fleet,
          eq_iff name name,
          known,
          server_of-update_server (ensure_fleet (register now fleet name pm) fleet) fleet name fleet
              name f,
          server_of-ensure_fleet (register now fleet name pm) fleet fleet name,
          server_of-register now pm fleet name fleet name,
        ),
      )

  marked-others :
      (g k : String)
      → (str_eq fleet g && str_eq name k) ≡ false
      → server_of marked g k ≡ server_of pm g k
  marked-others g k other = ground (
    arith,
    other,
    server_of-update_server (ensure_fleet (register now fleet name pm) fleet) fleet name g k f,
    server_of-ensure_fleet (register now fleet name pm) fleet g k,
    server_of-register now pm fleet name g k,
  )

abbrev pub Reflects : String → Option ServerPoolState → Type 0
Reflects phase s =
    (phase ≡ "allocated" → Option.map (λ x. x.allocated) s ≡ some true)
    × (phase ≡ "draining" → Option.map (λ x. x.healthy) s ≡ some false)
    × (phase ≢ "allocated" → phase ≢ "draining" → flags s ≡ some (false, true))

allocated_draining_ne : ◌≢◌ {A = String} "allocated" "draining"
allocated_draining_ne e = false≢true (ap (λ s. str_eq s "draining") e)

-- After the sync of a running pod, the pool holds its server as the label says: allocated,
-- unhealthy while draining, and otherwise unallocated and healthy. Other servers stay as they are.
pub sync_server-Reflects :
    (now : ℤ) (fleet : String) (pod : Pod) (pm : PoolManager)
    → Reflects (phase_of pod) (server_of (sync_server now fleet pod pm) fleet pod.name)
      × ((g k : String)
          → (str_eq fleet g && str_eq pod.name k) ≡ false
          → server_of (sync_server now fleet pod pm) g k ≡ server_of pm g k)
unfolding sync_server mark_allocated mark_unhealthy mark_available take_server sicken free_server
sync_server-Reflects now fleet pod pm =
    let phase = phase_of pod in
    elim (Bool-cases (str_eq phase "allocated")) [
      | inl e ↦
          let is : phase ≡ "allocated" = (eq_iff phase "allocated").0 e in
          let (s, here) = marked_self now fleet pod.name pm (take_server now) in
          simp (e, sync_server)
            (
              (
                λ _. ap (Option.map (λ x. x.allocated)) here,
                λ d. absurd (allocated_draining_ne (sym is ∙ d)),
                λ a. absurd (a is),
              ),
              marked-others now fleet pod.name pm (take_server now),
            )
      | inr not_allocated ↦ elim (Bool-cases (str_eq phase "draining")) [
        | inl e ↦
            let is : phase ≡ "draining" = (eq_iff phase "draining").0 e in
            let (s, here) = marked_self now fleet pod.name pm sicken in
            simp (not_allocated, e, sync_server)
              (
                (
                  λ a. absurd (allocated_draining_ne (sym a ∙ is)),
                  λ _. ap (Option.map (λ x. x.healthy)) here,
                  λ _ d. absurd (d is),
                ),
                marked-others now fleet pod.name pm sicken,
              )
        | inr not_draining ↦
            let (s, here) = marked_self now fleet pod.name pm (free_server now) in
            simp (not_allocated, not_draining, sync_server)
              (
                (
                  λ a. absurd (ground (arith, eq_iff phase "allocated", not_allocated, a)),
                  λ d. absurd (ground (arith, eq_iff phase "draining", not_draining, d)),
                  λ _ _. ap flags here,
                ),
                marked-others now fleet pod.name pm (free_server now),
              )
      ]
    ]
