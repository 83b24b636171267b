-- ===== src/Director/Freshness.antt =====
-- What a sync from the labels does to the times that IdleServers reads.
use game_server_orchestrator.Prelude.{
  String, ◌≡◌, ◌≢◌, ◌⊎◌, refl, sym, ap, ◌∙◌, subst, true, false, some, List, [], ◌∷◌, All,
  if◌then◌else◌, arith, inl, inr, Bool-cases, Option-cases,
}
use game_server_orchestrator.Prelude.Int.{ℤ, ◌-ℤ◌, ◌≤ℤ◌}
use game_server_orchestrator.Prelude.Text.{str_eq, eq_iff}
use game_server_orchestrator.Prelude.Dict.{Dict, get_or}
use game_server_orchestrator.V1alpha1.Fleet.{GameServerFleet, Pod}
use game_server_orchestrator.Pool.State.{
  PoolManager, ServerPoolState, server_of, pool_of, ensure_fleet, update_server, register,
  take_server, sicken, free_server, mark_allocated, mark_unhealthy, mark_available,
}
use game_server_orchestrator.Pool.Query.{config_of, zero_config, idle_servers}
use game_server_orchestrator.Pool.Idle.{MayDrain, idle_servers-MayDrain}
use game_server_orchestrator.Pool.Invariant.{IsValid}
use game_server_orchestrator.Pool.Edits.{Edits-IsValid}
use game_server_orchestrator.Drainer.{ServerState}
use game_server_orchestrator.Cluster.{Client, fleet_label}
use game_server_orchestrator.Director.{FleetReconciler}
use game_server_orchestrator.Director.Sync.{
  phase_of, is_running, sync_server, sync_drain, sync_pods, sync_listed, sync_pool_from_labels,
}
use game_server_orchestrator.Director.Creation.{is_in}
use game_server_orchestrator.Director.Labels.{marked, marked_self, sync_server-Reflects}
use game_server_orchestrator.Director.Isolation.{sync_pool_from_labels-Edits}

-- A server that is not free, or was touched at `now`.
abbrev Fresh : ℤ → ServerPoolState → Type 0
Fresh now s = (s.allocated ≡ true) ⊎ ((s.healthy ≡ false) ⊎ (s.last_used_at ≡ now))

abbrev IsFresh : ℤ → String → String → PoolManager → Type 0
IsFresh now fleet k pm = (s : ServerPoolState) → server_of pm fleet k ≡ some s → Fresh now s

IsFresh-of :
    (now : ℤ) (fleet k : String) (pm : PoolManager) (s : ServerPoolState)
    → server_of pm fleet k ≡ some s
    → Fresh now s
    → IsFresh now fleet k pm
IsFresh-of now fleet k pm s here fresh t there =
    let same : s ≡ t = ground (arith, sym here ∙ there) in subst (Fresh now) same fresh

sync_server-IsFresh :
    (now : ℤ) (fleet : String) (pod : Pod) (pm : PoolManager)
    → IsFresh now fleet pod.name (sync_server now fleet pod pm)
unfolding sync_server mark_allocated mark_unhealthy mark_available take_server sicken free_server
sync_server-IsFresh now fleet pod pm =
    let phase = phase_of pod in
    elim (Bool-cases (str_eq phase "allocated")) [
      | inl e ↦
          let (s, here) = marked_self now fleet pod.name pm (take_server now) in
          simp (e, sync_server)
            (IsFresh-of now fleet pod.name (marked now fleet pod.name pm (take_server now))
              (take_server now s) here (inl refl))
      | inr not_allocated ↦ elim (Bool-cases (str_eq phase "draining")) [
        | inl e ↦
            let (s, here) = marked_self now fleet pod.name pm sicken in
            simp (not_allocated, e, sync_server)
              (IsFresh-of now fleet pod.name (marked now fleet pod.name pm sicken) (sicken s) here
                (inr (inl refl)))
        | inr not_draining ↦
            let (s, here) = marked_self now fleet pod.name pm (free_server now) in
            simp (not_allocated, not_draining, sync_server)
              (IsFresh-of now fleet pod.name (marked now fleet pod.name pm (free_server now))
                (free_server now s) here (inr (inr refl)))
      ]
    ]

-- The sync of any pod keeps a server fresh.
sync_server-keeps_IsFresh :
    (now : ℤ) (fleet : String) (pod : Pod) (pm : PoolManager) (k : String)
    → IsFresh now fleet k pm
    → IsFresh now fleet k (sync_server now fleet pod pm)
sync_server-keeps_IsFresh now fleet pod pm k fresh = elim (Bool-cases (str_eq pod.name k)) [
  | inl same ↦
      subst (λ n. IsFresh now fleet n (sync_server now fleet pod pm)) ((eq_iff pod.name k).0 same)
        (sync_server-IsFresh now fleet pod pm)
  | inr other ↦ λ s here.
      fresh s
        (sym ((sync_server-Reflects now fleet pod pm).1 fleet k (ground (arith, other))) ∙ here)
]

sync_pods-keeps_IsFresh :
    (now : ℤ) (fleet : GameServerFleet) (pods : List Pod) (pm : PoolManager)
    (states : Dict ServerState) (k : String)
    → IsFresh now fleet.name k pm
    → IsFresh now fleet.name k (sync_pods now fleet pods (pm, states)).0
unfolding sync_pods
sync_pods-keeps_IsFresh now fleet [] pm states k fresh = fresh
sync_pods-keeps_IsFresh now fleet (pod ∷ pods) pm states k fresh =
    elim (Bool-cases (is_running pod)) [
      | inl running ↦
          simp (running, sync_pods)
            (sync_pods-keeps_IsFresh now fleet pods (sync_server now fleet.name pod pm)
              (sync_drain now fleet pod states) k
              (sync_server-keeps_IsFresh now fleet.name pod pm k fresh))
      | inr stopped ↦
          simp (stopped, sync_pods) (sync_pods-keeps_IsFresh now fleet pods pm states k fresh)
    ]

-- The running pods of a list.
unfoldable pub running_names : List Pod → List String
running_names [] = []
running_names (pod ∷ pods) =
    let rest = running_names pods in if is_running pod then pod.name ∷ rest else rest

sync_pods-IsFresh :
    (now : ℤ) (fleet : GameServerFleet) (pods : List Pod) (pm : PoolManager)
    (states : Dict ServerState) (k : String)
    → is_in k (running_names pods) ≡ true
    → IsFresh now fleet.name k (sync_pods now fleet pods (pm, states)).0
unfolding sync_pods running_names
sync_pods-IsFresh now fleet [] pm states k listed = absurd (cc listed)
sync_pods-IsFresh now fleet (pod ∷ pods) pm states k listed = elim (Bool-cases (is_running pod)) [
  | inr stopped ↦
      simp (stopped, sync_pods)
        (sync_pods-IsFresh now fleet pods pm states k (ground (arith, stopped, listed)))
  | inl running ↦
      let pm' = sync_server now fleet.name pod pm in
      let states' = sync_drain now fleet pod states in
      elim (Bool-cases (str_eq pod.name k)) [
        | inl same ↦
            simp (running, sync_pods)
              (sync_pods-keeps_IsFresh now fleet pods pm' states' k (
                subst (λ n. IsFresh now fleet.name n pm') ((eq_iff pod.name k).0 same)
                  (sync_server-IsFresh now fleet.name pod pm)))
        | inr other ↦
            simp (running, sync_pods)
              (sync_pods-IsFresh now fleet pods pm' states' k
                (ground (arith, running, other, listed)))
      ]
]

ensure_fleet-configs :
    (pm : PoolManager) (fleet : String) → (ensure_fleet pm fleet).configs ≡ pm.configs
unfolding ensure_fleet
ensure_fleet-configs pm fleet = elim (Option-cases (pool_of pm fleet)) [
  | inl e ↦ rw (e, ensure_fleet)
  | inr (pool, e) ↦ rw (e, ensure_fleet)
]

update_server-configs :
    (pm : PoolManager) (fleet name : String) (f : ServerPoolState → ServerPoolState)
    → (update_server pm fleet name f).configs ≡ pm.configs
unfolding update_server
update_server-configs pm fleet name f = elim (Option-cases (pool_of pm fleet)) [
  | inl e ↦ rw (e, update_server)
  | inr (pool, e) ↦ rw (e, update_server)
]

sync_server-configs :
    (now : ℤ) (fleet : String) (pod : Pod) (pm : PoolManager)
    → (sync_server now fleet pod pm).configs ≡ pm.configs
unfolding sync_server mark_allocated mark_unhealthy mark_available register
sync_server-configs now fleet pod pm =
    let registered = register now fleet pod.name pm in
    let first : registered.configs ≡ pm.configs = ensure_fleet-configs pm fleet in
    let second = ensure_fleet-configs registered fleet in
    let third = update_server-configs (ensure_fleet registered fleet) fleet pod.name in
    elim (Bool-cases (str_eq (phase_of pod) "allocated")) [
      | inl e ↦ simp (e, sync_server) (third (take_server now) ∙ second ∙ first)
      | inr e ↦ elim (Bool-cases (str_eq (phase_of pod) "draining")) [
        | inl d ↦ simp (e, d, sync_server) (third sicken ∙ second ∙ first)
        | inr d ↦ simp (e, d, sync_server) (third (free_server now) ∙ second ∙ first)
      ]
    ]

sync_pods-configs :
    (now : ℤ) (fleet : GameServerFleet) (pods : List Pod) (pm : PoolManager)
    (states : Dict ServerState)
    → (sync_pods now fleet pods (pm, states)).0.configs ≡ pm.configs
unfolding sync_pods
sync_pods-configs now fleet [] pm states = refl
sync_pods-configs now fleet (pod ∷ pods) pm states = elim (Bool-cases (is_running pod)) [
  | inr stopped ↦ simp (stopped, sync_pods) (sync_pods-configs now fleet pods pm states)
  | inl running ↦
      simp (running, sync_pods)
        (sync_pods-configs now fleet pods (sync_server now fleet.name pod pm)
            (sync_drain now fleet pod states)
          ∙ sync_server-configs now fleet.name pod pm)
]

-- What is fresh may not be drained within the timeout.
not-MayDrain :
    (now later : ℤ) (fleet k : String) (pm : PoolManager) (names : List String)
    → IsFresh now fleet k pm
    → (later -ℤ now) ≤ℤ (config_of pm fleet).idle_timeout
    → All (MayDrain later fleet pm) names
    → All (λ name. name ≢ k) names
not-MayDrain now later fleet k pm [] fresh soon a = tt
not-MayDrain now later fleet k pm (name ∷ names) fresh soon
      ((s, found, free, healthy, set, long), a) =
    let apart : name ≢ k = λ e.
      elim (fresh s (subst (λ n. server_of pm fleet n ≡ some s) e found)) [
        | inl taken ↦ absurd (cc (taken, free))
        | inr (inl sick) ↦ absurd (cc (sick, healthy))
        | inr (inr touched) ↦ absurd (ground (arith, soon, long, touched))
      ] in
    (apart, not-MayDrain now later fleet k pm names fresh soon a)

module _ {W : Type 0} (cl : Client W) (now : ℤ) (fleet : GameServerFleet) where
  -- After the sync of a valid pool from a list of pods, IdleServers names none of the running pods of
  -- the list, whatever their labels and however long they were idle, until more time has passed since
  -- the sync than the idle timeout.
  pub sync_hides_idle :
      (r : FleetReconciler) (w : W) (pods : List Pod) (k : String) (later : ℤ)
      → IsValid r.pool
      → (cl.list_pods fleet.fleet_namespace ((fleet_label, fleet.name) ∷ []) w).0 ≡ some pods
      → is_in k (running_names pods) ≡ true
      → (later -ℤ now) ≤ℤ (config_of r.pool fleet.name).idle_timeout
      → All
          (λ name. name ≢ k)
          (idle_servers later fleet.name (sync_pool_from_labels cl now fleet r w).0.pool)
  unfolding sync_pool_from_labels sync_listed
  sync_hides_idle r w pods k later v found listed soon =
      let pm = (sync_pods now fleet pods (r.pool, r.drain_states)).0 in
      let shown : sync_listed now fleet r
            (cl.list_pods fleet.fleet_namespace ((fleet_label, fleet.name) ∷ []) w).0
          ≡ sync_listed now fleet r (some pods) =
        ap (sync_listed now fleet r) found in
      let valid : IsValid pm =
        subst (λ x. IsValid x.pool) shown
          (Edits-IsValid fleet.name r.pool (sync_pool_from_labels cl now fleet r w).0.pool
            (sync_pool_from_labels-Edits cl now fleet r w) v) in
      let soon' : (later -ℤ now) ≤ℤ (config_of pm fleet.name).idle_timeout =
        subst (λ c. (later -ℤ now) ≤ℤ (get_or zero_config fleet.name c).idle_timeout)
          (sym (sync_pods-configs now fleet pods r.pool r.drain_states)) soon in
      subst (λ x. All (λ name. name ≢ k) (idle_servers later fleet.name x.pool)) (sym shown)
        (not-MayDrain now later fleet.name k pm (idle_servers later fleet.name pm)
          (sync_pods-IsFresh now fleet pods r.pool r.drain_states k listed) soon'
          (idle_servers-MayDrain later fleet.name pm valid))
