-- ===== src/Director/Scaling.antt =====
-- Scaling up creates pods, and scaling down starts the drain of idle servers.
use game_server_orchestrator.Prelude.{
  String, ℕ, zero, suc, All, ◌≡◌, ◌≢◌, refl, sym, ap, ◌∙◌, Bool, true, false, none, some, List, [],
  ◌∷◌, length, take, arith, inl, inr, Bool-cases, if◌then◌else◌,
}
use game_server_orchestrator.Prelude.Int.{ℤ, pos, pos_part, ltb_ℤ, eqb_ℤ}
use game_server_orchestrator.Prelude.Int32.{sub32, wrap32}
use game_server_orchestrator.Prelude.Text.{str_eq, eq_iff}
use game_server_orchestrator.Prelude.Dict.{Dict, insert}
use game_server_orchestrator.V1alpha1.Fleet.{GameServerFleet, Pod, zero_pod}
use game_server_orchestrator.Pool.State.{
  PoolManager, register, mark_unhealthy, sicken, server_of, ServerPoolState, ensure_fleet,
}
use game_server_orchestrator.Pool.Frame.{server_of-update_server, server_of-ensure_fleet}
use game_server_orchestrator.Pool.Query.{idle_servers}
use game_server_orchestrator.Pool.Idle.{MayDrain, idle_servers-MayDrain}
use game_server_orchestrator.Pool.Invariant.{IsValid}
use game_server_orchestrator.Pool.Allocation.Exclusive.{Held}
use game_server_orchestrator.Cooldown.{record_scale_up, record_scale_down}
use game_server_orchestrator.Drainer.{start_drain}
use game_server_orchestrator.Scaler.{ScaleResult}
use game_server_orchestrator.Cluster.{Client, patch_pod_phase, fleet_label, phase_label}
use game_server_orchestrator.Director.{FleetReconciler, metrics_endpoint}

abbrev add_labels : Dict String → Dict String → Dict String
add_labels [] acc = acc
add_labels ((k, v) ∷ labels) acc = add_labels labels (insert k v acc)

-- `buildGameServerPod`; the server makes the name.
unfoldable pub build_game_server_pod : GameServerFleet → Pod
build_game_server_pod fleet = record zero_pod {
  pod_namespace = fleet.fleet_namespace;
  labels =
      add_labels fleet.spec.template_labels
        ((fleet_label, fleet.name) ∷ (phase_label, "warm") ∷ ("app", "game-server") ∷ []);
  containers = fleet.spec.template_containers;
}

module _ {W : Type 0} (cl : Client W) (now : ℤ) (fleet : GameServerFleet) where
  -- The loop of `executeScaleUp`; `false` is an error.
  unfoldable pub create_pods : ℕ → PoolManager → W → Bool × (PoolManager × W)
  create_pods zero pm w = (true, (pm, w))
  create_pods (suc n) pm w =
      let (made, w') = cl.create_pod (build_game_server_pod fleet) w in
      elim made [
        | none ↦ (false, (pm, w'))
        | some name ↦ create_pods n (register now fleet.name name pm) w'
      ]

  -- `executeScaleUp`
  unfoldable pub execute_scale_up :
      ScaleResult → Bool → FleetReconciler → W → Bool × (FleetReconciler × W)
  execute_scale_up result dry_run r w =
      if dry_run
      then (true, (r, w))
      else (let (created, (pm, w')) = create_pods (pos_part result.delta) r.pool w in
          if created
          then (
            true,
            (record r { pool = pm; cooldowns = record_scale_up now fleet.name r.cooldowns }, w'),
          )
          else (false, (record r { pool = pm }, w')))

  -- One turn of the loop of `executeScaleDown`. The failures of the two calls are only logged.
  unfoldable pub drain_server : String → FleetReconciler → W → FleetReconciler × W
  drain_server name r w =
      let (found, w') = cl.get_pod fleet.fleet_namespace name w in
      let pod : Pod = elim found [ none ↦ zero_pod | some p ↦ p ] in
      let endpoint =
        if str_eq pod.pod_ip ""
        then metrics_endpoint name fleet
        else metrics_endpoint pod.pod_ip fleet in
      (
        record r {
          pool = mark_unhealthy fleet.name name r.pool;
          drain_states = insert name (start_drain r.drainer now name endpoint) r.drain_states;
        },
        (patch_pod_phase cl "draining" pod w').1,
      )

  unfoldable pub drain_servers : List String → FleetReconciler → W → FleetReconciler × W
  drain_servers [] r w = (r, w)
  drain_servers (name ∷ names) r w =
      let (r', w') = drain_server name r w in drain_servers names r' w'

  -- The servers that a scale-down by `-delta` drains.
  unfoldable pub drain_count : ScaleResult → List String → ℤ
  drain_count result idle =
      let wanted = sub32 (pos 0) result.delta in
      if ltb_ℤ (wrap32 (pos (length idle))) wanted then wrap32 (pos (length idle)) else wanted

  -- `executeScaleDown`, which returns no error.
  unfoldable pub execute_scale_down : ScaleResult → Bool → FleetReconciler → W → FleetReconciler × W
  execute_scale_down result dry_run r w =
      if dry_run
      then (r, w)
      else (let idle = idle_servers now fleet.name r.pool in
          let count = drain_count result idle in
          if eqb_ℤ count (pos 0)
          then (record r { cooldowns = record_scale_down now fleet.name r.cooldowns }, w)
          else (let (r', w') = drain_servers (take (pos_part count) idle) r w in
              (record r' { cooldowns = record_scale_down now fleet.name r'.cooldowns }, w')))

  drain_server-others :
      (name g k : String) (r : FleetReconciler) (w : W)
      → name ≢ k
      → server_of (drain_server name r w).0.pool g k ≡ server_of r.pool g k
  unfolding drain_server mark_unhealthy
  drain_server-others name g k r w other = ground (
    arith,
    eq_iff name k,
    server_of-update_server (ensure_fleet r.pool fleet.name) fleet.name name g k sicken,
    server_of-ensure_fleet r.pool fleet.name g k,
  )

  drain_servers-others :
      (names : List String) (g k : String) (r : FleetReconciler) (w : W)
      → All (λ name. name ≢ k) names
      → server_of (drain_servers names r w).0.pool g k ≡ server_of r.pool g k
  unfolding drain_servers
  drain_servers-others [] g k r w a = refl
  drain_servers-others (name ∷ names) g k r w (other, a) =
      drain_servers-others names g k _ _ a ∙ drain_server-others name g k r w other

  All-take : (P : String → Type 0) (n : ℕ) (l : List String) → All P l → All P (take n l)
  All-take P zero l a = tt
  All-take P (suc n) [] a = tt
  All-take P (suc n) (x ∷ l) (p, a) = (p, All-take P n l a)

  Held-apart :
      (pm : PoolManager) (k name : String) (s : ServerPoolState)
      → Held pm fleet.name k
      → server_of pm fleet.name name ≡ some s
      → s.allocated ≡ false
      → name ≢ k
  Held-apart pm k name s (t, here, taken) found free e =
      let both : some s ≡ some t = sym found ∙ ap (server_of pm fleet.name) e ∙ here in
      cc (both, free, taken)

  not-Held :
      (pm : PoolManager) (k : String) (names : List String)
      → Held pm fleet.name k
      → All (MayDrain now fleet.name pm) names
      → All (λ name. name ≢ k) names
  not-Held pm k [] h a = tt
  not-Held pm k (name ∷ names) h ((s, found, free, healthy, set, long), a) =
      (Held-apart pm k name s h found free, not-Held pm k names h a)

  -- In a valid manager a scale-down leaves every allocated server of the fleet as it is.
  execute_scale_down_spares :
      (result : ScaleResult) (dry_run : Bool) (r : FleetReconciler) (w : W) (k : String)
      → IsValid r.pool
      → Held r.pool fleet.name k
      → server_of (execute_scale_down result dry_run r w).0.pool fleet.name k
        ≡ server_of r.pool fleet.name k
  unfolding execute_scale_down
  execute_scale_down_spares result dry_run r w k v held =
      let idle = idle_servers now fleet.name r.pool in
      let count = drain_count result idle in
      elim (Bool-cases dry_run) [
        | inl dry ↦ rw (dry, execute_scale_down) refl
        | inr real ↦ elim (Bool-cases (eqb_ℤ count (pos 0))) [
          | inl nothing ↦ simp (real, nothing, execute_scale_down)
          | inr some_idle ↦
              simp (real, some_idle, execute_scale_down)
                (drain_servers-others (take (pos_part count) idle) fleet.name k r w (
                  All-take (λ name. name ≢ k) (pos_part count) idle
                    (not-Held r.pool k idle held (idle_servers-MayDrain now fleet.name r.pool v))))
        ]
      ]
