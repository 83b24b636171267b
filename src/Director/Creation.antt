-- ===== src/Director/Creation.antt =====
-- The pods that a scale-up creates, and what the pool knows of them.
use game_server_orchestrator.Prelude.{
  String, ℕ, zero, suc, ◌≡◌, refl, ap, ◌∙◌, ◌↔◌, Bool, true, false, ◌&&◌, ◌||◌, Option, none, some,
  List, [], ◌∷◌, length, arith, inl, inr, Bool-cases, Option-cases, if◌then◌else◌,
}
use game_server_orchestrator.Prelude.Int.{ℤ, pos_part}
use game_server_orchestrator.Prelude.Text.{str_eq}
use game_server_orchestrator.V1alpha1.Fleet.{GameServerFleet}
use game_server_orchestrator.Pool.State.{PoolManager, register, server_of}
use game_server_orchestrator.Pool.Frame.{server_of-register}
use game_server_orchestrator.Pool.Abstract.{free, view}
use game_server_orchestrator.Cooldown.{record_scale_up}
use game_server_orchestrator.Scaler.{ScaleResult}
use game_server_orchestrator.Cluster.{Client}
use game_server_orchestrator.Director.{FleetReconciler}
use game_server_orchestrator.Director.Scaling.{build_game_server_pod, create_pods, execute_scale_up}

-- What is seen of a server after it is registered.
abbrev pub known : Option (Bool × Bool) → Option (Bool × Bool)
known none = free
known (some s) = some s

abbrev pub is_in : String → List String → Bool
is_in k [] = false
is_in k (name ∷ names) = str_eq name k || is_in k names

register-known :
    (now : ℤ) (pm : PoolManager) (fleet name g k : String)
    → view (register now fleet name pm) g k
      ≡ (if str_eq fleet g && str_eq name k then known (view pm g k) else view pm g k)
register-known now pm fleet name g k =
    let frame = server_of-register now pm fleet name g k in
    elim (Bool-cases (str_eq fleet g && str_eq name k)) [
      | inr other ↦ ground (arith, frame, other)
      | inl this ↦ elim (Option-cases (server_of pm g k)) [
        | inl unknown ↦ ground (arith, frame, this, unknown)
        | inr (s, here) ↦ ground (arith, frame, this, here)
      ]
    ]

-- Registering a server once more is seen no more.
known_again :
    (same first rest : Bool) (o : Option (Bool × Bool))
    → (if same && rest
        then known (if same && first then known o else o)
        else if same && first
        then known o
        else o)
      ≡ (if same && (first || rest) then known o else o)
known_again false first rest o = refl
known_again true true true none = refl
known_again true true true (some s) = refl
known_again true true false o = refl
known_again true false true o = refl
known_again true false false o = refl

module _ {W : Type 0} (cl : Client W) (now : ℤ) (fleet : GameServerFleet) where
  -- The names that the cluster gives to `n` new pods, one after the other, until it refuses one.
  pub names_given : ℕ → W → List String
  names_given zero w = []
  names_given (suc n) w =
      let (made, w') = cl.create_pod (build_game_server_pod fleet) w in
      let rest = names_given n w' in elim made [ none ↦ [] | some name ↦ name ∷ rest ]

  create_pods-known :
      (n : ℕ) (pm : PoolManager) (w : W) (g k : String)
      → view (create_pods cl now fleet n pm w).1.0 g k ≡ (
          if str_eq fleet.name g && is_in k (names_given n w)
          then known (view pm g k)
          else view pm g k)
  unfolding create_pods names_given
  create_pods-known zero pm w g k = ground arith
  create_pods-known (suc n) pm w g k =
      let (made, w') = cl.create_pod (build_game_server_pod fleet) w in
      elim (Option-cases made) [
        | inl refused ↦ simp (refused, create_pods, names_given) (ground arith)
        | inr (name, given) ↦
            simp (given, create_pods, names_given)
              (create_pods-known n (register now fleet.name name pm) w' g k
                ∙ rw (register-known now pm fleet.name name g k) (
                    known_again (str_eq fleet.name g) (str_eq name k) (is_in k (names_given n w'))
                      (view pm g k)))
      ]

  create_pods-worked :
      (n : ℕ) (pm : PoolManager) (w : W)
      → ((create_pods cl now fleet n pm w).0 ≡ true) ↔ (length (names_given n w) ≡ n)
  unfolding create_pods names_given
  create_pods-worked zero pm w = (λ e. refl, λ e. refl)
  create_pods-worked (suc n) pm w =
      let (made, w') = cl.create_pod (build_game_server_pod fleet) w in
      elim (Option-cases made) [
        | inl refused ↦
            simp (refused, create_pods, names_given) (λ e. absurd (cc e), λ e. absurd (omega arith))
        | inr (name, given) ↦
            let rest = create_pods-worked n (register now fleet.name name pm) w' in
            simp (given, create_pods, names_given)
              (λ e. ap suc (rest.0 e), λ e. rest.1 (omega (arith, e)))
      ]

  -- A scale-up that is no dry run asks the cluster for as many pods as the decision adds, until it
  -- refuses one; it succeeds exactly if the cluster gives a name to each. Either way the fleet then
  -- has every server that got a name, free and healthy if it is new to the pool, and all other servers
  -- of all fleets are seen as before; the time of the scale-up is recorded exactly on success, and no
  -- drain is started.
  pub execute_scale_up_creates :
      (result : ScaleResult) (r : FleetReconciler) (w : W)
      → (((execute_scale_up cl now fleet result false r w).0 ≡ true)
          ↔ (length (names_given (pos_part result.delta) w) ≡ pos_part result.delta))
        × ((g k : String)
            → view (execute_scale_up cl now fleet result false r w).1.0.pool g k ≡ (
                if str_eq fleet.name g && is_in k (names_given (pos_part result.delta) w)
                then known (view r.pool g k)
                else view r.pool g k))
        × ((execute_scale_up cl now fleet result false r w).1.0.cooldowns ≡ (
            if (execute_scale_up cl now fleet result false r w).0
            then record_scale_up now fleet.name r.cooldowns
            else r.cooldowns))
        × ((execute_scale_up cl now fleet result false r w).1.0.drain_states ≡ r.drain_states)
  unfolding execute_scale_up
  execute_scale_up_creates result r w =
      let n = pos_part result.delta in
      let worked = create_pods-worked n r.pool w in
      let pool = create_pods-known n r.pool w in
      elim (Bool-cases (create_pods cl now fleet n r.pool w).0) [
        | inl made ↦
            simp (made, execute_scale_up) ((λ e. worked.0 made, λ e. refl), pool, refl, refl)
        | inr failed ↦
            simp (failed, execute_scale_up)
              ((λ e. absurd (cc e), λ e. absurd (cc (failed, worked.1 e))), pool, refl, refl)
      ]
