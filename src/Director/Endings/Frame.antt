-- ===== src/Director/Endings/Frame.antt =====
-- A turn of the loop of advanceDraining touches the drain of its own server only.
use game_server_orchestrator.Prelude.{
  String, ◌≡◌, refl, sym, ◌∙◌, subst, true, false, not, ◌&&◌, Option, none, some, [], ◌∷◌, arith,
  inl, inr, Bool-cases, Option-cases,
}
use game_server_orchestrator.Prelude.Int.{ℤ}
use game_server_orchestrator.Prelude.Text.{str_eq, eq_iff}
use game_server_orchestrator.Prelude.Dict.{
  Dict, lookup, insert, erase, IsUnique, lookup-insert, lookup-erase_ne, insert-IsUnique,
  erase-IsUnique,
}
use game_server_orchestrator.V1alpha1.Fleet.{GameServerFleet}
use game_server_orchestrator.Pool.State.{PoolManager}
use game_server_orchestrator.Drainer.{Drainer, ServerState, SessionAnswer, advance, should_check}
use game_server_orchestrator.Cluster.{Client}
use game_server_orchestrator.Director.{FleetReconciler}
use game_server_orchestrator.Director.Draining.{
  decommission_server, advance_server, advance_servers, advance_draining, is_cordon,
}

-- No drain is listed twice, and the drainer is `d`.
abbrev pub Fits : Drainer → FleetReconciler → Type 0
Fits d r = IsUnique r.drain_states × (r.drainer ≡ d)

module _ {W : Type 0} (cl : Client W) (sessions : W → ServerState → SessionAnswer) (now : ℤ)
    (fleet : GameServerFleet) where
  -- A turn for `k` writes or erases the state of `k`, or does nothing.
  advance_server_cases {ℓ} :
      (P : FleetReconciler → Type ℓ) (k : String) (ds : ServerState) (r : FleetReconciler) (w : W)
      → P r
      → ((s : ServerState) → P (record r { drain_states = insert k s r.drain_states }))
      → ((s : ServerState) (pool : PoolManager)
          → P (record r { pool = pool; drain_states = erase k (insert k s r.drain_states) }))
      → P (advance_server cl sessions now fleet k ds r w).0
  unfolding advance_server decommission_server
  advance_server_cases P k ds r w same wrote erased =
      elim (Bool-cases (not (should_check r.drainer now ds) && not (is_cordon ds.phase))) [
        | inl wait ↦ simp (wait, advance_server) same
        | inr check ↦ elim (Option-cases (advance r.drainer now (sessions w ds) ds).0) [
          | inl failed ↦ simp (check, failed, advance_server) (wrote _)
          | inr (true, ready) ↦ elim (Bool-cases (cl.delete_pod fleet.fleet_namespace k w).0) [
            | inl deleted ↦
                simp (check, ready, deleted, advance_server, decommission_server) (erased _ _)
            | inr kept ↦ simp (check, ready, kept, advance_server, decommission_server) (wrote _)
          ]
          | inr (false, unready) ↦ simp (check, unready, advance_server) (wrote _)
        ]
      ]

  advance_server-Fits :
      (d : Drainer) (k : String) (ds : ServerState) (r : FleetReconciler) (w : W)
      → Fits d r
      → Fits d (advance_server cl sessions now fleet k ds r w).0
  advance_server-Fits d k ds r w (unique, e) =
      advance_server_cases (Fits d) k ds r w (unique, e)
        (λ s. (insert-IsUnique k s r.drain_states unique, e))
        (λ s pool. (erase-IsUnique k _ (insert-IsUnique k s r.drain_states unique), e))

  advance_server-other :
      (name k : String) (ds : ServerState) (r : FleetReconciler) (w : W)
      → str_eq k name ≡ false
      → lookup name (advance_server cl sessions now fleet k ds r w).0.drain_states
        ≡ lookup name r.drain_states
  advance_server-other name k ds r w other =
      let wrote : (s : ServerState)
          → lookup name (insert k s r.drain_states) ≡ lookup name r.drain_states =
        λ s. ground (arith, lookup-insert k name s r.drain_states, other) in
      advance_server_cases (λ r'. lookup name r'.drain_states ≡ lookup name r.drain_states) k ds r w
        refl wrote
        (λ s pool.
          lookup-erase_ne k name (insert k s r.drain_states) (λ e. cc (other, (eq_iff k name).1 e))
          ∙ wrote s)

  advance_servers-Fits :
      (d : Drainer) (states : Dict ServerState) (r : FleetReconciler) (w : W)
      → Fits d r
      → Fits d (advance_servers cl sessions now fleet states r w).0
  unfolding advance_servers
  advance_servers-Fits d [] r w f = f
  advance_servers-Fits d ((k, ds) ∷ states) r w f =
      advance_servers-Fits d states _ _ (advance_server-Fits d k ds r w f)

  pub advance_draining-Fits :
      (d : Drainer) (r : FleetReconciler) (w : W)
      → Fits d r
      → Fits d (advance_draining cl sessions now fleet r w).0
  unfolding advance_draining
  advance_draining-Fits d r w f = advance_servers-Fits d r.drain_states r w f

  pub advance_servers-other :
      (name : String) (states : Dict ServerState) (r : FleetReconciler) (w : W)
      → lookup name states ≡ none
      → lookup name (advance_servers cl sessions now fleet states r w).0.drain_states
        ≡ lookup name r.drain_states
  unfolding advance_servers lookup
  advance_servers-other name [] r w absent = refl
  advance_servers-other name ((k, ds) ∷ states) r w absent = elim (Bool-cases (str_eq k name)) [
    | inl same ↦ absurd (ground (arith, same, absent))
    | inr other ↦
        let (r', w') = advance_server cl sessions now fleet k ds r w in
        advance_servers-other name states r' w' (ground (arith, other, absent))
        ∙ advance_server-other name k ds r w other
  ]

  -- A call has the effect of the server's own turn on its drain.
  pub advance_servers-turn :
      (d : Drainer) (name : String) (s : ServerState) (P : Option ServerState → Type 0)
      → ((r : FleetReconciler) (w : W)
          → Fits d r
          → lookup name r.drain_states ≡ some s
          → P (lookup name (advance_server cl sessions now fleet name s r w).0.drain_states))
      → (states : Dict ServerState) (r : FleetReconciler) (w : W) → IsUnique states
      → lookup name states ≡ some s
      → Fits d r
      → lookup name r.drain_states ≡ some s
      → P (lookup name (advance_servers cl sessions now fleet states r w).0.drain_states)
  unfolding advance_servers lookup
  advance_servers-turn d name s P turn [] r w unique here f at = absurd (cc here)
  advance_servers-turn d name s P turn ((k, ds) ∷ states) r w unique here f at =
      elim (Bool-cases (str_eq k name)) [
        | inl same ↦
            let key : k ≡ name = (eq_iff k name).0 same in
            let state : ds ≡ s = ground (arith, same, here) in
            let (r', w') = advance_server cl sessions now fleet k ds r w in
            let absent : lookup name states ≡ none =
              subst (λ n. lookup n states ≡ none) key unique.0 in
            subst P (sym (advance_servers-other name states r' w' absent)) (
              subst
                (λ n.
                  P (lookup name (advance_server cl sessions now fleet n ds r w).0.drain_states))
                (sym key)
                (subst
                  (λ t.
                    P (
                      lookup name (advance_server cl sessions now fleet name t r w).0.drain_states))
                  (sym state) (turn r w f at)))
        | inr other ↦
            let (r', w') = advance_server cl sessions now fleet k ds r w in
            advance_servers-turn d name s P turn states r' w' unique.1 (ground (arith, other, here))
              (advance_server-Fits d k ds r w f) (advance_server-other name k ds r w other ∙ at)
      ]
