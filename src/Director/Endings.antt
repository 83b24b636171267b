-- ===== src/Director/Endings.antt =====
-- What calls of advanceDraining make of the drain of one server.
pub mod Frame
pub mod Stuck
use game_server_orchestrator.Prelude.{
  ◌≡◌, ◌⊎◌, sym, ap, subst, Bool, Option, none, some, List, [], ◌∷◌, arith,
}
use game_server_orchestrator.Prelude.Int.{ℤ, ltb_ℤ, leb_ℤ, eqb_ℤ}
use game_server_orchestrator.Prelude.Dict.{Dict}
use game_server_orchestrator.V1alpha1.Fleet.{GameServerFleet}
use game_server_orchestrator.Drainer.{Drainer, ServerState, SessionAnswer, forced}
use game_server_orchestrator.Drainer.Due.{IsDue}
use game_server_orchestrator.Cluster.{Client}
use game_server_orchestrator.Director.{FleetReconciler}
use game_server_orchestrator.Director.Draining.{advance_servers, advance_draining}

-- What is left of such a drain: nothing, or a drain that is still due.
abbrev Ends : Drainer → ℤ → Option ServerState → Type 0
Ends d now left = (left ≡ none) ⊎ ((s : ServerState) × (left ≡ some s) × IsDue d now s)

module _ {W : Type 0} (cl : Client W) (sessions : W → ServerState → SessionAnswer)
    (fleet : GameServerFleet) where
  -- Calls of advanceDraining, at these times.
  unfoldable pub drains : List ℤ → FleetReconciler → W → FleetReconciler × W
  drains [] r w = (r, w)
  drains (now ∷ later) r w =
      let (r', w') = advance_draining cl sessions now fleet r w in drains later r' w'
