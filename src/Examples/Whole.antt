-- ===== src/Examples/Whole.antt =====
-- A test of a whole reconciliation of a fleet.
use game_server_orchestrator.Prelude.{◌≡◌, refl, String, sym, ap, true, none, some}
use game_server_orchestrator.Prelude.Int.{ℤ, pos}
use game_server_orchestrator.Prelude.Result.{Result, ok, err}
use game_server_orchestrator.V1alpha1.Fleet.{GameServerFleet}
use game_server_orchestrator.Pool.State.{server_of}
use game_server_orchestrator.Pool.Invariant.{IsValid, run-new-IsValid}
use game_server_orchestrator.Cluster.{GetError}
use game_server_orchestrator.Director.{FleetReconciler}
use game_server_orchestrator.Director.Decision.{Services}
use game_server_orchestrator.Director.Reconcile.{reconcile}
use game_server_orchestrator.Director.Whole.{reconcile-others}
use game_server_orchestrator.Controller.{new_fleet_reconciler}
use game_server_orchestrator.Examples.{arena, setup, cluster, fleet_of, hundredths, policy}

abbrev pub services : Services ℤ Unit
services = record {
  client = cluster true true;
  get_fleet = λ ns name w. (ok (fleet_of (pos 2) (pos 2)), w);
  get_policy = λ ns name w. (some policy, w);
  scrape_fleet = λ endpoints w.
      (some (record { total_players = pos 9; avg_cpu = pos 2500; avg_memory_mb = pos 51200 }), w);
  nodes = λ w. none;
  sessions = λ w ds. some (pos 0);
  update_fleet = λ fleet condition w. (true, w);
  records = λ call w. w;
  count_trip = λ fleet w. w;
  observe_reconcile = λ w. w;
  show_reason = λ reason. "";
  notify = none;
}

abbrev running : FleetReconciler
running = record new_fleet_reconciler { pool = arena }

-- The name of the fleet of an answer.
abbrev name_of : Result GetError GameServerFleet → String
name_of (ok fleet) = fleet.name
name_of (err e) = ""

reconcile-others_example :
    IsValid (reconcile ⦃fl = hundredths⦄ services (pos 100) "default" "arena" running tt).1.0.pool
    × (server_of
          (reconcile ⦃fl = hundredths⦄ services (pos 100) "default" "arena" running tt).1.0.pool
          "lobby"
          "a"
        ≡ server_of arena "lobby" "a")
reconcile-others_example =
    reconcile-others ⦃fl = hundredths⦄ services (pos 100) "default" "arena" running tt "lobby" "a"
      (λ fleet e. sym (ap name_of e)) (run-new-IsValid setup) refl
