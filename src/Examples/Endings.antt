-- ===== src/Examples/Endings.antt =====
-- Tests of drains over several calls.
use game_server_orchestrator.Prelude.{◌≡◌, refl, false, true, some, [], ◌∷◌, arith}
use game_server_orchestrator.Prelude.Int.{pos, ◌-ℤ◌}
use game_server_orchestrator.Prelude.Dict.{lookup}
use game_server_orchestrator.V1alpha1.Fleet.{Endpoint}
use game_server_orchestrator.Drainer.{
  Drainer, ServerState, SessionAnswer, drain, forced, start_drain,
}
use game_server_orchestrator.Drainer.Due.{IsDue}
use game_server_orchestrator.Cluster.{Client}
use game_server_orchestrator.Director.{FleetReconciler}
use game_server_orchestrator.Director.Draining.{advance_draining}
use game_server_orchestrator.Director.Endings.{drains}
use game_server_orchestrator.Director.Endings.Stuck.{refused_drain_sticks}
use game_server_orchestrator.Controller.{new_fleet_reconciler}
use game_server_orchestrator.Examples.{arena, cluster, fleet_of}

abbrev slow : Drainer
slow = record { timeout = pos 60; interval = pos 10; force_time = pos 600 }

abbrev host : Endpoint
host = record { host = "10.0.0.1"; port = pos 8080 }

-- Seven sessions, at all times.
abbrev crowded : {W : Type 0} → W → ServerState → SessionAnswer
crowded w s = some (pos 7)

abbrev begun : FleetReconciler
begun = record new_fleet_reconciler {
  pool = arena;
  drainer = slow;
  drain_states =
      ("b", start_drain slow (pos 90) "b" host) ∷ ("a", start_drain slow (pos 100) "a" host) ∷ [];
}

abbrev overdue : ServerState
overdue = record {
  name = "a";
  endpoint = host;
  phase = drain;
  active_sessions = pos 7;
  entered_at = pos 100;
  last_checked_at = pos 690;
  forced_deadline = pos 700;
}

abbrev waiting : FleetReconciler
waiting = record begun { drain_states = ("a", overdue) ∷ [] }

abbrev refusing : Client Unit
refusing = record (cluster true true) { delete_pod = λ ns name w. (false, w) }

is_due : IsDue slow (pos 701) overdue
unfolding ◌-ℤ◌
is_due = record { draining = refl; late = omega arith; rested = omega arith }

refused_drain_sticks_example :
    lookup "a"
      (drains
        (cluster true true)
        crowded
        (fleet_of (pos 2) (pos 2))
        (pos 720 ∷ pos 100000 ∷ [])
        (advance_draining refusing crowded (pos 701) (fleet_of (pos 2) (pos 2)) waiting tt).0
        tt).0.drain_states
    ≡ some (record overdue { phase = forced })
unfolding lookup
refused_drain_sticks_example =
    refused_drain_sticks refusing (cluster true true) crowded crowded (fleet_of (pos 2) (pos 2))
      (fleet_of (pos 2) (pos 2)) "a" (pos 701) (pos 720 ∷ pos 100000 ∷ []) overdue waiting tt tt
      (λ w. refl) (refl, tt) refl (omega arith) is_due
