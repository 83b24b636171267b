-- ===== src/Examples/Drains.antt =====
-- Tests of the drain protocol.
use game_server_orchestrator.Prelude.{◌≡◌, ◌⊎◌, ◌↔◌, refl, none, some, true, false}
use game_server_orchestrator.Prelude.Int.{ℤ, pos, ◌+ℤ◌, ◌-ℤ◌, ◌≤ℤ◌, ◌<ℤ◌}
use game_server_orchestrator.V1alpha1.Fleet.{Endpoint}
use game_server_orchestrator.Drainer.{Drainer, ServerState, drain, start_drain, advance}
use game_server_orchestrator.Drainer.Safety.{Draining, begun, polled, drain_ready_iff}

abbrev slow : Drainer
slow = record { timeout = pos 60; interval = pos 10; force_time = pos 600 }

abbrev host : Endpoint
host = record { host = "10.0.0.1"; port = pos 8080 }

abbrev state_at : ℤ → ServerState
state_at checked = record {
  name = "a";
  endpoint = host;
  phase = drain;
  active_sessions = pos 0;
  entered_at = pos 100;
  last_checked_at = checked;
  forced_deadline = pos 700;
}

-- Begun at 100, and checked at 110.
under_way : Draining slow (start_drain slow (pos 100) "a" host) (state_at (pos 110))
unfolding start_drain advance ◌+ℤ◌
under_way = polled (pos 110) none (some false) begun refl (λ e. cc e)

drain_ready_iff_example :
    ((advance slow (pos 160) (some (pos 0)) (state_at (pos 110))).0 ≡ some true) ↔ (
      ((state_at (pos 110)).phase ≡ drain)
      × (((pos 0 <ℤ slow.force_time) × (pos 100 +ℤ slow.force_time <ℤ pos 160))
          ⊎ ((some (pos 0) ≡ some (pos 0)) × (slow.timeout ≤ℤ pos 160 -ℤ pos 100))))
drain_ready_iff_example = drain_ready_iff slow (pos 100) (pos 160) "a" host (some (pos 0)) under_way

empty_at_160 : (advance slow (pos 160) (some (pos 0)) (state_at (pos 110))).0 ≡ some true
unfolding advance ◌-ℤ◌
empty_at_160 = refl

fails_at_120 : (advance slow (pos 120) none (state_at (pos 110))).0 ≡ none
unfolding advance
fails_at_120 = refl
