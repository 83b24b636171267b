-- ===== src/Drainer.antt =====
-- pkg/drainer/drainer.go: the drain protocol of one server. Times and durations are in
-- nanoseconds, a time as the distance from Go's zero time; `Sub` is taken as exact, where Go
-- caps a difference at 292 years.
pub mod Machine
pub mod Safety
pub mod Due
pub mod Sessions
use game_server_orchestrator.Prelude.{
  String, Bool, true, false, not, ◌&&◌, Option, none, some, if◌then◌else◌,
}
use game_server_orchestrator.Prelude.Int.{ℤ, pos, ◌+ℤ◌, ◌-ℤ◌, ◌*ℤ◌, ltb_ℤ, leb_ℤ, eqb_ℤ}
use game_server_orchestrator.Prelude.Result.{Result, ok, err}
use game_server_orchestrator.V1alpha1.Fleet.{Endpoint}
use game_server_orchestrator.V1alpha1.Policy.{DrainConfig}

pub data DrainPhase : Type 0 where
  cordon drain decommission done forced : DrainPhase

pub record ServerState : Type 0 where
  pub name : String
  pub endpoint : Endpoint
  pub phase : DrainPhase
  pub active_sessions : ℤ
  pub entered_at : ℤ
  pub last_checked_at : ℤ
  pub forced_deadline : ℤ

-- `Drainer` without its querier, which the methods take as an argument.
pub record Drainer : Type 0 where
  pub timeout : ℤ
  pub interval : ℤ
  pub force_time : ℤ

-- time.Second
abbrev pub second : ℤ
second = pos 1000000000

-- `New`. An int32 number of seconds in nanoseconds fits a Duration.
unfoldable pub new_drainer : DrainConfig → Drainer
new_drainer policy = record {
  timeout = policy.timeout_seconds *ℤ second;
  interval = policy.interval_seconds *ℤ second;
  force_time = policy.force_after_seconds *ℤ second;
}

-- `StartDrain`
unfoldable pub start_drain : Drainer → ℤ → String → Endpoint → ServerState
start_drain d now server_name endpoint = record {
  name = server_name;
  endpoint = endpoint;
  phase = cordon;
  active_sessions = pos 0;
  entered_at = now;
  last_checked_at = now;
  forced_deadline = now +ℤ d.force_time;
}

-- The answer of a session query: the number of sessions, or a failure of the query.
abbrev pub SessionAnswer : Type 0
SessionAnswer = Option ℤ

-- The case of `PhaseDrain` in `Advance`. The result is `none` for an error, else whether the
-- server is ready for its decommission.
unfoldable pub advance_drain : Drainer → ℤ → SessionAnswer → ServerState → Option Bool × ServerState
advance_drain d now answer s =
    if ltb_ℤ (pos 0) d.force_time && ltb_ℤ s.forced_deadline now
    then (some true, record s { phase = forced })
    else elim answer [
      | none ↦ (none, s)
      | some count ↦
          if eqb_ℤ count (pos 0) && leb_ℤ d.timeout (now -ℤ s.entered_at)
          then (
            some true,
            record s { active_sessions = count; last_checked_at = now; phase = decommission },
          )
          else (some false, record s { active_sessions = count; last_checked_at = now })
    ]

pub advance_phase :
    DrainPhase → Drainer → ℤ → SessionAnswer → ServerState → Option Bool × ServerState
unfolding advance_drain
advance_phase cordon d now answer s =
    (some false, record s { phase = drain; last_checked_at = now })
advance_phase drain d now answer s = advance_drain d now answer s
advance_phase decommission d now answer s = (some true, record s { phase = done })
advance_phase forced d now answer s = (some true, record s { phase = done })
advance_phase done d now answer s = (some false, s)

-- `Advance`, with the answer that a query in this call would get.
unfoldable pub advance : Drainer → ℤ → SessionAnswer → ServerState → Option Bool × ServerState
unfolding advance_phase
advance d now answer s = advance_phase s.phase d now answer s

is_drain : DrainPhase → Bool
is_drain drain = true
is_drain _ = false

-- `ShouldCheck`
unfoldable pub should_check : Drainer → ℤ → ServerState → Bool
unfolding is_drain
should_check d now s =
    if not (is_drain s.phase) then false else leb_ℤ d.interval (now -ℤ s.last_checked_at)
