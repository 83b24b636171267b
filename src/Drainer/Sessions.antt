-- ===== src/Drainer/Sessions.antt =====
-- pkg/drainer/session_tracker.go: the query for the sessions of a game server.
use game_server_orchestrator.Prelude.{String, Option, none, some}
use game_server_orchestrator.Prelude.Int.{ℤ}
use game_server_orchestrator.Prelude.Text.{◌<>◌}
use game_server_orchestrator.Prelude.Result.{Result, ok, err}
use game_server_orchestrator.Web.{Web, FetchError, get_json}
use game_server_orchestrator.Drainer.{SessionAnswer}

module _ {B W : Type 0} (web : Web B W) (decode : B → Option ℤ) where
  -- `ActiveSessions`, where `decode` reads the number of a `sessionResponse`.
  unfoldable pub active_sessions : String → W → Result FetchError ℤ × W
  active_sessions endpoint w = get_json web decode ("http://" <> endpoint <> "/api/v1/sessions") w

-- What the drain protocol reads of the answer.
abbrev pub to_answer : Result FetchError ℤ → SessionAnswer
to_answer (ok sessions) = some sessions
to_answer (err e) = none
