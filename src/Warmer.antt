-- ===== src/Warmer.antt =====
-- pkg/pool/warmer.go: the wait for a new game server.
pub mod Polling
pub mod Budget
use game_server_orchestrator.Prelude.{
  ℕ, zero, suc, String, Bool, true, false, Option, none, some, if◌then◌else◌,
}
use game_server_orchestrator.Prelude.Int.{ℤ, pos, ◌*ℤ◌, eqb_ℤ}
use game_server_orchestrator.Prelude.Text.{◌<>◌}
use game_server_orchestrator.Drainer.{second}
use game_server_orchestrator.Web.{Web, Response, status_ok}

pub record Warmer : Type 0 where
  pub health_endpoint : String
  pub retry_max : ℕ
  pub retry_backoff : ℤ

-- `NewWarmer`, whose timeout is the client's.
unfoldable pub new_warmer : String → Warmer
new_warmer health_path = record {
  health_endpoint = health_path;
  retry_max = 30;
  retry_backoff = pos 2 *ℤ second;
}

-- The context of a call: whether it is done, and the wait for it or for a timer, whichever comes
-- first; `true` is the context.
pub record Context (W : Type 0) : Type 0 where
  pub done : W → Bool
  pub wait : ℤ → W → Bool × W

-- How a wait ends; only `ready` is no error.
pub data WaitOutcome : Type 0 where
  ready cancelled not_built gave_up : WaitOutcome

unfoldable pub is_ready : {B : Type 0} → Option (Response B) → Bool
is_ready none = false
is_ready (some resp) = eqb_ℤ resp.status_code status_ok

module _ {B W : Type 0} (web : Web B W) (ctx : Context W) (backoff : ℤ) (url : String) where
  -- The loop, with the tries that are left.
  unfoldable pub poll : ℕ → W → WaitOutcome × W
  poll zero w = (gave_up, w)
  poll (suc tries) w =
      let (resp, w') = web.get url w in
      let (ended, w'') = ctx.wait backoff w' in
      let rest = poll tries w'' in
      if ctx.done w
      then (cancelled, w)
      else if web.builds url
      then (if is_ready resp then (ready, w') else if ended then (cancelled, w'') else rest)
      else (not_built, w)

-- `WaitUntilReady`
unfoldable pub wait_until_ready :
    {B W : Type 0} → Web B W → Context W → Warmer → String → W → WaitOutcome × W
wait_until_ready web ctx warmer endpoint w =
    poll web ctx warmer.retry_backoff ("http://" <> endpoint <> warmer.health_endpoint)
      warmer.retry_max w
