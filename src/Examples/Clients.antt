-- ===== src/Examples/Clients.antt =====
-- Tests of the HTTP clients.
use game_server_orchestrator.Prelude.{
  ℕ, suc, ◌<◌, ◌+◌, String, ◌≡◌, ◌↔◌, refl, true, false, none, some, List, [], ◌∷◌, ◌++◌, length,
  ltb, if◌then◌else◌,
}
use game_server_orchestrator.Prelude.Int.{ℤ, pos}
use game_server_orchestrator.Web.{Web}
use game_server_orchestrator.Warmer.{Context, Warmer, ready, new_warmer, wait_until_ready}
use game_server_orchestrator.Warmer.Polling.{Polls, IsServing, health_url, wait_until_ready-Polls}
use game_server_orchestrator.Warmer.Budget.{
  counting, counting_context, IsWithin, wait_until_ready_bounded,
}
use game_server_orchestrator.Metrics.{GameServerMetrics, new_scraper, scrape_fleet}
use game_server_orchestrator.Metrics.Aggregate.{
  Aggregates, HasMeans, successes, results, scrape_fleet-Aggregates,
}
use game_server_orchestrator.Notifier.{
  Notifier, ScalingEvent, Json, feishu_payload, dingtalk_payload, notify_scaling_event,
}
use game_server_orchestrator.Notifier.Delivery.{
  recording, delivered, message_of, notify_scaling_event-recording,
}
use game_server_orchestrator.Examples.{hundredths}

-- A server that is ready at the third request; the world counts them.
abbrev third_time : Web Unit ℕ
third_time = record {
  builds = λ url. true;
  get = λ url w.
      (some (record { status_code = if ltb w 2 then pos 503 else pos 200; body = tt }), suc w);
  post = λ url body w. (none, w);
}

abbrev patient : Context ℕ
patient = record { done = λ w. false; wait = λ backoff w. (false, w) }

becomes_ready :
    (wait_until_ready third_time patient (new_warmer "/healthz") "10.0.0.1:8080" 0).0 ≡ ready
unfolding wait_until_ready game_server_orchestrator.Warmer.poll new_warmer
    game_server_orchestrator.Warmer.is_ready
becomes_ready = refl

wait_until_ready-Polls_example :
    ((wait_until_ready third_time patient (new_warmer "/healthz") "10.0.0.1:8080" 0).0 ≡ ready) ↔ (
      (n : ℕ) × (w' : ℕ) × (n < (new_warmer "/healthz").retry_max)
      × Polls third_time patient
          (new_warmer "/healthz").retry_backoff
          (health_url (new_warmer "/healthz") "10.0.0.1:8080")
          n
          0
          w'
      × IsServing third_time patient
          (new_warmer "/healthz").retry_backoff
          (health_url (new_warmer "/healthz") "10.0.0.1:8080")
          w')
wait_until_ready-Polls_example =
    wait_until_ready-Polls third_time patient (new_warmer "/healthz") "10.0.0.1:8080" 0 refl

wait_until_ready_bounded_example :
    let run =
      wait_until_ready
        (counting third_time)
        (counting_context patient)
        (new_warmer "/healthz")
        "10.0.0.1:8080"
        (0, (0, 0)) in
    ((run.0, run.1.0)
      ≡ wait_until_ready third_time patient (new_warmer "/healthz") "10.0.0.1:8080" 0)
    × IsWithin (new_warmer "/healthz").retry_max (0, 0) run.1.1
wait_until_ready_bounded_example =
    wait_until_ready_bounded third_time patient (new_warmer "/healthz") "10.0.0.1:8080" 0

abbrev sample : GameServerMetrics ℤ
sample = record {
  players = pos 7;
  cpu_percent = pos 2500;
  memory_mb = pos 51200;
  alloc_rate = pos 0;
}

-- The first server answers, and the others do not.
abbrev first_only : Web Unit ℕ
first_only = record {
  builds = λ url. true;
  get = λ url w.
      ((if ltb w 1 then some (record { status_code = pos 200; body = tt }) else none), suc w);
  post = λ url body w. (none, w);
}

abbrev two_endpoints : List String
two_endpoints = "10.0.0.1:8080" ∷ "10.0.0.2:8080" ∷ []

scrape_fleet-Aggregates_example :
    let (rs, final) =
      results ⦃fl = hundredths⦄ first_only (λ b. some sample) new_scraper two_endpoints 0 in
    let (agg, after) =
      scrape_fleet ⦃fl = hundredths⦄ first_only (λ b. some sample) new_scraper two_endpoints 0 in
    Aggregates ⦃fl = hundredths⦄ agg rs
    × HasMeans ⦃fl = hundredths⦄ agg
    × (length (successes rs) + length agg.errors ≡ length two_endpoints)
    × (after ≡ final)
scrape_fleet-Aggregates_example =
    scrape_fleet-Aggregates ⦃fl = hundredths⦄ first_only (λ b. some sample) new_scraper
      two_endpoints 0

abbrev frozen_event : ScalingEvent
frozen_event = record {
  timestamp = pos 0;
  fleet = "arena";
  namespace = "default";
  decision = "FROZEN";
  current_replicas = pos 2;
  desired_replicas = pos 2;
  reason = "too few healthy nodes";
  nodes = [];
}

abbrev channels : Notifier
channels = record { feishu_url = "https://feishu"; dingtalk_url = "https://dingtalk" }

-- Posts fail, and a body is a payload.
abbrev first_json : Web Json ℕ
first_json = record {
  builds = λ url. true;
  get = λ url w. (none, w);
  post = λ url body w. (none, suc w);
}

notify_scaling_event-recording_example :
    let msg = message_of (λ n. "2") (λ t. "now") frozen_event in
    (notify_scaling_event
      (recording first_json)
      some
      (λ n. "2")
      (λ t. "now")
      channels
      frozen_event
      ([], 0)).0
    ≡ []
      ++ delivered first_json some "https://feishu" (feishu_payload msg)
      ++ delivered first_json some "https://dingtalk" (dingtalk_payload msg)
notify_scaling_event-recording_example =
    notify_scaling_event-recording first_json some (λ n. "2") (λ t. "now") channels frozen_event []
      0
