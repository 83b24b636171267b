-- ===== src/Controller.antt =====
-- cmd/controller/main.go: the process that reconciles fleets and allocations, and what it is built
-- of. The flags are parsed before; `env` is os.Getenv, with the empty text for a variable that is not
-- set.
pub mod Runs
use game_server_orchestrator.Prelude.{
  String, Bool, true, Option, none, some, List, [], map, if◌then◌else◌,
}
use game_server_orchestrator.Prelude.Int.{ℤ, pos}
use game_server_orchestrator.Prelude.Text.{str_eq, ◌<>◌}
use game_server_orchestrator.Prelude.Dict.{Dict}
use game_server_orchestrator.Prelude.Float.{Float64}
use game_server_orchestrator.Prelude.Result.{Result}
use game_server_orchestrator.V1alpha1.Policy.{AutoscalerPolicySpec, DrainConfig}
use game_server_orchestrator.V1alpha1.Fleet.{GameServerFleet, Endpoint}
use game_server_orchestrator.Pool.State.{new_pool_manager}
use game_server_orchestrator.Drainer.{ServerState, SessionAnswer, new_drainer}
use game_server_orchestrator.Drainer.Sessions.{active_sessions, to_answer}
use game_server_orchestrator.Health.{NodeHealth, NodeAnswer, NhwClient, get_node_health}
use game_server_orchestrator.Web.{Web}
use game_server_orchestrator.Metrics.Collector.{Recorded}
use game_server_orchestrator.Metrics.{GameServerMetrics, new_scraper, scrape_fleet}
use game_server_orchestrator.Notifier.{Json, notify_scaling_event}
use game_server_orchestrator.Scaler.{Reason}
use game_server_orchestrator.Breaker.{new_breaker}
use game_server_orchestrator.Cluster.{Client, GetError}
use game_server_orchestrator.Director.{FleetReconciler}
use game_server_orchestrator.Director.Decision.{Services, AggregatedMetrics}

-- The settings of `main`. The period of the resync is only logged.
pub record Settings : Type 0 where
  pub metrics_addr : String
  pub namespace : String
  pub resync_period : ℤ
  pub leader_elect : Bool
  pub nhw_endpoint : String
  pub nhw_timeout : ℤ
  pub notify_feishu_url : String
  pub notify_dingtalk_url : String
  pub log_level : String

-- The flags as they are where the command line gives none.
abbrev pub default_settings : Settings
default_settings = record {
  metrics_addr = ":8080";
  namespace = "game-fleet-system";
  resync_period = pos 15000000000;
  leader_elect = true;
  nhw_endpoint = "";
  nhw_timeout = pos 10000000000;
  notify_feishu_url = "";
  notify_dingtalk_url = "";
  log_level = "info";
}

module _ (env : String → String) where
  unfoldable pub env_or_str : String → String → String
  env_or_str var fallback = if str_eq (env var) "" then fallback else env var

  -- `envOrDur` and `envOrBool`, whose parsers are time.ParseDuration and strconv.ParseBool.
  unfoldable pub env_or_parsed : {A : Type 0} → (String → Option A) → String → A → A
  env_or_parsed parse var fallback =
      if str_eq (env var) ""
      then fallback
      else elim (parse (env var)) [ none ↦ fallback | some value ↦ value ]

  module _ (parse_duration : String → Option ℤ) (parse_bool : String → Option Bool) where
    -- The variables of the environment come before the flags.
    unfoldable pub apply_environment : Settings → Settings
    apply_environment s = record {
      metrics_addr = env_or_str "GFD_METRICS_ADDR" s.metrics_addr;
      namespace = env_or_str "GFD_NAMESPACE" s.namespace;
      resync_period = env_or_parsed parse_duration "GFD_RESYNC_PERIOD" s.resync_period;
      leader_elect = env_or_parsed parse_bool "GFD_LEADER_ELECT" s.leader_elect;
      nhw_endpoint = env_or_str "GFD_NHW_ENDPOINT" s.nhw_endpoint;
      nhw_timeout = env_or_parsed parse_duration "GFD_NHW_TIMEOUT" s.nhw_timeout;
      notify_feishu_url = env_or_str "GFD_NOTIFY_FEISHU_URL" s.notify_feishu_url;
      notify_dingtalk_url = env_or_str "GFD_NOTIFY_DINGTALK_URL" s.notify_dingtalk_url;
      log_level = env_or_str "GFD_LOG_LEVEL" s.log_level;
    }

-- The provider of the node filter.
unfoldable pub node_provider : Settings → Option NhwClient
node_provider s =
    if str_eq s.nhw_endpoint "" then none else some (record { endpoint = s.nhw_endpoint })

-- The drain settings of every fleet.
abbrev pub default_drain : DrainConfig
default_drain = record {
  timeout_seconds = pos 600;
  interval_seconds = pos 30;
  force_after_seconds = pos 1800;
}

-- The reconciler of fleets at the start of the process.
unfoldable pub new_fleet_reconciler : FleetReconciler
new_fleet_reconciler = record {
  pool = new_pool_manager;
  drainer = new_drainer default_drain;
  breaker = new_breaker;
  cooldowns = record { last_scale_up_at = []; last_scale_down_at = [] };
  drain_states = [];
}

-- What the encoders, decoders and printers of the standard library do.
pub record Codecs (F B : Type 0) : Type 0 where
  pub show_int : ℤ → String
  pub format_time : ℤ → String
  pub show_reason : Reason → String
  pub marshal : Json → Option B
  pub decode_metrics : B → Option (GameServerMetrics F)
  pub decode_sessions : B → Option ℤ
  pub decode_nodes : B → Option (Dict NodeHealth)

-- The calls of the Kubernetes API for fleets and policies.
pub record Resources (F W : Type 0) : Type 0 where
  pub get_fleet : String → String → W → Result GetError GameServerFleet × W
  pub get_policy : String → String → W → Option (AutoscalerPolicySpec F) × W
  pub update_fleet : GameServerFleet → String → W → Bool × W
  -- The recording functions of Metrics/Collector, and the metrics that `Reconcile` updates itself.
  pub records : Recorded F → W → W
  pub count_trip : String → W → W
  pub observe_reconcile : W → W

module _ {F : Type 0} ⦃fl : Float64 F⦄ {B W : Type 0} (web : Web B W) (codecs : Codecs F B) where
  -- An endpoint as `metricsEndpoint` prints it.
  unfoldable pub address : Endpoint → String
  address e = e.host <> ":" <> codecs.show_int e.port

  unfoldable pub scraped : List Endpoint → W → Option (AggregatedMetrics F) × W
  scraped endpoints w =
      let (agg, w') =
        scrape_fleet web codecs.decode_metrics new_scraper (map address endpoints) w in
      (
        some (record {
          total_players = agg.total_players;
          avg_cpu = agg.avg_cpu;
          avg_memory_mb = agg.avg_memory_mb;
        }),
        w',
      )

  unfoldable pub node_answer : Settings → W → Option NodeAnswer
  node_answer s w = elim (node_provider s) [
    | none ↦ none
    | some c ↦ some (get_node_health web codecs.decode_nodes c w).0
  ]

  unfoldable pub session_answer : W → ServerState → SessionAnswer
  session_answer w ds =
      to_answer (active_sessions web codecs.decode_sessions (address ds.endpoint) w).0

  -- What the fleet reconciler works with.
  unfoldable pub fleet_services : Settings → Client W → Resources F W → Services F W
  fleet_services s cl resources = record {
    client = cl;
    get_fleet = resources.get_fleet;
    get_policy = resources.get_policy;
    scrape_fleet = scraped;
    nodes = node_answer s;
    sessions = session_answer;
    update_fleet = resources.update_fleet;
    records = resources.records;
    count_trip = resources.count_trip;
    observe_reconcile = resources.observe_reconcile;
    show_reason = codecs.show_reason;
    notify = some (
        notify_scaling_event web codecs.marshal codecs.show_int codecs.format_time
          (record { feishu_url = s.notify_feishu_url; dingtalk_url = s.notify_dingtalk_url }));
  }
