-- ===== src/Apiserver.antt =====
-- cmd/apiserver/main.go: the process behind the REST API, which serves requests, reconciles allocation
-- resources, and rebuilds its own pool from the labels of the pods, at its start and then every 30
-- seconds.
pub mod Sync
pub mod Ownership
pub mod Exclusive
pub mod Lifetime
use game_server_orchestrator.Prelude.{
  String, Bool, true, false, not, ◌&&◌, Option, none, some, List, [], ◌∷◌, if◌then◌else◌,
}
use game_server_orchestrator.Prelude.Int.{ℤ, pos}
use game_server_orchestrator.Prelude.Text.{str_eq}
use game_server_orchestrator.Prelude.Dict.{get_or}
use game_server_orchestrator.Prelude.Float.{Float64}
use game_server_orchestrator.V1alpha1.Fleet.{Pod}
use game_server_orchestrator.Pool.State.{PoolManager, new_pool_manager}
use game_server_orchestrator.Cluster.{Client, fleet_label}
use game_server_orchestrator.RateLimiter.{RateLimiter, new_rate_limiter}
use game_server_orchestrator.Director.Sync.{is_running, sync_server}
use game_server_orchestrator.Allocator.{Reply as AllocationReply, reconcile_allocation}
use game_server_orchestrator.Api.{Request, HttpReply, AllocateRequest, ReleaseRequest, serve_http}

-- `envOrStrApiserver`, of the value of the variable.
unfoldable pub env_or_str_apiserver : String → String → String
env_or_str_apiserver value fallback = if str_eq value "" then fallback else value

-- The rate limit, where `atoi` is strconv.Atoi.
unfoldable pub env_rate_limit : (String → Option ℤ) → String → ℤ → ℤ
env_rate_limit atoi value fallback =
    if str_eq value "" then fallback else elim (atoi value) [ none ↦ fallback | some n ↦ n ]

-- The settings of `main`.
pub record ApiSettings : Type 0 where
  pub api_addr : String
  pub metrics_addr : String
  pub rate_limit : ℤ
  pub tls_cert_file : String
  pub tls_key_file : String
  pub log_level : String

-- The flags as they are where the command line gives none.
abbrev pub default_api_settings : ApiSettings
default_api_settings = record {
  api_addr = ":8443";
  metrics_addr = ":8080";
  rate_limit = pos 100;
  tls_cert_file = "";
  tls_key_file = "";
  log_level = "";
}

-- The variables of the environment come before the flags; `env` is os.Getenv.
unfoldable pub apply_api_environment :
    (String → Option ℤ) → (String → String) → ApiSettings → ApiSettings
apply_api_environment atoi env s = record s {
  api_addr = env_or_str_apiserver (env "GFD_API_ADDR") s.api_addr;
  metrics_addr = env_or_str_apiserver (env "GFD_METRICS_ADDR") s.metrics_addr;
  rate_limit = env_rate_limit atoi (env "GFD_RATE_LIMIT") s.rate_limit;
  log_level = (if str_eq (env "GFD_LOG_LEVEL") "" then s.log_level else env "GFD_LOG_LEVEL");
}

-- Whether `Start` of the server speaks TLS.
unfoldable pub starts_tls : ApiSettings → Bool
starts_tls s = not (str_eq s.tls_cert_file "") && not (str_eq s.tls_key_file "")

-- The fleet of a pod, or the empty text.
abbrev pub label_fleet : Pod → String
label_fleet pod = get_or "" fleet_label pod.labels

-- The body of the loop of `syncPoolsFromLabels`.
unfoldable pub sync_labelled : ℤ → Pod → PoolManager → PoolManager
sync_labelled now pod pm =
    if is_running pod
    then (if str_eq (label_fleet pod) "" then pm else sync_server now (label_fleet pod) pod pm)
    else pm

unfoldable pub sync_all : ℤ → List Pod → PoolManager → PoolManager
sync_all now [] pm = pm
sync_all now (pod ∷ pods) pm = sync_all now pods (sync_labelled now pod pm)

-- What the process keeps, and the outside world.
pub record Process (W : Type 0) : Type 0 where
  pub limiter : Option RateLimiter
  pub pool : PoolManager
  pub world : W

-- `list_labelled` lists the pods of all namespaces that have the label of a fleet.
module _ {W : Type 0} (list_labelled : W → Option (List Pod) × W) where
  -- `syncPoolsFromLabels`; the result is `false` for an error.
  unfoldable pub sync_pools_from_labels : ℤ → PoolManager → W → Bool × (PoolManager × W)
  sync_pools_from_labels now pm w =
      let (pods, w') = list_labelled w in
      elim pods [ none ↦ (false, (pm, w')) | some items ↦ (true, (sync_all now items pm, w')) ]

  -- What `main` builds before it serves: the pool, the limiter, and the first sync.
  unfoldable pub start_process : ℤ → ApiSettings → W → Process W
  start_process now s w =
      let (synced, (pm, w')) = sync_pools_from_labels now new_pool_manager w in
      record { limiter = some (new_rate_limiter now s.rate_limit); pool = pm; world = w' }

  -- A tick of the process.
  unfoldable pub resync : ℤ → Process W → Process W
  resync now p =
      let (synced, (pm, w)) = sync_pools_from_labels now p.pool p.world in
      record p { pool = pm; world = w }

module _ {B W : Type 0} (cl : Client W) (decode_allocate : B → Option AllocateRequest)
    (decode_release : B → Option ReleaseRequest) {F : Type 0} ⦃fl : Float64 F⦄
    (seconds : ℤ → F) where
  -- A request to the process.
  unfoldable pub serve_request : ℤ → Request B → Process W → HttpReply × Process W
  serve_request now q p =
      let (answer, (limiter, (pm, w))) =
        serve_http cl now decode_allocate decode_release seconds q p.limiter p.pool p.world in
      (answer, record { limiter = limiter; pool = pm; world = w })

-- A reconciliation of an allocation resource, which this process does too.
unfoldable pub serve_allocation :
    {W : Type 0} → Client W → ℤ → String → String → Process W → AllocationReply × Process W
serve_allocation cl now ns req p =
    let (answer, (pm, w)) = reconcile_allocation cl now ns req p.pool p.world in
    (answer, record p { pool = pm; world = w })
