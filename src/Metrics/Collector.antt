-- ===== src/Metrics/Collector.antt =====
-- pkg/metrics/collector.go: the Prometheus metrics and what the controllers record in them. The
-- registry of the client library is a parameter; its methods are those of a vector of metrics at some
-- label values.
pub mod Totals
use game_server_orchestrator.Prelude.{
  String, ℕ, suc, ◌+◌, ◌≡◌, refl, sym, ap, ◌∙◌, subst, Bool, true, false, ◌&&◌, Option, none, some,
  List, [], ◌∷◌, length, arith, inl, inr, Bool-cases, ◌==◌, if◌then◌else◌,
}
use game_server_orchestrator.Prelude.Int.{ℤ}
use game_server_orchestrator.Prelude.Float.{Float64}
use game_server_orchestrator.Prelude.Text.{str_eq, eq_iff}

-- The variables of the package.
pub data Metric : Type 0 where
  fleet_replicas fleet_players_total fleet_buffer_available : Metric
  scale_up_total scale_down_total allocation_total : Metric
  allocation_latency drain_duration reconcile_duration : Metric
  circuit_breaker_triggered reconcile_errors : Metric

unfoldable pub metric_name : Metric → String
metric_name fleet_replicas = "gfd_fleet_replicas"
metric_name fleet_players_total = "gfd_fleet_players_total"
metric_name fleet_buffer_available = "gfd_fleet_buffer_available"
metric_name scale_up_total = "gfd_scale_up_total"
metric_name scale_down_total = "gfd_scale_down_total"
metric_name allocation_total = "gfd_allocation_total"
metric_name allocation_latency = "gfd_allocation_latency_seconds"
metric_name drain_duration = "gfd_drain_duration_seconds"
metric_name reconcile_duration = "gfd_reconcile_duration_seconds"
metric_name circuit_breaker_triggered = "gfd_circuit_breaker_triggered"
metric_name reconcile_errors = "gfd_reconcile_errors_total"

unfoldable pub label_names : Metric → List String
label_names fleet_replicas = "fleet" ∷ "namespace" ∷ []
label_names fleet_players_total = "fleet" ∷ "namespace" ∷ []
label_names fleet_buffer_available = "fleet" ∷ "namespace" ∷ []
label_names scale_up_total = "fleet" ∷ "namespace" ∷ []
label_names scale_down_total = "fleet" ∷ "namespace" ∷ []
label_names allocation_total = "fleet" ∷ "strategy" ∷ "phase" ∷ []
label_names allocation_latency = "fleet" ∷ "strategy" ∷ []
label_names drain_duration = "fleet" ∷ []
label_names reconcile_duration = "controller" ∷ []
label_names circuit_breaker_triggered = "fleet" ∷ "namespace" ∷ []
label_names reconcile_errors = "controller" ∷ []

-- WithLabelValues of a variable, and then Inc, Set or Observe; `none` is a panic.
pub record Registry (F R : Type 0) : Type 0 where
  pub inc : Metric → List String → R → Option R
  pub set : Metric → List String → F → R → Option R
  pub observe : Metric → List String → F → R → Option R

infixl 5 ◌>>=◌
abbrev ◌>>=◌ : {A B : Type 0} → Option A → (A → Option B) → Option B
none >>= f = none
some a >>= f = f a

module _ {F : Type 0} ⦃fl : Float64 F⦄ {R : Type 0} (reg : Registry F R) where
  -- `SetFleetMetrics`
  unfoldable pub set_fleet_metrics : String → String → ℤ → ℤ → ℤ → R → Option R
  set_fleet_metrics fleet ns replicas players buffer w = do
    w₁ ← reg.set fleet_replicas (fleet ∷ ns ∷ []) (fl.of_int replicas) w
    w₂ ← reg.set fleet_players_total (fleet ∷ ns ∷ []) (fl.of_int players) w₁
    reg.set fleet_buffer_available (fleet ∷ ns ∷ []) (fl.of_int buffer) w₂

  -- `RecordScaleUp`
  unfoldable pub record_scale_up_metric : String → String → R → Option R
  record_scale_up_metric fleet ns = reg.inc scale_up_total (fleet ∷ ns ∷ [])

  -- `RecordScaleDown`
  unfoldable pub record_scale_down_metric : String → String → R → Option R
  record_scale_down_metric fleet ns = reg.inc scale_down_total (fleet ∷ ns ∷ [])

  -- `RecordAllocation`
  unfoldable pub record_allocation : String → String → String → F → R → Option R
  record_allocation fleet strategy phase seconds w = do
    w₁ ← reg.inc allocation_total (fleet ∷ strategy ∷ phase ∷ []) w
    reg.observe allocation_latency (fleet ∷ strategy ∷ []) seconds w₁

-- A call of one of the four functions.
pub data Recorded (F : Type 0) : Type 0 where
  fleet_figures : String → String → ℤ → ℤ → ℤ → Recorded F
  scaled_up scaled_down : String → String → Recorded F
  allocation : String → String → String → F → Recorded F

module _ {F : Type 0} ⦃fl : Float64 F⦄ {R : Type 0} (reg : Registry F R) where
  unfoldable pub record_one : Recorded F → R → Option R
  record_one (fleet_figures fleet ns replicas players buffer) =
      set_fleet_metrics reg fleet ns replicas players buffer
  record_one (scaled_up fleet ns) = record_scale_up_metric reg fleet ns
  record_one (scaled_down fleet ns) = record_scale_down_metric reg fleet ns
  record_one (allocation fleet strategy phase seconds) =
      record_allocation reg fleet strategy phase seconds

  unfoldable pub record_all : List (Recorded F) → R → Option R
  record_all [] w = some w
  record_all (c ∷ cs) w = record_one c w >>= record_all cs
