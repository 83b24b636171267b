-- ===== src/Metrics.antt =====
-- pkg/metrics/scraper.go: the figures that the game servers report.
pub mod Aggregate
pub mod Collector
use game_server_orchestrator.Prelude.{
  String, Option, none, some, List, [], ◌∷◌, ◌++◌, if◌then◌else◌,
}
use game_server_orchestrator.Prelude.Int.{ℤ, pos, ltb_ℤ}
use game_server_orchestrator.Prelude.Int32.{add32}
use game_server_orchestrator.Prelude.Text.{◌<>◌}
use game_server_orchestrator.Prelude.Float.{Float64}
use game_server_orchestrator.Prelude.Result.{Result, ok, err}
use game_server_orchestrator.Web.{Web, FetchError, get_json}

pub record GameServerMetrics (F : Type 0) : Type 0 where
  pub players : ℤ
  pub cpu_percent : F
  pub memory_mb : F
  pub alloc_rate : F

-- An entry of `errors` is an endpoint with its error, which the source prints as one text.
pub record FleetMetricsAggregate (F : Type 0) : Type 0 where
  pub total_players : ℤ
  pub total_cpu : F
  pub total_memory_mb : F
  pub avg_cpu : F
  pub avg_memory_mb : F
  pub server_count : ℤ
  pub errors : List (String × FetchError)

-- `Scraper` without its HTTP client.
pub record Scraper : Type 0 where
  pub metrics_path : String

-- `NewScraper`
unfoldable pub new_scraper : Scraper
new_scraper = record { metrics_path = "/api/v1/metrics" }

module _ {F : Type 0} ⦃fl : Float64 F⦄ where
  -- A round of the loop of `ScrapeFleet`.
  unfoldable pub add_scrape :
      String
      → Result FetchError (GameServerMetrics F)
      → FleetMetricsAggregate F
      → FleetMetricsAggregate F
  add_scrape ep (err e) agg = record agg { errors = agg.errors ++ (ep, e) ∷ [] }
  add_scrape ep (ok m) agg = record agg {
    total_players = add32 agg.total_players m.players;
    total_cpu = fl.add agg.total_cpu m.cpu_percent;
    total_memory_mb = fl.add agg.total_memory_mb m.memory_mb;
    server_count = add32 agg.server_count (pos 1);
  }

  unfoldable pub average : FleetMetricsAggregate F → FleetMetricsAggregate F
  average agg =
      if ltb_ℤ (pos 0) agg.server_count
      then record agg {
        avg_cpu = fl.div agg.total_cpu (fl.of_int agg.server_count);
        avg_memory_mb = fl.div agg.total_memory_mb (fl.of_int agg.server_count);
      }
      else agg

  abbrev pub no_metrics : FleetMetricsAggregate F
  no_metrics = record {
    total_players = pos 0;
    total_cpu = fl.of_int (pos 0);
    total_memory_mb = fl.of_int (pos 0);
    avg_cpu = fl.of_int (pos 0);
    avg_memory_mb = fl.of_int (pos 0);
    server_count = pos 0;
    errors = [];
  }

module _ {F : Type 0} ⦃fl : Float64 F⦄ {B W : Type 0} (web : Web B W)
    (decode : B → Option (GameServerMetrics F)) (s : Scraper) where
  -- `Scrape`
  unfoldable pub scrape : String → W → Result FetchError (GameServerMetrics F) × W
  scrape endpoint w = get_json web decode ("http://" <> endpoint <> s.metrics_path) w

  unfoldable pub scrape_all :
      List String → FleetMetricsAggregate F → W → FleetMetricsAggregate F × W
  scrape_all [] agg w = (agg, w)
  scrape_all (ep ∷ endpoints) agg w =
      let (m, w') = scrape ep w in scrape_all endpoints (add_scrape ep m agg) w'

  -- `ScrapeFleet`, which returns no error of its own.
  unfoldable pub scrape_fleet : List String → W → FleetMetricsAggregate F × W
  scrape_fleet endpoints w = let (agg, w') = scrape_all endpoints no_metrics w in (average agg, w')
