-- ===== src/Metrics/Aggregate.antt =====
-- The aggregate of a fleet against the list of its scrapes.
use mathlib.Core.List.{append_assoc, append-nil}
use game_server_orchestrator.Prelude.{
  ◌+◌, String, ◌≡◌, refl, sym, ap, subst, ◌∙◌, Option, List, [], ◌∷◌, ◌++◌, length, Bool-cases,
  if◌then◌else◌, inl, inr, arith,
}
use game_server_orchestrator.Prelude.Int.{ℤ, pos, ◌+ℤ◌, ltb_ℤ, int_laws}
use game_server_orchestrator.Prelude.Int32.{wrap32, add32, wrap32_add, wrap32_zero}
use game_server_orchestrator.Prelude.Float.{Float64}
use game_server_orchestrator.Prelude.Result.{Result, ok, err}
use game_server_orchestrator.Web.{Web, FetchError}
use game_server_orchestrator.Metrics.{
  GameServerMetrics, FleetMetricsAggregate, Scraper, scrape, add_scrape, scrape_all, average,
  no_metrics, scrape_fleet,
}

-- Endpoints with the results of their scrapes.
abbrev pub Scrapes : Type 0 → Type 0
Scrapes F = List (String × Result FetchError (GameServerMetrics F))

module _ {F : Type 0} where
  abbrev pub successes : Scrapes F → List (GameServerMetrics F)
  successes [] = []
  successes ((ep, ok m) ∷ rs) = m ∷ successes rs
  successes ((ep, err e) ∷ rs) = successes rs

  abbrev pub failures : Scrapes F → List (String × FetchError)
  failures [] = []
  failures ((ep, ok m) ∷ rs) = failures rs
  failures ((ep, err e) ∷ rs) = (ep, e) ∷ failures rs

  abbrev pub player_sum : List (GameServerMetrics F) → ℤ
  player_sum [] = pos 0
  player_sum (m ∷ ms) = m.players +ℤ player_sum ms

module _ {F : Type 0} ⦃fl : Float64 F⦄ where
  -- A sum of floats, from left to right.
  abbrev pub float_sum : (GameServerMetrics F → F) → F → List (GameServerMetrics F) → F
  float_sum f x [] = x
  float_sum f x (m ∷ ms) = float_sum f (fl.add x (f m)) ms

  -- What an aggregate holds of the scrapes, by their successes and failures.
  abbrev pub Aggregates : FleetMetricsAggregate F → Scrapes F → Type 0
  Aggregates agg rs =
      (agg.errors ≡ failures rs)
      × (agg.total_players ≡ wrap32 (player_sum (successes rs)))
      × (agg.server_count ≡ wrap32 (pos (length (successes rs))))
      × (agg.total_cpu ≡ float_sum (λ m. m.cpu_percent) (fl.of_int (pos 0)) (successes rs))
      × (agg.total_memory_mb ≡ float_sum (λ m. m.memory_mb) (fl.of_int (pos 0)) (successes rs))

  -- The loop as a fold over the scrapes.
  abbrev fold_scrapes : Scrapes F → FleetMetricsAggregate F → FleetMetricsAggregate F
  fold_scrapes [] agg = agg
  fold_scrapes ((ep, m) ∷ rs) agg = fold_scrapes rs (add_scrape ep m agg)

  fold_scrapes-errors :
      (rs : Scrapes F) (agg : FleetMetricsAggregate F)
      → (fold_scrapes rs agg).errors ≡ agg.errors ++ failures rs
  unfolding add_scrape
  fold_scrapes-errors [] agg = sym (append-nil agg.errors)
  fold_scrapes-errors ((ep, ok m) ∷ rs) agg = fold_scrapes-errors rs (add_scrape ep (ok m) agg)
  fold_scrapes-errors ((ep, err e) ∷ rs) agg =
      fold_scrapes-errors rs (add_scrape ep (err e) agg)
      ∙ append_assoc agg.errors ((ep, e) ∷ []) (failures rs)

  fold_scrapes-players :
      (rs : Scrapes F) (agg : FleetMetricsAggregate F) (t : ℤ)
      → agg.total_players ≡ wrap32 t
      → (fold_scrapes rs agg).total_players ≡ wrap32 (t +ℤ player_sum (successes rs))
  unfolding add_scrape
  fold_scrapes-players [] agg t e = e ∙ ap wrap32 (grind int_laws)
  fold_scrapes-players ((ep, ok m) ∷ rs) agg t e =
      fold_scrapes-players rs (add_scrape ep (ok m) agg) (t +ℤ m.players)
        (ap (λ x. add32 x m.players) e ∙ wrap32_add t m.players)
      ∙ ap wrap32 (grind int_laws)
  fold_scrapes-players ((ep, err x) ∷ rs) agg t e =
      fold_scrapes-players rs (add_scrape ep (err x) agg) t e

  fold_scrapes-count :
      (rs : Scrapes F) (agg : FleetMetricsAggregate F) (t : ℤ)
      → agg.server_count ≡ wrap32 t
      → (fold_scrapes rs agg).server_count ≡ wrap32 (t +ℤ pos (length (successes rs)))
  unfolding add_scrape
  fold_scrapes-count [] agg t e = e ∙ ap wrap32 (grind int_laws)
  fold_scrapes-count ((ep, ok m) ∷ rs) agg t e =
      fold_scrapes-count rs (add_scrape ep (ok m) agg) (t +ℤ pos 1)
        (ap (λ x. add32 x (pos 1)) e ∙ wrap32_add t (pos 1))
      ∙ ap wrap32 (grind int_laws)
  fold_scrapes-count ((ep, err x) ∷ rs) agg t e =
      fold_scrapes-count rs (add_scrape ep (err x) agg) t e

  fold_scrapes-cpu :
      (rs : Scrapes F) (agg : FleetMetricsAggregate F)
      → (fold_scrapes rs agg).total_cpu
        ≡ float_sum (λ m. m.cpu_percent) agg.total_cpu (successes rs)
  unfolding add_scrape
  fold_scrapes-cpu [] agg = refl
  fold_scrapes-cpu ((ep, ok m) ∷ rs) agg = fold_scrapes-cpu rs (add_scrape ep (ok m) agg)
  fold_scrapes-cpu ((ep, err x) ∷ rs) agg = fold_scrapes-cpu rs (add_scrape ep (err x) agg)

  fold_scrapes-memory :
      (rs : Scrapes F) (agg : FleetMetricsAggregate F)
      → (fold_scrapes rs agg).total_memory_mb
        ≡ float_sum (λ m. m.memory_mb) agg.total_memory_mb (successes rs)
  unfolding add_scrape
  fold_scrapes-memory [] agg = refl
  fold_scrapes-memory ((ep, ok m) ∷ rs) agg = fold_scrapes-memory rs (add_scrape ep (ok m) agg)
  fold_scrapes-memory ((ep, err x) ∷ rs) agg = fold_scrapes-memory rs (add_scrape ep (err x) agg)

  folded-Aggregates : (rs : Scrapes F) → Aggregates (fold_scrapes rs no_metrics) rs
  folded-Aggregates rs = (
    fold_scrapes-errors rs no_metrics,
    fold_scrapes-players rs no_metrics (pos 0) (sym wrap32_zero) ∙ ap wrap32 (grind int_laws),
    fold_scrapes-count rs no_metrics (pos 0) (sym wrap32_zero) ∙ ap wrap32 (grind int_laws),
    fold_scrapes-cpu rs no_metrics,
    fold_scrapes-memory rs no_metrics,
  )

  -- The averages change nothing else.
  average-Aggregates :
      (agg : FleetMetricsAggregate F) (rs : Scrapes F)
      → Aggregates agg rs
      → Aggregates (average agg) rs
  unfolding average
  average-Aggregates agg rs h = elim (Bool-cases (ltb_ℤ (pos 0) agg.server_count)) [
    | inl some_up ↦ simp (some_up, average) h
    | inr none_up ↦ simp (none_up, average) h
  ]

  -- A total divided by the number of servers, or nothing without servers.
  abbrev pub mean : F → ℤ → F
  mean total count =
      if ltb_ℤ (pos 0) count then fl.div total (fl.of_int count) else fl.of_int (pos 0)

  -- The averages are the means.
  abbrev pub HasMeans : FleetMetricsAggregate F → Type 0
  HasMeans agg =
      (agg.avg_cpu ≡ mean agg.total_cpu agg.server_count)
      × (agg.avg_memory_mb ≡ mean agg.total_memory_mb agg.server_count)

  fold_scrapes-averages :
      (rs : Scrapes F) (agg : FleetMetricsAggregate F)
      → ((fold_scrapes rs agg).avg_cpu ≡ agg.avg_cpu)
        × ((fold_scrapes rs agg).avg_memory_mb ≡ agg.avg_memory_mb)
  unfolding add_scrape
  fold_scrapes-averages [] agg = (refl, refl)
  fold_scrapes-averages ((ep, ok m) ∷ rs) agg = fold_scrapes-averages rs (add_scrape ep (ok m) agg)
  fold_scrapes-averages ((ep, err x) ∷ rs) agg =
      fold_scrapes-averages rs (add_scrape ep (err x) agg)

  average-HasMeans :
      (agg : FleetMetricsAggregate F)
      → agg.avg_cpu ≡ fl.of_int (pos 0)
      → agg.avg_memory_mb ≡ fl.of_int (pos 0)
      → HasMeans (average agg)
  unfolding average
  average-HasMeans agg c m = elim (Bool-cases (ltb_ℤ (pos 0) agg.server_count)) [
    | inl some_up ↦ simp (some_up, average) (refl, refl)
    | inr none_up ↦ simp (none_up, average) (c, m)
  ]

length-successes-failures :
    {F : Type 0} (rs : Scrapes F) → length (successes rs) + length (failures rs) ≡ length rs
length-successes-failures [] = refl
length-successes-failures ((ep, ok m) ∷ rs) = omega (arith, length-successes-failures rs)
length-successes-failures ((ep, err e) ∷ rs) = omega (arith, length-successes-failures rs)

module _ {F : Type 0} ⦃fl : Float64 F⦄ {B W : Type 0} (web : Web B W)
    (decode : B → Option (GameServerMetrics F)) (s : Scraper) where
  -- The scrapes of the endpoints, one after the other.
  unfoldable pub results : List String → W → Scrapes F × W
  results [] w = ([], w)
  results (ep ∷ endpoints) w =
      let (m, w') = scrape web decode s ep w in
      let (rest, final) = results endpoints w' in ((ep, m) ∷ rest, final)

  length-results :
      (endpoints : List String) (w : W) → length (results endpoints w).0 ≡ length endpoints
  unfolding results
  length-results [] w = refl
  length-results (ep ∷ endpoints) w =
      omega (arith, length-results endpoints (scrape web decode s ep w).1)

  scrape_all-fold_scrapes :
      (endpoints : List String) (agg : FleetMetricsAggregate F) (w : W)
      → scrape_all web decode s endpoints agg w
        ≡ (fold_scrapes (results endpoints w).0 agg, (results endpoints w).1)
  unfolding scrape_all results
  scrape_all-fold_scrapes [] agg w = refl
  scrape_all-fold_scrapes (ep ∷ endpoints) agg w =
      let (m, w') = scrape web decode s ep w in
      scrape_all-fold_scrapes endpoints (add_scrape ep m agg) w'

  -- The aggregate of a fleet counts and sums the successful scrapes, the integers modulo 2^32 and the
  -- floats from left to right; the averages are the totals divided by the count; its errors are the failed scrapes in their order; no endpoint is
  -- lost, and the outside world is the one after the last scrape.
  pub scrape_fleet-Aggregates :
      (endpoints : List String) (w : W)
      → let (rs, final) = results endpoints w in
        let (agg, after) = scrape_fleet web decode s endpoints w in
        Aggregates agg rs
        × HasMeans agg
        × (length (successes rs) + length agg.errors ≡ length endpoints)
        × (after ≡ final)
  unfolding scrape_fleet
  scrape_fleet-Aggregates endpoints w =
      let (rs, final) = results endpoints w in
      let same = scrape_all-fold_scrapes endpoints no_metrics w in
      let held : Aggregates (scrape_fleet web decode s endpoints w).0 rs =
        average-Aggregates _ rs
          (subst (λ run. Aggregates run.0 rs) (sym same) (folded-Aggregates rs)) in
      (
        held,
        subst (λ run. HasMeans (average run.0)) (sym same)
            (let (c, m) = fold_scrapes-averages rs no_metrics in
              average-HasMeans (fold_scrapes rs no_metrics) c m),
        ap (λ es. length (successes rs) + length es) held.0
            ∙ length-successes-failures rs
            ∙ length-results endpoints w,
        ap (λ run. run.1) same,
      )
