-- ===== src/Examples/Counters.antt =====
-- Tests of the recorded metrics.
use game_server_orchestrator.Prelude.{
  String, ℕ, suc, ◌≡◌, refl, ◌&&◌, none, some, Option, List, length, ◌==◌, [], ◌∷◌, arith,
  if◌then◌else◌,
}
use game_server_orchestrator.Prelude.Int.{ℤ, pos}
use game_server_orchestrator.Prelude.Text.{str_eq}
use game_server_orchestrator.Metrics.Collector.{
  Metric, metric_name, label_names, Registry, Recorded, fleet_figures, scaled_up, allocation,
  record_all,
}
use game_server_orchestrator.Metrics.Collector.Totals.{
  IsCount, same_labels, Totals, record_all-Totals,
}
use game_server_orchestrator.Examples.{hundredths}

-- A registry that keeps what was counted.
abbrev Kept : Type 0
Kept = List (Metric × List String)

accept : Metric → List String → Kept → Option Kept
accept m ls w = if length ls == length (label_names m) then some w else none

abbrev kept : Registry ℤ Kept
kept = record {
  inc = λ m ls w. accept m ls ((m, ls) ∷ w);
  set = λ m ls v w. accept m ls w;
  observe = λ m ls v w. accept m ls ((m, ls) ∷ w);
}

count_of : Metric → List String → Kept → ℕ
count_of n ks [] = 0
count_of n ks ((m, ls) ∷ w) =
    if str_eq (metric_name m) (metric_name n) && same_labels ls ks
    then suc (count_of n ks w)
    else count_of n ks w

accept-some :
    (m : Metric) (ls : List String) (w : Kept)
    → length ls ≡ length (label_names m)
    → accept m ls w ≡ some w
unfolding accept
accept-some m ls w e = ground (arith, e)

count_of-IsCount : IsCount kept count_of
unfolding count_of
count_of-IsCount = record {
  count_inc = λ m ls w e. ((m, ls) ∷ w, accept-some m ls ((m, ls) ∷ w) e, λ n ks. refl);
  count_observe = λ m ls v w e. ((m, ls) ∷ w, accept-some m ls ((m, ls) ∷ w) e, λ n ks. refl);
  count_set = λ m ls v w e. (w, accept-some m ls w e, λ n ks. refl);
}

abbrev calls : List (Recorded ℤ)
calls =
    scaled_up "arena" "default"
    ∷ allocation "arena" "RoundRobin" "Allocated" (pos 1)
    ∷ allocation "arena" "RoundRobin" "Failed" (pos 2)
    ∷ fleet_figures "arena" "default" (pos 2) (pos 9) (pos 1)
    ∷ []

record_all-Totals_example :
    (w' : Kept) × (record_all ⦃fl = hundredths⦄ kept calls [] ≡ some w')
    × Totals count_of calls [] w'
record_all-Totals_example =
    record_all-Totals ⦃fl = hundredths⦄ kept count_of count_of-IsCount calls []
