-- ===== src/Metrics/Collector/Totals.antt =====
-- The counters after any calls of the recording functions, by the calls alone.
use game_server_orchestrator.Prelude.{
  String, ℕ, length, suc, ◌+◌, ◌≡◌, refl, ◌∙◌, Bool, true, false, ◌&&◌, some, List, [], ◌∷◌, arith,
  if◌then◌else◌,
}
use game_server_orchestrator.Prelude.Float.{Float64}
use game_server_orchestrator.Prelude.Text.{str_eq}
use game_server_orchestrator.Metrics.Collector.{
  Metric, fleet_replicas, fleet_players_total, fleet_buffer_available, allocation_total,
  allocation_latency, scale_up_total, scale_down_total, metric_name, label_names, Registry,
  set_fleet_metrics, record_scale_up_metric, record_scale_down_metric, record_allocation, Recorded,
  fleet_figures, scaled_up, scaled_down, allocation, record_one, record_all,
}

abbrev pub same_labels : List String → List String → Bool
same_labels [] [] = true
same_labels [] (k ∷ ks) = false
same_labels (l ∷ ls) [] = false
same_labels (l ∷ ls) (k ∷ ks) = str_eq l k && same_labels ls ks

-- A call counts one at its variable and its labels.
abbrev pub CountsOne :
    {R : Type 0} → (Metric → List String → R → ℕ) → Metric → List String → R → R → Type 0
CountsOne count m ls w w' =
    (n : Metric) (ks : List String)
    → count n ks w' ≡ (
        if str_eq (metric_name m) (metric_name n) && same_labels ls ks
        then suc (count n ks w)
        else count n ks w)

-- `count` reads a counter, or the number of observations of a histogram. With one value for each
-- label no call panics; Inc and Observe count one at their variable and labels, and Set counts none.
pub record IsCount {F R : Type 0} (reg : Registry F R) (count : Metric → List String → R → ℕ)
    : Type 0 where
  pub count_inc :
      (m : Metric) (ls : List String) (w : R)
      → length ls ≡ length (label_names m)
      → (w' : R) × (reg.inc m ls w ≡ some w') × CountsOne count m ls w w'
  pub count_observe :
      (m : Metric) (ls : List String) (v : F) (w : R)
      → length ls ≡ length (label_names m)
      → (w' : R) × (reg.observe m ls v w ≡ some w') × CountsOne count m ls w w'
  pub count_set :
      (m : Metric) (ls : List String) (v : F) (w : R)
      → length ls ≡ length (label_names m)
      → (w' : R) × (reg.set m ls v w ≡ some w')
        × ((n : Metric) (ks : List String) → count n ks w' ≡ count n ks w)

module _ {F : Type 0} where
  -- The calls that record an allocation with these labels.
  unfoldable pub allocations : List String → List (Recorded F) → ℕ
  allocations at [] = 0
  allocations at (allocation fleet strategy phase seconds ∷ cs) =
      if same_labels (fleet ∷ strategy ∷ phase ∷ []) at
      then suc (allocations at cs)
      else allocations at cs
  allocations at (fleet_figures fleet ns replicas players buffer ∷ cs) = allocations at cs
  allocations at (scaled_up fleet ns ∷ cs) = allocations at cs
  allocations at (scaled_down fleet ns ∷ cs) = allocations at cs

  -- Those of a fleet and a strategy, in any phase.
  unfoldable pub attempts : List String → List (Recorded F) → ℕ
  attempts at [] = 0
  attempts at (allocation fleet strategy phase seconds ∷ cs) =
      if same_labels (fleet ∷ strategy ∷ []) at then suc (attempts at cs) else attempts at cs
  attempts at (fleet_figures fleet ns replicas players buffer ∷ cs) = attempts at cs
  attempts at (scaled_up fleet ns ∷ cs) = attempts at cs
  attempts at (scaled_down fleet ns ∷ cs) = attempts at cs

  -- The scale-ups of a fleet and a namespace.
  unfoldable pub scale_ups : List String → List (Recorded F) → ℕ
  scale_ups at [] = 0
  scale_ups at (scaled_up fleet ns ∷ cs) =
      if same_labels (fleet ∷ ns ∷ []) at then suc (scale_ups at cs) else scale_ups at cs
  scale_ups at (allocation fleet strategy phase seconds ∷ cs) = scale_ups at cs
  scale_ups at (fleet_figures fleet ns replicas players buffer ∷ cs) = scale_ups at cs
  scale_ups at (scaled_down fleet ns ∷ cs) = scale_ups at cs

module _ {F : Type 0} where
  allocations-cons :
      (at : List String) (c : Recorded F) (cs : List (Recorded F))
      → allocations at (c ∷ cs) ≡ allocations at (c ∷ []) + allocations at cs
  unfolding allocations
  allocations-cons at (allocation fleet strategy phase seconds) cs = ground arith
  allocations-cons at (fleet_figures fleet ns replicas players buffer) cs = omega arith
  allocations-cons at (scaled_up fleet ns) cs = omega arith
  allocations-cons at (scaled_down fleet ns) cs = omega arith

  attempts-cons :
      (at : List String) (c : Recorded F) (cs : List (Recorded F))
      → attempts at (c ∷ cs) ≡ attempts at (c ∷ []) + attempts at cs
  unfolding attempts
  attempts-cons at (allocation fleet strategy phase seconds) cs = ground arith
  attempts-cons at (fleet_figures fleet ns replicas players buffer) cs = omega arith
  attempts-cons at (scaled_up fleet ns) cs = omega arith
  attempts-cons at (scaled_down fleet ns) cs = omega arith

  scale_ups-cons :
      (at : List String) (c : Recorded F) (cs : List (Recorded F))
      → scale_ups at (c ∷ cs) ≡ scale_ups at (c ∷ []) + scale_ups at cs
  unfolding scale_ups
  scale_ups-cons at (scaled_up fleet ns) cs = ground arith
  scale_ups-cons at (fleet_figures fleet ns replicas players buffer) cs = omega arith
  scale_ups-cons at (allocation fleet strategy phase seconds) cs = omega arith
  scale_ups-cons at (scaled_down fleet ns) cs = omega arith

-- What the run does to the three counts.
abbrev pub Totals :
    {F R : Type 0} → (Metric → List String → R → ℕ) → List (Recorded F) → R → R → Type 0
Totals count calls w w' =
    ((at : List String)
      → count allocation_total at w' ≡ count allocation_total at w + allocations at calls)
    × ((at : List String)
        → count allocation_latency at w' ≡ count allocation_latency at w + attempts at calls)
    × ((at : List String)
        → count scale_up_total at w' ≡ count scale_up_total at w + scale_ups at calls)

module _ {F : Type 0} ⦃fl : Float64 F⦄ {R : Type 0} (reg : Registry F R)
    (count : Metric → List String → R → ℕ) (laws : IsCount reg count) where
  open laws use {count_inc, count_observe, count_set}

  one-Totals :
      (c : Recorded F) (w : R)
      → (w' : R) × (record_one reg c w ≡ some w') × Totals count (c ∷ []) w w'
  unfolding record_one set_fleet_metrics record_scale_up_metric record_scale_down_metric
      record_allocation label_names metric_name allocations attempts scale_ups
  one-Totals (fleet_figures fleet ns replicas players buffer) w =
      let at = fleet ∷ ns ∷ [] in
      let (w₁, e₁, c₁) = count_set fleet_replicas at (fl.of_int replicas) w refl in
      let (w₂, e₂, c₂) = count_set fleet_players_total at (fl.of_int players) w₁ refl in
      let (w₃, e₃, c₃) = count_set fleet_buffer_available at (fl.of_int buffer) w₂ refl in
      let same = λ (n : Metric) (ks : List String). c₃ n ks ∙ c₂ n ks ∙ c₁ n ks in
      (
        w₃,
        rw (e₁, e₂) e₃,
        (
          (λ ks. omega (arith, same allocation_total ks)),
          (λ ks. omega (arith, same allocation_latency ks)),
          λ ks. omega (arith, same scale_up_total ks),
        ),
      )
  one-Totals (scaled_up fleet ns) w =
      let (w₁, e, c) = count_inc scale_up_total (fleet ∷ ns ∷ []) w refl in
      (
        w₁,
        e,
        (
          (λ ks. omega (arith, c allocation_total ks)),
          (λ ks. omega (arith, c allocation_latency ks)),
          λ ks. ground (arith, c scale_up_total ks),
        ),
      )
  one-Totals (scaled_down fleet ns) w =
      let (w₁, e, c) = count_inc scale_down_total (fleet ∷ ns ∷ []) w refl in
      (
        w₁,
        e,
        (
          (λ ks. omega (arith, c allocation_total ks)),
          (λ ks. omega (arith, c allocation_latency ks)),
          λ ks. omega (arith, c scale_up_total ks),
        ),
      )
  one-Totals (allocation fleet strategy phase seconds) w =
      let (w₁, e₁, c₁) = count_inc allocation_total (fleet ∷ strategy ∷ phase ∷ []) w refl in
      let (w₂, e₂, c₂) = count_observe allocation_latency (fleet ∷ strategy ∷ []) seconds w₁ refl in
      (
        w₂,
        rw e₁ e₂,
        (
          (λ ks. ground (arith, c₁ allocation_total ks, c₂ allocation_total ks)),
          (λ ks. ground (arith, c₁ allocation_latency ks, c₂ allocation_latency ks)),
          λ ks. omega (arith, c₁ scale_up_total ks, c₂ scale_up_total ks),
        ),
      )

  -- Any calls of the four recording functions succeed, since each gives a metric as many values as it
  -- has labels. The allocation counter at any label values then has grown by the allocations that were
  -- recorded with them, the observations of the latency of a fleet and a strategy by its allocations
  -- of any phase, and the scale-up counter by the scale-ups recorded with its values; whatever other
  -- calls come between. This holds for a registry whose Inc and Observe count at their variable and
  -- labels alone, and which panics only at a wrong number of values.
  pub record_all-Totals :
      (calls : List (Recorded F)) (w : R)
      → (w' : R) × (record_all reg calls w ≡ some w') × Totals count calls w w'
  unfolding record_all allocations attempts scale_ups
  record_all-Totals [] w = (w, refl, ((λ at. omega arith), (λ at. omega arith), λ at. omega arith))
  record_all-Totals (c ∷ cs) w =
      let (w₁, first, (a, b, s)) = one-Totals c w in
      let (w₂, rest, (a', b', s')) = record_all-Totals cs w₁ in
      (
        w₂,
        rw (first, rest) refl,
        (
          (λ at. omega (arith, a at, a' at, allocations-cons at c cs)),
          (λ at. omega (arith, b at, b' at, attempts-cons at c cs)),
          λ at. omega (arith, s at, s' at, scale_ups-cons at c cs),
        ),
      )
