-- ===== src/Pool/Figures.antt =====
-- The figures that the manager reports: Stats, NeedsRefill and RefillCount.
use mathlib.Core.Path.{ap₂}
use game_server_orchestrator.Prelude.{
  String, ℕ, suc, ◌+◌, ◌^◌, ◌<◌, ◌≡◌, ◌↔◌, refl, sym, ap, ◌∙◌, subst, true, some, [], ◌∷◌, length,
  arith, inl, inr, Bool-cases, Option-cases, if◌then◌else◌,
}
use game_server_orchestrator.Prelude.Int.{ℤ, pos, negsuc, ◌+ℤ◌, ◌-ℤ◌, ◌≤ℤ◌, ◌<ℤ◌, pos_part, ltb_ℤ}
use game_server_orchestrator.Prelude.Int32.{add32, sub32, wrap32, wrap32_id}
use game_server_orchestrator.Pool.State.{
  PoolManager, PoolStats, ServerPool, ServerPoolState, pool_of,
}
use game_server_orchestrator.Pool.Query.{
  count_server, count_servers, stats, zero_stats, config_of, needs_refill, refill_count,
}

add32_pos : (n m : ℕ) → n + m < 2 ^ 31 → add32 (pos n) (pos m) ≡ pos (n + m)
unfolding add32 ◌+ℤ◌ wrap32
add32_pos n m h = ground arith

-- The figures are numbers that add up: `n` servers are counted.
abbrev Adds : ℕ → PoolStats → Type 0
Adds n st =
    (h : ℕ) × (u : ℕ) × (a : ℕ) × (b : ℕ) × (st.healthy ≡ pos h)
    × (st.unhealthy ≡ pos u)
    × (st.allocated ≡ pos a)
    × (st.buffer_available ≡ pos b)
    × (h + u ≡ n)
    × (a + b ≡ h)

count_server-Adds :
    (s : ServerPoolState) (n : ℕ) (st : PoolStats)
    → suc n < 2 ^ 31
    → Adds n st
    → Adds (suc n) (count_server s st)
unfolding count_server
count_server-Adds s n st small (h, u, a, b, eh, eu, ea, eb, hu, ab) = elim (Bool-cases s.healthy) [
  | inr sick ↦
      simp (sick, count_server)
        (
          h,
          u + 1,
          a,
          b,
          eh,
          ap (λ z. add32 z (pos 1)) eu ∙ add32_pos u 1 (omega arith),
          ea,
          eb,
          omega arith,
          ab,
        )
  | inl well ↦
      let more = ap (λ z. add32 z (pos 1)) eh ∙ add32_pos h 1 (omega arith) in
      elim (Bool-cases s.allocated) [
        | inl taken ↦
            simp (well, taken, count_server)
              (
                h + 1,
                u,
                a + 1,
                b,
                more,
                eu,
                ap (λ z. add32 z (pos 1)) ea ∙ add32_pos a 1 (omega arith),
                eb,
                omega arith,
                omega arith,
              )
        | inr free ↦
            simp (well, free, count_server)
              (
                h + 1,
                u,
                a,
                b + 1,
                more,
                eu,
                ea,
                ap (λ z. add32 z (pos 1)) eb ∙ add32_pos b 1 (omega arith),
                omega arith,
                omega arith,
              )
      ]
]

count_servers-Adds :
    (pool : ServerPool) (n : ℕ) (st : PoolStats)
    → n + length pool < 2 ^ 31
    → Adds n st
    → Adds (n + length pool) (count_servers pool st)
unfolding count_servers
count_servers-Adds [] n st small a = subst (λ k. Adds k st) (omega arith) a
count_servers-Adds ((name, s) ∷ pool) n st small a =
    subst (λ k. Adds k (count_servers pool (count_server s st))) (omega arith)
      (count_servers-Adds pool (suc n) (count_server s st) (omega (arith, small))
        (count_server-Adds s n st (omega (arith, small)) a))

count_server-total : (s : ServerPoolState) (st : PoolStats) → (count_server s st).total ≡ st.total
unfolding count_server
count_server-total s st = elim (Bool-cases s.healthy) [
  | inr sick ↦ simp (sick, count_server)
  | inl well ↦ elim (Bool-cases s.allocated) [
    | inl taken ↦ simp (well, taken, count_server)
    | inr free ↦ simp (well, free, count_server)
  ]
]

count_servers-total :
    (pool : ServerPool) (st : PoolStats) → (count_servers pool st).total ≡ st.total
unfolding count_servers
count_servers-total [] st = refl
count_servers-total ((name, s) ∷ pool) st =
    count_servers-total pool (count_server s st) ∙ count_server-total s st

-- A pool that fits an int32.
abbrev pub IsSmall : PoolManager → String → Type 0
IsSmall pm fleet = (pool : ServerPool) → pool_of pm fleet ≡ some pool → length pool < 2 ^ 31

-- Also the figures of a fleet without a pool, which are all zero.
stats-Adds :
    (pm : PoolManager) (fleet : String)
    → IsSmall pm fleet
    → (n : ℕ) × (n < 2 ^ 31) × ((stats pm fleet).total ≡ pos n) × Adds n (stats pm fleet)
unfolding stats
stats-Adds pm fleet small = elim (Option-cases (pool_of pm fleet)) [
  | inl missing ↦
      rw (missing, stats)
        (0, omega arith, refl, (0, 0, 0, 0, refl, refl, refl, refl, omega arith, omega arith))
  | inr (pool, found) ↦
      let start = record zero_stats { total = wrap32 (pos (length pool)) } in
      let fits = small pool found in
      rw (found, stats)
        (
          length pool,
          fits,
          count_servers-total pool start
              ∙ wrap32_id (pos (length pool)) (record { below = fits; above = omega arith }),
          subst (λ k. Adds k (count_servers pool start)) (omega arith)
              (count_servers-Adds pool 0 start (omega (arith, fits))
                (0, 0, 0, 0, refl, refl, refl, refl, omega arith, omega arith)),
        )
]

pos_add : (a b : ℕ) → (pos a +ℤ pos b) ≡ pos (a + b)
unfolding ◌+ℤ◌
pos_add a b = ground arith

abbrev Refills : ℤ → ℤ → Type 0
Refills size free =
    let needed = sub32 size free in
    ((ltb_ℤ free size ≡ true) ↔ (pos 0 <ℤ (if ltb_ℤ needed (pos 0) then pos 0 else needed)))
    × (ltb_ℤ free size ≡ true → free +ℤ (if ltb_ℤ needed (pos 0) then pos 0 else needed) ≡ size)

pos_Refills :
    (size : ℤ) (b : ℕ) → pos 0 ≤ℤ size → pos_part size < 2 ^ 31 → b < 2 ^ 31 → Refills size (pos b)
unfolding ◌+ℤ◌ ◌-ℤ◌ sub32 wrap32
pos_Refills (pos n) b low high fits =
    ((λ h. ground (arith, h), λ h. ground (arith, h)), λ h. ground (arith, h))
pos_Refills (negsuc n) b low high fits = absurd (omega (arith, low))

-- The figures of a fleet add up: the healthy and the unhealthy servers are all of them, and the
-- allocated and the available ones are the healthy ones.
stats_total :
    (pm : PoolManager) (fleet : String)
    → IsSmall pm fleet
    → ((stats pm fleet).healthy +ℤ (stats pm fleet).unhealthy ≡ (stats pm fleet).total)
      × ((stats pm fleet).allocated +ℤ (stats pm fleet).buffer_available ≡ (stats pm fleet).healthy)
stats_total pm fleet small =
    let (n, fits, total, (h, u, a, b, eh, eu, ea, eb, hu, ab)) = stats-Adds pm fleet small in
    (
      ap₂ ◌+ℤ◌ eh eu ∙ pos_add h u ∙ ap pos hu ∙ sym total,
      ap₂ ◌+ℤ◌ ea eb ∙ pos_add a b ∙ ap pos ab ∙ sym eh,
    )

-- For a buffer size of at least zero, a refill is needed exactly when the refill count is positive,
-- and a refill of that count brings the available servers up to the buffer size.
refill_count_lem :
    (pm : PoolManager) (fleet : String)
    → IsSmall pm fleet
    → pos 0 ≤ℤ (config_of pm fleet).buffer_size
    → pos_part (config_of pm fleet).buffer_size < 2 ^ 31
    → ((needs_refill pm fleet ≡ true) ↔ (pos 0 <ℤ refill_count pm fleet))
      × (needs_refill pm fleet ≡ true
          → (stats pm fleet).buffer_available +ℤ refill_count pm fleet
            ≡ (config_of pm fleet).buffer_size)
unfolding needs_refill refill_count
refill_count_lem pm fleet small low high =
    let (n, fits, total, (h, u, a, b, eh, eu, ea, eb, hu, ab)) = stats-Adds pm fleet small in
    subst (Refills (config_of pm fleet).buffer_size) (sym eb)
      (pos_Refills _ b low high (omega (arith, fits, hu, ab)))
