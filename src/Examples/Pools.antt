-- ===== src/Examples/Pools.antt =====
-- Tests of the pool and of its scheduler.
use mathlib.Core.List.{Mem, mem-cons, not-mem-nil}
use mathlib.Core.Logic.Or
use game_server_orchestrator.Prelude.{
  String, ◌≡◌, ◌≢◌, ◌↔◌, refl, sym, ap, ◌∙◌, subst, ◌<◌, ◌^◌, Bool, true, false, ◌&&◌, Option, none,
  some, List, [], ◌∷◌, ◌++◌, All, length, min, arith, if◌then◌else◌,
}
use game_server_orchestrator.Prelude.Int.{ℤ, pos, pos_part, ◌+ℤ◌, ◌≤ℤ◌}
use game_server_orchestrator.Prelude.Result.{ok, err}
use game_server_orchestrator.Prelude.Text.{str_eq, string_set}
use game_server_orchestrator.Prelude.Dict.{Dict, lookup, get_or}
use game_server_orchestrator.Prelude.Sort.{IsSorted, HasNames}
use game_server_orchestrator.Pool.Scheduler.{
  GameServerInfo, rank_and_select, less_for, fewer_players, select_for_drain,
}
use game_server_orchestrator.Pool.Scheduler.Choice.{rank_and_select_best}
use game_server_orchestrator.Pool.State.{
  PoolManager, ServerPool, ServerPoolState, no_server, server_of, is_eligible, take_server,
  allocate_with_filter,
}
use game_server_orchestrator.Pool.Calls.{
  Call, run, step, allocates_with_filter, marks_unhealthy, registers,
}
use game_server_orchestrator.Pool.Query.{config_of}
use game_server_orchestrator.Pool.Invariant.{run-new-IsValid}
use game_server_orchestrator.Pool.Figures.{IsSmall}
use game_server_orchestrator.Pool.Allocation.Exclusive.{no_double_allocation}
use game_server_orchestrator.Pool.Allocation.Outcome.{Passes, allocate_with_filter_takes}
use game_server_orchestrator.Pool.Abstract.{view, Specifies}
use game_server_orchestrator.Pool.Refinement.{step-Specifies}
use game_server_orchestrator.Examples.{setup, arena}

-- The first two allocations.
abbrev first_grant : PoolManager
first_grant = (allocate_with_filter (pos 9) "arena" "RoundRobin" [] arena).1

abbrev between : List (ℤ × Call)
between = (pos 10, marks_unhealthy "arena" "a") ∷ (pos 11, registers "arena" "a") ∷ []

takes_a : allocate_with_filter (pos 9) "arena" "RoundRobin" [] arena ≡ (ok "a", first_grant)
unfolding allocate_with_filter lookup run game_server_orchestrator.Pool.Calls.step
    game_server_orchestrator.Pool.State.register game_server_orchestrator.Prelude.Dict.insert
    game_server_orchestrator.Pool.State.ensure_fleet
    game_server_orchestrator.Pool.State.mark_unhealthy
    game_server_orchestrator.Pool.State.update_server
    game_server_orchestrator.Pool.State.update_fleet_config
    game_server_orchestrator.Pool.State.grant game_server_orchestrator.Pool.State.choose
    game_server_orchestrator.Pool.State.restrict
    game_server_orchestrator.Pool.State.collect_candidates
    game_server_orchestrator.Pool.State.register_in game_server_orchestrator.Prelude.Sort.sort_slice
    game_server_orchestrator.Pool.State.update_in game_server_orchestrator.Pool.State.sicken
    game_server_orchestrator.Pool.Scheduler.available fewer_players less_for
    game_server_orchestrator.Pool.Scheduler.lower_latency
    game_server_orchestrator.Pool.Scheduler.more_players rank_and_select take_server
    game_server_orchestrator.Prelude.Int32.add32 game_server_orchestrator.Prelude.Int32.wrap32 ◌+ℤ◌
takes_a = refl

abbrev second_grant : PoolManager
second_grant =
    (allocate_with_filter (pos 12) "arena" "FewestPlayers" [] (run between first_grant)).1

takes_b :
    allocate_with_filter (pos 12) "arena" "FewestPlayers" [] (run between first_grant)
    ≡ (ok "b", second_grant)
unfolding allocate_with_filter lookup run game_server_orchestrator.Pool.Calls.step
    game_server_orchestrator.Pool.State.register game_server_orchestrator.Prelude.Dict.insert
    game_server_orchestrator.Pool.State.ensure_fleet
    game_server_orchestrator.Pool.State.mark_unhealthy
    game_server_orchestrator.Pool.State.update_server
    game_server_orchestrator.Pool.State.update_fleet_config
    game_server_orchestrator.Pool.State.grant game_server_orchestrator.Pool.State.choose
    game_server_orchestrator.Pool.State.restrict
    game_server_orchestrator.Pool.State.collect_candidates
    game_server_orchestrator.Pool.State.register_in game_server_orchestrator.Prelude.Sort.sort_slice
    game_server_orchestrator.Pool.State.update_in game_server_orchestrator.Pool.State.sicken
    game_server_orchestrator.Pool.Scheduler.available fewer_players less_for
    game_server_orchestrator.Pool.Scheduler.lower_latency
    game_server_orchestrator.Pool.Scheduler.more_players rank_and_select take_server
    game_server_orchestrator.Prelude.Int32.add32 game_server_orchestrator.Prelude.Int32.wrap32 ◌+ℤ◌
takes_b = refl

-- No third server is free.
takes_none :
    allocate_with_filter (pos 13) "arena" "FewestPlayers" [] second_grant
    ≡ (err (no_server "arena"), second_grant)
unfolding allocate_with_filter lookup run game_server_orchestrator.Pool.Calls.step
    game_server_orchestrator.Pool.State.register game_server_orchestrator.Prelude.Dict.insert
    game_server_orchestrator.Pool.State.ensure_fleet
    game_server_orchestrator.Pool.State.mark_unhealthy
    game_server_orchestrator.Pool.State.update_server
    game_server_orchestrator.Pool.State.update_fleet_config
    game_server_orchestrator.Pool.State.grant game_server_orchestrator.Pool.State.choose
    game_server_orchestrator.Pool.State.restrict
    game_server_orchestrator.Pool.State.collect_candidates
    game_server_orchestrator.Pool.State.register_in game_server_orchestrator.Prelude.Sort.sort_slice
    game_server_orchestrator.Pool.State.update_in game_server_orchestrator.Pool.State.sicken
    game_server_orchestrator.Pool.Scheduler.available fewer_players less_for
    game_server_orchestrator.Pool.Scheduler.lower_latency
    game_server_orchestrator.Pool.Scheduler.more_players rank_and_select take_server
    game_server_orchestrator.Prelude.Int32.add32 game_server_orchestrator.Prelude.Int32.wrap32 ◌+ℤ◌
takes_none = refl

no_double_allocation_example : ◌≢◌ {A = String} "b" "a"
no_double_allocation_example =
    no_double_allocation (pos 9) (pos 12) "arena" "RoundRobin" "FewestPlayers" [] [] between arena
      (run-new-IsValid setup) takes_a (refl, (refl, tt)) takes_b

allocate_with_filter_takes_example :
    (s : ServerPoolState) × (server_of arena "arena" "a" ≡ some s)
    × (s.allocated ≡ false)
    × (s.healthy ≡ true)
    × Passes [] "a"
    × ((g k : String)
        → server_of first_grant g k ≡ (
            if str_eq "arena" g && str_eq "a" k
            then some (take_server (pos 9) s)
            else server_of arena g k))
allocate_with_filter_takes_example =
    allocate_with_filter_takes (pos 9) "arena" "RoundRobin" [] arena (run-new-IsValid setup) takes_a

abbrev arena_pool : ServerPool
arena_pool = get_or [] "arena" arena.pools

arena-IsSmall : IsSmall arena "arena"
unfolding lookup run game_server_orchestrator.Pool.Calls.step
    game_server_orchestrator.Pool.State.register game_server_orchestrator.Prelude.Dict.insert
    game_server_orchestrator.Pool.State.ensure_fleet
    game_server_orchestrator.Pool.State.mark_unhealthy
    game_server_orchestrator.Pool.State.update_server
    game_server_orchestrator.Pool.State.update_fleet_config
    game_server_orchestrator.Pool.State.grant game_server_orchestrator.Pool.State.choose
    game_server_orchestrator.Pool.State.restrict
    game_server_orchestrator.Pool.State.collect_candidates
    game_server_orchestrator.Pool.State.register_in game_server_orchestrator.Prelude.Sort.sort_slice
    game_server_orchestrator.Pool.State.update_in game_server_orchestrator.Pool.State.sicken
    game_server_orchestrator.Pool.Scheduler.available fewer_players less_for
    game_server_orchestrator.Pool.Scheduler.lower_latency
    game_server_orchestrator.Pool.Scheduler.more_players rank_and_select take_server
    game_server_orchestrator.Prelude.Int32.add32 game_server_orchestrator.Prelude.Int32.wrap32 ◌+ℤ◌
arena-IsSmall pool e =
    let same : arena_pool ≡ pool = cc e in subst (λ p. length p < 2 ^ 31) same (omega arith)

arena_size :
    (pos 0 ≤ℤ (config_of arena "arena").buffer_size)
    × (pos_part (config_of arena "arena").buffer_size < 2 ^ 31)
unfolding lookup run game_server_orchestrator.Pool.Calls.step
    game_server_orchestrator.Pool.State.register game_server_orchestrator.Prelude.Dict.insert
    game_server_orchestrator.Pool.State.ensure_fleet
    game_server_orchestrator.Pool.State.mark_unhealthy
    game_server_orchestrator.Pool.State.update_server
    game_server_orchestrator.Pool.State.update_fleet_config
    game_server_orchestrator.Pool.State.grant game_server_orchestrator.Pool.State.choose
    game_server_orchestrator.Pool.State.restrict
    game_server_orchestrator.Pool.State.collect_candidates
    game_server_orchestrator.Pool.State.register_in game_server_orchestrator.Prelude.Sort.sort_slice
    game_server_orchestrator.Pool.State.update_in game_server_orchestrator.Pool.State.sicken
    game_server_orchestrator.Pool.Scheduler.available fewer_players less_for
    game_server_orchestrator.Pool.Scheduler.lower_latency
    game_server_orchestrator.Pool.Scheduler.more_players rank_and_select take_server
    game_server_orchestrator.Prelude.Int32.add32 game_server_orchestrator.Prelude.Int32.wrap32 ◌+ℤ◌
arena_size = (omega arith, omega arith)

-- Two candidates, in their two orders.
abbrev info : String → ℤ → GameServerInfo
info name players = record {
  name = name;
  endpoint = "";
  node = "";
  player_count = players;
  latency_ms = pos 0;
  allocated = false;
}

abbrev pair : List GameServerInfo
pair = info "a" (pos 4) ∷ info "b" (pos 2) ∷ []

abbrev swapped : List GameServerInfo
swapped = info "b" (pos 2) ∷ info "a" (pos 4) ∷ []

chooses_b : rank_and_select pair "FewestPlayers" [] ≡ some (info "b" (pos 2))
unfolding rank_and_select game_server_orchestrator.Pool.Scheduler.available
    game_server_orchestrator.Prelude.Sort.sort_slice less_for fewer_players
chooses_b = refl

rank_and_select_best_example :
    Mem (info "b" (pos 2)) pair
    × (false ≡ false)
    × ((d : GameServerInfo)
        → Mem d pair
        → d.allocated ≡ false
        → less_for "FewestPlayers" d (info "b" (pos 2)) ≡ false)
rank_and_select_best_example = rank_and_select_best pair "FewestPlayers" [] chooses_b

info-IsSet : IsSet GameServerInfo
info-IsSet = hlevel string_set

-- A candidate is known by its name.
abbrev pick : String → GameServerInfo
pick name = if str_eq name "a" then info "a" (pos 4) else info "b" (pos 2)

pair-pick : (c : GameServerInfo) → Mem c pair → c ≡ pick c.name
pair-pick c m =
    Or.elim (info-IsSet c (pick c.name)) (mem-cons.0 m)
      (λ p. subst (λ x. x ≡ pick x.name) (sym p) refl)
      (λ n.
        Or.elim (info-IsSet c (pick c.name)) (mem-cons.0 n)
          (λ p. subst (λ x. x ≡ pick x.name) (sym p) refl) (λ o. absurd (not-mem-nil o)))

pair-HasNames : HasNames (λ c. c.name) pair
pair-HasNames a b m n e = pair-pick a m ∙ ap pick e ∙ sym (pair-pick b n)

step-Specifies_example :
    Specifies
      (allocates_with_filter "arena" "RoundRobin" (("b", true) ∷ []))
      (view arena)
      (view (step (pos 9) (allocates_with_filter "arena" "RoundRobin" (("b", true) ∷ [])) arena))
step-Specifies_example =
    step-Specifies (pos 9) (allocates_with_filter "arena" "RoundRobin" (("b", true) ∷ [])) arena
      (run-new-IsValid setup)
