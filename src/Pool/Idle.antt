-- ===== src/Pool/Idle.antt =====
-- The servers that IdleServers names may be drained.
use mathlib.Core.List.{Mem, mem-cons, mem-cons_self, mem-cons_of_mem, not-mem-nil}
use mathlib.Core.List.Perm
use mathlib.Core.Logic.Or
use mathlib.Core.Bool.{Bool-set}
use game_server_orchestrator.Prelude.{
  String, ◌≡◌, inl, inr, sym, ap, ◌∙◌, subst, Bool, true, false, none, some, List, [], ◌∷◌, map,
  length, All, take_all, arith, Bool-cases, Option-cases,
}
use game_server_orchestrator.Prelude.Int.{ℤ, pos, ◌-ℤ◌, ◌<ℤ◌, leb_ℤ}
use game_server_orchestrator.Prelude.Sort.{sort_slice, sort_slice-perm, length-sort_slice}
use game_server_orchestrator.Prelude.Text.{eq_iff}
use game_server_orchestrator.Prelude.Dict.{lookup, IsUnique}
use game_server_orchestrator.Pool.Scheduler.{GameServerInfo, fewer_players, select_for_drain}
use game_server_orchestrator.Pool.Scheduler.Choice.{select_for_drain-take}
use game_server_orchestrator.Pool.State.{
  PoolManager, ServerPool, ServerPoolState, pool_of, server_of, candidate,
}
use game_server_orchestrator.Pool.Invariant.{IsValid}
use game_server_orchestrator.Pool.Query.{config_of, is_idle, idle_candidates, idle_servers}

-- The server that a pool holds under a name is idle.
unfoldable idle_at : ℤ → ℤ → ServerPool → String → Bool
idle_at now t pool name = elim (lookup name pool) [ none ↦ false | some s ↦ is_idle now t s ]

module _ (now timeout : ℤ) where
  idle_some :
      (name : String) (s : ServerPoolState) (pool : ServerPool)
      → is_idle now timeout s ≡ true
      → idle_candidates now timeout ((name, s) ∷ pool)
        ≡ candidate name s ∷ idle_candidates now timeout pool
  unfolding idle_candidates
  idle_some name s pool e = rw e

  idle_skip :
      (name : String) (s : ServerPoolState) (pool : ServerPool)
      → is_idle now timeout s ≡ false
      → idle_candidates now timeout ((name, s) ∷ pool) ≡ idle_candidates now timeout pool
  unfolding idle_candidates
  idle_skip name s pool e = rw e

  idle_at_self :
      (name : String) (s : ServerPoolState) (pool : ServerPool)
      → is_idle now timeout s ≡ true
      → idle_at now timeout ((name, s) ∷ pool) name ≡ true
  unfolding idle_at lookup
  idle_at_self name s pool e = ground (arith, eq_iff name name)

  idle_at-tail :
      (name k : String) (s : ServerPoolState) (pool : ServerPool)
      → lookup k pool ≡ none
      → idle_at now timeout pool name ≡ true
      → idle_at now timeout ((k, s) ∷ pool) name ≡ true
  unfolding idle_at lookup
  idle_at-tail name k s pool u e = ground (arith, eq_iff k name)

  idle_candidates-idle :
      (pool : ServerPool) (c : GameServerInfo)
      → IsUnique pool
      → Mem c (idle_candidates now timeout pool)
      → idle_at now timeout pool c.name ≡ true
  unfolding idle_candidates
  idle_candidates-idle [] c u m = absurd (not-mem-nil m)
  idle_candidates-idle ((k, s) ∷ pool) c u m = elim (Bool-cases (is_idle now timeout s)) [
    | inl e ↦
        Or.elim (Bool-set _ _) (mem-cons.0 (subst (Mem c) (idle_some k s pool e) m))
          (λ q.
            subst (λ n. idle_at now timeout ((k, s) ∷ pool) n ≡ true) (sym (ap (λ x. x.name) q))
              (idle_at_self k s pool e))
          (λ n. idle_at-tail c.name k s pool u.0 (idle_candidates-idle pool c u.1 n))
    | inr e ↦
        idle_at-tail c.name k s pool u.0
          (idle_candidates-idle pool c u.1 (subst (Mem c) (idle_skip k s pool e) m))
  ]

All-named :
    (P : String → Type 0) (l : List GameServerInfo)
    → ((c : GameServerInfo) → Mem c l → P c.name)
    → All P (map (λ c. c.name) l)
All-named P [] h = tt
All-named P (c ∷ l) h = (h c mem-cons_self, All-named P l (λ d m. h d (mem-cons_of_mem c m)))

selected-mem :
    (cs : List GameServerInfo) (c : GameServerInfo)
    → Mem c (select_for_drain cs (length cs))
    → Mem c cs
selected-mem cs c m =
    let sorted = sort_slice fewer_players cs in
    let whole : select_for_drain cs (length cs) ≡ sorted =
      select_for_drain-take cs (length cs)
      ∙ take_all _ sorted (omega (arith, length-sort_slice fewer_players cs)) in
    (Perm.mem_iff (sort_slice-perm fewer_players cs)).0 (subst (Mem c) whole m)

-- A server that may be drained: available, and unused for longer than the timeout, which is set.
abbrev pub MayDrain : ℤ → String → PoolManager → String → Type 0
MayDrain now fleet pm name =
    (s : ServerPoolState) × (server_of pm fleet name ≡ some s)
    × (s.allocated ≡ false)
    × (s.healthy ≡ true)
    × (pos 0 <ℤ (config_of pm fleet).idle_timeout)
    × ((config_of pm fleet).idle_timeout <ℤ (now -ℤ s.last_used_at))

idle_at-MayDrain :
    (now : ℤ) (fleet : String) (pm : PoolManager) (pool : ServerPool) (name : String)
    → pool_of pm fleet ≡ some pool
    → pos 0 <ℤ (config_of pm fleet).idle_timeout
    → idle_at now (config_of pm fleet).idle_timeout pool name ≡ true
    → MayDrain now fleet pm name
unfolding idle_at is_idle
idle_at-MayDrain now fleet pm pool name p positive i = elim (Option-cases (lookup name pool)) [
  | inl missing ↦ absurd (ground (arith, missing, i))
  | inr (s, found) ↦ (
    s,
    ground (arith, p, found),
    ground (arith, found, i),
    ground (arith, found, i),
    positive,
    ground (arith, found, i),
  )
]

-- In a valid manager every server that IdleServers names is in the fleet's pool, unallocated and
-- healthy, and unused for longer than the idle timeout, which is positive.
pub idle_servers-MayDrain :
    (now : ℤ) (fleet : String) (pm : PoolManager)
    → IsValid pm
    → All (MayDrain now fleet pm) (idle_servers now fleet pm)
unfolding idle_servers
idle_servers-MayDrain now fleet pm v = elim (Option-cases (pool_of pm fleet)) [
  | inl missing ↦ rw (missing, idle_servers) tt
  | inr (pool, found) ↦ elim (Bool-cases (leb_ℤ (config_of pm fleet).idle_timeout (pos 0))) [
    | inl unset ↦ simp (found, unset, idle_servers) tt
    | inr set ↦
        let timeout = (config_of pm fleet).idle_timeout in
        let cs = idle_candidates now timeout pool in
        simp (found, set, idle_servers)
          (All-named (MayDrain now fleet pm) (select_for_drain cs (length cs)) (λ c m.
            idle_at-MayDrain now fleet pm pool c.name found (ground (arith, set)) (
              idle_candidates-idle now timeout pool c (v fleet pool found).unique
                (selected-mem cs c m))))
  ]
]
