-- ===== src/Pool/Allocation/Candidates.antt =====
-- The candidates of a pool are its eligible servers.
use mathlib.Core.List.{Mem, mem-cons, mem-cons_self, mem-cons_of_mem, not-mem-nil}
use mathlib.Core.Logic.Or
use mathlib.Core.Bool.{Bool-set}
use game_server_orchestrator.Prelude.{
  String, ◌≡◌, ◌⊎◌, inl, inr, Bool, true, false, none, some, [], ◌∷◌, subst, ap, sym, arith,
  Bool-cases,
}
use game_server_orchestrator.Prelude.Text.{eq_iff}
use game_server_orchestrator.Prelude.Dict.{lookup, IsUnique}
use game_server_orchestrator.Pool.Scheduler.{GameServerInfo}
use game_server_orchestrator.Pool.State.{
  ServerPool, ServerPoolState, is_eligible, candidate, collect_candidates,
}

-- The server that a pool holds under a name may be allocated.
unfoldable pub eligible_at : ServerPool → String → Bool
eligible_at pool name = elim (lookup name pool) [ none ↦ false | some s ↦ is_eligible s ]

collect_some :
    (name : String) (s : ServerPoolState) (pool : ServerPool)
    → is_eligible s ≡ true
    → collect_candidates ((name, s) ∷ pool) ≡ candidate name s ∷ collect_candidates pool
unfolding collect_candidates
collect_some name s pool e = rw e

collect_skip :
    (name : String) (s : ServerPoolState) (pool : ServerPool)
    → is_eligible s ≡ false
    → collect_candidates ((name, s) ∷ pool) ≡ collect_candidates pool
unfolding collect_candidates
collect_skip name s pool e = rw e

eligible_at_self :
    (name : String) (s : ServerPoolState) (pool : ServerPool)
    → is_eligible s ≡ true
    → eligible_at ((name, s) ∷ pool) name ≡ true
unfolding eligible_at lookup
eligible_at_self name s pool e = ground (arith, eq_iff name name)

eligible_at-tail :
    (name k : String) (s : ServerPoolState) (pool : ServerPool)
    → lookup k pool ≡ none
    → eligible_at pool name ≡ true
    → eligible_at ((k, s) ∷ pool) name ≡ true
unfolding eligible_at lookup
eligible_at-tail name k s pool u e = ground (arith, eq_iff k name)

pub collect-eligible :
    (pool : ServerPool) (c : GameServerInfo)
    → IsUnique pool
    → Mem c (collect_candidates pool)
    → eligible_at pool c.name ≡ true
unfolding collect_candidates
collect-eligible [] c u m = absurd (not-mem-nil m)
collect-eligible ((k, s) ∷ pool) c u m = elim (Bool-cases (is_eligible s)) [
  | inl e ↦
      Or.elim (Bool-set _ _) (mem-cons.0 (subst (Mem c) (collect_some k s pool e) m))
        (λ q.
          subst (λ n. eligible_at ((k, s) ∷ pool) n ≡ true) (sym (ap (λ x. x.name) q))
            (eligible_at_self k s pool e))
        (λ n. eligible_at-tail c.name k s pool u.0 (collect-eligible pool c u.1 n))
  | inr e ↦
      eligible_at-tail c.name k s pool u.0
        (collect-eligible pool c u.1 (subst (Mem c) (collect_skip k s pool e) m))
]

lookup_cons :
    (k name : String) (t s : ServerPoolState) (pool : ServerPool)
    → lookup name ((k, t) ∷ pool) ≡ some s
    → ((k ≡ name) × (t ≡ s)) ⊎ (lookup name pool ≡ some s)
unfolding lookup
lookup_cons k name t s pool l = ground (arith, eq_iff k name)

mem-collect-cons :
    (k : String) (t : ServerPoolState) (pool : ServerPool) {c : GameServerInfo}
    → Mem c (collect_candidates pool)
    → Mem c (collect_candidates ((k, t) ∷ pool))
mem-collect-cons k t pool {c} m = elim (Bool-cases (is_eligible t)) [
  | inl e ↦ subst (Mem c) (sym (collect_some k t pool e)) (mem-cons_of_mem _ m)
  | inr e ↦ subst (Mem c) (sym (collect_skip k t pool e)) m
]

pub collect-mem :
    (pool : ServerPool) (name : String) (s : ServerPoolState)
    → lookup name pool ≡ some s
    → is_eligible s ≡ true
    → Mem (candidate name s) (collect_candidates pool)
unfolding lookup
collect-mem [] name s l e = cc
collect-mem ((k, t) ∷ pool) name s l e = elim (lookup_cons k name t s pool l) [
  | inl (p, q) ↦
      subst (Mem (candidate name s)) (sym (collect_some k t pool (rw q e)))
        (rw (p, q) mem-cons_self)
  | inr r ↦ mem-collect-cons k t pool (collect-mem pool name s r e)
]

-- No candidate is marked as allocated.
pub collect_unallocated :
    (pool : ServerPool) (c : GameServerInfo) → Mem c (collect_candidates pool) → c.allocated ≡ false
unfolding collect_candidates
collect_unallocated [] c m = absurd (not-mem-nil m)
collect_unallocated ((k, s) ∷ pool) c m = elim (Bool-cases (is_eligible s)) [
  | inl e ↦
      Or.elim (Bool-set _ _) (mem-cons.0 (subst (Mem c) (collect_some k s pool e) m))
        (λ q. ap (λ x. x.allocated) q) (collect_unallocated pool c)
  | inr e ↦ collect_unallocated pool c (subst (Mem c) (collect_skip k s pool e) m)
]
