-- ===== src/Pool/Scheduler/Choice.antt =====
-- What RankAndSelect and SelectForDrain choose.
use mathlib.Core.List.{Mem, Perm, not-mem-nil}
use mathlib.Core.List.Perm
use mathlib.Core.Bool.{false≢true}
use game_server_orchestrator.Prelude.{
  String, ℕ, zero, suc, ◌≡◌, refl, sym, ap, ◌∙◌, ◌↔◌, inl, inr, Bool, true, false, none, some, List,
  [], ◌∷◌, ◌++◌, length, length-take, take, min, drop, take-append-drop, mem-filter, filter-perm,
  arith, Bool-cases, Option-cases, ◌==◌, subst, if◌then◌else◌,
}
use game_server_orchestrator.Prelude.Sort.{
  sort_slice, sort_slice-perm, sort_slice-IsSorted, sort_slice_head, sort_slice-perm_invariant,
  length-sort_slice, HasNames, HasNames-sub, IsSorted,
}
use game_server_orchestrator.V1alpha1.Policy.{AllocationStrategy}
use game_server_orchestrator.Pool.Scheduler.{
  GameServerInfo, available, first, less_for, fewer_players, rank_and_select, select_for_drain,
}
use game_server_orchestrator.Pool.Scheduler.Orders.{less_for-IsLess, fewer_players-IsLess}

-- The early return for an empty list answers what ranking it answers.
first_of_nonempty :
    (less : GameServerInfo → GameServerInfo → Bool) (l : List GameServerInfo)
    → (if length l == 0 then none else first (sort_slice less l)) ≡ first (sort_slice less l)
unfolding sort_slice
first_of_nonempty less [] = refl
first_of_nonempty less (c ∷ l) = ground arith

rank_and_select-first :
    (cs : List GameServerInfo) (strategy : AllocationStrategy) (regions : List String)
    → rank_and_select cs strategy regions ≡ first (sort_slice (less_for strategy) (available cs))
unfolding rank_and_select
rank_and_select-first [] strategy regions = unfold available sort_slice in refl
rank_and_select-first (c ∷ cs) strategy regions =
    let some_candidate : (length (c ∷ cs) == 0) ≡ false = ground arith in
    rw (some_candidate, rank_and_select)
      (first_of_nonempty (less_for strategy) (available (c ∷ cs)))

first_sorted :
    (strategy : AllocationStrategy) (l s : List GameServerInfo) {c : GameServerInfo}
    → sort_slice (less_for strategy) l ≡ s
    → first s ≡ some c
    → Mem c l × ((d : GameServerInfo) → Mem d l → less_for strategy d c ≡ false)
first_sorted strategy l [] e h = cc
first_sorted strategy l (a ∷ r) {c} e h =
    let same : a ≡ c = cc in
    subst (λ x. Mem x l × ((d : GameServerInfo) → Mem d l → less_for strategy d x ≡ false)) same
      (sort_slice_head (less_for-IsLess strategy) l e)

first-none :
    (strategy : AllocationStrategy) (l s : List GameServerInfo)
    → sort_slice (less_for strategy) l ≡ s
    → first s ≡ none
    → l ≡ []
first-none strategy l [] e h =
    Perm.eq-nil (Perm.symm (rw e at (sort_slice-perm (less_for strategy) l)))
first-none strategy l (a ∷ r) e h = cc

mem-available :
    {c : GameServerInfo} (cs : List GameServerInfo)
    → Mem c (available cs) ↔ (Mem c cs × (c.allocated ≡ false))
unfolding available
mem-available {c} cs = (
  λ m. let (a, b) = (mem-filter _ cs).0 m in (a, ground arith),
  λ h. (mem-filter _ cs).1 (h.0, ground arith),
)

-- What a strategy chooses is an unallocated candidate that no unallocated candidate is ranked
-- before.
pub rank_and_select_best :
    (cs : List GameServerInfo) (strategy : AllocationStrategy) (regions : List String)
    {c : GameServerInfo}
    → rank_and_select cs strategy regions ≡ some c
    → Mem c cs
      × (c.allocated ≡ false)
      × ((d : GameServerInfo) → Mem d cs → d.allocated ≡ false → less_for strategy d c ≡ false)
rank_and_select_best cs strategy regions {c} h =
    let (m, best) =
      first_sorted strategy (available cs) _ refl
        (sym (rank_and_select-first cs strategy regions) ∙ h) in
    let (n, free) = (mem-available cs).0 m in
    (n, free, λ d k e. best d ((mem-available cs).1 (k, e)))

-- There is a choice exactly when some candidate is unallocated.
pub rank_and_select-none :
    (cs : List GameServerInfo) (strategy : AllocationStrategy) (regions : List String)
    → (rank_and_select cs strategy regions ≡ none)
      ↔ ((d : GameServerInfo) → Mem d cs → d.allocated ≡ true)
rank_and_select-none cs strategy regions = (
  λ h d m. elim (Bool-cases d.allocated) [
    | inl taken ↦ taken
    | inr free ↦
        let empty : available cs ≡ [] =
          first-none strategy (available cs) _ refl
            (sym (rank_and_select-first cs strategy regions) ∙ h) in
        absurd (not-mem-nil (subst (Mem d) empty ((mem-available cs).1 (m, free))))
  ],
  λ h. elim (Option-cases (rank_and_select cs strategy regions)) [
    | inl e ↦ e
    | inr (c, e) ↦
        let (m, free, _) = rank_and_select_best cs strategy regions e in
        absurd (false≢true (sym free ∙ h c m))
  ],
)

-- Candidates with different names are ranked alike in whatever order they come.
rank_and_select_deterministic :
    (cs ds : List GameServerInfo) (strategy : AllocationStrategy) (regions : List String)
    → HasNames (λ c. c.name) cs
    → Perm cs ds
    → rank_and_select cs strategy regions ≡ rank_and_select ds strategy regions
unfolding available
rank_and_select_deterministic cs ds strategy regions u q =
    rank_and_select-first cs strategy regions
    ∙ ap first (
        sort_slice-perm_invariant (less_for-IsLess strategy) (available cs) (available ds)
          (HasNames-sub (λ x m. ((mem-available cs).0 m).0) u) (filter-perm _ q))
    ∙ sym (rank_and_select-first ds strategy regions)

take_nil : (n : ℕ) (l : List GameServerInfo) → l ≡ [] → take n l ≡ []
take_nil zero l e = refl
take_nil (suc n) l e = rw e

pub select_for_drain-take :
    (cs : List GameServerInfo) (count : ℕ)
    → select_for_drain cs count ≡ take (min count (length cs)) (sort_slice fewer_players cs)
unfolding select_for_drain sort_slice
select_for_drain-take [] count = sym (take_nil (min count 0) [] refl)
select_for_drain-take (c ∷ cs) count = ground arith

-- The servers to drain come in ascending order of players and names, and none that stays would
-- have come before one of them: with those that stay they make up one sorted permutation. There
-- are as many as asked for, or all.
select_for_drain_prefix :
    (cs : List GameServerInfo) (count : ℕ)
    → (kept : List GameServerInfo) × IsSorted fewer_players (select_for_drain cs count ++ kept)
      × Perm (select_for_drain cs count ++ kept) cs
      × (length (select_for_drain cs count) ≡ min count (length cs))
select_for_drain_prefix cs count =
    let n = min count (length cs) in
    let sorted = sort_slice fewer_players cs in
    let whole : select_for_drain cs count ++ drop n sorted ≡ sorted =
      rw (select_for_drain-take cs count) (take-append-drop n sorted) in
    (
      drop n sorted,
      rw whole (sort_slice-IsSorted fewer_players-IsLess cs),
      rw whole (sort_slice-perm fewer_players cs),
      rw (select_for_drain-take cs count)
          (omega (arith, length-take n sorted, length-sort_slice fewer_players cs)),
    )
