-- ===== src/Pool/Allocation/Choosing.antt =====
-- `choose` picks one of the candidates whenever there is one.
use mathlib.Core.List.{Mem, mem-cons_self, mem-cons_of_mem, not-mem-nil}
use mathlib.Core.List.Perm
use native.Mathlib.Nat.{mod-lt}
use game_server_orchestrator.Prelude.{
  String, ℕ, zero, suc, ◌+◌, ◌%◌, ◌<◌, ◌≡◌, ◌≢◌, subst, refl, inl, inr, true, false, Option, none,
  some, List, [], ◌∷◌, arith, Bool-cases, Option-cases, length, get_elem?, ◌==◌,
}
use game_server_orchestrator.Prelude.Text.{str_eq}
use game_server_orchestrator.Prelude.Sort.{sort_slice, sort_slice-perm, length-sort_slice}
use game_server_orchestrator.V1alpha1.Policy.{AllocationStrategy, allocation_round_robin}
use game_server_orchestrator.Pool.Scheduler.{GameServerInfo, rank_and_select}
use game_server_orchestrator.Pool.Scheduler.Choice.{rank_and_select_best, rank_and_select-none}
use game_server_orchestrator.Pool.State.{by_name, choose}

mem-get_elem? {ℓ} : {A : Type ℓ} (l : List A) (i : ℕ) {a : A} → get_elem? l i ≡ some a → Mem a l
mem-get_elem? [] i e = cc
mem-get_elem? (x ∷ l) zero {a} e = let same : x ≡ a = cc in rw (← same) mem-cons_self
mem-get_elem? (x ∷ l) (suc i) e = mem-cons_of_mem _ (mem-get_elem? l i e)

nil_of_length {ℓ} : {A : Type ℓ} (l : List A) → length l ≡ 0 → l ≡ []
nil_of_length [] e = refl
nil_of_length (x ∷ l) e = absurd (omega arith)

get_elem?-some {ℓ} :
    {A : Type ℓ} (l : List A) (i : ℕ) → i < length l → (a : A) × (get_elem? l i ≡ some a)
get_elem?-some [] i h = absurd (omega arith)
get_elem?-some (x ∷ l) zero h = (x, refl)
get_elem?-some (x ∷ l) (suc i) h = get_elem?-some l i (omega arith)

-- The three branches of `choose`, the first element of a sort read at an index below its length.
choose_empty :
    (cs : List GameServerInfo) (strategy : AllocationStrategy) (idx : ℕ)
    → (length cs == 0) ≡ true
    → choose cs strategy idx ≡ none
unfolding choose
choose_empty cs strategy idx e = rw e

pub choose_round_robin :
    (cs : List GameServerInfo) (strategy : AllocationStrategy) (idx : ℕ)
    → (length cs == 0) ≡ false
    → str_eq strategy allocation_round_robin ≡ true
    → (c : GameServerInfo) × (get_elem? (sort_slice by_name cs) (idx % length cs) ≡ some c)
      × (choose cs strategy idx ≡ some (c.name, some (idx % length cs + 1)))
unfolding choose
choose_round_robin cs strategy idx e r =
    let (c, at) =
      get_elem?-some (sort_slice by_name cs) (idx % length cs)
        (rw (length-sort_slice by_name cs) (mod-lt idx (ground arith))) in
    (c, at, rw (e, r, at))

choose_ranked :
    (cs : List GameServerInfo) (strategy : AllocationStrategy) (idx : ℕ) (c : Option GameServerInfo)
    → (length cs == 0) ≡ false
    → str_eq strategy allocation_round_robin ≡ false
    → rank_and_select cs strategy [] ≡ c
    → choose cs strategy idx ≡ elim c [ none ↦ none | some x ↦ some (x.name, none) ]
unfolding choose
choose_ranked cs strategy idx c e r k = rw (e, r, k)

-- The chosen name is a candidate's name.
pub choose_mem :
    (cs : List GameServerInfo) (strategy : AllocationStrategy) (idx : ℕ) {name : String}
    {i : Option ℕ}
    → choose cs strategy idx ≡ some (name, i)
    → (c : GameServerInfo) × Mem c cs × (c.name ≡ name)
choose_mem cs strategy idx {name} {i} e = elim (Bool-cases (length cs == 0)) [
  | inl empty ↦ absurd (cc (choose_empty cs strategy idx empty))
  | inr some_candidate ↦ elim (Bool-cases (str_eq strategy allocation_round_robin)) [
    | inl rr ↦
        let (c, at, chosen) = choose_round_robin cs strategy idx some_candidate rr in
        (
          c,
          (Perm.mem_iff (sort_slice-perm by_name cs)).0
              (mem-get_elem? (sort_slice by_name cs) _ at),
          ground (arith, chosen, e),
        )
    | inr ranked ↦ elim (Option-cases (rank_and_select cs strategy [])) [
      | inl k ↦ absurd (cc (choose_ranked cs strategy idx none some_candidate ranked k))
      | inr (c, k) ↦ (
        c,
        (rank_and_select_best cs strategy [] k).0,
        ground (arith, choose_ranked cs strategy idx (some c) some_candidate ranked k, e),
      )
    ]
  ]
]

-- Unallocated candidates always yield a choice.
pub choose_total :
    (cs : List GameServerInfo) (strategy : AllocationStrategy) (idx : ℕ) (d : GameServerInfo)
    → ((c : GameServerInfo) → Mem c cs → c.allocated ≡ false)
    → Mem d cs
    → choose cs strategy idx ≢ none
choose_total cs strategy idx d free m e = elim (Bool-cases (length cs == 0)) [
  | inl empty ↦ not-mem-nil (subst (Mem d) (nil_of_length cs (ground arith)) m)
  | inr some_candidate ↦ elim (Bool-cases (str_eq strategy allocation_round_robin)) [
    | inl rr ↦
        let (c, at, chosen) = choose_round_robin cs strategy idx some_candidate rr in cc chosen
    | inr ranked ↦ elim (Option-cases (rank_and_select cs strategy [])) [
      | inl k ↦ cc (free d m, (rank_and_select-none cs strategy []).0 k d m)
      | inr (c, k) ↦ cc (choose_ranked cs strategy idx (some c) some_candidate ranked k)
    ]
  ]
]
