-- ===== src/Pool/Abstract.antt =====
-- The pool as its callers see it: for every server of every fleet whether it is known, allocated and
-- healthy; and what a call may do to that view.
use mathlib.Core.Option
use game_server_orchestrator.Prelude.{
  String, ◌≡◌, ◌⊎◌, Bool, true, false, ◌&&◌, Option, none, some, [], if◌then◌else◌,
}
use game_server_orchestrator.Prelude.Text.{str_eq}
use game_server_orchestrator.Prelude.Dict.{Dict}
use game_server_orchestrator.Pool.State.{PoolManager, ServerPoolState, server_of}
use game_server_orchestrator.Pool.Calls.{
  Call, update_fleet_configs, registers, allocates, allocates_with_filter, releases,
  marks_allocated, marks_available, marks_unhealthy, removes,
}
use game_server_orchestrator.Pool.Allocation.Outcome.{Passes}

-- What a caller sees of a server: whether it is allocated, and whether it is healthy.
abbrev pub flags : Option ServerPoolState → Option (Bool × Bool)
flags none = none
flags (some s) = some (s.allocated, s.healthy)

abbrev pub View : Type 0
View = String → String → Option (Bool × Bool)

abbrev pub view : PoolManager → View
view pm g k = flags (server_of pm g k)

-- A server that an allocation may take.
abbrev pub free : Option (Bool × Bool)
free = some (false, true)

-- Only one server changes, by a function of what was seen of it.
abbrev pub Writes :
    String → String → (Option (Bool × Bool) → Option (Bool × Bool)) → View → View → Type 0
Writes fleet name f v v' =
    (g k : String) → v' g k ≡ (if str_eq fleet g && str_eq name k then f (v g k) else v g k)

abbrev pub Same : View → View → Type 0
Same v v' = (g k : String) → v' g k ≡ v g k

-- An allocation takes a free server that passes the filter, or changes nothing if there is none.
abbrev pub Allocates : String → Dict Bool → View → View → Type 0
Allocates fleet allowed v v' =
    ((name : String) × (v fleet name ≡ free)
      × Passes allowed name
      × Writes fleet name (λ _. some (true, true)) v v')
    ⊎ (Same v v' × ((k : String) → v fleet k ≡ free → ¬ Passes allowed k))

-- What a call does to the view.
abbrev pub Specifies : Call → View → View → Type 0
Specifies (update_fleet_configs g cfg) v v' = Same v v'
Specifies (registers g k) v v' = Writes g k (λ o. elim o [ none ↦ free | some s ↦ some s ]) v v'
Specifies (allocates g strategy) v v' = Allocates g [] v v'
Specifies (allocates_with_filter g strategy allowed) v v' = Allocates g allowed v v'
Specifies (releases g k) v v' = Writes g k (Option.map (λ s. (false, s.1))) v v'
Specifies (marks_allocated g k) v v' = Writes g k (Option.map (λ s. (true, s.1))) v v'
Specifies (marks_available g k) v v' = Writes g k (Option.map (λ s. (false, true))) v v'
Specifies (marks_unhealthy g k) v v' = Writes g k (Option.map (λ s. (s.0, false))) v v'
Specifies (removes g k) v v' = Writes g k (λ o. none) v v'
