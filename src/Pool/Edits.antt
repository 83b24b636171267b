-- ===== src/Pool/Edits.antt =====
-- Histories of calls on one fleet that allocate nothing, as the reconciliation of a fleet makes them.
use game_server_orchestrator.Prelude.{
  String, ◌≡◌, refl, sym, ap, ◌∙◌, subst, Bool, true, false, List, [], ◌∷◌, ◌++◌, All, arith,
}
use game_server_orchestrator.Prelude.Int.{ℤ}
use game_server_orchestrator.Prelude.Text.{str_eq, eq_iff}
use game_server_orchestrator.Pool.State.{
  PoolManager, server_of, ensure_fleet, release_server, take_server, free_server, sicken,
  update_fleet_config, release, mark_allocated, mark_available, mark_unhealthy,
}
use game_server_orchestrator.Pool.Calls.{
  Call, update_fleet_configs, registers, allocates, allocates_with_filter, releases,
  marks_allocated, marks_available, marks_unhealthy, removes, step, run,
}
use game_server_orchestrator.Pool.Frame.{
  server_of-update_server, server_of-ensure_fleet, server_of-register, server_of-remove_ne,
}
use game_server_orchestrator.Pool.Invariant.{IsValid, run-IsValid}

abbrev pub edits : String → Call → Bool
edits fleet (update_fleet_configs g cfg) = str_eq g fleet
edits fleet (registers g k) = str_eq g fleet
edits fleet (releases g k) = str_eq g fleet
edits fleet (marks_allocated g k) = str_eq g fleet
edits fleet (marks_available g k) = str_eq g fleet
edits fleet (marks_unhealthy g k) = str_eq g fleet
edits fleet (removes g k) = str_eq g fleet
edits fleet (allocates g strategy) = false
edits fleet (allocates_with_filter g strategy allowed) = false

-- Such a history leads from the one manager to the other.
abbrev pub Edits : String → PoolManager → PoolManager → Type 0
Edits fleet pm pm' =
    (calls : List (ℤ × Call)) × All (λ c. edits fleet c.1 ≡ true) calls × (run calls pm ≡ pm')

pub Edits-refl : (fleet : String) (pm : PoolManager) → Edits fleet pm pm
unfolding run
Edits-refl fleet pm = ([], tt, refl)

pub Edits-step :
    (fleet : String) (now : ℤ) (c : Call) (pm : PoolManager)
    → edits fleet c ≡ true
    → Edits fleet pm (step now c pm)
unfolding run
Edits-step fleet now c pm h = ((now, c) ∷ [], (h, tt), refl)

run-append :
    (calls more : List (ℤ × Call)) (pm : PoolManager)
    → run (calls ++ more) pm ≡ run more (run calls pm)
unfolding run
run-append [] more pm = refl
run-append ((now, c) ∷ calls) more pm = run-append calls more (step now c pm)

All-append :
    (P : ℤ × Call → Type 0) (calls more : List (ℤ × Call))
    → All P calls
    → All P more
    → All P (calls ++ more)
All-append P [] more a b = b
All-append P (c ∷ calls) more (p, a) b = (p, All-append P calls more a b)

pub Edits-trans :
    (fleet : String) (pm pm' pm'' : PoolManager)
    → Edits fleet pm pm'
    → Edits fleet pm' pm''
    → Edits fleet pm pm''
Edits-trans fleet pm pm' pm'' (calls, a, e) (more, b, f) = (
  calls ++ more,
  All-append (λ c. edits fleet c.1 ≡ true) calls more a b,
  run-append calls more pm ∙ ap (run more) e ∙ f,
)

-- A call on one fleet leaves the servers of the others alone.
step-others :
    (fleet : String) (now : ℤ) (c : Call) (pm : PoolManager) (g k : String)
    → edits fleet c ≡ true
    → str_eq fleet g ≡ false
    → server_of (step now c pm) g k ≡ server_of pm g k
unfolding step release mark_allocated mark_available mark_unhealthy update_fleet_config
step-others fleet now (update_fleet_configs f cfg) pm g k h other = refl
step-others fleet now (registers f n) pm g k h other =
    ground (
      arith,
      h,
      other,
      eq_iff f fleet,
      eq_iff f g,
      eq_iff fleet g,
      server_of-register now pm f n g k,
    )
step-others fleet now (releases f n) pm g k h other = ground (
  arith,
  h,
  other,
  eq_iff f fleet,
  eq_iff f g,
  eq_iff fleet g,
  server_of-update_server pm f n g k (release_server now),
)
step-others fleet now (marks_allocated f n) pm g k h other = ground (
  arith,
  h,
  other,
  eq_iff f fleet,
  eq_iff f g,
  eq_iff fleet g,
  server_of-update_server (ensure_fleet pm f) f n g k (take_server now),
  server_of-ensure_fleet pm f g k,
)
step-others fleet now (marks_available f n) pm g k h other = ground (
  arith,
  h,
  other,
  eq_iff f fleet,
  eq_iff f g,
  eq_iff fleet g,
  server_of-update_server (ensure_fleet pm f) f n g k (free_server now),
  server_of-ensure_fleet pm f g k,
)
step-others fleet now (marks_unhealthy f n) pm g k h other = ground (
  arith,
  h,
  other,
  eq_iff f fleet,
  eq_iff f g,
  eq_iff fleet g,
  server_of-update_server (ensure_fleet pm f) f n g k sicken,
  server_of-ensure_fleet pm f g k,
)
step-others fleet now (removes f n) pm g k h other =
    server_of-remove_ne pm f n g k
      (ground (arith, h, other, eq_iff f fleet, eq_iff f g, eq_iff fleet g))
step-others fleet now (allocates f strategy) pm g k h other = absurd (cc h)
step-others fleet now (allocates_with_filter f strategy allowed) pm g k h other = absurd (cc h)

run-others :
    (fleet : String) (calls : List (ℤ × Call)) (pm : PoolManager) (g k : String)
    → All (λ c. edits fleet c.1 ≡ true) calls
    → str_eq fleet g ≡ false
    → server_of (run calls pm) g k ≡ server_of pm g k
unfolding run
run-others fleet [] pm g k a other = refl
run-others fleet ((now, c) ∷ calls) pm g k (h, a) other =
    run-others fleet calls (step now c pm) g k a other ∙ step-others fleet now c pm g k h other

pub Edits-others :
    (fleet : String) (pm pm' : PoolManager) (g k : String)
    → Edits fleet pm pm'
    → str_eq fleet g ≡ false
    → server_of pm' g k ≡ server_of pm g k
Edits-others fleet pm pm' g k (calls, a, e) other =
    ap (λ m. server_of m g k) (sym e) ∙ run-others fleet calls pm g k a other

pub Edits-IsValid :
    (fleet : String) (pm pm' : PoolManager) → Edits fleet pm pm' → IsValid pm → IsValid pm'
Edits-IsValid fleet pm pm' (calls, a, e) v = subst IsValid e (run-IsValid calls pm v)
