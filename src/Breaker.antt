-- ===== src/Breaker.antt =====
-- pkg/controller/fleet_controller.go: the circuit breaker of each fleet. A nil map reads as an
-- empty one. Times are in nanoseconds; the counters are Go ints, far from their bound.
pub mod History
use game_server_orchestrator.Prelude.{
  String, ℕ, suc, Bool, true, false, Option, none, some, [], leb, if◌then◌else◌,
}
use game_server_orchestrator.Prelude.Int.{ℤ, pos, ◌+ℤ◌, ltb_ℤ}
use game_server_orchestrator.Prelude.Dict.{Dict, lookup, insert, erase, get_or}

-- The two maps of the reconciler that the breaker owns.
pub record Breaker : Type 0 where
  pub consecutive_failures : Dict ℕ
  pub circuit_open_until : Dict ℤ

abbrev pub new_breaker : Breaker
new_breaker = record { consecutive_failures = []; circuit_open_until = [] }

-- 5 * time.Minute
abbrev pub open_period : ℤ
open_period = pos 300000000000

-- `recordFailure`
unfoldable pub record_failure : ℤ → String → Breaker → Breaker
record_failure now fleet b =
    let count = suc (get_or 0 fleet b.consecutive_failures) in
    record {
      consecutive_failures = insert fleet count b.consecutive_failures;
      circuit_open_until =
          (if leb 5 count
            then insert fleet (now +ℤ open_period) b.circuit_open_until
            else b.circuit_open_until);
    }

-- Whether `recordFailure` counts the breaker as triggered.
unfoldable pub trips : String → Breaker → Bool
trips fleet b = leb 5 (suc (get_or 0 fleet b.consecutive_failures))

-- `resetCircuit`
unfoldable pub reset_circuit : String → Breaker → Breaker
reset_circuit fleet b = record {
  consecutive_failures = erase fleet b.consecutive_failures;
  circuit_open_until = erase fleet b.circuit_open_until;
}

-- `isCircuitOpen`, which forgets the period when it has passed.
unfoldable pub is_circuit_open : ℤ → String → Breaker → Bool × Breaker
is_circuit_open now fleet b = elim (lookup fleet b.circuit_open_until) [
  | none ↦ (false, b)
  | some until ↦
      if ltb_ℤ until now
      then (false, record b { circuit_open_until = erase fleet b.circuit_open_until })
      else (true, b)
]
