-- ===== src/Prelude/Float.antt =====
-- Go's float64, as an interface: the theory has no floats, so the code that computes with them
-- takes the operations that it calls as an instance.
use mathlib.Core.Bool.{Bool}
use game_server_orchestrator.Prelude.Int.{ℤ}

pub record Float64 (F : Type 0) : Type 0 where
  pub lt : F → F → Bool
  pub le : F → F → Bool
  pub add : F → F → F
  pub mul : F → F → F
  pub div : F → F → F
  -- `float64(n)`, and a literal without a fraction.
  pub of_int : ℤ → F
  -- `int32(x)`, whose result out of range Go leaves open.
  pub to_int32 : F → ℤ
  -- `int(x)`
  pub to_int : F → ℤ
