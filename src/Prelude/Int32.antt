-- ===== src/Prelude/Int32.antt =====
-- Go's int32: an integer from -2^31 up to 2^31 - 1, whose operations wrap round.
use Prim.Native.Nat.{ℕ, ◌+◌, ◌-◌, ◌%◌, ◌^◌, ◌≤◌, ◌<◌}
use mathlib.Core.Path.{◌≡◌}
use native.Mathlib.Omega.{arith}
use game_server_orchestrator.Prelude.Tests.{ltb, if◌then◌else◌}
use game_server_orchestrator.Prelude.Int.{ℤ, pos, negsuc, pos_part, neg_part, ◌+ℤ◌, ◌-ℤ◌, ◌/ℤ◌}

-- The integer that a 32-bit pattern stands for, in two's complement.
abbrev of_bits : ℕ → ℤ
of_bits w = if ltb w (2 ^ 31) then pos w else negsuc (2 ^ 32 - 1 - w)

-- The int32 that Go's conversion makes of an integer.
unfoldable pub wrap32 : ℤ → ℤ
wrap32 z = of_bits ((pos_part z % 2 ^ 32 + (2 ^ 32 - neg_part z % 2 ^ 32)) % 2 ^ 32)

unfoldable pub add32 : ℤ → ℤ → ℤ
add32 a b = wrap32 (a +ℤ b)

unfoldable pub sub32 : ℤ → ℤ → ℤ
sub32 a b = wrap32 (a -ℤ b)

unfoldable pub div32 : ℤ → ℤ → ℤ
div32 a b = wrap32 (a /ℤ b)

pub record IsInt32 (z : ℤ) : Type 0 where
  pub below : pos_part z < 2 ^ 31
  pub above : neg_part z ≤ 2 ^ 31

-- A value in range is left alone.
pub wrap32_id : (z : ℤ) → IsInt32 z → wrap32 z ≡ z
unfolding wrap32
wrap32_id z h = ground arith

-- Every value of `wrap32` is in range.
pub wrap32-IsInt32 : (z : ℤ) → IsInt32 (wrap32 z)
unfolding wrap32
wrap32-IsInt32 z = ground arith

-- A sum that wraps round at every step wraps round once.
pub wrap32_add : (a b : ℤ) → add32 (wrap32 a) b ≡ wrap32 (a +ℤ b)
unfolding add32 wrap32 ◌+ℤ◌
wrap32_add (pos a) (pos b) = ground arith
wrap32_add (pos a) (negsuc b) = ground arith
wrap32_add (negsuc a) (pos b) = ground arith
wrap32_add (negsuc a) (negsuc b) = ground arith

pub wrap32_zero : wrap32 (pos 0) ≡ pos 0
wrap32_zero = wrap32_id (pos 0) (record { below = omega arith; above = omega arith })
