-- ===== src/Prelude/Int.antt =====
-- Signed integers over the native numbers, under the library's names (its ℤ stands on the unary ℕ).
use Prim.Native.Nat.{ℕ, suc, ◌+◌, ◌-◌, ◌*◌, ◌/◌, ◌≤◌}
use mathlib.Core.Path.{◌≡◌, ap}
use mathlib.Core.Bool.{Bool, true}
use mathlib.Core.Logic.{◌↔◌}
use native.Mathlib.Nat.{mul-le-mul_left}
use native.Mathlib.Omega.{arith}
use game_server_orchestrator.Prelude.Tests.{ltb, leb, ◌==◌, if◌then◌else◌}

-- `negsuc n` is -(n + 1).
pub data ℤ : Type 0 where
  pos : ℕ → ℤ
  negsuc : ℕ → ℤ

abbrev pub pos_part : ℤ → ℕ
pos_part (pos n) = n
pos_part (negsuc n) = 0

abbrev pub neg_part : ℤ → ℕ
neg_part (pos n) = 0
neg_part (negsuc n) = suc n

-- a - b, as an integer.
abbrev pub sub_ℕ : ℕ → ℕ → ℤ
sub_ℕ a b = if leb b a then pos (a - b) else negsuc (b - a - 1)

infixl 65 ◌+ℤ◌ ◌-ℤ◌
infixl 70 ◌*ℤ◌ ◌/ℤ◌
infix 50 ◌≤ℤ◌ ◌<ℤ◌
unfoldable pub ◌+ℤ◌ : ℤ → ℤ → ℤ
a +ℤ b = sub_ℕ (pos_part a + pos_part b) (neg_part a + neg_part b)

unfoldable pub ◌-ℤ◌ : ℤ → ℤ → ℤ
a -ℤ b = sub_ℕ (pos_part a + neg_part b) (neg_part a + pos_part b)

unfoldable pub ◌*ℤ◌ : ℤ → ℤ → ℤ
a *ℤ b =
    sub_ℕ (pos_part a * pos_part b + neg_part a * neg_part b)
      (pos_part a * neg_part b + neg_part a * pos_part b)

-- Go's division of integers, which truncates towards zero.
unfoldable pub ◌/ℤ◌ : ℤ → ℤ → ℤ
a /ℤ b =
    sub_ℕ (pos_part a / pos_part b + neg_part a / neg_part b)
      (pos_part a / neg_part b + neg_part a / pos_part b)

abbrev pub ◌≤ℤ◌ : ℤ → ℤ → Type 0
a ≤ℤ b = pos_part a + neg_part b ≤ pos_part b + neg_part a

abbrev pub ◌<ℤ◌ : ℤ → ℤ → Type 0
a <ℤ b = suc (pos_part a + neg_part b) ≤ pos_part b + neg_part a

abbrev pub ltb_ℤ : ℤ → ℤ → Bool
ltb_ℤ a b = ltb (pos_part a + neg_part b) (pos_part b + neg_part a)

abbrev pub leb_ℤ : ℤ → ℤ → Bool
leb_ℤ a b = leb (pos_part a + neg_part b) (pos_part b + neg_part a)

abbrev pub eqb_ℤ : ℤ → ℤ → Bool
eqb_ℤ a b = (pos_part a + neg_part b) == (pos_part b + neg_part a)

-- One lemma for each operation lets the tactics work with the operations shut.
pub +ℤ_parts :
    (a b : ℤ)
    → pos_part (a +ℤ b) + neg_part a + neg_part b ≡ neg_part (a +ℤ b) + pos_part a + pos_part b
unfolding ◌+ℤ◌
+ℤ_parts a b = ground arith

pub -ℤ_parts :
    (a b : ℤ)
    → pos_part (a -ℤ b) + neg_part a + pos_part b ≡ neg_part (a -ℤ b) + pos_part a + neg_part b
unfolding ◌-ℤ◌
-ℤ_parts a b = ground arith

pub quotient_pos : (a p : ℕ) → pos a /ℤ pos p ≡ pos (a / p)
unfolding ◌/ℤ◌
quotient_pos a p = ground arith

pub product_pos : (a p : ℕ) → pos a *ℤ pos p ≡ pos (a * p)
unfolding ◌*ℤ◌
product_pos a p = ground arith

pub eq_of_parts : (a b : ℤ) → pos_part a + neg_part b ≡ pos_part b + neg_part a → a ≡ b
eq_of_parts a b h = ground arith

pub eqb_ℤ_iff : (a b : ℤ) → (eqb_ℤ a b ≡ true) ↔ (a ≡ b)
eqb_ℤ_iff a b = (λ h. eq_of_parts a b (ground arith), λ h. ground arith)

pub ruleset int_laws = (arith, +ℤ_parts, -ℤ_parts, eq_of_parts)

pub *ℤ_parts :
    (a b : ℤ)
    → pos_part (a *ℤ b) + (pos_part a * neg_part b + neg_part a * pos_part b)
      ≡ neg_part (a *ℤ b) + (pos_part a * pos_part b + neg_part a * neg_part b)
unfolding ◌*ℤ◌
*ℤ_parts a b = ground arith

pub scale_parts :
    (m : ℕ) (a : ℤ)
    → pos_part (pos m *ℤ a) + m * neg_part a ≡ neg_part (pos m *ℤ a) + m * pos_part a
scale_parts m a = omega (arith, *ℤ_parts (pos m) a)

scaled_difference :
    (m : ℕ) (a b : ℤ)
    → m * pos_part (a -ℤ b) + m * neg_part a + m * pos_part b
      ≡ m * neg_part (a -ℤ b) + m * pos_part a + m * neg_part b
scaled_difference m a b = omega (arith, ap (λ k. m * k) (-ℤ_parts a b))

-- A product of a difference that is taken in two steps.
scaled_split : (m : ℕ) (a b x : ℤ) → pos m *ℤ (a -ℤ b) ≡ (pos m *ℤ (a -ℤ x)) +ℤ (pos m *ℤ (x -ℤ b))
scaled_split m a b x = eq_of_parts _ _ (
    omega (
      arith,
      +ℤ_parts (pos m *ℤ (a -ℤ x)) (pos m *ℤ (x -ℤ b)),
      scale_parts m (a -ℤ b),
      scale_parts m (a -ℤ x),
      scale_parts m (x -ℤ b),
      scaled_difference m a b,
      scaled_difference m a x,
      scaled_difference m x b,
    ))

scaled_le : (m : ℕ) (a b : ℤ) → a ≤ℤ b → (pos m *ℤ a) ≤ℤ (pos m *ℤ b)
scaled_le m a b h =
    let scaled : m * (pos_part a + neg_part b) ≤ m * (pos_part b + neg_part a) =
      mul-le-mul_left m h in
    omega (arith, scale_parts m a, scale_parts m b, scaled)

pub product_split : (c a b x : ℤ) → pos 0 ≤ℤ c → c *ℤ (a -ℤ b) ≡ (c *ℤ (a -ℤ x)) +ℤ (c *ℤ (x -ℤ b))
product_split (pos m) a b x h = scaled_split m a b x
product_split (negsuc m) a b x h = absurd (omega arith)

pub product_le : (c a b : ℤ) → pos 0 ≤ℤ c → a ≤ℤ b → (c *ℤ a) ≤ℤ (c *ℤ b)
product_le (pos m) a b h le = scaled_le m a b le
product_le (negsuc m) a b h le = absurd (omega arith)

pub product_comm : (a b : ℤ) → a *ℤ b ≡ b *ℤ a
product_comm a b = eq_of_parts _ _ (omega (arith, *ℤ_parts a b, *ℤ_parts b a))
