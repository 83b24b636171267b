-- ===== src/Cooldown.antt =====
-- pkg/controller/fleet_controller.go: the cooldown between two scalings of a fleet. Times and
-- durations are in nanoseconds.
use game_server_orchestrator.Prelude.{
  String, ℕ, ◌↔◌, ◌/◌, ◌<◌, Bool, true, ◌&&◌, Option, none, some, arith, if◌then◌else◌,
}
use native.Mathlib.Nat.{div-add-mod, mod-lt}
use game_server_orchestrator.Prelude.Int.{
  ℤ, pos, negsuc, ◌-ℤ◌, ◌*ℤ◌, ◌/ℤ◌, ◌<ℤ◌, ◌≤ℤ◌, ltb_ℤ, quotient_pos, product_pos, int_laws,
}
use game_server_orchestrator.Prelude.Dict.{Dict, lookup, insert, lookup-insert_self}
use game_server_orchestrator.V1alpha1.Policy.{CooldownConfig}
use game_server_orchestrator.Drainer.{second}

-- The two maps of the reconciler that hold the last scalings. A nil map reads as an empty one.
pub record Cooldowns : Type 0 where
  pub last_scale_up_at : Dict ℤ
  pub last_scale_down_at : Dict ℤ

-- `recordScaleUp` and `recordScaleDown`
unfoldable pub record_scale_up : ℤ → String → Cooldowns → Cooldowns
record_scale_up now fleet c = record c { last_scale_up_at = insert fleet now c.last_scale_up_at }

unfoldable pub record_scale_down : ℤ → String → Cooldowns → Cooldowns
record_scale_down now fleet c = record c {
  last_scale_down_at = insert fleet now c.last_scale_down_at;
}

-- The rest of the window, cut to whole seconds.
unfoldable pub remaining_window : ℤ → ℤ → Option ℤ → ℤ
remaining_window now seconds none = pos 0
remaining_window now seconds (some last) =
    if ltb_ℤ (pos 0) seconds && ltb_ℤ (now -ℤ last) (seconds *ℤ second)
    then (((seconds *ℤ second) -ℤ (now -ℤ last)) /ℤ second) *ℤ second
    else pos 0

-- `cooldownRemaining`
unfoldable pub cooldown_remaining : ℤ → String → CooldownConfig → Bool → Cooldowns → ℤ
cooldown_remaining now fleet cfg is_scale_up c =
    if is_scale_up
    then remaining_window now cfg.scale_up_seconds (lookup fleet c.last_scale_up_at)
    else remaining_window now cfg.scale_down_seconds (lookup fleet c.last_scale_down_at)

below_second : 0 < 1000000000
below_second = omega arith

truncated_pos : (n : ℕ) → (pos 0 <ℤ ((pos n /ℤ second) *ℤ second)) ↔ (second ≤ℤ pos n)
truncated_pos n =
    let parts = div-add-mod n 1000000000 in
    rw (quotient_pos n 1000000000, product_pos (n / 1000000000) 1000000000)
      (λ h. omega (arith, h, parts), λ h. omega (arith, h, parts, mod-lt n below_second))

truncated : (d : ℤ) → (pos 0 <ℤ ((d /ℤ second) *ℤ second)) ↔ (second ≤ℤ d)
unfolding ◌/ℤ◌ ◌*ℤ◌
truncated (pos n) = truncated_pos n
truncated (negsuc n) = (λ h. absurd (ground (arith, h)), λ h. absurd (omega (arith, h)))

-- With a positive window, a scale-up holds back the next one of its fleet for its window, less the part of the last second
-- that the truncation cuts off: at `now` there is time left exactly when at least one whole second
-- of the window is left.
pub cooldown_remaining-record_scale_up :
    (now last : ℤ) (fleet : String) (cfg : CooldownConfig) (c : Cooldowns)
    → pos 0 <ℤ cfg.scale_up_seconds
    → (pos 0 <ℤ cooldown_remaining now fleet cfg true (record_scale_up last fleet c))
      ↔ ((now -ℤ last) ≤ℤ ((cfg.scale_up_seconds *ℤ second) -ℤ second))
unfolding cooldown_remaining record_scale_up remaining_window
cooldown_remaining-record_scale_up now last fleet cfg c h =
    rw (lookup-insert_self fleet last c.last_scale_up_at)
      (grind (int_laws, truncated ((cfg.scale_up_seconds *ℤ second) -ℤ (now -ℤ last)), h))
