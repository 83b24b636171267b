-- ===== src/RateLimiter.antt =====
-- pkg/api/middleware.go: the token bucket in front of the REST API. A count of tokens is a Go int,
-- far from its bound.
pub mod Rate
use game_server_orchestrator.Prelude.{
  ◌≡◌, Bool, true, false, List, [], ◌∷◌, arith, inl, inr, Bool-cases, if◌then◌else◌,
}
use game_server_orchestrator.Prelude.Int.{ℤ, pos, ◌+ℤ◌, ◌-ℤ◌, ◌≤ℤ◌, ◌<ℤ◌, ltb_ℤ, leb_ℤ, int_laws}
use game_server_orchestrator.Prelude.Float.{Float64}
use game_server_orchestrator.Drainer.{second}

pub record RateLimiter : Type 0 where
  pub rate : ℤ
  pub interval : ℤ
  pub tokens : ℤ
  pub last_fill : ℤ

-- `NewRateLimiter`
unfoldable pub new_rate_limiter : ℤ → ℤ → RateLimiter
new_rate_limiter now rate_per_second =
    let rate = if leb_ℤ rate_per_second (pos 0) then pos 100 else rate_per_second in
    record { rate = rate; interval = second; tokens = rate; last_fill = now }

-- The tokens never leave the range from none to the rate.
abbrev pub IsLimited : RateLimiter → Type 0
IsLimited rl = (pos 0 <ℤ rl.rate) × (pos 0 ≤ℤ rl.tokens) × (rl.tokens ≤ℤ rl.rate)

pub new_rate_limiter-IsLimited :
    (now rate_per_second : ℤ) → IsLimited (new_rate_limiter now rate_per_second)
unfolding new_rate_limiter
new_rate_limiter-IsLimited now rate_per_second = elim (Bool-cases (leb_ℤ rate_per_second (pos 0))) [
  | inl low ↦ simp (low, new_rate_limiter) (omega arith, omega arith, omega arith)
  | inr high ↦
      simp (high, new_rate_limiter) (grind (int_laws, high), grind (int_laws, high), omega arith)
]

-- `seconds` is Duration.Seconds.
module _ {F : Type 0} ⦃fl : Float64 F⦄ (seconds : ℤ → F) where
  -- The tokens for the time since the last fill.
  unfoldable pub new_tokens : ℤ → RateLimiter → ℤ
  new_tokens now rl = fl.to_int (fl.mul (seconds (now -ℤ rl.last_fill)) (fl.of_int rl.rate))

  -- The first half of `Allow`.
  unfoldable pub fill : ℤ → RateLimiter → RateLimiter
  fill now rl =
      let fresh = new_tokens now rl in
      if ltb_ℤ (pos 0) fresh
      then record rl {
        tokens = (if ltb_ℤ rl.rate (rl.tokens +ℤ fresh) then rl.rate else rl.tokens +ℤ fresh);
        last_fill = now;
      }
      else rl

  unfoldable pub spend : RateLimiter → Bool × RateLimiter
  spend rl =
      if ltb_ℤ (pos 0) rl.tokens
      then (true, record rl { tokens = rl.tokens -ℤ pos 1 })
      else (false, rl)

  -- `Allow`
  unfoldable pub allow : ℤ → RateLimiter → Bool × RateLimiter
  allow now rl = spend (fill now rl)

  -- The requests that pass, of requests at these times, and the limiter after them.
  unfoldable pub admit : List ℤ → RateLimiter → ℤ × RateLimiter
  admit [] rl = (pos 0, rl)
  admit (now ∷ times) rl =
      let (passed, after) = allow now rl in
      let (rest, final) = admit times after in ((if passed then rest +ℤ pos 1 else rest), final)

  pub fill-IsLimited : (now : ℤ) (rl : RateLimiter) → IsLimited rl → IsLimited (fill now rl)
  unfolding fill
  fill-IsLimited now rl (r, low, high) = elim (Bool-cases (ltb_ℤ (pos 0) (new_tokens now rl))) [
    | inl more ↦ elim (Bool-cases (ltb_ℤ rl.rate (rl.tokens +ℤ new_tokens now rl))) [
      | inl full ↦ simp (more, full, fill) (r, grind (int_laws, r), grind (int_laws))
      | inr fits ↦ simp (more, fits, fill) (r, grind (int_laws, low, more), grind (int_laws, fits))
    ]
    | inr none_new ↦ simp (none_new, fill) (r, low, high)
  ]

  pub spend-IsLimited : (rl : RateLimiter) → IsLimited rl → IsLimited (spend rl).1
  unfolding spend
  spend-IsLimited rl (r, low, high) = elim (Bool-cases (ltb_ℤ (pos 0) rl.tokens)) [
    | inl some_left ↦
        simp (some_left, spend) (r, grind (int_laws, some_left), grind (int_laws, high))
    | inr empty ↦ simp (empty, spend) (r, low, high)
  ]

  pub allow-IsLimited : (now : ℤ) (rl : RateLimiter) → IsLimited rl → IsLimited (allow now rl).1
  unfolding allow
  allow-IsLimited now rl l = spend-IsLimited (fill now rl) (fill-IsLimited now rl l)

  admit-IsLimited :
      (times : List ℤ) (rl : RateLimiter) → IsLimited rl → IsLimited (admit times rl).1
  unfolding admit allow
  admit-IsLimited [] rl l = l
  admit-IsLimited (now ∷ times) rl l =
      admit-IsLimited times _ (spend-IsLimited (fill now rl) (fill-IsLimited now rl l))

  -- Whatever rate is asked for, and whatever the clock and the floats do, the limiter's rate is
  -- positive and its tokens stay between none and the rate.
  admit-new-IsLimited :
      (began rate_per_second : ℤ) (times : List ℤ)
      → IsLimited (admit times (new_rate_limiter began rate_per_second)).1
  admit-new-IsLimited began rate_per_second times =
      admit-IsLimited times _ (new_rate_limiter-IsLimited began rate_per_second)
