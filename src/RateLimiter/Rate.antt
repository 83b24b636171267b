-- ===== src/RateLimiter/Rate.antt =====
-- How many requests the limiter lets pass in a stretch of time.
use game_server_orchestrator.Prelude.{
  ◌≡◌, refl, sym, ◌∙◌, subst, List, [], ◌∷◌, arith, inl, inr, Bool-cases, if◌then◌else◌,
}
use game_server_orchestrator.Prelude.Int.{
  ℤ, pos, ◌+ℤ◌, ◌-ℤ◌, ◌*ℤ◌, ◌≤ℤ◌, ◌<ℤ◌, ltb_ℤ, +ℤ_parts, -ℤ_parts, *ℤ_parts, scale_parts,
  product_split, product_le, product_comm,
}
use game_server_orchestrator.Prelude.Float.{Float64}
use game_server_orchestrator.Drainer.{second}
use game_server_orchestrator.RateLimiter.{
  RateLimiter, IsLimited, new_tokens, fill, spend, allow, admit, fill-IsLimited, spend-IsLimited,
}

-- The times do not decrease, from `began` to `ended`.
abbrev pub Ascends : ℤ → List ℤ → ℤ → Type 0
Ascends began [] ended = began ≤ℤ ended
Ascends began (now ∷ times) ended = (began ≤ℤ now) × Ascends now times ended

Ascends-le :
    (earlier began : ℤ) (times : List ℤ) (ended : ℤ)
    → earlier ≤ℤ began
    → Ascends began times ended
    → Ascends earlier times ended
Ascends-le earlier began [] ended le a = omega (arith, le, a)
Ascends-le earlier began (now ∷ times) ended le (a, rest) = (omega (arith, le, a), rest)

-- What may pass until `ended`, times the nanoseconds of a second: the tokens there are, and the rate
-- for the time since the last fill.
abbrev pub allowance : ℤ → RateLimiter → ℤ
allowance ended rl = (second *ℤ rl.tokens) +ℤ (rl.rate *ℤ (ended -ℤ rl.last_fill))

refilled :
    (ended now : ℤ) (tokens more rate last : ℤ)
    → pos 0 ≤ℤ rate
    → (second *ℤ more) ≤ℤ ((second *ℤ tokens) +ℤ (rate *ℤ (now -ℤ last)))
    → ((second *ℤ more) +ℤ (rate *ℤ (ended -ℤ now)))
      ≤ℤ ((second *ℤ tokens) +ℤ (rate *ℤ (ended -ℤ last)))
refilled ended now tokens more rate last h le = rw (product_split rate ended last now h) (
    omega (
      arith,
      le,
      +ℤ_parts (second *ℤ more) (rate *ℤ (ended -ℤ now)),
      +ℤ_parts (second *ℤ tokens) (rate *ℤ (now -ℤ last)),
      +ℤ_parts (second *ℤ tokens) ((rate *ℤ (ended -ℤ now)) +ℤ (rate *ℤ (now -ℤ last))),
      +ℤ_parts (rate *ℤ (ended -ℤ now)) (rate *ℤ (now -ℤ last)),
    ))

module _ {F : Type 0} ⦃fl : Float64 F⦄ (seconds : ℤ → F) where
  -- Within a second no fraction of a token is rounded up to a whole one.
  abbrev pub RoundsDown : ℤ → Type 0
  RoundsDown rate =
      (d : ℤ)
      → pos 0 ≤ℤ d
      → d <ℤ second
      → (second *ℤ fl.to_int (fl.mul (seconds d) (fl.of_int rate))) ≤ℤ (rate *ℤ d)

  -- The tokens of a fill, which the rate caps, are those there were and the rate for the time since.
  capped_le :
      (now more : ℤ) (rl : RateLimiter)
      → IsLimited rl
      → RoundsDown rl.rate
      → rl.last_fill ≤ℤ now
      → more ≤ℤ rl.rate
      → more ≤ℤ (rl.tokens +ℤ new_tokens seconds now rl)
      → (second *ℤ more) ≤ℤ ((second *ℤ rl.tokens) +ℤ (rl.rate *ℤ (now -ℤ rl.last_fill)))
  unfolding new_tokens
  capped_le now more rl (r, low, high) down later cap fits =
      let elapsed = now -ℤ rl.last_fill in
      let fresh = new_tokens seconds now rl in
      elim (Bool-cases (ltb_ℤ elapsed second)) [
        | inl short ↦
            let forward : pos 0 ≤ℤ elapsed = omega (arith, -ℤ_parts now rl.last_fill, later) in
            omega (
              arith,
              fits,
              down elapsed forward (ground (arith, short)),
              +ℤ_parts rl.tokens fresh,
              +ℤ_parts (second *ℤ rl.tokens) (rl.rate *ℤ elapsed),
              scale_parts 1000000000 more,
              scale_parts 1000000000 rl.tokens,
              scale_parts 1000000000 fresh,
            )
        | inr long ↦
            let past : second ≤ℤ elapsed = ground (arith, long) in
            omega (
              arith,
              cap,
              low,
              product_le rl.rate second elapsed (omega arith) past,
              subst (λ x. x ≤ℤ (rl.rate *ℤ elapsed)) (product_comm rl.rate second)
                  (product_le rl.rate second elapsed (omega arith) past),
              +ℤ_parts (second *ℤ rl.tokens) (rl.rate *ℤ elapsed),
              scale_parts 1000000000 more,
              scale_parts 1000000000 rl.tokens,
              scale_parts 1000000000 rl.rate,
            )
      ]

  fill-allowance :
      (ended now : ℤ) (rl : RateLimiter)
      → IsLimited rl
      → RoundsDown rl.rate
      → rl.last_fill ≤ℤ now
      → allowance ended (fill seconds now rl) ≤ℤ allowance ended rl
  unfolding fill
  fill-allowance ended now rl (r, low, high) down later =
      elim (Bool-cases (ltb_ℤ (pos 0) (new_tokens seconds now rl))) [
        | inr none_new ↦ simp (none_new, fill) (omega arith)
        | inl more ↦ elim (Bool-cases (ltb_ℤ rl.rate (rl.tokens +ℤ new_tokens seconds now rl))) [
          | inl full ↦
              simp (more, full, fill)
                (refilled ended now rl.tokens rl.rate rl.rate rl.last_fill (omega arith) (
                  capped_le now rl.rate rl (r, low, high) down later (omega arith)
                    (ground (arith, full))))
          | inr fits ↦
              simp (more, fits, fill)
                (refilled ended now rl.tokens (rl.tokens +ℤ new_tokens seconds now rl) rl.rate
                  rl.last_fill (omega arith)
                  (capped_le now (rl.tokens +ℤ new_tokens seconds now rl) rl (r, low, high) down
                    later (ground (arith, fits)) (omega arith)))
        ]
      ]

  spend-allowance :
      (ended rest : ℤ) (rl : RateLimiter)
      → (second *ℤ rest) ≤ℤ allowance ended (spend seconds rl).1
      → (second *ℤ (if (spend seconds rl).0 then rest +ℤ pos 1 else rest)) ≤ℤ allowance ended rl
  unfolding spend
  spend-allowance ended rest rl = elim (Bool-cases (ltb_ℤ (pos 0) rl.tokens)) [
    | inr empty ↦ simp (empty, spend) (λ le. le)
    | inl some_left ↦
        simp (some_left, spend)
          (λ le. omega (
            arith,
            le,
            +ℤ_parts rest (pos 1),
            -ℤ_parts rl.tokens (pos 1),
            scale_parts 1000000000 rest,
            scale_parts 1000000000 (rest +ℤ pos 1),
            scale_parts 1000000000 rl.tokens,
            scale_parts 1000000000 (rl.tokens -ℤ pos 1),
            +ℤ_parts (second *ℤ rl.tokens) (rl.rate *ℤ (ended -ℤ rl.last_fill)),
            +ℤ_parts (second *ℤ (rl.tokens -ℤ pos 1)) (rl.rate *ℤ (ended -ℤ rl.last_fill)),
          ))
  ]

  -- A call keeps the rate, and the last fill is not after it.
  fill-fields :
      (now : ℤ) (rl : RateLimiter)
      → rl.last_fill ≤ℤ now
      → ((fill seconds now rl).rate ≡ rl.rate) × ((fill seconds now rl).last_fill ≤ℤ now)
  unfolding fill
  fill-fields now rl later = elim (Bool-cases (ltb_ℤ (pos 0) (new_tokens seconds now rl))) [
    | inl more ↦ simp (more, fill) (refl, omega arith)
    | inr none_new ↦ simp (none_new, fill) (refl, later)
  ]

  spend-fields :
      (rl : RateLimiter)
      → ((spend seconds rl).1.rate ≡ rl.rate) × ((spend seconds rl).1.last_fill ≡ rl.last_fill)
  unfolding spend
  spend-fields rl = elim (Bool-cases (ltb_ℤ (pos 0) rl.tokens)) [
    | inl some_left ↦ simp (some_left, spend) (refl, refl)
    | inr empty ↦ simp (empty, spend) (refl, refl)
  ]

  nothing-allowance :
      (ended : ℤ) (rl : RateLimiter)
      → IsLimited rl
      → rl.last_fill ≤ℤ ended
      → (second *ℤ pos 0) ≤ℤ allowance ended rl
  nothing-allowance ended rl (r, low, high) later =
      let forward : pos 0 ≤ℤ (ended -ℤ rl.last_fill) =
        omega (arith, -ℤ_parts ended rl.last_fill, later) in
      omega (
        arith,
        product_le rl.rate (pos 0) (ended -ℤ rl.last_fill) (omega arith) forward,
        low,
        *ℤ_parts rl.rate (pos 0),
        scale_parts 1000000000 (pos 0),
        scale_parts 1000000000 rl.tokens,
        +ℤ_parts (second *ℤ rl.tokens) (rl.rate *ℤ (ended -ℤ rl.last_fill)),
      )

  -- A limit on the rate: of requests at times that do not decrease, from the last fill of a limiter
  -- with a positive rate and with none up to its rate of tokens, to `ended`, no more pass than the tokens that it has and its rate
  -- times the seconds from that fill to `ended`. The floats are taken to round no fraction of a token
  -- up within a second.
  pub admit_bounded :
      (times : List ℤ) (ended : ℤ) (rl : RateLimiter)
      → IsLimited rl
      → RoundsDown rl.rate
      → Ascends rl.last_fill times ended
      → (second *ℤ (admit seconds times rl).0)
        ≤ℤ ((second *ℤ rl.tokens) +ℤ (rl.rate *ℤ (ended -ℤ rl.last_fill)))
  unfolding admit allow
  admit_bounded [] ended rl l down later = nothing-allowance ended rl l later
  admit_bounded (now ∷ times) ended rl l down (later, ascends) =
      let filled = fill seconds now rl in
      let next = (spend seconds filled).1 in
      let (same, checked) = fill-fields now rl later in
      let (kept, unfilled) = spend-fields filled in
      let rest =
        admit_bounded times ended next
          (spend-IsLimited seconds filled (fill-IsLimited seconds now rl l))
          (subst RoundsDown (sym (kept ∙ same)) down)
          (Ascends-le next.last_fill now times ended (subst (λ t. t ≤ℤ now) (sym unfilled) checked)
            ascends) in
      let step = spend-allowance ended (admit seconds times next).0 filled rest in
      omega (arith, step, fill-allowance ended now rl l down later)
