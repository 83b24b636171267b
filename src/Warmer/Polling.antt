-- ===== src/Warmer/Polling.antt =====
-- A wait as a run of polls.
use game_server_orchestrator.Prelude.{
  ℕ, zero, suc, ◌<◌, String, ◌≡◌, refl, Bool, true, false, ◌↔◌, inl, inr, Bool-cases, arith,
}
use game_server_orchestrator.Prelude.Int.{ℤ}
use game_server_orchestrator.Prelude.Text.{◌<>◌}
use game_server_orchestrator.Web.{Web}
use game_server_orchestrator.Warmer.{
  Warmer, Context, ready, gave_up, is_ready, poll, wait_until_ready,
}

module _ {B W : Type 0} (web : Web B W) (ctx : Context W) (backoff : ℤ) (url : String) where
  -- The server answers a request from `w` with 200.
  abbrev pub answers : W → Bool
  answers w = is_ready (web.get url w).0

  -- The world after a request, and whether the pause after it is cut short.
  abbrev pub asked : W → W
  asked w = (web.get url w).1

  abbrev pub cut_short : W → Bool
  cut_short w = (ctx.wait backoff (asked w)).0

  abbrev pub paused : W → W
  paused w = (ctx.wait backoff (asked w)).1

  -- `Polls n w w'`: n requests without a 200, each with the context alive before it and through the
  -- pause after it, lead from `w` to `w'`.
  pub data Polls : ℕ → W → W → Type 0 where
    here : (w : W) → Polls 0 w w
    one_more :
        {n : ℕ} {w w' : W}
        → ctx.done w ≡ false
        → answers w ≡ false
        → cut_short w ≡ false
        → Polls n (paused w) w'
        → Polls (suc n) w w'

  -- The context is alive, and the server answers 200.
  abbrev pub IsServing : W → Type 0
  IsServing w = (ctx.done w ≡ false) × (answers w ≡ true)

  poll-Polls_to :
      (tries : ℕ) (w : W)
      → web.builds url ≡ true
      → (poll web ctx backoff url tries w).0 ≡ ready
      → (n : ℕ) × (w' : W) × (n < tries) × Polls n w w' × IsServing w'
  unfolding poll
  poll-Polls_to zero w b e = absurd (cc e)
  poll-Polls_to (suc tries) w b e = elim (Bool-cases (ctx.done w)) [
    | inl over ↦ absurd (cc (simp (over, poll) at e))
    | inr alive ↦ elim (Bool-cases (answers w)) [
      | inl yes_ready ↦ (0, w, omega arith, here w, (alive, yes_ready))
      | inr not_yet ↦ elim (Bool-cases (cut_short w)) [
        | inl cut ↦ absurd (cc (simp (alive, b, not_yet, cut, poll) at e))
        | inr through ↦
            let (n, w', lt, polls, serving) =
              poll-Polls_to tries (paused w) b (simp (alive, b, not_yet, through, poll) at e) in
            (suc n, w', omega (arith, lt), one_more alive not_yet through polls, serving)
      ]
    ]
  ]

  poll-Polls_of :
      (n tries : ℕ) (w w' : W)
      → web.builds url ≡ true
      → n < tries
      → Polls n w w'
      → IsServing w'
      → (poll web ctx backoff url tries w).0 ≡ ready
  unfolding poll
  poll-Polls_of zero zero w w' b lt polls serving = absurd (omega (arith, lt))
  poll-Polls_of (suc n) zero w w' b lt polls serving = absurd (omega (arith, lt))
  poll-Polls_of zero (suc tries) w _ b lt (here _) (alive, good) = simp (alive, b, good, poll) refl
  poll-Polls_of (suc n) (suc tries) w w' b lt (one_more alive not_yet through polls) serving =
      simp (alive, b, not_yet, through, poll)
        (poll-Polls_of n tries (paused w) w' b (omega (arith, lt)) polls serving)

  poll-gave_up_to :
      (tries : ℕ) (w : W)
      → web.builds url ≡ true
      → (poll web ctx backoff url tries w).0 ≡ gave_up
      → (w' : W) × Polls tries w w'
  unfolding poll
  poll-gave_up_to zero w b e = (w, here w)
  poll-gave_up_to (suc tries) w b e = elim (Bool-cases (ctx.done w)) [
    | inl over ↦ absurd (cc (simp (over, poll) at e))
    | inr alive ↦ elim (Bool-cases (answers w)) [
      | inl good ↦ absurd (cc (simp (alive, b, good, poll) at e))
      | inr not_yet ↦ elim (Bool-cases (cut_short w)) [
        | inl cut ↦ absurd (cc (simp (alive, b, not_yet, cut, poll) at e))
        | inr through ↦
            let (w', polls) =
              poll-gave_up_to tries (paused w) b (simp (alive, b, not_yet, through, poll) at e) in
            (w', one_more alive not_yet through polls)
      ]
    ]
  ]

  poll-gave_up_of :
      (tries : ℕ) (w w' : W)
      → web.builds url ≡ true
      → Polls tries w w'
      → (poll web ctx backoff url tries w).0 ≡ gave_up
  unfolding poll
  poll-gave_up_of zero w w' b polls = refl
  poll-gave_up_of (suc tries) w w' b (one_more alive not_yet through polls) =
      simp (alive, b, not_yet, through, poll) (poll-gave_up_of tries (paused w) w' b polls)

-- The address that is polled.
abbrev pub health_url : Warmer → String → String
health_url warmer endpoint = "http://" <> endpoint <> warmer.health_endpoint

module _ {B W : Type 0} (web : Web B W) (ctx : Context W) (warmer : Warmer)
    (endpoint : String) where
  -- For an address that can be requested, a wait reports a ready server exactly when, after fewer
  -- polls than the retry budget, each without a 200 and in a live context, a request is answered 200.
  pub wait_until_ready-Polls :
      (w : W)
      → web.builds (health_url warmer endpoint) ≡ true
      → ((wait_until_ready web ctx warmer endpoint w).0 ≡ ready) ↔ (
          (n : ℕ) × (w' : W) × (n < warmer.retry_max)
          × Polls web ctx warmer.retry_backoff (health_url warmer endpoint) n w w'
          × IsServing web ctx warmer.retry_backoff (health_url warmer endpoint) w')
  unfolding wait_until_ready
  wait_until_ready-Polls w b = (
    poll-Polls_to web ctx warmer.retry_backoff (health_url warmer endpoint) warmer.retry_max w b,
    λ (n, w', lt, polls, serving).
        poll-Polls_of web ctx warmer.retry_backoff (health_url warmer endpoint) n warmer.retry_max w
          w' b lt polls serving,
  )

  -- For an address that can be requested, a wait gives up exactly when the whole retry budget is
  -- spent on polls without a 200 in a live context.
  pub wait_until_ready-gave_up :
      (w : W)
      → web.builds (health_url warmer endpoint) ≡ true
      → ((wait_until_ready web ctx warmer endpoint w).0 ≡ gave_up) ↔ (
          (w' : W) × Polls web ctx warmer.retry_backoff
            (health_url warmer endpoint)
            warmer.retry_max
            w
            w')
  unfolding wait_until_ready
  wait_until_ready-gave_up w b = (
    poll-gave_up_to web ctx warmer.retry_backoff (health_url warmer endpoint) warmer.retry_max w b,
    λ (w', polls).
        poll-gave_up_of web ctx warmer.retry_backoff (health_url warmer endpoint) warmer.retry_max w
          w' b polls,
  )
