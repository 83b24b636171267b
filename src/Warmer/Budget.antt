-- ===== src/Warmer/Budget.antt =====
-- The bound on the requests and the pauses of a wait.
use game_server_orchestrator.Prelude.{
  ℕ, zero, suc, ◌+◌, ◌≤◌, String, ◌≡◌, refl, inl, inr, Bool-cases, arith,
}
use game_server_orchestrator.Prelude.Int.{ℤ}
use game_server_orchestrator.Web.{Web}
use game_server_orchestrator.Warmer.{Warmer, Context, is_ready, poll, wait_until_ready}
use game_server_orchestrator.Warmer.Polling.{health_url}

-- The same outside world with a count of its requests and pauses.
abbrev pub counting : {B W : Type 0} → Web B W → Web B (W × (ℕ × ℕ))
counting web = record {
  builds = web.builds;
  get = λ url (w, (requests, pauses)).
      let (resp, w') = web.get url w in (resp, (w', (suc requests, pauses)));
  post = λ url body (w, (requests, pauses)).
      let (resp, w') = web.post url body w in (resp, (w', (suc requests, pauses)));
}

abbrev pub counting_context : {W : Type 0} → Context W → Context (W × (ℕ × ℕ))
counting_context ctx = record {
  done = λ (w, counts). ctx.done w;
  wait = λ backoff (w, (requests, pauses)).
      let (ended, w') = ctx.wait backoff w in (ended, (w', (requests, suc pauses)));
}

-- At most so many requests, and no more pauses than requests.
abbrev pub IsWithin : ℕ → ℕ × ℕ → ℕ × ℕ → Type 0
IsWithin n (requests, pauses) (requests', pauses') =
    (requests' ≤ requests + n) × (pauses' + requests ≤ requests' + pauses)

module _ {B W : Type 0} (web : Web B W) (ctx : Context W) where
  poll-counting :
      (backoff : ℤ) (url : String) (tries : ℕ) (w : W) (counts : ℕ × ℕ)
      → let run = poll (counting web) (counting_context ctx) backoff url tries (w, counts) in
        ((run.0, run.1.0) ≡ poll web ctx backoff url tries w) × IsWithin tries counts run.1.1
  unfolding poll
  poll-counting backoff url zero w counts = (refl, (omega arith, omega arith))
  poll-counting backoff url (suc tries) w (requests, pauses) =
      let w'' = (ctx.wait backoff (web.get url w).1).1 in
      let (same, (within, fewer)) =
        poll-counting backoff url tries w'' (suc requests, suc pauses) in
      elim (Bool-cases (ctx.done w)) [
        | inl over ↦ simp (over, poll) (refl, (omega arith, omega arith))
        | inr alive ↦ elim (Bool-cases (web.builds url)) [
          | inr refused ↦ simp (alive, refused, poll) (refl, (omega arith, omega arith))
          | inl b ↦ elim (Bool-cases (is_ready (web.get url w).0)) [
            | inl good ↦ simp (alive, b, good, poll) (refl, (omega arith, omega arith))
            | inr not_yet ↦ elim (Bool-cases (ctx.wait backoff (web.get url w).1).0) [
              | inl cut ↦ simp (alive, b, not_yet, cut, poll) (refl, (omega arith, omega arith))
              | inr through ↦
                  simp (alive, b, not_yet, through, poll)
                    (same, (omega (arith, within), omega (arith, fewer)))
            ]
          ]
        ]
      ]

  -- Every wait ends: whatever the server and the context do, it makes at most as many requests as
  -- the retry budget and no more pauses than requests, and the count changes nothing of it.
  pub wait_until_ready_bounded :
      (warmer : Warmer) (endpoint : String) (w : W)
      → let run =
          wait_until_ready (counting web) (counting_context ctx) warmer endpoint (w, (0, 0)) in
        ((run.0, run.1.0) ≡ wait_until_ready web ctx warmer endpoint w)
        × IsWithin warmer.retry_max (0, 0) run.1.1
  unfolding wait_until_ready
  wait_until_ready_bounded warmer endpoint w =
      poll-counting warmer.retry_backoff (health_url warmer endpoint) warmer.retry_max w (0, 0)
