-- ===== src/Drainer/Safety.antt =====
-- A whole drain, from StartDrain to the call that reports the server ready.
use game_server_orchestrator.Prelude.{
  String, ◌≡◌, ◌≢◌, ◌⊎◌, ◌↔◌, inl, inr, refl, sym, ◌∙◌, subst, ap, Bool, true, Option, some, arith,
}
use game_server_orchestrator.Prelude.Int.{ℤ, pos, ◌≤ℤ◌, ◌<ℤ◌, ◌+ℤ◌, ◌-ℤ◌}
use game_server_orchestrator.V1alpha1.Fleet.{Endpoint}
use game_server_orchestrator.Drainer.{
  Drainer, DrainPhase, ServerState, SessionAnswer, cordon, drain, start_drain, advance,
  advance_phase, advance_drain,
}
use game_server_orchestrator.Drainer.Machine.{MayGo, advance_drain_ready, advance_drain_goes}

-- The states that calls of Advance reach from a first one while none has reported the server
-- ready. The times of the calls and the answers to their queries are whatever they are.
pub data Draining (d : Drainer) (s₀ : ServerState) : ServerState → Type 0 where
  begun : Draining d s₀ s₀
  polled :
      {s t : ServerState} (now : ℤ) (answer : SessionAnswer) (r : Option Bool)
      → Draining d s₀ s
      → advance d now answer s ≡ (r, t)
      → r ≢ some true
      → Draining d s₀ t

pub advance_in :
    (p : DrainPhase) (d : Drainer) (now : ℤ) (answer : SessionAnswer) (s : ServerState)
    → s.phase ≡ p
    → advance d now answer s ≡ advance_phase p d now answer s
unfolding advance
advance_in p d now answer s e = ap (λ q. advance_phase q d now answer s) e

-- What such calls leave alone.
record IsPending (s₀ s : ServerState) : Type 0 where
  entered : s.entered_at ≡ s₀.entered_at
  deadline : s.forced_deadline ≡ s₀.forced_deadline
  waiting : (s.phase ≡ cordon) ⊎ (s.phase ≡ drain)

advance_drain-pending :
    (d : Drainer) (now : ℤ) (answer : SessionAnswer) (s t : ServerState) (r : Option Bool)
    → advance_drain d now answer s ≡ (r, t)
    → r ≢ some true
    → (t.entered_at ≡ s.entered_at) × (t.forced_deadline ≡ s.forced_deadline) × (t.phase ≡ s.phase)
unfolding advance_drain
advance_drain-pending d now answer s t r e h = ground arith

advance_phase-IsPending :
    (s₀ : ServerState) (d : Drainer) (now : ℤ) (answer : SessionAnswer) (s t : ServerState)
    (r : Option Bool)
    → (s.phase ≡ cordon) ⊎ (s.phase ≡ drain)
    → advance d now answer s ≡ (r, t)
    → r ≢ some true
    → IsPending s₀ s
    → IsPending s₀ t
unfolding advance advance_phase
advance_phase-IsPending s₀ d now answer s t r (inl e) q h p =
    let step = sym (advance_in cordon d now answer s e) ∙ q in
    record {
      entered = sym (ap (λ x. x.1.entered_at) step) ∙ p.entered;
      deadline = sym (ap (λ x. x.1.forced_deadline) step) ∙ p.deadline;
      waiting = inr (sym (ap (λ x. x.1.phase) step));
    }
advance_phase-IsPending s₀ d now answer s t r (inr e) q h p =
    let (a, b, c) =
      advance_drain-pending d now answer s t r (sym (advance_in drain d now answer s e) ∙ q) h in
    record { entered = a ∙ p.entered; deadline = b ∙ p.deadline; waiting = inr (c ∙ e) }

Draining-IsPending :
    {d : Drainer} {s₀ s : ServerState} → s₀.phase ≡ cordon → Draining d s₀ s → IsPending s₀ s
Draining-IsPending e begun = record { entered = refl; deadline = refl; waiting = inl e }
Draining-IsPending {d} {s₀} e (polled {s = s} {t = t} now answer r before q h) =
    let p = Draining-IsPending e before in
    advance_phase-IsPending s₀ d now answer s t r p.waiting q h p

ready_phase :
    (d : Drainer) (now : ℤ) (answer : SessionAnswer) (s : ServerState)
    → (s.phase ≡ cordon) ⊎ (s.phase ≡ drain)
    → (advance d now answer s).0 ≡ some true
    → MayGo d now answer s
unfolding advance advance_phase
ready_phase d now answer s (inl e) h = absurd (ground arith)
ready_phase d now answer s (inr e) h =
    advance_drain_ready d now answer s (sym (ap (λ r. r.0) (advance_in drain d now answer s e)) ∙ h)

goes_phase :
    (d : Drainer) (now : ℤ) (answer : SessionAnswer) (s : ServerState)
    → s.phase ≡ drain
    → MayGo d now answer s
    → (advance d now answer s).0 ≡ some true
unfolding advance_phase advance_drain
goes_phase d now answer s e may =
    ap (λ r. r.0) (advance_in drain d now answer s e) ∙ advance_drain_goes d now answer s may

ready_drain :
    (d : Drainer) (now : ℤ) (answer : SessionAnswer) (s : ServerState)
    → (s.phase ≡ cordon) ⊎ (s.phase ≡ drain)
    → (advance d now answer s).0 ≡ some true
    → s.phase ≡ drain
unfolding advance advance_phase
ready_drain d now answer s (inl e) h = absurd (ground arith)
ready_drain d now answer s (inr e) h = e

-- Of a drain that StartDrain began and that no call has reported ready yet, a call of Advance reports
-- the server ready exactly when an earlier call has taken it past its cordon, and either the force
-- time is positive and has passed since the drain began, or the query in that very call found no
-- sessions and at least the timeout has passed since then. So the timeout is the least time of a drain
-- that is not forced, and no bound on the wait for its sessions.
pub drain_ready_iff :
    (d : Drainer) (began now : ℤ) (name : String) (endpoint : Endpoint) (answer : SessionAnswer)
    {s : ServerState}
    → Draining d (start_drain d began name endpoint) s
    → ((advance d now answer s).0 ≡ some true) ↔ (
        (s.phase ≡ drain)
        × (((pos 0 <ℤ d.force_time) × (began +ℤ d.force_time <ℤ now))
            ⊎ ((answer ≡ some (pos 0)) × (d.timeout ≤ℤ now -ℤ began))))
unfolding start_drain
drain_ready_iff d began now name endpoint answer {s} r =
    let p = Draining-IsPending refl r in
    subst
      (λ t. ((advance d now answer s).0 ≡ some true) ↔ (
        (s.phase ≡ drain)
        × (((pos 0 <ℤ d.force_time) × (t <ℤ now))
            ⊎ ((answer ≡ some (pos 0)) × (d.timeout ≤ℤ now -ℤ began)))))
      p.deadline
      (subst
        (λ t. ((advance d now answer s).0 ≡ some true) ↔ (
          (s.phase ≡ drain)
          × (((pos 0 <ℤ d.force_time) × (s.forced_deadline <ℤ now))
              ⊎ ((answer ≡ some (pos 0)) × (d.timeout ≤ℤ now -ℤ t)))))
        p.entered
        (
          λ h. (ready_drain d now answer s p.waiting h, ready_phase d now answer s p.waiting h),
          λ (e, may). goes_phase d now answer s e may,
        ))
