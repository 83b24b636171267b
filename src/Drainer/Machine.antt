-- ===== src/Drainer/Machine.antt =====
-- The phases as a state machine, and what one call of Advance reports.
use game_server_orchestrator.Prelude.{
  ◌≡◌, ◌&&◌, ap, Bool-cases, ◌⊎◌, inl, inr, refl, sym, ◌∙◌, subst, true, none, some, arith,
}
use game_server_orchestrator.Prelude.Int.{
  ℤ, pos, ◌≤ℤ◌, ◌<ℤ◌, ◌-ℤ◌, ltb_ℤ, leb_ℤ, eqb_ℤ, eq_of_parts,
}
use game_server_orchestrator.Drainer.{
  Drainer, DrainPhase, ServerState, SessionAnswer, cordon, drain, decommission, done, forced,
  advance, advance_phase, advance_drain,
}

-- The protocol of the package: which phase may follow which in one call.
pub data Next : DrainPhase → DrainPhase → Type 0 where
  stays : (p : DrainPhase) → Next p p
  cordoned : Next cordon drain
  emptied : Next drain decommission
  expired : Next drain forced
  reclaimed : Next decommission done
  reclaimed_forced : Next forced done

advance_drain_phase :
    (d : Drainer) (now : ℤ) (answer : SessionAnswer) (s : ServerState)
    → (((advance_drain d now answer s).1).phase ≡ s.phase)
      ⊎ ((((advance_drain d now answer s).1).phase ≡ decommission)
          ⊎ (((advance_drain d now answer s).1).phase ≡ forced))
unfolding advance_drain
advance_drain_phase d now answer s = ground arith

advance_phase-Next :
    (p : DrainPhase) (d : Drainer) (now : ℤ) (answer : SessionAnswer) (s : ServerState)
    → s.phase ≡ p
    → Next p ((advance_phase p d now answer s).1).phase
unfolding advance_phase
advance_phase-Next cordon d now answer s e = cordoned
advance_phase-Next drain d now answer s e = elim (advance_drain_phase d now answer s) [
  | inl same ↦ subst (Next drain) (sym (same ∙ e)) (stays drain)
  | inr (inl q) ↦ subst (Next drain) (sym q) emptied
  | inr (inr q) ↦ subst (Next drain) (sym q) expired
]
advance_phase-Next decommission d now answer s e = reclaimed
advance_phase-Next forced d now answer s e = reclaimed_forced
advance_phase-Next done d now answer s e = subst (Next done) (sym e) (stays done)

-- One call of Advance moves the phase along the protocol, or leaves it.
advance-Next :
    (d : Drainer) (now : ℤ) (answer : SessionAnswer) (s : ServerState)
    → Next s.phase ((advance d now answer s).1).phase
unfolding advance
advance-Next d now answer s = advance_phase-Next s.phase d now answer s refl

-- Why a server in the drain phase may go: its deadline has passed, or a query found it empty
-- after the minimum time.
abbrev pub MayGo : Drainer → ℤ → SessionAnswer → ServerState → Type 0
MayGo d now answer s =
    ((pos 0 <ℤ d.force_time) × (s.forced_deadline <ℤ now))
    ⊎ ((answer ≡ some (pos 0)) × (d.timeout ≤ℤ now -ℤ s.entered_at))

pub advance_drain_ready :
    (d : Drainer) (now : ℤ) (answer : SessionAnswer) (s : ServerState)
    → (advance_drain d now answer s).0 ≡ some true
    → MayGo d now answer s
unfolding advance_drain
advance_drain_ready d now none s h = inl (ground arith)
advance_drain_ready d now (some count) s h =
    elim (Bool-cases (ltb_ℤ (pos 0) d.force_time && ltb_ℤ s.forced_deadline now)) [
      | inl late ↦ inl (ground arith)
      | inr early ↦
          let empty : eqb_ℤ count (pos 0) && leb_ℤ d.timeout (now -ℤ s.entered_at) ≡ true =
            ground (arith, early) in
          inr (ap some (eq_of_parts count (pos 0) (ground arith)), ground arith)
    ]

-- Past the deadline the server goes, whatever a query would answer.
pub advance_drain_forced :
    (d : Drainer) (now : ℤ) (answer : SessionAnswer) (s : ServerState)
    → pos 0 <ℤ d.force_time
    → s.forced_deadline <ℤ now
    → advance_drain d now answer s ≡ (some true, record s { phase = forced })
unfolding advance_drain
advance_drain_forced d now answer s f h = ground arith

pub advance_drain_goes :
    (d : Drainer) (now : ℤ) (answer : SessionAnswer) (s : ServerState)
    → MayGo d now answer s
    → (advance_drain d now answer s).0 ≡ some true
unfolding advance_drain
advance_drain_goes d now answer s (inl (f, late)) =
    ap (λ r. r.0) (advance_drain_forced d now answer s f late)
advance_drain_goes d now answer s (inr (empty, long)) =
    elim (Bool-cases (ltb_ℤ (pos 0) d.force_time && ltb_ℤ s.forced_deadline now)) [
      | inl late ↦ simp (late, advance_drain)
      | inr early ↦
          let out : leb_ℤ d.timeout (now -ℤ s.entered_at) ≡ true = ground (arith, long) in
          simp (early, empty, out, advance_drain)
    ]

-- Advance fails only where a query in the drain phase fails, and then changes nothing.
advance_error :
    (d : Drainer) (now : ℤ) (answer : SessionAnswer) (s : ServerState)
    → (advance d now answer s).0 ≡ none
    → (answer ≡ none) × (s.phase ≡ drain) × ((advance d now answer s).1 ≡ s)
unfolding advance advance_phase advance_drain
advance_error d now answer s h = ground arith
