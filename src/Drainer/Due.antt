-- ===== src/Drainer/Due.antt =====
-- A drain that waits for its forced end.
use game_server_orchestrator.Prelude.{
  ◌≡◌, ◌⊎◌, sym, ◌∙◌, subst, ◌&&◌, true, false, some, arith, inl, inr, Bool-cases, Option-cases,
}
use game_server_orchestrator.Prelude.Int.{ℤ, pos, ◌-ℤ◌, ◌≤ℤ◌, ◌<ℤ◌, ltb_ℤ, leb_ℤ, eqb_ℤ}
use game_server_orchestrator.Drainer.{
  Drainer, ServerState, SessionAnswer, drain, forced, advance, advance_phase, advance_drain,
  should_check, is_drain,
}
use game_server_orchestrator.Drainer.Machine.{advance_drain_forced}
use game_server_orchestrator.Drainer.Safety.{advance_in}

-- A drain past its cordon whose next check is due at `now`, and that is to be forced by then.
pub record IsDue (d : Drainer) (now : ℤ) (s : ServerState) : Type 0 where
  pub draining : s.phase ≡ drain
  pub late : s.forced_deadline <ℤ now
  pub rested : d.interval ≤ℤ (now -ℤ s.last_checked_at)

advance_drain-IsDue :
    (d : Drainer) (t now : ℤ) (answer : SessionAnswer) (s : ServerState)
    → d.interval ≤ℤ (now -ℤ t)
    → IsDue d now s
    → ((advance_drain d t answer s).0 ≡ some true) ⊎ IsDue d now (advance_drain d t answer s).1
unfolding advance_drain
advance_drain-IsDue d t now answer s rest due =
    elim (Bool-cases (ltb_ℤ (pos 0) d.force_time && ltb_ℤ s.forced_deadline t)) [
      | inl over ↦ inl (simp (over, advance_drain))
      | inr early ↦ elim (Option-cases answer) [
        | inl failed ↦ simp (early, failed, advance_drain) (inr due)
        | inr (count, counted) ↦
            elim (Bool-cases (eqb_ℤ count (pos 0) && leb_ℤ d.timeout (t -ℤ s.entered_at))) [
              | inl empty ↦ inl (simp (early, counted, empty, advance_drain))
              | inr busy ↦
                  simp (early, counted, busy, advance_drain)
                    (inr (record { draining = due.draining; late = due.late; rested = rest }))
            ]
      ]
    ]

pub advance-IsDue :
    (d : Drainer) (t now : ℤ) (answer : SessionAnswer) (s : ServerState)
    → d.interval ≤ℤ (now -ℤ t)
    → IsDue d now s
    → ((advance d t answer s).0 ≡ some true) ⊎ IsDue d now (advance d t answer s).1
unfolding advance_phase
advance-IsDue d t now answer s rest due =
    subst (λ a. (a.0 ≡ some true) ⊎ IsDue d now a.1)
      (sym (advance_in drain d t answer s due.draining))
      (advance_drain-IsDue d t now answer s rest due)

pub IsDue-checked :
    (d : Drainer) (now : ℤ) (s : ServerState) → IsDue d now s → should_check d now s ≡ true
unfolding should_check is_drain
IsDue-checked d now s due =
    let past : leb_ℤ d.interval (now -ℤ s.last_checked_at) ≡ true = ground (arith, due.rested) in
    simp (due.draining, past, should_check)

pub advance-forced :
    (d : Drainer) (now : ℤ) (answer : SessionAnswer) (s : ServerState)
    → pos 0 <ℤ d.force_time
    → IsDue d now s
    → advance d now answer s ≡ (some true, record s { phase = forced })
unfolding advance_phase
advance-forced d now answer s force due =
    advance_in drain d now answer s due.draining
    ∙ advance_drain_forced d now answer s force due.late

pub forced-unchecked :
    (d : Drainer) (now : ℤ) (s : ServerState) → s.phase ≡ forced → should_check d now s ≡ false
unfolding should_check is_drain
forced-unchecked d now s e = simp (e, should_check)
