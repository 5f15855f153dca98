-- ===== src/Console/Verdicts.antt =====
-- What the console says of its evidence: the verdicts on the pages of
-- apps/web/components/mission-console.tsx.

use shiftzero_hero.Common.{
  ◌≢◌, ◌⊎◌, ◌∙◌, ℕ, ◌≤◌, String, ◌≡◌, refl, ◌↔◌, Bool, true, false, Option, some, none, List, [],
  ◌∷◌, arith, all, All, Bool-cases, inl, inr,
}
use shiftzero_hero.Html.{shows}
use shiftzero_hero.Console.Documents.{LiveGateEvidence, ScreenshotEvidence}
use shiftzero_hero.Console.Loading.{Evidence, document, no_evidence, Reply, on_live_gate, receive}
use shiftzero_hero.Console.Timeline.{View, index_of_state}
use shiftzero_hero.Console.Replay.{approved, decision_step}
use shiftzero_hero.Console.Arrival.{arrive, about, fails, live_gate}
use shiftzero_hero.Console.View.Frame.{top_bar}
use shiftzero_hero.Console.View.Fixture.{acceptance_card}
use shiftzero_hero.Console.View.Load.{final_gate}
use shiftzero_hero.Console.View.Safety.{checks}

-- `liveGate?.official_gate_passed` and `screenshotEvidence?.final_submission_eligible`.
abbrev pub gate_passed : {F : Type 0} → Option (LiveGateEvidence F) → Bool
gate_passed none = false
gate_passed (some g) = g.official_gate_passed

abbrev pub is_eligible : Option ScreenshotEvidence → Bool
is_eligible none = false
is_eligible (some s) = s.final_submission_eligible

bar_verdict :
    {F : Type 0} (view : View) (running : Bool) (g : Option (LiveGateEvidence F))
    → shows "LIVE GATE PASSED" (top_bar view running g) ≡ gate_passed g
unfolding top_bar
bar_verdict view true none = refl
bar_verdict view false none = refl
bar_verdict view true (some g) = elim (Bool-cases g.official_gate_passed) [
  | inl e ↦ rw e refl
  | inr e ↦ rw e refl
]
bar_verdict view false (some g) = elim (Bool-cases g.official_gate_passed) [
  | inl e ↦ rw e refl
  | inr e ↦ rw e refl
]

acceptance_verdict :
    {F : Type 0} (g : Option (LiveGateEvidence F))
    → shows "LIVE PASS" (acceptance_card g) ≡ gate_passed g
unfolding acceptance_card
acceptance_verdict none = refl
acceptance_verdict (some g) = elim (Bool-cases g.official_gate_passed) [
  | inl e ↦ rw e refl
  | inr e ↦ rw e refl
]

final_some :
    {F : Type 0} (s : ScreenshotEvidence) (g : Option (LiveGateEvidence F))
    → (shows "FINAL LIVE EVIDENCE" (final_gate (some s) g) ≡ s.final_submission_eligible)
      × (shows "Final evidence gate intentionally remains closed" (final_gate (some s) g) ≡ true)
unfolding final_gate
final_some s none = elim (Bool-cases s.final_submission_eligible) [
  | inl e ↦ rw e (refl, refl)
  | inr e ↦ rw e (refl, refl)
]
final_some s (some g) = elim (Bool-cases s.final_submission_eligible) [
  | inl e ↦ rw e (refl, refl)
  | inr e ↦ elim (Bool-cases g.official_gate_passed) [
    | inl h ↦ rw (e, h) (refl, refl)
    | inr h ↦ rw (e, h) (refl, refl)
  ]
]

-- The final gate shows its badge FINAL LIVE EVIDENCE exactly for screenshots that are eligible,
-- and its heading says that the gate remains closed whatever the documents are.
pub final_gate-shows :
    {F : Type 0} (s : Option ScreenshotEvidence) (g : Option (LiveGateEvidence F))
    → (shows "FINAL LIVE EVIDENCE" (final_gate s g) ≡ is_eligible s)
      × (shows "Final evidence gate intentionally remains closed" (final_gate s g) ≡ true)
unfolding final_gate
final_gate-shows none none = (refl, refl)
final_gate-shows none (some g) = elim (Bool-cases g.official_gate_passed) [
  | inl e ↦ rw e (refl, refl)
  | inr e ↦ rw e (refl, refl)
]
final_gate-shows (some s) g = final_some s g

-- All checks of the safety card pass exactly from the step on that an approval shows.
pub all-checks_iff :
    (run_step : ℕ)
    → (all (λ (check : String × Bool). check.1) (checks run_step) ≡ true)
      ↔ (decision_step approved ≤ run_step)
unfolding checks decision_step index_of_state
all-checks_iff n = (λ h. ground arith, λ h. ground arith)

-- The top bar and the acceptance card say that the live gate passed exactly when the document of
-- the gate is there and says so.
pub gate_passed-shows :
    {F : Type 0} (view : View) (running : Bool) (g : Option (LiveGateEvidence F))
    → (shows "LIVE GATE PASSED" (top_bar view running g) ≡ gate_passed g)
      × (shows "LIVE PASS" (acceptance_card g) ≡ gate_passed g)
gate_passed-shows view running g = (bar_verdict view running g, acceptance_verdict g)

module _ {F : Type 0} where
  -- The reply is about another document than that of the live gate, or brings none.
  abbrev pub IsSilent : Reply F → Type 0
  IsSilent r = (about r ≢ live_gate) ⊎ (fails r ≡ true)

  receive-silent :
      (r : Reply F) (e : Evidence F) → IsSilent r → (receive r e).live_gate ≡ e.live_gate
  unfolding receive document
  receive-silent (on_live_gate r) e (inl other) = absurd (other refl)
  receive-silent (on_live_gate r) e (inr bad) = ground arith
  receive-silent _ e h = ground arith

  arrive-silent :
      (rs : List (Reply F)) (e : Evidence F)
      → All IsSilent rs
      → (arrive rs e).live_gate ≡ e.live_gate
  unfolding arrive
  arrive-silent [] e h = refl
  arrive-silent (r ∷ rs) e (silent, h) =
      arrive-silent rs (receive r e) h ∙ receive-silent r e silent

  -- When every reply is about another document than that of the live gate, or brings none, neither
  -- the top bar nor the acceptance card says that the live gate passed.
  pub arrive-no_claim :
      (rs : List (Reply F)) (view : View) (running : Bool)
      → All IsSilent rs
      → (shows "LIVE GATE PASSED" (top_bar view running (arrive rs no_evidence).live_gate) ≡ false)
        × (shows "LIVE PASS" (acceptance_card (arrive rs no_evidence).live_gate) ≡ false)
  unfolding no_evidence
  arrive-no_claim rs view running h =
      rw (arrive-silent rs no_evidence h) (gate_passed-shows view running none)
