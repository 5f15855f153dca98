-- ===== src/Tests/Replay.antt =====
-- Runs of the console at concrete inputs.
use mathlib.Core.List.{Permᴰ}
use mathlib.Core.Option
use shiftzero_hero.Common.{
  Bool, String, ◌≤◌, ◌↔◌, inl, inr, All, all, ℕ, ◌≡◌, refl, true, false, some, none, [], ◌∷◌, arith,
}
use shiftzero_hero.Console.Loading.{
  no_evidence, document, Reply, on_hero_summary, on_live_gate, on_screenshot_evidence,
}
use shiftzero_hero.Console.Timeline.{TimelineItem, evidence}
use shiftzero_hero.Console.Replay.{
  Console, approved, decision_step, on_run, stopped, initial, run_hero, replay_control, active,
  blocked, replanned, complete,
}
use shiftzero_hero.Console.Timer.{Reach, mounted, next, runs, Timer, Reach-Timer}
use shiftzero_hero.Console.Run.{beats, beats-run_step, beats-run_hero, replay_control-shows}
use shiftzero_hero.Html.{Offers, shows}
use shiftzero_hero.Console.View.{mission_console}
use shiftzero_hero.Console.View.Frame.{top_bar}
use shiftzero_hero.Console.View.Fixture.{acceptance_card}
use shiftzero_hero.Console.View.Load.{final_gate}
use shiftzero_hero.Console.View.Safety.{checks}
use shiftzero_hero.Console.Clicks.{enabled, mission_console-Offers_iff}
use shiftzero_hero.Console.Verdicts.{
  all-checks_iff, gate_passed-shows, final_gate-shows, IsSilent, arrive-no_claim,
}
use shiftzero_hero.Tests.Instances.{numbers}
use shiftzero_hero.Console.Arrival.{arrive, OnceEach, arrive-error, arrive-perm}

abbrev running : Console ℕ
running = run_hero initial

running-Reach : Reach running
running-Reach = next mounted (runs initial)

Reach-Timer_example : Timer running
Reach-Timer_example = Reach-Timer running-Reach

beats-run_step_example :
    ((beats 8 (run_hero running)).run_step ≡ 8) × ((beats 8 (run_hero running)).running ≡ true)
beats-run_step_example = beats-run_step 8 running-Reach (omega arith)

beats-run_hero_example :
    ((beats 14 (run_hero running)).run_step ≡ 14)
    × (complete (beats 14 (run_hero running)) ≡ true)
    × ((beats 14 (run_hero running)).running ≡ false)
    × ((beats 14 (run_hero running)).intervals ≡ [])
beats-run_hero_example = beats-run_hero running-Reach

replay_control-shows_example :
    (Option.map (λ (i : TimelineItem). i.state) (active (replay_control stopped running))
      ≡ some "SAFE_STOP")
    × (blocked (replay_control stopped running) ≡ true)
    × (replanned (replay_control stopped running) ≡ false)
    × (complete (replay_control stopped running) ≡ false)
    × ((replay_control stopped running).running ≡ false)
    × ((replay_control stopped running).intervals ≡ [])
replay_control-shows_example = replay_control-shows stopped running-Reach

-- A document that came, and one that did not.
abbrev screenshots : Reply ℕ
screenshots = on_screenshot_evidence (
    some record {
      ok = true;
      json = some record {
        evidence_class = "local_rehearsal";
        final_submission_eligible = false;
        real_provider = false;
        replacement_required_after_live_gate = true;
      };
    })

abbrev no_summary : Reply ℕ
no_summary = on_hero_summary none

arrive-error_example : (arrive (screenshots ∷ no_summary ∷ []) no_evidence).evidence_error ≡ true
unfolding no_evidence document
arrive-error_example = arrive-error (screenshots ∷ no_summary ∷ []) no_evidence

replies-OnceEach : OnceEach (screenshots ∷ no_summary ∷ [])
replies-OnceEach = (((λ same. cc), tt), (tt, tt))

arrive-perm_example :
    arrive (screenshots ∷ no_summary ∷ []) no_evidence
    ≡ arrive (no_summary ∷ screenshots ∷ []) no_evidence
arrive-perm_example = arrive-perm (Permᴰ.swap refl refl) replies-OnceEach no_evidence

mission_console-Offers_iff_example :
    Offers on_run (mission_console numbers running) ↔ (enabled running on_run ≡ true)
mission_console-Offers_iff_example = mission_console-Offers_iff numbers running on_run

all-checks_iff_example :
    (all (λ (check : String × Bool). check.1) (checks 4) ≡ true) ↔ (decision_step approved ≤ 4)
all-checks_iff_example = all-checks_iff 4

gate_passed-shows_example :
    (shows "LIVE GATE PASSED" (top_bar {F = ℕ} evidence false none) ≡ false)
    × (shows "LIVE PASS" (acceptance_card {F = ℕ} none) ≡ false)
gate_passed-shows_example = gate_passed-shows evidence false none

final_gate-shows_example :
    (shows "FINAL LIVE EVIDENCE" (final_gate {F = ℕ} none none) ≡ false)
    × (shows "Final evidence gate intentionally remains closed" (final_gate {F = ℕ} none none)
        ≡ true)
final_gate-shows_example = final_gate-shows none none

abbrev no_gate : Reply ℕ
no_gate = on_live_gate none

silent : All IsSilent (screenshots ∷ no_gate ∷ [])
unfolding document
silent = (inl (λ same. cc), (inr refl, tt))

arrive-no_claim_example :
    (shows "LIVE GATE PASSED"
        (top_bar evidence false (arrive (screenshots ∷ no_gate ∷ []) no_evidence).live_gate)
      ≡ false)
    × (shows "LIVE PASS"
          (acceptance_card (arrive (screenshots ∷ no_gate ∷ []) no_evidence).live_gate)
        ≡ false)
arrive-no_claim_example = arrive-no_claim (screenshots ∷ no_gate ∷ []) evidence false silent
