-- ===== src/Tests/Lab.antt =====
-- Runs of the lab at concrete inputs.
use shiftzero_hero.Common.{
  not, ◌+◌, ◌≤◌, ◌≡◌, refl, ◌≢◌, ◌↔◌, true, false, some, none, List, [], ◌∷◌, ◌++◌, arith, map, All,
}
use shiftzero_hero.FieldTest.Blockage.{perform-sensor_detected}
use shiftzero_hero.FieldTest.Verdicts.{labelled, a06_holds, controls_card-shows}
use shiftzero_hero.FieldTest.View.Controls.{controls_card}
use shiftzero_hero.Html.{shows, Offers}
use shiftzero_hero.FieldTest.Schedule.{
  sensor_detected, is_completed, completed, connected, SimulationEvent, schedule, phase_at,
  complete_at_ms, visible_events,
}
use shiftzero_hero.FieldTest.Timeline.{
  phase_of_log, phase_at-phase_of_log, InOrder, schedule-InOrder_iff, phase_at-completed_iff,
}
use shiftzero_hero.FieldTest.Session.{
  Session, initial, phase, tick, perform, on_start_or_pause, on_export, on_inject_blockage,
  a06_simulation_passed, a07_simulation_passed,
}
use shiftzero_hero.FieldTest.Motion.{point, point_along, hero_position, route_a}
use shiftzero_hero.FieldTest.Position.{
  Measured, Along, point_along-Along, Placed, hero_position-Placed,
}
use shiftzero_hero.FieldTest.View.{field_test_simulator}
use shiftzero_hero.FieldTest.View.Log.{visible}
use shiftzero_hero.FieldTest.Clicks.{enabled, field_test_simulator-Offers_iff}
use shiftzero_hero.FieldTest.Lifecycle.{
  Step, click, timer, Reach, mounted, next, Inv, Reach-Inv, IsLater, Moves, Step-IsLater,
  Step-visible,
}
use shiftzero_hero.FieldTest.Completion.{
  finished, untouched_run-completed, untouched_run, untouched_run-verdicts,
}
use shiftzero_hero.FieldTest.Export.{payload, export_rehearsal}
use shiftzero_hero.FieldTest.Evidence.{
  entry_of, exported_entry_of, export_rehearsal-Offers_iff, export_rehearsal-log,
  export_rehearsal-claims,
}
use shiftzero_hero.Tests.Instances.{numbers, dates, unary, count-unary}

-- The lab just after a click on the start button, and the same lab when its run is over.
abbrev running_lab : Session
running_lab = perform (unary 5) on_start_or_pause initial

abbrev over_lab : Session
over_lab = finished running_lab

running_lab-Reach : Reach numbers running_lab
unfolding initial phase_at
running_lab-Reach = next mounted (
    click initial on_start_or_pause (unary 5) refl
      ((field_test_simulator-Offers_iff numbers initial on_start_or_pause).1 refl))

running_lab-Step : Step numbers running_lab (tick running_lab)
unfolding initial perform phase_at
running_lab-Step = timer running_lab refl

untouched_run-verdicts_example :
    (phase (untouched_run (unary 5) 159 initial) ≡ completed)
    × ((untouched_run (unary 5) 159 initial).running ≡ false)
    × (a07_simulation_passed (untouched_run (unary 5) 159 initial) ≡ true)
    × (a06_simulation_passed (untouched_run (unary 5) 159 initial) ≡ true)
unfolding initial
untouched_run-verdicts_example =
    untouched_run-verdicts numbers (unary 5) 159 mounted refl (omega arith)

phase_at-phase_of_log_example :
    phase_at 3100 true 150 ≡ phase_of_log (visible_events (schedule 150 connected) 3100 true)
phase_at-phase_of_log_example = phase_at-phase_of_log 3100 true 150 connected

Reach-Inv_example : Inv running_lab
Reach-Inv_example = Reach-Inv numbers running_lab-Reach

Step-IsLater_example : IsLater running_lab (tick running_lab) × Moves running_lab-Step
unfolding initial perform tick phase_at
Step-IsLater_example = Step-IsLater numbers running_lab-Reach running_lab-Step refl refl

Step-visible_example :
    (more : List SimulationEvent) × (visible (tick running_lab) ≡ visible running_lab ++ more)
unfolding initial perform tick phase_at
Step-visible_example = Step-visible numbers running_lab-Reach running_lab-Step refl refl

field_test_simulator-Offers_iff_example :
    Offers on_export (field_test_simulator numbers running_lab)
    ↔ (enabled running_lab on_export ≡ true)
field_test_simulator-Offers_iff_example =
    field_test_simulator-Offers_iff numbers running_lab on_export

export_rehearsal-Offers_iff_example :
    Offers on_export (field_test_simulator numbers running_lab)
    ↔ (export_rehearsal dates running_lab ≢ none)
export_rehearsal-Offers_iff_example = export_rehearsal-Offers_iff numbers dates running_lab-Reach

over_lab-export : export_rehearsal dates over_lab ≡ some (payload dates over_lab (unary 5))
unfolding initial perform phase_at complete_at_ms schedule export_rehearsal
over_lab-export = refl

export_rehearsal-log_example :
    (map exported_entry_of (payload dates over_lab (unary 5)).events
      ≡ map entry_of (visible over_lab))
    × (map (λ event. event.sequence) (payload dates over_lab (unary 5)).events
        ≡ 1 ∷ 2 ∷ 3 ∷ 4 ∷ 5 ∷ 6 ∷ 7 ∷ 8 ∷ 9 ∷ [])
    × All
        (λ event. dates.get_time event.timestamp ≡ dates.get_time (unary 5) + event.elapsed_ms)
        (payload dates over_lab (unary 5)).events
unfolding initial perform phase_at complete_at_ms schedule
export_rehearsal-log_example =
    export_rehearsal-log dates over_lab (λ ms h. count-unary ms) refl (omega arith) over_lab-export

export_rehearsal-claims_example :
    ((payload dates over_lab (unary 5)).eligibility.competition_submission_usable_without_hardware
      ≡ true)
    × ((payload dates over_lab (unary 5)).assertions.a06_simulation_passed ≡ true)
    × ((payload dates over_lab (unary 5)).assertions.a06_sensor_to_stationary_at_most_200_ms ≡ true)
    × ((payload dates over_lab (unary 5)).assertions.a06_cloud_disconnect_precedes_detection ≡ true)
    × ((payload dates over_lab (unary 5)).assertions.a07_simulation_passed ≡ true)
    × ((payload dates over_lab (unary 5)).assertions.a07_synchronized_sequence_complete ≡ true)
    × ((payload dates over_lab (unary 5)).eligibility.passes_internal_physical_field_gate ≡ false)
    × ((payload dates over_lab (unary 5)).eligibility.physical_hardware_claimed ≡ false)
    × ((payload dates over_lab (unary 5)).eligibility.physical_measurement_claimed ≡ false)
    × ((payload dates over_lab (unary 5)).assertions.a06_physical_passed ≡ false)
    × ((payload dates over_lab (unary 5)).assertions.a07_physical_passed ≡ false)
unfolding initial perform phase_at payload
export_rehearsal-claims_example = export_rehearsal-claims dates over_lab over_lab-export

schedule-InOrder_iff_example : InOrder (schedule 84 connected) ↔ (12 ≤ 84)
schedule-InOrder_iff_example = schedule-InOrder_iff 84 connected

phase_at-completed_iff_example :
    (phase_at 7940 true 240 ≡ completed)
    ↔ ((true ≡ true) × (complete_at_ms (schedule 240 connected) ≤ 7940))
phase_at-completed_iff_example = phase_at-completed_iff 7940 true 240 connected

numbers-Measured : Measured numbers
numbers-Measured = record {
  zero_zero = refl;
  max_pos = λ a. ground arith;
  mul_pos = λ a b h k. ground arith;
  add_pos = λ a b h k. ground arith;
  hypot_pos = λ a b. ground arith;
  sub_pos = λ a b h. ground arith;
}

point_along-Along_example :
    (x : _) × (point_along numbers (route_a numbers) 1 ≡ some x) × Along numbers (route_a numbers) x
point_along-Along_example =
    point_along-Along numbers numbers-Measured (point numbers 72 420)
      (point numbers 330 420
        ∷ point numbers 620 420
        ∷ point numbers 735 280
        ∷ point numbers 842 135
        ∷ [])
      1

hero_position-Placed_example : Placed numbers 3500 150 (hero_position numbers 3500 150 7850)
hero_position-Placed_example = hero_position-Placed numbers numbers-Measured 3500 150 7850

controls_card-shows_example :
    (labelled "A06 simulation" "SIMULATION PASS" (controls_card over_lab) ≡ a06_holds over_lab)
    × (labelled "A06 simulation" "NOT RUN" (controls_card over_lab) ≡ not (a06_holds over_lab))
    × (labelled "A07 simulation" "SIMULATION PASS" (controls_card over_lab)
        ≡ is_completed (phase over_lab))
    × (labelled "A07 simulation" "NOT RUN" (controls_card over_lab)
        ≡ not (is_completed (phase over_lab)))
    × (shows "SIMULATION PASS" (controls_card over_lab) ≡ is_completed (phase over_lab))
    × (shows "NOT RUN" (controls_card over_lab) ≡ not (a06_holds over_lab))
controls_card-shows_example = controls_card-shows over_lab

untouched_run-completed_example :
    (phase (untouched_run (unary 5) 159 initial) ≡ completed)
    × ((untouched_run (unary 5) 159 initial).running ≡ false)
unfolding initial phase_at
untouched_run-completed_example =
    untouched_run-completed numbers (unary 5) 159 mounted refl refl refl (omega arith)

running_lab-offer : Offers on_inject_blockage (field_test_simulator numbers running_lab)
unfolding initial perform phase_at
running_lab-offer = (field_test_simulator-Offers_iff numbers running_lab on_inject_blockage).1 refl

perform-sensor_detected_example :
    (phase (perform (unary 6) on_inject_blockage running_lab) ≡ sensor_detected)
    × ((perform (unary 6) on_inject_blockage running_lab).elapsed_ms ≡ 3000)
    × ((perform (unary 6) on_inject_blockage running_lab).running ≡ true)
perform-sensor_detected_example =
    perform-sensor_detected numbers (unary 6) running_lab-Reach running_lab-offer
