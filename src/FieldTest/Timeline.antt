-- ===== src/FieldTest/Timeline.antt =====
-- The schedule and the phases agree: apps/web/components/field-test-simulator.tsx, `schedule` and
-- `phaseAt`.
use text.Mathlib.Text.{◌==◌ as str_eq}
use shiftzero_hero.Common.{
  ℕ, ◌+◌, ◌≤◌, String, ◌≡◌, refl, ◌↔◌, Bool, true, false, List, [], ◌∷◌, ◌++◌, arith, ◌||◌, ◌<◌,
  if◌then◌else◌, le_or_lt, inl, inr,
}
use shiftzero_hero.FieldTest.Schedule.{
  Phase, ready, executing, sensor_detected, safe_stop, replanning, resumed, completed, CloudMode,
  disconnected_before_obstacle, connected, SimulationEvent, detect_at_ms, schedule, phase_at,
  complete_at_ms, visible_events,
}

-- An event of this kind is in the log.
abbrev pub has : String → List SimulationEvent → Bool
has kind [] = false
has kind (event ∷ log) = str_eq event.kind kind || has kind log

-- The phase that a reader of the event log would name, from the latest milestone in it.
abbrev pub phase_of_log : List SimulationEvent → Phase
phase_of_log log =
    if has "mission.completed" log
    then completed
    else if has "mission.resumed" log
    then resumed
    else if has "replan.accepted" log
    then replanning
    else if has "agv.stationary_confirmed" log
    then safe_stop
    else if has "sensor.filtered_obstacle" log
    then sensor_detected
    else if has "mission.started" log
    then executing
    else ready

-- The phase that the page shows is the one that the latest milestone of the visible event log
-- names.
pub phase_at-phase_of_log :
    (elapsed_ms : ℕ) (started : Bool) (stop_latency_ms : ℕ) (cloud_mode : CloudMode)
    → phase_at elapsed_ms started stop_latency_ms
      ≡ phase_of_log (visible_events (schedule stop_latency_ms cloud_mode) elapsed_ms started)
unfolding schedule visible_events phase_at
phase_at-phase_of_log e true l disconnected_before_obstacle = ground arith
phase_at-phase_of_log e true l connected = ground arith
phase_at-phase_of_log e false l disconnected_before_obstacle = ground arith
phase_at-phase_of_log e false l connected = ground arith

-- Every event comes no earlier than the one before it.
abbrev pub InOrder : List SimulationEvent → Type 0
InOrder [] = Unit
InOrder (event ∷ []) = Unit
InOrder (event ∷ next ∷ rest) = (event.at_ms ≤ next.at_ms) × InOrder (next ∷ rest)

-- The schedule is in order of time exactly if the stop takes at least 12 ms, the time of the stop
-- command.
pub schedule-InOrder_iff :
    (stop_latency_ms : ℕ) (cloud_mode : CloudMode)
    → InOrder (schedule stop_latency_ms cloud_mode) ↔ (12 ≤ stop_latency_ms)
unfolding schedule
schedule-InOrder_iff l c = (λ h. omega arith, λ h. omega arith)

InOrder-tail :
    (event : SimulationEvent) (rest : List SimulationEvent) → InOrder (event ∷ rest) → InOrder rest
InOrder-tail event [] h = tt
InOrder-tail event (next ∷ rest) h = h.1

none_visible :
    (event : SimulationEvent) (rest : List SimulationEvent) (e : ℕ)
    → InOrder (event ∷ rest)
    → e < event.at_ms
    → visible_events (event ∷ rest) e true ≡ []
unfolding visible_events
none_visible event [] e h late = ground arith
none_visible event (next ∷ rest) e (here, h) late = ground (arith, none_visible next rest e h)

visible_events-cons :
    (event : SimulationEvent) (rest : List SimulationEvent) (e : ℕ)
    → event.at_ms ≤ e
    → visible_events (event ∷ rest) e true ≡ event ∷ visible_events rest e true
unfolding visible_events
visible_events-cons event rest e seen = ground arith

visible_events-nil : (e : ℕ) → visible_events [] e true ≡ []
unfolding visible_events
visible_events-nil e = refl

-- Of a log in order, what is visible at a moment is a prefix of what is visible later.
pub visible_events-prefix :
    (events : List SimulationEvent) (e e' : ℕ)
    → InOrder events
    → e ≤ e'
    → (more : List SimulationEvent) × (visible_events events e' true
        ≡ visible_events events e true ++ more)
visible_events-prefix [] e e' h le = ([], rw (visible_events-nil e, visible_events-nil e'))
visible_events-prefix (event ∷ rest) e e' h le = elim (le_or_lt event.at_ms e) [
  | inl seen ↦
      let (more, same) = visible_events-prefix rest e e' (InOrder-tail event rest h) le in
      (
        more,
        rw
            (
              visible_events-cons event rest e (omega arith),
              visible_events-cons event rest e' (omega arith),
            )
            (rw same),
      )
  | inr late ↦ (visible_events (event ∷ rest) e' true, rw (none_visible event rest e h late))
]

pub complete_at_ms-schedule :
    (stop_latency_ms : ℕ) (cloud_mode : CloudMode)
    → complete_at_ms (schedule stop_latency_ms cloud_mode) ≡ detect_at_ms + stop_latency_ms + 4700
unfolding schedule complete_at_ms
complete_at_ms-schedule l c = omega arith

-- The phase is COMPLETED exactly when the run has started and the last event of its schedule is
-- due.
pub phase_at-completed_iff :
    (elapsed_ms : ℕ) (started : Bool) (stop_latency_ms : ℕ) (cloud_mode : CloudMode)
    → (phase_at elapsed_ms started stop_latency_ms ≡ completed)
      ↔ ((started ≡ true) × (complete_at_ms (schedule stop_latency_ms cloud_mode) ≤ elapsed_ms))
unfolding phase_at
phase_at-completed_iff e started l c = (
  λ h. ground (arith, complete_at_ms-schedule l c),
  λ h. ground (arith, complete_at_ms-schedule l c),
)
