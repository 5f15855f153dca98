-- ===== src/FieldTest/Evidence.antt =====
-- What the downloaded evidence says: `exportRehearsal` of
-- apps/web/components/field-test-simulator.tsx against the page that offers it.
use shiftzero_hero.Common.{
  ℕ, ◌+◌, ◌≤◌, String, ◌≡◌, refl, ◌∙◌, ◌≢◌, ◌↔◌, true, false, ◌&&◌, Option, none, some, List, [],
  ◌∷◌, arith, leb, map, map_from, All, suc, is_truthy, Option-cases, inl, inr,
}
use shiftzero_hero.Numbers.{Numbers}
use shiftzero_hero.Html.{Offers}
use shiftzero_hero.FieldTest.Schedule.{
  Phase, SimulationEvent, is_completed, is_disconnected, completed, schedule, visible_events,
  detect_at_ms,
}
use shiftzero_hero.FieldTest.Timeline.{phase_at-completed_iff, complete_at_ms-schedule}
use shiftzero_hero.FieldTest.Session.{
  Session, complete_at, on_export, events, phase, a06_simulation_passed, a07_simulation_passed,
}
use shiftzero_hero.FieldTest.View.{field_test_simulator}
use shiftzero_hero.FieldTest.View.Log.{visible}
use shiftzero_hero.FieldTest.Clicks.{field_test_simulator-Offers_iff}
use shiftzero_hero.FieldTest.Lifecycle.{Reach, Reach-Inv}
use shiftzero_hero.FieldTest.Export.{
  Dates, Payload, ExportedEvent, exported_event, payload, export_rehearsal,
}

some-ne-none {ℓ} : {A : Type ℓ} {o : Option A} {a : A} → o ≡ some a → o ≢ none
some-ne-none h e = cc

export_ready :
    (D : Dates) (s : Session)
    → is_completed (phase s) ≡ true
    → is_truthy s.session_started_at ≡ true
    → export_rehearsal D s ≢ none
unfolding export_rehearsal
export_ready D s done stamped = elim (Option-cases s.session_started_at) [
  | inl e ↦ ground arith
  | inr (now, e) ↦ ground (arith, e)
]

export_done :
    (D : Dates) (s : Session) → export_rehearsal D s ≢ none → is_completed (phase s) ≡ true
unfolding export_rehearsal
export_done D s h = elim (Option-cases s.session_started_at) [
  | inl e ↦ ground (arith, e)
  | inr (now, e) ↦ ground (arith, e)
]

completed_of : (p : Phase) → is_completed p ≡ true → p ≡ completed
completed_of p h = ground arith

completed_facts :
    (s : Session)
    → is_completed (phase s) ≡ true
    → (s.started ≡ true) × (detect_at_ms + s.stop_latency_ms + 4700 ≤ s.elapsed_ms)
completed_facts s done =
    let (started, due) =
      (phase_at-completed_iff s.elapsed_ms s.started s.stop_latency_ms s.cloud_mode).0
        (completed_of (phase s) done) in
    (started, omega (arith, complete_at_ms-schedule s.stop_latency_ms s.cloud_mode))

-- In every reachable state the download button is enabled exactly if a click on it yields a file.
pub export_rehearsal-Offers_iff :
    (N : Numbers) (D : Dates) {s : Session}
    → Reach N s
    → Offers on_export (field_test_simulator N s) ↔ (export_rehearsal D s ≢ none)
export_rehearsal-Offers_iff N D {s} r = (
  λ offered.
      let done = (field_test_simulator-Offers_iff N s on_export).0 offered in
      export_ready D s done ((Reach-Inv N r).stamped ∙ (completed_facts s done).0),
  λ h. (field_test_simulator-Offers_iff N s on_export).1 (export_done D s h),
)

-- When all events are due, all are visible.
visible_events_due :
    (log : List SimulationEvent) (e : ℕ)
    → All (λ event. event.at_ms ≤ e) log
    → visible_events log e true ≡ log
unfolding visible_events
visible_events_due [] e h = refl
visible_events_due (event ∷ log) e (due, h) = ground (arith, visible_events_due log e h)

due :
    (s : Session)
    → detect_at_ms + s.stop_latency_ms + 4700 ≤ s.elapsed_ms
    → All (λ event. event.at_ms ≤ s.elapsed_ms) (events s)
unfolding schedule
due s h = omega arith

visible-completed : (s : Session) → is_completed (phase s) ≡ true → visible s ≡ events s
visible-completed s done =
    let (started, late) = completed_facts s done in
    rw started (visible_events_due (events s) s.elapsed_ms (due s late))

export_payload :
    (D : Dates) (s : Session) {p : Payload}
    → export_rehearsal D s ≡ some p
    → (now : String) × (s.session_started_at ≡ some now) × (p ≡ payload D s now)
unfolding export_rehearsal
export_payload D s h = elim (Option-cases s.session_started_at) [
  | inl e ↦ ground (arith, e)
  | inr (now, e) ↦ (now, e, ground (arith, e))
]

abbrev pub entry_of : SimulationEvent → String × String × ℕ × String
entry_of event = (event.kind, event.source, event.at_ms, event.detail)

abbrev pub exported_entry_of : ExportedEvent → String × String × ℕ × String
exported_entry_of event = (event.kind, event.source, event.elapsed_ms, event.detail)

exported_entries :
    (D : Dates) (base n : ℕ) (id : String) (log : List SimulationEvent)
    → map exported_entry_of (map_from (exported_event D base id) n log) ≡ map entry_of log
exported_entries D base n id [] = refl
exported_entries D base n id (event ∷ log) = cc (exported_entries D base (suc n) id log)

-- The last moment that the type `Date` can hold, in milliseconds.
abbrev pub max_time : ℕ
max_time = 8640000000000000

stamps :
    (D : Dates) (base n : ℕ) (id : String)
    → ((ms : ℕ) → ms ≤ max_time → D.get_time (D.to_iso ms) ≡ ms)
    → (log : List SimulationEvent) → All (λ event. base + event.at_ms ≤ max_time) log
    → All
        (λ event. D.get_time event.timestamp ≡ base + event.elapsed_ms)
        (map_from (exported_event D base id) n log)
stamps D base n id inverse [] h = tt
stamps D base n id inverse (event ∷ log) (h, hs) =
    (inverse (base + event.at_ms) h, stamps D base (suc n) id inverse log hs)

in_range :
    (base : ℕ) (s : Session)
    → base + (detect_at_ms + s.stop_latency_ms + 4700) ≤ max_time
    → All (λ event. base + event.at_ms ≤ max_time) (events s)
unfolding schedule
in_range base s h = omega arith

numbered :
    (D : Dates) (s : Session) (now : String)
    → map (λ (event : ExportedEvent). event.sequence) (payload D s now).events
      ≡ 1 ∷ 2 ∷ 3 ∷ 4 ∷ 5 ∷ 6 ∷ 7 ∷ 8 ∷ 9 ∷ []
unfolding payload schedule
numbered D s now = refl

-- A downloaded file holds the log that the page shows, entry for entry, numbered from 1 to 9; each
-- time stamp, read back, is the start of the session plus the elapsed time of its entry, when
-- dates can be read back and the session ends in their range.
pub export_rehearsal-log :
    (D : Dates) (s : Session) {p : Payload} {now : String}
    → ((ms : ℕ) → ms ≤ max_time → D.get_time (D.to_iso ms) ≡ ms)
    → s.session_started_at ≡ some now
    → D.get_time now + complete_at s ≤ max_time
    → export_rehearsal D s ≡ some p
    → (map exported_entry_of p.events ≡ map entry_of (visible s))
      × (map (λ (event : ExportedEvent). event.sequence) p.events
          ≡ 1 ∷ 2 ∷ 3 ∷ 4 ∷ 5 ∷ 6 ∷ 7 ∷ 8 ∷ 9 ∷ [])
      × All (λ event. D.get_time event.timestamp ≡ D.get_time now + event.elapsed_ms) p.events
unfolding payload
export_rehearsal-log D s {p} {now} inverse start range h =
    let (now', stamp, same) = export_payload D s h in
    let here : now' ≡ now = cc in
    let end = complete_at_ms-schedule s.stop_latency_ms s.cloud_mode in
    rw (same, here, visible-completed s (export_done D s (some-ne-none h)))
      (
        exported_entries D (D.get_time now) 0 _ (events s),
        numbered D s now,
        stamps D (D.get_time now) 0 _ inverse (events s)
            (in_range (D.get_time now) s (rw (← end) range)),
      )

-- A downloaded file claims to be usable for the submission, and A06 to be passed, exactly if the
-- stop took at most 200 ms and the cloud was disconnected; its three statements on A06 say which
-- of these held, it claims A07, and it claims no physical gate and no physical evidence.
pub export_rehearsal-claims :
    (D : Dates) (s : Session) {p : Payload}
    → export_rehearsal D s ≡ some p
    → (p.eligibility.competition_submission_usable_without_hardware
        ≡ (leb s.stop_latency_ms 200 && is_disconnected s.cloud_mode))
      × (p.assertions.a06_simulation_passed
          ≡ (leb s.stop_latency_ms 200 && is_disconnected s.cloud_mode))
      × (p.assertions.a06_sensor_to_stationary_at_most_200_ms ≡ leb s.stop_latency_ms 200)
      × (p.assertions.a06_cloud_disconnect_precedes_detection ≡ is_disconnected s.cloud_mode)
      × (p.assertions.a07_simulation_passed ≡ true)
      × (p.assertions.a07_synchronized_sequence_complete ≡ true)
      × (p.eligibility.passes_internal_physical_field_gate ≡ false)
      × (p.eligibility.physical_hardware_claimed ≡ false)
      × (p.eligibility.physical_measurement_claimed ≡ false)
      × (p.assertions.a06_physical_passed ≡ false)
      × (p.assertions.a07_physical_passed ≡ false)
unfolding payload a06_simulation_passed a07_simulation_passed
export_rehearsal-claims D s h =
    let (now, stamp, same) = export_payload D s h in
    let done = export_done D s (some-ne-none h) in rw same (ground arith)
