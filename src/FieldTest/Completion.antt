-- ===== src/FieldTest/Completion.antt =====
-- A running lab comes to its end: the timer of apps/web/components/field-test-simulator.tsx, and the
-- two verdicts that the page then shows.
use shiftzero_hero.Common.{
  Bool-cases, is_truthy, false, ℕ, zero, suc, ◌+◌, ◌*◌, ◌≤◌, ◌<◌, String, ◌≡◌, refl, inl, inr, true,
  ◌&&◌, some, arith, leb, le_or_lt,
}
use shiftzero_hero.Numbers.{Numbers}
use shiftzero_hero.FieldTest.Schedule.{is_completed, is_disconnected, completed}
use shiftzero_hero.FieldTest.Timeline.{complete_at_ms-schedule, phase_at-completed_iff}
use shiftzero_hero.FieldTest.Session.{
  Session, complete_at, phase, tick, perform, on_start_or_pause, start_or_pause,
  a06_simulation_passed, a07_simulation_passed,
}
use shiftzero_hero.FieldTest.Clicks.{field_test_simulator-Offers_iff}
use shiftzero_hero.FieldTest.Lifecycle.{click, Reach, next, Reach-Inv}

-- `n` callbacks of the interval timer.
pub ticks : ℕ → Session → Session
ticks zero s = s
ticks (suc n) s = ticks n (tick s)

-- The session `s` at the end of its schedule.
abbrev pub finished : Session → Session
finished s = record s { elapsed_ms = complete_at s; running = false }

tick_on :
    (s : Session)
    → s.running ≡ true
    → s.elapsed_ms + 50 * s.speed < complete_at s
    → tick s ≡ record s { elapsed_ms = s.elapsed_ms + 50 * s.speed; running = true }
unfolding tick
tick_on s running early = ground arith

tick_last :
    (s : Session)
    → s.running ≡ true
    → complete_at s ≤ s.elapsed_ms + 50 * s.speed
    → tick s ≡ finished s
unfolding tick
tick_last s running due = ground arith

tick_stopped : (s : Session) → s.running ≡ false → tick s ≡ s
unfolding tick
tick_stopped s stopped = ground arith

ticks_stopped : (n : ℕ) (s : Session) → s.running ≡ false → ticks n s ≡ s
unfolding ticks
ticks_stopped zero s stopped = refl
ticks_stopped (suc n) s stopped = rw (tick_stopped s stopped) (ticks_stopped n s stopped)

-- A running session before its end is at its end, and stopped, after any number of ticks that
-- covers the time left.
pub ticks-finished :
    (n : ℕ) (s : Session)
    → s.running ≡ true
    → s.elapsed_ms < complete_at s
    → complete_at s ≤ s.elapsed_ms + 50 * s.speed * n
    → ticks n s ≡ finished s
unfolding ticks
ticks-finished zero s running early enough = absurd (omega arith)
ticks-finished (suc n) s running early enough =
    elim (le_or_lt (complete_at s) (s.elapsed_ms + 50 * s.speed)) [
      | inl due ↦ rw (tick_last s running due) (ticks_stopped n (finished s) refl)
      | inr on ↦ rw (tick_on s running on) (
          ticks-finished n (record s { elapsed_ms = s.elapsed_ms + 50 * s.speed; running = true })
            refl on (omega arith))
    ]

-- A run started by the button, and not touched any more.
abbrev pub untouched_run : String → ℕ → Session → Session
untouched_run now n s = ticks n (start_or_pause now s)

start_fresh :
    (s : Session) (now : String)
    → s.started ≡ false
    → s.running ≡ false
    → start_or_pause now s
      ≡ record s { started = true; running = true; session_started_at = some now }
unfolding start_or_pause
start_fresh s now fresh idle =
    ground (arith, phase_at-completed_iff s.elapsed_ms s.started s.stop_latency_ms s.cloud_mode)

-- 159 ticks of 50 ms cover the longest schedule at the lowest speed.
untouched_run_lem :
    (N : Numbers) {s : Session} (now : String) (n : ℕ)
    → Reach N s
    → s.started ≡ false
    → 159 ≤ n
    → untouched_run now n s
      ≡ finished (record s { started = true; running = true; session_started_at = some now })
untouched_run_lem N {s} now n r fresh many =
    let v = Reach-Inv N r in
    let end = complete_at_ms-schedule s.stop_latency_ms s.cloud_mode in
    let still : (s.elapsed_ms ≡ 0) × (s.running ≡ false) = ground (arith, v.fresh) in
    rw (start_fresh s now fresh still.1) (
      ticks-finished n (record s { started = true; running = true; session_started_at = some now })
        refl (ground (arith, end, still)) (grind (arith, end, v.latency, v.playback)))

verdicts :
    (s : Session)
    → s.started ≡ true
    → (phase (finished s) ≡ completed)
      × (a07_simulation_passed (finished s) ≡ true)
      × (a06_simulation_passed (finished s)
          ≡ (leb s.stop_latency_ms 200 && is_disconnected s.cloud_mode))
unfolding a06_simulation_passed a07_simulation_passed
verdicts s started =
    let done =
      (phase_at-completed_iff (complete_at s) s.started s.stop_latency_ms s.cloud_mode).1
        (started, omega arith) in
    (done, rw done, rw done)

-- From any reachable state before a run, with any configuration, the button "Run simulation" and
-- at least 159 ticks lead to COMPLETED and to a stopped clock; A07 has then passed, and A06
-- exactly if the stop took at most 200 ms and the cloud was disconnected.
pub untouched_run-verdicts :
    (N : Numbers) {s : Session} (now : String) (n : ℕ)
    → Reach N s
    → s.started ≡ false
    → 159 ≤ n
    → (phase (untouched_run now n s) ≡ completed)
      × ((untouched_run now n s).running ≡ false)
      × (a07_simulation_passed (untouched_run now n s) ≡ true)
      × (a06_simulation_passed (untouched_run now n s)
          ≡ (leb s.stop_latency_ms 200 && is_disconnected s.cloud_mode))
untouched_run-verdicts N {s} now n r fresh many =
    let (done, a07, a06) =
      verdicts (record s { started = true; running = true; session_started_at = some now }) refl in
    rw (untouched_run_lem N now n r fresh many) (done, refl, a07, a06)

-- Every running session that is reachable is, after at least 159 ticks, at the end of its
-- schedule, stopped and COMPLETED.
pub running-completed :
    (N : Numbers) {s : Session} (n : ℕ)
    → Reach N s
    → s.running ≡ true
    → 159 ≤ n
    → (ticks n s ≡ finished s) × (phase (ticks n s) ≡ completed)
running-completed N {s} n r runs many =
    let v = Reach-Inv N r in
    let end = complete_at_ms-schedule s.stop_latency_ms s.cloud_mode in
    let started : s.started ≡ true = ground (arith, Bool-cases s.started, v.fresh) in
    let over : ticks n s ≡ finished s =
      ticks-finished n s runs (ground (arith, v.unfinished))
        (grind (arith, end, v.latency, v.playback)) in
    (over, rw over ((verdicts s started).0))

resumed :
    (s : Session) (now : String)
    → s.running ≡ false
    → is_completed (phase s) ≡ false
    → (start_or_pause now s).running ≡ true
unfolding start_or_pause
resumed s now idle open_run = ground arith

-- No reachable session is stuck: if it stands still and is not completed, a click on the start
-- button (at a time that is written as a non-empty text) and at least 159 ticks lead to COMPLETED
-- and to a stopped clock.
pub untouched_run-completed :
    (N : Numbers) {s : Session} (now : String) (n : ℕ)
    → Reach N s
    → is_truthy (some now) ≡ true
    → s.running ≡ false
    → is_completed (phase s) ≡ false
    → 159 ≤ n
    → (phase (untouched_run now n s) ≡ completed) × ((untouched_run now n s).running ≡ false)
unfolding perform
untouched_run-completed N {s} now n r real idle open_run many =
    let offered = (field_test_simulator-Offers_iff N s on_start_or_pause).1 (ground arith) in
    let (over, done) =
      running-completed N n (next r (click s on_start_or_pause now real offered))
        (resumed s now idle open_run) many in
    (done, rw over refl)
