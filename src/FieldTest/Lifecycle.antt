-- ===== src/FieldTest/Lifecycle.antt =====
-- The life of the lab: any clicks on enabled buttons of the page, and any ticks of its timer, from
-- the mounted component of apps/web/components/field-test-simulator.tsx on.
use shiftzero_hero.Common.{
  List, ◌++◌, ◌≤◌, ◌<◌, String, ◌≡◌, ◌⊎◌, true, false, some, arith, is_truthy,
}
use shiftzero_hero.Numbers.{Numbers}
use shiftzero_hero.Html.{Offers}
use shiftzero_hero.FieldTest.Schedule.{SimulationEvent}
use shiftzero_hero.FieldTest.Timeline.{
  schedule-InOrder_iff, visible_events-prefix, complete_at_ms-schedule, phase_at-completed_iff,
}
use shiftzero_hero.FieldTest.Session.{
  Session, Action, on_back, on_start_or_pause, on_inject_blockage, on_reset, on_export, on_map_mode,
  on_speed, on_stop_latency, on_cloud_mode, initial, events, complete_at, tick, perform,
}
use shiftzero_hero.FieldTest.View.Log.{visible}
use shiftzero_hero.FieldTest.View.{field_test_simulator}
use shiftzero_hero.FieldTest.Clicks.{enabled, field_test_simulator-Offers_iff}

-- The time of a click is a text, and not empty.
pub data Step (N : Numbers) : Session → Session → Type 0 where
  click :
      (s : Session) (a : Action) (now : String)
      → is_truthy (some now) ≡ true
      → Offers a (field_test_simulator N s)
      → Step N s (perform now a s)
  timer : (s : Session) → s.running ≡ true → Step N s (tick s)

pub data Reach (N : Numbers) : Session → Type 0 where
  mounted : Reach N initial
  next : {s t : Session} → Reach N s → Step N s t → Reach N t

pub record Inv (s : Session) : Type 0 where
  -- The stop takes one of the offered times, the playback one of the offered speeds.
  pub latency : (s.stop_latency_ms ≡ 84) ⊎ ((s.stop_latency_ms ≡ 150) ⊎ (s.stop_latency_ms ≡ 240))
  pub playback : (s.speed ≡ 1) ⊎ ((s.speed ≡ 2) ⊎ (s.speed ≡ 4))
  -- The clock stands at most at the end of the schedule, and before it while it runs.
  pub within : s.elapsed_ms ≤ complete_at s
  pub unfinished : (s.running ≡ false) ⊎ (s.elapsed_ms < complete_at s)
  -- Only a started session runs or has a clock above 0, and it alone has a time stamp.
  pub fresh : (s.started ≡ true) ⊎ ((s.elapsed_ms ≡ 0) × (s.running ≡ false))
  pub stamped : is_truthy s.session_started_at ≡ s.started

initial-Inv : Inv initial
unfolding initial
initial-Inv = ground (arith, complete_at_ms-schedule initial.stop_latency_ms initial.cloud_mode)

tick-Inv : (s : Session) → Inv s → Inv (tick s)
unfolding tick
tick-Inv s v = ground (arith, complete_at_ms-schedule s.stop_latency_ms s.cloud_mode)

perform-Inv :
    (s : Session) (a : Action) (now : String)
    → is_truthy (some now) ≡ true
    → enabled s a ≡ true
    → Inv s
    → Inv (perform now a s)
unfolding perform
perform-Inv s on_back now real e v = v
perform-Inv s on_start_or_pause now real e v = ground (
  arith,
  complete_at_ms-schedule s.stop_latency_ms s.cloud_mode,
  phase_at-completed_iff s.elapsed_ms s.started s.stop_latency_ms s.cloud_mode,
)
perform-Inv s on_inject_blockage now real e v =
    ground (arith, complete_at_ms-schedule s.stop_latency_ms s.cloud_mode)
perform-Inv s on_reset now real e v =
    ground (arith, complete_at_ms-schedule s.stop_latency_ms s.cloud_mode)
perform-Inv s on_export now real e v = v
perform-Inv s (on_map_mode mode) now real e v = ground arith
perform-Inv s (on_speed value) now real e v = ground arith
perform-Inv s (on_stop_latency value) now real e v = ground (
  arith,
  complete_at_ms-schedule s.stop_latency_ms s.cloud_mode,
  complete_at_ms-schedule value s.cloud_mode,
)
perform-Inv s (on_cloud_mode mode) now real e v = ground (
  arith,
  complete_at_ms-schedule s.stop_latency_ms s.cloud_mode,
  complete_at_ms-schedule s.stop_latency_ms mode,
)

Step-Inv : (N : Numbers) {s t : Session} → Step N s t → Inv s → Inv t
Step-Inv N (click s a now real offered) v =
    perform-Inv s a now real ((field_test_simulator-Offers_iff N s a).0 offered) v
Step-Inv N (timer s running) v = tick-Inv s v

-- Every state that clicks on enabled buttons and timer ticks lead to satisfies the invariant of
-- the lab: offered times and speeds only, a clock within the schedule and before its end while it
-- runs, and a time stamp exactly on a started session.
pub Reach-Inv : (N : Numbers) {s : Session} → Reach N s → Inv s
Reach-Inv N mounted = initial-Inv
Reach-Inv N (next r st) = Step-Inv N st (Reach-Inv N r)

-- What a step leaves alone while the run lasts.
pub record IsLater (s t : Session) : Type 0 where
  pub same_latency : t.stop_latency_ms ≡ s.stop_latency_ms
  pub same_cloud : t.cloud_mode ≡ s.cloud_mode
  pub same_stamp : t.session_started_at ≡ s.session_started_at
  pub no_rewind : s.elapsed_ms ≤ t.elapsed_ms

-- How an action sets the map and the speed: the buttons of the map set the map alone, those of the
-- speed the speed alone, and nothing else sets either.
abbrev pub Displays : Action → Session → Session → Type 0
Displays (on_map_mode mode) s t = (t.map_mode ≡ mode) × (t.speed ≡ s.speed)
Displays (on_speed value) s t = (t.map_mode ≡ s.map_mode) × (t.speed ≡ value)
Displays _ s t = (t.map_mode ≡ s.map_mode) × (t.speed ≡ s.speed)

abbrev pub Moves : {N : Numbers} {s t : Session} → Step N s t → Type 0
Moves (click s a now real offered) = Displays a s (perform now a s)
Moves (timer s running) = ((tick s).map_mode ≡ s.map_mode) × ((tick s).speed ≡ s.speed)

perform-Displays :
    (s : Session) (a : Action) (now : String)
    → enabled s a ≡ true
    → s.started ≡ true
    → (perform now a s).started ≡ true
    → Displays a s (perform now a s)
unfolding perform
perform-Displays s on_back now e b c = ground arith
perform-Displays s _ now e b c = ground arith

tick-Displays : (s : Session) → ((tick s).map_mode ≡ s.map_mode) × ((tick s).speed ≡ s.speed)
unfolding tick
tick-Displays s = ground arith

perform-IsLater :
    (s : Session) (a : Action) (now : String)
    → enabled s a ≡ true
    → s.started ≡ true
    → (perform now a s).started ≡ true
    → IsLater s (perform now a s)
unfolding perform
perform-IsLater s on_back now e b c = ground arith
perform-IsLater s _ now e b c = ground arith

tick-IsLater : (s : Session) → Inv s → IsLater s (tick s)
unfolding tick
tick-IsLater s v = ground arith

-- While a run lasts, no step from a reachable state changes its stop latency, its cloud mode or
-- its time stamp, or sets its clock back; the map mode and the playback speed change only by a
-- click on a button that sets them, to the value that it sets.
pub Step-IsLater :
    (N : Numbers) {s t : Session}
    → Reach N s
    → (st : Step N s t) → s.started ≡ true
    → t.started ≡ true
    → IsLater s t × Moves st
Step-IsLater N r (click s a now real offered) b c =
    let able = (field_test_simulator-Offers_iff N s a).0 offered in
    (perform-IsLater s a now able b c, perform-Displays s a now able b c)
Step-IsLater N r (timer s running) b c = (tick-IsLater s (Reach-Inv N r), tick-Displays s)

-- While a run lasts, a step from a reachable state appends to the visible log and takes nothing
-- from it.
pub Step-visible :
    (N : Numbers) {s t : Session}
    → Reach N s
    → Step N s t
    → s.started ≡ true
    → t.started ≡ true
    → (more : List SimulationEvent) × (visible t ≡ visible s ++ more)
Step-visible N {s} {t} r st b c =
    let later = (Step-IsLater N r st b c).0 in
    let v = Reach-Inv N r in
    let ordered = (schedule-InOrder_iff s.stop_latency_ms s.cloud_mode).1 (ground arith) in
    let (more, same) =
      visible_events-prefix (events s) s.elapsed_ms t.elapsed_ms ordered later.no_rewind in
    (more, rw (b, c, later.same_latency, later.same_cloud) same)
