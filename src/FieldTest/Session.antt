-- ===== src/FieldTest/Session.antt =====
-- The state of the lab and its handlers: the component `FieldTestSimulator`. A handler runs on the
-- state of the last render, which it returns changed.
use shiftzero_hero.Common.{
  ℕ, ◌+◌, ◌*◌, String, Bool, true, false, not, ◌&&◌, Option, none, some, List, min, leb, ltb,
  if◌then◌else◌,
}
use shiftzero_hero.FieldTest.Schedule.{
  Phase, CloudMode, disconnected_before_obstacle, is_disconnected, SimulationEvent, detect_at_ms,
  schedule, phase_at, is_completed, complete_at_ms,
}

pub data MapMode : Type 0 where
  flat isometric : MapMode  -- '2D' and '3D'

pub record Session : Type 0 where
  pub started : Bool
  pub running : Bool
  pub elapsed_ms : ℕ
  pub speed : ℕ
  pub stop_latency_ms : ℕ
  pub cloud_mode : CloudMode
  pub map_mode : MapMode
  pub session_started_at : Option String

unfoldable pub initial : Session
initial = record {
  started = false;
  running = false;
  elapsed_ms = 0;
  speed = 1;
  stop_latency_ms = 150;
  cloud_mode = disconnected_before_obstacle;
  map_mode = flat;
  session_started_at = none;
}

abbrev pub events : Session → List SimulationEvent
events s = schedule s.stop_latency_ms s.cloud_mode

abbrev pub complete_at : Session → ℕ
complete_at s = complete_at_ms (events s)

abbrev pub phase : Session → Phase
phase s = phase_at s.elapsed_ms s.started s.stop_latency_ms

unfoldable pub a06_simulation_passed : Session → Bool
a06_simulation_passed s =
    is_completed (phase s) && (leb s.stop_latency_ms 200 && is_disconnected s.cloud_mode)

unfoldable pub a07_simulation_passed : Session → Bool
a07_simulation_passed s = is_completed (phase s)

-- The callback of the 50 ms interval timer, which exists only while `running`.
unfoldable pub tick : Session → Session
tick s =
    let next : ℕ = min (complete_at s) (s.elapsed_ms + 50 * s.speed) in
    if s.running
    then record s { elapsed_ms = next; running = not (leb (complete_at s) next) }
    else s

-- `if (!started) { setStarted(true); setSessionStartedAt(now); }`
abbrev mark_started : String → Session → Session
mark_started now s =
    if s.started then s else record s { started = true; session_started_at = some now }

-- `now` stands for `new Date().toISOString()` at the click.
unfoldable pub start_or_pause : String → Session → Session
start_or_pause now s =
    let t = mark_started now s in
    if is_completed (phase s) then s else record t { running = not t.running }

unfoldable pub reset : Session → Session
reset s = record s { running = false; started = false; elapsed_ms = 0; session_started_at = none }

unfoldable pub inject_blockage : String → Session → Session
inject_blockage now s =
    let t = mark_started now s in
    record t {
      elapsed_ms = if ltb s.elapsed_ms detect_at_ms then detect_at_ms else s.elapsed_ms;
      running = true;
    }

-- What a button of the lab does.
pub data Action : Type 0 where
  on_back on_start_or_pause on_inject_blockage on_reset on_export : Action
  on_map_mode : MapMode → Action
  on_speed on_stop_latency : ℕ → Action
  on_cloud_mode : CloudMode → Action

-- Leaving the lab and exporting change no state of it.
unfoldable pub perform : String → Action → Session → Session
unfolding start_or_pause inject_blockage reset
perform now on_back s = s
perform now on_export s = s
perform now on_start_or_pause s = start_or_pause now s
perform now on_inject_blockage s = inject_blockage now s
perform now on_reset s = reset s
perform now (on_map_mode mode) s = record s { map_mode = mode }
perform now (on_speed value) s = record s { speed = value }
perform now (on_stop_latency value) s = record s { stop_latency_ms = value }
perform now (on_cloud_mode mode) s = record s { cloud_mode = mode }
