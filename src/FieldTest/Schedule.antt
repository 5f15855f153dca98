-- ===== src/FieldTest/Schedule.antt =====
-- The synthetic event schedule and the phase of a run: `schedule` and `phaseAt`.
use shiftzero_hero.Common.{
  ℕ, ◌+◌, ◌-◌, String, Bool, true, false, not, ◌&&◌, none, some, List, [], ◌∷◌, ltb, leb,
  if◌then◌else◌, length, get_elem?, filter, show, ◌&◌,
}

pub data Phase : Type 0 where
  ready executing sensor_detected safe_stop replanning resumed completed : Phase

pub data CloudMode : Type 0 where
  disconnected_before_obstacle connected : CloudMode

pub record SimulationEvent : Type 0 where
  pub at_ms : ℕ
  pub kind : String
  pub source : String
  pub detail : String

abbrev pub detect_at_ms : ℕ
detect_at_ms = 3000

-- `cloudMode === 'DISCONNECTED_BEFORE_OBSTACLE'`
abbrev pub is_disconnected : CloudMode → Bool
is_disconnected disconnected_before_obstacle = true
is_disconnected connected = false

unfoldable pub schedule : ℕ → CloudMode → List SimulationEvent
schedule stop_latency_ms cloud_mode =
    let stationary_at : ℕ = detect_at_ms + stop_latency_ms in
    record {
      at_ms = 0;
      kind = "mission.started";
      source = "dispatch.simulator";
      detail = "AGV-03 accepted route A for P-104";
    }
    ∷ record {
      at_ms = 2600;
      kind =
          if is_disconnected cloud_mode
          then "network.cloud_disconnected"
          else "network.cloud_retained";
      source = "network.fixture";
      detail =
          if is_disconnected cloud_mode
          then "Cloud route removed before obstacle injection; edge controller remains active"
          else "Cloud route retained for the negative-control run";
    }
    ∷ record {
      at_ms = 2900;
      kind = "sensor.raw_detected";
      source = "lidar.fixture";
      detail = "Synthetic return entered the detection envelope";
    }
    ∷ record {
      at_ms = detect_at_ms;
      kind = "sensor.filtered_obstacle";
      source = "edge.fixture";
      detail = "Synthetic obstacle confirmed at N09";
    }
    ∷ record {
      at_ms = detect_at_ms + 12;
      kind = "edge.stop_issued";
      source = "edge.fixture";
      detail =
          if is_disconnected cloud_mode
          then "Local stop issued while the cloud route is disconnected"
          else "Local stop issued while the cloud route remains connected";
    }
    ∷ record {
      at_ms = stationary_at;
      kind = "agv.stationary_confirmed";
      source = "agv-03.fixture";
      detail = "Synthetic stationary confirmation (" & (show stop_latency_ms & " ms)");
    }
    ∷ record {
      at_ms = stationary_at + 850;
      kind = "replan.accepted";
      source = "planner.fixture";
      detail = "Route version sim-route-a → sim-route-b";
    }
    ∷ record {
      at_ms = stationary_at + 1750;
      kind = "mission.resumed";
      source = "dispatch.simulator";
      detail = "AGV-03 resumed on the synthetic detour";
    }
    ∷ record {
      at_ms = stationary_at + 4700;
      kind = "mission.completed";
      source = "agv-03.fixture";
      detail = "P-104 reached N12; simulated final pose captured";
    }
    ∷ []

unfoldable pub phase_at : ℕ → Bool → ℕ → Phase
phase_at elapsed_ms started stop_latency_ms =
    let stationary_at : ℕ = detect_at_ms + stop_latency_ms in
    if not started
    then ready
    else if ltb elapsed_ms detect_at_ms
    then executing
    else if ltb elapsed_ms stationary_at
    then sensor_detected
    else if ltb elapsed_ms (stationary_at + 850)
    then safe_stop
    else if ltb elapsed_ms (stationary_at + 1750)
    then replanning
    else if ltb elapsed_ms (stationary_at + 4700)
    then resumed
    else completed

-- `phase === 'COMPLETED'`
abbrev pub is_completed : Phase → Bool
is_completed completed = true
is_completed _ = false

-- `events[events.length - 1].atMs`; the schedule is never empty.
unfoldable pub complete_at_ms : List SimulationEvent → ℕ
complete_at_ms events = elim (get_elem? events (length events - 1)) [
  | none ↦ 0
  | some event ↦ event.at_ms
]

-- `events.filter((event) => event.atMs <= elapsedMs && started)`
unfoldable pub visible_events : List SimulationEvent → ℕ → Bool → List SimulationEvent
visible_events events elapsed_ms started =
    filter (λ (event : SimulationEvent). leb event.at_ms elapsed_ms && started) events
