-- ===== src/FieldTest/Export.antt =====
-- The downloaded evidence: `exportRehearsal` of apps/web/components/field-test-simulator.tsx. The
-- object handed to `downloadJson` is the result; nothing is downloaded on an early return.
use shiftzero_hero.Common.{
  ℕ, ◌+◌, String, ◌&◌, Bool, false, not, ◌&&◌, ◌||◌, Option, none, some, List, [], ◌∷◌, leb,
  if◌then◌else◌, show, map_from, is_truthy,
}
use shiftzero_hero.FieldTest.Schedule.{SimulationEvent, is_completed, is_disconnected}
use shiftzero_hero.FieldTest.Session.{
  Session, MapMode, events, phase, a06_simulation_passed, a07_simulation_passed,
}

-- `new Date(ms).toISOString()` and `new Date(text).getTime()`.
pub record Dates : Type 0 where
  pub to_iso : ℕ → String
  pub get_time : String → ℕ

pub record RuleBasis : Type 0 where
  pub url : String
  pub interpretation : String

pub record Eligibility : Type 0 where
  pub competition_submission_usable_without_hardware : Bool
  pub physical_hardware_claimed : Bool
  pub physical_measurement_claimed : Bool
  pub passes_internal_physical_field_gate : Bool

pub record Identifiers : Type 0 where
  pub session_id : String
  pub trace_id : String
  pub correlation_id : String
  pub mission_id : String
  pub vehicle_id : String
  pub pallet_id : String

pub record Simulator : Type 0 where
  pub name : String
  pub vehicle_count : ℕ
  pub map_mode : MapMode
  pub speed_multiplier : ℕ
  pub synthetic_sensor_to_stop_ms : ℕ
  pub cloud_mode : String

pub record Assertions : Type 0 where
  pub a06_simulation_passed : Bool
  pub a06_cloud_disconnect_precedes_detection : Bool
  pub a06_sensor_to_stationary_at_most_200_ms : Bool
  pub a07_simulation_passed : Bool
  pub a07_synchronized_sequence_complete : Bool
  pub a06_physical_passed : Bool
  pub a07_physical_passed : Bool

pub record FinalPose : Type 0 where
  pub node_id : String
  pub x : ℕ
  pub y : ℕ
  pub heading_deg : ℕ

pub record Outcome : Type 0 where
  pub status : String
  pub route_version_before : String
  pub route_version_after : String
  pub final_pose : FinalPose

pub record ExportedEvent : Type 0 where
  pub sequence : ℕ
  pub kind : String
  pub source : String
  pub timestamp : String
  pub elapsed_ms : ℕ
  pub session_id : String
  pub trace_id : String
  pub correlation_id : String
  pub mission_id : String
  pub detail : String

pub record Payload : Type 0 where
  pub schema_version : String
  pub evidence_class : String
  pub claim_scope : String
  pub official_rule_basis : RuleBasis
  pub eligibility : Eligibility
  pub identifiers : Identifiers
  pub simulator : Simulator
  pub assertions : Assertions
  pub outcome : Outcome
  pub events : List ExportedEvent
  pub limitations : List String
  pub optional_physical_extension_requires : List String

abbrev pub exported_event : Dates → ℕ → String → ℕ → SimulationEvent → ExportedEvent
exported_event D base_time session_id index event = record {
  sequence = index + 1;
  kind = event.kind;
  source = event.source;
  timestamp = D.to_iso (base_time + event.at_ms);
  elapsed_ms = event.at_ms;
  session_id = session_id;
  trace_id = session_id;
  correlation_id = session_id;
  mission_id = "SIM-MISSION-P104-A12";
  detail = event.detail;
}

unfoldable pub payload : Dates → Session → String → Payload
payload D s started_at =
    let base_time : ℕ = D.get_time started_at in
    let id : String = "SIM-A06A07-" & show base_time in
    record {
      schema_version = "competition-simulation-evidence-v1";
      evidence_class = "digital_twin_simulation";
      claim_scope = "official_competition_no_hardware_path";
      official_rule_basis = record {
        url = "https://nebiusglobalaihackathon.devpost.com/rules";
        interpretation =
            "Physical AI entries without physical hardware may demonstrate the key application modules in action.";
      };
      eligibility = record {
        competition_submission_usable_without_hardware =
            a06_simulation_passed s && a07_simulation_passed s;
        physical_hardware_claimed = false;
        physical_measurement_claimed = false;
        passes_internal_physical_field_gate = false;
      };
      identifiers = record {
        session_id = id;
        trace_id = id;
        correlation_id = id;
        mission_id = "SIM-MISSION-P104-A12";
        vehicle_id = "AGV-03";
        pallet_id = "P-104";
      };
      simulator = record {
        name = "ShiftZero A06/A07 Digital Twin Lab";
        vehicle_count = 9;
        map_mode = s.map_mode;
        speed_multiplier = s.speed;
        synthetic_sensor_to_stop_ms = s.stop_latency_ms;
        cloud_mode =
            if is_disconnected s.cloud_mode
            then "disconnected_before_obstacle"
            else "connected_negative_control";
      };
      assertions = record {
        a06_simulation_passed = a06_simulation_passed s;
        a06_cloud_disconnect_precedes_detection = is_disconnected s.cloud_mode;
        a06_sensor_to_stationary_at_most_200_ms = leb s.stop_latency_ms 200;
        a07_simulation_passed = a07_simulation_passed s;
        a07_synchronized_sequence_complete = a07_simulation_passed s;
        a06_physical_passed = false;
        a07_physical_passed = false;
      };
      outcome = record {
        status = "COMPLETED";
        route_version_before = "sim-route-a";
        route_version_after = "sim-route-b";
        final_pose = record { node_id = "N12"; x = 842; y = 135; heading_deg = 315 };
      };
      events = map_from (exported_event D base_time id) 0 (events s);
      limitations =
          "All sensors, AGVs, timing and motion in this file are synthetic."
          ∷ "This demonstrates the official no-hardware application path, not real AGV performance."
          ∷ "Do not describe this file as physical sensor-to-stop evidence." ∷ [];
      optional_physical_extension_requires =
          "continuous_video" ∷ "raw_telemetry" ∷ "raw_sensor_capture" ∷ "mqtt_or_vda5050_trace"
          ∷ "synchronized_clock_evidence" ∷ "safety_owner_attestation" ∷ [];
    }

unfoldable pub export_from : Dates → Session → Option String → Option Payload
unfolding payload
export_from D s none = none
export_from D s (some started_at) =
    if not (is_completed (phase s)) || not (is_truthy (some started_at))
    then none
    else some (payload D s started_at)

unfoldable pub export_rehearsal : Dates → Session → Option Payload
unfolding export_from
export_rehearsal D s = export_from D s s.session_started_at
