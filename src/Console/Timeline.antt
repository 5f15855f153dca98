-- ===== src/Console/Timeline.antt =====
-- The constants of apps/web/components/mission-console.tsx: the views, the replay timeline, the
-- scenario suites and the architecture layers.
use shiftzero_hero.Common.{ℕ, suc, String, Bool, Option, none, some, List, [], ◌∷◌, if◌then◌else◌}
use text.Mathlib.Text.{◌==◌ as str_eq}
use mathlib.Core.Option

pub data View : Type 0 where
  mission architecture evidence field_test source : View

pub record TimelineItem : Type 0 where
  pub state : String
  pub event : String
  pub detail : String
  pub tone : String

-- A row of the table below.
abbrev item : String → String → String → String → TimelineItem
item state event detail tone = record { state = state; event = event; detail = detail; tone = tone }

abbrev pub timeline : List TimelineItem
timeline =
    item "INTENT" "intent.received" "Move pallet P-104 from INBOUND-01 to RACK-A12" "cyan"
    ∷ item "OBSERVED" "get_operational_snapshot" "Map, robot, zones and inventory resolved" "slate"
    ∷ item "PLANNED" "plan_transport" "AGV-03 selected · route A calculated" "violet"
    ∷ item "PROPOSED" "propose_transport" "Typed proposal ready for review" "slate"
    ∷ item "VERIFIED" "safety.proof" "11 route, policy and approval-integrity checks passed"
        "emerald"
    ∷ item "APPROVED" "approval.granted" "Human approval bound to proposal hash" "emerald"
    ∷ item "EXECUTING" "mission.started" "Simulator accepted signed command" "cyan"
    ∷ item "EXECUTING" "get_mission_status" "Typed mission status and telemetry read recorded"
        "slate"
    ∷ item "BLOCKED" "sensor.aisle_blocked" "Unexpected obstacle at node N09" "amber"
    ∷ item "SAFE_STOP" "execution.local_stop" "Local simulator stop measured and written to trace"
        "rose"
    ∷ item "SAFE_STOP" "recovery.intent" "Typed recovery preserves the approved goal" "violet"
    ∷ item "REPLANNING" "replan_mission" "Route B avoids the blocked aisle" "violet"
    ∷ item "VERIFIED" "safety.replan_proof" "Replacement route independently verified" "emerald"
    ∷ item "EXECUTING" "execution.resumed" "Approved recovery policy resumed motion" "cyan"
    ∷ item "COMPLETED" "outcome.completed" "P-104 delivered at RACK-A12 · proof sealed" "emerald"
    ∷ []

-- `xs.findIndex(p)`; `none` stands for -1.
abbrev pub find_index {ℓ} : {A : Type ℓ} → (A → Bool) → List A → Option ℕ
find_index p [] = none
find_index p (x ∷ xs) = let rest = Option.map suc (find_index p xs) in if p x then some 0 else rest

-- `timeline.findIndex((item) => item.state === state)`, and by the event.
unfoldable pub index_of_state : String → Option ℕ
index_of_state state = find_index (λ (i : TimelineItem). str_eq i.state state) timeline

unfoldable pub index_of_event : String → Option ℕ
index_of_event event = find_index (λ (i : TimelineItem). str_eq i.event event) timeline

abbrev pub views : List (View × String)
views =
    (mission, "Run Hero")
    ∷ (architecture, "Architecture")
    ∷ (evidence, "Evidence")
    ∷ (source, "GitHub")
    ∷ []

abbrev pub suites : List (String × String × ℕ × String)
suites =
    ("S01", "Nominal transport", 20, "#f4bd73")
    ∷ ("S02", "Aisle blockage", 20, "#a69cff")
    ∷ ("S03", "Low battery", 15, "#f5c563")
    ∷ ("S04", "Destination occupied", 15, "#67dba5")
    ∷ ("S05", "Reservation conflict", 15, "#5eb7ff")
    ∷ ("S06", "Ambiguous intent", 15, "#ff8a9a")
    ∷ []

pub record ArchitectureLayer : Type 0 where
  pub number : String
  pub title : String
  pub detail : String
  pub icon : String
  pub label : String

abbrev layer : String → String → String → String → String → ArchitectureLayer
layer number title detail icon label = record {
  number = number;
  title = title;
  detail = detail;
  icon = icon;
  label = label;
}

abbrev pub architecture_layers : List ArchitectureLayer
architecture_layers =
    layer "01" "Language & orchestration"
      "Nemotron emits typed tool calls; it never commands robot motion directly." "Sparkles"
      "ADVISORY"
    ∷ layer "02" "Deterministic safety kernel"
        "Frozen rules validate state, route, zones, battery, payload and approval binding."
        "ShieldCheck" "AUTHORITATIVE"
    ∷ layer "03" "Mission state machine"
        "Every transition is explicit, allow-listed and written to an append-only trace."
        "GitBranch" "AUTHORITATIVE"
    ∷ layer "04" "Adapter boundary"
        "Reference simulator today; physical AGV remains gated behind a safety-approved hardware handoff."
        "Layers3" "SWAPPABLE"
    ∷ layer "05" "Local edge stop"
        "The robot-side controller can stop without waiting for an LLM or network round trip."
        "CircleStop" "LOCAL"
    ∷ []
