-- ===== src/Service/Domain.antt =====
-- The data that the service exchanges: src/shiftzero/domain.py. Floating-point numbers and moments in
-- time are parameters of the records.
use shiftzero_hero.Common.{ℕ, String, Bool, Option, List, [], ◌∷◌}
use shiftzero_hero.Numbers.{Numbers}

-- What the code uses of `datetime`: moments, `t + timedelta(seconds=x)`, `<=`, `<` and `isoformat()`.
pub record Clock (N : Numbers) : Type 1 where
  pub Time : Type 0
  pub shift : Time → N.Number → Time
  pub le : Time → Time → Bool
  pub lt : Time → Time → Bool
  pub isoformat : Time → String
  pub to_json : Time → String  -- how pydantic writes a moment in JSON

-- A value that JSON can hold: a number as it is written, an object as its keys and values in order.
mutual
  pub data Json : Type 0 where
    null : Json
    boolean : Bool → Json
    string : String → Json
    number : String → Json
    array : Jsons → Json
    object : Fields → Json

  pub data Jsons : Type 0 where
    end : Jsons
    item : Json → Jsons → Jsons

  pub data Fields : Type 0 where
    done : Fields
    field : String → Json → Fields → Fields

-- `json.dumps(value, sort_keys=True, separators=(",", ":"), ensure_ascii=True)`, and the hexadecimal
-- SHA-256 digest of a text.
pub record Digest : Type 0 where
  pub dumps : Json → String
  pub sha256 : String → String

unfoldable pub canonical_hash : Digest → Json → String
canonical_hash D value = D.sha256 (D.dumps value)

abbrev pub texts : List String → Jsons
texts [] = end
texts (s ∷ rest) = item (string s) (texts rest)

pub record MissionIntent : Type 0 where
  pub pallet_id : String
  pub source : String
  pub destination : String
  pub requested_agv : Option String
  pub constraints : List String

pub record MapNode (F : Type 0) : Type 0 where
  pub id : String
  pub x : F
  pub y : F
  pub zone : String
  pub capacity : ℕ
  pub allowed_vehicle_types : List String

pub data Direction : Type 0 where
  bidirectional forward : Direction

pub record MapEdge (F : Type 0) : Type 0 where
  pub from_node : String
  pub to_node : String
  pub length_m : F
  pub speed_limit_mps : F
  pub reservation_group : String
  pub direction : Direction

pub record Pose (F : Type 0) : Type 0 where
  pub node_id : String
  pub x : F
  pub y : F
  pub heading_deg : F

pub data AgvMode : Type 0 where
  idle charging executing stopped offline : AgvMode

pub record AgvState (F : Type 0) : Type 0 where
  pub id : String
  pub node_id : String
  pub state : AgvMode
  pub battery_percent : F
  pub capabilities : List String
  pub current_mission_id : Option String
  pub load_id : Option String
  pub pose : Option (Pose F)

pub data LocationKind : Type 0 where
  inbound rack staging : LocationKind

pub record LocationState : Type 0 where
  pub id : String
  pub node_id : String
  pub kind : LocationKind
  pub occupancy : Option String
  pub pallet_id : Option String
  pub reachable : Bool

pub record PalletState : Type 0 where
  pub id : String
  pub location_id : String

-- Without its geometry, which nothing here reads.
pub record ObstacleState (F T : Type 0) : Type 0 where
  pub id : String
  pub node_id : String
  pub confidence : F
  pub source : String
  pub first_seen : T
  pub last_seen : T
  pub ttl_seconds : F
  pub observation_count : ℕ

pub record RouteReservation (T : Type 0) : Type 0 where
  pub reservation_group : String
  pub held_by : String
  pub starts_at : T
  pub ends_at : T
  pub waiting_for : Option String

-- The dictionaries are association lists with one entry for a key.
pub record OperationalSnapshot (F T : Type 0) : Type 0 where
  pub snapshot_id : String
  pub captured_at : T
  pub map_version : String
  pub nodes : List (MapNode F)
  pub edges : List (MapEdge F)
  pub agvs : List (AgvState F)
  pub locations : List LocationState
  pub pallets : List PalletState
  pub obstacles : List (ObstacleState F T)
  pub reserved_groups : List (String × String)
  pub route_reservations : List (RouteReservation T)
  pub wait_for : List (String × String)

pub record RoutePlan (F : Type 0) : Type 0 where
  pub route_version : String
  pub map_version : String
  pub selected_agv : String
  pub nodes : List String
  pub reservation_groups : List String
  pub distance_m : F
  pub estimated_energy_percent : F
  pub cost : F
  pub estimated_duration_seconds : F
  pub candidate_count : ℕ

pub record TransportProposal (T : Type 0) : Type 0 where
  pub proposal_id : String
  pub mission_goal : MissionIntent
  pub selected_agv : String
  pub route : List String
  pub route_version : String
  pub map_version : String
  pub snapshot_id : String
  pub evidence_refs : List String
  pub created_at : T
  pub proposal_hash : String

pub record SafetyCheck : Type 0 where
  pub name : String
  pub passed : Bool
  pub detail : String
  pub evidence_hash : String

pub record SafetyProof (T : Type 0) : Type 0 where
  pub proof_id : String
  pub policy_version : String
  pub proposal_id : String
  pub route_version : String
  pub snapshot_id : String
  pub checks : List SafetyCheck
  pub passed : Bool
  pub created_at : T
  pub proof_hash : String

pub data ActorRole : Type 0 where
  approver admin : ActorRole

pub record ApprovalToken (T : Type 0) : Type 0 where
  pub token_id : String
  pub proposal_hash : String
  pub goal_hash : String
  pub actor : String
  pub actor_role : ActorRole
  pub issued_at : T
  pub expires_at : T
  pub approval_hash : String
