-- ===== src/Tests/Service.antt =====
-- Runs of the mission service at concrete inputs: natural numbers for numbers and moments, and a small
-- map with one vehicle.
use mathlib.Core.List.{Memᴰ}
use shiftzero_hero.Common.{
  ℕ, ◌+◌, String, ◌&◌, ◌≡◌, refl, ◌≢◌, ◌↔◌, ◌⊎◌, inl, Bool, true, false, none, some, List, [], ◌∷◌,
  ◌++◌, leb, ltb, arith, if◌then◌else◌, All,
}
use shiftzero_hero.Service.Status.{
  intent, observed, planned, proposed, verified, executing, blocked, safe_stop, replanning, failed,
  has_status, allowed_transitions, same_status, ordinal, WorkflowState, initial, transition,
}
use shiftzero_hero.Service.Status.History.{
  Reach, started, moved, executing-verified, resumed-verified, failed-unreachable,
}
use shiftzero_hero.Service.Domain.{
  Clock, Json, null, boolean, string, number, array, object, Jsons, end, item, Fields, done, field,
  Digest, canonical_hash, MissionIntent, MapNode, MapEdge, bidirectional, AgvState, idle,
  LocationState, inbound, rack, ObstacleState, OperationalSnapshot, RoutePlan, TransportProposal,
  approver, SafetyProof, ApprovalToken,
}
use shiftzero_hero.Service.Approval.{
  goal_hash, issue_proposal, default_lifetime, issue_approval, valid_for,
}
use shiftzero_hero.Service.Safety.{
  Repr, entities_valid, map_consistent, battery_ok, is_forbidden, forbidden_hits, is_active,
  active_obstacles, collision_hits, is_taken, reservation_conflicts, group_duration, overlaps,
  conflicts_from, temporal_conflicts, destination_ok, admits, vehicle_type_ok, proposal_consistent,
  same_intent, wait_loop, has_circular_wait,
}
use shiftzero_hero.Service.Deadlock.{waits, has_circular_wait-decides}
use shiftzero_hero.Service.Proof.{verify, issue_proof, route_checks, bind_approval_integrity}
use shiftzero_hero.Service.SafeRoute.{SafeRoute}
use shiftzero_hero.Service.Sealed.{
  IsValid, issue_approval-IsValid_iff, bind_approval_integrity-SafeRoute_iff,
}
use shiftzero_hero.Service.Planner.Search.{
  Item, no_route, type_error, route, has_tie, search, search_round, pop_least, less, links,
  extensions, is_settled,
}
use shiftzero_hero.Service.Planner.Fuel.{weight, enough_rounds}
use shiftzero_hero.Service.Planner.Ties.{Parallel}
use shiftzero_hero.Service.Planner.Walks.{Walk, standing, onward}
use shiftzero_hero.Service.Planner.Route.{
  shortest_path, shortest_path-decides, shortest_path-shortest,
}
use shiftzero_hero.Service.Planner.Order.{Ordered, route_length}
use shiftzero_hero.Service.Planner.Plan.{
  Arithmetic, plan, plan_of, select_agv, is_valid, is_blocking, planned as made,
}
use shiftzero_hero.Service.Planner.Clear.{plan-hits}
use shiftzero_hero.Service.Planner.Fresh.{Remaining, verify-fresh_iff}
use shiftzero_hero.Service.World.{
  World, new_world, placed, posed, snapshot_of, take_snapshot, hero_obstacle, add_hero_blockage,
}
use shiftzero_hero.Service.World.Blockage.{plan-avoids_blockage}
use shiftzero_hero.Tests.Instances.{numbers, unary}

abbrev clock : Clock numbers
clock = record {
  Time = ℕ;
  shift = λ t x. t + x;
  le = λ t u. leb t u;
  lt = λ t u. ltb t u;
  isoformat = unary;
  to_json = unary;
}

abbrev mutual
  written : Json → String
  written null = "null"
  written (boolean b) = if b then "true" else "false"
  written (string s) = s
  written (number s) = s
  written (array items) = written_items items
  written (object fields) = written_fields fields

  written_items : Jsons → String
  written_items end = ""
  written_items (item j items) = written j & ("," & written_items items)

  written_fields : Fields → String
  written_fields done = ""
  written_fields (field key j fields) = key & (":" & (written j & (";" & written_fields fields)))

-- A digest that is the text itself.
abbrev digest : Digest
digest = record { dumps = written; sha256 = λ s. s }

abbrev repr : Repr
repr = record { of_list = λ texts. "list"; of_dict = λ entries. "dict" }

-- Every heap compares each two of its entries.
abbrev all_compared : List (Item ℕ) → Bool
all_compared queue = true

abbrev arithmetic : Arithmetic numbers clock
arithmetic = record {
  timestamp = λ t. t;
  total = λ xs. sum xs;
  round3 = λ x. x;
  written = unary;
  compares = all_compared;
}
  where
    sum : List ℕ → ℕ
    sum [] = 0
    sum (x ∷ xs) = x + sum xs

-- A mission that is blocked once and goes on.
abbrev resumed : WorkflowState
resumed = record {
  current = executing;
  history =
      intent ∷ observed ∷ planned ∷ proposed ∷ verified ∷ executing ∷ blocked ∷ safe_stop
      ∷ replanning ∷ verified ∷ executing ∷ [];
}

resumed-Reach : Reach resumed
unfolding initial transition allowed_transitions same_status ordinal
resumed-Reach =
    moved
      (moved
        (moved
          (moved
            (moved
              (moved
                (moved (moved (moved (moved started observed refl) planned refl) proposed refl)
                  verified refl)
                executing refl)
              blocked refl)
            safe_stop refl)
          replanning refl)
        verified refl)
      executing refl

executing-verified_example :
    has_status verified (intent ∷ observed ∷ planned ∷ proposed ∷ verified ∷ []) ≡ true
executing-verified_example =
    executing-verified (intent ∷ observed ∷ planned ∷ proposed ∷ verified ∷ [])
      (blocked ∷ safe_stop ∷ replanning ∷ verified ∷ executing ∷ []) resumed-Reach refl

resumed-verified_example : has_status verified (safe_stop ∷ replanning ∷ verified ∷ []) ≡ true
resumed-verified_example =
    resumed-verified (intent ∷ observed ∷ planned ∷ proposed ∷ verified ∷ executing ∷ [])
      (safe_stop ∷ replanning ∷ verified ∷ []) [] resumed-Reach refl

failed-unreachable_example : has_status failed resumed.history ≡ false
failed-unreachable_example = failed-unreachable resumed-Reach

-- Three vehicles, of which two wait for each other.
abbrev waiting : List (String × String)
waiting = ("AGV-1", "AGV-2") ∷ ("AGV-2", "AGV-1") ∷ ("AGV-3", "AGV-4") ∷ []

has_circular_wait-decides_example :
    (b : Bool) × (has_circular_wait waiting "AGV-3" ≡ some b)
    × ((b ≡ false) ↔ ((n : ℕ) × (waits n waiting "AGV-3" ≡ none)))
has_circular_wait-decides_example = has_circular_wait-decides waiting "AGV-3"

abbrev mission : MissionIntent
mission = record {
  pallet_id = "P-1";
  source = "IN-1";
  destination = "RACK-1";
  requested_agv = none;
  constraints = "fragile" ∷ [];
}

abbrev node_at : String → ℕ → String → MapNode ℕ
node_at id x zone = record {
  id = id;
  x = x;
  y = 0;
  zone = zone;
  capacity = 1;
  allowed_vehicle_types = "AGV" ∷ [];
}

abbrev edge_between : String → String → ℕ → MapEdge ℕ
edge_between from to length = record {
  from_node = from;
  to_node = to;
  length_m = length;
  speed_limit_mps = 1;
  reservation_group = "G-" & to;
  direction = bidirectional;
}

abbrev edges : List (MapEdge ℕ)
edges = edge_between "N1" "N2" 4 ∷ edge_between "N2" "N3" 6 ∷ []

abbrev agv_1 : AgvState ℕ
agv_1 = record {
  id = "AGV-1";
  node_id = "N1";
  state = idle;
  battery_percent = 80;
  capabilities = "pallet" ∷ [];
  current_mission_id = none;
  load_id = none;
  pose = none;
}

-- An obstacle that is over: its thirty seconds have passed.
abbrev old_obstacle : ObstacleState ℕ ℕ
old_obstacle = record {
  id = "OBS-1";
  node_id = "N2";
  confidence = 1;
  source = "lidar";
  first_seen = 0;
  last_seen = 10;
  ttl_seconds = 30;
  observation_count = 2;
}

abbrev entry : LocationState
entry = record {
  id = "IN-1";
  node_id = "N1";
  kind = inbound;
  occupancy = some "P-1";
  pallet_id = some "P-1";
  reachable = true;
}

abbrev snapshot : OperationalSnapshot ℕ ℕ
snapshot = record {
  snapshot_id = "SNAP-0001";
  captured_at = 100;
  map_version = "map-1";
  nodes =
      node_at "N1" 0 "aisle"
      ∷ node_at "N2" 4 "aisle"
      ∷ node_at "N3" 10 "rack"
      ∷ node_at "N4" 12 "human-only"
      ∷ [];
  edges = edges;
  agvs = agv_1 ∷ [];
  locations =
      entry
      ∷ record {
        id = "RACK-1";
        node_id = "N3";
        kind = rack;
        occupancy = none;
        pallet_id = none;
        reachable = true;
      }
      ∷ [];
  pallets = record { id = "P-1"; location_id = "IN-1" } ∷ [];
  obstacles = old_obstacle ∷ [];
  reserved_groups = ("G-N2", "AGV-1") ∷ [];
  route_reservations = [];
  wait_for = [];
}

abbrev the_plan : RoutePlan ℕ
the_plan = plan_of numbers clock arithmetic digest snapshot agv_1 1 ("N1" ∷ "N2" ∷ "N3" ∷ []) edges

abbrev proposal : TransportProposal ℕ
proposal =
    issue_proposal numbers clock digest "PROP-1" mission the_plan "SNAP-0001" ("E-1" ∷ []) 100

-- The planner finds the way over the middle node.
planner_run : plan numbers clock arithmetic digest mission snapshot none none ≡ made the_plan
unfolding plan select_agv shortest_path search search_round pop_least less links extensions
    is_settled has_tie enough_rounds weight is_valid is_blocking plan_of canonical_hash
planner_run = refl

abbrev token : ApprovalToken ℕ
token =
    issue_approval numbers clock digest "TOK-1" proposal.proposal_hash
      (goal_hash numbers clock digest mission) "ann" approver
      (default_lifetime numbers clock digest) 200

bind_approval_integrity-SafeRoute_iff_example :
    (proof : SafetyProof ℕ) × (verify numbers clock digest repr "SAFE-1" 101 mission the_plan
        snapshot proposal
      ≡ some proof)
    × (((bind_approval_integrity numbers clock digest repr "SAFE-2" 500 501 proof proposal
            token).passed
          ≡ true)
        ↔ (SafeRoute numbers clock mission the_plan snapshot proposal
            × IsValid numbers clock digest token proposal 500))
bind_approval_integrity-SafeRoute_iff_example =
    bind_approval_integrity-SafeRoute_iff numbers clock digest repr "SAFE-1" "SAFE-2" 500 101 501
      mission the_plan snapshot proposal token

issue_approval-IsValid_iff_example : valid_for numbers clock digest token proposal 500 ≡ true
unfolding issue_proposal
issue_approval-IsValid_iff_example =
    (issue_approval-IsValid_iff numbers clock digest "TOK-1" proposal.proposal_hash
        (goal_hash numbers clock digest mission) "ann" approver
        (default_lifetime numbers clock digest) 200 500 proposal).1
      (refl, refl, refl, refl)

-- The proof that is issued passes its checks.
verify_run :
    elim (verify numbers clock digest repr "SAFE-1" 101 mission the_plan snapshot proposal) [
      | none ↦ false
      | some proof ↦ proof.passed
    ]
    ≡ true
unfolding verify issue_proof route_checks entities_valid map_consistent battery_ok is_forbidden
    forbidden_hits is_active active_obstacles collision_hits is_taken reservation_conflicts
    group_duration overlaps conflicts_from temporal_conflicts destination_ok admits vehicle_type_ok
    proposal_consistent same_intent wait_loop has_circular_wait issue_proposal plan_of
    canonical_hash
verify_run = refl

shortest_path-decides_example :
    ((path : List String) × (ways : List (MapEdge ℕ)) × (shortest_path numbers all_compared "N1"
          "N3" edges
          ("N4" ∷ [])
        ≡ route path ways)
      × Walk numbers edges ("N4" ∷ []) "N1" path ways "N3")
    ⊎ ((shortest_path numbers all_compared "N1" "N3" edges ("N4" ∷ []) ≡ no_route)
        × ((path : List String) (ways : List (MapEdge ℕ))
            → ¬ Walk numbers edges ("N4" ∷ []) "N1" path ways "N3"))
    ⊎ ((shortest_path numbers all_compared "N1" "N3" edges ("N4" ∷ []) ≡ type_error)
        × Parallel numbers edges)
shortest_path-decides_example =
    shortest_path-decides numbers all_compared "N1" "N3" edges ("N4" ∷ [])

numbers-Ordered : Ordered numbers
numbers-Ordered = record {
  same = λ a. ground arith;
  trans = λ a b c h k. ground arith;
  total = λ a b h. ground arith;
  eq_le = λ a b h. ground arith;
  add_le = λ a b c h. ground arith;
}

-- Two nodes, and two edges of different lengths between them.
abbrev two_ways : List (MapEdge ℕ)
two_ways = edge_between "N1" "N2" 9 ∷ edge_between "N2" "N1" 4 ∷ []

-- Two different edges of one length between two nodes: comparing their entries fails.
abbrev twins : List (MapEdge ℕ)
twins = edge_between "N1" "N2" 4 ∷ edge_between "N2" "N1" 4 ∷ []

twins_run : shortest_path numbers all_compared "N1" "N2" twins [] ≡ type_error
unfolding shortest_path search search_round pop_least less links extensions is_settled has_tie
    enough_rounds weight
twins_run = refl

shortest_path-shortest_example :
    leb
      (route_length numbers (edge_between "N2" "N1" 4 ∷ []))
      (route_length numbers (edge_between "N1" "N2" 9 ∷ []))
    ≡ true
unfolding shortest_path search search_round pop_least less links extensions is_settled has_tie
    enough_rounds weight
shortest_path-shortest_example =
    shortest_path-shortest numbers all_compared numbers-Ordered "N1" "N2" two_ways []
      ((λ a. ground arith), ((λ a. ground arith), tt)) ("N1" ∷ "N2" ∷ [])
      (edge_between "N2" "N1" 4 ∷ []) refl ("N1" ∷ "N2" ∷ []) (edge_between "N1" "N2" 9 ∷ [])
      (onward standing record { on_map = Memᴰ.head refl; ends = inl (refl, refl) } refl refl)

plan-hits_example :
    All
      (λ n. n ≡ "N1")
      (forbidden_hits numbers clock the_plan snapshot
        ++ collision_hits numbers clock the_plan snapshot)
plan-hits_example =
    plan-hits numbers clock arithmetic digest mission snapshot none none entry the_plan
      ((λ h. h), tt) ((refl, refl), ((refl, refl), tt)) refl planner_run

verify-fresh_iff_example :
    (proof : SafetyProof ℕ) × (verify numbers clock digest repr "SAFE-1" 101 mission the_plan
        snapshot
        (issue_proposal numbers clock digest "PROP-1" mission the_plan "SNAP-0001" ("E-1" ∷ []) 100)
      ≡ some proof)
    × ((proof.passed ≡ true)
        ↔ Remaining numbers clock arithmetic digest mission the_plan snapshot "N1")
verify-fresh_iff_example =
    verify-fresh_iff numbers clock arithmetic digest repr "SAFE-1" "PROP-1" ("E-1" ∷ []) 100 101
      mission snapshot none none entry the_plan ((λ h. h), tt) ((refl, refl), ((refl, refl), tt))
      refl planner_run

-- A warehouse with a detour round the node that is going to be blocked.
abbrev blocked_edges : List (MapEdge ℕ)
blocked_edges = edge_between "N1" "N2" 4 ∷ edge_between "N1" "N3" 11 ∷ []

abbrev warehouse : World ℕ ℕ
warehouse = new_world numbers clock record {
  version = "map-1";
  map_nodes = node_at "N1" 0 "aisle" ∷ node_at "N2" 4 "aisle" ∷ node_at "N3" 10 "rack" ∷ [];
  map_edges = blocked_edges;
  scenario_agvs = agv_1 ∷ [];
  scenario_locations = snapshot.locations;
  scenario_pallets = snapshot.pallets;
  blockage = record {
    obstacle_id = "OBS-2";
    node_id = "N2";
    confidence = 1;
    source = "reference_simulator";
    ttl_seconds = 30;
  };
}

abbrev blocked_warehouse : World ℕ ℕ
blocked_warehouse = record warehouse {
  obstacles = hero_obstacle numbers clock warehouse.scenario.blockage 100 ∷ [];
}

abbrev blocked_snapshot : OperationalSnapshot ℕ ℕ
blocked_snapshot =
    snapshot_of numbers clock blocked_warehouse 120
      (placed numbers clock agv_1 (node_at "N1" 0 "aisle") ∷ [])

abbrev detour_plan : RoutePlan ℕ
detour_plan =
    plan_of numbers clock arithmetic digest blocked_snapshot agv_1 1 ("N1" ∷ "N3" ∷ [])
      (edge_between "N1" "N3" 11 ∷ [])

detour_run :
    plan numbers clock arithmetic digest mission blocked_snapshot none none ≡ made detour_plan
unfolding plan select_agv shortest_path search search_round pop_least less links extensions
    is_settled has_tie enough_rounds weight is_valid is_blocking plan_of canonical_hash new_world
detour_run = refl

plan-avoids_blockage_example : All (λ (n : String). (n ≢ "N2") ⊎ (n ≡ "N1")) ("N1" ∷ "N3" ∷ [])
unfolding new_world add_hero_blockage take_snapshot posed plan_of
plan-avoids_blockage_example =
    plan-avoids_blockage numbers clock arithmetic digest warehouse blocked_warehouse 100 120
      blocked_snapshot mission none none entry detour_plan refl refl refl refl refl detour_run
