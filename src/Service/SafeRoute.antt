-- ===== src/Service/SafeRoute.antt =====
-- What a safe route is, and that the checks of src/shiftzero/safety.py decide it.
pub mod Parts
mod Places
mod Entities
pub mod Verdict
use text.Mathlib.Text.{◌==◌ as str_eq}
use shiftzero_hero.Common.{
  ℕ, suc, ◌≤◌, max, length, String, ◌≡◌, refl, sym, ◌∙◌, ◌≢◌, ◌↔◌, ◌⊎◌, inl, inr, Bool, true, false,
  not, ◌&&◌, ◌||◌, Option, none, some, List, [], ◌∷◌, ◌++◌, arith, if◌then◌else◌, filter, all,
  is_some, Bool-cases, Option-cases, All,
}
use shiftzero_hero.Numbers.{Numbers}
use shiftzero_hero.Service.Lookup.{has, lookup, get, same→eq, eq→same}
use shiftzero_hero.Service.Domain.{
  Clock, Digest, MissionIntent, MapNode, AgvState, LocationState, PalletState, ObstacleState,
  RouteReservation, OperationalSnapshot, RoutePlan, TransportProposal,
}
use shiftzero_hero.Service.Safety.{
  Snapshot, Repr, forbidden_zones, entities_valid, map_consistent, battery_ok, is_forbidden,
  forbidden_hits, is_active, nodes_of, active_obstacles, collision_hits, is_taken,
  reservation_conflicts, group_duration, overlaps, conflict_texts, conflicts_from,
  temporal_conflicts, destination_ok, vehicle_type_ok, proposal_consistent, has_circular_wait,
}
use shiftzero_hero.Service.Deadlock.{waits}
use shiftzero_hero.Service.Proof.{is_empty, all_passed, route_checks, verify}
use Parts.*

module _ (N : Numbers) (C : Clock N) where
  open N use {Number, of_ℕ, sub, mul, div}
  open C use {Time, shift}

  abbrev pub agv_of : RoutePlan Number → Snapshot N C → Option (AgvState Number)
  agv_of plan s = lookup (λ (a : AgvState Number). a.id) plan.selected_agv s.agvs

  abbrev pub place_of : String → Snapshot N C → Option LocationState
  place_of id s = lookup (λ (l : LocationState). l.id) id s.locations

  abbrev pub node_of : String → Snapshot N C → Option (MapNode Number)
  node_of id s = lookup (λ (n : MapNode Number). n.id) id s.nodes

  -- An obstacle that counts: its lifetime has not passed, and it is at least 90 percent certain, or at
  -- least 50 percent and seen twice.
  abbrev pub Counts : Snapshot N C → ObstacleState Number Time → Type 0
  Counts s o =
      (C.le s.captured_at (shift o.last_seen o.ttl_seconds) ≡ true)
      × ((N.le (div (of_ℕ 9) (of_ℕ 10)) o.confidence ≡ true)
          ⊎ ((N.le (div (of_ℕ 5) (of_ℕ 10)) o.confidence ≡ true) × (2 ≤ o.observation_count)))

  -- A node of the route: it is on the map and not in a forbidden zone, vehicles may enter it, and no
  -- obstacle that counts is on it.
  pub record SafeNode (s : Snapshot N C) (id : String) : Type 0 where
    pub on_map :
        (node : MapNode Number) × (node_of id s ≡ some node)
        × ((node.zone ≢ "forbidden") × (node.zone ≢ "human-only"))
        × (has "AGV" node.allowed_vehicle_types ≡ true)
    pub clear : All (λ o. o.node_id ≡ id → ¬ Counts s o) s.obstacles

  -- Another vehicle has reserved the group for a time that meets the window.
  abbrev pub Meets : RoutePlan Number → String → Time → Time → RouteReservation Time → Type 0
  Meets plan group starts_at ends_at r =
      (r.reservation_group ≡ group)
      × (r.held_by ≢ plan.selected_agv)
      × (C.lt starts_at r.ends_at ≡ true)
      × (C.lt r.starts_at ends_at ≡ true)

  -- The time in a group: the route's time in equal parts.
  abbrev pub window : RoutePlan Number → Number
  window plan = div plan.estimated_duration_seconds (of_ℕ (max (length plan.reservation_groups) 1))

  -- The groups from `index` on are free in the windows in which the route is in them.
  abbrev pub FreeFrom : RoutePlan Number → Snapshot N C → ℕ → List String → Type 0
  FreeFrom plan s index [] = Unit
  FreeFrom plan s index (group ∷ rest) =
      let starts_at = shift s.captured_at (mul (of_ℕ index) (window plan)) in
      All (λ r. ¬ Meets plan group starts_at (shift starts_at (window plan)) r) s.route_reservations
      × FreeFrom plan s (suc index) rest

  -- Whoever holds the group is the vehicle of the plan.
  abbrev pub IsOwn : RoutePlan Number → Snapshot N C → String → Type 0
  IsOwn plan s group =
      (holder : String) → get group s.reserved_groups ≡ some holder → holder ≡ plan.selected_agv

  pub record SafeRoute (i : MissionIntent) (plan : RoutePlan Number) (s : Snapshot N C)
      (p : TransportProposal Time) : Type 0 where
    pub pallet :
        (pallet : PalletState) × (lookup (λ (q : PalletState). q.id) i.pallet_id s.pallets
          ≡ some pallet)
        × (pallet.location_id ≡ i.source)
    pub source : (l : LocationState) × (place_of i.source s ≡ some l)
    -- The destination can be reached, and is empty or holds the pallet itself.
    pub destination :
        (l : LocationState) × (place_of i.destination s ≡ some l)
        × (l.reachable ≡ true)
        × ((l.occupancy ≡ none) ⊎ (l.occupancy ≡ some i.pallet_id))
    -- The vehicle keeps 20 percent of its battery, and the chain of waiting vehicles ends.
    pub vehicle :
        (agv : AgvState Number) × (agv_of plan s ≡ some agv)
        × (N.le (of_ℕ 20) (sub agv.battery_percent plan.estimated_energy_percent) ≡ true)
    pub no_deadlock : (n : ℕ) × (waits n s.wait_for plan.selected_agv ≡ none)
    pub nodes : All (SafeNode s) plan.nodes
    pub reserved : All (IsOwn plan s) plan.reservation_groups
    pub free : FreeFrom plan s 0 plan.reservation_groups
    -- The plan and the proposal fit this snapshot and this intent, and say the same.
    pub map_version : (plan.map_version ≡ s.map_version) × (p.map_version ≡ s.map_version)
    pub snapshot : p.snapshot_id ≡ s.snapshot_id
    pub goal : p.mission_goal ≡ i
    pub same_route :
        (p.selected_agv ≡ plan.selected_agv)
        × (p.route ≡ plan.nodes)
        × (p.route_version ≡ plan.route_version)

  -- The results of the checks.
  abbrev pub Checked :
      Bool → MissionIntent → RoutePlan Number → Snapshot N C → TransportProposal Time → Type 0
  Checked circular_wait i plan s p =
      (entities_valid N C i plan s ≡ true)
      × (map_consistent N C plan s p ≡ true)
      × (battery_ok N C (agv_of plan s) plan ≡ true)
      × (vehicle_type_ok N C plan s ≡ true)
      × (forbidden_hits N C plan s ≡ [])
      × (collision_hits N C plan s ≡ [])
      × (temporal_conflicts N C plan s ≡ [])
      × (reservation_conflicts N C plan s ≡ [])
      × (circular_wait ≡ false)
      × (destination_ok N C i s ≡ true)
      × (proposal_consistent N C i plan p ≡ true)

  pub passed-Checked :
      (D : Digest) (R : Repr) (b : Bool) (i : MissionIntent) (plan : RoutePlan Number)
      (s : Snapshot N C) (p : TransportProposal Time)
      → all_passed (route_checks N C D R b i plan s p) ≡ true
      → Checked b i plan s p
  unfolding route_checks
  passed-Checked D R b i plan s p h = ground (
    arith,
    nil_of (forbidden_hits N C plan s),
    nil_of (collision_hits N C plan s),
    nil_of (temporal_conflicts N C plan s),
    nil_of (reservation_conflicts N C plan s),
  )

  pub Checked-passed :
      (D : Digest) (R : Repr) (b : Bool) (i : MissionIntent) (plan : RoutePlan Number)
      (s : Snapshot N C) (p : TransportProposal Time)
      → Checked b i plan s p
      → all_passed (route_checks N C D R b i plan s p) ≡ true
  unfolding route_checks
  Checked-passed D R b i plan s p h = ground arith
