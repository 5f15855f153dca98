-- ===== src/Service/Safety.antt =====
-- The deterministic safety proof of a route: `SafetyEngine` of src/shiftzero/safety.py.
use text.Mathlib.Text.{◌==◌ as str_eq}
use shiftzero_hero.Common.{
  ℕ, zero, suc, String, ◌&◌, Bool, true, false, not, ◌&&◌, ◌||◌, Option, none, some, List, [], ◌∷◌,
  ◌++◌, leb, if◌then◌else◌, length, filter, all, is_some, max,
}
use shiftzero_hero.Numbers.{Numbers}
use shiftzero_hero.Service.Lookup.{has, lookup, get}
use shiftzero_hero.Service.Domain.{
  Clock, MissionIntent, MapNode, AgvState, LocationState, PalletState, ObstacleState,
  RouteReservation, OperationalSnapshot, RoutePlan, TransportProposal,
}

-- `repr` of a list of texts and of a dictionary of texts, as f-strings show them.
pub record Repr : Type 0 where
  pub of_list : List String → String
  pub of_dict : List (String × String) → String

abbrev pub same_texts : List String → List String → Bool
same_texts [] [] = true
same_texts (s ∷ ss) (t ∷ ts) = str_eq s t && same_texts ss ts
same_texts _ _ = false

abbrev pub same_option : Option String → Option String → Bool
same_option none none = true
same_option (some s) (some t) = str_eq s t
same_option _ _ = false

-- `==` of two intents.
unfoldable pub same_intent : MissionIntent → MissionIntent → Bool
same_intent i j =
    str_eq i.pallet_id j.pallet_id
    && (str_eq i.source j.source
        && (str_eq i.destination j.destination
            && (same_option i.requested_agv j.requested_agv
                && same_texts i.constraints j.constraints)))

-- The loop of `_has_circular_wait` on fuel: `none` is that it has run out.
unfoldable pub wait_loop : ℕ → List (String × String) → String → List String → Option Bool
wait_loop zero wait_for current visited = none
wait_loop (suc fuel) wait_for current visited = elim (get current wait_for) [
  | none ↦ some (has current visited)
  | some next ↦
      let rest = wait_loop fuel wait_for next (current ∷ visited) in
      if has current visited then some true else rest
]

-- One round for each entry and one more; `none`, which never comes out, is a loop that does not end.
unfoldable pub has_circular_wait : List (String × String) → String → Option Bool
has_circular_wait wait_for selected_agv = wait_loop (suc (length wait_for)) wait_for selected_agv []

-- `SafetyPolicy`
abbrev pub forbidden_zones : List String
forbidden_zones = "forbidden" ∷ "human-only" ∷ []

module _ (N : Numbers) (C : Clock N) where
  open N use {Number, of_ℕ, sub, mul, div}
  open C use {Time, shift}

  abbrev pub Snapshot : Type 0
  Snapshot = OperationalSnapshot Number Time

  unfoldable pub entities_valid : MissionIntent → RoutePlan Number → Snapshot → Bool
  entities_valid i plan s = elim (lookup (λ (p : PalletState). p.id) i.pallet_id s.pallets) [
    | none ↦ false
    | some pallet ↦
        is_some (lookup (λ (l : LocationState). l.id) i.source s.locations)
        && (is_some (lookup (λ (l : LocationState). l.id) i.destination s.locations)
            && (is_some (lookup (λ (a : AgvState Number). a.id) plan.selected_agv s.agvs)
                && str_eq pallet.location_id i.source))
  ]

  unfoldable pub map_consistent : RoutePlan Number → Snapshot → TransportProposal Time → Bool
  map_consistent plan s p =
      str_eq plan.map_version s.map_version
      && (str_eq p.map_version s.map_version && str_eq p.snapshot_id s.snapshot_id)

  -- `_battery_ok`: 20 percent stay after the mission.
  unfoldable pub battery_ok : Option (AgvState Number) → RoutePlan Number → Bool
  battery_ok none plan = false
  battery_ok (some agv) plan =
      N.le (of_ℕ 20) (sub agv.battery_percent plan.estimated_energy_percent)

  -- A node that is not on the map counts as forbidden.
  unfoldable pub is_forbidden : Snapshot → String → Bool
  is_forbidden s node_id = elim (lookup (λ (n : MapNode Number). n.id) node_id s.nodes) [
    | none ↦ true
    | some node ↦ has node.zone forbidden_zones
  ]

  unfoldable pub forbidden_hits : RoutePlan Number → Snapshot → List String
  forbidden_hits plan s = filter (is_forbidden s) plan.nodes

  -- An obstacle counts while it is fresh, at high confidence or when it was seen twice.
  unfoldable pub is_active : Snapshot → ObstacleState Number Time → Bool
  is_active s o =
      C.le s.captured_at (shift o.last_seen o.ttl_seconds)
      && (N.le (div (of_ℕ 9) (of_ℕ 10)) o.confidence
          || (N.le (div (of_ℕ 5) (of_ℕ 10)) o.confidence && leb 2 o.observation_count))

  abbrev pub nodes_of : List (ObstacleState Number Time) → List String
  nodes_of [] = []
  nodes_of (o ∷ rest) = o.node_id ∷ nodes_of rest

  unfoldable pub active_obstacles : Snapshot → List String
  active_obstacles s = nodes_of (filter (is_active s) s.obstacles)

  unfoldable pub collision_hits : RoutePlan Number → Snapshot → List String
  collision_hits plan s = filter (λ node_id. has node_id (active_obstacles s)) plan.nodes

  -- A reservation group that another vehicle holds.
  unfoldable pub is_taken : RoutePlan Number → Snapshot → String → Bool
  is_taken plan s group = elim (get group s.reserved_groups) [
    | none ↦ false
    | some holder ↦ not (str_eq holder plan.selected_agv)
  ]

  unfoldable pub reservation_conflicts : RoutePlan Number → Snapshot → List String
  reservation_conflicts plan s = filter (is_taken plan s) plan.reservation_groups

  unfoldable pub group_duration : RoutePlan Number → Number
  group_duration plan =
      div plan.estimated_duration_seconds (of_ℕ (max (length plan.reservation_groups) 1))

  unfoldable pub overlaps : RoutePlan Number → String → Time → Time → RouteReservation Time → Bool
  overlaps plan group starts_at ends_at r =
      str_eq r.reservation_group group
      && (not (str_eq r.held_by plan.selected_agv)
          && (C.lt starts_at r.ends_at && C.lt r.starts_at ends_at))

  abbrev pub conflict_texts : String → Time → List (RouteReservation Time) → List String
  conflict_texts group starts_at [] = []
  conflict_texts group starts_at (r ∷ rest) =
      (group & (":" & (r.held_by & (":" & C.isoformat starts_at))))
      ∷ conflict_texts group starts_at rest

  -- The groups from `index` on, each with the window in which the route is in it.
  unfoldable pub conflicts_from : RoutePlan Number → Snapshot → ℕ → List String → List String
  conflicts_from plan s index [] = []
  conflicts_from plan s index (group ∷ rest) =
      let starts_at = shift s.captured_at (mul (of_ℕ index) (group_duration plan)) in
      let ends_at = shift starts_at (group_duration plan) in
      conflict_texts group starts_at
        (filter (overlaps plan group starts_at ends_at) s.route_reservations)
      ++ conflicts_from plan s (suc index) rest

  unfoldable pub temporal_conflicts : RoutePlan Number → Snapshot → List String
  unfolding conflicts_from
  temporal_conflicts plan s = conflicts_from plan s 0 plan.reservation_groups

  unfoldable pub destination_ok : MissionIntent → Snapshot → Bool
  destination_ok i s = elim (lookup (λ (l : LocationState). l.id) i.destination s.locations) [
    | none ↦ false
    | some l ↦ l.reachable && elim l.occupancy [ none ↦ true | some load ↦ str_eq load i.pallet_id ]
  ]

  -- Vehicles may enter the node; a node that is not on the map is passed over.
  unfoldable pub admits : Snapshot → String → Bool
  admits s node_id = elim (lookup (λ (n : MapNode Number). n.id) node_id s.nodes) [
    | none ↦ true
    | some node ↦ has "AGV" node.allowed_vehicle_types
  ]

  unfoldable pub vehicle_type_ok : RoutePlan Number → Snapshot → Bool
  vehicle_type_ok plan s =
      is_some (lookup (λ (a : AgvState Number). a.id) plan.selected_agv s.agvs)
      && all (admits s) plan.nodes

  unfoldable pub proposal_consistent :
      MissionIntent → RoutePlan Number → TransportProposal Time → Bool
  proposal_consistent i plan p =
      same_intent p.mission_goal i
      && (str_eq p.selected_agv plan.selected_agv
          && (same_texts p.route plan.nodes && str_eq p.route_version plan.route_version))
