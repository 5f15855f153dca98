-- ===== src/Service/Planner/Plan.antt =====
-- `DeterministicPlanner` of src/shiftzero/simulator.py, and the checks that `RoutePlan` of
-- src/shiftzero/domain.py makes.
use Prim.Native.String.{slice}
use text.Mathlib.Text.{◌==◌ as str_eq}
use shiftzero_hero.Common.{
  ℕ, String, ◌&◌, Bool, true, false, not, ◌&&◌, ◌||◌, Option, none, some, List, [], ◌∷◌, ◌++◌,
  if◌then◌else◌, filter, length, leb, map,
}
use shiftzero_hero.Numbers.{Numbers}
use shiftzero_hero.Service.Lookup.{has, lookup}
use shiftzero_hero.Service.Domain.{
  Clock, Digest, canonical_hash, string, number, array, object, done, field, texts, MissionIntent,
  MapNode, MapEdge, AgvMode, idle, charging, executing, stopped, offline, AgvState, LocationState,
  ObstacleState, OperationalSnapshot, RoutePlan,
}
use shiftzero_hero.Service.Safety.{nodes_of}
use shiftzero_hero.Service.Planner.Search.{
  text_lt, Item, Found, out_of_fuel, no_route, type_error, route,
}
use shiftzero_hero.Service.Planner.Route.{shortest_path}

-- What the planner uses of Python's numbers: `datetime.timestamp()`, `sum`, `round(x, 3)`, and how JSON
-- writes a number; and which entries `heapq` compares (see `search_round`).
pub record Arithmetic (N : Numbers) (C : Clock N) : Type 0 where
  pub timestamp : C.Time → N.Number
  pub total : List N.Number → N.Number
  pub round3 : N.Number → N.Number
  pub written : N.Number → String
  pub compares : List (Item N.Number) → Bool

-- `NoFeasiblePlan` with one of its three messages, and the `ValidationError` of a `RoutePlan`.
-- `uncomparable_edges` is the TypeError of the search, and `search_unfinished` is that the model's search ran out of fuel.
pub data Planned (F : Type 0) : Type 0 where
  absent_location no_agv no_safe_route invalid_plan uncomparable_edges search_unfinished : Planned F
  planned : RoutePlan F → Planned F

-- `first or second`, where the empty text counts as none.
abbrev pub or_else : Option String → Option String → Option String
or_else none second = second
or_else (some text) second = if str_eq text "" then second else some text

abbrev pub is_given : Option String → Bool
is_given none = false
is_given (some text) = not (str_eq text "")

abbrev pub given_or : Option String → String → String
given_or none other = other
given_or (some text) other = if str_eq text "" then other else text

-- `agv.state in allowed_states`
abbrev pub may_take : Bool → AgvMode → Bool
may_take forced idle = true
may_take forced stopped = forced
may_take forced charging = false
may_take forced executing = false
may_take forced offline = false

-- `not requested or agv.id == requested`
abbrev pub is_requested : Option String → String → Bool
is_requested requested id = elim requested [
  | none ↦ true
  | some r ↦ if str_eq r "" then true else str_eq id r
]

module _ (N : Numbers) where
  open N use {Number, of_ℕ, mul, div, le, eq}

  -- `-a.battery_percent, a.id` comes before the key of the other.
  abbrev pub before : AgvState Number → AgvState Number → Bool
  before a b =
      (le b.battery_percent a.battery_percent && not (eq b.battery_percent a.battery_percent))
      || (eq a.battery_percent b.battery_percent && text_lt a.id b.id)

  -- `sorted(candidates, key=…)[0]`
  abbrev pub first_of : AgvState Number → List (AgvState Number) → AgvState Number
  first_of a [] = a
  first_of a (b ∷ rest) = first_of (if before b a then b else a) rest

  abbrev pub is_candidate : Option String → Option String → AgvState Number → Bool
  is_candidate force_agv requested agv =
      may_take (is_given force_agv) agv.state
      && (has "pallet" agv.capabilities && is_requested requested agv.id)

  unfoldable pub select_agv :
      Option String → Option String → List (AgvState Number) → Option (AgvState Number × ℕ)
  select_agv requested_agv force_agv agvs =
      elim (filter (is_candidate force_agv (or_else force_agv requested_agv)) agvs) [
        | [] ↦ none
        | a ∷ rest ↦ some (first_of a rest, length (a ∷ rest))
      ]

  abbrev pub groups : List (MapEdge Number) → List String
  groups edges = map (λ (e : MapEdge Number). e.reservation_group) edges

  abbrev is_positive : Number → Bool
  is_positive x = le (of_ℕ 0) x && not (eq (of_ℕ 0) x)

  -- The limits of the fields.
  unfoldable pub is_valid : RoutePlan Number → Bool
  is_valid r =
      leb 2 (length r.nodes)
      && (is_positive r.distance_m
          && (le (of_ℕ 0) r.estimated_energy_percent
              && (le (of_ℕ 0) r.cost
                  && (is_positive r.estimated_duration_seconds && leb 1 r.candidate_count))))

module _ (N : Numbers) (C : Clock N) (A : Arithmetic N C) where
  open N use {Number, of_ℕ, add, mul, div, le}
  open C use {Time}

  -- An obstacle that the planner goes round: fresh, and certain enough or seen twice.
  unfoldable pub is_blocking : OperationalSnapshot Number Time → ObstacleState Number Time → Bool
  is_blocking s o =
      le (A.timestamp s.captured_at) (add (A.timestamp o.last_seen) o.ttl_seconds)
      && (le (div (of_ℕ 9) (of_ℕ 10)) o.confidence || leb 2 o.observation_count)

  abbrev pub blocked_nodes : OperationalSnapshot Number Time → List String
  blocked_nodes s = nodes_of N C (filter (is_blocking s) s.obstacles)

  abbrev pub is_closed : MapNode Number → Bool
  is_closed node = has node.zone ("forbidden" ∷ "human-only" ∷ [])

  abbrev pub forbidden_nodes : List (MapNode Number) → List String
  forbidden_nodes nodes = map (λ (node : MapNode Number). node.id) (filter is_closed nodes)

  abbrev pub barred : OperationalSnapshot Number Time → List String
  barred s = blocked_nodes s ++ forbidden_nodes s.nodes

  -- The plan for a path, before its limits are checked.
  unfoldable pub plan_of :
      Digest
      → OperationalSnapshot Number Time
      → AgvState Number
      → ℕ
      → List String
      → List (MapEdge Number)
      → RoutePlan Number
  plan_of D s agv candidate_count path edges =
      let distance = A.total (map (λ (e : MapEdge Number). e.length_m) edges) in
      let duration =
        A.total (map (λ (e : MapEdge Number). div e.length_m e.speed_limit_mps) edges) in
      record {
        route_version =
            "route-"
            & slice
                (canonical_hash D (
                  object (
                    field "map_version" (string s.map_version) (
                      field "selected_agv" (string agv.id) (
                        field "nodes" (array (texts path)) (
                          field "reservation_groups" (array (texts (groups N edges)))
                            (field "distance_m" (number (A.written distance)) done)))))))
                0 12;
        map_version = s.map_version;
        selected_agv = agv.id;
        nodes = path;
        reservation_groups = groups N edges;
        distance_m = distance;
        estimated_energy_percent = A.round3 (mul distance (div (of_ℕ 3) (of_ℕ 4)));
        cost = A.round3 distance;
        estimated_duration_seconds = A.round3 duration;
        candidate_count = candidate_count;
      }

  abbrev pub validated : RoutePlan Number → Planned Number
  validated r = if is_valid N r then planned r else invalid_plan

  -- The plan from the search's result.
  abbrev pub finish :
      Digest → OperationalSnapshot Number Time → AgvState Number → ℕ → Found Number → Planned Number
  finish D s agv candidate_count out_of_fuel = search_unfinished
  finish D s agv candidate_count type_error = uncomparable_edges
  finish D s agv candidate_count no_route = no_safe_route
  finish D s agv candidate_count (route path edges) =
      validated (plan_of D s agv candidate_count path edges)

  abbrev pub from_agv :
      Digest
      → OperationalSnapshot Number Time
      → String
      → String
      → Option (AgvState Number × ℕ)
      → Planned Number
  from_agv D s origin target none = no_agv
  from_agv D s origin target (some (agv, candidate_count)) =
      finish D s agv candidate_count (shortest_path N A.compares origin target s.edges (barred s))

  abbrev pub from_places :
      Digest
      → MissionIntent
      → OperationalSnapshot Number Time
      → Option String
      → Option String
      → Option LocationState
      → Option LocationState
      → Planned Number
  from_places D i s start_node force_agv none _ = absent_location
  from_places D i s start_node force_agv (some source) none = absent_location
  from_places D i s start_node force_agv (some source) (some destination) =
      if not source.reachable || not destination.reachable
      then absent_location
      else from_agv D s (given_or start_node source.node_id) destination.node_id
          (select_agv N i.requested_agv force_agv s.agvs)

  unfoldable pub plan :
      Digest
      → MissionIntent
      → OperationalSnapshot Number Time
      → Option String
      → Option String
      → Planned Number
  plan D i s start_node force_agv =
      from_places D i s start_node force_agv
        (lookup (λ (l : LocationState). l.id) i.source s.locations)
        (lookup (λ (l : LocationState). l.id) i.destination s.locations)
