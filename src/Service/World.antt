-- ===== src/Service/World.antt =====
-- The simulated warehouse: `ReferenceWorld` of src/shiftzero/simulator.py. Its dictionaries are lists of
-- items with different ids, in the order of their insertion.
pub mod Blockage
use text.Mathlib.Text.{◌==◌ as str_eq}
use shiftzero_hero.Common.{
  ℕ, suc, ◌+◌, String, ◌&◌, Bool, true, false, not, Option, none, some, List, [], ◌∷◌,
  if◌then◌else◌, filter, ltb, show,
}
use shiftzero_hero.Html.{from_option}
use shiftzero_hero.Numbers.{Numbers}
use shiftzero_hero.Service.Lookup.{lookup}
use shiftzero_hero.Service.Domain.{
  Clock, MapNode, MapEdge, Pose, AgvState, LocationState, PalletState, ObstacleState,
  RouteReservation, OperationalSnapshot,
}

pub record BlockageDefinition (F : Type 0) : Type 0 where
  pub obstacle_id : String
  pub node_id : String
  pub confidence : F
  pub source : String
  pub ttl_seconds : F

-- The lists of a scenario that the world copies.
pub record Scenario (F : Type 0) : Type 0 where
  pub version : String
  pub map_nodes : List (MapNode F)
  pub map_edges : List (MapEdge F)
  pub scenario_agvs : List (AgvState F)
  pub scenario_locations : List LocationState
  pub scenario_pallets : List PalletState
  pub blockage : BlockageDefinition F

pub record LocationInspection : Type 0 where
  pub location_id : String
  pub exists : Bool
  pub node_id : Option String
  pub occupancy : Option String
  pub snapshot_id : String

pub record World (F T : Type 0) : Type 0 where
  pub scenario : Scenario F
  pub nodes : List (MapNode F)
  pub edges : List (MapEdge F)
  pub agvs : List (AgvState F)
  pub locations : List LocationState
  pub pallets : List PalletState
  pub obstacles : List (ObstacleState F T)
  pub reserved_groups : List (String × String)
  pub route_reservations : List (RouteReservation T)
  pub wait_for : List (String × String)
  pub snapshot_sequence : ℕ

-- `dictionary[id_of(item)] = item`: a key that is there keeps its place.
abbrev pub put : {A : Type 0} → (A → String) → A → List A → List A
put id_of a [] = a ∷ []
put id_of a (x ∷ xs) =
    let rest = put id_of a xs in if str_eq (id_of x) (id_of a) then a ∷ xs else x ∷ rest

abbrev put_all : {A : Type 0} → (A → String) → List A → List A → List A
put_all id_of [] found = found
put_all id_of (a ∷ items) found = put_all id_of items (put id_of a found)

-- `f"{n:04d}"`
abbrev four_digits : ℕ → String
four_digits n =
    (if ltb n 10 then "000" else if ltb n 100 then "00" else if ltb n 1000 then "0" else "")
    & show n

module _ (N : Numbers) (C : Clock N) where
  open N use {Number, of_ℕ}
  open C use {Time}

  -- `__post_init__`
  unfoldable pub new_world : Scenario Number → World Number Time
  new_world s = record {
    scenario = s;
    nodes = put_all (λ (n : MapNode Number). n.id) s.map_nodes [];
    edges = s.map_edges;
    agvs = put_all (λ (a : AgvState Number). a.id) s.scenario_agvs [];
    locations = put_all (λ (l : LocationState). l.id) s.scenario_locations [];
    pallets = put_all (λ (p : PalletState). p.id) s.scenario_pallets [];
    obstacles = [];
    reserved_groups = [];
    route_reservations = [];
    wait_for = [];
    snapshot_sequence = 0;
  }

  abbrev pub placed : AgvState Number → MapNode Number → AgvState Number
  placed agv node = record agv {
    pose = some record {
      node_id = node.id;
      x = node.x;
      y = node.y;
      heading_deg = from_option (of_ℕ 0) (λ (p : Pose Number). p.heading_deg) agv.pose;
    };
  }

  -- The vehicles with their poses; `none` is the error for a vehicle on no node of the map.
  unfoldable pub posed :
      List (MapNode Number) → List (AgvState Number) → Option (List (AgvState Number))
  posed nodes [] = some []
  posed nodes (agv ∷ rest) =
      let others = posed nodes rest in
      elim (lookup (λ (n : MapNode Number). n.id) agv.node_id nodes) [
        | none ↦ none
        | some node ↦ elim others [ none ↦ none | some agvs ↦ some (placed agv node ∷ agvs) ]
      ]

  abbrev pub snapshot_of :
      World Number Time → Time → List (AgvState Number) → OperationalSnapshot Number Time
  snapshot_of w now agvs = record {
    snapshot_id = "SNAP-" & four_digits (suc w.snapshot_sequence);
    captured_at = now;
    map_version = w.scenario.version;
    nodes = w.nodes;
    edges = w.edges;
    agvs = agvs;
    locations = w.locations;
    pallets = w.pallets;
    obstacles = w.obstacles;
    reserved_groups = w.reserved_groups;
    route_reservations = w.route_reservations;
    wait_for = w.wait_for;
  }

  -- The snapshot at a moment, and the world with its number counted.
  unfoldable pub take_snapshot :
      World Number Time → Time → Option (OperationalSnapshot Number Time) × World Number Time
  unfolding posed
  take_snapshot w now = (
    elim (posed w.nodes w.agvs) [ none ↦ none | some agvs ↦ some (snapshot_of w now agvs) ],
    record w { snapshot_sequence = suc w.snapshot_sequence },
  )

  abbrev pub hero_obstacle : BlockageDefinition Number → Time → ObstacleState Number Time
  hero_obstacle b now = record {
    id = b.obstacle_id;
    node_id = b.node_id;
    confidence = b.confidence;
    source = b.source;
    first_seen = now;
    last_seen = now;
    ttl_seconds = b.ttl_seconds;
    observation_count = 1;
  }

  -- `none` is the error for a blockage on no node of the map.
  unfoldable pub add_hero_blockage : World Number Time → Time → Option (World Number Time)
  add_hero_blockage w now =
      elim (lookup (λ (n : MapNode Number). n.id) w.scenario.blockage.node_id w.nodes) [
        | none ↦ none
        | some node ↦ some record w {
          obstacles =
              put (λ (o : ObstacleState Number Time). o.id) (hero_obstacle w.scenario.blockage now)
                w.obstacles;
        }
      ]

  unfoldable pub remove_obstacle : World Number Time → String → World Number Time
  remove_obstacle w obstacle_id = record w {
    obstacles =
        filter (λ (o : ObstacleState Number Time). not (str_eq o.id obstacle_id)) w.obstacles;
  }

  -- `inspect_location`
  unfoldable pub inspect_location : World Number Time → String → String → LocationInspection
  inspect_location w location_id snapshot_id =
      elim (lookup (λ (l : LocationState). l.id) location_id w.locations) [
        | none ↦ record {
          location_id = location_id;
          exists = false;
          node_id = none;
          occupancy = none;
          snapshot_id = snapshot_id;
        }
        | some location ↦ record {
          location_id = location.id;
          exists = true;
          node_id = some location.node_id;
          occupancy = location.occupancy;
          snapshot_id = snapshot_id;
        }
      ]
