-- ===== src/Service/Planner/Clear.antt =====
-- The planner of src/shiftzero/simulator.py and the checks of src/shiftzero/safety.py on one snapshot.
use shiftzero_hero.Common.{
  String, ◌≡◌, refl, ap, ◌⊎◌, inl, inr, Bool, true, false, ◌||◌, Option, some, List, [], ◌∷◌, ◌++◌,
  filter, is_some, Bool-cases, Option-cases, All, All-append, All-map, All-at, arith, subst,
}
use shiftzero_hero.Numbers.{Numbers}
use shiftzero_hero.Service.Lookup.{has, lookup, same→eq, eq→same}
use shiftzero_hero.Service.Domain.{
  Clock, Digest, bidirectional, MissionIntent, MapNode, MapEdge, LocationState, ObstacleState,
  OperationalSnapshot, RoutePlan,
}
use shiftzero_hero.Service.Safety.{
  forbidden_zones, is_forbidden, forbidden_hits, is_active, nodes_of, active_obstacles,
  collision_hits,
}
use shiftzero_hero.Service.Planner.Walks.{Walk, standing, onward, Joins}
use shiftzero_hero.Service.Planner.Plan.{
  Arithmetic, planned, given_or, is_blocking, blocked_nodes, forbidden_nodes, barred, plan,
}
use shiftzero_hero.Service.Planner.Chosen.{Parts, plan-Parts}

pub has-append : (x : String) (xs ys : List String) → has x (xs ++ ys) ≡ (has x xs || has x ys)
has-append x [] ys = ground arith
has-append x (y ∷ xs) ys = ground (arith, has-append x xs ys)

-- What holds at the start, and at each node that an edge leads to and that is not forbidden, holds on
-- the whole way.
pub Walk-All :
    (N : Numbers) (map_edges : List (MapEdge N.Number)) (forbidden : List String) (start : String)
    (P : String → Type 0)
    → P start
    → ((from next : String) (e : MapEdge N.Number)
        → Joins N map_edges from next e
        → has next forbidden ≡ false
        → P next)
    → (path : List String) (edges : List (MapEdge N.Number)) (end : String)
    → Walk N map_edges forbidden start path edges end
    → All P path
Walk-All N map_edges forbidden start P first step _ _ _ standing = (first, tt)
Walk-All N map_edges forbidden start P first step _ _ _
      (onward {path} {edges} {node} {next} {e} way joins free new) =
    All-append P path (next ∷ [])
      (Walk-All N map_edges forbidden start P first step path edges node way)
      (step node next e joins free, tt)

-- A filter keeps only what its test lets through.
filter-only :
    (P : String → Type 0) (p : String → Bool) (xs : List String)
    → All (λ x. (p x ≡ false) ⊎ P x) xs
    → All P (filter p xs)
filter-only P p [] h = tt
filter-only P p (x ∷ xs) (inl out, rest) = rw out (filter-only P p xs rest)
filter-only P p (x ∷ xs) (inr holds, rest) = elim (Bool-cases (p x)) [
  | inl kept ↦ rw kept (holds, filter-only P p xs rest)
  | inr left ↦ rw left (filter-only P p xs rest)
]

module _ (N : Numbers) (C : Clock N) (A : Arithmetic N C) where
  open N use {Number, add}
  open C use {Time, shift}

  -- The planner reads moments as numbers of seconds, the checks compare them as they are: the obstacle
  -- is not over for the checks only where it is not over for the planner.
  abbrev pub SameLifetime : OperationalSnapshot Number Time → ObstacleState Number Time → Type 0
  SameLifetime s o =
      C.le s.captured_at (shift o.last_seen o.ttl_seconds) ≡ true
      → N.le (A.timestamp s.captured_at) (add (A.timestamp o.last_seen) o.ttl_seconds) ≡ true

  -- The two agree on each obstacle of the snapshot.
  abbrev pub Agree : OperationalSnapshot Number Time → Type 0
  Agree s = All (SameLifetime s) s.obstacles

  -- Each edge joins two nodes of the map.
  abbrev pub OnMap : OperationalSnapshot Number Time → Type 0
  OnMap s =
      All
        (λ (e : MapEdge Number).
          (is_some (lookup (λ (n : MapNode Number). n.id) e.from_node s.nodes) ≡ true)
          × (is_some (lookup (λ (n : MapNode Number). n.id) e.to_node s.nodes) ≡ true))
        s.edges

  active-blocking :
      (s : OperationalSnapshot Number Time) (o : ObstacleState Number Time)
      → SameLifetime s o
      → is_active N C s o ≡ true
      → is_blocking N C A s o ≡ true
  unfolding is_active is_blocking
  active-blocking s o agree h = let fresh = agree (ground arith) in ground (arith, fresh)

  unblocked :
      (s : OperationalSnapshot Number Time) (n : String) (os : List (ObstacleState Number Time))
      → All (SameLifetime s) os
      → has n (nodes_of N C (filter (is_blocking N C A s) os)) ≡ false
      → has n (nodes_of N C (filter (is_active N C s) os)) ≡ false
  unblocked s n [] agree h = refl
  unblocked s n (o ∷ os) (agree, agrees) h =
      ground (arith, active-blocking s o agree, unblocked s n os agrees)

  open_zone :
      (n : String) (nodes : List (MapNode Number)) (node : MapNode Number)
      → has n (forbidden_nodes N C A nodes) ≡ false
      → lookup (λ (m : MapNode Number). m.id) n nodes ≡ some node
      → has node.zone forbidden_zones ≡ false
  open_zone n [] node h found = absurd (cc found)
  open_zone n (m ∷ nodes) node h found =
      ground (arith, open_zone n nodes node, eq→same m.id n, same→eq m.id n)

  -- The checks have nothing against a node.
  abbrev pub IsClear : OperationalSnapshot Number Time → String → Type 0
  IsClear s n = (is_forbidden N C s n ≡ false) × (has n (active_obstacles N C s) ≡ false)

  not_forbidden :
      (s : OperationalSnapshot Number Time) (n : String)
      → is_some (lookup (λ (m : MapNode Number). m.id) n s.nodes) ≡ true
      → has n (forbidden_nodes N C A s.nodes) ≡ false
      → is_forbidden N C s n ≡ false
  unfolding is_forbidden
  not_forbidden s n on_map h =
      elim (Option-cases (lookup (λ (m : MapNode Number). m.id) n s.nodes)) [
        | inl absent ↦ absurd (ground (arith, absent, on_map))
        | inr (node, here) ↦ ground (arith, here, open_zone n s.nodes node h here)
      ]

  joined-IsClear :
      (s : OperationalSnapshot Number Time)
      → Agree s
      → OnMap s
      → (from next : String) (e : MapEdge Number) → Joins N s.edges from next e
      → has next (barred N C A s) ≡ false
      → IsClear s next
  unfolding active_obstacles
  joined-IsClear s agree on_map from next e joins free = (
    not_forbidden s next (named joins.ends) (ground (arith, free, parts)),
    unblocked s next s.obstacles agree (ground (arith, free, parts)),
  )
    where
      parts :
          has next (barred N C A s)
          ≡ (has next (blocked_nodes N C A s) || has next (forbidden_nodes N C A s.nodes))
      parts = has-append next (blocked_nodes N C A s) (forbidden_nodes N C A s.nodes)

      IsNamed : String → Type 0
      IsNamed id = is_some (lookup (λ (m : MapNode Number). m.id) id s.nodes) ≡ true

      named :
          ((e.from_node ≡ from) × (e.to_node ≡ next))
            ⊎ ((e.direction ≡ bidirectional) × (e.to_node ≡ from) × (e.from_node ≡ next))
          → is_some (lookup (λ (m : MapNode Number). m.id) next s.nodes) ≡ true
      named (inl (_, to)) =
          subst IsNamed to
            (All-at (λ f. IsNamed f.from_node × IsNamed f.to_node) joins.on_map on_map).1
      named (inr (_, _, to)) =
          subst IsNamed to
            (All-at (λ f. IsNamed f.from_node × IsNamed f.to_node) joins.on_map on_map).0

  -- Each node of a planned route is clear, or is the first.
  pub plan-IsClear :
      (D : Digest) (i : MissionIntent) (s : OperationalSnapshot Number Time)
      (start_node force_agv : Option String) (source : LocationState) (r : RoutePlan Number)
      → Agree s
      → OnMap s
      → lookup (λ (l : LocationState). l.id) i.source s.locations ≡ some source
      → plan N C A D i s start_node force_agv ≡ planned r
      → All (λ n. IsClear s n ⊎ (n ≡ given_or start_node source.node_id)) r.nodes
  plan-IsClear D i s start_node force_agv source r agree on_map source_on made =
      Walk-All N s.edges (barred N C A s) (given_or start_node parts.source.node_id)
        (λ n. IsClear s n ⊎ (n ≡ given_or start_node source.node_id))
        (inr (ap (λ (l : LocationState). given_or start_node l.node_id) same_source))
        (λ from next e joins free. inl (joined-IsClear s agree on_map from next e joins free))
        r.nodes parts.edges parts.destination.node_id parts.walk
    where
      parts : Parts N C A D i s start_node force_agv r
      parts = plan-Parts N C A D i s start_node force_agv r made

      same_source : parts.source ≡ source
      same_source = cc (parts.source_on, source_on)

  -- The checks for forbidden zones and for obstacles find nothing on a planned route but possibly
  -- its first node, on the snapshot it was planned for, when each edge joins two nodes of the map,
  -- the source is known, and each obstacle of the snapshot that is not over when moments are
  -- compared is not over when their time stamps are.
  pub plan-hits :
      (D : Digest) (i : MissionIntent) (s : OperationalSnapshot Number Time)
      (start_node force_agv : Option String) (source : LocationState) (r : RoutePlan Number)
      → Agree s
      → OnMap s
      → lookup (λ (l : LocationState). l.id) i.source s.locations ≡ some source
      → plan N C A D i s start_node force_agv ≡ planned r
      → All
          (λ n. n ≡ given_or start_node source.node_id)
          (forbidden_hits N C r s ++ collision_hits N C r s)
  unfolding forbidden_hits collision_hits
  plan-hits D i s start_node force_agv source r agree on_map source_on made =
      let clear = plan-IsClear D i s start_node force_agv source r agree on_map source_on made in
      All-append _ _ _
        (filter-only _ (is_forbidden N C s) r.nodes
          (All-map _ _ (λ n. unforbidden n) r.nodes clear))
        (filter-only _ (λ n. has n (active_obstacles N C s)) r.nodes
          (All-map _ _ (λ n. unoccupied n) r.nodes clear))
    where
      IsOrigin : String → Type 0
      IsOrigin n = n ≡ given_or start_node source.node_id

      unforbidden :
          (n : String) → IsClear s n ⊎ IsOrigin n → (is_forbidden N C s n ≡ false) ⊎ IsOrigin n
      unforbidden n (inl (a, b)) = inl a
      unforbidden n (inr o) = inr o

      unoccupied :
          (n : String)
          → IsClear s n ⊎ IsOrigin n
          → (has n (active_obstacles N C s) ≡ false) ⊎ IsOrigin n
      unoccupied n (inl (a, b)) = inl b
      unoccupied n (inr o) = inr o
