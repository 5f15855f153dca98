-- ===== src/Service/World/Blockage.antt =====
-- The blockage of the warehouse of src/shiftzero/simulator.py and the plans that are made after it.
use text.Mathlib.Text.{◌==◌ as str_eq}
use shiftzero_hero.Common.{
  String, ◌≡◌, ◌≢◌, refl, sym, ap, ◌⊎◌, inl, inr, true, false, Option, none, some, List, [], ◌∷◌,
  filter, Bool-cases, All, arith, subst,
}
use mathlib.Core.List.{Memᴰ}
use shiftzero_hero.Numbers.{Numbers}
use shiftzero_hero.Service.Lookup.{has, lookup, eq→same}
use shiftzero_hero.Service.Domain.{
  Clock, Digest, MissionIntent, MapNode, AgvState, ObstacleState, LocationState,
  OperationalSnapshot, RoutePlan,
}
use shiftzero_hero.Service.Safety.{nodes_of}
use shiftzero_hero.Service.World.{
  World, put, take_snapshot, posed, snapshot_of, hero_obstacle, add_hero_blockage,
}
use shiftzero_hero.Service.Planner.Plan.{
  Arithmetic, planned, given_or, is_blocking, blocked_nodes, forbidden_nodes, barred, plan,
}
use shiftzero_hero.Service.Planner.Chosen.{Parts, plan-Parts}
use shiftzero_hero.Service.Planner.Clear.{Walk-All, has-append}

put-Mem : {A : Type 0} (id_of : A → String) (a : A) (xs : List A) → Memᴰ a (put id_of a xs)
put-Mem id_of a [] = Memᴰ.head refl
put-Mem id_of a (x ∷ xs) = elim (Bool-cases (str_eq (id_of x) (id_of a))) [
  | inl same ↦ rw same (Memᴰ.head refl)
  | inr other ↦ rw other (Memᴰ.tail (put-Mem id_of a xs))
]

module _ (N : Numbers) (C : Clock N) (A : Arithmetic N C) (D : Digest) where
  open N use {Number, of_ℕ, add, div, le}
  open C use {Time}

  blocking-has :
      (s : OperationalSnapshot Number Time) (o : ObstacleState Number Time)
      (os : List (ObstacleState Number Time))
      → Memᴰ o os
      → is_blocking N C A s o ≡ true
      → has o.node_id (nodes_of N C (filter (is_blocking N C A s) os)) ≡ true
  blocking-has s o [] on h = elim on [ ]
  blocking-has s o (p ∷ os) (Memᴰ.head same) h =
      let there : is_blocking N C A s p ≡ true = subst (λ q. is_blocking N C A s q ≡ true) same h in
      let name : str_eq p.node_id o.node_id ≡ true =
        eq→same p.node_id o.node_id
          (ap (λ (q : ObstacleState Number Time). q.node_id) (sym same)) in
      ground (arith, there, name)
  blocking-has s o (p ∷ os) (Memᴰ.tail on) h = ground (arith, blocking-has s o os on h)

  some_eq : {B : Type 0} {a b : B} → ◌≡◌ {A = Option B} (some a) (some b) → a ≡ b
  some_eq h = cc h

  added :
      (w v : World Number Time) (now : Time)
      → add_hero_blockage N C w now ≡ some v
      → Memᴰ (hero_obstacle N C w.scenario.blockage now) v.obstacles
  unfolding add_hero_blockage
  added w v now h = of (lookup (λ (n : MapNode Number). n.id) w.scenario.blockage.node_id w.nodes) h
    where
      after : World Number Time
      after = record w {
        obstacles =
            put (λ (o : ObstacleState Number Time). o.id)
              (hero_obstacle N C w.scenario.blockage now) w.obstacles;
      }

      of :
          (o : Option (MapNode Number))
          → ◌≡◌ {A = Option (World Number Time)}
              (elim o [ none ↦ none | some node ↦ some after ])
              (some v)
          → Memᴰ (hero_obstacle N C w.scenario.blockage now) v.obstacles
      of none e = absurd (cc e)
      of (some node) e =
          subst
            (λ (u : World Number Time).
              Memᴰ (hero_obstacle N C w.scenario.blockage now) u.obstacles)
            (some_eq e)
            (put-Mem (λ (o : ObstacleState Number Time). o.id)
              (hero_obstacle N C w.scenario.blockage now) w.obstacles)

  snapped :
      (w : World Number Time) (now : Time) (s : OperationalSnapshot Number Time)
      → (take_snapshot N C w now).0 ≡ some s
      → (s.obstacles ≡ w.obstacles) × (s.captured_at ≡ now)
  unfolding take_snapshot
  snapped w now s h = of (posed N C w.nodes w.agvs) h
    where
      of :
          (o : Option (List (AgvState Number)))
          → ◌≡◌ {A = Option (OperationalSnapshot Number Time)}
              (elim o [ none ↦ none | some agvs ↦ some (snapshot_of N C w now agvs) ])
              (some s)
          → (s.obstacles ≡ w.obstacles) × (s.captured_at ≡ now)
      of none e = absurd (cc e)
      of (some agvs) e = (
        sym (ap (λ (t : OperationalSnapshot Number Time). t.obstacles) (some_eq e)),
        sym (ap (λ (t : OperationalSnapshot Number Time). t.captured_at) (some_eq e)),
      )

  -- After the hero blockage was added to the warehouse, no plan on a snapshot that is taken within
  -- the lifetime of the obstacle goes through the blocked node, unless its route starts there,
  -- when the blockage is at least 90 percent certain and the source is known.
  pub plan-avoids_blockage :
      (w v : World Number Time) (seen now : Time) (s : OperationalSnapshot Number Time)
      (i : MissionIntent) (start_node force_agv : Option String) (source : LocationState)
      (r : RoutePlan Number)
      → add_hero_blockage N C w seen ≡ some v
      → (take_snapshot N C v now).0 ≡ some s
      → le (div (of_ℕ 9) (of_ℕ 10)) w.scenario.blockage.confidence ≡ true
      → le (A.timestamp now) (add (A.timestamp seen) w.scenario.blockage.ttl_seconds) ≡ true
      → lookup (λ (l : LocationState). l.id) i.source s.locations ≡ some source
      → plan N C A D i s start_node force_agv ≡ planned r
      → All
          (λ n. (n ≢ w.scenario.blockage.node_id) ⊎ (n ≡ given_or start_node source.node_id))
          r.nodes
  plan-avoids_blockage w v seen now s i start_node force_agv source r put_in taken sure fresh
        source_on made =
      Walk-All N s.edges (barred N C A s) (given_or start_node parts.source.node_id) _
        (inr (ap (λ (l : LocationState). given_or start_node l.node_id) same_source))
        (λ from next e joins free. inl (λ same. shut next same free)) r.nodes parts.edges
        parts.destination.node_id parts.walk
    where
      parts : Parts N C A D i s start_node force_agv r
      parts = plan-Parts N C A D i s start_node force_agv r made

      same_source : parts.source ≡ source
      same_source = cc (parts.source_on, source_on)

      blocking : is_blocking N C A s (hero_obstacle N C w.scenario.blockage seen) ≡ true
      blocking = unfold is_blocking in rw ((snapped v now s taken).1) (ground (arith, sure, fresh))

      listed : Memᴰ (hero_obstacle N C w.scenario.blockage seen) s.obstacles
      listed = rw ((snapped v now s taken).0) (added w v seen put_in)

      shut : (n : String) → n ≡ w.scenario.blockage.node_id → has n (barred N C A s) ≡ false → ⊥
      shut n same free =
          let it : has n (blocked_nodes N C A s) ≡ true =
            subst (λ m. has m (blocked_nodes N C A s) ≡ true) (sym same)
              (blocking-has s (hero_obstacle N C w.scenario.blockage seen) s.obstacles listed
                blocking) in
          ground
            (arith, it, free, has-append n (blocked_nodes N C A s) (forbidden_nodes N C A s.nodes))
