-- ===== src/Service/Planner/Fresh.antt =====
-- The way from src/shiftzero/simulator.py over src/shiftzero/domain.py to src/shiftzero/safety.py: the
-- safety proof of a fresh plan and of the proposal issued for it.
use text.Mathlib.Text.{◌==◌ as str_eq}
use shiftzero_hero.Common.{
  String, ◌≡◌, refl, sym, ap, ◌∙◌, Bool, ◌↔◌, ◌⊎◌, inl, inr, true, false, Option, some, List, [],
  ◌∷◌, All, All-map, Bool-cases, arith, subst,
}
use shiftzero_hero.Numbers.{Numbers}
use shiftzero_hero.Service.Lookup.{has, lookup, same→eq, eq→same}
use shiftzero_hero.Service.Domain.{
  Clock, Digest, MissionIntent, MapEdge, LocationState, OperationalSnapshot, RoutePlan,
  TransportProposal, SafetyProof,
}
use shiftzero_hero.Service.Approval.{issue_proposal}
use shiftzero_hero.Service.Safety.{
  Repr, entities_valid, map_consistent, battery_ok, is_forbidden, forbidden_hits, active_obstacles,
  collision_hits, reservation_conflicts, temporal_conflicts, has_circular_wait, destination_ok,
  vehicle_type_ok, proposal_consistent,
}
use shiftzero_hero.Service.Proof.{verify, issue_proof}
use shiftzero_hero.Service.SafeRoute.Verdict.{verify-issued}
use shiftzero_hero.Service.SafeRoute.{agv_of, Checked}
use shiftzero_hero.Service.SafeRoute.Parts.{none_kept, none_passes, intent_same, texts_same}
use shiftzero_hero.Service.Planner.Walks.{Walk, standing, onward}
use shiftzero_hero.Service.Planner.Weights.{has-append}
use shiftzero_hero.Service.Planner.Plan.{Arithmetic, planned, given_or, barred, plan}
use shiftzero_hero.Service.Planner.Chosen.{Parts, plan-Parts}
use shiftzero_hero.Service.Planner.Clear.{Agree, OnMap, IsClear, plan-IsClear}

has-start :
    (N : Numbers) (map_edges : List (MapEdge N.Number)) (forbidden : List String) (start : String)
    (path : List String) (edges : List (MapEdge N.Number)) (end : String)
    → Walk N map_edges forbidden start path edges end
    → has start path ≡ true
has-start N map_edges forbidden start _ _ _ standing = ground (arith, eq→same start start refl)
has-start N map_edges forbidden start _ _ _
      (onward {path} {edges} {node} {next} {e} way joins free new) =
    ground
      (arith, has-append start next path, has-start N map_edges forbidden start path edges node way)

at_member : (P : String → Type 0) (n : String) (xs : List String) → has n xs ≡ true → All P xs → P n
at_member P n [] h all = absurd (ground (arith, h))
at_member P n (x ∷ xs) h (here, rest) = elim (Bool-cases (str_eq x n)) [
  | inl same ↦ subst P (same→eq x n same) here
  | inr other ↦ at_member P n xs (ground (arith, h, other)) rest
]

module _ (N : Numbers) (C : Clock N) (A : Arithmetic N C) (D : Digest) where
  open N use {Number}
  open C use {Time}

  -- What a plan and its proposal leave to check.
  abbrev pub Remaining :
      MissionIntent → RoutePlan Number → OperationalSnapshot Number Time → String → Type 0
  Remaining i r s origin =
      (entities_valid N C i r s ≡ true)
      × (battery_ok N C (agv_of N C r s) r ≡ true)
      × (vehicle_type_ok N C r s ≡ true)
      × (temporal_conflicts N C r s ≡ [])
      × (reservation_conflicts N C r s ≡ [])
      × (has_circular_wait s.wait_for r.selected_agv ≡ some false)
      × (destination_ok N C i s ≡ true)
      × IsClear N C A s origin

  -- The first node is on the route, so that what the checks find of no node they do not find of it.
  origin-IsClear :
      (s : OperationalSnapshot Number Time) (r : RoutePlan Number) (origin : String)
      → has origin r.nodes ≡ true
      → forbidden_hits N C r s ≡ []
      → collision_hits N C r s ≡ []
      → IsClear N C A s origin
  unfolding forbidden_hits collision_hits
  origin-IsClear s r origin on h k = (
    at_member (λ n. is_forbidden N C s n ≡ false) origin r.nodes on
        (none_passes (is_forbidden N C s) r.nodes h),
    at_member (λ n. has n (active_obstacles N C s) ≡ false) origin r.nodes on
        (none_passes (λ n. has n (active_obstacles N C s)) r.nodes k),
  )

  no_hits :
      (s : OperationalSnapshot Number Time) (r : RoutePlan Number) (origin : String)
      → All (λ n. IsClear N C A s n ⊎ (n ≡ origin)) r.nodes
      → IsClear N C A s origin
      → (forbidden_hits N C r s ≡ []) × (collision_hits N C r s ≡ [])
  unfolding forbidden_hits collision_hits
  no_hits s r origin nodes first = (
    none_kept (is_forbidden N C s) r.nodes (All-map _ _ (λ n c. (clear n c).0) r.nodes nodes),
    none_kept (λ n. has n (active_obstacles N C s)) r.nodes
        (All-map _ _ (λ n c. (clear n c).1) r.nodes nodes),
  )
    where
      clear : (n : String) → IsClear N C A s n ⊎ (n ≡ origin) → IsClear N C A s n
      clear n (inl c) = c
      clear n (inr e) = subst (IsClear N C A s) (sym e) first

  -- The proposal that is issued for a plan agrees with it.
  issued_fits :
      (i : MissionIntent) (r : RoutePlan Number) (s : OperationalSnapshot Number Time)
      (proposal_id : String) (evidence_refs : List String) (now : Time)
      → r.map_version ≡ s.map_version
      → (map_consistent N C r s
            (issue_proposal N C D proposal_id i r s.snapshot_id evidence_refs now)
          ≡ true)
        × (proposal_consistent N C i r
              (issue_proposal N C D proposal_id i r s.snapshot_id evidence_refs now)
            ≡ true)
  unfolding map_consistent proposal_consistent issue_proposal
  issued_fits i r s proposal_id evidence_refs now same_map =
      let same = eq→same r.map_version s.map_version same_map in
      (
        ground (arith, same, eq→same s.snapshot_id s.snapshot_id refl),
        ground (
          arith,
          intent_same i,
          texts_same r.nodes,
          eq→same r.selected_agv r.selected_agv refl,
          eq→same r.route_version r.route_version refl,
        ),
      )

  -- For a fresh plan and the proposal issued for it, on the snapshot it was planned for, a safety
  -- proof is issued, and it passes exactly if the checks of the entities, the battery, the
  -- vehicle, the reserved groups and times, the circular wait and the destination pass and the
  -- first node of the route is neither in a forbidden zone nor under an obstacle; when each edge
  -- joins two nodes of the map, the source is known, and each obstacle of the snapshot that is not
  -- over when moments are compared is not over when their time stamps are.
  pub verify-fresh_iff :
      (R : Repr) (proof_id proposal_id : String) (evidence_refs : List String)
      (issued_at now : Time) (i : MissionIntent) (s : OperationalSnapshot Number Time)
      (start_node force_agv : Option String) (source : LocationState) (r : RoutePlan Number)
      → Agree N C A s
      → OnMap N C A s
      → lookup (λ (l : LocationState). l.id) i.source s.locations ≡ some source
      → plan N C A D i s start_node force_agv ≡ planned r
      → (proof : SafetyProof Time) × (verify N C D R proof_id now i r s
            (issue_proposal N C D proposal_id i r s.snapshot_id evidence_refs issued_at)
          ≡ some proof)
        × ((proof.passed ≡ true) ↔ Remaining i r s (given_or start_node source.node_id))
  unfolding issue_proof
  verify-fresh_iff R pid qid refs t0 t1 i s start_node force_agv source r agree on_map source_on
        made =
      let (b, issued, found, checks, waiting) = verify-issued N C D R pid t1 i r s p in
      (_, issued, (λ h. left b found (checks.0 h), λ l. checks.1 (checked b found l)))
    where
      p : TransportProposal Time
      p = issue_proposal N C D qid i r s.snapshot_id refs t0

      parts : Parts N C A D i s start_node force_agv r
      parts = plan-Parts N C A D i s start_node force_agv r made

      same_source : parts.source ≡ source
      same_source = cc (parts.source_on, source_on)

      on : has (given_or start_node source.node_id) r.nodes ≡ true
      on =
          subst (λ (l : LocationState). has (given_or start_node l.node_id) r.nodes ≡ true)
            same_source
            (has-start N s.edges (barred N C A s) (given_or start_node parts.source.node_id) r.nodes
              parts.edges parts.destination.node_id parts.walk)

      Waits : Bool → Type 0
      Waits b = has_circular_wait s.wait_for r.selected_agv ≡ some b

      left :
          (b : Bool)
          → Waits b
          → Checked N C b i r s p
          → Remaining i r s (given_or start_node source.node_id)
      left b found
            (entities, _, battery, vehicle, forbidden, hits, temporal, reserved, dead, place, _) =
          (
            entities,
            battery,
            vehicle,
            temporal,
            reserved,
            found ∙ ap some dead,
            place,
            origin-IsClear s r (given_or start_node source.node_id) on forbidden hits,
          )

      checked :
          (b : Bool)
          → Waits b
          → Remaining i r s (given_or start_node source.node_id)
          → Checked N C b i r s p
      checked b found (entities, battery, vehicle, temporal, reserved, waits, place, first) =
          let (same_map, same_goal) = issued_fits i r s qid refs t0 parts.same_map in
          let (forbidden, hits) =
            no_hits s r (given_or start_node source.node_id)
              (plan-IsClear N C A D i s start_node force_agv source r agree on_map source_on made)
              first in
          (
            entities,
            same_map,
            battery,
            vehicle,
            forbidden,
            hits,
            temporal,
            reserved,
            cc (found, waits),
            place,
            same_goal,
          )
