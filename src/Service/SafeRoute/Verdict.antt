-- ===== src/Service/SafeRoute/Verdict.antt =====
-- The safety proof of src/shiftzero/safety.py passes exactly for a safe route.
use shiftzero_hero.Common.{
  ℕ, Bool, false, none, some, String, ◌≡◌, refl, sym, subst, ◌↔◌, true, arith, All-map,
}
use shiftzero_hero.Numbers.{Numbers}
use shiftzero_hero.Service.Lookup.{same→eq}
use shiftzero_hero.Service.Domain.{Clock, Digest, MissionIntent, RoutePlan, TransportProposal}
use shiftzero_hero.Service.Safety.{
  Snapshot, Repr, map_consistent, is_forbidden, forbidden_hits, collision_hits, is_taken,
  reservation_conflicts, temporal_conflicts, admits, vehicle_type_ok, proposal_consistent,
  has_circular_wait,
}
use shiftzero_hero.Service.Deadlock.{waits, has_circular_wait-decides}
use shiftzero_hero.Service.Proof.{all_passed, route_checks, verify, issue_proof}
use shiftzero_hero.Service.SafeRoute.{SafeNode, SafeRoute, Checked, passed-Checked, Checked-passed}
use shiftzero_hero.Service.SafeRoute.Parts.{
  none_kept, none_passes, all-All, All-all, zip_All, texts_eq, intent_eq,
}
use shiftzero_hero.Service.SafeRoute.Places.{
  own, own_back, safe_node, safe_node_back, free_from, free_back,
}
use shiftzero_hero.Service.SafeRoute.Entities.{
  known, arrives, charged, known_back, arrives_back, charged_back, consistent_back,
}

module _ (N : Numbers) (C : Clock N) where
  open N use {Number, of_ℕ, sub, mul}
  open C use {Time, shift}

  Checked-SafeRoute :
      (b : Bool) (i : MissionIntent) (plan : RoutePlan Number) (s : Snapshot N C)
      (p : TransportProposal Time)
      → ((b ≡ false) ↔ ((n : ℕ) × (waits n s.wait_for plan.selected_agv ≡ none)))
      → Checked N C b i plan s p
      → SafeRoute N C i plan s p
  unfolding map_consistent vehicle_type_ok forbidden_hits collision_hits reservation_conflicts
      temporal_conflicts proposal_consistent
  Checked-SafeRoute b i plan s p waiting
        (ents, maps, bat, types, forb, coll, temp, res, dead, dest, prop) =
      let (pallet, source) = known N C i plan s ents in
      record {
        pallet = pallet;
        source = source;
        destination = arrives N C i s dest;
        vehicle = charged N C plan s bat;
        no_deadlock = waiting.0 dead;
        nodes =
            All-map _ (SafeNode N C s) (λ id k. safe_node N C s id (k.0, k.1.0, k.1.1)) plan.nodes
              (zip_All _ _ plan.nodes (none_passes (is_forbidden N C s) plan.nodes forb) (
                zip_All _ _ plan.nodes (All-all (admits N C s) plan.nodes (ground arith))
                  (none_passes _ plan.nodes coll)));
        reserved =
            All-map _ _ (own N C plan s) plan.reservation_groups
              (none_passes (is_taken N C plan s) plan.reservation_groups res);
        free = free_from N C plan s 0 plan.reservation_groups temp;
        map_version =
            ground
              (arith, same→eq plan.map_version s.map_version, same→eq p.map_version s.map_version);
        snapshot = ground (arith, same→eq p.snapshot_id s.snapshot_id);
        goal = ground (arith, intent_eq p.mission_goal i);
        same_route = ground (
          arith,
          same→eq p.selected_agv plan.selected_agv,
          texts_eq p.route plan.nodes,
          same→eq p.route_version plan.route_version,
        );
      }

  SafeRoute-Checked :
      (b : Bool) (i : MissionIntent) (plan : RoutePlan Number) (s : Snapshot N C)
      (p : TransportProposal Time)
      → ((b ≡ false) ↔ ((n : ℕ) × (waits n s.wait_for plan.selected_agv ≡ none)))
      → SafeRoute N C i plan s p
      → Checked N C b i plan s p
  unfolding vehicle_type_ok forbidden_hits collision_hits reservation_conflicts temporal_conflicts
  SafeRoute-Checked b i plan s p waiting h =
      let each = All-map (SafeNode N C s) _ (safe_node_back N C s) plan.nodes h.nodes in
      let (battery, there) = charged_back N C i plan s p h in
      let (maps, agree) = consistent_back N C i plan s p h in
      (
        known_back N C i plan s p h,
        maps,
        battery,
        rw (there, all-All (admits N C s) plan.nodes (All-map _ _ (λ x k. k.1) plan.nodes each))
            refl,
        none_kept (is_forbidden N C s) plan.nodes (All-map _ _ (λ x k. k.0) plan.nodes each),
        none_kept _ plan.nodes (All-map _ _ (λ x k. k.2) plan.nodes each),
        free_back N C plan s 0 plan.reservation_groups h.free,
        none_kept (is_taken N C plan s) plan.reservation_groups
            (All-map _ _ (own_back N C plan s) plan.reservation_groups h.reserved),
        waiting.1 h.no_deadlock,
        arrives_back N C i plan s p h,
        agree,
      )

  -- The proof that is issued: its checks pass exactly for a safe route.
  pub verify-issued :
      (D : Digest) (R : Repr) (proof_id : String) (now : Time) (i : MissionIntent)
      (plan : RoutePlan Number) (s : Snapshot N C) (p : TransportProposal Time)
      → (b : Bool) × (verify N C D R proof_id now i plan s p
          ≡ some (
              issue_proof N C D R proof_id now p.proposal_id plan.route_version s.snapshot_id
                (route_checks N C D R b i plan s p)))
        × (has_circular_wait s.wait_for plan.selected_agv ≡ some b)
        × ((all_passed (route_checks N C D R b i plan s p) ≡ true) ↔ Checked N C b i plan s p)
        × ((b ≡ false) ↔ ((n : ℕ) × (waits n s.wait_for plan.selected_agv ≡ none)))
  unfolding verify
  verify-issued D R proof_id now i plan s p =
      let (b, found, waiting) = has_circular_wait-decides s.wait_for plan.selected_agv in
      (
        b,
        subst
            (λ o.
              elim o [
                | none ↦ none
                | some c ↦ some (
                    issue_proof N C D R proof_id now p.proposal_id plan.route_version s.snapshot_id
                      (route_checks N C D R c i plan s p))
              ]
              ≡ some (
                  issue_proof N C D R proof_id now p.proposal_id plan.route_version s.snapshot_id
                    (route_checks N C D R b i plan s p)))
            (sym found) refl,
        found,
        (passed-Checked N C D R b i plan s p, Checked-passed N C D R b i plan s p),
        waiting,
      )

  -- The checks of a route without those of the proof around them.
  pub checks-SafeRoute_iff :
      (D : Digest) (R : Repr) (proof_id : String) (now : Time) (i : MissionIntent)
      (plan : RoutePlan Number) (s : Snapshot N C) (p : TransportProposal Time)
      → (b : Bool) × (verify N C D R proof_id now i plan s p
          ≡ some (
              issue_proof N C D R proof_id now p.proposal_id plan.route_version s.snapshot_id
                (route_checks N C D R b i plan s p)))
        × ((all_passed (route_checks N C D R b i plan s p) ≡ true) ↔ SafeRoute N C i plan s p)
  checks-SafeRoute_iff D R proof_id now i plan s p =
      let (b, issued, found, checks, waiting) = verify-issued D R proof_id now i plan s p in
      (
        b,
        issued,
        (
          λ h. Checked-SafeRoute b i plan s p waiting (checks.0 h),
          λ h. checks.1 (SafeRoute-Checked b i plan s p waiting h),
        ),
      )
