-- ===== src/Service/Proof.antt =====
-- The proof that `SafetyEngine.verify` issues, and the one that it seals with an approval:
-- src/shiftzero/safety.py and `SafetyProof` of src/shiftzero/domain.py.
use text.Mathlib.Text.{◌==◌ as str_eq}
use shiftzero_hero.Common.{
  Option, none, some, String, ◌&◌, Bool, true, false, not, ◌&&◌, List, [], ◌∷◌, ◌++◌, filter,
  if◌then◌else◌,
}
use shiftzero_hero.Numbers.{Numbers}
use shiftzero_hero.Service.Lookup.{lookup}
use shiftzero_hero.Service.Domain.{
  Clock, Digest, canonical_hash, Json, boolean, string, array, object, done, field, Jsons, end,
  item, MissionIntent, AgvState, OperationalSnapshot, RoutePlan, TransportProposal, SafetyCheck,
  SafetyProof, ApprovalToken,
}
use shiftzero_hero.Service.Approval.{valid_for, issue_proposal}
use shiftzero_hero.Service.Safety.{
  Repr, entities_valid, map_consistent, battery_ok, forbidden_hits, collision_hits,
  reservation_conflicts, temporal_conflicts, has_circular_wait, destination_ok, vehicle_type_ok,
  proposal_consistent,
}

-- `not hits`
abbrev pub is_empty : List String → Bool
is_empty [] = true
is_empty (_ ∷ _) = false

-- `all(check.passed for check in checks)`
abbrev pub all_passed : List SafetyCheck → Bool
all_passed [] = true
all_passed (c ∷ rest) = c.passed && all_passed rest

module _ (N : Numbers) (C : Clock N) (D : Digest) (R : Repr) where
  open N use {Number}
  open C use {Time}

  -- `_check`
  abbrev pub check : String → Bool → String → SafetyCheck
  check name passed detail = record {
    name = name;
    passed = passed;
    detail = detail;
    evidence_hash = canonical_hash D (
        object (
          field "name" (string name)
            (field "passed" (boolean passed) (field "detail" (string detail) done))));
  }

  check_json : SafetyCheck → Json
  check_json c = object (
      field "name" (string c.name) (
        field "passed" (boolean c.passed)
          (field "detail" (string c.detail) (field "evidence_hash" (string c.evidence_hash) done))))

  checks_json : List SafetyCheck → Jsons
  checks_json [] = end
  checks_json (c ∷ rest) = item (check_json c) (checks_json rest)

  -- `SafetyProof.issue`, with a new number and at the moment `now`.
  unfoldable pub issue_proof :
      String → Time → String → String → String → List SafetyCheck → SafetyProof Time
  unfolding check_json checks_json
  issue_proof proof_id now proposal_id route_version snapshot_id checks = record {
    proof_id = proof_id;
    policy_version = "safety-v2";
    proposal_id = proposal_id;
    route_version = route_version;
    snapshot_id = snapshot_id;
    checks = checks;
    passed = all_passed checks;
    created_at = now;
    proof_hash = canonical_hash D (
        object (
          field "proof_id" (string proof_id) (
            field "policy_version" (string "safety-v2") (
              field "proposal_id" (string proposal_id) (
                field "route_version" (string route_version) (
                  field "snapshot_id" (string snapshot_id) (
                    field "checks" (array (checks_json checks))
                      (field "passed" (boolean (all_passed checks)) done))))))));
  }

  abbrev show_bool : Bool → String
  show_bool b = if b then "True" else "False"

  -- The checks, given what the search for a circular wait has found.
  unfoldable pub route_checks :
      Bool
      → MissionIntent
      → RoutePlan Number
      → OperationalSnapshot Number Time
      → TransportProposal Time
      → List SafetyCheck
  route_checks circular_wait i plan s p =
      let agv = lookup (λ (a : AgvState Number). a.id) plan.selected_agv s.agvs in
      check "entity_validity" (entities_valid N C i plan s) "live entities and pallet source"
      ∷ check "map_consistency" (map_consistent N C plan s p) "snapshot/map/proposal versions"
      ∷ check "battery_reserve" (battery_ok N C agv plan) "post-mission reserve >= 20%"
      ∷ check "vehicle_type" (vehicle_type_ok N C plan s) "AGV allowed on every route node"
      ∷ check "forbidden_zone" (is_empty (forbidden_hits N C plan s))
          ("hits=" & R.of_list (forbidden_hits N C plan s))
      ∷ check "collision"
          (is_empty (collision_hits N C plan s) && is_empty (temporal_conflicts N C plan s))
          ("obstacle_hits="
            & (R.of_list (collision_hits N C plan s)
                & ("; temporal_conflicts=" & R.of_list (temporal_conflicts N C plan s))))
      ∷ check "reservation_availability" (is_empty (reservation_conflicts N C plan s))
          ("reservation_conflicts=" & R.of_list (reservation_conflicts N C plan s))
      ∷ check "deadlock" (not circular_wait)
          ("circular_wait=" & (show_bool circular_wait & ("; wait_for=" & R.of_dict s.wait_for)))
      ∷ check "destination_occupancy" (destination_ok N C i s) "destination can receive pallet"
      ∷ check "proposal_semantics" (proposal_consistent N C i plan p)
          "proposal matches deterministic plan and live intent"
      ∷ []

  -- `none` is that the search for a circular wait does not end.
  unfoldable pub verify :
      String
      → Time
      → MissionIntent
      → RoutePlan Number
      → OperationalSnapshot Number Time
      → TransportProposal Time
      → Option (SafetyProof Time)
  unfolding route_checks issue_proof
  verify proof_id now i plan s p = elim (has_circular_wait s.wait_for plan.selected_agv) [
    | none ↦ none
    | some circular_wait ↦ some (
        issue_proof proof_id now p.proposal_id plan.route_version s.snapshot_id
          (route_checks circular_wait i plan s p))
  ]

  -- The proof of a replacement route: the proposal is issued anew for it.
  unfoldable pub verify_replan :
      String
      → Time
      → Time
      → MissionIntent
      → RoutePlan Number
      → OperationalSnapshot Number Time
      → TransportProposal Time
      → Option (SafetyProof Time)
  unfolding verify
  verify_replan proof_id issued_at now i plan s original = verify proof_id now i plan s (
      issue_proposal N C D original.proposal_id i plan s.snapshot_id original.evidence_refs
        issued_at)

  abbrev approval_name : String
  approval_name = "approval_integrity"

  unfoldable pub approval_check : Time → TransportProposal Time → ApprovalToken Time → SafetyCheck
  approval_check at p approval = check approval_name (valid_for N C D approval p at) (
      "proposal_hash="
      & (approval.proposal_hash
          & ("; actor=" & (approval.actor & ("; expires_at=" & C.isoformat approval.expires_at)))))

  unfoldable pub bind_approval_integrity :
      String
      → Time
      → Time
      → SafetyProof Time
      → TransportProposal Time
      → ApprovalToken Time
      → SafetyProof Time
  unfolding issue_proof
  bind_approval_integrity proof_id at now proof p approval =
      issue_proof proof_id now proof.proposal_id proof.route_version proof.snapshot_id (
        filter (λ (c : SafetyCheck). not (str_eq c.name approval_name)) proof.checks
        ++ approval_check at p approval ∷ [])
