-- ===== src/Service/Approval.antt =====
-- What a human approves: the goal hash, the proposal and the approval token of
-- src/shiftzero/domain.py.
use Prim.Native.Nat.{Ordering}
use Prim.Native.String.{compare}
use text.Mathlib.Text.{◌==◌ as str_eq}
use shiftzero_hero.Common.{String, Bool, ◌&&◌, none, some, List, [], ◌∷◌}
use shiftzero_hero.Numbers.{Numbers}
use shiftzero_hero.Service.Domain.{
  Clock, Digest, canonical_hash, Json, string, array, object, done, field, texts, MissionIntent,
  RoutePlan, TransportProposal, ActorRole, approver, admin, ApprovalToken, null,
}

abbrev insert : String → List String → List String
insert s [] = s ∷ []
insert s (x ∷ xs) =
    let rest = insert s xs in elim (compare x s) [ Ordering.gt ↦ s ∷ x ∷ xs | _ ↦ x ∷ rest ]

-- `sorted(items)`, by code points.
abbrev sorted : List String → List String
sorted [] = []
sorted (s ∷ rest) = insert s (sorted rest)

abbrev pub role_name : ActorRole → String
role_name approver = "approver"
role_name admin = "admin"

-- `intent.model_dump(mode="json")`
abbrev intent_json : MissionIntent → Json
intent_json i = object (
    field "pallet_id" (string i.pallet_id) (
      field "source" (string i.source) (
        field "destination" (string i.destination) (
          field "requested_agv" (elim i.requested_agv [ none ↦ null | some a ↦ string a ])
            (field "constraints" (array (texts i.constraints)) done)))))

module _ (N : Numbers) (C : Clock N) (D : Digest) where
  open C use {Time, shift, le, lt, to_json}

  unfoldable pub goal_hash : MissionIntent → String
  goal_hash i = canonical_hash D (
      object (
        field "pallet_id" (string i.pallet_id) (
          field "source" (string i.source) (
            field "destination" (string i.destination)
              (field "constraints" (array (texts (sorted i.constraints))) done)))))

  -- `TransportProposal.issue`, at the moment `now`.
  unfoldable pub issue_proposal :
      String
      → MissionIntent
      → RoutePlan N.Number
      → String
      → List String
      → Time
      → TransportProposal Time
  issue_proposal proposal_id intent plan snapshot_id evidence_refs now = record {
    proposal_id = proposal_id;
    mission_goal = intent;
    selected_agv = plan.selected_agv;
    route = plan.nodes;
    route_version = plan.route_version;
    map_version = plan.map_version;
    snapshot_id = snapshot_id;
    evidence_refs = evidence_refs;
    created_at = now;
    proposal_hash = canonical_hash D (
        object (
          field "proposal_id" (string proposal_id) (
            field "mission_goal" (intent_json intent) (
              field "selected_agv" (string plan.selected_agv) (
                field "route" (array (texts plan.nodes)) (
                  field "route_version" (string plan.route_version) (
                    field "map_version" (string plan.map_version) (
                      field "snapshot_id" (string snapshot_id)
                        (field "evidence_refs" (array (texts evidence_refs)) done)))))))));
  }

  -- The fields of a token but its hash.
  unfoldable pub approval_content :
      String → String → String → String → ActorRole → Time → Time → Json
  approval_content token_id proposal_hash goal actor role issued_at expires_at = object (
      field "token_id" (string token_id) (
        field "proposal_hash" (string proposal_hash) (
          field "goal_hash" (string goal) (
            field "actor" (string actor) (
              field "actor_role" (string (role_name role)) (
                field "issued_at" (string (to_json issued_at))
                  (field "expires_at" (string (to_json expires_at)) done)))))))

  -- The fifteen minutes that the lifetime is without an argument.
  abbrev pub default_lifetime : N.Number
  default_lifetime = N.of_ℕ 900

  -- `ApprovalToken.issue`, with its lifetime in seconds, at the moment `now`.
  unfoldable pub issue_approval :
      String → String → String → String → ActorRole → N.Number → Time → ApprovalToken Time
  issue_approval token_id proposal_hash goal actor role lifetime now =
      let expires_at = shift now lifetime in
      record {
        token_id = token_id;
        proposal_hash = proposal_hash;
        goal_hash = goal;
        actor = actor;
        actor_role = role;
        issued_at = now;
        expires_at = expires_at;
        approval_hash =
            canonical_hash D
              (approval_content token_id proposal_hash goal actor role now expires_at);
      }

  -- `token.valid_for(proposal, at=instant)`
  unfoldable pub valid_for : ApprovalToken Time → TransportProposal Time → Time → Bool
  valid_for t p instant =
      let content =
        approval_content t.token_id t.proposal_hash t.goal_hash t.actor t.actor_role t.issued_at
          t.expires_at in
      str_eq t.approval_hash (canonical_hash D content)
      && (str_eq t.proposal_hash p.proposal_hash
          && (str_eq t.goal_hash (goal_hash p.mission_goal)
              && (le t.issued_at instant && lt instant t.expires_at)))
