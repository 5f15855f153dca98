-- ===== src/Service/Sealed.antt =====
-- The proof that a mission starts with: the route proof sealed with the human approval, as
-- `bind_approval_integrity` of src/shiftzero/safety.py and `ApprovalToken` of
-- src/shiftzero/domain.py make it.
use shiftzero_hero.Common.{
  String, Bool, some, ◌≡◌, refl, sym, ◌∙◌, ap, ◌↔◌, true, ◌&&◌, List, [], ◌∷◌, ◌++◌, arith,
}
use shiftzero_hero.Numbers.{Numbers}
use shiftzero_hero.Service.Lookup.{same→eq, eq→same}
use shiftzero_hero.Service.Domain.{
  Json, object, field, string, done, approver, admin, Clock, Digest, canonical_hash, MissionIntent,
  RoutePlan, TransportProposal, SafetyCheck, ActorRole, ApprovalToken, SafetyProof,
}
use shiftzero_hero.Service.Approval.{
  role_name, goal_hash, approval_content, issue_approval, valid_for,
}
use shiftzero_hero.Service.Safety.{Snapshot, Repr}
use shiftzero_hero.Service.Proof.{
  all_passed, route_checks, issue_proof, verify, bind_approval_integrity, approval_check,
}
use shiftzero_hero.Service.SafeRoute.{SafeRoute}
use shiftzero_hero.Service.SafeRoute.Verdict.{checks-SafeRoute_iff}

all_passed-append :
    (cs : List SafetyCheck) (c : SafetyCheck)
    → all_passed (cs ++ c ∷ []) ≡ (all_passed cs && c.passed)
all_passed-append [] c = ground arith
all_passed-append (d ∷ cs) c = ground (arith, all_passed-append cs c)

named : (r : ActorRole) → role_name r ≡ elim r [ approver ↦ "approver" | admin ↦ "admin" ]
named approver = refl
named admin = refl

module _ (N : Numbers) (C : Clock N) (D : Digest) where
  open N use {Number, of_ℕ}
  open C use {Time, shift, le, lt, to_json}

  -- All that a token says but its hash.
  abbrev pub token_fields : ApprovalToken Time → Json
  token_fields t = object (
      field "token_id" (string t.token_id) (
        field "proposal_hash" (string t.proposal_hash) (
          field "goal_hash" (string t.goal_hash) (
            field "actor" (string t.actor) (
              field "actor_role"
                (string (elim t.actor_role [ approver ↦ "approver" | admin ↦ "admin" ]))
                (field "issued_at" (string (to_json t.issued_at))
                  (field "expires_at" (string (to_json t.expires_at)) done)))))))

  -- A valid token: its hash is that of its own fields, it names the hash of the proposal and of its
  -- goal, and the moment is in its lifetime.
  pub record IsValid (t : ApprovalToken Time) (p : TransportProposal Time) (at : Time)
      : Type 0 where
    pub untampered : t.approval_hash ≡ canonical_hash D (token_fields t)
    pub same_proposal : t.proposal_hash ≡ p.proposal_hash
    pub same_goal : t.goal_hash ≡ goal_hash N C D p.mission_goal
    pub begun : le t.issued_at at ≡ true
    pub alive : lt at t.expires_at ≡ true

  content_fields :
      (t : ApprovalToken Time)
      → approval_content N C D t.token_id t.proposal_hash t.goal_hash t.actor t.actor_role
          t.issued_at t.expires_at
        ≡ token_fields t
  unfolding approval_content
  content_fields t = rw (named t.actor_role) refl

  valid_for-IsValid_iff :
      (t : ApprovalToken Time) (p : TransportProposal Time) (at : Time)
      → (valid_for N C D t p at ≡ true) ↔ IsValid t p at
  unfolding valid_for
  valid_for-IsValid_iff t p at = (
    λ h. record {
      untampered =
          same→eq t.approval_hash _ (ground (arith, h)) ∙ ap (canonical_hash D) (content_fields t);
      same_proposal = same→eq t.proposal_hash p.proposal_hash (ground (arith, h));
      same_goal = same→eq t.goal_hash (goal_hash N C D p.mission_goal) (ground (arith, h));
      begun = ground (arith, h);
      alive = ground (arith, h);
    },
    λ v. ground (
      arith,
      eq→same t.approval_hash _ (v.untampered ∙ sym (ap (canonical_hash D) (content_fields t))),
      eq→same t.proposal_hash p.proposal_hash v.same_proposal,
      eq→same t.goal_hash (goal_hash N C D p.mission_goal) v.same_goal,
      v.begun,
      v.alive,
    ),
  )

  -- An approval that is issued, with any lifetime, is valid for a proposal at a moment exactly if
  -- it names the hash of the proposal and of its goal, and the moment is not before its issue and
  -- before the end of its lifetime.
  pub issue_approval-IsValid_iff :
      (token_id hash goal actor : String) (role : ActorRole) (lifetime : Number)
      (issued_at at : Time) (p : TransportProposal Time)
      → (valid_for N C D
            (issue_approval N C D token_id hash goal actor role lifetime issued_at)
            p
            at
          ≡ true)
        ↔ ((hash ≡ p.proposal_hash)
            × (goal ≡ goal_hash N C D p.mission_goal)
            × (le issued_at at ≡ true)
            × (lt at (shift issued_at lifetime) ≡ true))
  unfolding issue_approval
  issue_approval-IsValid_iff token_id hash goal actor role lifetime issued_at at p =
      let t = issue_approval N C D token_id hash goal actor role lifetime issued_at in
      let valid = valid_for-IsValid_iff t p at in
      (
        λ h. let v = valid.0 h in (v.same_proposal, v.same_goal, v.begun, v.alive),
        λ (same_hash, same_goal, begun, alive). valid.1 record {
          untampered = ap (canonical_hash D) (content_fields t);
          same_proposal = same_hash;
          same_goal = same_goal;
          begun = begun;
          alive = alive;
        },
      )

  sealed :
      (R : Repr) (proof_id sealed_id : String) (at now later : Time) (b : Bool) (i : MissionIntent)
      (plan : RoutePlan Number) (s : Snapshot N C) (p : TransportProposal Time)
      (approval : ApprovalToken Time)
      → (bind_approval_integrity N C D R sealed_id at later
          (issue_proof N C D R proof_id now p.proposal_id plan.route_version s.snapshot_id
            (route_checks N C D R b i plan s p))
          p
          approval).passed
        ≡ (all_passed (route_checks N C D R b i plan s p) && valid_for N C D approval p at)
  unfolding bind_approval_integrity issue_proof route_checks approval_check
  sealed R proof_id sealed_id at now later b i plan s p approval =
      all_passed-append (route_checks N C D R b i plan s p) (approval_check N C D R at p approval)

  -- The safety proof of a route, sealed with any approval token, passes exactly if the route is
  -- safe, the hash of the token is that of its own fields, it names the hash of the proposal and
  -- of its goal, and the moment is not before its issue and before its expiry.
  pub bind_approval_integrity-SafeRoute_iff :
      (R : Repr) (proof_id sealed_id : String) (at now later : Time) (i : MissionIntent)
      (plan : RoutePlan Number) (s : Snapshot N C) (p : TransportProposal Time)
      (approval : ApprovalToken Time)
      → (proof : SafetyProof Time) × (verify N C D R proof_id now i plan s p ≡ some proof)
        × (((bind_approval_integrity N C D R sealed_id at later proof p approval).passed ≡ true)
            ↔ (SafeRoute N C i plan s p × IsValid approval p at))
  bind_approval_integrity-SafeRoute_iff R pid sid at now later i plan s p approval =
      let (b, issued, route) = checks-SafeRoute_iff N C D R pid now i plan s p in
      let both = sealed R pid sid at now later b i plan s p approval in
      let valid = valid_for-IsValid_iff approval p at in
      (
        _,
        issued,
        (
          λ h. (route.0 (ground (arith, both, h)), valid.0 (ground (arith, both, h))),
          λ (safe, v). ground (arith, both, route.1 safe, valid.1 v),
        ),
      )
