-- ===== src/Console/Loading.antt =====
-- The nine documents that the console fetches when it is mounted: the effect of `MissionConsole` in
-- apps/web/components/mission-console.tsx. Each fetch settles once, in any order.
use shiftzero_hero.Common.{Bool, true, false, Option, none, some, if◌then◌else◌}
use shiftzero_hero.Console.Documents.{
  HeroSummary, ScenarioMetrics, JudgeLoadEvidence, ImpactLoadModel, ScreenshotEvidence,
  LiveGateEvidence, LiveRuntimeSummary, ServerlessReadiness, ReleaseAcceptance,
}

-- `fetch` resolves to a response, or rejects (`none`); `response.json()` resolves to the document, or
-- rejects (`none`).
pub record Response (A : Type 0) : Type 0 where
  pub ok : Bool
  pub json : Option A

pub record Evidence (F : Type 0) : Type 0 where
  pub hero_summary : Option (HeroSummary F)
  pub scenario_metrics : Option (ScenarioMetrics F)
  pub judge_load : Option (JudgeLoadEvidence F)
  pub impact_load : Option (ImpactLoadModel F)
  pub screenshot_evidence : Option ScreenshotEvidence
  pub live_gate : Option (LiveGateEvidence F)
  pub live_runtime : Option (LiveRuntimeSummary F)
  pub serverless : Option ServerlessReadiness
  pub release_acceptance : Option ReleaseAcceptance
  pub evidence_error : Bool

unfoldable pub no_evidence : {F : Type 0} → Evidence F
no_evidence = record {
  hero_summary = none;
  scenario_metrics = none;
  judge_load = none;
  impact_load = none;
  screenshot_evidence = none;
  live_gate = none;
  live_runtime = none;
  serverless = none;
  release_acceptance = none;
  evidence_error = false;
}

-- The chain up to `.then(set…)`: a response that is not ok throws.
unfoldable pub document : {A : Type 0} → Option (Response A) → Option A
document none = none
document (some response) = if response.ok then response.json else none

pub data Reply (F : Type 0) : Type 0 where
  on_hero_summary : Option (Response (HeroSummary F)) → Reply F
  on_scenario_metrics : Option (Response (ScenarioMetrics F)) → Reply F
  on_judge_load : Option (Response (JudgeLoadEvidence F)) → Reply F
  on_impact_load : Option (Response (ImpactLoadModel F)) → Reply F
  on_screenshot_evidence : Option (Response ScreenshotEvidence) → Reply F
  on_live_gate : Option (Response (LiveGateEvidence F)) → Reply F
  on_live_runtime : Option (Response (LiveRuntimeSummary F)) → Reply F
  on_serverless : Option (Response ServerlessReadiness) → Reply F
  on_release_acceptance : Option (Response ReleaseAcceptance) → Reply F

unfoldable pub failed : {F : Type 0} → Evidence F → Evidence F
failed e = record e { evidence_error = true }

-- `.then(set…).catch(() => setEvidenceError(true))`
unfoldable pub receive : {F : Type 0} → Reply F → Evidence F → Evidence F
unfolding document failed
receive (on_hero_summary r) e = elim (document r) [
  | none ↦ failed e
  | some d ↦ record e { hero_summary = some d }
]
receive (on_scenario_metrics r) e = elim (document r) [
  | none ↦ failed e
  | some d ↦ record e { scenario_metrics = some d }
]
receive (on_judge_load r) e = elim (document r) [
  | none ↦ failed e
  | some d ↦ record e { judge_load = some d }
]
receive (on_impact_load r) e = elim (document r) [
  | none ↦ failed e
  | some d ↦ record e { impact_load = some d }
]
receive (on_screenshot_evidence r) e = elim (document r) [
  | none ↦ failed e
  | some d ↦ record e { screenshot_evidence = some d }
]
receive (on_live_gate r) e = elim (document r) [
  | none ↦ failed e
  | some d ↦ record e { live_gate = some d }
]
receive (on_live_runtime r) e = elim (document r) [
  | none ↦ failed e
  | some d ↦ record e { live_runtime = some d }
]
receive (on_serverless r) e = elim (document r) [
  | none ↦ failed e
  | some d ↦ record e { serverless = some d }
]
receive (on_release_acceptance r) e = elim (document r) [
  | none ↦ failed e
  | some d ↦ record e { release_acceptance = some d }
]
