-- ===== src/Console/Clicks/Inert.antt =====
-- The parts of the console, apps/web/components/mission-console.tsx, that take no click.
use mathlib.Core.Option
use shiftzero_hero.Common.{ℕ, Bool, Option, some, none, inl, inr, arith, Option-cases}
use shiftzero_hero.Numbers.{Numbers}
use shiftzero_hero.Html.{from_option, nothing, each_inert, each_from_inert, Offers}
use shiftzero_hero.Console.Documents.{
  ReleaseItem, ModelCall, Load, LiveModelCall, HeroSummary, OperationMetrics, JudgeLoadEvidence,
  ImpactLoadModel, ScenarioMetrics, ScreenshotEvidence, LiveGateEvidence, LiveRuntimeSummary,
  ServerlessReadiness, ReleaseAcceptance,
}
use shiftzero_hero.Console.Timeline.{TimelineItem, timeline, ArchitectureLayer}
use shiftzero_hero.Console.Replay.{Click}
use shiftzero_hero.Console.View.Parts.{status_dot, data_pill, metric, evidence_stat, evidence_link}
use shiftzero_hero.Console.View.Frame.{fixture_badge, status_line}
use shiftzero_hero.Console.View.Vehicle.{map_defs, vehicle}
use shiftzero_hero.Console.View.Map.{warehouse_map}
use shiftzero_hero.Console.View.Metrics.{metric_strip}
use shiftzero_hero.Console.View.Safety.{safety_card, trace_row, trace_rail, checks}
use shiftzero_hero.Console.View.Mission.{final_pose, mission_brief, trust_boundary}
use shiftzero_hero.Console.View.Architecture.{layer_row, boundary_card}
use shiftzero_hero.Console.View.Source.{source_view}
use shiftzero_hero.Console.View.Release.{evidence_header, release_row, release_card}
use shiftzero_hero.Console.View.Live.{metrics_row, live_gate_card, receipt, receipts, receipts_card}
use shiftzero_hero.Console.View.Fixture.{
  suites_card, manifest_card, call_row, operation_metrics, fixture_card, acceptance_card,
}
use shiftzero_hero.Console.View.Load.{load_card, load_row, impact_card, serverless_card, final_gate}

module _ (a : Click) where
  pub badge_inert : {F : Type 0} (s : Option (HeroSummary F)) → Offers a (fixture_badge s) → ⊥
  unfolding fixture_badge
  badge_inert none h = ground arith
  badge_inert (some s) h = ground arith

  pub status_inert :
      {F : Type 0} (s : Option (HeroSummary F)) (e : Bool) → Offers a (status_line s e) → ⊥
  unfolding status_line status_dot data_pill
  status_inert none e h = ground arith
  status_inert (some s) e h = ground arith

  pub map_inert : (b c r : Bool) → Offers a (warehouse_map b c r) → ⊥
  unfolding warehouse_map vehicle map_defs
  map_inert b c r h = ground arith

  pub strip_inert :
      (N : Numbers) (i : TimelineItem) (s : Option (HeroSummary N.Number))
      → Offers a (metric_strip N i s)
      → ⊥
  unfolding metric_strip
  strip_inert N i s h = ground arith

  pub trace_row_inert : (step n : ℕ) (i : TimelineItem) → Offers a (trace_row step n i) → ⊥
  unfolding trace_row
  trace_row_inert step n i h = ground arith

  pub trust_inert : Offers a trust_boundary → ⊥
  unfolding trust_boundary
  trust_inert h = ground arith

  pub source_inert : Offers a source_view → ⊥
  unfolding source_view evidence_link
  source_inert h = ground arith

  pub pose_inert : (N : Numbers) (s : HeroSummary N.Number) → Offers a (final_pose N s) → ⊥
  unfolding final_pose
  pose_inert N s h = ground arith

  pub boundary_inert : (i t d : _) → Offers a (boundary_card i t d) → ⊥
  unfolding boundary_card
  boundary_inert i t d h = ground arith

  pub layer_inert : (n : ℕ) (l : ArchitectureLayer) → Offers a (layer_row n l) → ⊥
  unfolding layer_row
  layer_inert n l h = ground arith

  pub header_inert : Offers a evidence_header → ⊥
  unfolding evidence_header
  header_inert h = ground arith

  pub release_row_inert : (i : ReleaseItem) → Offers a (release_row i) → ⊥
  unfolding release_row
  release_row_inert i h = ground arith

  pub release_inert : (r : Option ReleaseAcceptance) → Offers a (release_card r) → ⊥
  unfolding release_card evidence_link
  release_inert none h = ground arith
  release_inert (some r) h = ground (arith, each_inert a release_row release_row_inert r.items)

  pub metrics_inert :
      (N : Numbers) (m : Option (ScenarioMetrics N.Number))
      (j : Option (JudgeLoadEvidence N.Number))
      → Offers a (metrics_row N m j)
      → ⊥
  unfolding metrics_row metric
  metrics_inert N m j h = ground arith

  pub gate_inert :
      (N : Numbers) (g : Option (LiveGateEvidence N.Number)) → Offers a (live_gate_card N g) → ⊥
  unfolding live_gate_card evidence_stat evidence_link
  gate_inert N none h = ground arith
  gate_inert N (some g) h = ground arith

  pub receipt_inert : (N : Numbers) (c : LiveModelCall N.Number) → Offers a (receipt N c) → ⊥
  unfolding receipt
  receipt_inert N c h = ground arith

  pub receipts_list_inert :
      (N : Numbers) (r : Option (LiveRuntimeSummary N.Number)) → Offers a (receipts N r) → ⊥
  unfolding receipts
  receipts_list_inert N none h = ground arith
  receipts_list_inert N (some r) h =
      each_inert a (receipt N) (receipt_inert N) r.representative_live_trace.model_calls h

  pub receipts_inert :
      (N : Numbers) (r : Option (LiveRuntimeSummary N.Number)) → Offers a (receipts_card N r) → ⊥
  unfolding receipts_card evidence_stat evidence_link
  receipts_inert N r h = ground (arith, receipts_list_inert N r)

  pub suites_inert : Offers a suites_card → ⊥
  unfolding suites_card
  suites_inert h = ground arith

  pub manifest_inert :
      {F : Type 0} (s : Option (HeroSummary F)) (e : Bool) → Offers a (manifest_card s e) → ⊥
  unfolding manifest_card evidence_link
  manifest_inert s e h = ground arith

  pub call_inert : (N : Numbers) (c : ModelCall N.Number) → Offers a (call_row N c) → ⊥
  unfolding call_row
  call_inert N c h = ground arith

  pub operation_inert :
      (N : Numbers) (m : OperationMetrics N.Number) → Offers a (operation_metrics N m) → ⊥
  unfolding operation_metrics
  operation_inert N m h = ground arith

  measured_inert :
      (N : Numbers) (m : Option (OperationMetrics N.Number))
      → Offers a (from_option nothing (operation_metrics N) m)
      → ⊥
  measured_inert N none h = h
  measured_inert N (some m) h = operation_inert N m h

  pub acceptance_inert :
      {F : Type 0} (g : Option (LiveGateEvidence F)) → Offers a (acceptance_card g) → ⊥
  unfolding acceptance_card
  acceptance_inert g h = ground arith

  pub load_inert :
      (N : Numbers) (j : Option (JudgeLoadEvidence N.Number)) → Offers a (load_card N j) → ⊥
  unfolding load_card evidence_stat evidence_link
  load_inert N j h = ground arith

  pub load_row_inert : (N : Numbers) (l : Load N.Number) → Offers a (load_row N l) → ⊥
  unfolding load_row
  load_row_inert N l h = ground arith

  pub impact_inert :
      (N : Numbers) (i : Option (ImpactLoadModel N.Number)) → Offers a (impact_card N i) → ⊥
  unfolding impact_card evidence_link
  impact_inert N none h = ground arith
  impact_inert N (some i) h = ground (arith, each_inert a (load_row N) (load_row_inert N) i.loads)

  pub serverless_inert : (s : Option ServerlessReadiness) → Offers a (serverless_card s) → ⊥
  unfolding serverless_card evidence_stat evidence_link
  serverless_inert none h = ground arith
  serverless_inert (some s) h = ground arith

  pub final_inert :
      {F : Type 0} (s : Option ScreenshotEvidence) (g : Option (LiveGateEvidence F))
      → Offers a (final_gate s g)
      → ⊥
  unfolding final_gate
  final_inert s g h = ground arith

  pub safety_inert :
      (N : Numbers) (b c r : Bool) (n : ℕ) (s : Option (HeroSummary N.Number))
      → Offers a (safety_card N b c r n s)
      → ⊥
  unfolding safety_card checks
  safety_inert N b c r n none h = ground arith
  safety_inert N b c r n (some s) h = ground arith

  pub rail_inert : (n : ℕ) → Offers a (trace_rail n) → ⊥
  unfolding trace_rail
  rail_inert n h = ground (arith, each_from_inert a (trace_row n) (trace_row_inert n) 0 timeline)

  pub brief_inert :
      (N : Numbers) (i : TimelineItem) (c : Bool) (s : Option (HeroSummary N.Number))
      → Offers a (mission_brief N i c s)
      → ⊥
  unfolding mission_brief
  brief_inert N i c none h = ground arith
  brief_inert N i c (some s) h = ground (arith, pose_inert N s)

  pub fixture_inert :
      (N : Numbers) (s : Option (HeroSummary N.Number)) → Offers a (fixture_card N s) → ⊥
  unfolding fixture_card Option.bind
  fixture_inert N none h = ground arith
  fixture_inert N (some s) h = elim (Option-cases s.model_calls) [
    | inl c ↦ ground (arith, c, measured_inert N s.operation_metrics)
    | inr (calls, c) ↦ ground (
      arith,
      c,
      measured_inert N s.operation_metrics,
      each_inert a (call_row N) (call_inert N) calls,
    )
  ]
