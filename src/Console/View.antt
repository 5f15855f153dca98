-- ===== src/Console/View.antt =====
-- The page of the console: what `MissionConsole` and `EvidenceView` of
-- apps/web/components/mission-console.tsx return.
pub mod Parts
pub mod Vehicle
pub mod Map
pub mod Safety
pub mod Metrics
pub mod Mission
pub mod Architecture
pub mod Source
pub mod Release
pub mod Live
pub mod Fixture
pub mod Load
pub mod Frame
use mathlib.Core.Option
use shiftzero_hero.Common.{
  ℕ, suc, ◌+◌, ◌*◌, String, ◌&◌, Bool, true, false, not, ◌&&◌, ◌||◌, Option, none, some, List, [],
  ◌∷◌, leb, ◌==◌, if◌then◌else◌, length, take, map, show, pad_start, is_some, take_text, join_with,
}
use shiftzero_hero.Numbers.{Numbers}
use shiftzero_hero.Html.{
  Html, nothing, text_node, el, ◌⊕◌, class_name, attr, style, flag, on_click, when, each, each_from,
  from_option,
}
use shiftzero_hero.Console.Documents.{
  passed, external_evidence_required, failed, ItemStatus, SafetyCheck, ModelCall, OperationMetrics,
  HeroSummary, JudgeLoadEvidence, ImpactLoadModel, ScenarioMetrics, ScreenshotEvidence,
  LiveGateEvidence, LiveModelCall, LiveRuntimeSummary, ServerlessReadiness, ReleaseItem,
  ReleaseAcceptance,
}
use shiftzero_hero.Console.Timeline.{
  View, mission, architecture, evidence, field_test, source, TimelineItem, timeline, views, suites,
  ArchitectureLayer, architecture_layers,
}
use shiftzero_hero.Console.Replay.{
  Decision, approved, rejected, stopped, Click, on_view, on_run, on_control, Console,
}
use shiftzero_hero.Console.Loading.{Evidence}
use shiftzero_hero.Console.Replay.{active, blocked, replanned, complete}
use Mission.{mission_view}
use Architecture.{architecture_view}
use Source.{source_view}
use Release.{evidence_header, release_card, lab_card}
use Live.{metrics_row, live_gate_card, receipts_card}
use Fixture.{suites_card, manifest_card, fixture_card, acceptance_card}
use Load.{load_card, impact_card, serverless_card, final_gate}
use Frame.{fixture_badge, top_bar, status_line, small_nav}

-- Its arguments are the documents of the console, and the error flag.
unfoldable pub evidence_view : (N : Numbers) → Evidence N.Number → Html Click
evidence_view N e = el "div" (class_name "mx-auto max-w-[1300px] px-4 py-10 sm:px-6 lg:px-8" ∷ []) (
    evidence_header
    ⊕ release_card release_acceptance
    ⊕ lab_card
    ⊕ metrics_row N scenario_metrics judge_load
    ⊕ live_gate_card N live_gate
    ⊕ receipts_card N live_runtime
    ⊕ el "div" (class_name "grid gap-4 lg:grid-cols-[1.2fr_.8fr]" ∷ [])
        (suites_card ⊕ manifest_card hero_summary evidence_error)
    ⊕ el "div" (class_name "mt-4 grid gap-4 lg:grid-cols-[1.15fr_.85fr]" ∷ [])
        (fixture_card N hero_summary ⊕ acceptance_card live_gate)
    ⊕ el "div" (class_name "mt-4 grid gap-4 lg:grid-cols-2" ∷ [])
        (load_card N judge_load ⊕ impact_card N impact_load)
    ⊕ serverless_card serverless
    ⊕ final_gate screenshot_evidence live_gate)
  where
    open e use {
      hero_summary, scenario_metrics, judge_load, impact_load, screenshot_evidence, live_gate,
      live_runtime, serverless, release_acceptance, evidence_error,
    }

-- The page of the view that is chosen. The lab is a component of its own; its `onBack` is the click
-- that it takes from the console.
unfoldable pub page_of : (N : Numbers) → View → Console N.Number → Html Click
page_of N mission c =
    from_option nothing
      (λ item.
        mission_view N item (blocked c) (complete c) (replanned c) c.run_step c.running c.decision
          c.evidence.hero_summary)
      (active c)
page_of N architecture c = architecture_view
page_of N evidence c = evidence_view N c.evidence
page_of N field_test c = el "FieldTestSimulator" (on_click (on_view evidence) ∷ []) nothing
page_of N source c = source_view

unfoldable pub page : (N : Numbers) → Console N.Number → Html Click
unfolding page_of
page N c = page_of N c.view c

unfoldable pub mission_console : (N : Numbers) → Console N.Number → Html Click
mission_console N c = el "main" (class_name "min-h-screen bg-[#1b120d] text-stone-100" ∷ []) (
    fixture_badge c.evidence.hero_summary
    ⊕ top_bar c.view c.running c.evidence.live_gate
    ⊕ status_line c.evidence.hero_summary c.evidence.evidence_error
    ⊕ small_nav c.view
    ⊕ page N c)
