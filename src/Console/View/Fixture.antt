-- ===== src/Console/View/Fixture.antt =====
-- The fixture evidence and the acceptance boundary: `EvidenceView` of
-- apps/web/components/mission-console.tsx.
use mathlib.Core.Option
use shiftzero_hero.Common.{
  ℕ, String, ◌&◌, Bool, false, Option, none, some, [], ◌∷◌, if◌then◌else◌, show, take_text,
}
use shiftzero_hero.Numbers.{Numbers}
use shiftzero_hero.Html.{Html, nothing, text_node, el, ◌⊕◌, class_name, style, each, from_option}
use shiftzero_hero.Console.Documents.{ModelCall, OperationMetrics, HeroSummary, LiveGateEvidence}
use shiftzero_hero.Console.Timeline.{suites}
use shiftzero_hero.Console.Replay.{Click}
use shiftzero_hero.Console.View.Parts.{evidence_link}

-- The last entry of the manifest, when no load has failed.
unfoldable pub hero_trace : {F : Type 0} → Option (HeroSummary F) → String
hero_trace none = "VERIFYING"
hero_trace (some hero) = if hero.trace_chain_valid then hero.trace_id & " · VALID" else "VERIFYING"

unfoldable pub suites_card : Html Click
suites_card =
    el "Card" (class_name "rounded-lg border-white/[0.09] bg-[#261911] shadow-none" ∷ []) (
      el "CardHeader" (class_name "border-b border-white/[0.06] px-5 py-4" ∷ [])
        (el "CardTitle" (class_name "text-xs text-white" ∷ []) (text_node "Scenario families"))
      ⊕ el "CardContent" (class_name "space-y-5 p-5" ∷ []) (
          each {X = String × String × ℕ × String}
            (λ (id, label, count, color). el "div" [] (
              el "div" (class_name "mb-2 flex items-center justify-between" ∷ []) (
                el "div" (class_name "flex items-center gap-3" ∷ []) (
                  el "span" (class_name "font-mono text-[9px] text-stone-600" ∷ []) (text_node id)
                  ⊕ el "span" (class_name "text-xs text-stone-300" ∷ []) (text_node label))
                ⊕ el "span" (class_name "font-mono text-[10px] text-stone-500" ∷ [])
                    (text_node (show count) ⊕ text_node "/" ⊕ text_node (show count)))
              ⊕ el "div" (class_name "h-1.5 bg-white/[0.05]" ∷ []) (
                  el "div"
                    (class_name "h-full" ∷ style (some ("width: 100%; background: " & color)) ∷ [])
                    nothing)))
            suites))

unfoldable pub manifest_card : {F : Type 0} → Option (HeroSummary F) → Bool → Html Click
manifest_card hero_summary evidence_error =
    el "Card" (class_name "rounded-lg border-white/[0.09] bg-[#261911] shadow-none" ∷ []) (
      el "CardHeader" (class_name "border-b border-white/[0.06] px-5 py-4" ∷ []) (
        el "CardTitle" (class_name "flex items-center gap-2 text-xs text-white" ∷ []) (
          el "Fingerprint" (class_name "size-4 text-emerald-300" ∷ []) nothing
          ⊕ text_node "Reproducibility manifest"))
      ⊕ el "CardContent" (class_name "p-5" ∷ []) (
          el "dl" (class_name "space-y-4" ∷ []) (
            each {X = String × String}
              (λ (term, value). el "div" (class_name "border-b border-white/[0.05] pb-3" ∷ []) (
                el "dt"
                  (class_name "font-mono text-[9px] uppercase tracking-[0.12em] text-stone-600"
                    ∷ [])
                  (text_node term)
                ⊕ el "dd" (class_name "mt-1.5 break-all font-mono text-[10px] text-stone-300" ∷ [])
                    (text_node value)))
              (("Seed", "2002")
                ∷ ("Policy", "safety-policy.json")
                ∷ ("State machine", "workflow-state-machine.json")
                ∷ ("Source status", "BOUND TO RUN MANIFEST")
                ∷ ("Execution", "REFERENCE_SIMULATOR")
                ∷ ("Hero trace", (if evidence_error then "LOAD ERROR" else hero_trace hero_summary))
                ∷ []))
          ⊕ el "div" (class_name "mt-5 flex flex-col gap-2" ∷ []) (
              evidence_link "/data/metrics.json" "metrics.json"
              ⊕ evidence_link "/data/run-manifest.json" "run-manifest.json"
              ⊕ evidence_link "/data/preflight-report.json" "compatibility-preflight.json"
              ⊕ evidence_link "/data/live-gate.json" "compatibility-live-gate.json"
              ⊕ evidence_link "/data/live-runtime-summary.json" "live-runtime-summary.json"
              ⊕ evidence_link "/data/judge-mode-publication.json" "judge-mode-publication.json"
              ⊕ evidence_link "/data/hero-reliability.json" "hero-reliability.json"
              ⊕ evidence_link "/data/hero-summary.json" "hero-summary.json"
              ⊕ evidence_link "/data/screenshot-manifest.json" "screenshot-manifest.json"
              ⊕ evidence_link "/data/baseline-comparison.json" "manual-vs-agent-baseline.json"
              ⊕ evidence_link "/data/a06-a07-simulation-validation.json"
                  "a06-a07-simulation-validation.json"
              ⊕ evidence_link "/data/openapi.json" "openapi.json")))

unfoldable pub operation_metrics : (N : Numbers) → OperationMetrics N.Number → Html Click
operation_metrics N metrics =
    el "div" (class_name "border border-orange-300/15 bg-orange-300/[0.035] p-3 sm:col-span-2" ∷ [])
      (el "div" (class_name "flex flex-wrap items-center justify-between gap-2" ∷ []) (
          el "span" (class_name "font-mono text-[10px] text-orange-200" ∷ [])
            (text_node "get_operation_metrics")
          ⊕ el "span" (class_name "font-mono text-[9px] text-emerald-300" ∷ [])
              (text_node (if metrics.completed then "TYPED RESULT · PASS" else "INCOMPLETE")))
        ⊕ el "p" (class_name "mt-2 font-mono text-[9px] leading-4 text-stone-500" ∷ []) (
            text_node metrics.schema_version
            ⊕ text_node " · mission"
            ⊕ text_node " "
            ⊕ text_node metrics.mission_id
            ⊕ text_node " · sample n="
            ⊕ text_node (show metrics.sample_size)
            ⊕ text_node " ·"
            ⊕ text_node " "
            ⊕ text_node (N.to_fixed metrics.total_duration_ms 3)
            ⊕ text_node " "
            ⊕ text_node "ms · "
            ⊕ text_node (show metrics.human_interventions)
            ⊕ text_node " human approval"))

unfoldable pub call_row : (N : Numbers) → ModelCall N.Number → Html Click
call_row N call = el "div" (class_name "border border-white/[0.07] bg-white/[0.02] p-3" ∷ []) (
    el "div" (class_name "flex items-center justify-between gap-2" ∷ []) (
      el "span" (class_name "font-mono text-[10px] text-violet-200" ∷ []) (text_node call.tool_name)
      ⊕ el "span" (class_name "font-mono text-[9px] text-stone-500" ∷ [])
          (text_node (N.to_fixed call.latency_ms 3) ⊕ text_node " ms"))
    ⊕ el "p" (class_name "mt-2 truncate font-mono text-[9px] text-stone-600" ∷ [])
        (text_node call.provider ⊕ text_node " / " ⊕ text_node call.model)
    ⊕ el "p" (class_name "mt-1 truncate font-mono text-[9px] text-stone-600" ∷ []) (
        text_node "args "
        ⊕ text_node (take_text 12 call.tool_arguments_hash)
        ⊕ text_node "… · result"
        ⊕ text_node " "
        ⊕ text_node (take_text 12 call.tool_result_hash)
        ⊕ text_node "…"))

unfoldable pub fixture_card : (N : Numbers) → Option (HeroSummary N.Number) → Html Click
fixture_card N hero_summary =
    el "Card" (class_name "rounded-lg border-white/[0.09] bg-[#261911] shadow-none" ∷ []) (
      el "CardHeader" (class_name "border-b border-white/[0.06] px-5 py-4" ∷ []) (
        el "CardTitle"
          (class_name "flex items-center justify-between gap-2 text-xs text-white" ∷ [])
          (el "span" (class_name "flex items-center gap-2" ∷ []) (
              el "TerminalSquare" (class_name "size-4 text-violet-200" ∷ []) nothing
              ⊕ text_node "Fixture replay tool evidence")
            ⊕ el "Badge"
                (class_name
                    "rounded-sm border border-rose-300/20 bg-rose-300/[0.08] font-mono text-[8px] text-rose-200"
                  ∷ [])
                (text_node "MOCK / FIXTURE")))
      ⊕ el "CardContent" (class_name "grid gap-3 p-5 sm:grid-cols-2" ∷ []) (
          from_option
            (el "p" (class_name "text-xs text-stone-500" ∷ [])
              (text_node "Loading verified tool spans…"))
            (λ items. each (call_row N) items) (Option.bind hero_summary (λ v. v.model_calls))
          ⊕ from_option nothing (operation_metrics N)
              (Option.bind hero_summary (λ v. v.operation_metrics))))

unfoldable pub acceptance_card : {F : Type 0} → Option (LiveGateEvidence F) → Html Click
acceptance_card live_gate =
    el "Card" (class_name "rounded-lg border-white/[0.09] bg-[#261911] shadow-none" ∷ []) (
      el "CardHeader" (class_name "border-b border-white/[0.06] px-5 py-4" ∷ []) (
        el "CardTitle" (class_name "text-xs text-white" ∷ [])
          (text_node "Release acceptance boundary"))
      ⊕ el "CardContent" (class_name "space-y-2 p-5" ∷ []) (
          each {X = String × String × String × String}
            (λ (id, label, status, tone).
              el "div"
                (class_name
                    "grid grid-cols-[60px_1fr_auto] items-center gap-3 border-b border-white/[0.05] py-2"
                  ∷ [])
                (el "span" (class_name "font-mono text-[9px] text-stone-600" ∷ []) (text_node id)
                  ⊕ el "span" (class_name "text-[11px] text-stone-400" ∷ []) (text_node label)
                  ⊕ el "span" (class_name ("font-mono text-[9px] metric-" & tone) ∷ [])
                      (text_node status)))
            (("A05", "100-scenario simulator suite", "PASS", "emerald")
              ∷ ("A03", "20 consecutive Hero replays", "SIMULATOR", "cyan")
              ∷ (
                "A01–A02",
                "Live Nebius runtime + compatibility",
                (if from_option false (λ v. v.official_gate_passed) live_gate
                    then "LIVE PASS"
                    else "VERIFYING"),
                (if from_option false (λ v. v.official_gate_passed) live_gate
                    then "emerald"
                    else "amber"),
              )
              ∷ ("A06–A07", "Digital Twin stop and AGV loop", "SIM PASS", "emerald")
              ∷ ("A09–A10", "Public Judge Mode + source", "PUBLIC PASS", "emerald")
              ∷ ("A11–A12", "Demo video + Devpost submission", "PENDING", "violet")
              ∷ [])))
