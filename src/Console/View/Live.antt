-- ===== src/Console/View/Live.antt =====
-- The measured and the live evidence: `EvidenceView` of apps/web/components/mission-console.tsx.
use mathlib.Core.Option
use shiftzero_hero.Common.{◌*◌, ◌&◌, false, Option, [], ◌∷◌, if◌then◌else◌, length, show, take_text}
use shiftzero_hero.Numbers.{Numbers}
use shiftzero_hero.Html.{Html, nothing, text_node, el, ◌⊕◌, class_name, each, from_option}
use shiftzero_hero.Console.Documents.{
  JudgeLoadEvidence, ScenarioMetrics, LiveGateEvidence, LiveModelCall, LiveRuntimeSummary,
}
use shiftzero_hero.Console.Replay.{Click}
use shiftzero_hero.Console.View.Parts.{metric, evidence_stat, evidence_link}

unfoldable pub metrics_row :
    (N : Numbers)
    → Option (ScenarioMetrics N.Number)
    → Option (JudgeLoadEvidence N.Number)
    → Html Click
metrics_row N scenario_metrics judge_load =
    el "div"
      (class_name
          "mb-4 grid grid-cols-2 border border-white/[0.08] bg-[#261911] md:grid-cols-3 xl:grid-cols-6"
        ∷ [])
      (metric
          (from_option "—"
            (λ scenario_metrics.
              ((show scenario_metrics.validated_count)
                & ("/" & (show scenario_metrics.sample_size))))
            scenario_metrics)
          "Valid scenario outcomes" "cyan"
        ⊕ metric
            (from_option "—" (λ scenario_metrics. (show scenario_metrics.safety_violation_count))
              scenario_metrics)
            "Safety violations" "emerald"
        ⊕ metric
            (from_option "—"
              (λ scenario_metrics.
                ((N.to_string
                    (N.round (N.mul scenario_metrics.unsafe_plan_rejection_recall (N.of_ℕ 100))))
                  & "%"))
              scenario_metrics)
            "Unsafe-condition recall" "violet"
        ⊕ metric "20/20" "Consecutive Hero runs" "emerald"
        ⊕ metric
            (from_option "—" (λ judge_load. ((N.to_fixed judge_load.p95_ms 0) & " ms")) judge_load)
            "Judge load p95"
            (if from_option false (λ v. v.acceptance_passed) judge_load then "emerald" else "amber")
        ⊕ metric "400–500" "Pallets/day modeled" "violet")

unfoldable pub live_gate_card : (N : Numbers) → Option (LiveGateEvidence N.Number) → Html Click
live_gate_card N live_gate =
    el "Card"
      (class_name "mb-4 rounded-lg border-emerald-300/20 bg-emerald-300/[0.035] shadow-none" ∷ [])
      (el "CardHeader" (class_name "border-b border-emerald-300/10 px-5 py-4" ∷ []) (
          el "CardTitle"
            (class_name "flex flex-wrap items-center justify-between gap-3 text-xs text-white" ∷ [])
            (el "span" (class_name "flex items-center gap-2" ∷ []) (
                el "RadioTower" (class_name "size-4 text-emerald-300" ∷ []) nothing
                ⊕ text_node "Live Nebius Token Factory Compatibility Gate")
              ⊕ el "Badge"
                  (class_name "rounded-sm bg-emerald-300/10 font-mono text-[8px] text-emerald-300"
                    ∷ [])
                  (text_node (
                    if from_option false (λ v. v.official_gate_passed) live_gate
                    then "OFFICIAL GATE · PASS"
                    else "VERIFYING"))))
        ⊕ el "CardContent" (class_name "p-5" ∷ []) (
            el "div" (class_name "grid gap-3 sm:grid-cols-2 lg:grid-cols-5" ∷ []) (
              evidence_stat "Live runs" (
                from_option "—"
                  (λ live_gate.
                    ((show live_gate.metrics.completed_runs)
                      & ("/" & (show live_gate.metrics.requested_runs))))
                  live_gate)
              ⊕ evidence_stat "Forced tool calls" (
                  from_option "—" (λ live_gate. (show (live_gate.metrics.completed_runs * 3)))
                    live_gate)
              ⊕ evidence_stat "First / repaired schema" (
                  from_option "—"
                    (λ live_gate.
                      ((N.to_fixed (N.mul live_gate.metrics.first_schema_valid_rate (N.of_ℕ 100)) 0)
                        & ("% / "
                            & ((N.to_fixed
                                  (N.mul live_gate.metrics.post_repair_schema_valid_rate
                                    (N.of_ℕ 100))
                                  0)
                                & "%"))))
                    live_gate)
              ⊕ evidence_stat "Intent→proposal p95" (
                  from_option "—"
                    (λ live_gate.
                      ((N.to_fixed live_gate.metrics.intent_to_proposal_p95_seconds 3) & " s"))
                    live_gate)
              ⊕ evidence_stat "Failures"
                  (from_option "—" (λ live_gate. (show (length live_gate.failures))) live_gate))
            ⊕ el "p"
                (class_name "mt-4 break-all font-mono text-[9px] leading-4 text-stone-500" ∷ [])
                (text_node (
                  from_option "Loading signed-off aggregate report…"
                    (λ live_gate.
                      (live_gate.provider
                        & (" · " & (live_gate.model & (" · report " & live_gate.report_hash)))))
                    live_gate))
            ⊕ el "p" (class_name "mt-2 text-[10px] leading-5 text-stone-500" ∷ []) (
                text_node
                  "Live model/provider evidence over the reference simulator. This does not claim physical AGV execution.")))

unfoldable pub receipt : (N : Numbers) → LiveModelCall N.Number → Html Click
receipt N call =
    el "div" (class_name "border border-emerald-300/15 bg-emerald-300/[0.025] p-3" ∷ []) (
      el "div" (class_name "flex items-center justify-between gap-2" ∷ []) (
        el "span" (class_name "font-mono text-[10px] text-emerald-200" ∷ [])
          (text_node call.tool_name)
        ⊕ el "span" (class_name "font-mono text-[9px] text-emerald-300" ∷ []) (
            text_node "HTTP "
            ⊕ text_node (show call.http_status)
            ⊕ text_node " · "
            ⊕ text_node call.finish_reason))
      ⊕ el "p" (class_name "mt-2 break-all font-mono text-[9px] leading-4 text-stone-400" ∷ [])
          (text_node "request_id " ⊕ text_node call.request_id)
      ⊕ el "p" (class_name "mt-1 font-mono text-[9px] leading-4 text-stone-500" ∷ []) (
          text_node (N.to_fixed call.latency_ms 3)
          ⊕ text_node " ms · "
          ⊕ text_node (show call.input_tokens)
          ⊕ text_node " in /"
          ⊕ text_node " "
          ⊕ text_node (show call.output_tokens)
          ⊕ text_node " out · retry "
          ⊕ text_node (show call.retry_count)
          ⊕ text_node " · repair"
          ⊕ text_node " "
          ⊕ text_node (show call.repair_count))
      ⊕ el "p" (class_name "mt-1 truncate font-mono text-[9px] text-stone-600" ∷ []) (
          text_node "args "
          ⊕ text_node (take_text 16 call.tool_arguments_hash)
          ⊕ text_node "… · result"
          ⊕ text_node " "
          ⊕ text_node (take_text 16 call.tool_result_hash)
          ⊕ text_node "…"))

unfoldable pub receipts : (N : Numbers) → Option (LiveRuntimeSummary N.Number) → Html Click
receipts N live_runtime =
    from_option
      (el "p" (class_name "text-xs text-stone-500" ∷ []) (text_node "Loading real-call receipts…"))
      (λ items. each (receipt N) items)
      (Option.map (λ v. v.representative_live_trace.model_calls) live_runtime)

unfoldable pub receipts_card : (N : Numbers) → Option (LiveRuntimeSummary N.Number) → Html Click
receipts_card N live_runtime =
    el "Card"
      (class_name "mb-4 rounded-lg border-orange-300/20 bg-orange-300/[0.035] shadow-none" ∷ [])
      (el "CardHeader" (class_name "border-b border-orange-300/10 px-5 py-4" ∷ []) (
          el "CardTitle"
            (class_name "flex flex-wrap items-center justify-between gap-3 text-xs text-white" ∷ [])
            (el "span" (class_name "flex items-center gap-2" ∷ []) (
                el "TerminalSquare" (class_name "size-4 text-orange-200" ∷ []) nothing
                ⊕ text_node "Real-call receipts · one representative live trace")
              ⊕ el "Badge"
                  (class_name
                      "rounded-sm border border-emerald-300/20 bg-emerald-300/[0.08] font-mono text-[8px] text-emerald-200"
                    ∷ [])
                  (text_node "LIVE / NEBIUS")))
        ⊕ el "CardContent" (class_name "p-5" ∷ []) (
            el "div" (class_name "grid gap-3 sm:grid-cols-2 lg:grid-cols-4" ∷ []) (
              evidence_stat "Region / endpoint" (
                from_option "—" (λ live_runtime. live_runtime.metadata.endpoint_region)
                  live_runtime)
              ⊕ evidence_stat "Prompt contract" (
                  from_option "—" (λ live_runtime. live_runtime.metadata.prompt_contract.version)
                    live_runtime)
              ⊕ evidence_stat "Tool schema" (
                  from_option "—" (λ live_runtime. live_runtime.metadata.tool_schema.version)
                    live_runtime)
              ⊕ evidence_stat "Trace" (
                  from_option "—" (λ live_runtime. live_runtime.representative_live_trace.trace_id)
                    live_runtime))
            ⊕ el "p"
                (class_name "mt-4 break-all font-mono text-[9px] leading-4 text-stone-500" ∷ [])
                (text_node (
                  from_option "Loading live runtime metadata…"
                    (λ live_runtime.
                      (live_runtime.metadata.provider
                        & (" · "
                            & (live_runtime.metadata.model
                                & (" · " & live_runtime.metadata.endpoint_base_url)))))
                    live_runtime))
            ⊕ el "div" (class_name "mt-4 grid gap-3 lg:grid-cols-3" ∷ []) (receipts N live_runtime)
            ⊕ el "div" (class_name "mt-4 grid gap-3 sm:grid-cols-2 lg:grid-cols-4" ∷ []) (
                evidence_stat "Replan median / p95" (
                  from_option "—"
                    (λ live_runtime.
                      ((N.to_fixed live_runtime.measurements.replan_mission.latency_ms.median 4)
                        & (" / "
                            & ((N.to_fixed live_runtime.measurements.replan_mission.latency_ms.p95
                                  4)
                                & " ms"))))
                    live_runtime)
                ⊕ evidence_stat "Replan successes" (
                    from_option "—"
                      (λ live_runtime.
                        ((show live_runtime.measurements.replan_mission.successful_result_count)
                          & ("/" & (show live_runtime.measurements.replan_mission.sample_size))))
                      live_runtime)
                ⊕ evidence_stat "Cost / mission median" (
                    from_option "—"
                      (λ live_runtime.
                        ("$"
                          & (N.to_fixed
                              live_runtime.measurements.cost_kpi.per_mission_estimated_usd.median
                              6)))
                      live_runtime)
                ⊕ evidence_stat "120-run estimated cost" (
                    from_option "—"
                      (λ live_runtime.
                        ("$"
                          & (N.to_fixed live_runtime.measurements.cost_kpi.total_gate_estimated_usd
                              6)))
                      live_runtime))
            ⊕ el "p" (class_name "mt-4 text-[10px] leading-5 text-stone-500" ∷ []) (
                text_node
                  "Replan is measured inside 120 live-provider reference-simulator runs. Cost uses measured token counts × the Token Factory catalog snapshot ($0.30/M prompt, $0.90/M completion); it is not an invoice or a physical-AGV result.")
            ⊕ el "div" (class_name "mt-3 grid gap-2 sm:grid-cols-2" ∷ []) (
                evidence_link "/data/live-runtime-summary.json" "live-runtime-summary.json"
                ⊕ evidence_link "/data/token-factory-model-catalog.json"
                    "token-factory-model-catalog.json")))
