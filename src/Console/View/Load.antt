-- ===== src/Console/View/Load.antt =====
-- The load evidence, the serverless boundary and the final gate: `EvidenceView` of
-- apps/web/components/mission-console.tsx.
use mathlib.Core.Option
use shiftzero_hero.Common.{◌&◌, false, not, Option, some, [], ◌∷◌, if◌then◌else◌, show, join_with}
use shiftzero_hero.Numbers.{Numbers}
use shiftzero_hero.Html.{
  Html, nothing, text_node, el, ◌⊕◌, class_name, attr, when, each, from_option,
}
use shiftzero_hero.Console.Documents.{
  Load, JudgeLoadEvidence, ImpactLoadModel, ScreenshotEvidence, LiveGateEvidence,
  ServerlessReadiness,
}
use shiftzero_hero.Console.Replay.{Click}
use shiftzero_hero.Console.View.Parts.{class_names, evidence_stat, evidence_link}

unfoldable pub load_card : (N : Numbers) → Option (JudgeLoadEvidence N.Number) → Html Click
load_card N judge_load =
    el "Card" (class_name "rounded-lg border-white/[0.09] bg-[#261911] shadow-none" ∷ []) (
      el "CardHeader" (class_name "border-b border-white/[0.06] px-5 py-4" ∷ []) (
        el "CardTitle"
          (class_name "flex items-center justify-between gap-3 text-xs text-white" ∷ [])
          (el "span" (class_name "flex items-center gap-2" ∷ []) (
              el "Zap" (class_name "size-4 text-orange-200" ∷ []) nothing
              ⊕ text_node " Judge Mode first-load evidence")
            ⊕ el "Badge"
                (class_name "rounded-sm bg-emerald-300/10 font-mono text-[8px] text-emerald-300"
                  ∷ [])
                (text_node (
                  if from_option false (λ v. v.acceptance_passed) judge_load
                  then "PASS"
                  else "VERIFYING"))))
      ⊕ el "CardContent" (class_name "p-5" ∷ []) (
          el "div" (class_name "grid grid-cols-3 gap-3" ∷ []) (
            evidence_stat "Samples"
              (from_option "—" (λ judge_load. (show judge_load.sample_count)) judge_load)
            ⊕ evidence_stat "Median" (
                from_option "—" (λ judge_load. ((N.to_fixed judge_load.median_ms 0) & " ms"))
                  judge_load)
            ⊕ evidence_stat "p95 / limit" (
                from_option "—"
                  (λ judge_load.
                    ((N.to_fixed judge_load.p95_ms 0)
                      & (" / " & ((N.to_string judge_load.threshold_ms) & " ms"))))
                  judge_load))
          ⊕ el "p" (class_name "mt-4 text-[10px] leading-5 text-stone-500" ∷ []) (
              text_node
                "Local production build · browser end-to-end load timing · one new-tab navigation plus 19 same-tab reloads.")
          ⊕ evidence_link "/data/judge-mode-load.json" "judge-mode-load.json"))

unfoldable pub load_row : (N : Numbers) → Load N.Number → Html Click
load_row N row =
    el "div"
      (class_name
          "grid grid-cols-[80px_1fr_auto] items-center gap-3 border-b border-white/[0.05] py-2 font-mono text-[9px]"
        ∷ [])
      (el "span" (class_name "text-stone-300" ∷ [])
          (text_node (show row.pallets_per_day) ⊕ text_node "/day")
        ⊕ el "span" (class_name "text-stone-500" ∷ []) (
            text_node "util "
            ⊕ text_node (N.to_fixed (N.mul row.agv_metrics.mean_utilization (N.of_ℕ 100)) 1)
            ⊕ text_node "% · p95 wait"
            ⊕ text_node " "
            ⊕ text_node (N.to_fixed row.agv_metrics.p95_queue_wait_seconds 0)
            ⊕ text_node "s")
        ⊕ el "span" (class_name "text-violet-200" ∷ []) (
            text_node "save "
            ⊕ text_node (N.to_fixed row.operator_impact.hours_saved_per_day 1)
            ⊕ text_node "h*"))

unfoldable pub impact_card : (N : Numbers) → Option (ImpactLoadModel N.Number) → Html Click
impact_card N impact_load =
    el "Card" (class_name "rounded-lg border-white/[0.09] bg-[#261911] shadow-none" ∷ []) (
      el "CardHeader" (class_name "border-b border-white/[0.06] px-5 py-4" ∷ []) (
        el "CardTitle"
          (class_name "flex items-center justify-between gap-3 text-xs text-white" ∷ [])
          (el "span" (class_name "flex items-center gap-2" ∷ []) (
              el "Activity" (class_name "size-4 text-violet-200" ∷ []) nothing
              ⊕ text_node " 400–500 pallets/day stress model")
            ⊕ el "Badge"
                (class_name "rounded-sm bg-violet-300/10 font-mono text-[8px] text-violet-200" ∷ [])
                (text_node "PROJECTION · NOT PHYSICAL")))
      ⊕ el "CardContent" (class_name "p-5" ∷ []) (
          el "div" (class_name "space-y-2" ∷ []) (
            from_option
              (el "p" (class_name "text-xs text-stone-500" ∷ []) (text_node "Loading projection…"))
              (λ items. each (load_row N) items) (Option.map (λ v. v.loads) impact_load))
          ⊕ el "p" (class_name "mt-4 text-[10px] leading-5 text-stone-500" ∷ []) (
              text_node
                "*Seeded M/G/2 planning projection, 20 simulated days per load. Assumptions are explicit and are not observed site labor or physical throughput.")
          ⊕ evidence_link "/data/impact-load-model.json" "impact-load-model.json"))

unfoldable pub serverless_card : Option ServerlessReadiness → Html Click
serverless_card serverless =
    el "Card" (class_name "mt-4 rounded-lg border-white/[0.09] bg-[#261911] shadow-none" ∷ []) (
      el "CardHeader" (class_name "border-b border-white/[0.06] px-5 py-4" ∷ []) (
        el "CardTitle"
          (class_name "flex flex-wrap items-center justify-between gap-3 text-xs text-white" ∷ [])
          (el "span" (class_name "flex items-center gap-2" ∷ []) (
              el "Cpu" (class_name "size-4 text-orange-200" ∷ []) nothing
              ⊕ text_node " Nebius Serverless job boundary")
            ⊕ el "Badge"
                (class_name (
                    class_names (
                      some "rounded-sm font-mono text-[8px]"
                      ∷ some (
                          if from_option false (λ v. v.cloud_deployed) serverless
                          then "bg-emerald-300/10 text-emerald-300"
                          else "bg-amber-300/10 text-amber-200")
                      ∷ []))
                  ∷ [])
                (text_node (
                  if from_option false (λ v. v.cloud_deployed) serverless
                  then "CLOUD DEPLOYED"
                  else "ACCOUNT-GATED"))))
      ⊕ el "CardContent" (class_name "p-5" ∷ []) (
          el "div" (class_name "grid gap-3 sm:grid-cols-2 lg:grid-cols-4" ∷ []) (
            evidence_stat "Job artifact" (
              if from_option false (λ v. v.artifact_ready) serverless then "READY" else "VERIFYING")
            ⊕ evidence_stat "Local smoke" (
                if from_option false (λ v. v.local_artifact.smoke_test_passed) serverless
                then "100/100 PASS"
                else "—")
            ⊕ evidence_stat "Safety violations" (
                from_option "—"
                  (λ serverless. (show serverless.local_artifact.safety_violation_count))
                  serverless)
            ⊕ evidence_stat "Nebius deployment" (
                if from_option false (λ v. v.cloud_deployed) serverless
                then "SUCCEEDED"
                else "NO RECEIPT"))
          ⊕ el "p" (class_name "mt-4 text-[10px] leading-5 text-stone-500" ∷ []) (
              text_node
                "The non-interactive Serverless image and entrypoint are locally verified. A Token Factory key is not an AI Cloud project credential; cloud deployment remains closed until a Nebius project, CLI profile, registry image, quota, and successful job receipt exist.")
          ⊕ from_option nothing
              (λ serverless. when (not serverless.cloud_deployed) (
                el "p" (class_name "mt-2 font-mono text-[9px] leading-4 text-amber-200/70" ∷ [])
                  (text_node (join_with " · " serverless.blockers))))
              serverless
          ⊕ el "div" (class_name "mt-3" ∷ [])
              (evidence_link "/data/serverless-readiness.json" "serverless-readiness.json")))

unfoldable pub final_gate :
    {F : Type 0} → Option ScreenshotEvidence → Option (LiveGateEvidence F) → Html Click
final_gate screenshot_evidence live_gate =
    el "div" (class_name "mt-4 border border-amber-300/20 bg-amber-300/[0.045] p-4" ∷ []) (
      el "div" (class_name "flex gap-3" ∷ []) (
        el "LockKeyhole" (class_name "mt-0.5 size-4 shrink-0 text-amber-200" ∷ []) nothing
        ⊕ el "div" [] (
            el "p" (class_name "text-xs font-semibold text-amber-100" ∷ [])
              (text_node "Final evidence gate intentionally remains closed")
            ⊕ el "p" (class_name "mt-1 text-[11px] leading-5 text-stone-500" ∷ []) (
                text_node (
                  if from_option false (λ v. v.final_submission_eligible) screenshot_evidence
                  then "The three screenshots are bound to a passing live-provider gate and are eligible for final review."
                  else (if from_option false (λ v. v.official_gate_passed) live_gate
                      then "The live Compatibility Gate passes. The three current PNGs remain preflight-only MOCK / FIXTURE captures and must be replaced with one correlated LIVE / NEBIUS + DIGITAL TWIN / SIMULATION capture set."
                      else "The three current PNGs are preflight-only MOCK / FIXTURE captures and cannot satisfy final submission.")))
            ⊕ el "Badge"
                (attr "variant" "outline"
                  ∷ class_name
                      "mt-3 border-amber-300/20 bg-amber-300/[0.06] font-mono text-[9px] text-amber-200"
                  ∷ [])
                (text_node (
                  if from_option false (λ v. v.final_submission_eligible) screenshot_evidence
                  then "FINAL LIVE EVIDENCE"
                  else "RECAPTURE REQUIRED")))))
