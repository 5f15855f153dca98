-- ===== src/Console/View/Safety.antt =====
-- The safety proof and the evidence trace of the replay: `SafetyCard` and `TraceRail` of
-- apps/web/components/mission-console.tsx.

use shiftzero_hero.Common.{
  ℕ, ◌+◌, String, ◌&◌, Bool, not, Option, some, List, [], ◌∷◌, leb, ◌==◌, if◌then◌else◌, show,
  pad_start,
}
use shiftzero_hero.Numbers.{Numbers}
use shiftzero_hero.Html.{
  Html, nothing, text_node, el, ◌⊕◌, class_name, when, each, each_from, from_option,
}
use shiftzero_hero.Console.Documents.{HeroSummary}
use shiftzero_hero.Console.Timeline.{TimelineItem, timeline}
use shiftzero_hero.Console.Replay.{Click}
use shiftzero_hero.Console.View.Parts.{class_names, truthy}

-- The constant `checks`, by the step shown.
unfoldable pub checks : ℕ → List (String × Bool)
checks run_step =
    ("entity_validity", leb 4 run_step)
    ∷ ("map_consistency", leb 4 run_step)
    ∷ ("battery_reserve", leb 4 run_step)
    ∷ ("vehicle_type", leb 4 run_step)
    ∷ ("forbidden_zone", leb 4 run_step)
    ∷ ("collision", leb 4 run_step)
    ∷ ("reservation_availability", leb 4 run_step)
    ∷ ("deadlock", leb 4 run_step)
    ∷ ("destination_occupancy", leb 4 run_step)
    ∷ ("proposal_semantics", leb 4 run_step)
    ∷ ("approval_integrity", leb 5 run_step)
    ∷ []

unfoldable pub safety_card :
    (N : Numbers) → Bool → Bool → Bool → ℕ → Option (HeroSummary N.Number) → Html Click
safety_card N blocked complete replanned run_step hero_summary =
    el "Card" (class_name "rounded-lg border-white/[0.09] bg-[#261911] shadow-none" ∷ []) (
      el "CardHeader" (class_name "border-b border-white/[0.06] px-5 py-4" ∷ []) (
        el "CardTitle" (class_name "flex items-center justify-between text-xs text-white" ∷ []) (
          el "span" (class_name "flex items-center gap-2" ∷ []) (
            el "ShieldCheck" (class_name "size-4 text-emerald-300" ∷ []) nothing
            ⊕ text_node "Safety proof")
          ⊕ el "Badge"
              (class_name "rounded-sm bg-emerald-300/10 font-mono text-[9px] text-emerald-300" ∷ [])
              (text_node "DETERMINISTIC")))
      ⊕ el "CardContent" (class_name "p-5" ∷ []) (
          el "div" (class_name "space-y-2.5" ∷ []) (
            each {X = String × Bool}
              (λ (name, ok).
                el "div"
                  (class_name
                      "flex items-center justify-between border-b border-white/[0.045] pb-2.5 font-mono text-[10px]"
                    ∷ [])
                  (el "span" (class_name "text-stone-400" ∷ []) (text_node name)
                    ⊕ (if ok
                        then el "span"
                            (class_name "flex items-center gap-1.5 text-emerald-300" ∷ [])
                            (el "Check" (class_name "size-3" ∷ []) nothing ⊕ text_node "PASS")
                        else el "span" (class_name "text-stone-700" ∷ []) (text_node "PENDING"))))
              (checks run_step))
          ⊕ when blocked (
              el "div" (class_name "mt-4 border border-rose-300/20 bg-rose-300/[0.055] p-3" ∷ []) (
                el "div"
                  (class_name "flex items-center gap-2 text-[10px] font-bold text-rose-200" ∷ [])
                  (el "AlertTriangle" (class_name "size-3.5" ∷ []) nothing
                    ⊕ text_node "LOCAL STOP ASSERTED")
                ⊕ el "p" (class_name "mt-1.5 font-mono text-[9px] leading-4 text-stone-500" ∷ []) (
                    text_node "simulator process ·"
                    ⊕ text_node " "
                    ⊕ text_node (
                        from_option "loading measured trace"
                          (λ hero_summary. ((N.to_fixed hero_summary.stop_latency_ms 6) & " ms"))
                          hero_summary))))
          ⊕ when replanned (
              el "div"
                (class_name
                    "mt-3 flex items-center gap-2 border border-violet-300/20 bg-violet-300/[0.055] p-3 font-mono text-[9px] text-violet-200"
                  ∷ [])
                (el "Route" (class_name "size-3.5" ∷ []) nothing ⊕ text_node "REPLAN PROOF SEALED"))
          ⊕ when complete (
              el "div"
                (class_name
                    "mt-3 flex items-center gap-2 border border-emerald-300/20 bg-emerald-300/[0.055] p-3 font-mono text-[9px] text-emerald-200"
                  ∷ [])
                (el "FileCheck2" (class_name "size-3.5" ∷ []) nothing
                  ⊕ text_node "OUTCOME VERIFIED"))))

unfoldable pub trace_row : ℕ → ℕ → TimelineItem → Html Click
trace_row run_step index item =
    el "li"
      (class_name (
          class_names (
            some "relative ml-5 pb-5 transition-all duration-300 last:pb-0"
            ∷ truthy (not (leb index run_step)) "opacity-20"
            ∷ []))
        ∷ [])
      (el "span"
          (class_name (
              class_names (
                some "absolute -left-[25px] top-1 size-2 rounded-full border"
                ∷ some (
                    if leb index run_step
                    then ("status-" & item.tone)
                    else "border-stone-700 bg-[#261911]")
                ∷ truthy (index == run_step) "ring-4 ring-orange-200/10"
                ∷ []))
            ∷ [])
          nothing
        ⊕ el "div" (class_name "flex items-center justify-between gap-2" ∷ []) (
            el "span"
              (class_name ("font-mono text-[9px] font-bold tracking-[0.06em] metric-" & item.tone)
                ∷ [])
              (text_node item.state)
            ⊕ el "span" (class_name "font-mono text-[8px] text-stone-700" ∷ [])
                (text_node (pad_start 2 "0" (show (index + 1)))))
        ⊕ el "p" (class_name "mt-1 font-mono text-[9px] text-stone-400" ∷ []) (text_node item.event)
        ⊕ when (index == run_step) (
            el "p" (class_name "mt-1.5 text-[10px] leading-4 text-stone-500" ∷ [])
              (text_node item.detail)))

unfoldable pub trace_rail : ℕ → Html Click
trace_rail run_step =
    el "Card" (class_name "rounded-lg border-white/[0.09] bg-[#261911] shadow-none" ∷ []) (
      el "CardHeader" (class_name "border-b border-white/[0.06] px-5 py-4" ∷ []) (
        el "CardTitle" (class_name "flex items-center justify-between text-xs text-white" ∷ []) (
          el "span" (class_name "flex items-center gap-2" ∷ []) (
            el "TerminalSquare" (class_name "size-4 text-orange-200" ∷ []) nothing
            ⊕ text_node "Evidence trace")
          ⊕ el "span" (class_name "font-mono text-[9px] font-normal text-stone-600" ∷ [])
              (text_node "SHA-256 CHAIN")))
      ⊕ el "CardContent" (class_name "max-h-[486px] overflow-y-auto p-5" ∷ []) (
          el "ol" (class_name "relative ml-1 border-l border-white/[0.09]" ∷ [])
            (each_from (trace_row run_step) 0 timeline)))
