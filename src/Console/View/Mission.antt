-- ===== src/Console/View/Mission.antt =====
-- The page of the replay: `MissionView`, `MissionBrief` and `TrustBoundary` of
-- apps/web/components/mission-console.tsx.
use mathlib.Core.Option
use shiftzero_hero.Common.{ℕ, ◌&◌, Bool, true, false, Option, some, [], ◌∷◌, if◌then◌else◌}
use shiftzero_hero.Numbers.{Numbers}
use shiftzero_hero.Html.{
  Html, nothing, text_node, el, ◌⊕◌, class_name, attr, flag, on_click, when, from_option,
}
use shiftzero_hero.Console.Documents.{HeroSummary}
use shiftzero_hero.Console.Timeline.{TimelineItem}
use shiftzero_hero.Console.Replay.{Decision, approved, rejected, stopped, Click, on_run, on_control}
use shiftzero_hero.Console.View.Parts.{class_names}
use shiftzero_hero.Console.View.Map.{warehouse_map}
use shiftzero_hero.Console.View.Safety.{safety_card, trace_rail}
use shiftzero_hero.Console.View.Metrics.{metric_strip}

-- `decision === 'rejected'`
abbrev pub is_rejected : Option Decision → Bool
is_rejected (some rejected) = true
is_rejected _ = false

unfoldable pub mission_header : TimelineItem → Bool → Bool → Option Decision → Html Click
mission_header active complete running decision =
    el "div" (class_name "mb-7 flex flex-col justify-between gap-5 lg:flex-row lg:items-end" ∷ []) (
      el "div" [] (
        el "div"
          (class_name
              "mb-3 flex items-center gap-2 font-mono text-[10px] uppercase tracking-[0.18em] text-orange-300"
            ∷ [])
          (el "span" (class_name "h-px w-6 bg-orange-300/70" ∷ []) nothing
            ⊕ text_node " Proof-carrying physical AI")
        ⊕ el "h1"
            (class_name
                "max-w-3xl text-3xl font-semibold leading-tight tracking-[-0.03em] text-white sm:text-4xl lg:text-[46px]"
              ∷ [])
            (text_node "One sentence in."
              ⊕ text_node " "
              ⊕ el "span" (class_name "text-orange-200" ∷ [])
                  (text_node "One verified mission out."))
        ⊕ el "p" (class_name "mt-3 max-w-2xl text-sm leading-6 text-stone-400" ∷ []) (
            text_node
              "A judge-readable warehouse mission where AI proposes, deterministic rules decide, a human approves, and every transition carries evidence."))
      ⊕ el "div" (class_name "flex items-center gap-3" ∷ []) (
          el "div" (class_name "text-right" ∷ []) (
            el "p"
              (class_name "font-mono text-[9px] uppercase tracking-[0.16em] text-stone-600" ∷ [])
              (text_node "Current state")
            ⊕ el "p" (class_name ("mt-1 font-mono text-sm font-bold metric-" & active.tone) ∷ [])
                (text_node (if is_rejected decision then "REJECTED" else active.state)))
          ⊕ el "Button"
              (on_click on_run
                ∷ flag "disabled" running
                ∷ attr "variant" "outline"
                ∷ class_name
                    "h-11 rounded-md border-orange-200/25 bg-orange-200/[0.06] px-5 text-xs font-bold text-orange-100 hover:bg-orange-200/[0.12]"
                ∷ [])
              ((if complete
                  then el "RotateCcw" (class_name "size-4" ∷ []) nothing
                  else el "Play" (class_name "size-4" ∷ []) nothing)
                ⊕ text_node (
                    if running
                    then "MISSION RUNNING"
                    else (if complete then "REPLAY HERO" else "RUN HERO")))))

unfoldable pub replay_controls : Html Click
replay_controls =
    el "div"
      (class_name
          "mb-4 flex flex-col justify-between gap-3 border border-white/[0.08] bg-[#261911] p-3 sm:flex-row sm:items-center"
        ∷ [])
      (el "div" [] (
          el "p" (class_name "font-mono text-[9px] uppercase tracking-[0.14em] text-stone-500" ∷ [])
            (text_node "Local replay controls")
          ⊕ el "p" (class_name "mt-1 text-[10px] text-stone-600" ∷ []) (
              text_node
                "Demonstrates UI states; authoritative operations are defined in openapi.json."))
        ⊕ el "div" (class_name "flex flex-wrap gap-2" ∷ []) (
            el "Button"
              (attr "size" "sm"
                ∷ attr "variant" "outline"
                ∷ on_click (on_control approved)
                ∷ class_name "border-emerald-300/20 bg-emerald-300/[0.05] text-emerald-200"
                ∷ [])
              (el "Check" (class_name "size-3.5" ∷ []) nothing ⊕ text_node " Approve")
            ⊕ el "Button"
                (attr "size" "sm"
                  ∷ attr "variant" "outline"
                  ∷ on_click (on_control rejected)
                  ∷ class_name "border-rose-300/20 bg-rose-300/[0.05] text-rose-200"
                  ∷ [])
                (el "AlertTriangle" (class_name "size-3.5" ∷ []) nothing ⊕ text_node " Reject")
            ⊕ el "Button"
                (attr "size" "sm"
                  ∷ attr "variant" "outline"
                  ∷ on_click (on_control stopped)
                  ∷ class_name "border-amber-300/20 bg-amber-300/[0.05] text-amber-200"
                  ∷ [])
                (el "CircleStop" (class_name "size-3.5" ∷ []) nothing ⊕ text_node " Stop")))

unfoldable pub final_pose : (N : Numbers) → HeroSummary N.Number → Html Click
final_pose N hero_summary =
    el "p" (class_name "mt-1 whitespace-nowrap font-mono text-[9px] text-emerald-200/75" ∷ []) (
      text_node hero_summary.final_pose.node_id
      ⊕ text_node " · x"
      ⊕ text_node " "
      ⊕ text_node (N.to_fixed hero_summary.final_pose.x 1)
      ⊕ text_node " · y"
      ⊕ text_node " "
      ⊕ text_node (N.to_fixed hero_summary.final_pose.y 1)
      ⊕ text_node " · θ"
      ⊕ text_node " "
      ⊕ text_node (N.to_fixed hero_summary.final_pose.heading_deg 1)
      ⊕ text_node "°")

unfoldable pub mission_brief :
    (N : Numbers) → TimelineItem → Bool → Option (HeroSummary N.Number) → Html Click
mission_brief N active complete hero_summary =
    el "Card" (class_name "rounded-lg border-white/[0.09] bg-[#261911] shadow-none" ∷ []) (
      el "CardContent" (class_name "grid gap-6 p-5 sm:grid-cols-[1fr_auto] sm:items-center" ∷ []) (
        el "div" [] (
          el "div"
            (class_name
                "mb-2 flex items-center gap-2 font-mono text-[9px] uppercase tracking-[0.15em] text-stone-600"
              ∷ [])
            (el "MapPinned" (class_name "size-3.5" ∷ []) nothing
              ⊕ text_node "Natural-language intent")
          ⊕ el "p" (class_name "text-base font-medium text-white" ∷ [])
              (text_node "“Move pallet P-104 from INBOUND-01 to RACK-A12.”")
          ⊕ el "p" (class_name "mt-2 text-xs leading-5 text-stone-500" ∷ []) (
              text_node "Current event:"
              ⊕ text_node " "
              ⊕ el "span" (class_name ("font-mono metric-" & active.tone) ∷ [])
                  (text_node active.event)
              ⊕ text_node " "
              ⊕ text_node "· "
              ⊕ text_node active.detail))
        ⊕ el "div" (class_name "flex gap-3 sm:text-right" ∷ []) (
            el "div" (class_name "border-l border-white/[0.08] pl-4" ∷ []) (
              el "p" (class_name "font-mono text-[9px] text-stone-600" ∷ []) (text_node "PROPOSAL")
              ⊕ el "p" (class_name "mt-1 max-w-32 truncate font-mono text-xs text-stone-300" ∷ []) (
                  text_node (
                    from_option "loading" (λ v. v) (Option.map (λ v. v.proposal_id) hero_summary))))
            ⊕ el "div" (class_name "border-l border-white/[0.08] pl-4" ∷ []) (
                el "p" (class_name "font-mono text-[9px] text-stone-600" ∷ []) (text_node "OUTCOME")
                ⊕ el "p"
                    (class_name (
                        class_names (
                          some "mt-1 font-mono text-xs"
                          ∷ some (if complete then "text-emerald-300" else "text-stone-600")
                          ∷ []))
                      ∷ [])
                    (text_node (if complete then "VERIFIED" else "PENDING"))
                ⊕ when complete (from_option nothing (final_pose N) hero_summary)))))

unfoldable pub trust_boundary : Html Click
trust_boundary =
    el "Card" (class_name "rounded-lg border-white/[0.09] bg-[#261911] shadow-none" ∷ []) (
      el "CardContent" (class_name "flex h-full items-center gap-4 p-5" ∷ []) (
        el "div"
          (class_name
              "grid size-10 shrink-0 place-items-center rounded-md border border-violet-300/20 bg-violet-300/[0.07]"
            ∷ [])
          (el "Cpu" (class_name "size-5 text-violet-200" ∷ []) nothing)
        ⊕ el "div" [] (
            el "p" (class_name "text-xs font-semibold text-white" ∷ [])
              (text_node "AI proposes. Rules authorize.")
            ⊕ el "p" (class_name "mt-1 text-[11px] leading-5 text-stone-500" ∷ []) (
                text_node
                  "No model output crosses the actuation boundary without schema, safety proof and human approval."))))

unfoldable pub mission_view :
    (N : Numbers)
    → TimelineItem
    → Bool
    → Bool
    → Bool
    → ℕ
    → Bool
    → Option Decision
    → Option (HeroSummary N.Number)
    → Html Click
mission_view N active blocked complete replanned run_step running decision hero_summary =
    el "div" (class_name "mx-auto max-w-[1500px] px-4 py-8 sm:px-6 lg:px-8" ∷ []) (
      mission_header active complete running decision
      ⊕ metric_strip N active hero_summary
      ⊕ replay_controls
      ⊕ el "div" (class_name "grid gap-4 xl:grid-cols-[1.45fr_.8fr_.88fr]" ∷ []) (
          warehouse_map blocked complete replanned
          ⊕ safety_card N blocked complete replanned run_step hero_summary
          ⊕ trace_rail run_step)
      ⊕ el "div" (class_name "mt-4 grid gap-4 lg:grid-cols-[1.25fr_.75fr]" ∷ [])
          (mission_brief N active complete hero_summary ⊕ trust_boundary))
