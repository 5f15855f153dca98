-- ===== src/Console/View/Frame.antt =====
-- The frame of every page: the top bar, the status line and the navigation that `MissionConsole`
-- of apps/web/components/mission-console.tsx returns.

use shiftzero_hero.Common.{
  String, Bool, true, false, Option, some, [], ◌∷◌, if◌then◌else◌, take_text,
}
use shiftzero_hero.Html.{
  Html, nothing, text_node, el, ◌⊕◌, class_name, attr, flag, on_click, each, from_option,
}
use shiftzero_hero.Console.Documents.{HeroSummary, LiveGateEvidence}
use shiftzero_hero.Console.Timeline.{
  View, mission, architecture, evidence, field_test, source, views,
}
use shiftzero_hero.Console.Replay.{Click, on_view, on_run}
use shiftzero_hero.Console.View.Parts.{class_names, status_dot, data_pill}

-- `view === item.id`
abbrev pub same_view : View → View → Bool
same_view mission mission = true
same_view architecture architecture = true
same_view evidence evidence = true
same_view field_test field_test = true
same_view source source = true
same_view _ _ = false

unfoldable pub fixture_badge : {F : Type 0} → Option (HeroSummary F) → Html Click
fixture_badge hero_summary =
    el "div"
      (class_name
          "pointer-events-none fixed bottom-3 right-3 z-[70] rounded border border-amber-300/25 bg-[#1b120d]/95 px-2.5 py-1.5 font-mono text-[8px] tracking-[0.08em] text-amber-100 shadow-xl backdrop-blur"
        ∷ [])
      (el "span" (class_name "font-bold" ∷ []) (text_node "MOCK / FIXTURE")
        ⊕ el "span" (class_name "mx-1.5 text-stone-600" ∷ []) (text_node "·")
        ⊕ el "time"
            (from_option [] (λ hero. attr "dateTime" hero.evidence_captured_at ∷ []) hero_summary)
            (text_node "EVIDENCE UTC "
              ⊕ text_node (from_option "LOADING" (λ hero. hero.evidence_captured_at) hero_summary)))

unfoldable pub top_bar : {F : Type 0} → View → Bool → Option (LiveGateEvidence F) → Html Click
top_bar view running live_gate =
    el "header"
      (class_name "sticky top-0 z-50 border-b border-white/[0.08] bg-[#1b120d]/90 backdrop-blur-xl"
        ∷ [])
      (el "div"
        (class_name
            "mx-auto flex h-16 max-w-[1500px] items-center justify-between px-4 sm:px-6 lg:px-8"
          ∷ [])
        (el "button" (class_name "group flex items-center gap-3" ∷ on_click (on_view mission) ∷ [])
            (el "span"
                (class_name
                    "grid size-9 place-items-center rounded-md border border-orange-300/30 bg-orange-300/10 text-orange-200 shadow-[0_0_22px_rgba(244,189,115,.12)]"
                  ∷ [])
                (el "Route" (class_name "size-5" ∷ []) nothing)
              ⊕ el "span" (class_name "text-left" ∷ []) (
                  el "span"
                    (class_name "block text-[15px] font-bold tracking-[0.16em] text-white" ∷ [])
                    (text_node "SHIFTZERO")
                  ⊕ el "span"
                      (class_name "block font-mono text-[9px] tracking-[0.22em] text-stone-500"
                        ∷ [])
                      (text_node "HERO—002 / JUDGE MODE")))
          ⊕ el "nav"
              (class_name "hidden items-center gap-1 md:flex"
                ∷ attr "aria-label" "Primary navigation"
                ∷ [])
              (each {X = View × String}
                (λ item.
                  el "Button"
                    (attr "variant" "ghost"
                      ∷ attr "size" "sm"
                      ∷ on_click (on_view item.0)
                      ∷ class_name (
                          class_names (
                            some "h-9 rounded-md px-4 text-xs capitalize tracking-wide"
                            ∷ some (
                                if same_view view item.0
                                then "bg-white/[0.07] text-white"
                                else "text-stone-400 hover:bg-white/[0.04] hover:text-white")
                            ∷ []))
                      ∷ [])
                    (text_node item.1))
                views)
          ⊕ el "div" (class_name "flex items-center gap-2" ∷ []) (
              el "Button"
                (on_click (on_view source)
                  ∷ attr "title" "Inspect source readiness and publication gate"
                  ∷ attr "variant" "ghost"
                  ∷ attr "size" "sm"
                  ∷ class_name
                      "hidden h-8 rounded-md px-3 font-mono text-[9px] text-stone-500 lg:flex"
                  ∷ [])
                (el "GitBranch" (class_name "size-3" ∷ []) nothing ⊕ text_node " SOURCE GATE")
              ⊕ el "Badge"
                  (attr "variant" "outline"
                    ∷ class_name (
                        class_names (
                          some
                            "hidden h-8 rounded-md px-3 font-mono text-[9px] tracking-[0.12em] sm:flex"
                          ∷ some (
                              if from_option false (λ v. v.official_gate_passed) live_gate
                              then "border-emerald-300/20 bg-emerald-300/[0.06] text-emerald-200"
                              else "border-amber-300/20 bg-amber-300/[0.06] text-amber-200")
                          ∷ []))
                    ∷ [])
                  ((if from_option false (λ v. v.official_gate_passed) live_gate
                      then el "ShieldCheck" (class_name "size-3" ∷ []) nothing
                      else el "LockKeyhole" (class_name "size-3" ∷ []) nothing)
                    ⊕ text_node (
                        if from_option false (λ v. v.official_gate_passed) live_gate
                        then "LIVE GATE PASSED"
                        else "LIVE GATE VERIFYING"))
              ⊕ el "Badge"
                  (class_name
                      "hidden h-8 rounded-md border border-rose-300/25 bg-rose-300/[0.08] px-3 font-mono text-[9px] tracking-[0.12em] text-rose-200 sm:flex"
                    ∷ [])
                  (text_node "MOCK / FIXTURE")
              ⊕ el "Button"
                  (on_click on_run
                    ∷ flag "disabled" running
                    ∷ attr "size" "sm"
                    ∷ class_name
                        "h-9 rounded-md bg-orange-200 px-4 text-xs font-bold text-[#1b120d] hover:bg-orange-100"
                    ∷ [])
                  ((if running
                      then el "Activity" (class_name "size-3.5 animate-pulse" ∷ []) nothing
                      else el "Play" (class_name "size-3.5 fill-current" ∷ []) nothing)
                    ⊕ text_node (if running then "RUNNING" else "RUN HERO")))))

unfoldable pub status_line : {F : Type 0} → Option (HeroSummary F) → Bool → Html Click
status_line hero_summary evidence_error =
    el "section" (class_name "border-b border-white/[0.06] bg-[#21150e]" ∷ []) (
      el "div"
        (class_name
            "mx-auto flex max-w-[1500px] flex-wrap items-center justify-between gap-3 px-4 py-2.5 sm:px-6 lg:px-8"
          ∷ [])
        (el "div" (class_name "flex items-center gap-2 text-[11px] text-stone-400" ∷ []) (
            status_dot "emerald"
            ⊕ el "span" (class_name "font-medium text-stone-200" ∷ [])
                (text_node "MOCK verified replay")
            ⊕ el "span" (class_name "text-stone-700" ∷ []) (text_node "/")
            ⊕ el "span" [] (
                text_node
                  "Reference simulator · deterministic fixture · no cloud key loaded in Judge Mode"))
          ⊕ el "div" (class_name "flex items-center gap-2" ∷ []) (
              data_pill (text_node "SCHEMA v2")
              ⊕ data_pill (
                  text_node "POLICY sha256:"
                  ⊕ text_node (
                      from_option "loading"
                        (λ hero_summary. take_text 8 hero_summary.safety_policy_sha256)
                        hero_summary)
                  ⊕ text_node "…")
              ⊕ data_pill (
                  text_node (
                    if evidence_error
                    then "EVIDENCE LOAD ERROR"
                    else (if from_option false (λ v. v.trace_chain_valid) hero_summary
                        then "TRACE CHAIN VALID"
                        else "VERIFYING TRACE"))))))

unfoldable pub small_nav : View → Html Click
small_nav view = el "div" (class_name "md:hidden" ∷ []) (
    el "div" (class_name "grid grid-cols-4 border-b border-white/[0.06]" ∷ []) (
      each {X = View × String}
        (λ item.
          el "button"
            (on_click (on_view item.0)
              ∷ class_name (
                  class_names (
                    some "py-3 text-[10px] font-bold uppercase tracking-[0.15em]"
                    ∷ some (
                        if same_view view item.0
                        then "border-b border-orange-200 text-orange-200"
                        else "text-stone-500")
                    ∷ []))
              ∷ [])
            (text_node item.1))
        views))
