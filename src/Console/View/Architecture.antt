-- ===== src/Console/View/Architecture.antt =====
-- The page of the architecture: `ArchitectureView` and `BoundaryCard` of
-- apps/web/components/mission-console.tsx.

use shiftzero_hero.Common.{ℕ, String, ◌||◌, some, [], ◌∷◌, ◌==◌, if◌then◌else◌}
use shiftzero_hero.Html.{Html, nothing, text_node, el, ◌⊕◌, class_name, attr, on_click, each_from}
use shiftzero_hero.Console.Timeline.{ArchitectureLayer, architecture_layers}
use shiftzero_hero.Console.Replay.{Click, on_run}
use shiftzero_hero.Console.View.Parts.{class_names}

unfoldable pub boundary_card : String → String → String → Html Click
boundary_card icon title detail =
    el "Card" (class_name "rounded-lg border-white/[0.08] bg-[#261911] shadow-none" ∷ []) (
      el "CardContent" (class_name "p-5" ∷ []) (
        el icon (class_name "mb-4 size-5 text-orange-200" ∷ []) nothing
        ⊕ el "h3" (class_name "text-sm font-semibold text-white" ∷ []) (text_node title)
        ⊕ el "p" (class_name "mt-2 text-xs leading-5 text-stone-500" ∷ []) (text_node detail)))

unfoldable pub layer_row : ℕ → ArchitectureLayer → Html Click
layer_row index layer =
    el "div"
      (class_name
          "group grid gap-4 border border-white/[0.08] bg-[#261911] p-5 transition-colors hover:border-violet-300/20 sm:grid-cols-[60px_48px_1fr_auto] sm:items-center"
        ∷ [])
      (el "span" (class_name "font-mono text-xs text-stone-700" ∷ []) (text_node layer.number)
        ⊕ el "div"
            (class_name
                "grid size-10 place-items-center rounded border border-white/[0.08] bg-white/[0.025]"
              ∷ [])
            (el layer.icon
              (class_name (
                  class_names (
                    some "size-5"
                    ∷ some
                        (if index == 1 || index == 4 then "text-emerald-300" else "text-violet-200")
                    ∷ []))
                ∷ [])
              nothing)
        ⊕ el "div" [] (
            el "h2" (class_name "text-sm font-semibold text-white" ∷ []) (text_node layer.title)
            ⊕ el "p" (class_name "mt-1 text-xs leading-5 text-stone-500" ∷ [])
                (text_node layer.detail))
        ⊕ el "Badge"
            (attr "variant" "outline"
              ∷ class_name "w-fit rounded-sm border-white/[0.1] font-mono text-[9px] text-stone-400"
              ∷ [])
            (text_node layer.label))

unfoldable pub architecture_view : Html Click
architecture_view = el "div" (class_name "mx-auto max-w-[1200px] px-4 py-10 sm:px-6 lg:px-8" ∷ []) (
    el "div" (class_name "mb-10 grid gap-7 lg:grid-cols-[1fr_.7fr] lg:items-end" ∷ []) (
      el "div" [] (
        el "div"
          (class_name "mb-3 font-mono text-[10px] uppercase tracking-[0.18em] text-violet-300" ∷ [])
          (text_node "Architecture / trust boundaries")
        ⊕ el "h1"
            (class_name "text-3xl font-semibold tracking-[-0.03em] text-white sm:text-4xl" ∷ [])
            (text_node "Intelligence above."
              ⊕ el "br" [] nothing
              ⊕ el "span" (class_name "text-violet-200" ∷ []) (text_node "Authority below."))
        ⊕ el "p" (class_name "mt-4 max-w-2xl text-sm leading-6 text-stone-400" ∷ []) (
            text_node
              "The design separates probabilistic reasoning from deterministic authorization, then preserves the relationship in a tamper-evident evidence chain."))
      ⊕ el "div" (class_name "flex justify-start lg:justify-end" ∷ []) (
          el "Button"
            (on_click on_run
              ∷ class_name "rounded-md bg-violet-200 text-[#1b120d] hover:bg-violet-100"
              ∷ [])
            (el "Play" (class_name "size-4" ∷ []) nothing
              ⊕ text_node "Watch the boundary in action")))
    ⊕ el "div" (class_name "space-y-3" ∷ []) (each_from layer_row 0 architecture_layers)
    ⊕ el "div" (class_name "mt-5 grid gap-4 md:grid-cols-3" ∷ []) (
        boundary_card "KeyRound" "Approval is content-bound"
          "Operator identity, proposal digest, policy digest and expiry are signed together."
        ⊕ boundary_card "Zap" "Stop is local"
            "Emergency response does not depend on model latency, cloud reachability or tool availability."
        ⊕ boundary_card "FileCheck2" "Claims are scoped"
            "Simulator replay and live Token Factory receipts are labeled separately; neither is presented as physical AGV evidence."))
