-- ===== src/FieldTest/View/Controls.antt =====
-- The buttons of the lab: its page header and the card "Test controls" of
-- apps/web/components/field-test-simulator.tsx.
use shiftzero_hero.Common.{◌&◌, not, ◌||◌, [], ◌∷◌, leb, ◌==◌, if◌then◌else◌, show}
use shiftzero_hero.Html.{Html, nothing, text_node, el, ◌⊕◌, class_name, attr, flag, on_click, each}
use shiftzero_hero.FieldTest.Schedule.{
  disconnected_before_obstacle, connected, detect_at_ms, is_disconnected, is_completed,
}
use shiftzero_hero.FieldTest.Session.{
  Session, Action, on_back, on_start_or_pause, on_inject_blockage, on_reset, on_export, on_speed,
  on_stop_latency, on_cloud_mode, phase, a06_simulation_passed, a07_simulation_passed,
}
use shiftzero_hero.FieldTest.View.Parts.{control_row, gate_status}

unfoldable pub page_header : Session → Html Action
page_header s =
    el "div" (class_name "mb-5 flex flex-col justify-between gap-4 lg:flex-row lg:items-end" ∷ []) (
      el "div" [] (
        el "Button"
          (attr "variant" "ghost"
            ∷ attr "size" "sm"
            ∷ on_click on_back
            ∷ class_name "mb-4 -ml-2 text-stone-400 hover:bg-white/[0.04] hover:text-white"
            ∷ [])
          (el "ChevronLeft" (class_name "size-4" ∷ []) nothing ⊕ text_node " Back to Evidence")
        ⊕ el "div" (class_name "mb-3 flex flex-wrap items-center gap-2" ∷ []) (
            el "Badge"
              (class_name
                  "rounded-sm border border-amber-300/30 bg-amber-300/[0.1] font-mono text-[9px] text-amber-200"
                ∷ [])
              (text_node "DIGITAL TWIN / SIMULATION")
            ⊕ el "Badge"
                (class_name
                    "rounded-sm border border-emerald-300/30 bg-emerald-300/[0.08] font-mono text-[9px] text-emerald-200"
                  ∷ [])
                (text_node "OFFICIAL NO-HARDWARE PATH")
            ⊕ el "Badge"
                (class_name
                    "rounded-sm border border-stone-300/20 bg-stone-300/[0.06] font-mono text-[9px] text-stone-300"
                  ∷ [])
                (text_node "NO PHYSICAL CLAIM"))
        ⊕ el "h1"
            (class_name "text-3xl font-semibold tracking-[-0.03em] text-white sm:text-4xl" ∷ [])
            (text_node "A06/A07 Digital Twin Lab")
        ⊕ el "p" (class_name "mt-3 max-w-3xl text-sm leading-6 text-stone-400" ∷ []) (
            text_node
              "Nine-AGV simulation for cloud-disconnect, local safety, sensor-to-stop timing, blockage replan, recovery and evidence capture. Devpost explicitly permits Physical AI entries without hardware to demonstrate their key application modules."))
      ⊕ el "div" (class_name "flex flex-wrap gap-2" ∷ []) (
          el "Button"
            (on_click on_start_or_pause
              ∷ flag "disabled" (is_completed (phase s))
              ∷ class_name "rounded-md bg-orange-200 text-[#1b120d] hover:bg-orange-100"
              ∷ [])
            ((if s.running
                then el "Pause" (class_name "size-4" ∷ []) nothing
                else el "Play" (class_name "size-4" ∷ []) nothing)
              ⊕ text_node (
                  if s.running
                  then "Pause"
                  else (if s.started then "Continue" else "Run simulation")))
          ⊕ el "Button"
              (on_click on_inject_blockage
                ∷ flag "disabled" (is_completed (phase s) || leb detect_at_ms s.elapsed_ms)
                ∷ attr "variant" "outline"
                ∷ class_name
                    "rounded-md border-amber-300/25 bg-amber-300/[0.06] text-amber-100 hover:bg-amber-300/[0.12]"
                ∷ [])
              (el "ShieldAlert" (class_name "size-4" ∷ []) nothing ⊕ text_node " Inject blockage")
          ⊕ el "Button"
              (on_click on_reset
                ∷ attr "variant" "outline"
                ∷ class_name
                    "rounded-md border-white/10 bg-white/[0.03] text-stone-300 hover:bg-white/[0.07]"
                ∷ [])
              (el "RotateCcw" (class_name "size-4" ∷ []) nothing ⊕ text_node " Reset")))

unfoldable pub controls_card : Session → Html Action
unfolding control_row gate_status
controls_card s =
    el "Card" (class_name "rounded-lg border-white/[0.08] bg-[#261911] shadow-none" ∷ []) (
      el "CardHeader" (class_name "border-b border-white/[0.07] px-5 py-4" ∷ []) (
        el "CardTitle" (class_name "flex items-center gap-2 text-xs text-white" ∷ []) (
          el "RadioTower" (class_name "size-4 text-orange-200" ∷ []) nothing
          ⊕ text_node " Test controls"))
      ⊕ el "CardContent" (class_name "space-y-5 p-5" ∷ []) (
          control_row "Playback speed" (
            each
              (λ value.
                el "Button"
                  (attr "size" "xs"
                    ∷ attr "variant" "outline"
                    ∷ on_click (on_speed value)
                    ∷ class_name (
                        if s.speed == value
                        then "border-orange-200/40 bg-orange-200/10 text-orange-100"
                        else "border-white/10 text-stone-500")
                    ∷ [])
                  (text_node (show value) ⊕ text_node "×"))
              (1 ∷ 2 ∷ 4 ∷ []))
          ⊕ control_row "Synthetic sensor → stop" (
              each
                (λ value.
                  el "Button"
                    (attr "size" "xs"
                      ∷ attr "variant" "outline"
                      ∷ flag "disabled" s.started
                      ∷ on_click (on_stop_latency value)
                      ∷ class_name (
                          if s.stop_latency_ms == value
                          then "border-orange-200/40 bg-orange-200/10 text-orange-100"
                          else "border-white/10 text-stone-500")
                      ∷ [])
                    (text_node (show value) ⊕ text_node " ms"))
                (84 ∷ 150 ∷ 240 ∷ []))
          ⊕ control_row "Cloud path before obstacle" (
              el "Button"
                (attr "size" "xs"
                  ∷ attr "variant" "outline"
                  ∷ flag "disabled" s.started
                  ∷ on_click (on_cloud_mode disconnected_before_obstacle)
                  ∷ class_name (
                      if is_disconnected s.cloud_mode
                      then "border-emerald-200/40 bg-emerald-200/10 text-emerald-100"
                      else "border-white/10 text-stone-500")
                  ∷ [])
                (text_node "Disconnect")
              ⊕ el "Button"
                  (attr "size" "xs"
                    ∷ attr "variant" "outline"
                    ∷ flag "disabled" s.started
                    ∷ on_click (on_cloud_mode connected)
                    ∷ class_name (
                        if not (is_disconnected s.cloud_mode)
                        then "border-rose-200/40 bg-rose-200/10 text-rose-100"
                        else "border-white/10 text-stone-500")
                    ∷ [])
                  (text_node "Connected control"))
          ⊕ el "div" (class_name "rounded-md border border-white/[0.07] bg-[#1d130e] p-3" ∷ []) (
              el "div" (class_name "flex items-center justify-between gap-3" ∷ []) (
                el "span"
                  (class_name "font-mono text-[9px] uppercase tracking-[0.14em] text-stone-500"
                    ∷ [])
                  (text_node "Cloud path")
                ⊕ el "Badge"
                    (class_name (
                        "rounded-sm font-mono text-[8px] "
                        & (if is_disconnected s.cloud_mode
                            then "bg-emerald-300/10 text-emerald-200"
                            else "bg-rose-300/10 text-rose-200"))
                      ∷ [])
                    (text_node (
                      if is_disconnected s.cloud_mode
                      then "DISCONNECTS AT +2600 MS"
                      else "CONNECTED CONTROL")))
              ⊕ el "p" (class_name "mt-2 text-[10px] leading-5 text-stone-500" ∷ []) (
                  text_node
                    "The default run removes the simulated cloud route 400 ms before filtered obstacle detection. The edge stop remains local; all timing is explicitly synthetic."))
          ⊕ el "div" (class_name "grid grid-cols-2 gap-2" ∷ []) (
              gate_status "A06 simulation" (a06_simulation_passed s)
              ⊕ gate_status "A07 simulation" (a07_simulation_passed s))
          ⊕ el "Button"
              (on_click on_export
                ∷ flag "disabled" (not (is_completed (phase s)))
                ∷ attr "variant" "outline"
                ∷ class_name
                    "w-full rounded-md border-violet-300/25 bg-violet-300/[0.06] text-violet-100 hover:bg-violet-300/[0.12]"
                ∷ [])
              (el "Download" (class_name "size-4" ∷ []) nothing
                ⊕ text_node " Download simulation evidence")))
