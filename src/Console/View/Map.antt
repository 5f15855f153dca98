-- ===== src/Console/View/Map.antt =====
-- The warehouse map of the replay: `WarehouseMap` of apps/web/components/mission-console.tsx.

use shiftzero_hero.Common.{Bool, [], ◌∷◌, show}
use shiftzero_hero.Html.{Html, nothing, text_node, el, ◌⊕◌, class_name, attr, when, each}
use shiftzero_hero.Console.Replay.{Click}
use shiftzero_hero.Console.View.Vehicle.{map_defs, vehicle}

unfoldable pub warehouse_map : Bool → Bool → Bool → Html Click
warehouse_map blocked complete replanned =
    el "Card"
      (class_name "overflow-hidden rounded-lg border-white/[0.09] bg-[#261911] shadow-none" ∷ [])
      (el "CardHeader"
          (class_name "flex-row items-center justify-between border-b border-white/[0.06] px-5 py-4"
            ∷ [])
          (el "div" [] (
              el "CardTitle" (class_name "text-xs font-semibold tracking-wide text-white" ∷ [])
                (text_node "Live mission topology")
              ⊕ el "p" (class_name "mt-1 font-mono text-[9px] tracking-[0.1em] text-stone-600" ∷ [])
                  (text_node "WAREHOUSE WEST · SIMULATION FRAME 04"))
            ⊕ el "div" (class_name "flex items-center gap-2 text-[10px] text-stone-500" ∷ []) (
                el "RadioTower" (class_name "size-3.5 text-emerald-300" ∷ []) nothing
                ⊕ text_node "LOCAL TELEMETRY"))
        ⊕ el "CardContent" (class_name "map-grid relative min-h-[420px] p-0" ∷ []) (
            el "svg"
              (attr "viewBox" "0 0 760 460" ∷ class_name "absolute inset-0 h-full w-full" ∷ [])
              (el "title" [] (
                  text_node
                    "Warehouse route from INBOUND-01 to RACK-A12 with a safe replan around a blocked aisle")
                ⊕ map_defs
                ⊕ each
                    (λ x.
                      el "rect"
                        (attr "x" (show x)
                          ∷ attr "y" "55"
                          ∷ attr "width" "100"
                          ∷ attr "height" "62"
                          ∷ attr "rx" "4"
                          ∷ attr "fill" "url(#shelf)"
                          ∷ attr "stroke" "#6a452d"
                          ∷ [])
                        nothing)
                    (55 ∷ 205 ∷ 355 ∷ 505 ∷ [])
                ⊕ each
                    (λ x.
                      el "rect"
                        (attr "x" (show x)
                          ∷ attr "y" "325"
                          ∷ attr "width" "100"
                          ∷ attr "height" "62"
                          ∷ attr "rx" "4"
                          ∷ attr "fill" "url(#shelf)"
                          ∷ attr "stroke" "#6a452d"
                          ∷ [])
                        nothing)
                    (55 ∷ 205 ∷ 505 ∷ [])
                ⊕ el "rect"
                    (attr "x" "355"
                      ∷ attr "y" "325"
                      ∷ attr "width" "100"
                      ∷ attr "height" "62"
                      ∷ attr "rx" "4"
                      ∷ attr "fill" "#38251a"
                      ∷ attr "stroke" "#346057"
                      ∷ [])
                    nothing
                ⊕ el "text"
                    (attr "x" "405"
                      ∷ attr "y" "360"
                      ∷ attr "textAnchor" "middle"
                      ∷ attr "fill" "#66dca7"
                      ∷ attr "fontSize" "11"
                      ∷ attr "fontFamily" "monospace"
                      ∷ [])
                    (text_node "RACK-A12")
                ⊕ el "path"
                    (attr "d" "M105 280 L225 280 L285 225 L405 225 L455 175 L555 175 L620 235"
                      ∷ attr "fill" "none"
                      ∷ attr "stroke" "#5d3d28"
                      ∷ attr "strokeWidth" "14"
                      ∷ attr "strokeLinecap" "round"
                      ∷ attr "strokeLinejoin" "round"
                      ∷ [])
                    nothing
                ⊕ el "path"
                    (attr "d" "M105 280 L225 280 L285 225 L405 225 L455 175 L555 175 L620 235"
                      ∷ attr "fill" "none"
                      ∷ attr "stroke" "#a27b50"
                      ∷ attr "strokeWidth" "2"
                      ∷ attr "strokeDasharray" "8 9"
                      ∷ [])
                    nothing
                ⊕ el "path"
                    (attr "d" "M105 280 L225 280 L285 225 L405 225"
                      ∷ attr "fill" "none"
                      ∷ attr "stroke" "#f4bd73"
                      ∷ attr "strokeWidth" "7"
                      ∷ attr "strokeLinecap" "round"
                      ∷ attr "filter" "url(#glow)"
                      ∷ [])
                    nothing
                ⊕ when replanned (
                    el "path"
                      (attr "d"
                          "M405 225 C455 285 475 295 535 285 L610 285 C645 285 650 330 600 350 L455 355"
                        ∷ attr "fill" "none"
                        ∷ attr "stroke" "#a69cff"
                        ∷ attr "strokeWidth" "6"
                        ∷ attr "strokeLinecap" "round"
                        ∷ attr "strokeDasharray" "11 8"
                        ∷ attr "filter" "url(#glow)"
                        ∷ [])
                      nothing)
                ⊕ when blocked (
                    el "g" (attr "transform" "translate(440 176)" ∷ []) (
                      el "circle"
                        (attr "r" "20" ∷ attr "fill" "#341d24" ∷ attr "stroke" "#ff7285" ∷ [])
                        nothing
                      ⊕ el "path"
                          (attr "d" "M-7-7L7 7M7-7L-7 7"
                            ∷ attr "stroke" "#ff8a9a"
                            ∷ attr "strokeWidth" "4"
                            ∷ attr "strokeLinecap" "round"
                            ∷ [])
                          nothing))
                ⊕ vehicle blocked complete replanned
                ⊕ el "g" (attr "transform" "translate(105 280)" ∷ []) (
                    el "circle"
                      (attr "r" "8"
                        ∷ attr "fill" "#1b120d"
                        ∷ attr "stroke" "#f4bd73"
                        ∷ attr "strokeWidth" "3"
                        ∷ [])
                      nothing
                    ⊕ el "text"
                        (attr "y" "-17"
                          ∷ attr "textAnchor" "middle"
                          ∷ attr "fill" "#d2ad82"
                          ∷ attr "fontSize" "10"
                          ∷ attr "fontFamily" "monospace"
                          ∷ [])
                        (text_node "INBOUND-01"))
                ⊕ el "g" (attr "transform" "translate(455 355)" ∷ []) (
                    el "circle" (attr "r" "9" ∷ attr "fill" "#66dca7" ∷ []) nothing
                    ⊕ el "path"
                        (attr "d" "M-4 0L-1 4L5-5"
                          ∷ attr "fill" "none"
                          ∷ attr "stroke" "#1b120d"
                          ∷ attr "strokeWidth" "2"
                          ∷ [])
                        nothing))
            ⊕ el "div" (class_name "absolute bottom-4 left-4 flex flex-wrap gap-2" ∷ []) (
                el "Badge"
                  (attr "variant" "outline"
                    ∷ class_name
                        "border-orange-300/20 bg-[#1b120d]/80 font-mono text-[9px] text-orange-200"
                    ∷ [])
                  (el "span" (class_name "mr-1 h-0.5 w-4 bg-orange-200" ∷ []) nothing
                    ⊕ text_node "EXECUTED")
                ⊕ el "Badge"
                    (attr "variant" "outline"
                      ∷ class_name
                          "border-violet-300/20 bg-[#1b120d]/80 font-mono text-[9px] text-violet-200"
                      ∷ [])
                    (el "span"
                        (class_name "mr-1 h-0.5 w-4 border-t-2 border-dashed border-violet-300"
                          ∷ [])
                        nothing
                      ⊕ text_node "REPLAN"))))
