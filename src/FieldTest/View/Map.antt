-- ===== src/FieldTest/View/Map.antt =====
-- The map card: the phase strip, the warehouse and the vehicles of
-- apps/web/components/field-test-simulator.tsx.
use shiftzero_hero.Common.{◌+◌, String, ◌&◌, not, ◌&&◌, [], ◌∷◌, leb, if◌then◌else◌, show}
use shiftzero_hero.Numbers.{Numbers}
use shiftzero_hero.Html.{
  Html, nothing, text_node, el, ◌⊕◌, class_name, attr, style, on_click, when, each,
}
use mathlib.Core.Option.{some, none}
use shiftzero_hero.FieldTest.Schedule.{detect_at_ms, is_disconnected, is_completed}
use shiftzero_hero.FieldTest.Session.{Session, Action, on_map_mode, flat, isometric, phase}
use shiftzero_hero.FieldTest.Motion.{Point, point, route_a, detour_route, traffic_loop, path_data}
use shiftzero_hero.FieldTest.View.Parts.{
  cyan, slate, emerald, rose, phase_name, mode_name, same_mode, format_elapsed, simulator_metric,
}
use shiftzero_hero.FieldTest.View.Vehicles.{map_defs, vehicles, traffic_vehicle, hero_vehicle}

unfoldable pub phase_strip : Numbers → Session → Html Action
unfolding simulator_metric format_elapsed
phase_strip N s =
    el "div" (class_name "grid grid-cols-2 border-b border-white/[0.06] sm:grid-cols-5" ∷ []) (
      simulator_metric "Phase" (phase_name (phase s)) cyan
      ⊕ simulator_metric "Elapsed" (format_elapsed N s.elapsed_ms) slate
      ⊕ simulator_metric "Fleet" "9 / 9" emerald
      ⊕ simulator_metric "Cloud"
          (if is_disconnected s.cloud_mode then "DISCONNECTED" else "CONNECTED")
          (if is_disconnected s.cloud_mode then emerald else rose)
      ⊕ simulator_metric "Synthetic stop" (show s.stop_latency_ms & " ms")
          (if leb s.stop_latency_ms 200 then emerald else rose))

unfoldable pub warehouse_map : Numbers → Session → Html Action
unfolding map_defs traffic_vehicle hero_vehicle
warehouse_map N s =
    el "svg"
      (attr "viewBox" "0 0 920 520"
        ∷ attr "aria-label" "Functional nine-AGV warehouse simulation map"
        ∷ class_name "w-full transition-transform duration-500"
        ∷ style (
            if same_mode s.map_mode isometric
            then some "transform: rotateX(48deg) rotateZ(-2deg) scale(0.92)"
            else none)
        ∷ [])
      (map_defs
        ⊕ el "rect" (attr "width" "920" ∷ attr "height" "520" ∷ attr "fill" "url(#field-grid)" ∷ [])
            nothing
        ⊕ each
            (λ x. el "g" [] (
              el "rect"
                (attr "x" (show x)
                  ∷ attr "y" "58"
                  ∷ attr "width" "58"
                  ∷ attr "height" "118"
                  ∷ attr "rx" "4"
                  ∷ attr "fill" "#342117"
                  ∷ attr "stroke" "#6d4529"
                  ∷ [])
                nothing
              ⊕ el "rect"
                  (attr "x" (show x)
                    ∷ attr "y" "285"
                    ∷ attr "width" "58"
                    ∷ attr "height" "82"
                    ∷ attr "rx" "4"
                    ∷ attr "fill" "#342117"
                    ∷ attr "stroke" "#6d4529"
                    ∷ [])
                  nothing))
            (170 ∷ 270 ∷ 370 ∷ 470 ∷ 570 ∷ 670 ∷ [])
        ⊕ el "path"
            (attr "d" (path_data N (route_a N))
              ∷ attr "fill" "none"
              ∷ attr "stroke" "#7d5030"
              ∷ attr "strokeWidth" "12"
              ∷ attr "strokeLinecap" "round"
              ∷ attr "strokeLinejoin" "round"
              ∷ [])
            nothing
        ⊕ el "path"
            (attr "d" (path_data N (route_a N))
              ∷ attr "fill" "none"
              ∷ attr "stroke" "#60a5fa"
              ∷ attr "strokeWidth" "3"
              ∷ attr "strokeDasharray" "10 10"
              ∷ [])
            nothing
        ⊕ when (leb (detect_at_ms + s.stop_latency_ms + 850) s.elapsed_ms) (
            el "path"
              (attr "d" (path_data N (detour_route N))
                ∷ attr "fill" "none"
                ∷ attr "stroke" "#6ee7b7"
                ∷ attr "strokeWidth" "5"
                ∷ attr "strokeDasharray" "12 9"
                ∷ [])
              nothing)
        ⊕ el "path"
            (attr "d" (path_data N (traffic_loop N))
              ∷ attr "fill" "none"
              ∷ attr "stroke" "#583824"
              ∷ attr "strokeWidth" "5"
              ∷ attr "strokeDasharray" "5 10"
              ∷ [])
            nothing
        ⊕ each {X = String × Point N.Number}
            (λ (label, point). el "g" [] (
              el "circle"
                (attr "cx" (N.to_string point.x)
                  ∷ attr "cy" (N.to_string point.y)
                  ∷ attr "r" "8"
                  ∷ attr "fill" "#22160f"
                  ∷ attr "stroke" "#f4bd73"
                  ∷ attr "strokeWidth" "2"
                  ∷ [])
                nothing
              ⊕ el "text"
                  (attr "x" (N.to_string point.x)
                    ∷ attr "y" (N.to_string (N.sub point.y (N.of_ℕ 16)))
                    ∷ attr "fill" "#d0aa7a"
                    ∷ attr "fontSize" "13"
                    ∷ attr "textAnchor" "middle"
                    ∷ [])
                  (text_node label)))
            (("N01", point N 72 420)
              ∷ ("N04", point N 330 420)
              ∷ ("N09", point N 620 420)
              ∷ ("N10", point N 620 245)
              ∷ ("N12", point N 842 135)
              ∷ [])
        ⊕ when (leb detect_at_ms s.elapsed_ms && not (is_completed (phase s))) (
            el "g" (attr "transform" "translate(620 420)" ∷ []) (
              el "circle" (attr "r" "35" ∷ attr "fill" "#fb7185" ∷ attr "opacity" "0.12" ∷ [])
                nothing
              ⊕ el "path"
                  (attr "d" "M -12 -12 L 12 12 M 12 -12 L -12 12"
                    ∷ attr "stroke" "#fb7185"
                    ∷ attr "strokeWidth" "7"
                    ∷ attr "strokeLinecap" "round"
                    ∷ [])
                  nothing
              ⊕ el "text"
                  (attr "x" "0"
                    ∷ attr "y" "54"
                    ∷ attr "fill" "#fda4af"
                    ∷ attr "fontSize" "12"
                    ∷ attr "textAnchor" "middle"
                    ∷ [])
                  (text_node "SYNTHETIC BLOCKAGE")))
        ⊕ each (traffic_vehicle N s.elapsed_ms) vehicles
        ⊕ hero_vehicle N s
        ⊕ el "g" (attr "transform" "translate(842 135)" ∷ []) (
            el "rect"
              (attr "x" "20"
                ∷ attr "y" "-34"
                ∷ attr "width" "42"
                ∷ attr "height" "68"
                ∷ attr "rx" "4"
                ∷ attr "fill" "#3f321b"
                ∷ attr "stroke" "#6ee7b7"
                ∷ [])
              nothing
            ⊕ el "text"
                (attr "x" "41"
                  ∷ attr "y" "4"
                  ∷ attr "fill" "#a7f3d0"
                  ∷ attr "fontSize" "11"
                  ∷ attr "textAnchor" "middle"
                  ∷ [])
                (text_node "P-104")))

unfoldable pub map_card : Numbers → Session → Html Action
unfolding phase_strip warehouse_map
map_card N s =
    el "Card"
      (class_name "overflow-hidden rounded-lg border-white/[0.08] bg-[#22160f] shadow-none" ∷ [])
      (el "CardHeader" (class_name "border-b border-white/[0.07] px-5 py-4" ∷ []) (
          el "CardTitle"
            (class_name "flex flex-wrap items-center justify-between gap-3 text-xs text-white" ∷ [])
            (el "span" (class_name "flex items-center gap-2" ∷ []) (
                el "Route" (class_name "size-4 text-orange-200" ∷ []) nothing
                ⊕ text_node " Nine-AGV warehouse map")
              ⊕ el "span" (class_name "flex items-center gap-2" ∷ []) (
                  each
                    (λ mode.
                      el "Button"
                        (attr "size" "xs"
                          ∷ attr "variant" "outline"
                          ∷ on_click (on_map_mode mode)
                          ∷ class_name (
                              if same_mode s.map_mode mode
                              then "border-orange-200/40 bg-orange-200/10 text-orange-100"
                              else "border-white/10 bg-transparent text-stone-500")
                          ∷ [])
                        (text_node (mode_name mode)))
                    (flat ∷ isometric ∷ []))))
        ⊕ el "CardContent" (class_name "p-0" ∷ []) (
            phase_strip N s
            ⊕ el "div"
                (class_name "overflow-hidden bg-[#170f0b] p-3 sm:p-5"
                  ∷ style (some "perspective: 1200px")
                  ∷ [])
                (warehouse_map N s)))
