-- ===== src/FieldTest/View/Vehicles.antt =====
-- The drawing patterns and the vehicles of the map of
-- apps/web/components/field-test-simulator.tsx.
use shiftzero_hero.Common.{ℕ, ◌+◌, ◌&◌, List, [], ◌∷◌, leb, if◌then◌else◌, show, pad_start}
use shiftzero_hero.Numbers.{Numbers}
use shiftzero_hero.Html.{Html, nothing, text_node, el, ◌⊕◌, attr, from_option}
use shiftzero_hero.FieldTest.Session.{Session, Action, complete_at}
use shiftzero_hero.FieldTest.Motion.{hero_position, traffic_position}

unfoldable pub map_defs : Html Action
map_defs = el "defs" [] (
    el "pattern"
      (attr "id" "field-grid"
        ∷ attr "width" "40"
        ∷ attr "height" "40"
        ∷ attr "patternUnits" "userSpaceOnUse"
        ∷ [])
      (el "path"
        (attr "d" "M 40 0 L 0 0 0 40"
          ∷ attr "fill" "none"
          ∷ attr "stroke" "#4a3020"
          ∷ attr "strokeWidth" "1"
          ∷ [])
        nothing)
    ⊕ el "filter"
        (attr "id" "hero-glow"
          ∷ attr "x" "-60%"
          ∷ attr "y" "-60%"
          ∷ attr "width" "220%"
          ∷ attr "height" "220%"
          ∷ [])
        (el "feGaussianBlur" (attr "stdDeviation" "5" ∷ attr "result" "blur" ∷ []) nothing
          ⊕ el "feMerge" [] (
              el "feMergeNode" (attr "in" "blur" ∷ []) nothing
              ⊕ el "feMergeNode" (attr "in" "SourceGraphic" ∷ []) nothing)))

-- `Array.from({ length: 8 }, (_, index) => …)`
abbrev pub vehicles : List ℕ
vehicles = 0 ∷ 1 ∷ 2 ∷ 3 ∷ 4 ∷ 5 ∷ 6 ∷ 7 ∷ []

unfoldable pub traffic_vehicle : Numbers → ℕ → ℕ → Html Action
traffic_vehicle N elapsed_ms index =
    from_option nothing
      (λ position.
        el "g"
          (attr "transform"
              ("translate(" & ((N.to_string position.x) & (" " & ((N.to_string position.y) & ")"))))
            ∷ [])
          (el "rect"
              (attr "x" "-14"
                ∷ attr "y" "-9"
                ∷ attr "width" "28"
                ∷ attr "height" "18"
                ∷ attr "rx" "4"
                ∷ attr "fill" "#745039"
                ∷ attr "stroke" "#d4ad7a"
                ∷ [])
              nothing
            ⊕ el "text"
                (attr "x" "0"
                  ∷ attr "y" "-14"
                  ∷ attr "fill" "#bf9a70"
                  ∷ attr "fontSize" "10"
                  ∷ attr "textAnchor" "middle"
                  ∷ [])
                (text_node
                  ("AGV-" & (pad_start 2 "0" (show (index + (if leb 2 index then 2 else 1))))))))
      (traffic_position N elapsed_ms index)

unfoldable pub hero_vehicle : Numbers → Session → Html Action
hero_vehicle N s =
    from_option nothing
      (λ position.
        el "g"
          (attr "transform"
              ("translate(" & ((N.to_string position.x) & (" " & ((N.to_string position.y) & ")"))))
            ∷ attr "filter" "url(#hero-glow)"
            ∷ [])
          (el "rect"
              (attr "x" "-21"
                ∷ attr "y" "-14"
                ∷ attr "width" "42"
                ∷ attr "height" "28"
                ∷ attr "rx" "5"
                ∷ attr "fill" "#f4bd73"
                ∷ attr "stroke" "#ffedd5"
                ∷ attr "strokeWidth" "2"
                ∷ [])
              nothing
            ⊕ el "rect"
                (attr "x" "-13"
                  ∷ attr "y" "-8"
                  ∷ attr "width" "26"
                  ∷ attr "height" "16"
                  ∷ attr "rx" "2"
                  ∷ attr "fill" "#3a2415"
                  ∷ [])
                nothing
            ⊕ el "circle"
                (attr "cx" "-13" ∷ attr "cy" "15" ∷ attr "r" "4" ∷ attr "fill" "#e2e8f0" ∷ [])
                nothing
            ⊕ el "circle"
                (attr "cx" "13" ∷ attr "cy" "15" ∷ attr "r" "4" ∷ attr "fill" "#e2e8f0" ∷ [])
                nothing
            ⊕ el "text"
                (attr "x" "0"
                  ∷ attr "y" "-22"
                  ∷ attr "fill" "#ffedd5"
                  ∷ attr "fontSize" "12"
                  ∷ attr "fontWeight" "700"
                  ∷ attr "textAnchor" "middle"
                  ∷ [])
                (text_node "AGV-03 / HERO")))
      (hero_position N s.elapsed_ms s.stop_latency_ms (complete_at s))
