-- ===== src/Console/View/Vehicle.antt =====
-- The drawing patterns and the vehicle of the map of apps/web/components/mission-console.tsx.

use shiftzero_hero.Common.{◌&◌, Bool, [], ◌∷◌, if◌then◌else◌, show}
use shiftzero_hero.Html.{Html, nothing, text_node, el, ◌⊕◌, attr}
use shiftzero_hero.Console.Replay.{Click}

unfoldable pub map_defs : Html Click
map_defs = el "defs" [] (
    el "filter" (attr "id" "glow" ∷ []) (
      el "feGaussianBlur" (attr "stdDeviation" "4" ∷ attr "result" "blur" ∷ []) nothing
      ⊕ el "feMerge" [] (
          el "feMergeNode" (attr "in" "blur" ∷ []) nothing
          ⊕ el "feMergeNode" (attr "in" "SourceGraphic" ∷ []) nothing))
    ⊕ el "pattern"
        (attr "id" "shelf"
          ∷ attr "width" "20"
          ∷ attr "height" "20"
          ∷ attr "patternUnits" "userSpaceOnUse"
          ∷ [])
        (el "path"
          (attr "d" "M0 20V0H20"
            ∷ attr "fill" "none"
            ∷ attr "stroke" "#5a3a25"
            ∷ attr "strokeWidth" "1"
            ∷ [])
          nothing))

unfoldable pub vehicle : Bool → Bool → Bool → Html Click
vehicle blocked complete replanned =
    el "g"
      (attr "transform" (
          "translate("
          & ((show (
                if complete
                then 455
                else (if replanned then 535 else (if blocked then 405 else 285))))
              & (" "
                  & ((show (
                        if complete
                        then 355
                        else (if replanned then 285 else (if blocked then 225 else 225))))
                      & ")"))))
        ∷ attr "filter" "url(#glow)"
        ∷ [])
      (el "rect"
          (attr "x" "-20"
            ∷ attr "y" "-14"
            ∷ attr "width" "40"
            ∷ attr "height" "28"
            ∷ attr "rx" "7"
            ∷ attr "fill" "#f4bd73"
            ∷ [])
          nothing
        ⊕ el "circle"
            (attr "cx" "-11"
              ∷ attr "cy" "15"
              ∷ attr "r" "5"
              ∷ attr "fill" "#1b120d"
              ∷ attr "stroke" "#f4bd73"
              ∷ [])
            nothing
        ⊕ el "circle"
            (attr "cx" "11"
              ∷ attr "cy" "15"
              ∷ attr "r" "5"
              ∷ attr "fill" "#1b120d"
              ∷ attr "stroke" "#f4bd73"
              ∷ [])
            nothing
        ⊕ el "text"
            (attr "y" "4"
              ∷ attr "textAnchor" "middle"
              ∷ attr "fill" "#1b120d"
              ∷ attr "fontSize" "10"
              ∷ attr "fontWeight" "800"
              ∷ attr "fontFamily" "monospace"
              ∷ [])
            (text_node "AGV-03"))
