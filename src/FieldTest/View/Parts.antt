-- ===== src/FieldTest/View/Parts.antt =====
-- Small components and labels of the lab: `SimulatorMetric`, `ControlRow`, `GateStatus` and
-- `formatElapsed` of apps/web/components/field-test-simulator.tsx.
use shiftzero_hero.Common.{ℕ, String, ◌&◌, Bool, true, false, [], ◌∷◌, if◌then◌else◌}
use shiftzero_hero.Numbers.{Numbers}
use shiftzero_hero.Html.{Html, nothing, text_node, el, ◌⊕◌, class_name}
use shiftzero_hero.FieldTest.Schedule.{
  Phase, ready, executing, sensor_detected, safe_stop, replanning, resumed, completed,
}
use shiftzero_hero.FieldTest.Session.{Action, MapMode, flat, isometric}

pub data Tone : Type 0 where
  cyan emerald rose slate : Tone

-- The members of the union `Phase` are these texts.
abbrev pub phase_name : Phase → String
phase_name ready = "READY"
phase_name executing = "EXECUTING"
phase_name sensor_detected = "SENSOR_DETECTED"
phase_name safe_stop = "SAFE_STOP"
phase_name replanning = "REPLANNING"
phase_name resumed = "RESUMED"
phase_name completed = "COMPLETED"

abbrev pub mode_name : MapMode → String
mode_name flat = "2D"
mode_name isometric = "3D"

-- `mapMode === mode`
abbrev pub same_mode : MapMode → MapMode → Bool
same_mode flat flat = true
same_mode isometric isometric = true
same_mode _ _ = false

abbrev metric_tone : Tone → String
metric_tone cyan = "text-orange-200"
metric_tone emerald = "text-emerald-200"
metric_tone rose = "text-rose-200"
metric_tone slate = "text-stone-200"

unfoldable pub format_elapsed : Numbers → ℕ → String
format_elapsed N value = N.to_fixed (N.div (N.of_ℕ value) (N.of_ℕ 1000)) 2 & " s"

unfoldable pub simulator_metric : String → String → Tone → Html Action
simulator_metric label value tone =
    el "div" (class_name "border-r border-white/[0.06] px-4 py-3 last:border-r-0" ∷ []) (
      el "p" (class_name "font-mono text-[8px] uppercase tracking-[0.14em] text-stone-600" ∷ [])
        (text_node label)
      ⊕ el "p" (class_name ("mt-1 font-mono text-xs font-semibold " & metric_tone tone) ∷ [])
          (text_node value))

unfoldable pub control_row : String → Html Action → Html Action
control_row label children = el "div" [] (
    el "p" (class_name "mb-2 font-mono text-[9px] uppercase tracking-[0.14em] text-stone-500" ∷ [])
      (text_node label)
    ⊕ el "div" (class_name "flex flex-wrap gap-2" ∷ []) children)

unfoldable pub gate_status : String → Bool → Html Action
gate_status label passed =
    el "div"
      (class_name (
          "rounded-md border p-3 "
          & (if passed
              then "border-emerald-300/20 bg-emerald-300/[0.05]"
              else "border-white/[0.07] bg-[#1d130e]"))
        ∷ [])
      (el "div" (class_name "flex items-center gap-2" ∷ []) (
          (if passed
            then el "CheckCircle2" (class_name "size-4 text-emerald-300" ∷ []) nothing
            else el "Box" (class_name "size-4 text-stone-600" ∷ []) nothing)
          ⊕ el "span"
              (class_name (
                  "font-mono text-[9px] "
                  & (if passed then "text-emerald-200" else "text-stone-500"))
                ∷ [])
              (text_node label))
        ⊕ el "p" (class_name "mt-2 text-[9px] text-stone-600" ∷ [])
            (text_node (if passed then "SIMULATION PASS" else "NOT RUN")))
