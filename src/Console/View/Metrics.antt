-- ===== src/Console/View/Metrics.antt =====
-- The figures of the replay page, which `MissionView` of
-- apps/web/components/mission-console.tsx builds from the measured summary.
use mathlib.Core.Option
use shiftzero_hero.Common.{
  ℕ, suc, String, ◌&◌, Option, none, some, List, [], ◌∷◌, if◌then◌else◌, length, take, show,
}
use shiftzero_hero.Numbers.{Numbers}
use shiftzero_hero.Html.{Html, nothing, text_node, el, ◌⊕◌, class_name, each, from_option}
use shiftzero_hero.Console.Documents.{SafetyCheck, ModelCall, HeroSummary}
use shiftzero_hero.Console.Timeline.{TimelineItem}
use shiftzero_hero.Console.Replay.{Click}

-- `calls.slice(0, 2).reduce((sum, call) => sum + call.latency_ms, sum)`
abbrev latency_from : (N : Numbers) → N.Number → List (ModelCall N.Number) → N.Number
latency_from N sum [] = sum
latency_from N sum (call ∷ calls) = latency_from N (N.add sum call.latency_ms) calls

unfoldable pub model_latency : (N : Numbers) → Option (HeroSummary N.Number) → String
model_latency N hero_summary =
    from_option "loading"
      (λ model_calls. N.to_fixed (latency_from N (N.of_ℕ 0) (take 2 model_calls)) 3 & " ms")
      (Option.bind hero_summary (λ v. v.model_calls))

unfoldable pub model_cost : (N : Numbers) → Option (HeroSummary N.Number) → String
model_cost N hero_summary =
    from_option "loading" (λ cost. "$" & N.to_fixed cost 4)
      (Option.bind hero_summary (λ v. v.estimated_model_cost_usd))

-- `safety_checks.filter((check) => check.passed).length`
abbrev passed_checks : List SafetyCheck → ℕ
passed_checks [] = 0
passed_checks (check ∷ rest) = let n = passed_checks rest in if check.passed then suc n else n

unfoldable pub safety_count : {F : Type 0} → Option (HeroSummary F) → String
safety_count none = "loading"
safety_count (some hero) =
    show (passed_checks hero.safety_checks)
    & (" / " & (show (length hero.safety_checks) & " passed"))

unfoldable pub metric_strip :
    (N : Numbers) → TimelineItem → Option (HeroSummary N.Number) → Html Click
metric_strip N active hero_summary =
    el "div"
      (class_name
          "mb-4 grid grid-cols-2 border border-white/[0.08] bg-[#261911] sm:grid-cols-3 xl:grid-cols-6"
        ∷ [])
      (each {X = String × String × Html Click}
        (λ (label, value, icon).
          el "div"
            (class_name "border-b border-r border-white/[0.06] p-4 last:border-r-0 sm:border-b-0"
              ∷ [])
            (el "div"
                (class_name
                    "mb-1.5 flex items-center gap-2 text-[9px] uppercase tracking-[0.16em] text-stone-600"
                  ∷ [])
                (icon ⊕ text_node label)
              ⊕ el "div" (class_name "font-mono text-xs font-semibold text-stone-200" ∷ [])
                  (text_node value)))
        (("Connection", "VERIFIED REPLAY", (el "RadioTower" (class_name "size-3.5" ∷ []) nothing))
          ∷ ("State", active.state, (el "Activity" (class_name "size-3.5" ∷ []) nothing))
          ∷ (
            "Model latency",
            (model_latency N hero_summary),
            (el "Cpu" (class_name "size-3.5" ∷ []) nothing),
          )
          ∷ (
            "Model cost",
            (model_cost N hero_summary),
            (el "Zap" (class_name "size-3.5" ∷ []) nothing),
          )
          ∷ ("Success", "20 / 20", (el "Check" (class_name "size-3.5" ∷ []) nothing))
          ∷ (
            "Safety",
            (safety_count hero_summary),
            (el "ShieldCheck" (class_name "size-3.5" ∷ []) nothing),
          )
          ∷ []))
