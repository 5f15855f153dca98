-- ===== src/Console/View/Parts.antt =====
-- The small components of apps/web/components/mission-console.tsx: `classNames`, `StatusDot`,
-- `DataPill`, `Metric`, `EvidenceStat` and `EvidenceLink`.
use text.Mathlib.Text.{◌==◌ as str_eq}
use shiftzero_hero.Common.{
  String, ◌&◌, Bool, true, Option, none, some, List, [], ◌∷◌, if◌then◌else◌, join_with,
}
use shiftzero_hero.Html.{Html, nothing, text_node, el, ◌⊕◌, class_name, attr, flag}
use shiftzero_hero.Console.Replay.{Click}

-- `values.filter(Boolean).join(' ')`
abbrev kept : List (Option String) → List String
kept [] = []
kept (none ∷ rest) = kept rest
kept (some s ∷ rest) = let others = kept rest in if str_eq s "" then others else s ∷ others

abbrev pub class_names : List (Option String) → String
class_names values = join_with " " (kept values)

-- `cond && text` as one of the values.
abbrev pub truthy : Bool → String → Option String
truthy b s = if b then some s else none

unfoldable pub status_dot : String → Html Click
status_dot tone =
    el "span" (class_name ("status-dot status-" & tone) ∷ attr "aria-hidden" "true" ∷ []) nothing

unfoldable pub data_pill : Html Click → Html Click
data_pill children =
    el "span"
      (class_name
          "rounded border border-white/10 bg-white/[0.035] px-2 py-1 font-mono text-[10px] tracking-[0.08em] text-stone-400"
        ∷ [])
      children

unfoldable pub metric : String → String → String → Html Click
metric value label tone =
    el "div"
      (class_name "border-b border-r border-white/[0.06] p-5 last:border-r-0 lg:border-b-0" ∷ [])
      (el "p"
          (class_name ("font-mono text-2xl font-semibold tracking-[-0.04em] metric-" & tone) ∷ [])
          (text_node value)
        ⊕ el "p" (class_name "mt-2 text-[10px] uppercase tracking-[0.12em] text-stone-600" ∷ [])
            (text_node label))

unfoldable pub evidence_stat : String → String → Html Click
evidence_stat label value =
    el "div" (class_name "border border-white/[0.06] bg-white/[0.02] p-3" ∷ []) (
      el "p" (class_name "font-mono text-sm font-semibold text-orange-100" ∷ []) (text_node value)
      ⊕ el "p" (class_name "mt-1 text-[8px] uppercase tracking-[0.12em] text-stone-600" ∷ [])
          (text_node label))

unfoldable pub evidence_link : String → String → Html Click
evidence_link href label =
    el "a"
      (attr "href" href
        ∷ flag "download" true
        ∷ class_name
            "flex items-center justify-between border border-white/[0.07] bg-white/[0.02] px-3 py-2 font-mono text-[10px] text-stone-400 transition-colors hover:border-orange-300/20 hover:text-orange-200"
        ∷ [])
      (el "span" [] (text_node label) ⊕ el "ChevronRight" (class_name "size-3" ∷ []) nothing)
