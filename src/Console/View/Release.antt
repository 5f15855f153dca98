-- ===== src/Console/View/Release.antt =====
-- The head of the evidence page, the release ledger and the way to the lab: `EvidenceView` of
-- apps/web/components/mission-console.tsx.
use mathlib.Core.Option
use shiftzero_hero.Common.{
  ◌&◌, Bool, true, false, Option, some, [], ◌∷◌, if◌then◌else◌, length, show,
}
use shiftzero_hero.Html.{
  Html, nothing, text_node, el, ◌⊕◌, class_name, attr, flag, on_click, each, from_option,
}
use shiftzero_hero.Console.Documents.{
  ReleaseItem, passed, external_evidence_required, ItemStatus, ReleaseAcceptance,
}
use shiftzero_hero.Console.Timeline.{field_test}
use shiftzero_hero.Console.Replay.{Click, on_view}
use shiftzero_hero.Console.View.Parts.{class_names}

-- `item.status === 'passed'` and `item.status === 'external_evidence_required'`
abbrev pub is_passed : ItemStatus → Bool
is_passed passed = true
is_passed _ = false

abbrev pub is_external : ItemStatus → Bool
is_external external_evidence_required = true
is_external _ = false

unfoldable pub evidence_header : Html Click
evidence_header =
    el "div" (class_name "mb-9 flex flex-col justify-between gap-5 lg:flex-row lg:items-end" ∷ []) (
      el "div" [] (
        el "div"
          (class_name "mb-3 font-mono text-[10px] uppercase tracking-[0.18em] text-emerald-300"
            ∷ [])
          (text_node "Evidence / reference simulator")
        ⊕ el "h1"
            (class_name "text-3xl font-semibold tracking-[-0.03em] text-white sm:text-4xl" ∷ [])
            (text_node "100 scenarios."
              ⊕ text_node " "
              ⊕ el "span" (class_name "text-emerald-200" ∷ []) (text_node "Zero silent failures."))
        ⊕ el "p" (class_name "mt-4 max-w-2xl text-sm leading-6 text-stone-400" ∷ []) (
            text_node
              "A deterministic, reproducible offline suite spanning nominal delivery and five safety-critical edge-case families."))
      ⊕ el "a" (attr "href" "/data/evidence-bundle.zip" ∷ flag "download" true ∷ []) (
          el "Button"
            (attr "variant" "outline"
              ∷ class_name
                  "rounded-md border-emerald-300/25 bg-emerald-300/[0.06] text-emerald-100 hover:bg-emerald-300/[0.12]"
              ∷ [])
            (el "Download" (class_name "size-4" ∷ []) nothing
              ⊕ text_node "Download evidence bundle")))

unfoldable pub release_row : ReleaseItem → Html Click
release_row item =
    el "div"
      (class_name (
          class_names (
            some "rounded-md border p-3"
            ∷ some (
                if is_passed item.status
                then "border-emerald-300/15 bg-emerald-300/[0.035]"
                else (if is_external item.status
                    then "border-amber-300/15 bg-amber-300/[0.035]"
                    else "border-rose-300/15 bg-rose-300/[0.035]"))
            ∷ []))
        ∷ [])
      (el "div" (class_name "flex items-center justify-between gap-2" ∷ []) (
          el "span"
            (class_name (
                class_names (
                  some "font-mono text-[11px] font-bold"
                  ∷ some (
                      if is_passed item.status
                      then "text-emerald-200"
                      else (if is_external item.status then "text-amber-200" else "text-rose-200"))
                  ∷ []))
              ∷ [])
            (text_node item.id)
          ⊕ el "span"
              (class_name "font-mono text-[8px] uppercase tracking-[0.08em] text-stone-600" ∷ [])
              (text_node (
                if is_passed item.status
                then "PASS"
                else (if is_external item.status then "ONSITE / OWNER" else "FAIL"))))
        ⊕ el "p" (class_name "mt-2 text-[10px] leading-4 text-stone-400" ∷ [])
            (text_node item.requirement)
        ⊕ el "p" (class_name "mt-2 text-[9px] leading-4 text-stone-600" ∷ [])
            (text_node item.detail))

unfoldable pub release_card : Option ReleaseAcceptance → Html Click
release_card release_acceptance =
    el "Card"
      (class_name "mb-4 rounded-lg border-orange-300/20 bg-orange-300/[0.035] shadow-none" ∷ [])
      (el "CardHeader" (class_name "border-b border-orange-300/10 px-5 py-4" ∷ []) (
          el "CardTitle"
            (class_name "flex flex-wrap items-center justify-between gap-3 text-xs text-white" ∷ [])
            (el "span" (class_name "flex items-center gap-2" ∷ []) (
                el "FileCheck2" (class_name "size-4 text-orange-200" ∷ []) nothing
                ⊕ text_node "PDF release acceptance · A01–A12")
              ⊕ el "span" (class_name "flex flex-wrap items-center gap-2" ∷ []) (
                  el "Badge"
                    (class_name
                        "rounded-sm border border-emerald-300/25 bg-emerald-300/[0.08] font-mono text-[8px] text-emerald-200"
                      ∷ [])
                    (text_node (
                      from_option "LOADING"
                        (λ release_acceptance.
                          ((show release_acceptance.passed_count)
                            & ("/" & ((show release_acceptance.total_count) & " EVIDENCE PASS"))))
                        release_acceptance))
                  ⊕ el "Badge"
                      (class_name
                          "rounded-sm border border-amber-300/25 bg-amber-300/[0.08] font-mono text-[8px] text-amber-200"
                        ∷ [])
                      (text_node (
                        from_option "VERIFYING"
                          (λ release_acceptance.
                            ((show (length release_acceptance.blocked_external_ids))
                              & " EXTERNAL GATES"))
                          release_acceptance)))))
        ⊕ el "CardContent" (class_name "p-5" ∷ []) (
            el "div" (class_name "grid gap-2 sm:grid-cols-2 lg:grid-cols-3 xl:grid-cols-4" ∷ []) (
              from_option
                (el "p" (class_name "col-span-full py-6 text-center text-xs text-stone-600" ∷ [])
                  (text_node "Loading the signed acceptance ledger…"))
                (λ items. each release_row items) (Option.map (λ v. v.items) release_acceptance))
            ⊕ el "div"
                (class_name
                    "mt-4 flex flex-col justify-between gap-3 border-t border-white/[0.06] pt-4 sm:flex-row sm:items-center"
                  ∷ [])
                (el "p" (class_name "max-w-3xl text-[10px] leading-5 text-stone-500" ∷ []) (
                    text_node
                      "This matrix audits the stricter internal PDF, where A06/A07 remain physical-only. The official competition separately permits a no-hardware Digital Twin demonstration; the card below records that submission path without inventing a physical claim.")
                  ⊕ el "a" (attr "href" "/data/release-acceptance.json" ∷ flag "download" true ∷ [])
                      (el "Button"
                        (attr "size" "sm"
                          ∷ attr "variant" "outline"
                          ∷ class_name
                              "rounded-md border-orange-300/20 bg-orange-300/[0.04] text-orange-100 hover:bg-orange-300/[0.1]"
                          ∷ [])
                        (el "Download" (class_name "size-4" ∷ []) nothing
                          ⊕ text_node " Download A01–A12 report")))))

unfoldable pub lab_card : Html Click
lab_card =
    el "Card"
      (class_name "mb-4 rounded-lg border-amber-300/20 bg-amber-300/[0.035] shadow-none" ∷ [])
      (el "CardHeader" (class_name "border-b border-amber-300/10 px-5 py-4" ∷ []) (
          el "CardTitle"
            (class_name "flex flex-wrap items-center justify-between gap-3 text-xs text-white" ∷ [])
            (el "span" (class_name "flex items-center gap-2" ∷ []) (
                el "MapPinned" (class_name "size-4 text-amber-200" ∷ []) nothing
                ⊕ text_node "A06/A07 Digital Twin evidence")
              ⊕ el "span" (class_name "flex flex-wrap gap-2" ∷ []) (
                  el "Badge"
                    (class_name
                        "rounded-sm border border-amber-300/25 bg-amber-300/[0.08] font-mono text-[8px] text-amber-200"
                      ∷ [])
                    (text_node "OFFICIAL NO-HARDWARE PATH")
                  ⊕ el "Badge"
                      (class_name
                          "rounded-sm border border-emerald-300/25 bg-emerald-300/[0.08] font-mono text-[8px] text-emerald-200"
                        ∷ [])
                      (text_node "A06/A07 SIMULATION READY"))))
        ⊕ el "CardContent"
            (class_name "flex flex-col justify-between gap-4 p-5 lg:flex-row lg:items-center" ∷ [])
            (el "div" [] (
                el "p" (class_name "max-w-3xl text-xs leading-6 text-stone-400" ∷ []) (
                  text_node
                    "Run nine-AGV traffic in 2D/isometric views, disconnect the simulated cloud path before obstacle detection, prove a synthetic local stop at or below 200 ms, and continue through verified replan, resume, completion and final pose. One correlation ID binds the downloadable timeline.")
                ⊕ el "p" (class_name "mt-2 font-mono text-[9px] text-stone-600" ∷ []) (
                    text_node
                      "DIGITAL TWIN / SIMULATION · NO PHYSICAL HARDWARE OR PERFORMANCE CLAIM")
                ⊕ el "a"
                    (attr "href" "/data/a06-a07-simulation-validation.json"
                      ∷ flag "download" true
                      ∷ class_name
                          "mt-3 inline-flex text-[10px] text-emerald-200 underline decoration-emerald-300/30 underline-offset-4"
                      ∷ [])
                    (text_node "Download hash-bound reference result"))
              ⊕ el "Button"
                  (on_click (on_view field_test)
                    ∷ class_name "rounded-md bg-amber-200 px-4 text-[#151006] hover:bg-amber-100"
                    ∷ [])
                  (text_node "Open Digital Twin lab "
                    ⊕ el "ChevronRight" (class_name "size-4" ∷ []) nothing)))
