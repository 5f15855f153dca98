-- ===== src/FieldTest/View/Log.antt =====
-- The event timeline and the scope card of apps/web/components/field-test-simulator.tsx.
use shiftzero_hero.Common.{ℕ, ◌+◌, String, Bool, true, false, List, [], ◌∷◌, if◌then◌else◌, show}
use shiftzero_hero.Html.{Html, nothing, text_node, el, ◌⊕◌, class_name, attr, each_from}
use shiftzero_hero.FieldTest.Schedule.{SimulationEvent, visible_events}
use shiftzero_hero.FieldTest.Session.{Session, Action, events}

-- `visibleEvents`
abbrev pub visible : Session → List SimulationEvent
visible s = visible_events (events s) s.elapsed_ms s.started

abbrev is_empty {ℓ} : {A : Type ℓ} → List A → Bool
is_empty [] = true
is_empty (_ ∷ _) = false

abbrev pub physical_stretch_checklist : List String
physical_stretch_checklist =
    "Clock-sync AGV, edge controller, sensor and recorder (≤20 ms skew)"
    ∷ "Record one continuous, uncut physical-test video with visible UTC clock"
    ∷ "Export raw sensor capture, AGV telemetry and MQTT/VDA 5050 trace"
    ∷ "Prove filtered obstacle → stationary AGV ≤200 ms without cloud dependency"
    ∷ "Capture changed route version, resumed mission and final x/y/heading pose"
    ∷ "Hash all four artifacts and obtain the safety-owner attestation" ∷ []

unfoldable pub log_row : ℕ → SimulationEvent → Html Action
log_row index event =
    el "div" (class_name "rounded-md border border-white/[0.06] bg-[#1d130e] p-3" ∷ []) (
      el "div" (class_name "flex items-center justify-between gap-3" ∷ []) (
        el "span" (class_name "font-mono text-[10px] text-orange-200" ∷ []) (text_node event.kind)
        ⊕ el "span" (class_name "font-mono text-[9px] text-stone-600" ∷ [])
            (text_node "+" ⊕ text_node (show event.at_ms) ⊕ text_node " ms"))
      ⊕ el "p" (class_name "mt-1 text-[10px] leading-4 text-stone-500" ∷ [])
          (text_node event.detail)
      ⊕ el "p" (class_name "mt-1 font-mono text-[8px] text-stone-700" ∷ [])
          (text_node event.source ⊕ text_node " · SIM-A06A07"))

unfoldable pub log_rows : Session → Html Action
log_rows s =
    if is_empty (visible s)
    then el "p" (class_name "px-1 py-6 text-center text-xs text-stone-600" ∷ [])
        (text_node "Run the rehearsal to emit synthetic events.")
    else each_from log_row 0 (visible s)

unfoldable pub log_card : Session → Html Action
unfolding log_row log_rows
log_card s = el "Card" (class_name "rounded-lg border-white/[0.08] bg-[#261911] shadow-none" ∷ []) (
    el "CardHeader" (class_name "border-b border-white/[0.07] px-5 py-4" ∷ []) (
      el "CardTitle" (class_name "flex items-center gap-2 text-xs text-white" ∷ []) (
        el "CircleStop" (class_name "size-4 text-rose-200" ∷ []) nothing
        ⊕ text_node " Synthetic event timeline"))
    ⊕ el "CardContent" (class_name "max-h-[340px] space-y-2 overflow-y-auto p-4" ∷ []) (log_rows s))

unfoldable pub scope_card : Html Action
scope_card =
    el "Card"
      (class_name "mt-4 rounded-lg border-emerald-300/20 bg-emerald-300/[0.035] shadow-none" ∷ [])
      (el "CardHeader" (class_name "border-b border-emerald-300/10 px-5 py-4" ∷ []) (
          el "CardTitle"
            (class_name "flex flex-wrap items-center justify-between gap-3 text-xs text-white" ∷ [])
            (el "span" (class_name "flex items-center gap-2" ∷ []) (
                el "CheckCircle2" (class_name "size-4 text-emerald-200" ∷ []) nothing
                ⊕ text_node " Competition scope: simulation is accepted")
              ⊕ el "span" (class_name "font-mono text-[9px] text-emerald-200" ∷ [])
                  (text_node "PHYSICAL HARDWARE NOT REQUIRED")))
        ⊕ el "CardContent" (class_name "grid gap-4 p-5 xl:grid-cols-[0.8fr_1.2fr]" ∷ []) (
            el "div" (class_name "rounded-md border border-emerald-300/15 bg-[#1d130e] p-4" ∷ []) (
              el "p"
                (class_name "font-mono text-[9px] uppercase tracking-[0.14em] text-emerald-200"
                  ∷ [])
                (text_node "Submission claim")
              ⊕ el "p" (class_name "mt-3 text-xs leading-6 text-stone-400" ∷ []) (
                  text_node
                    "This lab demonstrates the key application modules for the competition's explicit no-hardware path. Use the 65-second uninterrupted simulator sequence in the demo video and keep the Digital Twin label visible.")
              ⊕ el "a"
                  (attr "href" "https://nebiusglobalaihackathon.devpost.com/rules"
                    ∷ attr "target" "_blank"
                    ∷ attr "rel" "noreferrer"
                    ∷ class_name
                        "mt-3 inline-flex text-[10px] text-emerald-200 underline decoration-emerald-300/30 underline-offset-4"
                    ∷ [])
                  (text_node "Read the official Devpost rule basis"))
            ⊕ el "div" [] (
                el "div" (class_name "mb-3 flex items-center gap-2" ∷ []) (
                  el "AlertTriangle" (class_name "size-4 text-amber-200" ∷ []) nothing
                  ⊕ el "p"
                      (class_name "font-mono text-[9px] uppercase tracking-[0.14em] text-amber-200"
                        ∷ [])
                      (text_node "Optional future physical extension"))
                ⊕ el "div" (class_name "grid gap-2 md:grid-cols-2" ∷ []) (
                    each_from
                      (λ index item.
                        el "div"
                          (class_name
                              "flex gap-3 rounded-md border border-white/[0.06] bg-[#1d130e] p-3"
                            ∷ [])
                          (el "span"
                              (class_name
                                  "flex size-6 shrink-0 items-center justify-center rounded-full border border-amber-300/20 font-mono text-[9px] text-amber-200"
                                ∷ [])
                              (text_node (show (index + 1)))
                            ⊕ el "p" (class_name "text-[11px] leading-5 text-stone-400" ∷ [])
                                (text_node item)))
                      0 physical_stretch_checklist))))
