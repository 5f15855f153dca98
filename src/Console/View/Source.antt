-- ===== src/Console/View/Source.antt =====
-- The page of the source release: `SourceView` of apps/web/components/mission-console.tsx.

use shiftzero_hero.Common.{String, List, [], ◌∷◌}
use shiftzero_hero.Html.{Html, nothing, text_node, el, ◌⊕◌, class_name, attr, each}
use shiftzero_hero.Console.Replay.{Click}
use shiftzero_hero.Console.View.Parts.{evidence_link}

abbrev required_files : List String
required_files =
    "README.md + LICENSE" ∷ "PRE_EXISTING_WORK.md" ∷ "SECURITY.md + THIRD_PARTY_NOTICES.md"
    ∷ "docker-compose.yml + Dockerfile" ∷ "apps / services / adapters / schemas / scenarios / tests"
    ∷ "Evidence Bundle with reproducibility hashes" ∷ []

unfoldable pub source_view : Html Click
source_view = el "div" (class_name "mx-auto max-w-[1100px] px-4 py-10 sm:px-6 lg:px-8" ∷ []) (
    el "div" (class_name "mb-8" ∷ []) (
      el "div"
        (class_name "mb-3 font-mono text-[10px] uppercase tracking-[0.18em] text-orange-300" ∷ [])
        (text_node "GitHub / source release gate")
      ⊕ el "h1" (class_name "text-3xl font-semibold tracking-[-0.03em] text-white sm:text-4xl" ∷ [])
          (text_node "Source is public."
            ⊕ text_node " "
            ⊕ el "span" (class_name "text-emerald-200" ∷ [])
                (text_node "Release boundary verified."))
      ⊕ el "p" (class_name "mt-4 max-w-3xl text-sm leading-6 text-stone-400" ∷ []) (
          text_node
            "The local repository contains the required public boundary, build instructions, licenses, disclosures, schemas, simulator and evidence. GitHub reports public visibility on the main branch, and the captured receipt binds the public remote to a verified immutable commit."))
    ⊕ el "div" (class_name "grid gap-4 lg:grid-cols-[1fr_.7fr]" ∷ []) (
        el "Card" (class_name "rounded-lg border-white/[0.09] bg-[#261911] shadow-none" ∷ []) (
          el "CardHeader" (class_name "border-b border-white/[0.06] px-5 py-4" ∷ []) (
            el "CardTitle" (class_name "flex items-center gap-2 text-xs text-white" ∷ []) (
              el "GitBranch" (class_name "size-4 text-orange-200" ∷ []) nothing
              ⊕ text_node " Repository checklist"))
          ⊕ el "CardContent" (class_name "space-y-3 p-5" ∷ []) (
              each
                (λ file.
                  el "div" (class_name "flex items-center gap-3 text-xs text-stone-300" ∷ []) (
                    el "Check" (class_name "size-4 shrink-0 text-emerald-300" ∷ []) nothing
                    ⊕ text_node " "
                    ⊕ text_node file))
                required_files))
        ⊕ el "Card"
            (class_name "rounded-lg border-emerald-300/20 bg-emerald-300/[0.035] shadow-none" ∷ [])
            (el "CardContent" (class_name "p-6" ∷ []) (
              el "GitBranch" (class_name "mb-4 size-6 text-emerald-200" ∷ []) nothing
              ⊕ el "p" (class_name "text-sm font-semibold text-white" ∷ [])
                  (text_node "Public GitHub repository")
              ⊕ el "p" (class_name "mt-2 text-xs leading-5 text-stone-400" ∷ []) (
                  text_node
                    "Source, reproducibility instructions and evidence are available on the public main branch. Repository and commit reachability were independently checked before this release receipt was generated.")
              ⊕ el "a"
                  (attr "href" "https://github.com/shibaraven/shiftzero-hero-002"
                    ∷ attr "target" "_blank"
                    ∷ attr "rel" "noreferrer"
                    ∷ class_name
                        "mt-4 inline-flex text-xs font-medium text-orange-200 underline decoration-orange-300/30 underline-offset-4 hover:text-orange-100"
                    ∷ [])
                  (text_node "github.com/shibaraven/shiftzero-hero-002")
              ⊕ el "Badge"
                  (attr "variant" "outline"
                    ∷ class_name
                        "mt-5 border-emerald-300/20 bg-emerald-300/[0.06] font-mono text-[9px] text-emerald-200"
                    ∷ [])
                  (text_node "PUBLIC · MAIN · VERIFIED")
              ⊕ el "div" (class_name "mt-3" ∷ [])
                  (evidence_link "/data/public-repository.json" "public-repository.json")))))
