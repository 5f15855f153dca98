-- ===== src/FieldTest/Verdicts.antt =====
-- What the page of apps/web/components/field-test-simulator.tsx says of a run.
use text.Mathlib.Text.{◌==◌ as str_eq}
use shiftzero_hero.Common.{leb, String, ◌&&◌, ◌≡◌, refl, Bool, true, false, not, ◌||◌, arith, show}
use shiftzero_hero.Html.{Html, nothing, text_node, el, ◌⊕◌, shows}
use shiftzero_hero.FieldTest.Schedule.{is_completed, is_disconnected}
use shiftzero_hero.FieldTest.Session.{Session, phase, a06_simulation_passed, a07_simulation_passed}
use shiftzero_hero.FieldTest.View.Parts.{gate_status, control_row}
use shiftzero_hero.FieldTest.View.Controls.{controls_card}

-- The paragraph says this text.
abbrev says : {A : Type 0} → String → Html A → Bool
says t (el tag attrs (text_node u)) = str_eq tag "p" && str_eq u t
says t _ = false

-- A paragraph with the text stands right after a part of the page that shows the label.
abbrev pub labelled : {A : Type 0} → String → String → Html A → Bool
labelled label t nothing = false
labelled label t (text_node u) = false
labelled label t (el tag attrs body) = labelled label t body
labelled label t (x ⊕ y) = (shows label x && says t y) || (labelled label t x || labelled label t y)

-- What the card shows, by the two verdicts.
abbrev Texts : Session → Type 0
Texts s =
    (shows "SIMULATION PASS" (controls_card s)
      ≡ (a06_simulation_passed s || a07_simulation_passed s))
    × (shows "NOT RUN" (controls_card s)
        ≡ (not (a06_simulation_passed s) || not (a07_simulation_passed s)))
    × (labelled "A06 simulation" "SIMULATION PASS" (controls_card s) ≡ a06_simulation_passed s)
    × (labelled "A06 simulation" "NOT RUN" (controls_card s) ≡ not (a06_simulation_passed s))
    × (labelled "A07 simulation" "SIMULATION PASS" (controls_card s) ≡ a07_simulation_passed s)
    × (labelled "A07 simulation" "NOT RUN" (controls_card s) ≡ not (a07_simulation_passed s))

texts_at :
    (s : Session) (mode a06 a07 : Bool)
    → is_disconnected s.cloud_mode ≡ mode
    → a06_simulation_passed s ≡ a06
    → a07_simulation_passed s ≡ a07
    → Texts s
unfolding controls_card gate_status control_row show
texts_at s true true true m p q = rw (m, p, q) (refl, refl, refl, refl, refl, refl)
texts_at s true true false m p q = rw (m, p, q) (refl, refl, refl, refl, refl, refl)
texts_at s true false true m p q = rw (m, p, q) (refl, refl, refl, refl, refl, refl)
texts_at s true false false m p q = rw (m, p, q) (refl, refl, refl, refl, refl, refl)
texts_at s false true true m p q = rw (m, p, q) (refl, refl, refl, refl, refl, refl)
texts_at s false true false m p q = rw (m, p, q) (refl, refl, refl, refl, refl, refl)
texts_at s false false true m p q = rw (m, p, q) (refl, refl, refl, refl, refl, refl)
texts_at s false false false m p q = rw (m, p, q) (refl, refl, refl, refl, refl, refl)

texts : (s : Session) → Texts s
texts s = texts_at s _ _ _ refl refl refl

-- The end of the run, a stop within 200 ms, and a cloud that was disconnected.
abbrev pub a06_holds : Session → Bool
a06_holds s = is_completed (phase s) && (leb s.stop_latency_ms 200 && is_disconnected s.cloud_mode)

-- The card of the lab shows each of the two verdicts at the gate it belongs to: A06 as passed
-- exactly if its run is completed, the stop took at most 200 ms and the cloud was disconnected,
-- A07 as passed exactly if the run is completed, and as not run otherwise. It shows a pass at all
-- exactly if the run is completed, and a verdict as not run exactly if A06 does not hold.
pub controls_card-shows :
    (s : Session)
    → (labelled "A06 simulation" "SIMULATION PASS" (controls_card s) ≡ a06_holds s)
      × (labelled "A06 simulation" "NOT RUN" (controls_card s) ≡ not (a06_holds s))
      × (labelled "A07 simulation" "SIMULATION PASS" (controls_card s) ≡ is_completed (phase s))
      × (labelled "A07 simulation" "NOT RUN" (controls_card s) ≡ not (is_completed (phase s)))
      × (shows "SIMULATION PASS" (controls_card s) ≡ is_completed (phase s))
      × (shows "NOT RUN" (controls_card s) ≡ not (a06_holds s))
unfolding a06_simulation_passed a07_simulation_passed
controls_card-shows s =
    let t = texts s in
    (
      ground (arith, t),
      ground (arith, t),
      ground (arith, t),
      ground (arith, t),
      ground (arith, t),
      ground (arith, t),
    )
