-- ===== src/Console/Clicks/Buttons.antt =====
-- The buttons of the console, each in the part of the page of
-- apps/web/components/mission-console.tsx that has it.

use shiftzero_hero.Common.{◌≡◌, Bool, false, Option, arith}
use shiftzero_hero.Html.{Offers}
use shiftzero_hero.Console.Documents.{LiveGateEvidence}
use shiftzero_hero.Console.Timeline.{View, mission, architecture, evidence, field_test, source}
use shiftzero_hero.Console.Replay.{
  Decision, approved, rejected, stopped, on_view, on_run, on_control,
}
use shiftzero_hero.Console.View.Frame.{same_view, top_bar, small_nav}
use shiftzero_hero.Console.View.Mission.{replay_controls}
use shiftzero_hero.Console.View.Architecture.{architecture_view}
use shiftzero_hero.Console.View.Release.{lab_card}

pub run_button :
    (view : View) (running : Bool)
    → running ≡ false
    → {F : Type 0} (g : Option (LiveGateEvidence F)) → Offers on_run (top_bar view running g)
unfolding top_bar
run_button view running idle g = ground arith

pub layers_button : Offers on_run architecture_view
unfolding architecture_view
layers_button = ground arith

pub control_button : (d : Decision) → Offers (on_control d) replay_controls
unfolding replay_controls
control_button approved = ground arith
control_button rejected = ground arith
control_button stopped = ground arith

pub lab_button : Offers (on_view field_test) lab_card
unfolding lab_card
lab_button = ground arith

pub view_button :
    (view v : View) → same_view v field_test ≡ false → Offers (on_view v) (small_nav view)
unfolding small_nav
view_button view mission h = ground arith
view_button view architecture h = ground arith
view_button view evidence h = ground arith
view_button view source h = ground arith
view_button view field_test h = absurd (ground arith)
