-- ===== src/FieldTest/View.antt =====
-- The page of the lab: what `FieldTestSimulator` of apps/web/components/field-test-simulator.tsx
-- returns.
pub mod Parts
pub mod Controls
pub mod Vehicles
pub mod Map
pub mod Log
use shiftzero_hero.Common.{[], ◌∷◌}
use shiftzero_hero.Numbers.{Numbers}
use shiftzero_hero.Html.{Html, el, ◌⊕◌, class_name}
use shiftzero_hero.FieldTest.Session.{Session, Action}
use Controls.{page_header, controls_card}
use Map.{map_card}
use Log.{log_card, scope_card}

unfoldable pub field_test_simulator : Numbers → Session → Html Action
field_test_simulator N s =
    el "div" (class_name "mx-auto max-w-[1500px] px-4 py-8 sm:px-6 lg:px-8" ∷ []) (
      page_header s
      ⊕ el "div" (class_name "grid gap-4 xl:grid-cols-[minmax(0,1.65fr)_minmax(330px,0.75fr)]" ∷ [])
          (map_card N s ⊕ el "div" (class_name "space-y-4" ∷ []) (controls_card s ⊕ log_card s))
      ⊕ scope_card)
