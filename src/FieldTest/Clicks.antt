-- ===== src/FieldTest/Clicks.antt =====
-- Which clicks the page of the lab takes: the enabled buttons of the rendered
-- apps/web/components/field-test-simulator.tsx.
use shiftzero_hero.Common.{
  ℕ, Bool, true, not, ◌&&◌, ◌||◌, ◌≡◌, refl, ◌↔◌, ◌⊎◌, inl, inr, arith, leb, ◌==◌, Option-cases,
}
use shiftzero_hero.Numbers.{Numbers}
use shiftzero_hero.Html.{each_from_inert, Offers}
use shiftzero_hero.FieldTest.Schedule.{
  disconnected_before_obstacle, connected, is_completed, detect_at_ms, SimulationEvent,
}
use shiftzero_hero.FieldTest.Motion.{traffic_position}
use shiftzero_hero.FieldTest.Session.{
  Session, MapMode, Action, on_back, on_start_or_pause, on_inject_blockage, on_reset, on_export,
  on_map_mode, on_speed, on_stop_latency, on_cloud_mode, phase, flat, isometric,
}
use shiftzero_hero.FieldTest.View.{field_test_simulator}
use shiftzero_hero.FieldTest.View.Controls.{page_header, controls_card}
use shiftzero_hero.FieldTest.View.Vehicles.{traffic_vehicle, hero_vehicle}
use shiftzero_hero.FieldTest.View.Map.{map_card, warehouse_map, phase_strip}
use shiftzero_hero.FieldTest.View.Log.{log_card, log_row, log_rows, scope_card, visible}

-- When the button of an action is there and not disabled.
abbrev pub enabled : Session → Action → Bool
enabled s on_back = true
enabled s on_start_or_pause = not (is_completed (phase s))
enabled s on_inject_blockage = not (is_completed (phase s) || leb detect_at_ms s.elapsed_ms)
enabled s on_reset = true
enabled s on_export = is_completed (phase s)
enabled s (on_map_mode mode) = true
enabled s (on_speed value) = value == 1 || (value == 2 || value == 4)
enabled s (on_stop_latency value) = not s.started && (value == 84 || (value == 150 || value == 240))
enabled s (on_cloud_mode mode) = not s.started

header : (s : Session) (a : Action) → Offers a (page_header s) → enabled s a ≡ true
unfolding page_header
header s a h = ground arith

controls : (s : Session) (a : Action) → Offers a (controls_card s) → enabled s a ≡ true
unfolding controls_card
controls s a h = ground arith

scope_inert : (a : Action) → Offers a scope_card → ⊥
unfolding scope_card
scope_inert a h = ground arith

strip_inert : (N : Numbers) (s : Session) (a : Action) → Offers a (phase_strip N s) → ⊥
unfolding phase_strip
strip_inert N s a h = ground arith

traffic_inert : (N : Numbers) (e i : ℕ) (a : Action) → Offers a (traffic_vehicle N e i) → ⊥
unfolding traffic_vehicle
traffic_inert N e i a h = ground (arith, Option-cases (traffic_position N e i))

hero_inert : (N : Numbers) (s : Session) (a : Action) → Offers a (hero_vehicle N s) → ⊥
unfolding hero_vehicle
hero_inert N s a h = ground arith

warehouse_inert : (N : Numbers) (s : Session) (a : Action) → Offers a (warehouse_map N s) → ⊥
unfolding warehouse_map
warehouse_inert N s a h = ground arith

map : (N : Numbers) (s : Session) (a : Action) → Offers a (map_card N s) → enabled s a ≡ true
unfolding map_card
map N s a h = ground arith

row_inert : (a : Action) (n : ℕ) (event : SimulationEvent) → Offers a (log_row n event) → ⊥
unfolding log_row
row_inert a n event h = ground arith

-- `log_row` stays shut.
log_rows_inert : (s : Session) (a : Action) → Offers a (log_rows s) → ⊥
unfolding log_rows
log_rows_inert s a h = ground (arith, each_from_inert a log_row (row_inert a) 0 (visible s))

log_inert : (s : Session) (a : Action) → Offers a (log_card s) → ⊥
unfolding log_card
log_inert s a h = ground (arith, log_rows_inert s a)

button :
    (s : Session) (a : Action)
    → enabled s a ≡ true
    → Offers a (page_header s)
      ⊎ (Offers a (controls_card s) ⊎ ((mode : MapMode) × (a ≡ on_map_mode mode)))
unfolding page_header controls_card
button s on_start_or_pause h = ground arith
button s (on_cloud_mode disconnected_before_obstacle) h = ground arith
button s (on_cloud_mode connected) h = ground arith
button s (on_map_mode mode) h = inr (inr (mode, refl))
button s on_back h = ground arith
button s on_inject_blockage h = ground arith
button s on_reset h = ground arith
button s on_export h = ground arith
button s (on_speed value) h = ground arith
button s (on_stop_latency value) h = ground arith

map_button : (N : Numbers) (s : Session) (mode : MapMode) → Offers (on_map_mode mode) (map_card N s)
unfolding map_card
map_button N s flat = ground arith
map_button N s isometric = ground arith

-- An action is offered by an enabled button of the rendered page exactly when its table of
-- conditions says so, in every state and for any numbers.
pub field_test_simulator-Offers_iff :
    (N : Numbers) (s : Session) (a : Action)
    → Offers a (field_test_simulator N s) ↔ (enabled s a ≡ true)
unfolding field_test_simulator
field_test_simulator-Offers_iff N s a = (
  λ h. ground (arith, header s a, map N s a, controls s a, log_inert s a, scope_inert a),
  λ e. elim (button s a e) [
    | inl h ↦ inr (inl h)
    | inr rest ↦ elim rest [
      | inl h ↦ ground arith
      | inr (mode, same) ↦ ground (arith, map_button N s mode)
    ]
  ],
)
