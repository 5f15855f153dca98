-- ===== src/FieldTest/Blockage.antt =====
-- The button that injects the obstacle: `injectBlockage` of
-- apps/web/components/field-test-simulator.tsx.
use shiftzero_hero.Common.{ℕ, ◌<◌, String, ◌≡◌, refl, true, arith}
use shiftzero_hero.Numbers.{Numbers}
use shiftzero_hero.Html.{Offers}
use shiftzero_hero.FieldTest.Schedule.{sensor_detected, detect_at_ms, phase_at}
use shiftzero_hero.FieldTest.Session.{Session, phase, perform, on_inject_blockage, inject_blockage}
use shiftzero_hero.FieldTest.View.{field_test_simulator}
use shiftzero_hero.FieldTest.Clicks.{field_test_simulator-Offers_iff}
use shiftzero_hero.FieldTest.Lifecycle.{Reach, Reach-Inv}

detected : (l : ℕ) → 0 < l → phase_at detect_at_ms true l ≡ sensor_detected
unfolding phase_at
detected l h = ground arith

clock :
    (s : Session) (now : String)
    → s.elapsed_ms < detect_at_ms
    → (perform now on_inject_blockage s).elapsed_ms ≡ detect_at_ms
unfolding perform inject_blockage
clock s now early = ground arith

started : (s : Session) (now : String) → (perform now on_inject_blockage s).started ≡ true
unfolding perform inject_blockage
started s now = ground arith

same_latency :
    (s : Session) (now : String)
    → (perform now on_inject_blockage s).stop_latency_ms ≡ s.stop_latency_ms
unfolding perform inject_blockage
same_latency s now = ground arith

runs : (s : Session) (now : String) → (perform now on_inject_blockage s).running ≡ true
unfolding perform inject_blockage
runs s now = refl

-- In every reachable state whose page offers the button that injects the obstacle, a click on it
-- leads to SENSOR_DETECTED, with the clock at the instant of the detection and running.
pub perform-sensor_detected :
    (N : Numbers) {s : Session} (now : String)
    → Reach N s
    → Offers on_inject_blockage (field_test_simulator N s)
    → (phase (perform now on_inject_blockage s) ≡ sensor_detected)
      × ((perform now on_inject_blockage s).elapsed_ms ≡ detect_at_ms)
      × ((perform now on_inject_blockage s).running ≡ true)
perform-sensor_detected N {s} now r offered =
    let on = (field_test_simulator-Offers_iff N s on_inject_blockage).0 offered in
    let at = clock s now (ground (arith, on)) in
    let v = Reach-Inv N r in
    (
      rw (at, started s now, same_latency s now)
          (detected s.stop_latency_ms (ground (arith, v.latency))),
      at,
      runs s now,
    )
