-- ===== src/Console/Clicks.antt =====
-- Which clicks the console takes: the enabled buttons of the rendered
-- apps/web/components/mission-console.tsx.
mod Inert
mod Buttons
use mathlib.Core.Option
use shiftzero_hero.Common.{
  ℕ, zero, suc, ◌+◌, ◌<◌, ◌≡◌, refl, ◌↔◌, ◌⊎◌, inl, inr, Bool, true, false, not, ◌||◌, Option, some,
  none, List, [], ◌∷◌, arith, leb, ◌==◌, if◌then◌else◌, length, get_elem?, Option-cases, Bool-cases,
}
use shiftzero_hero.Numbers.{Numbers}
use shiftzero_hero.Html.{from_option, nothing, Html, Offers, each, each_from, each_from_inert}
use shiftzero_hero.Console.Documents.{HeroSummary, LiveGateEvidence}
use shiftzero_hero.Console.Loading.{Evidence}
use shiftzero_hero.Console.Timeline.{
  View, mission, architecture, evidence, field_test, source, TimelineItem, timeline,
  architecture_layers,
}
use shiftzero_hero.Console.Replay.{
  Decision, approved, rejected, stopped, Console, Click, on_view, on_run, on_control, active,
  blocked, complete, replanned,
}
use shiftzero_hero.Console.View.Frame.{same_view, top_bar, small_nav}
use shiftzero_hero.Console.View.Mission.{mission_header, replay_controls, mission_view}
use shiftzero_hero.Console.View.Architecture.{layer_row, architecture_view, boundary_card}
use shiftzero_hero.Console.View.Release.{lab_card}
use shiftzero_hero.Console.View.{evidence_view, page_of, page, mission_console}
use Inert.*
use Buttons.*

-- The lab opens from the evidence page; a running replay can be started again only from the page of
-- the architecture; and decisions are taken on the page of the replay.
abbrev pub enabled_at : View → Bool → Click → Bool
enabled_at view running (on_view v) = not (same_view v field_test) || same_view view evidence
enabled_at view running on_run = not running || same_view view architecture
enabled_at view running (on_control d) = same_view view mission

abbrev pub enabled : {F : Type 0} → Console F → Click → Bool
enabled c a = enabled_at c.view c.running a

found : {A : Type 0} (xs : List A) (i : ℕ) → i < length xs → (x : A) × (get_elem? xs i ≡ some x)
found [] i h = absurd (omega arith)
found (x ∷ xs) zero h = (x, refl)
found (x ∷ xs) (suc i) h = found xs i (omega arith)

active-some : {F : Type 0} (c : Console F) → (i : TimelineItem) × (active c ≡ some i)
unfolding active
active-some c = found timeline _ (omega arith)

module _ (a : Click) (running : Bool) where
  bar :
      {F : Type 0} (view : View) (g : Option (LiveGateEvidence F))
      → Offers a (top_bar view running g)
      → enabled_at view running a ≡ true
  unfolding top_bar
  bar view g h = ground arith

  nav : (view : View) → Offers a (small_nav view) → enabled_at view running a ≡ true
  unfolding small_nav
  nav view h = ground arith

  head :
      (i : TimelineItem) (done : Bool) (d : Option Decision)
      → Offers a (mission_header i done running d)
      → enabled_at mission running a ≡ true
  unfolding mission_header
  head i done d h = ground arith

  controls : Offers a replay_controls → enabled_at mission running a ≡ true
  unfolding replay_controls
  controls h = ground arith

  lab : Offers a lab_card → enabled_at evidence running a ≡ true
  unfolding lab_card
  lab h = ground arith

  layers : Offers a architecture_view → enabled_at architecture running a ≡ true
  unfolding architecture_view boundary_card
  layers h = ground (arith, each_from_inert a layer_row (layer_inert a) 0 architecture_layers)

  replay :
      (N : Numbers) (i : TimelineItem) (b c r : Bool) (n : ℕ) (d : Option Decision)
      (s : Option (HeroSummary N.Number))
      → Offers a (mission_view N i b c r n running d s)
      → enabled_at mission running a ≡ true
  unfolding mission_view
  replay N i b c r n d s h = ground (
    arith,
    head i c d,
    strip_inert a N i s,
    controls,
    map_inert a b c r,
    safety_inert a N b c r n s,
    rail_inert a n,
    brief_inert a N i c s,
    trust_inert a,
  )

  documents :
      (N : Numbers) (e : Evidence N.Number)
      → Offers a (evidence_view N e)
      → enabled_at evidence running a ≡ true
  unfolding evidence_view
  documents N e h = ground (
    arith,
    header_inert a,
    release_inert a e.release_acceptance,
    lab,
    metrics_inert a N e.scenario_metrics e.judge_load,
    gate_inert a N e.live_gate,
    receipts_inert a N e.live_runtime,
    suites_inert a,
    manifest_inert a e.hero_summary e.evidence_error,
    fixture_inert a N e.hero_summary,
    acceptance_inert a e.live_gate,
    load_inert a N e.judge_load,
    impact_inert a N e.impact_load,
    serverless_inert a e.serverless,
    final_inert a e.screenshot_evidence e.live_gate,
  )

abbrev replay_page : (N : Numbers) → Console N.Number → TimelineItem → Html Click
replay_page N c item =
    mission_view N item (blocked c) (complete c) (replanned c) c.run_step c.running c.decision
      c.evidence.hero_summary

replay_enabled :
    (N : Numbers) (c : Console N.Number) (a : Click) (o : Option TimelineItem)
    → Offers a (from_option nothing (replay_page N c) o)
    → enabled_at mission c.running a ≡ true
replay_enabled N c a none h = absurd h
replay_enabled N c a (some i) h = replay a c.running N i _ _ _ _ _ _ h

page_enabled :
    (N : Numbers) (c : Console N.Number) (a : Click) (view : View)
    → Offers a (page_of N view c)
    → enabled_at view c.running a ≡ true
unfolding page_of
page_enabled N c a mission h = replay_enabled N c a (active c) h
page_enabled N c a architecture h = layers a c.running h
page_enabled N c a evidence h = documents a c.running N c.evidence h
page_enabled N c a field_test h = ground arith
page_enabled N c a source h = absurd (source_inert a h)

page_control :
    (N : Numbers) (c : Console N.Number) (d : Decision)
    → Offers (on_control d) (page_of N mission c)
unfolding page_of mission_view
page_control N c d = let (i, shown) = active-some c in rw shown (ground (arith, control_button d))

page_lab : (N : Numbers) (e : Evidence N.Number) → Offers (on_view field_test) (evidence_view N e)
unfolding evidence_view
page_lab N e = ground (arith, lab_button)

run_again :
    (N : Numbers) (c : Console N.Number) (view : View)
    → c.running ≡ true
    → enabled_at view c.running on_run ≡ true
    → Offers on_run (page_of N view c)
unfolding page_of
run_again N c architecture busy h = layers_button
run_again N c mission busy h = absurd (ground arith)
run_again N c evidence busy h = absurd (ground arith)
run_again N c field_test busy h = absurd (ground arith)
run_again N c source busy h = absurd (ground arith)

page_button :
    (N : Numbers) (c : Console N.Number) (a : Click) (view : View)
    → enabled_at view c.running a ≡ true
    → Offers a (top_bar view c.running c.evidence.live_gate)
      ⊎ (Offers a (small_nav view) ⊎ Offers a (page_of N view c))
unfolding page_of
page_button N c on_run view h = elim (Bool-cases c.running) [
  | inl busy ↦ inr (inr (run_again N c view busy h))
  | inr idle ↦ inl (run_button view c.running idle c.evidence.live_gate)
]
page_button N c (on_control d) mission h = inr (inr (page_control N c d))
page_button N c (on_control d) view h = absurd (ground arith)
page_button N c (on_view field_test) evidence h = inr (inr (page_lab N c.evidence))
page_button N c (on_view field_test) view h = absurd (ground arith)
page_button N c (on_view v) view h = inr (inl (view_button view v (ground arith)))

-- An enabled button of the rendered console offers a click exactly when its table of conditions
-- says so, in every state and for any documents: the lab opens from the evidence page, decisions
-- are taken on the replay page, and a running replay starts again only from the page of the
-- architecture.
pub mission_console-Offers_iff :
    (N : Numbers) (c : Console N.Number) (a : Click)
    → Offers a (mission_console N c) ↔ (enabled c a ≡ true)
unfolding mission_console page
mission_console-Offers_iff N c a = (
  λ h. ground (
    arith,
    badge_inert a c.evidence.hero_summary,
    bar a c.running c.view c.evidence.live_gate,
    status_inert a c.evidence.hero_summary c.evidence.evidence_error,
    nav a c.running c.view,
    page_enabled N c a c.view,
  ),
  λ e. ground (arith, page_button N c a c.view e),
)
