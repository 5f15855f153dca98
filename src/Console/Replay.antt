-- ===== src/Console/Replay.antt =====
-- The state of the console, its replay and its interval timer: `MissionConsole` of
-- apps/web/components/mission-console.tsx. The browser keeps the intervals that are live; the
-- component keeps the number of the last one that it made.
use shiftzero_hero.Common.{
  ℕ, suc, ◌-◌, Bool, true, false, not, Option, none, some, List, [], ◌∷◌, leb, ◌==◌, if◌then◌else◌,
  length, get_elem?, filter, min,
}
use shiftzero_hero.Html.{from_option}
use shiftzero_hero.Console.Loading.{Evidence, no_evidence}
use shiftzero_hero.Console.Timeline.{
  View, mission, TimelineItem, timeline, index_of_state, index_of_event,
}

-- `Exclude<ReplayDecision, null>`
pub data Decision : Type 0 where
  approved rejected stopped : Decision

-- A live interval with the counter `next` that its callback closes over.
pub record Interval : Type 0 where
  pub id : ℕ
  pub next : ℕ

pub record Console (F : Type 0) : Type 0 where
  pub view : View
  pub run_step : ℕ
  pub running : Bool
  pub decision : Option Decision
  pub evidence : Evidence F
  pub timer_ref : Option ℕ
  pub intervals : List Interval
  pub next_id : ℕ

-- `timeline.length - 1`
abbrev pub last_step : ℕ
last_step = length timeline - 1

-- `next += 1` in the interval of this number.
abbrev pub count_up : ℕ → List Interval → List Interval
count_up id [] = []
count_up id (t ∷ rest) =
    (if t.id == id then record t { next = suc t.next } else t) ∷ count_up id rest

-- The step of the timeline that a decision shows. All three are found.
unfoldable pub decision_step : Decision → ℕ
decision_step approved = from_option 0 (λ i. i) (index_of_state "APPROVED")
decision_step stopped = from_option 0 (λ i. i) (index_of_event "execution.local_stop")
decision_step rejected = from_option 0 (λ i. i) (index_of_state "VERIFIED")

module _ {F : Type 0} where
  unfoldable pub initial : Console F
  initial = record {
    view = mission;
    run_step = last_step;
    running = false;
    decision = none;
    evidence = no_evidence;
    timer_ref = none;
    intervals = [];
    next_id = 1;
  }

  -- `if (timerRef.current) clearInterval(timerRef.current)`; numbers of intervals are not 0.
  abbrev pub clear_timer : Console F → Console F
  clear_timer c = record c {
    intervals =
        from_option c.intervals (λ id. filter (λ (t : Interval). not (t.id == id)) c.intervals)
          c.timer_ref;
  }

  unfoldable pub run_hero : Console F → Console F
  run_hero c =
      let d = clear_timer c in
      record d {
        view = mission;
        run_step = 0;
        running = true;
        decision = none;
        timer_ref = some d.next_id;
        intervals = record { id = d.next_id; next = 0 } ∷ d.intervals;
        next_id = suc d.next_id;
      }

  -- The callback of a live interval.
  unfoldable pub fire : Interval → Console F → Console F
  fire t c =
      let next : ℕ = suc t.next in
      let d = record c { intervals = count_up t.id c.intervals; run_step = next } in
      if leb last_step next then record (clear_timer d) { running = false } else d

  unfoldable pub replay_control : Decision → Console F → Console F
  unfolding decision_step
  replay_control next_decision c = record (clear_timer c) {
    running = false;
    decision = some next_decision;
    run_step = decision_step next_decision;
  }

  unfoldable pub set_view : View → Console F → Console F
  set_view v c = record c { view = v }

  -- The effect's cleanup when the component goes away.
  unfoldable pub unmount : Console F → Console F
  unmount c = clear_timer c

  -- `timeline[Math.min(runStep, timeline.length - 1)]`, never out of range.
  unfoldable pub active : Console F → Option TimelineItem
  active c = get_elem? timeline (min c.run_step last_step)

  unfoldable pub blocked : Console F → Bool
  blocked c = from_option true (λ i. leb i c.run_step) (index_of_state "BLOCKED")

  unfoldable pub replanned : Console F → Bool
  replanned c = from_option true (λ i. leb i c.run_step) (index_of_event "replan_mission")

  unfoldable pub complete : Console F → Bool
  complete c = leb last_step c.run_step

-- What a button of the console does.
pub data Click : Type 0 where
  on_view : View → Click
  on_run : Click
  on_control : Decision → Click

unfoldable pub press : {F : Type 0} → Click → Console F → Console F
press (on_view v) c = set_view v c
press on_run c = run_hero c
press (on_control d) c = replay_control d c
