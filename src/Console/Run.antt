-- ===== src/Console/Run.antt =====
-- A replay from its start to its end, and what the controls show: `runHero`, `replayControl` and the
-- derived `active`, `blocked`, `replanned` and `complete` of apps/web/components/mission-console.tsx.
use mathlib.Core.Option
use shiftzero_hero.Common.{
  ℕ, zero, suc, ◌<◌, String, ◌≡◌, refl, Bool, true, false, none, some, [], ◌∷◌, arith,
}
use shiftzero_hero.Console.Timeline.{TimelineItem, index_of_state, index_of_event}
use shiftzero_hero.Console.Replay.{
  Decision, approved, rejected, stopped, Console, last_step, run_hero, fire, replay_control, active,
  blocked, replanned, complete,
}
use shiftzero_hero.Console.Timer.{Reach, Timer, Reach-Timer, clear_timer-empty}

module _ {F : Type 0} where
  -- The callback of the first live interval, when there is one.
  abbrev pub beat : Console F → Console F
  beat c = elim c.intervals [ [] ↦ c | t ∷ rest ↦ fire t c ]

  pub beats : ℕ → Console F → Console F
  beats zero c = c
  beats (suc n) c = beat (beats n c)

  -- A replay that runs, with its one interval at `n`.
  pub record IsAt (n : ℕ) (c : Console F) : Type 0 where
    pub alone :
        (id : ℕ) × (c.intervals ≡ record { id = id; next = n } ∷ []) × (c.timer_ref ≡ some id)
    pub running : c.running ≡ true
    pub shown : c.run_step ≡ n
    pub undecided : c.decision ≡ none

  run_hero-IsAt : (c : Console F) → Timer c → IsAt 0 (run_hero c)
  unfolding run_hero
  run_hero-IsAt c v = record {
    alone = (c.next_id, ground (arith, clear_timer-empty c v), refl);
    running = refl;
    shown = refl;
    undecided = refl;
  }

  beat-IsAt : (n : ℕ) (c : Console F) → suc n < last_step → IsAt n c → IsAt (suc n) (beat c)
  unfolding fire
  beat-IsAt n c early at =
      let (id, one, ref) = at.alone in
      record {
        alone = (id, ground arith, ground arith);
        running = ground (arith, at.running);
        shown = ground arith;
        undecided = ground (arith, at.undecided);
      }

  beat-last :
      (n : ℕ) (c : Console F)
      → suc n ≡ last_step
      → IsAt n c
      → ((beat c).run_step ≡ last_step) × ((beat c).running ≡ false) × ((beat c).intervals ≡ [])
  unfolding fire
  beat-last n c end at = let (id, one, ref) = at.alone in (ground arith, ground arith, ground arith)

  beats-IsAt : (n : ℕ) (c : Console F) → n < last_step → Timer c → IsAt n (beats n (run_hero c))
  unfolding beats
  beats-IsAt zero c early v = run_hero-IsAt c v
  beats-IsAt (suc n) c early v =
      beat-IsAt n (beats n (run_hero c)) early (beats-IsAt n c (omega arith) v)

  -- From any reachable state "Run Hero" followed by fewer callbacks than there are steps left
  -- shows the step of that number, still running.
  pub beats-run_step :
      {c : Console F} (n : ℕ)
      → Reach c
      → n < last_step
      → ((beats n (run_hero c)).run_step ≡ n) × ((beats n (run_hero c)).running ≡ true)
  beats-run_step {c} n r early =
      let at = beats-IsAt n c early (Reach-Timer r) in (at.shown, at.running)

  -- From any reachable state "Run Hero" and one callback for each step left end the replay: the
  -- last step is shown, the replay is complete, nothing runs, and no interval is left.
  pub beats-run_hero :
      {c : Console F}
      → Reach c
      → ((beats last_step (run_hero c)).run_step ≡ last_step)
        × (complete (beats last_step (run_hero c)) ≡ true)
        × ((beats last_step (run_hero c)).running ≡ false)
        × ((beats last_step (run_hero c)).intervals ≡ [])
  unfolding complete beats
  beats-run_hero {c} r =
      let (step, stop, none_left) =
        beat-last 13 (beats 13 (run_hero c)) refl (beats-IsAt 13 c (omega arith) (Reach-Timer r)) in
      (step, ground arith, stop, none_left)

-- What the console is to show after a decision.
abbrev pub decided_state : Decision → String
decided_state approved = "APPROVED"
decided_state rejected = "VERIFIED"
decided_state stopped = "SAFE_STOP"

abbrev pub is_stopped : Decision → Bool
is_stopped stopped = true
is_stopped _ = false

-- A control, clicked in any reachable state, ends any replay; it shows the timeline at its
-- decision, blocked only by a stop, and never replanned or complete.
pub replay_control-shows :
    {F : Type 0} {c : Console F} (d : Decision)
    → Reach c
    → (Option.map (λ (i : TimelineItem). i.state) (active (replay_control d c))
        ≡ some (decided_state d))
      × (blocked (replay_control d c) ≡ is_stopped d)
      × (replanned (replay_control d c) ≡ false)
      × (complete (replay_control d c) ≡ false)
      × ((replay_control d c).running ≡ false)
      × ((replay_control d c).intervals ≡ [])
unfolding replay_control active blocked replanned complete index_of_state index_of_event
replay_control-shows {c} approved r =
    (refl, refl, refl, refl, refl, clear_timer-empty c (Reach-Timer r))
replay_control-shows {c} rejected r =
    (refl, refl, refl, refl, refl, clear_timer-empty c (Reach-Timer r))
replay_control-shows {c} stopped r =
    (refl, refl, refl, refl, refl, clear_timer-empty c (Reach-Timer r))
