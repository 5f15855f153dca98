-- ===== src/Console/Timer.antt =====
-- The timer discipline of the console: `runHero`, `replayControl` and the interval of
-- apps/web/components/mission-console.tsx, under any sequence of clicks, callbacks and replies.
use shiftzero_hero.Common.{
  ℕ, zero, suc, ◌≤◌, ◌<◌, ◌≡◌, refl, inl, inr, true, false, none, some, [], ◌∷◌, arith, leb,
  get_elem?, Bool-cases,
}
use shiftzero_hero.Console.Loading.{Reply, receive}
use shiftzero_hero.Console.Timeline.{View, index_of_state, index_of_event}
use shiftzero_hero.Console.Replay.{
  Decision, approved, rejected, stopped, Interval, Console, last_step, initial, clear_timer,
  run_hero, fire, decision_step, replay_control, set_view, unmount,
}

-- What can happen to the console: a click, the callback of a live interval, or a settled fetch.
pub data Step {F : Type 0} : Console F → Console F → Type 0 where
  runs : (c : Console F) → Step c (run_hero c)
  decides : (c : Console F) (d : Decision) → Step c (replay_control d c)
  goes : (c : Console F) (v : View) → Step c (set_view v c)
  ticks :
      (c : Console F) (i : ℕ) (t : Interval) → get_elem? c.intervals i ≡ some t → Step c (fire t c)
  loads : (c : Console F) (r : Reply F) → Step c (record c { evidence = receive r c.evidence })

pub data Reach {F : Type 0} : Console F → Type 0 where
  mounted : Reach initial
  next : {c d : Console F} → Reach c → Step c d → Reach d

-- Either no interval is live and nothing runs, or the one interval that the component knows drives a
-- running replay, which shows its counter.
pub data Timer {F : Type 0} (c : Console F) : Type 0 where
  idle : c.intervals ≡ [] → c.running ≡ false → c.run_step ≤ last_step → Timer c
  busy :
      (id n : ℕ)
      → c.intervals ≡ record { id = id; next = n } ∷ []
      → c.timer_ref ≡ some id
      → c.running ≡ true
      → c.run_step ≡ n
      → n < last_step
      → c.decision ≡ none
      → Timer c

decision_step-le : (d : Decision) → decision_step d ≤ last_step
unfolding decision_step index_of_state index_of_event
decision_step-le approved = omega arith
decision_step-le rejected = omega arith
decision_step-le stopped = omega arith

only_elem {ℓ} : {A : Type ℓ} {x a : A} (i : ℕ) → get_elem? (x ∷ []) i ≡ some a → a ≡ x
only_elem zero h = cc
only_elem (suc i) h = cc

module _ {F : Type 0} where
  pub clear_timer-empty : (c : Console F) → Timer c → (clear_timer c).intervals ≡ []
  clear_timer-empty c (idle e r b) = ground arith
  clear_timer-empty c (busy id n e t r s b d) = ground arith

  run_hero-Timer : (c : Console F) → Timer c → Timer (run_hero c)
  unfolding run_hero
  run_hero-Timer c v =
      busy c.next_id 0 (ground (arith, clear_timer-empty c v)) refl refl refl (omega arith) refl

  replay_control-Timer : (c : Console F) (d : Decision) → Timer c → Timer (replay_control d c)
  unfolding replay_control
  replay_control-Timer c d v = idle (clear_timer-empty c v) refl (decision_step-le d)

  fire-Timer :
      (c : Console F) (i : ℕ) (t : Interval)
      → get_elem? c.intervals i ≡ some t
      → Timer c
      → Timer (fire t c)
  unfolding fire
  fire-Timer c i t at (idle e r b) = ground arith
  fire-Timer c i t at (busy id n e ref r s b d) =
      let same : t ≡ record { id = id; next = n } = only_elem i (rw e at at) in
      elim (Bool-cases (leb last_step (suc t.next))) [
        | inl over ↦ idle (ground arith) (ground arith) (ground arith)
        | inr on ↦
            busy id (suc n) (ground arith) (ground arith) (ground arith) (ground arith)
              (ground arith) (ground arith)
      ]

  Step-Timer : {c d : Console F} → Step c d → Timer c → Timer d
  Step-Timer (runs c) v = run_hero-Timer c v
  Step-Timer (decides c d) v = replay_control-Timer c d v
  Step-Timer (goes c w) (idle e r b) = unfold set_view in idle e r b
  Step-Timer (goes c w) (busy id n e ref r s b d) = unfold set_view in busy id n e ref r s b d
  Step-Timer (ticks c i t at) v = fire-Timer c i t at v
  Step-Timer (loads c r) (idle e s b) = idle e s b
  Step-Timer (loads c r) (busy id n e ref run s b d) = busy id n e ref run s b d

-- In every reachable state either no interval is live, nothing runs and the step is in range, or
-- exactly one interval is live, which the component knows and which drives a running, undecided
-- replay that shows its counter.
pub Reach-Timer : {F : Type 0} {c : Console F} → Reach c → Timer c
Reach-Timer mounted =
    idle (unfold initial in refl) (unfold initial in refl) (unfold initial in omega arith)
Reach-Timer (next r st) = Step-Timer st (Reach-Timer r)

-- When the console goes away in a reachable state, no interval is left.
pub unmount-intervals : {F : Type 0} {c : Console F} → Reach c → (unmount c).intervals ≡ []
unfolding unmount
unmount-intervals {c = c} r = clear_timer-empty c (Reach-Timer r)
