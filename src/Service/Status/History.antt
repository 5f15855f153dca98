-- ===== src/Service/Status/History.antt =====
-- What the history of a mission tells: every sequence of transitions of
-- src/shiftzero/state_machine.py.
use shiftzero_hero.Common.{
  ◌≡◌, refl, sym, ◌⊎◌, inl, Bool, true, false, ◌||◌, ◌&&◌, not, some, List, [], ◌∷◌, ◌++◌, arith,
}
use shiftzero_hero.Service.Status.{
  MissionStatus, intent, verified, approved, executing, blocked, completed, failed, same_status,
  has_status, allowed_transitions, WorkflowState, initial, transition,
}

-- The states that a sequence of accepted transitions leads to.
pub data Reach : WorkflowState → Type 0 where
  started : Reach initial
  moved :
      {w v : WorkflowState}
      → Reach w
      → (target : MissionStatus) → transition target w ≡ some v
      → Reach v

or_assoc : (a b c : Bool) → ((a || b) || c) ≡ (a || (b || c))
or_assoc true b c = refl
or_assoc false b c = refl

has_status-append :
    (s t : MissionStatus) (xs : List MissionStatus)
    → has_status s (xs ++ t ∷ []) ≡ (has_status s xs || same_status s t)
has_status-append s t [] = ground arith
has_status-append s t (x ∷ xs) =
    rw (has_status-append s t xs)
      (sym (or_assoc (same_status s x) (has_status s xs) (same_status s t)))

and_true : (a b : Bool) → (a && b) ≡ true → (a ≡ true) × (b ≡ true)
and_true a b h = ground arith

-- One accepted transition.
accepted :
    (w v : WorkflowState) (target : MissionStatus)
    → transition target w ≡ some v
    → (has_status target (allowed_transitions w.current) ≡ true)
      × (v.current ≡ target)
      × (v.history ≡ w.history ++ target ∷ [])
unfolding transition
accepted w v target h = ground arith

-- Whether the last word on the route is a verification: it is, from a VERIFIED on, up to a BLOCKED.
abbrev after : Bool → MissionStatus → Bool
after seen verified = true
after seen blocked = false
after seen _ = seen

abbrev is_executing : MissionStatus → Bool
is_executing executing = true
is_executing _ = false

abbrev seen_at_end : Bool → List MissionStatus → Bool
seen_at_end seen [] = seen
seen_at_end seen (s ∷ rest) = seen_at_end (after seen s) rest

-- No EXECUTING stands where the route is not verified.
abbrev guarded : Bool → List MissionStatus → Bool
guarded seen [] = true
guarded seen (s ∷ rest) = (not (is_executing s) || seen) && guarded (after seen s) rest

seen_at_end-append :
    (seen : Bool) (xs : List MissionStatus) (t : MissionStatus)
    → seen_at_end seen (xs ++ t ∷ []) ≡ after (seen_at_end seen xs) t
seen_at_end-append seen [] t = refl
seen_at_end-append seen (x ∷ xs) t = seen_at_end-append (after seen x) xs t

guarded-append :
    (seen : Bool) (xs : List MissionStatus) (t : MissionStatus)
    → guarded seen xs ≡ true
    → (not (is_executing t) || seen_at_end seen xs) ≡ true
    → guarded seen (xs ++ t ∷ []) ≡ true
guarded-append seen [] t h k = rw k refl
guarded-append seen (x ∷ xs) t h k =
    let (here, rest) = and_true (not (is_executing x) || seen) (guarded (after seen x) xs) h in
    rw here (guarded-append (after seen x) xs t rest k)

-- In these states the route is verified.
abbrev is_ok : MissionStatus → Bool
is_ok verified = true
is_ok approved = true
is_ok executing = true
is_ok completed = true
is_ok _ = false

move :
    (s t : MissionStatus) (seen : Bool)
    → has_status t (allowed_transitions s) ≡ true
    → (is_ok s ≡ false) ⊎ (seen ≡ true)
    → ((not (is_executing t) || seen) ≡ true)
      × ((is_ok t ≡ false) ⊎ (after seen t ≡ true))
      × (same_status failed t ≡ false)
unfolding allowed_transitions same_status
move intent t seen h k = ground arith
move _ t seen h k = ground arith

record Inv (w : WorkflowState) : Type 0 where
  safe : guarded false w.history ≡ true
  on_route : (is_ok w.current ≡ false) ⊎ (seen_at_end false w.history ≡ true)
  never_failed : has_status failed w.history ≡ false

transition-Inv :
    (w v : WorkflowState) (target : MissionStatus) → transition target w ≡ some v → Inv w → Inv v
transition-Inv w v t h i =
    let (ok, now, log) = accepted w v t h in
    let (may, on, other) = move w.current t (seen_at_end false w.history) ok i.on_route in
    record {
      safe = rw log (guarded-append false w.history t i.safe may);
      on_route = rw (now, log, seen_at_end-append false w.history t) on;
      never_failed = rw (log, has_status-append failed t w.history, i.never_failed) other;
    }

Reach-Inv : {w : WorkflowState} → Reach w → Inv w
unfolding initial same_status
Reach-Inv started = record { safe = refl; on_route = inl refl; never_failed = refl }
Reach-Inv (moved {w} {v} r t h) = transition-Inv w v t h (Reach-Inv r)

seen_step :
    (seen more : Bool) (s : MissionStatus)
    → (after seen s || more) ≡ true
    → (seen || (same_status verified s || more)) ≡ true
unfolding same_status
seen_step seen more intent h = ground arith
seen_step seen more _ h = ground arith

-- Before an EXECUTING the route is verified, at the start or since.
guarded-executing :
    (seen : Bool) (pre post : List MissionStatus)
    → guarded seen (pre ++ executing ∷ post) ≡ true
    → (seen || has_status verified pre) ≡ true
guarded-executing seen [] post h = ground arith
guarded-executing seen (s ∷ pre) post h =
    let (here, rest) =
      and_true (not (is_executing s) || seen) (guarded (after seen s) (pre ++ executing ∷ post))
        h in
    seen_step seen (has_status verified pre) s (guarded-executing (after seen s) pre post rest)

guarded-tail :
    (seen : Bool) (pre post : List MissionStatus)
    → guarded seen (pre ++ blocked ∷ post) ≡ true
    → guarded false post ≡ true
guarded-tail seen [] post h = ground arith
guarded-tail seen (s ∷ pre) post h =
    let (here, rest) =
      and_true (not (is_executing s) || seen) (guarded (after seen s) (pre ++ blocked ∷ post)) h in
    guarded-tail (after seen s) pre post rest

-- In every reachable history of a mission there is a VERIFIED before any EXECUTING.
pub executing-verified :
    {w : WorkflowState} (pre post : List MissionStatus)
    → Reach w
    → w.history ≡ pre ++ executing ∷ post
    → has_status verified pre ≡ true
executing-verified pre post r e = guarded-executing false pre post (rw (← e) (Reach-Inv r).safe)

-- In every reachable history of a mission there is a VERIFIED between a BLOCKED and any later
-- EXECUTING.
pub resumed-verified :
    {w : WorkflowState} (pre mid post : List MissionStatus)
    → Reach w
    → w.history ≡ pre ++ blocked ∷ (mid ++ executing ∷ post)
    → has_status verified mid ≡ true
resumed-verified pre mid post r e =
    guarded-executing false mid post
      (guarded-tail false pre (mid ++ executing ∷ post) (rw (← e) (Reach-Inv r).safe))

-- No reachable history of a mission contains the state FAILED.
pub failed-unreachable : {w : WorkflowState} → Reach w → has_status failed w.history ≡ false
failed-unreachable r = (Reach-Inv r).never_failed
