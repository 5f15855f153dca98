-- ===== src/Service/Status.antt =====
-- The states of a mission and the transitions between them: `MissionStatus` of
-- src/shiftzero/domain.py and `WorkflowState` of src/shiftzero/state_machine.py.
pub mod History
use shiftzero_hero.Common.{
  ℕ, Bool, false, ◌||◌, Option, none, some, List, [], ◌∷◌, ◌++◌, ◌==◌, if◌then◌else◌,
}

pub data MissionStatus : Type 0 where
  intent needs_input observed planned proposed verified approved executing : MissionStatus
  blocked safe_stop replanning completed rejected failed failed_safe : MissionStatus

-- Which of the members it is; two members are equal exactly if their numbers are.
unfoldable pub ordinal : MissionStatus → ℕ
ordinal intent = 0
ordinal needs_input = 1
ordinal observed = 2
ordinal planned = 3
ordinal proposed = 4
ordinal verified = 5
ordinal approved = 6
ordinal executing = 7
ordinal blocked = 8
ordinal safe_stop = 9
ordinal replanning = 10
ordinal completed = 11
ordinal rejected = 12
ordinal failed = 13
ordinal failed_safe = 14

unfoldable pub same_status : MissionStatus → MissionStatus → Bool
unfolding ordinal
same_status s t = ordinal s == ordinal t

-- `target in statuses`
abbrev pub has_status : MissionStatus → List MissionStatus → Bool
has_status target [] = false
has_status target (s ∷ rest) = same_status target s || has_status target rest

unfoldable pub allowed_transitions : MissionStatus → List MissionStatus
allowed_transitions intent = observed ∷ needs_input ∷ []
allowed_transitions needs_input = intent ∷ rejected ∷ []
allowed_transitions observed = planned ∷ failed_safe ∷ []
allowed_transitions planned = proposed ∷ rejected ∷ []
allowed_transitions proposed = verified ∷ rejected ∷ []
allowed_transitions verified = approved ∷ executing ∷ rejected ∷ failed_safe ∷ []
allowed_transitions approved = executing ∷ rejected ∷ failed_safe ∷ []
allowed_transitions executing = blocked ∷ completed ∷ failed_safe ∷ []
allowed_transitions blocked = safe_stop ∷ failed_safe ∷ []
allowed_transitions safe_stop = replanning ∷ failed_safe ∷ []
allowed_transitions replanning = verified ∷ failed_safe ∷ []
allowed_transitions completed = []
allowed_transitions rejected = []
allowed_transitions failed = []
allowed_transitions failed_safe = []

pub record WorkflowState : Type 0 where
  pub current : MissionStatus
  pub history : List MissionStatus

unfoldable pub initial : WorkflowState
initial = record { current = intent; history = intent ∷ [] }

-- `none` stands for the exception `InvalidTransition`, which leaves the state as it is.
unfoldable pub transition : MissionStatus → WorkflowState → Option WorkflowState
transition target w =
    if has_status target (allowed_transitions w.current)
    then some record { current = target; history = w.history ++ target ∷ [] }
    else none
