-- ===== src/Guest/Waitlist.antt =====
-- addons/mezze_bridge/models/waitlist.py: the lifecycle of a party that waits at the door.
use menes_pos.Prelude.{
  ℕ, String, Bool, true, false, not, ◌&&◌, Option, none, some, List, [], ◌∷◌, ◌==◌, if◌then◌else◌,
  any, get,
}

pub data WaitState : Type 0 where
  waiting notified seating seated left no_response cancelled : WaitState

abbrev wait_code : WaitState → ℕ
wait_code waiting = 0
wait_code notified = 1
wait_code seating = 2
wait_code seated = 3
wait_code left = 4
wait_code no_response = 5
wait_code cancelled = 6

abbrev pub same_wait : WaitState → WaitState → Bool
same_wait s t = wait_code s == wait_code t

-- `WL_TRANSITIONS`
abbrev pub wait_transitions : WaitState → List WaitState
wait_transitions waiting = notified ∷ seating ∷ seated ∷ cancelled ∷ left ∷ no_response ∷ []
wait_transitions notified = seating ∷ seated ∷ cancelled ∷ left ∷ no_response ∷ []
wait_transitions seating = seated ∷ waiting ∷ cancelled ∷ left ∷ []
wait_transitions seated = cancelled ∷ []
wait_transitions cancelled = waiting ∷ []
wait_transitions left = waiting ∷ []
wait_transitions no_response = waiting ∷ notified ∷ []

-- `WL_ACTIONS`
abbrev wait_actions : List (String × WaitState)
wait_actions =
    ("notify", notified)
    ∷ ("seating", seating)
    ∷ ("seat", seated)
    ∷ ("cancel", cancelled)
    ∷ ("left", left)
    ∷ ("no_response", no_response)
    ∷ ("no_show", no_response)
    ∷ ("restore", waiting)
    ∷ []

unfoldable pub wait_target : String → Option WaitState
wait_target action = get wait_actions action

pub record Party : Type 0 where
  pub state : WaitState
  pub table : Option ℕ
  pub pos_order : Option ℕ

pub data WaitError : Type 0 where
  unknown_action : WaitError
  invalid_transition : WaitState → WaitState → WaitError

pub data WaitAllowed : Type 0 where
  allowed : WaitState → WaitAllowed
  denied : WaitError → WaitAllowed

abbrev pub wait_allowed_to : WaitState → Option WaitState → WaitAllowed
wait_allowed_to st none = denied unknown_action
wait_allowed_to st (some target) =
    if same_wait target st
    then allowed target
    else if not (any (same_wait target) (wait_transitions st))
    then denied (invalid_transition st target)
    else allowed target

unfoldable pub can_move : Party → String → WaitAllowed
can_move p action = wait_allowed_to p.state (wait_target action)

abbrev pub given : Option ℕ → Bool
given none = false
given (some t) = true

abbrev or_table : Option ℕ → Option ℕ → Option ℕ
or_table none old = old
or_table (some t) old = some t

abbrev pub wait_entered : WaitState → Option ℕ → Party → Party
wait_entered seated table p = record p { state = seated; table = or_table table p.table }
wait_entered waiting table p = record { state = waiting; table = none; pos_order = none }
wait_entered st table p = record p { state = st }

abbrev pub move_allowed : WaitAllowed → Option ℕ → Party → Party × Option WaitError
move_allowed (denied e) table p = (p, some e)
move_allowed (allowed target) table p =
    if same_wait target p.state && not (same_wait target seated && given table)
    then (p, none)
    else (wait_entered target table p, none)

-- A table that is given is not the number 0.
unfoldable pub apply_move : String → Option ℕ → Party → Party × Option WaitError
apply_move action table p = move_allowed (can_move p action) table p
