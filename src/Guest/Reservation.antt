-- ===== src/Guest/Reservation.antt =====
-- addons/mezze_bridge/models/reservation.py: the lifecycle of a reservation.
use menes_pos.Prelude.{
  ℕ, String, Bool, false, not, ◌&&◌, Option, none, some, List, [], ◌∷◌, ◌==◌, if◌then◌else◌, str_eq,
  any, get,
}

pub data ResState : Type 0 where
  booked confirmed late waiting arrived seated done no_show cancelled : ResState

abbrev res_code : ResState → ℕ
res_code booked = 0
res_code confirmed = 1
res_code late = 2
res_code waiting = 3
res_code arrived = 4
res_code seated = 5
res_code done = 6
res_code no_show = 7
res_code cancelled = 8

abbrev pub same_res : ResState → ResState → Bool
same_res s t = res_code s == res_code t

-- `RES_TRANSITIONS`
abbrev pub res_transitions : ResState → List ResState
res_transitions booked = confirmed ∷ arrived ∷ waiting ∷ late ∷ no_show ∷ cancelled ∷ seated ∷ []
res_transitions confirmed = arrived ∷ waiting ∷ late ∷ no_show ∷ cancelled ∷ seated ∷ []
res_transitions late = arrived ∷ waiting ∷ no_show ∷ cancelled ∷ seated ∷ []
res_transitions waiting = arrived ∷ seated ∷ no_show ∷ cancelled ∷ []
res_transitions arrived = seated ∷ waiting ∷ no_show ∷ cancelled ∷ []
res_transitions seated = done ∷ cancelled ∷ []
res_transitions done = []
res_transitions no_show = booked ∷ []
res_transitions cancelled = booked ∷ []

-- `RES_ACTIONS`
abbrev res_actions : List (String × ResState)
res_actions =
    ("confirm", confirmed)
    ∷ ("arrive", arrived)
    ∷ ("wait", waiting)
    ∷ ("late", late)
    ∷ ("seat", seated)
    ∷ ("no_show", no_show)
    ∷ ("cancel", cancelled)
    ∷ ("complete", done)
    ∷ ("done", done)
    ∷ ("restore", booked)
    ∷ []

unfoldable pub res_target : String → Option ResState
res_target action = get res_actions action

-- The linked order, with whether it is a draft.
pub record Reservation : Type 0 where
  pub state : ResState
  pub arrived_at : Option ℕ
  pub arrival_note : Option String
  pub pos_order : Option (ℕ × Bool)

pub data ResError : Type 0 where
  unknown_action : ResError
  invalid_transition : ResState → ResState → ResError
  already_seated : ResError

pub data Allowed : Type 0 where
  allowed : ResState → Allowed
  denied : ResError → Allowed

abbrev pub allowed_to : ResState → Option ResState → Allowed
allowed_to st none = denied unknown_action
allowed_to st (some target) =
    if same_res target st
    then allowed target
    else if not (any (same_res target) (res_transitions st))
    then denied (invalid_transition st target)
    else allowed target

unfoldable pub can_transition : Reservation → String → Allowed
can_transition r action = allowed_to r.state (res_target action)

abbrev pub has_draft : Option (ℕ × Bool) → Bool
has_draft none = false
has_draft (some (id, draft)) = draft

abbrev note_or : String → Option String → Option String
note_or note old = if str_eq note "" then old else some note

-- What entering a state writes.
abbrev pub entered : ResState → String → ℕ → Reservation → Reservation
entered arrived note now r = record r {
  state = arrived;
  arrived_at = some now;
  arrival_note = note_or note r.arrival_note;
}
entered booked note now r = record r { state = booked; arrived_at = none; pos_order = none }
entered st note now r = record r { state = st }

abbrev pub apply_allowed : Allowed → String → ℕ → Reservation → Reservation × Option ResError
apply_allowed (denied e) note now r = (r, some e)
apply_allowed (allowed target) note now r =
    if same_res target r.state
    then (r, none)
    else if same_res target seated && (has_draft r.pos_order && same_res r.state seated)
    then (r, some already_seated)
    else (entered target note now r, none)

-- `arrival_note` is empty where none is given.
unfoldable pub apply_transition : String → String → ℕ → Reservation → Reservation × Option ResError
apply_transition action arrival_note now r =
    apply_allowed (can_transition r action) arrival_note now r
