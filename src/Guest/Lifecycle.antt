-- ===== src/Guest/Lifecycle.antt =====
-- addons/mezze_bridge/models/reservation.py: what every sequence of actions keeps.
use menes_pos.Prelude.{
  ℕ, String, ◌≡◌, inl, inr, Bool, true, false, not, ◌&&◌, ◌||◌, Option, none, some, List, [], ◌∷◌,
  arith, if◌then◌else◌, Bool-cases, any,
}
use menes_pos.Guest.Reservation.{
  ResState, booked, arrived, seated, same_res, res_transitions, res_target, Reservation, ResError,
  Allowed, allowed, denied, allowed_to, can_transition, entered, has_draft, apply_allowed,
  apply_transition,
}

abbrev pub is_given : {A : Type 0} → Option A → Bool
is_given none = false
is_given (some a) = true

-- A booked reservation has neither an arrival nor an order; one that has arrived has the time.
abbrev pub is_kept_in : ResState → Reservation → Bool
is_kept_in booked r = not (is_given r.arrived_at) && not (is_given r.pos_order)
is_kept_in arrived r = is_given r.arrived_at
is_kept_in _ r = true

unfoldable pub is_kept : Reservation → Bool
is_kept r = is_kept_in r.state r

entered-is_kept :
    (st : ResState) (note : String) (now : ℕ) (r : Reservation)
    → is_kept (entered st note now r) ≡ true
unfolding is_kept
entered-is_kept st note now r = ground arith

-- Only what the table allows is allowed, apart from the state it is in.
pub can_transition-allowed :
    (r : Reservation) (action : String) (target : ResState)
    → can_transition r action ≡ allowed target
    → (res_target action ≡ some target)
      × ((same_res target r.state || any (same_res target) (res_transitions r.state)) ≡ true)
unfolding can_transition
can_transition-allowed r action target e = from (res_target action) e
  where
    from :
        (found : Option ResState)
        → allowed_to r.state found ≡ allowed target
        → (found ≡ some target)
          × ((same_res target r.state || any (same_res target) (res_transitions r.state)) ≡ true)
    from found e = ground arith

apply_allowed-is_kept :
    (a : Allowed) (note : String) (now : ℕ) (r : Reservation)
    → is_kept r ≡ true
    → is_kept (apply_allowed a note now r).0 ≡ true
apply_allowed-is_kept (denied e) note now r h = h
apply_allowed-is_kept (allowed target) note now r h = elim (Bool-cases (same_res target r.state)) [
  | inl same ↦ rw same h
  | inr other ↦ rw other (
      if-is_kept (same_res target seated && (has_draft r.pos_order && same_res r.state seated)) _ _
        h (entered-is_kept target note now r))
]
  where
    if-is_kept :
        (b : Bool) (x y : Reservation × Option ResError)
        → is_kept x.0 ≡ true
        → is_kept y.0 ≡ true
        → is_kept (if b then x else y).0 ≡ true
    if-is_kept true x y p q = p
    if-is_kept false x y p q = q

-- An action with its note and its time.
unfoldable pub apply_all : List (String × String × ℕ) → Reservation → Reservation
apply_all [] r = r
apply_all ((action, note, now) ∷ rest) r = apply_all rest (apply_transition action note now r).0

-- Whatever actions are asked for, it stays true that a reservation that is booked has neither a time
-- of arrival nor an order of an earlier visit, and that one that has arrived has its time.
pub apply_all-is_kept :
    (actions : List (String × String × ℕ)) (r : Reservation)
    → is_kept r ≡ true
    → is_kept (apply_all actions r) ≡ true
unfolding apply_all apply_transition
apply_all-is_kept [] r h = h
apply_all-is_kept ((action, note, now) ∷ rest) r h =
    apply_all-is_kept rest _ (apply_allowed-is_kept (can_transition r action) note now r h)
