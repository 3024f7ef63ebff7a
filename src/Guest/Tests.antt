-- ===== src/Guest/Tests.antt =====
-- Runs of a reservation and of the queue at the door.
use menes_pos.Prelude.{ℕ, String, ◌≡◌, refl, true, Option, none, some, List, [], ◌∷◌}
use menes_pos.Guest.Reservation.{booked, Reservation}
use menes_pos.Guest.Lifecycle.{is_kept, apply_all, apply_all-is_kept}
use menes_pos.Guest.Waitlist.{waiting, Party}
use menes_pos.Guest.Queue.{is_free, move_all, move_all-is_free}

abbrev reservation : Reservation
reservation = record { state = booked; arrived_at = none; arrival_note = none; pos_order = none }

abbrev visit : List (String × String × ℕ)
visit = ("arrive", "late train", 90) ∷ ("cancel", "", 95) ∷ ("restore", "", 99) ∷ []

apply_all-is_kept_example : is_kept (apply_all visit reservation) ≡ true
unfolding is_kept
apply_all-is_kept_example = apply_all-is_kept visit reservation refl

abbrev party : Party
party = record { state = waiting; table = none; pos_order = none }

abbrev moves : List (String × Option ℕ)
moves = ("seat", some 12) ∷ ("cancel", none) ∷ ("restore", none) ∷ []

move_all-is_free_example : is_free (move_all moves party) ≡ true
unfolding is_free
move_all-is_free_example = move_all-is_free moves party refl
