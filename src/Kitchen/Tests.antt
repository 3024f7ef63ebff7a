-- ===== src/Kitchen/Tests.antt =====
-- Runs of a kitchen ticket.
use menes_pos.Prelude.{◌≡◌, ◌≢◌, ◌⊎◌, none, some, List, [], ◌∷◌}
use menes_pos.Kitchen.Ticket.{fired, served, cancelled, Ticket, Board, ok, set_state}
use menes_pos.Kitchen.Flow.{Advanced, set_state-cases, KeepsStamps}
use menes_pos.Kitchen.Touches.{Touch, bump, step_back, touches, touches-KeepsStamps}

abbrev ticket : Ticket
ticket = record {
  id = 1;
  order = 7;
  config = 2;
  station = "Bar";
  state = fired;
  fire_uuid = some "f-1";
  table_label = none;
  fired_at = 100;
  accepted_at = none;
  preparing_at = none;
  ready_at = none;
  served_at = none;
}

abbrev board : Board
board = record { ticket = ticket; sent = [] }

abbrev cancelled_board : Board
cancelled_board = record { ticket = record ticket { state = cancelled }; sent = [] }

set_state-cases_example :
    (((set_state "ready" 120 board).1 ≡ ok)
      × Advanced "ready" board (set_state "ready" 120 board).0)
    ⊎ (((set_state "ready" 120 board).1 ≢ ok) × ((set_state "ready" 120 board).0 ≡ board))
set_state-cases_example = set_state-cases "ready" 120 board

abbrev some_touches : List Touch
some_touches = bump "ready" 120 ∷ step_back ∷ bump "ready" 130 ∷ bump "served" 140 ∷ []

touches-KeepsStamps_example : KeepsStamps ticket (touches some_touches board).ticket
touches-KeepsStamps_example = touches-KeepsStamps some_touches board

abbrev line_up : List Ticket
line_up =
    ticket ∷ record ticket { id = 2; state = served } ∷ record ticket { id = 3; order = 8 } ∷ []
