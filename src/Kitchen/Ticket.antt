-- ===== src/Kitchen/Ticket.antt =====
-- addons/mezze_bridge/models/kds_ticket.py: a ticket, its transitions, the cascade of a void, and the
-- bus messages. The row locks are the order in which the calls run.
use menes_pos.Prelude.{
  ℕ, String, Bool, true, false, not, ◌&&◌, Option, none, some, List, [], ◌∷◌, map, ltb, ◌==◌,
  if◌then◌else◌, keep, get,
}

pub data TicketState : Type 0 where
  fired accepted preparing ready served cancelled : TicketState

pub record Ticket : Type 0 where
  pub id : ℕ
  pub order : ℕ
  pub config : ℕ
  pub station : String
  pub state : TicketState
  pub fire_uuid : Option String
  pub table_label : Option String
  pub fired_at : ℕ
  pub accepted_at : Option ℕ
  pub preparing_at : Option ℕ
  pub ready_at : Option ℕ
  pub served_at : Option ℕ

-- The place of a state in `FLOW`, which leaves out `cancel`.
abbrev pub flow_index : TicketState → Option ℕ
flow_index fired = some 0
flow_index accepted = some 1
flow_index preparing = some 2
flow_index ready = some 3
flow_index served = some 4
flow_index cancelled = none

abbrev pub ticket_states : List (String × TicketState)
ticket_states =
    ("fired", fired)
    ∷ ("accepted", accepted)
    ∷ ("preparing", preparing)
    ∷ ("ready", ready)
    ∷ ("served", served)
    ∷ ("cancel", cancelled)
    ∷ []

-- The state that a text names.
unfoldable pub ticket_state_of : String → Option TicketState
ticket_state_of text = get ticket_states text

abbrev pub same_state : TicketState → TicketState → Bool
same_state fired fired = true
same_state accepted accepted = true
same_state preparing preparing = true
same_state ready ready = true
same_state served served = true
same_state cancelled cancelled = true
same_state _ _ = false

abbrev pub is_terminal : TicketState → Bool
is_terminal served = true
is_terminal cancelled = true
is_terminal _ = false

abbrev later : Option ℕ → Option ℕ → Bool
later none _ = false
later (some i) none = false
later (some i) (some j) = ltb i j

-- `FLOW.index(new_state) > FLOW.index(cur)`, or a cancellation.
abbrev pub may_follow : TicketState → TicketState → Bool
may_follow cur cancelled = true
may_follow cur st = later (flow_index cur) (flow_index st)

-- ## The bus

pub data Channel : Type 0 where
  mezze_kds mezze_waiter : ℕ → Channel

pub data MessageType : Type 0 where
  kds_update waiter_ready : MessageType

pub record Send : Type 0 where
  pub channel : Channel
  pub message_type : MessageType
  pub body : Ticket

abbrev pub kds_send : Ticket → Send
kds_send t = record { channel = mezze_kds t.config; message_type = kds_update; body = t }

abbrev pub waiter_send : Ticket → Send
waiter_send t = record { channel = mezze_waiter t.config; message_type = waiter_ready; body = t }

abbrev pub sends_in : TicketState → Ticket → List Send → List Send
sends_in ready t rest = kds_send t ∷ waiter_send t ∷ rest
sends_in _ t rest = kds_send t ∷ rest

-- `_bus_sends`
unfoldable pub bus_sends : List Ticket → List Send
bus_sends [] = []
bus_sends (t ∷ ts) = sends_in t.state t (bus_sends ts)

-- ## _set_state and action_recall

pub data Reason : Type 0 where
  noop terminal illegal floor ok : Reason

-- A ticket, and what has been sent, the latest first.
pub record Board : Type 0 where
  pub ticket : Ticket
  pub sent : List (List Send)

abbrev pub first_time : Option ℕ → ℕ → Option ℕ
first_time none now = some now
first_time (some at) now = some at

-- The stamp of the state that is entered, unless it is there already.
abbrev pub stamped : TicketState → ℕ → Ticket → Ticket
stamped accepted now t = record t { accepted_at = first_time t.accepted_at now }
stamped preparing now t = record t { preparing_at = first_time t.preparing_at now }
stamped ready now t = record t { ready_at = first_time t.ready_at now }
stamped served now t = record t { served_at = first_time t.served_at now }
stamped _ now t = t

abbrev pub broadcast : Ticket → Board → Board
broadcast t b = record { ticket = t; sent = bus_sends (t ∷ []) ∷ b.sent }

abbrev pub enter : TicketState → ℕ → Board → Board
enter st now b = broadcast (record (stamped st now b.ticket) { state = st }) b

abbrev pub set_known : TicketState → TicketState → ℕ → Board → Board × Reason
set_known cur st now b =
    if same_state cur st
    then (b, noop)
    else if is_terminal cur
    then (b, terminal)
    else if may_follow cur st
    then (enter st now b, ok)
    else (b, illegal)

abbrev pub set_to : TicketState → Option TicketState → ℕ → Board → Board × Reason
set_to cur (some st) now b = set_known cur st now b
set_to cur none now b = if is_terminal cur then (b, terminal) else (b, illegal)

unfoldable pub set_state : String → ℕ → Board → Board × Reason
set_state text now b = set_to b.ticket.state (ticket_state_of text) now b

-- The state before, in `FLOW`.
abbrev pub previous : TicketState → Option TicketState
previous fired = none
previous accepted = some fired
previous preparing = some accepted
previous ready = some preparing
previous served = some ready
previous cancelled = none

abbrev pub recall_to : Option TicketState → Board → Board × Reason
recall_to none b = (b, floor)
recall_to (some st) b = (broadcast (record (b.ticket) { state = st }) b, ok)

unfoldable pub recall : Board → Board × Reason
recall b = recall_to (previous b.ticket.state) b

-- ## cancel_for_order

abbrev pub is_hit : ℕ → Ticket → Bool
is_hit order t = t.order == order && not (is_terminal t.state)

abbrev pub void : ℕ → Ticket → Ticket
void order t = if is_hit order t then record t { state = cancelled } else t

-- The tickets afterwards, and those that were changed, as they are afterwards.
unfoldable pub cancel_for_order : ℕ → List Ticket → List Ticket × List Ticket
cancel_for_order order ts = (map (void order) ts, map (void order) (keep (is_hit order) ts))
