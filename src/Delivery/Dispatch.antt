-- ===== src/Delivery/Dispatch.antt =====
-- addons/mezze_bridge/models/delivery.py: the zone's hours, the state machine of a delivery with its
-- couriers, and the cash collected for it. The delivery's address, projection and audit detail are not
-- modelled.
use menes_pos.Prelude.{
  ℕ, ◌+◌, ◌*◌, String, Bool, true, false, not, ◌&&◌, Option, none, some, List, [], ◌∷◌, map, ltb,
  leb, ◌==◌, if◌then◌else◌, str_eq, any, all, keep, is_blank, ℤ, pos, leb_ℤ,
}
use menes_pos.Pay.Ledger.{is_draft, Payment, PosOrder, Odoo, order_remaining, keyed, first}
use menes_pos.Kitchen.Ticket.{Ticket, ready, served}

pub data DeliveryState : Type 0 where
  placed accepted preparing is_ready assigned out_for_delivery delivered cancelled rejected :
      DeliveryState

-- The actions that `_LEGAL` names, and any other text.
pub data Action : Type 0 where
  accept reject cancel start_prep make_ready assign out unassign deliver : Action
  other : String → Action

pub data PaymentMode : Type 0 where
  cod online prepaid : PaymentMode

pub data CourierStatus : Type 0 where
  available on_delivery offline : CourierStatus

-- The first so many characters of a text.
pub data Clipped : Type 0 where
  first_of : ℕ → String → Clipped

pub record Courier : Type 0 where
  pub id : ℕ
  pub name : String
  pub status : CourierStatus

pub record Delivery : Type 0 where
  pub id : ℕ
  pub payment_mode : PaymentMode
  pub cod_collected : Bool
  pub cod_payment : Option Payment
  pub courier : Option ℕ
  pub rider : Option String
  pub assigned_by : String
  pub assigned_at : Option ℕ
  pub state : DeliveryState
  pub cancel_reason : Option String
  pub reject_reason : Option Clipped
  pub accepted_at : Option ℕ
  pub ready_at : Option ℕ
  pub dispatched_at : Option ℕ
  pub delivered_at : Option ℕ

-- `TERMINAL`
abbrev pub is_over : DeliveryState → Bool
is_over delivered = true
is_over cancelled = true
is_over rejected = true
is_over _ = false

-- `_LEGAL.get(state, {}).get(action)`
abbrev pub legal_next : DeliveryState → Action → Option DeliveryState
legal_next placed accept = some accepted
legal_next placed reject = some rejected
legal_next placed cancel = some cancelled
legal_next accepted start_prep = some preparing
legal_next accepted cancel = some cancelled
legal_next preparing make_ready = some is_ready
legal_next preparing cancel = some cancelled
legal_next is_ready assign = some assigned
legal_next is_ready out = some out_for_delivery
legal_next is_ready cancel = some cancelled
legal_next assigned out = some out_for_delivery
legal_next assigned unassign = some is_ready
legal_next assigned cancel = some cancelled
legal_next out_for_delivery deliver = some delivered
legal_next out_for_delivery cancel = some cancelled
legal_next _ _ = none

-- ## Zones

-- `hours_json` as parsed: blank or malformed, or the windows of minutes for the weekdays it lists.
pub data Hours : Type 0 where
  always : Hours
  weekly : List (ℕ × List (ℕ × ℕ)) → Hours

abbrev windows_of : List (ℕ × List (ℕ × ℕ)) → ℕ → List (ℕ × ℕ)
windows_of [] day = []
windows_of ((d, ws) ∷ rest) day = if d == day then ws else windows_of rest day

abbrev within : ℕ → ℕ × ℕ → Bool
within minute (a, b) = leb a minute && ltb minute b

unfoldable pub is_open : Hours → ℕ → ℕ → ℕ → Bool
is_open always day hour minute = true
is_open (weekly schedule) day hour minute =
    any (within (hour * 60 + minute)) (windows_of schedule day)

-- ## The kitchen

abbrev ticket_done : Ticket → Bool
ticket_done t = elim t.state [ ready ↦ true | served ↦ true | _ ↦ false ]

-- `_kitchen_ready`, of all tickets.
unfoldable pub kitchen_ready : ℕ → List Ticket → Bool
kitchen_ready order tickets = all ticket_done (keep (λ (t : Ticket). t.order == order) tickets)

-- ## _transition

pub data DeliveryError : Type 0 where
  already_over cannot_do reason_required courier_required : DeliveryError
  only_cod order_not_paid : DeliveryError

-- The delivery, all couriers, and the log: the actions with the state each ended in.
pub record Desk : Type 0 where
  pub delivery : Delivery
  pub couriers : List Courier
  pub log : List (Action × DeliveryState)

abbrev pub set_status : ℕ → CourierStatus → Courier → Courier
set_status id st c = if c.id == id then record c { status = st } else c

abbrev pub with_status : Option ℕ → CourierStatus → List Courier → List Courier
with_status none st cs = cs
with_status (some id) st cs = map (set_status id st) cs

abbrev pub or_stay : Option DeliveryState → DeliveryState → DeliveryState
or_stay none st = st
or_stay (some nxt) st = nxt

-- The times that are written with a new state.
abbrev pub stamp : Option DeliveryState → ℕ → Delivery → Delivery
stamp (some accepted) now d = record d { accepted_at = some now }
stamp (some is_ready) now d = record d { ready_at = some now }
stamp (some out_for_delivery) now d = record d { dispatched_at = some now }
stamp (some delivered) now d = record d { delivered_at = some now }
stamp _ now d = d

abbrev courier_id : Option Courier → Option ℕ
courier_id none = none
courier_id (some c) = some c.id

abbrev courier_name : Option Courier → Option String
courier_name none = none
courier_name (some c) = some c.name

-- What else an action writes.
abbrev pub written : Action → Option Courier → String → String → ℕ → Delivery → Delivery
written assign c actor reason now d = record d {
  courier = courier_id c;
  rider = courier_name c;
  assigned_by = actor;
  assigned_at = some now;
}
written unassign c actor reason now d = record d { courier = none; rider = none }
written cancel c actor reason now d = record d { cancel_reason = some reason }
written reject c actor reason now d = record d { reject_reason = some (first_of 200 reason) }
written _ c actor reason now d = d

abbrev pub sent_off : Action → Option Courier → List Courier → List Courier
sent_off assign c cs = with_status (courier_id c) on_delivery cs
sent_off _ c cs = cs

-- A delivery that is over frees the courier it had before the call.
abbrev pub freed : Option DeliveryState → Option ℕ → List Courier → List Courier
freed (some delivered) held cs = with_status held available cs
freed (some cancelled) held cs = with_status held available cs
freed (some rejected) held cs = with_status held available cs
freed _ held cs = cs

-- The checks of what an action needs.
abbrev pub missing : Action → Option Courier → String → Option DeliveryError
missing reject c reason = if is_blank reason then some reason_required else none
missing cancel c reason = if str_eq reason "" then some reason_required else none
missing assign none reason = some courier_required
missing _ c reason = none

abbrev pub move : Action → Option Courier → String → String → ℕ → Option DeliveryState → Desk → Desk
move a c actor reason now nxt desk =
    let d = desk.delivery in
    let st = or_stay nxt d.state in
    record {
      delivery = written a c actor reason now (stamp nxt now (record d { state = st }));
      couriers = freed nxt d.courier (sent_off a c desk.couriers);
      log = (a, st) ∷ desk.log;
    }

abbrev pub is_move : Option DeliveryState → Bool
is_move none = false
is_move (some st) = true

abbrev pub unless_missing : Option DeliveryError → Desk → Desk → Desk × Option DeliveryError
unless_missing (some e) desk moved = (desk, some e)
unless_missing none desk moved = (moved, none)

unfoldable pub transition :
    Action → Option Courier → String → String → Bool → ℕ → Desk → Desk × Option DeliveryError
transition a c actor reason override now desk =
    let st = desk.delivery.state in
    let nxt = legal_next st a in
    if is_over st && not override
    then (desk, some already_over)
    else if not (is_move nxt) && not override
    then (desk, some cannot_do)
    else unless_missing (missing a c reason) desk (move a c actor reason now nxt desk)

-- ## _collect_cod

pub record Till : Type 0 where
  pub delivery : Delivery
  pub order : PosOrder

pub data Collected : Type 0 where
  returned : Option Payment → Collected
  raised : DeliveryError → Collected

-- The cash payment of what is due.
abbrev pub cod_payment_of : String → ℕ → ℤ → Payment
cod_payment_of key method due = record {
  amount = due;
  method = method;
  tender_key = some key;
  confirmation_source = "manual";
  recon_flag = false;
  reference = none;
  authcode = none;
  card_type = none;
  device = none;
}

abbrev pub mark_collected : Option Payment → Till → Till
mark_collected p t = record t {
  delivery = record (t.delivery) { cod_collected = true; cod_payment = p };
}

abbrev pub close_with : Option Payment → Till → Option PosOrder → Till × Collected
close_with p t none = (t, raised order_not_paid)
close_with p t (some o) = (mark_collected p (record t { order = o }), returned p)

-- Once the payment is there.
abbrev pub close : Odoo → Option Payment → Till → Till × Collected
close odoo p t =
    if leb_ℤ (order_remaining t.order) (pos 1) && is_draft t.order.state
    then close_with p t (odoo.mark_paid t.order)
    else (mark_collected p t, returned p)

abbrev pub collect_existing : Odoo → String → ℕ → Till → Option Payment → Till × Collected
collect_existing odoo key method t (some p) = close odoo (some p) t
collect_existing odoo key method t none =
    let due = order_remaining t.order in
    let o = odoo.add_payment (cod_payment_of key method due) t.order in
    close odoo (first (keyed key o.payments)) (record t { order = o })

abbrev pub collect_due : Odoo → String → ℕ → Till → Till × Collected
collect_due odoo key method t =
    if leb_ℤ (order_remaining t.order) (pos 0)
    then (record t { delivery = record (t.delivery) { cod_collected = true } }, returned none)
    else collect_existing odoo key method t (first (keyed key t.order.payments))

abbrev pub collect_once : Bool → Option Payment → Odoo → String → ℕ → Till → Till × Collected
collect_once true (some p) odoo key method t = (t, returned (some p))
collect_once true none odoo key method t = collect_due odoo key method t
collect_once false p odoo key method t = collect_due odoo key method t

abbrev pub collect_in : PaymentMode → Odoo → String → ℕ → Till → Till × Collected
collect_in cod odoo key method t =
    collect_once t.delivery.cod_collected t.delivery.cod_payment odoo key method t
collect_in _ odoo key method t = (t, raised only_cod)

-- `key` is the text `cod-` with the delivery's id, `method` the branch's cash method.
unfoldable pub collect_cod : Odoo → String → ℕ → Till → Till × Collected
collect_cod odoo key method t = collect_in t.delivery.payment_mode odoo key method t
