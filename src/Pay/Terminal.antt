-- ===== src/Pay/Terminal.antt =====
-- addons/mezze_bridge/models/mezze_terminal_txn.py: one attempt at an integrated terminal or a cash
-- machine. A method works on the attempt, its order and the audit trail; what it has written stays
-- when it raises, since the controllers catch the exception and answer with it.
use menes_pos.Prelude.{
  ℕ, String, Bool, true, false, not, ◌&&◌, Option, none, some, List, [], ◌∷◌, if◌then◌else◌, str_eq,
  any, get_or, ℤ, pos, ◌+ℤ◌, ltb_ℤ, leb_ℤ,
}
use menes_pos.Pay.Ledger.{Reference, Payment, PosOrder, order_remaining}

pub data TxnState : Type 0 where
  ready sending waiting_customer processing approved declined cancelled error timeout unknown :
      TxnState

pub data Kind : Type 0 where
  terminal_kind cash_machine_kind : Kind

pub record Txn : Type 0 where
  pub request_id : String
  pub kind : Kind
  pub method : ℕ
  pub device : Option ℕ
  pub provider : String
  pub amount : ℤ
  pub state : TxnState
  pub uncertain : Bool
  pub provider_reference : Option Reference
  pub authcode : Option String
  pub card_type : Option String
  pub pos_payment : Option Payment
  pub force_done : Bool
  pub sim_scenario : Option String
  pub error_code : String
  pub inserted_amount : ℤ
  pub change_amount : ℤ
  pub sim_inserted : ℤ

pub data LogEntry : Type 0 where
  outcome_mismatch : String → TxnState → LogEntry
  terminal_cancelled : String → LogEntry
  forced_done : String → ℕ → String → LogEntry

pub data Error : Type 0 where
  already_in_progress already_fully_paid amount_not_positive exceeds_remaining : Error
  partial_not_allowed integration_pending cannot_cancel_approved manager_required : Error
  reason_required not_eligible order_not_paid : Error

pub record World : Type 0 where
  pub txn : Txn
  pub order : PosOrder
  pub log : List LogEntry

-- A method's end: the world it leaves, and the exception if it raised one.
abbrev pub Ended : Type 0
Ended = World × Option Error

-- `A; B`, where `B` runs only if `A` has not raised.
abbrev pub and_then : Ended → (World → Ended) → Ended
and_then (w, none) f = f w
and_then (w, some e) f = (w, some e)

abbrev pub is_active : TxnState → Bool
is_active sending = true
is_active waiting_customer = true
is_active processing = true
is_active _ = false

abbrev pub is_uncertain : TxnState → Bool
is_uncertain error = true
is_uncertain timeout = true
is_uncertain unknown = true
is_uncertain _ = false

-- The text of a state.
abbrev pub state_text : TxnState → String
state_text ready = "ready"
state_text sending = "sending"
state_text waiting_customer = "waiting_customer"
state_text processing = "processing"
state_text approved = "approved"
state_text declined = "declined"
state_text cancelled = "cancelled"
state_text error = "error"
state_text timeout = "timeout"
state_text unknown = "unknown"

abbrev pub sim_outcomes : List (String × TxnState)
sim_outcomes =
    ("success", approved)
    ∷ ("delayed_success", approved)
    ∷ ("duplicate_success", approved)
    ∷ ("decline", declined)
    ∷ ("cancel", cancelled)
    ∷ ("error", error)
    ∷ ("timeout", timeout)
    ∷ ("unknown", unknown)
    ∷ []

abbrev pub cash_sim_outcomes : List (String × TxnState)
cash_sim_outcomes =
    ("success_exact", approved)
    ∷ ("success_with_change", approved)
    ∷ ("delayed_success", approved)
    ∷ ("duplicate_success", approved)
    ∷ ("cancel", cancelled)
    ∷ ("connection_error", cancelled)
    ∷ ("unknown", unknown)
    ∷ []

-- `text or other`: an empty or missing text is false.
abbrev pub text_or : Option String → String → String
text_or none d = d
text_or (some s) d = if str_eq s "" then d else s

unfoldable pub sim_outcome : Txn → TxnState
sim_outcome t = get_or sim_outcomes (text_or t.sim_scenario "success") approved

unfoldable pub cash_sim_outcome : Txn → TxnState
cash_sim_outcome t = get_or cash_sim_outcomes (text_or t.sim_scenario "success_exact") approved

abbrev pub is_test : Txn → Bool
is_test t = str_eq t.provider "test"

abbrev pub or_reference : Option Reference → Reference → Reference
or_reference none r = r
or_reference (some old) r = old

-- ## mezze_start

pub record Method : Type 0 where
  pub id : ℕ
  pub allow_partial : Bool
  pub terminal_provider : String

abbrev pub requested : Option ℤ → ℤ → ℤ
requested none remaining = remaining
requested (some a) remaining = a

abbrev new_txn : String → Method → Option ℕ → String → ℤ → Txn
new_txn request_id method device provider amount = record {
  request_id = request_id;
  kind = terminal_kind;
  method = method.id;
  device = device;
  provider = text_or (some provider) method.terminal_provider;
  amount = amount;
  state = waiting_customer;
  uncertain = false;
  provider_reference = none;
  authcode = none;
  card_type = none;
  pos_payment = none;
  force_done = false;
  sim_scenario = none;
  error_code = "";
  inserted_amount = pos 0;
  change_amount = pos 0;
  sim_inserted = pos 0;
}

pub data Started : Type 0 where
  opened : Txn → Started
  refused : Error → Started

-- The attempts are those of the order. `request_id` is the minted one.
unfoldable pub start :
    String → List Txn → PosOrder → Method → Option ℕ → Option ℤ → String → Started
start request_id txns order method device amount provider =
    let remaining = order_remaining order in
    let req = requested amount remaining in
    if any (λ (t : Txn). is_active t.state) txns
    then refused already_in_progress
    else if leb_ℤ remaining (pos 1)
    then refused already_fully_paid
    else if leb_ℤ req (pos 0)
    then refused amount_not_positive
    else if ltb_ℤ (remaining +ℤ pos 1) req
    then refused exceeds_remaining
    else if ltb_ℤ (req +ℤ pos 1) remaining && not method.allow_partial
    then refused partial_not_allowed
    else opened (new_txn request_id method device provider req)

abbrev as_cash_machine : Started → Started
as_cash_machine (opened t) = opened (record t { kind = cash_machine_kind })
as_cash_machine (refused e) = refused e

unfoldable pub start_cashmachine :
    String → List Txn → PosOrder → Method → Option ℕ → Option ℤ → Started
unfolding start
start_cashmachine request_id txns order method device amount =
    as_cash_machine (start request_id txns order method device amount method.terminal_provider)

-- ## mezze_cancel

abbrev pub cancel_from : TxnState → World → Ended
cancel_from approved w = (w, some cannot_cancel_approved)
cancel_from declined w = (w, none)
cancel_from cancelled w = (w, none)
cancel_from _ w = (
  record w {
    txn = record (w.txn) { state = cancelled; uncertain = false };
    log = terminal_cancelled w.txn.request_id ∷ w.log;
  },
  none,
)

unfoldable pub cancel : World → Ended
cancel w = cancel_from w.txn.state w
