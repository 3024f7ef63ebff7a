-- ===== src/Order/Guard.antt =====
-- addons/mezze_bridge/domain/order_guard.py: a live operation on a `pos.order` is mapped to the
-- lifecycle of `Order.Fsm`. States, operations and modes are the texts that the callers pass; the
-- message of a verdict is a value with the same parts.
use menes_pos.Prelude.{
  String, ◌≡◌, refl, ◌≢◌, ◌↔◌, ◌⊎◌, inl, inr, Bool, true, false, Option, none, some, List, [], ◌∷◌,
  arith, if◌then◌else◌, str_eq, Option-cases, get, elem, All-get,
}
use menes_pos.Order.Fsm.{
  State, Event, Outcome, open_order, paid, closed, cancelled, add_line, send, pay_partial, pay_full,
  close, cancel, refund, archive, ok, forbidden, apply_event, is_settled, apply_event-cases,
}

abbrev pub odoo_state_map : List (String × State)
odoo_state_map =
    ("draft", open_order)
    ∷ ("paid", paid)
    ∷ ("done", closed)
    ∷ ("invoiced", closed)
    ∷ ("cancel", cancelled)
    ∷ []

abbrev pub op_event_map : List (String × Event)
op_event_map =
    ("pay", pay_full)
    ∷ ("pay_partial", pay_partial)
    ∷ ("refund", refund)
    ∷ ("cancel", cancel)
    ∷ ("close", close)
    ∷ ("comp", add_line)
    ∷ ("modify", add_line)
    ∷ ("add_line", add_line)
    ∷ ("fire", send)
    ∷ []

-- `ODOO_STATE_MAP.get(odoo_state)`
unfoldable pub state_of : String → Option State
state_of state = get odoo_state_map state

-- `OP_EVENT_MAP.get(operation)`
unfoldable pub event_of : String → Option Event
event_of op = get op_event_map op

pub data Reason : Type 0 where
  unknown_state_skipped : String → Reason
  unknown_operation_skipped : String → Reason
  permitted : Reason
  forbidden_op : String → String → Event → Reason

pub record Verdict : Type 0 where
  pub allowed : Bool
  pub event : Option Event
  pub reason : Reason

-- A value of the audit detail.
pub data Detail : Type 0 where
  text : String → Detail
  flag : Bool → Detail
  mapped : Option Event → Detail
  why : Reason → Detail

pub record EvalResult : Type 0 where
  pub blocked : Bool
  pub violation : Bool
  pub verdict : Option Verdict
  pub audit_detail : Option (List (String × Detail))

-- The `try` around `apply_event`.
abbrev try_event : String → String → Event → Outcome State → Verdict
try_event state op e (ok t) = record { allowed = true; event = some e; reason = permitted }
try_event state op e (forbidden s a) = record {
  allowed = false;
  event = some e;
  reason = forbidden_op state op e;
}

abbrev check_event : String → String → State → Option Event → Verdict
check_event state op s none = record {
  allowed = true;
  event = none;
  reason = unknown_operation_skipped op;
}
check_event state op s (some e) = try_event state op e (apply_event s e)

abbrev check_state : String → String → Option State → Verdict
check_state state op none = record {
  allowed = true;
  event = none;
  reason = unknown_state_skipped state;
}
check_state state op (some s) = check_event state op s (event_of op)

unfoldable pub check_operation : String → String → Verdict
check_operation state op = check_state state op (state_of state)

abbrev pub valid_modes : List String
valid_modes = "off" ∷ "observe" ∷ "enforce" ∷ []

-- `detail[key] = value`
abbrev put : String → Detail → List (String × Detail) → List (String × Detail)
put k v [] = (k, v) ∷ []
put k v ((j, w) ∷ d) = let rest = put k v d in if str_eq j k then (j, v) ∷ d else (j, w) ∷ rest

abbrev update : List (String × Detail) → List (String × Detail) → List (String × Detail)
update d [] = d
update d ((k, v) ∷ more) = update (put k v d) more

-- The mode that counts: an unknown one is `observe`.
abbrev pub effective_mode : String → String
effective_mode mode = if elem mode valid_modes then mode else "observe"

abbrev evaluate_verdict : String → String → String → List (String × Detail) → Verdict → EvalResult
evaluate_verdict state op mode ctx v =
    if v.allowed
    then record { blocked = false; violation = false; verdict = some v; audit_detail = none }
    else record {
      blocked = str_eq mode "enforce";
      violation = true;
      verdict = some v;
      audit_detail = some (
          update ctx (
            ("operation", text op)
            ∷ ("server_state", text state)
            ∷ ("mapped_event", mapped v.event)
            ∷ ("reason", why v.reason)
            ∷ ("reason_code", text "forbidden_transition")
            ∷ ("mode", text mode)
            ∷ ("observe_proceeded", flag (str_eq mode "observe"))
            ∷ []));
    }

evaluate_in : String → String → String → List (String × Detail) → EvalResult
evaluate_in state op mode ctx =
    if str_eq mode "off"
    then record { blocked = false; violation = false; verdict = none; audit_detail = none }
    else evaluate_verdict state op mode ctx (check_operation state op)

unfoldable pub evaluate : String → String → String → List (String × Detail) → EvalResult
unfolding evaluate_in
evaluate state op mode ctx = evaluate_in state op (effective_mode mode) ctx

-- What a verdict that is not permitted says of the state and the operation.
check_operation-refused :
    (state op : String)
    → (check_operation state op).allowed ≡ false
    → (s : State) × (e : Event) × (state_of state ≡ some s)
      × (event_of op ≡ some e)
      × (apply_event s e ≡ forbidden s e)
unfolding check_operation
check_operation-refused state op h = elim (Option-cases (state_of state)) [
  | inl unknown ↦ absurd (ground arith)
  | inr (s, hs) ↦ elim (Option-cases (event_of op)) [
    | inl unknown ↦ absurd (ground arith)
    | inr (e, he) ↦ elim (apply_event-cases s e) [
      | inl (t, go) ↦ absurd (ground arith)
      | inr stop ↦ (s, e, hs, he, stop)
    ]
  ]
]

check_operation-forbidden :
    (state op : String) (s : State) (e : Event)
    → state_of state ≡ some s
    → event_of op ≡ some e
    → apply_event s e ≡ forbidden s e
    → (check_operation state op).allowed ≡ false
unfolding check_operation
check_operation-forbidden state op s e hs he h = rw (hs, he, h)

-- In enforce mode an operation is blocked exactly when its state and operation are known and the
-- lifecycle forbids the event that they stand for.
pub evaluate_enforce :
    (state op : String) (ctx : List (String × Detail))
    → ((evaluate state op "enforce" ctx).blocked ≡ true) ↔ (
        (s : State) × (e : Event) × (state_of state ≡ some s)
        × (event_of op ≡ some e)
        × (apply_event s e ≡ forbidden s e))
unfolding evaluate
evaluate_enforce state op ctx = (
  λ h. check_operation-refused state op (ground arith),
  λ r. let no = check_operation-forbidden state op r.0 r.1 r.2 r.3 r.4 in ground arith,
)

-- Observe mode and every mode that is not known never block; except for `off`, every mode finds a
-- violation exactly where enforce mode blocks; `off` neither blocks, finds a violation nor audits.
pub evaluate_modes :
    (state op mode : String) (ctx : List (String × Detail))
    → (str_eq mode "enforce" ≡ false → (evaluate state op mode ctx).blocked ≡ false)
      × (str_eq mode "off" ≡ false
          → (evaluate state op mode ctx).violation ≡ (evaluate state op "enforce" ctx).blocked)
      × (evaluate state op "off" ctx
          ≡ record { blocked = false; violation = false; verdict = none; audit_detail = none })
unfolding evaluate
evaluate_modes state op mode ctx = (
  λ h. not_blocked (effective_mode mode) (stays h),
  λ h. seen (effective_mode mode) (stays_on h),
  refl,
)
  where
    or_observe :
        (known : Bool) (name : String)
        → str_eq mode name ≡ false
        → str_eq "observe" name ≡ false
        → str_eq (if known then mode else "observe") name ≡ false
    or_observe true name h o = h
    or_observe false name h o = o

    stays : str_eq mode "enforce" ≡ false → str_eq (effective_mode mode) "enforce" ≡ false
    stays h = or_observe (elem mode valid_modes) "enforce" h refl

    stays_on : str_eq mode "off" ≡ false → str_eq (effective_mode mode) "off" ≡ false
    stays_on h = or_observe (elem mode valid_modes) "off" h refl

    not_blocked :
        (m : String) → str_eq m "enforce" ≡ false → (evaluate_in state op m ctx).blocked ≡ false
    not_blocked m h = ground arith

    seen :
        (m : String)
        → str_eq m "off" ≡ false
        → (evaluate_in state op m ctx).violation ≡ (evaluate_in state op "enforce" ctx).blocked
    seen m h = ground arith

event_of-ne-archive : (op : String) {e : Event} → event_of op ≡ some e → e ≢ archive
unfolding event_of
event_of-ne-archive op h = All-get (λ e. e ≢ archive) op_event_map op (ground arith) h

settled_event :
    (s : State) (e : Event) {t : State}
    → is_settled s ≡ true
    → e ≢ archive
    → apply_event s e ≡ ok t
    → (e ≡ refund) ⊎ (e ≡ close)
unfolding apply_event is_settled
settled_event s e p n go = ground arith

-- A paid order is immutable: on an order whose lifecycle state is settled, a known operation is
-- permitted only if it stands for `refund` or `close`.
pub check_operation_settled :
    (state op : String) {s : State} {e : Event}
    → state_of state ≡ some s
    → is_settled s ≡ true
    → event_of op ≡ some e
    → (check_operation state op).allowed ≡ true
    → (e ≡ refund) ⊎ (e ≡ close)
unfolding check_operation
check_operation_settled state op {s} {e} hs p he k = elim (apply_event-cases s e) [
  | inl (t, go) ↦ settled_event s e p (event_of-ne-archive op he) go
  | inr stop ↦ absurd (ground arith)
]
