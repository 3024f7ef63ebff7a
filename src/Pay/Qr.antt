-- ===== src/Pay/Qr.antt =====
-- addons/mezze_bridge/models/mezze_payment_qr.py: a bank-app QR, from its generation to the cashier's
-- confirmation or its cancellation. The QR's image and payload are Odoo's, and are not modelled.
use menes_pos.Prelude.{
  ℕ, String, Bool, true, false, not, ◌&&◌, ◌||◌, Option, none, some, List, ◌∷◌, if◌then◌else◌,
  str_eq, ℤ, pos, ◌+ℤ◌, ◌-ℤ◌, ltb_ℤ, leb_ℤ, abs,
}
use menes_pos.Pay.Ledger.{is_draft, head_of, Payment, PosOrder, Odoo, order_remaining, keyed, first}

pub data QrState : Type 0 where
  pending confirmed cancelled : QrState

pub record PaymentQr : Type 0 where
  pub token : String
  pub method : ℕ
  pub amount : ℤ
  pub remaining_snapshot : ℤ
  pub qr_method : String
  pub reference : String
  pub state : QrState
  pub pos_payment : Option Payment

pub record QrMethod : Type 0 where
  pub id : ℕ
  pub payment_method_type : String
  pub qr_code_method : String
  pub journal_type : String
  pub bank_account : Option ℕ
  pub allow_partial : Bool

pub data QrError : Type 0 where
  not_a_qr_method no_bank_account already_fully_paid amount_not_positive : QrError
  exceeds_remaining partial_not_allowed cannot_cancel_confirmed : QrError
  was_cancelled order_changed order_not_paid : QrError

pub data QrLog : Type 0 where
  qr_cancelled : String → QrLog
  qr_confirmed : String → ℤ → QrLog

-- ## mezze_generate

pub data Generated : Type 0 where
  made : PaymentQr → Generated
  refused : QrError → Generated

abbrev is_set : Option ℕ → Bool
is_set none = false
is_set (some n) = true

abbrev pub asked : Option ℤ → ℤ → ℤ
asked none remaining = remaining
asked (some a) remaining = a

-- `token` is the minted one, `reference` the order's.
unfoldable pub generate : String → String → PosOrder → QrMethod → Option ℤ → Generated
generate token reference order method amount =
    let remaining = order_remaining order in
    let amt = asked amount remaining in
    if not (str_eq method.payment_method_type "qr_code") || str_eq method.qr_code_method ""
    then refused not_a_qr_method
    else if not (str_eq method.journal_type "bank") || not (is_set method.bank_account)
    then refused no_bank_account
    else if leb_ℤ remaining (pos 1)
    then refused already_fully_paid
    else if leb_ℤ amt (pos 0)
    then refused amount_not_positive
    else if ltb_ℤ (pos 1) (amt -ℤ remaining)
    then refused exceeds_remaining
    else if ltb_ℤ (amt +ℤ pos 1) remaining && not method.allow_partial
    then refused partial_not_allowed
    else made (record {
      token = token;
      method = method.id;
      amount = amt;
      remaining_snapshot = remaining;
      qr_method = method.qr_code_method;
      reference = reference;
      state = pending;
      pos_payment = none;
    })

-- ## The world of a QR, and how its methods end

pub record QrWorld : Type 0 where
  pub qr : PaymentQr
  pub order : PosOrder
  pub log : List QrLog

pub data QrEnd : Type 0 where
  returned : Option Payment → QrEnd
  raised : QrError → QrEnd

-- ## mezze_cancel

abbrev pub cancel_qr_from : QrState → QrWorld → QrWorld × QrEnd
cancel_qr_from confirmed w = (w, raised cannot_cancel_confirmed)
cancel_qr_from cancelled w = (w, returned none)
cancel_qr_from pending w = (
  record w { qr = record (w.qr) { state = cancelled }; log = qr_cancelled w.qr.token ∷ w.log },
  returned none,
)

unfoldable pub cancel_qr : QrWorld → QrWorld × QrEnd
cancel_qr w = cancel_qr_from w.qr.state w

-- ## mezze_confirm

abbrev pub qr_payment : PaymentQr → Payment
qr_payment q = record {
  amount = q.amount;
  method = q.method;
  tender_key = some q.token;
  confirmation_source = "manual";
  recon_flag = false;
  reference = some (head_of 64 q.reference);
  authcode = none;
  card_type = none;
  device = none;
}

abbrev pub confirmed_with : Option Payment → QrWorld → QrWorld
confirmed_with p w = record w { qr = record (w.qr) { state = confirmed; pos_payment = p } }

abbrev pub log_confirmed : Option Payment → QrWorld → QrWorld × QrEnd
log_confirmed p w = (record w { log = qr_confirmed w.qr.token w.qr.amount ∷ w.log }, returned p)

-- `action_pos_order_paid`, which may raise.
abbrev pub pay_order : Option Payment → QrWorld → Option PosOrder → QrWorld × QrEnd
pay_order p w none = (w, raised order_not_paid)
pay_order p w (some o) = log_confirmed p (record w { order = o })

abbrev pub finish : Odoo → Option Payment → QrWorld → QrWorld × QrEnd
finish odoo p w =
    if leb_ℤ (order_remaining w.order) (pos 1) && is_draft w.order.state
    then pay_order p w (odoo.mark_paid w.order)
    else log_confirmed p w

abbrev pub confirm_existing : Odoo → QrWorld → Option Payment → QrWorld × QrEnd
confirm_existing odoo w (some p) = (confirmed_with (some p) w, returned (some p))
confirm_existing odoo w none =
    let o = odoo.add_payment (qr_payment w.qr) w.order in
    let p = first (keyed w.qr.token o.payments) in
    finish odoo p (confirmed_with p (record w { order = o }))

abbrev pub confirm_from : QrState → Odoo → QrWorld → QrWorld × QrEnd
confirm_from confirmed odoo w = (w, returned w.qr.pos_payment)
confirm_from cancelled odoo w = (w, raised was_cancelled)
confirm_from pending odoo w =
    let now = order_remaining w.order in
    if ltb_ℤ (pos 1) (pos (abs (now -ℤ w.qr.remaining_snapshot)))
    then (w, raised order_changed)
    else if ltb_ℤ (pos 1) (w.qr.amount -ℤ now)
    then (w, raised exceeds_remaining)
    else confirm_existing odoo w (first (keyed w.qr.token w.order.payments))

unfoldable pub confirm : Odoo → QrWorld → QrWorld × QrEnd
confirm odoo w = confirm_from w.qr.state odoo w
