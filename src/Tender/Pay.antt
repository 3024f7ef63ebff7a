-- ===== src/Tender/Pay.antt =====
-- addons/mezze_bridge/controllers/main.py: `order_pay`, from the order that was found on, in minor
-- units. Not modelled: the authorization before it, which is that of every endpoint, the loyalty points,
-- audit lines and messages after it, and the texts of the answer. What was
-- paid is the sum of the payments.
use menes_pos.Pay.Ledger.{
  OrderState, draft, paid, done, invoiced, cancel, is_draft, given, Payment, PosOrder, Odoo,
  order_remaining, keyed, sum_amounts,
}
use menes_pos.Order.Guard.{evaluate}
use menes_pos.Tender.Policy.{
  Method, DuplicatePolicy, warn, Device, Past, Rejection, Checked, rejected, checked, device_id,
  validate_payment,
}
use menes_pos.Tender.Credit.{
  Account, AuthError, bad_credentials, insufficient_role, CreditError, Approval, credit_gate,
}
use menes_pos.Prelude.{
  ℕ, String, Bool, true, false, not, ◌&&◌, ◌||◌, Option, none, some, List, [], ◌∷◌, ltb,
  if◌then◌else◌, str_eq, get_or, or_absent, ℤ, pos, ◌-ℤ◌, ltb_ℤ, leb_ℤ,
}

-- A row of `mezze.cashier`.
pub record Cashier : Type 0 where
  pub id : ℕ
  pub code : String
  pub active : Bool
  pub role : String
  pub check_pin : String → Bool

pub record Request : Type 0 where
  pub tender_key : Option String
  pub amount : Option ℤ
  pub device : Option Device
  pub payment_ref : Option String
  pub approval_code : Option String
  pub allow_duplicate : Bool
  pub allow_credit : Bool
  pub manager_code : Option String
  pub manager_pin : Option String
  -- `int(partner_id)`, where it is there and not zero
  pub partner : Option ℕ
  -- what the redeemed discount comes to with tax
  pub redemption : Option ℤ

-- The order's surroundings: its configuration, the accounts of the customers, the payments of all
-- orders, and the cashiers of the whole database, of whatever branch. `round_2` is Python's
-- `round(x, 2)`, from minor units of the currency to minor units; it is not the identity where the
-- currency has more than two decimals.
pub record Shop : Type 0 where
  pub branch : ℕ
  pub guard_mode : String
  pub method : Method
  pub accounts : ℕ → Account
  pub round_2 : ℤ → ℤ
  pub cashiers : List Cashier
  pub past : List Past

pub data Refusal : Type 0 where
  forbidden_transition invalid_amount overpay : Refusal
  payment_rejected : Rejection → Refusal
  not_approved : AuthError → Refusal
  duplicate_needs_manager duplicate_warn : Refusal
  credit_refused : CreditError → Refusal

-- The answers; a number is the remaining balance. `failed` is `pay_failed`, of an exception of Odoo.
pub data Answer : Type 0 where
  idempotent partial : ℤ → Answer
  already final failed : Answer
  refused : Refusal → Answer

abbrev pub state_text : OrderState → String
state_text draft = "draft"
state_text paid = "paid"
state_text done = "done"
state_text invoiced = "invoiced"
state_text cancel = "cancel"

-- ## The manager's approval

abbrev pub role_rank : List (String × ℕ)
role_rank = ("cashier", 0) ∷ ("supervisor", 1) ∷ ("manager", 2) ∷ []

abbrev pub find_cashier : String → List Cashier → Option Cashier
find_cashier code [] = none
find_cashier code (c ∷ cs) = if str_eq c.code code && c.active then some c else find_cashier code cs

abbrev pub approve_by : String → Option Cashier → Approval
approve_by pin none = record { manager = none; auth_error = some bad_credentials }
approve_by pin (some c) =
    if not (c.check_pin pin)
    then record { manager = none; auth_error = some bad_credentials }
    else if ltb (get_or role_rank c.role 0) 2
    then record { manager = none; auth_error = some insufficient_role }
    else record { manager = some c.id; auth_error = none }

abbrev pub no_approval : Approval
no_approval = record { manager = none; auth_error = none }

abbrev pub approval_of : List Cashier → Option String → Option String → Approval
approval_of cs (some code) (some pin) = approve_by pin (find_cashier code cs)
approval_of cs _ _ = no_approval

unfoldable pub approval : Shop → Request → Approval
approval shop r = approval_of shop.cashiers (or_absent r.manager_code) (or_absent r.manager_pin)

abbrev pub has_manager : Approval → Bool
has_manager a = elim a.manager [ none ↦ false | some m ↦ true ]

-- ## The tender

abbrev pub redeem : Option ℤ → PosOrder → PosOrder
redeem none o = o
redeem (some d) o = record o { amount_total = o.amount_total -ℤ d }

-- `if partner_id and not order.partner_id`
abbrev pub set_partner : ℕ → Option ℕ → PosOrder → PosOrder
set_partner p none o = record o { partner = some p }
set_partner p (some q) o = o

abbrev pub with_partner : Option ℕ → PosOrder → PosOrder
with_partner none o = o
with_partner (some p) o = set_partner p o.partner o

-- What is written to a draft order before anything is checked.
abbrev pub prepare : Request → PosOrder → PosOrder
prepare r o = redeem r.redemption (with_partner r.partner o)

abbrev pub account_of : Shop → PosOrder → Option Account
account_of shop o = elim o.partner [ none ↦ none | some p ↦ some (shop.accounts p) ]

abbrev pub is_warn : DuplicatePolicy → Bool
is_warn warn = true
is_warn _ = false

abbrev pub has_any : List Past → Bool
has_any [] = false
has_any (p ∷ ps) = true

abbrev pub manager_needed : Approval → Refusal
manager_needed a = elim a.auth_error [ some e ↦ not_approved e | none ↦ duplicate_needs_manager ]

-- What the policies refuse, before the amount is looked at.
abbrev pub by_checks : Shop → Request → Approval → Checked → Option Refusal
by_checks shop r a (rejected why) = some (payment_rejected why)
by_checks shop r a (checked p) =
    if p.needs_manager && not (has_manager a)
    then some (manager_needed a)
    else if has_any p.duplicates
        && is_warn shop.method.duplicate_policy
        && not (r.allow_duplicate || has_manager a)
    then some duplicate_warn
    else none

abbrev pub tender_of : Request → ℤ → ℤ
tender_of r remaining = elim r.amount [ none ↦ remaining | some n ↦ n ]

-- One minor unit of tolerance, `eps`.
abbrev pub by_amount : ℤ → ℤ → Option Refusal
by_amount tender remaining =
    if leb_ℤ tender (pos 0)
    then some invalid_amount
    else if ltb_ℤ (pos 1) (tender -ℤ remaining)
    then some overpay
    else none

abbrev pub by_credit : Option CreditError → Option Refusal
by_credit none = none
by_credit (some e) = some (credit_refused e)

abbrev pub or_else : Option Refusal → Option Refusal → Option Refusal
or_else none next = next
or_else (some why) next = some why

-- Why a tender on a draft order is refused, in the order of the code's checks.
unfoldable pub refusal : (String → String) → Shop → Request → PosOrder → Option Refusal
refusal strip shop r o =
    let a = approval shop r in
    let tender = tender_of r (order_remaining o) in
    or_else
      (by_checks shop r a (
        validate_payment strip shop.method shop.branch r.device r.payment_ref
          (r.allow_duplicate || has_manager a) shop.past))
      (or_else (by_amount tender (order_remaining o))
        (by_credit (credit_gate shop.method tender a r.allow_credit (account_of shop o))))

abbrev pub stripped : (String → String) → Option String → Option String
stripped strip o = elim (or_absent o) [ none ↦ none | some s ↦ some (strip s) ]

abbrev pub payment_of : (String → String) → Shop → Request → ℤ → Payment
payment_of strip shop r tender = record {
  amount = tender;
  method = shop.method.id;
  tender_key = or_absent r.tender_key;
  confirmation_source = "manual";
  recon_flag = false;
  reference = elim (stripped strip r.payment_ref) [ none ↦ none | some s ↦ some (given s) ];
  authcode = stripped strip r.approval_code;
  card_type = none;
  device = device_id r.device;
}

abbrev pub marked : PosOrder → Option PosOrder → PosOrder × Answer
marked o none = (o, failed)
marked o (some o') = (o', final)

-- The order is settled when one minor unit or less is left; an exception then leaves the payment.
abbrev pub finalise : Odoo → PosOrder → PosOrder × Answer
finalise odoo o =
    if leb_ℤ (order_remaining o) (pos 1)
    then marked o (odoo.mark_paid o)
    else (o, partial (order_remaining o))

abbrev pub book_unless : Odoo → Payment → PosOrder → Option Refusal → PosOrder × Answer
book_unless odoo p o (some why) = (o, refused why)
book_unless odoo p o none = finalise odoo (odoo.add_payment p o)

-- A tender on a draft order, the customer and the redemption written.
unfoldable pub pay_draft : Odoo → (String → String) → Shop → Request → PosOrder → PosOrder × Answer
pay_draft odoo strip shop r o =
    book_unless odoo (payment_of strip shop r (tender_of r (order_remaining o))) o
      (refusal strip shop r o)

abbrev pub has_payments : List Payment → Bool
has_payments [] = false
has_payments (p ∷ ps) = true

-- The tender key was seen on a payment of the order.
abbrev pub is_seen : Option String → PosOrder → Bool
is_seen none o = false
is_seen (some k) o = has_payments (keyed k o.payments)

-- What a retry is told to remain: rounded to two decimals, whatever the currency has.
abbrev pub told_remaining : Shop → PosOrder → ℤ
told_remaining shop o = shop.round_2 (o.amount_total -ℤ shop.round_2 (sum_amounts o.payments))

unfoldable pub order_pay : Odoo → (String → String) → Shop → Request → PosOrder → PosOrder × Answer
order_pay odoo strip shop r o =
    if is_seen (or_absent r.tender_key) o
    then (o, idempotent (told_remaining shop o))
    else if (evaluate (state_text o.state) "pay" shop.guard_mode []).blocked
    then (o, refused forbidden_transition)
    else if not (is_draft o.state)
    then (o, already)
    else pay_draft odoo strip shop r (prepare r o)
