-- ===== src/Tender/Tests.antt =====
-- Tenders on one order.
use menes_pos.Pay.Ledger.{draft, paid, PosOrder, Odoo, sum_amounts, keyed, order_remaining}
use menes_pos.Order.Guard.{event_of, state_of, check_operation, evaluate}
use menes_pos.Order.Fsm.{apply_event}
use menes_pos.Tender.Policy.{
  validate_payment, Method, device_optional, reference_optional, method_ref, warn,
  credit_manager_approval,
}
use menes_pos.Tender.Credit.{credit_position, credit_gate, Account}
use menes_pos.Tender.Pay.{
  refusal, pay_draft, Cashier, Request, Shop, idempotent, order_pay, prepare, approval,
}
use menes_pos.Tender.Booked.{payment, Tells, order_pay-booked}
use menes_pos.Tender.Keys.{
  is_over_early, Refused, order_pay-unbooked, order_pay-again, pay_all, pay_all-keyed,
}
use menes_pos.Tender.Limits.{Reason, order_pay-credit}
use menes_pos.Prelude.{
  ◌≤◌, String, ◌≡◌, refl, subst, ◌⊎◌, true, false, Option, none, some, some-injective, [], ◌∷◌,
  ◌++◌, arith, str_eq, length, ℤ, pos, ◌+ℤ◌, ◌-ℤ◌, ◌≤ℤ◌, ◌<ℤ◌,
}

abbrev plain_odoo : Odoo
plain_odoo = record {
  add_payment = λ p o. record o { payments = o.payments ++ p ∷ [] };
  mark_paid = λ o. some (record o { state = paid });
  add_payment_adds = λ p o. refl;
  add_payment_total = λ p o. refl;
  mark_paid_payments = λ o o' e. kept o o' e;
}
  where
    kept :
        (o o' : PosOrder)
        → some (record o { state = paid }) ≡ some o'
        → (o'.payments ≡ o.payments) × (o'.amount_total ≡ o.amount_total)
    kept o o' e =
        subst (λ (x : PosOrder). (x.payments ≡ o.payments) × (x.amount_total ≡ o.amount_total))
          (some-injective _ _ e) (refl, refl)

abbrev same : String → String
same s = s

abbrev account_method : Method
account_method = record {
  id = 3;
  is_customer_account = true;
  device_policy = device_optional;
  reference_policy = reference_optional;
  reference_scope = method_ref;
  duplicate_policy = warn;
  credit_policy = credit_manager_approval;
}

abbrev manager : Cashier
manager = record { id = 5; code = "M1"; active = true; role = "manager"; check_pin = str_eq "4711" }

abbrev customer : Account
customer = record {
  credit = pos 900;
  session_pay_later = pos 50 ∷ [];
  credit_limit = pos 1000;
  uses_limit = true;
}

abbrev shop : Shop
shop = record {
  branch = 1;
  guard_mode = "enforce";
  method = account_method;
  accounts = λ p. customer;
  round_2 = λ n. n;
  cashiers = manager ∷ [];
  past = [];
}

abbrev order : PosOrder
order = record { amount_total = pos 300; payments = []; state = draft; partner = none }

abbrev request : Option ℤ → Option String → Request
request n pin = record {
  tender_key = some "k1";
  amount = n;
  device = none;
  payment_ref = none;
  approval_code = none;
  allow_duplicate = false;
  allow_credit = false;
  manager_code = some "M1";
  manager_pin = pin;
  partner = some 8;
  redemption = some (pos 20);
}

abbrev approved : Request
approved = request (some (pos 200)) (some "4711")

abbrev unapproved : Request
unapproved = request (some (pos 200)) (some "0000")

order_pay-booked_example :
    (pos 0 <ℤ pos 200)
    × ((order_pay plain_odoo same shop approved order).0.payments
        ≡ payment plain_odoo same shop approved order ∷ [])
    × (sum_amounts (order_pay plain_odoo same shop approved order).0.payments ≤ℤ pos 281)
    × Tells (order_pay plain_odoo same shop approved order)
unfolding order_pay evaluate check_operation state_of event_of apply_event pay_draft refusal
    validate_payment ◌-ℤ◌ order_remaining credit_gate credit_position ◌+ℤ◌ approval
order_pay-booked_example = order_pay-booked plain_odoo same shop approved order refl

order_pay-unbooked_example :
    (((is_over_early shop unapproved order ≡ true)
        × ((order_pay plain_odoo same shop unapproved order).0 ≡ order))
      ⊎ Refused
          (refusal same shop unapproved (prepare unapproved order))
          (prepare unapproved order)
          (order_pay plain_odoo same shop unapproved order))
    × ((order_pay plain_odoo same shop unapproved order).0.payments ≡ [])
unfolding order_pay evaluate check_operation state_of event_of apply_event pay_draft refusal
    validate_payment ◌-ℤ◌ order_remaining credit_gate credit_position ◌+ℤ◌ approval
order_pay-unbooked_example = order_pay-unbooked plain_odoo same shop unapproved order refl

order_pay-again_example :
    order_pay plain_odoo same shop unapproved (order_pay plain_odoo same shop approved order).0
    ≡ ((order_pay plain_odoo same shop approved order).0, idempotent (pos 80))
unfolding order_pay evaluate check_operation state_of event_of apply_event pay_draft refusal
    validate_payment ◌-ℤ◌ order_remaining credit_gate credit_position ◌+ℤ◌ approval
order_pay-again_example =
    order_pay-again plain_odoo same shop shop approved unapproved order "k1" refl refl refl

pay_all-keyed_example :
    length (
      keyed "k1"
        (pay_all plain_odoo same ((shop, approved) ∷ (shop, approved) ∷ []) order).payments)
    ≤ 1
pay_all-keyed_example =
    pay_all-keyed plain_odoo same ((shop, approved) ∷ (shop, approved) ∷ []) order "k1"
      (omega arith)

order_pay-credit_example :
    (account : Account) × (some customer ≡ some account) × Reason shop approved account (pos 200)
unfolding order_pay evaluate check_operation state_of event_of apply_event pay_draft refusal
    validate_payment ◌-ℤ◌ order_remaining credit_gate credit_position ◌+ℤ◌ approval
order_pay-credit_example = order_pay-credit plain_odoo same shop approved order refl refl
