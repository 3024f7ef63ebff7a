-- ===== src/Pay/Tests.antt =====
-- Runs of the tenders, over an Odoo that adds a payment at the end and marks every order paid.
use menes_pos.Prelude.{
  String, ◌≡◌, refl, subst, false, Option, none, some, some-injective, List, [], ◌∷◌, ◌++◌, arith,
  pos, ◌≤ℤ◌, int_laws,
}
use menes_pos.Pay.Ledger.{draft, paid, PosOrder, Odoo, order_remaining}
use menes_pos.Pay.Terminal.{waiting_customer, terminal_kind, Txn, World, Method, Started, opened}
use menes_pos.Pay.Settlement.{inserted}
use menes_pos.Pay.Sound.{IsSound}
use menes_pos.Pay.TerminalLaws.{Call, apply, force, calls, calls-IsSound}
use menes_pos.Pay.Authority.{inserted-covers}
use menes_pos.Pay.Qr.{pending, PaymentQr, QrMethod, QrWorld, confirm}
use menes_pos.Pay.QrLaws.{QrSound, confirm_it, cancel_qr_it, qr_calls, qr_calls-QrSound}

abbrev pub simple_odoo : Odoo
simple_odoo = record {
  add_payment = λ p o. record o { payments = o.payments ++ p ∷ [] };
  mark_paid = λ o. some (record o { state = paid });
  add_payment_adds = λ p o. refl;
  add_payment_total = λ p o. refl;
  mark_paid_payments = λ o o' e. kept o o' e;
}
  where
    kept :
        (o o' : PosOrder)
        → some (record o { state = paid }) ≡ some o'
        → (o'.payments ≡ o.payments) × (o'.amount_total ≡ o.amount_total)
    kept o o' e =
        subst (λ (x : PosOrder). (x.payments ≡ o.payments) × (x.amount_total ≡ o.amount_total))
          (some-injective _ _ e) (refl, refl)

abbrev pub new_order : PosOrder
new_order = record { amount_total = pos 1000; payments = []; state = draft; partner = none }

abbrev attempt : String → Txn
attempt provider = record {
  request_id = "t-1";
  kind = terminal_kind;
  method = 3;
  device = none;
  provider = provider;
  amount = pos 1000;
  state = waiting_customer;
  uncertain = false;
  provider_reference = none;
  authcode = none;
  card_type = none;
  pos_payment = none;
  force_done = false;
  sim_scenario = some "unknown";
  error_code = "";
  inserted_amount = pos 0;
  change_amount = pos 0;
  sim_inserted = pos 0;
}

abbrev world : String → World
world provider = record { txn = attempt provider; order = new_order; log = [] }

world-IsSound : IsSound (world "test")
unfolding order_remaining
world-IsSound = record { one_payment = omega arith; not_overpaid = omega int_laws }

abbrev some_calls : List Call
some_calls =
    apply (some "approved") ∷ force (some 9) "slip 77" ∷ force (some 9) "again" ∷ apply none ∷ []

calls-IsSound_example : IsSound (calls simple_odoo some_calls (world "test"))
calls-IsSound_example = calls-IsSound simple_odoo some_calls (world "test") world-IsSound

abbrev card : Method
card = record { id = 3; allow_partial = false; terminal_provider = "test" }

abbrev is_opened : Started → Option Txn
is_opened (opened t) = some t
is_opened _ = none

abbrev started : Txn
started = record (attempt "test") { sim_scenario = none }

inserted-covers_example : pos 1000 ≤ℤ inserted started
inserted-covers_example = inserted-covers started

abbrev qr_method : QrMethod
qr_method = record {
  id = 5;
  payment_method_type = "qr_code";
  qr_code_method = "sct_qr";
  journal_type = "bank";
  bank_account = some 1;
  allow_partial = false;
}

abbrev qr : PaymentQr
qr = record {
  token = "mzq-1";
  method = 5;
  amount = pos 1000;
  remaining_snapshot = pos 1000;
  qr_method = "sct_qr";
  reference = "Order 7";
  state = pending;
  pos_payment = none;
}

abbrev qr_world : QrWorld
qr_world = record { qr = qr; order = new_order; log = [] }

qr_world-QrSound : QrSound qr_world
qr_world-QrSound = record { one_payment = omega arith; within_a_unit = omega int_laws }

qr_calls-QrSound_example :
    QrSound (qr_calls simple_odoo (confirm_it ∷ confirm_it ∷ cancel_qr_it ∷ []) qr_world)
qr_calls-QrSound_example =
    qr_calls-QrSound simple_odoo (confirm_it ∷ confirm_it ∷ cancel_qr_it ∷ []) qr_world
      qr_world-QrSound

abbrev confirmed_world : QrWorld
confirmed_world = (confirm simple_odoo qr_world).0
