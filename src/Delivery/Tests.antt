-- ===== src/Delivery/Tests.antt =====
-- Runs of a delivery.
use menes_pos.Prelude.{
  ℕ, ◌≡◌, refl, subst, true, false, Option, none, some, some-injective, List, [], ◌∷◌, ◌++◌, arith,
  pos, int_laws,
}
use menes_pos.Pay.Ledger.{draft, paid, PosOrder, Odoo}
use menes_pos.Delivery.Dispatch.{
  DeliveryState, out_for_delivery, is_ready, delivered, Action, assign, out, deliver, Courier,
  available, on_delivery, Delivery, cod, Desk, Till,
}
use menes_pos.Delivery.Moves.{is_shown, Order, obey_all, obey_all-is_shown}
use menes_pos.Delivery.Cash.{IsSound, collect_times, collect_times-IsSound}

abbrev simple_odoo : Odoo
simple_odoo = record {
  add_payment = λ p o. record o { payments = o.payments ++ p ∷ [] };
  mark_paid = λ o. some (record o { state = paid });
  add_payment_adds = λ p o. refl;
  add_payment_total = λ p o. refl;
  mark_paid_payments = λ o o' e. kept o o' e;
}
  where
    kept :
        (o o' : PosOrder)
        → some (record o { state = paid }) ≡ some o'
        → (o'.payments ≡ o.payments) × (o'.amount_total ≡ o.amount_total)
    kept o o' e =
        subst (λ (x : PosOrder). (x.payments ≡ o.payments) × (x.amount_total ≡ o.amount_total))
          (some-injective _ _ e) (refl, refl)

abbrev courier : Courier
courier = record { id = 4; name = "Nour"; status = available }

abbrev parcel : DeliveryState → Option ℕ → Delivery
parcel st held = record {
  id = 11;
  payment_mode = cod;
  cod_collected = false;
  cod_payment = none;
  courier = held;
  rider = none;
  assigned_by = "";
  assigned_at = none;
  state = st;
  cancel_reason = none;
  reject_reason = none;
  accepted_at = none;
  ready_at = none;
  dispatched_at = some 50;
  delivered_at = none;
}

abbrev desk : Desk
desk = record { delivery = parcel is_ready none; couriers = courier ∷ []; log = [] }

abbrev order_to : Action → Option Courier → Order
order_to a c = record {
  action = a;
  courier = c;
  actor = "Sami";
  reason = "";
  override = false;
  now = 60;
}

abbrev orders : List Order
orders = order_to assign (some courier) ∷ order_to out none ∷ order_to deliver none ∷ []

obey_all-is_shown_example : is_shown (obey_all orders desk).delivery ≡ true
unfolding is_shown
obey_all-is_shown_example = obey_all-is_shown orders desk refl

abbrev over_desk : Desk
over_desk = record { delivery = parcel delivered (some 4); couriers = courier ∷ []; log = [] }

abbrev road_desk : Desk
road_desk = record {
  delivery = parcel out_for_delivery (some 4);
  couriers = record courier { status = on_delivery } ∷ [];
  log = [];
}

abbrev till : Till
till = record {
  delivery = parcel delivered (some 4);
  order = record { amount_total = pos 1000; payments = []; state = draft; partner = none };
}

till-IsSound : IsSound "cod-11" till.order
till-IsSound = record { one_payment = omega arith; not_overpaid = omega int_laws }

collect_times-IsSound_example : IsSound "cod-11" (collect_times 3 simple_odoo "cod-11" 2 till).order
collect_times-IsSound_example = collect_times-IsSound 3 simple_odoo "cod-11" 2 till till-IsSound
