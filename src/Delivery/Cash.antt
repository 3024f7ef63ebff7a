-- ===== src/Delivery/Cash.antt =====
-- addons/mezze_bridge/models/delivery.py: the cash that is collected for a delivery.
use menes_pos.Prelude.{
  ℕ, zero, suc, ◌≤◌, String, ◌≡◌, refl, sym, ap, ◌∙◌, subst, inl, inr, Bool, true, false, ◌&&◌,
  Option, none, some, [], ◌∷◌, ◌++◌, arith, str_eq_iff, Bool-cases, Option-cases, length, pos, ◌≤ℤ◌,
  ◌<ℤ◌, leb_ℤ, int_laws,
}
use menes_pos.Pay.Ledger.{
  first-none, is_draft, Payment, PosOrder, Odoo, order_remaining, keyed, first, NotOverpaid,
  sum_amounts-append, keyed-append,
}
use menes_pos.Delivery.Dispatch.{
  PaymentMode, cod, online, prepaid, Till, Collected, cod_payment_of, close, collect_existing,
  collect_due, collect_once, collect_in, collect_cod,
}

-- One cash payment at most, and an order that is not overpaid.
pub record IsSound (key : String) (o : PosOrder) : Type 0 where
  pub one_payment : length (keyed key o.payments) ≤ 1
  pub not_overpaid : NotOverpaid o

-- An order that is paid in full, or was already.
abbrev Paid : PosOrder → Type 0
Paid o = order_remaining o ≤ℤ pos 0

module _ (odoo : Odoo) (key : String) where
  close-kept :
      (p : Option Payment) (t : Till)
      → ((close odoo p t).0.order.payments ≡ t.order.payments)
        × ((close odoo p t).0.order.amount_total ≡ t.order.amount_total)
  close-kept p t =
      elim (Bool-cases (leb_ℤ (order_remaining t.order) (pos 1) && is_draft t.order.state)) [
        | inr later ↦ rw later (refl, refl)
        | inl settled ↦ elim (Option-cases (odoo.mark_paid t.order)) [
          | inl raises ↦ rw (settled, raises) (refl, refl)
          | inr (o, e) ↦ rw (settled, e) (odoo.mark_paid_payments t.order o e)
        ]
      ]

  close-IsSound :
      (p : Option Payment) (t : Till) → IsSound key t.order → IsSound key (close odoo p t).0.order
  close-IsSound p t s =
      let (payments, total) = close-kept p t in
      record {
        one_payment = rw payments s.one_payment;
        not_overpaid = rw (payments, total) s.not_overpaid;
      }

  existing-IsSound :
      (method : ℕ) (t : Till) (found : Option Payment)
      → first (keyed key t.order.payments) ≡ found
      → IsSound key t.order
      → IsSound key (collect_existing odoo key method t found).0.order
  unfolding order_remaining
  existing-IsSound method t (some p) e s = close-IsSound (some p) t s
  existing-IsSound method t none e s =
      let p = cod_payment_of key method (order_remaining t.order) in
      let adds = odoo.add_payment_adds p t.order in
      close-IsSound _ (record t { order = odoo.add_payment p t.order })
        (record {
          one_payment =
              rw
                (
                  adds,
                  keyed-append key t.order.payments p ((str_eq_iff key key).1 refl),
                  first-none _ e,
                )
                (omega arith);
          not_overpaid =
              rw (adds, odoo.add_payment_total p t.order, sum_amounts-append t.order.payments p)
                (omega int_laws);
        })

  due-IsSound :
      (method : ℕ) (t : Till)
      → IsSound key t.order
      → IsSound key (collect_due odoo key method t).0.order
  due-IsSound method t s = elim (Bool-cases (leb_ℤ (order_remaining t.order) (pos 0))) [
    | inl nothing ↦ rw nothing s
    | inr some_due ↦ rw some_due (existing-IsSound method t _ refl s)
  ]

  once-IsSound :
      (was : Bool) (p : Option Payment) (method : ℕ) (t : Till)
      → IsSound key t.order
      → IsSound key (collect_once was p odoo key method t).0.order
  once-IsSound true (some p) method t s = s
  once-IsSound true none method t s = due-IsSound method t s
  once-IsSound false p method t s = due-IsSound method t s

  in-IsSound :
      (mode : PaymentMode) (method : ℕ) (t : Till)
      → IsSound key t.order
      → IsSound key (collect_in mode odoo key method t).0.order
  in-IsSound cod method t s =
      once-IsSound t.delivery.cod_collected t.delivery.cod_payment method t s
  in-IsSound online method t s = s
  in-IsSound prepaid method t s = s

-- The till after so many collections, whichever raised.
unfoldable pub collect_times : ℕ → Odoo → String → ℕ → Till → Till
collect_times zero odoo key method t = t
collect_times (suc n) odoo key method t =
    collect_times n odoo key method (collect_cod odoo key method t).0

-- From an order that is not overpaid and has at most one payment under the delivery's key: however
-- often the cash is collected, and whichever of the calls raise, both still hold.
pub collect_times-IsSound :
    (n : ℕ) (odoo : Odoo) (key : String) (method : ℕ) (t : Till)
    → IsSound key t.order
    → IsSound key (collect_times n odoo key method t).order
unfolding collect_times collect_cod
collect_times-IsSound zero odoo key method t s = s
collect_times-IsSound (suc n) odoo key method t s =
    collect_times-IsSound n odoo key method _
      (in-IsSound odoo key t.delivery.payment_mode method t s)

-- Cash on delivery that is collected for the first time, from an order on which something is due and
-- that has no payment under the key, leaves nothing to pay: one payment of what was due is added,
-- whether or not the call raises then.
pub collect_cod-pays :
    (odoo : Odoo) (key : String) (method : ℕ) (t : Till)
    → t.delivery.payment_mode ≡ cod
    → t.delivery.cod_collected ≡ false
    → keyed key t.order.payments ≡ []
    → pos 0 <ℤ order_remaining t.order
    → (order_remaining (collect_cod odoo key method t).0.order ≡ pos 0)
      × ((collect_cod odoo key method t).0.order.payments
          ≡ t.order.payments ++ cod_payment_of key method (order_remaining t.order) ∷ [])
unfolding collect_cod order_remaining
collect_cod-pays odoo key method t mode first_one new due =
    subst
      (λ (r : Till × Collected).
        (order_remaining r.0.order ≡ pos 0) × (r.0.order.payments ≡ t.order.payments ++ p ∷ []))
      (sym run)
      (rw
        (
          kept.0,
          kept.1,
          adds,
          odoo.add_payment_total p t.order,
          sum_amounts-append t.order.payments p,
        )
        (omega int_laws, refl))
  where
    p : Payment
    p = cod_payment_of key method (order_remaining t.order)

    o : PosOrder
    o = odoo.add_payment p t.order

    adds : o.payments ≡ t.order.payments ++ p ∷ []
    adds = odoo.add_payment_adds p t.order

    not_paid : leb_ℤ (order_remaining t.order) (pos 0) ≡ false
    not_paid = ground arith

    closed : Till × Collected
    closed = close odoo (first (keyed key o.payments)) (record t { order = o })

    kept : (closed.0.order.payments ≡ o.payments) × (closed.0.order.amount_total ≡ o.amount_total)
    kept = close-kept odoo key (first (keyed key o.payments)) (record t { order = o })

    run_due :
        collect_due odoo key method t
        ≡ collect_existing odoo key method t (first (keyed key t.order.payments))
    run_due = rw not_paid refl

    run : collect_in t.delivery.payment_mode odoo key method t ≡ closed
    run =
        ap (λ m. collect_in m odoo key method t) mode
        ∙ ap (λ b. collect_once b t.delivery.cod_payment odoo key method t) first_one
        ∙ run_due
        ∙ ap (λ ps. collect_existing odoo key method t (first ps)) new
