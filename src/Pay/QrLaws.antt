-- ===== src/Pay/QrLaws.antt =====
-- addons/mezze_bridge/models/mezze_payment_qr.py: what holds of a QR whatever is done with it.
use menes_pos.Prelude.{
  ◌≤◌, String, ◌≡◌, refl, subst, ◌⊎◌, inl, inr, Bool, true, false, not, ◌&&◌, Option, none, some,
  List, [], ◌∷◌, arith, if◌then◌else◌, str_eq_iff, Bool-cases, Option-cases, length, ℤ, pos, ◌+ℤ◌,
  ◌-ℤ◌, ◌≤ℤ◌, ◌<ℤ◌, ltb_ℤ, leb_ℤ, abs, &&_true, leb_ℤ-false, ltb_ℤ-false, int_laws,
}
use menes_pos.Pay.Ledger.{
  first-none, Payment, PosOrder, Odoo, is_draft, order_remaining, keyed, first, sum_amounts,
  sum_amounts-append, keyed-append,
}
use menes_pos.Pay.Qr.{
  asked, not_a_qr_method, no_bank_account, already_fully_paid, amount_not_positive,
  exceeds_remaining, partial_not_allowed, QrState, pending, confirmed, cancelled, PaymentQr,
  QrMethod, QrError, Generated, made, refused, generate, QrWorld, QrEnd, returned, raised,
  cancel_qr, cancel_qr_from, qr_payment, confirmed_with, pay_order, finish, confirm_existing,
  confirm_from, confirm,
}

-- One payment to the token, and no more than one minor unit above the total.
pub record QrSound (w : QrWorld) : Type 0 where
  pub one_payment : length (keyed w.qr.token w.order.payments) ≤ 1
  pub within_a_unit : sum_amounts w.order.payments ≤ℤ w.order.amount_total +ℤ pos 1

module _ (odoo : Odoo) where
  pay_order-QrSound :
      (p : Option Payment) (w : QrWorld)
      → QrSound w
      → QrSound (pay_order p w (odoo.mark_paid w.order)).0
  pay_order-QrSound p w s = elim (Option-cases (odoo.mark_paid w.order)) [
    | inl raises ↦ rw raises s
    | inr (o, e) ↦
        let kept = odoo.mark_paid_payments w.order o e in
        rw e (record {
          one_payment = rw kept.0 s.one_payment;
          within_a_unit = rw (kept.0, kept.1) s.within_a_unit;
        })
  ]

  finish-QrSound : (p : Option Payment) (w : QrWorld) → QrSound w → QrSound (finish odoo p w).0
  finish-QrSound p w s =
      elim (Bool-cases (leb_ℤ (order_remaining w.order) (pos 1) && is_draft w.order.state)) [
        | inl settled ↦ rw settled (pay_order-QrSound p w s)
        | inr not_yet ↦
            rw not_yet (record { one_payment = s.one_payment; within_a_unit = s.within_a_unit })
      ]

  existing-QrSound :
      (w : QrWorld) (found : Option Payment)
      → first (keyed w.qr.token w.order.payments) ≡ found
      → w.qr.amount -ℤ order_remaining w.order ≤ℤ pos 1
      → QrSound w
      → QrSound (confirm_existing odoo w found).0
  unfolding order_remaining
  existing-QrSound w (some p) e le s = record {
    one_payment = s.one_payment;
    within_a_unit = s.within_a_unit;
  }
  existing-QrSound w none e le s =
      let p = qr_payment w.qr in
      let adds = odoo.add_payment_adds p w.order in
      finish-QrSound _ (confirmed_with _ (record w { order = odoo.add_payment p w.order }))
        (record {
          one_payment =
              rw
                (
                  adds,
                  keyed-append w.qr.token w.order.payments p ((str_eq_iff _ _).1 refl),
                  first-none _ e,
                )
                (omega arith);
          within_a_unit =
              rw (adds, odoo.add_payment_total p w.order, sum_amounts-append w.order.payments p)
                (omega int_laws);
        })

  confirm_from-QrSound :
      (st : QrState) (w : QrWorld) → QrSound w → QrSound (confirm_from st odoo w).0
  confirm_from-QrSound confirmed w s = s
  confirm_from-QrSound cancelled w s = s
  confirm_from-QrSound pending w s =
      elim (Bool-cases
        (ltb_ℤ (pos 1) (pos (abs (order_remaining w.order -ℤ w.qr.remaining_snapshot))))) [
          | inl stale ↦ rw stale s
          | inr fresh ↦ elim (Bool-cases (ltb_ℤ (pos 1) (w.qr.amount -ℤ order_remaining w.order))) [
            | inl above ↦ rw (fresh, above) s
            | inr within ↦ rw (fresh, within) (existing-QrSound w _ refl (ground arith) s)
          ]
        ]

  cancel_from-QrSound : (st : QrState) (w : QrWorld) → QrSound w → QrSound (cancel_qr_from st w).0
  cancel_from-QrSound confirmed w s = s
  cancel_from-QrSound cancelled w s = s
  cancel_from-QrSound pending w s = record {
    one_payment = s.one_payment;
    within_a_unit = s.within_a_unit;
  }

pub data QrCall : Type 0 where
  confirm_it cancel_qr_it : QrCall

unfoldable pub qr_calls : Odoo → List QrCall → QrWorld → QrWorld
unfolding confirm cancel_qr
qr_calls odoo [] w = w
qr_calls odoo (confirm_it ∷ cs) w = qr_calls odoo cs (confirm odoo w).0
qr_calls odoo (cancel_qr_it ∷ cs) w = qr_calls odoo cs (cancel_qr w).0

-- From an order with at most one payment with the QR's token and payments of at most one minor unit
-- above its total: however often and in whatever order the QR is confirmed and cancelled, and
-- whichever of the calls raise, both still hold.
pub qr_calls-QrSound :
    (odoo : Odoo) (cs : List QrCall) (w : QrWorld) → QrSound w → QrSound (qr_calls odoo cs w)
unfolding qr_calls confirm cancel_qr
qr_calls-QrSound odoo [] w s = s
qr_calls-QrSound odoo (confirm_it ∷ cs) w s =
    qr_calls-QrSound odoo cs _ (confirm_from-QrSound odoo w.qr.state w s)
qr_calls-QrSound odoo (cancel_qr_it ∷ cs) w s =
    qr_calls-QrSound odoo cs _ (cancel_from-QrSound odoo w.qr.state w s)

-- What an answered confirmation leaves.
Kept : QrWorld × QrEnd → Type 0
Kept (v, returned p) = (v.qr.state ≡ confirmed) × (v.qr.pos_payment ≡ p)
Kept (v, raised e) = e ≡ e

if-Kept : (b : Bool) (x y : QrWorld × QrEnd) → Kept x → Kept y → Kept (if b then x else y)
if-Kept true x y h k = h
if-Kept false x y h k = k

pay_order-Kept :
    (p : Option Payment) (w : QrWorld) (o : Option PosOrder)
    → w.qr.state ≡ confirmed
    → w.qr.pos_payment ≡ p
    → Kept (pay_order p w o)
unfolding Kept
pay_order-Kept p w none hs hp = refl
pay_order-Kept p w (some o) hs hp = (hs, hp)

existing-Kept :
    (odoo : Odoo) (w : QrWorld) (found : Option Payment) → Kept (confirm_existing odoo w found)
unfolding Kept
existing-Kept odoo w (some q) = (refl, refl)
existing-Kept odoo w none =
    let o = odoo.add_payment (qr_payment w.qr) w.order in
    let p = first (keyed w.qr.token o.payments) in
    let v = confirmed_with p (record w { order = o }) in
    if-Kept (leb_ℤ (order_remaining o) (pos 1) && is_draft o.state) _ _
      (pay_order-Kept p v (odoo.mark_paid o) refl refl) (refl, refl)

confirm-Kept :
    (odoo : Odoo) (w : QrWorld) (st : QrState) → w.qr.state ≡ st → Kept (confirm_from st odoo w)
unfolding Kept
confirm-Kept odoo w confirmed e = (e, refl)
confirm-Kept odoo w cancelled e = refl
confirm-Kept odoo w pending e =
    if-Kept (ltb_ℤ (pos 1) (pos (abs (order_remaining w.order -ℤ w.qr.remaining_snapshot)))) _ _
      refl
      (if-Kept (ltb_ℤ (pos 1) (w.qr.amount -ℤ order_remaining w.order)) _ _ refl
        (existing-Kept odoo w _))

-- A confirmation that has returned a payment returns the same one on every later call, and changes
-- nothing then.
pub confirm_again :
    (odoo : Odoo) (w v : QrWorld) (p : Option Payment)
    → confirm odoo w ≡ (v, returned p)
    → confirm odoo v ≡ (v, returned p)
unfolding confirm Kept
confirm_again odoo w v p e =
    let kept = subst Kept e (confirm-Kept odoo w w.qr.state refl) in rw (kept.0, kept.1) refl

made-injective : (m q : PaymentQr) → made m ≡ made q → m ≡ q
made-injective m q e = cc

guard :
    (b : Bool) (x : QrError) (g : Generated) (q : PaymentQr)
    → (if b then refused x else g) ≡ made q
    → (b ≡ false) × (g ≡ made q)
guard true x g q e = cc
guard false x g q e = (refl, e)

guards_passed :
    (b c part : Bool) (remaining amt : ℤ) (m q : PaymentQr)
    → (if b
        then refused not_a_qr_method
        else if c
        then refused no_bank_account
        else if leb_ℤ remaining (pos 1)
        then refused already_fully_paid
        else if leb_ℤ amt (pos 0)
        then refused amount_not_positive
        else if ltb_ℤ (pos 1) (amt -ℤ remaining)
        then refused exceeds_remaining
        else if ltb_ℤ (amt +ℤ pos 1) remaining && not part
        then refused partial_not_allowed
        else made m)
      ≡ made q
    → (m ≡ q)
      × (pos 0 <ℤ amt)
      × (amt ≤ℤ remaining +ℤ pos 1)
      × ((remaining ≤ℤ amt +ℤ pos 1) ⊎ (part ≡ true))
guards_passed b c part remaining amt m q e =
    let (_, r1) = guard b _ _ q e in
    let (_, r2) = guard c _ _ q r1 in
    let (_, r3) = guard (leb_ℤ remaining (pos 1)) _ _ q r2 in
    let (positive, r4) = guard (leb_ℤ amt (pos 0)) _ _ q r3 in
    let (within, r5) = guard (ltb_ℤ (pos 1) (amt -ℤ remaining)) _ _ q r4 in
    let (whole, r6) = guard (ltb_ℤ (amt +ℤ pos 1) remaining && not part) _ _ q r5 in
    (
      made-injective m q r6,
      leb_ℤ-false amt (pos 0) positive,
      unit_above (ltb_ℤ-false (pos 1) (amt -ℤ remaining) within),
      whole_or_part part whole,
    )
  where
    unit_above : amt -ℤ remaining ≤ℤ pos 1 → amt ≤ℤ remaining +ℤ pos 1
    unit_above le = omega int_laws

    whole_or_part :
        (p : Bool)
        → (ltb_ℤ (amt +ℤ pos 1) remaining && not p) ≡ false
        → (remaining ≤ℤ amt +ℤ pos 1) ⊎ (p ≡ true)
    whole_or_part true h = inr refl
    whole_or_part false h = inl (ltb_ℤ-false (amt +ℤ pos 1) remaining (&&_true _ h))

-- A generated QR is for a positive amount of at most one minor unit above what remains to be paid, and
-- below what remains only where the method allows a part; it keeps what remains, and is pending.
pub generate-made :
    (token reference : String) (order : PosOrder) (method : QrMethod) (amount : Option ℤ)
    (q : PaymentQr)
    → generate token reference order method amount ≡ made q
    → (pos 0 <ℤ q.amount)
      × (q.amount ≤ℤ order_remaining order +ℤ pos 1)
      × (q.remaining_snapshot ≡ order_remaining order)
      × (q.state ≡ pending)
      × ((order_remaining order ≤ℤ q.amount +ℤ pos 1) ⊎ (method.allow_partial ≡ true))
unfolding generate
generate-made token reference order method amount q e =
    let remaining = order_remaining order in
    let (same, above, below, part) =
      guards_passed _ _ method.allow_partial remaining (asked amount remaining) _ q e in
    subst
      (λ (v : PaymentQr).
        (pos 0 <ℤ v.amount)
        × (v.amount ≤ℤ remaining +ℤ pos 1)
        × (v.remaining_snapshot ≡ remaining)
        × (v.state ≡ pending)
        × ((remaining ≤ℤ v.amount +ℤ pos 1) ⊎ (method.allow_partial ≡ true)))
      same (above, below, refl, refl, part)
