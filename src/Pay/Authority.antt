-- ===== src/Pay/Authority.antt =====
-- addons/mezze_bridge/models/mezze_terminal_txn.py: who decides what an attempt becomes, and what it
-- takes to open one.
use menes_pos.Prelude.{
  ℕ, String, ◌≡◌, refl, subst, ◌⊎◌, inl, inr, Bool, true, false, not, ◌&&◌, Option, none, some,
  List, arith, if◌then◌else◌, Bool-cases, any, is_blank, ℤ, pos, ◌+ℤ◌, ◌≤ℤ◌, ◌<ℤ◌, ltb_ℤ, leb_ℤ,
  &&_true, leb_ℤ-false, ltb_ℤ-false,
}
use menes_pos.Pay.Ledger.{PosOrder, Odoo, order_remaining}
use menes_pos.Pay.Terminal.{
  requested, TxnState, waiting_customer, approved, declined, cancelled, error, Kind, terminal_kind,
  cash_machine_kind, Txn, Error, integration_pending, not_eligible, already_in_progress,
  already_fully_paid, amount_not_positive, exceeds_remaining, partial_not_allowed, World, Ended,
  is_uncertain, is_test, is_active, Method, Started, opened, refused, start,
}
use menes_pos.Pay.Settlement.{
  unless_settled, unless_approved, cash_result, card_result, result_of, apply_card_result,
  apply_cash_result, apply_result, force_done, inserted,
}

-- What a result leaves where the device is not the simulator.
NoPayment : World → Ended → Type 0
NoPayment w r =
    (r.0.order ≡ w.order)
    × ((r.0.txn.state ≡ w.txn.state) ⊎ ((r.0.txn.state ≡ error) × (r.1 ≡ some integration_pending)))

unless_settled-NoPayment :
    (st : TxnState) (w : World) (r : Ended) → NoPayment w r → NoPayment w (unless_settled st w r)
unfolding NoPayment
unless_settled-NoPayment approved w r l = (refl, inl refl)
unless_settled-NoPayment declined w r l = (refl, inl refl)
unless_settled-NoPayment cancelled w r l = (refl, inl refl)
unless_settled-NoPayment _ w r l = l

result_of-NoPayment :
    (kind : Kind) (odoo : Odoo) (claim : Option String) (w : World)
    → is_test w.txn ≡ false
    → NoPayment w (result_of kind odoo claim w)
unfolding apply_card_result apply_cash_result NoPayment
result_of-NoPayment terminal_kind odoo claim w e =
    unless_settled-NoPayment w.txn.state w (card_result odoo claim w)
      (rw e (refl, inr (refl, refl)))
result_of-NoPayment cash_machine_kind odoo claim w e =
    unless_settled-NoPayment w.txn.state w (cash_result odoo claim w)
      (rw e (refl, inr (refl, refl)))

-- For a device that is not the test simulator, a result books no payment: the attempt becomes an error,
-- the order is left as it was, and an exception is raised, unless the attempt was settled before, and
-- then nothing at all changes.
pub result_not_simulated :
    (odoo : Odoo) (claim : Option String) (w : World)
    → is_test w.txn ≡ false
    → ((apply_result odoo claim w).0.order ≡ w.order)
      × (((apply_result odoo claim w).0.txn.state ≡ w.txn.state)
          ⊎ (((apply_result odoo claim w).0.txn.state ≡ error)
              × ((apply_result odoo claim w).1 ≡ some integration_pending)))
unfolding apply_result NoPayment
result_not_simulated odoo claim w e = result_of-NoPayment w.txn.kind odoo claim w e

unless_approved_same :
    (st : TxnState) (w : World) → (unless_approved st w (w, some not_eligible)).0 ≡ w
unless_approved_same approved w = refl
unless_approved_same _ w = refl

-- An override by no manager, without a reason, or of an attempt whose outcome is not in doubt changes
-- nothing.
pub force_done_refused :
    (odoo : Odoo) (manager : Option ℕ) (reason : String) (w : World)
    → (manager ≡ none) ⊎ (is_blank reason ≡ true) ⊎ (is_uncertain w.txn.state ≡ false)
    → (force_done odoo manager reason w).0 ≡ w
unfolding force_done
force_done_refused odoo none reason w h = refl
force_done_refused odoo (some m) reason w (inl h) = cc
force_done_refused odoo (some m) reason w (inr (inl h)) = rw h refl
force_done_refused odoo (some m) reason w (inr (inr h)) = elim (Bool-cases (is_blank reason)) [
  | inl blank ↦ rw blank refl
  | inr given ↦ rw (given, h) (unless_approved_same w.txn.state w)
]

opened-injective : (m q : Txn) → opened m ≡ opened q → m ≡ q
opened-injective m q e = cc

guard :
    (b : Bool) (x : Error) (g : Started) (q : Txn)
    → (if b then refused x else g) ≡ opened q
    → (b ≡ false) × (g ≡ opened q)
guard true x g q e = cc
guard false x g q e = (refl, e)

whole_or_part :
    (remaining amt : ℤ) (p : Bool)
    → (ltb_ℤ (amt +ℤ pos 1) remaining && not p) ≡ false
    → (remaining ≤ℤ amt +ℤ pos 1) ⊎ (p ≡ true)
whole_or_part remaining amt true h = inr refl
whole_or_part remaining amt false h = inl (ltb_ℤ-false (amt +ℤ pos 1) remaining (&&_true _ h))

guards_passed :
    (b part : Bool) (remaining amt : ℤ) (m q : Txn)
    → (if b
        then refused already_in_progress
        else if leb_ℤ remaining (pos 1)
        then refused already_fully_paid
        else if leb_ℤ amt (pos 0)
        then refused amount_not_positive
        else if ltb_ℤ (remaining +ℤ pos 1) amt
        then refused exceeds_remaining
        else if ltb_ℤ (amt +ℤ pos 1) remaining && not part
        then refused partial_not_allowed
        else opened m)
      ≡ opened q
    → (m ≡ q)
      × (b ≡ false)
      × (pos 0 <ℤ amt)
      × (amt ≤ℤ remaining +ℤ pos 1)
      × ((remaining ≤ℤ amt +ℤ pos 1) ⊎ (part ≡ true))
guards_passed b part remaining amt m q e =
    let (idle, r1) = guard b _ _ q e in
    let (_, r2) = guard (leb_ℤ remaining (pos 1)) _ _ q r1 in
    let (positive, r3) = guard (leb_ℤ amt (pos 0)) _ _ q r2 in
    let (within, r4) = guard (ltb_ℤ (remaining +ℤ pos 1) amt) _ _ q r3 in
    let (whole, r5) = guard (ltb_ℤ (amt +ℤ pos 1) remaining && not part) _ _ q r4 in
    (
      opened-injective m q r5,
      idle,
      leb_ℤ-false amt (pos 0) positive,
      ltb_ℤ-false (remaining +ℤ pos 1) amt within,
      whole_or_part remaining amt part whole,
    )

-- An attempt is opened only where no attempt of the order is active, for a positive amount of at most
-- one minor unit above what remains to be paid, and below what remains only where the method allows a
-- part; it waits for the customer, and has no payment yet.
pub start-opened :
    (request_id : String) (txns : List Txn) (order : PosOrder) (method : Method) (device : Option ℕ)
    (amount : Option ℤ) (provider : String) (t : Txn)
    → start request_id txns order method device amount provider ≡ opened t
    → (any (λ (u : Txn). is_active u.state) txns ≡ false)
      × (pos 0 <ℤ t.amount)
      × (t.amount ≤ℤ order_remaining order +ℤ pos 1)
      × ((order_remaining order ≤ℤ t.amount +ℤ pos 1) ⊎ (method.allow_partial ≡ true))
      × (t.state ≡ waiting_customer)
      × (t.pos_payment ≡ none)
unfolding start
start-opened request_id txns order method device amount provider t e =
    let remaining = order_remaining order in
    let (same, idle, above, below, part) =
      guards_passed _ method.allow_partial remaining (requested amount remaining) _ t e in
    subst
      (λ (v : Txn).
        (any (λ (u : Txn). is_active u.state) txns ≡ false)
        × (pos 0 <ℤ v.amount)
        × (v.amount ≤ℤ remaining +ℤ pos 1)
        × ((remaining ≤ℤ v.amount +ℤ pos 1) ⊎ (method.allow_partial ≡ true))
        × (v.state ≡ waiting_customer)
        × (v.pos_payment ≡ none))
      same (idle, above, below, part, refl, refl)

-- The machine holds at least the amount that is charged, and gives back exactly what is above it.
pub inserted-covers : (t : Txn) → t.amount ≤ℤ inserted t
unfolding inserted
inserted-covers t = ground arith
