-- ===== src/Pay/Ledger.antt =====
-- An order with its payments, as the tender models of addons/mezze_bridge/models use it: amounts are
-- in minor units of the currency, so that `round(x, prec)` changes nothing and `eps` is one unit.
-- Odoo's own methods are the fields of an interface, with the laws that the code relies on.
use menes_pos.Prelude.{
  ℕ, String, ◌≡◌, refl, Bool, true, false, Option, none, some, List, [], ◌∷◌, ◌++◌, arith, str_eq,
  keep, ℤ, pos, ◌+ℤ◌, ◌-ℤ◌, ◌≤ℤ◌, int_laws,
}

pub data OrderState : Type 0 where
  draft paid done invoiced cancel : OrderState

abbrev pub is_draft : OrderState → Bool
is_draft draft = true
is_draft _ = false

-- A reference that is shown to the cashier: a given one, one cut from the request id, or the first
-- characters of a text.
pub data Reference : Type 0 where
  given simulated cash_machine forced : String → Reference
  head_of : ℕ → String → Reference

pub record Payment : Type 0 where
  pub amount : ℤ
  pub method : ℕ
  pub tender_key : Option String
  pub confirmation_source : String
  pub recon_flag : Bool
  pub reference : Option Reference
  pub authcode : Option String
  pub card_type : Option String
  pub device : Option ℕ

pub record PosOrder : Type 0 where
  pub amount_total : ℤ
  pub payments : List Payment
  pub state : OrderState
  pub partner : Option ℕ

-- `order.add_payment` and `order.action_pos_order_paid`; the second raises on an order that Odoo does
-- not take for fully paid.
pub record Odoo : Type 0 where
  pub add_payment : Payment → PosOrder → PosOrder
  pub mark_paid : PosOrder → Option PosOrder
  pub add_payment_adds :
      (p : Payment) (o : PosOrder) → (add_payment p o).payments ≡ o.payments ++ p ∷ []
  pub add_payment_total :
      (p : Payment) (o : PosOrder) → (add_payment p o).amount_total ≡ o.amount_total
  pub mark_paid_payments :
      (o o' : PosOrder)
      → mark_paid o ≡ some o'
      → (o'.payments ≡ o.payments) × (o'.amount_total ≡ o.amount_total)

-- `sum(order.payment_ids.mapped('amount'))`
abbrev pub sum_amounts : List Payment → ℤ
sum_amounts [] = pos 0
sum_amounts (p ∷ ps) = p.amount +ℤ sum_amounts ps

unfoldable pub order_remaining : PosOrder → ℤ
order_remaining o = o.amount_total -ℤ sum_amounts o.payments

abbrev pub has_key : String → Payment → Bool
has_key k p = elim p.tender_key [ none ↦ false | some j ↦ str_eq j k ]

-- `order.payment_ids.filtered(lambda p: p.mezze_tender_key == k)`
abbrev pub keyed : String → List Payment → List Payment
keyed k ps = keep (has_key k) ps

abbrev pub first : List Payment → Option Payment
first [] = none
first (p ∷ ps) = some p

-- An order with no payment more than it is worth; and one payment to a key at most.
abbrev pub NotOverpaid : PosOrder → Type 0
NotOverpaid o = sum_amounts o.payments ≤ℤ o.amount_total

pub sum_amounts-append :
    (ps : List Payment) (p : Payment) → sum_amounts (ps ++ p ∷ []) ≡ sum_amounts ps +ℤ p.amount
sum_amounts-append [] p = omega int_laws
sum_amounts-append (q ∷ ps) p = rw (sum_amounts-append ps p) (omega int_laws)

pub keyed-append :
    (k : String) (ps : List Payment) (p : Payment)
    → has_key k p ≡ true
    → keyed k (ps ++ p ∷ []) ≡ keyed k ps ++ p ∷ []
keyed-append k [] p h = rw h
keyed-append k (q ∷ ps) p h = ground (arith, keyed-append k ps p h)

pub first-none : (ps : List Payment) → first ps ≡ none → ps ≡ []
first-none [] h = refl
first-none (p ∷ ps) h = cc
