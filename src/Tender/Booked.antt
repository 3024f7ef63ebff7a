-- ===== src/Tender/Booked.antt =====
-- What it takes to book a tender, and what the order is then.
use menes_pos.Pay.Ledger.{
  is_draft, Payment, PosOrder, Odoo, sum_amounts, order_remaining, sum_amounts-append,
}
use menes_pos.Order.Guard.{evaluate}
use menes_pos.Tender.Credit.{CreditError, credit_gate}
use menes_pos.Tender.Pay.{
  marked, forbidden_transition, Request, Shop, Refusal, Answer, failed, idempotent, partial,
  already, final, refused, state_text, approval, redeem, set_partner, with_partner, prepare,
  account_of, told_remaining, tender_of, by_amount, by_credit, or_else, refusal, payment_of,
  finalise, book_unless, pay_draft, is_seen, order_pay,
}
use menes_pos.Prelude.{
  ℕ, String, ◌≡◌, refl, sym, ap, ◌∙◌, subst, inl, inr, Bool, true, false, not, Option, none, some,
  List, [], ◌∷◌, ◌++◌, arith, if◌then◌else◌, leb→le, Bool-cases, or_absent, ℤ, pos, ◌+ℤ◌, ◌-ℤ◌,
  ◌≤ℤ◌, ◌<ℤ◌, ltb_ℤ, leb_ℤ, leb_ℤ-false, ltb_ℤ-false, int_laws,
}

-- The answers after which the payment is there.
abbrev pub is_booked : Answer → Bool
is_booked final = true
is_booked (partial n) = true
is_booked failed = true
is_booked _ = false

-- Three early returns, none of which books.
past_guards :
    (a b c : Bool) (x y z w : PosOrder × Answer)
    → is_booked x.1 ≡ false
    → is_booked y.1 ≡ false
    → is_booked z.1 ≡ false
    → is_booked (if a then x else if b then y else if c then z else w).1 ≡ true
    → (a ≡ false) × (c ≡ false) × ((if a then x else if b then y else if c then z else w) ≡ w)
past_guards true b c x y z w hx hy hz h = cc
past_guards false true c x y z w hx hy hz h = cc
past_guards false false true x y z w hx hy hz h = cc
past_guards false false false x y z w hx hy hz h = (refl, refl, refl)

past_refusal :
    (odoo : Odoo) (p : Payment) (o : PosOrder) (why : Option Refusal)
    → is_booked (book_unless odoo p o why).1 ≡ true
    → (why ≡ none) × (book_unless odoo p o why ≡ finalise odoo (odoo.add_payment p o))
past_refusal odoo p o none h = (refl, refl)
past_refusal odoo p o (some why) h = cc

not-false : (b : Bool) → not b ≡ false → b ≡ true
not-false b h = ground arith

module _ (odoo : Odoo) (strip : String → String) where
  -- The tender of a request on an order after its redemption, and the payment it makes.
  abbrev pub tender : Request → PosOrder → ℤ
  tender r o = tender_of r (order_remaining (prepare r o))

  abbrev pub payment : Shop → Request → PosOrder → Payment
  payment shop r o = payment_of strip shop r (tender r o)

  pub record Booking (shop : Shop) (r : Request) (o : PosOrder) : Type 0 where
    pub unseen : is_seen (or_absent r.tender_key) o ≡ false
    pub unsettled : is_draft o.state ≡ true
    pub not_refused : refusal strip shop r (prepare r o) ≡ none
    pub outcome :
        order_pay odoo strip shop r o
        ≡ finalise odoo (odoo.add_payment (payment shop r o) (prepare r o))

  pub order_pay-Booking :
      (shop : Shop) (r : Request) (o : PosOrder)
      → is_booked (order_pay odoo strip shop r o).1 ≡ true
      → Booking shop r o
  unfolding order_pay pay_draft
  order_pay-Booking shop r o h =
      let (unseen, drafted, same) =
        past_guards (is_seen (or_absent r.tender_key) o)
          (evaluate (state_text o.state) "pay" shop.guard_mode []).blocked (not (is_draft o.state))
          (o, idempotent (told_remaining shop o)) (o, refused forbidden_transition) (o, already)
          (pay_draft odoo strip shop r (prepare r o)) refl refl refl h in
      let (passed, done_with) =
        past_refusal odoo (payment shop r o) (prepare r o) (refusal strip shop r (prepare r o))
          (subst (λ (x : PosOrder × Answer). is_booked x.1 ≡ true) same h) in
      record {
        unseen = unseen;
        unsettled = not-false _ drafted;
        not_refused = passed;
        outcome = same ∙ done_with;
      }

-- ## The checks that were passed

or_else-none : (a b : Option Refusal) → or_else a b ≡ none → (a ≡ none) × (b ≡ none)
or_else-none none b h = (refl, h)
or_else-none (some why) b h = cc

by_amount-none : (n left : ℤ) → by_amount n left ≡ none → (pos 0 <ℤ n) × (n ≤ℤ left +ℤ pos 1)
by_amount-none n left h =
    let (positive, within) = tests h in
    (leb_ℤ-false n (pos 0) positive, within_one (ltb_ℤ-false (pos 1) (n -ℤ left) within))
  where
    tests :
        by_amount n left ≡ none → (leb_ℤ n (pos 0) ≡ false) × (ltb_ℤ (pos 1) (n -ℤ left) ≡ false)
    tests h = ground arith

    within_one : n -ℤ left ≤ℤ pos 1 → n ≤ℤ left +ℤ pos 1
    within_one h = omega int_laws

by_credit-none : (o : Option CreditError) → by_credit o ≡ none → o ≡ none
by_credit-none none h = refl
by_credit-none (some e) h = cc

pub refusal-none :
    (strip : String → String) (shop : Shop) (r : Request) (o : PosOrder)
    → refusal strip shop r o ≡ none
    → (pos 0 <ℤ tender_of r (order_remaining o))
      × (tender_of r (order_remaining o) ≤ℤ order_remaining o +ℤ pos 1)
      × (credit_gate shop.method
            (tender_of r (order_remaining o))
            (approval shop r)
            r.allow_credit
            (account_of shop o)
          ≡ none)
unfolding refusal
refusal-none strip shop r o h =
    let (checks, rest) = or_else-none _ _ h in
    let (amount, credit) = or_else-none _ _ rest in
    let (positive, within) = by_amount-none _ _ amount in
    (positive, within, by_credit-none _ credit)

-- ## The order afterwards

abbrev Remains : PosOrder → PosOrder → Type 0
Remains o o' = (o'.payments ≡ o.payments) × (o'.amount_total ≡ o.amount_total)

-- What `finalise` answers of the order it gives back.
abbrev pub Tells : PosOrder × Answer → Type 0
Tells (o, final) = order_remaining o ≤ℤ pos 1
Tells (o, partial n) = (n ≡ order_remaining o) × (pos 1 <ℤ n)
Tells (o, _) = Unit

remaining_same : (o o' : PosOrder) → Remains o o' → order_remaining o' ≡ order_remaining o
unfolding order_remaining
remaining_same o o' (ps, total) = rw (ps, total) refl

marked-same :
    (odoo : Odoo) (o : PosOrder) (m : Option PosOrder)
    → odoo.mark_paid o ≡ m
    → Remains o (marked o m).0
marked-same odoo o none h = (refl, refl)
marked-same odoo o (some o') h = odoo.mark_paid_payments o o' h

marked-Tells :
    (odoo : Odoo) (o : PosOrder) (m : Option PosOrder)
    → odoo.mark_paid o ≡ m
    → order_remaining o ≤ℤ pos 1
    → Tells (marked o m)
marked-Tells odoo o none h left = tt
marked-Tells odoo o (some o') h left =
    rw (remaining_same o o' (odoo.mark_paid_payments o o' h)) left

finalise-same : (odoo : Odoo) (o : PosOrder) → Remains o (finalise odoo o).0
finalise-same odoo o = elim (Bool-cases (leb_ℤ (order_remaining o) (pos 1))) [
  | inl settled ↦ rw settled (marked-same odoo o (odoo.mark_paid o) refl)
  | inr open_order ↦ rw open_order (refl, refl)
]

finalise-Tells : (odoo : Odoo) (o : PosOrder) → Tells (finalise odoo o)
finalise-Tells odoo o = elim (Bool-cases (leb_ℤ (order_remaining o) (pos 1))) [
  | inl settled ↦ rw settled (marked-Tells odoo o (odoo.mark_paid o) refl (leb→le _ _ settled))
  | inr open_order ↦ rw open_order (refl, leb_ℤ-false (order_remaining o) (pos 1) open_order)
]

in_total :
    (o : PosOrder) (ps : List Payment) (n : ℤ)
    → n ≤ℤ order_remaining o +ℤ pos 1
    → o.payments ≡ ps
    → sum_amounts ps +ℤ n ≤ℤ o.amount_total +ℤ pos 1
unfolding order_remaining
in_total o ps n h e = subst (λ x. sum_amounts x +ℤ n ≤ℤ o.amount_total +ℤ pos 1) e (omega int_laws)

redeem-payments : (d : Option ℤ) (o : PosOrder) → (redeem d o).payments ≡ o.payments
redeem-payments none o = refl
redeem-payments (some d) o = refl

with_partner-payments : (p : Option ℕ) (o : PosOrder) → (with_partner p o).payments ≡ o.payments
with_partner-payments none o = refl
with_partner-payments (some p) o = go o.partner
  where
    go : (q : Option ℕ) → (set_partner p q o).payments ≡ o.payments
    go none = refl
    go (some x) = refl

pub prepare-payments : (r : Request) (o : PosOrder) → (prepare r o).payments ≡ o.payments
prepare-payments r o =
    redeem-payments r.redemption (with_partner r.partner o) ∙ with_partner-payments r.partner o

pub order_pay-payments :
    (odoo : Odoo) (strip : String → String) (shop : Shop) (r : Request) (o : PosOrder)
    → Booking odoo strip shop r o
    → (order_pay odoo strip shop r o).0.payments ≡ o.payments ++ payment odoo strip shop r o ∷ []
order_pay-payments odoo strip shop r o b =
    ap (λ (x : PosOrder × Answer). x.0.payments) b.outcome
    ∙ (finalise-same odoo (odoo.add_payment (payment odoo strip shop r o) (prepare r o))).0
    ∙ odoo.add_payment_adds (payment odoo strip shop r o) (prepare r o)
    ∙ ap (λ ps. ps ++ payment odoo strip shop r o ∷ []) (prepare-payments r o)

-- When the answer is final, partial or a failure of Odoo's `action_pos_order_paid`: the tender is positive, the
-- order has exactly that payment more, and, after the redemption, its payments exceed its total by one
-- minor unit at most. One minor unit at most is left when the answer is final; when it is partial, more
-- than one is left, and the answer says how much.
pub order_pay-booked :
    (odoo : Odoo) (strip : String → String) (shop : Shop) (r : Request) (o : PosOrder)
    → is_booked (order_pay odoo strip shop r o).1 ≡ true
    → (pos 0 <ℤ tender odoo strip r o)
      × ((order_pay odoo strip shop r o).0.payments
          ≡ o.payments ++ payment odoo strip shop r o ∷ [])
      × (sum_amounts (order_pay odoo strip shop r o).0.payments
          ≤ℤ (prepare r o).amount_total +ℤ pos 1)
      × Tells (order_pay odoo strip shop r o)
order_pay-booked odoo strip shop r o h =
    let b = order_pay-Booking odoo strip shop r o h in
    let (positive, within, credit) = refusal-none strip shop r (prepare r o) b.not_refused in
    (
      positive,
      order_pay-payments odoo strip shop r o b,
      rw
          (
            order_pay-payments odoo strip shop r o b,
            sum_amounts-append o.payments (payment odoo strip shop r o),
          )
          (in_total (prepare r o) o.payments (tender odoo strip r o) within (prepare-payments r o)),
      subst Tells (sym b.outcome)
          (finalise-Tells odoo (odoo.add_payment (payment odoo strip shop r o) (prepare r o))),
    )
