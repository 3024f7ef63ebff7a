-- ===== src/Tender/Keys.antt =====
-- One payment to a tender key, whatever is sent how often; and whose credit a customer account uses.
use menes_pos.Pay.Ledger.{
  Payment, PosOrder, Odoo, keyed, has_key, keyed-append, order_remaining, is_draft,
}
use menes_pos.Order.Guard.{evaluate}
use menes_pos.Tender.Pay.{
  Request, Shop, Refusal, Answer, idempotent, already, refused, forbidden_transition, state_text,
  prepare, told_remaining, refusal, book_unless, pay_draft, has_payments, is_seen, order_pay,
  marked, finalise,
}
use menes_pos.Tender.Booked.{
  is_booked, payment, Booking, order_pay-Booking, prepare-payments, order_pay-payments,
}
use menes_pos.Prelude.{
  ◌≤◌, String, ◌≡◌, refl, sym, ap, ◌∙◌, subst, ◌⊎◌, inl, inr, Bool, true, false, not, ◌||◌, Option,
  none, some, List, [], ◌∷◌, ◌++◌, arith, if◌then◌else◌, str_eq, str_eq_iff, Bool-cases, length,
  length-append, or_absent, pos, leb_ℤ,
}

-- ## What is not booked

marked-is_booked : (o : PosOrder) (m : Option PosOrder) → is_booked (marked o m).1 ≡ true
marked-is_booked o none = refl
marked-is_booked o (some o') = refl

finalise-is_booked : (odoo : Odoo) (o : PosOrder) → is_booked (finalise odoo o).1 ≡ true
finalise-is_booked odoo o = elim (Bool-cases (leb_ℤ (order_remaining o) (pos 1))) [
  | inl settled ↦ rw settled (marked-is_booked o (odoo.mark_paid o))
  | inr open_order ↦ rw open_order refl
]

-- The answer is a refusal, and the order is what it was before the tender.
abbrev pub Refused : Option Refusal → PosOrder → PosOrder × Answer → Type 0
Refused found o answer = (why : Refusal) × (found ≡ some why) × (answer ≡ (o, refused why))

unbooked-Refused :
    (odoo : Odoo) (p : Payment) (o : PosOrder) (why : Option Refusal)
    → is_booked (book_unless odoo p o why).1 ≡ false
    → Refused why o (book_unless odoo p o why)
unbooked-Refused odoo p o (some why) h = (why, refl, refl)
unbooked-Refused odoo p o none h = absurd (clash (finalise-is_booked odoo (odoo.add_payment p o)) h)
  where
    clash : {b : Bool} → b ≡ true → b ≡ false → ⊥
    clash x y = cc

-- The key was seen, the lifecycle guard blocks the tender, or the order is no draft.
abbrev pub is_over_early : Shop → Request → PosOrder → Bool
is_over_early shop r o =
    is_seen (or_absent r.tender_key) o
    || (evaluate (state_text o.state) "pay" shop.guard_mode []).blocked
    || not (is_draft o.state)

early_or :
    (a b c : Bool) (o : PosOrder) (x y z : Answer) (w : PosOrder × Answer)
    (P : PosOrder × Answer → Type 0)
    → (is_booked w.1 ≡ false → P w)
    → is_booked (if a then (o, x) else if b then (o, y) else if c then (o, z) else w).1 ≡ false
    → (((a || b || c) ≡ true)
        × ((if a then (o, x) else if b then (o, y) else if c then (o, z) else w).0 ≡ o))
      ⊎ P (if a then (o, x) else if b then (o, y) else if c then (o, z) else w)
early_or true b c o x y z w P f h = inl (refl, refl)
early_or false true c o x y z w P f h = inl (refl, refl)
early_or false false true o x y z w P f h = inl (refl, refl)
early_or false false false o x y z w P f h = inr (f h)

-- When a tender is not booked, one of two things holds. Either its key was seen, the lifecycle guard
-- blocks it, or the order is no draft, and the order is as it was. Or the answer is the first reason that
-- the checks find, and the order is as the customer and the redemption of the request leave it, which
-- are written before the checks. Its payments are the same.
pub order_pay-unbooked :
    (odoo : Odoo) (strip : String → String) (shop : Shop) (r : Request) (o : PosOrder)
    → is_booked (order_pay odoo strip shop r o).1 ≡ false
    → (((is_over_early shop r o ≡ true) × ((order_pay odoo strip shop r o).0 ≡ o))
        ⊎ Refused
            (refusal strip shop r (prepare r o))
            (prepare r o)
            (order_pay odoo strip shop r o))
      × ((order_pay odoo strip shop r o).0.payments ≡ o.payments)
unfolding order_pay pay_draft
order_pay-unbooked odoo strip shop r o h =
    let left =
      early_or (is_seen (or_absent r.tender_key) o)
        (evaluate (state_text o.state) "pay" shop.guard_mode []).blocked (not (is_draft o.state)) o
        (idempotent (told_remaining shop o)) (refused forbidden_transition) already
        (pay_draft odoo strip shop r (prepare r o))
        (Refused (refusal strip shop r (prepare r o)) (prepare r o))
        (unbooked-Refused odoo (payment odoo strip shop r o) (prepare r o)
          (refusal strip shop r (prepare r o)))
        h in
    (
      left,
      elim left [
        | inl early ↦ ap (λ (y : PosOrder). y.payments) early.1
        | inr (why, found, answer) ↦
            ap (λ (y : PosOrder × Answer). y.0.payments) answer ∙ prepare-payments r o
      ],
    )

-- ## Tender keys

nonempty_end : (xs : List Payment) (y : Payment) → has_payments (xs ++ y ∷ []) ≡ true
nonempty_end [] y = refl
nonempty_end (x ∷ xs) y = refl

has_own_key : (k : String) (p : Payment) → p.tender_key ≡ some k → has_key k p ≡ true
has_own_key k p h = rw h ((str_eq_iff k k).1 refl)

seen_stays :
    (odoo : Odoo) (strip : String → String) (shop : Shop) (r : Request) (o : PosOrder)
    → is_seen (or_absent r.tender_key) o ≡ true
    → order_pay odoo strip shop r o ≡ (o, idempotent (told_remaining shop o))
unfolding order_pay
seen_stays odoo strip shop r o h = rw h refl

-- When a tender with a key was booked, any later request with the key, of whatever kind and at whatever
-- settings, leaves the order as it is, and is answered what remains, rounded to two decimals as
-- `round(_, 2)` does, whatever the decimals of the currency.
pub order_pay-again :
    (odoo : Odoo) (strip : String → String) (shop shop' : Shop) (r r' : Request) (o : PosOrder)
    (k : String)
    → or_absent r.tender_key ≡ some k
    → or_absent r'.tender_key ≡ some k
    → is_booked (order_pay odoo strip shop r o).1 ≡ true
    → order_pay odoo strip shop' r' (order_pay odoo strip shop r o).0 ≡ (
      (order_pay odoo strip shop r o).0,
      idempotent (told_remaining shop' (order_pay odoo strip shop r o).0),
    )
order_pay-again odoo strip shop shop' r r' o k key key' h =
    seen_stays odoo strip shop' r' (order_pay odoo strip shop r o).0 (rw key' now_seen)
  where
    now_seen : is_seen (some k) (order_pay odoo strip shop r o).0 ≡ true
    now_seen =
        subst (λ ps. has_payments (keyed k ps) ≡ true)
          (sym (order_pay-payments odoo strip shop r o (order_pay-Booking odoo strip shop r o h)))
          (rw
            (keyed-append k o.payments (payment odoo strip shop r o)
              (has_own_key k (payment odoo strip shop r o) key))
            (nonempty_end (keyed k o.payments) (payment odoo strip shop r o)))

keyed-append_other :
    (k : String) (ps : List Payment) (p : Payment)
    → has_key k p ≡ false
    → keyed k (ps ++ p ∷ []) ≡ keyed k ps
keyed-append_other k [] p h = rw h refl
keyed-append_other k (q ∷ ps) p h = ground (arith, keyed-append_other k ps p h)

-- A series of requests at the till.
abbrev pub pay_all : Odoo → (String → String) → List (Shop × Request) → PosOrder → PosOrder
pay_all odoo strip [] o = o
pay_all odoo strip ((shop, r) ∷ rest) o = pay_all odoo strip rest (order_pay odoo strip shop r o).0

unseen_none :
    (k : String) (o : PosOrder) → is_seen (some k) o ≡ false → length (keyed k o.payments) ≡ 0
unseen_none k o h = go (keyed k o.payments) h
  where
    go : (ps : List Payment) → has_payments ps ≡ false → length ps ≡ 0
    go [] e = refl
    go (p ∷ ps) e = cc

booked_once :
    (odoo : Odoo) (strip : String → String) (shop : Shop) (r : Request) (o : PosOrder) (k : String)
    → Booking odoo strip shop r o
    → length (keyed k o.payments) ≤ 1
    → length (keyed k (o.payments ++ payment odoo strip shop r o ∷ [])) ≤ 1
booked_once odoo strip shop r o k b h =
    elim (Bool-cases (has_key k (payment odoo strip shop r o))) [
      | inr other ↦ rw (keyed-append_other k o.payments (payment odoo strip shop r o) other) h
      | inl own ↦
          rw
            (
              keyed-append k o.payments (payment odoo strip shop r o) own,
              length-append (keyed k o.payments) (payment odoo strip shop r o ∷ []),
              unseen_none k o (unseen (or_absent r.tender_key) own b.unseen),
            )
            (omega arith)
    ]
  where
    unseen :
        (t : Option String)
        → (elim t [ none ↦ false | some j ↦ str_eq j k ]) ≡ true
        → is_seen t o ≡ false
        → is_seen (some k) o ≡ false
    unseen none own u = cc
    unseen (some j) own u = subst (λ x. is_seen (some x) o ≡ false) ((str_eq_iff j k).0 own) u

pay_once :
    (odoo : Odoo) (strip : String → String) (shop : Shop) (r : Request) (o : PosOrder) (k : String)
    → length (keyed k o.payments) ≤ 1
    → length (keyed k (order_pay odoo strip shop r o).0.payments) ≤ 1
pay_once odoo strip shop r o k h = elim (Bool-cases (is_booked (order_pay odoo strip shop r o).1)) [
  | inl booked ↦
      let b = order_pay-Booking odoo strip shop r o booked in
      subst (λ ps. length (keyed k ps) ≤ 1) (sym (order_pay-payments odoo strip shop r o b))
        (booked_once odoo strip shop r o k b h)
  | inr unbooked ↦
      subst (λ ps. length (keyed k ps) ≤ 1)
        (sym (order_pay-unbooked odoo strip shop r o unbooked).1) h
]

-- However many requests arrive at whatever settings, an order that has at most one payment of a key has
-- at most one payment of the key afterwards.
pub pay_all-keyed :
    (odoo : Odoo) (strip : String → String) (requests : List (Shop × Request)) (o : PosOrder)
    (k : String)
    → length (keyed k o.payments) ≤ 1
    → length (keyed k (pay_all odoo strip requests o).payments) ≤ 1
pay_all-keyed odoo strip [] o k h = h
pay_all-keyed odoo strip ((shop, r) ∷ rest) o k h =
    pay_all-keyed odoo strip rest _ k (pay_once odoo strip shop r o k h)
