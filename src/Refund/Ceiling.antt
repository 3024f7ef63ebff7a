-- ===== src/Refund/Ceiling.antt =====
-- No line of an order is refunded beyond what was sold, nor the order beyond what was paid.
use menes_pos.Refund.{Reason, integer, check_refund, check_refund-granted}
use menes_pos.Refund.Lines.{
  granted, Resolved, resolved, Original, Wanted, rejected, Collected, stopped, collected, collect,
  already_qty, already_paid_back, sold_of, check_lines, check_money, by_line_check, by_collection,
  resolve_some, resolve_refund_lines, duplicate, missing_uuid, refund_keyed, add_refund, has_uuid,
  order_refund, currency_mismatch, company_mismatch,
}
use menes_pos.Prelude.{
  ℕ, String, ◌≡◌, refl, inl, inr, Bool, true, false, not, Option, none, some, List, [], ◌∷◌, ◌++◌,
  ◌==◌, if◌then◌else◌, str_eq, str_eq_iff, Bool-cases, In-last, any-holds, ℤ, ◌+ℤ◌, ◌-ℤ◌, ◌≤ℤ◌,
  int_laws,
}
use menes_pos.Refund.Checked.{
  Distinct, collect-Distinct, qty_in-checked, already_qty-append, already_paid_back-append,
}

-- Of every line, at most what was sold was refunded, and in all at most what was paid.
abbrev pub WithinSale : Original → Type 0
WithinSale o =
    ((i : ℕ) → already_qty i o.refunds ≤ℤ sold_of o i) × (already_paid_back o.refunds ≤ℤ o.paid)

-- Requests for refunds of one original, one after the other.
pub record Call : Type 0 where
  pub uuid : String
  pub currency : Option ℕ
  pub company : Option ℕ
  pub lines : List Wanted

module _ (share : Original → List (ℕ × ℤ) → ℤ) where
  money_fits :
      (u : String) (o : Original) (d : List (ℕ × ℤ))
      → Distinct d
      → check_lines o d ≡ none
      → WithinSale o
      → WithinSale (add_refund share u o (check_money share o d)).0
  money_fits u o d h c (lines, money) =
      elim (Bool-cases
        (check_refund (integer (share o d)) o.paid (already_paid_back o.refunds)).is_ok) [
          | inr over ↦ rw over (lines, money)
          | inl fine ↦ rw fine (
            (λ i.
                rw
                  (already_qty-append i o.refunds
                    (record { uuid = u; is_settled = true; lines = d; total = share o d }) refl)
                  (qty_in-checked o i d h c (lines i))),
            rw
                (already_paid_back-append o.refunds
                  (record { uuid = u; is_settled = true; lines = d; total = share o d }) refl)
                (total_fits
                  ((check_refund-granted (share o d) o.paid (already_paid_back o.refunds)).0.0
                    fine).1),
          )
        ]
    where
      total_fits :
          share o d ≤ℤ o.paid -ℤ already_paid_back o.refunds
          → share o d +ℤ already_paid_back o.refunds ≤ℤ o.paid
      total_fits x = omega int_laws

  collection_fits :
      (u : String) (o : Original) (ws : List Wanted) (c : Collected)
      → collect o ws [] ≡ c
      → WithinSale o
      → WithinSale (add_refund share u o (by_collection share o c)).0
  collection_fits u o ws (stopped why) e w = w
  collection_fits u o ws (collected d) e w = go (check_lines o d) refl
    where
      go :
          (r : Option Reason)
          → check_lines o d ≡ r
          → WithinSale (add_refund share u o (by_line_check share o d r)).0
      go (some why) x = w
      go none x = money_fits u o d (collect-Distinct o ws [] d tt e) x w

  some_fits :
      (u : String) (o : Original) (ws : List Wanted)
      → WithinSale o
      → WithinSale (add_refund share u o (resolve_some share o ws)).0
  some_fits u o [] w = w
  some_fits u o (x ∷ ws) w = collection_fits u o (x ∷ ws) (collect o (x ∷ ws) []) refl w

  refund_keyed-WithinSale :
      (u : String) (currency company : Option ℕ) (ws : List Wanted) (o : Original)
      → WithinSale o
      → WithinSale (refund_keyed share u currency company ws o).0
  unfolding refund_keyed resolve_refund_lines
  refund_keyed-WithinSale u currency company ws o w =
      by_tests (has_uuid u o.refunds)
        (elim currency [ none ↦ false | some c ↦ not (c == o.currency) ])
        (elim company [ none ↦ false | some c ↦ not (c == o.company) ])
    where
      by_tests :
          (a b c : Bool)
          → WithinSale
              (if a
                then (o, duplicate)
                else add_refund share u o (
                    if b
                    then rejected currency_mismatch
                    else if c
                    then rejected company_mismatch
                    else resolve_some share o ws)).0
      by_tests true b c = w
      by_tests false true c = w
      by_tests false false true = w
      by_tests false false false = some_fits u o ws w

  order_refund-WithinSale :
      (u : String) (currency company : Option ℕ) (ws : List Wanted) (o : Original)
      → WithinSale o
      → WithinSale (order_refund share u currency company ws o).0
  unfolding order_refund
  order_refund-WithinSale u currency company ws o w = elim (Bool-cases (str_eq u "")) [
    | inl missing ↦ rw missing w
    | inr given ↦ rw given (refund_keyed-WithinSale u currency company ws o w)
  ]

  abbrev pub refund_all : List Call → Original → Original
  refund_all [] o = o
  refund_all (c ∷ cs) o = refund_all cs (order_refund share c.uuid c.currency c.company c.lines o).0

  -- From an original of which no line was refunded beyond what was sold of it, nor the whole beyond
  -- what was paid, whatever refunds are requested, with whatever lines, duplicates included, and
  -- whatever the shares of the lines come to: the same holds afterwards.
  pub refund_all-WithinSale :
      (cs : List Call) (o : Original) → WithinSale o → WithinSale (refund_all cs o)
  refund_all-WithinSale [] o w = w
  refund_all-WithinSale (c ∷ cs) o w =
      refund_all-WithinSale cs _ (order_refund-WithinSale c.uuid c.currency c.company c.lines o w)

  add_refund-uuid :
      (u : String) (o : Original) (r : Resolved)
      → (add_refund share u o r).1 ≡ granted
      → has_uuid u (add_refund share u o r).0.refunds ≡ true
  add_refund-uuid u o (rejected why) h = cc
  add_refund-uuid u o (resolved d total) h =
      any-holds (λ r. str_eq r.uuid u)
        (o.refunds ++ record { uuid = u; is_settled = true; lines = d; total = total } ∷ [])
        (record { uuid = u; is_settled = true; lines = d; total = total })
        (In-last o.refunds (record { uuid = u; is_settled = true; lines = d; total = total }))
        ((str_eq_iff u u).1 refl)

  refund_keyed-again :
      (u : String) (currency currency' company company' : Option ℕ) (ws ws' : List Wanted)
      (o : Original)
      → (refund_keyed share u currency company ws o).1 ≡ granted
      → refund_keyed share u currency' company' ws' (refund_keyed share u currency company ws o).0
        ≡ ((refund_keyed share u currency company ws o).0, duplicate)
  unfolding refund_keyed
  refund_keyed-again u currency currency' company company' ws ws' o h =
      elim (Bool-cases (has_uuid u o.refunds)) [
        | inl known ↦ rw (known, known) refl
        | inr new ↦ rw new (
            again (
              add_refund-uuid u o (resolve_refund_lines share o currency company ws) (rw new at h)))
      ]
    where
      again :
          has_uuid u
              (add_refund share u o (resolve_refund_lines share o currency company ws)).0.refunds
            ≡ true
          → (if has_uuid u
                (add_refund share u o (resolve_refund_lines share o currency company ws)).0.refunds
              then (
                (add_refund share u o (resolve_refund_lines share o currency company ws)).0,
                duplicate,
              )
              else add_refund share u
                  (add_refund share u o (resolve_refund_lines share o currency company ws)).0
                  (resolve_refund_lines share
                    (add_refund share u o (resolve_refund_lines share o currency company ws)).0
                    currency'
                    company'
                    ws'))
            ≡ (
              (add_refund share u o (resolve_refund_lines share o currency company ws)).0,
              duplicate,
            )
      again e = rw e refl

  -- When a refund was granted, another request with its uuid, for whatever lines, is answered as a
  -- duplicate and refunds nothing.
  pub order_refund-again :
      (u : String) (currency currency' company company' : Option ℕ) (ws ws' : List Wanted)
      (o : Original)
      → (order_refund share u currency company ws o).1 ≡ granted
      → order_refund share u currency' company' ws' (order_refund share u currency company ws o).0
        ≡ ((order_refund share u currency company ws o).0, duplicate)
  unfolding order_refund
  order_refund-again u currency currency' company company' ws ws' o h =
      elim (Bool-cases (str_eq u "")) [
        | inl missing ↦ absurd (not_granted (rw missing at h))
        | inr given ↦
            rw given
              (refund_keyed-again u currency currency' company company' ws ws' o (rw given at h))
      ]
    where
      not_granted : missing_uuid ≡ granted → ⊥
      not_granted e = cc
