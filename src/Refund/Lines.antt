-- ===== src/Refund/Lines.antt =====
-- addons/mezze_bridge/controllers/main.py: `_resolve_refund_lines`, and the refund of an original order
-- in `order_refund`. Quantities are in units, money in minor units; what the shares of the lines come to,
-- which the code computes in floating-point numbers, is the argument `share`. The uuid of a request is
-- looked for among the refunds of the original. Not modelled: the
-- approval token, the guards of every endpoint, and refunds without an original order.
use menes_pos.Refund.{Reason, integer, check_line_quantity, check_refund}
use menes_pos.Prelude.{
  ℕ, String, Bool, true, false, not, ◌&&◌, Option, none, some, List, [], ◌∷◌, ◌++◌, ◌==◌,
  if◌then◌else◌, str_eq, any, ℤ, pos, ◌+ℤ◌, abs,
}

pub record OrderLine : Type 0 where
  pub id : ℕ
  pub product : ℕ
  pub sold : ℤ

-- A refund of the original: the quantity of each line, positive, and what was paid back.
pub record RefundOrder : Type 0 where
  pub uuid : String
  pub is_settled : Bool
  pub lines : List (ℕ × ℤ)
  pub total : ℤ

pub record Original : Type 0 where
  pub company : ℕ
  pub currency : ℕ
  pub lines : List OrderLine
  pub paid : ℤ
  pub refunds : List RefundOrder

-- A line of the request: an id that is missing or no number is none; so is a product that is missing.
pub data Quantity : Type 0 where
  absent malformed : Quantity
  quantity : ℤ → Quantity

pub record Wanted : Type 0 where
  pub line_id : Option ℕ
  pub product_id : Option ℕ
  pub qty : Quantity

pub data Rejection : Type 0 where
  currency_mismatch company_mismatch line_missing line_not_in_original : Rejection
  product_mismatch quantity_invalid : Rejection
  over_ceiling : Reason → Rejection

pub data Resolved : Type 0 where
  rejected : Rejection → Resolved
  resolved : List (ℕ × ℤ) → ℤ → Resolved

abbrev pub find_line : ℕ → List OrderLine → Option OrderLine
find_line i [] = none
find_line i (l ∷ ls) = if l.id == i then some l else find_line i ls

-- `req_by_line[lid] = req_by_line.get(lid, 0.0) + qty`
abbrev pub add_qty : ℕ → ℤ → List (ℕ × ℤ) → List (ℕ × ℤ)
add_qty i q [] = (i, q) ∷ []
add_qty i q ((j, n) ∷ d) =
    let rest = add_qty i q d in if j == i then (j, n +ℤ q) ∷ d else (j, n) ∷ rest

abbrev pub abs_ℤ : ℤ → ℤ
abs_ℤ n = pos (abs n)

abbrev pub qty_of : Quantity → OrderLine → Option ℤ
qty_of absent l = some (abs_ℤ l.sold)
qty_of malformed l = none
qty_of (quantity n) l = some (abs_ℤ n)

abbrev pub other_product : Option ℕ → OrderLine → Bool
other_product none l = false
other_product (some p) l = not (p == 0) && not (p == l.product)

-- What one line of the request asks for.
pub data Ask : Type 0 where
  refused : Rejection → Ask
  ask : ℕ → ℤ → Ask

abbrev pub ask_quantity : ℕ → Option ℤ → Ask
ask_quantity i none = refused quantity_invalid
ask_quantity i (some q) = ask i q

abbrev pub ask_line : Wanted → ℕ → Option OrderLine → Ask
ask_line w i none = refused line_not_in_original
ask_line w i (some l) =
    if other_product w.product_id l
    then refused product_mismatch
    else ask_quantity i (qty_of w.qty l)

abbrev pub ask_id : Original → Wanted → Option ℕ → Ask
ask_id o w none = refused line_missing
ask_id o w (some i) = if i == 0 then refused line_missing else ask_line w i (find_line i o.lines)

unfoldable pub ask_of : Original → Wanted → Ask
ask_of o w = ask_id o w w.line_id

pub data Collected : Type 0 where
  stopped : Rejection → Collected
  collected : List (ℕ × ℤ) → Collected

-- The quantities by line, duplicates added up, in the order of the first mention.
abbrev pub collect : Original → List Wanted → List (ℕ × ℤ) → Collected
collect o [] d = collected d
collect o (w ∷ ws) d = elim (ask_of o w) [
  | refused why ↦ stopped why
  | ask i q ↦ collect o ws (add_qty i q d)
]

-- ## What was refunded before

abbrev pub qty_in : ℕ → List (ℕ × ℤ) → ℤ
qty_in i [] = pos 0
qty_in i ((j, n) ∷ d) = let rest = qty_in i d in if j == i then n +ℤ rest else rest

abbrev pub already_qty : ℕ → List RefundOrder → ℤ
already_qty i [] = pos 0
already_qty i (r ∷ rs) =
    let rest = already_qty i rs in if r.is_settled then qty_in i r.lines +ℤ rest else rest

abbrev pub already_paid_back : List RefundOrder → ℤ
already_paid_back [] = pos 0
already_paid_back (r ∷ rs) =
    let rest = already_paid_back rs in if r.is_settled then r.total +ℤ rest else rest

-- ## The ceilings

abbrev pub sold_of : Original → ℕ → ℤ
sold_of o i = elim (find_line i o.lines) [ none ↦ pos 0 | some l ↦ l.sold ]

abbrev pub check_lines : Original → List (ℕ × ℤ) → Option Reason
check_lines o [] = none
check_lines o ((i, q) ∷ d) =
    let v = check_line_quantity (integer q) (sold_of o i) (already_qty i o.refunds) in
    let rest = check_lines o d in if v.is_ok then rest else some v.reason

pub data Answer : Type 0 where
  missing_uuid duplicate granted : Answer
  denied : Rejection → Answer

abbrev pub has_uuid : String → List RefundOrder → Bool
has_uuid u rs = any (λ r. str_eq r.uuid u) rs

module _ (share : Original → List (ℕ × ℤ) → ℤ) where
  abbrev pub check_money : Original → List (ℕ × ℤ) → Resolved
  check_money o d =
      let total = share o d in
      let v = check_refund (integer total) o.paid (already_paid_back o.refunds) in
      if v.is_ok then resolved d total else rejected (over_ceiling v.reason)

  abbrev pub by_line_check : Original → List (ℕ × ℤ) → Option Reason → Resolved
  by_line_check o d (some why) = rejected (over_ceiling why)
  by_line_check o d none = check_money o d

  abbrev pub by_collection : Original → Collected → Resolved
  by_collection o (stopped why) = rejected why
  by_collection o (collected d) = by_line_check o d (check_lines o d)

  abbrev pub resolve_some : Original → List Wanted → Resolved
  resolve_some o [] = rejected line_missing
  resolve_some o (w ∷ ws) = by_collection o (collect o (w ∷ ws) [])

  -- The session's currency and company, and the lines of the request.
  unfoldable pub resolve_refund_lines : Original → Option ℕ → Option ℕ → List Wanted → Resolved
  resolve_refund_lines o currency company ws =
      if elim currency [ none ↦ false | some c ↦ not (c == o.currency) ]
      then rejected currency_mismatch
      else if elim company [ none ↦ false | some c ↦ not (c == o.company) ]
      then rejected company_mismatch
      else resolve_some o ws

  abbrev pub add_refund : String → Original → Resolved → Original × Answer
  add_refund u o (rejected why) = (o, denied why)
  add_refund u o (resolved d total) = (
    record o {
      refunds = o.refunds ++ record { uuid = u; is_settled = true; lines = d; total = total } ∷ [];
    },
    granted,
  )

  -- A request with a uuid; `sync_from_ui` settles the refund order at once.
  unfoldable pub refund_keyed :
      String → Option ℕ → Option ℕ → List Wanted → Original → Original × Answer
  refund_keyed u currency company ws o =
      if has_uuid u o.refunds
      then (o, duplicate)
      else add_refund u o (resolve_refund_lines o currency company ws)

  -- `order_refund` of an original
  unfoldable pub order_refund :
      String → Option ℕ → Option ℕ → List Wanted → Original → Original × Answer
  order_refund u currency company ws o =
      if str_eq u "" then (o, missing_uuid) else refund_keyed u currency company ws o
