-- ===== src/Refund/Tests.antt =====
-- Runs of the refund ceiling.
use menes_pos.Prelude.{
  ℕ, ◌*◌, ◌≡◌, refl, none, some, List, [], ◌∷◌, arith, ℤ, pos, negsuc, pos_part, ◌+ℤ◌, ◌-ℤ◌, ◌≤ℤ◌,
}
use menes_pos.Refund.Lines.{
  resolve_refund_lines, refund_keyed, Original, Wanted, quantity, already_qty, sold_of, duplicate,
  order_refund, ask_of,
}
use menes_pos.Refund.Ceiling.{
  Call, WithinSale, refund_all, refund_all-WithinSale, order_refund-again,
}
use menes_pos.Refund.Duplicates.{wanted_qty, collect-qty}
use menes_pos.Refund.{Asked, integer, not_an_integer, check_refund, check_line_quantity}

abbrev asks : List Asked
asks = integer (pos 600) ∷ integer (pos 600) ∷ not_an_integer ∷ integer (pos 400) ∷ []

-- An order of two lines, refunded line by line.
abbrev original : Original
original = record {
  company = 1;
  currency = 2;
  lines =
      record { id = 11; product = 5; sold = pos 3 }
      ∷ record { id = 12; product = 6; sold = pos 1 }
      ∷ [];
  paid = pos 700;
  refunds = [];
}

-- A hundred for each unit.
abbrev hundred_each : Original → List (ℕ × ℤ) → ℤ
hundred_each o [] = pos 0
hundred_each o ((i, n) ∷ d) = pos (100 * pos_part n) +ℤ hundred_each o d

abbrev wanted : ℕ → ℤ → Wanted
wanted i n = record { line_id = some i; product_id = none; qty = quantity n }

abbrev twice_wanted : List Wanted
twice_wanted = wanted 11 (pos 1) ∷ wanted 12 (pos 1) ∷ wanted 11 (negsuc 0) ∷ []

abbrev calls : List Call
calls =
    record { uuid = "r1"; currency = some 2; company = some 1; lines = twice_wanted }
    ∷ record { uuid = "r2"; currency = some 2; company = some 1; lines = twice_wanted }
    ∷ []

nothing_refunded : WithinSale original
nothing_refunded = (nothing, omega arith)
  where
    nothing : (i : ℕ) → already_qty i original.refunds ≤ℤ sold_of original i
    nothing i = ground arith

refund_all-WithinSale_example : WithinSale (refund_all hundred_each calls original)
refund_all-WithinSale_example = refund_all-WithinSale hundred_each calls original nothing_refunded

order_refund-again_example :
    order_refund hundred_each "r1" none none []
      (order_refund hundred_each "r1" none none twice_wanted original).0
    ≡ ((order_refund hundred_each "r1" none none twice_wanted original).0, duplicate)
unfolding order_refund refund_keyed resolve_refund_lines ask_of check_line_quantity ◌+ℤ◌ ◌-ℤ◌
    check_refund
order_refund-again_example =
    order_refund-again hundred_each "r1" none none none none twice_wanted [] original refl

collect-qty_example : pos 2 ≡ wanted_qty original 11 twice_wanted
unfolding ask_of ◌+ℤ◌
collect-qty_example = collect-qty original twice_wanted ((11, pos 2) ∷ (12, pos 1) ∷ []) 11 refl
