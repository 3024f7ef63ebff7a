-- ===== src/Refund/Checked.antt =====
-- The lines of a refund that pass the check of _resolve_refund_lines (addons/mezze_bridge), and what a
-- refund adds to the sums of the refunds before it.
use menes_pos.Refund.{Reason, integer, check_line_quantity, check_refund-granted}
use menes_pos.Refund.Lines.{
  RefundOrder, Original, Wanted, add_qty, Ask, refused, ask, ask_of, stopped, collected, collect,
  qty_in, already_qty, already_paid_back, sold_of, check_lines,
}
use menes_pos.Prelude.{
  ℕ, ◌≡◌, refl, sym, ◌∙◌, subst, inl, inr, Bool, true, false, ◌||◌, none, some, List, [], ◌∷◌, ◌++◌,
  arith, ◌==◌, ==_iff, Bool-cases, ℤ, pos, ◌+ℤ◌, ◌-ℤ◌, ◌≤ℤ◌, int_laws,
}

-- ## Lines and quantities

abbrev has_id : ℕ → List (ℕ × ℤ) → Bool
has_id i [] = false
has_id i ((j, n) ∷ d) = j == i || has_id i d

abbrev pub Distinct : List (ℕ × ℤ) → Type 0
Distinct [] = Unit
Distinct ((j, n) ∷ d) = (has_id j d ≡ false) × Distinct d

has_id-add_qty :
    (i k : ℕ) (q : ℤ) (d : List (ℕ × ℤ)) → has_id i (add_qty k q d) ≡ (k == i || has_id i d)
has_id-add_qty i k q [] = ground arith
has_id-add_qty i k q ((j, n) ∷ d) = ground (arith, has_id-add_qty i k q d)

add_qty-Distinct : (k : ℕ) (q : ℤ) (d : List (ℕ × ℤ)) → Distinct d → Distinct (add_qty k q d)
add_qty-Distinct k q [] h = (refl, tt)
add_qty-Distinct k q ((j, n) ∷ d) h = elim (Bool-cases (j == k)) [
  | inl same ↦ rw same h
  | inr other ↦ rw other (has_id-add_qty j k q d ∙ ground (arith, h.0), add_qty-Distinct k q d h.1)
]

collected-injective : (d d' : List (ℕ × ℤ)) → collected d ≡ collected d' → d ≡ d'
collected-injective d d' e = cc

pub collect-Distinct :
    (o : Original) (ws : List Wanted) (d d' : List (ℕ × ℤ))
    → Distinct d
    → collect o ws d ≡ collected d'
    → Distinct d'
collect-Distinct o [] d d' h e = subst Distinct (collected-injective d d' e) h
collect-Distinct o (w ∷ ws) d d' h e =
    go (ask_of o w) e
      (λ i q x. collect-Distinct o ws (add_qty i q d) d' (add_qty-Distinct i q d h) x)
  where
    go :
        (a : Ask)
        → (elim a [ refused why ↦ stopped why | ask i q ↦ collect o ws (add_qty i q d) ])
          ≡ collected d'
        → ((i : ℕ) (q : ℤ) → collect o ws (add_qty i q d) ≡ collected d' → Distinct d')
        → Distinct d'
    go (refused why) x ih = cc
    go (ask i q) x ih = ih i q x

qty_in-missing : (i : ℕ) (d : List (ℕ × ℤ)) → has_id i d ≡ false → qty_in i d ≡ pos 0
qty_in-missing i [] h = refl
qty_in-missing i ((j, n) ∷ d) h = ground (arith, qty_in-missing i d)

line-granted :
    (q sold already : ℤ)
    → (check_line_quantity (integer q) sold already).is_ok ≡ true
    → q ≤ℤ sold -ℤ already
line-granted q sold already h =
    let (meaning, same, left) = check_refund-granted q sold already in (meaning.0 (sym same ∙ h)).1

-- The lines that pass the check leave no line below nothing.
pub qty_in-checked :
    (o : Original) (i : ℕ) (d : List (ℕ × ℤ))
    → Distinct d
    → check_lines o d ≡ none
    → already_qty i o.refunds ≤ℤ sold_of o i
    → qty_in i d +ℤ already_qty i o.refunds ≤ℤ sold_of o i
qty_in-checked o i [] h c below = omega int_laws
qty_in-checked o i ((j, n) ∷ d) h c below =
    elim (Bool-cases
      (check_line_quantity (integer n) (sold_of o j) (already_qty j o.refunds)).is_ok) [
        | inr over ↦ absurd (no_reason (rw over at c))
        | inl fine ↦ elim (Bool-cases (j == i)) [
          | inr other ↦ rw other (qty_in-checked o i d h.1 (rw fine at c) below)
          | inl same ↦ rw same (here ((==_iff j i).0 same) fine)
        ]
      ]
  where
    no_reason : {r : Reason} → some r ≡ none → ⊥
    no_reason e = cc

    here :
        j ≡ i
        → (check_line_quantity (integer n) (sold_of o j) (already_qty j o.refunds)).is_ok ≡ true
        → (n +ℤ qty_in i d) +ℤ already_qty i o.refunds ≤ℤ sold_of o i
    here e fine =
        subst (λ k. (n +ℤ qty_in k d) +ℤ already_qty k o.refunds ≤ℤ sold_of o k) e
          (rw (qty_in-missing j d h.0)
            (fits (line-granted n (sold_of o j) (already_qty j o.refunds) fine)))
      where
        fits :
            n ≤ℤ sold_of o j -ℤ already_qty j o.refunds
            → (n +ℤ pos 0) +ℤ already_qty j o.refunds ≤ℤ sold_of o j
        fits x = omega int_laws

-- ## The refunds of an order

pub already_qty-append :
    (i : ℕ) (rs : List RefundOrder) (r : RefundOrder)
    → r.is_settled ≡ true
    → already_qty i (rs ++ r ∷ []) ≡ qty_in i r.lines +ℤ already_qty i rs
already_qty-append i [] r h = rw h refl
already_qty-append i (s ∷ rs) r h = elim (Bool-cases s.is_settled) [
  | inl counted ↦ rw (counted, already_qty-append i rs r h) (omega int_laws)
  | inr open_refund ↦ rw (open_refund, already_qty-append i rs r h) refl
]

pub already_paid_back-append :
    (rs : List RefundOrder) (r : RefundOrder)
    → r.is_settled ≡ true
    → already_paid_back (rs ++ r ∷ []) ≡ r.total +ℤ already_paid_back rs
already_paid_back-append [] r h = rw h refl
already_paid_back-append (s ∷ rs) r h = elim (Bool-cases s.is_settled) [
  | inl counted ↦ rw (counted, already_paid_back-append rs r h) (omega int_laws)
  | inr open_refund ↦ rw (open_refund, already_paid_back-append rs r h) refl
]
