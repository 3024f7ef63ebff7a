-- ===== src/Refund/Duplicates.antt =====
-- Several lines of a request that name the same line of the order count together.
use menes_pos.Refund.Lines.{
  Original, Wanted, Ask, refused, ask, ask_of, stopped, collected, collect, add_qty, qty_in,
}
use menes_pos.Prelude.{
  ℕ, ◌≡◌, refl, sym, ◌∙◌, inl, inr, Bool, true, false, List, [], ◌∷◌, ◌==◌, if◌then◌else◌, ==_iff,
  Bool-cases, ℤ, pos, ◌+ℤ◌, int_laws,
}

-- What the lines of a request ask of one line, added up.
abbrev pub asked_qty : ℕ → Ask → ℤ
asked_qty i (refused why) = pos 0
asked_qty i (ask k q) = if k == i then q else pos 0

abbrev pub wanted_qty : Original → ℕ → List Wanted → ℤ
wanted_qty o i [] = pos 0
wanted_qty o i (w ∷ ws) = asked_qty i (ask_of o w) +ℤ wanted_qty o i ws

qty_in-add_qty :
    (i k : ℕ) (q : ℤ) (d : List (ℕ × ℤ))
    → qty_in i (add_qty k q d) ≡ qty_in i d +ℤ (if k == i then q else pos 0)
qty_in-add_qty i k q [] = alone (k == i)
  where
    alone : (b : Bool) → (if b then q +ℤ pos 0 else pos 0) ≡ pos 0 +ℤ (if b then q else pos 0)
    alone true = omega int_laws
    alone false = omega int_laws
qty_in-add_qty i k q ((j, n) ∷ d) = elim (Bool-cases (j == k)) [
  | inl same ↦ rw same (rw (sym ((==_iff j k).0 same)) (more (j == i)))
  | inr other ↦ rw (other, qty_in-add_qty i k q d) (apart (j == i) (if k == i then q else pos 0))
]
  where
    more :
        (b : Bool)
        → (if b then (n +ℤ q) +ℤ qty_in i d else qty_in i d)
          ≡ (if b then n +ℤ qty_in i d else qty_in i d) +ℤ (if b then q else pos 0)
    more true = omega int_laws
    more false = omega int_laws

    apart :
        (b : Bool) (x : ℤ)
        → (if b then n +ℤ (qty_in i d +ℤ x) else qty_in i d +ℤ x)
          ≡ (if b then n +ℤ qty_in i d else qty_in i d) +ℤ x
    apart true x = omega int_laws
    apart false x = refl

collected-sum :
    (o : Original) (i : ℕ) (ws : List Wanted) (d d' : List (ℕ × ℤ))
    → collect o ws d ≡ collected d'
    → qty_in i d' ≡ qty_in i d +ℤ wanted_qty o i ws
collected-sum o i [] d d' h = rw (sym (list_of h)) (omega int_laws)
  where
    list_of : collected d ≡ collected d' → d ≡ d'
    list_of e = cc
collected-sum o i (w ∷ ws) d d' h =
    go (ask_of o w) h (λ k q x. collected-sum o i ws (add_qty k q d) d' x)
  where
    go :
        (a : Ask)
        → (elim a [ refused why ↦ stopped why | ask k q ↦ collect o ws (add_qty k q d) ])
          ≡ collected d'
        → ((k : ℕ) (q : ℤ)
            → collect o ws (add_qty k q d) ≡ collected d'
            → qty_in i d' ≡ qty_in i (add_qty k q d) +ℤ wanted_qty o i ws)
        → qty_in i d' ≡ qty_in i d +ℤ (asked_qty i a +ℤ wanted_qty o i ws)
    go (refused why) x ih = cc
    go (ask k q) x ih = ih k q x ∙ rw (qty_in-add_qty i k q d) (omega int_laws)

-- When the lines of a request are taken, the quantity of each line of the order that is checked and
-- refunded is the sum of what all the lines of the request ask of it.
pub collect-qty :
    (o : Original) (ws : List Wanted) (d : List (ℕ × ℤ)) (i : ℕ)
    → collect o ws [] ≡ collected d
    → qty_in i d ≡ wanted_qty o i ws
collect-qty o ws d i h = collected-sum o i ws [] d h ∙ omega int_laws
