-- ===== src/Sync/Sale.antt =====
-- A sale that is pushed again is the sale that was taken in.
use menes_pos.Sync.Push.{Mark, Reply, result, skipped}
use menes_pos.Prelude.{ℕ, String, ◌≡◌, refl, subst, Option, none, some, List, [], ◌∷◌, arith, ℤ}
use menes_pos.Sync.Apply.{
  Receipt, SavedOrder, SalePayload, Shop, Terminal, World, find_order, write_reference, saved_order,
  saved, with_lines, in_session, in_branch, unless_existing, apply_sale,
}

find-written :
    (u : String) (i : ℕ) (r : Receipt) (os : List SavedOrder) {o : SavedOrder}
    → find_order u os ≡ some o
    → o.id ≡ i
    → find_order u (write_reference i r os) ≡ some (record o { pos_reference = r })
find-written u i r [] h e = cc
find-written u i r (p ∷ os) {o = o} h e = ground (arith, find-written u i r os {o = o})

module _ {S L : Type 0} (shop : Shop S L) (term : Terminal) where
  -- The answer of a sale names the order that its key finds afterwards.
  abbrev Names : String → Reply (World S) → Type 0
  Names u (result st n o w) = (x : SavedOrder) × (find_order u w.orders ≡ some x) × (o ≡ some x.id)
  Names u _ = Unit

  saved_order-Names :
      (config : ℕ) (u : String) (seq : ℤ) (p : SalePayload L) (w : World S) (o : Option SavedOrder)
      → find_order u w.orders ≡ o
      → Names u (saved_order shop term config u seq p w o)
  saved_order-Names config u seq p w none h = tt
  saved_order-Names config u seq p w (some o) h = (_, find-written u o.id _ w.orders h refl, refl)

  saved-Names :
      (config : ℕ) (u : String) (seq : ℤ) (p : SalePayload L) (w : World S)
      (o : Option (List SavedOrder))
      → Names u (saved shop term config u seq p w o)
  saved-Names config u seq p w none = tt
  saved-Names config u seq p w (some orders) =
      saved_order-Names config u seq p (record w { orders = orders }) _ refl

  with_lines-Names :
      (config session : ℕ) (u : String) (seq : ℤ) (p : SalePayload L) (w : World S)
      (o : Option (ℤ × ℤ))
      → Names u (with_lines shop term config session u seq p w o)
  with_lines-Names config session u seq p w none = tt
  with_lines-Names config session u seq p w (some (base, incl)) = saved-Names config u seq p w _

  in_session-Names :
      (config : ℕ) (u : String) (seq : ℤ) (p : SalePayload L) (w : World S) (o : Option ℕ)
      → Names u (in_session shop term config u seq p w o)
  in_session-Names config u seq p w none = tt
  in_session-Names config u seq p w (some session) = with_lines-Names config session u seq p w _

  in_branch-Names :
      (u : String) (seq : ℤ) (p : SalePayload L) (w : World S) (o : Option ℕ)
      → Names u (in_branch shop term u seq p w o)
  in_branch-Names u seq p w none = tt
  in_branch-Names u seq p w (some config) = in_session-Names config u seq p w _

  apply_sale-Names :
      (u : String) (seq : ℤ) (p : SalePayload L) (w : World S)
      → Names u (apply_sale shop term u seq p w)
  unfolding apply_sale
  apply_sale-Names u seq p w = go (find_order u w.orders) refl
    where
      go :
          (o : Option SavedOrder)
          → find_order u w.orders ≡ o
          → Names u (unless_existing shop term u seq p w o)
      go none h = in_branch-Names u seq p w term.branch.config
      go (some o) h = (o, h, refl)

  -- A sale that was taken in is found by its key when it arrives again, from whatever terminal, and
  -- leaves the database as it is; it is answered with the same order.
  pub apply_sale_again :
      (other : Terminal) (u : String) (seq seq' : ℤ) (p q : SalePayload L) (w w' : World S)
      (st : Mark) (n : Option String) (o : Option ℕ)
      → apply_sale shop term u seq p w ≡ result st n o w'
      → apply_sale shop other u seq' q w' ≡ result skipped none o w'
  unfolding apply_sale
  apply_sale_again other u seq seq' p q w w' st n o h =
      let (x, found, same) = subst (Names u) h (apply_sale-Names u seq p w) in rw (found, same) refl
