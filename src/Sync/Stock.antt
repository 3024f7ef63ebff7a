-- ===== src/Sync/Stock.antt =====
-- addons/mezze_bridge/controllers/sync.py: `_apply_stock_delta`. Quantities are in units of
-- the stock's precision. The records of Odoo that the code only looks up, and the stock engine, are
-- the fields of an interface.
use mathlib.Core.List.{foldr, Perm}
use mathlib.Core.List.Perm
use menes_pos.Prelude.{
  ℕ, ◌≡◌, refl, sym, ap, ◌∙◌, inl, inr, Bool, true, false, ◌&&◌, Option, none, some, List, [], ◌∷◌,
  ◌==◌, if◌then◌else◌, Bool-cases, ℤ, pos, ◌+ℤ◌, ltb_ℤ, int_laws,
}

-- Odoo's products and quants, as far as the code uses them. `on_hand` is the sum
-- of the quantities of the quants of a product in a location; the law is what
-- `_update_available_quantity` documents.
pub record StockEngine (S : Type 0) : Type 0 where
  pub product_exists : ℕ → Bool
  pub on_hand : S → ℕ → ℕ → ℤ
  pub update_available_quantity : S → ℕ → ℕ → ℤ → S
  pub on_hand-update :
      (s : S) (product location : ℕ) (delta : ℤ) (p l : ℕ)
      → on_hand (update_available_quantity s product location delta) p l
        ≡ (if product == p && location == l then on_hand s p l +ℤ delta else on_hand s p l)

-- The terminal's configuration, and the stock location of its warehouse.
pub record Branch : Type 0 where
  pub config : Option ℕ
  pub stock_location : Option ℕ

-- The fields that the handler reads: `int(payload['product_id'])`, absent or not a number raises.
pub record StockPayload : Type 0 where
  pub product_id : Option ℕ
  pub location_id : Option ℕ
  pub delta : Option ℤ

pub data StockError : Type 0 where
  no_config unknown_product no_location : StockError

pub data StockReply (S : Type 0) : Type 0 where
  stock_applied stock_flagged : S → StockReply S
  stock_raised : StockError → StockReply S

pub add_zero : (x : ℤ) → x ≡ x +ℤ pos 0
add_zero x = omega int_laws

add_if : (b : Bool) (x d : ℤ) → (if b then x +ℤ d else x) ≡ x +ℤ (if b then d else pos 0)
add_if true x d = refl
add_if false x d = add_zero x

pub add_swap : (a b x : ℤ) → a +ℤ (b +ℤ x) ≡ b +ℤ (a +ℤ x)
add_swap a b x = omega int_laws

pub ℤ_set : IsSet ℤ
ℤ_set = hlevel

module _ {S : Type 0} (engine : StockEngine S) (branch : Branch) where
  abbrev pub location_of : StockPayload → Option ℕ
  location_of p = elim p.location_id [
    | none ↦ branch.stock_location
    | some l ↦ if l == 0 then branch.stock_location else some l
  ]

  abbrev pub delta_of : StockPayload → ℤ
  delta_of p = elim p.delta [ none ↦ pos 0 | some d ↦ d ]

  abbrev pub flag_negative : ℕ → ℕ → S → StockReply S
  flag_negative product location s =
      if ltb_ℤ (engine.on_hand s product location) (pos 0) then stock_flagged s else stock_applied s

  abbrev pub update_at : ℕ → ℤ → S → Option ℕ → StockReply S
  update_at product delta s none = stock_raised no_location
  update_at product delta s (some l) =
      flag_negative product l (engine.update_available_quantity s product l delta)

  abbrev pub update_product : StockPayload → S → Option ℕ → StockReply S
  update_product p s none = stock_raised unknown_product
  update_product p s (some product) =
      if engine.product_exists product
      then update_at product (delta_of p) s (location_of p)
      else stock_raised unknown_product

  abbrev pub in_config : StockPayload → S → Option ℕ → StockReply S
  in_config p s none = stock_raised no_config
  in_config p s (some c) = update_product p s p.product_id

  unfoldable pub apply_stock_delta : StockPayload → S → StockReply S
  apply_stock_delta p s = in_config p s branch.config

  -- The stock after an event: the savepoint drops what an event did that raised.
  abbrev pub stock_after : S → StockReply S → S
  stock_after s (stock_applied s') = s'
  stock_after s (stock_flagged s') = s'
  stock_after s (stock_raised e) = s

  abbrev pub apply_deltas : List StockPayload → S → S
  apply_deltas [] s = s
  apply_deltas (p ∷ ps) s = apply_deltas ps (stock_after s (apply_stock_delta p s))

  -- What an event adds to what is on hand of a product in a location: nothing when it raises.

  abbrev pub moved_at : ℕ → ℕ → ℕ → ℤ → Option ℕ → ℤ
  moved_at q m product delta none = pos 0
  moved_at q m product delta (some l) = if product == q && l == m then delta else pos 0

  abbrev pub moved_of : ℕ → ℕ → StockPayload → Option ℕ → ℤ
  moved_of q m p none = pos 0
  moved_of q m p (some product) =
      if engine.product_exists product
      then moved_at q m product (delta_of p) (location_of p)
      else pos 0

  abbrev pub moved_in : ℕ → ℕ → StockPayload → Option ℕ → ℤ
  moved_in q m p none = pos 0
  moved_in q m p (some c) = moved_of q m p p.product_id

  abbrev pub moved : ℕ → ℕ → StockPayload → ℤ
  moved q m p = moved_in q m p branch.config

  flag-on_hand :
      (q m product location : ℕ) (s s' : S)
      → engine.on_hand (stock_after s' (flag_negative product location s)) q m
        ≡ engine.on_hand s q m
  flag-on_hand q m product location s s' =
      elim (Bool-cases (ltb_ℤ (engine.on_hand s product location) (pos 0))) [
        | inl low ↦ rw low refl
        | inr high ↦ rw high refl
      ]

  at-on_hand :
      (q m product : ℕ) (delta : ℤ) (s : S) (o : Option ℕ)
      → engine.on_hand (stock_after s (update_at product delta s o)) q m
        ≡ engine.on_hand s q m +ℤ moved_at q m product delta o
  at-on_hand q m product delta s none = add_zero (engine.on_hand s q m)
  at-on_hand q m product delta s (some l) =
      flag-on_hand q m product l _ s
      ∙ engine.on_hand-update s product l delta q m
      ∙ add_if (product == q && l == m) (engine.on_hand s q m) delta

  of-on_hand :
      (q m : ℕ) (p : StockPayload) (s : S) (o : Option ℕ)
      → engine.on_hand (stock_after s (update_product p s o)) q m
        ≡ engine.on_hand s q m +ℤ moved_of q m p o
  of-on_hand q m p s none = add_zero (engine.on_hand s q m)
  of-on_hand q m p s (some product) = elim (Bool-cases (engine.product_exists product)) [
    | inl real ↦ rw real (at-on_hand q m product (delta_of p) s (location_of p))
    | inr unreal ↦ rw unreal (add_zero (engine.on_hand s q m))
  ]

  in-on_hand :
      (q m : ℕ) (p : StockPayload) (s : S) (o : Option ℕ)
      → engine.on_hand (stock_after s (in_config p s o)) q m
        ≡ engine.on_hand s q m +ℤ moved_in q m p o
  in-on_hand q m p s none = add_zero (engine.on_hand s q m)
  in-on_hand q m p s (some c) = of-on_hand q m p s p.product_id

  -- Whatever stock events arrive, those that raise included: what is on hand of a product in a
  -- location is what was, plus the deltas of the events that name a known product and that location.
  pub apply_deltas-on_hand :
      (ps : List StockPayload) (s : S) (q m : ℕ)
      → engine.on_hand (apply_deltas ps s) q m
        ≡ engine.on_hand s q m +ℤ foldr (λ p d. moved q m p +ℤ d) (pos 0) ps
  unfolding apply_stock_delta
  apply_deltas-on_hand [] s q m = add_zero (engine.on_hand s q m)
  apply_deltas-on_hand (p ∷ ps) s q m =
      apply_deltas-on_hand ps _ q m ∙ rw (in-on_hand q m p s branch.config) (omega int_laws)

  -- Stock converges: two sequences of the same events in any two orders, failing events included,
  -- leave the same quantity on hand of every product in every location.
  pub apply_deltas-perm :
      (ps qs : List StockPayload) (s : S)
      → Perm ps qs
      → (q m : ℕ) → engine.on_hand (apply_deltas ps s) q m ≡ engine.on_hand (apply_deltas qs s) q m
  apply_deltas-perm ps qs s π q m =
      apply_deltas-on_hand ps s q m
      ∙ ap (λ d. engine.on_hand s q m +ℤ d)
          (Perm.foldr-eq ℤ_set (λ p d. moved q m p +ℤ d)
            (λ a b x. add_swap (moved q m a) (moved q m b) x) π (pos 0))
      ∙ sym (apply_deltas-on_hand qs s q m)
