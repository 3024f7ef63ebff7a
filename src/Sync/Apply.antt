-- ===== src/Sync/Apply.antt =====
-- addons/mezze_bridge/controllers/sync.py: `_apply_sale` and the dispatcher `_apply_event`, as the
-- argument of `push`. The session, the order lines and `sync_from_ui` of Odoo are the fields of an
-- interface; JSON comes parsed.
use menes_pos.Sync.Push.{Event, Reply, result, raised, applied, skipped, flagged}
use menes_pos.Sync.Stock.{
  StockEngine, Branch, StockPayload, StockReply, StockError, no_config, unknown_product,
  no_location, stock_applied, stock_flagged, stock_raised, apply_stock_delta,
}
use menes_pos.Sync.Loyalty.{
  Loyalty, LoyaltyPayload, LoyaltyReply, LoyaltyError, unknown_partner, no_programme,
  loyalty_applied, loyalty_flagged, loyalty_raised, apply_loyalty_txn,
}
use menes_pos.Prelude.{
  ℕ, zero, suc, ◌-◌, String, Bool, Option, none, some, List, [], ◌∷◌, map, ◌==◌, if◌then◌else◌,
  str_eq, length, elem, codes, ℤ,
}

-- `pos_reference`: as it came, or `_terminal_ref` of the branch, the last characters of the terminal's
-- identifier and the sequence number of the event.
pub data Receipt : Type 0 where
  carried : String → Receipt
  minted : ℕ → List ℕ → ℤ → Receipt
  unset : Receipt

pub record SavedOrder : Type 0 where
  pub id : ℕ
  pub uuid : String
  pub pos_reference : Receipt

-- A sale's payments, `(amount, payment_method_id)` each, and what else the handler reads.
pub record SalePayload (L : Type 0) : Type 0 where
  pub partner_id : Option ℕ
  pub lines : List L
  pub payments : List (ℤ × ℕ)
  pub pos_reference : Option String

pub record OrderDict : Type 0 where
  pub uuid : String
  pub session : ℕ
  pub partner : Option ℕ
  pub base : ℤ
  pub incl : ℤ
  pub payments : List (ℤ × Option ℕ)

pub record Payload (L : Type 0) : Type 0 where
  pub sale : SalePayload L
  pub stock : StockPayload
  pub loyalty : LoyaltyPayload

-- The calls that may raise answer `none`. `base_incl` is what the lines come to without tax and with.
pub record Shop (S L : Type 0) : Type 0 where
  pub engine : StockEngine S
  pub partner_exists : ℕ → Bool
  pub has_program : Bool
  pub first_method : ℕ → Option ℕ
  pub open_session : ℕ → Option ℕ
  pub base_incl : ℕ → Option ℕ → List L → Option (ℤ × ℤ)
  pub sync_from_ui : OrderDict → List SavedOrder → Option (List SavedOrder)
  -- `_ev_payload`: the event's payload, parsed
  pub payload_of : Event → Option (Payload L)

pub record Terminal : Type 0 where
  pub identifier : String
  pub branch : Branch

pub record World (S : Type 0) : Type 0 where
  pub orders : List SavedOrder
  pub stock : S
  pub loyalty : Loyalty

abbrev pub find_order : String → List SavedOrder → Option SavedOrder
find_order u [] = none
find_order u (o ∷ os) = if str_eq o.uuid u then some o else find_order u os

abbrev pub write_reference : ℕ → Receipt → List SavedOrder → List SavedOrder
write_reference i r [] = []
write_reference i r (o ∷ os) =
    let rest = write_reference i r os in
    (if o.id == i then record o { pos_reference = r } else o) ∷ rest

-- `text[-n:]`
abbrev pub drop : ℕ → List ℕ → List ℕ
drop zero cs = cs
drop (suc n) [] = []
drop (suc n) (c ∷ cs) = drop n cs

abbrev pub last_codes : ℕ → List ℕ → List ℕ
last_codes n cs = drop (length cs - n) cs

-- `_terminal_ref`
abbrev pub terminal_ref : ℕ → String → ℤ → Receipt
terminal_ref config ident tail = minted config (last_codes 8 (codes ident)) tail

abbrev pub reference_of : ℕ → String → ℤ → Option String → Receipt
reference_of config ident seq none = terminal_ref config ident seq
reference_of config ident seq (some r) =
    if str_eq r "" then terminal_ref config ident seq else carried r

abbrev pub truthy : Option ℕ → Option ℕ
truthy o = elim o [ none ↦ none | some n ↦ if n == 0 then none else some n ]

abbrev pub stock_text : StockError → String
stock_text no_config = "no pos.config for terminal"
stock_text unknown_product = "unknown product_id"
stock_text no_location = "no stock location for branch"

abbrev pub loyalty_text : LoyaltyError → String
loyalty_text unknown_partner = "unknown partner for loyalty txn"
loyalty_text no_programme = "no loyalty programme configured"

module _ {S L : Type 0} (shop : Shop S L) (term : Terminal) where
  -- The payments of the order: the sale's, or the whole of it by the branch's first method.
  abbrev pub order_payments : ℕ → ℤ → List (ℤ × ℕ) → List (ℤ × Option ℕ)
  order_payments config incl [] = (incl, shop.first_method config) ∷ []
  order_payments config incl (p ∷ ps) = map (λ (q : ℤ × ℕ). (q.0, some q.1)) (p ∷ ps)

  abbrev pub saved_order :
      ℕ → String → ℤ → SalePayload L → World S → Option SavedOrder → Reply (World S)
  saved_order config u seq p w none = raised "offline sale did not persist"
  saved_order config u seq p w (some o) = result applied none (some o.id) (record w {
    orders =
        write_reference o.id (reference_of config term.identifier seq p.pos_reference) w.orders;
  })

  abbrev pub saved :
      ℕ → String → ℤ → SalePayload L → World S → Option (List SavedOrder) → Reply (World S)
  saved config u seq p w none = raised "sync_from_ui"
  saved config u seq p w (some orders) =
      saved_order config u seq p (record w { orders = orders }) (find_order u orders)

  abbrev pub with_lines :
      ℕ → ℕ → String → ℤ → SalePayload L → World S → Option (ℤ × ℤ) → Reply (World S)
  with_lines config session u seq p w none = raised "lines"
  with_lines config session u seq p w (some (base, incl)) =
      let dict : OrderDict = record {
        uuid = u;
        session = session;
        partner = truthy p.partner_id;
        base = base;
        incl = incl;
        payments = order_payments config incl p.payments;
      } in
      saved config u seq p w (shop.sync_from_ui dict w.orders)

  abbrev pub in_session : ℕ → String → ℤ → SalePayload L → World S → Option ℕ → Reply (World S)
  in_session config u seq p w none = raised "session"
  in_session config u seq p w (some session) =
      with_lines config session u seq p w (shop.base_incl config (truthy p.partner_id) p.lines)

  abbrev pub in_branch : String → ℤ → SalePayload L → World S → Option ℕ → Reply (World S)
  in_branch u seq p w none = raised "no pos.config for terminal"
  in_branch u seq p w (some config) = in_session config u seq p w (shop.open_session config)

  abbrev pub unless_existing :
      String → ℤ → SalePayload L → World S → Option SavedOrder → Reply (World S)
  unless_existing u seq p w (some o) = result skipped none (some o.id) w
  unless_existing u seq p w none = in_branch u seq p w term.branch.config

  unfoldable pub apply_sale : String → ℤ → SalePayload L → World S → Reply (World S)
  apply_sale u seq p w = unless_existing u seq p w (find_order u w.orders)

  abbrev pub of_stock : World S → StockReply S → Reply (World S)
  of_stock w (stock_applied s) = result applied none none (record w { stock = s })
  of_stock w (stock_flagged s) =
      result flagged (some "negative_stock") none (record w { stock = s })
  of_stock w (stock_raised e) = raised (stock_text e)

  abbrev pub of_loyalty : World S → LoyaltyReply → Reply (World S)
  of_loyalty w (loyalty_applied l) = result applied none none (record w { loyalty = l })
  of_loyalty w (loyalty_flagged l) =
      result flagged (some "negative_points") none (record w { loyalty = l })
  of_loyalty w (loyalty_raised e) = raised (loyalty_text e)

  abbrev pub uuid_text : Event → String
  uuid_text e = elim e.res_uuid [ none ↦ "" | some u ↦ u ]

  abbrev pub dispatch : Event → World S → Option (Payload L) → Reply (World S)
  dispatch e w none = raised "payload"
  dispatch e w (some p) =
      if str_eq e.model "pos.order"
      then apply_sale (uuid_text e) e.seq p.sale w
      else if elem e.model ("stock" ∷ "stock.delta" ∷ "mezze.stock.delta" ∷ [])
      then of_stock w (apply_stock_delta shop.engine term.branch p.stock w.stock)
      else if elem e.model ("loyalty" ∷ "loyalty.history" ∷ [])
      then of_loyalty w (apply_loyalty_txn shop.partner_exists shop.has_program p.loyalty w.loyalty)
      else raised "unknown sync model"

  unfoldable pub apply_event : Event → World S → Reply (World S)
  apply_event e w = dispatch e w (shop.payload_of e)
