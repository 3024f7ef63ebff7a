-- ===== src/Sync/Loyalty.antt =====
-- addons/mezze_bridge/controllers/sync.py: `_apply_loyalty_txn`, with `_loyalty_program` and
-- `_loyalty_card` of controllers/main.py. Points are in units of their precision; the text of a history
-- line is not modelled.
use menes_pos.Prelude.{
  ℕ, Bool, not, ◌&&◌, Option, none, some, List, [], ◌∷◌, ◌++◌, ◌==◌, if◌then◌else◌, ℤ, pos, ◌+ℤ◌,
  ◌-ℤ◌, ltb_ℤ,
}

pub record Card : Type 0 where
  pub partner : ℕ
  pub points : ℤ

-- A line of `loyalty.history`.
pub record HistoryLine : Type 0 where
  pub partner : ℕ
  pub issued : ℤ
  pub used : ℤ

-- The programme's cards, newest last, and its history, newest first.
pub record Loyalty : Type 0 where
  pub cards : List Card
  pub history : List HistoryLine

-- `int(payload['partner_id'])` where the field is there and not zero, and the signed points.
pub record LoyaltyPayload : Type 0 where
  pub partner_id : Option ℕ
  pub points : Option ℤ

pub data LoyaltyError : Type 0 where
  unknown_partner no_programme : LoyaltyError

pub data LoyaltyReply : Type 0 where
  loyalty_applied loyalty_flagged : Loyalty → LoyaltyReply
  loyalty_raised : LoyaltyError → LoyaltyReply

-- `Card.search([...partner...], limit=1)`; the programme is the only one that is looked at.
abbrev pub points_of : ℕ → List Card → Option ℤ
points_of p [] = none
points_of p (c ∷ cs) = if c.partner == p then some c.points else points_of p cs

-- `_loyalty_card`: the partner's card, minted with no points on first use.
abbrev pub with_card : ℕ → List Card → Option ℤ → List Card
with_card p cs none = cs ++ record { partner = p; points = pos 0 } ∷ []
with_card p cs (some n) = cs

unfoldable pub loyalty_card : ℕ → List Card → List Card
loyalty_card p cs = with_card p cs (points_of p cs)

abbrev pub balance : ℕ → List Card → ℤ
balance p cs = elim (points_of p cs) [ none ↦ pos 0 | some n ↦ n ]

-- `card.write({'points': ...})`, on the card that the search finds.
abbrev pub write_points : ℕ → ℤ → List Card → List Card
write_points p n [] = []
write_points p n (c ∷ cs) =
    let rest = write_points p n cs in
    if c.partner == p then record c { points = n } ∷ cs else c ∷ rest

abbrev pub history_line : ℕ → ℤ → HistoryLine
history_line p n = record {
  partner = p;
  issued = if ltb_ℤ (pos 0) n then n else pos 0;
  used = if ltb_ℤ n (pos 0) then pos 0 -ℤ n else pos 0;
}

abbrev pub payload_points : LoyaltyPayload → ℤ
payload_points l = elim l.points [ none ↦ pos 0 | some n ↦ n ]

abbrev pub credited : ℕ → ℤ → Loyalty → Loyalty
credited p n l = record {
  cards = write_points p (balance p (loyalty_card p l.cards) +ℤ n) (loyalty_card p l.cards);
  history = history_line p n ∷ l.history;
}

abbrev pub flag_overdrawn : ℕ → Loyalty → LoyaltyReply
flag_overdrawn p l =
    if ltb_ℤ (balance p l.cards) (pos 0) then loyalty_flagged l else loyalty_applied l

module _ (partner_exists : ℕ → Bool) (has_program : Bool) where
  abbrev pub credit_partner : LoyaltyPayload → Loyalty → Option ℕ → LoyaltyReply
  credit_partner t l none = loyalty_raised unknown_partner
  credit_partner t l (some p) =
      if not (p == 0) && partner_exists p
      then if has_program
        then flag_overdrawn p (credited p (payload_points t) l)
        else loyalty_raised no_programme
      else loyalty_raised unknown_partner

  unfoldable pub apply_loyalty_txn : LoyaltyPayload → Loyalty → LoyaltyReply
  apply_loyalty_txn t l = credit_partner t l t.partner_id

  abbrev pub loyalty_after : Loyalty → LoyaltyReply → Loyalty
  loyalty_after l (loyalty_applied l') = l'
  loyalty_after l (loyalty_flagged l') = l'
  loyalty_after l (loyalty_raised e) = l

  abbrev pub apply_txns : List LoyaltyPayload → Loyalty → Loyalty
  apply_txns [] l = l
  apply_txns (t ∷ ts) l = apply_txns ts (loyalty_after l (apply_loyalty_txn t l))
