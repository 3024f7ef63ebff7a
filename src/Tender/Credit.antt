-- ===== src/Tender/Credit.antt =====
-- addons/mezze_bridge: `_mezze_credit_position` of models/mezze_customer_credit.py and
-- `_mezze_credit_gate` of controllers/main.py, in minor units. The row lock and the audit lines are not
-- modelled; the receivable, the open payments and the limit are Odoo's.
use menes_pos.Tender.Policy.{
  Method, CreditPolicy, odoo_warning, credit_manager_approval, hard_block,
}
use menes_pos.Prelude.{
  ℕ, Bool, not, ◌&&◌, ◌||◌, Option, none, some, List, [], ◌∷◌, if◌then◌else◌, ℤ, pos, ◌+ℤ◌, ◌-ℤ◌,
  ltb_ℤ, leb_ℤ,
}

-- The commercial partner's account: `credit`, the pay-later payments of sessions that are not closed,
-- `credit_limit`, and whether company and partner use it.
pub record Account : Type 0 where
  pub credit : ℤ
  pub session_pay_later : List ℤ
  pub credit_limit : ℤ
  pub uses_limit : Bool

abbrev pub sum : List ℤ → ℤ
sum [] = pos 0
sum (x ∷ xs) = x +ℤ sum xs

pub record Position : Type 0 where
  pub exposure : ℤ
  pub limit : ℤ
  pub limit_active : Bool
  pub available : Option ℤ
  pub projected : ℤ
  pub over : ℤ

unfoldable pub credit_position : Account → ℤ → Position
credit_position a extra =
    let exposure = a.credit +ℤ sum a.session_pay_later in
    let active = a.uses_limit && ltb_ℤ (pos 0) a.credit_limit in
    let projected = exposure +ℤ extra in
    let over = projected -ℤ a.credit_limit in
    record {
      exposure = exposure;
      limit = a.credit_limit;
      limit_active = active;
      available = if active then some (a.credit_limit -ℤ exposure) else none;
      projected = projected;
      over = if active && ltb_ℤ (pos 0) over then over else pos 0;
    }

pub data AuthError : Type 0 where
  bad_credentials insufficient_role : AuthError

pub data CreditError : Type 0 where
  customer_required credit_blocked credit_needs_manager credit_warn : CreditError
  credit_auth : AuthError → CreditError

-- The manager whose PIN came with the request, or why there is none; nothing when none was given.
pub record Approval : Type 0 where
  pub manager : Option ℕ
  pub auth_error : Option AuthError

abbrev pub by_manager : Approval → Option CreditError
by_manager a = elim a.manager [
  | some m ↦ none
  | none ↦ elim a.auth_error [ some e ↦ some (credit_auth e) | none ↦ some credit_needs_manager ]
]

abbrev pub by_policy : CreditPolicy → Approval → Bool → Option CreditError
by_policy hard_block a allow_credit = some credit_blocked
by_policy credit_manager_approval a allow_credit = by_manager a
by_policy odoo_warning a allow_credit = if allow_credit then none else some credit_warn

abbrev pub by_account : Method → ℤ → Approval → Bool → Option Account → Option CreditError
by_account m tender a allow_credit none = some customer_required
by_account m tender a allow_credit (some account) =
    let position = credit_position account tender in
    if not position.limit_active || leb_ℤ position.over (pos 0)
    then none
    else by_policy m.credit_policy a allow_credit

-- `account` is none for an order without a customer. None: the tender may go on.
unfoldable pub credit_gate : Method → ℤ → Approval → Bool → Option Account → Option CreditError
credit_gate m tender a allow_credit account =
    if not m.is_customer_account then none else by_account m tender a allow_credit account
