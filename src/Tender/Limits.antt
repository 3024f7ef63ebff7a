-- ===== src/Tender/Limits.antt =====
-- Who lets a customer account go over its limit, and who approves.
use menes_pos.Pay.Ledger.{PosOrder, Odoo}
use menes_pos.Tender.Policy.{CreditPolicy, hard_block, credit_manager_approval, odoo_warning}
use menes_pos.Tender.Credit.{
  sum, Account, credit_position, credit_warn, AuthError, bad_credentials, insufficient_role,
  Approval, by_manager, by_policy, by_account, credit_gate,
}
use menes_pos.Tender.Pay.{
  Cashier, Request, Shop, approval, prepare, account_of, order_pay, role_rank, find_cashier,
  approve_by, approval_of,
}
use menes_pos.Tender.Booked.{is_booked, tender, order_pay-Booking, refusal-none}
use menes_pos.Prelude.{
  ℕ, String, ◌≡◌, refl, sym, subst, ◌⊎◌, inl, inr, Bool, true, false, not, ◌&&◌, Option, none, some,
  some-injective, List, [], ◌∷◌, arith, ltb, if◌then◌else◌, str_eq, str_eq_iff, Bool-cases, get_or,
  In, or_absent, ℤ, pos, ◌+ℤ◌, ◌-ℤ◌, ◌≤ℤ◌, ltb_ℤ, leb_ℤ, int_laws,
}

-- An active cashier of the database, of whatever branch, in the role of a manager, whose PIN the request
-- carried.
pub record Approver (shop : Shop) (r : Request) (m : ℕ) : Type 0 where
  pub cashier : Cashier
  pub is_theirs : In cashier shop.cashiers
  pub is_active : cashier.active ≡ true
  pub is_manager : cashier.role ≡ "manager"
  pub pin : String
  pub pin_given : r.manager_pin ≡ some pin
  pub pin_right : cashier.check_pin pin ≡ true
  pub same_id : cashier.id ≡ m

found_active :
    (code : String) (cs : List Cashier) (c : Cashier)
    → find_cashier code cs ≡ some c
    → In c cs × (c.active ≡ true)
found_active code [] c h = cc
found_active code (d ∷ ds) c h = elim (Bool-cases (str_eq d.code code && d.active)) [
  | inl hit ↦
      (inl (sym (some-injective _ _ (rw hit at h))), here (some-injective _ _ (rw hit at h)) hit)
  | inr miss ↦ let r = found_active code ds c (rw miss at h) in (inr r.0, r.1)
]
  where
    here : d ≡ c → (str_eq d.code code && d.active) ≡ true → c.active ≡ true
    here e hit = subst (λ (x : Cashier). x.active ≡ true) e (ground arith)

manager_role : (role : String) → ltb (get_or role_rank role 0) 2 ≡ false → role ≡ "manager"
manager_role role h = sym ((str_eq_iff "manager" role).0 (ground arith))

or_absent-some : (o : Option String) (s : String) → or_absent o ≡ some s → o ≡ some s
or_absent-some none s h = cc
or_absent-some (some t) s h = go (str_eq t "") h
  where
    go : (b : Bool) → (if b then none else some t) ≡ some s → some t ≡ some s
    go true e = cc
    go false e = e

-- When the manager's code and PIN of a request pass, they are those of an active manager of the database.
pub approval-Approver :
    (shop : Shop) (r : Request) (m : ℕ) → (approval shop r).manager ≡ some m → Approver shop r m
unfolding approval
approval-Approver shop r m h = by_texts (or_absent r.manager_code) (or_absent r.manager_pin) refl h
  where
    facts :
        (pin : String) (c : Cashier)
        → (approve_by pin (some c)).manager ≡ some m
        → (c.check_pin pin ≡ true) × (ltb (get_or role_rank c.role 0) 2 ≡ false) × (c.id ≡ m)
    facts pin c e = passes (c.check_pin pin) (ltb (get_or role_rank c.role 0) 2) e
      where
        passes :
            (a b : Bool)
            → (if◌then◌else◌ {A = Approval}
                (not a)
                (record { manager = none; auth_error = some bad_credentials })
                (if◌then◌else◌ {A = Approval} b
                  (record { manager = none; auth_error = some insufficient_role })
                  (record { manager = some c.id; auth_error = none }))).manager
              ≡ some m
            → (a ≡ true) × (b ≡ false) × (c.id ≡ m)
        passes false b e = cc
        passes true true e = cc
        passes true false e = (refl, refl, some-injective _ _ e)

    by_cashier :
        (code pin : String) (o : Option Cashier)
        → r.manager_pin ≡ some pin
        → find_cashier code shop.cashiers ≡ o
        → (approve_by pin o).manager ≡ some m
        → Approver shop r m
    by_cashier code pin none given found e = cc
    by_cashier code pin (some c) given found e =
        let (right, rank, same) = facts pin c e in
        let (theirs, active) = found_active code shop.cashiers c found in
        record {
          cashier = c;
          is_theirs = theirs;
          is_active = active;
          is_manager = manager_role c.role rank;
          pin = pin;
          pin_given = given;
          pin_right = right;
          same_id = same;
        }

    by_texts :
        (code pin : Option String)
        → or_absent r.manager_pin ≡ pin
        → (approval_of shop.cashiers code pin).manager ≡ some m
        → Approver shop r m
    by_texts none pin p e = cc
    by_texts (some code) none p e = cc
    by_texts (some code) (some pin) p e =
        by_cashier code pin (find_cashier code shop.cashiers) (or_absent-some r.manager_pin pin p)
          refl e

-- Why a tender may be charged to an account: there is no limit, it stays within it, or the method's
-- policy was answered.
pub data Reason (shop : Shop) (r : Request) (account : Account) (n : ℤ) : Type 0 where
  no_limit : (credit_position account n).limit_active ≡ false → Reason shop r account n
  within_limit :
      (credit_position account n).projected ≤ℤ account.credit_limit → Reason shop r account n
  approved_by :
      (m : ℕ)
      → shop.method.credit_policy ≡ credit_manager_approval
      → Approver shop r m
      → Reason shop r account n
  warned :
      shop.method.credit_policy ≡ odoo_warning → r.allow_credit ≡ true → Reason shop r account n

over-within :
    (account : Account) (n : ℤ)
    → (credit_position account n).limit_active ≡ true
    → leb_ℤ (credit_position account n).over (pos 0) ≡ true
    → (credit_position account n).projected ≤ℤ account.credit_limit
unfolding credit_position
over-within account n active h = back (account.credit +ℤ sum account.session_pay_later +ℤ n) (
    low _ ((account.credit +ℤ sum account.session_pay_later +ℤ n) -ℤ account.credit_limit) active h)
  where
    low :
        (b : Bool) (x : ℤ)
        → b ≡ true
        → leb_ℤ (if b && ltb_ℤ (pos 0) x then x else pos 0) (pos 0) ≡ true
        → x ≤ℤ pos 0
    low b x e h = ground arith

    back : (y : ℤ) → y -ℤ account.credit_limit ≤ℤ pos 0 → y ≤ℤ account.credit_limit
    back y h = omega int_laws

policy-Reason :
    (shop : Shop) (r : Request) (account : Account) (n : ℤ) (p : CreditPolicy)
    → shop.method.credit_policy ≡ p
    → by_policy p (approval shop r) r.allow_credit ≡ none
    → Reason shop r account n
policy-Reason shop r account n hard_block e h = cc
policy-Reason shop r account n odoo_warning e h = warned e (yes r.allow_credit h)
  where
    yes : (b : Bool) → (if b then none else some credit_warn) ≡ none → b ≡ true
    yes true q = refl
    yes false q = cc
policy-Reason shop r account n credit_manager_approval e h = go (approval shop r).manager refl h
  where
    go :
        (o : Option ℕ)
        → (approval shop r).manager ≡ o
        → by_manager (record { manager = o; auth_error = (approval shop r).auth_error }) ≡ none
        → Reason shop r account n
    go (some m) q x = approved_by m e (approval-Approver shop r m q)
    go none q x = absurd (refuses (approval shop r).auth_error x)
      where
        refuses :
            (o : Option AuthError)
            → by_manager (record { manager = none; auth_error = o }) ≡ none
            → ⊥
        refuses none y = cc
        refuses (some z) y = cc

account-Reason :
    (shop : Shop) (r : Request) (n : ℤ) (o : Option Account)
    → by_account shop.method n (approval shop r) r.allow_credit o ≡ none
    → (account : Account) × (o ≡ some account) × Reason shop r account n
account-Reason shop r n none h = cc
account-Reason shop r n (some account) h = (
  account,
  refl,
  go (Bool-cases (credit_position account n).limit_active)
      (Bool-cases (leb_ℤ (credit_position account n).over (pos 0))),
)
  where
    go :
        ((credit_position account n).limit_active ≡ true)
          ⊎ ((credit_position account n).limit_active ≡ false)
        → (leb_ℤ (credit_position account n).over (pos 0) ≡ true)
          ⊎ (leb_ℤ (credit_position account n).over (pos 0) ≡ false)
        → Reason shop r account n
    go (inr off) o = no_limit off
    go (inl on) (inl low) = within_limit (over-within account n on low)
    go (inl on) (inr high) =
        policy-Reason shop r account n shop.method.credit_policy refl (rw (on, high) at h)

-- When a tender of a customer account is booked, the order, once the request's customer is set on an
-- order without one, has a customer; and this customer's account has no active limit, or its exposure
-- with the tender is within the limit, or the policy asks for a manager and the request has the right
-- PIN of an active cashier with the manager's role, of whatever branch, or the policy only warns and the
-- request says to go on. With a hard block, only the first two are left.
pub order_pay-credit :
    (odoo : Odoo) (strip : String → String) (shop : Shop) (r : Request) (o : PosOrder)
    → is_booked (order_pay odoo strip shop r o).1 ≡ true
    → shop.method.is_customer_account ≡ true
    → (account : Account) × (account_of shop (prepare r o) ≡ some account)
      × Reason shop r account (tender odoo strip r o)
unfolding credit_gate approval
order_pay-credit odoo strip shop r o h mode =
    let b = order_pay-Booking odoo strip shop r o h in
    let (positive, within, credit) = refusal-none strip shop r (prepare r o) b.not_refused in
    account-Reason shop r (tender odoo strip r o) (account_of shop (prepare r o))
      (rw mode at credit)
